-- ===== src/Find/Exact.antt =====
-- What find prints, against the conditions that its flags name.
use mc.Base.{Bool, true, false, Option, none, some, List, [], ◌∷◌, ◌≡◌, ◌≢◌, refl, arith}
use mc.Base.Strings.Laws.{str_eq_iff}
use mc.Content.{ClientContent}
use mc.Find.Pattern.{Matchers}
use mc.Find.Match.{FindContext, ContentMessage, Ages, message_of, do_find, visit, glacier, Search}
use mc.Find.Conditions.{Matches, match_find_iff}

module _ (m : Matchers) (a : Ages) (ctx : FindContext) where
  -- An entry that is searched for: it was listed without an error, is not in the archive, and meets
  -- the conditions.
  pub record IsWanted (c : ClientContent) : Type 0 where
    pub listed : c.err ≡ none
    pub stored : c.storage_class ≢ glacier
    pub matches : Matches m a ctx (message_of ctx c)

  visit-IsWanted : (c : ClientContent) → visit m a ctx c ≡ some true → IsWanted c
  unfolding visit
  visit-IsWanted c h = record {
    listed = ground (arith, str_eq_iff c.storage_class glacier);
    stored = λ e. ground (arith, str_eq_iff c.storage_class glacier);
    matches = (match_find_iff m a ctx (message_of ctx c)).0 (ground arith);
  }

  IsWanted-visit : (c : ClientContent) → IsWanted c → visit m a ctx c ≡ some true
  unfolding visit
  IsWanted-visit c w = ground (
    arith,
    w.listed,
    w.stored,
    (match_find_iff m a ctx (message_of ctx c)).1 w.matches,
    str_eq_iff c.storage_class glacier,
  )

  -- The messages of the entries of a listing that are searched for, in order.
  pub data Prints : List ClientContent → List ContentMessage → Type 0 where
    prints_nil : Prints [] []
    prints_skip :
        {c : ClientContent} {cs : List ClientContent} {ps : List ContentMessage}
        → ¬ IsWanted c
        → Prints cs ps
        → Prints (c ∷ cs) ps
    prints_add :
        {c : ClientContent} {cs : List ClientContent} {ps : List ContentMessage}
        → IsWanted c
        → Prints cs ps
        → Prints (c ∷ cs) (message_of ctx c ∷ ps)

  -- Where find comes to the end of a listing, the messages that it hands on, to be printed or run,
  -- are exactly those of the entries that were listed without an error, are not in the archive and
  -- meet every condition that a flag names, in the order of the listing.
  pub do_find-Prints :
      (cs : List ClientContent)
      → (do_find m a ctx cs).completed ≡ true
      → Prints cs (do_find m a ctx cs).printed
  unfolding do_find
  do_find-Prints [] = λ h. prints_nil
  do_find-Prints (c ∷ cs) = visited (visit m a ctx c) refl (do_find-Prints cs)
    where
      visited :
          (v : Option Bool)
          → visit m a ctx c ≡ v
          → ((do_find m a ctx cs).completed ≡ true → Prints cs (do_find m a ctx cs).printed)
          → (elim v as (λ _. Search) [
            | none ↦ record { printed = []; completed = false }
            | some false ↦ do_find m a ctx cs
            | some true ↦ record (do_find m a ctx cs) {
              printed = message_of ctx c ∷ (do_find m a ctx cs).printed;
            }
          ]).completed
            ≡ true
          → Prints
              (c ∷ cs)
              (elim v as (λ _. Search) [
                | none ↦ record { printed = []; completed = false }
                | some false ↦ do_find m a ctx cs
                | some true ↦ record (do_find m a ctx cs) {
                  printed = message_of ctx c ∷ (do_find m a ctx cs).printed;
                }
              ]).printed
      visited none e rest h = cc
      visited (some false) e rest h = prints_skip (λ w. let f = IsWanted-visit c w in cc) (rest h)
      visited (some true) e rest h = prints_add (visit-IsWanted c e) (rest h)
