-- ===== src/Difference/SourceOnly.antt =====
-- differenceInternal of cmd/difference.go where it stops at the end of the source, as for a mirror
-- without --remove and --active-active: what it reports of the source is the same.
use mc.Base.{
  ℕ, zero, suc, false, List, [], ◌∷◌, ◌++◌, ◌≡◌, refl, sym, arith, length, All, ◌∙◌, ◌+◌, ◌<◌,
}
use mc.Content.{ClientContent}
use mc.Difference.Compare.{
  Setting, DiffMessage, Outcome, finished, Round, stop, fail, send, advance, round, compare_entries,
  difference_internal, difference_of, source_suffix, target_suffix, source_key, target_key,
  differ_messages, similar_messages,
}
use mc.Difference.Merge.{
  changed_sources, outdated, up_to_date, reported_first, Rising, missing_from, IsSound,
}
use mc.Difference.Refines.{IsListing, difference_internal-IsDifference}

-- Two listings of sound files with valid names, which rise.
pub record AreSorted (o : Setting) (src tgt : List ClientContent) : Type 0 where
  pub source_sound : All (IsSound (source_suffix o)) src
  pub target_sound : All (IsSound (target_suffix o)) tgt
  pub source_rises : Rising (source_key o) src
  pub target_rises : Rising (target_key o) tgt

-- The same comparison, with the target read to the end.
abbrev whole_of : Setting → Setting
whole_of o = record o { source_listing_only = false }

module _ (o : Setting) where
  source_key-whole : (s : ClientContent) → source_key (whole_of o) s ≡ source_key o s
  unfolding source_key
  source_key-whole s = refl

  AreSorted-whole :
      {src tgt : List ClientContent} → AreSorted o src tgt → IsListing (whole_of o) src tgt
  unfolding source_key target_key
  AreSorted-whole a = record {
    whole = refl;
    source_sound = a.source_sound;
    target_sound = a.target_sound;
    source_rises = a.source_rises;
    target_rises = a.target_rises;
  }

  compare_entries-whole :
      (s : ClientContent) (ss : List ClientContent) (t : ClientContent) (ts : List ClientContent)
      → compare_entries (whole_of o) s ss t ts ≡ compare_entries o s ss t ts
  unfolding compare_entries source_key target_key differ_messages similar_messages difference_of
  compare_entries-whole s ss t ts = refl

  missing-whole :
      (src tgt : List ClientContent)
      → missing_from (source_key (whole_of o)) (target_key (whole_of o)) src tgt
        ≡ missing_from (source_key o) (target_key o) src tgt
  unfolding source_key target_key
  missing-whole src tgt = refl

  outdated-whole :
      (src tgt : List ClientContent) → outdated (whole_of o) src tgt ≡ outdated o src tgt
  unfolding up_to_date source_key target_key difference_of
  outdated-whole src tgt = refl

-- What is left of a listing of the target brings nothing that the source has.
module _ (o : Setting) where
  rest_of_target :
      (fuel : ℕ) (ts : List ClientContent)
      → (reported_first (difference_internal o fuel [] ts).messages ≡ [])
        × (changed_sources (difference_internal o fuel [] ts).messages ≡ [])
  unfolding difference_internal round
  rest_of_target zero ts = (refl, refl)
  rest_of_target (suc fuel) [] = (refl, refl)
  rest_of_target (suc fuel) (t ∷ ts) = ground (arith, rest_of_target fuel ts)

reported_first-same :
    (ms a b : List DiffMessage)
    → reported_first a ≡ reported_first b
    → reported_first (ms ++ a) ≡ reported_first (ms ++ b)
reported_first-same [] a b e = e
reported_first-same (m ∷ ms) a b e = ground (arith, reported_first-same ms a b e)

changed_sources-same :
    (ms a b : List DiffMessage)
    → changed_sources a ≡ changed_sources b
    → changed_sources (ms ++ a) ≡ changed_sources (ms ++ b)
changed_sources-same [] a b e = e
changed_sources-same (m ∷ ms) a b e = ground (arith, changed_sources-same ms a b e)

-- Two comparisons that report the same of the source; the first ends if the second does.
record Agrees (a b : Outcome) : Type 0 where
  first : reported_first a.messages ≡ reported_first b.messages
  changed : changed_sources a.messages ≡ changed_sources b.messages
  ends : b.ending ≡ finished → a.ending ≡ finished

Agrees-advance :
    (f g : List ClientContent → List ClientContent → Outcome) (r : Round)
    → ((ss ts : List ClientContent) → Agrees (f ss ts) (g ss ts))
    → Agrees (advance f r) (advance g r)
Agrees-advance f g stop h = record { first = refl; changed = refl; ends = λ e. e }
Agrees-advance f g (fail x) h = record { first = refl; changed = refl; ends = λ e. e }
Agrees-advance f g (send ms ss ts) h =
    let a = h ss ts in
    record {
      first = reported_first-same ms (f ss ts).messages (g ss ts).messages a.first;
      changed = changed_sources-same ms (f ss ts).messages (g ss ts).messages a.changed;
      ends = a.ends;
    }

module _ (o : Setting) where
  round-whole :
      (s : ClientContent) (ss ts : List ClientContent)
      → round (whole_of o) (s ∷ ss) ts ≡ round o (s ∷ ss) ts
  unfolding round
  round-whole s ss [] = refl
  round-whole s ss (t ∷ ts) = rw (compare_entries-whole o s ss t ts) refl

  rest_ends :
      (n : ℕ) (ts : List ClientContent)
      → (difference_internal (whole_of o) n [] ts).ending ≡ finished
      → (difference_internal o n [] ts).ending ≡ finished
  unfolding difference_internal round
  rest_ends zero ts e = e
  rest_ends (suc n) [] e = refl
  rest_ends (suc n) (t ∷ ts) e = ground (arith, rest_ends n ts)

  difference_internal-Agrees :
      (fuel : ℕ) (src tgt : List ClientContent)
      → Agrees (difference_internal o fuel src tgt) (difference_internal (whole_of o) fuel src tgt)
  unfolding difference_internal
  difference_internal-Agrees zero src tgt = record { first = refl; changed = refl; ends = λ e. e }
  difference_internal-Agrees (suc fuel) (s ∷ ss) tgt = rw (round-whole s ss tgt) (
      Agrees-advance (difference_internal o fuel) (difference_internal (whole_of o) fuel)
        (round o (s ∷ ss) tgt) (difference_internal-Agrees fuel))
  difference_internal-Agrees (suc fuel) [] tgt = record {
    first =
        (rest_of_target o (suc fuel) tgt).0 ∙ sym (rest_of_target (whole_of o) (suc fuel) tgt).0;
    changed =
        (rest_of_target o (suc fuel) tgt).1 ∙ sym (rest_of_target (whole_of o) (suc fuel) tgt).1;
    ends = rest_ends (suc fuel) tgt;
  }

  -- Whether or not the target is read to the end, the comparison ends and reports what the target
  -- lacks and what differs there.
  pub source_only :
      (fuel : ℕ) (src tgt : List ClientContent)
      → AreSorted o src tgt
      → length src + length tgt < fuel
      → ((difference_internal o fuel src tgt).ending ≡ finished)
        × (reported_first (difference_internal o fuel src tgt).messages
            ≡ missing_from (source_key o) (target_key o) src tgt)
        × (changed_sources (difference_internal o fuel src tgt).messages ≡ outdated o src tgt)
  source_only fuel src tgt a n =
      let d = difference_internal-IsDifference (whole_of o) fuel src tgt (AreSorted-whole o a) n in
      let g = difference_internal-Agrees fuel src tgt in
      (
        g.ends d.ends,
        g.first ∙ d.first ∙ missing-whole o src tgt,
        g.changed ∙ d.changed ∙ outdated-whole o src tgt,
      )
