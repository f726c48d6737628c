-- ===== src/Difference/Stuck.antt =====
-- What happens to two entries of one name of which one is a file and the other is not.
use mc.Base.{ℕ, zero, suc, true, none, List, [], ◌∷◌, ◌≡◌, refl, arith}
use mc.Base.Strings.Laws.{str_lt_irrefl, str_eq_refl}
use mc.Base.Utf8.{valid_string}
use mc.Errors.{in_type}
use mc.Content.{ClientContent}
use mc.Difference.Compare.{
  send, Setting, DiffMessage, both, unfinished, round, compare_entries, difference_internal,
  type_differs, source_suffix, target_suffix, source_key, target_key,
}

abbrev pub repeat : ℕ → DiffMessage → List DiffMessage
repeat zero m = []
repeat (suc n) m = m ∷ repeat n m

-- Two sound entries with valid names, which are the same, and of different types.
pub record IsClash (o : Setting) (s t : ClientContent) : Type 0 where
  pub source_sound : s.err ≡ none
  pub target_sound : t.err ≡ none
  pub source_valid : valid_string (source_suffix o s) ≡ true
  pub target_valid : valid_string (target_suffix o t) ≡ true
  pub same_name : source_key o s ≡ target_key o t
  pub types : type_differs s t ≡ true

module _ (o : Setting) {s t : ClientContent} (clash : IsClash o s t) where
  round_clash :
      (ss ts : List ClientContent)
      → round o (s ∷ ss) (t ∷ ts) ≡ send (both in_type s t ∷ []) (s ∷ ss) (t ∷ ts)
  unfolding round compare_entries
  round_clash ss ts =
      ground (arith, str_lt_irrefl (target_key o t), str_eq_refl (target_key o t), clash.same_name)

-- At such a pair the loop never ends: however many rounds it is given, it takes no entry and
-- spends every round on one more report of the same difference in type.
pub difference_internal_stuck :
    (o : Setting) (s t : ClientContent) (ss ts : List ClientContent) (fuel : ℕ)
    → IsClash o s t
    → difference_internal o fuel (s ∷ ss) (t ∷ ts)
      ≡ record { messages = repeat fuel (both in_type s t); ending = unfinished }
unfolding difference_internal
difference_internal_stuck o s t ss ts zero clash = refl
difference_internal_stuck o s t ss ts (suc fuel) clash =
    rw (round_clash o clash ss ts, difference_internal_stuck o s t ss ts fuel clash)
