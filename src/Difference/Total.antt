-- ===== src/Difference/Total.antt =====
-- The loop of differenceInternal on listings of files, and its end.
use mc.Base.{
  ℕ, zero, suc, ◌+◌, ◌<◌, Option, none, some, List, [], ◌∷◌, ◌≡◌, ◌≢◌, arith, length, All,
}
use mc.Errors.{McError}
use mc.Content.{ClientContent, regular}
use mc.Difference.Compare.{
  Setting, Round, stop, fail, send, unfinished, Outcome, advance, unless_failed, round,
  compare_entries, difference_internal, type_differs,
}

-- A listing of files alone.
abbrev pub Regular : List ClientContent → Type 0
Regular = All (λ c. c.mode ≡ regular)

-- A round that goes on has taken an entry.
abbrev Shrinks : ℕ → Round → Type 0
Shrinks n stop = Unit
Shrinks n (fail e) = Unit
Shrinks n (send ms ss ts) = (length ss + length ts < n) × Regular ss × Regular ts

unless_failed-Shrinks :
    (n : ℕ) (e : Option McError) (r : Round) → Shrinks n r → Shrinks n (unless_failed e r)
unless_failed-Shrinks n none r h = h
unless_failed-Shrinks n (some e) r h = tt

module _ (o : Setting) where
  compare_entries-Shrinks :
      (s : ClientContent) (ss : List ClientContent) (t : ClientContent) (ts : List ClientContent)
      → Regular (s ∷ ss)
      → Regular (t ∷ ts)
      → Shrinks (length (s ∷ ss) + length (t ∷ ts)) (compare_entries o s ss t ts)
  unfolding compare_entries type_differs
  compare_entries-Shrinks s ss t ts h k = ground arith

  round-Shrinks :
      (src tgt : List ClientContent)
      → Regular src
      → Regular tgt
      → Shrinks (length src + length tgt) (round o src tgt)
  unfolding round
  round-Shrinks [] [] h k = tt
  round-Shrinks [] (t ∷ ts) h k = ground arith
  round-Shrinks (s ∷ ss) [] h k = ground arith
  round-Shrinks (s ∷ ss) (t ∷ ts) h k =
      unless_failed-Shrinks _ s.err _
        (unless_failed-Shrinks _ t.err _ (compare_entries-Shrinks s ss t ts h k))

advance-ne-unfinished :
    (n : ℕ) (rest : List ClientContent → List ClientContent → Outcome) (r : Round)
    → Shrinks n r
    → ((ss ts : List ClientContent)
        → length ss + length ts < n
        → Regular ss
        → Regular ts
        → (rest ss ts).ending ≢ unfinished)
    → (advance rest r).ending ≢ unfinished
advance-ne-unfinished n rest stop h k = λ e. cc
advance-ne-unfinished n rest (fail x) h k = λ e. cc
advance-ne-unfinished n rest (send ms ss ts) (lt, hs, ht) k = k ss ts lt hs ht

-- The comparison of two listings of files ends: more rounds than there are entries are enough,
-- whatever the names and whether or not a listing fails.
pub difference_internal_total :
    (o : Setting) (fuel : ℕ) (src tgt : List ClientContent)
    → Regular src
    → Regular tgt
    → length src + length tgt < fuel
    → (difference_internal o fuel src tgt).ending ≢ unfinished
unfolding difference_internal
difference_internal_total o zero src tgt h k lt = absurd (omega arith)
difference_internal_total o (suc fuel) src tgt h k lt =
    advance-ne-unfinished (length src + length tgt) (difference_internal o fuel) (round o src tgt)
      (round-Shrinks o src tgt h k)
      λ ss ts below hs ht. difference_internal_total o fuel ss ts hs ht (omega arith)
