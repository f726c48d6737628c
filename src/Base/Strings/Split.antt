-- ===== src/Base/Strings/Split.antt =====
-- The laws of `split_seq`, the split at a separator of several bytes.
use mc.Base.Tests.{if◌then◌else◌}
use mc.Base.Lists.{length, drop, All}
use Prim.Native.Nat.{ℕ, zero, suc, ◌-◌}
use mathlib.Core.Path.{◌≡◌, refl}
use mathlib.Core.Logic.{◌≢◌}
use mathlib.Core.Option.{none, some}
use mathlib.Core.List.{List, [], ◌∷◌, ◌++◌}
use native.Mathlib.Omega.{arith}
use mc.Base.Strings.{Bytes, has_prefix, index, split_from, split_seq, split_n2, push_first}
use mc.Base.Strings.Laws.{has_prefix-append, has_prefix_iff}

pub split_seq_absent : (s d : Bytes) → index s d ≡ none → split_seq s d ≡ s ∷ []
unfolding split_seq
split_seq_absent [] d h = refl
split_seq_absent (c ∷ s) d h = ground (arith, split_seq_absent s d)

split_from_skip : (p s d : Bytes) → split_from (p ++ s) (length p) d ≡ split_from s 0 d
unfolding split_from
split_from_skip [] s d = refl
split_from_skip (c ∷ p) s d = split_from_skip p s d

split_from_here :
    (e : ℕ) (d rest : Bytes)
    → split_from (e ∷ (d ++ rest)) 0 (e ∷ d) ≡ [] ∷ split_from rest 0 (e ∷ d)
unfolding split_from
split_from_here e d rest =
    ground (arith, has_prefix-append (e ∷ d) rest, split_from_skip d rest (e ∷ d), length_pred d)
  where
    length_pred : (d : Bytes) → suc (length d) - 1 ≡ length d
    length_pred d = omega arith

-- A part that lacks the first byte of the separator is cut off whole.
pub split_seq-append :
    (s : Bytes) (e : ℕ) (d rest : Bytes)
    → All (λ c. c ≢ e) s
    → split_seq (s ++ e ∷ (d ++ rest)) (e ∷ d) ≡ s ∷ split_seq rest (e ∷ d)
unfolding split_seq
split_seq-append [] e d rest h = split_from_here e d rest
split_seq-append (c ∷ s) e d rest h = ground (arith, split_seq-append s e d rest h.1)

-- What the parts of a split spell, with the separator between them.
abbrev pub interleave : Bytes → List Bytes → Bytes
interleave d [] = []
interleave d (p ∷ []) = p
interleave d (p ∷ q ∷ ps) = p ++ (d ++ interleave d (q ∷ ps))

interleave-push_first :
    (c : ℕ) (d : Bytes) (ps : List Bytes) → interleave d (push_first c ps) ≡ c ∷ interleave d ps
interleave-push_first c d [] = refl
interleave-push_first c d (p ∷ []) = refl
interleave-push_first c d (p ∷ q ∷ ps) = refl

interleave-nil :
    (d : Bytes) (s : Bytes) (k : ℕ)
    → interleave d ([] ∷ split_from s k d) ≡ d ++ interleave d (split_from s k d)
unfolding split_from
interleave-nil d [] k = refl
interleave-nil d (c ∷ s) (suc k) = interleave-nil d s k
interleave-nil d (c ∷ s) zero =
    elim (split_from s 0 d)
      as (λ ps.
        interleave d (
          []
          ∷ (if has_prefix (c ∷ s) d then [] ∷ split_from s (length d - 1) d else push_first c ps))
        ≡ d
          ++ interleave d (
              if has_prefix (c ∷ s) d
              then [] ∷ split_from s (length d - 1) d
              else push_first c ps)) [ [] ↦ ground arith | p ∷ ps ↦ ground arith ]

interleave-split_from :
    (s : Bytes) (k : ℕ) (e : ℕ) (d : Bytes) → interleave (e ∷ d) (split_from s k (e ∷ d)) ≡ drop k s
unfolding split_from
interleave-split_from [] zero e d = refl
interleave-split_from [] (suc k) e d = refl
interleave-split_from (c ∷ s) (suc k) e d = interleave-split_from s k e d
interleave-split_from (c ∷ s) zero e d = ground (
  arith,
  interleave-nil (e ∷ d) s (length d),
  length_pred d,
  interleave-push_first c (e ∷ d) (split_from s 0 (e ∷ d)),
  interleave-split_from s (length d) e d,
  interleave-split_from s 0 e d,
  has_prefix_iff (c ∷ s) (e ∷ d),
)
  where
    length_pred : (d : Bytes) → suc (length d) - 1 ≡ length d
    length_pred d = omega arith

-- The parts of a split spell the text again.
pub interleave-split_seq :
    (s : Bytes) (e : ℕ) (d : Bytes) → interleave (e ∷ d) (split_seq s (e ∷ d)) ≡ s
unfolding split_seq
interleave-split_seq s e d = interleave-split_from s 0 e d

-- A text without the separator is the first of the two parts of SplitN.
pub split_n2-append :
    (before after : Bytes) (d : ℕ)
    → All (λ c. c ≢ d) before
    → split_n2 (before ++ d ∷ after) d ≡ (before, some after)
unfolding split_n2
split_n2-append [] after d h = ground arith
split_n2-append (c ∷ before) after d h = ground (arith, split_n2-append before after d h.1)
