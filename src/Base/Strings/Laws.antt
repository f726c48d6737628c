-- ===== src/Base/Strings/Laws.antt =====
-- The laws of the string functions.
use mathlib.Core.List.{[], ◌∷◌, ◌++◌}
use mathlib.Core.Path.{◌≡◌, refl}
use mathlib.Core.Logic.{◌↔◌, ◌⊎◌, inl, inr}
use mathlib.Core.Bool.{true, false}
use mathlib.Core.Option.{none, some}
use Prim.Native.Nat.{ℕ}
use native.Mathlib.Omega.{arith}
use mc.Base.Lists.{length, drop, drop-append}
use mc.Base.Strings.{Bytes, str_eq, str_lt, has_prefix, trim_prefix, last_index}

pub str_eq_iff : (s t : Bytes) → (str_eq s t ≡ true) ↔ (s ≡ t)
str_eq_iff [] [] = ground arith
str_eq_iff [] (d ∷ t) = ground arith
str_eq_iff (c ∷ s) [] = ground arith
str_eq_iff (c ∷ s) (d ∷ t) = ground (arith, str_eq_iff s t)

pub str_eq_refl : (s : Bytes) → str_eq s s ≡ true
str_eq_refl s = (str_eq_iff s s).1 refl

pub str_lt_irrefl : (s : Bytes) → str_lt s s ≡ false
str_lt_irrefl [] = refl
str_lt_irrefl (c ∷ s) = ground (arith, str_lt_irrefl s)

pub str_lt_trans : (s t u : Bytes) → str_lt s t ≡ true → str_lt t u ≡ true → str_lt s u ≡ true
str_lt_trans s t [] h k = ground arith
str_lt_trans s [] (e ∷ u) h k = ground arith
str_lt_trans [] (d ∷ t) (e ∷ u) h k = refl
str_lt_trans (c ∷ s) (d ∷ t) (e ∷ u) h k = ground (arith, str_lt_trans s t u)

pub str_lt_asymm : (s t : Bytes) → str_lt s t ≡ true → str_lt t s ≡ false
str_lt_asymm s [] h = ground arith
str_lt_asymm [] (d ∷ t) h = refl
str_lt_asymm (c ∷ s) (d ∷ t) h = ground (arith, str_lt_asymm s t)

-- Two different strings are ordered one way or the other.
pub str_lt_total : (s t : Bytes) → str_lt s t ≡ false → str_eq t s ≡ false → str_lt t s ≡ true
str_lt_total [] [] h k = ground arith
str_lt_total [] (d ∷ t) h k = ground arith
str_lt_total (c ∷ s) [] h k = refl
str_lt_total (c ∷ s) (d ∷ t) h k = ground (arith, str_lt_total s t)

pub has_prefix-append : (p s : Bytes) → has_prefix (p ++ s) p ≡ true
has_prefix-append [] [] = refl
has_prefix-append [] (c ∷ s) = refl
has_prefix-append (d ∷ p) s = ground (arith, has_prefix-append p s)

pub has_prefix_iff : (s p : Bytes) → has_prefix s p ≡ true → p ++ drop (length p) s ≡ s
has_prefix_iff [] [] h = refl
has_prefix_iff (c ∷ s) [] h = refl
has_prefix_iff [] (d ∷ p) h = ground arith
has_prefix_iff (c ∷ s) (d ∷ p) h = ground (arith, has_prefix_iff s p)

pub trim_prefix-append : (p s : Bytes) → trim_prefix (p ++ s) p ≡ s
unfolding trim_prefix
trim_prefix-append p s = ground (arith, has_prefix-append p s, drop-append p s)

-- Of two prefixes of one string, one is a prefix of the other.
pub has_prefix_nested :
    (s p q : Bytes)
    → has_prefix s p ≡ true
    → has_prefix s q ≡ true
    → (has_prefix p q ≡ true) ⊎ (has_prefix q p ≡ true)
has_prefix_nested s [] [] h k = inl refl
has_prefix_nested s [] (e ∷ q) h k = inr refl
has_prefix_nested s (d ∷ p) [] h k = inl refl
has_prefix_nested [] (d ∷ p) (e ∷ q) h k = ground arith
has_prefix_nested (c ∷ s) (d ∷ p) (e ∷ q) h k = ground (arith, has_prefix_nested s p q)

-- A prefix that is as long as the string is the string.
pub has_prefix_antisym : (p q : Bytes) → has_prefix p q ≡ true → has_prefix q p ≡ true → p ≡ q
has_prefix_antisym [] [] h k = refl
has_prefix_antisym [] (e ∷ q) h k = ground arith
has_prefix_antisym (d ∷ p) [] h k = ground arith
has_prefix_antisym (d ∷ p) (e ∷ q) h k = ground (arith, has_prefix_antisym p q)

pub last_index-append :
    (s t : Bytes) (d : ℕ) → last_index t d ≡ none → last_index (s ++ d ∷ t) d ≡ some (length s)
last_index-append [] t d h = ground arith
last_index-append (c ∷ s) t d h = ground (arith, last_index-append s t d h)
