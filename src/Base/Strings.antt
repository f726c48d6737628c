-- ===== src/Base/Strings.antt =====
-- Go's strings as lists of bytes, and the functions of the package `strings` that mc calls.
pub mod Laws
pub mod Split
use mc.Base.Tests.{ltb, leb, ◌==◌, if◌then◌else◌}
use mc.Base.Lists.{length, take, drop}
use Prim.Native.Nat.{ℕ, zero, suc, ◌+◌, ◌-◌}
use Prim.Native.Char.{code}
use Prim.Native.String.{String}
use mathlib.Core.Bool.{Bool, true, false, ◌&&◌, not}
use mathlib.Core.Option.{Option, none, some}
use mathlib.Core.List.{List, [], ◌∷◌, ◌++◌, map}

abbrev pub Bytes : Type 0
Bytes = List ℕ

-- The code points of a literal, which are its bytes where the text is ASCII.
abbrev pub codes : String → Bytes
codes String.[] = []
codes (String.◌∷◌ c s) = code c ∷ codes s

-- s == t
abbrev pub str_eq : Bytes → Bytes → Bool
str_eq [] [] = true
str_eq [] (d ∷ t) = false
str_eq (c ∷ s) [] = false
str_eq (c ∷ s) (d ∷ t) = c == d && str_eq s t

-- s < t, byte by byte
abbrev pub str_lt : Bytes → Bytes → Bool
str_lt s [] = false
str_lt [] (d ∷ t) = true
str_lt (c ∷ s) (d ∷ t) = if c == d then str_lt s t else ltb c d

-- strings.HasPrefix(s, p)
abbrev pub has_prefix : Bytes → Bytes → Bool
has_prefix s [] = true
has_prefix [] (d ∷ p) = false
has_prefix (c ∷ s) (d ∷ p) = c == d && has_prefix s p

-- strings.TrimPrefix(s, p)
unfoldable pub trim_prefix : Bytes → Bytes → Bytes
trim_prefix s p = if has_prefix s p then drop (length p) s else s

-- strings.HasSuffix(s, string(c)), for a suffix of one byte
abbrev pub has_suffix : Bytes → ℕ → Bool
has_suffix [] d = false
has_suffix (c ∷ []) d = c == d
has_suffix (c ∷ e ∷ s) d = has_suffix (e ∷ s) d

-- strings.TrimSuffix(s, string(c)), for a suffix of one byte
abbrev pub trim_suffix : Bytes → ℕ → Bytes
trim_suffix s d = if has_suffix s d then take (length s - 1) s else s

-- strings.Index(s, d); `none` is -1
abbrev pub index : Bytes → Bytes → Option ℕ
index [] d = elim d [ [] ↦ some 0 | _ ↦ none ]
index (c ∷ s) d =
    let rest = index s d in
    if has_prefix (c ∷ s) d then some 0 else elim rest [ none ↦ none | some i ↦ some (suc i) ]

-- bytes.LastIndex(s, string(d)), for a separator of one byte
abbrev pub last_index : Bytes → ℕ → Option ℕ
last_index [] d = none
last_index (c ∷ s) d = elim (last_index s d) [
  | some i ↦ some (suc i)
  | none ↦ if c == d then some 0 else none
]

-- strings.Split(s, string(d)), for a separator of one byte: there is always a part
abbrev pub push_first : ℕ → List Bytes → List Bytes
push_first c [] = (c ∷ []) ∷ []
push_first c (p ∷ ps) = (c ∷ p) ∷ ps

unfoldable pub split : Bytes → ℕ → List Bytes
split [] d = [] ∷ []
split (c ∷ s) d = let rest = split s d in if c == d then [] ∷ rest else push_first c rest

-- strings.Split(s, d), for a separator of several bytes; the number is how much of a separator is
-- still to be passed over.
split_from : Bytes → ℕ → Bytes → List Bytes
split_from [] skip d = [] ∷ []
split_from (c ∷ s) (suc skip) d = split_from s skip d
split_from (c ∷ s) zero d =
    let cut = [] ∷ split_from s (length d - 1) d in
    let copy = push_first c (split_from s 0 d) in if has_prefix (c ∷ s) d then cut else copy

unfoldable pub split_seq : Bytes → Bytes → List Bytes
unfolding split_from
split_seq s d = split_from s 0 d

-- strings.SplitN(s, string(d), 2): the part before the first separator and what follows it
unfoldable pub split_n2 : Bytes → ℕ → Bytes × Option Bytes
split_n2 [] d = ([], none)
split_n2 (c ∷ s) d =
    let (before, after) = split_n2 s d in if c == d then ([], some s) else (c ∷ before, after)

-- strings.ToLower, on ASCII
unfoldable pub to_lower_byte : ℕ → ℕ
to_lower_byte c = if leb b'A' c && leb c b'Z' then c + 32 else c

unfoldable pub to_lower : Bytes → Bytes
unfolding to_lower_byte
to_lower = map to_lower_byte

-- slices.Contains
abbrev pub contains : List Bytes → Bytes → Bool
contains [] a = false
contains (x ∷ xs) a = if str_eq x a then true else contains xs a

-- strings.ToUpper, on ASCII
unfoldable pub to_upper_byte : ℕ → ℕ
to_upper_byte c = if leb b'a' c && leb c b'z' then c - 32 else c

unfoldable pub to_upper : Bytes → Bytes
unfolding to_upper_byte
to_upper = map to_upper_byte
