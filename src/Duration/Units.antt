-- ===== src/Duration/Units.antt =====
-- The units of cmd/duration.go, its leadingInt, and its errors. An int64 that is not negative is a number below
-- 2 ^ 63; a sum or product is reduced modulo 2 ^ 64 and negative from 2 ^ 63 on.
use mc.Base.{
  ℕ, zero, suc, ◌+◌, ◌-◌, ◌*◌, ◌/◌, ◌%◌, ◌^◌, Bool, true, false, not, ◌&&◌, Option, none, some,
  List, [], ◌∷◌, ltb, leb, if◌then◌else◌, length, drop,
}
use mc.Base.Strings.{Bytes, codes, has_prefix}
use mc.Base.Dict.{Dict}

abbrev pub max_int64 : ℕ
max_int64 = 2 ^ 63 - 1

abbrev pub is_negative : ℕ → Bool
is_negative w = leb (2 ^ 63) w

abbrev pub is_digit : ℕ → Bool
is_digit c = leb b'0' c && leb c b'9'

-- The loop of leadingInt; `none` is its error.
unfoldable pub leading_int : ℕ → Bytes → Option (ℕ × Bytes)
leading_int x [] = some (x, [])
leading_int x (c ∷ s) =
    let next = (x * 10 + (c - b'0')) % 2 ^ 64 in
    if not (is_digit c)
    then some (x, c ∷ s)
    else if ltb (max_int64 / 10) x
    then none
    else if is_negative next
    then none
    else leading_int next s

abbrev pub nanosecond : ℕ
nanosecond = 1

abbrev pub microsecond : ℕ
microsecond = 1000 * nanosecond

abbrev pub millisecond : ℕ
millisecond = 1000 * microsecond

abbrev pub second : ℕ
second = 1000 * millisecond

abbrev pub minute : ℕ
minute = 60 * second

abbrev pub hour : ℕ
hour = 60 * minute

abbrev pub day : ℕ
day = hour * 24

abbrev pub week : ℕ
week = day * 7

abbrev pub year : ℕ
year = day * 365

-- unitMap; the micro sign and the Greek letter are written by their bytes.
abbrev pub unit_map : Dict ℕ
unit_map =
    (codes "ns", nanosecond)
    ∷ (codes "us", microsecond)
    ∷ (0xc2 ∷ 0xb5 ∷ codes "s", microsecond)
    ∷ (0xce ∷ 0xbc ∷ codes "s", microsecond)
    ∷ (codes "ms", millisecond)
    ∷ (codes "s", second)
    ∷ (codes "m", minute)
    ∷ (codes "h", hour)
    ∷ (codes "d", day)
    ∷ (codes "w", week)
    ∷ (codes "y", year)
    ∷ []

pub data DurationError : Type 0 where
  empty_duration invalid_duration missing_unit : DurationError
  unknown_unit : Bytes → DurationError

-- A time.Duration: its sign and its size.
pub record Duration : Type 0 where
  pub negative : Bool
  pub size : ℕ

pub data Parsed (A : Type 0) : Type 0 where
  ok : A → Parsed A
  err : DurationError → Parsed A

-- The code points that strings.TrimSpace drops, as bytes.
abbrev spaces : List Bytes
spaces =
    codes " "
    ∷ (9 ∷ [])
    ∷ (10 ∷ [])
    ∷ (11 ∷ [])
    ∷ (12 ∷ [])
    ∷ (13 ∷ [])
    ∷ (0xc2 ∷ 0x85 ∷ [])
    ∷ (0xc2 ∷ 0xa0 ∷ [])
    ∷ (0xe1 ∷ 0x9a ∷ 0x80 ∷ [])
    ∷ (0xe2 ∷ 0x80 ∷ 0x80 ∷ [])
    ∷ (0xe2 ∷ 0x80 ∷ 0x81 ∷ [])
    ∷ (0xe2 ∷ 0x80 ∷ 0x82 ∷ [])
    ∷ (0xe2 ∷ 0x80 ∷ 0x83 ∷ [])
    ∷ (0xe2 ∷ 0x80 ∷ 0x84 ∷ [])
    ∷ (0xe2 ∷ 0x80 ∷ 0x85 ∷ [])
    ∷ (0xe2 ∷ 0x80 ∷ 0x86 ∷ [])
    ∷ (0xe2 ∷ 0x80 ∷ 0x87 ∷ [])
    ∷ (0xe2 ∷ 0x80 ∷ 0x88 ∷ [])
    ∷ (0xe2 ∷ 0x80 ∷ 0x89 ∷ [])
    ∷ (0xe2 ∷ 0x80 ∷ 0x8a ∷ [])
    ∷ (0xe2 ∷ 0x80 ∷ 0xa8 ∷ [])
    ∷ (0xe2 ∷ 0x80 ∷ 0xa9 ∷ [])
    ∷ (0xe2 ∷ 0x80 ∷ 0xaf ∷ [])
    ∷ (0xe2 ∷ 0x81 ∷ 0x9f ∷ [])
    ∷ (0xe3 ∷ 0x80 ∷ 0x80 ∷ [])
    ∷ []

unfoldable pub strip_one : List Bytes → Bytes → Option Bytes
strip_one [] s = none
strip_one (p ∷ ps) s = if has_prefix s p then some (drop (length p) s) else strip_one ps s

-- strings.TrimSpace(s) == "", in as many steps as the text has bytes.
unfoldable pub blank_within : ℕ → Bytes → Bool
blank_within fuel [] = true
blank_within zero (c ∷ s) = false
blank_within (suc fuel) (c ∷ s) = elim (strip_one spaces (c ∷ s)) [
  | none ↦ false
  | some rest ↦ blank_within fuel rest
]

unfoldable pub is_blank : Bytes → Bool
unfolding blank_within strip_one
is_blank s = blank_within (length s) s
