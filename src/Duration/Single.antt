-- ===== src/Duration/Single.antt =====
-- ParseDuration of cmd/duration.go on one whole number and a unit.
use mc.Base.{
  ℕ, zero, suc, ◌*◌, ◌/◌, ◌≤◌, true, false, ◌≡◌, ◌≢◌, refl, some, [], ◌∷◌, ◌++◌, leb, length,
  length-append, if◌then◌else◌, arith,
}
use native.Mathlib.Nat.{le-div_iff_mul-le, div-le_self}
use mc.Base.Strings.{Bytes, str_eq}
use mc.Base.Dict.{lookup}
use mc.Duration.Units.{
  max_int64, is_negative, is_digit, leading_int, is_blank, Parsed, ok, err, Duration, unit_map,
  invalid_duration,
}
use mc.Duration.Parse.{
  Float64, span_unit, read_fraction, no_fraction, finish_segment, add_segment, add_fraction,
  with_unit, read_segment, segments, parse_unsigned, parse_duration, take_sign, with_sign,
}
use mc.Duration.LeadingInt.{AllDigits, IsEnd, written, leading_int-digits}

-- A text that is one unit: no byte of it is a digit or the point.
unfoldable pub IsUnit : Bytes → Type 0
IsUnit [] = Unit
IsUnit (c ∷ s) = (is_digit c ≡ false) × (c ≢ b'.') × IsUnit s

span_unit_whole : (u : Bytes) → IsUnit u → span_unit u ≡ (u, [])
unfolding span_unit IsUnit
span_unit_whole [] h = refl
span_unit_whole (c ∷ s) h = ground (arith, span_unit_whole s h.2)

is_blank_digit : (c : ℕ) (s : Bytes) → is_digit c ≡ true → is_blank (c ∷ s) ≡ false
unfolding is_blank mc.Duration.Units.blank_within mc.Duration.Units.strip_one
is_blank_digit c s h = ground arith

append_some : (ds u : Bytes) → u ≢ [] → str_eq (ds ++ u) [] ≡ false
append_some [] [] n = absurd (n refl)
append_some [] (c ∷ u) n = refl
append_some (d ∷ ds) u n = refl

module _ (fl : Float64) where
  read_fraction_none : (u : Bytes) → IsUnit u → read_fraction fl u ≡ some (no_fraction fl u)
  unfolding read_fraction IsUnit
  read_fraction_none [] h = refl
  read_fraction_none (c ∷ s) h = ground arith

  -- What the sum is behind one segment without a fraction.
  abbrev scaled : ℕ → ℕ → Parsed ℕ
  scaled v unit = if leb v (max_int64 / unit) then ok (v * unit) else err invalid_duration

  div_mul : (v unit : ℕ) → v ≤ max_int64 / unit → v * unit ≤ max_int64
  div_mul v zero h = ground arith
  div_mul v (suc n) h = (le-div_iff_mul-le (omega arith)).0 h

  add_segment_whole :
      (v unit : ℕ) (u : Bytes) → add_segment fl 0 v (no_fraction fl u) unit ≡ scaled v unit
  unfolding add_segment add_fraction no_fraction
  add_segment_whole v unit u = ground (arith, div_mul v unit)

  finish_segment_whole :
      (v : ℕ) (u : Bytes) {unit : ℕ}
      → IsUnit u
      → u ≢ []
      → lookup u unit_map ≡ some unit
      → finish_segment fl 0 v (no_fraction fl u)
        ≡ (if leb v (max_int64 / unit) then ok (v * unit, []) else err invalid_duration)
  unfolding finish_segment with_unit no_fraction
  finish_segment_whole v u {unit} h n found =
      rw (span_unit_whole u h, found) (ground (arith, add_segment_whole v unit u))

  IsUnit-IsEnd : (u : Bytes) → IsUnit u → IsEnd u
  unfolding IsUnit IsEnd
  IsUnit-IsEnd [] h = tt
  IsUnit-IsEnd (c ∷ s) h = h.0

  -- A number that does not fit in an int64 does not fit as a multiple of a unit either.
  read_segment_whole :
      (c : ℕ) (ds u : Bytes) {unit : ℕ}
      → AllDigits (c ∷ ds)
      → IsUnit u
      → u ≢ []
      → lookup u unit_map ≡ some unit
      → read_segment fl 0 (c ∷ (ds ++ u)) ≡ (
          if leb (written 0 (c ∷ ds)) (max_int64 / unit)
          then ok (written 0 (c ∷ ds) * unit, [])
          else err invalid_duration)
  unfolding read_segment AllDigits
  read_segment_whole c ds u {unit} a h n found =
      let digits = leading_int-digits (c ∷ ds) u a (IsUnit-IsEnd u h) in
      ground (
        arith,
        digits,
        div-le_self max_int64 unit,
        length-append (c ∷ ds) u,
        read_fraction_none u h,
        finish_segment_whole (written 0 (c ∷ ds)) u h n found,
      )

  segments_whole :
      (fuel c : ℕ) (ds u : Bytes) {unit : ℕ}
      → AllDigits (c ∷ ds)
      → IsUnit u
      → u ≢ []
      → lookup u unit_map ≡ some unit
      → segments fl (suc fuel) 0 (c ∷ (ds ++ u)) ≡ some (scaled (written 0 (c ∷ ds)) unit)
  unfolding segments
  segments_whole zero c ds u a h n found = ground (arith, read_segment_whole c ds u a h n found)
  segments_whole (suc fuel) c ds u a h n found =
      ground (arith, read_segment_whole c ds u a h n found)

  unsigned_whole :
      (c : ℕ) (ds u : Bytes) {unit : ℕ}
      → AllDigits (c ∷ ds)
      → IsUnit u
      → u ≢ []
      → lookup u unit_map ≡ some unit
      → parse_unsigned fl false (c ∷ (ds ++ u))
        ≡ some (with_sign fl false (scaled (written 0 (c ∷ ds)) unit))
  unfolding parse_unsigned
  unsigned_whole c ds u a h n found =
      ground (arith, append_some ds u n, segments_whole (length (ds ++ u)) c ds u a h n found)

-- A whole number and a unit, without a sign: if the number is at most 2 ^ 63 - 1 divided by the
-- unit's length in nanoseconds, the duration is their product, and otherwise the text is refused as
-- invalid, never wrapped around. The number has at least one digit, leading zeros included.
pub parse_duration_single :
    (fl : Float64) (c : ℕ) (ds u : Bytes) {unit : ℕ}
    → AllDigits (c ∷ ds)
    → IsUnit u
    → u ≢ []
    → lookup u unit_map ≡ some unit
    → parse_duration fl (c ∷ (ds ++ u))
      ≡ some (
          if leb (written 0 (c ∷ ds)) (max_int64 / unit)
          then ok (record { negative = false; size = written 0 (c ∷ ds) * unit })
          else err invalid_duration)
unfolding parse_duration take_sign AllDigits
parse_duration_single fl c ds u a h n found =
    ground (arith, is_blank_digit c (ds ++ u) a.0, unsigned_whole fl c ds u a h n found)
