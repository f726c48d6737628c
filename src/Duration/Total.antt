-- ===== src/Duration/Total.antt =====
-- ParseDuration of cmd/duration.go on an arbitrary text.
use mc.Base.{
  ℕ, zero, suc, ◌+◌, ◌-◌, ◌*◌, ◌%◌, ◌^◌, ◌-◌, ◌&&◌, ◌≤◌, ◌<◌, Bool, true, false, ◌≡◌, refl, Option,
  none, some, [], ◌∷◌, leb, ltb, length, if◌then◌else◌, arith,
}
use mc.Base.Strings.{Bytes, str_eq}
use mc.Duration.Units.{max_int64, leading_int, is_blank, Parsed, ok, err, Duration}
use mc.Duration.Parse.{
  take_sign, Float64, Fraction, span_unit, read_fraction, finish_segment, add_segment, with_unit,
  read_segment, segments, parse_unsigned, parse_duration, with_sign,
}

-- How much of the text is left.
abbrev left : Option (ℕ × Bytes) → ℕ
left none = 0
left (some (v, rest)) = length rest

leading_int-leq : (x : ℕ) (s : Bytes) → left (leading_int x s) ≤ length s
unfolding leading_int
leading_int-leq x [] = ground arith
leading_int-leq x (c ∷ s) = ground (arith, leading_int-leq ((x * 10 + (c - b'0')) % 2 ^ 64) s)

span_unit-length : (s : Bytes) → length (span_unit s).0 + length (span_unit s).1 ≡ length s
unfolding span_unit
span_unit-length [] = refl
span_unit-length (c ∷ s) = ground (arith, span_unit-length s)

length-pos : (s : Bytes) → str_eq s [] ≡ false → 0 < length s
length-pos [] h = ground arith
length-pos (c ∷ s) h = ground arith

-- A segment that is read leaves less than n bytes, and a sum that is an int64 and not negative.
abbrev within : ℕ → Parsed (ℕ × Bytes) → Bool
within n (err e) = true
within n (ok (sum, rest)) = ltb (length rest) n && leb sum max_int64

abbrev small : Parsed ℕ → Bool
small (err e) = true
small (ok sum) = leb sum max_int64

-- The result is there, and a duration in it has a size below 2 ^ 63.
unfoldable pub is_answer : Option (Parsed Duration) → Bool
is_answer none = false
is_answer (some (err e)) = true
is_answer (some (ok d)) = leb d.size max_int64

if-answer :
    (b : Bool) (x y : Option (Parsed Duration))
    → is_answer x ≡ true
    → is_answer y ≡ true
    → is_answer (if b then x else y) ≡ true
if-answer true x y h k = h
if-answer false x y h k = k

module _ (fl : Float64) where
  abbrev left_fraction : Option (Fraction fl) → ℕ
  left_fraction none = 0
  left_fraction (some f) = length f.rest

  read_fraction-leq : (s : Bytes) → left_fraction (read_fraction fl s) ≤ length s
  unfolding read_fraction
  read_fraction-leq [] = ground arith
  read_fraction-leq (c ∷ s) = ground (arith, leading_int-leq 0 s)

  add_segment-small :
      (d v : ℕ) (f : Fraction fl) (unit : ℕ) → small (add_segment fl d v f unit) ≡ true
  unfolding add_segment
  add_segment-small d v f unit = ground arith

  with_unit-within :
      (d v n : ℕ) (f : Fraction fl) (u rest : Bytes) (unit : Option ℕ)
      → length rest < n
      → within n (with_unit fl d v f (u, rest) unit) ≡ true
  unfolding with_unit
  with_unit-within d v n f u rest none h = refl
  with_unit-within d v n f u rest (some unit) h = ground (arith, add_segment-small d v f unit)

  finish_segment-within :
      (d v : ℕ) (f : Fraction fl) → within (length f.rest) (finish_segment fl d v f) ≡ true
  unfolding finish_segment
  finish_segment-within d v f = grind (
    arith,
    span_unit-length f.rest,
    length-pos (span_unit f.rest).0,
    with_unit-within d v (length f.rest) f (span_unit f.rest).0 (span_unit f.rest).1,
  )

  read_segment-within : (d : ℕ) (s : Bytes) → within (length s) (read_segment fl d s) ≡ true
  unfolding read_segment
  read_segment-within d [] = ground arith
  read_segment-within d (c ∷ s) =
      grind (arith, leading_int-leq 0 (c ∷ s), read_fraction-leq, finish_segment-within d)

  -- The loop has come to an end, and its sum is an int64 that is not negative.
  abbrev ended : Option (Parsed ℕ) → Bool
  ended none = false
  ended (some r) = small r

  ended-round :
      (fuel n : ℕ) (r : Parsed (ℕ × Bytes))
      → within n r ≡ true
      → n ≤ suc fuel
      → ((d : ℕ) (s : Bytes)
          → length s ≤ fuel
          → d ≤ max_int64
          → ended (segments fl fuel d s) ≡ true)
      → ended (elim r [ err e ↦ some (err e) | ok (sum, rest) ↦ segments fl fuel sum rest ]) ≡ true
  ended-round fuel n (err e) w h all = refl
  ended-round fuel n (ok (sum, rest)) w h all = all sum rest (ground arith) (ground arith)

  segments-ended :
      (fuel d : ℕ) (s : Bytes)
      → length s ≤ fuel
      → d ≤ max_int64
      → ended (segments fl fuel d s) ≡ true
  unfolding segments
  segments-ended fuel d [] h k = ground arith
  segments-ended zero d (c ∷ s) h k = ground arith
  segments-ended (suc fuel) d (c ∷ s) h k =
      ended-round fuel (length (c ∷ s)) (read_segment fl d (c ∷ s)) (read_segment-within d (c ∷ s))
        h (λ sum rest. segments-ended fuel sum rest)

  signed-answer :
      (neg : Bool) (r : Option (Parsed ℕ))
      → ended r ≡ true
      → is_answer (elim r [ none ↦ none | some p ↦ some (with_sign fl neg p) ]) ≡ true
  unfolding is_answer
  signed-answer neg none h = h
  signed-answer neg (some (err e)) h = refl
  signed-answer neg (some (ok d)) h = h

  unsigned-answer : (neg : Bool) (s : Bytes) → is_answer (parse_unsigned fl neg s) ≡ true
  unfolding parse_unsigned is_answer
  unsigned-answer neg s = ground (
    arith,
    signed-answer neg (segments fl (length s) 0 s)
        (segments-ended (length s) 0 s (omega arith) (omega arith)),
  )

-- On every text the loop ends within as many rounds as the text has bytes, and the result is
-- either an error or a duration whose size is below 2 ^ 63, whatever the floating-point
-- operations return for a fraction.
pub parse_duration_answers : (fl : Float64) (s : Bytes) → is_answer (parse_duration fl s) ≡ true
unfolding parse_duration is_answer
parse_duration_answers fl s =
    if-answer (is_blank s) _ _ refl (unsigned-answer fl (take_sign s).0 (take_sign s).1)
