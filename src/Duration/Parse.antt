-- ===== src/Duration/Parse.antt =====
-- ParseDuration of cmd/duration.go.
use mc.Base.{
  ℕ, zero, suc, ◌+◌, ◌-◌, ◌*◌, ◌/◌, ◌%◌, ◌^◌, Bool, false, not, ◌&&◌, ◌||◌, Option, none, some, [],
  ◌∷◌, ltb, ◌==◌, if◌then◌else◌, length,
}
use mc.Base.Strings.{Bytes, codes, str_eq}
use mc.Base.Dict.{lookup}
use mc.Duration.Units.{
  max_int64, is_negative, is_digit, leading_int, unit_map, empty_duration, invalid_duration,
  missing_unit, unknown_unit, Duration, Parsed, ok, err, is_blank,
}

-- float64, as far as the fractions use it; the result of the conversion to int64 is a word of 64
-- bits.
pub record Float64 : Type 1 where
  pub F : Type 0
  pub of_int : ℕ → F
  pub mul : F → F → F
  pub div : F → F → F
  pub to_int64 : F → ℕ

-- The bytes of a unit: all up to a point or a digit.
unfoldable pub span_unit : Bytes → Bytes × Bytes
span_unit [] = ([], [])
span_unit (c ∷ s) =
    let (u, rest) = span_unit s in if c == b'.' || is_digit c then ([], c ∷ s) else (c ∷ u, rest)

unfoldable pub take_sign : Bytes → Bool × Bytes
take_sign [] = (false, [])
take_sign (c ∷ s) = if c == b'-' || c == b'+' then (c == b'-', s) else (false, c ∷ s)

module _ (fl : Float64) where
  -- scale *= 10, once for each digit
  scale_loop : ℕ → fl.F → fl.F
  scale_loop zero scale = scale
  scale_loop (suc n) scale = scale_loop n (fl.mul scale (fl.of_int 10))

  -- The integer part has been read. The fraction: its digits as an integer, the scale, whether
  -- there were digits, and what follows.
  pub record Fraction : Type 0 where
    pub value : ℕ
    pub scale : fl.F
    pub post : Bool
    pub rest : Bytes

  unfoldable pub no_fraction : Bytes → Fraction
  no_fraction s = record { value = 0; scale = fl.of_int 1; post = false; rest = s }

  unfoldable pub read_fraction : Bytes → Option Fraction
  unfolding no_fraction scale_loop
  read_fraction [] = some (no_fraction [])
  read_fraction (c ∷ s) =
      if not (c == b'.') then some (no_fraction (c ∷ s)) else elim (leading_int 0 s) [
        | none ↦ none
        | some (f, rest) ↦ some (record {
          value = f;
          scale = scale_loop (length s - length rest) (fl.of_int 1);
          post = not (length s == length rest);
          rest = rest;
        })
      ]

  -- v += int64(float64(f) * (float64(unit) / scale)), with its test for overflow.
  unfoldable pub add_fraction : ℕ → ℕ → Fraction → Option ℕ
  add_fraction v unit f =
      let sum =
        (v + fl.to_int64 (fl.mul (fl.of_int f.value) (fl.div (fl.of_int unit) f.scale))) % 2 ^ 64 in
      if ltb 0 f.value then (if is_negative sum then none else some sum) else some v

  -- The unit behind the numbers, and the sum with the segments before.
  unfoldable pub add_segment : ℕ → ℕ → Fraction → ℕ → Parsed ℕ
  add_segment d v f unit =
      if ltb (max_int64 / unit) v
      then err invalid_duration
      else elim (add_fraction (v * unit) unit f) [
        | none ↦ err invalid_duration
        | some w ↦
            let sum = (d + w) % 2 ^ 64 in if is_negative sum then err invalid_duration else ok sum
      ]

  -- What the map of the units gives for the unit.
  unfoldable pub with_unit : ℕ → ℕ → Fraction → Bytes × Bytes → Option ℕ → Parsed (ℕ × Bytes)
  with_unit d v f (u, rest) none = err (unknown_unit u)
  with_unit d v f (u, rest) (some unit) = elim (add_segment d v f unit) [
    | err e ↦ err e
    | ok sum ↦ ok (sum, rest)
  ]

  unfoldable pub finish_segment : ℕ → ℕ → Fraction → Parsed (ℕ × Bytes)
  finish_segment d v f =
      let (u, rest) = span_unit f.rest in
      if str_eq u [] then err missing_unit else with_unit d v f (u, rest) (lookup u unit_map)

  -- One round of the loop: the new sum and what is left of the text.
  unfoldable pub read_segment : ℕ → Bytes → Parsed (ℕ × Bytes)
  read_segment d [] = err invalid_duration
  read_segment d (c ∷ s) =
      if not (c == b'.') && not (is_digit c)
      then err invalid_duration
      else elim (leading_int 0 (c ∷ s)) [
        | none ↦ err invalid_duration
        | some (v, rest) ↦ elim (read_fraction rest) [
          | none ↦ err invalid_duration
          | some f ↦
              if length (c ∷ s) == length rest && not f.post
              then err invalid_duration
              else finish_segment d v f
        ]
      ]

  -- The loop, for a number of rounds at most; `none` means that they did not suffice.
  unfoldable pub segments : ℕ → ℕ → Bytes → Option (Parsed ℕ)
  segments fuel d [] = some (ok d)
  segments zero d (c ∷ s) = none
  segments (suc fuel) d (c ∷ s) = elim (read_segment d (c ∷ s)) [
    | err e ↦ some (err e)
    | ok (sum, rest) ↦ segments fuel sum rest
  ]

  abbrev pub with_sign : Bool → Parsed ℕ → Parsed Duration
  with_sign neg (err e) = err e
  with_sign neg (ok d) = ok (record { negative = neg && not (d == 0); size = d })

  -- ParseDuration behind the sign.
  unfoldable pub parse_unsigned : Bool → Bytes → Option (Parsed Duration)
  parse_unsigned neg s =
      if str_eq s (codes "0")
      then some (ok (record { negative = false; size = 0 }))
      else if str_eq s []
      then some (err invalid_duration)
      else elim (segments (length s) 0 s) [ none ↦ none | some r ↦ some (with_sign neg r) ]

  unfoldable pub parse_duration : Bytes → Option (Parsed Duration)
  parse_duration s =
      let (neg, rest) = take_sign s in
      if is_blank s then some (err empty_duration) else parse_unsigned neg rest
