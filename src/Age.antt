-- ===== src/Age.antt =====
-- isOlder and isNewer of cmd/utils.go.
use mc.Base.{
  ℕ, ◌+◌, ◌-◌, ◌^◌, Bool, true, false, not, Option, none, some, List, [], ◌∷◌, ◌≡◌, ◌≢◌, leb, ltb,
  if◌then◌else◌, arith, Option-cases, inl, inr,
}
use mc.Base.Strings.{Bytes, codes, str_eq}
use mc.Base.Strings.Laws.{str_eq_iff}
use mc.Content.{Time}
use mc.Duration.Units.{Duration, ok, err}
use mc.Duration.Parse.{Float64, parse_duration}
use mc.Find.Match.{Ages, negated}

-- The present time, and time.Parse for a layout.
pub record Clock : Type 0 where
  pub now : Time
  pub parse : Bytes → Bytes → Option Time

abbrev pub rewind_supported_format : List Bytes
rewind_supported_format =
    codes "2006.01.02"
    ∷ codes "2006.01.02T15:04"
    ∷ codes "2006.01.02T15:04:05"
    ∷ codes "2006-01-02T15:04:05Z07:00"
    ∷ codes "2006-01-02 15:04:05 MST"
    ∷ []

-- d < e, for durations with a sign
abbrev above_zero : Duration → ℕ
above_zero d = if d.negative then 0 else d.size

abbrev below_zero : Duration → ℕ
below_zero d = if d.negative then d.size else 0

unfoldable pub shorter : Duration → Duration → Bool
shorter d e = ltb (above_zero d + below_zero e) (above_zero e + below_zero d)

abbrev at_most : ℕ → ℕ → ℕ
at_most limit n = if leb n limit then n else limit

module _ (c : Clock) (fl : Float64) where
  -- time.Since, which stays in the range of an int64.
  unfoldable pub since : Time → Duration
  since t =
      if leb t c.now
      then record { negative = false; size = at_most (2 ^ 63 - 1) (c.now - t) }
      else record { negative = true; size = at_most (2 ^ 63) (t - c.now) }

  -- The loop over the layouts.
  abbrev parse_first : List Bytes → Bytes → Option Time
  parse_first [] s = none
  parse_first (format ∷ formats) s = elim (c.parse format s) [
    | some t ↦ some t
    | none ↦ parse_first formats s
  ]

  -- The limit of age, as a duration or as a time; `none` ends the program.
  unfoldable pub age_limit : Bytes → Option Duration
  age_limit ref = elim (parse_duration fl ref) [
    | none ↦ none
    | some (ok d) ↦ some d
    | some (err e) ↦ elim (parse_first rewind_supported_format ref) [
      | none ↦ none
      | some t ↦ some (since t)
    ]
  ]

  unfoldable pub is_older : Time → Bytes → Option Bool
  is_older t ref =
      if str_eq ref []
      then some false
      else elim (age_limit ref) [ none ↦ none | some d ↦ some (shorter (since t) d) ]

  unfoldable pub is_newer : Time → Bytes → Option Bool
  is_newer t ref =
      if str_eq ref []
      then some false
      else elim (age_limit ref) [ none ↦ none | some d ↦ some (not (shorter (since t) d)) ]

  -- The tests as find takes them.
  abbrev pub ages : Ages
  ages = record { is_older = is_older; is_newer = is_newer }

  -- For a limit that is given, the two tests exclude one another: each ends the program where the
  -- other does, and else exactly one of them holds.
  pub is_newer-is_older :
      (t : Time) (ref : Bytes) → ref ≢ [] → is_newer t ref ≡ negated (is_older t ref)
  unfolding is_newer is_older
  is_newer-is_older t ref n = elim (Option-cases (age_limit ref)) [
    | inl e ↦ ground (arith, str_eq_iff ref [])
    | inr (d, e) ↦ ground (arith, str_eq_iff ref [])
  ]
