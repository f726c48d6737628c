-- ===== src/Tests/Durations.antt =====
-- Runs of the parser of durations.
use mc.Base.{
  ℕ, ◌+◌, ◌*◌, ◌/◌, Bool, true, false, Option, none, some, List, [], ◌∷◌, ◌++◌, ◌≡◌, ◌≢◌, refl, leb,
  arith, if◌then◌else◌,
}
use mc.Base.Strings.{codes}
use mc.Duration.Units.{leading_int, max_int64, Duration, ok, err, invalid_duration, unit_map}
use mc.Duration.Parse.{Float64, parse_duration}
use mc.Duration.LeadingInt.{AllDigits, IsEnd, written}
use mc.Duration.Single.{IsUnit, parse_duration_single}
use mc.Base.Dict.{lookup}
use mc.Duration.Total.{is_answer, parse_duration_answers}

-- Quotients of numbers, which are exact where a fraction is a whole number of nanoseconds.
abbrev quotients : Float64
quotients = record {
  F = ℕ × ℕ;
  of_int = λ n. (n, 1);
  mul = λ a b. (a.0 * b.0, a.1 * b.1);
  div = λ a b. (a.0 * b.1, a.1 * b.0);
  to_int64 = λ a. a.0 / a.1;
}

digits : AllDigits (codes "0042")
unfolding AllDigits
digits = (refl, (refl, (refl, (refl, tt))))

end : IsEnd (codes "h")
unfolding IsEnd
end = refl

parse_duration_answers_example : is_answer (parse_duration quotients (codes "1h2.5s")) ≡ true
parse_duration_answers_example = parse_duration_answers quotients (codes "1h2.5s")

parse_hours :
    parse_duration quotients (codes "-1h2.5s")
    ≡ some (ok (record { negative = true; size = 3602500000000 }))
unfolding parse_duration mc.Duration.Units.is_blank mc.Duration.Parse.parse_unsigned
    mc.Duration.Parse.take_sign mc.Duration.Parse.segments mc.Duration.Parse.read_segment
    leading_int mc.Duration.Parse.read_fraction mc.Duration.Parse.finish_segment
    mc.Duration.Parse.span_unit mc.Duration.Parse.with_unit mc.Base.Dict.lookup
    mc.Duration.Parse.add_segment mc.Duration.Parse.add_fraction
parse_hours = refl

day_digits : AllDigits (b'1' ∷ codes "5")
unfolding AllDigits
day_digits = (refl, (refl, tt))

day-IsUnit : IsUnit (codes "d")
unfolding IsUnit
day-IsUnit = (refl, ground arith, tt)

some_unit : codes "d" ≢ []
some_unit = ground arith

day_length : lookup (codes "d") unit_map ≡ some 86400000000000
unfolding lookup
day_length = refl

parse_duration_single_example :
    parse_duration quotients (b'1' ∷ (codes "5" ++ codes "d"))
    ≡ some (
        if leb (written 0 (b'1' ∷ codes "5")) (max_int64 / 86400000000000)
        then ok (record { negative = false; size = written 0 (b'1' ∷ codes "5") * 86400000000000 })
        else err invalid_duration)
parse_duration_single_example =
    parse_duration_single quotients b'1' (codes "5") (codes "d") day_digits day-IsUnit some_unit
      day_length
