-- ===== src/Duration/LeadingInt.antt =====
-- leadingInt of cmd/duration.go against the number that its digits write.
use mc.Base.{
  ℕ, ◌+◌, ◌-◌, ◌*◌, true, false, ◌≡◌, refl, none, some, [], ◌∷◌, ◌++◌, leb, if◌then◌else◌, arith,
}
use mc.Base.Strings.{Bytes}
use mc.Duration.Units.{max_int64, is_digit, leading_int}

-- The number that digits write behind x.
unfoldable pub written : ℕ → Bytes → ℕ
written x [] = x
written x (c ∷ s) = written (x * 10 + (c - b'0')) s

unfoldable pub AllDigits : Bytes → Type 0
AllDigits [] = Unit
AllDigits (c ∷ s) = (is_digit c ≡ true) × AllDigits s

unfoldable pub IsEnd : Bytes → Type 0
IsEnd [] = Unit
IsEnd (c ∷ s) = is_digit c ≡ false

leq-written : (x : ℕ) (ds : Bytes) → leb x (written x ds) ≡ true
unfolding written
leq-written x [] = ground arith
leq-written x (c ∷ s) = ground (arith, leq-written (x * 10 + (c - b'0')) s)

pub leading_int_from :
    (x : ℕ) (ds rest : Bytes)
    → leb x max_int64 ≡ true
    → AllDigits ds
    → IsEnd rest
    → leading_int x (ds ++ rest)
      ≡ (if leb (written x ds) max_int64 then some (written x ds, rest) else none)
unfolding written leading_int AllDigits IsEnd
leading_int_from x [] [] h a e = ground arith
leading_int_from x [] (c ∷ s) h a e = ground arith
leading_int_from x (c ∷ s) rest h a e =
    ground
      (arith, leq-written (x * 10 + (c - b'0')) s, leading_int_from (x * 10 + (c - b'0')) s rest)

-- Digits that write a number of at most 2 ^ 63 - 1 are read as that number, up to the first byte
-- that is no digit; digits that write a larger number, leading zeros or not, are an error.
pub leading_int-digits :
    (ds rest : Bytes)
    → AllDigits ds
    → IsEnd rest
    → leading_int 0 (ds ++ rest)
      ≡ (if leb (written 0 ds) max_int64 then some (written 0 ds, rest) else none)
leading_int-digits ds rest = leading_int_from 0 ds rest refl
