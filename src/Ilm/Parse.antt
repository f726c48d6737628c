-- ===== src/Ilm/Parse.antt =====
-- The parsers of cmd/ilm/parse.go.
use mc.Base.{Bool, false, Option, none, some, List, [], ◌∷◌, ◌==◌, if◌then◌else◌}
use mc.Base.Strings.{Bytes, str_eq, split, split_n2}
use mc.Base.Int.{ℤ, atoi, is_zero}
use mc.Content.{Time}
use mc.Ilm.Rule.{
  Tag, Expiration, Transition, Lifecycle, no_expiration, no_transition, IlmError, bad_date,
  bad_days, zero_expiration_date, zero_expiration_days,
}

pub data Result (A : Type 0) : Type 0 where
  ok : A → Result A
  err : IlmError → Result A

infixl 5 ◌>>=◌
abbrev pub ◌>>=◌ : {A B : Type 0} → Result A → (A → Result B) → Result B
ok a >>= f = f a
err e >>= f = err e

-- A tag from the two parts of SplitN.
abbrev pub tag_of : Bytes × Option Bytes → Tag
tag_of (key, some value) = record { key = key; value = value }
tag_of (key, none) = record { key = key; value = [] }

-- The loop over the parts.
unfoldable pub extract_parts : List Bytes → List Tag
extract_parts [] = []
extract_parts (part ∷ parts) =
    let rest = extract_parts parts in
    if str_eq part [] then rest else tag_of (split_n2 part b'=') ∷ rest

unfoldable pub extract_ilm_tags : Bytes → List Tag
extract_ilm_tags text = extract_parts (split text b'&')

-- A flag that is a null pointer leaves the field as it is.
abbrev pub given : {A B : Type 0} → Option A → (A → Result B) → B → Result B
given none f b = ok b
given (some a) f b = f a

unfoldable pub parse_days : Bytes → Result ℤ
parse_days text = elim (atoi text) [ none ↦ err (bad_days text) | some days ↦ ok days ]

unfoldable pub parse_expiry_days : Bytes → Result ℤ
unfolding parse_days
parse_expiry_days text =
    parse_days text >>= λ days. if is_zero days then err zero_expiration_days else ok days

module _ (l : Lifecycle) where
  unfoldable pub parse_transition_date : Bytes → Result Time
  parse_transition_date text = elim (l.parse_date text) [
    | none ↦ err (bad_date text)
    | some d ↦ ok d
  ]

  unfoldable pub parse_transition : (class date days : Option Bytes) → Result Transition
  unfolding parse_transition_date parse_days
  parse_transition class date days = do
    d ← given date parse_transition_date 0
    n ← given days parse_days no_transition.days
    ok (record { date = d; days = n; storage_class = elim class [ none ↦ [] | some c ↦ c ] })

  unfoldable pub parse_expiry_date : Bytes → Result Time
  parse_expiry_date text = elim (l.parse_date text) [
    | none ↦ err (bad_date text)
    | some d ↦ if d == 0 then err zero_expiration_date else ok d
  ]

  unfoldable pub parse_expiry :
      (date days : Option Bytes) (delete_marker all_versions : Option Bool) → Result Expiration
  unfolding parse_expiry_date parse_expiry_days
  parse_expiry date days delete_marker all_versions = do
    d ← given date parse_expiry_date 0
    n ← given days parse_expiry_days no_expiration.days
    ok (record {
      date = d;
      days = n;
      delete_marker = elim delete_marker [ none ↦ false | some b ↦ b ];
      delete_all = elim all_versions [ none ↦ false | some b ↦ b ];
    })
