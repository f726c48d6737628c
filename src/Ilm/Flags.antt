-- ===== src/Ilm/Flags.antt =====
-- GetLifecycleOptions of cmd/ilm/options.go.
use mc.Base.{
  ℕ, ◌+◌, Bool, true, false, not, ◌||◌, Option, none, some, [], ◌∷◌, ltb, leb, if◌then◌else◌, ◌-◌,
  ◌^◌,
}
use mc.Base.Strings.{Bytes, codes, str_eq, split_n2, to_upper}
use mc.Base.Int.{ℤ, atoi}
use mc.Ilm.Rule.{
  Rule, Lifecycle, IlmError, bad_size, missing_transition_time, missing_noncurrent_transition_days,
  many_expirations, bad_noncurrent_days,
}
use mc.Ilm.Parse.{Result, ok, err, ◌>>=◌}
use mc.Ilm.Options.{LifecycleOptions, to_ilm_rule}

-- The command line as the package cli gives it: the flags that are set and their values by kind,
-- and the first argument; a new UUID; and humanize.ParseBytes, where `none` is its error.
pub record Command : Type 0 where
  pub is_set : Bytes → Bool
  pub string : Bytes → Bytes
  pub bool : Bytes → Bool
  pub int : Bytes → ℤ
  pub first_arg : Bytes
  pub new_uuid : Bytes
  pub parse_bytes : Bytes → Option ℕ

-- The part behind the second slash of an aliased URL, if it is not empty.
abbrev some_prefix : Bytes × Option Bytes → Option Bytes
some_prefix (bucket, none) = none
some_prefix (bucket, some []) = none
some_prefix (bucket, some (c ∷ prefix)) = some (c ∷ prefix)

abbrev behind_alias : Bytes × Option Bytes → Option Bytes
behind_alias (alias, none) = none
behind_alias (alias, some path) = some_prefix (split_n2 path b'/')

abbrev one_if : Bool → ℕ
one_if true = 1
one_if false = 0

module _ (c : Command) where
  -- The value of a flag, if it is set.
  abbrev flag : {A : Type 0} → (Bytes → A) → Bytes → Option A
  flag value name = if c.is_set name then some (value name) else none

  -- A later flag of the same meaning wins.
  abbrev later : {A : Type 0} → Option A → Option A → Option A
  later old none = old
  later old (some a) = some a

  unfoldable pub upper : Bytes → Bytes
  upper name = to_upper (c.string name)

  unfoldable pub flag_status : Option Bool
  flag_status =
      if c.is_set (codes "disable")
      then some (not (c.bool (codes "disable")))
      else flag c.bool (codes "enable")

  unfoldable pub flag_prefix : Option Bytes
  flag_prefix =
      if c.is_set (codes "prefix")
      then some (c.string (codes "prefix"))
      else behind_alias (split_n2 c.first_arg b'/')

  unfoldable pub flag_size : Bytes → Result (Option ℕ)
  flag_size name =
      let text = c.string name in
      if not (c.is_set name) then ok none else elim (c.parse_bytes text) [
        | none ↦ err (bad_size text)
        | some size ↦ if ltb (2 ^ 63 - 1) size then err (bad_size text) else ok (some size)
      ]

  unfoldable pub flag_tier : Option Bytes
  unfolding upper
  flag_tier =
      later (later (flag upper (codes "storage-class")) (flag upper (codes "tier")))
        (flag upper (codes "transition-tier"))

  unfoldable pub flag_noncurrent_tier : Option Bytes
  unfolding upper
  flag_noncurrent_tier =
      later
        (later (flag upper (codes "noncurrentversion-transition-storage-class"))
          (flag upper (codes "noncurrentversion-tier")))
        (flag upper (codes "noncurrent-transition-tier"))

  abbrev demand : Bool → IlmError → {A : Type 0} → Result A → Result A
  demand true e r = r
  demand false e r = err e

  abbrev is_some : {A : Type 0} → Option A → Bool
  is_some none = false
  is_some (some a) = true

  -- The tests that a tier is given with a time.
  unfoldable pub has_transition_time : Bool
  unfolding flag_tier
  has_transition_time =
      not (is_some flag_tier)
      || (c.is_set (codes "transition-days") || c.is_set (codes "transition-date"))

  unfoldable pub has_noncurrent_transition_days : Bool
  unfolding flag_noncurrent_tier
  has_noncurrent_transition_days =
      not (is_some flag_noncurrent_tier)
      || (c.is_set (codes "noncurrentversion-transition-days")
          || c.is_set (codes "noncurrent-transition-days"))

  unfoldable pub flag_noncurrent_expiration : Result (Option ℤ)
  flag_noncurrent_expiration =
      let text = c.string (codes "noncurrent-expire-days") in
      if not (c.is_set (codes "noncurrent-expire-days"))
      then ok (flag c.int (codes "noncurrentversion-expiration-days"))
      else elim (atoi text) [ none ↦ err (bad_noncurrent_days text) | some n ↦ ok (some n) ]

  -- The flag `expire-days` is not counted.
  unfoldable pub expiry_rules_count : ℕ
  expiry_rules_count =
      one_if (c.is_set (codes "expiry-date"))
      + one_if (c.is_set (codes "expiry-days"))
      + one_if (c.is_set (codes "expire-delete-marker"))

  unfoldable pub get_lifecycle_options : Result LifecycleOptions
  unfolding flag_status flag_prefix flag_size flag_tier flag_noncurrent_tier has_transition_time
      has_noncurrent_transition_days flag_noncurrent_expiration expiry_rules_count
  get_lifecycle_options = do
    size_lt ← flag_size (codes "size-lt")
    size_gt ← flag_size (codes "size-gt")
    noncurrent_days ← demand has_transition_time missing_transition_time (
        demand has_noncurrent_transition_days missing_noncurrent_transition_days
          flag_noncurrent_expiration)
    demand (leb expiry_rules_count 1) many_expirations (
        ok (record {
          id = if str_eq (c.string (codes "id")) [] then c.new_uuid else c.string (codes "id");
          status = flag_status;
          prefix = flag_prefix;
          tags = flag c.string (codes "tags");
          object_size_less_than = size_lt;
          object_size_greater_than = size_gt;
          expiry_date = flag c.string (codes "expiry-date");
          expiry_days =
              later (flag c.string (codes "expiry-days")) (flag c.string (codes "expire-days"));
          transition_date = flag c.string (codes "transition-date");
          transition_days = flag c.string (codes "transition-days");
          storage_class = flag_tier;
          expired_object_delete_marker =
              later (flag c.bool (codes "expired-object-delete-marker"))
                (flag c.bool (codes "expire-delete-marker"));
          noncurrent_version_expiration_days = noncurrent_days;
          newer_noncurrent_expiration_versions =
              later (flag c.int (codes "newer-noncurrentversions-expiration"))
                (flag c.int (codes "noncurrent-expire-newer"));
          noncurrent_version_transition_days =
              later (flag c.int (codes "noncurrentversion-transition-days"))
                (flag c.int (codes "noncurrent-transition-days"));
          newer_noncurrent_transition_versions =
              later (flag c.int (codes "newer-noncurrentversions-transition"))
                (flag c.int (codes "noncurrent-transition-newer"));
          noncurrent_version_transition_storage_class = flag_noncurrent_tier;
          expired_object_all_versions = flag c.bool (codes "expire-all-object-versions");
        }))

-- What `mc ilm rule add` appends to the rules of a bucket.
unfoldable pub new_rule : Lifecycle → Command → Result Rule
new_rule l c = get_lifecycle_options c >>= to_ilm_rule l
