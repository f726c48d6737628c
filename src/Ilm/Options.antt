-- ===== src/Ilm/Options.antt =====
-- LifecycleOptions of cmd/ilm/options.go, and the rule that they make.
use mc.Base.{
  ℕ, ◌+◌, Bool, true, false, Option, none, some, List, [], ◌∷◌, leb, if◌then◌else◌, length,
}
use mc.Base.Strings.{Bytes, codes}
use mc.Base.Int.{ℤ, pos}
use mc.Ilm.Rule.{Tag, Filter, Expiration, Transition, Rule, Lifecycle, no_filter, no_and, no_tag}
use mc.Ilm.Parse.{Result, ok, err, ◌>>=◌, extract_ilm_tags, parse_expiry, parse_transition}
use mc.Ilm.Validate.{validate_ilm_rule}

-- A field that is a null pointer was not given.
pub record LifecycleOptions : Type 0 where
  pub id : Bytes
  pub status : Option Bool
  pub prefix : Option Bytes
  pub tags : Option Bytes
  pub object_size_less_than : Option ℕ
  pub object_size_greater_than : Option ℕ
  pub expiry_date : Option Bytes
  pub expiry_days : Option Bytes
  pub transition_date : Option Bytes
  pub transition_days : Option Bytes
  pub storage_class : Option Bytes
  pub expired_object_delete_marker : Option Bool
  pub noncurrent_version_expiration_days : Option ℤ
  pub newer_noncurrent_expiration_versions : Option ℤ
  pub noncurrent_version_transition_days : Option ℤ
  pub newer_noncurrent_transition_versions : Option ℤ
  pub noncurrent_version_transition_storage_class : Option Bytes
  pub expired_object_all_versions : Option Bool

-- The value behind a pointer, or the zero value.
abbrev pub or_zero : {A : Type 0} → A → Option A → A
or_zero zero none = zero
or_zero zero (some a) = a

abbrev given_count : {A : Type 0} → Option A → ℕ
given_count none = 0
given_count (some a) = 1

abbrev first_tag : List Tag → Tag
first_tag [] = no_tag
first_tag (t ∷ ts) = t

unfoldable pub option_tags : LifecycleOptions → List Tag
option_tags o = elim o.tags [ none ↦ [] | some text ↦ extract_ilm_tags text ]

unfoldable pub predicate_count : LifecycleOptions → ℕ
predicate_count o =
    length (option_tags o)
    + given_count o.prefix
    + given_count o.object_size_less_than
    + given_count o.object_size_greater_than

unfoldable pub filter : LifecycleOptions → Filter
filter o =
    if leb 2 (predicate_count o)
    then record no_filter {
      conjunction = record {
        tags = option_tags o;
        prefix = or_zero [] o.prefix;
        size_less_than = or_zero 0 o.object_size_less_than;
        size_greater_than = or_zero 0 o.object_size_greater_than;
      };
    }
    else record {
      conjunction = no_and;
      prefix = or_zero [] o.prefix;
      tag = first_tag (option_tags o);
      size_less_than = or_zero 0 o.object_size_less_than;
      size_greater_than = or_zero 0 o.object_size_greater_than;
    }

abbrev pub status_text : Bool → Bytes
status_text true = codes "Enabled"
status_text false = codes "Disabled"

-- The rule before its validation.
unfoldable pub ruled : LifecycleOptions → Expiration → Transition → Rule
ruled o expiry transition = record {
  id = o.id;
  prefix = [];
  filter = filter o;
  status = status_text (or_zero true o.status);
  expiration = expiry;
  transition = transition;
  noncurrent_expiration = record {
    days = or_zero (pos 0) o.noncurrent_version_expiration_days;
    newer_versions = or_zero (pos 0) o.newer_noncurrent_expiration_versions;
  };
  noncurrent_transition = record {
    days = or_zero (pos 0) o.noncurrent_version_transition_days;
    newer_versions = or_zero (pos 0) o.newer_noncurrent_transition_versions;
    storage_class = or_zero [] o.noncurrent_version_transition_storage_class;
  };
}

module _ (l : Lifecycle) where
  unfoldable pub checked : Rule → Result Rule
  checked r = elim (validate_ilm_rule l r) [ some e ↦ err e | none ↦ ok r ]

  unfoldable pub to_ilm_rule : LifecycleOptions → Result Rule
  to_ilm_rule o = do
    expiry ←
        parse_expiry l o.expiry_date o.expiry_days o.expired_object_delete_marker
          o.expired_object_all_versions
    transition ← parse_transition l o.storage_class o.transition_date o.transition_days
    checked (ruled o expiry transition)
