-- ===== src/Tests/Rules.antt =====
-- Runs of the lifecycle rules.
use mc.Base.{
  ℕ, Bool, true, false, not, ◌&&◌, Option, none, some, List, [], ◌∷◌, ◌≡◌, ◌≢◌, refl, ◌↔◌, ◌==◌,
  All, arith, if◌then◌else◌, ◌||◌, inl, inr,
}
use mc.Base.Strings.{Bytes, codes, str_eq}
use mc.Base.Int.{ℤ, pos, is_zero, is_negative}
use mc.Ilm.Rule.{
  Tag, Expiration, Rule, Lifecycle, IsLifecycle, no_filter, no_expiration, no_transition, no_and,
  two_expirations,
}
use mc.Ilm.Parse.{ok, extract_ilm_tags}
use mc.Ilm.Validate.{validate_ilm_rule, validate_expiration}
use mc.Ilm.Valid.{IsSound, validate_ilm_rule_iff}
use mc.Ilm.Options.{LifecycleOptions}
use mc.Ilm.Edit.{apply_rule_fields, remove_ilm_rule}
use mc.Ilm.Flags.{Command}
use mc.Ilm.Table.{get_tags}
use mc.Ilm.Tags.{extract_ilm_tags-get_tags}
use mc.Ilm.Removal.{Removal, remove_ilm_rule-Removal}
use mc.Ilm.Conflict.{apply_rule_fields_two_expirations}

-- The package lifecycle as it documents itself, on the hundredth day.
abbrev lifecycle : Lifecycle
lifecycle = record {
  expiration_is_null = λ e. (e.date == 0) && (is_zero e.days && not e.delete_marker);
  expiration_is_date_null = λ e. e.date == 0;
  expiration_is_days_null = λ e. is_zero e.days;
  is_delete_marker_expiration_enabled = λ e. e.delete_marker;
  transition_is_null = λ t. str_eq t.storage_class [];
  transition_is_date_null = λ t. t.date == 0;
  transition_is_days_null = λ t. is_zero t.days;
  noncurrent_is_days_null = λ n. is_zero n.days;
  is_storage_class_empty = λ n. str_eq n.storage_class [];
  tag_is_empty = λ t. str_eq t.key [];
  parse_date = λ s. if str_eq s (codes "2024-01-01") then some 200 else none;
  today = 100;
  days_until = λ t. pos 0;
}

lifecycle-IsLifecycle : IsLifecycle lifecycle
lifecycle-IsLifecycle = record {
  expiration_null = λ e. refl;
  transition_null = λ t. refl;
  expiration_date = λ e. refl;
  expiration_days = λ e. refl;
  delete_marker = λ e. refl;
  transition_date = λ t. refl;
  transition_days = λ t. refl;
  noncurrent_days = λ n. refl;
}

abbrev tag : Bytes → Bytes → Tag
tag key value = record { key = key; value = value }

abbrev two_tags : List Tag
two_tags = tag (codes "team") (codes "a=b") ∷ tag (codes "kind") [] ∷ []

abbrev rule : Bytes → Expiration → Rule
rule id expiration = record {
  id = id;
  prefix = [];
  filter = record no_filter { conjunction = record no_and { tags = two_tags } };
  status = codes "Enabled";
  expiration = expiration;
  transition = no_transition;
  noncurrent_expiration = record { days = pos 0; newer_versions = pos 0 };
  noncurrent_transition = record { days = pos 0; newer_versions = pos 0; storage_class = [] };
}

abbrev marked : Rule
marked = rule (codes "m") (record no_expiration { delete_marker = true })

abbrev dated : Rule
dated = rule (codes "d") (record no_expiration { date = 100 })

validate_ilm_rule_iff_example : (validate_ilm_rule lifecycle dated ≡ none) ↔ IsSound lifecycle dated
validate_ilm_rule_iff_example = validate_ilm_rule_iff lifecycle dated lifecycle-IsLifecycle

validate_dated : validate_ilm_rule lifecycle dated ≡ none
unfolding validate_ilm_rule mc.Ilm.Validate.validate_rule_action mc.Ilm.Validate.validate_expiration
    mc.Ilm.Validate.validate_transition mc.Ilm.Validate.validate_tran_exp_curdate
    mc.Ilm.Validate.validate_tran_exp_date mc.Ilm.Validate.validate_tran_days
    mc.Ilm.Validate.validate_noncurrent_expiration mc.Ilm.Validate.validate_noncurrent_transition
validate_dated = refl

extract_ilm_tags-get_tags_example : extract_ilm_tags (get_tags lifecycle dated) ≡ two_tags
extract_ilm_tags-get_tags_example =
    extract_ilm_tags-get_tags lifecycle dated (record { key_bytes = tt; value_bytes = tt })
      (
        record {
          key_bytes = (
            (omega arith, omega arith),
            (
              (omega arith, omega arith),
              ((omega arith, omega arith), ((omega arith, omega arith), tt)),
            ),
          );
          value_bytes = (omega arith, (omega arith, (omega arith, tt)));
        },
        (
          record {
            key_bytes = (
              (omega arith, omega arith),
              (
                (omega arith, omega arith),
                ((omega arith, omega arith), ((omega arith, omega arith), tt)),
              ),
            );
            value_bytes = tt;
          },
          tt,
        ),
      )

remove_ilm_rule-Removal_example :
    Removal
      (codes "d")
      (marked ∷ dated ∷ [])
      (remove_ilm_rule (some (marked ∷ dated ∷ [])) (codes "d"))
remove_ilm_rule-Removal_example = remove_ilm_rule-Removal (codes "d") marked (dated ∷ [])

abbrev in_ten_days : LifecycleOptions
in_ten_days = record {
  id = [];
  status = none;
  prefix = none;
  tags = none;
  object_size_less_than = none;
  object_size_greater_than = none;
  expiry_date = none;
  expiry_days = some (codes "10");
  transition_date = none;
  transition_days = none;
  storage_class = none;
  expired_object_delete_marker = none;
  noncurrent_version_expiration_days = none;
  newer_noncurrent_expiration_versions = none;
  noncurrent_version_transition_days = none;
  newer_noncurrent_transition_versions = none;
  noncurrent_version_transition_storage_class = none;
  expired_object_all_versions = none;
}

ten : mc.Base.Int.atoi (codes "10") ≡ some (pos 10)
unfolding mc.Base.Int.atoi mc.Base.Int.read_int mc.Base.Int.read_digits
ten = refl

apply_rule_fields_two_expirations_example :
    (edited : Rule) × (apply_rule_fields lifecycle marked in_ten_days ≡ ok edited)
    × (validate_expiration lifecycle edited ≡ some two_expirations)
apply_rule_fields_two_expirations_example =
    apply_rule_fields_two_expirations lifecycle marked in_ten_days lifecycle-IsLifecycle refl refl
      refl ten refl refl refl

-- `mc ilm rule add --expire-days 10 --id r play/bucket/logs`
abbrev command : Command
command = record {
  is_set = λ name. str_eq name (codes "expire-days") || str_eq name (codes "id");
  string = λ name.
      if str_eq name (codes "expire-days")
      then codes "10"
      else if str_eq name (codes "id")
      then codes "r"
      else [];
  bool = λ name. false;
  int = λ name. pos 0;
  first_arg = codes "play/bucket/logs";
  new_uuid = codes "u";
  parse_bytes = λ text. none;
}

abbrev in_logs : Rule
in_logs = record (rule (codes "r") (record no_expiration { days = pos 10 })) {
  filter = record no_filter { prefix = codes "logs" };
}
