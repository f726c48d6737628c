-- ===== src/Ilm/Validate.antt =====
-- The validation of a rule: validateILMRule of cmd/ilm/parse.go.
use mc.Base.{ℕ, ◌+◌, Bool, true, false, not, ◌&&◌, ◌||◌, Option, none, some, [], ltb, if◌then◌else◌}
use mc.Base.Strings.{codes, str_eq, to_lower}
use mc.Base.Int.{is_negative, exceeds}
use mc.Ilm.Rule.{
  Rule, Lifecycle, IlmError, no_action, two_expirations, two_transitions, expiry_in_past,
  transition_in_past, expiry_before_transition, missing_storage_class, negative_transition_days,
  transition_days_too_small, negative_noncurrent_expiration, negative_noncurrent_transition,
  missing_noncurrent_storage_class,
}

abbrev count : Bool → ℕ
count true = 1
count false = 0

-- The next test, unless this one has found an error.
abbrev pub or_else : Option IlmError → Option IlmError → Option IlmError
or_else (some e) next = some e
or_else none next = next

abbrev pub fails : Bool → IlmError → Option IlmError
fails true e = some e
fails false e = none

unfoldable pub validate_tran_days : Rule → Option IlmError
unfolding to_lower
validate_tran_days r =
    if is_negative r.transition.days
    then some negative_transition_days
    else fails
        (not (exceeds r.transition.days 29)
          && str_eq (to_lower r.transition.storage_class) (codes "standard_ia"))
        transition_days_too_small

unfoldable pub validate_noncurrent_expiration : Rule → Option IlmError
validate_noncurrent_expiration r =
    fails (is_negative r.noncurrent_expiration.days) negative_noncurrent_expiration

unfoldable pub validate_noncurrent_transition : Rule → Option IlmError
validate_noncurrent_transition r =
    if is_negative r.noncurrent_transition.days
    then some negative_noncurrent_transition
    else fails
        (exceeds r.noncurrent_transition.days 0 && str_eq r.noncurrent_transition.storage_class [])
        missing_noncurrent_storage_class

module _ (l : Lifecycle) where
  abbrev pub transition_date_set : Rule → Bool
  transition_date_set r =
      not (l.transition_is_null r.transition) && not (l.transition_is_date_null r.transition)

  unfoldable pub validate_tran_exp_date : Rule → Option IlmError
  validate_tran_exp_date r =
      if transition_date_set r
        && (not (l.expiration_is_date_null r.expiration) && ltb r.expiration.date r.transition.date)
      then some expiry_before_transition
      else fails (transition_date_set r && str_eq r.transition.storage_class [])
          missing_storage_class

  abbrev pub has_action : Rule → Bool
  has_action r =
      not (l.expiration_is_null r.expiration)
      || (not (l.transition_is_null r.transition)
          || (not (l.noncurrent_is_days_null r.noncurrent_expiration)
              || (not (str_eq r.noncurrent_transition.storage_class [])
                  || (exceeds r.noncurrent_expiration.newer_versions 0
                      || exceeds r.noncurrent_transition.newer_versions 0))))

  unfoldable pub validate_rule_action : Rule → Option IlmError
  validate_rule_action r = fails (not (has_action r)) no_action

  unfoldable pub validate_expiration : Rule → Option IlmError
  validate_expiration r =
      fails
        (ltb 1 (
          count (not (l.expiration_is_days_null r.expiration))
          + count (not (l.expiration_is_date_null r.expiration))
          + count (l.is_delete_marker_expiration_enabled r.expiration)))
        two_expirations

  unfoldable pub validate_transition : Rule → Option IlmError
  validate_transition r =
      fails
        (not (l.transition_is_days_null r.transition)
          && not (l.transition_is_date_null r.transition))
        two_transitions

  -- The present time is cut down to its day, which can be parsed again.
  unfoldable pub validate_tran_exp_curdate : Rule → Option IlmError
  validate_tran_exp_curdate r =
      if not (l.expiration_is_null r.expiration)
        && (not (l.expiration_is_date_null r.expiration) && ltb r.expiration.date l.today)
      then some expiry_in_past
      else fails (transition_date_set r && ltb r.transition.date l.today) transition_in_past

  unfoldable pub validate_ilm_rule : Rule → Option IlmError
  validate_ilm_rule r = or_else (validate_rule_action r) (
      or_else (validate_expiration r) (
        or_else (validate_transition r) (
          or_else (validate_tran_exp_curdate r) (
            or_else (validate_tran_exp_date r) (
              or_else (validate_tran_days r)
                (or_else (validate_noncurrent_expiration r) (validate_noncurrent_transition r)))))))
