-- ===== src/Ilm/Conflict.antt =====
-- ApplyRuleFields of cmd/ilm/options.go on a rule that expires delete markers.
use mc.Base.{true, false, none, some, ◌≡◌, refl, arith}
use mc.Base.Strings.{Bytes}
use mc.Base.Int.{ℤ, is_zero, atoi}
use mc.Ilm.Rule.{Rule, Lifecycle, IsLifecycle, two_expirations}
use mc.Ilm.Parse.{ok, parse_expiry_days}
use mc.Ilm.Validate.{validate_expiration}
use mc.Ilm.Options.{LifecycleOptions}
use mc.Ilm.Edit.{apply_rule_fields, assembled, edit_expiration, edit_transition}

module _ (l : Lifecycle) (r : Rule) (o : LifecycleOptions) where
  edit_expiration_days :
      {text : Bytes} {n : ℤ}
      → o.expiry_date ≡ none
      → o.expiry_days ≡ some text
      → atoi text ≡ some n
      → is_zero n ≡ false
      → edit_expiration l o r.expiration ≡ ok (record r.expiration { days = n; date = 0 })
  unfolding edit_expiration parse_expiry_days
  edit_expiration_days d e t z = ground arith

  edit_transition-none :
      o.transition_date ≡ none
      → o.transition_days ≡ none
      → edit_transition l o r.transition ≡ ok r.transition
  unfolding edit_transition
  edit_transition-none d e = ground arith

  assembled_two :
      (n : ℤ)
      → IsLifecycle l
      → r.expiration.delete_marker ≡ true
      → is_zero n ≡ false
      → validate_expiration l
          (assembled r o (record r.expiration { days = n; date = 0 }) r.transition)
        ≡ some two_expirations
  unfolding assembled validate_expiration
  assembled_two n x m z = rw (x.expiration_date, x.expiration_days, x.delete_marker, m, z) refl

-- Editing a rule that expires delete markers to expire after some days keeps the marker: the edit
-- succeeds, if it does not touch the transition, with a rule that the validation of new rules
-- refuses, since both the marker and the days are set.
pub apply_rule_fields_two_expirations :
    (l : Lifecycle) (r : Rule) (o : LifecycleOptions) {text : Bytes} {n : ℤ}
    → IsLifecycle l
    → r.expiration.delete_marker ≡ true
    → o.expiry_date ≡ none
    → o.expiry_days ≡ some text
    → atoi text ≡ some n
    → is_zero n ≡ false
    → o.transition_date ≡ none
    → o.transition_days ≡ none
    → (edited : Rule) × (apply_rule_fields l r o ≡ ok edited)
      × (validate_expiration l edited ≡ some two_expirations)
unfolding apply_rule_fields
apply_rule_fields_two_expirations l r o {text} {n} x m d e t z td tn = (
  assembled r o (record r.expiration { days = n; date = 0 }) r.transition,
  rw (edit_expiration_days l r o d e t z, edit_transition-none l r o td tn) refl,
  assembled_two l r o n x m z,
)
