-- ===== src/Ilm/Valid.antt =====
-- What validateILMRule of cmd/ilm/parse.go accepts.
use mc.Base.{◌≤◌, true, false, none, [], ◌≡◌, ◌≢◌, ◌⊎◌, ◌↔◌, arith}
use mc.Base.Strings.{codes, to_lower}
use mc.Base.Strings.Laws.{str_eq_iff}
use mc.Base.Int.{pos, is_negative, exceeds}
use mc.Ilm.Rule.{Rule, Expiration, Lifecycle, IsLifecycle}
use mc.Ilm.Validate.{
  validate_ilm_rule, validate_rule_action, validate_expiration, validate_transition,
  validate_tran_exp_curdate, validate_tran_exp_date, validate_tran_days,
  validate_noncurrent_expiration, validate_noncurrent_transition,
}

-- Of the days, the date and the marker of an expiration no two are set.
abbrev pub OneKind : Expiration → Type 0
OneKind e =
    ((e.days ≡ pos 0) ⊎ (e.date ≡ 0))
    × ((e.days ≡ pos 0) ⊎ (e.delete_marker ≡ false))
    × ((e.date ≡ 0) ⊎ (e.delete_marker ≡ false))

-- A rule does something: it has days, a date or the marker of an expiration, the storage class of a
-- transition, or something of noncurrent versions.
abbrev pub HasAction : Rule → Type 0
HasAction r =
    (r.expiration.days ≢ pos 0)
    ⊎ ((r.expiration.date ≢ 0)
        ⊎ ((r.expiration.delete_marker ≡ true)
            ⊎ ((r.transition.storage_class ≢ [])
                ⊎ ((r.noncurrent_expiration.days ≢ pos 0)
                    ⊎ ((r.noncurrent_transition.storage_class ≢ [])
                        ⊎ ((exceeds r.noncurrent_expiration.newer_versions 0 ≡ true)
                            ⊎ (exceeds r.noncurrent_transition.newer_versions 0 ≡ true)))))))

-- A sound rule: it does something; the kinds exclude one another; no date has passed; a transition
-- by date comes no later than the expiration, where it has a storage class; no number of days is
-- negative, and a storage class is named where days of noncurrent versions are.
pub record IsSound (l : Lifecycle) (r : Rule) : Type 0 where
  pub action : HasAction r
  pub one_kind : OneKind r.expiration
  pub one_transition : (r.transition.days ≡ pos 0) ⊎ (r.transition.date ≡ 0)
  pub expiry_ahead : (r.expiration.date ≡ 0) ⊎ (l.today ≤ r.expiration.date)
  pub transition_sound :
      (r.transition.date ≡ 0)
      ⊎ ((r.transition.storage_class ≡ [])
          ⊎ ((l.today ≤ r.transition.date)
              × ((r.expiration.date ≡ 0) ⊎ (r.transition.date ≤ r.expiration.date))))
  pub transition_days : is_negative r.transition.days ≡ false
  pub infrequent_days :
      (to_lower r.transition.storage_class ≢ codes "standard_ia")
      ⊎ (exceeds r.transition.days 29 ≡ true)
  pub noncurrent_expiration_days : is_negative r.noncurrent_expiration.days ≡ false
  pub noncurrent_transition_days : is_negative r.noncurrent_transition.days ≡ false
  pub noncurrent_class :
      (r.noncurrent_transition.days ≡ pos 0) ⊎ (r.noncurrent_transition.storage_class ≢ [])

module _ (l : Lifecycle) (x : IsLifecycle l) (r : Rule) where
  expiration_iff : (validate_expiration l r ≡ none) ↔ OneKind r.expiration
  unfolding validate_expiration
  expiration_iff =
      rw
        (
          x.expiration_date r.expiration,
          x.expiration_days r.expiration,
          x.delete_marker r.expiration,
        )
        (ground arith)

  transition_iff :
      (validate_transition l r ≡ none) ↔ ((r.transition.days ≡ pos 0) ⊎ (r.transition.date ≡ 0))
  unfolding validate_transition
  transition_iff =
      rw (x.transition_date r.transition, x.transition_days r.transition) (ground arith)

  action_iff : (validate_rule_action l r ≡ none) ↔ HasAction r
  unfolding validate_rule_action
  action_iff =
      rw
        (
          x.expiration_null r.expiration,
          x.transition_null r.transition,
          x.noncurrent_days r.noncurrent_expiration,
        )
        (ground (
          arith,
          str_eq_iff r.transition.storage_class [],
          str_eq_iff r.noncurrent_transition.storage_class [],
        ))

  tran_days_iff : (validate_tran_days r ≡ none) ↔ (
      (is_negative r.transition.days ≡ false)
      × ((to_lower r.transition.storage_class ≢ codes "standard_ia")
          ⊎ (exceeds r.transition.days 29 ≡ true)))
  unfolding validate_tran_days
  tran_days_iff =
      ground (arith, str_eq_iff (to_lower r.transition.storage_class) (codes "standard_ia"))

  noncurrent_expiration_iff :
      (validate_noncurrent_expiration r ≡ none) ↔ (is_negative r.noncurrent_expiration.days ≡ false)
  unfolding validate_noncurrent_expiration
  noncurrent_expiration_iff = ground arith

  noncurrent_transition_iff : (validate_noncurrent_transition r ≡ none) ↔ (
      (is_negative r.noncurrent_transition.days ≡ false)
      × ((r.noncurrent_transition.days ≡ pos 0) ⊎ (r.noncurrent_transition.storage_class ≢ [])))
  unfolding validate_noncurrent_transition
  noncurrent_transition_iff = ground (arith, str_eq_iff r.noncurrent_transition.storage_class [])

  dates_iff : ((validate_tran_exp_curdate l r ≡ none) × (validate_tran_exp_date l r ≡ none)) ↔ (
      ((r.expiration.date ≡ 0) ⊎ (l.today ≤ r.expiration.date))
      × ((r.transition.date ≡ 0)
          ⊎ ((r.transition.storage_class ≡ [])
              ⊎ ((l.today ≤ r.transition.date)
                  × ((r.expiration.date ≡ 0) ⊎ (r.transition.date ≤ r.expiration.date))))))
  unfolding validate_tran_exp_curdate validate_tran_exp_date
  dates_iff =
      rw
        (
          x.expiration_date r.expiration,
          x.transition_date r.transition,
          x.expiration_null r.expiration,
          x.transition_null r.transition,
        )
        (ground (arith, str_eq_iff r.transition.storage_class []))

  tests_iff : (validate_ilm_rule l r ≡ none) ↔ (
      (validate_rule_action l r ≡ none)
      × (validate_expiration l r ≡ none)
      × (validate_transition l r ≡ none)
      × (validate_tran_exp_curdate l r ≡ none)
      × (validate_tran_exp_date l r ≡ none)
      × (validate_tran_days r ≡ none)
      × (validate_noncurrent_expiration r ≡ none)
      × (validate_noncurrent_transition r ≡ none))
  unfolding validate_ilm_rule
  tests_iff = ground arith

  sound : validate_ilm_rule l r ≡ none → IsSound l r
  sound h =
      let t = tests_iff.0 h in
      let dates = dates_iff.0 (t.3, t.4) in
      let days = tran_days_iff.0 t.5 in
      let noncurrent = noncurrent_transition_iff.0 t.7 in
      record {
        action = action_iff.0 t.0;
        one_kind = expiration_iff.0 t.1;
        one_transition = transition_iff.0 t.2;
        expiry_ahead = dates.0;
        transition_sound = dates.1;
        transition_days = days.0;
        infrequent_days = days.1;
        noncurrent_expiration_days = noncurrent_expiration_iff.0 t.6;
        noncurrent_transition_days = noncurrent.0;
        noncurrent_class = noncurrent.1;
      }

  complete : IsSound l r → validate_ilm_rule l r ≡ none
  complete s =
      let dates = dates_iff.1 (s.expiry_ahead, s.transition_sound) in
      tests_iff.1 (
        action_iff.1 s.action,
        expiration_iff.1 s.one_kind,
        transition_iff.1 s.one_transition,
        dates.0,
        dates.1,
        tran_days_iff.1 (s.transition_days, s.infrequent_days),
        noncurrent_expiration_iff.1 s.noncurrent_expiration_days,
        noncurrent_transition_iff.1 (s.noncurrent_transition_days, s.noncurrent_class),
      )

-- validateILMRule accepts a rule exactly when it is sound: it has an action; of the days, the date
-- and the marker of its expiration no two are set, nor both of a transition; a date of expiration is
-- not before the present day, which is itself accepted; so is a date of a transition that has a
-- storage class, and it is no later than a date of expiration; no number of days of a transition or
-- of noncurrent versions is negative, a transition to STANDARD_IA takes at least 30, and a noncurrent
-- transition after some days has a storage class. Of a transition without a storage class, which the
-- package lifecycle takes for none, the date is not looked at: it is never refused as one whose
-- storage class is missing.
pub validate_ilm_rule_iff :
    (l : Lifecycle) (r : Rule) → IsLifecycle l → (validate_ilm_rule l r ≡ none) ↔ IsSound l r
validate_ilm_rule_iff l r x = (sound l x r, complete l x r)
