-- ===== src/Ilm/Edit.antt =====
-- ApplyRuleFields and RemoveILMRule of cmd/ilm/options.go, and LsFilter.Apply of cmd/ilm/table.go.
use mc.Base.{
  Bool, true, false, not, ◌||◌, Option, none, some, List, [], ◌∷◌, ◌==◌, if◌then◌else◌, length,
}
use mc.Base.Strings.{Bytes, str_eq}
use mc.Base.Int.{pos, exceeds}
use mc.Ilm.Rule.{Tag, Filter, Expiration, Transition, Rule, Lifecycle, not_configured, not_found}
use mc.Ilm.Parse.{
  Result, ok, err, ◌>>=◌, extract_ilm_tags, parse_expiry_date, parse_expiry_days,
  parse_transition_date, parse_days,
}
use mc.Ilm.Options.{LifecycleOptions, or_zero, status_text}

abbrev is_nil : List Tag → Bool
is_nil [] = true
is_nil (t ∷ ts) = false

-- The tags and the prefix: the prefix goes into the conjunction if that has tags.
unfoldable pub edit_filter : LifecycleOptions → Filter → Filter
edit_filter o f =
    let tags : List Tag = elim o.tags [
      | none ↦ f.conjunction.tags
      | some text ↦ extract_ilm_tags text
    ] in
    let tagged = record f { conjunction = record f.conjunction { tags = tags } } in
    elim o.prefix [
      | none ↦ tagged
      | some p ↦
          if is_nil tags
          then record tagged { prefix = p }
          else record f { conjunction = record f.conjunction { tags = tags; prefix = p } }
    ]

unfoldable pub with_marker : LifecycleOptions → Expiration → Expiration
with_marker o e = elim o.expired_object_delete_marker [
  | none ↦ e
  | some b ↦ record e { delete_marker = b; days = pos 0; date = 0 }
]

-- The fields of the edited rule, from its new expiration and transition.
unfoldable pub assembled : Rule → LifecycleOptions → Expiration → Transition → Rule
assembled r o expiration transition = record {
  id = r.id;
  prefix = r.prefix;
  filter = edit_filter o r.filter;
  status = elim o.status [ none ↦ r.status | some b ↦ status_text b ];
  expiration = record expiration {
    delete_all = or_zero expiration.delete_all o.expired_object_all_versions;
  };
  transition = record transition {
    storage_class = or_zero transition.storage_class o.storage_class;
  };
  noncurrent_expiration = record {
    days = or_zero r.noncurrent_expiration.days o.noncurrent_version_expiration_days;
    newer_versions =
        or_zero r.noncurrent_expiration.newer_versions o.newer_noncurrent_expiration_versions;
  };
  noncurrent_transition = record {
    days = or_zero r.noncurrent_transition.days o.noncurrent_version_transition_days;
    newer_versions =
        or_zero r.noncurrent_transition.newer_versions o.newer_noncurrent_transition_versions;
    storage_class =
        or_zero r.noncurrent_transition.storage_class o.noncurrent_version_transition_storage_class;
  };
}

pub data LsFilter : Type 0 where
  all_rules expiry_only transition_only : LsFilter

module _ (l : Lifecycle) where
  -- The three exclusive kinds of an expiration.
  unfoldable pub edit_expiration : LifecycleOptions → Expiration → Result Expiration
  edit_expiration o e = elim o.expiry_date [
    | some text ↦ parse_expiry_date l text >>= λ d.
        ok (record e { date = d; days = pos 0; delete_marker = false })
    | none ↦ elim o.expiry_days [
      | some text ↦ parse_expiry_days text >>= λ n. ok (record e { days = n; date = 0 })
      | none ↦ ok (with_marker o e)
    ]
  ]

  unfoldable pub edit_transition : LifecycleOptions → Transition → Result Transition
  edit_transition o t = elim o.transition_date [
    | some text ↦ parse_transition_date l text >>= λ d. ok (record t { date = d; days = pos 0 })
    | none ↦ elim o.transition_days [
      | some text ↦ parse_days text >>= λ n. ok (record t { days = n; date = 0 })
      | none ↦ ok t
    ]
  ]

  -- The edited rule. The caller ends the program at an error, so that the half-edited rule is lost.
  unfoldable pub apply_rule_fields : Rule → LifecycleOptions → Result Rule
  apply_rule_fields r o = do
    expiration ← edit_expiration o r.expiration
    transition ← edit_transition o r.transition
    ok (assembled r o expiration transition)

  unfoldable pub is_listed : LsFilter → Rule → Bool
  is_listed all_rules r = true
  is_listed expiry_only r =
      not (l.expiration_is_null r.expiration)
      || (not (l.noncurrent_is_days_null r.noncurrent_expiration)
          || exceeds r.noncurrent_expiration.newer_versions 0)
  is_listed transition_only r =
      not (l.transition_is_null r.transition)
      || not (l.is_storage_class_empty r.noncurrent_transition)

  unfoldable pub apply_ls_filter : LsFilter → List Rule → List Rule
  apply_ls_filter f [] = []
  apply_ls_filter f (r ∷ rs) =
      let rest = apply_ls_filter f rs in if is_listed f r then r ∷ rest else rest

-- The loop of RemoveILMRule, which moves the rules that stay to the front of the list.
unfoldable pub keep_others : Bytes → List Rule → List Rule
keep_others id [] = []
keep_others id (r ∷ rs) = let rest = keep_others id rs in if str_eq r.id id then rest else r ∷ rest

-- RemoveILMRule, where `none` is a null configuration. The configuration that is returned beside an
-- error is left out: the caller ends the program at an error.
unfoldable pub remove_ilm_rule : Option (List Rule) → Bytes → Result (List Rule)
remove_ilm_rule none id = err not_configured
remove_ilm_rule (some []) id = err not_configured
remove_ilm_rule (some (r ∷ rs)) id =
    let kept = keep_others id (r ∷ rs) in
    if length kept == length (r ∷ rs) then err not_found else ok kept
