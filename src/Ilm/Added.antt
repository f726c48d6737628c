-- ===== src/Ilm/Added.antt =====
-- The rules that `mc ilm rule add` makes: cmd/ilm-rule-add.go over cmd/ilm/options.go.
use mc.Base.{◌+◌, false, Option, none, some, [], ◌∷◌, ◌++◌, ◌≡◌, ◌≢◌, ◌⊎◌}
use mc.Base.Strings.{Bytes, codes}
use mc.Base.Int.{ℤ, pos, atoi}
use mc.Content.{Time}
use mc.Ilm.Rule.{Filter, no_and, no_tag, Rule, Expiration, Transition, Lifecycle}
use mc.Ilm.Parse.{Result, ok}
use mc.Ilm.Valid.{IsSound}
use mc.Ilm.Options.{LifecycleOptions, filter, or_zero, option_tags}

-- A chain that ends well went through a value.
record Chain (A B : Type 0) (first : Result A) (more : A → Result B) (last : B) : Type 0 where
  between : A
  begun : first ≡ ok between
  ended : more between ≡ ok last

-- The filter holds what the options name: the prefix, the sizes and the tags stand either all in the
-- conjunction or all outside of it.
pub record IsFilterOf (o : LifecycleOptions) (f : Filter) : Type 0 where
  pub one_place :
      (f.conjunction ≡ no_and)
      ⊎ ((f.prefix ≡ []) × (f.tag ≡ no_tag) × (f.size_less_than ≡ 0) × (f.size_greater_than ≡ 0))
  pub prefix : f.conjunction.prefix ++ f.prefix ≡ or_zero [] o.prefix
  pub size_less_than :
      f.conjunction.size_less_than + f.size_less_than ≡ or_zero 0 o.object_size_less_than
  pub size_greater_than :
      f.conjunction.size_greater_than + f.size_greater_than ≡ or_zero 0 o.object_size_greater_than
  pub tags :
      ((f.conjunction.tags ≡ option_tags o) × (f.tag ≡ no_tag))
      ⊎ ((f.conjunction.tags ≡ []) × (option_tags o ≡ f.tag ∷ []))

-- A date and a number of days, by the text that gives them; without one they are zero.
abbrev pub IsDateOf : Lifecycle → Option Bytes → Time → Type 0
IsDateOf l none date = date ≡ 0
IsDateOf l (some text) date = l.parse_date text ≡ some date

abbrev pub IsDaysOf : Option Bytes → ℤ → Type 0
IsDaysOf none days = days ≡ pos 0
IsDaysOf (some text) days = atoi text ≡ some days

-- An expiration and a transition have what the options name, and zero for what they do not.
pub record IsExpirationOf (l : Lifecycle) (o : LifecycleOptions) (e : Expiration) : Type 0 where
  pub date : IsDateOf l o.expiry_date e.date
  pub days : IsDaysOf o.expiry_days e.days
  pub date_set : (o.expiry_date ≡ none) ⊎ (e.date ≢ 0)
  pub days_set : (o.expiry_days ≡ none) ⊎ (e.days ≢ pos 0)
  pub delete_marker : e.delete_marker ≡ or_zero false o.expired_object_delete_marker
  pub delete_all : e.delete_all ≡ or_zero false o.expired_object_all_versions

pub record IsTransitionOf (l : Lifecycle) (o : LifecycleOptions) (t : Transition) : Type 0 where
  pub date : IsDateOf l o.transition_date t.date
  pub days : IsDaysOf o.transition_days t.days
  pub storage_class : t.storage_class ≡ or_zero [] o.storage_class

-- A rule that is made from options is sound, is enabled unless they say otherwise, and has their
-- identifier and in each other field what they name for it.
pub record IsMadeFrom (l : Lifecycle) (o : LifecycleOptions) (r : Rule) : Type 0 where
  pub sound : IsSound l r
  pub id : r.id ≡ o.id
  pub filter : IsFilterOf o r.filter
  pub status :
      ((o.status ≡ some false) × (r.status ≡ codes "Disabled"))
      ⊎ ((o.status ≢ some false) × (r.status ≡ codes "Enabled"))
  pub expiration : IsExpirationOf l o r.expiration
  pub transition : IsTransitionOf l o r.transition
  pub noncurrent_expiration_days :
      r.noncurrent_expiration.days ≡ or_zero (pos 0) o.noncurrent_version_expiration_days
  pub newer_expiration_versions :
      r.noncurrent_expiration.newer_versions
      ≡ or_zero (pos 0) o.newer_noncurrent_expiration_versions
  pub noncurrent_transition_days :
      r.noncurrent_transition.days ≡ or_zero (pos 0) o.noncurrent_version_transition_days
  pub newer_transition_versions :
      r.noncurrent_transition.newer_versions
      ≡ or_zero (pos 0) o.newer_noncurrent_transition_versions
  pub noncurrent_class :
      r.noncurrent_transition.storage_class
      ≡ or_zero [] o.noncurrent_version_transition_storage_class
