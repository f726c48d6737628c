-- ===== src/Ilm/Rule.antt =====
-- The lifecycle rules of the package lifecycle, as far as cmd/ilm reads and writes their fields.
use mc.Base.{ℕ, Bool, false, not, ◌&&◌, Option, List, [], ◌≡◌, ◌==◌}
use mc.Base.Strings.{Bytes, str_eq}
use mc.Base.Int.{ℤ, pos, is_zero}
use mc.Content.{Time}

pub record Tag : Type 0 where
  pub key : Bytes
  pub value : Bytes

-- A list of tags that is null is empty: mc makes no list that is empty and not null.
pub record And : Type 0 where
  pub tags : List Tag
  pub prefix : Bytes
  pub size_less_than : ℕ
  pub size_greater_than : ℕ

pub record Filter : Type 0 where
  pub conjunction : And
  pub prefix : Bytes
  pub tag : Tag
  pub size_less_than : ℕ
  pub size_greater_than : ℕ

-- A date that is not set is the zero time.
pub record Expiration : Type 0 where
  pub date : Time
  pub days : ℤ
  pub delete_marker : Bool
  pub delete_all : Bool

pub record Transition : Type 0 where
  pub date : Time
  pub days : ℤ
  pub storage_class : Bytes

pub record NoncurrentExpiration : Type 0 where
  pub days : ℤ
  pub newer_versions : ℤ

pub record NoncurrentTransition : Type 0 where
  pub days : ℤ
  pub newer_versions : ℤ
  pub storage_class : Bytes

pub record Rule : Type 0 where
  pub id : Bytes
  pub prefix : Bytes
  pub filter : Filter
  pub status : Bytes
  pub expiration : Expiration
  pub transition : Transition
  pub noncurrent_expiration : NoncurrentExpiration
  pub noncurrent_transition : NoncurrentTransition

-- The methods of the package lifecycle, and what the clock and time.Parse for the layout
-- 2006-01-02 give: the present day, and the days from now to a date.
pub record Lifecycle : Type 0 where
  pub expiration_is_null : Expiration → Bool
  pub expiration_is_date_null : Expiration → Bool
  pub expiration_is_days_null : Expiration → Bool
  pub is_delete_marker_expiration_enabled : Expiration → Bool
  pub transition_is_null : Transition → Bool
  pub transition_is_date_null : Transition → Bool
  pub transition_is_days_null : Transition → Bool
  pub noncurrent_is_days_null : NoncurrentExpiration → Bool
  pub is_storage_class_empty : NoncurrentTransition → Bool
  pub tag_is_empty : Tag → Bool
  pub parse_date : Bytes → Option Time
  pub today : Time
  pub days_until : Time → ℤ

-- What the package documents of these methods: a date is null if it is the zero time, days are null
-- if they are zero, and the marker is enabled if it is set; an expiration is null if all three are
-- so, and a transition is null if it has no storage class.
pub record IsLifecycle (l : Lifecycle) : Type 0 where
  pub expiration_date : (e : Expiration) → l.expiration_is_date_null e ≡ (e.date == 0)
  pub expiration_days : (e : Expiration) → l.expiration_is_days_null e ≡ is_zero e.days
  pub delete_marker : (e : Expiration) → l.is_delete_marker_expiration_enabled e ≡ e.delete_marker
  pub transition_date : (t : Transition) → l.transition_is_date_null t ≡ (t.date == 0)
  pub transition_days : (t : Transition) → l.transition_is_days_null t ≡ is_zero t.days
  pub expiration_null :
      (e : Expiration)
      → l.expiration_is_null e ≡ ((e.date == 0) && (is_zero e.days && not e.delete_marker))
  pub transition_null : (t : Transition) → l.transition_is_null t ≡ str_eq t.storage_class []
  pub noncurrent_days : (n : NoncurrentExpiration) → l.noncurrent_is_days_null n ≡ is_zero n.days

-- The zero values.
abbrev pub no_tag : Tag
no_tag = record { key = []; value = [] }

abbrev pub no_and : And
no_and = record { tags = []; prefix = []; size_less_than = 0; size_greater_than = 0 }

abbrev pub no_filter : Filter
no_filter = record {
  conjunction = no_and;
  prefix = [];
  tag = no_tag;
  size_less_than = 0;
  size_greater_than = 0;
}

abbrev pub no_expiration : Expiration
no_expiration = record { date = 0; days = pos 0; delete_marker = false; delete_all = false }

abbrev pub no_transition : Transition
no_transition = record { date = 0; days = pos 0; storage_class = [] }

-- The errors of cmd/ilm.
pub data IlmError : Type 0 where
  not_configured not_found : IlmError
  bad_date bad_days : Bytes → IlmError
  zero_expiration_date zero_expiration_days : IlmError
  no_action two_expirations two_transitions : IlmError
  expiry_in_past transition_in_past expiry_before_transition missing_storage_class : IlmError
  negative_transition_days transition_days_too_small : IlmError
  negative_noncurrent_expiration negative_noncurrent_transition : IlmError
  missing_noncurrent_storage_class : IlmError
  bad_size : Bytes → IlmError
  missing_transition_time missing_noncurrent_transition_days many_expirations : IlmError
  bad_noncurrent_days : Bytes → IlmError
