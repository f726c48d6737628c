-- ===== src/Ilm/Table.antt =====
-- cmd/ilm/utils.go and the rows of cmd/ilm/table.go.
use mc.Base.{
  ℕ, Bool, true, false, not, ◌||◌, Option, none, some, List, [], ◌∷◌, ◌++◌, ◌==◌, if◌then◌else◌,
}
use mc.Base.Strings.{Bytes, str_eq}
use mc.Base.Int.{ℤ, exceeds}
use mc.Ilm.Rule.{Tag, Rule, Lifecycle}

unfoldable pub get_prefix : Rule → Bytes
get_prefix r =
    if not (str_eq r.prefix [])
    then r.prefix
    else if not (str_eq r.filter.prefix [])
    then r.filter.prefix
    else r.filter.conjunction.prefix

abbrev pub tag_text : Tag → Bytes
tag_text t = t.key ++ (b'=' ∷ t.value)

-- The loop over the tags, with a separator behind all but the last.
unfoldable pub tags_text : List Tag → Bytes
tags_text [] = []
tags_text (t ∷ []) = tag_text t
tags_text (t ∷ u ∷ ts) = tag_text t ++ (b'&' ∷ tags_text (u ∷ ts))

-- The rows of the four tables.
pub record ExpirationCurrentRow : Type 0 where
  pub id : Bytes
  pub status : Bytes
  pub prefix : Bytes
  pub tags : Bytes
  pub days : ℤ
  pub expire_del_marker : Bool

pub record ExpirationNoncurrentRow : Type 0 where
  pub id : Bytes
  pub status : Bytes
  pub prefix : Bytes
  pub tags : Bytes
  pub days : ℤ
  pub keep_versions : ℤ

pub record TierRow : Type 0 where
  pub id : Bytes
  pub status : Bytes
  pub prefix : Bytes
  pub tags : Bytes
  pub days : ℤ
  pub tier : Bytes

pub data Table : Type 0 where
  expiration_current : List ExpirationCurrentRow → Table
  expiration_noncurrent : List ExpirationNoncurrentRow → Table
  tier_current : List TierRow → Table
  tier_noncurrent : List TierRow → Table

module _ (l : Lifecycle) where
  unfoldable pub get_tags : Rule → Bytes
  get_tags r =
      if not (l.tag_is_empty r.filter.tag)
      then tag_text r.filter.tag
      else tags_text r.filter.conjunction.tags

  get_expiration_days : Rule → ℤ
  get_expiration_days r =
      if exceeds r.expiration.days 0
      then r.expiration.days
      else if not (r.expiration.date == 0)
      then l.days_until r.expiration.date
      else mc.Base.Int.pos 0

  get_transition_days : Rule → ℤ
  get_transition_days r =
      if not (r.transition.date == 0) then l.days_until r.transition.date else r.transition.days

  expiration_current_rows : List Rule → List ExpirationCurrentRow
  unfolding get_expiration_days
  expiration_current_rows [] = []
  expiration_current_rows (r ∷ rs) =
      let rest = expiration_current_rows rs in
      if l.expiration_is_null r.expiration
      then rest
      else record {
        id = r.id;
        status = r.status;
        prefix = get_prefix r;
        tags = get_tags r;
        days = get_expiration_days r;
        expire_del_marker = r.expiration.delete_marker;
      }
        ∷ rest

  expiration_noncurrent_rows : List Rule → List ExpirationNoncurrentRow
  expiration_noncurrent_rows [] = []
  expiration_noncurrent_rows (r ∷ rs) =
      let rest = expiration_noncurrent_rows rs in
      let row : ExpirationNoncurrentRow = record {
        id = r.id;
        status = r.status;
        prefix = get_prefix r;
        tags = get_tags r;
        days = r.noncurrent_expiration.days;
        keep_versions = r.noncurrent_expiration.newer_versions;
      } in
      if not (l.noncurrent_is_days_null r.noncurrent_expiration)
        || exceeds r.noncurrent_expiration.newer_versions 0
      then row ∷ rest
      else rest

  tier_current_rows : List Rule → List TierRow
  unfolding get_transition_days
  tier_current_rows [] = []
  tier_current_rows (r ∷ rs) =
      let rest = tier_current_rows rs in
      if l.transition_is_null r.transition
      then rest
      else record {
        id = r.id;
        status = r.status;
        prefix = get_prefix r;
        tags = get_tags r;
        days = get_transition_days r;
        tier = r.transition.storage_class;
      }
        ∷ rest

  tier_noncurrent_rows : List Rule → List TierRow
  tier_noncurrent_rows [] = []
  tier_noncurrent_rows (r ∷ rs) =
      let rest = tier_noncurrent_rows rs in
      if l.is_storage_class_empty r.noncurrent_transition
      then rest
      else record {
        id = r.id;
        status = r.status;
        prefix = get_prefix r;
        tags = get_tags r;
        days = r.noncurrent_transition.days;
        tier = r.noncurrent_transition.storage_class;
      }
        ∷ rest

  -- A table without rows is left out.
  abbrev incl_tbl : {R : Type 0} → (List R → Table) → List R → List Table
  incl_tbl table [] = []
  incl_tbl table (r ∷ rows) = table (r ∷ rows) ∷ []

  unfoldable pub to_tables : List Rule → List Table
  unfolding expiration_current_rows expiration_noncurrent_rows tier_current_rows
      tier_noncurrent_rows
  to_tables rules =
      incl_tbl expiration_current (expiration_current_rows rules)
      ++ (incl_tbl expiration_noncurrent (expiration_noncurrent_rows rules)
          ++ (incl_tbl tier_current (tier_current_rows rules)
              ++ incl_tbl tier_noncurrent (tier_noncurrent_rows rules)))
