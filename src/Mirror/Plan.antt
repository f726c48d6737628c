-- ===== src/Mirror/Plan.antt =====
-- matchExcludeOptions, matchExcludeBucketOptions and the loop of deltaSourceTarget.
use mc.Base.{Bool, true, false, ◌||◌, Option, none, some, List, [], ◌∷◌, ◌++◌, if◌then◌else◌, drop}
use mc.Base.Strings.{Bytes, codes, has_prefix, trim_prefix, split, contains}
use mc.Errors.{
  DifferType, in_unknown, in_none, in_size, in_metadata, in_type, in_first, in_second,
  in_aa_source_mtime, McError, invalid_target, overwrite_not_allowed, unrecognized_diff_type,
}
use mc.Content.{ClientContent, regular}
use mc.Url.{
  ClientUrl, ClientUrlType, file_system, object_storage, new_client_url, url_join_path, slash,
}
use mc.Difference.Compare.{DiffMessage}

-- mirrorOptions, as far as the plan reads it.
pub record MirrorOptions : Type 0 where
  pub is_fake : Bool
  pub is_overwrite : Bool
  pub active_active : Bool
  pub is_remove : Bool
  pub exclude_options : List Bytes
  pub exclude_storage_classes : List Bytes
  pub exclude_buckets : List Bytes

-- URLs of cmd/urls.go: an order to copy, an order to remove (no source), or an error.
pub record Urls : Type 0 where
  pub source_alias : Bytes
  pub source_content : Option ClientContent
  pub target_alias : Bytes
  pub target_content : Option ClientContent
  pub error : Option McError
  pub error_cond : DifferType

abbrev pub error_urls : McError → DifferType → Urls
error_urls e d = record {
  source_alias = [];
  source_content = none;
  target_alias = [];
  target_content = none;
  error = some e;
  error_cond = d;
}

-- ClientContent{URL: url}
abbrev pub content_at : ClientUrl → ClientContent
content_at url = record {
  url = url;
  time = 0;
  size = 0;
  mode = regular;
  storage_class = [];
  metadata = [];
  user_metadata = [];
  version_id = [];
  tags = [];
  err = none;
}

abbrev pub without_slash : Bytes → Bytes
without_slash suffix = if has_prefix suffix (codes "/") then drop 1 suffix else suffix

abbrev first_part : List Bytes → Bytes
first_part [] = []
first_part (p ∷ ps) = p

-- What the plan depends on: wildcard.Match of another package, the options, and the aliases and
-- URLs of the two sides, as deltaSourceTarget has expanded them.
pub record MirrorSetting : Type 0 where
  pub wildcard_match : Bytes → Bytes → Bool
  pub opts : MirrorOptions
  pub source_alias : Bytes
  pub target_alias : Bytes
  pub source_url : Bytes
  pub target_url : Bytes

module _ (m : MirrorSetting) where
  matches_any : List Bytes → Bytes → Bool
  matches_any [] name = false
  matches_any (p ∷ ps) name = if m.wildcard_match p name then true else matches_any ps name

  unfoldable pub match_exclude_options : List Bytes → Bytes → ClientUrlType → Bool
  unfolding matches_any
  match_exclude_options patterns suffix kind = elim kind [
    | file_system ↦ matches_any patterns (without_slash suffix)
    | object_storage ↦ matches_any patterns suffix
  ]

  unfoldable pub match_exclude_bucket_options : List Bytes → Bytes → Bool
  unfolding matches_any split
  match_exclude_bucket_options patterns suffix =
      matches_any patterns (first_part (split (without_slash suffix) slash))

  -- The five `continue`s at the head of the loop.
  unfoldable pub is_excluded : DiffMessage → Bool
  is_excluded d =
      let src_suffix = trim_prefix d.first_url m.source_url in
      let tgt_suffix = trim_prefix d.second_url m.target_url in
      match_exclude_options m.opts.exclude_options src_suffix (new_client_url m.source_url).kind
      || (match_exclude_bucket_options m.opts.exclude_buckets src_suffix
          || (match_exclude_options m.opts.exclude_options tgt_suffix
                (new_client_url m.target_url).kind
              || (match_exclude_bucket_options m.opts.exclude_buckets tgt_suffix
                  || elim d.first_content [
                    | none ↦ false
                    | some c ↦ contains m.opts.exclude_storage_classes c.storage_class
                  ])))

  -- The order to copy the source of a message to its place in the target.
  unfoldable pub copy_order : DiffMessage → Urls
  copy_order d = record {
    source_alias = m.source_alias;
    source_content = d.first_content;
    target_alias = m.target_alias;
    target_content = some (
        content_at
          (new_client_url (url_join_path m.target_url (trim_prefix d.first_url m.source_url))));
    error = none;
    error_cond = in_unknown;
  }

  unfoldable pub remove_order : DiffMessage → Urls
  remove_order d = record {
    source_alias = [];
    source_content = none;
    target_alias = m.target_alias;
    target_content = d.second_content;
    error = none;
    error_cond = in_unknown;
  }

  abbrev may_overwrite : Bool
  may_overwrite = m.opts.is_overwrite || (m.opts.is_fake || m.opts.active_active)

  update_orders : DiffMessage → List Urls
  update_orders d =
      if may_overwrite
      then copy_order d ∷ []
      else error_urls (overwrite_not_allowed d.second_url) d.diff ∷ []

  -- The switch over the kind of difference.
  orders_by_diff : DiffMessage → List Urls
  unfolding update_orders
  orders_by_diff d = elim d.diff [
    | in_none ↦ []
    | in_type ↦ error_urls (invalid_target d.second_url) in_unknown ∷ []
    | in_size ↦ update_orders d
    | in_metadata ↦ update_orders d
    | in_aa_source_mtime ↦ update_orders d
    | in_first ↦ copy_order d ∷ []
    | in_second ↦ if m.opts.is_remove || m.opts.is_fake then remove_order d ∷ [] else []
    | in_unknown ↦ error_urls (unrecognized_diff_type d.diff) d.diff ∷ []
  ]

  -- One round of the loop over the messages.
  unfoldable pub orders : DiffMessage → List Urls
  unfolding orders_by_diff
  orders d = elim d.error [
    | some e ↦ error_urls e in_unknown ∷ []
    | none ↦ if is_excluded d then [] else orders_by_diff d
  ]

  unfoldable pub mirror_plan : List DiffMessage → List Urls
  mirror_plan [] = []
  mirror_plan (d ∷ ds) = orders d ++ mirror_plan ds
