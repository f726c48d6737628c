-- ===== src/Mirror/Watch.antt =====
-- watchMirrorEvents and doMirrorWatch of cmd/mirror-main.go: the jobs that mirror queues for events.
use mc.Base.{ℕ, Bool, not, ◌&&◌, ◌||◌, Option, none, some, List, [], ◌∷◌, ◌++◌, if◌then◌else◌}
use mc.Base.Strings.{Bytes, codes, str_eq, has_prefix, trim_prefix, contains}
use mc.Errors.{listing, object_already_exists, in_unknown}
use mc.Content.{ClientContent, Headers, Time, get, has_key}
use mc.Difference.ModTime.{get_source_mod_time_key}
use mc.Url.{new_client_url, url_join_path}
use mc.Alias.Expand.{Sources, must_expand_alias}
use mc.Mirror.Plan.{
  MirrorSetting, Urls, content_at, match_exclude_options, match_exclude_bucket_options,
}
use mc.Mirror.Job.{JobOptions, JobWorld, with_error, do_mirror}
use mc.Mirror.Status.{has_text}

-- The types of events by their names, which the package notification gives.
pub record EventNames : Type 0 where
  pub created_copy : Bytes
  pub created_complete_multipart_upload : Bytes
  pub removed_delete : Bytes
  pub removed_delete_marker_created : Bytes
  pub del_marker_expiration_delete : Bytes
  pub bucket_created_all : Bytes
  pub bucket_removed_all : Bytes

pub record EventInfo : Type 0 where
  pub time : Bytes
  pub size : ℕ
  pub user_metadata : Headers
  pub path : Bytes
  pub user_agent : Bytes
  pub event_type : Bytes

-- What a round of the loop reads: the names of the events, the aliases, filepath.Abs and time.Parse,
-- where an error leaves the time 0, the two sides as they were typed, the option --watch, and the
-- options with wildcard.Match.
pub record WatchSetting : Type 0 where
  pub names : EventNames
  pub aliases : Sources
  pub absolute : Bytes → Option Bytes
  pub parse_time : Bytes → Time
  pub source_url : Bytes
  pub target_url : Bytes
  pub is_watch : Bool
  pub plan : MirrorSetting

-- What is queued: an object to mirror with its path, and whether the event is about its retention or
-- legal hold; a removal; and, with a barrier, a bucket to create and one to delete.
pub data Watched : Type 0 where
  mirror_object : Bytes → Bool → Urls → Watched
  remove_object : Urls → Watched
  create_bucket : Urls → Watched
  delete_bucket : Urls → Watched

abbrev pub app_name : Bytes
app_name = codes "mc-mirror"

abbrev pub storage_class_key : Bytes
storage_class_key = codes "x-amz-storage-class"

module _ (w : WatchSetting) where
  -- The alias of the source and its URL, which is absolute for a path of the file system.
  unfoldable pub watched_source : Bytes × Bytes
  watched_source =
      let (alias, url) = must_expand_alias w.aliases w.source_url in
      if str_eq alias []
      then elim (w.absolute url) [ none ↦ (alias, url) | some path ↦ (alias, path) ]
      else (alias, url)

  abbrev pub suffix_of : EventInfo → Bytes
  suffix_of e = trim_prefix e.path watched_source.1

  -- The three `continue`s at the head of the loop.
  unfoldable pub is_event_excluded : EventInfo → Bool
  is_event_excluded e =
      match_exclude_options w.plan w.plan.opts.exclude_options (suffix_of e)
        (new_client_url e.path).kind
      || (match_exclude_bucket_options w.plan w.plan.opts.exclude_buckets (suffix_of e)
          || (has_key e.user_metadata storage_class_key
              && contains w.plan.opts.exclude_storage_classes
                  (get e.user_metadata storage_class_key)))

  abbrev pub target_path : EventInfo → Bytes
  target_path e = url_join_path w.target_url (suffix_of e)

  -- The URLs of an event, with the content of its source.
  abbrev pub urls_of : Bytes → Option ClientContent → EventInfo → Urls
  urls_of source_alias source e =
      let (alias, url) = must_expand_alias w.aliases (target_path e) in
      record {
        source_alias = source_alias;
        source_content = source;
        target_alias = alias;
        target_content = some (content_at (new_client_url url));
        error = none;
        error_cond = in_unknown;
      }

  abbrev pub created_content : EventInfo → ClientContent
  created_content e = record (content_at (new_client_url e.path)) {
    time = w.parse_time e.time;
    size = e.size;
    metadata = e.user_metadata;
  }

  -- With active-active: an upload by a mirror, which its metadata tells.
  unfoldable pub is_own_upload : EventInfo → Bool
  is_own_upload e =
      w.plan.opts.active_active
      && (not (str_eq e.event_type w.names.created_copy)
          && (not (str_eq e.event_type w.names.created_complete_multipart_upload)
              && not (str_eq (get_source_mod_time_key e.user_metadata) [])))

  -- A removal by the mirror in the other direction.
  unfoldable pub is_own_removal : Bytes → EventInfo → Bool
  is_own_removal target_alias e =
      not (str_eq target_alias []) && has_text e.user_agent (app_name ++ b':' ∷ target_alias)

  abbrev pub is_removal_type : Bytes → Bool
  is_removal_type t =
      str_eq t w.names.removed_delete
      || (str_eq t w.names.removed_delete_marker_created
          || str_eq t w.names.del_marker_expiration_delete)

  -- The `if` over the type of the event.
  unfoldable pub queued_for : EventInfo → List Watched
  queued_for e =
      if has_prefix e.event_type (codes "s3:ObjectCreated:")
      then if is_own_upload e
        then []
        else mirror_object (target_path e)
            (str_eq e.event_type (codes "s3:ObjectCreated:PutRetention")
              || str_eq e.event_type (codes "s3:ObjectCreated:PutLegalHold"))
            (urls_of watched_source.0 (some (created_content e)) e)
          ∷ []
      else if is_removal_type e.event_type
      then if is_own_removal (must_expand_alias w.aliases (target_path e)).0 e
        then []
        else if w.plan.opts.is_remove || (w.plan.opts.active_active || w.is_watch)
        then remove_object (urls_of watched_source.0 none e) ∷ []
        else []
      else if str_eq e.event_type w.names.bucket_created_all
      then create_bucket (urls_of watched_source.0 (some (content_at (new_client_url e.path))) e)
        ∷ []
      else if str_eq e.event_type w.names.bucket_removed_all && w.plan.opts.is_remove
      then delete_bucket (urls_of [] none e) ∷ []
      else []

  unfoldable pub watch_event : EventInfo → List Watched
  watch_event e = if is_event_excluded e then [] else queued_for e

  unfoldable pub watch_mirror_events : List EventInfo → List Watched
  watch_mirror_events [] = []
  watch_mirror_events (e ∷ es) = watch_event e ++ watch_mirror_events es

module _ (o : JobOptions) (w : JobWorld) where
  -- `exists` is whether the lookup of the target finds it.
  unfoldable pub do_mirror_watch :
      (Bytes → Bool) → Bytes → Bool → Urls → ClientContent → ClientContent → Urls
  do_mirror_watch exists target_path is_held u c t =
      if not o.plan.is_overwrite && not o.plan.active_active
      then elim (w.new_client target_path) [
        | some e ↦ with_error u (some e)
        | none ↦
            if exists target_path && not is_held
            then with_error u (some (listing object_already_exists))
            else do_mirror o w u c t
      ]
      else do_mirror o w u c t
