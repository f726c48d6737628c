-- ===== src/Mirror/Status.antt =====
-- monitorMirrorStatus of cmd/mirror-main.go, and isErrIgnored of cmd/utils.go.
use mc.Base.{
  ℕ, ◌+◌, Bool, true, false, not, ◌||◌, Option, none, some, List, [], ◌∷◌, ◌++◌, if◌then◌else◌,
}
use mc.Base.Strings.{Bytes, codes, index}
use mc.Errors.{
  McError, listing, overwrite_not_allowed, path_not_found, path_insufficient_permission,
  broken_symlink, too_many_levels_symlink, bucket_name_empty, bucket_does_not_exist, bucket_invalid,
  object_missing, object_already_exists, object_already_exists_as_directory, error_response,
}
use mc.Content.{ClientContent}
use mc.Mirror.Plan.{Urls}

-- strings.Contains
abbrev pub has_text : Bytes → Bytes → Bool
has_text s d = elim (index s d) [ none ↦ false | some i ↦ true ]

unfoldable pub is_err_ignored : McError → Bool
is_err_ignored (listing (broken_symlink s)) = true
is_err_ignored (listing (too_many_levels_symlink s)) = true
is_err_ignored (listing (path_not_found s)) = true
is_err_ignored (listing bucket_name_empty) = true
is_err_ignored (listing object_missing) = true
is_err_ignored (listing object_already_exists) = true
is_err_ignored (listing object_already_exists_as_directory) = true
is_err_ignored (listing bucket_does_not_exist) = true
is_err_ignored (listing bucket_invalid) = true
is_err_ignored (listing (error_response code text)) =
    has_text text (codes "The specified key does not exist")
is_err_ignored _ = false

abbrev pub is_permission : McError → Bool
is_permission (listing (path_insufficient_permission s)) = true
is_permission _ = false

-- The text of an error, of which that of errOverWriteNotAllowed is written out.
abbrev pub error_text : (McError → Bytes) → McError → Bytes
error_text text (overwrite_not_allowed url) =
    codes "Overwrite not allowed for `"
    ++ (url ++ codes "`. Use `--overwrite` to override this behavior.")
error_text text e = text e

pub record Monitor : Type 0 where
  pub cancel_in_progress : Bool
  pub err_during_mirror : Bool
  pub total_ops : ℕ
  pub failed_ops : ℕ
  pub uploaded : ℕ

module _ (text : McError → Bytes) where
  -- The switch over an error: whether it is ignored.
  unfoldable pub ignores : Urls → McError → Bool
  ignores u e = elim u.source_content [
    | some c ↦ is_err_ignored e || is_permission e
    | none ↦ elim u.target_content [
      | some t ↦ false
      | none ↦ has_text (error_text text e) (codes "Overwrite not allowed")
    ]
  ]

  abbrev pub source_size : Option ClientContent → ℕ
  source_size none = 0
  source_size (some c) = c.size

  -- One round of the loop; `skip_errors` is the option.
  unfoldable pub observe : Bool → Monitor → Urls → Monitor
  observe skip_errors m u = if m.cancel_in_progress then m else elim u.error [
    | none ↦ record m {
      total_ops = m.total_ops + 1;
      uploaded = m.uploaded + source_size u.source_content;
    }
    | some e ↦ if ignores u e then record m { total_ops = m.total_ops + 1 } else record m {
      total_ops = m.total_ops + 1;
      failed_ops = m.failed_ops + 1;
      err_during_mirror = true;
      cancel_in_progress = not skip_errors;
    }
  ]

  unfoldable pub observe_all : Bool → Monitor → List Urls → Monitor
  observe_all skip_errors m [] = m
  observe_all skip_errors m (u ∷ us) = observe_all skip_errors (observe skip_errors m u) us

  abbrev pub new_monitor : Monitor
  new_monitor = record {
    cancel_in_progress = false;
    err_during_mirror = false;
    total_ops = 0;
    failed_ops = 0;
    uploaded = 0;
  }

  -- What monitorMirrorStatus returns for the messages of the status channel.
  unfoldable pub monitor_mirror_status : Bool → List Urls → Bool
  monitor_mirror_status skip_errors us = (observe_all skip_errors new_monitor us).err_during_mirror
