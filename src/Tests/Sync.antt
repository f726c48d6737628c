-- ===== src/Tests/Sync.antt =====
-- Runs of the comparison of two listings and of the plan of a mirror.
use mc.Base.{
  ℕ, Bool, true, false, Option, none, some, List, [], ◌∷◌, ◌++◌, ◌≡◌, refl, ◌≢◌, All, arith,
}
use mc.Base.Strings.{Bytes, codes, str_eq}
use mc.Errors.{McError, listing, error_response, in_type}
use mc.Content.{ClientContent, regular, directory}
use mc.Url.{file_url, new_client_url}
use mc.Difference.ModTime.{active_active_mod_time_updated, mod_time_updated_asymm}
use mc.Difference.Compare.{
  both, error_message, difference_internal, unfinished, Setting, source_key, target_key,
}
use mc.Difference.Total.{difference_internal_total}
use mc.Difference.Stuck.{IsClash, repeat, difference_internal_stuck}
use mc.Difference.Merge.{missing_from, outdated}
use mc.Difference.SourceOnly.{AreSorted}
use mc.Difference.Compare.{Setting}
use mc.Difference.Refines.{IsListing, IsDifference, difference_internal-IsDifference}
use mc.Difference.Report.{Lister, difference}
use mc.Mirror.Plan.{MirrorOptions, MirrorSetting, mirror_plan}
use mc.Mirror.Safety.{IsRemoval, mirror_plan-KeepsTarget}
use mc.Mirror.Exact.{
  ExcludesNothing, removed, copied, removed-mirror_plan, copied-mirror_plan_overwrite,
  copied-mirror_plan_new,
}
use mc.Tests.Fixtures.{parse_date, setting, at_source, at_target, sources, targets}

sources-targets-IsListing : IsListing setting sources targets
unfolding mc.Base.Strings.trim_prefix source_key target_key mc.Url.to_string mc.Url.url_join_path
    mc.Url.join_urls mc.Url.new_client_url mc.Base.Utf8.valid_string
sources-targets-IsListing = record {
  whole = refl;
  source_sound = ((refl, refl, refl), ((refl, refl, refl), tt));
  target_sound = ((refl, refl, refl), ((refl, refl, refl), tt));
  source_rises = ((refl, tt), (tt, tt));
  target_rises = ((refl, tt), (tt, tt));
}

difference_internal-IsDifference_example :
    IsDifference setting sources targets (difference_internal setting 5 sources targets)
difference_internal-IsDifference_example =
    difference_internal-IsDifference setting 5 sources targets sources-targets-IsListing
      (omega arith)

difference_internal_total_example :
    (difference_internal setting 5 sources targets).ending ≢ unfinished
difference_internal_total_example =
    difference_internal_total setting 5 sources targets (refl, (refl, tt)) (refl, (refl, tt))
      (omega arith)

file_and_folder :
    IsClash setting (at_source (codes "x") 1 regular) (at_target (codes "x") 0 directory)
unfolding mc.Base.Strings.trim_prefix source_key target_key mc.Url.to_string mc.Url.url_join_path
    mc.Url.join_urls mc.Url.new_client_url mc.Base.Utf8.valid_string
    mc.Difference.Compare.type_differs
file_and_folder = record {
  source_sound = refl;
  target_sound = refl;
  source_valid = refl;
  target_valid = refl;
  same_name = refl;
  types = refl;
}

difference_internal_stuck_example :
    difference_internal setting 9
      (at_source (codes "x") 1 regular ∷ [])
      (at_target (codes "x") 0 directory ∷ [])
    ≡ record {
      messages =
          repeat 9
            (both in_type (at_source (codes "x") 1 regular) (at_target (codes "x") 0 directory));
      ending = unfinished;
    }
difference_internal_stuck_example =
    difference_internal_stuck setting (at_source (codes "x") 1 regular)
      (at_target (codes "x") 0 directory) [] [] 9 file_and_folder

abbrev denied : McError
denied = listing (error_response (codes "SignatureDoesNotMatch") (codes "denied"))

abbrev lister : Bytes → List ClientContent → Option McError → Lister
lister url buckets e = record { url = url; objects = []; buckets = buckets; bucket_error = e }

abbrev options : Bool → Bool → MirrorOptions
options is_overwrite is_remove = record {
  is_fake = false;
  is_overwrite = is_overwrite;
  active_active = false;
  is_remove = is_remove;
  exclude_options = [];
  exclude_storage_classes = [];
  exclude_buckets = [];
}

abbrev mirror : Bool → Bool → MirrorSetting
mirror is_overwrite is_remove = record {
  wildcard_match = str_eq;
  opts = options is_overwrite is_remove;
  source_alias = [];
  target_alias = codes "play";
  source_url = codes "/data/";
  target_url = codes "https://h/b/";
}

abbrev excludes : (is_overwrite is_remove : Bool) → ExcludesNothing (mirror is_overwrite is_remove)
excludes is_overwrite is_remove = record { no_options = refl; no_classes = refl; no_buckets = refl }

removed-mirror_plan_example :
    removed (mirror_plan (mirror true true) (difference setting 5 sources targets))
    ≡ missing_from (target_key setting) (source_key setting) targets sources
removed-mirror_plan_example =
    removed-mirror_plan (mirror true true) setting 5 sources targets (excludes true true)
      sources-targets-IsListing (omega arith) refl

-- Without --remove and --active-active, mirror stops at the end of the source.
abbrev source_setting : Setting
source_setting = record setting { source_listing_only = true }

sources-targets-AreSorted : AreSorted source_setting sources targets
unfolding source_key target_key
sources-targets-AreSorted = record {
  source_sound = sources-targets-IsListing.source_sound;
  target_sound = sources-targets-IsListing.target_sound;
  source_rises = sources-targets-IsListing.source_rises;
  target_rises = sources-targets-IsListing.target_rises;
}

copied-mirror_plan_overwrite_example :
    copied (mirror_plan (mirror true false) (difference source_setting 5 sources targets))
    ≡ outdated source_setting sources targets
copied-mirror_plan_overwrite_example =
    copied-mirror_plan_overwrite (mirror true false) source_setting 5 sources targets
      (excludes true false) sources-targets-AreSorted (omega arith) refl refl

copied-mirror_plan_new_example :
    copied (mirror_plan (mirror false false) (difference source_setting 5 sources targets))
    ≡ missing_from (source_key source_setting) (target_key source_setting) sources targets
copied-mirror_plan_new_example =
    copied-mirror_plan_new (mirror false false) source_setting 5 sources targets
      (excludes false false) sources-targets-AreSorted (omega arith) refl refl refl

mirror_plan-KeepsTarget_example :
    All
      (λ u. ¬ IsRemoval u)
      (mirror_plan (mirror true false) (difference setting 5 sources targets))
mirror_plan-KeepsTarget_example =
    mirror_plan-KeepsTarget (mirror true false) setting 5 sources targets refl refl

-- The copy of the source was written on the second of January, that of the target on the first.
abbrev dated : Bytes → ClientContent
dated date = record {
  url = file_url (codes "/data/a");
  time = 63839577600000000000;
  size = 1;
  mode = regular;
  storage_class = [];
  metadata = [];
  user_metadata = (codes "X-Amz-Meta-Mm-Source-Mtime", date) ∷ [];
  version_id = [];
  tags = [];
  err = none;
}

abbrev newer : ClientContent
newer = dated (codes "2024-01-02T00:00:00Z")

abbrev older : ClientContent
older = dated (codes "2024-01-01T00:00:00Z")

newer_updated : active_active_mod_time_updated parse_date (some newer) (some older) ≡ true
unfolding active_active_mod_time_updated mc.Difference.ModTime.get_source_mod_time_key
newer_updated = refl
