-- ===== src/Copy/Guess.antt =====
-- guessCopyURLType of cmd/cp-url.go.
use mc.Base.{Bool, false, not, ◌||◌, Option, none, some, List, [], ◌∷◌, if◌then◌else◌}
use mc.Base.Strings.{Bytes}
use mc.Errors.{McError, invalid_argument}
use mc.Content.{ClientContent, Time}
use mc.Copy.World.{World, Stat, found, missing, StatOptions, is_dir, is_alias_url_dir}

pub data CopyUrlsType : Type 0 where
  type_invalid type_a type_b type_c type_d : CopyUrlsType

-- The first source, and the others.
pub record PrepareCopyUrlsOpts : Type 0 where
  pub source_url : Bytes
  pub more_source_urls : List Bytes
  pub target_url : Bytes
  pub is_recursive : Bool
  pub older_than : Bytes
  pub newer_than : Bytes
  pub time_ref : Time
  pub version_id : Bytes
  pub is_zip : Bool
  pub ignore_bucket_exists_check : Bool

pub record CopyUrlsContent : Type 0 where
  pub target_content : Option ClientContent
  pub target_alias : Bytes
  pub target_url : Bytes
  pub source_content : Option ClientContent
  pub source_alias : Bytes
  pub source_url : Bytes
  pub copy_type : CopyUrlsType
  pub source_version_id : Bytes

-- The result of the guess: the content, and an error if there is one.
abbrev pub Guess : Type 0
Guess = CopyUrlsContent × Option McError

module _ (w : World) (o : PrepareCopyUrlsOpts) where
  unfoldable pub stat_options : Bytes → Bytes → Time → Bool → Bool → StatOptions
  stat_options url version time zip ignore = record {
    url_str = url;
    version_id = version;
    time_ref = time;
    is_zip = zip;
    ignore_bucket_exists_check = ignore;
  }

  unfoldable pub start : CopyUrlsContent
  start = record {
    target_content = none;
    target_alias = (w.expand_alias o.target_url).0;
    target_url = (w.expand_alias o.target_url).1;
    source_content = none;
    source_alias = (w.expand_alias o.source_url).0;
    source_url = o.source_url;
    copy_type = type_invalid;
    source_version_id = [];
  }

  unfoldable pub guess_single : ClientContent → CopyUrlsContent → Guess
  guess_single c cc =
      let (dir, target) = is_alias_url_dir w o.target_url o.time_ref o.ignore_bucket_exists_check in
      let known = record cc { target_content = target; source_version_id = c.version_id } in
      if is_dir c.mode || o.is_recursive
      then (record cc { copy_type = type_c }, none)
      else if dir
      then (record known { copy_type = type_b }, none)
      else (record known { copy_type = type_a }, none)

  unfoldable pub guess_many : CopyUrlsContent → Guess
  guess_many cc =
      let (dir, target) = is_alias_url_dir w o.target_url o.time_ref o.ignore_bucket_exists_check in
      let known = record cc { target_content = target } in
      if dir then (record known { copy_type = type_d }, none) else (known, some invalid_argument)

  unfoldable pub source_stat : Stat
  source_stat =
      if not o.is_recursive
      then w.url2_stat (stat_options o.source_url o.version_id o.time_ref o.is_zip false)
      else w.first_url2_stat o.source_url o.time_ref o.is_zip

  unfoldable pub guess_copy_url_type : Guess
  guess_copy_url_type = elim o.more_source_urls [
    | [] ↦ elim source_stat [
      | missing e ↦ (start, some e)
      | found c ↦ guess_single c (record start { source_content = some c })
    ]
    | ◌∷◌ _ _ ↦ guess_many start
  ]
