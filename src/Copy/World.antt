-- ===== src/Copy/World.antt =====
-- What cmd/cp-url.go reads of the configuration and of the two sides of a copy.
use mc.Base.{Bool, true, false, Option, none, some, List, [], ◌∷◌, ◌++◌, if◌then◌else◌}
use mc.Base.Strings.{Bytes, has_prefix, has_suffix, str_eq, split}
use mc.Errors.{McError}
use mc.Content.{ClientContent, FileMode, directory, Time}
use mc.Url.{ClientUrl, slash}

-- The result of a call of url2Stat or firstURL2Stat.
pub data Stat : Type 0 where
  found : ClientContent → Stat
  missing : McError → Stat

-- url2StatOptions, as far as the callers differ in them.
pub record StatOptions : Type 0 where
  pub url_str : Bytes
  pub version_id : Bytes
  pub time_ref : Time
  pub is_zip : Bool
  pub ignore_bucket_exists_check : Bool

pub record ListOptions : Type 0 where
  pub recursive : Bool
  pub time_ref : Time
  pub list_zip : Bool

pub data Client : Type 0 where
  connected : ClientUrl → Client
  refused : McError → Client

-- mustExpandAlias, which gives an alias and a URL; the calls of the clients; and isOlder and
-- isNewer, which Age models and which end the program where they give `none`.
pub record World : Type 0 where
  pub expand_alias : Bytes → Bytes × Bytes
  pub url2_stat : StatOptions → Stat
  pub first_url2_stat : Bytes → Time → Bool → Stat
  pub new_client : Bytes → Client
  pub list : Bytes → ListOptions → List ClientContent
  pub is_older : Time → Bytes → Option Bool
  pub is_newer : Time → Bytes → Option Bool

abbrev pub is_dir : FileMode → Bool
is_dir directory = true
is_dir _ = false

abbrev pub with_slash : Bytes → Bytes
with_slash s = if has_suffix s slash then s else s ++ (slash ∷ [])

-- isURLContains of cmd/utils.go
unfoldable pub is_url_contains : Bytes → Bytes → Bool
is_url_contains source target = has_prefix (with_slash target) (with_slash source)

-- Whether an aliased URL that is not there would be a folder.
names_folder : Bytes → List Bytes → Bool
names_folder url [] = false
names_folder url (alias ∷ []) = false
names_folder url (alias ∷ bucket ∷ []) = true
names_folder url (alias ∷ bucket ∷ prefix ∷ more) = has_suffix url slash

module _ (w : World) where
  -- isAliasURLDir of cmd/common-methods.go
  unfoldable pub is_alias_url_dir : Bytes → Time → Bool → Bool × Option ClientContent
  unfolding names_folder
  is_alias_url_dir url time_ref ignore =
      elim (w.url2_stat (record {
        url_str = url;
        version_id = [];
        time_ref = time_ref;
        is_zip = false;
        ignore_bucket_exists_check = ignore;
      })) [
        | found c ↦ (is_dir c.mode, some c)
        | missing e ↦
            if str_eq (w.expand_alias url).1 url
            then (has_suffix url slash, none)
            else (names_folder url (split url slash), none)
      ]
