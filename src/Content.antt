-- ===== src/Content.antt =====
-- What a listing sends: ClientContent of cmd/client.go, as far as the modelled
-- commands read it.
use mc.Base.{ℕ, Bool, true, false, Option, List, [], ◌∷◌, if◌then◌else◌}
use mc.Base.Strings.{Bytes, str_eq}
use mc.Errors.{McError}
use mc.Url.{ClientUrl}

-- A map[string]string, as the list of its entries in the order in which a loop meets them.
abbrev pub Headers : Type 0
Headers = List (Bytes × Bytes)

-- m[k], which is the empty string for a missing key
abbrev pub get : Headers → Bytes → Bytes
get [] k = []
get ((j, v) ∷ m) k = if str_eq j k then v else get m k

abbrev pub has_key : Headers → Bytes → Bool
has_key [] k = false
has_key ((j, v) ∷ m) k = if str_eq j k then true else has_key m k

-- os.FileMode, as far as IsRegular and IsDir tell.
pub data FileMode : Type 0 where
  regular directory special : FileMode

abbrev pub is_regular : FileMode → Bool
is_regular regular = true
is_regular directory = false
is_regular special = false

-- time.Time, in nanoseconds since the zero time.
abbrev pub Time : Type 0
Time = ℕ

pub record ClientContent : Type 0 where
  pub url : ClientUrl
  pub time : Time
  pub size : ℕ
  pub mode : FileMode
  pub storage_class : Bytes
  pub metadata : Headers
  pub user_metadata : Headers
  pub version_id : Bytes
  pub tags : Headers
  pub err : Option McError
