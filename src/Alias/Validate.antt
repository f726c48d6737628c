-- ===== src/Alias/Validate.antt =====
-- cmd/config-validate.go and cmd/config-utils.go.
use mc.Base.{
  Bool, true, false, not, ◌&&◌, ◌||◌, Option, none, some, List, [], ◌∷◌, ◌++◌, leb, if◌then◌else◌,
  length,
}
use mc.Base.Strings.{Bytes, codes, str_eq, trim_suffix, to_lower, contains}
use mc.Base.Dict.{Dict}
use mc.Config.Formats.{AliasConfigV10, ConfigV10, global_mc_config_version}
use mc.Duration.Units.{is_blank}
use mc.Url.{new_client_url}

-- What a message of the validation is written from.
pub data ConfigError : Type 0 where
  bad_version : Bytes → ConfigError
  invalid_api_signature : Bytes → Bytes → ConfigError
  invalid_url : Bytes → ConfigError

unfoldable pub is_valid_access_key : Bytes → Bool
is_valid_access_key key = str_eq key [] || leb 3 (length key)

unfoldable pub is_valid_secret_key : Bytes → Bool
is_valid_secret_key key = str_eq key [] || leb 8 (length key)

unfoldable pub trim_trailing_separator : Bytes → Bytes
trim_trailing_separator url = trim_suffix url (new_client_url url).separator

unfoldable pub is_valid_host_url : Bytes → Bool
is_valid_host_url host_url =
    let url = new_client_url host_url in
    not (is_blank host_url)
    && ((str_eq url.scheme (codes "https") || str_eq url.scheme (codes "http"))
        && str_eq url.path (codes "/"))

unfoldable pub is_valid_api : Bytes → Bool
is_valid_api api = contains (codes "s3v2" ∷ codes "s3v4" ∷ []) (to_lower api)

-- The errors; the validation is successful where there are none.
unfoldable pub validate_config_host : AliasConfigV10 → Bool × List ConfigError
validate_config_host host =
    let api = is_valid_api (to_lower host.api) in
    let url = is_valid_host_url host.url in
    (
      api && url,
      (if api then [] else invalid_api_signature host.api host.url ∷ [])
          ++ (if url then [] else invalid_url host.url ∷ []),
    )

unfoldable pub validate_config_version : ConfigV10 → Bool × Option ConfigError
validate_config_version config =
    if str_eq config.version global_mc_config_version
    then (true, none)
    else (false, some (bad_version config.version))

-- The loop over the aliases, from what is known so far.
unfoldable pub validate_aliases :
    Bool × List ConfigError → Dict AliasConfigV10 → Bool × List ConfigError
validate_aliases found [] = found
validate_aliases (successful, errors) ((alias, host) ∷ aliases) =
    let (healthy, more) = validate_config_host host in
    validate_aliases (if healthy then (successful, errors) else (false, errors ++ more)) aliases

unfoldable pub validate_config_file : ConfigV10 → Bool × List ConfigError
validate_config_file config =
    let (valid, error) = validate_config_version config in
    validate_aliases (valid, elim error [ none ↦ [] | some e ↦ e ∷ [] ]) config.aliases
