-- ===== src/Tests/Aliases.antt =====
-- Runs of the expansion of aliases and of the validation of a configuration.
use mc.Base.{false, none, some, [], ◌∷◌, ◌++◌, ◌≡◌, ◌≢◌, refl, arith, inr, if◌then◌else◌}
use mc.Base.Strings.{codes, str_eq}
use mc.Base.Dict.{lookup}
use mc.Config.Formats.{AliasConfigV10, ConfigV10}
use mc.Url.{slash}
use mc.Url.Join.{IsPlainKey, folder_url}
use mc.Url.Bare.{IsHostUrl}
use mc.Alias.Env.{WebUrl, UrlParser, parse_env_url_str, is_plain_url}
use mc.Alias.Expand.{Sources, expanded, expand_alias}
use mc.Alias.Validate.{validate_config_file}
use mc.Alias.Keys.{IsKey, IsToken, IsHost, parse_env_url_str-env_url}
use mc.Alias.Full.{StandsFor, by_config, EmptyLacksScheme, expand_alias_full}
use mc.Alias.Sound.{FileErrors, IsReport, validate_config_file-FileErrors}

abbrev web_url : WebUrl
web_url = record {
  scheme = codes "https";
  path = [];
  opaque = [];
  force_query = false;
  raw_query = [];
  fragment = [];
  user = none;
  text = codes "https://h";
}

-- url.Parse, as far as it is called here.
abbrev parse_url : UrlParser
parse_url s = if str_eq s (codes "https://h") then some web_url else none

abbrev alias_config : AliasConfigV10
alias_config = record {
  url = codes "https://h";
  access_key = codes "minio";
  secret_key = codes "minio123";
  session_token = [];
  api = codes "s3v4";
  path = [];
  license = [];
  api_key = [];
  src = [];
}

abbrev bad_config : AliasConfigV10
bad_config = record alias_config { url = codes "https://h/b"; api = codes "v1" }

abbrev config : ConfigV10
config = record {
  version = codes "10";
  aliases = (codes "bad", bad_config) ∷ (codes "play", alias_config) ∷ [];
}

abbrev sources : Sources
sources = record {
  parse = parse_url;
  env = λ name. none;
  alias_to_config_map = [];
  config = some config;
  config_path = codes "/home/u/.mc/config.json";
}

sources-EmptyLacksScheme : EmptyLacksScheme sources
sources-EmptyLacksScheme u e = ground arith

play-StandsFor :
    StandsFor sources (codes "play") (record alias_config { src = codes "/home/u/.mc/config.json" })
unfolding lookup
play-StandsFor = by_config refl refl refl refl

https-IsHostUrl : IsHostUrl (codes "https") (codes "h")
https-IsHostUrl = record {
  web = inr refl;
  some_host = ground arith;
  host_bytes = ground arith;
  one_mark = refl;
}

path-IsPlainKey : IsPlainKey (codes "b/a")
path-IsPlainKey = (refl, refl)

expand_alias_full_example :
    expand_alias sources (codes "play" ++ slash ∷ codes "b/a")
    ≡ expanded
        (codes "play")
        (folder_url (codes "https") (codes "h") (codes "b/a"))
        (some (record alias_config { src = codes "/home/u/.mc/config.json" }))
expand_alias_full_example =
    expand_alias_full sources (codes "play") (codes "b/a") (codes "https") (codes "h")
      sources-EmptyLacksScheme (ground arith) play-StandsFor refl https-IsHostUrl path-IsPlainKey

access-IsKey : IsKey (codes "minio")
access-IsKey = ground arith

secret-IsKey : IsKey (codes "s3")
secret-IsKey = ground arith

session-IsToken : IsToken (codes "t:@")
session-IsToken = ground arith

h-IsHost : IsHost (codes "h")
h-IsHost = ground arith

key-NotEmpty : codes "minio" ≢ []
key-NotEmpty = ground arith

parse_env_url_str-env_url_example :
    parse_env_url_str parse_url (codes "https://minio:s3:t:@@h")
    ≡ some (record {
      url = web_url;
      access_key = codes "minio";
      secret_key = codes "s3";
      session_token = codes "t:@";
    })
unfolding is_plain_url
parse_env_url_str-env_url_example =
    parse_env_url_str-env_url parse_url (codes "https://") (codes "minio") (codes "s3")
      (some (codes "t:@")) (codes "h") web_url (inr refl) access-IsKey key-NotEmpty secret-IsKey
      session-IsToken h-IsHost refl refl

validate_config_file-FileErrors_example :
    FileErrors config (validate_config_file config).1 × IsReport (validate_config_file config)
validate_config_file-FileErrors_example = validate_config_file-FileErrors config
