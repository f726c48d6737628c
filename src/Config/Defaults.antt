-- ===== src/Config/Defaults.antt =====
-- The default hosts: loadDefaults of the formats 7, 8 and 10.
use mc.Base.{[], ◌∷◌}
use mc.Base.Strings.{Bytes, codes}
use mc.Base.Dict.{Dict, insert_missing}
use mc.Config.Formats.{HostConfigV7, HostConfigV8, AliasConfigV10, HostsConfig, ConfigV10}

abbrev pub default_access_key : Bytes
default_access_key = codes "YOUR-ACCESS-KEY-HERE"

abbrev pub default_secret_key : Bytes
default_secret_key = codes "YOUR-SECRET-KEY-HERE"

abbrev pub play_access_key : Bytes
play_access_key = codes "Q3AM3UQ867SPQQA43P2F"

abbrev pub play_secret_key : Bytes
play_secret_key = codes "zuf+tfteSlswRu7BJ86wekitnifILbZam1KYY3TG"

abbrev host_v7 : Bytes → Bytes → Bytes → Bytes → HostConfigV7
host_v7 url access secret api = record {
  url = url;
  access_key = access;
  secret_key = secret;
  api = api;
}

abbrev host_v8 : Bytes → Bytes → Bytes → Bytes → HostConfigV8
host_v8 url access secret api = record {
  url = url;
  access_key = access;
  secret_key = secret;
  api = api;
}

abbrev alias_v10 : Bytes → Bytes → Bytes → Bytes → Bytes → AliasConfigV10
alias_v10 url access secret api path = record {
  url = url;
  access_key = access;
  secret_key = secret;
  session_token = [];
  api = api;
  path = path;
  license = [];
  api_key = [];
  src = [];
}

-- The calls of setHost or setAlias, in order: an entry that is there stays.
abbrev pub set_missing : {V : Type 0} → Dict V → Dict V → Dict V
set_missing m [] = m
set_missing m ((k, v) ∷ defaults) = set_missing (insert_missing k v m) defaults

abbrev pub defaults_v7 : Dict HostConfigV7
defaults_v7 =
    (codes "local", host_v7 (codes "http://localhost:9000") [] [] (codes "S3v4"))
    ∷ (
      codes "s3",
      host_v7 (codes "https://s3.amazonaws.com") default_access_key default_secret_key
          (codes "S3v4"),
    )
    ∷ (
      codes "gcs",
      host_v7 (codes "https://storage.googleapis.com") default_access_key default_secret_key
          (codes "S3v2"),
    )
    ∷ (codes "play", host_v7 (codes "https://play.min.io") [] [] (codes "S3v4"))
    ∷ (
      codes "player",
      host_v7 (codes "https://play.min.io:9002") play_access_key play_secret_key (codes "S3v4"),
    )
    ∷ (codes "dl", host_v7 (codes "https://dl.min.io:9000") [] [] (codes "S3v4"))
    ∷ []

abbrev pub defaults_v8 : Dict HostConfigV8
defaults_v8 =
    (codes "local", host_v8 (codes "http://localhost:9000") [] [] (codes "S3v4"))
    ∷ (
      codes "s3",
      host_v8 (codes "https://s3.amazonaws.com") default_access_key default_secret_key
          (codes "S3v4"),
    )
    ∷ (
      codes "gcs",
      host_v8 (codes "https://storage.googleapis.com") default_access_key default_secret_key
          (codes "S3v2"),
    )
    ∷ (
      codes "play",
      host_v8 (codes "https://play.min.io") play_access_key play_secret_key (codes "S3v4"),
    )
    ∷ []

abbrev pub defaults_v10 : Dict AliasConfigV10
defaults_v10 =
    (codes "local", alias_v10 (codes "http://localhost:9000") [] [] (codes "S3v4") (codes "auto"))
    ∷ (
      codes "s3",
      alias_v10 (codes "https://s3.amazonaws.com") default_access_key default_secret_key
          (codes "S3v4") (codes "dns"),
    )
    ∷ (
      codes "gcs",
      alias_v10 (codes "https://storage.googleapis.com") default_access_key default_secret_key
          (codes "S3v2") (codes "dns"),
    )
    ∷ (
      codes "play",
      alias_v10 (codes "https://play.min.io") play_access_key play_secret_key (codes "S3v4")
          (codes "auto"),
    )
    ∷ []

-- loadDefaults
unfoldable pub load_defaults_v7 : HostsConfig HostConfigV7 → HostsConfig HostConfigV7
load_defaults_v7 c = record c { hosts = set_missing c.hosts defaults_v7 }

unfoldable pub load_defaults_v8 : HostsConfig HostConfigV8 → HostsConfig HostConfigV8
load_defaults_v8 c = record c { hosts = set_missing c.hosts defaults_v8 }

unfoldable pub load_defaults_v10 : ConfigV10 → ConfigV10
load_defaults_v10 c = record c { aliases = set_missing c.aliases defaults_v10 }
