-- ===== src/Config/Formats.antt =====
-- The formats of the configuration file: cmd/config-old.go and cmd/config-v10.go.
use mc.Base.{Option, none, some, [], ◌∷◌}
use mc.Base.Strings.{Bytes, codes}
use mc.Base.Dict.{Dict}

-- hostConfigV1; hostConfigV101 and hostConfigV2 are defined by it.
pub record HostConfigV1 : Type 0 where
  pub access_key_id : Bytes
  pub secret_access_key : Bytes

abbrev pub HostConfigV101 : Type 0
HostConfigV101 = HostConfigV1

abbrev pub HostConfigV2 : Type 0
HostConfigV2 = HostConfigV1

-- The same fields under other JSON names.
pub record HostConfigV3 : Type 0 where
  pub access_key_id : Bytes
  pub secret_access_key : Bytes

pub record HostConfigV4 : Type 0 where
  pub access_key_id : Bytes
  pub secret_access_key : Bytes
  pub signature : Bytes

pub record HostConfigV5 : Type 0 where
  pub access_key_id : Bytes
  pub secret_access_key : Bytes
  pub api : Bytes

pub record HostConfigV6 : Type 0 where
  pub access_key_id : Bytes
  pub secret_access_key : Bytes
  pub api : Bytes

pub record HostConfigV7 : Type 0 where
  pub url : Bytes
  pub access_key : Bytes
  pub secret_key : Bytes
  pub api : Bytes

pub record HostConfigV8 : Type 0 where
  pub url : Bytes
  pub access_key : Bytes
  pub secret_key : Bytes
  pub api : Bytes

pub record HostConfigV9 : Type 0 where
  pub url : Bytes
  pub access_key : Bytes
  pub secret_key : Bytes
  pub session_token : Bytes
  pub api : Bytes
  pub lookup_style : Bytes

pub record AliasConfigV10 : Type 0 where
  pub url : Bytes
  pub access_key : Bytes
  pub secret_key : Bytes
  pub session_token : Bytes
  pub api : Bytes
  pub path : Bytes
  pub license : Bytes
  pub api_key : Bytes
  pub src : Bytes

-- configV1 to configV6, over the host's record.
pub record AliasedConfig (H : Type 0) : Type 0 where
  pub version : Bytes
  pub aliases : Dict Bytes
  pub hosts : Dict H

-- configV7 to configV9.
pub record HostsConfig (H : Type 0) : Type 0 where
  pub version : Bytes
  pub hosts : Dict H

pub record ConfigV10 : Type 0 where
  pub version : Bytes
  pub aliases : Dict AliasConfigV10

-- The file on disk, by the format in which it was written.
pub data ConfigFile : Type 0 where
  v1 : AliasedConfig HostConfigV1 → ConfigFile
  v101 : AliasedConfig HostConfigV101 → ConfigFile
  v2 : AliasedConfig HostConfigV2 → ConfigFile
  v3 : AliasedConfig HostConfigV3 → ConfigFile
  v4 : AliasedConfig HostConfigV4 → ConfigFile
  v5 : AliasedConfig HostConfigV5 → ConfigFile
  v6 : AliasedConfig HostConfigV6 → ConfigFile
  v7 : HostsConfig HostConfigV7 → ConfigFile
  v8 : HostsConfig HostConfigV8 → ConfigFile
  v9 : HostsConfig HostConfigV9 → ConfigFile
  v10 : ConfigV10 → ConfigFile

-- globalMCConfigVersion of cmd/globals.go
abbrev pub global_mc_config_version : Bytes
global_mc_config_version = codes "10"

-- anyCfg.Version(): all formats keep the version under one name.
abbrev pub version_of : ConfigFile → Bytes
version_of (v1 c) = c.version
version_of (v101 c) = c.version
version_of (v2 c) = c.version
version_of (v3 c) = c.version
version_of (v4 c) = c.version
version_of (v5 c) = c.version
version_of (v6 c) = c.version
version_of (v7 c) = c.version
version_of (v8 c) = c.version
version_of (v9 c) = c.version
version_of (v10 c) = c.version

abbrev pub new_config_v7 : HostsConfig HostConfigV7
new_config_v7 = record { version = codes "7"; hosts = [] }

-- newConfigV8 takes the version of the newest format.
unfoldable pub new_config_v8 : HostsConfig HostConfigV8
new_config_v8 = record { version = global_mc_config_version; hosts = [] }

abbrev pub new_config_v9 : HostsConfig HostConfigV9
new_config_v9 = record { version = codes "9"; hosts = [] }

abbrev pub new_config_v10 : ConfigV10
new_config_v10 = record { version = global_mc_config_version; aliases = [] }

-- What loadConfigV10 reads of a file. The formats 7 to 9 have no member `aliases`, and those from 3
-- to 6 have `alias` instead, so their maps are not read; the first three have a map of strings under
-- `aliases`, which is an error for a struct unless the map is empty.
abbrev aliases_as_structs : Bytes → Dict Bytes → Option ConfigV10
aliases_as_structs version [] = some (record { version = version; aliases = [] })
aliases_as_structs version (a ∷ m) = none

abbrev no_aliases : Bytes → Option ConfigV10
no_aliases version = some (record { version = version; aliases = [] })

unfoldable pub load_config_v10 : ConfigFile → Option ConfigV10
load_config_v10 (v1 c) = aliases_as_structs c.version c.aliases
load_config_v10 (v101 c) = aliases_as_structs c.version c.aliases
load_config_v10 (v2 c) = aliases_as_structs c.version c.aliases
load_config_v10 (v3 c) = no_aliases c.version
load_config_v10 (v4 c) = no_aliases c.version
load_config_v10 (v5 c) = no_aliases c.version
load_config_v10 (v6 c) = no_aliases c.version
load_config_v10 (v7 c) = no_aliases c.version
load_config_v10 (v8 c) = no_aliases c.version
load_config_v10 (v9 c) = no_aliases c.version
load_config_v10 (v10 c) = some c
