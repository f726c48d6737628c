-- ===== src/Config/ConvertNew.antt =====
-- cmd/config-migrate.go: what is written for the formats 8 to 10.
use mc.Base.{Bool, ◌||◌, [], ◌∷◌, if◌then◌else◌}
use mc.Base.Strings.{Bytes, codes, str_eq}
use mc.Base.Dict.{Dict, copy_map}
use mc.Config.Formats.{
  HostConfigV7, HostConfigV8, HostConfigV9, AliasConfigV10, HostsConfig, ConfigV10, new_config_v8,
  new_config_v9, new_config_v10,
}
use mc.Config.Defaults.{load_defaults_v8, load_defaults_v10}

abbrev pub is_demo_host : Bytes → Bool
is_demo_host host =
    str_eq host (codes "player") || (str_eq host (codes "dl") || str_eq host (codes "play"))

-- The hosts that a loop with `continue` at the demo hosts takes.
abbrev pub without_demo {ℓ} : {V : Type ℓ} → Dict V → Dict V
without_demo [] = []
without_demo ((host, h) ∷ m) =
    if is_demo_host host then without_demo m else (host, h) ∷ without_demo m

abbrev pub host_v8 : HostConfigV7 → HostConfigV8
host_v8 h = record {
  url = h.url;
  access_key = h.access_key;
  secret_key = h.secret_key;
  api = h.api;
}

unfoldable pub convert_v7_to_v8 : HostsConfig HostConfigV7 → HostsConfig HostConfigV8
unfolding new_config_v8 load_defaults_v8
convert_v7_to_v8 c =
    load_defaults_v8 (record new_config_v8 { hosts = copy_map host_v8 [] (without_demo c.hosts) })

abbrev pub host_v9 : HostConfigV8 → HostConfigV9
host_v9 h = record {
  url = h.url;
  access_key = h.access_key;
  secret_key = h.secret_key;
  session_token = [];
  api = h.api;
  lookup_style = codes "auto";
}

unfoldable pub convert_v8_to_v9 : HostsConfig HostConfigV8 → HostsConfig HostConfigV9
convert_v8_to_v9 c = record new_config_v9 { hosts = copy_map host_v9 [] (without_demo c.hosts) }

abbrev pub path_of : Bytes → Bytes
path_of style =
    if str_eq style (codes "dns")
    then codes "off"
    else if str_eq style (codes "path")
    then codes "on"
    else codes "auto"

abbrev pub alias_v10 : HostConfigV9 → AliasConfigV10
alias_v10 h = record {
  url = h.url;
  access_key = h.access_key;
  secret_key = h.secret_key;
  session_token = [];
  api = h.api;
  path = path_of h.lookup_style;
  license = [];
  api_key = [];
  src = [];
}

abbrev pub default_if_empty : Dict HostConfigV9 → ConfigV10 → ConfigV10
default_if_empty [] c = load_defaults_v10 c
default_if_empty (h ∷ hosts) c = c

unfoldable pub convert_v9_to_v10 : HostsConfig HostConfigV9 → ConfigV10
unfolding load_defaults_v10
convert_v9_to_v10 c =
    default_if_empty c.hosts (record new_config_v10 { aliases = copy_map alias_v10 [] c.hosts })
