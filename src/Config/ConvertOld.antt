-- ===== src/Config/ConvertOld.antt =====
-- cmd/config-migrate.go: what is written for the formats 1.0.1 to 7.
use mc.Base.{ℕ, suc, Bool, true, false, ◌||◌, none, some, [], ◌∷◌, ◌++◌, if◌then◌else◌}
use mc.Base.Strings.{Bytes, codes, str_eq, index}
use mc.Base.Decimal.{decimal}
use mc.Base.Dict.{Dict, insert, insert_missing, copy, copy_map}
use mc.Config.Formats.{
  HostConfigV1, HostConfigV3, HostConfigV4, HostConfigV5, HostConfigV6, HostConfigV7, AliasedConfig,
  HostsConfig, new_config_v7,
}
use mc.Config.Defaults.{load_defaults_v7}

abbrev old_access_key : Bytes
old_access_key = codes "YOUR-ACCESS-KEY-ID-HERE"

abbrev old_secret_key : Bytes
old_secret_key = codes "YOUR-SECRET-ACCESS-KEY-HERE"

abbrev keep_host : HostConfigV1 → HostConfigV1
keep_host h = h

unfoldable pub convert_v1_to_v101 : AliasedConfig HostConfigV1 → AliasedConfig HostConfigV1
convert_v1_to_v101 c = record {
  version = codes "1.0.1";
  aliases = copy [] c.aliases;
  hosts =
      insert_missing (codes "*.s3*.amazonaws.com")
        (record { access_key_id = old_access_key; secret_access_key = old_secret_key })
        (insert_missing (codes "127.0.0.1:*")
          (record { access_key_id = []; secret_access_key = [] })
          (insert_missing (codes "localhost:*")
            (record { access_key_id = []; secret_access_key = [] })
            (copy_map keep_host [] c.hosts)));
}

unfoldable pub convert_v101_to_v2 : AliasedConfig HostConfigV1 → AliasedConfig HostConfigV1
convert_v101_to_v2 c = record {
  version = codes "2";
  aliases = copy [] c.aliases;
  hosts = copy_map keep_host [] c.hosts;
}

abbrev host_v3 : HostConfigV1 → HostConfigV3
host_v3 h = record { access_key_id = h.access_key_id; secret_access_key = h.secret_access_key }

unfoldable pub convert_v2_to_v3 : AliasedConfig HostConfigV1 → AliasedConfig HostConfigV3
convert_v2_to_v3 c = record {
  version = codes "3";
  aliases = copy [] c.aliases;
  hosts = copy_map host_v3 [] c.hosts;
}

abbrev host_v4 : HostConfigV3 → HostConfigV4
host_v4 h = record {
  access_key_id = h.access_key_id;
  secret_access_key = h.secret_access_key;
  signature = codes "v4";
}

unfoldable pub convert_v3_to_v4 : AliasedConfig HostConfigV3 → AliasedConfig HostConfigV4
convert_v3_to_v4 c = record {
  version = codes "4";
  aliases = copy [] c.aliases;
  hosts = copy_map host_v4 [] c.hosts;
}

-- The API is set to v4, whatever the signature was.
abbrev pub host_v5 : HostConfigV4 → HostConfigV5
host_v5 h = record {
  access_key_id = h.access_key_id;
  secret_access_key = h.secret_access_key;
  api = codes "v4";
}

unfoldable pub convert_v4_to_v5 : AliasedConfig HostConfigV4 → AliasedConfig HostConfigV5
convert_v4_to_v5 c = record {
  version = codes "5";
  aliases = copy [] c.aliases;
  hosts = copy_map host_v5 [] c.hosts;
}

abbrev host_v6 : HostConfigV5 → HostConfigV6
host_v6 h = record {
  access_key_id = h.access_key_id;
  secret_access_key = h.secret_access_key;
  api = h.api;
}

abbrev s3_glob : Bytes
s3_glob = codes "*s3*amazonaws.com"

abbrev has_default_keys : HostConfigV5 → Bool
has_default_keys h =
    str_eq h.access_key_id old_access_key
    || (str_eq h.secret_access_key old_secret_key
        || (str_eq h.access_key_id [] || str_eq h.secret_access_key []))

-- strings.Contains(host, "s3")
abbrev holds_s3 : Bytes → Bool
holds_s3 host = elim (index host (codes "s3")) [ none ↦ false | some i ↦ true ]

-- The loop over the hosts of format 5.
add_hosts_v6 : Dict HostConfigV6 → Dict HostConfigV5 → Dict HostConfigV6
add_hosts_v6 m [] = m
add_hosts_v6 m ((host, h) ∷ rest) =
    add_hosts_v6
      (if holds_s3 host
        then (if has_default_keys h then m else insert s3_glob (host_v6 h) m)
        else insert host (host_v6 h) m)
      rest

unfoldable pub convert_v5_to_v6 : AliasedConfig HostConfigV5 → AliasedConfig HostConfigV6
unfolding add_hosts_v6
convert_v5_to_v6 c = record {
  version = codes "6";
  aliases = copy ((codes "gcs", codes "https://storage.googleapis.com") ∷ []) c.aliases;
  hosts =
      add_hosts_v6
        (insert (codes "*storage.googleapis.com")
          (record {
            access_key_id = old_access_key;
            secret_access_key = old_secret_key;
            api = codes "S3v2";
          })
          (insert s3_glob
            (record {
              access_key_id = old_access_key;
              secret_access_key = old_secret_key;
              api = codes "S3v4";
            })
            []))
        c.hosts;
}

abbrev host_v7 : Bytes → HostConfigV6 → HostConfigV7
host_v7 host h = record {
  url = host;
  access_key = h.access_key_id;
  secret_key = h.secret_access_key;
  api = h.api;
}

-- The loop over the old aliases: every alias of this host names an entry of its own.
add_aliased : Bytes → HostConfigV6 → Dict Bytes → Dict HostConfigV7 → Dict HostConfigV7
add_aliased host h [] m = m
add_aliased host h ((alias, aliased) ∷ rest) m =
    add_aliased host h rest (if str_eq aliased host then insert alias (host_v7 host h) m else m)

-- The loop over the hosts; the number is that of the next generic name.
add_hosts_v7 : Dict Bytes → ℕ → Dict HostConfigV6 → Dict HostConfigV7 → Dict HostConfigV7
unfolding add_aliased
add_hosts_v7 aliases next [] m = m
add_hosts_v7 aliases next ((host, h) ∷ rest) m =
    let named = add_aliased host h aliases m in
    let as_s3 = add_hosts_v7 aliases next rest (insert (codes "s3") (host_v7 host h) named) in
    let as_gcs = add_hosts_v7 aliases next rest (insert (codes "gcs") (host_v7 host h) named) in
    let as_cloud =
      add_hosts_v7 aliases (suc next) rest
        (insert (codes "cloud" ++ decimal next) (host_v7 host h) named) in
    if str_eq host (codes "https://s3.amazonaws.com")
    then as_s3
    else if str_eq host (codes "https://storage.googleapis.com")
    then as_gcs
    else as_cloud

unfoldable pub convert_v6_to_v7 : AliasedConfig HostConfigV6 → HostsConfig HostConfigV7
unfolding add_hosts_v7 load_defaults_v7
convert_v6_to_v7 c =
    load_defaults_v7 (record new_config_v7 { hosts = add_hosts_v7 c.aliases 0 c.hosts [] })
