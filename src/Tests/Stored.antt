-- ===== src/Tests/Stored.antt =====
-- Runs of the migration of the configuration file.
use mc.Config.Repair.{fix_file}
use mc.Config.Repaired.{Outcome, HasMaps, fix_file-Outcome}
use mc.Base.{some, [], ◌∷◌, ◌≡◌, refl}
use mc.Base.Strings.{codes}
use mc.Base.Dict.{lookup}
use mc.Config.Formats.{
  HostConfigV6, AliasedConfig, HostConfigV8, HostsConfig, ConfigV10, ConfigFile, v7, v8,
  load_config_v10, global_mc_config_version, version_of,
}
use mc.Config.Migrate.{migrate_file, migrate_config}
use mc.Config.Version.{migrate_config_version, migrate_config_idem}
use mc.Config.Lost.{empty_config, load_config_v10-migrate_old}
use mc.Config.Kept.{lookup-migrate_v8}

abbrev office_v7 : ConfigFile
office_v7 = v7 (record {
  version = codes "7";
  hosts =
      (
        codes "office",
        record {
          url = codes "https://office:9000";
          access_key = codes "USER";
          secret_key = codes "PASSWORD";
          api = codes "S3v4";
        },
      )
      ∷ [];
})

abbrev office_host : HostConfigV8
office_host = record {
  url = codes "https://office:9000";
  access_key = codes "USER";
  secret_key = codes "PASSWORD";
  api = codes "S3v4";
}

abbrev office_v8 : HostsConfig HostConfigV8
office_v8 = record {
  version = codes "8";
  hosts =
      (
        codes "play",
        record {
          url = codes "https://play.min.io:9000";
          access_key = [];
          secret_key = [];
          api = codes "S3v4";
        },
      )
      ∷ (codes "office", office_host)
      ∷ [];
}

migrate_config_version_example :
    (g : ConfigFile) × (migrate_config (some office_v7) ≡ some (some g))
    × (version_of g ≡ global_mc_config_version)
migrate_config_version_example = migrate_config_version office_v7 refl

load_config_v10-migrate_old_example :
    (g : ConfigFile) × (migrate_file office_v7 ≡ some g) × (load_config_v10 g ≡ some empty_config)
load_config_v10-migrate_old_example = load_config_v10-migrate_old office_v7 refl tt

lookup-migrate_v8_example :
    (g : ConfigFile) × (d : ConfigV10) × (migrate_file (v8 office_v8) ≡ some g)
    × (load_config_v10 g ≡ some d)
    × (lookup (codes "office") d.aliases
        ≡ some (record {
          url = codes "https://office:9000";
          access_key = codes "USER";
          secret_key = codes "PASSWORD";
          session_token = [];
          api = codes "S3v4";
          path = codes "auto";
          license = [];
          api_key = [];
          src = [];
        }))
unfolding lookup
lookup-migrate_v8_example =
    lookup-migrate_v8 office_v8 (codes "office") refl (refl, (refl, tt)) refl refl

abbrev office_version :
    (g : ConfigFile) × (migrate_config (some office_v7) ≡ some (some g))
    × (version_of g ≡ global_mc_config_version)
office_version = migrate_config_version office_v7 refl

migrate_config_idem_example : migrate_config (some office_version.0) ≡ some (some office_version.0)
migrate_config_idem_example = migrate_config_idem office_v7 refl office_version.1

abbrev key_v6 : HostConfigV6
key_v6 = record { access_key_id = codes "a"; secret_access_key = codes "s"; api = codes "v4" }

-- Of these three hosts, `myhost:9000` is lost by the repair.
abbrev broken_v6 : AliasedConfig HostConfigV6
broken_v6 = record {
  version = codes "6";
  aliases = [];
  hosts =
      (codes "https://h", key_v6)
      ∷ (codes "localhost:9000", key_v6)
      ∷ (codes "myhost:9000", key_v6)
      ∷ [];
}

broken_v6-HasMaps : HasMaps broken_v6
unfolding lookup
broken_v6-HasMaps = record { aliases = tt; hosts = (refl, (refl, (refl, tt))) }

fix_file-Outcome_example : Outcome broken_v6 (fix_file broken_v6)
fix_file-Outcome_example = fix_file-Outcome broken_v6 broken_v6-HasMaps refl
