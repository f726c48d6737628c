-- ===== src/Config/Lost.antt =====
-- What a migration from the formats 1.0.0 to 7 leaves for loadConfigV10.
use mc.Base.{some, [], ◌≡◌, ◌∙◌, ap}
use mc.Config.Formats.{ConfigFile, ConfigV10, load_config_v10, global_mc_config_version}
use mc.Config.Migrate.{migrate_file}
use mc.Config.Version.{IsVersioned, IsOld, migrate_file_old}

-- A configuration without an alias, under the newest version.
abbrev pub empty_config : ConfigV10
empty_config = record { version = global_mc_config_version; aliases = [] }

-- Every host is lost when a file of one of the formats 1.0.0 to 7 is migrated: the eighth format is
-- written under the version 10, so the later migrations pass it by, and loadConfigV10 finds no
-- alias in it, whatever hosts the file had.
pub load_config_v10-migrate_old :
    (f : ConfigFile)
    → IsVersioned f
    → IsOld f
    → (g : ConfigFile) × (migrate_file f ≡ some g) × (load_config_v10 g ≡ some empty_config)
unfolding load_config_v10
load_config_v10-migrate_old f e o =
    let (g, m, (c, w, v)) = migrate_file_old f e o in
    (g, m, ap load_config_v10 w ∙ ap (λ k. some (record { version = k; aliases = [] })) v)
