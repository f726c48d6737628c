-- ===== src/Config/Migrate.antt =====
-- cmd/config-migrate.go: each migration reads the file, leaves it alone if the version is not its
-- own, and writes the next format. Reads and writes of the file, which end the program where they
-- fail, are taken to succeed; `none` is a file of another format than its version says.
use mc.Base.{Option, none, some, if◌then◌else◌}
use mc.Base.Strings.{Bytes, codes, str_eq}
use mc.Config.Formats.{ConfigFile, v1, v101, v2, v3, v4, v5, v6, v7, v8, v9, v10, version_of}
use mc.Config.ConvertOld.{
  convert_v1_to_v101, convert_v101_to_v2, convert_v2_to_v3, convert_v3_to_v4, convert_v4_to_v5,
  convert_v5_to_v6, convert_v6_to_v7,
}
use mc.Config.ConvertNew.{convert_v7_to_v8, convert_v8_to_v9, convert_v9_to_v10}

-- The body of each migration behind its test of the version. A file of another format than its
-- version says is not one that mc has written, and is not modelled.
step_v1 : ConfigFile → Option ConfigFile
unfolding convert_v1_to_v101
step_v1 (v1 c) = some (v101 (convert_v1_to_v101 c))
step_v1 _ = none

step_v101 : ConfigFile → Option ConfigFile
unfolding convert_v101_to_v2
step_v101 (v101 c) = some (v2 (convert_v101_to_v2 c))
step_v101 _ = none

step_v2 : ConfigFile → Option ConfigFile
unfolding convert_v2_to_v3
step_v2 (v2 c) = some (v3 (convert_v2_to_v3 c))
step_v2 _ = none

step_v3 : ConfigFile → Option ConfigFile
unfolding convert_v3_to_v4
step_v3 (v3 c) = some (v4 (convert_v3_to_v4 c))
step_v3 _ = none

step_v4 : ConfigFile → Option ConfigFile
unfolding convert_v4_to_v5
step_v4 (v4 c) = some (v5 (convert_v4_to_v5 c))
step_v4 _ = none

step_v5 : ConfigFile → Option ConfigFile
unfolding convert_v5_to_v6
step_v5 (v5 c) = some (v6 (convert_v5_to_v6 c))
step_v5 _ = none

step_v6 : ConfigFile → Option ConfigFile
unfolding convert_v6_to_v7
step_v6 (v6 c) = some (v7 (convert_v6_to_v7 c))
step_v6 _ = none

step_v7 : ConfigFile → Option ConfigFile
unfolding convert_v7_to_v8
step_v7 (v7 c) = some (v8 (convert_v7_to_v8 c))
step_v7 _ = none

step_v8 : ConfigFile → Option ConfigFile
unfolding convert_v8_to_v9
step_v8 (v8 c) = some (v9 (convert_v8_to_v9 c))
step_v8 _ = none

step_v9 : ConfigFile → Option ConfigFile
unfolding convert_v9_to_v10
step_v9 (v9 c) = some (v10 (convert_v9_to_v10 c))
step_v9 _ = none

abbrev guarded : Bytes → (ConfigFile → Option ConfigFile) → ConfigFile → Option ConfigFile
guarded version step f = if str_eq (version_of f) version then step f else some f

unfoldable pub migrate_config_v1_to_v101 : ConfigFile → Option ConfigFile
unfolding step_v1
migrate_config_v1_to_v101 = guarded (codes "1.0.0") step_v1

unfoldable pub migrate_config_v101_to_v2 : ConfigFile → Option ConfigFile
unfolding step_v101
migrate_config_v101_to_v2 = guarded (codes "1.0.1") step_v101

unfoldable pub migrate_config_v2_to_v3 : ConfigFile → Option ConfigFile
unfolding step_v2
migrate_config_v2_to_v3 = guarded (codes "2") step_v2

unfoldable pub migrate_config_v3_to_v4 : ConfigFile → Option ConfigFile
unfolding step_v3
migrate_config_v3_to_v4 = guarded (codes "3") step_v3

unfoldable pub migrate_config_v4_to_v5 : ConfigFile → Option ConfigFile
unfolding step_v4
migrate_config_v4_to_v5 = guarded (codes "4") step_v4

unfoldable pub migrate_config_v5_to_v6 : ConfigFile → Option ConfigFile
unfolding step_v5
migrate_config_v5_to_v6 = guarded (codes "5") step_v5

unfoldable pub migrate_config_v6_to_v7 : ConfigFile → Option ConfigFile
unfolding step_v6
migrate_config_v6_to_v7 = guarded (codes "6") step_v6

unfoldable pub migrate_config_v7_to_v8 : ConfigFile → Option ConfigFile
unfolding step_v7
migrate_config_v7_to_v8 = guarded (codes "7") step_v7

unfoldable pub migrate_config_v8_to_v9 : ConfigFile → Option ConfigFile
unfolding step_v8
migrate_config_v8_to_v9 = guarded (codes "8") step_v8

unfoldable pub migrate_config_v9_to_v10 : ConfigFile → Option ConfigFile
unfolding step_v9
migrate_config_v9_to_v10 = guarded (codes "9") step_v9

infixl 5 ◌>>=◌
abbrev ◌>>=◌ : Option ConfigFile → (ConfigFile → Option ConfigFile) → Option ConfigFile
none >>= k = none
some f >>= k = k f

unfoldable pub migrate_file : ConfigFile → Option ConfigFile
unfolding migrate_config_v1_to_v101 migrate_config_v101_to_v2 migrate_config_v2_to_v3
    migrate_config_v3_to_v4 migrate_config_v4_to_v5 migrate_config_v5_to_v6 migrate_config_v6_to_v7
    migrate_config_v7_to_v8 migrate_config_v8_to_v9 migrate_config_v9_to_v10
migrate_file f =
    some f
    >>= migrate_config_v1_to_v101
    >>= migrate_config_v101_to_v2
    >>= migrate_config_v2_to_v3
    >>= migrate_config_v3_to_v4
    >>= migrate_config_v4_to_v5
    >>= migrate_config_v5_to_v6
    >>= migrate_config_v6_to_v7
    >>= migrate_config_v7_to_v8
    >>= migrate_config_v8_to_v9
    >>= migrate_config_v9_to_v10

abbrev pub on_disk : Option ConfigFile → Option (Option ConfigFile)
on_disk none = none
on_disk (some g) = some (some g)

-- migrateConfig: without a file nothing is done.
unfoldable pub migrate_config : Option ConfigFile → Option (Option ConfigFile)
migrate_config none = some none
migrate_config (some f) = on_disk (migrate_file f)
