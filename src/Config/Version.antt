-- ===== src/Config/Version.antt =====
-- The version at the end of the migration.
use mc.Base.{◌∙◌, arith, some, [], ◌∷◌, ◌≡◌, refl, ◌⊎◌, inl, inr, sym, subst, ap}
use mc.Base.Strings.{codes}
use mc.Base.Dict.{Dict}
use mc.Config.ConvertNew.{default_if_empty}
use mc.Config.Defaults.{load_defaults_v10}
use mc.Config.Formats.{
  HostConfigV8, HostConfigV9, HostsConfig, ConfigV10, ConfigFile, v1, v101, v2, v3, v4, v5, v6, v7,
  v8, v9, v10, version_of, global_mc_config_version,
}
use mc.Config.Migrate.{migrate_file, migrate_config, on_disk}

-- A file whose version is that of its format.
abbrev pub IsVersioned : ConfigFile → Type 0
IsVersioned (v1 c) = c.version ≡ codes "1.0.0"
IsVersioned (v101 c) = c.version ≡ codes "1.0.1"
IsVersioned (v2 c) = c.version ≡ codes "2"
IsVersioned (v3 c) = c.version ≡ codes "3"
IsVersioned (v4 c) = c.version ≡ codes "4"
IsVersioned (v5 c) = c.version ≡ codes "5"
IsVersioned (v6 c) = c.version ≡ codes "6"
IsVersioned (v7 c) = c.version ≡ codes "7"
IsVersioned (v8 c) = c.version ≡ codes "8"
IsVersioned (v9 c) = c.version ≡ codes "9"
IsVersioned (v10 c) = c.version ≡ codes "10"

-- The migration succeeds, with a file of this kind.
abbrev pub MigratesTo : (ConfigFile → Type 0) → ConfigFile → Type 0
MigratesTo P f = (g : ConfigFile) × (migrate_file f ≡ some g) × P g

-- The forms in which a migration ends.
abbrev pub IsEighth : ConfigFile → Type 0
IsEighth g = (c : HostsConfig HostConfigV8) × (g ≡ v8 c) × (c.version ≡ global_mc_config_version)

abbrev IsTenth : ConfigFile → Type 0
IsTenth g = (c : ConfigV10) × (g ≡ v10 c) × (c.version ≡ global_mc_config_version)

-- A format before the eighth.
abbrev pub IsOld : ConfigFile → Type 0
IsOld (v8 c) = ⊥
IsOld (v9 c) = ⊥
IsOld (v10 c) = ⊥
IsOld _ = Unit

-- Every old format ends at the eighth.
pub migrate_file_old : (f : ConfigFile) → IsVersioned f → IsOld f → MigratesTo IsEighth f
unfolding migrate_file
migrate_file_old (v1 c) e o =
    subst
      (λ v. MigratesTo IsEighth (v1 (record { version = v; aliases = c.aliases; hosts = c.hosts })))
      (sym e) (_, refl, (_, refl, refl))
migrate_file_old (v101 c) e o =
    subst
      (λ v.
        MigratesTo IsEighth (v101 (record { version = v; aliases = c.aliases; hosts = c.hosts })))
      (sym e) (_, refl, (_, refl, refl))
migrate_file_old (v2 c) e o =
    subst
      (λ v. MigratesTo IsEighth (v2 (record { version = v; aliases = c.aliases; hosts = c.hosts })))
      (sym e) (_, refl, (_, refl, refl))
migrate_file_old (v3 c) e o =
    subst
      (λ v. MigratesTo IsEighth (v3 (record { version = v; aliases = c.aliases; hosts = c.hosts })))
      (sym e) (_, refl, (_, refl, refl))
migrate_file_old (v4 c) e o =
    subst
      (λ v. MigratesTo IsEighth (v4 (record { version = v; aliases = c.aliases; hosts = c.hosts })))
      (sym e) (_, refl, (_, refl, refl))
migrate_file_old (v5 c) e o =
    subst
      (λ v. MigratesTo IsEighth (v5 (record { version = v; aliases = c.aliases; hosts = c.hosts })))
      (sym e) (_, refl, (_, refl, refl))
migrate_file_old (v6 c) e o =
    subst
      (λ v. MigratesTo IsEighth (v6 (record { version = v; aliases = c.aliases; hosts = c.hosts })))
      (sym e) (_, refl, (_, refl, refl))
migrate_file_old (v7 c) e o =
    subst (λ v. MigratesTo IsEighth (v7 (record { version = v; hosts = c.hosts }))) (sym e)
      (_, refl, (_, refl, refl))
migrate_file_old (v8 c) e o = absurd o
migrate_file_old (v9 c) e o = absurd o
migrate_file_old (v10 c) e o = absurd o

default_if_empty-version :
    (hosts : Dict HostConfigV9) (c : ConfigV10) → (default_if_empty hosts c).version ≡ c.version
unfolding load_defaults_v10
default_if_empty-version [] c = refl
default_if_empty-version (h ∷ hosts) c = refl

migrate_file_new : (f : ConfigFile) → IsVersioned f → ¬ IsOld f → MigratesTo IsTenth f
unfolding migrate_file
migrate_file_new (v8 c) e o =
    subst (λ v. MigratesTo IsTenth (v8 (record { version = v; hosts = c.hosts }))) (sym e)
      (_, refl, (_, refl, default_if_empty-version _ _))
migrate_file_new (v9 c) e o =
    subst (λ v. MigratesTo IsTenth (v9 (record { version = v; hosts = c.hosts }))) (sym e)
      (_, refl, (_, refl, default_if_empty-version _ _))
migrate_file_new (v10 c) e o =
    subst (λ v. MigratesTo IsTenth (v10 (record { version = v; aliases = c.aliases }))) (sym e)
      (_, refl, (_, refl, refl))
migrate_file_new _ e o = absurd (o tt)

IsOld-cases : (f : ConfigFile) → IsOld f ⊎ (¬ IsOld f)
IsOld-cases (v8 c) = inr (λ h. h)
IsOld-cases (v9 c) = inr (λ h. h)
IsOld-cases (v10 c) = inr (λ h. h)
IsOld-cases _ = inl tt

-- A file with the newest version is left alone, whatever its format is.
pub migrate_file_newest :
    (f : ConfigFile) → version_of f ≡ global_mc_config_version → migrate_file f ≡ some f
unfolding migrate_file
migrate_file_newest f e = simp e

-- Where the file can be read and written, migrateConfig brings every file whose version is that of
-- its format to the newest version: it succeeds, and what it leaves has the version 10.
pub migrate_config_version :
    (f : ConfigFile)
    → IsVersioned f
    → (g : ConfigFile) × (migrate_config (some f) ≡ some (some g))
      × (version_of g ≡ global_mc_config_version)
unfolding migrate_config
migrate_config_version f e = elim (IsOld-cases f) [
  | inl o ↦ let (g, m, (c, w, v)) = migrate_file_old f e o in (g, ap on_disk m, ap version_of w ∙ v)
  | inr o ↦ let (g, m, (c, w, v)) = migrate_file_new f e o in (g, ap on_disk m, ap version_of w ∙ v)
]

-- Running migrateConfig again changes nothing: what the first run leaves of a file whose version is
-- that of its format is left as it is by the second, where the file can be read and written.
pub migrate_config_idem :
    (f : ConfigFile) {g : ConfigFile}
    → IsVersioned f
    → migrate_config (some f) ≡ some (some g)
    → migrate_config (some g) ≡ some (some g)
migrate_config_idem f {g} e h =
    let (g', m, v) = migrate_config_version f e in
    let same : g' ≡ g = ground (arith, m, h) in
    let newest : version_of g ≡ global_mc_config_version =
      subst (λ k. version_of k ≡ global_mc_config_version) same v in
    unfold migrate_config in ap on_disk (migrate_file_newest g newest)
