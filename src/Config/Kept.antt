-- ===== src/Config/Kept.antt =====
-- What a migration from the format 8 keeps.
use mc.Base.{
  Bool, true, false, none, some, [], ◌∷◌, ◌≡◌, refl, ◌∙◌, ap, sym, arith, if◌then◌else◌, subst,
}
use mc.Base.Strings.{Bytes, codes}
use mc.Base.Strings.Laws.{str_eq_iff}
use mc.Base.Dict.{Dict, lookup, copy_map, IsDict}
use mc.Base.Dict.Laws.{lookup-copy_map-some, copy_map-IsDict}
use mc.Config.Formats.{
  ConfigFile, ConfigV10, HostsConfig, HostConfigV8, HostConfigV9, v8, v10, load_config_v10,
  global_mc_config_version,
}
use mc.Config.ConvertNew.{
  convert_v8_to_v9, convert_v9_to_v10, host_v9, alias_v10, without_demo, is_demo_host,
  default_if_empty,
}
use mc.Config.Migrate.{migrate_file}

lookup-without_demo :
    {V : Type 0} (m : Dict V) (k : Bytes)
    → is_demo_host k ≡ false
    → lookup k (without_demo m) ≡ lookup k m
unfolding lookup
lookup-without_demo [] k h = refl
lookup-without_demo ((j, v) ∷ m) k h = ground (arith, lookup-without_demo m k h, str_eq_iff j k)

keep_or_drop :
    {V : Type 0} (j : Bytes) (v : V) (m : Dict V)
    → lookup j m ≡ none
    → IsDict (without_demo m)
    → (b : Bool) → is_demo_host j ≡ b
    → IsDict (if b then without_demo m else (j, v) ∷ without_demo m)
keep_or_drop j v m fresh rest true e = rest
keep_or_drop j v m fresh rest false e = (lookup-without_demo m j e ∙ fresh, rest)

without_demo-IsDict : {V : Type 0} (m : Dict V) → IsDict m → IsDict (without_demo m)
without_demo-IsDict [] u = tt
without_demo-IsDict ((j, v) ∷ m) (fresh, u) =
    keep_or_drop j v m fresh (without_demo-IsDict m u) (is_demo_host j) refl

-- An entry that is found shows that the map is not empty, so no defaults are loaded.
keeps_aliases :
    (hosts : Dict HostConfigV9) (c : ConfigV10) (k : Bytes) {h : HostConfigV9}
    → lookup k hosts ≡ some h
    → default_if_empty hosts c ≡ c
unfolding lookup
keeps_aliases [] c k e = absurd (cc)
keeps_aliases (h ∷ hosts) c k e = refl

-- The configuration that the migrations from the format 8 write.
abbrev pub migrated_v8 : HostsConfig HostConfigV8 → ConfigV10
migrated_v8 c = convert_v9_to_v10 (convert_v8_to_v9 c)

migrate_file_v8 :
    (c : HostsConfig HostConfigV8)
    → c.version ≡ codes "8"
    → migrate_file (v8 c) ≡ some (v10 (migrated_v8 c))
unfolding migrate_file convert_v8_to_v9 convert_v9_to_v10
migrate_file_v8 c e =
    let Goal : HostsConfig HostConfigV8 → Type 0 =
      λ d. migrate_file (v8 d) ≡ some (v10 (migrated_v8 d)) in
    subst (λ v. Goal (record { version = v; hosts = c.hosts })) (sym e) refl

lookup-migrated_v8 :
    (c : HostsConfig HostConfigV8) (k : Bytes) {h : HostConfigV8}
    → IsDict c.hosts
    → is_demo_host k ≡ false
    → lookup k c.hosts ≡ some h
    → lookup k (migrated_v8 c).aliases ≡ some (alias_v10 (host_v9 h))
unfolding convert_v8_to_v9 convert_v9_to_v10
lookup-migrated_v8 c k {h} u own found =
    let kept = without_demo c.hosts in
    let hosts = copy_map host_v9 [] kept in
    let ninth : lookup k hosts ≡ some (host_v9 h) =
      lookup-copy_map-some host_v9 kept k (without_demo-IsDict c.hosts u)
        (lookup-without_demo c.hosts k own ∙ found) in
    let tenth : ConfigV10 = record {
      version = global_mc_config_version;
      aliases = copy_map alias_v10 [] hosts;
    } in
    ap (λ (d : ConfigV10). lookup k d.aliases) (keeps_aliases hosts tenth k ninth)
    ∙ lookup-copy_map-some alias_v10 hosts k (copy_map-IsDict host_v9 [] kept tt) ninth

-- A host of a file of the format 8 is found under its name when the file has been migrated and is
-- loaded: with its URL, its keys and its API, with the path style `auto`, and with the other fields empty. It must not be one of
-- the demo hosts `player`, `dl` and `play`, which are dropped.
pub lookup-migrate_v8 :
    (c : HostsConfig HostConfigV8) (k : Bytes) {h : HostConfigV8}
    → c.version ≡ codes "8"
    → IsDict c.hosts
    → is_demo_host k ≡ false
    → lookup k c.hosts ≡ some h
    → (g : ConfigFile) × (d : ConfigV10) × (migrate_file (v8 c) ≡ some g)
      × (load_config_v10 g ≡ some d)
      × (lookup k d.aliases
          ≡ some (record {
            url = h.url;
            access_key = h.access_key;
            secret_key = h.secret_key;
            session_token = [];
            api = h.api;
            path = codes "auto";
            license = [];
            api_key = [];
            src = [];
          }))
unfolding load_config_v10
lookup-migrate_v8 c k e u own found = (
  v10 (migrated_v8 c),
  migrated_v8 c,
  migrate_file_v8 c e,
  refl,
  lookup-migrated_v8 c k u own found,
)
