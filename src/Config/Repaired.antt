-- ===== src/Config/Repaired.antt =====
-- What the repairs of cmd/config-fix.go leave of a file of the sixth format.
use mc.Base.{
  Option-cases, Bool, true, false, ◌||◌, Option, none, some, [], ◌∷◌, any, ◌==◌, ◌≡◌, refl, ◌≢◌,
  inl, inr, arith, sym, subst, ◌∙◌, Bool-cases, if◌then◌else◌,
}
use mc.Base.Strings.{Bytes, codes, has_prefix}
use mc.Base.Strings.Laws.{str_eq_iff}
use mc.Base.Dict.{copy, Dict, insert, lookup, IsDict}
use mc.Base.Dict.Laws.{lookup-copy}
use mc.Config.Formats.{HostConfigV6, AliasedConfig}
use mc.Config.Repair.{
  holds, plain_host, fix_hosts, fix_config_v6, is_broken_host, is_web_host, https_host,
  fix_web_hosts, fix_config_v6_for_hosts, fix_file,
}
use mc.Config.WebHosts.{
  ComesFrom, fix_web_hosts-ComesFrom, broken_in, fix_web_hosts-mutated, lookup-fix_web_hosts-none,
  lookup-fix_web_hosts-web, lookup-fix_web_hosts-broken,
}

-- A text with a star.
abbrev pub has_star : Bytes → Bool
has_star [] = false
has_star (c ∷ s) = c == b'*' || has_star s

abbrev pub star_in : Bytes × HostConfigV6 → Bool
star_in (host, h) = has_star host

star-has_prefix : (s d : Bytes) → has_prefix s d ≡ true → has_star d ≡ true → has_star s ≡ true
star-has_prefix s [] h k = cc
star-has_prefix [] (c ∷ d) h k = cc
star-has_prefix (b ∷ s) (c ∷ d) h k = ground (arith, star-has_prefix s d)

star-holds : (s d : Bytes) → holds s d ≡ true → has_star d ≡ true → has_star s ≡ true
star-holds [] d h k = ground (arith, star-has_prefix [] d)
star-holds (c ∷ s) d h k = ground (arith, star-has_prefix (c ∷ s) d, star-holds s d)

holds-star : (s : Bytes) → holds s (codes "*") ≡ has_star s
holds-star [] = refl
holds-star (c ∷ s) = ground (arith, holds-star s)

star-plain_host : (host : Bytes) → has_star host ≡ false → plain_host host ≡ none
unfolding plain_host
star-plain_host host h = ground (
  arith,
  star-holds host (codes "*s3*"),
  star-holds host (codes "*.s3*"),
  star-holds host (codes "s3*"),
  star-holds host (codes "*amazonaws.com"),
  star-holds host (codes "*.amazonaws.com"),
  star-holds host (codes "*storage.googleapis.com"),
  star-holds host (codes "localhost:*"),
  star-holds host (codes "127.0.0.1:*"),
)

fix_hosts_star :
    (fixed : Dict HostConfigV6) (b : Bool) (hosts : Dict HostConfigV6)
    → any star_in hosts ≡ true
    → fix_hosts fixed b hosts ≡ none
unfolding fix_hosts
fix_hosts_star fixed b [] h = cc
fix_hosts_star fixed b ((host, k) ∷ hosts) h = elim (Bool-cases (has_star host)) [
  | inl e ↦ ground (arith, holds-star host)
  | inr e ↦
      ground (
        arith,
        holds-star host,
        star-plain_host host e,
        fix_hosts_star (insert host k fixed) b hosts,
      )
]

fix_hosts_plain :
    (fixed : Dict HostConfigV6) (b : Bool) (hosts : Dict HostConfigV6)
    → any star_in hosts ≡ false
    → (ds : Dict HostConfigV6) × (fix_hosts fixed b hosts ≡ some (ds, b))
unfolding fix_hosts
fix_hosts_plain fixed b [] h = (fixed, refl)
fix_hosts_plain fixed b ((host, k) ∷ hosts) h =
    let none_star : has_star host ≡ false = ground arith in
    let (ds, e) = fix_hosts_plain (insert host k fixed) b hosts (ground arith) in
    (ds, ground (arith, holds-star host, star-plain_host host none_star))

-- fixConfigV6 replaces no host: where one has a star it ends the program, and otherwise it leaves the
-- file as it is.
pub fix_config_v6_lem :
    (c : AliasedConfig HostConfigV6)
    → fix_config_v6 c ≡ (if any star_in c.hosts then none else some c)
unfolding fix_config_v6
fix_config_v6_lem c = elim (Bool-cases (any star_in c.hosts)) [
  | inl e ↦ ground (arith, fix_hosts_star [] false c.hosts e)
  | inr e ↦ let (ds, f) = fix_hosts_plain [] false c.hosts e in ground arith
]

-- What a file of new hosts has of the old one: its aliases, the hosts that begin with http, the broken
-- hosts below https, and no other host. Each host has the keys of an old host that got its name.
pub record IsRepaired (c d : AliasedConfig HostConfigV6) : Type 0 where
  pub version : d.version ≡ codes "6"
  pub aliases : (name : Bytes) → lookup name d.aliases ≡ lookup name c.aliases
  pub web :
      (host : Bytes)
      → is_web_host host ≡ true
      → lookup host c.hosts ≢ none
      → lookup host d.hosts ≢ none
  pub broken :
      (host : Bytes)
      → is_web_host host ≡ false
      → is_broken_host host ≡ true
      → lookup host c.hosts ≢ none
      → lookup (https_host host) d.hosts ≢ none
  pub others : (host : Bytes) → is_web_host host ≡ false → lookup host d.hosts ≡ none
  pub keys :
      (host : Bytes) (h : HostConfigV6) → lookup host d.hosts ≡ some h → ComesFrom c.hosts host h

-- What the repairs come to: the program ends at a host with a star; a file without a broken host
-- stays; otherwise there are new hosts.
pub data Outcome (c : AliasedConfig HostConfigV6)
    : Option (AliasedConfig HostConfigV6) → Type 0 where
  program_ended : any star_in c.hosts ≡ true → Outcome c none
  left_alone : any star_in c.hosts ≡ false → any broken_in c.hosts ≡ false → Outcome c (some c)
  rewritten :
      {d : AliasedConfig HostConfigV6}
      → any star_in c.hosts ≡ false
      → any broken_in c.hosts ≡ true
      → IsRepaired c d
      → Outcome c (some d)

-- No alias and no host stands twice, as in a map.
pub record HasMaps (c : AliasedConfig HostConfigV6) : Type 0 where
  pub aliases : IsDict c.aliases
  pub hosts : IsDict c.hosts

lookup-copy_none :
    (aliases : Dict Bytes) (name : Bytes)
    → IsDict aliases
    → lookup name (copy [] aliases) ≡ lookup name aliases
unfolding lookup
lookup-copy_none aliases name u = elim (Option-cases (lookup name aliases)) [
  | inl e ↦ lookup-copy [] aliases name u ∙ ground arith
  | inr (a, e) ↦ lookup-copy [] aliases name u ∙ ground arith
]

fix_config_v6_for_hosts_lem :
    (c : AliasedConfig HostConfigV6)
    → HasMaps c
    → any star_in c.hosts ≡ false
    → Outcome c (some (fix_config_v6_for_hosts c))
unfolding fix_config_v6_for_hosts lookup
fix_config_v6_for_hosts_lem c u s = elim (Bool-cases (any broken_in c.hosts)) [
  | inl e ↦
      let m : (fix_web_hosts [] false c.hosts).1 ≡ true =
        fix_web_hosts-mutated [] false c.hosts ∙ e in
      rw m (
        rewritten s e (record {
          version = refl;
          aliases = λ name. lookup-copy_none c.aliases name u.aliases;
          web = λ host k l. lookup-fix_web_hosts-web host [] false c.hosts k l;
          broken = λ host k q l. lookup-fix_web_hosts-broken host [] false c.hosts k q l;
          others = λ host k. lookup-fix_web_hosts-none host [] false c.hosts k refl;
          keys = λ host h l. fix_web_hosts-ComesFrom c.hosts host h u.hosts l;
        }))
  | inr e ↦
      let m : (fix_web_hosts [] false c.hosts).1 ≡ false =
        fix_web_hosts-mutated [] false c.hosts ∙ e in
      rw m (left_alone s e)
]

fix_file_star :
    (c : AliasedConfig HostConfigV6)
    → c.version ≡ codes "6"
    → any star_in c.hosts ≡ true
    → fix_file c ≡ none
unfolding fix_file
fix_file_star c v e = ground (arith, fix_config_v6_lem c, str_eq_iff c.version (codes "6"))

fix_file_plain :
    (c : AliasedConfig HostConfigV6)
    → c.version ≡ codes "6"
    → any star_in c.hosts ≡ false
    → fix_file c ≡ some (fix_config_v6_for_hosts c)
unfolding fix_file
fix_file_plain c v e = ground (arith, fix_config_v6_lem c, str_eq_iff c.version (codes "6"))

-- The repairs of a file of the sixth format, in which no key stands twice, never replace a host with
-- a glob: they end the program where a host has a star. Without one, and without a host of the list
-- that lacks its scheme, the file stays as it is. With one, the new file has the aliases, the hosts
-- that begin with http and those of the list below https, every other host is lost, and the keys of
-- each host of the new file are those of a host of the old file that got its name.
pub fix_file-Outcome :
    (c : AliasedConfig HostConfigV6) → HasMaps c → c.version ≡ codes "6" → Outcome c (fix_file c)
fix_file-Outcome c u v = elim (Bool-cases (any star_in c.hosts)) [
  | inl e ↦ subst (Outcome c) (sym (fix_file_star c v e)) (program_ended e)
  | inr e ↦ subst (Outcome c) (sym (fix_file_plain c v e)) (fix_config_v6_for_hosts_lem c u e)
]
