-- ===== src/Config/Repair.antt =====
-- The repairs of configuration files of the sixth format: cmd/config-fix.go.
use mc.Base.{Bool, true, false, not, ◌||◌, Option, none, some, List, [], ◌∷◌, if◌then◌else◌}
use mc.Base.Strings.{Bytes, codes, str_eq, has_prefix, index, contains}
use mc.Base.Dict.{Dict, insert, copy}
use mc.Config.Formats.{HostConfigV6, AliasedConfig}
use mc.Url.{object_storage, to_string}

-- strings.Contains
abbrev pub holds : Bytes → Bytes → Bool
holds s d = elim (index s d) [ none ↦ false | some i ↦ true ]

-- The host in place of one with a glob, by the tests in their order.
unfoldable pub plain_host : Bytes → Option Bytes
plain_host host =
    if holds host (codes "*s3*") || holds host (codes "*.s3*")
    then some (codes "s3.amazonaws.com")
    else if holds host (codes "s3*")
    then some (codes "s3.amazonaws.com")
    else if holds host (codes "*amazonaws.com") || holds host (codes "*.amazonaws.com")
    then some (codes "s3.amazonaws.com")
    else if holds host (codes "*storage.googleapis.com")
    then some (codes "storage.googleapis.com")
    else if holds host (codes "localhost:*")
    then some (codes "localhost:9000")
    else if holds host (codes "127.0.0.1:*")
    then some (codes "127.0.0.1:9000")
    else none

-- The loop of fixConfigV6: the hosts of the new file, and whether it is to be saved; `none` ends the
-- program.
unfoldable pub fix_hosts :
    Dict HostConfigV6 → Bool → Dict HostConfigV6 → Option (Dict HostConfigV6 × Bool)
fix_hosts fixed is_mutated [] = some (fixed, is_mutated)
fix_hosts fixed is_mutated ((host, h) ∷ hosts) =
    if holds host (codes "*") then none else elim (plain_host host) [
      | some plain ↦ fix_hosts (insert plain h fixed) true hosts
      | none ↦ fix_hosts (insert host h fixed) is_mutated hosts
    ]

-- A file that is not saved stays as it is.
unfoldable pub fix_config_v6 : AliasedConfig HostConfigV6 → Option (AliasedConfig HostConfigV6)
fix_config_v6 c = elim (fix_hosts [] false c.hosts) [
  | none ↦ none
  | some (hosts, is_mutated) ↦
      some (
        if is_mutated
        then record { version = codes "6"; aliases = c.aliases; hosts = hosts }
        else c)
]

abbrev pub broken_hosts : List Bytes
broken_hosts =
    codes "s3.amazonaws.com"
    ∷ codes "storage.googleapis.com"
    ∷ codes "localhost:9000"
    ∷ codes "127.0.0.1:9000"
    ∷ codes "play.min.io:9000"
    ∷ codes "dl.min.io:9000"
    ∷ []

unfoldable pub is_web_host : Bytes → Bool
is_web_host host = has_prefix host (codes "https") || has_prefix host (codes "http")

unfoldable pub is_broken_host : Bytes → Bool
is_broken_host host = contains broken_hosts host

-- The text of a ClientURL of which only the host, the scheme and its separator are set.
unfoldable pub https_host : Bytes → Bytes
https_host host = to_string (record {
  kind = object_storage;
  scheme = codes "https";
  host = host;
  path = [];
  scheme_separator = codes "://";
  separator = 0;
})

-- The loop of fixConfigV6ForHosts.
unfoldable pub fix_web_hosts :
    Dict HostConfigV6 → Bool → Dict HostConfigV6 → Dict HostConfigV6 × Bool
fix_web_hosts fixed is_mutated [] = (fixed, is_mutated)
fix_web_hosts fixed is_mutated ((host, h) ∷ hosts) =
    if is_web_host host
    then fix_web_hosts (insert host h fixed) is_mutated hosts
    else if is_broken_host host
    then fix_web_hosts (insert (https_host host) h fixed) true hosts
    else fix_web_hosts fixed is_mutated hosts

abbrev saved_hosts :
    AliasedConfig HostConfigV6 → Dict HostConfigV6 × Bool → AliasedConfig HostConfigV6
saved_hosts c (hosts, true) = record {
  version = codes "6";
  aliases = copy [] c.aliases;
  hosts = hosts;
}
saved_hosts c (hosts, false) = c

unfoldable pub fix_config_v6_for_hosts : AliasedConfig HostConfigV6 → AliasedConfig HostConfigV6
fix_config_v6_for_hosts c = saved_hosts c (fix_web_hosts [] false c.hosts)

-- The two repairs of the sixth format, in their order.
unfoldable pub fix_file : AliasedConfig HostConfigV6 → Option (AliasedConfig HostConfigV6)
fix_file c = if not (str_eq c.version (codes "6")) then some c else elim (fix_config_v6 c) [
  | none ↦ none
  | some d ↦ some (if str_eq d.version (codes "6") then fix_config_v6_for_hosts d else d)
]
