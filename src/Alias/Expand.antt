-- ===== src/Alias/Expand.antt =====
-- expandAlias of cmd/config.go with all that it looks up, and readAliasesFromFile.
use mc.Base.{
  ℕ, Bool, true, false, ◌&&◌, ◌||◌, Option, none, some, List, [], ◌∷◌, ◌++◌, ◌==◌, leb,
  if◌then◌else◌,
}
use mc.Base.Strings.{Bytes, codes, str_eq, trim_prefix, trim_suffix, split_n2}
use mc.Base.Dict.{Dict, lookup, insert}
use mc.Config.Formats.{AliasConfigV10, ConfigV10}
use mc.Url.{url2_alias, url_join_path, is_letter}
use mc.Alias.Env.{UrlParser, expand_alias_from_env}

abbrev pub env_host_prefix : Bytes
env_host_prefix = codes "MC_HOST_"

-- Where aliases are looked up: the environment, the aliases that a file has given, the
-- configuration, if it can be loaded, and its path.
pub record Sources : Type 0 where
  pub parse : UrlParser
  pub env : Bytes → Option Bytes
  pub alias_to_config_map : Dict AliasConfigV10
  pub config : Option ConfigV10
  pub config_path : Bytes

-- The result of expandAlias: the alias, the URL and the configuration, or an error.
pub data Expansion : Type 0 where
  expanded : Bytes → Bytes → Option AliasConfigV10 → Expansion
  failed : Expansion

unfoldable pub clean_alias : Bytes → Bytes
clean_alias s = trim_suffix (trim_suffix s b'/') b'\\'

abbrev pub is_alias_byte : ℕ → Bool
is_alias_byte c = is_letter c || ((leb b'0' c && leb c b'9') || (c == b'-' || c == b'_'))

abbrev pub all_alias_bytes : Bytes → Bool
all_alias_bytes [] = true
all_alias_bytes (c ∷ s) = is_alias_byte c && all_alias_bytes s

-- ^[a-zA-Z][a-zA-Z0-9-_]*$
unfoldable pub is_valid_alias : Bytes → Bool
is_valid_alias [] = false
is_valid_alias (c ∷ s) = is_letter c && all_alias_bytes s

module _ (w : Sources) where
  -- `none` where the configuration cannot be loaded or has no such alias.
  unfoldable pub get_alias_config : Bytes → Option AliasConfigV10
  get_alias_config alias = elim w.config [
    | none ↦ none
    | some c ↦ elim (lookup alias c.aliases) [
      | none ↦ none
      | some h ↦ some (record h { src = w.config_path })
    ]
  ]

  -- env.Get with the empty string as default
  abbrev pub env_text : Bytes → Bytes
  env_text alias = elim (w.env (env_host_prefix ++ alias)) [ none ↦ [] | some s ↦ s ]

  unfoldable pub must_get_host_config : Bytes → Option AliasConfigV10
  must_get_host_config alias = elim (expand_alias_from_env w.parse (env_text alias)) [
    | some h ↦ some h
    | none ↦ elim (lookup alias w.alias_to_config_map) [
      | some h ↦ some h
      | none ↦ get_alias_config alias
    ]
  ]

  abbrev pub joined_url : Bytes → Bytes → Option AliasConfigV10 → Option Expansion
  joined_url alias path none = none
  joined_url alias path (some h) = some (expanded alias (url_join_path h.url path) (some h))

  -- The aliases of the file, then those of the configuration.
  unfoldable pub expand_stored : Bytes → Bytes → Bytes → Expansion
  expand_stored aliased_url alias path =
      elim (joined_url alias path (lookup alias w.alias_to_config_map)) [
        | some e ↦ e
        | none ↦ elim (joined_url alias path (must_get_host_config alias)) [
          | some e ↦ e
          | none ↦ expanded [] aliased_url none
        ]
      ]

  unfoldable pub expand_alias : Bytes → Expansion
  expand_alias aliased_url =
      let (alias, path) = url2_alias aliased_url in
      elim (w.env (env_host_prefix ++ alias)) [
        | none ↦ expand_stored aliased_url alias path
        | some s ↦ elim (joined_url alias path (expand_alias_from_env w.parse s)) [
          | some e ↦ e
          | none ↦ failed
        ]
      ]

  -- The alias and the URL; an error is dropped and leaves both empty.
  unfoldable pub must_expand_alias : Bytes → Bytes × Bytes
  must_expand_alias aliased_url = elim (expand_alias aliased_url) [
    | expanded alias url h ↦ (alias, url)
    | failed ↦ ([], [])
  ]

-- The aliases that are known behind a line, or none where the line is an error.
unfoldable pub read_alias_line :
    UrlParser → Bytes → Dict AliasConfigV10 → Bytes × Option Bytes → Option (Dict AliasConfigV10)
read_alias_line parse file m (name, none) = none
read_alias_line parse file m (name, some value) =
    let alias = trim_prefix name env_host_prefix in
    if str_eq alias [] then none else elim (expand_alias_from_env parse value) [
      | none ↦ none
      | some h ↦ some (insert alias (record h { src = file }) m)
    ]

-- The loop over the lines of a file: the aliases at its end, and whether it was read to its end. A
-- line that is an error ends the loop; the aliases of the lines before it stay.
unfoldable pub read_aliases_from_file :
    UrlParser → Bytes → List Bytes → Dict AliasConfigV10 → Dict AliasConfigV10 × Bool
read_aliases_from_file parse file [] m = (m, true)
read_aliases_from_file parse file (line ∷ lines) m =
    elim (read_alias_line parse file m (split_n2 line b'=')) [
      | none ↦ (m, false)
      | some more ↦ read_aliases_from_file parse file lines more
    ]
