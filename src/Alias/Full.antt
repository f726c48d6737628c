-- ===== src/Alias/Full.antt =====
-- The URL of `alias/path`, by which a command names one side: cmd/config.go over cmd/client-url.go.
use mc.Base.{none, some, [], ◌∷◌, ◌++◌, ◌≡◌, ◌≢◌, All, arith, ap, ◌∙◌, inl, inr, Option-cases}
use mc.Base.Strings.{Bytes}
use mc.Base.Dict.{lookup}
use mc.Config.Formats.{AliasConfigV10, ConfigV10}
use mc.Url.{url_join_path, slash}
use mc.Url.Alias.{url2_alias-append}
use mc.Url.Join.{IsPlainKey, folder_url}
use mc.Url.Bare.{host_url, IsHostUrl, url_join_path_bare}
use mc.Alias.Env.{
  WebUrl, expand_alias_from_env, parse_env_url_str, is_plain_url, keys_of, host_keys,
  host_key_tokens, web_prefix,
}
use mc.Alias.Expand.{
  Sources, expanded, env_host_prefix, expand_alias, expand_stored, must_get_host_config,
  get_alias_config,
}

-- The configuration that an alias stands for: that of the environment, if its variable is set and
-- sound; else that of the file of the environment, if it has the alias; else that of the
-- configuration file, with its path.
pub data StandsFor (w : Sources) (alias : Bytes) : AliasConfigV10 → Type 0 where
  by_env :
      {s : Bytes} {h : AliasConfigV10}
      → w.env (env_host_prefix ++ alias) ≡ some s
      → expand_alias_from_env w.parse s ≡ some h
      → StandsFor w alias h
  by_file :
      {h : AliasConfigV10}
      → w.env (env_host_prefix ++ alias) ≡ none
      → lookup alias w.alias_to_config_map ≡ some h
      → StandsFor w alias h
  by_config :
      {c : ConfigV10} {h : AliasConfigV10}
      → w.env (env_host_prefix ++ alias) ≡ none
      → lookup alias w.alias_to_config_map ≡ none
      → w.config ≡ some c
      → lookup alias c.aliases ≡ some h
      → StandsFor w alias (record h { src = w.config_path })

-- What url.Parse documents of the empty text: it has no scheme.
abbrev pub EmptyLacksScheme : Sources → Type 0
EmptyLacksScheme w = (u : WebUrl) → w.parse [] ≡ some u → u.scheme ≡ []

module _ (w : Sources) (empty : EmptyLacksScheme w) (alias path : Bytes) where
  empty_env : expand_alias_from_env w.parse [] ≡ none
  unfolding expand_alias_from_env parse_env_url_str is_plain_url keys_of host_keys host_key_tokens
      web_prefix
  empty_env = elim (Option-cases (w.parse [])) [
    | inl e ↦ ground arith
    | inr (u, e) ↦ ground (arith, empty u e)
  ]

  expand_stored_lem :
      (text : Bytes) {h : AliasConfigV10}
      → w.env (env_host_prefix ++ alias) ≡ none
      → StandsFor w alias h
      → expand_stored w text alias path ≡ expanded alias (url_join_path h.url path) (some h)
  unfolding expand_stored must_get_host_config get_alias_config
  expand_stored_lem text n (by_env e f) = ground arith
  expand_stored_lem text n (by_file e f) = ground arith
  expand_stored_lem text n (by_config e f g k) = ground (arith, empty_env)

  expand_alias-append :
      {h : AliasConfigV10}
      → All (λ c. c ≢ slash) alias
      → StandsFor w alias h
      → expand_alias w (alias ++ slash ∷ path) ≡ expanded alias (url_join_path h.url path) (some h)
  unfolding expand_alias
  expand_alias-append a (by_env e f) = ground (arith, url2_alias-append alias path a)
  expand_alias-append a (by_file e f) = ground (
    arith,
    url2_alias-append alias path a,
    expand_stored_lem (alias ++ slash ∷ path) e (by_file e f),
  )
  expand_alias-append a (by_config e f g k) = ground (
    arith,
    url2_alias-append alias path a,
    expand_stored_lem (alias ++ slash ∷ path) e (by_config e f g k),
  )

-- The URL of `alias/path` is that of the alias's host with the path behind a slash, and the
-- configuration is the one that the alias stands for: that of its environment variable, if there is
-- one, else that of the environment file, else that of the configuration file. The alias holds no
-- slash, its URL is a scheme and a host without a path, and the path holds no `://` and does not
-- begin with a slash.
pub expand_alias_full :
    (w : Sources) (alias path scheme host : Bytes) {h : AliasConfigV10}
    → EmptyLacksScheme w
    → All (λ c. c ≢ slash) alias
    → StandsFor w alias h
    → h.url ≡ host_url scheme host
    → IsHostUrl scheme host
    → IsPlainKey path
    → expand_alias w (alias ++ slash ∷ path) ≡ expanded alias (folder_url scheme host path) (some h)
expand_alias_full w alias path scheme host {h} empty a stands e web plain =
    expand_alias-append w empty alias path a stands
    ∙ ap (λ (url : Bytes). expanded alias url (some h))
        (ap (λ (u : Bytes). url_join_path u path) e ∙ url_join_path_bare scheme host path web plain)
