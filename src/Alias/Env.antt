-- ===== src/Alias/Env.antt =====
-- parseEnvURLStr and expandAliasFromEnv of cmd/config.go.
use mc.Base.{
  ℕ, ◌+◌, Bool, false, not, ◌&&◌, ◌||◌, Option, none, some, [], ◌∷◌, ◌++◌, ◌==◌, if◌then◌else◌,
  take, drop,
}
use mc.Base.Strings.{Bytes, codes, str_eq, has_prefix, last_index, split_n2}
use mc.Config.Formats.{AliasConfigV10}

-- net/url: a URL as url.Parse gives it, with its String as `text`, and the parser, where `none` is
-- an error.
pub record WebUrl : Type 0 where
  pub scheme : Bytes
  pub path : Bytes
  pub opaque : Bytes
  pub force_query : Bool
  pub raw_query : Bytes
  pub fragment : Bytes
  pub user : Option (Bytes × Bytes)
  pub text : Bytes

abbrev pub UrlParser : Type 0
UrlParser = Bytes → Option WebUrl

-- The URL and the keys of an environment variable.
pub record EnvUrl : Type 0 where
  pub url : WebUrl
  pub access_key : Bytes
  pub secret_key : Bytes
  pub session_token : Bytes

-- What an expression has matched: its parts.
pub record HostKeys : Type 0 where
  pub prefix : Bytes
  pub access_key : Bytes
  pub secret_key : Bytes
  pub session_token : Bytes
  pub host : Bytes

abbrev pub new_line : ℕ
new_line = 10

-- `.` matches no line break.
abbrev pub has_byte : ℕ → Bytes → Bool
has_byte d [] = false
has_byte d (c ∷ s) = c == d || has_byte d s

-- ^(https?://), and the rest
unfoldable pub web_prefix : Bytes → Option (Bytes × Bytes)
web_prefix s =
    if has_prefix s (codes "https://")
    then some (codes "https://", drop 8 s)
    else if has_prefix s (codes "http://")
    then some (codes "http://", drop 7 s)
    else none

-- (.*)@(.*?)$ : the parts before and behind the last @
unfoldable pub last_at : Bytes → Option (Bytes × Bytes)
last_at s = elim (last_index s b'@') [ none ↦ none | some i ↦ some (take i s, drop (i + 1) s) ]

-- (.*?):(.*)@(.*?)$
unfoldable pub keys_and_host : Bytes × Option Bytes → Option (Bytes × Bytes × Bytes)
keys_and_host (access, none) = none
keys_and_host (access, some rest) = elim (last_at rest) [
  | none ↦ none
  | some (secret, host) ↦ some (access, secret, host)
]

-- (.*?):(.*?):(.*)@(.*?)$
unfoldable pub tokens_and_host : Bytes × Option Bytes → Option (Bytes × Bytes × Bytes × Bytes)
tokens_and_host (access, none) = none
tokens_and_host (access, some rest) = elim (keys_and_host (split_n2 rest b':')) [
  | none ↦ none
  | some (secret, token, host) ↦ some (access, secret, token, host)
]

abbrev pub single_line : Bytes → Option (Bytes × Bytes)
single_line s = if has_byte new_line s then none else web_prefix s

-- hostKeys, which has no session token
unfoldable pub host_keys : Bytes → Option HostKeys
host_keys s = elim (single_line s) [
  | none ↦ none
  | some (prefix, rest) ↦ elim (keys_and_host (split_n2 rest b':')) [
    | none ↦ none
    | some (access, secret, host) ↦ some (record {
      prefix = prefix;
      access_key = access;
      secret_key = secret;
      session_token = [];
      host = host;
    })
  ]
]

unfoldable pub host_key_tokens : Bytes → Option HostKeys
host_key_tokens s = elim (single_line s) [
  | none ↦ none
  | some (prefix, rest) ↦ elim (tokens_and_host (split_n2 rest b':')) [
    | none ↦ none
    | some (access, secret, token, host) ↦ some (record {
      prefix = prefix;
      access_key = access;
      secret_key = secret;
      session_token = token;
      host = host;
    })
  ]
]

abbrev pub no_keys : Bytes → HostKeys
no_keys host = record {
  prefix = [];
  access_key = [];
  secret_key = [];
  session_token = [];
  host = host;
}

-- The keys and what is left to be parsed; without a match it is the whole text.
unfoldable pub keys_of : Bytes → HostKeys
keys_of s = elim (host_key_tokens s) [
  | some k ↦ k
  | none ↦ elim (host_keys s) [ some k ↦ k | none ↦ no_keys s ]
]

-- A URL that is no more than a scheme and a host.
unfoldable pub is_plain_url : WebUrl → Bool
is_plain_url u =
    (str_eq u.scheme (codes "http") || str_eq u.scheme (codes "https"))
    && ((str_eq u.path (codes "/") || str_eq u.path [])
        && (str_eq u.opaque []
            && (not u.force_query && (str_eq u.raw_query [] && str_eq u.fragment []))))

-- The keys of the URL's user, where there were none before it.
abbrev pub with_user : HostKeys → WebUrl → EnvUrl
with_user k u =
    if str_eq k.access_key [] && str_eq k.secret_key []
    then record {
      url = u;
      access_key = elim u.user [ none ↦ [] | some (name, password) ↦ name ];
      secret_key = elim u.user [ none ↦ [] | some (name, password) ↦ password ];
      session_token = k.session_token;
    }
    else record {
      url = u;
      access_key = k.access_key;
      secret_key = k.secret_key;
      session_token = k.session_token;
    }

module _ (parse : UrlParser) where
  -- `none` is an error.
  unfoldable pub parse_env_url_str : Bytes → Option EnvUrl
  parse_env_url_str s =
      let k = keys_of s in
      elim (parse (k.prefix ++ k.host)) [
        | none ↦ none
        | some u ↦ if is_plain_url u then some (with_user k u) else none
      ]

  abbrev pub from_env : EnvUrl → AliasConfigV10
  from_env e = record {
    url = e.url.text;
    access_key = e.access_key;
    secret_key = e.secret_key;
    session_token = e.session_token;
    api = codes "S3v4";
    path = [];
    license = [];
    api_key = [];
    src = codes "env";
  }

  unfoldable pub expand_alias_from_env : Bytes → Option AliasConfigV10
  expand_alias_from_env s = elim (parse_env_url_str s) [ none ↦ none | some e ↦ some (from_env e) ]
