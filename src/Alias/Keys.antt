-- ===== src/Alias/Keys.antt =====
-- The keys of an environment variable: what the expressions of parseEnvURLStr match.
use mc.Base.{
  take-append, drop_behind, ℕ, true, false, ◌||◌, Option, none, some, [], ◌∷◌, ◌++◌, ◌≡◌, refl, ◌≢◌,
  All, arith, ◌⊎◌, inl, inr,
}
use mc.Base.Strings.{Bytes, codes, last_index, split_n2}
use mc.Base.Strings.Laws.{str_eq_iff, last_index-append}
use mc.Base.Strings.Split.{split_n2-append}
use mc.Alias.Env.{
  WebUrl, UrlParser, new_line, has_byte, web_prefix, last_at, keys_and_host, tokens_and_host,
  single_line, host_keys, host_key_tokens, keys_of, is_plain_url, parse_env_url_str,
}

-- The bytes of a key, of a session token and of a host.
abbrev pub IsKey : Bytes → Type 0
IsKey = All (λ c. (c ≢ b':') × (c ≢ new_line))

abbrev pub IsToken : Bytes → Type 0
IsToken = All (λ c. c ≢ new_line)

abbrev pub IsHost : Bytes → Type 0
IsHost = All (λ c. (c ≢ b'@') × (c ≢ new_line))

last_index-none : (s : Bytes) → All (λ c. c ≢ b'@') s → last_index s b'@' ≡ none
last_index-none [] h = refl
last_index-none (c ∷ s) h = ground (arith, last_index-none s h.1)

last_at-append :
    (s host : Bytes) → All (λ c. c ≢ b'@') host → last_at (s ++ b'@' ∷ host) ≡ some (s, host)
unfolding last_at
last_at-append s host h = ground (
  arith,
  last_index-append s host b'@' (last_index-none host h),
  take-append s (b'@' ∷ host),
  drop_behind s b'@' host,
)

last_at-none : (s : Bytes) → All (λ c. c ≢ b'@') s → last_at s ≡ none
unfolding last_at
last_at-none s h = ground (arith, last_index-none s h)

no_at : (host : Bytes) → IsHost host → All (λ c. c ≢ b'@') host
no_at [] h = tt
no_at (c ∷ host) h = (h.0.0, no_at host h.1)

no_colon : (key : Bytes) → IsKey key → All (λ c. c ≢ b':') key
no_colon [] h = tt
no_colon (c ∷ key) h = (h.0.0, no_colon key h.1)

-- What follows the first separator holds no @ where the text behind it holds none.
abbrev LacksAt : Option Bytes → Type 0
LacksAt none = Unit
LacksAt (some s) = All (λ c. c ≢ b'@') s

host-LacksAt : (host : Bytes) → All (λ c. c ≢ b'@') host → LacksAt (split_n2 host b':').1
unfolding split_n2
host-LacksAt [] h = tt
host-LacksAt (c ∷ host) h = ground (arith, host-LacksAt host h.1)

secret-LacksAt :
    (secret host : Bytes)
    → All (λ c. c ≢ b':') secret
    → All (λ c. c ≢ b'@') host
    → LacksAt (split_n2 (secret ++ b'@' ∷ host) b':').1
unfolding split_n2
secret-LacksAt [] host h k = ground (arith, host-LacksAt host k)
secret-LacksAt (c ∷ secret) host h k = ground (arith, secret-LacksAt secret host h.1 k)

LacksAt-keys_and_host : (p : Bytes × Option Bytes) → LacksAt p.1 → keys_and_host p ≡ none
unfolding keys_and_host
LacksAt-keys_and_host (access, none) h = refl
LacksAt-keys_and_host (access, some s) h = ground (arith, last_at-none s h)

module _ (access secret host : Bytes) (a : IsKey access) (s : IsKey secret) (h : IsHost host) where
  keys_and_host-append :
      keys_and_host (split_n2 (access ++ b':' ∷ (secret ++ b'@' ∷ host)) b':')
      ≡ some (access, secret, host)
  unfolding keys_and_host
  keys_and_host-append = ground (
    arith,
    split_n2-append access (secret ++ b'@' ∷ host) b':' (no_colon access a),
    last_at-append secret host (no_at host h),
  )

  tokens_and_host-none :
      tokens_and_host (split_n2 (access ++ b':' ∷ (secret ++ b'@' ∷ host)) b':') ≡ none
  unfolding tokens_and_host
  tokens_and_host-none = ground (
    arith,
    split_n2-append access (secret ++ b'@' ∷ host) b':' (no_colon access a),
    LacksAt-keys_and_host (split_n2 (secret ++ b'@' ∷ host) b':')
        (secret-LacksAt secret host (no_colon secret s) (no_at host h)),
  )

  tokens_and_host-append :
      (token : Bytes)
      → tokens_and_host (split_n2 (access ++ b':' ∷ (secret ++ b':' ∷ (token ++ b'@' ∷ host))) b':')
        ≡ some (access, secret, token, host)
  unfolding tokens_and_host keys_and_host
  tokens_and_host-append token = ground (
    arith,
    split_n2-append access (secret ++ b':' ∷ (token ++ b'@' ∷ host)) b':' (no_colon access a),
    split_n2-append secret (token ++ b'@' ∷ host) b':' (no_colon secret s),
    last_at-append token host (no_at host h),
  )

has_byte-append : (d : ℕ) (s t : Bytes) → has_byte d (s ++ t) ≡ (has_byte d s || has_byte d t)
has_byte-append d [] t = refl
has_byte-append d (c ∷ s) t = ground (arith, has_byte-append d s t)

key_line : (s : Bytes) → IsKey s → has_byte new_line s ≡ false
key_line [] h = refl
key_line (c ∷ s) h = ground (arith, key_line s h.1)

token_line : (s : Bytes) → IsToken s → has_byte new_line s ≡ false
token_line [] h = refl
token_line (c ∷ s) h = ground (arith, token_line s h.1)

host_line : (s : Bytes) → IsHost s → has_byte new_line s ≡ false
host_line [] h = refl
host_line (c ∷ s) h = ground (arith, host_line s h.1)

-- The text of an environment variable: the scheme, the keys, the session token if there is one, and
-- the host.
abbrev pub token_text : Option Bytes → Bytes
token_text none = []
token_text (some token) = b':' ∷ token

abbrev pub env_url : Bytes → Bytes → Bytes → Option Bytes → Bytes → Bytes
env_url prefix access secret token host =
    prefix ++ (access ++ b':' ∷ (secret ++ (token_text token ++ b'@' ∷ host)))

-- The two prefixes.
abbrev pub IsPrefix : Bytes → Type 0
IsPrefix prefix = (prefix ≡ codes "http://") ⊎ (prefix ≡ codes "https://")

abbrev pub token_of : Option Bytes → Bytes
token_of none = []
token_of (some token) = token

single_line-append :
    (prefix rest : Bytes)
    → IsPrefix prefix
    → has_byte new_line rest ≡ false
    → single_line (prefix ++ rest) ≡ some (prefix, rest)
unfolding web_prefix
single_line-append prefix rest (inl e) h = rw e (ground arith)
single_line-append prefix rest (inr e) h = rw e (ground arith)

keys_of-env_url :
    (prefix access secret : Bytes) (token : Option Bytes) (host : Bytes)
    → IsPrefix prefix
    → IsKey access
    → IsKey secret
    → IsToken (token_of token)
    → IsHost host
    → keys_of (env_url prefix access secret token host) ≡ record {
      prefix = prefix;
      access_key = access;
      secret_key = secret;
      session_token = token_of token;
      host = host;
    }
unfolding keys_of host_keys host_key_tokens
keys_of-env_url prefix access secret none host p a s t h =
    let rest = access ++ b':' ∷ (secret ++ b'@' ∷ host) in
    let line : has_byte new_line rest ≡ false = ground (
      arith,
      has_byte-append new_line access (b':' ∷ (secret ++ b'@' ∷ host)),
      has_byte-append new_line secret (b'@' ∷ host),
      key_line access a,
      key_line secret s,
      host_line host h,
    ) in
    ground (
      arith,
      single_line-append prefix rest p line,
      tokens_and_host-none access secret host a s h,
      keys_and_host-append access secret host a s h,
    )
keys_of-env_url prefix access secret (some token) host p a s t h =
    let rest = access ++ b':' ∷ (secret ++ b':' ∷ (token ++ b'@' ∷ host)) in
    let line : has_byte new_line rest ≡ false = ground (
      arith,
      has_byte-append new_line access (b':' ∷ (secret ++ b':' ∷ (token ++ b'@' ∷ host))),
      has_byte-append new_line secret (b':' ∷ (token ++ b'@' ∷ host)),
      has_byte-append new_line token (b'@' ∷ host),
      key_line access a,
      key_line secret s,
      token_line token t,
      host_line host h,
    ) in
    ground (
      arith,
      single_line-append prefix rest p line,
      tokens_and_host-append access secret host a s h token,
    )

-- The keys of an environment variable are read back from its text `prefix access:secret@host`, or
-- `prefix access:secret:token@host`: if the access key is not empty, the two keys hold no colon, the
-- host no `@` and none of them a line break, and the URL of the host alone is one without a path or
-- a query, then exactly this URL, these keys and this session token are the result. A session token
-- may hold colons and `@`.
pub parse_env_url_str-env_url :
    (parse : UrlParser) (prefix access secret : Bytes) (token : Option Bytes) (host : Bytes)
    (u : WebUrl)
    → IsPrefix prefix
    → IsKey access
    → access ≢ []
    → IsKey secret
    → IsToken (token_of token)
    → IsHost host
    → parse (prefix ++ host) ≡ some u
    → is_plain_url u ≡ true
    → parse_env_url_str parse (env_url prefix access secret token host)
      ≡ some (record {
        url = u;
        access_key = access;
        secret_key = secret;
        session_token = token_of token;
      })
unfolding parse_env_url_str
parse_env_url_str-env_url parse prefix access secret token host u p a n s t h e v =
    ground (arith, keys_of-env_url prefix access secret token host p a s t h, str_eq_iff access [])
