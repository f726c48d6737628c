-- ===== src/Url.antt =====
-- cmd/client-url.go: URLs of the two kinds of storage, their parse and print, aliases, and the
-- prefix test, as built for the systems whose path separator is `/`.
pub mod RoundTrip
pub mod Canonical
pub mod Alias
pub mod Prefix
pub mod Join
pub mod Bare
use mc.Base.{
  ℕ, zero, suc, ◌+◌, Bool, true, false, not, ◌&&◌, ◌||◌, Option, none, some, List, [], ◌∷◌, ◌++◌,
  leb, ◌==◌, if◌then◌else◌, length, take, drop,
}
use mc.Base.Strings.{
  Bytes, codes, str_eq, has_prefix, has_suffix, trim_prefix, index, last_index, split, split_n2,
  split_seq,
}

-- ClientURLType
pub data ClientUrlType : Type 0 where
  object_storage file_system : ClientUrlType

pub record ClientUrl : Type 0 where
  pub kind : ClientUrlType
  pub scheme : Bytes
  pub host : Bytes
  pub path : Bytes
  pub scheme_separator : Bytes
  pub separator : ℕ

abbrev pub slash : ℕ
slash = b'/'

abbrev pub scheme_mark : Bytes
scheme_mark = codes "://"

abbrev pub is_letter : ℕ → Bool
is_letter c = (leb b'a' c && leb c b'z') || (leb b'A' c && leb c b'Z')

-- the match of ^[a-zA-Z]+$
unfoldable pub all_letters : Bytes → Bool
all_letters [] = true
all_letters (c ∷ s) = is_letter c && all_letters s

unfoldable pub valid_scheme : Bytes → Bool
unfolding all_letters
valid_scheme [] = false
valid_scheme (c ∷ s) = all_letters (c ∷ s)

-- The result of getScheme from the parts that the split gives: only two parts are a URL.
scheme_of : Bytes → List Bytes → Bytes × Bytes
scheme_of rawurl (scheme ∷ rest ∷ []) =
    if valid_scheme scheme then (scheme, codes "//" ++ rest) else ([], rawurl)
scheme_of rawurl _ = ([], rawurl)

unfoldable pub get_scheme : Bytes → Bytes × Bytes
unfolding scheme_of valid_scheme split_seq
get_scheme rawurl = scheme_of rawurl (split_seq rawurl scheme_mark)

unfoldable pub split_special : Bytes → Bytes → Bool → Bytes × Bytes
split_special s delimiter cut_delimiter = elim (index s delimiter) [
  | none ↦ (s, [])
  | some i ↦
      if cut_delimiter then (take i s, drop (i + length delimiter) s) else (take i s, drop i s)
]

unfoldable pub get_host : Bytes → Bytes
get_host authority = elim (last_index authority b'@') [ some i ↦ [] | none ↦ authority ]

abbrev pub file_url : Bytes → ClientUrl
file_url path = record {
  kind = file_system;
  scheme = [];
  host = [];
  path = path;
  scheme_separator = [];
  separator = slash;
}

abbrev pub object_url : Bytes → Bytes → Bytes → ClientUrl
object_url scheme host path = record {
  kind = object_storage;
  scheme = scheme;
  host = host;
  path = path;
  scheme_separator = scheme_mark;
  separator = slash;
}

-- The body of newClientURL behind the `//`.
from_authority : Bytes → Bytes × Bytes → ClientUrl
from_authority scheme (authority, rest) =
    let path = if str_eq rest [] then codes "/" else rest in
    let host = get_host authority in
    if not (str_eq host []) && (str_eq scheme (codes "http") || str_eq scheme (codes "https"))
    then object_url scheme host path
    else file_url path

from_scheme : Bytes × Bytes → ClientUrl
from_scheme (scheme, rest) =
    if has_prefix rest (codes "//")
    then from_authority scheme (split_special (drop 2 rest) (codes "/") false)
    else file_url rest

unfoldable pub new_client_url : Bytes → ClientUrl
unfolding from_scheme from_authority get_scheme split_special get_host
new_client_url url = from_scheme (get_scheme url)

-- The slash that String writes between a host and a relative path.
abbrev pub missing_slash : Bytes → Bytes → Bytes
missing_slash host [] = []
missing_slash host (c ∷ path) = if not (c == slash) && not (str_eq host []) then slash ∷ [] else []

unfoldable pub to_string : ClientUrl → Bytes
to_string u = elim u.kind [
  | file_system ↦ u.path
  | object_storage ↦
      u.scheme ++ (b':' ∷ (codes "//" ++ (u.host ++ (missing_slash u.host u.path ++ u.path))))
]

-- joinURLs changes the path of its first argument and returns it.
unfoldable pub join_urls : ClientUrl → ClientUrl → ClientUrl
join_urls u1 u2 =
    let tail = trim_prefix u2.path (codes "/") in
    if has_suffix u1.path slash
    then record u1 { path = u1.path ++ tail }
    else record u1 { path = u1.path ++ (codes "/" ++ tail) }

unfoldable pub url_join_path : Bytes → Bytes → Bytes
url_join_path url1 url2 = to_string (join_urls (new_client_url url1) (new_client_url url2))

alias_parts : Bytes × Option Bytes → Bytes × Bytes
alias_parts (alias, some path) = (alias, path)
alias_parts (alias, none) = (alias, [])

unfoldable pub url2_alias : Bytes → Bytes × Bytes
unfolding alias_parts split_n2
url2_alias aliased_url = alias_parts (split_n2 aliased_url slash)

unfoldable pub url_parts : Bytes → List Bytes
unfolding split
url_parts url = split url slash

abbrev pub is_nil : List Bytes → Bool
is_nil [] = true
is_nil (p ∷ ps) = false

abbrev pub is_open : Bytes → Bool
is_open p = str_eq p [] || str_eq p (codes "*")

-- The loop of isURLPrefix over the parts that both URLs have; the last of them may be open.
unfoldable pub prefix_loop : List Bytes → List Bytes → Bool
prefix_loop [] dst = true
prefix_loop (p ∷ src) [] = true
prefix_loop (p ∷ src) (q ∷ dst) =
    let rest = prefix_loop src dst in
    if (is_nil src || is_nil dst) && (is_open q || is_open p)
    then rest
    else if str_eq p q
    then rest
    else false

unfoldable pub is_url_prefix : Bytes → Bytes → Bool
unfolding prefix_loop url_parts
is_url_prefix src dest = prefix_loop (url_parts src) (url_parts dest)
