-- ===== src/Url/Bare.antt =====
-- urlJoinPath below a host without a path, as the configuration keeps it.
use mc.Base.{false, none, [], ◌∷◌, ◌++◌, ◌≡◌, refl, ◌≢◌, arith, All, ◌∙◌, ap}
use mc.Base.Strings.{Bytes, codes, index, trim_prefix}
use mc.Url.{
  slash, scheme_mark, object_url, new_client_url, to_string, split_special, from_scheme,
  from_authority, join_urls, url_join_path,
}
use mc.Url.RoundTrip.{IsWeb, IsHostByte, get_scheme_web, get_host_plain}
use mc.Base.Strings.Laws.{str_eq_iff}
use mc.Url.Join.{
  IsPlainKey, folder_url, join_urls_folder, to_string_folder, new_client_url_plain,
  trim_prefix_plain,
}

abbrev pub host_url : Bytes → Bytes → Bytes
host_url scheme host = scheme ++ (scheme_mark ++ host)

pub record IsHostUrl (scheme host : Bytes) : Type 0 where
  pub web : IsWeb scheme
  pub some_host : host ≢ []
  pub host_bytes : All IsHostByte host
  pub one_mark : index host scheme_mark ≡ none

index_host : (host : Bytes) → All IsHostByte host → index host (codes "/") ≡ none
index_host [] h = refl
index_host (c ∷ host) h = ground (arith, index_host host h.1)

split_special_bare :
    (host : Bytes) → All IsHostByte host → split_special host (codes "/") false ≡ (host, [])
unfolding split_special
split_special_bare host h = ground (arith, index_host host h)

from_authority_bare :
    (scheme host : Bytes)
    → IsHostUrl scheme host
    → from_authority scheme (host, []) ≡ object_url scheme host (slash ∷ [])
unfolding from_authority
from_authority_bare scheme host h = ground (
  arith,
  h.web,
  h.some_host,
  get_host_plain host h.host_bytes,
  str_eq_iff host [],
  str_eq_iff scheme (codes "http"),
  str_eq_iff scheme (codes "https"),
)

pub new_client_url_bare :
    (scheme host : Bytes)
    → IsHostUrl scheme host
    → new_client_url (host_url scheme host) ≡ object_url scheme host (slash ∷ [])
unfolding from_scheme
new_client_url_bare scheme host h =
    unfold new_client_url in
    ap from_scheme (get_scheme_web scheme host h.web h.one_mark)
    ∙ ap (from_authority scheme) (split_special_bare host h.host_bytes)
    ∙ from_authority_bare scheme host h

-- The URL of a plain key at a host without a path is the host's with a slash and the key behind it.
pub url_join_path_bare :
    (scheme host key : Bytes)
    → IsHostUrl scheme host
    → IsPlainKey key
    → url_join_path (host_url scheme host) key ≡ folder_url scheme host key
url_join_path_bare scheme host key h (p, q) =
    unfold url_join_path in
    ap (λ u. to_string (join_urls u (new_client_url key))) (new_client_url_bare scheme host h)
    ∙ ap to_string (join_urls_folder scheme host [] (new_client_url key) refl)
    ∙ to_string_folder scheme host (trim_prefix (new_client_url key).path (codes "/"))
    ∙ ap (λ u. folder_url scheme host (trim_prefix u.path (codes "/")))
        (new_client_url_plain key (p, q))
    ∙ ap (folder_url scheme host) (trim_prefix_plain key q)
