-- ===== src/Url/Join.antt =====
-- urlJoinPath, by which mirror and diff compute the target of a key.
use mc.Base.{ℕ, true, false, none, [], ◌∷◌, ◌++◌, ◌≡◌, refl, ◌≢◌, arith, All, ◌∙◌, ap, append-nil}
use mc.Base.Strings.{Bytes, codes, index, has_prefix, has_suffix, trim_prefix}
use mc.Base.Strings.Split.{split_seq_absent}
use mc.Url.{
  ClientUrl, slash, scheme_mark, object_url, file_url, new_client_url, to_string, get_scheme,
  scheme_of, split_special, from_scheme, from_authority, valid_scheme, join_urls, url_join_path,
  all_letters,
}
use mc.Url.RoundTrip.{IsWeb, IsHostByte, new_client_url_web, get_scheme_letters}

-- A bucket or a folder of object storage, by its full URL, which ends in a slash.
abbrev pub folder_url : Bytes → Bytes → Bytes → Bytes
folder_url scheme host dir = scheme ++ (scheme_mark ++ (host ++ (slash ∷ dir)))

pub record IsFolder (scheme host dir : Bytes) : Type 0 where
  pub web : IsWeb scheme
  pub some_host : host ≢ []
  pub host_bytes : All IsHostByte host
  pub one_mark : index (host ++ slash ∷ dir) scheme_mark ≡ none
  pub ends : has_suffix (slash ∷ dir) slash ≡ true

-- A text that newClientURL takes for a path of the file system as it stands.
abbrev pub IsPlainKey : Bytes → Type 0
IsPlainKey key = (index key scheme_mark ≡ none) × (has_prefix key (codes "/") ≡ false)

get_scheme_plain : (key : Bytes) → index key scheme_mark ≡ none → get_scheme key ≡ ([], key)
unfolding scheme_of
get_scheme_plain key h =
    unfold get_scheme in ap (scheme_of key) (split_seq_absent key scheme_mark h)

from_scheme_plain :
    (key : Bytes) → has_prefix key (codes "/") ≡ false → from_scheme ([], key) ≡ file_url key
unfolding from_scheme
from_scheme_plain [] h = refl
from_scheme_plain (c ∷ key) h = ground arith

pub new_client_url_plain : (key : Bytes) → IsPlainKey key → new_client_url key ≡ file_url key
new_client_url_plain key (h, k) =
    unfold new_client_url in ap from_scheme (get_scheme_plain key h) ∙ from_scheme_plain key k

pub trim_prefix_plain :
    (key : Bytes) → has_prefix key (codes "/") ≡ false → trim_prefix key (codes "/") ≡ key
unfolding trim_prefix
trim_prefix_plain key h = ground arith

pub to_string_folder :
    (scheme host path : Bytes)
    → to_string (object_url scheme host (slash ∷ path))
      ≡ scheme ++ (scheme_mark ++ (host ++ (slash ∷ path)))
unfolding to_string
to_string_folder scheme host path = refl

pub join_urls_folder :
    (scheme host dir : Bytes) (u : ClientUrl)
    → has_suffix (slash ∷ dir) slash ≡ true
    → join_urls (object_url scheme host (slash ∷ dir)) u
      ≡ object_url scheme host (slash ∷ (dir ++ trim_prefix u.path (codes "/")))
unfolding join_urls
join_urls_folder scheme host dir u h = rw h

join_folder :
    {scheme host dir : Bytes} (url : Bytes)
    → IsFolder scheme host dir
    → url_join_path (folder_url scheme host dir) url
      ≡ folder_url scheme host (dir ++ trim_prefix (new_client_url url).path (codes "/"))
join_folder {scheme} {host} {dir} url f =
    unfold url_join_path in
    ap (λ u. to_string (join_urls u (new_client_url url)))
      (new_client_url_web scheme host dir f.web f.some_host f.host_bytes f.one_mark)
    ∙ ap to_string (join_urls_folder scheme host dir (new_client_url url) f.ends)
    ∙ to_string_folder scheme host (dir ++ trim_prefix (new_client_url url).path (codes "/"))

-- The target of a key below a folder of object storage is the folder's URL with the key behind it,
-- if the key holds no `://` and does not begin with a slash.
pub url_join_path-append :
    {scheme host dir : Bytes} (key : Bytes)
    → IsFolder scheme host dir
    → IsPlainKey key
    → url_join_path (folder_url scheme host dir) key ≡ folder_url scheme host (dir ++ key)
url_join_path-append {scheme} {host} {dir} key f (h, k) =
    join_folder key f
    ∙ ap (λ u. folder_url scheme host (dir ++ trim_prefix u.path (codes "/")))
        (new_client_url_plain key (h, k))
    ∙ ap (λ t. folder_url scheme host (dir ++ t)) (trim_prefix_plain key k)

letters-no_colon : (s : Bytes) → all_letters s ≡ true → All (λ c. c ≢ b':') s
unfolding all_letters
letters-no_colon [] h = tt
letters-no_colon (c ∷ s) h = (ground arith, letters-no_colon s (ground arith))

split_special_absent :
    (s : Bytes) → index s (codes "/") ≡ none → split_special s (codes "/") false ≡ (s, [])
unfolding split_special
split_special_absent s h = ground arith

from_authority_root : (scheme a : Bytes) → (from_authority scheme (a, [])).path ≡ codes "/"
unfolding from_authority
from_authority_root scheme a = ground arith

scheme_key_path :
    (c : ℕ) (word rest : Bytes)
    → all_letters (c ∷ word) ≡ true
    → index rest scheme_mark ≡ none
    → index rest (codes "/") ≡ none
    → (new_client_url ((c ∷ word) ++ (scheme_mark ++ rest))).path ≡ codes "/"
unfolding from_scheme valid_scheme
scheme_key_path c word rest letters one_mark no_slash =
    unfold new_client_url in
    ap (λ p. (from_scheme p).path)
      (get_scheme_letters (c ∷ word) rest (letters-no_colon (c ∷ word) letters) one_mark)
    ∙ rw letters (ap (λ p. (from_authority (c ∷ word) p).path) (split_special_absent rest no_slash))
    ∙ from_authority_root (c ∷ word) rest

-- A key of the form `word://rest`, of letters before the mark and without a slash behind it, is
-- lost: its target below a folder is the folder itself, whatever the word and the rest are.
pub url_join_path_scheme_key :
    {scheme host dir : Bytes} (c : ℕ) (word rest : Bytes)
    → IsFolder scheme host dir
    → all_letters (c ∷ word) ≡ true
    → index rest scheme_mark ≡ none
    → index rest (codes "/") ≡ none
    → url_join_path (folder_url scheme host dir) ((c ∷ word) ++ (scheme_mark ++ rest))
      ≡ folder_url scheme host dir
unfolding trim_prefix
url_join_path_scheme_key {scheme} {host} {dir} c word rest f letters one_mark no_slash =
    join_folder ((c ∷ word) ++ (scheme_mark ++ rest)) f
    ∙ ap (λ p. folder_url scheme host (dir ++ trim_prefix p (codes "/")))
        (scheme_key_path c word rest letters one_mark no_slash)
    ∙ ap (λ t. folder_url scheme host t) (append-nil dir)
