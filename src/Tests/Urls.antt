-- ===== src/Tests/Urls.antt =====
-- Runs on URLs.
use mc.Base.{true, [], ◌∷◌, ◌++◌, ◌≡◌, ◌≢◌, ◌↔◌, inr, refl, All, arith}
use mc.Base.Strings.{Bytes, codes}
use mc.Content.{Headers}
use mc.Difference.Metadata.{metadata_equal}
use mc.Difference.Metadata.Laws.{SameHeaders, metadata_equal_iff}
use mc.Url.{
  slash, scheme_mark, object_url, object_storage, new_client_url, to_string, url_join_path,
  all_letters,
}
use mc.Url.RoundTrip.{IsHostByte, new_client_url-to_string}
use mc.Url.Canonical.{SameUrl, to_string-new_client_url}
use mc.Url.Join.{IsFolder, folder_url, url_join_path_scheme_key}

abbrev host : Bytes
host = codes "play.min.io:9000"

host_bytes : All IsHostByte host
host_bytes = ground arith

some_host : host ≢ []
some_host = ground arith

new_client_url-to_string_example :
    new_client_url (to_string (object_url (codes "https") host (slash ∷ codes "b/a@b")))
    ≡ object_url (codes "https") host (slash ∷ codes "b/a@b")
new_client_url-to_string_example =
    new_client_url-to_string (codes "https") host (codes "b/a@b") (inr refl) some_host host_bytes
      refl

is_object : (new_client_url (codes "https://h")).kind ≡ object_storage
unfolding new_client_url
is_object = refl

to_string-new_client_url_example :
    SameUrl (to_string (new_client_url (codes "https://h"))) (codes "https://h")
to_string-new_client_url_example = to_string-new_client_url (codes "https://h") is_object

folder : IsFolder (codes "https") host (codes "b/")
folder = record {
  web = inr refl;
  some_host = some_host;
  host_bytes = host_bytes;
  one_mark = refl;
  ends = refl;
}

letters : all_letters (codes "ab") ≡ true
unfolding all_letters
letters = refl

url_join_path_scheme_key_example :
    url_join_path
      (folder_url (codes "https") host (codes "b/"))
      ((b'a' ∷ codes "b") ++ (scheme_mark ++ codes "c"))
    ≡ folder_url (codes "https") host (codes "b/")
url_join_path_scheme_key_example =
    url_join_path_scheme_key b'a' (codes "b") (codes "c") folder letters refl refl

abbrev written_by_go : Headers
written_by_go =
    (codes "Content-Type", codes "text/plain")
    ∷ (codes "X-Amz-Meta-Mm-Source-Mtime", codes "2024-01-01T00:00:00Z")
    ∷ []

abbrev written_by_hand : Headers
written_by_hand = (codes "x-amz-meta-note", []) ∷ (codes "Content-Type", codes "text/plain") ∷ []

metadata_equal_iff_example :
    (metadata_equal written_by_go written_by_hand ≡ true)
    ↔ SameHeaders written_by_go written_by_hand
metadata_equal_iff_example =
    metadata_equal_iff written_by_go written_by_hand (refl, (refl, tt)) (refl, (refl, tt))
