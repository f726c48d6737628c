-- ===== src/Url/RoundTrip.antt =====
-- Reading and writing URLs: newClientURL against ClientURL.String.
use mc.Base.{
  ℕ, false, none, some, [], ◌∷◌, ◌++◌, ◌≡◌, refl, ◌≢◌, ◌⊎◌, inl, inr, arith, if◌then◌else◌, length,
  take-append, drop-append, All, ◌∙◌, ap,
}
use mc.Base.Strings.{Bytes, codes, index, last_index}
use mc.Base.Strings.Split.{split_seq_absent, split_seq-append}
use mc.Base.Strings.Laws.{str_eq_iff}
use mc.Url.{
  slash, scheme_mark, object_url, new_client_url, to_string, get_scheme, scheme_of, valid_scheme,
  split_special, get_host, from_scheme, from_authority,
}

-- The two schemes of object storage.
abbrev pub IsWeb : Bytes → Type 0
IsWeb scheme = (scheme ≡ codes "http") ⊎ (scheme ≡ codes "https")

-- A byte that a host may hold.
abbrev pub IsHostByte : ℕ → Type 0
IsHostByte c = (c ≢ slash) × (c ≢ b'@')

last_index_absent : (s : Bytes) → All IsHostByte s → last_index s b'@' ≡ none
last_index_absent [] h = refl
last_index_absent (c ∷ s) h = ground (arith, last_index_absent s h.1)

pub get_host_plain : (s : Bytes) → All IsHostByte s → get_host s ≡ s
unfolding get_host
get_host_plain s h = rw (last_index_absent s h, get_host)

index-slash :
    (s tail : Bytes) → All IsHostByte s → index (s ++ slash ∷ tail) (codes "/") ≡ some (length s)
index-slash [] tail h = refl
index-slash (c ∷ s) tail h = ground (arith, index-slash s tail h.1)

split_special_host :
    (host tail : Bytes)
    → All IsHostByte host
    → split_special (host ++ slash ∷ tail) (codes "/") false ≡ (host, slash ∷ tail)
unfolding split_special
split_special_host host tail h = ground (
  arith,
  index-slash host tail h,
  take-append host (slash ∷ tail),
  drop-append host (slash ∷ tail),
)

from_authority_web :
    (scheme host tail : Bytes)
    → IsWeb scheme
    → host ≢ []
    → All IsHostByte host
    → from_authority scheme (host, slash ∷ tail) ≡ object_url scheme host (slash ∷ tail)
unfolding from_authority
from_authority_web scheme host tail web h b = ground (
  arith,
  get_host_plain host b,
  str_eq_iff host [],
  str_eq_iff scheme (codes "http"),
  str_eq_iff scheme (codes "https"),
)

-- A text of two parts around `://` is a URL if the first is a word of letters.
pub get_scheme_letters :
    (scheme rest : Bytes)
    → All (λ c. c ≢ b':') scheme
    → index rest scheme_mark ≡ none
    → get_scheme (scheme ++ (scheme_mark ++ rest)) ≡ (
        if valid_scheme scheme
        then (scheme, codes "//" ++ rest)
        else ([], scheme ++ (scheme_mark ++ rest)))
unfolding scheme_of
get_scheme_letters scheme rest no_colon plain =
    let url = scheme ++ (scheme_mark ++ rest) in
    unfold get_scheme in
    ap (scheme_of url) (split_seq-append scheme b':' (codes "//") rest no_colon)
    ∙ ap (λ ps. scheme_of url (scheme ∷ ps)) (split_seq_absent rest scheme_mark plain)

pub get_scheme_web :
    (scheme rest : Bytes)
    → IsWeb scheme
    → index rest scheme_mark ≡ none
    → get_scheme (scheme ++ (scheme_mark ++ rest)) ≡ (scheme, codes "//" ++ rest)
unfolding valid_scheme
get_scheme_web scheme rest (inl e) h = rw e (get_scheme_letters (codes "http") rest (omega arith) h)
get_scheme_web scheme rest (inr e) h =
    rw e (get_scheme_letters (codes "https") rest (omega arith) h)

pub new_client_url_web :
    (scheme host tail : Bytes)
    → IsWeb scheme
    → host ≢ []
    → All IsHostByte host
    → index (host ++ slash ∷ tail) scheme_mark ≡ none
    → new_client_url (scheme ++ (scheme_mark ++ (host ++ slash ∷ tail)))
      ≡ object_url scheme host (slash ∷ tail)
unfolding from_scheme
new_client_url_web scheme host tail web h b plain =
    unfold new_client_url in
    ap from_scheme (get_scheme_web scheme (host ++ slash ∷ tail) web plain)
    ∙ ap (from_authority scheme) (split_special_host host tail b)
    ∙ from_authority_web scheme host tail web h b

-- An object URL is read back from its canonical form, if its scheme is http or https, its host is
-- not empty and holds neither a slash nor an `@`, its path begins with a slash, and host and path
-- hold no second `://`.
pub new_client_url-to_string :
    (scheme host tail : Bytes)
    → IsWeb scheme
    → host ≢ []
    → All IsHostByte host
    → index (host ++ slash ∷ tail) scheme_mark ≡ none
    → new_client_url (to_string (object_url scheme host (slash ∷ tail)))
      ≡ object_url scheme host (slash ∷ tail)
unfolding to_string
new_client_url-to_string scheme host tail web h b plain =
    new_client_url_web scheme host tail web h b plain
