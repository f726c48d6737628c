-- ===== src/Url/Canonical.antt =====
-- ClientURL.String against the text that newClientURL read.
use mc.Base.{
  ℕ, zero, suc, Bool, true, false, none, some, List, [], ◌∷◌, ◌++◌, ◌≡◌, refl, ◌≢◌, ◌⊎◌, inl, inr,
  arith, if◌then◌else◌, take, drop, Option-cases, subst, ap, append-nil, append_assoc,
}
use mc.Base.Strings.{Bytes, codes, str_eq, index, split_seq}
use mc.Base.Strings.Split.{interleave, interleave-split_seq}
use mc.Base.Strings.Laws.{str_eq_iff}
use mc.Url.{
  object_storage, file_system, slash, scheme_mark, object_url, new_client_url, to_string,
  get_scheme, scheme_of, split_special, get_host, from_scheme, from_authority, valid_scheme,
}

-- Where a path was cut off, it begins with a slash.
abbrev StartsAtSlash : Bytes → Type 0
StartsAtSlash b = (b ≡ []) ⊎ ((t : Bytes) × (b ≡ slash ∷ t))

-- The text written back, up to a slash at the end.
abbrev pub SameUrl : Bytes → Bytes → Type 0
SameUrl written read = (written ≡ read) ⊎ (written ≡ read ++ codes "/")

index_cut :
    (r : Bytes) (i : ℕ)
    → index r (codes "/") ≡ some i
    → (take i r ++ drop i r ≡ r) × StartsAtSlash (drop i r)
index_cut [] i h = absurd (ground arith)
index_cut (c ∷ r) zero h = (refl, inr (r, ground arith))
index_cut (c ∷ r) (suc i) h = let (a, b) = index_cut r i (ground arith) in (ap (λ t. c ∷ t) a, b)

-- A text cut in two where the path begins.
abbrev CutAtSlash : Bytes → Bytes × Bytes → Type 0
CutAtSlash r (a, b) = (a ++ b ≡ r) × StartsAtSlash b

split_special-none :
    (r : Bytes) → index r (codes "/") ≡ none → split_special r (codes "/") false ≡ (r, [])
unfolding split_special
split_special-none r e = ground arith

split_special-some :
    (r : Bytes) (i : ℕ)
    → index r (codes "/") ≡ some i
    → split_special r (codes "/") false ≡ (take i r, drop i r)
unfolding split_special
split_special-some r i e = ground arith

split_special_parts : (r : Bytes) → CutAtSlash r (split_special r (codes "/") false)
split_special_parts r = elim (Option-cases (index r (codes "/"))) [
  | inl e ↦ rw (split_special-none r e) (append-nil r, inl refl)
  | inr (i, e) ↦ rw (split_special-some r i e) (index_cut r i e)
]

get_host_nonempty : (a : Bytes) → get_host a ≢ [] → get_host a ≡ a
unfolding get_host
get_host_nonempty a h = ground arith

-- What an object URL was made of.
authority_object :
    (scheme a b : Bytes)
    → (from_authority scheme (a, b)).kind ≡ object_storage
    → from_authority scheme (a, b) ≡ object_url scheme a (if str_eq b [] then codes "/" else b)
unfolding from_authority
authority_object scheme a b h = ground (arith, get_host_nonempty a, str_eq_iff (get_host a) [])

to_string_object :
    (scheme a t : Bytes)
    → to_string (object_url scheme a (slash ∷ t)) ≡ scheme ++ (scheme_mark ++ (a ++ slash ∷ t))
unfolding to_string
to_string_object scheme a t = refl

to_string_authority :
    (scheme a b : Bytes)
    → StartsAtSlash b
    → (from_authority scheme (a, b)).kind ≡ object_storage
    → SameUrl (to_string (from_authority scheme (a, b))) (scheme ++ (scheme_mark ++ (a ++ b)))
to_string_authority scheme a b (inl e) h =
    rw (authority_object scheme a b h, e, to_string_object) (inr (simp (append-nil, append_assoc)))
to_string_authority scheme a b (inr (t, e)) h =
    rw (authority_object scheme a b h, e, to_string_object) (inl refl)

no_scheme : (r : Bytes) → (from_scheme ([], r)).kind ≡ file_system
unfolding from_scheme from_authority
no_scheme r = ground arith

to_string-from_scheme :
    (scheme rest : Bytes)
    → (from_scheme (scheme, codes "//" ++ rest)).kind ≡ object_storage
    → SameUrl
        (to_string (from_scheme (scheme, codes "//" ++ rest)))
        (scheme ++ (scheme_mark ++ rest))
unfolding from_scheme
to_string-from_scheme scheme rest h =
    let (a, b) = split_special rest (codes "/") false in
    let (whole, starts) = split_special_parts rest in
    let written = to_string (from_authority scheme (a, b)) in
    subst (λ r. SameUrl written (scheme ++ (scheme_mark ++ r))) whole
      (to_string_authority scheme a b starts h)

to_string_choice :
    (url p q : Bytes) (valid : Bool)
    → p ++ (scheme_mark ++ q) ≡ url
    → (from_scheme (if valid then (p, codes "//" ++ q) else ([], url))).kind ≡ object_storage
    → SameUrl (to_string (from_scheme (if valid then (p, codes "//" ++ q) else ([], url)))) url
to_string_choice url p q true e h =
    let written = to_string (from_scheme (p, codes "//" ++ q)) in
    subst (λ r. SameUrl written r) e (to_string-from_scheme p q h)
to_string_choice url p q false e h = absurd (cc (no_scheme url))

to_string-scheme_of :
    (url : Bytes) (ps : List Bytes)
    → interleave scheme_mark ps ≡ url
    → (from_scheme (scheme_of url ps)).kind ≡ object_storage
    → SameUrl (to_string (from_scheme (scheme_of url ps))) url
unfolding scheme_of
to_string-scheme_of url [] e h = absurd (cc (no_scheme url))
to_string-scheme_of url (p ∷ []) e h = absurd (cc (no_scheme url))
to_string-scheme_of url (p ∷ q ∷ r ∷ ps) e h = absurd (cc (no_scheme url))
to_string-scheme_of url (p ∷ q ∷ []) e h = to_string_choice url p q (valid_scheme p) e h

-- What newClientURL reads as an object URL, String writes as it was, but for one slash at the end
-- where the text had no path.
pub to_string-new_client_url :
    (url : Bytes)
    → (new_client_url url).kind ≡ object_storage
    → SameUrl (to_string (new_client_url url)) url
to_string-new_client_url url h =
    unfold new_client_url get_scheme in
    to_string-scheme_of url (split_seq url scheme_mark) (interleave-split_seq url b':' (codes "//"))
      h
