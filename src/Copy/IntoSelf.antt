-- ===== src/Copy/IntoSelf.antt =====
-- The test of prepareCopyURLsTypeC of cmd/cp-url.go against a copy of a folder into itself.
use mc.Base.{
  ℕ, true, false, [], ◌∷◌, ◌++◌, ◌≡◌, refl, arith, All, ◌≢◌, append_assoc, Bool-cases, inl, inr,
}
use mc.Base.Strings.{Bytes, has_prefix, has_suffix}
use mc.Content.{ClientContent}
use mc.Url.{ClientUrl, slash}
use mc.Copy.World.{World, is_url_contains, with_slash}
use mc.Copy.Guess.{CopyUrlsContent, PrepareCopyUrlsOpts}
use mc.Copy.Kinds.{copy_source, copy_listing}

-- The URL of a scheme does not begin with the name of an alias and a slash.
scheme-has_prefix :
    (scheme rest alias path : Bytes)
    → All (λ c. c ≢ slash) scheme
    → All (λ c. c ≢ b':') alias
    → has_prefix (scheme ++ b':' ∷ rest) (alias ++ slash ∷ path) ≡ false
scheme-has_prefix [] rest [] path h k = refl
scheme-has_prefix [] rest (a ∷ alias) path h k = ground arith
scheme-has_prefix (c ∷ scheme) rest [] path h k = ground arith
scheme-has_prefix (c ∷ scheme) rest (a ∷ alias) path h k =
    ground (arith, scheme-has_prefix scheme rest alias path h.1 k.1)

-- Closing a text by a slash leaves its beginning.
closed : (s : Bytes) (c : ℕ) (t : Bytes) → (u : Bytes) × (with_slash (s ++ c ∷ t) ≡ s ++ c ∷ u)
closed s c t = elim (Bool-cases (has_suffix (s ++ c ∷ t) slash)) [
  | inl e ↦ (t, rw e refl)
  | inr e ↦ (t ++ (slash ∷ []), rw e (append_assoc s (c ∷ t) (slash ∷ [])))
]

is_url_contains_aliased :
    (scheme rest alias path : Bytes)
    → All (λ c. c ≢ slash) scheme
    → All (λ c. c ≢ b':') alias
    → is_url_contains (alias ++ slash ∷ path) (scheme ++ b':' ∷ rest) ≡ false
unfolding is_url_contains
is_url_contains_aliased scheme rest alias path h k =
    let (r, e) = closed scheme b':' rest in
    let (p, f) = closed alias slash path in rw (e, f) (scheme-has_prefix scheme r alias p h k)

-- A copy of a folder into itself is not refused where the folder is named by an alias, as
-- `alias/path`, however the two lie: the test compares this name with the expanded URL of the
-- target, `scheme:rest`, and so a recursive copy goes on to list the folder and copy it.
pub copy_source_into_self :
    (w : World) (o : PrepareCopyUrlsOpts) (cc : CopyUrlsContent) (client : ClientUrl)
    (c : ClientContent) (scheme rest alias path : Bytes)
    → o.is_recursive ≡ true
    → cc.source_url ≡ alias ++ slash ∷ path
    → cc.target_url ≡ scheme ++ b':' ∷ rest
    → All (λ b. b ≢ slash) scheme
    → All (λ b. b ≢ b':') alias
    → copy_source w o cc client c ≡ copy_listing w o cc client
unfolding copy_source
copy_source_into_self w o cc client c scheme rest alias path r s t h k =
    let apart : is_url_contains cc.source_url cc.target_url ≡ false =
      rw (s, t) (is_url_contains_aliased scheme rest alias path h k) in
    ground arith
