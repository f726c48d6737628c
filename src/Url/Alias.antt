-- ===== src/Url/Alias.antt =====
-- What url2Alias gives back.
use mc.Base.{ℕ, Option, none, some, [], ◌∷◌, ◌++◌, ◌≡◌, refl, ◌≢◌, arith, All}
use mc.Base.Strings.{Bytes, split_n2}
use mc.Url.{url2_alias, slash}

split_n2-Lacks : (s : Bytes) (d : ℕ) → All (λ c. c ≢ d) (split_n2 s d).0
unfolding split_n2
split_n2-Lacks [] d = tt
split_n2-Lacks (c ∷ s) d = ground (arith, split_n2-Lacks s d)

-- The text is put together again from the part before the separator and the part behind it.
abbrev pub rejoin : ℕ → Bytes × Option Bytes → Bytes
rejoin d (before, none) = before
rejoin d (before, some after) = before ++ d ∷ after

rejoin-split_n2 : (s : Bytes) (d : ℕ) → rejoin d (split_n2 s d) ≡ s
unfolding split_n2
rejoin-split_n2 [] d = refl
rejoin-split_n2 (c ∷ s) d = ground (arith, rejoin-split_n2 s d)

-- url2Alias splits `alias/path`: for an alias without a slash it returns the alias and the path,
-- whatever the path holds.
pub url2_alias-append :
    (alias path : Bytes)
    → All (λ c. c ≢ slash) alias
    → url2_alias (alias ++ slash ∷ path) ≡ (alias, path)
unfolding url2_alias
url2_alias-append [] path h = refl
url2_alias-append (c ∷ alias) path h = ground (arith, url2_alias-append alias path h.1)
