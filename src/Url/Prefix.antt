-- ===== src/Url/Prefix.antt =====
-- The test of isURLPrefix of cmd/client-url.go.
use mc.Base.{ℕ, Bool, true, false, List, [], ◌∷◌, ◌++◌, ◌≡◌, refl, arith, ◌||◌}
use mc.Base.Strings.{Bytes, str_eq, split, push_first}
use mc.Base.Strings.Laws.{str_eq_refl}
use mc.Url.{is_url_prefix, prefix_loop, url_parts, slash, is_nil, is_open}

str_eq_comm : (s t : Bytes) → str_eq s t ≡ str_eq t s
str_eq_comm [] [] = refl
str_eq_comm [] (d ∷ t) = refl
str_eq_comm (c ∷ s) [] = refl
str_eq_comm (c ∷ s) (d ∷ t) = ground (arith, str_eq_comm s t)

or_comm : (a b : Bool) → (a || b) ≡ (b || a)
or_comm true true = refl
or_comm true false = refl
or_comm false true = refl
or_comm false false = refl

prefix_loop_comm : (src dst : List Bytes) → prefix_loop src dst ≡ prefix_loop dst src
unfolding prefix_loop
prefix_loop_comm [] [] = refl
prefix_loop_comm [] (q ∷ dst) = refl
prefix_loop_comm (p ∷ src) [] = refl
prefix_loop_comm (p ∷ src) (q ∷ dst) = rw (
  or_comm (is_nil src) (is_nil dst),
  or_comm (is_open q) (is_open p),
  str_eq_comm p q,
  prefix_loop_comm src dst,
)

-- isURLPrefix is symmetric: whether one of two URLs lies below the other does not depend on which
-- is the source and which the destination.
pub is_url_prefix_comm : (src dest : Bytes) → is_url_prefix src dest ≡ is_url_prefix dest src
unfolding is_url_prefix
is_url_prefix_comm src dest = prefix_loop_comm (url_parts src) (url_parts dest)

prefix_loop-append : (ps qs : List Bytes) → prefix_loop ps (ps ++ qs) ≡ true
unfolding prefix_loop
prefix_loop-append [] qs = refl
prefix_loop-append (p ∷ ps) qs = ground (arith, str_eq_refl p, prefix_loop-append ps qs)

push_first-append :
    (c : ℕ) (s : Bytes) (d : ℕ) (qs : List Bytes)
    → push_first c (split s d ++ qs) ≡ push_first c (split s d) ++ qs
unfolding split
push_first-append c [] d qs = refl
push_first-append c (e ∷ s) d qs = ground (arith, push_first-append e s d qs)

split-append : (s t : Bytes) (d : ℕ) → split (s ++ d ∷ t) d ≡ split s d ++ split t d
unfolding split
split-append [] t d = ground arith
split-append (c ∷ s) t d = ground (arith, split-append s t d, push_first-append c s d (split t d))

-- A URL is a prefix of every URL that goes on behind it with a slash, at any depth.
pub is_url_prefix-append : (url below : Bytes) → is_url_prefix url (url ++ slash ∷ below) ≡ true
unfolding is_url_prefix
is_url_prefix-append url below =
    rw (split-append url below slash) (prefix_loop-append (split url slash) (split below slash))
