-- ===== src/Find/Conditions.antt =====
-- What matchFind of cmd/find.go lets pass.
use mc.Base.{
  ℕ, Bool, true, false, not, Option, none, some, List, [], ◌∷◌, ◌≡◌, refl, ◌⊎◌, inl, inr, ◌↔◌,
  arith, ap, sym, ◌∙◌, All, ltb,
}
use mc.Base.Strings.{Bytes}
use mc.Base.Strings.Laws.{str_eq_iff}
use mc.Base.Dict.{Dict, lookup}
use mc.Content.{Headers, get}
use mc.Find.Pattern.{
  Regexp, Matchers, name_match, match_regex_maps, match_metadata_regex_maps, value_matches,
  meta_value,
}
use mc.Find.Match.{
  FindContext, ContentMessage, Ages, inner_path, match_find, test, negated, is_given, is_filled,
  is_larger, is_smaller,
}

-- An entry of a map of expressions: without an expression the value is missing or empty, and else
-- there is a value that it matches.
abbrev pub HoldsOf : Matchers → Headers → (Bytes → Option Bytes) → Bytes × Option Regexp → Type 0
HoldsOf m v value (k, none) = get v k ≡ []
HoldsOf m v value (k, some r) = value_matches m r (value k) ≡ true

-- The conditions of a search.
pub record Matches (m : Matchers) (a : Ages) (ctx : FindContext) (c : ContentMessage) : Type 0 where
  pub ignored :
      (ctx.ignore_pattern ≡ [])
      ⊎ (m.wildcard_match ctx.ignore_pattern (inner_path ctx c.key) ≡ false)
  pub name : (ctx.name_pattern ≡ []) ⊎ (name_match m ctx.name_pattern (inner_path ctx c.key) ≡ true)
  pub path :
      (ctx.path_pattern ≡ []) ⊎ (m.wildcard_match ctx.path_pattern (inner_path ctx c.key) ≡ true)
  pub regex : (r : Regexp) → ctx.regex_pattern ≡ some r → r (inner_path ctx c.key) ≡ true
  pub older : (ctx.older_than ≡ []) ⊎ (a.is_older c.time ctx.older_than ≡ some false)
  pub newer : (ctx.newer_than ≡ []) ⊎ (a.is_newer c.time ctx.newer_than ≡ some false)
  pub larger : (ctx.larger_size ≡ 0) ⊎ (is_larger ctx.larger_size c.size ≡ true)
  pub smaller : (ctx.smaller_size ≡ 0) ⊎ (is_smaller ctx.smaller_size c.size ≡ true)
  pub meta : All (HoldsOf m c.metadata (meta_value m c.metadata)) ctx.match_meta
  pub tag : All (HoldsOf m c.tags (λ k. lookup k c.tags)) ctx.match_tags

module _ (m : Matchers) (v : Headers) where
  regex_maps_iff :
      (rs : Dict (Option Regexp))
      → (match_regex_maps m rs v ≡ true) ↔ All (HoldsOf m v (λ k. lookup k v)) rs
  unfolding match_regex_maps
  regex_maps_iff [] = ground arith
  regex_maps_iff ((k, none) ∷ rs) = ground (arith, regex_maps_iff rs, str_eq_iff (get v k) [])
  regex_maps_iff ((k, some r) ∷ rs) = ground (arith, regex_maps_iff rs)

  metadata_maps_iff :
      (rs : Dict (Option Regexp))
      → (match_metadata_regex_maps m rs v ≡ true) ↔ All (HoldsOf m v (meta_value m v)) rs
  unfolding match_metadata_regex_maps
  metadata_maps_iff [] = ground arith
  metadata_maps_iff ((k, none) ∷ rs) = ground (arith, metadata_maps_iff rs, str_eq_iff (get v k) [])
  metadata_maps_iff ((k, some r) ∷ rs) = ground (arith, metadata_maps_iff rs)

-- A chain of tests succeeds where each test that is asked for does.
test_iff :
    (asked : Bool) (result rest : Option Bool)
    → (test asked result rest ≡ some true)
      ↔ (((asked ≡ false) ⊎ (result ≡ some true)) × (rest ≡ some true))
test_iff false r rest = ground arith
test_iff true none rest = ground arith
test_iff true (some false) rest = ground arith
test_iff true (some true) rest = ground arith

given_iff : (s : Bytes) → (is_given s ≡ false) ↔ (s ≡ [])
given_iff s = ground (arith, str_eq_iff s [])

negated_iff : (b : Option Bool) → (negated b ≡ some true) ↔ (b ≡ some false)
negated_iff none = ground arith
negated_iff (some true) = ground arith
negated_iff (some false) = ground arith

zero_iff : (n : ℕ) → (ltb 0 n ≡ false) ↔ (n ≡ 0)
zero_iff n = ground arith

-- The tests of a search, in order: whether each is asked for, and what it gives.
abbrev chain : List (Bool × Option Bool) → Option Bool
chain [] = some true
chain ((asked, result) ∷ ts) = test asked result (chain ts)

abbrev Passes : Bool × Option Bool → Type 0
Passes (asked, result) = (asked ≡ false) ⊎ (result ≡ some true)

chain_iff : (ts : List (Bool × Option Bool)) → (chain ts ≡ some true) ↔ All Passes ts
chain_iff [] = ground arith
chain_iff ((asked, result) ∷ ts) = ground (arith, test_iff asked result (chain ts), chain_iff ts)

-- A test that is asked for by a text, by a number or by a map.
text-Passes :
    {R : Type 0} (s : Bytes) (b : Option Bool)
    → (b ≡ some true) ↔ R
    → Passes (is_given s, b) ↔ ((s ≡ []) ⊎ R)
text-Passes s b e = ground (arith, given_iff s, e)

number-Passes : (n : ℕ) (b : Bool) → Passes (ltb 0 n, some b) ↔ ((n ≡ 0) ⊎ (b ≡ true))
number-Passes n b = ground (arith, zero_iff n)

some_iff : (b : Bool) → (some b ≡ some true) ↔ (b ≡ true)
some_iff b = ground arith

not_iff : (b : Bool) → (some (not b) ≡ some true) ↔ (b ≡ false)
not_iff b = ground arith

map-Passes :
    (R : Bytes × Option Regexp → Type 0) (rs : Dict (Option Regexp)) (b : Bool)
    → (b ≡ true) ↔ All R rs
    → Passes (is_filled rs, some b) ↔ All R rs
map-Passes R [] b e = (λ h. tt, λ h. inl refl)
map-Passes R (r ∷ rs) b e = ground (arith, e)

regex-Passes :
    (o : Option Regexp) (path : Bytes)
    → Passes (true, some (elim o [ none ↦ true | some r ↦ r path ]))
      ↔ ((r : Regexp) → o ≡ some r → r path ≡ true)
regex-Passes none path = (λ h r e. cc, λ h. inr refl)
regex-Passes (some r) path = (
  λ h q e.
      let same : r path ≡ q path =
        ap (λ (o : Option Regexp). elim o as (λ _. Bool) [ none ↦ true | some q ↦ q path ]) e in
      sym same ∙ (some_iff (r path)).0 (elim h [ inl f ↦ cc | inr f ↦ f ]),
  λ h. inr (ap some (h r refl)),
)

module _ (m : Matchers) (a : Ages) (ctx : FindContext) where
  abbrev tests_of : ContentMessage → List (Bool × Option Bool)
  tests_of c =
      let path = inner_path ctx c.key in
      (is_given ctx.ignore_pattern, some (not (m.wildcard_match ctx.ignore_pattern path)))
      ∷ (is_given ctx.name_pattern, some (name_match m ctx.name_pattern path))
      ∷ (is_given ctx.path_pattern, some (m.wildcard_match ctx.path_pattern path))
      ∷ (true, some (elim ctx.regex_pattern [ none ↦ true | some r ↦ r path ]))
      ∷ (is_given ctx.older_than, negated (a.is_older c.time ctx.older_than))
      ∷ (is_given ctx.newer_than, negated (a.is_newer c.time ctx.newer_than))
      ∷ (ltb 0 ctx.larger_size, some (is_larger ctx.larger_size c.size))
      ∷ (ltb 0 ctx.smaller_size, some (is_smaller ctx.smaller_size c.size))
      ∷ (is_filled ctx.match_meta, some (match_metadata_regex_maps m ctx.match_meta c.metadata))
      ∷ (is_filled ctx.match_tags, some (match_regex_maps m ctx.match_tags c.tags))
      ∷ []

  match_find-chain : (c : ContentMessage) → match_find m a ctx c ≡ chain (tests_of c)
  unfolding match_find
  match_find-chain c = refl

  Matches-iff : (c : ContentMessage) → All Passes (tests_of c) ↔ Matches m a ctx c
  Matches-iff c =
      let path = inner_path ctx c.key in
      let ignored =
        text-Passes ctx.ignore_pattern (some (not (m.wildcard_match ctx.ignore_pattern path)))
          (not_iff (m.wildcard_match ctx.ignore_pattern path)) in
      let name =
        text-Passes ctx.name_pattern (some (name_match m ctx.name_pattern path))
          (some_iff (name_match m ctx.name_pattern path)) in
      let whole =
        text-Passes ctx.path_pattern (some (m.wildcard_match ctx.path_pattern path))
          (some_iff (m.wildcard_match ctx.path_pattern path)) in
      let regex = regex-Passes ctx.regex_pattern path in
      let older =
        text-Passes ctx.older_than (negated (a.is_older c.time ctx.older_than))
          (negated_iff (a.is_older c.time ctx.older_than)) in
      let newer =
        text-Passes ctx.newer_than (negated (a.is_newer c.time ctx.newer_than))
          (negated_iff (a.is_newer c.time ctx.newer_than)) in
      let larger = number-Passes ctx.larger_size (is_larger ctx.larger_size c.size) in
      let smaller = number-Passes ctx.smaller_size (is_smaller ctx.smaller_size c.size) in
      let meta =
        map-Passes _ ctx.match_meta (match_metadata_regex_maps m ctx.match_meta c.metadata)
          (metadata_maps_iff m c.metadata ctx.match_meta) in
      let tag =
        map-Passes _ ctx.match_tags (match_regex_maps m ctx.match_tags c.tags)
          (regex_maps_iff m c.tags ctx.match_tags) in
      (
        λ (t0, (t1, (t2, (t3, (t4, (t5, (t6, (t7, (t8, (t9, t)))))))))). record {
          ignored = ignored.0 t0;
          name = name.0 t1;
          path = whole.0 t2;
          regex = regex.0 t3;
          older = older.0 t4;
          newer = newer.0 t5;
          larger = larger.0 t6;
          smaller = smaller.0 t7;
          meta = meta.0 t8;
          tag = tag.0 t9;
        },
        λ h. (
          ignored.1 h.ignored,
          (
            name.1 h.name,
            (
              whole.1 h.path,
              (
                regex.1 h.regex,
                (
                  older.1 h.older,
                  (
                    newer.1 h.newer,
                    (larger.1 h.larger, (smaller.1 h.smaller, (meta.1 h.meta, (tag.1 h.tag, tt)))),
                  ),
                ),
              ),
            ),
          ),
        ),
      )

  -- matchFind lets pass what meets every condition that a flag names.
  pub match_find_iff : (c : ContentMessage) → (match_find m a ctx c ≡ some true) ↔ Matches m a ctx c
  match_find_iff c =
      let tests = chain_iff (tests_of c) in
      (
        λ h. (Matches-iff c).0 (tests.0 (sym (match_find-chain c) ∙ h)),
        λ h. match_find-chain c ∙ tests.1 ((Matches-iff c).1 h),
      )
