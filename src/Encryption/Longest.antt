-- ===== src/Encryption/Longest.antt =====
-- getSSE on keys that are sorted by the length of their prefixes.
use mc.Base.{
  ℕ, ◌≤◌, true, false, some, List, [], ◌∷◌, ◌≡◌, refl, ◌⊎◌, inl, inr, arith, All, Any, length,
  Bool-cases,
}
use mc.Base.Strings.{Bytes, has_prefix}
use mc.Encryption.Keys.{PrefixSsePair, get_sse, less, insert_key, sort_keys}

module _ {S : Type 0} where
  -- No later prefix is longer.
  abbrev pub Falling : List (PrefixSsePair S) → Type 0
  Falling [] = Unit
  Falling (k ∷ ks) = All (λ j. length j.prefix ≤ length k.prefix) ks × Falling ks

  insert_key-All :
      (n : ℕ) (k : PrefixSsePair S) (ks : List (PrefixSsePair S))
      → length k.prefix ≤ n
      → All (λ j. length j.prefix ≤ n) ks
      → All (λ j. length j.prefix ≤ n) (insert_key k ks)
  unfolding insert_key
  insert_key-All n k [] h a = (h, tt)
  insert_key-All n k (j ∷ ks) h a = ground (arith, insert_key-All n k ks h a.1)

  All-trans :
      (m n : ℕ) (ks : List (PrefixSsePair S))
      → m ≤ n
      → All (λ j. length j.prefix ≤ m) ks
      → All (λ j. length j.prefix ≤ n) ks
  All-trans m n [] h a = tt
  All-trans m n (j ∷ ks) h a = (omega arith, All-trans m n ks h a.1)

  insert_key-Falling :
      (k : PrefixSsePair S) (ks : List (PrefixSsePair S)) → Falling ks → Falling (insert_key k ks)
  unfolding insert_key less
  insert_key-Falling k [] f = (tt, tt)
  insert_key-Falling k (j ∷ ks) f = ground (
    arith,
    insert_key-All (length j.prefix) k ks,
    insert_key-Falling k ks f.1,
    All-trans (length j.prefix) (length k.prefix) ks,
  )

  sort_keys-Falling : (ks : List (PrefixSsePair S)) → Falling (sort_keys ks)
  unfolding sort_keys
  sort_keys-Falling [] = tt
  sort_keys-Falling (k ∷ ks) = insert_key-Falling k (sort_keys ks) (sort_keys-Falling ks)

  insert_key-Any :
      (k p : PrefixSsePair S) (ks : List (PrefixSsePair S))
      → (k ≡ p) ⊎ Any (λ j. j ≡ p) ks
      → Any (λ j. j ≡ p) (insert_key k ks)
  unfolding insert_key
  insert_key-Any k p [] h = h
  insert_key-Any k p (j ∷ ks) h = ground (arith, insert_key-Any k p ks)

  sort_keys-Any :
      (p : PrefixSsePair S) (ks : List (PrefixSsePair S))
      → Any (λ j. j ≡ p) ks
      → Any (λ j. j ≡ p) (sort_keys ks)
  unfolding sort_keys
  sort_keys-Any p [] a = a
  sort_keys-Any p (k ∷ ks) (inl e) = insert_key-Any k p (sort_keys ks) (inl e)
  sort_keys-Any p (k ∷ ks) (inr a) = insert_key-Any k p (sort_keys ks) (inr (sort_keys-Any p ks a))

  of_insert_key-Any :
      (k p : PrefixSsePair S) (ks : List (PrefixSsePair S))
      → Any (λ j. j ≡ p) (insert_key k ks)
      → (k ≡ p) ⊎ Any (λ j. j ≡ p) ks
  unfolding insert_key
  of_insert_key-Any k p [] h = h
  of_insert_key-Any k p (j ∷ ks) h = ground (arith, of_insert_key-Any k p ks)

  -- A key that is not the first stands behind it.
  behind :
      (k : PrefixSsePair S) (ks : List (PrefixSsePair S)) (p : PrefixSsePair S) (resource : Bytes)
      → Any (λ j. j ≡ p) (k ∷ ks)
      → has_prefix resource k.prefix ≡ false
      → has_prefix resource p.prefix ≡ true
      → Any (λ j. j ≡ p) ks
  behind k ks p resource (inl e) h m = absurd (ground arith)
  behind k ks p resource (inr a) h m = a

  of_sort_keys-Any :
      (p : PrefixSsePair S) (ks : List (PrefixSsePair S))
      → Any (λ j. j ≡ p) (sort_keys ks)
      → Any (λ j. j ≡ p) ks
  unfolding sort_keys
  of_sort_keys-Any p [] a = a
  of_sort_keys-Any p (k ∷ ks) a = elim (of_insert_key-Any k p (sort_keys ks) a) [
    | inl e ↦ inl e
    | inr b ↦ inr (of_sort_keys-Any p ks b)
  ]

  -- One of the keys that match is the answer, and no key that matches has a longer prefix.
  pub record IsLongestMatch (resource : Bytes) (keys : List (PrefixSsePair S)) (q : PrefixSsePair S)
      : Type 0 where
    pub matches : has_prefix resource q.prefix ≡ true
    pub longest :
        (p : PrefixSsePair S)
        → Any (λ k. k ≡ p) keys
        → has_prefix resource p.prefix ≡ true
        → length p.prefix ≤ length q.prefix

  bound_of_Any :
      (n : ℕ) (p : PrefixSsePair S) (ks : List (PrefixSsePair S))
      → All (λ j. length j.prefix ≤ n) ks
      → Any (λ k. k ≡ p) ks
      → length p.prefix ≤ n
  bound_of_Any n p [] h a = absurd a
  bound_of_Any n p (k ∷ ks) h (inl e) = ground arith
  bound_of_Any n p (k ∷ ks) h (inr a) = bound_of_Any n p ks h.1 a

  head_longest :
      (k : PrefixSsePair S) (ks : List (PrefixSsePair S)) (resource : Bytes)
      → Falling (k ∷ ks)
      → has_prefix resource k.prefix ≡ true
      → IsLongestMatch resource (k ∷ ks) k
  head_longest k ks resource f m = record {
    matches = m;
    longest = λ p a n. bound_of_Any (length k.prefix) p (k ∷ ks) (omega arith, f.0) a;
  }

  Falling-match :
      (keys : List (PrefixSsePair S)) (p : PrefixSsePair S) (resource : Bytes)
      → Falling keys
      → Any (λ k. k ≡ p) keys
      → has_prefix resource p.prefix ≡ true
      → (q : PrefixSsePair S) × Any (λ k. k ≡ q) keys
        × (get_sse resource keys ≡ some q.sse)
        × IsLongestMatch resource keys q
  unfolding get_sse
  Falling-match [] p resource f a m = absurd a
  Falling-match (k ∷ ks) p resource f a m = elim (Bool-cases (has_prefix resource k.prefix)) [
    | inl here ↦ (k, inl refl, rw here, head_longest k ks resource f here)
    | inr not_here ↦
        let (q, b, e, l) =
          Falling-match ks p resource f.1 (behind k ks p resource a not_here m) m in
        (
          q,
          inr b,
          rw not_here e,
          record {
            matches = l.matches;
            longest = λ r c n. l.longest r (behind k ks r resource c not_here n) n;
          },
        )
  ]

-- Sorted by the length of the prefixes, the keys are searched from the longest: if some key's
-- prefix matches an object, getSSE answers with one of the keys, whose prefix matches and is at
-- least as long as every prefix that matches, also where prefixes overlap.
pub get_sse-sort_keys :
    {S : Type 0} (keys : List (PrefixSsePair S)) (p : PrefixSsePair S) (resource : Bytes)
    → Any (λ k. k ≡ p) keys
    → has_prefix resource p.prefix ≡ true
    → (q : PrefixSsePair S) × Any (λ k. k ≡ q) keys
      × (get_sse resource (sort_keys keys) ≡ some q.sse)
      × IsLongestMatch resource keys q
get_sse-sort_keys keys p resource a m =
    let (q, b, e, l) =
      Falling-match (sort_keys keys) p resource (sort_keys-Falling keys) (sort_keys-Any p keys a)
        m in
    (
      q,
      of_sort_keys-Any q keys b,
      e,
      record { matches = l.matches; longest = λ r c n. l.longest r (sort_keys-Any r keys c) n },
    )
