-- ===== src/Encryption/Lookup.antt =====
-- getSSE on keys that validateOverLappingSSEKeys has passed.
use mc.Base.{true, false, none, some, List, [], ◌∷◌, ◌≡◌, inl, inr, arith, Any}
use mc.Base.Strings.{Bytes, has_prefix}
use mc.Base.Strings.Laws.{has_prefix_nested}
use mc.Encryption.Keys.{PrefixSsePair, get_sse, overlaps_with, validate_overlapping_sse_keys}

module _ {S : Type 0} where
  overlaps_with-none :
      (k : PrefixSsePair S) (ks : List (PrefixSsePair S)) (p : PrefixSsePair S) (resource : Bytes)
      → overlaps_with k ks ≡ none
      → has_prefix resource k.prefix ≡ true
      → Any (λ j. j ≡ p) ks
      → has_prefix resource p.prefix ≡ false
  unfolding overlaps_with
  overlaps_with-none k [] p resource h m a = absurd a
  overlaps_with-none k (j ∷ ks) p resource h m (inl e) =
      ground (arith, has_prefix_nested resource k.prefix j.prefix m)
  overlaps_with-none k (j ∷ ks) p resource h m (inr a) =
      overlaps_with-none k ks p resource (ground arith) m a

-- If no prefix overlaps another, an object below a prefix gets the key of that prefix, wherever it
-- stands in the list: the answer does not depend on the order of the keys.
pub get_sse-eq-some :
    {S : Type 0} (keys : List (PrefixSsePair S)) (p : PrefixSsePair S) (resource : Bytes)
    → validate_overlapping_sse_keys keys ≡ none
    → Any (λ k. k ≡ p) keys
    → has_prefix resource p.prefix ≡ true
    → get_sse resource keys ≡ some p.sse
unfolding validate_overlapping_sse_keys get_sse
get_sse-eq-some [] p resource h a m = absurd a
get_sse-eq-some (k ∷ ks) p resource h (inl e) m = ground arith
get_sse-eq-some (k ∷ ks) p resource h (inr a) m =
    ground (arith, overlaps_with-none k ks p resource, get_sse-eq-some ks p resource)
