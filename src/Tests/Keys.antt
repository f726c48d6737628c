-- ===== src/Tests/Keys.antt =====
-- Runs of the parsers and the search of encryption keys.
use mc.Base.{
  ℕ, zero, suc, ◌*◌, ◌/◌, true, false, none, some, List, [], ◌∷◌, ◌≡◌, ◌≢◌, inl, inr, refl, length,
  Any, arith, ◌==◌, if◌then◌else◌,
}
use mc.Base.Strings.{Bytes, codes}
use mc.Encryption.Keys.{
  Crypto, PrefixSsePair, sse_c, sse_kms, parse_sse_key, get_sse, sort_keys,
  validate_overlapping_sse_keys, valid_kms_key_name,
}
use mc.Encryption.Lookup.{get_sse-eq-some}
use mc.Encryption.Longest.{IsLongestMatch, get_sse-sort_keys}

-- Encryption that is its key; encoded keys are decoded to as many zeros as their bytes give.
abbrev zeros : ℕ → Bytes
zeros zero = []
zeros (suc n) = 0 ∷ zeros n

abbrev crypto : Crypto Bytes
crypto = record {
  new_sse_c = λ k. if length k == 32 then some k else none;
  new_sse_kms = λ k. some k;
  new_sse = [];
  hex_decode = λ t. (zeros (length t / 2), false);
  base64_decode = λ t. (zeros (length t * 3 / 4), false);
  has_host_config = λ a. true;
}

abbrev pair : Bytes → PrefixSsePair ℕ
pair prefix = record { prefix = prefix; sse = length prefix }

abbrev apart : List (PrefixSsePair ℕ)
apart = pair (codes "s3/photos/") ∷ pair (codes "s3/papers/") ∷ []

abbrev nested : List (PrefixSsePair ℕ)
nested = pair (codes "s3/") ∷ pair (codes "s3/papers/") ∷ []

apart_fits : validate_overlapping_sse_keys apart ≡ none
unfolding validate_overlapping_sse_keys
apart_fits = refl

get_sse-eq-some_example : get_sse (codes "s3/papers/x") apart ≡ some 10
get_sse-eq-some_example =
    get_sse-eq-some apart (pair (codes "s3/papers/")) (codes "s3/papers/x") apart_fits
      (inr (inl refl)) refl

get_sse-sort_keys_example :
    (q : PrefixSsePair ℕ) × Any (λ k. k ≡ q) nested
    × (get_sse (codes "s3/papers/x") (sort_keys nested) ≡ some q.sse)
    × IsLongestMatch (codes "s3/papers/x") nested q
get_sse-sort_keys_example =
    get_sse-sort_keys nested (pair (codes "s3/")) (codes "s3/papers/x") (inl refl) refl

abbrev client_text : Bytes
client_text = codes "s3/papers/=MzJieXRlc2xvbmdzZWNyZXRrZXltdXN0YmVnaXZlbjE"

no_client_error : (parse_sse_key crypto client_text sse_c).err ≡ none
unfolding parse_sse_key
no_client_error = refl

client_is_not_kms : sse_c ≢ sse_kms
client_is_not_kms = ground arith

valid_name : valid_kms_key_name (codes "my-key") ≡ true
unfolding valid_kms_key_name
valid_name = refl
