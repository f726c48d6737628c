-- ===== src/Encryption/Parse.antt =====
-- What parseSSEKey accepts and returns.
use mc.Base.{
  ◌<◌, Bool, true, false, none, [], ◌∷◌, ◌++◌, ◌≡◌, refl, ◌≢◌, ◌⊎◌, arith, All, length, take-append,
  drop_behind, length-append,
}
use mc.Base.Strings.{Bytes, last_index, split_n2}
use mc.Base.Strings.Laws.{last_index-append}
use mc.Encryption.Keys.{
  Crypto, SseKeyType, sse_none, sse_c, sse_kms, sse_s3, parse_sse_key, split_key,
  valid_kms_key_name, kms_bytes,
}

-- A client key that is accepted has 32 bytes, as it must for SSE-C, and so has a key that is given
-- to SSE-S3, which needs none; a missing key is accepted for SSE-S3 alone.
pub parse_sse_key-length :
    {S : Type 0} (c : Crypto S) (text : Bytes) (key_type : SseKeyType)
    → key_type ≢ sse_kms
    → (parse_sse_key c text key_type).err ≡ none
    → (length (parse_sse_key c text key_type).key ≡ 32)
      ⊎ ((key_type ≡ sse_s3) × ((parse_sse_key c text key_type).key ≡ []))
unfolding parse_sse_key
parse_sse_key-length c text sse_none n e = ground arith
parse_sse_key-length c text sse_c n e = ground arith
parse_sse_key-length c text sse_kms n e = absurd (n refl)
parse_sse_key-length c text sse_s3 n e = ground arith

kms_bytes-no_separator :
    (first : Bool) (s : Bytes) → kms_bytes first s ≡ true → last_index s b'=' ≡ none
unfolding kms_bytes
kms_bytes-no_separator first [] h = refl
kms_bytes-no_separator first (r ∷ []) h = ground arith
kms_bytes-no_separator first (r ∷ q ∷ s) h = ground (arith, kms_bytes-no_separator false (q ∷ s))

split_key-append :
    (alias prefix : Bytes)
    → All (λ c. c ≢ b'/') alias
    → split_key (alias ++ b'/' ∷ prefix) ≡ (alias, prefix)
unfolding split_key split_n2
split_key-append [] prefix h = refl
split_key-append (c ∷ alias) prefix h = ground (arith, split_key-append alias prefix h.1)

valid-ne-nil : (key : Bytes) → valid_kms_key_name key ≡ true → 0 < length key
unfolding valid_kms_key_name
valid-ne-nil [] h = ground arith
valid-ne-nil (c ∷ key) h = omega arith

valid-no_separator : (key : Bytes) → valid_kms_key_name key ≡ true → last_index key b'=' ≡ none
unfolding valid_kms_key_name
valid-no_separator key h = ground (arith, kms_bytes-no_separator true key)

-- A KMS key is read back from `alias/prefix=key`: the alias, the prefix and the key come out as
-- they went in and without an error, if the alias has no slash and the key is a valid name,
-- whatever the prefix holds.
pub parse_sse_key_kms :
    {S : Type 0} (c : Crypto S) (alias prefix key : Bytes)
    → All (λ b. b ≢ b'/') alias
    → valid_kms_key_name key ≡ true
    → parse_sse_key c ((alias ++ b'/' ∷ prefix) ++ b'=' ∷ key) sse_kms
      ≡ record { alias = alias; prefix = prefix; key = key; err = none }
unfolding parse_sse_key
parse_sse_key_kms c alias prefix key h v =
    let front = alias ++ b'/' ∷ prefix in
    ground (
      arith,
      last_index-append front key b'=' (valid-no_separator key v),
      take-append front (b'=' ∷ key),
      drop_behind front b'=' key,
      split_key-append alias prefix h,
      length-append front (b'=' ∷ key),
      valid-ne-nil key v,
    )
