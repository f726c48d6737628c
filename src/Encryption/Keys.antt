-- ===== src/Encryption/Keys.antt =====
-- The definitions of cmd/encryption-methods.go.
use mc.Base.{
  ℕ, suc, ◌+◌, ◌-◌, Bool, true, false, not, ◌&&◌, ◌||◌, Option, none, some, List, [], ◌∷◌, ◌++◌,
  leb, ltb, ◌==◌, if◌then◌else◌, length, take, drop,
}
use mc.Base.Strings.{Bytes, codes, str_eq, str_lt, has_prefix, last_index, split_n2}
use mc.Errors.{
  McError, sse_invalid_alias, sse_overlapping_alias, sse_prefix_match, sse_key_missing,
  sse_kms_key_format, sse_client_key_format, other_error, listing,
}

pub data SseKeyType : Type 0 where
  sse_none sse_c sse_kms sse_s3 : SseKeyType

-- An object prefix and the encryption of the objects below it.
pub record PrefixSsePair (S : Type 0) : Type 0 where
  pub prefix : Bytes
  pub sse : S

-- What parseSSEKey returns.
pub record ParsedKey : Type 0 where
  pub alias : Bytes
  pub prefix : Bytes
  pub key : Bytes
  pub err : Option McError

-- The package encrypt, of which S is the type ServerSide; the decoders of hex and of raw base64,
-- which return the bytes that they have read and whether they failed; and whether an alias is
-- configured.
pub record Crypto (S : Type 0) : Type 0 where
  pub new_sse_c : Bytes → Option S
  pub new_sse_kms : Bytes → Option S
  pub new_sse : S
  pub hex_decode : Bytes → Bytes × Bool
  pub base64_decode : Bytes → Bytes × Bool
  pub has_host_config : Bytes → Bool

-- The test of validKMSKeyName at one position; `inner` says that it is neither first nor last.
abbrev pub kms_byte : Bool → ℕ → Bool
kms_byte inner r =
    (leb b'0' r && leb r b'9')
    || ((leb b'A' r && leb r b'Z')
        || ((leb b'a' r && leb r b'z') || ((r == b'-' && inner) || r == b'_')))

-- The loop, with whether this is the first position.
unfoldable pub kms_bytes : Bool → Bytes → Bool
kms_bytes first [] = true
kms_bytes first (r ∷ []) = kms_byte false r
kms_bytes first (r ∷ q ∷ s) = if kms_byte (not first) r then kms_bytes false (q ∷ s) else false

unfoldable pub valid_kms_key_name : Bytes → Bool
unfolding kms_bytes
valid_kms_key_name s = if str_eq s [] || str_eq s (codes "_") then false else kms_bytes true s

abbrev pub split_pair : Bytes × Option Bytes → Bytes × Bytes
split_pair (alias, some prefix) = (alias, prefix)
split_pair (alias, none) = (alias, [])

-- The case of no part cannot arise: SplitN returns at least one.
unfoldable pub split_key : Bytes → Bytes × Bytes
split_key sse_key = split_pair (split_n2 sse_key b'/')

module _ {S : Type 0} (c : Crypto S) where
  decode_key : Bytes → Bytes × Bool
  decode_key encoded =
      if length encoded == 64 then c.hex_decode encoded else c.base64_decode encoded

  abbrev pub decode_error : Bool → Bytes → Option McError
  decode_error failed encoded = if failed then some (sse_client_key_format encoded) else none

  -- The end of parseSSEKey for a client key: the length is tested after the decoding, and its error
  -- replaces that of the decoding.
  client_key : Bytes → Bytes → Bytes → Bytes × Bool → ParsedKey
  client_key alias prefix encoded (key, failed) = record {
    alias = alias;
    prefix = prefix;
    key = key;
    err =
        if not (length key == 32)
        then some (sse_client_key_format encoded)
        else decode_error failed encoded;
  }

  kms_key : Bytes → Bytes → Bytes → ParsedKey
  kms_key alias prefix encoded = record {
    alias = alias;
    prefix = prefix;
    key = encoded;
    err = if valid_kms_key_name encoded then none else some (sse_kms_key_format encoded);
  }

  abbrev no_key : ParsedKey
  no_key = record { alias = []; prefix = []; key = []; err = some sse_key_missing }

  -- parseSSEKey behind the search for the separator.
  split_at : Bytes → SseKeyType → ℕ → ParsedKey
  unfolding decode_key client_key kms_key
  split_at sse_key key_type i =
      let encoded = drop (suc i) sse_key in
      let (alias, prefix) = split_key (take i sse_key) in
      if i == length sse_key - 1 then no_key else elim key_type [
        | sse_kms ↦ kms_key alias prefix encoded
        | _ ↦ client_key alias prefix encoded (decode_key encoded)
      ]

  without_separator : Bytes → SseKeyType → ParsedKey
  without_separator sse_key sse_s3 =
      let (alias, prefix) = split_key sse_key in
      record { alias = alias; prefix = prefix; key = []; err = none }
  without_separator sse_key _ = no_key

  unfoldable pub parse_sse_key : Bytes → SseKeyType → ParsedKey
  unfolding split_at without_separator
  parse_sse_key sse_key key_type = elim (last_index sse_key b'=') [
    | none ↦ without_separator sse_key key_type
    | some i ↦ split_at sse_key key_type i
  ]

  -- The loop over the arguments of the command: how many of them the prefix bears on.
  matched_count : List Bytes → Bytes → ℕ
  matched_count [] prefix = 0
  matched_count (arg ∷ args) prefix =
      (if has_prefix arg prefix then 1 else if has_prefix prefix arg then 1 else 0)
      + matched_count args prefix

  -- No caller passes the type `sse_none`, for which the code would keep a null value.
  new_server_side : SseKeyType → Bytes → Option S
  new_server_side sse_c key = c.new_sse_c key
  new_server_side sse_kms key = c.new_sse_kms key
  new_server_side sse_s3 key = some c.new_sse
  new_server_side sse_none key = none

  needs_key : SseKeyType → Bool
  needs_key sse_c = true
  needs_key sse_kms = true
  needs_key _ = false

  pub data Validated : Type 0 where
    refused : McError → Validated
    accepted : PrefixSsePair S → Bytes → Validated

  created : Bytes → Bytes → Option S → Validated
  created prefix alias none = refused (listing (other_error prefix))
  created prefix alias (some s) = accepted (record { prefix = prefix; sse = s }) alias

  checked : List Bytes → SseKeyType → ParsedKey → Validated
  unfolding matched_count new_server_side needs_key created
  checked args key_type p =
      let prefix = p.alias ++ (codes "/" ++ p.prefix) in
      if str_eq p.alias []
      then refused (sse_invalid_alias p.prefix)
      else if needs_key key_type && str_eq p.key []
      then refused (sse_client_key_format [])
      else if matched_count args prefix == 0
      then refused sse_prefix_match
      else created prefix p.alias (new_server_side key_type p.key)

  unfoldable pub validate_and_parse_key : List Bytes → Bytes → SseKeyType → Validated
  unfolding checked
  validate_and_parse_key args key key_type =
      let p = parse_sse_key key key_type in
      elim p.err [ some e ↦ refused e | none ↦ checked args key_type p ]

module _ {S : Type 0} where
  unfoldable pub get_sse : Bytes → List (PrefixSsePair S) → Option S
  get_sse resource [] = none
  get_sse resource (k ∷ ks) =
      if has_prefix resource k.prefix then some k.sse else get_sse resource ks

  -- The inner loop of validateOverLappingSSEKeys.
  unfoldable pub overlaps_with : PrefixSsePair S → List (PrefixSsePair S) → Option McError
  overlaps_with k [] = none
  overlaps_with k (j ∷ ks) =
      if has_prefix k.prefix j.prefix || has_prefix j.prefix k.prefix
      then some (sse_overlapping_alias k.prefix j.prefix)
      else overlaps_with k ks

  unfoldable pub validate_overlapping_sse_keys : List (PrefixSsePair S) → Option McError
  unfolding overlaps_with
  validate_overlapping_sse_keys [] = none
  validate_overlapping_sse_keys (k ∷ ks) = elim (overlaps_with k ks) [
    | some e ↦ some e
    | none ↦ validate_overlapping_sse_keys ks
  ]

  -- byPrefixLength.Less
  unfoldable pub less : PrefixSsePair S → PrefixSsePair S → Bool
  less p q =
      if not (length p.prefix == length q.prefix)
      then ltb (length q.prefix) (length p.prefix)
      else str_lt p.prefix q.prefix

  -- sort.Sort by that order, here by insertion; for keys whose prefixes differ pairwise there is
  -- only one sorted order.
  unfoldable pub insert_key : PrefixSsePair S → List (PrefixSsePair S) → List (PrefixSsePair S)
  insert_key k [] = k ∷ []
  insert_key k (j ∷ ks) = if less j k then j ∷ insert_key k ks else k ∷ j ∷ ks

  unfoldable pub sort_keys : List (PrefixSsePair S) → List (PrefixSsePair S)
  unfolding insert_key
  sort_keys [] = []
  sort_keys (k ∷ ks) = insert_key k (sort_keys ks)
