-- ===== src/Find/Pattern.antt =====
-- The patterns of cmd/find.go: names, regular expressions on maps, and the depth of a path.
use mc.Base.{
  ℕ, Bool, true, false, not, ◌&&◌, ◌||◌, Option, none, some, List, [], ◌∷◌, ◌++◌, ◌==◌,
  if◌then◌else◌, take,
}
use mc.Base.Strings.{Bytes, codes, str_eq, split, trim_prefix}
use mc.Base.Dict.{Dict, lookup}
use mc.Content.{Headers, get}
use mc.Copy.FilePath.{base}
use mc.Url.{slash}

-- A compiled regular expression, as the test that MatchString makes; a null one is `none`.
abbrev pub Regexp : Type 0
Regexp = Bytes → Bool

-- filepath.Match, where an error is no match; wildcard.Match; norm.NFC.String; and
-- http.CanonicalHeaderKey.
pub record Matchers : Type 0 where
  pub file_match : Bytes → Bytes → Bool
  pub wildcard_match : Bytes → Bytes → Bool
  pub nfc : Bytes → Bytes
  pub canonical_header_key : Bytes → Bytes

-- The loop over the components of a path.
abbrev pub has_part : Bytes → List Bytes → Bool
has_part pattern [] = false
has_part pattern (part ∷ parts) = str_eq part pattern || has_part pattern parts

-- strings.SplitAfter, for a separator of one byte
unfoldable pub split_after : Bytes → ℕ → List Bytes
split_after [] d = [] ∷ []
split_after (c ∷ s) d =
    let rest = split_after s d in
    if c == d then (c ∷ []) ∷ rest else mc.Base.Strings.push_first c rest

-- strings.Join, for the empty separator
abbrev pub joined : List Bytes → Bytes
joined [] = []
joined (part ∷ parts) = part ++ joined parts

-- For a depth below 2 ^ 63, with which the list of components can be cut.
unfoldable pub trim_suffix_at_max_depth :
    (start_prefix path : Bytes) (separator max_depth : ℕ) → Bytes
trim_suffix_at_max_depth start path separator depth =
    if depth == 0
    then path
    else joined (start ∷ take depth (split_after (trim_prefix path start) separator))

module _ (m : Matchers) where
  unfoldable pub name_match : Bytes → Bytes → Bool
  name_match pattern path = m.file_match pattern (base path) || has_part pattern (split path slash)

  abbrev pub value_matches : Regexp → Option Bytes → Bool
  value_matches r none = false
  value_matches r (some value) = r (m.nfc value)

  unfoldable pub match_regex_maps : Dict (Option Regexp) → Headers → Bool
  match_regex_maps [] v = true
  match_regex_maps ((k, none) ∷ rs) v = str_eq (get v k) [] && match_regex_maps rs v
  match_regex_maps ((k, some r) ∷ rs) v = value_matches r (lookup k v) && match_regex_maps rs v

  -- The value of a key, or of the key with the prefix of user metadata.
  unfoldable pub meta_value : Headers → Bytes → Option Bytes
  meta_value v k = elim (lookup k v) [
    | some value ↦ some value
    | none ↦ lookup (m.canonical_header_key (codes "X-Amz-Meta-" ++ k)) v
  ]

  unfoldable pub match_metadata_regex_maps : Dict (Option Regexp) → Headers → Bool
  match_metadata_regex_maps [] v = true
  match_metadata_regex_maps ((k, none) ∷ rs) v =
      str_eq (get v k) [] && match_metadata_regex_maps rs v
  match_metadata_regex_maps ((k, some r) ∷ rs) v =
      value_matches r (meta_value v k) && match_metadata_regex_maps rs v
