-- ===== src/Difference/Compare.antt =====
-- differenceInternal of cmd/difference.go. The two channels are lists, whose heads are the entries
-- that the loop has taken, and the messages are those that it sends, in order.
use mc.Base.{
  ℕ, zero, suc, Bool, not, ◌&&◌, ◌||◌, Option, none, some, List, [], ◌∷◌, ◌++◌, ◌==◌, if◌then◌else◌,
}
use mc.Base.Strings.{Bytes, str_eq, str_lt, trim_prefix}
use mc.Base.Utf8.{valid_string}
use mc.Errors.{
  DifferType, in_unknown, in_none, in_size, in_metadata, in_type, in_first, in_second,
  in_aa_source_mtime, McError, invalid_source, invalid_target,
}
use mc.Content.{ClientContent, Time, is_regular}
use mc.Url.{to_string, url_join_path}
use mc.Difference.Metadata.{metadata_equal}
use mc.Difference.ModTime.{active_active_mod_time_updated}

-- diffMessage of cmd/diff-main.go, without the status that the printing fills in.
pub record DiffMessage : Type 0 where
  pub first_url : Bytes
  pub second_url : Bytes
  pub diff : DifferType
  pub error : Option McError
  pub first_content : Option ClientContent
  pub second_content : Option ClientContent

abbrev pub only_first : ClientContent → DiffMessage
only_first s = record {
  first_url = to_string s.url;
  second_url = [];
  diff = in_first;
  error = none;
  first_content = some s;
  second_content = none;
}

abbrev pub only_second : ClientContent → DiffMessage
only_second t = record {
  first_url = [];
  second_url = to_string t.url;
  diff = in_second;
  error = none;
  first_content = none;
  second_content = some t;
}

abbrev pub both : DifferType → ClientContent → ClientContent → DiffMessage
both d s t = record {
  first_url = to_string s.url;
  second_url = to_string t.url;
  diff = d;
  error = none;
  first_content = some s;
  second_content = some t;
}

abbrev pub error_message : McError → DiffMessage
error_message e = record {
  first_url = [];
  second_url = [];
  diff = in_unknown;
  error = some e;
  first_content = none;
  second_content = none;
}

-- What the comparison reads of its arguments and of other packages: time.Parse for RFC 3339 and
-- norm.NFC.String, the options of mirrorOptions, and the two URLs.
pub record Setting : Type 0 where
  pub parse_time : Bytes → Option Time
  pub nfc : Bytes → Bytes
  pub is_metadata : Bool
  pub source_listing_only : Bool
  pub return_similar : Bool
  pub source_url : Bytes
  pub target_url : Bytes

-- One round of the loop: the loop ends, or fails, or sends messages and goes on with the entries
-- that are left.
pub data Round : Type 0 where
  stop : Round
  fail : McError → Round
  send : List DiffMessage → List ClientContent → List ClientContent → Round

pub data Ending : Type 0 where
  finished unfinished : Ending
  failed : McError → Ending

pub record Outcome : Type 0 where
  pub messages : List DiffMessage
  pub ending : Ending

-- An entry that stands for an error of the listing ends the loop.
abbrev pub unless_failed : Option McError → Round → Round
unless_failed none r = r
unless_failed (some e) r = fail e

-- What a round leads to, where `rest` is the loop from the entries that are left.
abbrev pub advance : (List ClientContent → List ClientContent → Outcome) → Round → Outcome
advance rest stop = record { messages = []; ending = finished }
advance rest (fail e) = record { messages = []; ending = failed e }
advance rest (send ms ss ts) =
    let later = rest ss ts in record { messages = ms ++ later.messages; ending = later.ending }

unfoldable pub type_differs : ClientContent → ClientContent → Bool
type_differs s t =
    is_regular s.mode && not (is_regular t.mode) || not (is_regular s.mode) && is_regular t.mode

module _ (o : Setting) where
  abbrev pub source_suffix : ClientContent → Bytes
  source_suffix s = trim_prefix (to_string s.url) o.source_url

  abbrev pub target_suffix : ClientContent → Bytes
  target_suffix t = trim_prefix (to_string t.url) o.target_url

  -- The name under which an entry would stand in the target, in normal form.
  unfoldable pub source_key : ClientContent → Bytes
  source_key s = o.nfc (url_join_path o.target_url (source_suffix s))

  unfoldable pub target_key : ClientContent → Bytes
  target_key t = o.nfc (url_join_path o.target_url (target_suffix t))

  -- The one way, if any, in which two entries of one name differ.
  unfoldable pub difference_of : ClientContent → ClientContent → Option DifferType
  difference_of s t =
      if not (s.size == t.size)
      then some in_size
      else if active_active_mod_time_updated o.parse_time (some s) (some t)
      then some in_aa_source_mtime
      else if o.is_metadata
          && not (metadata_equal s.user_metadata t.user_metadata)
          && not (metadata_equal s.metadata t.metadata)
      then some in_metadata
      else none

  unfoldable pub differ_messages : ClientContent → ClientContent → List DiffMessage
  differ_messages s t = elim (difference_of s t) [ none ↦ [] | some d ↦ both d s t ∷ [] ]

  unfoldable pub similar_messages : ClientContent → ClientContent → List DiffMessage
  similar_messages s t = if o.return_similar then both in_none s t ∷ [] else []

  -- The body of the loop where both listings have an entry, behind the tests for errors.
  unfoldable pub compare_entries :
      ClientContent → List ClientContent → ClientContent → List ClientContent → Round
  compare_entries s ss t ts =
      if not (valid_string (source_suffix s))
      then send (error_message (invalid_source (url_join_path o.target_url (source_suffix s))) ∷ [])
          ss (t ∷ ts)
      else if not (valid_string (target_suffix t))
      then send (error_message (invalid_target (url_join_path o.target_url (target_suffix t))) ∷ [])
          (s ∷ ss) ts
      else if str_lt (source_key s) (target_key t)
      then send (only_first s ∷ []) ss (t ∷ ts)
      else if str_eq (target_key t) (source_key s)
      then if type_differs s t
        then send (both in_type s t ∷ []) (s ∷ ss) (t ∷ ts)
        else send (differ_messages s t ++ similar_messages s t) ss ts
      else send (only_second t ∷ []) (s ∷ ss) ts

  unfoldable pub round : List ClientContent → List ClientContent → Round
  round [] [] = stop
  round [] (t ∷ ts) =
      if o.source_listing_only then stop else unless_failed t.err (send (only_second t ∷ []) [] ts)
  round (s ∷ ss) [] = unless_failed s.err (send (only_first s ∷ []) ss [])
  round (s ∷ ss) (t ∷ ts) = unless_failed s.err (unless_failed t.err (compare_entries s ss t ts))

  -- The loop, for a number of rounds at most.
  unfoldable pub difference_internal : ℕ → List ClientContent → List ClientContent → Outcome
  difference_internal zero src tgt = record { messages = []; ending = unfinished }
  difference_internal (suc fuel) src tgt = advance (difference_internal fuel) (round src tgt)
