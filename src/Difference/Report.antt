-- ===== src/Difference/Report.antt =====
-- difference, objectDifference and bucketDifference of cmd/difference.go: what the reader of the
-- channel gets.
use mc.Base.{
  ℕ, suc, ◌+◌, Bool, true, false, ◌||◌, Option, none, some, List, [], ◌∷◌, ◌++◌, ◌≡◌, arith,
  if◌then◌else◌, length,
}
use mc.Base.Strings.{Bytes, codes, str_eq}
use mc.Errors.{
  McError, listing, path_not_found, path_insufficient_permission, path_not_a_directory,
  error_response,
}
use mc.Content.{ClientContent, Time, regular}
use mc.Url.{ClientUrl, to_string, new_client_url, file_url}
use mc.Difference.Compare.{
  Setting, Ending, finished, unfinished, failed, Outcome, DiffMessage, error_message,
  difference_internal,
}

-- The errors that the channel passes on; any other is only logged.
abbrev pub is_passed_on : McError → Bool
is_passed_on (listing (path_not_found p)) = true
is_passed_on (listing (path_insufficient_permission p)) = true
is_passed_on (listing (path_not_a_directory p)) = true
is_passed_on (listing (error_response code text)) =
    str_eq code (codes "NoSuchBucket")
    || (str_eq code (codes "NoSuchKey") || str_eq code (codes "SignatureDoesNotMatch"))
is_passed_on _ = false

-- What the goroutine of `difference` sends after the loop.
abbrev pub last_words : Ending → List DiffMessage
last_words (failed e) = if is_passed_on e then error_message e ∷ [] else []
last_words _ = []

unfoldable pub difference : Setting → ℕ → List ClientContent → List ClientContent → List DiffMessage
difference o fuel src tgt =
    let out = difference_internal o fuel src tgt in out.messages ++ last_words out.ending

-- Enough rounds for two listings of files.
unfoldable pub rounds_for : List ClientContent → List ClientContent → ℕ
rounds_for src tgt = suc (length src + length tgt)

-- A client, as far as the two functions below call it.
pub record Lister : Type 0 where
  pub url : Bytes
  pub objects : List ClientContent
  pub buckets : List ClientContent
  pub bucket_error : Option McError

-- objectDifference: both clients list their objects, files alone.
unfoldable pub object_difference :
    (parse_time : Bytes → Option Time) (nfc : Bytes → Bytes)
    (is_metadata source_listing_only : Bool)
    → Lister
    → Lister
    → List DiffMessage
object_difference parse_time nfc is_metadata source_listing_only source target =
    difference
      (record {
        parse_time = parse_time;
        nfc = nfc;
        is_metadata = is_metadata;
        source_listing_only = source_listing_only;
        return_similar = false;
        source_url = source.url;
        target_url = target.url;
      })
      (rounds_for source.objects target.objects) source.objects target.objects

-- The content that stands for an error: a ClientContent with no field but Err.
abbrev pub error_content : McError → ClientContent
error_content e = record {
  url = record {
    kind = mc.Url.object_storage;
    scheme = [];
    host = [];
    path = [];
    scheme_separator = [];
    separator = 0;
  };
  time = 0;
  size = 0;
  mode = regular;
  storage_class = [];
  metadata = [];
  user_metadata = [];
  version_id = [];
  tags = [];
  err = some e;
}

-- What the two goroutines of bucketDifference send, if the command is not cancelled.
unfoldable pub bucket_contents : Lister → List ClientContent
bucket_contents c = elim c.bucket_error [ none ↦ c.buckets | some e ↦ error_content e ∷ [] ]

unfoldable pub bucket_difference :
    (parse_time : Bytes → Option Time) (nfc : Bytes → Bytes)
    (is_metadata source_listing_only : Bool)
    → Lister
    → Lister
    → List DiffMessage
bucket_difference parse_time nfc is_metadata source_listing_only source target =
    let src = bucket_contents source in
    let tgt = bucket_contents target in
    difference
      (record {
        parse_time = parse_time;
        nfc = nfc;
        is_metadata = is_metadata;
        source_listing_only = source_listing_only;
        return_similar = false;
        source_url = source.url;
        target_url = target.url;
      })
      (rounds_for src tgt) src tgt

-- If the buckets of the source cannot be listed, nothing is compared: no bucket of the target is
-- reported as missing in the source, and the reader gets the error alone, if it is one of those
-- that are passed on, and otherwise nothing at all.
pub bucket_difference_error :
    (parse_time : Bytes → Option Time) (nfc : Bytes → Bytes)
    (is_metadata source_listing_only : Bool) (source target : Lister) {e : McError}
    → source.bucket_error ≡ some e
    → bucket_difference parse_time nfc is_metadata source_listing_only source target
      ≡ (if is_passed_on e then error_message e ∷ [] else [])
unfolding bucket_difference bucket_contents difference rounds_for difference_internal
    mc.Difference.Compare.round
bucket_difference_error parse_time nfc is_metadata source_listing_only source target h =
    ground arith
