-- ===== src/Tests/Fixtures.antt =====
-- Contents, a setting of the comparison and clients, for the runs on listings.
use mc.Base.{ℕ, false, Option, none, some, List, [], ◌∷◌, if◌then◌else◌, ◌++◌}
use mc.Base.Strings.{Bytes, codes, str_eq}
use mc.Content.{ClientContent, FileMode, regular, Time}
use mc.Url.{file_url, object_url}
use mc.Difference.Compare.{Setting}

-- Two dates, as far as they occur here.
abbrev pub parse_date : Bytes → Option Time
parse_date s =
    if str_eq s (codes "2024-01-01T00:00:00Z")
    then some 63839664000000000000
    else if str_eq s (codes "2024-01-02T00:00:00Z")
    then some 63839750400000000000
    else none

-- norm.NFC.String on ASCII text.
abbrev pub same_text : Bytes → Bytes
same_text s = s

abbrev pub setting : Setting
setting = record {
  parse_time = parse_date;
  nfc = same_text;
  is_metadata = false;
  source_listing_only = false;
  return_similar = false;
  source_url = codes "/data/";
  target_url = codes "https://h/b/";
}

abbrev pub at_source : Bytes → ℕ → FileMode → ClientContent
at_source name size mode = record {
  url = file_url (codes "/data/" ++ name);
  time = 63839577600000000000;
  size = size;
  mode = mode;
  storage_class = [];
  metadata = [];
  user_metadata = [];
  version_id = [];
  tags = [];
  err = none;
}

abbrev pub at_target : Bytes → ℕ → FileMode → ClientContent
at_target name size mode = record {
  url = object_url (codes "https") (codes "h") (codes "/b/" ++ name);
  time = 63839577600000000000;
  size = size;
  mode = mode;
  storage_class = [];
  metadata = [];
  user_metadata = [];
  version_id = [];
  tags = [];
  err = none;
}

-- Only the source has `a`, only the target has `c`, and `b` differs in its size.
abbrev pub sources : List ClientContent
sources = at_source (codes "a") 1 regular ∷ at_source (codes "b") 2 regular ∷ []

abbrev pub targets : List ClientContent
targets = at_target (codes "b") 3 regular ∷ at_target (codes "c") 4 regular ∷ []
