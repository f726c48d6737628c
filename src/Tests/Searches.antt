-- ===== src/Tests/Searches.antt =====
-- Runs of find.
use mc.Base.{ℕ, Bool, true, false, Option, none, some, List, [], ◌∷◌, ◌++◌, ◌≡◌, refl}
use mc.Base.Strings.{Bytes, codes, str_eq, has_suffix}
use mc.Url.{object_url}
use mc.Find.Pattern.{Matchers}
use mc.Find.Match.{FindContext, Ages, do_find, visit, match_find}
use mc.Find.Exact.{Prints, do_find-Prints}
use mc.Tests.Fixtures.{targets}

abbrev matchers : Matchers
matchers = record {
  file_match = str_eq;
  wildcard_match = str_eq;
  nfc = λ s. s;
  canonical_header_key = λ s. s;
}

abbrev ages : Ages
ages = record { is_older = λ t limit. some false; is_newer = λ t limit. some false }

-- `mc find play/b --larger 3 --older-than 1d --regex c`
abbrev search : FindContext
search = record {
  ignore_pattern = [];
  name_pattern = [];
  path_pattern = [];
  regex_pattern = some (λ s. has_suffix s b'c');
  max_depth = 2;
  older_than = codes "1d";
  newer_than = [];
  larger_size = 3;
  smaller_size = 0;
  match_meta = [];
  match_tags = [];
  target_alias = codes "play";
  target_url = codes "play/b";
  target_full_url = codes "https://h/";
  client_url = object_url (codes "https") (codes "h") (codes "/b");
}

search_completed : (do_find matchers ages search targets).completed ≡ true
unfolding do_find visit match_find mc.Find.Match.inner_path mc.Find.Match.message_of
    mc.Find.Match.get_aliased_path mc.Find.Pattern.trim_suffix_at_max_depth
    mc.Find.Pattern.split_after mc.Base.Strings.trim_prefix mc.Url.to_string
search_completed = refl

do_find-Prints_example :
    Prints matchers ages search targets (do_find matchers ages search targets).printed
do_find-Prints_example = do_find-Prints matchers ages search targets search_completed
