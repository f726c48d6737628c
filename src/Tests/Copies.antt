-- ===== src/Tests/Copies.antt =====
-- Runs of the plans of copies.
use mc.Base.{true, false, none, some, [], ◌∷◌, ◌≡◌, refl, arith, if◌then◌else◌}
use mc.Base.Strings.{codes, str_eq, has_prefix}
use mc.Errors.{invalid_argument}
use mc.Content.{regular, directory}
use mc.Url.{file_url}
use mc.Copy.World.{World, found, missing, connected}
use mc.Copy.Guess.{CopyUrlsContent, PrepareCopyUrlsOpts, start}
use mc.Copy.Kinds.{copy_source, copy_listing}
use mc.Copy.Orders.{copies_of_all, prepare_copy_urls_type_d, prepare_copy_urls}
use mc.Copy.Regular.{AreOrders, prepare_copy_urls-AreOrders}
use mc.Copy.Distinct.{IsFiltered, prepare_copy_urls_type_d-IsFiltered}
use mc.Copy.IntoSelf.{copy_source_into_self}
use mc.Tests.Fixtures.{at_source}

-- `play` is an alias, the target is an empty bucket, and a folder has two files.
abbrev world : World
world = record {
  expand_alias =
      λ url. if str_eq url (codes "play/b") then (codes "play", codes "https://h/b") else ([], url);
  url2_stat = λ q.
      if has_prefix q.url_str (codes "/data")
      then found (at_source [] 0 directory)
      else missing invalid_argument;
  first_url2_stat = λ url t zip. found (at_source (codes "a") 1 regular);
  new_client = λ url. connected (file_url url);
  list = λ url o. at_source (codes "a") 1 regular ∷ at_source (codes "b") 2 regular ∷ [];
  is_older = λ t limit. some false;
  is_newer = λ t limit. some false;
}

abbrev copy_twice : PrepareCopyUrlsOpts
copy_twice = record {
  source_url = codes "/data/";
  more_source_urls = codes "/data/" ∷ [];
  target_url = codes "play/b";
  is_recursive = true;
  older_than = [];
  newer_than = [];
  time_ref = 0;
  version_id = [];
  is_zip = false;
  ignore_bucket_exists_check = false;
}

prepare_copy_urls-AreOrders_example :
    AreOrders [] (codes "play") (prepare_copy_urls world copy_twice)
prepare_copy_urls-AreOrders_example = prepare_copy_urls-AreOrders world copy_twice

abbrev both_sides : CopyUrlsContent
both_sides = record {
  target_content = none;
  target_alias = codes "play";
  target_url = codes "https://h/b";
  source_content = none;
  source_alias = [];
  source_url = codes "/data/";
  copy_type = mc.Copy.Guess.type_d;
  source_version_id = [];
}

prepare_copy_urls_type_d-IsFiltered_example :
    IsFiltered
      (copies_of_all world copy_twice both_sides (codes "/data/" ∷ codes "/data/" ∷ []))
      (prepare_copy_urls_type_d world copy_twice both_sides)
prepare_copy_urls_type_d-IsFiltered_example =
    prepare_copy_urls_type_d-IsFiltered world copy_twice both_sides

-- `mc cp --recursive play/b play/b/c`
abbrev into_self : CopyUrlsContent
into_self = record both_sides { source_url = codes "play/b"; target_url = codes "https://h/b/c" }

copy_source_into_self_example :
    copy_source world copy_twice into_self (file_url (codes "play/b")) (at_source [] 0 directory)
    ≡ copy_listing world copy_twice into_self (file_url (codes "play/b"))
copy_source_into_self_example =
    copy_source_into_self world copy_twice into_self (file_url (codes "play/b"))
      (at_source [] 0 directory) (codes "https") (codes "//h/b/c") (codes "play") (codes "b") refl
      refl refl (omega arith, (omega arith, (omega arith, (omega arith, (omega arith, tt)))))
      (omega arith, (omega arith, (omega arith, (omega arith, tt))))
