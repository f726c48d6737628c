-- ===== src/Copy/Kinds.antt =====
-- prepareCopyURLsTypeA to prepareCopyURLsTypeC of cmd/cp-url.go. A channel is the list of what is sent.
use mc.Base.{Bool, false, not, ◌&&◌, Option, none, some, List, [], ◌∷◌, ltb, if◌then◌else◌, take}
use mc.Base.Strings.{Bytes, trim_prefix, last_index}
use mc.Errors.{
  in_unknown, invalid_source, invalid_target, source_is_dir, target_is_not_dir, requires_recursive,
  copy_into_self,
}
use mc.Content.{ClientContent, is_regular}
use mc.Url.{ClientUrl, new_client_url, to_string, url_join_path}
use mc.Mirror.Plan.{Urls, error_urls, content_at}
use mc.Copy.FilePath.{join, base}
use mc.Copy.World.{
  World, Stat, found, missing, StatOptions, Client, connected, refused, is_dir, is_url_contains,
}
use mc.Copy.Guess.{PrepareCopyUrlsOpts, CopyUrlsContent, stat_options}

unfoldable pub make_copy_content_type_a : CopyUrlsContent → Urls
make_copy_content_type_a cc = record {
  source_alias = cc.source_alias;
  source_content = cc.source_content;
  target_alias = cc.target_alias;
  target_content = some (content_at (new_client_url cc.target_url));
  error = none;
  error_cond = in_unknown;
}

abbrev pub source_path : Option ClientContent → Bytes
source_path none = []
source_path (some c) = c.url.path

unfoldable pub make_copy_content_type_b : CopyUrlsContent → Urls
make_copy_content_type_b cc =
    let u = new_client_url cc.target_url in
    let target = record u { path = join u.path (base (source_path cc.source_content)) } in
    make_copy_content_type_a (record cc { target_url = to_string target })

-- The part of the source's path that is kept in the target.
unfoldable pub source_suffix : ClientUrl → Bytes → Bytes
source_suffix client path = elim (last_index client.path client.separator) [
  | none ↦ path
  | some i ↦ if ltb 1 i then trim_prefix path (take i client.path) else path
]

unfoldable pub make_copy_content_type_c : CopyUrlsContent → ClientUrl → Urls
make_copy_content_type_c cc client = make_copy_content_type_a (record cc {
  target_url = url_join_path cc.target_url (source_suffix client (source_path cc.source_content));
})

module _ (w : World) (o : PrepareCopyUrlsOpts) where
  -- The content of the source, which is looked up if it is not known.
  unfoldable pub known_source : CopyUrlsContent → StatOptions → Stat
  known_source cc q = elim cc.source_content [ some c ↦ found c | none ↦ w.url2_stat q ]

  -- The content of the target, which is looked up if it is not known; `true` says that it was
  -- looked up, is there and is no folder.
  unfoldable pub target_is_file : CopyUrlsContent → StatOptions → Bool
  target_is_file cc q = elim cc.target_content [
    | some t ↦ false
    | none ↦ elim (w.url2_stat q) [ missing e ↦ false | found t ↦ not (is_dir t.mode) ]
  ]

  unfoldable pub prepare_copy_urls_type_a : CopyUrlsContent → Urls
  prepare_copy_urls_type_a cc =
      elim (known_source cc
        (stat_options w o cc.source_url cc.source_version_id 0 o.is_zip false)) [
          | missing e ↦ error_urls e in_unknown
          | found c ↦
              if not (is_regular c.mode)
              then error_urls (invalid_source cc.source_url) in_unknown
              else make_copy_content_type_a (record cc { source_content = some c })
        ]

  unfoldable pub copy_into_folder : CopyUrlsContent → ClientContent → Urls
  copy_into_folder cc c =
      if not (is_regular c.mode)
      then if is_dir c.mode
        then error_urls (source_is_dir cc.source_url) in_unknown
        else error_urls (invalid_source cc.source_url) in_unknown
      else if target_is_file cc
          (stat_options w o cc.target_url [] 0 false o.ignore_bucket_exists_check)
      then error_urls (invalid_target cc.target_url) in_unknown
      else make_copy_content_type_b (record cc { source_content = some c })

  unfoldable pub prepare_copy_urls_type_b : CopyUrlsContent → Urls
  prepare_copy_urls_type_b cc =
      elim (known_source cc (
        stat_options w o cc.source_url cc.source_version_id 0 o.is_zip
          o.ignore_bucket_exists_check)) [
            | missing e ↦ error_urls e in_unknown
            | found c ↦ copy_into_folder cc c
          ]

  -- The loop over the listing of a folder.
  unfoldable pub copies_of : CopyUrlsContent → ClientUrl → List ClientContent → List Urls
  copies_of cc client [] = []
  copies_of cc client (c ∷ cs) =
      let rest = copies_of cc client cs in
      elim c.err [
        | some e ↦ error_urls e in_unknown ∷ rest
        | none ↦
            if is_regular c.mode
            then make_copy_content_type_c (record cc { source_content = some c }) client ∷ rest
            else rest
      ]

  unfoldable pub copy_listing : CopyUrlsContent → ClientUrl → List Urls
  copy_listing cc client = copies_of cc client (
      w.list cc.source_url
        (record { recursive = o.is_recursive; time_ref = o.time_ref; list_zip = o.is_zip }))

  -- The tests on a source that is a folder.
  unfoldable pub copy_source : CopyUrlsContent → ClientUrl → ClientContent → List Urls
  copy_source cc client c =
      if is_dir c.mode && not o.is_recursive
      then error_urls (requires_recursive cc.source_url) in_unknown ∷ []
      else if is_dir c.mode && is_url_contains cc.source_url cc.target_url
      then error_urls (copy_into_self cc.source_url) in_unknown ∷ []
      else copy_listing cc client

  unfoldable pub copy_found : CopyUrlsContent → ClientUrl → Stat → List Urls
  copy_found cc client (missing e) = error_urls e in_unknown ∷ []
  copy_found cc client (found c) = copy_source cc client c

  unfoldable pub copy_from : CopyUrlsContent → Client → List Urls
  copy_from cc (refused e) = error_urls e in_unknown ∷ []
  copy_from cc (connected client) =
      if target_is_file cc (stat_options w o cc.target_url [] 0 o.is_zip false)
      then error_urls (target_is_not_dir cc.target_url) in_unknown ∷ []
      else copy_found cc client
          (known_source cc (stat_options w o cc.source_url [] 0 o.is_zip false))

  unfoldable pub prepare_copy_urls_type_c : CopyUrlsContent → List Urls
  prepare_copy_urls_type_c cc = copy_from cc (w.new_client cc.source_url)
