-- ===== src/Find/Match.antt =====
-- matchFind, getAliasedPath and the loop of doFind of cmd/find.go.
use mc.Base.{
  ℕ, ◌^◌, Bool, true, false, not, ◌&&◌, ◌||◌, Option, none, some, List, [], ◌∷◌, ◌++◌, ltb, leb,
  if◌then◌else◌, drop,
}
use mc.Base.Strings.{Bytes, codes, str_eq, trim_prefix, trim_suffix, has_prefix, index}
use mc.Base.Dict.{Dict}
use mc.Errors.{
  McError, listing, path_not_found, path_insufficient_permission, broken_symlink,
  too_many_levels_symlink,
}
use mc.Content.{ClientContent, Headers, Time}
use mc.Url.{ClientUrl, to_string}
use mc.Find.Pattern.{
  Regexp, Matchers, name_match, match_regex_maps, match_metadata_regex_maps,
  trim_suffix_at_max_depth,
}

-- The fields that the search reads; client_url is what ctx.clnt.GetURL gives.
pub record FindContext : Type 0 where
  pub ignore_pattern : Bytes
  pub name_pattern : Bytes
  pub path_pattern : Bytes
  pub regex_pattern : Option Regexp
  pub max_depth : ℕ
  pub older_than : Bytes
  pub newer_than : Bytes
  pub larger_size : ℕ
  pub smaller_size : ℕ
  pub match_meta : Dict (Option Regexp)
  pub match_tags : Dict (Option Regexp)
  pub target_alias : Bytes
  pub target_url : Bytes
  pub target_full_url : Bytes
  pub client_url : ClientUrl

-- contentMessage, as far as find fills it.
pub record ContentMessage : Type 0 where
  pub key : Bytes
  pub version_id : Bytes
  pub time : Time
  pub size : ℕ
  pub metadata : Headers
  pub tags : Headers

-- isOlder and isNewer, which Age models; they end the program where they give `none`.
pub record Ages : Type 0 where
  pub is_older : Time → Bytes → Option Bool
  pub is_newer : Time → Bytes → Option Bool

-- One test of matchFind: it counts where it was asked for, and what follows is left out where it
-- fails or ends the program.
abbrev pub test : Bool → Option Bool → Option Bool → Option Bool
test false result rest = rest
test true none rest = none
test true (some false) rest = some false
test true (some true) rest = rest

abbrev pub negated : Option Bool → Option Bool
negated none = none
negated (some b) = some (not b)

abbrev pub is_given : Bytes → Bool
is_given s = not (str_eq s [])

abbrev pub is_filled : Dict (Option Regexp) → Bool
is_filled [] = false
is_filled (r ∷ rs) = true

-- int64(limit) < size and int64(limit) > size, for a limit of 64 bits
abbrev pub is_larger : ℕ → ℕ → Bool
is_larger limit size = leb (2 ^ 63) limit || ltb limit size

abbrev pub is_smaller : ℕ → ℕ → Bool
is_smaller limit size = ltb limit (2 ^ 63) && ltb size limit

-- The key behind the target. A target that does not begin with a separator gets one at its end.
unfoldable pub inner_path : FindContext → Bytes → Bytes
inner_path ctx key =
    let separator = ctx.client_url.separator ∷ [] in
    trim_prefix key
      (if has_prefix ctx.target_url separator then ctx.target_url else ctx.target_url ++ separator)

abbrev from_prefix : Bytes → Option ℕ → Bytes
from_prefix path none = path
from_prefix path (some i) = if ltb 0 i then drop i path else path

unfoldable pub get_aliased_path : FindContext → Bytes → Bytes
get_aliased_path ctx path =
    let separator = ctx.client_url.separator in
    let aliased =
      if is_given ctx.target_alias
      then ctx.target_alias ++ trim_prefix path (trim_suffix ctx.target_full_url separator)
      else from_prefix path (index path (to_string ctx.client_url)) in
    trim_suffix_at_max_depth ctx.target_url aliased separator ctx.max_depth

unfoldable pub message_of : FindContext → ClientContent → ContentMessage
message_of ctx c = record {
  key = get_aliased_path ctx (to_string c.url);
  version_id = c.version_id;
  time = c.time;
  size = c.size;
  metadata = c.user_metadata;
  tags = c.tags;
}

-- The errors of a listing that are printed and passed over.
abbrev pub is_passed_over : McError → Bool
is_passed_over (listing (broken_symlink s)) = true
is_passed_over (listing (too_many_levels_symlink s)) = true
is_passed_over (listing (path_not_found s)) = true
is_passed_over (listing (path_insufficient_permission s)) = true
is_passed_over _ = false

abbrev pub glacier : Bytes
glacier = codes "GLACIER"

-- The messages that are handed on to be printed or to a command, and whether the loop came to its end.
pub record Search : Type 0 where
  pub printed : List ContentMessage
  pub completed : Bool

module _ (m : Matchers) (a : Ages) (ctx : FindContext) where
  unfoldable pub match_find : ContentMessage → Option Bool
  match_find c =
      let path = inner_path ctx c.key in
      test (is_given ctx.ignore_pattern) (some (not (m.wildcard_match ctx.ignore_pattern path))) (
        test (is_given ctx.name_pattern) (some (name_match m ctx.name_pattern path)) (
          test (is_given ctx.path_pattern) (some (m.wildcard_match ctx.path_pattern path)) (
            test true (some (elim ctx.regex_pattern [ none ↦ true | some r ↦ r path ])) (
              test (is_given ctx.older_than) (negated (a.is_older c.time ctx.older_than)) (
                test (is_given ctx.newer_than) (negated (a.is_newer c.time ctx.newer_than)) (
                  test (ltb 0 ctx.larger_size) (some (is_larger ctx.larger_size c.size)) (
                    test (ltb 0 ctx.smaller_size) (some (is_smaller ctx.smaller_size c.size)) (
                      test (is_filled ctx.match_meta)
                        (some (match_metadata_regex_maps m ctx.match_meta c.metadata))
                        (test (is_filled ctx.match_tags)
                          (some (match_regex_maps m ctx.match_tags c.tags)) (some true))))))))))

  -- What the loop does with an entry; `none` ends the program.
  unfoldable pub visit : ClientContent → Option Bool
  visit c = elim c.err [
    | some e ↦ if is_passed_over e then some false else none
    | none ↦ if str_eq c.storage_class glacier then some false else match_find (message_of ctx c)
  ]

  unfoldable pub do_find : List ClientContent → Search
  do_find [] = record { printed = []; completed = true }
  do_find (c ∷ cs) =
      let rest = do_find cs in
      elim (visit c) [
        | none ↦ record { printed = []; completed = false }
        | some false ↦ rest
        | some true ↦ record rest { printed = message_of ctx c ∷ rest.printed }
      ]
