-- ===== src/Difference/ModTime.antt =====
-- getSourceModTimeKey and activeActiveModTimeUpdated of cmd/difference.go.
use mc.Base.{
  Bool, true, false, not, ◌&&◌, Option, none, some, [], ◌==◌, ltb, if◌then◌else◌, ◌≡◌, arith,
}
use mc.Base.Strings.{Bytes, codes, str_eq, to_lower}
use mc.Content.{Headers, get, Time, ClientContent}
use mc.Difference.Metadata.{active_active_key}

abbrev short_key : Bytes
short_key = codes "Mm-Source-Mtime"

unfoldable pub get_source_mod_time_key : Headers → Bytes
unfolding to_lower
get_source_mod_time_key metadata =
    if not (str_eq (get metadata active_active_key) [])
    then get metadata active_active_key
    else if not (str_eq (get metadata (to_lower active_active_key)) [])
    then get metadata (to_lower active_active_key)
    else if not (str_eq (get metadata (to_lower short_key)) [])
    then get metadata (to_lower short_key)
    else if not (str_eq (get metadata short_key) [])
    then get metadata short_key
    else []

-- time.Parse(time.RFC3339Nano, s); `none` is an error.
module _ (parse_time : Bytes → Option Time) where
  -- The recorded time of a value, the zero time where there is none; `none` is a failed parse.
  origin_time : Bytes → Option Time
  origin_time value = if str_eq value [] then some 0 else parse_time value

  -- The time to compare: the recorded one where it is later.
  abbrev later_time : Time → Time → Time
  later_time origin time = if not (origin == 0) && ltb time origin then origin else time

  -- The function behind its tests for null pointers.
  contents_updated : ClientContent → ClientContent → Bool
  unfolding origin_time
  contents_updated src dst =
      let src_mod = get_source_mod_time_key src.user_metadata in
      let dst_mod = get_source_mod_time_key dst.user_metadata in
      if src.time == 0
      then false
      else if dst.time == 0
      then false
      else if str_eq src_mod [] && str_eq dst_mod []
      then ltb dst.time src.time
      else elim (origin_time src_mod) [
        | none ↦ false
        | some src_origin ↦ elim (origin_time dst_mod) [
          | none ↦ false
          | some dst_origin ↦ ltb (later_time dst_origin dst.time) (later_time src_origin src.time)
        ]
      ]

  unfoldable pub active_active_mod_time_updated : Option ClientContent → Option ClientContent → Bool
  unfolding contents_updated
  active_active_mod_time_updated none dst = false
  active_active_mod_time_updated (some src) none = false
  active_active_mod_time_updated (some src) (some dst) = contents_updated src dst

  -- Of two copies at most one is reported as updated against the other, so two sites that mirror to
  -- each other do not send one object back and forth.
  pub mod_time_updated_asymm :
      (a b : Option ClientContent)
      → active_active_mod_time_updated a b ≡ true
      → active_active_mod_time_updated b a ≡ false
  unfolding active_active_mod_time_updated
  mod_time_updated_asymm none b h = ground arith
  mod_time_updated_asymm (some a) none h = ground arith
  mod_time_updated_asymm (some a) (some b) h = ground arith
