-- ===== src/Mirror/Cycle.antt =====
-- Two mirrors of opposite directions, which watch each other's targets: cmd/mirror-main.go.
use mc.Base.{subst, ◌⊎◌, true, [], ◌≡◌, refl, ◌≢◌, arith}
use mc.Base.Strings.{Bytes, codes, has_prefix, to_lower}
use mc.Base.Strings.Laws.{str_eq_iff}
use mc.Content.{ClientContent, Headers, get}
use mc.Difference.ModTime.{get_source_mod_time_key}
use mc.Mirror.Job.{JobOptions, JobWorld, prepared, mod_time_text, source_mod_time_key}
use mc.Mirror.Watch.{EventInfo, WatchSetting, watch_event, queued_for, is_own_upload}

-- The metadata names the modification time of the source, under the key that doMirror writes or in
-- its lower-case form, whatever else it holds.
abbrev pub Carries : Headers → Bytes → Type 0
Carries metadata text =
    (get metadata source_mod_time_key ≡ text) ⊎ (get metadata (to_lower source_mod_time_key) ≡ text)

Carries-told :
    (metadata : Headers) (text : Bytes)
    → Carries metadata text
    → text ≢ []
    → get_source_mod_time_key metadata ≢ []
unfolding get_source_mod_time_key
Carries-told metadata text c n = ground (
  arith,
  str_eq_iff (get metadata source_mod_time_key) [],
  str_eq_iff (get metadata (to_lower source_mod_time_key)) [],
)

-- Two active-active mirrors do not answer each other's uploads, but for copies and multipart uploads:
-- an event about a created object whose type is neither that of a copy nor that of the end of a
-- multipart upload queues nothing, if its metadata names, among whatever else, the modification time
-- of the source that doMirror gives to its target. The key may be in lower case, and the time must
-- have a text, whether it was carried over or made of the source's time.
pub watch_event_own_upload :
    (o : JobOptions) (jobs : JobWorld) (w : WatchSetting) (c t : ClientContent) (e : EventInfo)
    → o.plan.active_active ≡ true
    → w.plan.opts.active_active ≡ true
    → Carries e.user_metadata (get (prepared o jobs c t).metadata source_mod_time_key)
    → mod_time_text o jobs c ≢ []
    → has_prefix e.event_type (codes "s3:ObjectCreated:") ≡ true
    → e.event_type ≢ w.names.created_copy
    → e.event_type ≢ w.names.created_complete_multipart_upload
    → watch_event w e ≡ []
unfolding watch_event queued_for is_own_upload prepared
watch_event_own_upload o jobs w c t e a b m n h x y =
    let written : get (prepared o jobs c t).metadata source_mod_time_key ≡ mod_time_text o jobs c =
      rw a refl in
    let told =
      Carries-told e.user_metadata (mod_time_text o jobs c)
        (subst (Carries e.user_metadata) written m) n in
    ground (
      arith,
      str_eq_iff (get_source_mod_time_key e.user_metadata) [],
      str_eq_iff e.event_type w.names.created_copy,
      str_eq_iff e.event_type w.names.created_complete_multipart_upload,
    )
