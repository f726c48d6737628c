-- ===== src/Mirror/Job.antt =====
-- startMirror, doMirror and doRemove of cmd/mirror-main.go, and the retries of cmd/utils.go.
use mc.Base.{
  ℕ, zero, suc, ◌+◌, Bool, true, false, not, Option, none, some, List, [], ◌∷◌, ◌++◌, if◌then◌else◌,
}
use mc.Base.Strings.{Bytes, codes, str_eq}
use mc.Errors.{McError, listing, path_insufficient_permission}
use mc.Content.{ClientContent, Headers, Time}
use mc.Difference.ModTime.{get_source_mod_time_key}
use mc.Copy.FilePath.{join}
use mc.Find.Match.{Ages}
use mc.Mirror.Plan.{MirrorOptions, Urls}

-- mirrorOptions, as far as the job reads them.
pub record JobOptions : Type 0 where
  pub plan : MirrorOptions
  pub older_than : Bytes
  pub newer_than : Bytes
  pub storage_class : Bytes
  pub user_metadata : Headers
  pub is_retriable : Bool
  pub skip_errors : Bool

-- What a job calls: newClient, whose error is kept; uploadSourceToTargetURL at each attempt, and
-- whether the command is cancelled at the wait behind it; what Remove sends; and Time.Format.
pub record JobWorld : Type 0 where
  pub new_client : Bytes → Option McError
  pub upload : Urls → ℕ → Option McError
  pub cancelled : Urls → ℕ → Bool
  pub remove : Bytes → List (Option McError)
  pub format_time : Time → Bytes

-- URLs.WithError
abbrev pub with_error : Urls → Option McError → Urls
with_error u e = record u { error = e }

-- The rounds that are left of retry: the action is tried again until it succeeds, the command is
-- cancelled or the rounds are used up; the last error stays.
unfoldable pub retry : (ℕ → Option McError) → (ℕ → Bool) → ℕ → ℕ → Option McError → Option McError
retry action cancelled zero n last = last
retry action cancelled (suc rounds) n last = elim (action n) [
  | none ↦ none
  | some e ↦ elim (cancelled n) [
    | true ↦ some e
    | false ↦ retry action cancelled rounds (n + 1) (some e)
  ]
]

abbrev pub max_retries : ℕ
max_retries = 3

abbrev pub source_mod_time_key : Bytes
source_mod_time_key = codes "X-Amz-Meta-Mm-Source-Mtime"

-- A task of the pool: a copy that is only pretended, a copy, or a removal.
pub data Job : Type 0 where
  pretend : Urls → Job
  copy : Urls → ClientContent → ClientContent → Job
  remove : Urls → ClientContent → Job

module _ (o : JobOptions) (w : JobWorld) where
  abbrev pub mod_time_text : ClientContent → Bytes
  mod_time_text c =
      if not (str_eq (get_source_mod_time_key c.metadata) [])
      then get_source_mod_time_key c.metadata
      else w.format_time c.time

  -- The target with its metadata.
  unfoldable pub prepared : ClientContent → ClientContent → ClientContent
  prepared c t = record t {
    metadata = if o.plan.active_active then (source_mod_time_key, mod_time_text c) ∷ [] else [];
    storage_class = if str_eq o.storage_class [] then t.storage_class else o.storage_class;
    user_metadata = o.user_metadata;
  }

  unfoldable pub do_mirror : Urls → ClientContent → ClientContent → Urls
  do_mirror u c t = elim u.error [
    | some e ↦ u
    | none ↦
        let sent = record u { target_content = some (prepared c t) } in
        if o.plan.is_fake
        then with_error u none
        else if o.is_retriable
        then with_error sent (retry (w.upload sent) (w.cancelled sent) (max_retries + 1) 0 none)
        else with_error sent (w.upload sent 0)
  ]

  -- The first error of a removal that is not one of permission.
  unfoldable pub first_error : List (Option McError) → Option McError
  first_error [] = none
  first_error (none ∷ results) = first_error results
  first_error (some (listing (path_insufficient_permission s)) ∷ results) = first_error results
  first_error (some e ∷ results) = some e

  unfoldable pub do_remove : Urls → ClientContent → Urls
  do_remove u t =
      let path = join u.target_alias t.url.path in
      if o.plan.is_fake then with_error u none else elim (w.new_client path) [
        | some e ↦ with_error u (some e)
        | none ↦ with_error u (first_error (w.remove path))
      ]

  unfoldable pub run_job : Job → Urls
  run_job (pretend u) = with_error u none
  run_job (copy u c t) = do_mirror u c t
  run_job (remove u t) = do_remove u t

-- What startMirror has done: the errors that it has sent itself, the jobs that it has queued, and
-- whether it came to the end of the plan.
pub record Start : Type 0 where
  pub sent : List Urls
  pub queued : List Job
  pub completed : Bool

abbrev pub ended : Start
ended = record { sent = []; queued = []; completed = false }

module _ (o : JobOptions) (a : Ages) where
  -- Whether the age of a source keeps an order; `none` ends the program.
  unfoldable pub is_kept : Option ClientContent → Option Bool
  is_kept none = some true
  is_kept (some c) = elim (a.is_older c.time o.older_than) [
    | none ↦ none
    | some true ↦ some false
    | some false ↦ elim (a.is_newer c.time o.newer_than) [
      | none ↦ none
      | some newer ↦ some (not newer)
    ]
  ]

  -- The job of an order without an error. A copy without a target would end the program.
  unfoldable pub job_of : Urls → Option (List Job)
  job_of u = elim u.source_content [
    | some c ↦
        if o.plan.is_fake
        then some (pretend u ∷ [])
        else elim u.target_content [ none ↦ none | some t ↦ some (copy u c t ∷ []) ]
    | none ↦ elim u.target_content [
      | none ↦ some []
      | some t ↦ some (if o.plan.is_remove then remove u t ∷ [] else [])
    ]
  ]

  unfoldable pub start_mirror : List Urls → Start
  start_mirror [] = record { sent = []; queued = []; completed = true }
  start_mirror (u ∷ us) =
      let rest = start_mirror us in
      elim u.error [
        | some e ↦ record rest { sent = u ∷ rest.sent }
        | none ↦ elim (is_kept u.source_content) [
          | none ↦ ended
          | some false ↦ rest
          | some true ↦ elim (job_of u) [
            | none ↦ ended
            | some jobs ↦ record rest { queued = jobs ++ rest.queued }
          ]
        ]
      ]
