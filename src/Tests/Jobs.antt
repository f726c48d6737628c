-- ===== src/Tests/Jobs.antt =====
-- Runs of the jobs of a mirror.
use mc.Base.{
  inr, arith, ◌≢◌, ℕ, true, false, none, some, List, [], ◌∷◌, ◌≡◌, ◌↔◌, refl, inl, All, ltb,
  if◌then◌else◌,
}
use mc.Base.Strings.{Bytes, to_lower, codes}
use mc.Content.{ClientContent, regular}
use mc.Errors.{McError, listing, error_response, in_unknown, overwrite_not_allowed}
use mc.Difference.Compare.{DiffMessage}
use mc.Difference.Report.{difference}
use mc.Find.Match.{Ages}
use mc.Mirror.Plan.{MirrorOptions, MirrorSetting, Urls, error_urls, mirror_plan}
use mc.Mirror.Job.{
  JobOptions, JobWorld, prepared, mod_time_text, Job, copy, run_job, do_mirror, retry, start_mirror,
}
use mc.Mirror.Status.{ignores, is_err_ignored, monitor_mirror_status}
use mc.Mirror.Outcome.{mirror_outcome, neither, from_first, from_second}
use mc.Mirror.Retry.{IsReached, sent_of, do_mirror_retries}
use mc.Mirror.Start.{CanTell, IsAllowed, errors_of, start_mirror-Allowed}
use mc.Parallel.System.{
  Task, Worker, waiting, sent, quit, Caller, ready, stopped, Manager, add_worker, unlock, read_lock,
  here, begin, hand, finish, release, close, leave, stop, work, grow, Reach, start, next,
}
use mc.Alias.Expand.{Sources}
use mc.Mirror.Watch.{EventNames, EventInfo, WatchSetting, watch_event}
use mc.Mirror.Cycle.{watch_event_own_upload}
use mc.Tests.Fixtures.{setting, sources, targets, at_source, at_target}

abbrev mirror_options : MirrorOptions
mirror_options = record {
  is_fake = false;
  is_overwrite = true;
  active_active = true;
  is_remove = false;
  exclude_options = [];
  exclude_storage_classes = [];
  exclude_buckets = [];
}

abbrev job_options : JobOptions
job_options = record {
  plan = mirror_options;
  older_than = [];
  newer_than = [];
  storage_class = codes "STANDARD";
  user_metadata = [];
  is_retriable = true;
  skip_errors = true;
}

abbrev slow_down : McError
slow_down = listing (error_response (codes "SlowDown") (codes "Please reduce your request rate."))

-- Every upload fails twice.
abbrev world : JobWorld
world = record {
  new_client = λ path. none;
  upload = λ u n. if ltb n 2 then some slow_down else none;
  cancelled = λ u n. false;
  remove = λ path. [];
  format_time = λ t. codes "2024-01-01T00:00:00Z";
}

-- One where every upload fails.
abbrev broken_world : JobWorld
broken_world = record world { upload = λ u n. some slow_down }

abbrev source : ClientContent
source = at_source (codes "a") 1 regular

abbrev target : ClientContent
target = at_target (codes "a") 1 regular

abbrev order : Urls
order = record {
  source_alias = [];
  source_content = some source;
  target_alias = codes "play";
  target_content = some target;
  error = none;
  error_cond = in_unknown;
}

abbrev jobs : List Job
jobs = copy order source target ∷ []

abbrev task : Task
task = record { fn = 0; barrier = false }

abbrev pool : ℕ → Worker → Caller → List Task → List ℕ → Manager
pool readers worker caller todo results = record {
  max_workers = 2;
  workers_num = 1;
  lock = record { readers = readers; writer = false };
  workers = worker ∷ [];
  caller = caller;
  todo = todo;
  results = results;
}

reach_grown : Reach 2 (task ∷ []) (pool 0 waiting ready (task ∷ []) [])
unfolding add_worker
reach_grown = next start grow

reach_sent : Reach 2 (task ∷ []) (pool 1 (sent task) ready [] (0 ∷ []))
reach_sent =
    next
      (next (next reach_grown (work (begin false refl refl (read_lock refl))))
        (work (hand refl here)))
      (work (finish here))

reach_stopped : Reach 2 (task ∷ []) (pool 0 quit stopped [] (0 ∷ []))
unfolding unlock
reach_stopped =
    next
      (next (next (next reach_sent (work (release here))) (work (close refl refl)))
        (work (leave (inl refl) here)))
      (work (stop refl refl))

-- An error of the plan, which is ignored, comes behind the result of the one job, which failed.
abbrev sent_errors : List Urls
sent_errors = error_urls (overwrite_not_allowed (codes "https://h/b/x")) in_unknown ∷ []

abbrev text : McError → Bytes
text e = []

abbrev failed_result : Urls
failed_result = run_job job_options broken_world (copy order source target)

mirror_outcome_example : monitor_mirror_status text true (failed_result ∷ sent_errors) ≡ true
unfolding run_job ignores do_mirror retry is_err_ignored
mirror_outcome_example =
    mirror_outcome job_options broken_world text true sent_errors jobs reach_stopped refl
      (from_second (from_first neither))

do_mirror_retries_example : ((do_mirror job_options world order source target).error ≡ none) ↔ (
    (n : ℕ) × IsReached
      (world.upload (sent_of job_options world order source target))
      (world.cancelled (sent_of job_options world order source target))
      0
      4
      n)
do_mirror_retries_example = do_mirror_retries job_options world order source target refl refl refl

abbrev mirror_setting : MirrorSetting
mirror_setting = record {
  wildcard_match = λ p s. false;
  opts = mirror_options;
  source_alias = [];
  target_alias = codes "play";
  source_url = codes "/data/";
  target_url = codes "https://h/b/";
}

abbrev ages : Ages
ages = record { is_older = λ t s. some false; is_newer = λ t s. some false }

ages-CanTell : CanTell job_options ages
ages-CanTell = record { older = λ t e. cc; newer = λ t e. cc }

abbrev messages : List DiffMessage
messages = difference setting 10 sources targets

start_mirror-Allowed_example :
    ((start_mirror job_options ages (mirror_plan mirror_setting messages)).completed ≡ true)
    × ((start_mirror job_options ages (mirror_plan mirror_setting messages)).sent
        ≡ errors_of (mirror_plan mirror_setting messages))
    × All
        (IsAllowed job_options)
        (start_mirror job_options ages (mirror_plan mirror_setting messages)).queued
start_mirror-Allowed_example =
    start_mirror-Allowed job_options ages mirror_setting messages ages-CanTell

abbrev event_names : EventNames
event_names = record {
  created_copy = codes "s3:ObjectCreated:Copy";
  created_complete_multipart_upload = codes "s3:ObjectCreated:CompleteMultipartUpload";
  removed_delete = codes "s3:ObjectRemoved:Delete";
  removed_delete_marker_created = codes "s3:ObjectRemoved:DeleteMarkerCreated";
  del_marker_expiration_delete = codes "s3:LifecycleDelMarkerExpiration:Delete";
  bucket_created_all = codes "s3:BucketCreated:*";
  bucket_removed_all = codes "s3:BucketRemoved:*";
}

-- No alias is known, so that both sides are URLs.
abbrev no_aliases : Sources
no_aliases = record {
  parse = λ s. none;
  env = λ name. none;
  alias_to_config_map = [];
  config = none;
  config_path = [];
}

abbrev watch_setting : WatchSetting
watch_setting = record {
  names = event_names;
  aliases = no_aliases;
  absolute = λ path. none;
  parse_time = λ s. 0;
  source_url = codes "https://h/b/";
  target_url = codes "https://g/b/";
  is_watch = true;
  plan = mirror_setting;
}

abbrev upload_event : EventInfo
upload_event = record {
  time = [];
  size = 1;
  user_metadata =
      (codes "content-type", codes "text/plain")
      ∷ (codes "x-amz-meta-mm-source-mtime", codes "2024-01-01T00:00:00Z")
      ∷ [];
  path = codes "https://h/b/a";
  user_agent = [];
  event_type = codes "s3:ObjectCreated:Put";
}

put-neq-copy : codes "s3:ObjectCreated:Put" ≢ codes "s3:ObjectCreated:Copy"
put-neq-copy = ground arith

put-neq-multipart : codes "s3:ObjectCreated:Put" ≢ codes "s3:ObjectCreated:CompleteMultipartUpload"
put-neq-multipart = ground arith

has_mod_time : mod_time_text job_options world source ≢ []
has_mod_time = ground arith

watch_event_own_upload_example : watch_event watch_setting upload_event ≡ []
unfolding prepared mc.Difference.ModTime.get_source_mod_time_key to_lower
watch_event_own_upload_example =
    watch_event_own_upload job_options world watch_setting source target upload_event refl refl
      (inr refl) has_mod_time refl put-neq-copy put-neq-multipart
