-- ===== src/Mirror/Outcome.antt =====
-- What mirror of cmd/mirror-main.go returns: startMirror and the pool of workers send to the status
-- channel, and monitorMirrorStatus reads it.
use mc.Base.{
  ℕ, ◌+◌, ◌<◌, Bool, true, false, not, ◌||◌, Option, none, some, List, [], ◌∷◌, ◌++◌, ◌≡◌, refl,
  ◌⊎◌, inl, inr, arith, ap, sym, ◌∙◌, any, get_elem?, Bool-cases, length, length-append,
  append_assoc, Option-cases,
}
use mc.Base.Strings.{Bytes}
use mc.Errors.{McError}
use mc.Mirror.Plan.{Urls}
use mc.Mirror.Job.{JobOptions, JobWorld, Job, run_job}
use mc.Mirror.Status.{Monitor, ignores, observe, observe_all, new_monitor, monitor_mirror_status}
use mc.Parallel.System.{Task, Manager, Reach, stopped}
use mc.Parallel.Counts.{count, count_tasks}
use mc.Parallel.Safety.{results_complete}

-- A message that is a failure: an error that the monitor does not ignore.
abbrev pub fails : (McError → Bytes) → Urls → Bool
fails text u = elim u.error [ none ↦ false | some e ↦ not (ignores text u e) ]

module _ (text : McError → Bytes) where
  observe_lem :
      (skip : Bool) (m : Monitor) (u : Urls)
      → (m.cancel_in_progress ≡ false) ⊎ (m.err_during_mirror ≡ true)
      → ((observe text skip m u).err_during_mirror ≡ (m.err_during_mirror || fails text u))
        × (((observe text skip m u).cancel_in_progress ≡ false)
            ⊎ ((observe text skip m u).err_during_mirror ≡ true))
  unfolding observe
  observe_lem skip m u i = ground arith

  observe_all_lem :
      (skip : Bool) (m : Monitor) (us : List Urls)
      → (m.cancel_in_progress ≡ false) ⊎ (m.err_during_mirror ≡ true)
      → (observe_all text skip m us).err_during_mirror
        ≡ (m.err_during_mirror || any (fails text) us)
  unfolding observe_all
  observe_all_lem skip m [] i = ground arith
  observe_all_lem skip m (u ∷ us) i =
      let (e, j) = observe_lem skip m u i in
      ground (arith, observe_all_lem skip (observe text skip m u) us j)

  pub monitor-any :
      (skip : Bool) (us : List Urls) → monitor_mirror_status text skip us ≡ any (fails text) us
  unfolding monitor_mirror_status
  monitor-any skip us = observe_all_lem skip (new_monitor text) us (inl refl)

-- The messages of one channel from two senders, each in its order.
pub data Interleaves {A : Type 0} : List A → List A → List A → Type 0 where
  neither : Interleaves [] [] []
  from_first : {x : A} {xs ys zs : List A} → Interleaves xs ys zs → Interleaves (x ∷ xs) ys (x ∷ zs)
  from_second :
      {y : A} {xs ys zs : List A} → Interleaves xs ys zs → Interleaves xs (y ∷ ys) (y ∷ zs)

any-Interleaves :
    {A : Type 0} (f : A → Bool) {xs ys zs : List A}
    → Interleaves xs ys zs
    → any f zs ≡ (any f xs || any f ys)
any-Interleaves f neither = refl
any-Interleaves f (from_first i) = ground (arith, any-Interleaves f i)
any-Interleaves f (from_second i) = ground (arith, any-Interleaves f i)

-- Whether a test holds of some number of a list depends only on how often each number stands there.
any_found :
    (f : ℕ → Bool) (rs : List ℕ) → any f rs ≡ true → (n : ℕ) × (f n ≡ true) × (0 < count n rs)
any_found f [] h = cc
any_found f (r ∷ rs) h = elim (Bool-cases (f r)) [
  | inl e ↦ (r, e, ground arith)
  | inr e ↦ let (n, fn, c) = any_found f rs (ground arith) in (n, fn, ground arith)
]

found_any : (f : ℕ → Bool) (rs : List ℕ) (n : ℕ) → f n ≡ true → 0 < count n rs → any f rs ≡ true
found_any f [] n h c = absurd (omega arith)
found_any f (r ∷ rs) n h c = ground (arith, found_any f rs n h)

any-count :
    (f : ℕ → Bool) (rs ss : List ℕ) → ((n : ℕ) → count n rs ≡ count n ss) → any f rs ≡ any f ss
any-count f rs ss h = elim (Bool-cases (any f rs)) [
  | inl e ↦ let (n, fn, c) = any_found f rs e in e ∙ sym (found_any f ss n fn (omega (arith, h n)))
  | inr e ↦ elim (Bool-cases (any f ss)) [
    | inl g ↦
        let (n, fn, c) = any_found f ss g in let k = found_any f rs n fn (omega (arith, h n)) in cc
    | inr g ↦ e ∙ sym g
  ]
]

-- The jobs as tasks of the pool, which are numbered in the order in which they are queued; mirror
-- queues none of them with a barrier.
abbrev pub tasks_from : ℕ → List Job → List Task
tasks_from n [] = []
tasks_from n (j ∷ js) = record { fn = n; barrier = false } ∷ tasks_from (n + 1) js

abbrev numbers_from : ℕ → List Job → List ℕ
numbers_from n [] = []
numbers_from n (j ∷ js) = n ∷ numbers_from (n + 1) js

count-tasks_from :
    (k n : ℕ) (js : List Job) → count_tasks n (tasks_from k js) ≡ count n (numbers_from k js)
count-tasks_from k n [] = refl
count-tasks_from k n (j ∷ js) = omega (arith, count-tasks_from (k + 1) n js)

module _ (o : JobOptions) (w : JobWorld) where
  -- The messages of the results of the pool.
  abbrev pub result_of : Option Job → List Urls
  result_of none = []
  result_of (some j) = run_job o w j ∷ []

  abbrev pub results_of : List Job → List ℕ → List Urls
  results_of jobs [] = []
  results_of jobs (r ∷ rs) = result_of (get_elem? jobs r) ++ results_of jobs rs

  abbrev fails_at : (McError → Bytes) → Option Job → Bool
  fails_at text none = false
  fails_at text (some j) = fails text (run_job o w j)

  any-results_of :
      (text : McError → Bytes) (jobs : List Job) (rs : List ℕ)
      → any (fails text) (results_of jobs rs) ≡ any (λ i. fails_at text (get_elem? jobs i)) rs
  any-results_of text jobs [] = refl
  any-results_of text jobs (r ∷ rs) = elim (Option-cases (get_elem? jobs r)) [
    | inl e ↦ rw e (any-results_of text jobs rs)
    | inr (j, e) ↦ rw e (ground (arith, any-results_of text jobs rs))
  ]

  get_elem?-behind :
      (front : List Job) (j : Job) (js : List Job)
      → get_elem? (front ++ j ∷ js) (length front) ≡ some j
  get_elem?-behind [] j js = refl
  get_elem?-behind (i ∷ front) j js = get_elem?-behind front j js

  any-numbers_from :
      (text : McError → Bytes) (all front js : List Job) (k : ℕ)
      → all ≡ front ++ js
      → length front ≡ k
      → any (λ i. fails_at text (get_elem? all i)) (numbers_from k js)
        ≡ any (λ j. fails text (run_job o w j)) js
  any-numbers_from text all front [] k e l = refl
  any-numbers_from text all front (j ∷ js) k e l =
      let here : get_elem? all k ≡ some j = rw (e, sym l) (get_elem?-behind front j js) in
      let rest =
        any-numbers_from text all (front ++ j ∷ []) js (k + 1)
          (e ∙ sym (append_assoc front (j ∷ []) js))
          (omega (arith, length-append front (j ∷ []), l)) in
      rw here (ap (λ (b : Bool). fails text (run_job o w j) || b) rest)

  results_failed :
      (text : McError → Bytes) (jobs : List Job) (rs : List ℕ)
      → ((n : ℕ) → count n rs ≡ count_tasks n (tasks_from 0 jobs))
      → any (fails text) (results_of jobs rs) ≡ any (λ j. fails text (run_job o w j)) jobs
  results_failed text jobs rs h =
      any-results_of text jobs rs
      ∙ any-count (λ i. fails_at text (get_elem? jobs i)) rs (numbers_from 0 jobs)
          (λ n. h n ∙ count-tasks_from 0 n jobs)
      ∙ any-numbers_from text jobs [] jobs 0 refl refl

  -- Mirror reports an error exactly where an order has failed. Whatever turns the workers took, once
  -- the pool of one caller has stopped, and however the errors of the plan, in their order, and the
  -- results of the jobs, in the order in which the workers sent them, are interleaved in the status
  -- channel, with and without --skip-errors: what mirror returns is whether one of those errors, or
  -- the result of one of the queued jobs, is an error that is not ignored.
  pub mirror_outcome :
      (text : McError → Bytes) (skip : Bool) (sent : List Urls) (jobs : List Job) {m : ℕ}
      {p : Manager} {status : List Urls}
      → Reach m (tasks_from 0 jobs) p
      → p.caller ≡ stopped
      → Interleaves sent (results_of jobs p.results) status
      → monitor_mirror_status text skip status
        ≡ (any (fails text) sent || any (λ j. fails text (run_job o w j)) jobs)
  mirror_outcome text skip sent jobs {m} {p} {status} r s i =
      monitor-any text skip status
      ∙ any-Interleaves (fails text) i
      ∙ ap (λ (b : Bool). any (fails text) sent || b)
          (results_failed text jobs p.results (results_complete r s))
