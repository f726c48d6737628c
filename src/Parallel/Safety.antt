-- ===== src/Parallel/Safety.antt =====
-- What holds of the workers in every state that ParallelManager reaches.
use mc.Base.{
  ℕ, ◌+◌, ◌<◌, ◌≤◌, Bool, true, false, List, [], ◌∷◌, ◌≡◌, ◌≢◌, refl, length, arith, ◌⊎◌, inl, inr,
  ◌||◌,
}
use mc.Parallel.System.{
  Task, Worker, waiting, running, sent, quit, Caller, ready, queueing, closing, stopped, RwMutex,
  Manager, worker_limit, Locks, write_lock, read_lock, Turn, here, there, all_quit, Work, begin,
  hand, finish, release, close, leave, stop, Reach,
}
use mc.Parallel.Counts.{reads, writes, reads_of, writes_of, held, count, count_tasks, quits}
use mc.Parallel.Invariant.{IsManaged, Reach-IsManaged}

-- A task with a barrier runs alone: while a worker holds such a task, from its start until its lock
-- is released, it is the only one that holds a task, and the caller holds no lock for a next one.
pub barrier_alone :
    {m : ℕ} {tasks : List Task} {p : Manager}
    → Reach m tasks p
    → 0 < writes p.workers
    → (writes p.workers ≡ 1)
      × (reads p.workers ≡ 0)
      × (held reads_of p.caller ≡ 0)
      × (held writes_of p.caller ≡ 0)
barrier_alone r h = let i = Reach-IsManaged r in ground (arith, i.readers, i.writers, i.excluded)

-- There are never more workers than the limit, which is the one given or else 128.
pub workers_limited :
    {m : ℕ} {tasks : List Task} {p : Manager} → Reach m tasks p → length p.workers ≤ worker_limit m
workers_limited r = omega (arith, (Reach-IsManaged r).counted, (Reach-IsManaged r).limited)

-- When stopAndWait has returned, every task that was queued has been run and has sent its result
-- exactly as often as it was queued, and there is no other result.
pub results_complete :
    {m : ℕ} {tasks : List Task} {p : Manager}
    → Reach m tasks p
    → p.caller ≡ stopped
    → (n : ℕ) → count n p.results ≡ count_tasks n tasks
results_complete r s n =
    let i = Reach-IsManaged r in ground (arith, i.placed n, i.done n, i.none_left)

-- A worker of the list holds a task, and can go on with it.
data Busy (ws : List Worker) : Type 0 where
  runs : {vs : List Worker} (t : Task) → Turn (running t) (sent t) ws vs → Busy ws
  sends : {vs : List Worker} (t : Task) → Turn (sent t) waiting ws vs → Busy ws

Busy-there : {w : Worker} {ws : List Worker} → Busy ws → Busy (w ∷ ws)
Busy-there (runs t turn) = runs t (there turn)
Busy-there (sends t turn) = sends t (there turn)

Busy-cases : (ws : List Worker) → Busy ws ⊎ (reads ws + writes ws ≡ 0)
Busy-cases [] = inr refl
Busy-cases (running t ∷ ws) = inl (runs t here)
Busy-cases (sent t ∷ ws) = inl (sends t here)
Busy-cases (waiting ∷ ws) = elim (Busy-cases ws) [
  | inl b ↦ inl (Busy-there b)
  | inr e ↦ inr (omega (arith, e))
]
Busy-cases (quit ∷ ws) = elim (Busy-cases ws) [
  | inl b ↦ inl (Busy-there b)
  | inr e ↦ inr (omega (arith, e))
]

Busy-Work : {p : Manager} → Busy p.workers → (q : Manager) × Work p q
Busy-Work (runs t turn) = (_, finish turn)
Busy-Work (sends t turn) = (_, release turn)

task_counts : (t : Task) → reads_of t + writes_of t ≡ 1
task_counts t = ground arith

-- Of workers that are there, have not quit and hold nothing, the first waits.
first_waiting :
    (new : Worker) (ws : List Worker)
    → reads ws + writes ws ≡ 0
    → quits ws ≡ 0
    → 0 < length ws
    → (vs : List Worker) × Turn waiting new ws vs
first_waiting new [] e k h = absurd (omega arith)
first_waiting new (waiting ∷ ws) e k h = (_, here)
first_waiting new (running t ∷ ws) e k h = absurd (omega (arith, task_counts t))
first_waiting new (sent t ∷ ws) e k h = absurd (omega (arith, task_counts t))
first_waiting new (quit ∷ ws) e k h = absurd (omega arith)

waiting-cases :
    (ws : List Worker)
    → reads ws + writes ws ≡ 0
    → ((vs : List Worker) × Turn waiting quit ws vs) ⊎ (all_quit ws ≡ true)
waiting-cases [] e = inr refl
waiting-cases (waiting ∷ ws) e = inl (_, here)
waiting-cases (running t ∷ ws) e = absurd (omega (arith, task_counts t))
waiting-cases (sent t ∷ ws) e = absurd (omega (arith, task_counts t))
waiting-cases (quit ∷ ws) e = elim (waiting-cases ws (omega arith)) [
  | inl (vs, turn) ↦ inl (_, there turn)
  | inr all ↦ inr all
]

-- A free lock can be taken.
free_lock :
    (b : Bool) (l : RwMutex) → l.readers ≡ 0 → l.writer ≡ false → (k : RwMutex) × Locks b l k
free_lock true l r w = (_, write_lock r w)
free_lock false l r w = (_, read_lock w)

module _ {m : ℕ} {tasks : List Task} {p : Manager} (i : IsManaged m tasks p)
    (idle : reads p.workers + writes p.workers ≡ 0) where
  begin_free :
      (t : Task) (ts : List Task) → p.caller ≡ ready → p.todo ≡ t ∷ ts → (q : Manager) × Work p q
  begin_free t ts r d =
      let readers : p.lock.readers ≡ 0 = ground (arith, i.readers) in
      let writer : p.lock.writer ≡ false = ground (arith, i.writers) in
      (_, begin false r d (free_lock (t.barrier || false) p.lock readers writer).1)

  ready_goes_on : (todo : List Task) → p.caller ≡ ready → p.todo ≡ todo → (q : Manager) × Work p q
  ready_goes_on [] r d = (_, close r d)
  ready_goes_on (t ∷ ts) r d = begin_free t ts r d

  goes_on :
      (c : Caller) → p.caller ≡ c → c ≢ stopped → 0 < length p.workers → (q : Manager) × Work p q
  goes_on ready e n h = ready_goes_on p.todo e refl
  goes_on (queueing t) e n h =
      let none_quit : quits p.workers ≡ 0 = ground (arith, i.none_quit) in
      (_, hand e (first_waiting (running t) p.workers idle none_quit h).1)
  goes_on closing e n h = elim (waiting-cases p.workers idle) [
    | inl (vs, turn) ↦ (_, leave (inl e) turn)
    | inr all ↦ (_, stop e all)
  ]
  goes_on stopped e n h = absurd (n refl)

-- The pool is never stuck: with at least one worker, in every state that is reached before
-- stopAndWait has returned, the caller or some worker has a next step.
pub never_stuck :
    {m : ℕ} {tasks : List Task} {p : Manager}
    → Reach m tasks p
    → p.caller ≢ stopped
    → 0 < length p.workers
    → (q : Manager) × Work p q
never_stuck {p = p} r n h = elim (Busy-cases p.workers) [
  | inl busy ↦ Busy-Work busy
  | inr idle ↦ goes_on (Reach-IsManaged r) idle p.caller refl n h
]
