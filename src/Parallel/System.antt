-- ===== src/Parallel/System.antt =====
-- ParallelManager as a system of one caller, who queues tasks and then stops, and of workers, which
-- take turns in any order. A task is the number that its result bears. A second goroutine that queues
-- tasks at the same time, as watchMirror does beside startMirror, is not modelled.
use mc.Base.{
  ℕ, ◌+◌, ◌-◌, Bool, true, false, List, [], ◌∷◌, ◌++◌, ◌≡◌, ◌⊎◌, leb, ltb, ◌||◌, if◌then◌else◌,
}

-- A task, and whether it is queued with a barrier.
pub record Task : Type 0 where
  pub fn : ℕ
  pub barrier : Bool

-- Where a worker stands: it waits at the queue, runs a task, has sent the result and not yet
-- released the lock, or has quit.
pub data Worker : Type 0 where
  waiting : Worker
  running : Task → Worker
  sent : Task → Worker
  quit : Worker

-- Where the caller stands: between two tasks, with a task whose lock is taken and that is not yet
-- handed over, at the wait of stopAndWait, or behind it.
pub data Caller : Type 0 where
  ready : Caller
  queueing : Task → Caller
  closing : Caller
  stopped : Caller

-- barrierSync: how many hold it for reading, and whether it is held for writing.
pub record RwMutex : Type 0 where
  pub readers : ℕ
  pub writer : Bool

pub record Manager : Type 0 where
  pub max_workers : ℕ
  pub workers_num : ℕ
  pub lock : RwMutex
  pub workers : List Worker
  pub caller : Caller
  pub todo : List Task
  -- In the order in which they were sent.
  pub results : List ℕ

-- The limit on the workers, where 0 stands for the default.
abbrev pub worker_limit : ℕ → ℕ
worker_limit max_workers = if ltb 0 max_workers then max_workers else 128

-- addWorker
unfoldable pub add_worker : Manager → Manager
add_worker p =
    if leb (worker_limit p.max_workers) p.workers_num
    then p
    else record p { workers_num = p.workers_num + 1; workers = waiting ∷ p.workers }

-- Lock or RLock for a task, where the lock can be taken.
pub data Locks : Bool → RwMutex → RwMutex → Type 0 where
  write_lock :
      {l : RwMutex} → l.readers ≡ 0 → l.writer ≡ false → Locks true l (record l { writer = true })
  read_lock :
      {l : RwMutex} → l.writer ≡ false → Locks false l (record l { readers = l.readers + 1 })

-- Unlock or RUnlock.
unfoldable pub unlock : Bool → RwMutex → RwMutex
unlock true l = record l { writer = false }
unlock false l = record l { readers = l.readers - 1 }

-- One worker of the list goes over from one state to another.
pub data Turn (old new : Worker) : List Worker → List Worker → Type 0 where
  here : {ws : List Worker} → Turn old new (old ∷ ws) (new ∷ ws)
  there : {w : Worker} {ws vs : List Worker} → Turn old new ws vs → Turn old new (w ∷ ws) (w ∷ vs)

abbrev pub all_quit : List Worker → Bool
all_quit [] = true
all_quit (quit ∷ ws) = all_quit ws
all_quit (_ ∷ ws) = false

-- What the caller and the workers do. The memory that is left decides whether a task without a
-- barrier gets one, which is left open here.
pub data Work (p : Manager) : Manager → Type 0 where
  begin :
      {t : Task} {ts : List Task} {l : RwMutex} (short : Bool)
      → p.caller ≡ ready
      → p.todo ≡ t ∷ ts
      → Locks (t.barrier || short) p.lock l
      → Work p (record p {
        lock = l;
        caller = queueing (record { fn = t.fn; barrier = t.barrier || short });
        todo = ts;
      })
  hand :
      {t : Task} {ws : List Worker}
      → p.caller ≡ queueing t
      → Turn waiting (running t) p.workers ws
      → Work p (record p { caller = ready; workers = ws })
  finish :
      {t : Task} {ws : List Worker}
      → Turn (running t) (sent t) p.workers ws
      → Work p (record p { workers = ws; results = p.results ++ t.fn ∷ [] })
  release :
      {t : Task} {ws : List Worker}
      → Turn (sent t) waiting p.workers ws
      → Work p (record p { workers = ws; lock = unlock t.barrier p.lock })
  close : p.caller ≡ ready → p.todo ≡ [] → Work p (record p { caller = closing })
  leave :
      {ws : List Worker}
      → (p.caller ≡ closing) ⊎ (p.caller ≡ stopped)
      → Turn waiting quit p.workers ws
      → Work p (record p { workers = ws })
  stop : p.caller ≡ closing → all_quit p.workers ≡ true → Work p (record p { caller = stopped })

-- A step: of the caller or a worker, or the monitor adds a worker.
pub data Step (p : Manager) : Manager → Type 0 where
  work : {q : Manager} → Work p q → Step p q
  grow : Step p (add_worker p)

-- newParallelManager, before it adds its first workers, and the tasks that will be queued.
abbrev pub init : ℕ → List Task → Manager
init max_workers tasks = record {
  max_workers = max_workers;
  workers_num = 0;
  lock = record { readers = 0; writer = false };
  workers = [];
  caller = ready;
  todo = tasks;
  results = [];
}

-- The first workers, one for each processor, are added by steps as the later ones are.
pub data Reach (max_workers : ℕ) (tasks : List Task) : Manager → Type 0 where
  start : Reach max_workers tasks (init max_workers tasks)
  next : {p q : Manager} → Reach max_workers tasks p → Step p q → Reach max_workers tasks q
