-- ===== src/Tests/Pool.antt =====
-- Runs of the pool of workers.
use mc.Base.{ℕ, true, false, List, [], ◌∷◌, ◌≡◌, ◌≢◌, refl, arith, inl}
use mc.Parallel.System.{
  Task, Worker, waiting, running, sent, quit, Caller, ready, queueing, closing, stopped, Manager,
  worker_limit, add_worker, unlock, write_lock, here, begin, hand, finish, release, close, leave,
  stop, Work, work, grow, init, Reach, start, next,
}
use mc.Parallel.Counts.{reads, writes, held, reads_of, writes_of, count, count_tasks}
use mc.Parallel.Safety.{barrier_alone, results_complete, never_stuck}

abbrev removal : Task
removal = record { fn = 7; barrier = true }

abbrev tasks : List Task
tasks = removal ∷ []

abbrev free : mc.Parallel.System.RwMutex
free = record { readers = 0; writer = false }

abbrev pool : mc.Parallel.System.RwMutex → Worker → Caller → List Task → List ℕ → Manager
pool lock worker caller todo results = record {
  max_workers = 2;
  workers_num = 1;
  lock = lock;
  workers = worker ∷ [];
  caller = caller;
  todo = todo;
  results = results;
}

abbrev taken : mc.Parallel.System.RwMutex
taken = record { readers = 0; writer = true }

reach_grown : Reach 2 tasks (pool free waiting ready tasks [])
unfolding add_worker
reach_grown = next start grow

reach_running : Reach 2 tasks (pool taken (running removal) ready [] [])
reach_running =
    next (next reach_grown (work (begin false refl refl (write_lock refl refl))))
      (work (hand refl here))

reach_stopped : Reach 2 tasks (pool free quit stopped [] (7 ∷ []))
unfolding unlock
reach_stopped =
    next
      (next
        (next (next (next reach_running (work (finish here))) (work (release here)))
          (work (close refl refl)))
        (work (leave (inl refl) here)))
      (work (stop refl refl))

barrier_alone_example :
    (writes (running removal ∷ []) ≡ 1)
    × (reads (running removal ∷ []) ≡ 0)
    × (held reads_of ready ≡ 0)
    × (held writes_of ready ≡ 0)
barrier_alone_example = barrier_alone reach_running (omega arith)

results_complete_example : count 7 (7 ∷ []) ≡ count_tasks 7 tasks
results_complete_example = results_complete reach_stopped refl 7

ready-neq-stopped : ready ≢ stopped
ready-neq-stopped = λ e. cc

never_stuck_example : (q : Manager) × Work (pool taken (running removal) ready [] []) q
never_stuck_example = never_stuck reach_running ready-neq-stopped (omega arith)
