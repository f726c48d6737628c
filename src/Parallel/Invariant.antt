-- ===== src/Parallel/Invariant.antt =====
-- The invariant of the system of workers.
use mc.Base.{
  ◌++◌, ℕ, ◌+◌, ◌≤◌, Bool, true, false, List, [], ◌∷◌, ◌≡◌, refl, leb, ◌||◌, if◌then◌else◌, length,
  arith, Bool-cases, ◌⊎◌, inl, inr,
}
use mc.Parallel.System.{
  Task, Worker, waiting, running, sent, quit, ready, queueing, closing, stopped, RwMutex, Manager,
  worker_limit, add_worker, Locks, write_lock, read_lock, unlock, Turn, all_quit, Work, begin, hand,
  finish, release, close, leave, stop, Step, work, grow, init, Reach, start, next,
}
use mc.Parallel.Counts.{
  count-append, one_if, reads_of, writes_of, total-Turn, total-Turn, held, count, is_task,
  count_tasks, nothing, reads, writes, unfinished, length-Turn, length-Turn, is_open, is_open,
  is_stopped, quits, quits, quits-Turn, quits-Turn, total-all_quit,
}

-- The lock counts those that hold it; a writer excludes readers; each task stands at one place; the
-- workers are counted; nobody quits before the queue is closed, which needs that no task is left; behind stopAndWait nothing runs.
pub record IsManaged (max_workers : ℕ) (tasks : List Task) (p : Manager) : Type 0 where
  pub readers : p.lock.readers ≡ reads p.workers + held reads_of p.caller
  pub writers : one_if p.lock.writer ≡ writes p.workers + held writes_of p.caller
  pub excluded : (p.lock.writer ≡ false) ⊎ (p.lock.readers ≡ 0)
  pub placed :
      (n : ℕ)
      → count n p.results
          + unfinished n p.workers
          + held (is_task n) p.caller
          + count_tasks n p.todo
        ≡ count_tasks n tasks
  pub counted : p.workers_num ≡ length p.workers
  pub limit : p.max_workers ≡ max_workers
  pub limited : p.workers_num ≤ worker_limit max_workers
  pub none_quit : (is_open p.caller ≡ false) ⊎ (quits p.workers ≡ 0)
  pub none_left : (is_open p.caller ≡ true) ⊎ (p.todo ≡ [])
  pub done : (n : ℕ) → (is_stopped p.caller ≡ false) ⊎ (unfinished n p.workers ≡ 0)

init-IsManaged : (m : ℕ) (tasks : List Task) → IsManaged m tasks (init m tasks)
init-IsManaged m tasks = record {
  readers = refl;
  writers = refl;
  excluded = inl refl;
  placed = λ n. omega arith;
  counted = refl;
  limit = refl;
  limited = omega arith;
  none_quit = inr refl;
  none_left = inl refl;
  done = λ n. inl refl;
}

-- What taking and releasing the lock does to its counts.
Locks-counts :
    {b : Bool} {l k : RwMutex}
    → Locks b l k
    → (k.readers ≡ l.readers + (if b then 0 else 1))
      × (one_if k.writer ≡ one_if l.writer + (if b then 1 else 0))
      × ((k.writer ≡ false) ⊎ (k.readers ≡ 0))
Locks-counts (write_lock r w) = ground arith
Locks-counts (read_lock w) = ground arith

module _ {m : ℕ} {tasks : List Task} {p : Manager} (i : IsManaged m tasks p) where
  add_worker-IsManaged : IsManaged m tasks (add_worker p)
  unfolding add_worker
  add_worker-IsManaged = elim (Bool-cases (leb (worker_limit p.max_workers) p.workers_num)) [
    | inl full ↦ rw full i
    | inr free ↦ rw free (record {
      readers = omega (arith, i.readers);
      writers = omega (arith, i.writers);
      excluded = i.excluded;
      placed = λ n. omega (arith, i.placed n);
      counted = omega (arith, i.counted);
      limit = i.limit;
      limited = ground (arith, i.limit);
      none_quit = ground (arith, i.none_quit);
      none_left = i.none_left;
      done = λ n. ground (arith, i.done n);
    })
  ]

  begin-IsManaged :
      {t : Task} {ts : List Task} {l : RwMutex} (short : Bool)
      → p.caller ≡ ready
      → p.todo ≡ t ∷ ts
      → Locks (t.barrier || short) p.lock l
      → IsManaged m tasks (record p {
        lock = l;
        caller = queueing (record { fn = t.fn; barrier = t.barrier || short });
        todo = ts;
      })
  begin-IsManaged {t} {ts} short r d locks =
      let (more, writer, alone) = Locks-counts locks in
      record {
        readers = ground (arith, i.readers);
        writers = ground (arith, i.writers);
        excluded = alone;
        placed = λ n. ground (arith, i.placed n);
        counted = i.counted;
        limit = i.limit;
        limited = i.limited;
        none_quit = ground (arith, i.none_quit);
        none_left = inl refl;
        done = λ n. inl refl;
      }

  hand-IsManaged :
      {t : Task} {ws : List Worker}
      → p.caller ≡ queueing t
      → Turn waiting (running t) p.workers ws
      → IsManaged m tasks (record p { caller = ready; workers = ws })
  hand-IsManaged {t} q turn = record {
    readers = ground (arith, i.readers, total-Turn reads_of reads_of turn);
    writers = ground (arith, i.writers, total-Turn writes_of writes_of turn);
    excluded = i.excluded;
    placed = λ n. ground (arith, i.placed n, total-Turn (is_task n) nothing turn);
    counted = omega (arith, i.counted, length-Turn turn);
    limit = i.limit;
    limited = i.limited;
    none_quit = ground (arith, i.none_quit, quits-Turn turn);
    none_left = inl refl;
    done = λ n. inl refl;
  }

  finish-IsManaged :
      {t : Task} {ws : List Worker}
      → Turn (running t) (sent t) p.workers ws
      → IsManaged m tasks (record p { workers = ws; results = p.results ++ t.fn ∷ [] })
  finish-IsManaged {t} turn = record {
    readers = omega (arith, i.readers, total-Turn reads_of reads_of turn);
    writers = omega (arith, i.writers, total-Turn writes_of writes_of turn);
    excluded = i.excluded;
    placed = λ n.
        omega
          (arith, i.placed n, total-Turn (is_task n) nothing turn, count-append n t.fn p.results);
    counted = omega (arith, i.counted, length-Turn turn);
    limit = i.limit;
    limited = i.limited;
    none_quit = ground (arith, i.none_quit, quits-Turn turn);
    none_left = i.none_left;
    done = λ n. ground (arith, i.done n, total-Turn (is_task n) nothing turn);
  }

  release-IsManaged :
      {t : Task} {ws : List Worker}
      → Turn (sent t) waiting p.workers ws
      → IsManaged m tasks (record p { workers = ws; lock = unlock t.barrier p.lock })
  unfolding unlock
  release-IsManaged {t} turn =
      let reading = total-Turn reads_of reads_of turn in
      let writing = total-Turn writes_of writes_of turn in
      record {
        readers = ground (arith, i.readers);
        writers = ground (arith, i.writers);
        excluded = ground (arith, i.excluded);
        placed = λ n. omega (arith, i.placed n, total-Turn (is_task n) nothing turn);
        counted = omega (arith, i.counted, length-Turn turn);
        limit = i.limit;
        limited = i.limited;
        none_quit = ground (arith, i.none_quit, quits-Turn turn);
        none_left = i.none_left;
        done = λ n. ground (arith, i.done n, total-Turn (is_task n) nothing turn);
      }

  close-IsManaged :
      p.caller ≡ ready → p.todo ≡ [] → IsManaged m tasks (record p { caller = closing })
  close-IsManaged r d = record {
    readers = ground (arith, i.readers);
    writers = ground (arith, i.writers);
    excluded = i.excluded;
    placed = λ n. ground (arith, i.placed n);
    counted = i.counted;
    limit = i.limit;
    limited = i.limited;
    none_quit = inl refl;
    none_left = inr d;
    done = λ n. inl refl;
  }

  leave-IsManaged :
      {ws : List Worker}
      → (p.caller ≡ closing) ⊎ (p.caller ≡ stopped)
      → Turn waiting quit p.workers ws
      → IsManaged m tasks (record p { workers = ws })
  leave-IsManaged c turn = record {
    readers = omega (arith, i.readers, total-Turn reads_of reads_of turn);
    writers = omega (arith, i.writers, total-Turn writes_of writes_of turn);
    excluded = i.excluded;
    placed = λ n. omega (arith, i.placed n, total-Turn (is_task n) nothing turn);
    counted = omega (arith, i.counted, length-Turn turn);
    limit = i.limit;
    limited = i.limited;
    none_quit = ground arith;
    none_left = i.none_left;
    done = λ n. ground (arith, i.done n, total-Turn (is_task n) nothing turn);
  }

  stop-IsManaged :
      p.caller ≡ closing
      → all_quit p.workers ≡ true
      → IsManaged m tasks (record p { caller = stopped })
  stop-IsManaged c a = record {
    readers = ground (arith, i.readers);
    writers = ground (arith, i.writers);
    excluded = i.excluded;
    placed = λ n. ground (arith, i.placed n);
    counted = i.counted;
    limit = i.limit;
    limited = i.limited;
    none_quit = inl refl;
    none_left = ground (arith, i.none_left);
    done = λ n. inr (total-all_quit n p.workers a);
  }

  Work-IsManaged : {q : Manager} → Work p q → IsManaged m tasks q
  Work-IsManaged (begin short r d l) = begin-IsManaged short r d l
  Work-IsManaged (hand q t) = hand-IsManaged q t
  Work-IsManaged (finish t) = finish-IsManaged t
  Work-IsManaged (release t) = release-IsManaged t
  Work-IsManaged (close r d) = close-IsManaged r d
  Work-IsManaged (leave c t) = leave-IsManaged c t
  Work-IsManaged (stop c a) = stop-IsManaged c a

Step-IsManaged :
    {m : ℕ} {tasks : List Task} {p q : Manager}
    → Step p q
    → IsManaged m tasks p
    → IsManaged m tasks q
Step-IsManaged (work s) i = Work-IsManaged i s
Step-IsManaged grow i = add_worker-IsManaged i

-- The invariant holds in every state that the system reaches.
pub Reach-IsManaged :
    {m : ℕ} {tasks : List Task} {p : Manager} → Reach m tasks p → IsManaged m tasks p
Reach-IsManaged {m} {tasks} start = init-IsManaged m tasks
Reach-IsManaged (next r s) = Step-IsManaged s (Reach-IsManaged r)
