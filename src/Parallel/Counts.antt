-- ===== src/Parallel/Counts.antt =====
-- Counts of the workers that run a task, and of tasks and results.
use mc.Base.{
  ℕ, ◌+◌, Bool, true, false, List, [], ◌∷◌, ◌++◌, ◌≡◌, refl, ◌==◌, if◌then◌else◌, length, arith,
}
use mc.Parallel.System.{
  Task, Worker, waiting, running, sent, quit, Caller, ready, queueing, stopped, Turn, here, there,
  all_quit,
}

abbrev pub one_if : Bool → ℕ
one_if true = 1
one_if false = 0

-- A task that holds the lock for reading, or for writing.
abbrev pub reads_of : Task → ℕ
reads_of t = if t.barrier then 0 else 1

abbrev pub writes_of : Task → ℕ
writes_of t = if t.barrier then 1 else 0

-- How much a worker and the caller count, by what a task counts at each place.
module _ (busy after : Task → ℕ) where
  abbrev pub weight : Worker → ℕ
  weight waiting = 0
  weight (running t) = busy t
  weight (sent t) = after t
  weight quit = 0

  abbrev pub total : List Worker → ℕ
  total [] = 0
  total (w ∷ ws) = weight w + total ws

  pub total-Turn :
      {old new : Worker} {ws vs : List Worker}
      → Turn old new ws vs
      → total ws + weight new ≡ total vs + weight old
  total-Turn here = omega arith
  total-Turn (there t) = omega (arith, total-Turn t)

abbrev pub held : (Task → ℕ) → Caller → ℕ
held busy (queueing t) = busy t
held busy _ = 0

-- How often a number stands among the results, or in a list of tasks.
abbrev pub count : ℕ → List ℕ → ℕ
count n [] = 0
count n (r ∷ rs) = one_if (r == n) + count n rs

pub count-append : (n r : ℕ) (rs : List ℕ) → count n (rs ++ r ∷ []) ≡ one_if (r == n) + count n rs
count-append n r [] = refl
count-append n r (q ∷ rs) = omega (arith, count-append n r rs)

abbrev pub is_task : ℕ → Task → ℕ
is_task n t = one_if (t.fn == n)

abbrev pub count_tasks : ℕ → List Task → ℕ
count_tasks n [] = 0
count_tasks n (t ∷ ts) = is_task n t + count_tasks n ts

abbrev pub nothing : Task → ℕ
nothing t = 0

-- The workers of a list that run a task or hold the lock.
abbrev pub reads : List Worker → ℕ
reads = total reads_of reads_of

abbrev pub writes : List Worker → ℕ
writes = total writes_of writes_of

abbrev pub unfinished : ℕ → List Worker → ℕ
unfinished n = total (is_task n) nothing

pub length-Turn :
    {old new : Worker} {ws vs : List Worker} → Turn old new ws vs → length ws ≡ length vs
length-Turn here = refl
length-Turn (there t) = omega (arith, length-Turn t)

abbrev pub is_open : Caller → Bool
is_open ready = true
is_open (queueing t) = true
is_open _ = false

abbrev pub is_stopped : Caller → Bool
is_stopped stopped = true
is_stopped _ = false

abbrev pub quits_of : Worker → ℕ
quits_of quit = 1
quits_of _ = 0

abbrev pub quits : List Worker → ℕ
quits [] = 0
quits (w ∷ ws) = quits_of w + quits ws

pub quits-Turn :
    {old new : Worker} {ws vs : List Worker}
    → Turn old new ws vs
    → quits ws + quits_of new ≡ quits vs + quits_of old
quits-Turn here = omega arith
quits-Turn (there t) = omega (arith, quits-Turn t)

pub total-all_quit : (n : ℕ) (ws : List Worker) → all_quit ws ≡ true → unfinished n ws ≡ 0
total-all_quit n [] h = refl
total-all_quit n (waiting ∷ ws) h = cc
total-all_quit n (running t ∷ ws) h = cc
total-all_quit n (sent t ∷ ws) h = cc
total-all_quit n (quit ∷ ws) h = omega (arith, total-all_quit n ws h)
