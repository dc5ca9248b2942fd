-- ===== src/Registry/Pool.antt =====
-- lib/concurrency/worker_pool.go, as Push and Pull of lib/registry/client.go use it: the caller
-- hands over its tasks one after the other and waits, and a task that fails stops the pool.
use makisu.Base.{ℕ, zero, suc, ◌+◌, Bool, true, false, ◌||◌, List, [], ◌∷◌, ◌++◌, ◌≡◌, ◌⊎◌}
pub mod Complete
pub mod Waits

-- `waiting` are the tasks that the caller has yet to hand over by Do, `idle` the workers in front
-- of their select; `finished` says of each task that ran whether it failed.
pub record WorkerPool (A : Type 0) : Type 0 where
  pub waiting : List A
  pub closed : Bool
  pub stopped : Bool
  pub idle : ℕ
  pub running : List A
  pub finished : List (A × Bool)

-- NewWorkerPool, with the tasks that the caller is going to hand over.
unfoldable pub new_worker_pool : {A : Type 0} → ℕ → List A → WorkerPool A
new_worker_pool threads tasks = record {
  waiting = tasks;
  closed = false;
  stopped = false;
  idle = threads;
  running = [];
  finished = [];
}

-- The channel `done` is closed: every worker has returned.
pub record AllReturned {A : Type 0} (p : WorkerPool A) : Type 0 where
  pub none_idle : p.idle ≡ 0
  pub none_running : p.running ≡ []

-- Wait returns.
pub record IsDone {A : Type 0} (p : WorkerPool A) : Type 0 where
  pub is_closed : p.closed ≡ true
  pub returned : AllReturned p

-- What may happen next, where `Runs t b` says that the task t may end, and b that it failed. Do
-- gives its task to a worker, or drops it where all have returned; Wait closes the channel of tasks;
-- a worker returns once the pool is stopped or the channel closed; a task ends.
pub data Step {A : Type 0} (Runs : A → Bool → Type 0) : WorkerPool A → WorkerPool A → Type 0 where
  hand_over :
      {p : WorkerPool A} (t : A) (rest : List A) (n : ℕ)
      → p.waiting ≡ t ∷ rest
      → p.idle ≡ suc n
      → Step Runs p (record p { waiting = rest; idle = n; running = t ∷ p.running })
  drop_task :
      {p : WorkerPool A} (t : A) (rest : List A)
      → p.waiting ≡ t ∷ rest
      → AllReturned p
      → Step Runs p (record p { waiting = rest })
  close :
      {p : WorkerPool A}
      → p.waiting ≡ []
      → p.closed ≡ false
      → Step Runs p (record p { closed = true })
  return :
      {p : WorkerPool A} (n : ℕ)
      → (p.closed || p.stopped) ≡ true
      → p.idle ≡ suc n
      → Step Runs p (record p { idle = n })
  finish :
      {p : WorkerPool A} (before after : List A) (t : A) (failed : Bool)
      → p.running ≡ before ++ t ∷ after
      → Runs t failed
      → Step Runs p (record p {
        running = before ++ after;
        idle = p.idle + 1;
        finished = (t, failed) ∷ p.finished;
        stopped = failed || p.stopped;
      })

pub data Reach {A : Type 0} (Runs : A → Bool → Type 0) (s : WorkerPool A)
    : WorkerPool A → Type 0 where
  here : Reach Runs s s
  next : {t u : WorkerPool A} → Reach Runs s t → Step Runs t u → Reach Runs s u
