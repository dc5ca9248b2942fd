-- ===== src/Registry/Pool/Waits.antt =====
-- Wait returns.
use makisu.Base.{
  ℕ, zero, suc, ◌+◌, ◌*◌, ◌<◌, Bool, true, false, List, [], ◌∷◌, ◌≡◌, refl, ◌⊎◌, inl, inr, length,
  length-append, arith, Bool-cases,
}
use makisu.Registry.Pool.{
  WorkerPool, new_worker_pool, AllReturned, IsDone, Step, hand_over, drop_task, close, return,
  finish,
}

List-cases : {A : Type 0} (xs : List A) → (xs ≡ []) ⊎ ((x : A) × (rest : List A) × (xs ≡ x ∷ rest))
List-cases [] = inl refl
List-cases (x ∷ xs) = inr (x, xs, refl)

ℕ-cases : (n : ℕ) → (n ≡ 0) ⊎ ((k : ℕ) × (n ≡ suc k))
ℕ-cases zero = inl refl
ℕ-cases (suc n) = inr (n, refl)

-- However the steps follow, the pool comes to a state where Wait returns, and until then there is
-- a next step.
pub data Inevitable {A : Type 0} (Runs : A → Bool → Type 0) : WorkerPool A → Type 0 where
  done : {p : WorkerPool A} → IsDone p → Inevitable Runs p
  go_on :
      {p : WorkerPool A} (q : WorkerPool A)
      → Step Runs p q
      → ((r : WorkerPool A) → Step Runs p r → Inevitable Runs r)
      → Inevitable Runs p

abbrev open_channel : Bool → ℕ
open_channel true = 0
open_channel false = 1

measure : {A : Type 0} → WorkerPool A → ℕ
measure p = 3 * length p.waiting + 2 * length p.running + p.idle + open_channel p.closed

module _ {A : Type 0} (Runs : A → Bool → Type 0) where
  Step-measure : {p q : WorkerPool A} → Step Runs p q → measure q < measure p
  unfolding measure
  Step-measure (hand_over t rest n w i) = rw (w, i) (omega arith)
  Step-measure (drop_task t rest w r) = rw w (omega arith)
  Step-measure (close w c) = rw c (omega arith)
  Step-measure (return n c i) = rw i (omega arith)
  Step-measure (finish before after t failed r h) =
      rw r (omega (arith, length-append before after, length-append before (t ∷ after)))

  module _ (ends : (t : A) → (failed : Bool) × Runs t failed) where
    -- A task that runs may end.
    finishing :
        (p : WorkerPool A) (t : A) (rest : List A)
        → p.running ≡ t ∷ rest
        → (q : WorkerPool A) × Step Runs p q
    finishing p t rest r = (_, finish [] rest t (ends t).0 r (ends t).1)

    -- Nothing runs, no worker is idle.
    returned : (p : WorkerPool A) → AllReturned p → IsDone p ⊎ ((q : WorkerPool A) × Step Runs p q)
    returned p r = elim (List-cases p.waiting) [
      | inr (t, rest, w) ↦ inr (_, drop_task t rest w r)
      | inl w ↦ elim (Bool-cases p.closed) [
        | inl c ↦ inl (record { is_closed = c; returned = r })
        | inr c ↦ inr (_, close w c)
      ]
    ]

    -- A worker is idle.
    idling : (p : WorkerPool A) (n : ℕ) → p.idle ≡ suc n → (q : WorkerPool A) × Step Runs p q
    idling p n i = elim (List-cases p.waiting) [
      | inr (t, rest, w) ↦ (_, hand_over t rest n w i)
      | inl w ↦ elim (Bool-cases p.closed) [
        | inl c ↦ (_, return n (ground arith) i)
        | inr c ↦ (_, close w c)
      ]
    ]

    progress : (p : WorkerPool A) → IsDone p ⊎ ((q : WorkerPool A) × Step Runs p q)
    progress p = elim (List-cases p.running) [
      | inr (t, rest, r) ↦ inr (finishing p t rest r)
      | inl r ↦ elim (ℕ-cases p.idle) [
        | inr (n, i) ↦ inr (idling p n i)
        | inl i ↦ returned p (record { none_idle = i; none_running = r })
      ]
    ]

    within : (n : ℕ) (p : WorkerPool A) → measure p < n → Inevitable Runs p
    within zero p m = absurd (omega arith)
    within (suc n) p m = elim (progress p) [
      | inl d ↦ done d
      | inr (q, st) ↦ go_on q st λ r s. within n r (omega (arith, Step-measure s))
    ]

    -- If every task ends, with an error or without one: in whatever order the workers take and end
    -- the tasks, and wherever the pool is stopped, Wait returns after finitely many steps, and until
    -- then the pool is never stuck.
    pub new_worker_pool-Inevitable :
        (threads : ℕ) (tasks : List A) → Inevitable Runs (new_worker_pool threads tasks)
    new_worker_pool-Inevitable threads tasks =
        within (suc (measure (new_worker_pool threads tasks))) _ (omega arith)
