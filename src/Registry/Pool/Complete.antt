-- ===== src/Registry/Pool/Complete.antt =====
-- A pool that collects no error has run all of its tasks.
use makisu.Base.{
  ℕ, ◌+◌, ◌<◌, Bool, true, false, ◌||◌, List, [], ◌∷◌, ◌++◌, ◌≡◌, refl, ◌⊎◌, inl, inr, length,
  length-append, arith, Bool-cases, All, ap,
}
use makisu.Registry.Pool.{
  WorkerPool, new_worker_pool, IsDone, Step, hand_over, drop_task, close, return, finish, Reach,
  here, next,
}

pub data In {A : Type 0} (x : A) : List A → Type 0 where
  first : {xs : List A} → In x (x ∷ xs)
  later : {y : A} {xs : List A} → In x xs → In x (y ∷ xs)

In-split :
    {A : Type 0} {x : A} (before after : List A) (y : A)
    → In x (before ++ y ∷ after)
    → (x ≡ y) ⊎ In x (before ++ after)
In-split [] after y first = inl refl
In-split [] after y (later m) = inr m
In-split (z ∷ before) after y first = inr first
In-split (z ∷ before) after y (later m) = elim (In-split before after y m) [
  | inl e ↦ inl e
  | inr n ↦ inr (later n)
]

In-nil : {A : Type 0} {x : A} → In x [] → ⊥
In-nil m = elim m [ ]

All-In : {A : Type 0} (P : A → Type 0) {x : A} (xs : List A) → All P xs → In x xs → P x
All-In P [] h m = elim m [ ]
All-In P (x ∷ xs) h first = h.0
All-In P (x ∷ xs) h (later m) = All-In P xs h.1 m

-- `multiError.Collect() != nil`.
unfoldable pub any_failed : {A : Type 0} → List (A × Bool) → Bool
any_failed [] = false
any_failed ((t, failed) ∷ rest) = failed || any_failed rest

left_false : (a b : Bool) → a || b ≡ false → a ≡ false
left_false a b h = ground arith

right_false : (a b : Bool) → a || b ≡ false → b ≡ false
right_false a b h = ground arith

module _ {A : Type 0} (Runs : A → Bool → Type 0) (threads : ℕ) (tasks : List A) where
  -- Where a task is while nothing has failed.
  abbrev Place : A → WorkerPool A → Type 0
  Place t p = In t p.waiting ⊎ (In t p.running ⊎ In (t, false) p.finished)

  record Inv (p : WorkerPool A) : Type 0 where
    blamed : p.stopped ≡ true → any_failed p.finished ≡ true
    workers : p.stopped ≡ false → p.closed ≡ false → p.idle + length p.running ≡ threads
    handed_over : p.closed ≡ true → p.waiting ≡ []
    placed : p.stopped ≡ false → (t : A) → In t tasks → Place t p
    ran : All (λ (r : A × Bool). Runs r.0 r.1) p.finished

  start-Inv : Inv (new_worker_pool threads tasks)
  unfolding any_failed new_worker_pool
  start-Inv = record {
    blamed = λ h. cc;
    workers = λ h k. omega arith;
    handed_over = λ h. cc;
    placed = λ h t m. inl m;
    ran = tt;
  }

  Step-Inv : 0 < threads → {p q : WorkerPool A} → Step Runs p q → Inv p → Inv q
  unfolding any_failed
  Step-Inv pos (hand_over {p} t rest n w i) v = record {
    blamed = v.blamed;
    workers = λ h k. omega (arith, v.workers h k);
    handed_over = λ h. let x = v.handed_over h in cc;
    placed = λ h u m. elim (v.placed h u m) [
      | inl a ↦ elim (In-split [] rest t (rw w at a)) [
        | inl e ↦ inr (inl (rw e first))
        | inr b ↦ inl b
      ]
      | inr (inl a) ↦ inr (inl (later a))
      | inr (inr a) ↦ inr (inr a)
    ];
    ran = v.ran;
  }
  Step-Inv pos (drop_task {p} t rest w r) v = record {
    blamed = v.blamed;
    workers = v.workers;
    handed_over = λ h. let x = v.handed_over h in cc;
    placed = λ h u m. elim (Bool-cases p.closed) [
      | inl k ↦ let x = v.handed_over k in cc
      | inr k ↦ absurd (omega (arith, v.workers h k, r.none_idle, ap length r.none_running))
    ];
    ran = v.ran;
  }
  Step-Inv pos (close w c) v = record {
    blamed = v.blamed;
    workers = λ h k. cc;
    handed_over = λ h. w;
    placed = v.placed;
    ran = v.ran;
  }
  Step-Inv pos (return {p} n c i) v = record {
    blamed = v.blamed;
    workers = λ h k. let x : p.closed || p.stopped ≡ false = rw (h, k) in cc;
    handed_over = v.handed_over;
    placed = v.placed;
    ran = v.ran;
  }
  Step-Inv pos (finish {p} before after t failed r h) v = record {
    blamed = λ s. ground (arith, v.blamed);
    workers = λ s k. omega (
      arith,
      v.workers (right_false failed p.stopped s) k,
      length-append before after,
      length-append before (t ∷ after),
      ap length r,
    );
    handed_over = v.handed_over;
    placed = λ s u m. elim (v.placed (right_false failed p.stopped s) u m) [
      | inl a ↦ inl a
      | inr (inl a) ↦ elim (In-split before after t (rw r at a)) [
        | inl e ↦ inr (inr (rw (e, left_false failed p.stopped s) first))
        | inr b ↦ inr (inl b)
      ]
      | inr (inr a) ↦ inr (inr (later a))
    ];
    ran = (h, v.ran);
  }

  Reach-Inv :
      0 < threads → {p : WorkerPool A} → Reach Runs (new_worker_pool threads tasks) p → Inv p
  Reach-Inv pos here = start-Inv
  Reach-Inv pos (next r st) = Step-Inv pos st (Reach-Inv pos r)

  -- With at least one worker: if Wait returns and no task has failed, every task has run, and has
  -- not failed, in whatever order the workers took and ended them.
  pub IsDone_complete :
      0 < threads
      → {p : WorkerPool A} → Reach Runs (new_worker_pool threads tasks) p
      → IsDone p
      → any_failed p.finished ≡ false
      → (t : A) → In t tasks
      → Runs t false
  IsDone_complete pos {p} reach d clean t m =
      let v = Reach-Inv pos reach in
      let going : p.stopped ≡ false = (elim (Bool-cases p.stopped) [
        | inl s ↦ let x = v.blamed s in cc
        | inr s ↦ s
      ]) in
      elim (v.placed going t m) [
        | inl a ↦ absurd (In-nil (rw (v.handed_over d.is_closed) at a))
        | inr (inl a) ↦ absurd (In-nil (rw d.returned.none_running at a))
        | inr (inr a) ↦ All-In (λ (r : A × Bool). Runs r.0 r.1) p.finished v.ran a
      ]
