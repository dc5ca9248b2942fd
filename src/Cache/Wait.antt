-- ===== src/Cache/Wait.antt =====
-- What `WaitForPush` tells: no error means that every entry is in the key-value store.
use makisu.Base.{
  Bool, true, false, not, ◌||◌, Option, some, none, List, [], ◌∷◌, ◌++◌, ◌≡◌, refl, sym, ap, ◌∙◌,
  arith, Bytes, bytes_eq, codes, Dict, lookup, insert, lookup-insert, Bool-cases, Option-cases, inl,
  inr,
}
use makisu.Cache.{
  DigestPair, create_entry, cache_prefix, RegistryCacheManager, Remote, PushTask, Outcome,
  add_error, put_entry, run_push, push_cache, wait_for_push,
}
use makisu.Cache.Push.{Step, Reach, push, finish, here, next}

-- The map has the key.
abbrev pub has_key : Bytes → Dict Bytes → Bool
has_key k m = elim (lookup k m) [ none ↦ false | some _ ↦ true ]

abbrev key_of : PushTask → Bytes
key_of t = cache_prefix ++ t.cache_id

-- A push of the key is pending.
abbrev is_pending : Bytes → List PushTask → Bool
is_pending k [] = false
is_pending k (t ∷ ts) = bytes_eq (key_of t) k || is_pending k ts

abbrev has_failed : RegistryCacheManager → Bool
has_failed m = not (bytes_eq m.push_errors [])

-- The key is stored, or will be, or an error says that it is not.
abbrev is_settled : Bytes → RegistryCacheManager → Remote → Bool
is_settled k m r = has_failed m || has_key k r.kv_store || is_pending k m.pending

has_key-insert :
    (k j v : Bytes) (m : Dict Bytes) → has_key j (insert k v m) ≡ (bytes_eq k j || has_key j m)
has_key-insert k j v m = ground (arith, lookup-insert k j v m)

is_pending-append :
    (k : Bytes) (xs ys : List PushTask)
    → is_pending k (xs ++ ys) ≡ (is_pending k xs || is_pending k ys)
is_pending-append k [] ys = refl
is_pending-append k (x ∷ xs) ys = ground (arith, is_pending-append k xs ys)

abbrev is_empty_text : Bytes → Bool
is_empty_text e = bytes_eq e []

add_error-failed :
    (errors e : Bytes) → bytes_eq e [] ≡ false → bytes_eq (add_error errors e) [] ≡ false
unfolding add_error bytes_eq
add_error-failed [] e h = h
add_error-failed (c ∷ cs) e h = refl

or_settled : (a b c : Bool) → (a || b) ≡ true → (b ≡ true → c ≡ true) → (a || c) ≡ true
or_settled true b c h i = refl
or_settled false b c h i = i h

push_cache-mem :
    (m : RegistryCacheManager) (id : Bytes) (pair : Option DigestPair)
    → (push_cache m id pair).mem_kv_store
      ≡ insert (cache_prefix ++ id) (create_entry pair) m.mem_kv_store
unfolding push_cache
push_cache-mem m id pair = elim (Bool-cases m.has_registry) [
  | inl on ↦ rw on refl
  | inr off ↦ rw off refl
]

-- A pushed key is settled: it is pending, or no registry is there, which is an error.
settled_by_task :
    (k : Bytes) (m : RegistryCacheManager) (r : Remote) (t : PushTask)
    → (bytes_eq (key_of t) k || is_settled k m r) ≡ true
    → (has_failed m || has_key k r.kv_store || is_pending k (m.pending ++ t ∷ [])) ≡ true
settled_by_task k m r t h = rw (is_pending-append k m.pending (t ∷ [])) (ground (arith, h))

push_cache-settled :
    (k : Bytes) (m : RegistryCacheManager) (r : Remote) (id : Bytes) (pair : Option DigestPair)
    → (has_key k m.mem_kv_store ≡ true → is_settled k m r ≡ true)
    → has_key k (push_cache m id pair).mem_kv_store ≡ true
    → is_settled k (push_cache m id pair) r ≡ true
unfolding push_cache bytes_eq
push_cache-settled k m r id pair i h =
    let stored : (bytes_eq (cache_prefix ++ id) k || has_key k m.mem_kv_store) ≡ true =
      sym (has_key-insert (cache_prefix ++ id) k (create_entry pair) m.mem_kv_store)
      ∙ (rw (push_cache-mem m id pair) at h) in
    elim (Bool-cases m.has_registry) [
      | inr off ↦ rw off (
          rw
            (add_error-failed m.push_errors (codes "registry client not configured to push cache")
              refl)
            refl)
      | inl on ↦ rw on (
          settled_by_task k m r
            (record { cache_id = id; entry = create_entry pair; digest_pair = pair })
            (or_settled (bytes_eq (cache_prefix ++ id) k) (has_key k m.mem_kv_store)
              (is_settled k m r) stored i))
    ]

put_entry-settled :
    (k : Bytes) (t : PushTask) (put : Outcome) (m : RegistryCacheManager) (r : Remote)
    → (bytes_eq (key_of t) k || is_settled k m r) ≡ true
    → is_settled k (put_entry t put m r).0 (put_entry t put m r).1 ≡ true
unfolding put_entry bytes_eq
put_entry-settled k t none m r h =
    rw (has_key-insert (key_of t) k t.entry r.kv_store) (ground (arith, h))
put_entry-settled k t (some e) m r h = rw (add_error-failed m.push_errors _ refl) refl

run_push-settled :
    (k : Bytes) (t : PushTask) (pushed put : Outcome) (m : RegistryCacheManager) (r : Remote)
    → (bytes_eq (key_of t) k || is_settled k m r) ≡ true
    → is_settled k (run_push t pushed put m r).0 (run_push t pushed put m r).1 ≡ true
unfolding run_push bytes_eq
run_push-settled k t pushed put m r h = elim (Option-cases t.digest_pair) [
  | inl e ↦ rw e (put_entry-settled k t put m r h)
  | inr (p, e) ↦ elim (Option-cases pushed) [
    | inl f ↦
        rw (e, f)
          (put_entry-settled k t put m (record r { layers = p.gzip_descriptor.digest ∷ r.layers })
            h)
    | inr (x, f) ↦ rw (e, f) (rw (add_error-failed m.push_errors _ refl) refl)
  ]
]

put_entry-mem :
    (t : PushTask) (put : Outcome) (m : RegistryCacheManager) (r : Remote)
    → (put_entry t put m r).0.mem_kv_store ≡ m.mem_kv_store
unfolding put_entry
put_entry-mem t none m r = refl
put_entry-mem t (some e) m r = refl

run_push-mem :
    (t : PushTask) (pushed put : Outcome) (m : RegistryCacheManager) (r : Remote)
    → (run_push t pushed put m r).0.mem_kv_store ≡ m.mem_kv_store
unfolding run_push
run_push-mem t pushed put m r = elim (Option-cases t.digest_pair) [
  | inl e ↦ rw e (put_entry-mem t put m r)
  | inr (p, e) ↦ elim (Option-cases pushed) [
    | inl f ↦ rw (e, f) (put_entry-mem t put m _)
    | inr (x, f) ↦ rw (e, f) refl
  ]
]

-- Every key of the memory map is settled.
abbrev AllSettled : RegistryCacheManager × Remote → Type 0
AllSettled s = (k : Bytes) → has_key k s.0.mem_kv_store ≡ true → is_settled k s.0 s.1 ≡ true

-- Taking a task out of the pending ones leaves its key to it, and the others as they are.
without_task :
    (k : Bytes) (m : RegistryCacheManager) (r : Remote) (before after : List PushTask)
    (t : PushTask)
    → m.pending ≡ before ++ t ∷ after
    → is_settled k m r ≡ true
    → (bytes_eq (key_of t) k || is_settled k (record m { pending = before ++ after }) r) ≡ true
without_task k m r before after t e h =
    let all : is_pending k m.pending ≡ (is_pending k before || is_pending k (t ∷ after)) =
      ap (is_pending k) e ∙ is_pending-append k before (t ∷ after) in
    rw (is_pending-append k before after) (ground (arith, all, h))

Step-AllSettled : {s s' : RegistryCacheManager × Remote} → Step s s' → AllSettled s → AllSettled s'
Step-AllSettled (push {m} {r} id pair) i k h = push_cache-settled k m r id pair (i k) h
Step-AllSettled (finish {m} {r} before after t pushed put e) i k h =
    run_push-settled k t pushed put (record m { pending = before ++ after }) r
      (without_task k m r before after t e
        (i k (rw (run_push-mem t pushed put (record m { pending = before ++ after }) r) at h)))

Reach-AllSettled :
    {s s' : RegistryCacheManager × Remote} → Reach s s' → AllSettled s → AllSettled s'
Reach-AllSettled here i = i
Reach-AllSettled (next r st) i = Step-AllSettled st (Reach-AllSettled r i)

-- Start from a manager that has pushed nothing yet. Whatever is pushed, in whatever order the
-- background pushes end: once none is pending, if `WaitForPush` gives no error, then the key-value
-- store has every key that was pushed.
pub wait_for_push_complete :
    {m m' : RegistryCacheManager} {r r' : Remote} (k : Bytes)
    → m.mem_kv_store ≡ []
    → Reach (m, r) (m', r')
    → m'.pending ≡ []
    → wait_for_push m' ≡ none
    → has_key k m'.mem_kv_store ≡ true
    → has_key k r'.kv_store ≡ true
unfolding wait_for_push lookup
wait_for_push_complete {m} {m'} {r} {r'} k e reach done none_failed h =
    let settled : is_settled k m' r' ≡ true =
      Reach-AllSettled reach (λ j g. ground (arith, rw e at g)) k h in
    let no_error : bytes_eq m'.push_errors [] ≡ true = ground (arith, none_failed) in
    ground (arith, no_error, rw done at settled)
