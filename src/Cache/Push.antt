-- ===== src/Cache/Push.antt =====
-- Pushes in the background, in any order: an entry is stored remotely only behind its layer.
use makisu.Base.{
  Option, some, none, List, [], ◌∷◌, ◌++◌, ◌≡◌, refl, ap, ◌∙◌, arith, Bytes, bytes_eq, lookup,
  insert, lookup-insert, Bool-cases, Option-cases, inl, inr, All,
}
use makisu.Cache.{
  DigestPair, create_entry, cache_prefix, RegistryCacheManager, Remote, PushTask, Outcome,
  put_entry, run_push, push_cache,
}

-- What the environment may do: a push of the builder, or a pending push that runs to its end.
pub data Step : RegistryCacheManager × Remote → RegistryCacheManager × Remote → Type 0 where
  push :
      {m : RegistryCacheManager} {r : Remote} (id : Bytes) (pair : Option DigestPair)
      → Step (m, r) (push_cache m id pair, r)
  finish :
      {m : RegistryCacheManager} {r : Remote} (before after : List PushTask) (t : PushTask)
      (pushed put : Outcome)
      → m.pending ≡ before ++ t ∷ after
      → Step (m, r) (run_push t pushed put (record m { pending = before ++ after }) r)

pub data Reach (s : RegistryCacheManager × Remote) : RegistryCacheManager × Remote → Type 0 where
  here : Reach s s
  next : {t u : RegistryCacheManager × Remote} → Reach s t → Step t u → Reach s u

-- The layer is among those of the registry.
pub data IsPushed (d : Bytes) : List Bytes → Type 0 where
  first : {ds : List Bytes} → IsPushed d (d ∷ ds)
  later : {e : Bytes} {ds : List Bytes} → IsPushed d ds → IsPushed d (e ∷ ds)

-- The entry marks an empty layer, or a layer that the registry has.
pub data IsBacked (layers : List Bytes) (entry : Bytes) : Type 0 where
  empty : entry ≡ create_entry none → IsBacked layers entry
  layer :
      (p : DigestPair)
      → entry ≡ create_entry (some p)
      → IsPushed p.gzip_descriptor.digest layers
      → IsBacked layers entry

-- Every entry of the store is backed.
abbrev pub StoreIsBacked : Remote → Type 0
StoreIsBacked r = (key entry : Bytes) → lookup key r.kv_store ≡ some entry → IsBacked r.layers entry

abbrev IsTask : PushTask → Type 0
IsTask t = t.entry ≡ create_entry t.digest_pair

record Inv (s : RegistryCacheManager × Remote) : Type 0 where
  tasks : All IsTask s.0.pending
  backed : StoreIsBacked s.1

-- The tasks with one more, and without one of them.
All-snoc :
    (ts : List PushTask) (t : PushTask) → All IsTask ts → IsTask t → All IsTask (ts ++ t ∷ [])
All-snoc [] t h p = (p, tt)
All-snoc (x ∷ ts) t h p = (h.0, All-snoc ts t h.1 p)

All-split :
    (before after : List PushTask) (t : PushTask)
    → All IsTask (before ++ t ∷ after)
    → IsTask t × All IsTask (before ++ after)
All-split [] after t h = (h.0, h.1)
All-split (x ∷ before) after t h =
    let rest = All-split before after t h.1 in (rest.0, (h.0, rest.1))

IsBacked-more :
    {layers : List Bytes} {entry : Bytes} (d : Bytes)
    → IsBacked layers entry
    → IsBacked (d ∷ layers) entry
IsBacked-more d (empty e) = empty e
IsBacked-more d (layer p e h) = layer p e (later h)

-- A store with one more entry, which is backed.
insert-IsBacked :
    (r : Remote) (k v : Bytes)
    → StoreIsBacked r
    → IsBacked r.layers v
    → StoreIsBacked (record r { kv_store = insert k v r.kv_store })
insert-IsBacked r k v h b key entry e = elim (Bool-cases (bytes_eq k key)) [
  | inl same ↦
      let is_v : v ≡ entry = ground (arith, lookup-insert k key v r.kv_store) in rw (← is_v) b
  | inr other ↦ h key entry (ground (arith, lookup-insert k key v r.kv_store))
]

push_cache-tasks :
    (m : RegistryCacheManager) (id : Bytes) (pair : Option DigestPair)
    → All IsTask m.pending
    → All IsTask (push_cache m id pair).pending
unfolding push_cache
push_cache-tasks m id pair h = elim (Bool-cases m.has_registry) [
  | inl on ↦ rw on (
      All-snoc m.pending (record { cache_id = id; entry = create_entry pair; digest_pair = pair }) h
        refl)
  | inr off ↦ rw off h
]

run_push-pending :
    (t : PushTask) (pushed put : Outcome) (m : RegistryCacheManager) (r : Remote)
    → (run_push t pushed put m r).0.pending ≡ m.pending
unfolding run_push
run_push-pending t pushed put m r = ground arith

-- Storing the entry of a task behind its layer.
stored-IsBacked :
    (t : PushTask) (r : Remote)
    → StoreIsBacked r
    → IsBacked r.layers t.entry
    → StoreIsBacked (record r { kv_store = insert (cache_prefix ++ t.cache_id) t.entry r.kv_store })
stored-IsBacked t r h b = insert-IsBacked r (cache_prefix ++ t.cache_id) t.entry h b

put_entry-IsBacked :
    (t : PushTask) (put : Outcome) (m : RegistryCacheManager) (r : Remote)
    → StoreIsBacked r
    → IsBacked r.layers t.entry
    → StoreIsBacked (put_entry t put m r).1
unfolding put_entry
put_entry-IsBacked t (some e) m r h b = h
put_entry-IsBacked t none m r h b = stored-IsBacked t r h b

run_push-IsBacked :
    (t : PushTask) (pushed put : Outcome) (m : RegistryCacheManager) (r : Remote)
    → IsTask t
    → StoreIsBacked r
    → StoreIsBacked (run_push t pushed put m r).1
unfolding run_push
run_push-IsBacked t (some e) put m r h b = elim (Option-cases t.digest_pair) [
  | inl bare ↦ rw bare (put_entry-IsBacked t put m r b (empty (h ∙ ap create_entry bare)))
  | inr (p, is) ↦ rw is b
]
run_push-IsBacked t none put m r h b = elim (Option-cases t.digest_pair) [
  | inl bare ↦ rw bare (put_entry-IsBacked t put m r b (empty (h ∙ ap create_entry bare)))
  | inr (p, is) ↦ rw is (
      put_entry-IsBacked t put m (record r { layers = p.gzip_descriptor.digest ∷ r.layers })
        (λ key entry e. IsBacked-more p.gzip_descriptor.digest (b key entry e))
        (layer p (h ∙ ap create_entry is) first))
]

Step-Inv : {s s' : RegistryCacheManager × Remote} → Step s s' → Inv s → Inv s'
Step-Inv (push {m} {r} id pair) h = record {
  tasks = push_cache-tasks m id pair h.tasks;
  backed = h.backed;
}
Step-Inv (finish {m} {r} before after t pushed put e) h =
    let (is_task, others) = All-split before after t (rw e at h.tasks) in
    record {
      tasks = rw (run_push-pending t pushed put (record m { pending = before ++ after }) r) others;
      backed = run_push-IsBacked t pushed put _ r is_task h.backed;
    }

Reach-Inv : {s s' : RegistryCacheManager × Remote} → Inv s → Reach s s' → Inv s'
Reach-Inv h here = h
Reach-Inv h (next r st) = Step-Inv st (Reach-Inv h r)

-- Start from a manager with no pending push and a store whose entries are backed. Whatever the
-- builder pushes, in whatever order the background pushes end, and whichever calls of the registry
-- and the store fail: every entry that the store then holds marks an empty layer, or names a layer
-- that the registry has.
pub Reach-StoreIsBacked :
    {m m' : RegistryCacheManager} {r r' : Remote}
    → m.pending ≡ []
    → StoreIsBacked r
    → Reach (m, r) (m', r')
    → StoreIsBacked r'
Reach-StoreIsBacked {m} {m'} {r} {r'} idle b reach =
    (Reach-Inv (record { tasks = rw idle tt; backed = b }) reach).backed
