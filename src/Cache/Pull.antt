-- ===== src/Cache/Pull.antt =====
-- What `PullCache` returns, after a push and from the stores.
use makisu.Base.{
  ℕ, false, Option, some, none, [], ◌∷◌, ◌++◌, ◌≡◌, ◌≢◌, ◌⊎◌, refl, ◌∙◌, arith, Bytes, bytes_eq,
  bytes_eq_refl, lookup, insert, lookup-insert, inl, inr, ok, Result, ◌>>=◌, Option-cases,
}
use makisu.Cache.{
  DigestPair, media_type_layer, cache_prefix, create_entry, RegistryCacheManager, PullWorld,
  PullError, answer, retry, query, layer_size, pull_entry, pull_cache, push_cache,
}
use makisu.Cache.Entries.{IsDigestPair, parse_entry-create_entry}

-- What a pull gives for a pair that is known: the pair, its layer measured anew.
abbrev pub measured : DigestPair → Result PullError ℕ → Result PullError (Option DigestPair)
measured p size = do
  n ← size
  ok (
      some (record {
        tar_digest = p.tar_digest;
        gzip_descriptor = record {
          media_type = media_type_layer;
          size = n;
          digest = p.gzip_descriptor.digest;
        };
      }))

mem_kv_store-push_cache :
    (m : RegistryCacheManager) (id : Bytes) (pair : Option DigestPair)
    → (push_cache m id pair).mem_kv_store
      ≡ insert (cache_prefix ++ id) (create_entry pair) m.mem_kv_store
unfolding push_cache
mem_kv_store-push_cache m id pair = ground arith

-- A pull right after a push reads the entry that was pushed.
pull_cache-pushed :
    (m : RegistryCacheManager) (w : PullWorld) (id : Bytes) (pair : Option DigestPair)
    → pull_cache (push_cache m id pair) w id
      ≡ pull_entry (push_cache m id pair) w (create_entry pair)
unfolding pull_cache
pull_cache-pushed m w id pair = ground (
  arith,
  mem_kv_store-push_cache m id pair,
  lookup-insert (cache_prefix ++ id) (cache_prefix ++ id) (create_entry pair) m.mem_kv_store,
  bytes_eq_refl (cache_prefix ++ id),
)

pull_entry-some :
    (m : RegistryCacheManager) (w : PullWorld) (p : DigestPair) (tar gzip : Bytes)
    → IsDigestPair p tar gzip
    → pull_entry m w (create_entry (some p)) ≡ measured p (layer_size m w p.gzip_descriptor.digest)
unfolding pull_entry
pull_entry-some m w p tar gzip h =
    let (parsed, not_empty) = parse_entry-create_entry p tar gzip h in rw (not_empty, parsed)

pull_entry-none :
    (m : RegistryCacheManager) (w : PullWorld) → pull_entry m w (create_entry none) ≡ ok none
unfolding pull_entry create_entry bytes_eq
pull_entry-none m w = refl

-- Right after a push, with or without a registry, and while the background push may still run or
-- fail, a pull of the same cache ID asks no key-value store: it gives no pair where none was pushed;
-- where one with `sha256:` digests was pushed, the first without a comma, it gives those digests,
-- with the size of the layer on disk or in the registry, or the error of looking for it there.
pub pull_cache-push_cache :
    (m : RegistryCacheManager) (w : PullWorld) (id : Bytes) (p : DigestPair) (tar gzip : Bytes)
    → IsDigestPair p tar gzip
    → (pull_cache (push_cache m id none) w id ≡ ok none)
      × (pull_cache (push_cache m id (some p)) w id
          ≡ measured p (layer_size (push_cache m id (some p)) w p.gzip_descriptor.digest))
pull_cache-push_cache m w id p tar gzip h = (
  pull_cache-pushed m w id none ∙ pull_entry-none (push_cache m id none) w,
  pull_cache-pushed m w id (some p) ∙ pull_entry-some (push_cache m id (some p)) w p tar gzip h,
)

-- A push of one cache ID leaves the entries of all others as they are.
pub lookup-push_cache :
    (m : RegistryCacheManager) (id other : Bytes) (pair : Option DigestPair)
    → bytes_eq (cache_prefix ++ id) (cache_prefix ++ other) ≡ false
    → lookup (cache_prefix ++ other) (push_cache m id pair).mem_kv_store
      ≡ lookup (cache_prefix ++ other) m.mem_kv_store
lookup-push_cache m id other pair h = ground (
  arith,
  mem_kv_store-push_cache m id pair,
  lookup-insert (cache_prefix ++ id) (cache_prefix ++ other) (create_entry pair) m.mem_kv_store,
)

-- A store whose error comes with no value.
abbrev pub IsPlain : Bytes × Option Bytes → Type 0
IsPlain a = (a.1 ≡ none) ⊎ (a.0 ≡ [])

answer-ne-retry : (a : Bytes × Option Bytes) → IsPlain a → answer a ≢ retry
answer-ne-retry ([], e) h = cc
answer-ne-retry (c ∷ cs, none) h = cc
answer-ne-retry (c ∷ cs, some e) h = ground arith

query-plain :
    (w : PullWorld) (get' : Bytes → ℕ → Bytes × Option Bytes) (key : Bytes)
    → IsPlain (w.get key 0)
    → get' key 0 ≡ w.get key 0
    → query (record w { get = get' }) key 0 2 ≡ query w key 0 2
unfolding query
query-plain w get' key h e = rw (e, query) (ground (arith, answer-ne-retry (w.get key 0) h))

-- Where the first answer of the store carries no value beside an error, as every store of the
-- program sees to, the answers to later attempts change nothing: a failed query is never retried.
pub pull_cache_once :
    (m : RegistryCacheManager) (w : PullWorld) (get' : Bytes → ℕ → Bytes × Option Bytes)
    (id : Bytes)
    → IsPlain (w.get (cache_prefix ++ id) 0)
    → get' (cache_prefix ++ id) 0 ≡ w.get (cache_prefix ++ id) 0
    → pull_cache m (record w { get = get' }) id ≡ pull_cache m w id
unfolding pull_cache
pull_cache_once m w get' id h e = elim (Option-cases (lookup (cache_prefix ++ id) m.mem_kv_store)) [
  | inl absent ↦ rw absent (rw (query-plain w get' (cache_prefix ++ id) h e))
  | inr (entry, present) ↦ rw present
]
