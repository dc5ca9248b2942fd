-- ===== src/Cache.antt =====
-- lib/cache/cache_manager.go: the map from cache IDs to layers, kept in memory and, behind the
-- pushes that run in the background, in a key-value store and a registry.
pub mod Entries
pub mod Pull
pub mod Push
pub mod Wait
use makisu.Base.{
  ℕ, zero, suc, ◌+◌, Bool, true, false, not, ◌&&◌, Option, some, none, List, [], ◌∷◌, ◌++◌,
  if◌then◌else◌, Bytes, bytes_eq, codes, Result, ok, err, ◌>>=◌, Dict, lookup, insert,
}
use makisu.Text.{cut}

pub record Descriptor : Type 0 where
  pub media_type : Bytes
  pub size : ℕ
  pub digest : Bytes

pub record DigestPair : Type 0 where
  pub tar_digest : Bytes
  pub gzip_descriptor : Descriptor

abbrev pub media_type_layer : Bytes
media_type_layer = codes "application/vnd.docker.image.rootfs.diff.tar.gzip"

abbrev pub cache_prefix : Bytes
cache_prefix = codes "makisu_builder_cache_"

abbrev pub cache_empty_entry : Bytes
cache_empty_entry = codes "MAKISU_CACHE_EMPTY"

-- `Digest.Hex`: what stands behind the first colon, or the whole text where there is none.
unfoldable pub hex : Bytes → Bytes
unfolding cut
hex d = elim (cut b':' d) [ none ↦ d | some (_, behind) ↦ behind ]

unfoldable pub create_entry : Option DigestPair → Bytes
unfolding hex
create_entry none = cache_empty_entry
create_entry (some p) = hex p.tar_digest ++ (b',' ∷ hex p.gzip_descriptor.digest)

abbrev pub sha256 : Bytes → Bytes
sha256 h = codes "sha256:" ++ h

-- `parseEntry`; `none` is its error.
pub parse_entry : Bytes → Option (Bytes × Bytes)
unfolding cut
parse_entry entry = elim (cut b',' entry) [
  | none ↦ none
  | some (first, second) ↦ some (sha256 first, sha256 second)
]

-- `utils.MultiErrors`: the joined texts.
unfoldable pub add_error : Bytes → Bytes → Bytes
add_error errors e = if bytes_eq errors [] then e else errors ++ codes "; " ++ e

-- A push that runs in the background.
pub record PushTask : Type 0 where
  pub cache_id : Bytes
  pub entry : Bytes
  pub digest_pair : Option DigestPair

pub record RegistryCacheManager : Type 0 where
  pub mem_kv_store : Dict Bytes
  pub has_registry : Bool
  pub push_errors : Bytes
  pub pending : List PushTask

-- What the local layer store knows of a file.
pub data Stat : Type 0 where
  present : ℕ → Stat
  not_exist stat_failed : Stat

-- The world of one pull: the answers of the key-value store to each attempt (a value, and an
-- error or none), the local layers, and what pulling a layer gives (`none` is an error; a client may
-- return no file information).
pub record PullWorld : Type 0 where
  pub get : Bytes → ℕ → Bytes × Option Bytes
  pub stat : Bytes → Stat
  pub pull_layer : Bytes → Option (Option ℕ)

pub data PullError : Type 0 where
  layer_not_found query_failed bad_entry stat_error no_registry pull_failed : PullError

-- What one answer of the store means to the loop of `PullCache`.
pub data Answer : Type 0 where
  found : Bytes → Answer
  absent retry : Answer

abbrev pub answer : Bytes × Option Bytes → Answer
answer ([], e) = absent
answer (c ∷ cs, none) = found (c ∷ cs)
answer (c ∷ cs, some e) = retry

-- The loop of `PullCache` from attempt `i`, with that many attempts left behind it.
query : PullWorld → Bytes → ℕ → ℕ → Result PullError Bytes
query w key i zero = elim (answer (w.get key i)) [
  | found entry ↦ ok entry
  | absent ↦ err layer_not_found
  | retry ↦ err query_failed
]
query w key i (suc left) = elim (answer (w.get key i)) [
  | found entry ↦ ok entry
  | absent ↦ err layer_not_found
  | retry ↦ query w key (i + 1) left
]

-- The size of the layer, from the local store or else from the registry.
unfoldable pub layer_size : RegistryCacheManager → PullWorld → Bytes → Result PullError ℕ
unfolding hex
layer_size m w gzip = elim (w.stat (hex gzip)) [
  | present n ↦ ok n
  | stat_failed ↦ err stat_error
  | not_exist ↦ if not m.has_registry then err no_registry else elim (w.pull_layer gzip) [
    | none ↦ err pull_failed
    | some none ↦ ok 0
    | some (some n) ↦ ok n
  ]
]

-- The second half of `PullCache`, on the entry found.
pull_entry : RegistryCacheManager → PullWorld → Bytes → Result PullError (Option DigestPair)
unfolding parse_entry layer_size
pull_entry m w entry =
    if bytes_eq entry cache_empty_entry then ok none else elim (parse_entry entry) [
      | none ↦ err bad_entry
      | some (tar, gzip) ↦ do
        size ← layer_size m w gzip
        ok (
            some (record {
              tar_digest = tar;
              gzip_descriptor = record {
                media_type = media_type_layer;
                size = size;
                digest = gzip;
              };
            }))
    ]

-- `(*registryCacheManager).PullCache`
pub pull_cache : RegistryCacheManager → PullWorld → Bytes → Result PullError (Option DigestPair)
unfolding query pull_entry
pull_cache m w cache_id = do
  entry ← elim (lookup (cache_prefix ++ cache_id) m.mem_kv_store) [
    | some entry ↦ ok entry
    | none ↦ query w (cache_prefix ++ cache_id) 0 2
  ]
  pull_entry m w entry

-- `(*registryCacheManager).PushCache`
unfoldable pub push_cache : RegistryCacheManager → Bytes → Option DigestPair → RegistryCacheManager
unfolding create_entry add_error
push_cache m cache_id pair =
    let stored = insert (cache_prefix ++ cache_id) (create_entry pair) m.mem_kv_store in
    if not m.has_registry
    then record m {
      mem_kv_store = stored;
      push_errors = add_error m.push_errors (codes "registry client not configured to push cache");
    }
    else record m {
      mem_kv_store = stored;
      pending =
          m.pending
          ++ record { cache_id = cache_id; entry = create_entry pair; digest_pair = pair } ∷ [];
    }

-- The key-value store and the layers of the registry.
pub record Remote : Type 0 where
  pub kv_store : Dict Bytes
  pub layers : List Bytes

-- What a call of the registry or the store ends with: nothing, or an error's text.
abbrev pub Outcome : Type 0
Outcome = Option Bytes

-- The part of a push under the lock: the entry is stored, or an error is added.
put_entry : PushTask → Outcome → RegistryCacheManager → Remote → RegistryCacheManager × Remote
unfolding add_error
put_entry t (some e) m r = (
  record m {
    push_errors =
        add_error m.push_errors
          (codes "store tag mapping (" ++ t.cache_id ++ codes "," ++ t.entry ++ codes "): " ++ e);
  },
  r,
)
put_entry t none m r =
    (m, record r { kv_store = insert (cache_prefix ++ t.cache_id) t.entry r.kv_store })

-- The body of the goroutine of `PushCache`, for the outcomes of `PushLayer` and `Put`.
unfoldable pub run_push :
    PushTask → Outcome → Outcome → RegistryCacheManager → Remote → RegistryCacheManager × Remote
unfolding put_entry
run_push t pushed put m r = elim t.digest_pair [
  | none ↦ put_entry t put m r
  | some p ↦ elim pushed [
    | some e ↦ (
      record m {
        push_errors =
            add_error m.push_errors
              (codes "push layer " ++ p.gzip_descriptor.digest ++ codes ": " ++ e);
      },
      r,
    )
    | none ↦ put_entry t put m (record r { layers = p.gzip_descriptor.digest ∷ r.layers })
  ]
]

-- `WaitForPush`, once all pushes are done: the collected errors, or none.
unfoldable pub wait_for_push : RegistryCacheManager → Outcome
wait_for_push m = if bytes_eq m.push_errors [] then none else some m.push_errors
