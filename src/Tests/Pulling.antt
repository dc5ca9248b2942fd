-- ===== src/Tests/Pulling.antt =====
-- Pulls of lib/registry/client.go into the store of lib/storage/base/file_op.go.
use makisu.Base.{
  drop, ℕ, Option, true, false, some, none, [], ◌∷◌, ◌≡◌, refl, codes, Result, ok, err, Bytes,
  bytes_eq, length, lookup, insert,
}
use makisu.Cache.{hex}
use makisu.FileStore.{
  FileStore, stat_file, reload_file_entry, find_on_disk, create_file, write_file, read_file,
  move_file,
}
use makisu.FileStore.View.{view, IsInStep, Refines, Operation, run, spec, run-Refines}
use makisu.Registry.Http.{History, Outside, send, mem_code, is_failure, response, Response}
use makisu.Registry.Upload.{with_security}
use makisu.Registry.Client.{DockerRegistryClient, Codec, pull_manifest}
use makisu.Registry.Push.{DistributionManifest}
use makisu.Registry.Pool.{WorkerPool}
use makisu.Registry.Pool.Complete.{any_failed}
use makisu.Registry.PullImage.{save_manifest, save_manifest-new, pull, pull-content_or}
use makisu.Registry.Pull.{LayerTarStore, PullError, fetch_layer, pull_layer, not_verified}
use makisu.Registry.Pull.Verified.{IsStored, pull_layer-IsStored, pull_layer_mismatch}

abbrev empty_store : FileStore
empty_store = record { entries = []; disk = λ s n. none }

empty_store-IsInStep : IsInStep empty_store
unfolding lookup
empty_store-IsInStep = record {
  loaded = λ s n c e. cc;
  on_disk = λ s n e. absurd (let x = e in cc);
}

empty_store-view : (n : Bytes) → view empty_store n ≡ none
unfolding view lookup
empty_store-view n = refl

run-Refines_example :
    Refines empty_store
      (codes "a")
      (ok tt)
      (some (codes "d", 0 ∷ 0 ∷ []))
      (run empty_store (codes "d" ∷ []) (codes "a") (Operation.create (codes "d") 2))
unfolding view spec lookup
run-Refines_example =
    run-Refines empty_store (codes "d" ∷ []) (codes "a") (Operation.create (codes "d") 2)
      empty_store-IsInStep

-- A registry that answers each request with two bytes, whose digest is their number.
abbrev two_bytes : Outside
two_bytes = record {
  answer = λ h q.
      response (record {
        code = 200;
        location = [];
        content_type = [];
        body = 7 ∷ 8 ∷ [];
        broken = false;
      });
  reads = λ h q. 0;
  elapsed = λ h. false;
  push_elapsed = λ h. false;
  is_url = λ u. true;
  is_http = λ u. true;
  add_digest = λ u d. some u;
  security = λ h. some false;
}

abbrev puller : DockerRegistryClient
puller = record {
  config = record { concurrency = 3; retry_disabled = true; retries = 4; push_chunk = none };
  registry = codes "r";
  repository = codes "i";
}

abbrev dirs : LayerTarStore
dirs = record { download_state = codes "download"; cache_state = codes "cache" }

abbrev digest_of : Bytes → Bytes
digest_of s = length s ∷ []

dirs_apart : bytes_eq (codes "download") (codes "cache") ≡ false
unfolding bytes_eq
dirs_apart = refl

abbrev first_pull : Bytes → (Result PullError ℕ × FileStore) × History
first_pull digest = pull_layer two_bytes puller dirs digest_of digest empty_store []

pulled : (first_pull (2 ∷ [])).0.0 ≡ ok 2
unfolding pull_layer fetch_layer stat_file reload_file_entry lookup find_on_disk with_security send
    is_failure mem_code create_file write_file insert bytes_eq hex read_file move_file drop
pulled = refl

pull_layer-IsStored_example :
    (resp : Response) × (fetch_layer two_bytes puller (2 ∷ []) []
      ≡ (ok resp, (first_pull (2 ∷ [])).1))
    × IsStored dirs digest_of dirs_apart (2 ∷ []) resp.body 2 (first_pull (2 ∷ [])).0.1
pull_layer-IsStored_example =
    pull_layer-IsStored dirs digest_of dirs_apart (2 ∷ []) two_bytes puller empty_store []
      empty_store-IsInStep (empty_store-view (hex (2 ∷ [])))
      (λ i. ((pulled i, (first_pull (2 ∷ [])).0.1), (first_pull (2 ∷ [])).1))

mismatched_fetch : fetch_layer two_bytes puller (3 ∷ []) [] ≡ (
  ok (record { code = 200; location = []; content_type = []; body = 7 ∷ 8 ∷ []; broken = false }),
  (fetch_layer two_bytes puller (3 ∷ []) []).1,
)
unfolding fetch_layer with_security send is_failure mem_code
mismatched_fetch = refl

-- The digest is another: the first pull fails, and the next one finds the download file.
pull_layer_mismatch_example :
    (st : FileStore) × (first_pull (3 ∷ [])
      ≡ ((err not_verified, st), (fetch_layer two_bytes puller (3 ∷ []) []).1))
    × (view st (hex (3 ∷ [])) ≡ some (codes "download", 7 ∷ 8 ∷ []))
    × ((k : History) → pull_layer two_bytes puller dirs digest_of (3 ∷ []) st k ≡ ((ok 2, st), k))
pull_layer_mismatch_example =
    pull_layer_mismatch dirs digest_of dirs_apart (3 ∷ []) two_bytes puller empty_store []
      (record { code = 200; location = []; content_type = []; body = 7 ∷ 8 ∷ []; broken = false })
      (fetch_layer two_bytes puller (3 ∷ []) []).1 empty_store-IsInStep
      (empty_store-view (hex (3 ∷ []))) mismatched_fetch refl (λ e. cc)

-- An image that is pulled again after its tag has moved: the cache keeps the manifest of the first
-- pull.
abbrev moved_manifest : DistributionManifest
moved_manifest = record { config = 2 ∷ []; layers = [] }

abbrev moved_codec : Codec DistributionManifest
moved_codec = record { marshal = λ m. none; unmarshal = λ t b. some moved_manifest }

abbrev to_json : Bytes → DistributionManifest → Option Bytes
to_json json m = some json

held :
    (st : FileStore) × (save_manifest dirs (to_json (1 ∷ [])) moved_manifest (codes "i") empty_store
      ≡ (ok tt, st))
    × IsInStep st
    × (view st (codes "i") ≡ some (codes "cache", 1 ∷ []))
held =
    save_manifest-new dirs (to_json (1 ∷ [])) moved_manifest (codes "i") empty_store
      empty_store-IsInStep (1 ∷ []) dirs_apart (empty_store-view (codes "i")) refl

abbrev no_tasks : WorkerPool Bytes
no_tasks = record {
  waiting = [];
  closed = true;
  stopped = false;
  idle = 0;
  running = [];
  finished = [];
}

moved_fetch :
    pull_manifest two_bytes puller moved_codec (codes "t") []
    ≡ (ok moved_manifest, (pull_manifest two_bytes puller moved_codec (codes "t") []).1)
unfolding pull_manifest with_security send is_failure mem_code
moved_fetch = refl

pull-content_or_example :
    (st : FileStore) × (pull two_bytes puller dirs
        (to_json (9 ∷ []))
        moved_codec
        no_tasks
        (codes "t")
        (codes "i")
        held.0
        []
      ≡ ((ok moved_manifest, st), (pull_manifest two_bytes puller moved_codec (codes "t") []).1))
    × IsInStep st
    × (view st (codes "i") ≡ some (codes "cache", 1 ∷ []))
unfolding any_failed
pull-content_or_example =
    pull-content_or two_bytes puller dirs (to_json (9 ∷ [])) moved_codec no_tasks (codes "t")
      (codes "i") (9 ∷ []) (some (1 ∷ [])) moved_manifest held.0 [] dirs_apart held.2 held.3
      moved_fetch refl refl
