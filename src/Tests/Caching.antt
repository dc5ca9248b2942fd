-- ===== src/Tests/Caching.antt =====
-- Runs of lib/cache/cache_manager.go.
use makisu.Base.{
  ℕ, zero, suc, arith, true, Option, some, none, [], ◌∷◌, ◌≡◌, refl, codes, ok, Bytes, lookup,
  insert, bytes_eq, inr,
}
use makisu.Text.{cut}
use makisu.Cache.{
  DigestPair, Stat, PullWorld, RegistryCacheManager, Remote, create_entry, pull_cache, push_cache,
  run_push, wait_for_push, media_type_layer, layer_size, sha256, hex, add_error,
}
use makisu.Cache.Entries.{IsDigestPair}
use makisu.Cache.Pull.{pull_cache-push_cache, pull_cache_once}
use makisu.Cache.Wait.{has_key, wait_for_push_complete}
use makisu.Cache.Push
use makisu.Cache.Push.{StoreIsBacked, Reach, Reach-StoreIsBacked}

abbrev pair : DigestPair
pair = record {
  tar_digest = sha256 (codes "aa");
  gzip_descriptor = record {
    media_type = media_type_layer;
    size = 7;
    digest = sha256 (codes "bb");
  };
}

pair-IsDigestPair : IsDigestPair pair (codes "aa") (codes "bb")
pair-IsDigestPair = record { tar_is = refl; gzip_is = refl; tar_no_comma = refl }

create_entry-pair : create_entry (some pair) ≡ codes "aa,bb"
unfolding create_entry hex cut
create_entry-pair = refl

-- A store with one entry, a disk with every layer, and no registry.
abbrev world : PullWorld
world = record { get = λ k i. ([], none); stat = λ h. Stat.present 7; pull_layer = λ d. none }

-- The same, but a store whose later answers hold an entry.
abbrev later_get : Bytes → ℕ → Bytes × Option Bytes
later_get k zero = ([], some (codes "down"))
later_get k (suc i) = (codes "aa,bb", none)

abbrev down : PullWorld
down = record world { get = λ k i. ([], some (codes "down")) }

abbrev manager : RegistryCacheManager
manager = record { mem_kv_store = []; has_registry = true; push_errors = []; pending = [] }

pull_cache-push_cache_example :
    (pull_cache (push_cache manager (codes "id") none) world (codes "id") ≡ ok none)
    × (pull_cache (push_cache manager (codes "id") (some pair)) world (codes "id") ≡ ok (some pair))
unfolding layer_size
pull_cache-push_cache_example =
    pull_cache-push_cache manager world (codes "id") pair (codes "aa") (codes "bb")
      pair-IsDigestPair

pull_cache_once_example :
    pull_cache manager (record down { get = later_get }) (codes "id")
    ≡ pull_cache manager down (codes "id")
pull_cache_once_example = pull_cache_once manager down later_get (codes "id") (inr refl) refl

abbrev empty_remote : Remote
empty_remote = record { kv_store = []; layers = [] }

empty_remote-StoreIsBacked : StoreIsBacked empty_remote
unfolding lookup
empty_remote-StoreIsBacked key entry h = ground arith

-- A push, and its end with both calls successful.
abbrev after_push : RegistryCacheManager × Remote
after_push =
    run_push
      (record { cache_id = codes "id"; entry = create_entry (some pair); digest_pair = some pair })
      none none (record (push_cache manager (codes "id") (some pair)) { pending = [] }) empty_remote

after_push-kv_store :
    (after_push.1).kv_store ≡ (codes "makisu_builder_cache_id", codes "aa,bb") ∷ []
unfolding run_push create_entry hex cut insert
after_push-kv_store = refl

push_then_finish : Reach (manager, empty_remote) after_push
unfolding push_cache
push_then_finish =
    Reach.next (Reach.next Reach.here (Push.Step.push (codes "id") (some pair)))
      (Push.Step.finish [] [] _ none none refl)

Reach-StoreIsBacked_example : StoreIsBacked after_push.1
Reach-StoreIsBacked_example = Reach-StoreIsBacked refl empty_remote-StoreIsBacked push_then_finish

-- A layer that could not be pushed leaves its error and no entry.
failed_push :
    let after =
      run_push
        (record { cache_id = codes "id"; entry = codes "aa,bb"; digest_pair = some pair })
        (some (codes "x"))
        none
        manager
        empty_remote in
    (wait_for_push after.0 ≡ some (codes "push layer sha256:bb: x")) × (after.1 ≡ empty_remote)
unfolding run_push wait_for_push add_error bytes_eq
failed_push = (refl, refl)

wait_for_push_complete_example :
    has_key (codes "makisu_builder_cache_id") after_push.1.kv_store ≡ true
unfolding run_push push_cache wait_for_push insert lookup bytes_eq
wait_for_push_complete_example =
    wait_for_push_complete (codes "makisu_builder_cache_id") refl push_then_finish refl refl refl
