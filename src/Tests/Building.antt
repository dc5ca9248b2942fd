-- ===== src/Tests/Building.antt =====
-- Runs of lib/builder: build_node.go and build_stage.go.
use makisu.Base.{
  if◌then◌else◌, bytes_eq, ℕ, suc, Bool, true, false, Option, some, none, List, [], ◌∷◌, ◌≡◌, refl,
  codes, ok, err, Bytes,
}
use makisu.Cache.{DigestPair, media_type_layer, sha256}
use makisu.Builder.Node.{BuildNode, Operations, build_node}
use makisu.Builder.Stage.{BuildStageOptions, build, manifest_layers}
use makisu.Builder.Layers.{all_pairs, tar_digests, gzip_descriptors, Builds, build-layers}
use makisu.Builder.Stage.{Pull, pull_cache_layers}
use makisu.Builder.Chain.{IsChain, pull_cache_layers-IsChain}
use makisu.Builder.Cached.{reworked, build_node_cached}

abbrev pair : Bytes → DigestPair
pair h = record {
  tar_digest = sha256 h;
  gzip_descriptor = record { media_type = media_type_layer; size = 7; digest = sha256 h };
}

-- A context that counts the calls, whose nodes commit one layer each, named after the step.
abbrev counting : Operations
counting = record {
  Context = ℕ;
  Config = Bytes;
  Error = Bytes;
  apply_ctx_and_config = λ n prev c. ok c;
  apply_layer = λ p modify_fs c. ok (suc c);
  execute = λ n modify_fs c. ok (suc c);
  commit = λ n c. ok (some (pair n.step ∷ []), suc c);
  push_cache = λ id p c. ok (suc c);
  update_ctx_and_config = λ n prev c. ok (n.step, c);
}

abbrev node : Bytes → Bool → Option (List DigestPair) → BuildNode
node step has_commit pairs = record {
  step = step;
  has_commit = has_commit;
  cache_id = step;
  digest_pairs = pairs;
}

abbrev options : BuildStageOptions
options = record { force_commit = false; allow_modify_fs = true; require_on_disk = false }

-- FROM, a node that was fetched, and one that was not.
abbrev from_node : BuildNode
from_node = node (codes "from") false none

abbrev fetched_node : BuildNode
fetched_node = node (codes "run") true (some (pair (codes "aa") ∷ []))

abbrev copy_node : BuildNode
copy_node = node (codes "copy") true none

abbrev three_nodes : List BuildNode
three_nodes = from_node ∷ fetched_node ∷ copy_node ∷ []

build-layers_example :
    let built =
      record from_node { digest_pairs = some (pair (codes "from") ∷ []) }
      ∷ fetched_node
      ∷ record copy_node { digest_pairs = some (pair (codes "copy") ∷ []) }
      ∷ [] in
    (sha256 (codes "from") ∷ sha256 (codes "aa") ∷ sha256 (codes "copy") ∷ []
      ≡ tar_digests (all_pairs built))
    × (manifest_layers built ≡ gzip_descriptors (all_pairs built))
    × Builds counting options true false [] three_nodes none 0 built (some (codes "copy")) 7
unfolding build build_node
build-layers_example = build-layers counting options true false three_nodes none 0 refl

build_node_cached_example :
    build_node counting fetched_node none
      (record { skip_build = false; force_commit = true; modify_fs = false })
      0
    ≡ build_node
        (reworked counting
          (λ n modify_fs c. err (codes "executed"))
          (λ n c. err (codes "committed"))
          (λ id p c. err (codes "pushed")))
        fetched_node
        none
        (record { skip_build = false; force_commit = true; modify_fs = false })
        0
build_node_cached_example =
    build_node_cached counting (λ n modify_fs c. err (codes "executed"))
      (λ n c. err (codes "committed")) (λ id p c. err (codes "pushed")) fetched_node none
      (record { skip_build = false; force_commit = true; modify_fs = false }) 0 refl

-- The plain node in front of the fetched one is skipped.
abbrev plain_node : BuildNode
plain_node = node (codes "env") false none

-- The cache has the layer of `run`, no layer for `env`, and fails on `copy`.
abbrev some_layers : Pull
some_layers id =
    if bytes_eq id (codes "run")
    then ok (some (pair (codes "aa")))
    else if bytes_eq id (codes "env")
    then ok none
    else err tt

pull_cache_layers-IsChain_example :
    (result : List BuildNode) × (pull_cache_layers some_layers true
        (from_node ∷ node (codes "run") true none ∷ plain_node ∷ copy_node ∷ [])
      ≡ from_node ∷ result)
    × IsChain some_layers true (node (codes "run") true none ∷ plain_node ∷ copy_node ∷ []) result
pull_cache_layers-IsChain_example =
    pull_cache_layers-IsChain some_layers true from_node
      (node (codes "run") true none ∷ plain_node ∷ copy_node ∷ [])
