-- ===== src/Builder/Stage.antt =====
-- lib/builder/build_stage.go: pulling the cached layers of a stage, and building its nodes.
use makisu.Base.{
  ℕ, ◌+◌, Bool, true, false, not, ◌&&◌, ◌||◌, Option, some, none, List, [], ◌∷◌, ◌++◌, map, ◌==◌,
  if◌then◌else◌, ltb, length, Bytes, Result, ok, err,
}
use makisu.Cache.{DigestPair, Descriptor}
use makisu.Builder.Node.{BuildNode, BuildNodeOptions, Operations, pairs_of, build_node}

pub record BuildStageOptions : Type 0 where
  pub force_commit : Bool
  pub allow_modify_fs : Bool
  pub require_on_disk : Bool

-- What a pull of the cache gives: an error, no layer, or a layer.
abbrev pub Pull : Type 0
Pull = Bytes → Result (Unit {0}) (Option DigestPair)

-- `(*buildNode).pullCacheLayer`
unfoldable pub pull_cache_layer : Pull → BuildNode → BuildNode × Bool
pull_cache_layer pull n = elim (pull n.cache_id) [
  | err _ ↦ (n, false)
  | ok none ↦ (n, true)
  | ok (some p) ↦ (record n { digest_pairs = some (p ∷ []) }, true)
]

-- The loop of `pullCacheLayers`, which returns at the first pull that fails.
unfoldable pub pull_nodes : Pull → Bool → List BuildNode → List BuildNode
unfolding pull_cache_layer
pull_nodes pull force_commit [] = []
pull_nodes pull force_commit (n ∷ ns) =
    let rest = pull_nodes pull force_commit ns in
    if n.has_commit || force_commit
    then (let (n', pulled) = pull_cache_layer pull n in n' ∷ (if pulled then rest else ns))
    else n ∷ rest

-- `(*buildStage).pullCacheLayers`: the first node is FROM.
unfoldable pub pull_cache_layers : Pull → Bool → List BuildNode → List BuildNode
unfolding pull_nodes
pull_cache_layers pull force_commit [] = []
pull_cache_layers pull force_commit (n ∷ ns) = n ∷ pull_nodes pull force_commit ns

abbrev pub has_pairs : BuildNode → Bool
has_pairs n = not (length (pairs_of n) == 0)

-- The loop of `latestFetched` from the node behind number `i`; `none` is -1.
unfoldable pub latest_from : ℕ → Option ℕ → List BuildNode → Option ℕ
latest_from i latest [] = latest
latest_from i latest (n ∷ ns) =
    let rest = latest_from (i + 1) (if n.has_commit then some (i + 1) else latest) ns in
    if n.has_commit && not (has_pairs n) then latest else rest

-- `(*buildStage).latestFetched`
unfoldable pub latest_fetched : List BuildNode → Option ℕ
unfolding latest_from
latest_fetched [] = none
latest_fetched (n ∷ ns) = latest_from 0 none ns

-- `i < stage.latestFetched()`
abbrev pub before_latest : ℕ → Option ℕ → Bool
before_latest i none = false
before_latest i (some latest) = ltb i latest

-- What the loop of `build` fails with.
pub data BuildError {ℓ} (E : Type ℓ) : Type ℓ where
  not_allowed : BuildError E
  node_failed : E → BuildError E

-- The options of the node at a place in its stage.
unfoldable pub node_options :
    BuildStageOptions → Bool → Bool → List BuildNode → List BuildNode → BuildNodeOptions
unfolding latest_fetched
node_options opts last_stage copied_from built left = record {
  skip_build =
      before_latest (length built) (latest_fetched (built ++ left)) && ltb 0 (length built);
  force_commit = length built == 0 || (last_stage && length left == 1) || opts.force_commit;
  modify_fs = opts.require_on_disk || copied_from;
}

module _ (ops : Operations) (opts : BuildStageOptions) (last_stage copied_from : Bool) where
  open ops use {Context, Config, Error}

  -- The loop of `build` after the nodes built, with the digests of the layers so far.
  unfoldable pub build_nodes :
      List BuildNode
      → List BuildNode
      → List Bytes
      → Option Config
      → Context
      → Result (BuildError Error) (List BuildNode × List Bytes × Option Config × Context)
  build_nodes built [] diff_ids config c = ok (built, diff_ids, config, c)
  build_nodes built (n ∷ left) diff_ids config c =
      if (opts.require_on_disk || copied_from) && not opts.allow_modify_fs
      then err not_allowed
      else elim (build_node ops n config (node_options opts last_stage copied_from built (n ∷ left))
          c) [
            | err e ↦ err (node_failed e)
            | ok (n', config', c') ↦
                build_nodes (built ++ n' ∷ []) left
                  (diff_ids ++ map (λ (p : DigestPair). p.tar_digest) (pairs_of n')) (some config')
                  c'
          ]

  -- `(*buildStage).build`: the nodes, and the configuration of the image with its diff IDs.
  unfoldable pub build :
      List BuildNode
      → Option Config
      → Context
      → Result (BuildError Error) (List BuildNode × List Bytes × Option Config × Context)
  unfolding build_nodes node_options
  build nodes config c = build_nodes [] nodes [] config c

-- The layers that `GetDistributionManifest` lists.
unfoldable pub manifest_layers : List BuildNode → List Descriptor
manifest_layers [] = []
manifest_layers (n ∷ ns) =
    map (λ (p : DigestPair). p.gzip_descriptor) (pairs_of n) ++ manifest_layers ns
