-- ===== src/Builder/Node.antt =====
-- lib/builder/build_node.go: one step of a stage and the layers it has.
use makisu.Base.{
  Bool, true, false, not, ◌&&◌, Option, some, none, List, [], ◌∷◌, if◌then◌else◌, ltb, length,
  Bytes, Result, ok, ◌>>=◌,
}
use makisu.Cache.{DigestPair}

-- `skip_build`, `force_commit` and `modify_fs` of `buildNodeOptions`.
pub record BuildNodeOptions : Type 0 where
  pub skip_build : Bool
  pub force_commit : Bool
  pub modify_fs : Bool

-- A node: what its step says of itself, and the layers committed or fetched; `none` is nil.
pub record BuildNode : Type 0 where
  pub step : Bytes
  pub has_commit : Bool
  pub cache_id : Bytes
  pub digest_pairs : Option (List DigestPair)

-- The context that the nodes of a stage share, with the methods of `BuildStep`, the reading of a
-- layer into the memory file system and `PushCache`, each with the state that it leaves.
pub record Operations : Type 1 where
  pub Context : Type 0
  pub Config : Type 0
  pub Error : Type 0
  pub apply_ctx_and_config : BuildNode → Option Config → Context → Result Error Context
  pub apply_layer : DigestPair → Bool → Context → Result Error Context
  pub execute : BuildNode → Bool → Context → Result Error Context
  pub commit : BuildNode → Context → Result Error (Option (List DigestPair) × Context)
  pub push_cache : Bytes → Option DigestPair → Context → Result Error Context
  pub update_ctx_and_config : BuildNode → Option Config → Context → Result Error (Config × Context)

-- The layers of a node; a nil list has none.
abbrev pub pairs_of : BuildNode → List DigestPair
pairs_of n = elim n.digest_pairs [ none ↦ [] | some ps ↦ ps ]

abbrev pub is_cached : BuildNode → Bool
is_cached n = elim n.digest_pairs [ none ↦ false | some _ ↦ true ]

abbrev first_pair : List DigestPair → Option DigestPair
first_pair [] = none
first_pair (p ∷ ps) = some p

module _ (ops : Operations) where
  open ops use {
    Context, Config, Error, apply_ctx_and_config, apply_layer, execute, commit, push_cache,
    update_ctx_and_config,
  }

  -- The loop that applies the cached layers.
  unfoldable pub apply_layers : List DigestPair → Bool → Context → Result Error Context
  apply_layers [] modify_fs c = ok c
  apply_layers (p ∷ ps) modify_fs c = do
    c' ← apply_layer p modify_fs c
    apply_layers ps modify_fs c'

  -- `(*buildNode).doCommit`: more than one layer, and nothing is pushed.
  do_commit : BuildNode → Context → Result Error (BuildNode × Context)
  do_commit n c = do
    (pairs, c') ← commit n c
    let n' = record n { digest_pairs = pairs }
    if ltb 1 (length (pairs_of n'))
        then ok (n', c')
        else (do c'' ← push_cache n.cache_id (first_pair (pairs_of n')) c'; ok (n', c''))

  -- The chain of tests in `(*buildNode).Build`, behind the cached layers.
  unfoldable pub build_step :
      BuildNode → BuildNodeOptions → Context → Result Error (BuildNode × Context)
  unfolding do_commit
  build_step n opts c =
      if opts.skip_build then ok (n, c) else if is_cached n then ok (n, c) else (do
        c' ← execute n opts.modify_fs c
        if not n.has_commit && not opts.force_commit then ok (n, c') else do_commit n c')

  -- `(*buildNode).Build`
  unfoldable pub build_node :
      BuildNode
      → Option Config
      → BuildNodeOptions
      → Context
      → Result Error (BuildNode × Config × Context)
  unfolding apply_layers build_step
  build_node n prev opts c0 = do
    c1 ← apply_ctx_and_config n prev c0
    c2 ← apply_layers (pairs_of n) opts.modify_fs c1
    (n', c3) ← build_step n opts c2
    (config, c4) ← update_ctx_and_config n' prev c3
    ok (n', config, c4)
