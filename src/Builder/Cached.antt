-- ===== src/Builder/Cached.antt =====
-- The cache chain: which nodes are fetched, which are skipped, and what a cached node does not do.
use makisu.Base.{
  ℕ, zero, suc, ◌+◌, ◌<◌, Bool, true, false, not, ◌&&◌, ◌||◌, Option, some, none, List, [], ◌∷◌,
  ◌++◌, ◌≡◌, ◌⊎◌, refl, arith, Bytes, Result, ok, Result-cases, Bool-cases, inl, inr, length,
}
use makisu.Cache.{DigestPair}
use makisu.Builder.Node.{
  BuildNode, BuildNodeOptions, Operations, pairs_of, is_cached, build_step, apply_layers,
  build_node,
}
use makisu.Builder.Stage.{
  has_pairs, latest_from, latest_fetched, before_latest, BuildStageOptions, node_options,
}

-- Operations that differ in what they execute, commit and push.
abbrev pub reworked :
    (ops : Operations)
    → (BuildNode → Bool → ops.Context → Result ops.Error ops.Context)
    → (BuildNode → ops.Context → Result ops.Error (Option (List DigestPair) × ops.Context))
    → (Bytes → Option DigestPair → ops.Context → Result ops.Error ops.Context)
    → Operations
reworked ops execute' commit' push' = record ops {
  execute = execute';
  commit = commit';
  push_cache = push';
}

build_step_kept :
    (ops : Operations) (n : BuildNode) (opts : BuildNodeOptions) (c : ops.Context)
    → (opts.skip_build || is_cached n) ≡ true
    → build_step ops n opts c ≡ ok (n, c)
unfolding build_step
build_step_kept ops n opts c h = elim (Bool-cases opts.skip_build) [
  | inl s ↦ rw s
  | inr s ↦ rw (s, rw s at h)
]

module _ (ops : Operations)
    (execute' : BuildNode → Bool → ops.Context → Result ops.Error ops.Context)
    (commit' : BuildNode → ops.Context → Result ops.Error (Option (List DigestPair) × ops.Context))
    (push' : Bytes → Option DigestPair → ops.Context → Result ops.Error ops.Context) where
  apply_layers-reworked :
      (ps : List DigestPair) (modify_fs : Bool) (c : ops.Context)
      → apply_layers (reworked ops execute' commit' push') ps modify_fs c
        ≡ apply_layers ops ps modify_fs c
  unfolding apply_layers
  apply_layers-reworked [] modify_fs c = refl
  apply_layers-reworked (p ∷ ps) modify_fs c = elim (Result-cases (ops.apply_layer p modify_fs c)) [
    | inl (c', e) ↦ rw (e, apply_layers-reworked ps modify_fs c')
    | inr (x, e) ↦ rw e
  ]

  -- A node that is skipped or has its layers executes, commits and pushes nothing: what it gives,
  -- errors included, is the same whatever those three operations do.
  pub build_node_cached :
      (n : BuildNode) (prev : Option ops.Config) (opts : BuildNodeOptions) (c : ops.Context)
      → (opts.skip_build || is_cached n) ≡ true
      → build_node ops n prev opts c
        ≡ build_node (reworked ops execute' commit' push') n prev opts c
  unfolding build_node
  build_node_cached n prev opts c h = elim (Result-cases (ops.apply_ctx_and_config n prev c)) [
    | inr (x, e) ↦ rw e
    | inl (c1, e) ↦ elim (Result-cases (apply_layers ops (pairs_of n) opts.modify_fs c1)) [
      | inr (x, f) ↦ rw (e, apply_layers-reworked (pairs_of n) opts.modify_fs c1, f)
      | inl (c2, f) ↦ rw (
        e,
        apply_layers-reworked (pairs_of n) opts.modify_fs c1,
        f,
        build_step_kept ops n opts c2 h,
        build_step_kept (reworked ops execute' commit' push') n opts c2 h,
      )
    ]
  ]

-- The node with this number, from 0.
abbrev pub nth : List BuildNode → ℕ → Option BuildNode
nth [] i = none
nth (n ∷ ns) zero = some n
nth (n ∷ ns) (suc i) = nth ns i

-- Up to that number, every node that commits has layers.
abbrev pub FetchedTo : List BuildNode → ℕ → Type 0
FetchedTo [] i = Unit
FetchedTo (n ∷ ns) zero = (n.has_commit && not (has_pairs n)) ≡ false
FetchedTo (n ∷ ns) (suc i) = ((n.has_commit && not (has_pairs n)) ≡ false) × FetchedTo ns i

-- Number `j`, counted so that the node in front of these has number `i`, is that of a node that
-- commits and has layers, and up to it every node that commits has layers.
abbrev pub IsFetched : List BuildNode → ℕ → ℕ → Type 0
IsFetched ns i j =
    (k : ℕ) × (n : BuildNode) × (j ≡ i + 1 + k)
    × (nth ns k ≡ some n)
    × (n.has_commit ≡ true)
    × (has_pairs n ≡ true)
    × FetchedTo ns k

has_first :
    (n : BuildNode)
    → n.has_commit ≡ true
    → (n.has_commit && not (has_pairs n)) ≡ false
    → has_pairs n ≡ true
has_first n commits go = ground (arith, commits, go)

at_first : (i j : ℕ) → ◌≡◌ {A = Option ℕ} (some (i + 1)) (some j) → j ≡ i + 1 + 0
at_first i j h = grind arith

-- From the node behind number `i`: the number returned is the one so far, or that of a node that
-- commits and has layers, behind nodes that have theirs if they commit.
latest_from_lem :
    (ns : List BuildNode) (i : ℕ) (latest : Option ℕ) (j : ℕ)
    → latest_from i latest ns ≡ some j
    → (latest ≡ some j) ⊎ IsFetched ns i j
unfolding latest_from
latest_from_lem [] i latest j h = inl h
latest_from_lem (n ∷ ns) i latest j h = elim (Bool-cases (n.has_commit && not (has_pairs n))) [
  | inl stop ↦ inl (rw stop at h)
  | inr go ↦ elim (Bool-cases n.has_commit) [
    | inl commits ↦ elim (latest_from_lem ns (i + 1) (some (i + 1)) j (rw (go, commits) at h)) [
      | inl same ↦ inr (zero, n, at_first i j same, refl, commits, has_first n commits go, go)
      | inr (k, m, at, is, commits', has, to) ↦
          inr (suc k, m, omega (arith, at), is, commits', has, (go, to))
    ]
    | inr plain ↦ elim (latest_from_lem ns (i + 1) latest j (rw (go, plain) at h)) [
      | inl same ↦ inl same
      | inr (k, m, at, is, commits', has, to) ↦
          inr (suc k, m, omega (arith, at), is, commits', has, (go, to))
    ]
  ]
]

before_latest_lem :
    (i : ℕ) (latest : Option ℕ)
    → before_latest i latest ≡ true
    → (j : ℕ) × (latest ≡ some j) × (i < j)
before_latest_lem i none h = ground arith
before_latest_lem i (some j) h = (j, refl, ground arith)

-- A node behind FROM that is skipped stands before a node that commits and has layers, and up to
-- that one every node behind FROM that commits has layers.
pub node_options-skip :
    (opts : BuildStageOptions) (last_stage copied_from : Bool) (first : BuildNode)
    (built left : List BuildNode)
    → (node_options opts last_stage copied_from (first ∷ built) left).skip_build ≡ true
    → (j : ℕ) × (length (first ∷ built) < j) × IsFetched (built ++ left) 0 j
unfolding node_options latest_fetched
node_options-skip opts last_stage copied_from first built left h =
    let (j, at, lt) =
      before_latest_lem (length (first ∷ built)) (latest_from 0 none (built ++ left))
        (ground arith) in
    (j, lt, elim (latest_from_lem (built ++ left) 0 none j at) [ inl e ↦ ground arith | inr f ↦ f ])
