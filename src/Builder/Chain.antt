-- ===== src/Builder/Chain.antt =====
-- The cache chain of a stage: layers are pulled up to the first pull that fails.
use makisu.Base.{
  Bool, true, false, not, ◌&&◌, ◌||◌, some, none, List, [], ◌∷◌, ◌++◌, map, ◌≡◌, refl, ap, subst,
  arith, if◌then◌else◌, ok, err, all, Bool-cases, inl, inr,
}
use makisu.Builder.Node.{BuildNode}
use makisu.Builder.Stage.{Pull, pull_cache_layer, pull_nodes, pull_cache_layers}

module _ (pull : Pull) (force_commit : Bool) where
  -- Whether the cache is asked for the layer of the node.
  abbrev pub asks : BuildNode → Bool
  asks n = n.has_commit || force_commit

  abbrev pub answers : BuildNode → Bool
  answers n = elim (pull n.cache_id) [ err _ ↦ false | ok _ ↦ true ]

  -- The node with the layer that the cache has for it; without one it is as before.
  abbrev pub fetched : BuildNode → BuildNode
  fetched n =
      if asks n
      then elim (pull n.cache_id) [
        | err _ ↦ n
        | ok none ↦ n
        | ok (some p) ↦ record n { digest_pairs = some (p ∷ []) }
      ]
      else n

  -- The chain breaks here, if it does not reach the end.
  abbrev pub is_broken : List BuildNode → Bool
  is_broken [] = true
  is_broken (n ∷ ns) = asks n && not (answers n)

  abbrev pub IsChain : List BuildNode → List BuildNode → Type 0
  IsChain ns result =
      (before : List BuildNode) × (after : List BuildNode) × (ns ≡ before ++ after)
      × (result ≡ map fetched before ++ after)
      × (all (λ n. not (asks n) || answers n) before ≡ true)
      × (is_broken after ≡ true)

  cons-IsChain :
      (n : BuildNode) (ns result : List BuildNode)
      → (not (asks n) || answers n) ≡ true
      → IsChain ns result
      → IsChain (n ∷ ns) (fetched n ∷ result)
  cons-IsChain n ns result h (before, after, e, f, g, b) =
      (n ∷ before, after, ap (λ x. n ∷ x) e, ap (λ x. fetched n ∷ x) f, ground (arith, h, g), b)

  -- A node that the chain passes is fetched, and one that breaks it stays with those behind it.
  pull_nodes_passed :
      (n : BuildNode) (ns : List BuildNode)
      → (not (asks n) || answers n) ≡ true
      → fetched n ∷ pull_nodes pull force_commit ns ≡ pull_nodes pull force_commit (n ∷ ns)
  unfolding pull_nodes pull_cache_layer
  pull_nodes_passed n ns h = ground (arith, h)

  pull_nodes_broken :
      (n : BuildNode) (ns : List BuildNode)
      → (not (asks n) || answers n) ≡ false
      → pull_nodes pull force_commit (n ∷ ns) ≡ n ∷ ns
  unfolding pull_nodes pull_cache_layer
  pull_nodes_broken n ns h = ground (arith, h)

  pull_nodes-IsChain : (ns : List BuildNode) → IsChain ns (pull_nodes pull force_commit ns)
  unfolding pull_nodes
  pull_nodes-IsChain [] = ([], [], refl, refl, refl, refl)
  pull_nodes-IsChain (n ∷ ns) = elim (Bool-cases (not (asks n) || answers n)) [
    | inl passed ↦
        subst (λ (x : List BuildNode). IsChain (n ∷ ns) x) (pull_nodes_passed n ns passed)
          (cons-IsChain n ns (pull_nodes pull force_commit ns) passed (pull_nodes-IsChain ns))
    | inr broken ↦ ([], n ∷ ns, refl, pull_nodes_broken n ns broken, refl, ground (arith, broken))
  ]

  -- The nodes behind FROM are those in front of the first node that the cache is asked for in vain,
  -- and the others, from that node on, if there is one. Each in front has the layer that the cache
  -- has for it, if it is asked for one; FROM and the others are as they were.
  pub pull_cache_layers-IsChain :
      (first : BuildNode) (ns : List BuildNode)
      → (result : List BuildNode) × (pull_cache_layers pull force_commit (first ∷ ns)
          ≡ first ∷ result)
        × IsChain ns result
  unfolding pull_cache_layers
  pull_cache_layers-IsChain first ns =
      (pull_nodes pull force_commit ns, refl, pull_nodes-IsChain ns)
