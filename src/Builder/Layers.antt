-- ===== src/Builder/Layers.antt =====
-- The diff IDs of the image's configuration against the layers of its manifest.
use makisu.Base.{
  Bool, not, ◌&&◌, ◌||◌, Option, some, List, [], ◌∷◌, ◌++◌, map, ◌≡◌, refl, sym, subst, ◌∙◌,
  append-nil, append_assoc, Bytes, Result, ok, Result-cases, ok-injective, err-ne-ok, Bool-cases,
  inl, inr,
}
use makisu.Cache.{DigestPair, Descriptor}
use makisu.Builder.Node.{BuildNode, Operations, pairs_of, build_node}
use makisu.Builder.Stage.{BuildStageOptions, node_options, build_nodes, build, manifest_layers}

-- The layers of the nodes, in order.
abbrev pub all_pairs : List BuildNode → List DigestPair
all_pairs [] = []
all_pairs (n ∷ ns) = pairs_of n ++ all_pairs ns

all_pairs-snoc :
    (ns : List BuildNode) (n : BuildNode) → all_pairs (ns ++ n ∷ []) ≡ all_pairs ns ++ pairs_of n
all_pairs-snoc [] n = rw append-nil
all_pairs-snoc (m ∷ ns) n = rw (all_pairs-snoc ns n, append_assoc)

abbrev pub tar_digests : List DigestPair → List Bytes
tar_digests = map (λ p. p.tar_digest)

abbrev pub gzip_descriptors : List DigestPair → List Descriptor
gzip_descriptors = map (λ p. p.gzip_descriptor)

tar_digests-append :
    (ps qs : List DigestPair) → tar_digests (ps ++ qs) ≡ tar_digests ps ++ tar_digests qs
tar_digests-append [] qs = refl
tar_digests-append (p ∷ ps) qs = rw (tar_digests-append ps qs)

gzip_descriptors-append :
    (ps qs : List DigestPair)
    → gzip_descriptors (ps ++ qs) ≡ gzip_descriptors ps ++ gzip_descriptors qs
gzip_descriptors-append [] qs = refl
gzip_descriptors-append (p ∷ ps) qs = rw (gzip_descriptors-append ps qs)

manifest_layers-all_pairs :
    (ns : List BuildNode) → manifest_layers ns ≡ gzip_descriptors (all_pairs ns)
unfolding manifest_layers
manifest_layers-all_pairs [] = refl
manifest_layers-all_pairs (n ∷ ns) =
    rw (manifest_layers-all_pairs ns) (sym (gzip_descriptors-append (pairs_of n) (all_pairs ns)))

-- `Builds built left config c nodes config' c'`: behind the nodes `built`, each of the nodes `left`
-- was built once, in order, with the options of its place and with the configuration and the context
-- that the one before it left, and `nodes` are what came of them.
pub data Builds (ops : Operations) (opts : BuildStageOptions) (last_stage copied_from : Bool)
    : List BuildNode
      → List BuildNode
      → Option ops.Config
      → ops.Context
      → List BuildNode
      → Option ops.Config
      → ops.Context
      → Type 0 where
  all_built :
      {built : List BuildNode} {config : Option ops.Config} {c : ops.Context}
      → Builds ops opts last_stage copied_from built [] config c [] config c
  one_built :
      {built left nodes : List BuildNode} {n n' : BuildNode} {config config'' : Option ops.Config}
      {config' : ops.Config} {c c' c'' : ops.Context}
      → build_node ops n config (node_options opts last_stage copied_from built (n ∷ left)) c
        ≡ ok (n', config', c')
      → Builds ops opts last_stage copied_from
          (built ++ n' ∷ [])
          left
          (some config')
          c'
          nodes
          config''
          c''
      → Builds ops opts last_stage copied_from built (n ∷ left) config c (n' ∷ nodes) config'' c''

module _ (ops : Operations) (opts : BuildStageOptions) (last_stage copied_from : Bool) where
  open ops use {Context, Config, Error}

  build_nodes-layers :
      (left built : List BuildNode) (diff_ids : List Bytes) (config : Option Config) (c : Context)
      {r : List BuildNode × List Bytes × Option Config × Context}
      → diff_ids ≡ tar_digests (all_pairs built)
      → build_nodes ops opts last_stage copied_from built left diff_ids config c ≡ ok r
      → (r.1 ≡ tar_digests (all_pairs r.0))
        × (nodes : List BuildNode) × (r.0 ≡ built ++ nodes)
        × Builds ops opts last_stage copied_from built left config c nodes r.2 r.3
  unfolding build_nodes
  build_nodes-layers [] built diff_ids config c {r} e h =
      subst
        (λ (x : List BuildNode × List Bytes × Option Config × Context).
          (x.1 ≡ tar_digests (all_pairs x.0))
          × (nodes : List BuildNode) × (x.0 ≡ built ++ nodes)
          × Builds ops opts last_stage copied_from built [] config c nodes x.2 x.3)
        (ok-injective h) (e, [], sym (append-nil built), all_built)
  build_nodes-layers (n ∷ left) built diff_ids config c {r} e h = elim (Bool-cases guarded) [
    | inl stop ↦ absurd (err-ne-ok (rw stop at h))
    | inr go ↦ elim (Result-cases node) [
      | inl ((n', config', c'), b) ↦
          let (ids, nodes, all, run) =
            build_nodes-layers left (built ++ n' ∷ []) _ (some config') c'
              (rw (e, all_pairs-snoc built n')
                (sym (tar_digests-append (all_pairs built) (pairs_of n'))))
              (rw (go, b) at h) in
          (ids, n' ∷ nodes, all ∙ append_assoc built (n' ∷ []) nodes, one_built b run)
      | inr (x, b) ↦ absurd (err-ne-ok (rw (go, b) at h))
    ]
  ]
    where
      guarded : Bool
      guarded = (opts.require_on_disk || copied_from) && not opts.allow_modify_fs

      node : Result Error (BuildNode × Config × Context)
      node = build_node ops n config (node_options opts last_stage copied_from built (n ∷ left)) c

  -- A build that succeeds has built each node once, in order, each with the configuration and the
  -- context that the one before it left; the diff IDs that it writes to the configuration and the
  -- layers that the manifest then lists are the tar digests and the descriptors of one and the same
  -- list of pairs, those of the nodes in order.
  pub build-layers :
      (nodes : List BuildNode) (config : Option Config) (c : Context)
      {r : List BuildNode × List Bytes × Option Config × Context}
      → build ops opts last_stage copied_from nodes config c ≡ ok r
      → (r.1 ≡ tar_digests (all_pairs r.0))
        × (manifest_layers r.0 ≡ gzip_descriptors (all_pairs r.0))
        × Builds ops opts last_stage copied_from [] nodes config c r.0 r.2 r.3
  unfolding build
  build-layers nodes config c {r} h =
      let (ids, built, same, run) = build_nodes-layers nodes [] [] config c refl h in
      (
        ids,
        manifest_layers-all_pairs r.0,
        subst (λ x. Builds ops opts last_stage copied_from [] nodes config c x r.2 r.3) (sym same)
            run,
      )
