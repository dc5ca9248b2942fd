-- ===== src/Snapshot/Compare/Agreement.antt =====
-- When the comparison of two images finds no difference.
use makisu.Base.{
  Bool, true, some, none, List, [], ◌∷◌, ◌≡◌, ◌↔◌, refl, ◌∙◌, arith, Bytes, bytes_eq_iff,
  bytes_eq_refl, Option-cases, inl, inr,
}
use makisu.Paths.{slash}
use makisu.Snapshot.Tree.{ContentFile, Node, Children, node, nil, child, file_of, children_of, find}
use makisu.Snapshot.Overlay.{view}
use makisu.Snapshot.Compare.{
  similar_files, child_path, only_second, compare_node, compare_children, compare_fs,
}
use makisu.Snapshot.Compare.Parts.{
  agree, has_distinct_names, distinct_children, compare_files-agree, only_second-free, find-first,
  free-only_second, compare_children-found, view-root, view-none, view-some, compare_node-parts,
}

compare-agree :
    (qs : List Bytes) (t : Bool) (path : Bytes) (n m : Node)
    → compare_node t path n m ≡ []
    → agree t (view n qs) (view m qs) ≡ true
compare-agree [] t path (node f cs) (node g ds) e =
    unfold view in (compare_node-parts t path f cs (node g ds) e).0
compare-agree (q ∷ qs) t path (node f cs) (node g ds) e =
    let (files, found, free) = compare_node-parts t path f cs (node g ds) e in
    elim (Option-cases (find q cs)) [
      | inl missing ↦
          rw
            (
              view-none f cs q qs missing,
              view-none g ds q qs (only_second-free path cs ds q free missing),
            )
            refl
      | inr (n', there) ↦
          let (m', there', below) = compare_children-found t path cs ds q n' found there in
          rw (view-some f cs q qs there, view-some g ds q qs there')
            (compare-agree qs t (child_path path q) n' m' below)
    ]

-- The first names of paths: agreement at a name decides whether it is free in the other node.
agree-free :
    (t : Bool) (f g : ContentFile) (cs ds : Children) (k : Bytes)
    → agree t (view (node f cs) (k ∷ [])) (view (node g ds) (k ∷ [])) ≡ true
    → find k cs ≡ none
    → find k ds ≡ none
agree-free t f g cs ds k h free = elim (Option-cases (find k ds)) [
  | inl free' ↦ free'
  | inr (m, there) ↦
      absurd
        (ground (arith, rw (view-none f cs k [] free, view-some g ds k [] there, view-root m) at h))
]

agree-found :
    (t : Bool) (f g : ContentFile) (cs ds : Children) (k : Bytes) (n : Node)
    → ((qs : List Bytes) → agree t (view (node f cs) qs) (view (node g ds) qs) ≡ true)
    → find k cs ≡ some n
    → (m : Node) × (find k ds ≡ some m)
      × ((qs : List Bytes) → agree t (view n qs) (view m qs) ≡ true)
agree-found t f g cs ds k n h found = elim (Option-cases (find k ds)) [
  | inl free ↦ absurd (
      ground (
        arith,
        rw (view-some f cs k [] found, view-none g ds k [] free, view-root n) at (h (k ∷ [])),
      ))
  | inr (m, there) ↦
      (m, there, λ qs. rw (view-some f cs k qs found, view-some g ds k qs there) at (h (k ∷ qs)))
]

pub distinct-first :
    (k : Bytes) (n : Node) (cs : Children)
    → distinct_children (child k n cs) ≡ true
    → (find k cs ≡ none) × (has_distinct_names n ≡ true) × (distinct_children cs ≡ true)
unfolding distinct_children
distinct-first k n cs d = elim (Option-cases (find k cs)) [
  | inl free ↦ (free, ground (arith, d, free), ground (arith, d, free))
  | inr (m, there) ↦ absurd (ground (arith, d, there))
]

-- A name among the other children is not that of the first.
find-other :
    (j k : Bytes) (x n : Node) (cs : Children)
    → find j cs ≡ none
    → find k cs ≡ some n
    → find k (child j x cs) ≡ some n
find-other j k x n cs free there =
    ground (arith, find-first k j x cs, bytes_eq_iff j k, free, there)

compare_node-nothing :
    (t : Bool) (path : Bytes) (f : ContentFile) (cs : Children) (m : Node)
    → similar_files t f (file_of m) ≡ true
    → compare_children t path cs (children_of m) ≡ []
    → only_second path cs (children_of m) ≡ []
    → compare_node t path (node f cs) m ≡ []
unfolding compare_node
compare_node-nothing t path f cs m files found free =
    rw ((compare_files-agree t path (node f cs) m).1 files, found, free) refl

agree-root :
    (t : Bool) (n m : Node)
    → agree t (view n []) (view m []) ≡ true
    → similar_files t (file_of n) (file_of m) ≡ true
agree-root t n m h = rw (view-root n, view-root m) at h

mutual
  unfolding distinct_children compare_children

  agree-compare_node :
      (n m : Node) (t : Bool) (path : Bytes)
      → has_distinct_names n ≡ true
      → ((qs : List Bytes) → agree t (view n qs) (view m qs) ≡ true)
      → compare_node t path n m ≡ []
  agree-compare_node (node f cs) (node g ds) t path d h =
      compare_node-nothing t path f cs (node g ds) (agree-root t (node f cs) (node g ds) (h []))
        (agree-compare_children cs ds t path d (λ k n. agree-found t f g cs ds k n h))
        (free-only_second path cs ds (λ k. agree-free t f g cs ds k (h (k ∷ []))))

  agree-compare_children :
      (cs ds : Children) (t : Bool) (path : Bytes)
      → distinct_children cs ≡ true
      → ((k : Bytes) (n : Node)
          → find k cs ≡ some n
          → (m : Node) × (find k ds ≡ some m)
            × ((qs : List Bytes) → agree t (view n qs) (view m qs) ≡ true))
      → compare_children t path cs ds ≡ []
  agree-compare_children nil ds t path d h = refl
  agree-compare_children (child j x cs) ds t path d h =
      let (free, dx, dcs) = distinct-first j x cs d in
      let (m, there, below) = h j x (find-first j j x cs ∙ (rw (bytes_eq_refl j) refl)) in
      rw (there, agree-compare_node x m t (child_path path j) dx below)
        (agree-compare_children cs ds t path dcs (λ k n e. h k n (find-other j k x n cs free e)))

-- Of two images, the first with each name once in each directory, the comparison finds no
-- difference exactly if at every path both have no file, or both have files with similar headers.
pub compare_fs-agree :
    (tree1 tree2 : Node) (t : Bool)
    → has_distinct_names tree1 ≡ true
    → compare_fs tree1 tree2 t ≡ []
      ↔ ((qs : List Bytes) → agree t (view tree1 qs) (view tree2 qs) ≡ true)
unfolding compare_fs
compare_fs-agree tree1 tree2 t d =
    (λ e qs. compare-agree qs t slash tree1 tree2 e, agree-compare_node tree1 tree2 t slash d)
