-- ===== src/Snapshot/Compare/Parts.antt =====
-- What it takes that no difference is found at one pair of nodes.
use makisu.Base.{
  Bool, true, false, ◌&&◌, Option, some, none, List, [], ◌∷◌, ◌++◌, ◌≡◌, ◌≢◌, ◌↔◌, refl, arith,
  Bytes, bytes_eq, if◌then◌else◌, bytes_eq_iff, bytes_eq_refl, Bool-cases, Option-cases, inl, inr,
}
use mathlib.Core.Option.{some-injective}
use makisu.Snapshot.Tree.{ContentFile, Node, Children, node, nil, child, file_of, children_of, find}
use makisu.Snapshot.Overlay.{view}
use makisu.Snapshot.Compare.{
  similar_files, compare_files, child_path, only_second, compare_node, compare_children,
}

-- Both paths are free, or both have similar files.
abbrev pub agree : Bool → Option ContentFile → Option ContentFile → Bool
agree t none none = true
agree t (some f) (some g) = similar_files t f g
agree t _ _ = false

-- Every name stands once among the children of a node, as in a map.
unfoldable mutual
  unfolding find

  pub has_distinct_names : Node → Bool
  has_distinct_names (node f cs) = distinct_children cs

  pub distinct_children : Children → Bool
  distinct_children nil = true
  distinct_children (child k n cs) =
      elim (find k cs) [ none ↦ true | some m ↦ false ]
      && (has_distinct_names n && distinct_children cs)

pub nothing-append : {A : Type 0} (xs ys : List A) → xs ++ ys ≡ [] → (xs ≡ []) × (ys ≡ [])
nothing-append [] ys e = (refl, e)
nothing-append (x ∷ xs) ys e = absurd (ground (arith, e))

pub compare_files-agree :
    (t : Bool) (path : Bytes) (n m : Node)
    → compare_files t path n m ≡ [] ↔ similar_files t (file_of n) (file_of m) ≡ true
compare_files-agree t path n m = ground arith

-- With no child that only the second node has, a name that is free in the first is free in both.
pub only_second-free :
    (path : Bytes) (cs ds : Children) (k : Bytes)
    → only_second path cs ds ≡ []
    → find k cs ≡ none
    → find k ds ≡ none
unfolding only_second find
only_second-free path cs nil k e free = refl
only_second-free path cs (child j m ds) k e free =
    ground (arith, bytes_eq_iff j k, only_second-free path cs ds k, e, free)

pub find-nil : (k : Bytes) (n : Node) → find k nil ≢ some n
unfolding find
find-nil k n e = ground (arith, e)

pub find-first :
    (k j : Bytes) (x : Node) (cs : Children)
    → find k (child j x cs) ≡ (if bytes_eq j k then some x else find k cs)
unfolding find
find-first k j x cs = refl

pub free-only_second :
    (path : Bytes) (cs ds : Children)
    → ((k : Bytes) → find k cs ≡ none → find k ds ≡ none)
    → only_second path cs ds ≡ []
unfolding only_second
free-only_second path cs nil h = refl
free-only_second path cs (child j m ds) h = elim (Option-cases (find j cs)) [
  | inl free ↦ absurd (ground (arith, h j free, find-first j j m ds, bytes_eq_refl j))
  | inr (n, found) ↦
      rw (only_second, found)
        (free-only_second path cs ds (λ k free'. ground (arith, h k free', find-first k j m ds)))
]

-- What is said of the first child of a list, and of the others.
compare_child :
    (t : Bool) (path : Bytes) (ds : Children) (j : Bytes) (x : Node) (cs : Children)
    → compare_children t path (child j x cs) ds ≡ []
    → ((m : Node) × (find j ds ≡ some m) × (compare_node t (child_path path j) x m ≡ []))
      × (compare_children t path cs ds ≡ [])
unfolding compare_children
compare_child t path ds j x cs e = elim (Option-cases (find j ds)) [
  | inl free ↦ absurd (ground (arith, rw free at e))
  | inr (m, found) ↦
      let (here, rest) =
        nothing-append (compare_node t (child_path path j) x m) _ (rw found at e) in
      ((m, found, here), rest)
]

-- With no difference below the first node's children, each of them stands in the second node too.
pub compare_children-found :
    (t : Bool) (path : Bytes) (cs ds : Children) (k : Bytes) (n : Node)
    → compare_children t path cs ds ≡ []
    → find k cs ≡ some n
    → (m : Node) × (find k ds ≡ some m) × (compare_node t (child_path path k) n m ≡ [])
compare_children-found t path nil ds k n e found = absurd (find-nil k n found)
compare_children-found t path (child j x cs) ds k n e found =
    let (here, rest) = compare_child t path ds j x cs e in
    elim (Bool-cases (bytes_eq j k)) [
      | inl same ↦
          rw
            (
              (bytes_eq_iff j k).0 same,
              some-injective x n (rw (find-first k j x cs, same) at found),
            )
            at here
      | inr other ↦
          compare_children-found t path cs ds k n rest (rw (find-first k j x cs, other) at found)
    ]

pub view-root : (n : Node) → view n [] ≡ some (file_of n)
unfolding view
view-root (node f cs) = refl

pub view-none :
    (f : ContentFile) (cs : Children) (q : Bytes) (qs : List Bytes)
    → find q cs ≡ none
    → view (node f cs) (q ∷ qs) ≡ none
unfolding view
view-none f cs q qs e = ground (arith, e)

pub view-some :
    (f : ContentFile) (cs : Children) (q : Bytes) (qs : List Bytes) {n : Node}
    → find q cs ≡ some n
    → view (node f cs) (q ∷ qs) ≡ view n qs
unfolding view
view-some f cs q qs e = ground (arith, e)

-- What two nodes have to satisfy so that no difference is found.
pub compare_node-parts :
    (t : Bool) (path : Bytes) (f : ContentFile) (cs : Children) (m : Node)
    → compare_node t path (node f cs) m ≡ []
    → (similar_files t f (file_of m) ≡ true)
      × (compare_children t path cs (children_of m) ≡ [])
      × (only_second path cs (children_of m) ≡ [])
unfolding compare_node
compare_node-parts t path f cs m e =
    let (files, below) = nothing-append (compare_files t path (node f cs) m) _ e in
    let (found, free) = nothing-append (compare_children t path cs (children_of m)) _ below in
    ((compare_files-agree t path (node f cs) m).0 files, found, free)
