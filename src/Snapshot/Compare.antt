-- ===== src/Snapshot/Compare.antt =====
-- lib/snapshot/mem_fs.go: `CompareFS`, which finds the differences between two images.
pub mod Parts
pub mod Agreement
use makisu.Base.{Bool, true, false, ◌&&◌, Option, some, none, List, [], ◌∷◌, ◌++◌, Bytes}
use makisu.Paths.{slash, join_path}
use makisu.Snapshot.Header.{is_similar_header}
use makisu.Snapshot.Tree.{ContentFile, Node, Children, node, nil, child, file_of, children_of, find}

-- The entries of the four maps that `compareNode` fills, the two maps of differences as one.
pub data Difference : Type 0 where
  missing_in_first : Bytes → Node → Difference
  missing_in_second : Bytes → Node → Difference
  differing : Bytes → Node → Node → Difference

-- `IsSimilarHeader`, whose error is not looked at.
abbrev pub similar_files : Bool → ContentFile → ContentFile → Bool
similar_files ignore_time f g = elim (is_similar_header f.hdr g.hdr ignore_time) [
  | none ↦ false
  | some similar ↦ similar
]

abbrev pub compare_files : Bool → Bytes → Node → Node → List Difference
compare_files ignore_time path n m = elim (similar_files ignore_time (file_of n) (file_of m)) [
  | true ↦ []
  | false ↦ differing path n m ∷ []
]

abbrev pub child_path : Bytes → Bytes → Bytes
child_path path k = join_path (path ∷ k ∷ [])

-- The children that only the second node has.
unfoldable pub only_second : Bytes → Children → Children → List Difference
unfolding find join_path
only_second path cs nil = []
only_second path cs (child k m ds) = elim (find k cs) [
  | none ↦ missing_in_first (child_path path k) m ∷ only_second path cs ds
  | some n ↦ only_second path cs ds
]

unfoldable mutual
  unfolding find join_path only_second is_similar_header

  -- `compareNode`
  pub compare_node : Bool → Bytes → Node → Node → List Difference
  compare_node ignore_time path (node f cs) m =
      compare_files ignore_time path (node f cs) m
      ++ (compare_children ignore_time path cs (children_of m)
          ++ only_second path cs (children_of m))

  -- The children of the first node.
  pub compare_children : Bool → Bytes → Children → Children → List Difference
  compare_children ignore_time path nil ds = []
  compare_children ignore_time path (child k n cs) ds =
      elim (find k ds) [
        | none ↦ missing_in_second (child_path path k) n ∷ []
        | some m ↦ compare_node ignore_time (child_path path k) n m
      ]
      ++ compare_children ignore_time path cs ds

-- `CompareFS`, less what it logs.
unfoldable pub compare_fs : Node → Node → Bool → List Difference
unfolding compare_node
compare_fs tree1 tree2 ignore_time = compare_node ignore_time slash tree1 tree2
