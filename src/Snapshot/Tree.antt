-- ===== src/Snapshot/Tree.antt =====
-- lib/snapshot: the nodes of mem_fs.go, and the methods `updateMemFS` of mem_layer.go.
use makisu.Base.{
  Bool, true, false, Option, some, none, List, [], ◌∷◌, if◌then◌else◌, Bytes, bytes_eq, Result, ok,
  err, ◌>>=◌,
}
use makisu.Paths.{split_path}
use makisu.Snapshot.Header.{Typeflag, Header}

pub record ContentFile : Type 0 where
  pub src : Bytes
  pub dst : Bytes
  pub hdr : Header

-- A node and its children by base name, each name once.
mutual
  pub data Node : Type 0 where
    node : ContentFile → Children → Node

  pub data Children : Type 0 where
    nil : Children
    child : Bytes → Node → Children → Children

abbrev pub file_of : Node → ContentFile
file_of (node f cs) = f

abbrev pub children_of : Node → Children
children_of (node f cs) = cs

-- `n, ok := children[part]`
unfoldable pub find : Bytes → Children → Option Node
find k nil = none
find k (child j n cs) = if bytes_eq j k then some n else find k cs

-- `children[part] = n`
unfoldable pub put : Bytes → Node → Children → Children
put k n nil = child k n nil
put k n (child j m cs) = if bytes_eq j k then child k n cs else child j m (put k n cs)

-- `delete(children, part)`
unfoldable pub remove : Bytes → Children → Children
remove k nil = nil
remove k (child j m cs) = if bytes_eq j k then remove k cs else child j m (remove k cs)

abbrev pub is_dir : ContentFile → Bool
is_dir f = elim f.hdr.typeflag [ Typeflag.dir ↦ true | _ ↦ false ]

-- What both methods fail with.
pub data TreeError : Type 0 where
  missing_intermediate : TreeError

-- The node for a file, with the children of the node in its place if it is a directory.
abbrev pub replacing : ContentFile → Option Node → Node
replacing f none = node f nil
replacing f (some n) = node f (if is_dir f then children_of n else nil)

-- The loop of `(*contentMemFile).updateMemFS` on the parts left.
unfoldable pub update_content : ContentFile → List Bytes → Node → Result TreeError Node
unfolding find put
update_content f [] n = ok n
update_content f (p ∷ []) (node m cs) = ok (node m (put p (replacing f (find p cs)) cs))
update_content f (p ∷ q ∷ ps) (node m cs) = elim (find p cs) [
  | none ↦ err missing_intermediate
  | some n ↦ do n' ← update_content f (q ∷ ps) n; ok (node m (put p n' cs))
]

-- The loop of `(*whiteoutMemFile).updateMemFS` on the parts left.
unfoldable pub update_whiteout : List Bytes → Node → Result TreeError Node
unfolding find put remove
update_whiteout [] n = ok n
update_whiteout (p ∷ []) (node m cs) = ok (node m (remove p cs))
update_whiteout (p ∷ q ∷ ps) (node m cs) = elim (find p cs) [
  | none ↦ err missing_intermediate
  | some n ↦ do n' ← update_whiteout (q ∷ ps) n; ok (node m (put p n' cs))
]

-- One file of a layer: content, or the path that it deletes with the header of the whiteout.
pub data MemFile : Type 0 where
  content : ContentFile → MemFile
  whiteout : Bytes → Header → MemFile

unfoldable pub update_mem_fs : MemFile → Node → Result TreeError Node
unfolding update_content update_whiteout split_path
update_mem_fs (content f) n = update_content f (split_path f.dst) n
update_mem_fs (whiteout del hdr) n = update_whiteout (split_path del) n
