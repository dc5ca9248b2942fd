-- ===== src/Snapshot/MemFs.antt =====
-- lib/snapshot/mem_fs.go: the merged view of the layers of an image, and how it is updated.
pub mod Kept
pub mod Placed
pub mod Repeated
use makisu.Base.{
  ℕ, zero, suc, Bool, true, false, not, ◌&&◌, ◌||◌, Option, some, none, List, [], ◌∷◌, ◌++◌, ◌-◌,
  ◌==◌, if◌then◌else◌, Bytes, bytes_eq, codes, Result, ok, err, ◌>>=◌, length,
}
use makisu.Paths.{slash, abs_path, rel_path, join_path, split_path}
use makisu.Snapshot.Header.{Typeflag, Header, is_similar_header}
use makisu.Snapshot.Tree.{
  ContentFile, Node, Children, MemFile, TreeError, nil, child, file_of, children_of, find,
  update_mem_fs,
}
use makisu.Snapshot.Layer.{
  FsError, MemLayer, missing_intermediate_dir, symlink_loop, unsupported_type, add_header,
  add_whiteout,
}

-- The tree, and the layer that is being made.
pub record MemFs : Type 0 where
  pub tree : Node
  pub layer : MemLayer

-- What does not change: the root on disk, whether a path is on disk, and the time now.
pub record Disk : Type 0 where
  pub root : Bytes
  pub is_on_disk : Bytes → Result FsError Bool
  pub now : ℕ

-- The node at a path, without following symbolic links.
unfoldable pub node_at : List Bytes → Node → Option Node
unfolding find
node_at [] n = some n
node_at (p ∷ ps) n = elim (find p (children_of n)) [ none ↦ none | some m ↦ node_at ps m ]

-- `(*MemFS).isUpdated`
unfoldable pub is_updated : Bytes → Header → Node → Result FsError (Bool × Option Node)
unfolding node_at split_path is_similar_header
is_updated p hdr tree = elim (node_at (split_path p) tree) [
  | none ↦ ok (true, none)
  | some n ↦ elim (is_similar_header (file_of n).hdr hdr false) [
    | none ↦ err unsupported_type
    | some similar ↦ ok (not similar, some n)
  ]
]

-- `updateMemFS` of a file that was added to the layer.
abbrev pub apply_file : MemFile × MemLayer → MemFs → Result FsError MemFs
apply_file added fs = elim (update_mem_fs added.0 fs.tree) [
  | err e ↦ err missing_intermediate_dir
  | ok tree ↦ ok (record { tree = tree; layer = added.1 })
]

-- `l.addHeader(src, dst, hdr).updateMemFS(fs.tree)`
unfoldable pub add_file : Bytes → Bytes → Header → MemFs → Result FsError MemFs
unfolding update_mem_fs add_header
add_file src dst hdr fs = apply_file (add_header src dst hdr fs.layer) fs

-- The header of a missing directory: that of the last ancestor, with the owner given and the time now.
abbrev created_header : Disk → ℕ → ℕ → Header → Bytes → Header
created_header disk uid gid last path = record last {
  name = rel_path path;
  linkname = [];
  uid = uid;
  gid = gid;
  size = 0;
  mod_time = disk.now;
}

module _ (disk : Disk) (inclusive : Bool) (uid gid : ℕ) where
  -- The second loop of `addAncestors`, on the missing parts behind those that are there.
  unfoldable pub create_missing :
      Header → List Bytes → ℕ → List Bytes → MemFs → Result FsError MemFs
  unfolding add_file abs_path join_path rel_path
  create_missing last before zero left fs = ok fs
  create_missing last before (suc n) [] fs = ok fs
  create_missing last before (suc n) (part ∷ left) fs = do
    let path = abs_path (join_path (before ++ part ∷ []))
    fs' ← add_file [] path (created_header disk uid gid last path) fs
    create_missing last (before ++ part ∷ []) n left fs'

  -- The first loop of `addAncestors`, with as many parts to go as the number says; `follow` is the
  -- call for the target of a symbolic link. The nodes are read from the tree as it was at the start
  -- of the call, since an update puts new nodes in the place of those on its path.
  unfoldable pub visit_ancestors :
      (MemFs → Bytes → Result FsError (Bytes × MemFs))
      → Bytes
      → Header
      → Node
      → List Bytes
      → ℕ
      → List Bytes
      → MemFs
      → Result FsError (Bytes × MemFs)
  unfolding create_missing add_file join_path find
  visit_ancestors follow dst last curr before zero left fs = ok (dst, fs)
  visit_ancestors follow dst last curr before (suc n) [] fs = ok (dst, fs)
  visit_ancestors follow dst last curr before (suc n) (part ∷ left) fs =
      elim (find part (children_of curr)) [
        | none ↦ do fs' ← create_missing last before (suc n) (part ∷ left) fs; ok (dst, fs')
        | some m ↦ do
          let f = file_of m
          fs' ← add_file f.src f.dst f.hdr fs
          elim f.hdr.typeflag [
            | Typeflag.dir ↦ visit_ancestors follow dst f.hdr m (before ++ part ∷ []) n left fs'
            | Typeflag.symlink ↦ follow fs' (join_path (f.hdr.linkname ∷ join_path left ∷ []))
            | _ ↦ visit_ancestors follow dst last curr (before ++ part ∷ []) n left fs'
          ]
      ]

  -- `(*MemFS).addAncestors`, on 1024 less the depth; it gives the path with its links resolved.
  unfoldable pub add_ancestors_from : ℕ → MemFs → Bytes → Result FsError (Bytes × MemFs)
  unfolding visit_ancestors split_path
  add_ancestors_from zero fs dst = err symlink_loop
  add_ancestors_from (suc depth) fs dst =
      let parts = split_path dst in
      visit_ancestors (add_ancestors_from depth) dst (file_of fs.tree).hdr fs.tree []
        (if inclusive then length parts else length parts - 1) parts fs

  abbrev pub max_depth : ℕ
  max_depth = 1024

  unfoldable pub add_ancestors : Bytes → MemFs → Result FsError (Bytes × MemFs)
  unfolding add_ancestors_from
  add_ancestors dst fs = add_ancestors_from max_depth fs dst

module _ (disk : Disk) where
  -- The part of `maybeAddToLayer` that adds a changed file; the root is never added.
  unfoldable pub add_changed : Bytes → Bytes → Header → Bool → MemFs → Result FsError MemFs
  unfolding add_ancestors add_file abs_path bytes_eq
  add_changed src dst hdr updated fs =
      if updated && not (bytes_eq dst slash)
      then (do (_, fs') ← add_ancestors disk false 0 0 (abs_path dst) fs; add_file src dst hdr fs')
      else ok fs

  -- The deletion of one child that is not on disk.
  unfoldable pub whiteout_file : Bytes → MemFs → Result FsError MemFs
  unfolding add_whiteout add_ancestors update_mem_fs
  whiteout_file path fs = do
    added ← add_whiteout path fs.layer
    fs' ← apply_file added fs
    (_, fs'') ← add_ancestors disk false 0 0 path fs'
    ok fs''

  -- The loop over the children of a directory.
  unfoldable pub whiteout_missing : Children → MemFs → Result FsError MemFs
  unfolding whiteout_file
  whiteout_missing nil fs = ok fs
  whiteout_missing (child k n cs) fs = do
    stays ← disk.is_on_disk (file_of n).src
    if stays
        then whiteout_missing cs fs
        else (do fs' ← whiteout_file (file_of n).dst fs; whiteout_missing cs fs')

  -- The part of `maybeAddToLayer` that handles deletions.
  unfoldable pub add_deletions : Header → Option Node → MemFs → Result FsError MemFs
  unfolding whiteout_missing
  add_deletions hdr none fs = ok fs
  add_deletions hdr (some n) fs = elim hdr.typeflag [
    | Typeflag.dir ↦ whiteout_missing (children_of n) fs
    | _ ↦ ok fs
  ]

  -- `(*MemFS).maybeAddToLayer`
  unfoldable pub maybe_add_to_layer : Bytes → Bytes → Header → Bool → MemFs → Result FsError MemFs
  unfolding is_updated add_changed add_deletions
  maybe_add_to_layer src dst hdr create_whiteout fs = do
    (updated, n) ← is_updated dst hdr fs.tree
    fs' ← add_changed src dst hdr updated fs
    if create_whiteout then add_deletions hdr n fs' else ok fs'
