-- ===== src/Snapshot/Merge.antt =====
-- lib/snapshot/mem_fs.go: the layers that are made of an archive, of a scan and of copies.
pub mod Kept
pub mod Built
use makisu.Base.{
  ℕ, zero, suc, Bool, true, false, not, ◌==◌, Option, some, none, List, [], ◌∷◌, ◌++◌,
  if◌then◌else◌, Bytes, bytes_eq, Result, ok, err, ◌>>=◌, Dict, insert, length,
}
use makisu.Paths.{ends_in_slash, slash, abs_path, rel_path, join_path, trim_root, base}
use makisu.Snapshot.Header.{Header, Typeflag}
use makisu.Snapshot.Tree.{Node}
use makisu.Snapshot.Layer.{FsError, MemLayer, not_in_root, create_header, sorted_files}
use makisu.Snapshot.MemFs.{MemFs, Disk, add_ancestors, maybe_add_to_layer}
use makisu.Snapshot.CopyOp.{CopyOperation}
use makisu.Snapshot.Walk.{Walked}

-- `p[n:]`
abbrev from_offset : ℕ → Bytes → Bytes
from_offset zero p = p
from_offset (suc n) [] = []
from_offset (suc n) (c ∷ cs) = from_offset n cs

module _ (disk : Disk) where
  -- `fs.maybeAddToLayer` of a header of an archive.
  unfoldable pub merge_header : Header → MemFs → Result FsError MemFs
  unfolding maybe_add_to_layer abs_path
  merge_header hdr fs = maybe_add_to_layer disk (abs_path hdr.name) (abs_path hdr.name) hdr false fs

  -- The pass over the hard links, by their paths; the order of a Go map is any.
  unfoldable pub merge_hardlinks : Dict Header → MemFs → Result FsError MemFs
  unfolding merge_header
  merge_hardlinks [] fs = ok fs
  merge_hardlinks ((path, hdr) ∷ links) fs = do fs' ← merge_header hdr fs; merge_hardlinks links fs'

  -- The loop over the headers of an archive, which puts the hard links aside; `skips` is
  -- `shouldSkip` and `IsMounted`.
  unfoldable pub merge_headers :
      (Bytes → Header → Result FsError Bool)
      → List Header
      → Dict Header
      → MemFs
      → Result FsError (Dict Header × MemFs)
  unfolding merge_header join_path rel_path abs_path
  merge_headers skips [] links fs = ok (links, fs)
  merge_headers skips (h ∷ hs) links fs = do
    let path = join_path (disk.root ∷ h.name ∷ [])
    skip ← skips path h
    let hdr = record h { name = rel_path h.name }
    elim skip [
      | true ↦ merge_headers skips hs links fs
      | false ↦ elim h.typeflag [
        | Typeflag.link ↦
            merge_headers skips hs
              (insert path (record hdr { linkname = abs_path h.linkname }) links) fs
        | _ ↦ do fs' ← merge_header hdr fs; merge_headers skips hs links fs'
      ]
    ]

  -- `(*MemFS).UpdateFromTarReader` where nothing is untarred.
  unfoldable pub update_from_tar_reader :
      (Bytes → Header → Result FsError Bool) → List Header → Node → Result FsError MemFs
  unfolding merge_headers merge_hardlinks
  update_from_tar_reader skips hdrs tree = do
    (links, fs) ← merge_headers skips hdrs [] (record { tree = tree; layer = [] })
    merge_hardlinks links fs

  -- What the walk of a scan does with one file.
  unfoldable pub scan_file : Walked → MemFs → Result FsError MemFs
  unfolding trim_root create_header maybe_add_to_layer
  scan_file w fs = elim (trim_root w.path disk.root) [
    | none ↦ err not_in_root
    | some dst ↦ do
      hdr ← create_header disk.root w.path dst w.info w.target
      maybe_add_to_layer disk w.path dst hdr true fs
  ]

  -- The walk of `(*MemFS).createLayerByScan`, over the files in its order.
  unfoldable pub scan_files : List Walked → MemFs → Result FsError MemFs
  unfolding scan_file
  scan_files [] fs = ok fs
  scan_files (w ∷ ws) fs = do fs' ← scan_file w fs; scan_files ws fs'

  -- `(*MemFS).createLayerByScan`
  unfoldable pub create_layer_by_scan : List Walked → Node → Result FsError MemFs
  unfolding scan_files
  create_layer_by_scan walked tree = scan_files walked (record { tree = tree; layer = [] })

  -- Where the walk of a copied source puts a file; `none` is the source itself if it is a directory.
  unfoldable pub copy_destination : Bytes → Bytes → Walked → Option Bytes
  unfolding bytes_eq join_path base
  copy_destination src dst w =
      if bytes_eq w.path src
      then (elim w.info.typeflag [
        | Typeflag.dir ↦ none
        | _ ↦ some (if not (ends_in_slash dst) then dst else join_path (dst ∷ base src ∷ []))
      ])
      else some (join_path (dst ∷ from_offset (length src) w.path ∷ []))

  -- The walk over one source, with the owner of the operation.
  unfoldable pub copy_walked : CopyOperation → Bytes → List Walked → MemFs → Result FsError MemFs
  unfolding copy_destination create_header maybe_add_to_layer
  copy_walked c src [] fs = ok fs
  copy_walked c src (w ∷ ws) fs = elim (copy_destination src c.dst w) [
    | none ↦ copy_walked c src ws fs
    | some dst ↦ do
      hdr ← create_header disk.root w.path dst w.info w.target
      fs' ← maybe_add_to_layer disk w.path dst (record hdr { uid = c.uid; gid = c.gid }) false fs
      copy_walked c src ws fs'
  ]

  module _ (eval_symlinks : Bytes → Bytes → Result FsError Bytes)
      (walk : Bytes → Result FsError (List Walked)) where
    -- The loop of `addToLayer` over the sources.
    unfoldable pub copy_sources : CopyOperation → List Bytes → MemFs → Result FsError MemFs
    unfolding copy_walked join_path
    copy_sources c [] fs = ok fs
    copy_sources c (s ∷ ss) fs = do
      resolved ← eval_symlinks s c.src_root
      let src = join_path (c.src_root ∷ resolved ∷ [])
      files ← walk src
      fs' ← copy_walked c src files fs
      copy_sources c ss fs'

    -- Whether the destination is a directory that has to be there: not for a single file.
    unfoldable pub creates_dst : (Bytes → Result FsError Bool) → CopyOperation → Result FsError Bool
    unfolding join_path
    creates_dst stat_is_dir c = elim c.srcs [
      | s ∷ [] ↦ stat_is_dir (join_path (c.src_root ∷ s ∷ []))
      | _ ↦ ok true
    ]

    -- The operation with its destination as a directory.
    abbrev pub into_dir : CopyOperation → Bytes → CopyOperation
    into_dir c resolved = record c {
      dst = if ends_in_slash resolved then resolved else resolved ++ slash;
    }

    -- `(*MemFS).addToLayer`
    unfoldable pub add_to_layer :
        (Bytes → Result FsError Bool) → CopyOperation → MemFs → Result FsError MemFs
    unfolding creates_dst copy_sources add_ancestors abs_path
    add_to_layer stat_is_dir c fs = do
      create_dst ← creates_dst stat_is_dir c
      elim create_dst [
        | false ↦ copy_sources c c.srcs fs
        | true ↦ do
          (resolved, fs') ← add_ancestors disk true c.uid c.gid (abs_path c.dst) fs
          copy_sources (into_dir c resolved) c.srcs fs'
      ]

    unfoldable pub add_copies :
        (Bytes → Result FsError Bool) → List CopyOperation → MemFs → Result FsError MemFs
    unfolding add_to_layer
    add_copies stat_is_dir [] fs = ok fs
    add_copies stat_is_dir (c ∷ cs) fs = do
      fs' ← add_to_layer stat_is_dir c fs
      add_copies stat_is_dir cs fs'
