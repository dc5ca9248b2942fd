-- ===== src/Snapshot/Merge/Built.antt =====
-- The trees that can come up, as the results of the operations of `MemFS` on an empty file system.
use makisu.Base.{Bool, List, [], ◌∷◌, ◌≡◌, refl, arith, Bytes, Result, ok}
use makisu.Snapshot.Header.{Header}
use makisu.Snapshot.Tree.{ContentFile, Node, MemFile, node, nil, update_mem_fs}
use makisu.Snapshot.Overlay.{view}
use makisu.Snapshot.Layer.{FsError}
use makisu.Snapshot.MemFs.{MemFs, Disk}
use makisu.Snapshot.MemFs.Placed.{IsPlaced, update_mem_fs-IsPlaced}
use makisu.Snapshot.CopyOp.{CopyOperation}
use makisu.Snapshot.Walk.{Walked}
use makisu.Snapshot.Merge.{update_from_tar_reader, create_layer_by_scan, add_copies}
use makisu.Snapshot.Merge.Kept.{update_from_tar_reader-keeps, scan_files-keeps, add_copies-keeps}

-- `NewMemFS` and `Reset` make the root alone; each of the others merges one more layer, on the
-- disk as it is at that time.
pub data IsBuilt (root : ContentFile) : Node → Type 0 where
  empty : IsBuilt root (node root nil)
  archive :
      (disk : Disk) (skips : Bytes → Header → Result FsError Bool) (hs : List Header) (n : Node)
      (fs : MemFs)
      → update_from_tar_reader disk skips hs n ≡ ok fs
      → IsBuilt root n
      → IsBuilt root fs.tree
  scan :
      (disk : Disk) (walked : List Walked) (n : Node) (fs : MemFs)
      → create_layer_by_scan disk walked n ≡ ok fs
      → IsBuilt root n
      → IsBuilt root fs.tree
  copies :
      (disk : Disk) (eval_symlinks : Bytes → Bytes → Result FsError Bytes)
      (walk : Bytes → Result FsError (List Walked))
      → (stat_is_dir : Bytes → Result FsError Bool) (cs : List CopyOperation) (n : Node)
        (fs : MemFs)
      → add_copies disk eval_symlinks walk stat_is_dir cs (record { tree = n; layer = [] }) ≡ ok fs
      → IsBuilt root n
      → IsBuilt root fs.tree

module _ (root : ContentFile) where
  -- What holds of the root alone, and is kept by every update, holds of every tree.
  IsBuilt-keeps :
      (P : Node → Type 0)
      → ((f : MemFile) (n n' : Node) → update_mem_fs f n ≡ ok n' → P n → P n')
      → P (node root nil)
      → (n : Node) → IsBuilt root n
      → P n
  unfolding create_layer_by_scan
  IsBuilt-keeps P updated first n empty = first
  IsBuilt-keeps P updated first n (archive disk skips hs m fs e b) =
      update_from_tar_reader-keeps P updated disk skips hs m e (IsBuilt-keeps P updated first m b)
  IsBuilt-keeps P updated first n (scan disk walked m fs e b) =
      scan_files-keeps P updated disk walked _ e (IsBuilt-keeps P updated first m b)
  IsBuilt-keeps P updated first n (copies disk eval_symlinks walk stat_is_dir cs m fs e b) =
      add_copies-keeps P updated disk eval_symlinks walk stat_is_dir cs _ e
        (IsBuilt-keeps P updated first m b)

empty-IsPlaced : (root : ContentFile) → IsPlaced (node root nil)
unfolding view
empty-IsPlaced root [] f below_root there = absurd (below_root refl)
empty-IsPlaced root (q ∷ qs) f below_root there = absurd (ground (arith, there))

-- In every tree that archives, scans and copies without errors make of a root alone, each file
-- below the root stands at the path in its `dst`.
pub IsBuilt-IsPlaced : (root : ContentFile) (n : Node) → IsBuilt root n → IsPlaced n
IsBuilt-IsPlaced root = IsBuilt-keeps root IsPlaced update_mem_fs-IsPlaced (empty-IsPlaced root)
