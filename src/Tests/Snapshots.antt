-- ===== src/Tests/Snapshots.antt =====
-- Runs of lib/snapshot, and its theorems at concrete inputs.
use makisu.Base.{
  Bool, true, Option, some, err, if◌then◌else◌, false, List, [], ◌∷◌, ◌≡◌, ◌↔◌, refl, Bytes, codes,
  Result, ok, bytes_eq, insert,
}
use makisu.Text.{after_prefix, trim_right, has_prefix}
use makisu.Paths.{join_path, split_file, abs_path, split_path}
use makisu.Snapshot.Header.{Header, Typeflag}
use makisu.Snapshot.Tree.{
  ContentFile, Node, content, node, nil, child, find, put, remove, update_content, update_whiteout,
}
use makisu.Snapshot.Overlay.{
  view, with_file, without, update_content-with_file, update_whiteout-without,
}
use makisu.Snapshot.Layer.{MemLayer, FsError}
use makisu.Snapshot.MemFs.{MemFs, Disk, maybe_add_to_layer}
use makisu.Snapshot.MemFs.Placed.{IsPlaced}
use makisu.Snapshot.MemFs.Repeated.{maybe_add_to_layer-idempotent}
use makisu.Snapshot.Links.{eval_symlinks, walk_link, index_out_of_range}
use makisu.Snapshot.Links.Ended.{ran_out, eval_symlinks_ends}
use makisu.Snapshot.Compare.{compare_fs}
use makisu.Snapshot.Compare.Parts.{agree, has_distinct_names}
use makisu.Snapshot.Compare.Agreement.{compare_fs-agree}
use makisu.Snapshot.Merge.{update_from_tar_reader}
use makisu.Snapshot.Merge.Built.{IsBuilt, empty, archive, IsBuilt-IsPlaced}

abbrev root_header : Header
root_header = record {
  name = [];
  typeflag = Typeflag.dir;
  linkname = [];
  uid = 0;
  gid = 0;
  size = 0;
  mode = 493;
  mod_time = 0;
}

abbrev etc_header : Header
etc_header = record root_header { name = codes "etc" }

abbrev root_file : ContentFile
root_file = record { src = codes "/"; dst = codes "/"; hdr = root_header }

abbrev etc_file : ContentFile
etc_file = record { src = codes "/etc"; dst = codes "/etc"; hdr = etc_header }

abbrev etc_path : List Bytes
etc_path = codes "etc" ∷ []

abbrev root_node : Node
root_node = node root_file nil

abbrev etc_node : Node
etc_node = node root_file (child (codes "etc") (node etc_file nil) nil)

abbrev disk : Disk
disk = record { root = codes "/"; is_on_disk = λ p. ok true; now = 0 }

adds_etc : update_content etc_file etc_path root_node ≡ ok etc_node
unfolding update_content find put
adds_etc = refl

update_content-with_file_example :
    view etc_node etc_path ≡ with_file etc_file etc_path (view root_node) etc_path
update_content-with_file_example =
    update_content-with_file etc_file etc_path root_node (λ e. cc) adds_etc etc_path

removes_etc : update_whiteout etc_path etc_node ≡ ok root_node
unfolding update_whiteout remove bytes_eq
removes_etc = refl

update_whiteout-without_example :
    view root_node etc_path ≡ without etc_path (view etc_node) etc_path
update_whiteout-without_example =
    update_whiteout-without etc_path etc_node (λ e. cc) removes_etc etc_path

compare_fs-agree_example :
    compare_fs etc_node root_node true ≡ []
    ↔ ((qs : List Bytes) → agree true (view etc_node qs) (view root_node qs) ≡ true)
unfolding has_distinct_names find
compare_fs-agree_example = compare_fs-agree etc_node root_node true refl

-- An empty file system with the one directory of an archive.
abbrev skip_none : Bytes → Header → Result FsError Bool
skip_none p h = ok false

abbrev etc_fs : MemFs
etc_fs = record { tree = etc_node; layer = (codes "/etc", content etc_file) ∷ [] }

merges_etc : update_from_tar_reader disk skip_none (etc_header ∷ []) root_node ≡ ok etc_fs
unfolding update_from_tar_reader insert
merges_etc = refl

etc_node-IsBuilt : IsBuilt root_file etc_node
etc_node-IsBuilt = archive disk skip_none (etc_header ∷ []) root_node etc_fs merges_etc empty

IsBuilt-IsPlaced_example : IsPlaced etc_node
IsBuilt-IsPlaced_example = IsBuilt-IsPlaced root_file etc_node etc_node-IsBuilt

adds_once :
    maybe_add_to_layer disk
      (codes "/etc")
      (codes "/etc")
      etc_header
      false
      (record { tree = root_node; layer = [] })
    ≡ ok etc_fs
unfolding maybe_add_to_layer insert
adds_once = refl

maybe_add_to_layer-idempotent_example :
    maybe_add_to_layer disk (codes "/etc") (codes "/etc") etc_header false etc_fs ≡ ok etc_fs
unfolding split_path abs_path after_prefix split_file
maybe_add_to_layer-idempotent_example =
    maybe_add_to_layer-idempotent disk (codes "/etc") (codes "/etc") etc_header
      (record { tree = root_node; layer = [] }) refl (λ e. cc) refl refl adds_once

-- The files of a layer in the order in which they are written.
abbrev two_layer : MemLayer
two_layer = (codes "/etc", content etc_file) ∷ (codes "/bin", content etc_file) ∷ []

-- Two links that point at each other, and a link to the root.
abbrev cycle : Bytes → Option Bytes
cycle p = some (if bytes_eq p (codes "/r/a") then codes "b" else codes "a")

eval_symlinks_ends_example :
    ran_out (eval_symlinks (λ p. some true) cycle (codes "/r") (codes "a")) ≡ false
eval_symlinks_ends_example = eval_symlinks_ends (λ p. some true) cycle (codes "/r") (codes "a")

link_to_root :
    eval_symlinks
      (λ p. some (bytes_eq p (codes "/r/d/l")))
      (λ p. some (codes "/r"))
      (codes "/r")
      (codes "d/l")
    ≡ err index_out_of_range
unfolding eval_symlinks bytes_eq split_file trim_right walk_link join_path has_prefix
link_to_root = refl
