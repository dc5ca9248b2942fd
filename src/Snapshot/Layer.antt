-- ===== src/Snapshot/Layer.antt =====
-- lib/snapshot/mem_layer.go: a layer of an image, in memory.
use makisu.Base.{
  ltb, Bool, true, false, ◌&&◌, ◌||◌, Option, some, none, [], ◌∷◌, ◌++◌, ◌==◌, if◌then◌else◌, Bytes,
  codes, Result, ok, err, Dict, insert,
}
use makisu.Text.{after_prefix, has_prefix}
use makisu.Paths.{
  ends_in_slash, slash, is_abs, abs_path, rel_path, join_path, split_file, trim_root,
}
use makisu.Snapshot.Header.{Typeflag, Header}
use makisu.Snapshot.Tree.{MemFile, content, whiteout}

-- What the operations of the package fail with; a file system or a tar reader may fail too.
pub data FsError : Type 0 where
  missing_intermediate_dir symlink_loop unsupported_type whiteout_base not_in_root : FsError
  no_symlink_on_disk check_failed : FsError

abbrev pub whiteout_prefix : Bytes
whiteout_prefix = codes ".wh."

abbrev pub whiteout_meta_prefix : Bytes
whiteout_meta_prefix = codes ".wh..wh."

-- `memLayer`: the files by their paths.
abbrev pub MemLayer : Type 0
MemLayer = Dict MemFile

-- `(*memLayer).createHeader`, from the header that `tar.FileInfoHeader` makes of the file
-- information, and from the target that a symbolic link has on disk.
unfoldable pub create_header : Bytes → Bytes → Bytes → Header → Option Bytes → Result FsError Header
unfolding rel_path abs_path trim_root
create_header root src dst info target =
    let hdr = record info { name = rel_path dst } in
    elim info.typeflag [
      | Typeflag.dir ↦
          ok (if ends_in_slash (abs_path src) then hdr else record hdr { name = hdr.name ++ slash })
      | Typeflag.symlink ↦ elim target [
        | none ↦ err no_symlink_on_disk
        | some t ↦
            if is_abs t
            then (elim (trim_root t root) [
              | none ↦ err not_in_root
              | some u ↦ ok (record hdr { linkname = u })
            ])
            else ok (record hdr { linkname = t })
      ]
      | _ ↦ ok hdr
    ]

-- The header of a whiteout: only its name is set.
abbrev pub whiteout_header : Bytes → Header
whiteout_header path = record {
  name = rel_path path;
  typeflag = Typeflag.reg_a;
  linkname = [];
  uid = 0;
  gid = 0;
  size = 0;
  mode = 0;
  mod_time = 0;
}

-- The file that `addHeader` makes, and its key.
unfoldable pub file_for : Bytes → Bytes → Header → Bytes × MemFile
unfolding abs_path split_file after_prefix
file_for src dst hdr =
    let d = abs_path dst in
    let (dir, base) = split_file d in
    elim (after_prefix whiteout_prefix base) [
      | some rest ↦ (dir ++ rest, whiteout (dir ++ rest) (whiteout_header d))
      | none ↦ (d, content (record { src = abs_path src; dst = d; hdr = hdr }))
    ]

-- `(*memLayer).addHeader`
unfoldable pub add_header : Bytes → Bytes → Header → MemLayer → MemFile × MemLayer
unfolding file_for
add_header src dst hdr l = let (key, f) = file_for src dst hdr in (f, insert key f l)

-- `(*memLayer).addWhiteout`
unfoldable pub add_whiteout : Bytes → MemLayer → Result FsError (MemFile × MemLayer)
unfolding abs_path split_file join_path has_prefix
add_whiteout p l =
    let (dir, base) = split_file (abs_path p) in
    if has_prefix base whiteout_prefix
    then err whiteout_base
    else (let f = whiteout p (whiteout_header (join_path (dir ∷ (whiteout_prefix ++ base) ∷ []))) in
        ok (f, insert p f l))

-- `s < t` on strings.
unfoldable pub bytes_lt : Bytes → Bytes → Bool
bytes_lt s [] = false
bytes_lt [] (d ∷ ds) = true
bytes_lt (c ∷ cs) (d ∷ ds) = ltb c d || c == d && bytes_lt cs ds

unfoldable pub insert_sorted : Bytes → MemFile → MemLayer → MemLayer
unfolding bytes_lt
insert_sorted k f [] = (k, f) ∷ []
insert_sorted k f ((j, g) ∷ l) =
    let rest = insert_sorted k f l in if bytes_lt j k then (j, g) ∷ rest else (k, f) ∷ (j, g) ∷ l

-- The files in the order in which `rangeFiles` visits them.
unfoldable pub sorted_files : MemLayer → MemLayer
unfolding insert_sorted
sorted_files [] = []
sorted_files ((k, f) ∷ l) = insert_sorted k f (sorted_files l)
