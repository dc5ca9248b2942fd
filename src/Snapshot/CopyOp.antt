-- ===== src/Snapshot/CopyOp.antt =====
-- lib/snapshot/copy_op.go: what a COPY or ADD directive is to copy.
use makisu.Base.{
  ℕ, Bool, not, ltb, ◌&&◌, ◌||◌, ◌==◌, Option, some, none, List, [], ◌∷◌, ◌++◌, if◌then◌else◌,
  Bytes, bytes_eq, codes, Result, ok, err, ◌>>◌, guard, length, map,
}
use makisu.Paths.{ends_in_slash, is_abs, slash, rel_path, join_path}

pub record CopyOperation : Type 0 where
  pub src_root : Bytes
  pub srcs : List Bytes
  pub dst : Bytes
  pub uid : ℕ
  pub gid : ℕ
  pub chown : Bool
  pub preserve_owner : Bool
  pub blacklist : List Bytes
  pub internal : Bool

pub data CopyError : Type 0 where
  no_sources many_sources relative_destination chown_and_archive chown_failed : CopyError

unfoldable pub is_dir_format : Bytes → Bool
unfolding bytes_eq
is_dir_format dst = ends_in_slash dst || bytes_eq dst (codes ".") || bytes_eq dst (codes "..")

unfoldable pub resolve_destination : Bytes → Bytes → Bytes
unfolding join_path is_dir_format
resolve_destination work_dir dst =
    if is_abs dst
    then dst
    else (let abs_dst = join_path (work_dir ∷ dst ∷ []) in
        if is_dir_format dst then abs_dst ++ slash else abs_dst)

unfoldable pub check_copy_params : List Bytes → Bytes → Bytes → Result CopyError (Unit {0})
unfolding is_dir_format
check_copy_params srcs work_dir dst =
    if length srcs == 0
    then err no_sources
    else if ltb 1 (length srcs) && not (is_dir_format dst)
    then err many_sources
    else if not (is_abs dst) && not (is_abs work_dir)
    then err relative_destination
    else ok tt

-- `NewCopyOperation`; `resolve_chown` reads the user data base of the machine.
unfoldable pub new_copy_operation :
    (Bytes → Option (ℕ × ℕ))
    → List Bytes
    → Bytes
    → Bytes
    → Bytes
    → Bytes
    → List Bytes
    → Bool
    → Bool
    → Result CopyError CopyOperation
unfolding check_copy_params rel_path resolve_destination
new_copy_operation resolve_chown srcs src_root work_dir dst chown_str blacklist internal
      preserve_owner =
    do
      check_copy_params srcs work_dir dst
      let chown = not (bytes_eq chown_str [])
      guard (not (chown && preserve_owner)) chown_and_archive
      elim (resolve_chown chown_str) [
        | none ↦ err chown_failed
        | some (uid, gid) ↦ ok (record {
          src_root = src_root;
          srcs = map rel_path srcs;
          dst = resolve_destination work_dir dst;
          uid = uid;
          gid = gid;
          chown = chown;
          preserve_owner = preserve_owner;
          blacklist = blacklist;
          internal = internal;
        })
      ]
