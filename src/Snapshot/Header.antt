-- ===== src/Snapshot/Header.antt =====
-- lib/tario/compare.go: tar headers, and when two of them describe similar files.
use makisu.Base.{
  ℕ, ◌/◌, Bool, true, false, ◌&&◌, ◌||◌, Option, some, none, [], ◌==◌, if◌then◌else◌, Bytes,
  bytes_eq,
}

pub data Typeflag : Type 0 where
  symlink link dir reg reg_a : Typeflag
  unsupported : ℕ → Typeflag

-- `mode` is that of the header's `FileInfo`; `mod_time` is in nanoseconds.
pub record Header : Type 0 where
  pub name : Bytes
  pub typeflag : Typeflag
  pub linkname : Bytes
  pub uid : ℕ
  pub gid : ℕ
  pub size : ℕ
  pub mode : ℕ
  pub mod_time : ℕ

-- `ModTime.Truncate(1 * time.Second)`
abbrev pub seconds : ℕ → ℕ
seconds t = t / 0x3B9A_CA00

-- The comparison of times, on which three of the functions start.
abbrev pub same_time : Header → Header → Bool → Bool
same_time h nh ignore_time = ignore_time || seconds h.mod_time == seconds nh.mod_time

unfoldable pub is_similar_symlink : Header → Header → Bool
unfolding bytes_eq
is_similar_symlink h nh = bytes_eq h.linkname nh.linkname

unfoldable pub is_similar_hard_link : Header → Header → Bool → Bool
unfolding bytes_eq
is_similar_hard_link h nh ignore_time =
    same_time h nh ignore_time
    && bytes_eq h.linkname nh.linkname
    && h.uid == nh.uid
    && h.gid == nh.gid
    && h.mode == nh.mode

unfoldable pub is_similar_directory : Header → Header → Bool → Bool
is_similar_directory h nh ignore_time =
    same_time h nh ignore_time && h.uid == nh.uid && h.gid == nh.gid && h.mode == nh.mode

unfoldable pub is_similar_regular_file : Header → Header → Bool → Bool
is_similar_regular_file h nh ignore_time =
    same_time h nh ignore_time
    && h.uid == nh.uid
    && h.gid == nh.gid
    && h.size == nh.size
    && h.mode == nh.mode

-- The switch of `IsSimilarHeader` on the types; `none` is its error.
unfoldable pub compare_types : Typeflag → Typeflag → Header → Header → Bool → Option Bool
unfolding is_similar_symlink is_similar_hard_link is_similar_directory is_similar_regular_file
compare_types symlink symlink h nh t = some (is_similar_symlink h nh)
compare_types link link h nh t = some (is_similar_hard_link h nh t)
compare_types dir dir h nh t = some (is_similar_directory h nh t)
compare_types reg reg h nh t = some (is_similar_regular_file h nh t)
compare_types reg reg_a h nh t = some (is_similar_regular_file h nh t)
compare_types reg_a reg h nh t = some (is_similar_regular_file h nh t)
compare_types reg_a reg_a h nh t = some (is_similar_regular_file h nh t)
compare_types (unsupported n) _ h nh t = none
compare_types _ _ h nh t = some false

-- `IsSimilarHeader`
unfoldable pub is_similar_header : Header → Header → Bool → Option Bool
unfolding compare_types bytes_eq
is_similar_header h nh ignore_time =
    if bytes_eq h.name [] && bytes_eq nh.name []
    then some true
    else compare_types h.typeflag nh.typeflag h nh ignore_time
