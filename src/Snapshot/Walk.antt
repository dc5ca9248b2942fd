-- ===== src/Snapshot/Walk.antt =====
-- lib/snapshot/utils.go: which paths a walk leaves out.
use makisu.Base.{Bool, true, ◌||◌, Option, List, if◌then◌else◌, Bytes, Result, ok}
use makisu.Text.{has_prefix}
use makisu.Paths.{base, is_descendant_of_any}
use makisu.Snapshot.Header.{Header}
use makisu.Snapshot.Layer.{FsError, whiteout_meta_prefix}

-- A file that `filepath.Walk` comes to: its path, the header of its file information, and the
-- target if it is a symbolic link.
pub record Walked : Type 0 where
  pub path : Bytes
  pub info : Header
  pub target : Option Bytes

module _ (is_special_file : Header → Bool) (is_mountpoint : Bytes → Result FsError Bool)
    (blacklist : List Bytes) where
  -- `shouldSkip`
  unfoldable pub should_skip : Bytes → Header → Result FsError Bool
  unfolding base has_prefix is_descendant_of_any
  should_skip path fi =
      if has_prefix (base path) whiteout_meta_prefix
      then ok true
      else if is_descendant_of_any path blacklist || is_special_file fi
      then ok true
      else is_mountpoint path
