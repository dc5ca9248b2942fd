-- ===== src/Snapshot/Links.antt =====
-- lib/snapshot/utils.go: evalSymlinks. `lstat` says of a path whether it is a symbolic link.
use makisu.Base.{
  ℕ, zero, suc, Bool, true, false, not, ◌&&◌, Option, none, some, [], ◌∷◌, Bytes, bytes_eq, Result,
  ok, err, ◌>>=◌, if◌then◌else◌, ltb, ◌==◌, ◌+◌, length, init, ◌≡◌,
}
use makisu.Text.{has_prefix, after_prefix, trim_right}
use makisu.Paths.{split_file, join_path, is_abs, abs_path, ends_in_slash, is_slash}
pub mod Ended

-- `index_out_of_range` is a panic, and `out_of_fuel` no error of the program.
pub data LinkError : Type 0 where
  too_many_links lstat_failed readlink_failed outside_of_root index_out_of_range out_of_fuel :
      LinkError

-- `strings.TrimPrefix`
abbrev pub trim_prefix : Bytes → Bytes → Bytes
trim_prefix root p = elim (after_prefix root p) [ none ↦ p | some rest ↦ rest ]

-- What a link in the directory `newdir` leads to.
unfoldable pub follow : Bytes → Bytes × Bool × ℕ → Result LinkError (Bytes × ℕ)
follow newdir (newpath, false, n) = ok (newpath, n)
follow newdir ([], true, n) = err index_out_of_range
follow newdir (x ∷ xs, true, n) =
    ok (if is_abs (x ∷ xs) then x ∷ xs else join_path (newdir ∷ (x ∷ xs) ∷ []), n)

module _ (lstat : Bytes → Option Bool) (readlink : Bytes → Option Bytes) (root : Bytes) where
  -- The new path, whether `path` is a link, and the links walked so far.
  unfoldable pub walk_link : Bytes → ℕ → Result LinkError (Bytes × Bool × ℕ)
  walk_link path links_walked =
      let full = join_path (root ∷ path ∷ []) in
      if ltb 255 links_walked then err too_many_links else elim (lstat full) [
        | none ↦ err lstat_failed
        | some false ↦ ok (path, false, links_walked)
        | some true ↦ elim (readlink full) [
          | none ↦ err readlink_failed
          | some p ↦
              if not (has_prefix p root) && is_abs p
              then err outside_of_root
              else ok (trim_prefix root p, true, links_walked + 1)
        ]
      ]

  unfoldable pub walk_links : ℕ → Bytes → ℕ → Result LinkError (Bytes × ℕ)
  unfolding follow
  walk_links zero path n = err out_of_fuel
  walk_links (suc fuel) path n =
      let (d, file) = split_file path in
      let bare = walk_link file n >>= λ (w : Bytes × Bool × ℕ). ok (w.0, w.2) in
      let above = walk_links fuel (init d) n in
      let below = walk_links fuel d n >>= λ (up : Bytes × ℕ).
      walk_link (join_path (up.0 ∷ file ∷ [])) up.1 >>= follow up.0 in
      if bytes_eq d []
      then bare
      else if bytes_eq file []
      then (if bytes_eq (trim_right is_slash d) (trim_right is_slash root)
          then ok (d, n)
          else above)
      else below

  -- `for`, until no link is walked.
  unfoldable pub eval_loop : ℕ → Bytes → ℕ → Result LinkError Bytes
  unfolding walk_links
  eval_loop zero p n = err out_of_fuel
  eval_loop (suc fuel) p n = walk_links (suc (length p)) p n >>= λ (w : Bytes × ℕ).
      let again = eval_loop fuel w.0 w.1 in if n == w.1 then ok (abs_path w.0) else again

  unfoldable pub eval_symlinks : Bytes → Result LinkError Bytes
  unfolding eval_loop
  eval_symlinks p = if bytes_eq p [] then ok p else eval_loop 257 p 0
