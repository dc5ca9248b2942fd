-- ===== src/Snapshot/Links/Ended.antt =====
-- The evaluation of symbolic links ends.
use makisu.Base.{
  ℕ, zero, suc, Bool, true, false, Option, [], ◌∷◌, Bytes, bytes_eq, Result, ok, err, ◌>>=◌, ◌==◌,
  ◌+◌, ◌≤◌, ◌<◌, length, init, ◌≡◌, refl, arith, Bool-cases, inl, inr, bind-eq-ok, ◌⊎◌,
}
use makisu.Text.{trim_right}
use makisu.Paths.{split_file, join_path, is_slash}
use makisu.Snapshot.Links.{
  LinkError, too_many_links, lstat_failed, readlink_failed, outside_of_root, index_out_of_range,
  out_of_fuel, walk_link, follow, walk_links, eval_loop, eval_symlinks,
}

-- Stopped by the fuel of the model.
abbrev pub ran_out {ℓ} : {A : Type ℓ} → Result LinkError A → Bool
ran_out (err out_of_fuel) = true
ran_out (err too_many_links) = false
ran_out (err lstat_failed) = false
ran_out (err readlink_failed) = false
ran_out (err outside_of_root) = false
ran_out (err index_out_of_range) = false
ran_out (ok a) = false

bind-ran_out {ℓ κ} :
    {A : Type ℓ} {B : Type κ} (m : Result LinkError A) (f : A → Result LinkError B)
    → ran_out m ≡ false
    → ((a : A) → m ≡ ok a → ran_out (f a) ≡ false)
    → ran_out (m >>= f) ≡ false
bind-ran_out (ok a) f h k = k a refl
bind-ran_out (err out_of_fuel) f h k = h
bind-ran_out (err too_many_links) f h k = refl
bind-ran_out (err lstat_failed) f h k = refl
bind-ran_out (err readlink_failed) f h k = refl
bind-ran_out (err outside_of_root) f h k = refl
bind-ran_out (err index_out_of_range) f h k = refl

length-split_file : (p : Bytes) → length (split_file p).0 + length (split_file p).1 ≡ length p
unfolding split_file
length-split_file [] = refl
length-split_file (c ∷ cs) = ground (arith, length-split_file cs)

length-init : (p : Bytes) → bytes_eq p [] ≡ false → length (init p) + 1 ≡ length p
unfolding bytes_eq
length-init [] h = cc
length-init (x ∷ []) h = refl
length-init (x ∷ y ∷ p) h = omega (arith, length-init (y ∷ p) refl)

length-pos : (p : Bytes) → bytes_eq p [] ≡ false → 0 < length p
unfolding bytes_eq
length-pos [] h = cc
length-pos (x ∷ p) h = omega arith

module _ (lstat : Bytes → Option Bool) (readlink : Bytes → Option Bytes) (root : Bytes) where
  walk_link_ends : (path : Bytes) (n : ℕ) → ran_out (walk_link lstat readlink root path n) ≡ false
  unfolding walk_link
  walk_link_ends path n = ground arith

  walk_link_counts :
      (path : Bytes) (n : ℕ) {w : Bytes × Bool × ℕ}
      → walk_link lstat readlink root path n ≡ ok w
      → (w.2 ≡ n) ⊎ ((w.2 ≡ n + 1) × (n ≤ 255))
  unfolding walk_link
  walk_link_counts path n e = ground arith

  follow_ends : (newdir : Bytes) (w : Bytes × Bool × ℕ) → ran_out (follow newdir w) ≡ false
  unfolding follow
  follow_ends newdir (newpath, false, n) = refl
  follow_ends newdir ([], true, n) = refl
  follow_ends newdir (x ∷ xs, true, n) = refl

  follow_counts :
      (newdir : Bytes) (w : Bytes × Bool × ℕ) {r : Bytes × ℕ} → follow newdir w ≡ ok r → r.1 ≡ w.2
  unfolding follow
  follow_counts newdir (newpath, false, n) e = cc
  follow_counts newdir ([], true, n) e = cc
  follow_counts newdir (x ∷ xs, true, n) e = cc

  -- The length of the path is fuel enough, and no more than 256 links are ever walked.
  walk_links_ends :
      (fuel : ℕ) (path : Bytes) (n : ℕ)
      → length path < fuel
      → ran_out (walk_links lstat readlink root fuel path n) ≡ false
  unfolding walk_links
  walk_links_ends zero path n enough = absurd (omega arith)
  walk_links_ends (suc fuel) path n enough =
      let (d, file) = split_file path in
      let whole = length-split_file path in
      elim (Bool-cases (bytes_eq d [])) [
        | inl bare ↦ rw bare (
            bind-ran_out (walk_link lstat readlink root file n) _ (walk_link_ends file n)
              λ w e. refl)
        | inr in_dir ↦ elim (Bool-cases (bytes_eq file [])) [
          | inl no_file ↦
              elim (Bool-cases (bytes_eq (trim_right is_slash d) (trim_right is_slash root))) [
                | inl at_root ↦ rw (in_dir, no_file, at_root) refl
                | inr not_root ↦
                    rw (in_dir, no_file, not_root)
                      (walk_links_ends fuel (init d) n (omega (arith, length-init d in_dir, whole)))
              ]
          | inr has_file ↦
              rw (in_dir, has_file)
                (bind-ran_out (walk_links lstat readlink root fuel d n) _
                  (walk_links_ends fuel d n (omega (arith, length-pos file has_file, whole)))
                  λ up e.
                    bind-ran_out (walk_link lstat readlink root (join_path (up.0 ∷ file ∷ [])) up.1)
                      _ (walk_link_ends (join_path (up.0 ∷ file ∷ [])) up.1)
                      λ w k. follow_ends up.0 w)
        ]
      ]

  abbrev Counts : ℕ → ℕ → Type 0
  Counts n n' = (n ≤ n') × ((n' ≡ n) ⊎ (n' ≤ 256))

  walk_links-Counts :
      (fuel : ℕ) (path : Bytes) (n : ℕ) {r : Bytes × ℕ}
      → walk_links lstat readlink root fuel path n ≡ ok r
      → Counts n r.1
  unfolding walk_links
  walk_links-Counts zero path n e = cc
  walk_links-Counts (suc fuel) path n {r = r} e =
      let (d, file) = split_file path in
      elim (Bool-cases (bytes_eq d [])) [
        | inl bare ↦
            let (w, walked, e₁) =
              bind-eq-ok (walk_link lstat readlink root file n) _ (rw bare at e) in
            let same : w.2 ≡ r.1 = cc in ground (arith, walk_link_counts file n walked)
        | inr in_dir ↦ elim (Bool-cases (bytes_eq file [])) [
          | inl no_file ↦
              elim (Bool-cases (bytes_eq (trim_right is_slash d) (trim_right is_slash root))) [
                | inl at_root ↦
                    let x = rw (in_dir, no_file, at_root) at e in
                    let same : n ≡ r.1 = cc in ground arith
                | inr not_root ↦
                    walk_links-Counts fuel (init d) n (rw (in_dir, no_file, not_root) at e)
              ]
          | inr has_file ↦
              let (up, walked, e₁) =
                bind-eq-ok (walk_links lstat readlink root fuel d n) _
                  (rw (in_dir, has_file) at e) in
              let (w, linked, e₂) =
                bind-eq-ok (walk_link lstat readlink root (join_path (up.0 ∷ file ∷ [])) up.1) _
                  e₁ in
              let before = walk_links-Counts fuel d n walked in
              let step = walk_link_counts (join_path (up.0 ∷ file ∷ [])) up.1 linked in
              let same = follow_counts up.0 w e₂ in ground (arith, before, step, same)
        ]
      ]

  eval_loop_ends :
      (fuel : ℕ) (p : Bytes) (n : ℕ)
      → n ≤ 256
      → 257 ≤ fuel + n
      → ran_out (eval_loop lstat readlink root fuel p n) ≡ false
  unfolding eval_loop
  eval_loop_ends zero p n few enough = absurd (omega arith)
  eval_loop_ends (suc fuel) p n few enough =
      bind-ran_out (walk_links lstat readlink root (suc (length p)) p n) _
        (walk_links_ends (suc (length p)) p n (omega arith))
        λ w e. elim (Bool-cases (n == w.1)) [
          | inl still ↦ rw still refl
          | inr moved ↦ rw moved (
              let c = walk_links-Counts (suc (length p)) p n e in
              eval_loop_ends fuel w.0 w.1 (ground (arith, c)) (ground (arith, c)))
        ]

  -- Whatever links the disk has, cycles among them, the evaluation of the links of a path ends
  -- within 257 rounds, each in no more steps than its path has bytes.
  pub eval_symlinks_ends : (p : Bytes) → ran_out (eval_symlinks lstat readlink root p) ≡ false
  unfolding eval_symlinks
  eval_symlinks_ends p = elim (Bool-cases (bytes_eq p [])) [
    | inl empty ↦ rw empty refl
    | inr there ↦ rw there (eval_loop_ends 257 p 0 (omega arith) (omega arith))
  ]
