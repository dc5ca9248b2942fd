-- ===== src/Snapshot/MemFs/Placed.antt =====
-- Where the files of the tree stand.
use makisu.Base.{
  some, List, [], ◌∷◌, ◌≡◌, ◌≢◌, ◌⊎◌, refl, sym, ap, ◌∙◌, arith, Bytes, ok, ok-injective,
  Bool-cases, Option-cases, inl, inr,
}
use mathlib.Core.Option.{some-injective}
use makisu.Paths.{split_path}
use makisu.Snapshot.Tree.{
  ContentFile, Node, MemFile, content, whiteout, is_dir, update_content, update_whiteout,
  update_mem_fs,
}
use makisu.Snapshot.Overlay.{
  View, view, below, with_file, without, below-same, update_content-with_file,
  update_whiteout-without,
}

-- Every file below the root stands at the path that it is to have in the image.
abbrev pub IsPlaced : Node → Type 0
IsPlaced n =
    (qs : List Bytes) (f : ContentFile) → qs ≢ [] → view n qs ≡ some f → split_path f.dst ≡ qs

List-cases : (ps : List Bytes) → (ps ≡ []) ⊎ (ps ≢ [])
List-cases [] = inl refl
List-cases (p ∷ ps) = inr (λ e. cc)

with_file-placed :
    (f : ContentFile) (v : View) (qs : List Bytes) (g : ContentFile)
    → with_file f (split_path f.dst) v qs ≡ some g
    → (v qs ≡ some g) ⊎ (split_path g.dst ≡ qs)
with_file-placed f v qs g e = elim (Option-cases (below (split_path f.dst) qs)) [
  | inl apart ↦ inl (rw (with_file, apart) at e)
  | inr ([], here) ↦ inr (
      ap (λ x. split_path x.dst) (sym (some-injective f g (rw (with_file, here) at e)))
      ∙ below-same (split_path f.dst) qs here)
  | inr (r ∷ rs, under) ↦ elim (Bool-cases (is_dir f)) [
    | inl directory ↦ inl (rw (with_file, under, directory) at e)
    | inr other ↦ absurd (ground (arith, e, under, other))
  ]
]

without-within :
    (ps : List Bytes) (v : View) (qs : List Bytes) (g : ContentFile)
    → without ps v qs ≡ some g
    → v qs ≡ some g
without-within ps v qs g e = ground (arith, e)

pub update_mem_fs-IsPlaced :
    (f : MemFile) (n n' : Node) → update_mem_fs f n ≡ ok n' → IsPlaced n → IsPlaced n'
unfolding update_mem_fs
update_mem_fs-IsPlaced (content f) n n' e placed qs g below_root there =
    elim (List-cases (split_path f.dst)) [
      | inl root ↦ placed qs g below_root (rw (ok-injective (rw (root, update_content) at e)) there)
      | inr inside ↦
          elim (with_file-placed f (view n) qs g
            (sym (update_content-with_file f (split_path f.dst) n inside e qs) ∙ there)) [
              | inl old ↦ placed qs g below_root old
              | inr new ↦ new
            ]
    ]
update_mem_fs-IsPlaced (whiteout del hdr) n n' e placed qs g below_root there =
    elim (List-cases (split_path del)) [
      | inl root ↦
          placed qs g below_root (rw (ok-injective (rw (root, update_whiteout) at e)) there)
      | inr inside ↦ placed qs g below_root (
          without-within (split_path del) (view n) qs g
            (sym (update_whiteout-without (split_path del) n inside e qs) ∙ there))
    ]
