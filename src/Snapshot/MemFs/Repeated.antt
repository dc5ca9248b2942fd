-- ===== src/Snapshot/MemFs/Repeated.antt =====
-- Handling a file once more, when nothing about it has changed.
use makisu.Base.{
  Bool, true, false, not, ◌&&◌, Option, some, none, List, [], ◌∷◌, ◌≡◌, ◌≢◌, ◌⊎◌, refl, sym, ap,
  ◌∙◌, subst, arith, Bytes, bytes_eq, bytes_eq_refl, ok, bind-eq-ok, ok-injective, err-ne-ok,
  Bool-cases, Option-cases, Result-cases, inl, inr,
}
use mathlib.Core.Option.{some-injective}
use makisu.Text.{after_prefix}
use makisu.Paths.{slash, abs_path, split_path, split_file}
use makisu.Snapshot.Header.{
  Header, Typeflag, symlink, link, dir, reg, reg_a, unsupported, compare_types, is_similar_header,
}
use makisu.Snapshot.Tree.{
  ContentFile, Node, content, node, file_of, find, update_content, update_mem_fs,
}
use makisu.Snapshot.Overlay.{view, with_file, below_refl, update_content-with_file}
use makisu.Snapshot.Layer.{MemLayer, add_header, file_for, whiteout_prefix}
use makisu.Snapshot.MemFs.{
  MemFs, Disk, apply_file, node_at, is_updated, add_file, add_ancestors, add_changed,
  maybe_add_to_layer,
}

-- The types of files that headers are compared for.
abbrev pub is_supported : Typeflag → Bool
is_supported t = elim t [ Typeflag.unsupported n ↦ false | _ ↦ true ]

compare_types_refl :
    (t : Typeflag) (h : Header) → is_supported t ≡ true → compare_types t t h h false ≡ some true
unfolding compare_types
compare_types_refl symlink h s = ground (arith, bytes_eq_refl h.linkname)
compare_types_refl link h s = ground (arith, bytes_eq_refl h.linkname)
compare_types_refl dir h s = ground arith
compare_types_refl reg h s = ground arith
compare_types_refl reg_a h s = ground arith
compare_types_refl (unsupported n) h s = absurd (ground (arith, s))

-- A header of a supported type is similar to itself.
is_similar_header_refl :
    (h : Header) → is_supported h.typeflag ≡ true → is_similar_header h h false ≡ some true
unfolding is_similar_header
is_similar_header_refl h s = ground (arith, compare_types_refl h.typeflag h s)

-- The file that the view shows is that of the node at the path.
view-node_at :
    (ps : List Bytes) (n : Node) (f : ContentFile)
    → view n ps ≡ some f
    → (m : Node) × (node_at ps n ≡ some m) × (file_of m ≡ f)
unfolding view node_at
view-node_at [] (node g cs) f e = (node g cs, refl, some-injective g f e)
view-node_at (p ∷ ps) (node g cs) f e = elim (Option-cases (find p cs)) [
  | inl missing ↦ absurd (ground (arith, missing, e))
  | inr (x, there) ↦
      let (m, at_path, same) = view-node_at ps x f (rw (there, view) at e) in
      (m, rw (node_at, there) at_path, same)
]

apply_file-content :
    (f : ContentFile) (l : MemLayer) (fs : MemFs) {fs' : MemFs}
    → apply_file (content f, l) fs ≡ ok fs'
    → update_content f (split_path f.dst) fs.tree ≡ ok fs'.tree
unfolding update_mem_fs
apply_file-content f l fs e = elim (Result-cases (update_content f (split_path f.dst) fs.tree)) [
  | inl (tree, built) ↦ built ∙ ap (λ x. ok x.tree) (ok-injective (rw (built, apply_file) at e))
  | inr (x, failed) ↦ absurd (err-ne-ok (rw (failed, apply_file) at e))
]

module _ (hdr : Header) (dst : Bytes) (supported : is_supported hdr.typeflag ≡ true)
    (inside : split_path dst ≢ []) where
  node_at-is_updated :
      (n m : Node) (f : ContentFile)
      → node_at (split_path dst) n ≡ some m
      → file_of m ≡ f
      → f.hdr ≡ hdr
      → is_updated dst hdr n ≡ ok (false, some m)
  unfolding is_updated
  node_at-is_updated n m f at_path is_f same =
      rw (is_updated, at_path, is_f, same, is_similar_header_refl hdr supported) refl

  -- A file that was just put into the tree is not found to be updated.
  update_content-is_updated :
      (f : ContentFile) (n n' : Node)
      → f.hdr ≡ hdr
      → update_content f (split_path dst) n ≡ ok n'
      → (m : Node) × (is_updated dst hdr n' ≡ ok (false, some m))
  update_content-is_updated f n n' same e =
      let there =
        update_content-with_file f (split_path dst) n inside e (split_path dst)
        ∙ (rw (with_file, below_refl (split_path dst)) refl) in
      let (m, at_path, is_f) = view-node_at (split_path dst) n' f there in
      (m, node_at-is_updated n' m f at_path is_f same)

  module _ (clean_dst : abs_path dst ≡ dst)
      (named : after_prefix whiteout_prefix (split_file dst).1 ≡ none) where
    file_for-content :
        (src : Bytes)
        → file_for src dst hdr
          ≡ (dst, content (record { src = abs_path src; dst = dst; hdr = hdr }))
    unfolding file_for
    file_for-content src =
        rw
          (
            file_for,
            subst (λ d. after_prefix whiteout_prefix (split_file d).1 ≡ none) (sym clean_dst) named,
          )
          (ap (λ d. (d, content (record { src = abs_path src; dst = d; hdr = hdr }))) clean_dst)

    add_file-content :
        (src : Bytes) (fs : MemFs) {fs' : MemFs}
        → add_file src dst hdr fs ≡ ok fs'
        → update_content
            (record { src = abs_path src; dst = dst; hdr = hdr })
            (split_path dst)
            fs.tree
          ≡ ok fs'.tree
    unfolding add_file
    add_file-content src fs e =
        apply_file-content (record { src = abs_path src; dst = dst; hdr = hdr }) _ fs
          (rw (add_file, add_header, file_for-content src) at e)

    add_file-is_updated :
        (src : Bytes) (fs : MemFs) {fs' : MemFs}
        → add_file src dst hdr fs ≡ ok fs'
        → (m : Node) × (is_updated dst hdr fs'.tree ≡ ok (false, some m))
    add_file-is_updated src fs {fs'} e =
        update_content-is_updated (record { src = abs_path src; dst = dst; hdr = hdr }) fs.tree
          fs'.tree refl (add_file-content src fs e)

    add_changed-is_updated :
        (disk : Disk) (src : Bytes) (updated : Bool) (fs : MemFs) {fs' : MemFs}
        → add_changed disk src dst hdr updated fs ≡ ok fs'
        → (fs ≡ fs') ⊎ ((m : Node) × (is_updated dst hdr fs'.tree ≡ ok (false, some m)))
    unfolding add_changed
    add_changed-is_updated disk src updated fs e =
        elim (Bool-cases (updated && not (bytes_eq dst slash))) [
          | inl adds ↦
              let ((r, fs1), above, added) =
                bind-eq-ok (add_ancestors disk false 0 0 (abs_path dst) fs) _ (rw adds at e) in
              inr (add_file-is_updated src fs1 added)
          | inr skips ↦ inl (ok-injective (rw skips at e))
        ]

-- What is not found to be updated changes nothing.
same-maybe_add_to_layer :
    (disk : Disk) (src dst : Bytes) (hdr : Header) (fs : MemFs) {n : Option Node}
    → is_updated dst hdr fs.tree ≡ ok (false, n)
    → maybe_add_to_layer disk src dst hdr false fs ≡ ok fs
unfolding maybe_add_to_layer add_changed
same-maybe_add_to_layer disk src dst hdr fs e = rw e refl

-- Once a file was handled without an error, handling it a second time, with the same header and no
-- deletions, changes nothing: for a file of a type that headers are compared for (of another type the
-- second handling is an error), whose path is clean, is not the root, and does not end in the name of
-- a whiteout.
pub maybe_add_to_layer-idempotent :
    (disk : Disk) (src dst : Bytes) (hdr : Header) (fs : MemFs) {fs' : MemFs}
    → is_supported hdr.typeflag ≡ true
    → split_path dst ≢ []
    → abs_path dst ≡ dst
    → after_prefix whiteout_prefix (split_file dst).1 ≡ none
    → maybe_add_to_layer disk src dst hdr false fs ≡ ok fs'
    → maybe_add_to_layer disk src dst hdr false fs' ≡ ok fs'
unfolding maybe_add_to_layer
maybe_add_to_layer-idempotent disk src dst hdr fs {fs'} supported inside clean_dst named e =
    let ((updated, n), found, rest) = bind-eq-ok (is_updated dst hdr fs.tree) _ e in
    let (fs1, changed, rest1) = bind-eq-ok (add_changed disk src dst hdr updated fs) _ rest in
    elim (add_changed-is_updated hdr dst supported inside clean_dst named disk src updated fs
      changed) [
        | inl same ↦
            subst (λ x. maybe_add_to_layer disk src dst hdr false x ≡ ok fs')
              (same ∙ ok-injective rest1) e
        | inr (m, known) ↦
            subst (λ x. maybe_add_to_layer disk src dst hdr false x ≡ ok x) (ok-injective rest1)
              (same-maybe_add_to_layer disk src dst hdr fs1 known)
      ]
