-- ===== src/Snapshot/Merge/Kept.antt =====
-- What every update of the tree keeps is kept by the making of a whole layer.
use makisu.Base.{
  Bool, true, false, List, [], ◌∷◌, ◌≡◌, ◌⊎◌, refl, subst, Bytes, Result, ok, ◌>>=◌, bind-eq-ok,
  ok-injective, err-ne-ok, Option-cases, inl, inr, Dict, insert,
}
use makisu.Paths.{abs_path, rel_path, join_path, trim_root}
use makisu.Snapshot.Header.{Header, Typeflag}
use makisu.Snapshot.Tree.{Node, MemFile, update_mem_fs}
use makisu.Snapshot.Layer.{FsError, create_header}
use makisu.Snapshot.MemFs.{MemFs, Disk, add_ancestors, maybe_add_to_layer}
use makisu.Snapshot.MemFs.Kept.{after-test, add_ancestors-keeps, maybe_add_to_layer-keeps}
use makisu.Snapshot.CopyOp.{CopyOperation}
use makisu.Snapshot.Walk.{Walked}
use makisu.Snapshot.Merge.{
  merge_header, merge_hardlinks, merge_headers, update_from_tar_reader, scan_file, scan_files,
  copy_destination, copy_walked, copy_sources, creates_dst, into_dir, add_to_layer, add_copies,
}

-- What the switch on the type of a header gives.
link-cases :
    {A : Type 0} (l other : A) (t : Typeflag)
    → ((elim t [ Typeflag.link ↦ l | _ ↦ other ]) ≡ l)
      ⊎ ((elim t [ Typeflag.link ↦ l | _ ↦ other ]) ≡ other)
link-cases l other Typeflag.link = inl refl
link-cases l other Typeflag.dir = inr refl
link-cases l other Typeflag.symlink = inr refl
link-cases l other Typeflag.reg = inr refl
link-cases l other Typeflag.reg_a = inr refl
link-cases l other (Typeflag.unsupported n) = inr refl

module _ (P : Node → Type 0)
    (updated : (f : MemFile) (n n' : Node) → update_mem_fs f n ≡ ok n' → P n → P n')
    (disk : Disk) where
  merge_header-keeps :
      (hdr : Header) (fs : MemFs) {fs' : MemFs}
      → merge_header disk hdr fs ≡ ok fs'
      → P fs.tree
      → P fs'.tree
  unfolding merge_header
  merge_header-keeps hdr fs e p =
      maybe_add_to_layer-keeps P updated disk (abs_path hdr.name) (abs_path hdr.name) hdr false fs e
        p

  merge_hardlinks-keeps :
      (links : Dict Header) (fs : MemFs) {fs' : MemFs}
      → merge_hardlinks disk links fs ≡ ok fs'
      → P fs.tree
      → P fs'.tree
  unfolding merge_hardlinks
  merge_hardlinks-keeps [] fs e p = subst (λ x. P x.tree) (ok-injective e) p
  merge_hardlinks-keeps ((path, hdr) ∷ links) fs e p =
      let (fs1, merged, rest) = bind-eq-ok (merge_header disk hdr fs) _ e in
      merge_hardlinks-keeps links fs1 rest (merge_header-keeps hdr fs merged p)

  merge_headers-keeps :
      (skips : Bytes → Header → Result FsError Bool) (hs : List Header) (links : Dict Header)
      (fs : MemFs)
      → {links' : Dict Header} {fs' : MemFs}
      → merge_headers disk skips hs links fs ≡ ok (links', fs')
      → P fs.tree
      → P fs'.tree
  unfolding merge_headers
  merge_headers-keeps skips [] links fs e p = subst (λ x. P (x.1).tree) (ok-injective e) p
  merge_headers-keeps skips (h ∷ hs) links fs e p =
      let path = join_path (disk.root ∷ h.name ∷ []) in
      let hdr : Header = record h { name = rel_path h.name } in
      let link =
        merge_headers disk skips hs
          (insert path (record hdr { linkname = abs_path h.linkname }) links) fs in
      let other = merge_header disk hdr fs >>= merge_headers disk skips hs links in
      elim (after-test (skips path h) _ e) [
        | inl rest ↦ merge_headers-keeps skips hs links fs rest p
        | inr rest ↦ elim (link-cases link other h.typeflag) [
          | inl go ↦ merge_headers-keeps skips hs _ fs (rw go at rest) p
          | inr go ↦
              let (fs1, merged, rest1) = bind-eq-ok (merge_header disk hdr fs) _ (rw go at rest) in
              merge_headers-keeps skips hs links fs1 rest1 (merge_header-keeps hdr fs merged p)
        ]
      ]

  pub update_from_tar_reader-keeps :
      (skips : Bytes → Header → Result FsError Bool) (hs : List Header) (n : Node) {fs' : MemFs}
      → update_from_tar_reader disk skips hs n ≡ ok fs'
      → P n
      → P fs'.tree
  unfolding update_from_tar_reader
  update_from_tar_reader-keeps skips hs n e p =
      let ((links, fs1), merged, rest) = bind-eq-ok (merge_headers disk skips hs [] _) _ e in
      merge_hardlinks-keeps links fs1 rest (merge_headers-keeps skips hs [] _ merged p)

  scan_file-keeps :
      (w : Walked) (fs : MemFs) {fs' : MemFs}
      → scan_file disk w fs ≡ ok fs'
      → P fs.tree
      → P fs'.tree
  unfolding scan_file
  scan_file-keeps w fs e p = elim (Option-cases (trim_root w.path disk.root)) [
    | inl outside ↦ absurd (err-ne-ok (rw (outside, scan_file) at e))
    | inr (dst, inside) ↦
        let (hdr, made, rest) =
          bind-eq-ok (create_header disk.root w.path dst w.info w.target) _
            (rw (inside, scan_file) at e) in
        maybe_add_to_layer-keeps P updated disk w.path dst hdr true fs rest p
  ]

  pub scan_files-keeps :
      (ws : List Walked) (fs : MemFs) {fs' : MemFs}
      → scan_files disk ws fs ≡ ok fs'
      → P fs.tree
      → P fs'.tree
  unfolding scan_files
  scan_files-keeps [] fs e p = subst (λ x. P x.tree) (ok-injective e) p
  scan_files-keeps (w ∷ ws) fs e p =
      let (fs1, scanned, rest) = bind-eq-ok (scan_file disk w fs) _ e in
      scan_files-keeps ws fs1 rest (scan_file-keeps w fs scanned p)

  copy_walked-keeps :
      (c : CopyOperation) (src : Bytes) (ws : List Walked) (fs : MemFs) {fs' : MemFs}
      → copy_walked disk c src ws fs ≡ ok fs'
      → P fs.tree
      → P fs'.tree
  unfolding copy_walked
  copy_walked-keeps c src [] fs e p = subst (λ x. P x.tree) (ok-injective e) p
  copy_walked-keeps c src (w ∷ ws) fs e p =
      elim (Option-cases (copy_destination disk src c.dst w)) [
        | inl itself ↦ copy_walked-keeps c src ws fs (rw (itself, copy_walked) at e) p
        | inr (dst, goes) ↦
            let (hdr, made, rest) =
              bind-eq-ok (create_header disk.root w.path dst w.info w.target) _
                (rw (goes, copy_walked) at e) in
            let hdr' : Header = record hdr { uid = c.uid; gid = c.gid } in
            let (fs1, added, rest1) =
              bind-eq-ok (maybe_add_to_layer disk w.path dst hdr' false fs) _ rest in
            copy_walked-keeps c src ws fs1 rest1
              (maybe_add_to_layer-keeps P updated disk w.path dst hdr' false fs added p)
      ]

  module _ (eval_symlinks : Bytes → Bytes → Result FsError Bytes)
      (walk : Bytes → Result FsError (List Walked)) where
    copy_sources-keeps :
        (c : CopyOperation) (ss : List Bytes) (fs : MemFs) {fs' : MemFs}
        → copy_sources disk eval_symlinks walk c ss fs ≡ ok fs'
        → P fs.tree
        → P fs'.tree
    unfolding copy_sources
    copy_sources-keeps c [] fs e p = subst (λ x. P x.tree) (ok-injective e) p
    copy_sources-keeps c (s ∷ ss) fs e p =
        let (resolved, r, rest) = bind-eq-ok (eval_symlinks s c.src_root) _ e in
        let src = join_path (c.src_root ∷ resolved ∷ []) in
        let (files, w, rest1) = bind-eq-ok (walk src) _ rest in
        let (fs1, copied, rest2) = bind-eq-ok (copy_walked disk c src files fs) _ rest1 in
        copy_sources-keeps c ss fs1 rest2 (copy_walked-keeps c src files fs copied p)

    add_to_layer-keeps :
        (stat_is_dir : Bytes → Result FsError Bool) (c : CopyOperation) (fs : MemFs) {fs' : MemFs}
        → add_to_layer disk eval_symlinks walk stat_is_dir c fs ≡ ok fs'
        → P fs.tree
        → P fs'.tree
    unfolding add_to_layer
    add_to_layer-keeps stat_is_dir c fs e p =
        elim (after-test (creates_dst disk eval_symlinks walk stat_is_dir c) _ e) [
          | inr rest ↦ copy_sources-keeps c c.srcs fs rest p
          | inl rest ↦
              let ((resolved, fs1), above, rest1) =
                bind-eq-ok (add_ancestors disk true c.uid c.gid (abs_path c.dst) fs) _ rest in
              copy_sources-keeps (into_dir disk eval_symlinks walk c resolved) c.srcs fs1 rest1
                (add_ancestors-keeps P updated disk true c.uid c.gid (abs_path c.dst) fs above p)
        ]

    pub add_copies-keeps :
        (stat_is_dir : Bytes → Result FsError Bool) (cs : List CopyOperation) (fs : MemFs)
        {fs' : MemFs}
        → add_copies disk eval_symlinks walk stat_is_dir cs fs ≡ ok fs'
        → P fs.tree
        → P fs'.tree
    unfolding add_copies
    add_copies-keeps stat_is_dir [] fs e p = subst (λ x. P x.tree) (ok-injective e) p
    add_copies-keeps stat_is_dir (c ∷ cs) fs e p =
        let (fs1, copied, rest) =
          bind-eq-ok (add_to_layer disk eval_symlinks walk stat_is_dir c fs) _ e in
        add_copies-keeps stat_is_dir cs fs1 rest (add_to_layer-keeps stat_is_dir c fs copied p)
