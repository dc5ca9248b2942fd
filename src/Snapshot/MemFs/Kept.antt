-- ===== src/Snapshot/MemFs/Kept.antt =====
-- A property of trees that every update with a file of a layer keeps is kept by the operations of
-- `MemFS`, which change the tree in no other way.
use makisu.Base.{
  ℕ, err, zero, suc, Bool, true, false, not, ◌&&◌, Option, some, none, List, [], ◌∷◌, ◌++◌, ◌≡◌,
  ◌⊎◌, refl, subst, Bytes, bytes_eq, Result, ok, ◌>>=◌, bind-eq-ok, ok-injective, err-ne-ok,
  Bool-cases, Option-cases, Result-cases, inl, inr,
}
use makisu.Paths.{slash, abs_path, join_path, split_path}
use makisu.Snapshot.Header.{Header, Typeflag}
use makisu.Snapshot.Tree.{
  Node, Children, MemFile, nil, child, file_of, children_of, find, update_mem_fs,
}
use makisu.Snapshot.Layer.{FsError, MemLayer, add_header, add_whiteout}
use makisu.Snapshot.MemFs.{
  MemFs, Disk, apply_file, add_file, is_updated, create_missing, visit_ancestors,
  add_ancestors_from, add_ancestors, add_changed, whiteout_file, whiteout_missing, add_deletions,
  maybe_add_to_layer, created_header,
}

-- What follows a test that succeeds.
pub after-test :
    {A : Type 0} (m : Result FsError Bool) (f : Bool → Result FsError A) {a : A}
    → (m >>= f) ≡ ok a
    → (f true ≡ ok a) ⊎ (f false ≡ ok a)
after-test (ok true) f e = inl e
after-test (ok false) f e = inr e
after-test (err x) f e = absurd (err-ne-ok e)

-- What the switch on the type of an ancestor can give.
abbrev on_type {ℓ} : {A : Type ℓ} → A → A → A → Typeflag → A
on_type d l other t = elim t [ Typeflag.dir ↦ d | Typeflag.symlink ↦ l | _ ↦ other ]

on_type-cases {ℓ} :
    {A : Type ℓ} (d l other : A) (t : Typeflag)
    → (on_type d l other t ≡ d) ⊎ ((on_type d l other t ≡ l) ⊎ (on_type d l other t ≡ other))
on_type-cases d l other Typeflag.dir = inl refl
on_type-cases d l other Typeflag.symlink = inr (inl refl)
on_type-cases d l other Typeflag.link = inr (inr refl)
on_type-cases d l other Typeflag.reg = inr (inr refl)
on_type-cases d l other Typeflag.reg_a = inr (inr refl)
on_type-cases d l other (Typeflag.unsupported n) = inr (inr refl)

module _ (P : Node → Type 0)
    (updated : (f : MemFile) (n n' : Node) → update_mem_fs f n ≡ ok n' → P n → P n') where
  apply_file-keeps :
      (added : MemFile × MemLayer) (fs : MemFs) {fs' : MemFs}
      → apply_file added fs ≡ ok fs'
      → P fs.tree
      → P fs'.tree
  apply_file-keeps added fs e p = elim (Result-cases (update_mem_fs added.0 fs.tree)) [
    | inl (tree, built) ↦
        subst (λ x. P x.tree) (ok-injective (rw (built, apply_file) at e))
          (updated added.0 fs.tree tree built p)
    | inr (x, failed) ↦ absurd (err-ne-ok (rw (failed, apply_file) at e))
  ]

  add_file-keeps :
      (src dst : Bytes) (hdr : Header) (fs : MemFs) {fs' : MemFs}
      → add_file src dst hdr fs ≡ ok fs'
      → P fs.tree
      → P fs'.tree
  unfolding add_file
  add_file-keeps src dst hdr fs e p = apply_file-keeps (add_header src dst hdr fs.layer) fs e p

  module _ (disk : Disk) (inclusive : Bool) (uid gid : ℕ) where
    create_missing-keeps :
        (last : Header) (before : List Bytes) (k : ℕ) (left : List Bytes) (fs : MemFs) {fs' : MemFs}
        → create_missing disk inclusive uid gid last before k left fs ≡ ok fs'
        → P fs.tree
        → P fs'.tree
    unfolding create_missing
    create_missing-keeps last before zero left fs e p = subst (λ x. P x.tree) (ok-injective e) p
    create_missing-keeps last before (suc k) [] fs e p = subst (λ x. P x.tree) (ok-injective e) p
    create_missing-keeps last before (suc k) (part ∷ left) fs e p =
        let path = abs_path (join_path (before ++ part ∷ [])) in
        let (fs1, added, rest) =
          bind-eq-ok (add_file [] path (created_header disk uid gid last path) fs) _ e in
        create_missing-keeps last (before ++ part ∷ []) k left fs1 rest
          (add_file-keeps [] path (created_header disk uid gid last path) fs added p)

    visit_ancestors-keeps :
        (follow : MemFs → Bytes → Result FsError (Bytes × MemFs))
        → ((fs : MemFs) (q r : Bytes) (fs' : MemFs)
            → follow fs q ≡ ok (r, fs')
            → P fs.tree
            → P fs'.tree)
        → (dst : Bytes) (last : Header) (curr : Node) (before : List Bytes) (k : ℕ)
          (left : List Bytes) (fs : MemFs)
        → {r : Bytes} {fs' : MemFs}
        → visit_ancestors disk inclusive uid gid follow dst last curr before k left fs ≡ ok (r, fs')
        → P fs.tree
        → P fs'.tree
    unfolding visit_ancestors
    visit_ancestors-keeps follow followed dst last curr before zero left fs e p =
        subst (λ x. P (x.1).tree) (ok-injective e) p
    visit_ancestors-keeps follow followed dst last curr before (suc k) [] fs e p =
        subst (λ x. P (x.1).tree) (ok-injective e) p
    visit_ancestors-keeps follow followed dst last curr before (suc k) (part ∷ left) fs {r} {fs'} e
          p =
        elim (Option-cases (find part (children_of curr))) [
          | inl missing ↦
              let (fs1, made, rest) =
                bind-eq-ok
                  (create_missing disk inclusive uid gid last before (suc k) (part ∷ left) fs) _
                  (rw (missing, visit_ancestors) at e) in
              subst (λ x. P (x.1).tree) (ok-injective rest)
                (create_missing-keeps last before (suc k) (part ∷ left) fs made p)
          | inr (m, there) ↦
              let f = file_of m in
              let (fs1, added, rest) =
                bind-eq-ok (add_file f.src f.dst f.hdr fs) _ (rw (there, visit_ancestors) at e) in
              let p1 = add_file-keeps f.src f.dst f.hdr fs added p in
              let down =
                visit_ancestors disk inclusive uid gid follow dst f.hdr m (before ++ part ∷ []) k
                  left fs1 in
              let link = follow fs1 (join_path (f.hdr.linkname ∷ join_path left ∷ [])) in
              let on =
                visit_ancestors disk inclusive uid gid follow dst last curr (before ++ part ∷ []) k
                  left fs1 in
              elim (on_type-cases down link on f.hdr.typeflag) [
                | inl go ↦
                    visit_ancestors-keeps follow followed dst f.hdr m (before ++ part ∷ []) k left
                      fs1 (rw go at rest) p1
                | inr (inl go) ↦ followed fs1 _ r fs' (rw go at rest) p1
                | inr (inr go) ↦
                    visit_ancestors-keeps follow followed dst last curr (before ++ part ∷ []) k left
                      fs1 (rw go at rest) p1
              ]
        ]

    add_ancestors_from-keeps :
        (depth : ℕ) (fs : MemFs) (dst r : Bytes) (fs' : MemFs)
        → add_ancestors_from disk inclusive uid gid depth fs dst ≡ ok (r, fs')
        → P fs.tree
        → P fs'.tree
    unfolding add_ancestors_from
    add_ancestors_from-keeps zero fs dst r fs' e p = absurd (err-ne-ok e)
    add_ancestors_from-keeps (suc depth) fs dst r fs' e p =
        visit_ancestors-keeps (add_ancestors_from disk inclusive uid gid depth)
          (add_ancestors_from-keeps depth) dst (file_of fs.tree).hdr fs.tree [] _ (split_path dst)
          fs e p

    pub add_ancestors-keeps :
        (dst : Bytes) (fs : MemFs) {r : Bytes} {fs' : MemFs}
        → add_ancestors disk inclusive uid gid dst fs ≡ ok (r, fs')
        → P fs.tree
        → P fs'.tree
    unfolding add_ancestors
    add_ancestors-keeps dst fs {r} {fs'} e p = add_ancestors_from-keeps 1024 fs dst r fs' e p

  module _ (disk : Disk) where
    add_changed-keeps :
        (src dst : Bytes) (hdr : Header) (updated : Bool) (fs : MemFs) {fs' : MemFs}
        → add_changed disk src dst hdr updated fs ≡ ok fs'
        → P fs.tree
        → P fs'.tree
    unfolding add_changed
    add_changed-keeps src dst hdr updated fs e p =
        elim (Bool-cases (updated && not (bytes_eq dst slash))) [
          | inl adds ↦
              let ((r, fs1), above, added) =
                bind-eq-ok (add_ancestors disk false 0 0 (abs_path dst) fs) _ (rw adds at e) in
              add_file-keeps src dst hdr fs1 added
                (add_ancestors-keeps disk false 0 0 (abs_path dst) fs above p)
          | inr skips ↦ subst (λ x. P x.tree) (ok-injective (rw skips at e)) p
        ]

    whiteout_file-keeps :
        (path : Bytes) (fs : MemFs) {fs' : MemFs}
        → whiteout_file disk path fs ≡ ok fs'
        → P fs.tree
        → P fs'.tree
    unfolding whiteout_file
    whiteout_file-keeps path fs e p =
        let (added, white, rest) = bind-eq-ok (add_whiteout path fs.layer) _ e in
        let (fs1, applied, rest1) = bind-eq-ok (apply_file added fs) _ rest in
        let ((r, fs2), above, rest2) = bind-eq-ok (add_ancestors disk false 0 0 path fs1) _ rest1 in
        subst (λ x. P x.tree) (ok-injective rest2)
          (add_ancestors-keeps disk false 0 0 path fs1 above (apply_file-keeps added fs applied p))

    whiteout_missing-keeps :
        (cs : Children) (fs : MemFs) {fs' : MemFs}
        → whiteout_missing disk cs fs ≡ ok fs'
        → P fs.tree
        → P fs'.tree
    unfolding whiteout_missing
    whiteout_missing-keeps nil fs e p = subst (λ x. P x.tree) (ok-injective e) p
    whiteout_missing-keeps (child k n cs) fs e p =
        elim (after-test (disk.is_on_disk (file_of n).src) _ e) [
          | inl stays ↦ whiteout_missing-keeps cs fs stays p
          | inr gone ↦
              let (fs1, white, rest) = bind-eq-ok (whiteout_file disk (file_of n).dst fs) _ gone in
              whiteout_missing-keeps cs fs1 rest (whiteout_file-keeps (file_of n).dst fs white p)
        ]

    add_deletions-keeps :
        (hdr : Header) (n : Option Node) (fs : MemFs) {fs' : MemFs}
        → add_deletions disk hdr n fs ≡ ok fs'
        → P fs.tree
        → P fs'.tree
    unfolding add_deletions
    add_deletions-keeps hdr none fs e p = subst (λ x. P x.tree) (ok-injective e) p
    add_deletions-keeps hdr (some n) fs e p =
        elim (on_type-cases (whiteout_missing disk (children_of n) fs) (ok fs) (ok fs)
          hdr.typeflag) [
            | inl go ↦ whiteout_missing-keeps (children_of n) fs (rw go at e) p
            | inr (inl go) ↦ subst (λ x. P x.tree) (ok-injective (rw go at e)) p
            | inr (inr go) ↦ subst (λ x. P x.tree) (ok-injective (rw go at e)) p
          ]

    pub maybe_add_to_layer-keeps :
        (src dst : Bytes) (hdr : Header) (create_whiteout : Bool) (fs : MemFs) {fs' : MemFs}
        → maybe_add_to_layer disk src dst hdr create_whiteout fs ≡ ok fs'
        → P fs.tree
        → P fs'.tree
    unfolding maybe_add_to_layer
    maybe_add_to_layer-keeps src dst hdr true fs e p =
        let ((updated, n), found, rest) = bind-eq-ok (is_updated dst hdr fs.tree) _ e in
        let (fs1, changed, rest1) = bind-eq-ok (add_changed disk src dst hdr updated fs) _ rest in
        add_deletions-keeps hdr n fs1 rest1 (add_changed-keeps src dst hdr updated fs changed p)
    maybe_add_to_layer-keeps src dst hdr false fs e p =
        let ((updated, n), found, rest) = bind-eq-ok (is_updated dst hdr fs.tree) _ e in
        let (fs1, changed, rest1) = bind-eq-ok (add_changed disk src dst hdr updated fs) _ rest in
        subst (λ x. P x.tree) (ok-injective rest1)
          (add_changed-keeps src dst hdr updated fs changed p)
