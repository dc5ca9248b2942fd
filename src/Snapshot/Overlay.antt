-- ===== src/Snapshot/Overlay.antt =====
-- The tree as a map from paths to files, and what adding and deleting a file means there.
use makisu.Base.{
  true, Option, some, none, List, [], ◌∷◌, ◌≡◌, ◌≢◌, refl, arith, if◌then◌else◌, Bytes, bytes_eq,
  bytes_eq_iff, bytes_eq_refl, ok, bind-eq-ok, ok-injective, Bool-cases, Option-cases, inl, inr,
}
use makisu.Snapshot.Tree.{
  ContentFile, Node, Children, node, nil, child, find, put, remove, is_dir, replacing,
  update_content, update_whiteout,
}

pub find-put :
    (j k : Bytes) (n : Node) (cs : Children)
    → find j (put k n cs) ≡ (if bytes_eq k j then some n else find j cs)
unfolding find put
find-put j k n nil = refl
find-put j k n (child i m cs) =
    ground (arith, bytes_eq_iff k j, bytes_eq_iff i k, bytes_eq_iff i j, find-put j k n cs)

pub find-remove :
    (j k : Bytes) (cs : Children)
    → find j (remove k cs) ≡ (if bytes_eq k j then none else find j cs)
unfolding find remove
find-remove j k nil = ground arith
find-remove j k (child i m cs) =
    ground (arith, bytes_eq_iff k j, bytes_eq_iff i k, bytes_eq_iff i j, find-remove j k cs)

-- A file system: the file at each path that exists, the path as the list of its names.
abbrev pub View : Type 0
View = List Bytes → Option ContentFile

unfoldable pub view : Node → View
unfolding find
view (node f cs) [] = some f
view (node f cs) (q ∷ qs) = elim (find q cs) [ none ↦ none | some n ↦ view n qs ]

-- What stands behind a path, if the other path begins with it.
abbrev pub below : List Bytes → List Bytes → Option (List Bytes)
below [] qs = some qs
below (p ∷ ps) [] = none
below (p ∷ ps) (q ∷ qs) = if bytes_eq p q then below ps qs else none

-- A file system with one more file: what was below its path stays if the file is a directory.
abbrev pub with_file : ContentFile → List Bytes → View → View
with_file f ps v qs = elim (below ps qs) [
  | none ↦ v qs
  | some [] ↦ some f
  | some (r ∷ rs) ↦ if is_dir f then v qs else none
]

-- A file system without a path and all that is below it.
abbrev pub without : List Bytes → View → View
without ps v qs = elim (below ps qs) [ none ↦ v qs | some _ ↦ none ]

-- The files at a node that may be missing.
abbrev view_at : Option Node → View
view_at none qs = none
view_at (some n) qs = view n qs

view-put :
    (m : ContentFile) (p : Bytes) (x : Node) (cs : Children) (q : Bytes) (qs : List Bytes)
    → view (node m (put p x cs)) (q ∷ qs)
      ≡ (if bytes_eq p q then view x qs else view (node m cs) (q ∷ qs))
unfolding view
view-put m p x cs q qs = ground (arith, find-put q p x cs)

view-remove :
    (m : ContentFile) (p : Bytes) (cs : Children) (q : Bytes) (qs : List Bytes)
    → view (node m (remove p cs)) (q ∷ qs)
      ≡ (if bytes_eq p q then none else view (node m cs) (q ∷ qs))
unfolding view
view-remove m p cs q qs = ground (arith, find-remove q p cs)

-- At the name of a child, the view of a node is that of the child.
view-child :
    (m : ContentFile) (p q : Bytes) (cs : Children) (qs : List Bytes)
    → bytes_eq p q ≡ true
    → view (node m cs) (q ∷ qs) ≡ view_at (find p cs) qs
unfolding view
view-child m p q cs qs e = ground (arith, bytes_eq_iff p q, e)

view-replacing :
    (f : ContentFile) (o : Option Node) (q : Bytes) (qs : List Bytes)
    → view (replacing f o) (q ∷ qs) ≡ (if is_dir f then view_at o (q ∷ qs) else none)
unfolding view find
view-replacing f none q qs = ground arith
view-replacing f (some (node m cs)) q qs = ground arith

view-file : (f : ContentFile) (o : Option Node) → view (replacing f o) [] ≡ some f
unfolding view
view-file f none = refl
view-file f (some n) = refl

put-with_file :
    (f m : ContentFile) (p : Bytes) (cs : Children) (qs : List Bytes)
    → view (node m (put p (replacing f (find p cs)) cs)) qs
      ≡ with_file f (p ∷ []) (view (node m cs)) qs
unfolding view
put-with_file f m p cs [] = refl
put-with_file f m p cs (q ∷ []) =
    ground (arith, view-put m p (replacing f (find p cs)) cs q [], view-file f (find p cs))
put-with_file f m p cs (q ∷ r ∷ rs) = ground (
  arith,
  view-put m p (replacing f (find p cs)) cs q (r ∷ rs),
  view-replacing f (find p cs) r rs,
  view-child m p q cs (r ∷ rs),
)

-- Under a child that is there, the change of the child's view is the change of the node's.
under-with_file :
    (f m : ContentFile) (p : Bytes) (ps : List Bytes) (cs : Children) (n n' : Node)
    → find p cs ≡ some n
    → ((qs : List Bytes) → view n' qs ≡ with_file f ps (view n) qs)
    → (qs : List Bytes)
    → view (node m (put p n' cs)) qs ≡ with_file f (p ∷ ps) (view (node m cs)) qs
under-with_file f m p ps cs n n' e h [] = unfold view in refl
under-with_file f m p ps cs n n' e h (q ∷ qs) =
    ground (arith, view-put m p n' cs q qs, h qs, e, view-child m p q cs qs)

under-without :
    (m : ContentFile) (p : Bytes) (ps : List Bytes) (cs : Children) (n n' : Node)
    → find p cs ≡ some n
    → ((qs : List Bytes) → view n' qs ≡ without ps (view n) qs)
    → (qs : List Bytes) → view (node m (put p n' cs)) qs ≡ without (p ∷ ps) (view (node m cs)) qs
under-without m p ps cs n n' e h [] = unfold view in refl
under-without m p ps cs n n' e h (q ∷ qs) =
    ground (arith, view-put m p n' cs q qs, h qs, e, view-child m p q cs qs)

-- Adding a file below the root, where it succeeds, adds it to the file system and changes nothing
-- else, but that what was below a path that is no directory any more is gone.
pub update_content-with_file :
    (f : ContentFile) (ps : List Bytes) (n : Node) {n' : Node}
    → ps ≢ []
    → update_content f ps n ≡ ok n'
    → (qs : List Bytes) → view n' qs ≡ with_file f ps (view n) qs
unfolding update_content
update_content-with_file f [] n h e qs = absurd (h refl)
update_content-with_file f (p ∷ []) (node m cs) h e qs =
    rw (← ok-injective e) (put-with_file f m p cs qs)
update_content-with_file f (p ∷ q ∷ ps) (node m cs) {n'} h e qs = elim (Option-cases (find p cs)) [
  | inl missing ↦ absurd (ground (arith, missing, e))
  | inr (x, found) ↦
      let (x', now, built) =
        bind-eq-ok (update_content f (q ∷ ps) x) _ (rw (found, update_content) at e) in
      rw (← ok-injective built) (
        under-with_file f m p (q ∷ ps) cs x x' found
          (update_content-with_file f (q ∷ ps) x (λ eq. cc) now) qs)
]

-- Deleting a path below the root, where it succeeds, takes the path and all that is below it out of
-- the file system, and changes nothing else.
pub update_whiteout-without :
    (ps : List Bytes) (n : Node) {n' : Node}
    → ps ≢ []
    → update_whiteout ps n ≡ ok n'
    → (qs : List Bytes) → view n' qs ≡ without ps (view n) qs
unfolding update_whiteout
update_whiteout-without [] n h e qs = absurd (h refl)
update_whiteout-without (p ∷ []) (node m cs) h e [] = rw (← ok-injective e) (unfold view in refl)
update_whiteout-without (p ∷ []) (node m cs) h e (q ∷ qs) =
    rw (← ok-injective e) (ground (arith, view-remove m p cs q qs))
update_whiteout-without (p ∷ q ∷ ps) (node m cs) {n'} h e qs = elim (Option-cases (find p cs)) [
  | inl missing ↦ absurd (ground (arith, missing, e))
  | inr (x, found) ↦
      let (x', now, built) =
        bind-eq-ok (update_whiteout (q ∷ ps) x) _ (rw (found, update_whiteout) at e) in
      rw (← ok-injective built) (
        under-without m p (q ∷ ps) cs x x' found (update_whiteout-without (q ∷ ps) x (λ eq. cc) now)
          qs)
]

pub below_refl : (ps : List Bytes) → below ps ps ≡ some []
below_refl [] = refl
below_refl (p ∷ ps) = rw (bytes_eq_refl p) (below_refl ps)

pub below-same : (ps qs : List Bytes) → below ps qs ≡ some [] → ps ≡ qs
below-same [] [] e = refl
below-same [] (q ∷ qs) e = absurd (ground (arith, e))
below-same (p ∷ ps) [] e = absurd (ground (arith, e))
below-same (p ∷ ps) (q ∷ qs) e = elim (Bool-cases (bytes_eq p q)) [
  | inl same ↦ rw ((bytes_eq_iff p q).0 same, below-same ps qs (rw same at e)) refl
  | inr other ↦ absurd (ground (arith, e, other))
]
