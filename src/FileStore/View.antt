-- ===== src/FileStore/View.antt =====
-- The store as a map from names to a state and a content.
use makisu.Base.{
  ℕ, true, false, Option, none, some, List, [], ◌∷◌, Bytes, bytes_eq, bytes_eq_iff, bytes_eq_refl,
  lookup, insert, delete, lookup-insert, lookup-delete, Result, ok, err, if◌then◌else◌, ◌≡◌, refl,
  inl, inr, Bool-cases, Option-cases, arith, sym, ◌∙◌, ap, subst, length,
}
use makisu.FileStore.{
  FileStore, FileError, not_exist, exists, wrong_state, accepts, set_file, zeros, find_on_disk,
  reload_file_entry, Outcome, read_file, stat_file, write_file, overwrite, create_file,
  create_on_disk, move_entry, move_file, delete_file,
}

-- What an entry says of its file.
abbrev pub file_of : Option Bytes → (Bytes → Option Bytes) → Option (Bytes × Bytes)
file_of none file = none
file_of (some s) file = elim (file s) [ none ↦ none | some c ↦ some (s, c) ]

unfoldable pub view : FileStore → Bytes → Option (Bytes × Bytes)
view st name = file_of (lookup name st.entries) (λ s. st.disk s name)

-- The map of entries and the disk have the same files, each in the same state.
pub record IsInStep (st : FileStore) : Type 0 where
  pub loaded : (s name c : Bytes) → st.disk s name ≡ some c → lookup name st.entries ≡ some s
  pub on_disk :
      (s name : Bytes) → lookup name st.entries ≡ some s → (c : Bytes) × (st.disk s name ≡ some c)

find_on_disk-none :
    (st : FileStore)
    → IsInStep st
    → (states : List Bytes) (name : Bytes) → lookup name st.entries ≡ none
    → find_on_disk st states name ≡ none
unfolding find_on_disk
find_on_disk-none st v [] name e = refl
find_on_disk-none st v (s ∷ states) name e = elim (Option-cases (st.disk s name)) [
  | inl absent ↦ rw (absent, find_on_disk) (find_on_disk-none st v states name e)
  | inr (c, there) ↦ let x = v.loaded s name c there in cc
]

-- In step, nothing is left to be reloaded.
reload_file_entry_idle :
    (st : FileStore)
    → IsInStep st
    → (states : List Bytes) (name : Bytes)
    → reload_file_entry st states name ≡ (lookup name st.entries, st)
unfolding reload_file_entry
reload_file_entry_idle st v states name = elim (Option-cases (lookup name st.entries)) [
  | inl e ↦ ground (arith, find_on_disk-none st v states name)
  | inr (s, e) ↦ rw (e, reload_file_entry)
]

-- What each operation does to one name.
pub data Operation : Type 0 where
  create : Bytes → ℕ → Operation
  write : Bytes → Operation
  move : Bytes → Operation
  remove : Operation

unfoldable pub run : FileStore → List Bytes → Bytes → Operation → Outcome (Unit {0})
run st states name (create target len) = create_file st states name target len
run st states name (write content) = write_file st states name content
run st states name (move target) = move_file st states name target
run st states name remove = delete_file st states name

-- The same on the state and the content that a name has.
unfoldable pub spec :
    List Bytes
    → Operation
    → Option (Bytes × Bytes)
    → Result FileError (Unit {0}) × Option (Bytes × Bytes)
spec states (create target len) none = (ok tt, some (target, zeros len))
spec states (create target len) (some (s, c)) =
    (err (if accepts states s then exists else wrong_state s), some (s, c))
spec states (move target) (some (s, c)) =
    if bytes_eq s target
    then (err exists, some (s, c))
    else if accepts states s
    then (ok tt, some (target, c))
    else (err (wrong_state s), some (s, c))
spec states (write content) (some (s, c)) =
    if accepts states s
    then (ok tt, some (s, overwrite content c))
    else (err (wrong_state s), some (s, c))
spec states remove (some (s, c)) =
    if accepts states s then (ok tt, none) else (err (wrong_state s), some (s, c))
spec states o none = (err not_exist, none)

-- The outcome is that of `spec`, no other name is touched, and the store stays in step.
pub record Refines (st : FileStore) (name : Bytes) (r : Result FileError (Unit {0}))
    (file : Option (Bytes × Bytes)) (out : Outcome (Unit {0})) : Type 0 where
  pub result : out.0 ≡ r
  pub files : (n : Bytes) → view out.1 n ≡ (if bytes_eq name n then file else view st n)
  pub in_step : IsInStep out.1

view-some :
    (st : FileStore) (name s c : Bytes)
    → lookup name st.entries ≡ some s
    → st.disk s name ≡ some c
    → view st name ≡ some (s, c)
unfolding view
view-some st name s c e d = rw (e, d)

view-none : (st : FileStore) (name : Bytes) → lookup name st.entries ≡ none → view st name ≡ none
unfolding view
view-none st name e = rw e

-- An operation that changes nothing.
refused :
    (st : FileStore) (name : Bytes) (e : FileError) (file : Option (Bytes × Bytes))
    → IsInStep st
    → view st name ≡ file
    → Refines st name (err e) file (err e, st)
refused st name e file v is = record {
  result = refl;
  files = λ n. elim (Bool-cases (bytes_eq name n)) [
    | inl same ↦ rw same (rw (← (bytes_eq_iff name n).0 same) is)
    | inr differs ↦ rw differs refl
  ];
  in_step = v;
}

abbrev state_of : Option (Bytes × Bytes) → Option Bytes
state_of none = none
state_of (some (s, c)) = some s

abbrev content_at : Option (Bytes × Bytes) → Bytes → Option Bytes
content_at none s = none
content_at (some (t, c)) s = if bytes_eq t s then some c else none

view_lem :
    (st : FileStore) (n : Bytes) (o : Option Bytes) (f : Bytes → Option Bytes)
    → lookup n st.entries ≡ o
    → ((s : Bytes) → st.disk s n ≡ f s)
    → view st n ≡ file_of o f
unfolding view
view_lem st n none f e h = rw e
view_lem st n (some s) f e h = rw (e, h s)

file_of-state_of :
    (file : Option (Bytes × Bytes)) → file_of (state_of file) (content_at file) ≡ file
file_of-state_of none = refl
file_of-state_of (some (s, c)) = ground (arith, bytes_eq_refl s)

content_at-state_of :
    (file : Option (Bytes × Bytes)) (s : Bytes)
    → ((c : Bytes) → content_at file s ≡ some c → state_of file ≡ some s)
      × (state_of file ≡ some s → (c : Bytes) × (content_at file s ≡ some c))
content_at-state_of none s = ((λ c k. cc), (λ k. cc))
content_at-state_of (some (t, c)) s =
    ((λ d k. ground (arith, bytes_eq_iff t s)), (λ k. (c, ground (arith, bytes_eq_iff t s))))

-- The store with one name placed anew, or removed.
module _ (st st' : FileStore) (name : Bytes) (file : Option (Bytes × Bytes)) (v : IsInStep st)
    (e : (n : Bytes)
      → lookup n st'.entries ≡ (if bytes_eq name n then state_of file else lookup n st.entries))
    (d : (s n : Bytes)
      → st'.disk s n ≡ (if bytes_eq name n then content_at file s else st.disk s n)) where
  placed-files : (n : Bytes) → view st' n ≡ (if bytes_eq name n then file else view st n)
  placed-files n = elim (Bool-cases (bytes_eq name n)) [
    | inl same ↦ rw same (
        view_lem st' n (state_of file) (content_at file) (rw same at (e n))
          (λ s. rw same at (d s n))
        ∙ file_of-state_of file)
    | inr differs ↦ rw differs (
        view_lem st' n (lookup n st.entries) (λ s. st.disk s n) (rw differs at (e n))
          (λ s. rw differs at (d s n))
        ∙ sym (view_lem st n (lookup n st.entries) (λ s. st.disk s n) refl (λ s. refl)))
  ]

  placed-IsInStep : IsInStep st'
  placed-IsInStep = record {
    loaded = λ s n c k. elim (Bool-cases (bytes_eq name n)) [
      | inl same ↦
          (rw same at (e n)) ∙ (content_at-state_of file s).0 c (sym (rw same at (d s n)) ∙ k)
      | inr differs ↦ (rw differs at (e n)) ∙ v.loaded s n c (sym (rw differs at (d s n)) ∙ k)
    ];
    on_disk = λ s n k. elim (Bool-cases (bytes_eq name n)) [
      | inl same ↦
          let (c, is) = (content_at-state_of file s).1 (sym (rw same at (e n)) ∙ k) in
          (c, (rw same at (d s n)) ∙ is)
      | inr differs ↦
          let (c, is) = v.on_disk s n (sym (rw differs at (e n)) ∙ k) in
          (c, (rw differs at (d s n)) ∙ is)
    ];
  }

  placed : Refines st name (ok tt) file (ok tt, st')
  placed = record { result = refl; files = placed-files; in_step = placed-IsInStep }

-- The operations on a file that is not there, and on one that is.
module _ (st : FileStore) (states : List Bytes) (name : Bytes) (v : IsInStep st) where
  idle : reload_file_entry st states name ≡ (lookup name st.entries, st)
  idle = reload_file_entry_idle st v states name

  module _ (e : lookup name st.entries ≡ none) where
    absent_on_disk : (s : Bytes) → st.disk s name ≡ none
    absent_on_disk s = elim (Option-cases (st.disk s name)) [
      | inl no_file ↦ no_file
      | inr (c, there) ↦ let x = v.loaded s name c there in cc
    ]

    absent : view st name ≡ none
    absent = view_lem st name none (λ s. none) e absent_on_disk

    absent-Refines :
        (o : Operation)
        → Refines st name (spec states o none).0 (spec states o none).1 (run st states name o)
    unfolding run spec create_file write_file move_file delete_file
    absent-Refines (create target len) =
        rw (e, create_file, idle, e, create_on_disk, absent_on_disk target)
          (placed st
            (record st {
              entries = insert name target st.entries;
              disk = set_file st.disk target name (some (zeros len));
            })
            name (some (target, zeros len)) v (λ n. lookup-insert name n target st.entries)
            (λ s n. ground (arith, bytes_eq_iff name n, absent_on_disk s)))
    absent-Refines (write content) = rw (idle, e) (refused st name not_exist none v absent)
    absent-Refines (move target) = rw (idle, e) (refused st name not_exist none v absent)
    absent-Refines remove = rw (idle, e) (refused st name not_exist none v absent)

  module _ (s c : Bytes) (e : lookup name st.entries ≡ some s)
      (there : st.disk s name ≡ some c) where
    present : view st name ≡ some (s, c)
    present = view_lem st name (some s) (λ t. st.disk t name) e (λ t. refl) ∙ (rw there refl)

    elsewhere : (t : Bytes) → bytes_eq s t ≡ false → st.disk t name ≡ none
    elsewhere t away = elim (Option-cases (st.disk t name)) [
      | inl no_file ↦ no_file
      | inr (d, also) ↦
          let x = v.loaded t name d also in
          let y : s ≡ t = cc in cc (rw (← y) at away, bytes_eq_refl s)
    ]

    present-Refines :
        (o : Operation)
        → Refines st name
            (spec states o (some (s, c))).0
            (spec states o (some (s, c))).1
            (run st states name o)
    unfolding run spec create_file write_file move_file delete_file
    present-Refines (create target len) = rw (e, create_file) (refused st name _ _ v present)
    present-Refines (write content) = elim (Bool-cases (accepts states s)) [
      | inr wrong ↦ rw (idle, e, wrong) (refused st name _ _ v present)
      | inl right ↦
          rw (idle, e, right, there)
            (placed st (record st { disk = set_file st.disk s name (some (overwrite content c)) })
              name (some (s, overwrite content c)) v (λ n. ground (arith, bytes_eq_iff name n, e))
              (λ t n. ground (arith, bytes_eq_iff name n, bytes_eq_iff s t, elsewhere t)))
    ]
    present-Refines (move target) = elim (Bool-cases (bytes_eq s target)) [
      | inl same ↦ rw (idle, e, same) (refused st name _ _ v present)
      | inr away ↦ elim (Bool-cases (accepts states s)) [
        | inr wrong ↦ rw (idle, e, away, wrong) (refused st name _ _ v present)
        | inl right ↦
            rw (idle, e, away, right, move_entry, there)
              (placed st
                (record st {
                  entries = insert name target st.entries;
                  disk = set_file (set_file st.disk target name (some c)) s name none;
                })
                name (some (target, c)) v (λ n. lookup-insert name n target st.entries)
                (λ t n. ground (
                  arith,
                  bytes_eq_iff name n,
                  bytes_eq_iff s t,
                  bytes_eq_iff target t,
                  bytes_eq_iff s target,
                  elsewhere t,
                )))
      ]
    ]
    present-Refines remove = elim (Bool-cases (accepts states s)) [
      | inr wrong ↦ rw (idle, e, wrong) (refused st name _ _ v present)
      | inl right ↦
          rw (idle, e, right)
            (placed st
              (record st { entries = delete name st.entries; disk = set_file st.disk s name none })
              name none v (λ n. lookup-delete name n st.entries)
              (λ t n. ground (arith, bytes_eq_iff name n, bytes_eq_iff s t, elsewhere t)))
    ]

-- An operation on a store in step does what `spec` says to its name, and nothing to another.
pub run-Refines :
    (st : FileStore) (states : List Bytes) (name : Bytes) (o : Operation)
    → IsInStep st
    → Refines st name
        (spec states o (view st name)).0
        (spec states o (view st name)).1
        (run st states name o)
run-Refines st states name o v = elim (Option-cases (lookup name st.entries)) [
  | inl e ↦ rw (absent st states name v e) (absent-Refines st states name v e o)
  | inr (s, e) ↦
      let (c, there) = v.on_disk s name e in
      rw (present st states name v s c e there) (present-Refines st states name v s c e there o)
]

-- Reading what is there, and what is not.
module _ (st : FileStore) (states : List Bytes) (name : Bytes) (v : IsInStep st) where
  entry_of :
      (s c : Bytes)
      → view st name ≡ some (s, c)
      → (lookup name st.entries ≡ some s) × (st.disk s name ≡ some c)
  unfolding view
  entry_of s c e = elim (Option-cases (lookup name st.entries)) [
    | inl no_entry ↦ let x = rw no_entry at e in cc
    | inr (t, is) ↦ elim (Option-cases (st.disk t name)) [
      | inl no_file ↦ let x = rw (is, no_file) at e in cc
      | inr (d, has) ↦
          let x = rw (is, has) at e in
          let same : t ≡ s = cc in
          (is ∙ ap some same, subst (λ u. st.disk u name ≡ some c) same (has ∙ cc))
    ]
  ]

  no_entry : view st name ≡ none → lookup name st.entries ≡ none
  no_entry e = elim (Option-cases (lookup name st.entries)) [
    | inl missing ↦ missing
    | inr (s, is) ↦
        let (c, has) = v.on_disk s name is in let x = present st states name v s c is has in cc
  ]

  pub read_file-present :
      (s c : Bytes)
      → view st name ≡ some (s, c)
      → accepts states s ≡ true
      → (read_file st states name ≡ (ok c, st)) × (stat_file st states name ≡ (ok (length c), st))
  unfolding read_file stat_file
  read_file-present s c e a =
      let (is, has) = entry_of s c e in
      (
        rw (reload_file_entry_idle st v states name, is, a, has),
        rw (reload_file_entry_idle st v states name, is, a, has),
      )

  pub stat_file-absent : view st name ≡ none → stat_file st states name ≡ (err not_exist, st)
  unfolding stat_file
  stat_file-absent e = rw (reload_file_entry_idle st v states name, no_entry e)

-- An operation by what `spec` gives for the file of its name.
pub run_lem :
    (st : FileStore) (states : List Bytes) (name : Bytes) (o : Operation)
    (file after : Option (Bytes × Bytes)) (r : Result FileError (Unit {0}))
    → IsInStep st
    → view st name ≡ file
    → spec states o file ≡ (r, after)
    → (st' : FileStore) × (run st states name o ≡ (r, st')) × IsInStep st' × (view st' name ≡ after)
run_lem st states name o file after r v e k =
    let x = run-Refines st states name o v in
    let result : (run st states name o).0 ≡ r = x.result ∙ rw (e, k) refl in
    let st' = (run st states name o).1 in
    (st', λ i. (result i, st'), x.in_step, x.files name ∙ rw (bytes_eq_refl name, e, k) refl)
