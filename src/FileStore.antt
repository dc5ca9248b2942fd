-- ===== src/FileStore.antt =====
-- lib/storage/base: file_op.go and file_entry.go, without metadata, where no other goroutine comes
-- between and no file is evicted.
use makisu.Base.{
  ◌++◌, drop, ℕ, zero, suc, Bool, true, false, ◌||◌, ◌&&◌, Option, none, some, List, [], ◌∷◌, Bytes,
  bytes_eq, Dict, lookup, insert, delete, Result, ok, err, if◌then◌else◌, ◌≡◌, length,
}
pub mod View

-- A FileState is the directory of its files. `disk state name` is the content of a file there.
pub record FileStore : Type 0 where
  pub entries : Dict Bytes
  pub disk : Bytes → Bytes → Option Bytes

pub data FileError : Type 0 where
  not_exist exists : FileError
  wrong_state : Bytes → FileError

-- `op.states[state]`.
abbrev pub accepts : List Bytes → Bytes → Bool
accepts [] state = false
accepts (s ∷ states) state = bytes_eq s state || accepts states state

-- The file of a state and a name is written, or removed.
abbrev pub set_file :
    (Bytes → Bytes → Option Bytes) → Bytes → Bytes → Option Bytes → Bytes → Bytes → Option Bytes
set_file disk state name content s n =
    if bytes_eq name n then (if bytes_eq state s then content else disk s n) else disk s n

abbrev pub zeros : ℕ → Bytes
zeros zero = []
zeros (suc n) = 0 ∷ zeros n

-- The first of the states in which the file is on disk.
unfoldable pub find_on_disk : FileStore → List Bytes → Bytes → Option Bytes
find_on_disk st [] name = none
find_on_disk st (s ∷ states) name = elim (st.disk s name) [
  | some content ↦ some s
  | none ↦ find_on_disk st states name
]

-- reloadFileEntryHelper, and the state of the entry that the map then has.
unfoldable pub reload_file_entry : FileStore → List Bytes → Bytes → Option Bytes × FileStore
reload_file_entry st states name = elim (lookup name st.entries) [
  | some s ↦ (some s, st)
  | none ↦ elim (find_on_disk st states name) [
    | some s ↦ (some s, record st { entries = insert name s st.entries })
    | none ↦ (none, st)
  ]
]

abbrev pub Outcome : Type 0 → Type 0
Outcome A = Result FileError A × FileStore

-- lockHelper: verifyStateHelper, and then `f` on the state of the entry.
abbrev pub verified :
    {A : Type 0}
    → List Bytes
    → (Bytes → FileStore → Outcome A)
    → Option Bytes × FileStore
    → Outcome A
verified states f (none, st) = (err not_exist, st)
verified states f (some s, st) = if accepts states s then f s st else (err (wrong_state s), st)

-- GetFileReader, read to its end.
unfoldable pub read_file : FileStore → List Bytes → Bytes → Outcome Bytes
read_file st states name =
    verified states
      (λ s st'. elim (st'.disk s name) [ none ↦ (err not_exist, st') | some c ↦ (ok c, st') ])
      (reload_file_entry st states name)

-- GetFileStat, of which the program reads the size.
unfoldable pub stat_file : FileStore → List Bytes → Bytes → Outcome ℕ
stat_file st states name =
    verified states
      (λ s st'. elim (st'.disk s name) [
        | none ↦ (err not_exist, st')
        | some c ↦ (ok (length c), st')
      ])
      (reload_file_entry st states name)

-- The bytes written from the start of a file, in front of what is left of it.
abbrev pub overwrite : Bytes → Bytes → Bytes
overwrite content c = content ++ drop (length content) c

-- GetFileReadWriter, with which `content` is written from the start.
unfoldable pub write_file : FileStore → List Bytes → Bytes → Bytes → Outcome (Unit {0})
write_file st states name content =
    verified states
      (λ s st'. elim (st'.disk s name) [
        | none ↦ (err not_exist, st')
        | some c ↦
            (ok tt, record st' { disk = set_file st'.disk s name (some (overwrite content c)) })
      ])
      (reload_file_entry st states name)

-- The entry's Create: an empty file, stretched to its size.
abbrev pub create_on_disk : FileStore → Bytes → Bytes → ℕ → Outcome (Unit {0})
create_on_disk st name target len = elim (st.disk target name) [
  | some c ↦ (err exists, st)
  | none ↦ (
    ok tt,
    record st {
      entries = insert name target st.entries;
      disk = set_file st.disk target name (some (zeros len));
    },
  )
]

-- CreateFile, of `len` bytes. The new entry is in the map once its file is there.
unfoldable pub create_file : FileStore → List Bytes → Bytes → Bytes → ℕ → Outcome (Unit {0})
create_file st states name target len = elim (lookup name st.entries) [
  | some s ↦ (err (if accepts states s then exists else wrong_state s), st)
  | none ↦
      let found = reload_file_entry st states name in
      elim found.0 [ some s ↦ (err exists, found.1) | none ↦ create_on_disk st name target len ]
]

-- The entry's Move: the file is renamed and its source directory removed.
abbrev pub move_entry : FileStore → Bytes → Bytes → Bytes → Outcome (Unit {0})
move_entry st name s target = elim (st.disk s name) [
  | none ↦ (err not_exist, st)
  | some c ↦ (
    ok tt,
    record st {
      entries = insert name target st.entries;
      disk = set_file (set_file st.disk target name (some c)) s name none;
    },
  )
]

abbrev pub move_loaded : List Bytes → Bytes → Bytes → Option Bytes × FileStore → Outcome (Unit {0})
move_loaded states name target (none, st) = (err not_exist, st)
move_loaded states name target (some s, st) =
    if bytes_eq s target
    then (err exists, st)
    else if accepts states s
    then move_entry st name s target
    else (err (wrong_state s), st)

unfoldable pub move_file : FileStore → List Bytes → Bytes → Bytes → Outcome (Unit {0})
move_file st states name target = move_loaded states name target (reload_file_entry st states name)

unfoldable pub delete_file : FileStore → List Bytes → Bytes → Outcome (Unit {0})
delete_file st states name =
    verified states
      (λ s st'. (
        ok tt,
        record st' { entries = delete name st'.entries; disk = set_file st'.disk s name none },
      ))
      (reload_file_entry st states name)
