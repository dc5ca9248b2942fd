-- ===== src/FileMap.antt =====
-- lib/storage/base/file_map.go: the map of the files on disk, with the least recently used file
-- evicted at capacity. The critical sections under the lock of the map are here, the methods that
-- are made of them in the children.
pub mod Elements
pub mod Calls
pub mod Threads
pub mod Indexed
pub mod Bounded
pub mod Recency
pub mod Stored
use makisu.Base.{
  ℕ, ◌+◌, Bool, true, false, not, ◌&&◌, ◌||◌, ltb, leb, ◌==◌, Option, some, none, List, [], ◌∷◌,
  if◌then◌else◌, Bytes, Dict, lookup, insert, delete, length, last?,
}

-- `fileEntryWithAccessTime`, with the name of the file entry, and with the access time that stands
-- in the metadata on disk.
pub record Slot : Type 0 where
  pub file_name : Bytes
  pub last_access : ℕ
  pub metadata : Option ℕ

-- `lruFileMap`. An entry is known by a number, as by its address; `entries` is the memory. `queue`
-- has the entries in the list, the front first. A size of 0 stands for every size up to 0.
pub record FileMap : Type 0 where
  pub size : ℕ
  pub time_resolution : ℕ
  pub queue : List ℕ
  pub elements : Dict ℕ
  pub entries : ℕ → Slot

unfoldable pub mem : ℕ → List ℕ → Bool
mem i [] = false
mem i (j ∷ q) = i == j || mem i q

-- `queue.Remove`
unfoldable pub without : ℕ → List ℕ → List ℕ
without i [] = []
without i (j ∷ q) = if i == j then q else j ∷ without i q

-- `queue.MoveToFront`, which does nothing for an element that is not in the list.
unfoldable pub move_to_front : ℕ → List ℕ → List ℕ
unfolding mem without
move_to_front i q = if mem i q then i ∷ without i q else q

abbrev pub set_entry : ℕ → Slot → (ℕ → Slot) → ℕ → Slot
set_entry i s entries j = if i == j then s else entries j

-- `(*lruFileMap).get`, and with the lock `syncGet`
unfoldable pub get : Bytes → FileMap → Option ℕ × FileMap
unfolding lookup move_to_front
get name fm = elim (lookup name fm.elements) [
  | none ↦ (none, fm)
  | some i ↦ (some i, record fm { queue = move_to_front i fm.queue })
]

-- The update of the last access time, if the last one is old enough.
unfoldable pub touch : ℕ → ℕ → FileMap → FileMap
touch now i fm =
    let slot = fm.entries i in
    if leb (slot.last_access + fm.time_resolution) now
    then record fm {
      entries = set_entry i (record slot { last_access = now; metadata = some now }) fm.entries;
    }
    else fm

-- `(*lruFileMap).syncGetAndTouch`
unfoldable pub get_and_touch : ℕ → Bytes → FileMap → Option ℕ × FileMap
unfolding get touch
get_and_touch now name fm =
    let (found, fm') = get name fm in
    elim found [ none ↦ (none, fm') | some i ↦ (some i, touch now i fm') ]

-- `(*lruFileMap).add`
unfoldable pub add : Bytes → ℕ → FileMap → FileMap
unfolding lookup insert
add name i fm = elim (lookup name fm.elements) [
  | none ↦ record fm { queue = i ∷ fm.queue; elements = insert name i fm.elements }
  | some j ↦ fm
]

-- `(*lruFileMap).remove`, and with the lock `syncRemove`
unfoldable pub remove : Bytes → FileMap → FileMap
unfolding lookup delete without
remove name fm = elim (lookup name fm.elements) [
  | none ↦ fm
  | some i ↦ record fm { queue = without i fm.queue; elements = delete name fm.elements }
]

-- The first section of `syncRemoveOldestIfNeeded`: the entry to evict, if the size is exceeded.
unfoldable pub oldest_if_needed : FileMap → Option ℕ
oldest_if_needed fm = if fm.size == 0 || leb (length fm.queue) fm.size then none else last? fm.queue

-- The access time that a new entry starts with: what the disk has, or the time now, which is then
-- written to the disk.
abbrev pub first_access : ℕ → Slot → Slot
first_access now slot = elim slot.metadata [
  | some t ↦ record slot { last_access = t }
  | none ↦ record slot { last_access = now; metadata = some now }
]

-- The section of `TryStore` that stores a new entry, and whether it did. If the name is taken, the
-- time is that of the new entry, whose last access time is not set: it is always old enough.
unfoldable pub store : ℕ → Bytes → ℕ → Slot → FileMap → Bool × FileMap
unfolding get add
store now name i slot fm =
    let (found, fm') = get name fm in
    elim found [
      | some j ↦ (
        false,
        record fm' {
          entries =
              set_entry i (record slot { last_access = now; metadata = some now }) fm'.entries;
        },
      )
      | none ↦ (
        true,
        add name i (record fm' { entries = set_entry i (first_access now slot) fm'.entries }),
      )
    ]

-- `Contains`
unfoldable pub contains : Bytes → FileMap → Bool
unfolding lookup
contains name fm = elim (lookup name fm.elements) [ none ↦ false | some i ↦ true ]
