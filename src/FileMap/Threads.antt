-- ===== src/FileMap/Threads.antt =====
-- lib/storage/base/file_map.go: the methods as they run at the same time, one step for each section
-- under the lock of the map, with the locks of the entries.
pub mod Older
pub mod Exclusive
pub mod Present
pub mod Guarded
use makisu.Base.{
  ℕ, ◌+◌, Bool, true, false, not, ◌&&◌, ◌||◌, ◌==◌, ◌≡◌, ◌≢◌, Option, some, none, if◌then◌else◌,
  Bytes,
}
use makisu.FileMap.{Slot, FileMap, get, get_and_touch, remove, store, oldest_if_needed}

pub data Method : Type 0 where
  for_read for_peek for_write for_delete for_evict for_store : Method

-- The methods that take the lock of the entry with `RLock`.
unfoldable pub is_shared : Method → Bool
is_shared m = elim m [ for_read ↦ true | for_peek ↦ true | _ ↦ false ]

-- Where a goroutine is: with no call, about to lock an entry that it found, with the lock before the
-- second look, and in the function.
pub data Place : Type 0 where
  idle : Place
  waiting locked inside : Method → Bytes → ℕ → Place

abbrev pub holds : ℕ → Place → Bool
holds i p = elim p [ locked m name j ↦ i == j | inside m name j ↦ i == j | _ ↦ false ]

abbrev method_of : Place → Method
method_of p = elim p [
  | idle ↦ for_read
  | waiting m name j ↦ m
  | locked m name j ↦ m
  | inside m name j ↦ m
]

-- The lock of the entry is held in a way that excludes the method.
unfoldable pub blocks : Method → ℕ → Place → Bool
unfolding is_shared
blocks m i p = holds i p && not (is_shared m && is_shared (method_of p))

-- `next` is the number of the next new entry.
pub record System : Type 0 where
  pub fm : FileMap
  pub next : ℕ
  pub places : ℕ → Place

abbrev pub set_place : ℕ → Place → (ℕ → Place) → ℕ → Place
set_place t p places u = if t == u then p else places u

-- The second look, which only the calls for reading and writing make with a touch.
unfoldable pub second_look : Method → ℕ → Bytes → FileMap → Option ℕ × FileMap
unfolding get get_and_touch
second_look m now name fm = elim m [
  | for_read ↦ get_and_touch now name fm
  | for_write ↦ get_and_touch now name fm
  | _ ↦ get name fm
]

-- What is done with the lock of the entry still held, by what the function gave.
unfoldable pub after_function : Method → Bool → Bytes → FileMap → FileMap
unfolding remove
after_function m result name fm = elim m [
  | for_delete ↦ if result then remove name fm else fm
  | for_store ↦ if result then fm else remove name fm
  | for_evict ↦ remove name fm
  | _ ↦ fm
]

-- One step of one goroutine, less those that change nothing. The eviction that ends a `TryStore` is a
-- call of its own, which any idle goroutine may start.
pub data Step (s : System) : System → Type 0 where
  look_up :
      (t : ℕ) (m : Method) (name : Bytes) (i : ℕ)
      → s.places t ≡ idle
      → (get name s.fm).0 ≡ some i
      → Step s
          (record s { fm = (get name s.fm).1; places = set_place t (waiting m name i) s.places })
  begin_evict :
      (t i : ℕ)
      → s.places t ≡ idle
      → oldest_if_needed s.fm ≡ some i
      → Step s (record s {
        places = set_place t (waiting for_evict (s.fm.entries i).file_name i) s.places;
      })
  lock :
      (t : ℕ) (m : Method) (name : Bytes) (i : ℕ)
      → s.places t ≡ waiting m name i
      → ((u : ℕ) → blocks m i (s.places u) ≡ false)
      → Step s (record s { places = set_place t (locked m name i) s.places })
  enter :
      (t now : ℕ) (m : Method) (name : Bytes) (i : ℕ)
      → s.places t ≡ locked m name i
      → (second_look m now name s.fm).0 ≡ some i
      → Step s (record s {
        fm = (second_look m now name s.fm).1;
        places = set_place t (inside m name i) s.places;
      })
  give_up :
      (t now : ℕ) (m : Method) (name : Bytes) (i : ℕ)
      → s.places t ≡ locked m name i
      → (second_look m now name s.fm).0 ≢ some i
      → Step s
          (record s { fm = (second_look m now name s.fm).1; places = set_place t idle s.places })
  leave :
      (t : ℕ) (m : Method) (name : Bytes) (i : ℕ) (result : Bool)
      → s.places t ≡ inside m name i
      → Step s
          (record s { fm = after_function m result name s.fm; places = set_place t idle s.places })
  store_entry :
      (t now : ℕ) (name : Bytes) (slot : Slot)
      → s.places t ≡ idle
      → Step s (record s {
        fm = (store now name s.next slot s.fm).1;
        next = s.next + 1;
        places =
            set_place t
              (if (store now name s.next slot s.fm).0 then inside for_store name s.next else idle)
              s.places;
      })

pub data Reach (s : System) : System → Type 0 where
  at_start : Reach s s
  and_step : {u v : System} → Reach s u → Step u v → Reach s v
