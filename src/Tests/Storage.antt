-- ===== src/Tests/Storage.antt =====
-- Runs of the file map, and its theorems at concrete inputs.
use makisu.Base.{
  ℕ, zero, suc, true, ◌≡◌, refl, arith, some, none, [], ◌∷◌, Bytes, codes, lookup, insert, delete,
  bytes_eq, init, last?, false, ◌==◌,
}
use makisu.FileMap.{
  Slot, FileMap, mem, without, move_to_front, store, get, remove, set_entry, oldest_if_needed,
}
use makisu.FileMap.Calls.{evict_entry, evict_if_needed, try_store}
use makisu.FileMap.Indexed.{distinct, IsIndexed, added-IsIndexed}
use makisu.FileMap.Recency.{get_all, used_later, evict_if_needed-oldest}
use makisu.FileMap.Stored.{IsBounded, try_store-IsBounded}
use makisu.FileMap.Threads.{
  System, Reach, for_peek, for_store, idle, waiting, locked, inside, set_place, at_start, and_step,
  store_entry,
}
use makisu.FileMap.Threads.Guarded.{start, Reach-IsPresent}

abbrev a_slot : Slot
a_slot = record { file_name = codes "a"; last_access = 0; metadata = none }

abbrev b_slot : Slot
b_slot = record { file_name = codes "b"; last_access = 0; metadata = none }

abbrev slots : ℕ → Slot
slots i = elim i [ zero ↦ a_slot | suc k ↦ b_slot ]

-- An empty map of size 1, and the map with the first file and then with the second.
abbrev no_files : FileMap
no_files = record { size = 1; time_resolution = 300; queue = []; elements = []; entries = slots }

abbrev one_file : FileMap
one_file = record no_files {
  queue = 0 ∷ [];
  elements = insert (codes "a") 0 [];
  entries = set_entry 0 a_slot slots;
}

abbrev two_files : FileMap
two_files = record one_file {
  queue = 1 ∷ 0 ∷ [];
  elements = insert (codes "b") 1 one_file.elements;
  entries = set_entry 1 b_slot one_file.entries;
}

no_files-IsIndexed : IsIndexed no_files
unfolding distinct mem lookup
no_files-IsIndexed = record { once = refl; named = λ name i. (λ e. cc, λ h. cc) }

one_file-IsIndexed : IsIndexed one_file
unfolding mem lookup
one_file-IsIndexed = added-IsIndexed (codes "a") 0 a_slot no_files no_files-IsIndexed refl refl refl

two_files-IsIndexed : IsIndexed two_files
unfolding mem lookup insert bytes_eq
two_files-IsIndexed =
    added-IsIndexed (codes "b") 1 b_slot one_file one_file-IsIndexed refl refl refl

evicts : (evict_if_needed two_files).queue ≡ 1 ∷ []
unfolding evict_if_needed oldest_if_needed evict_entry get remove without move_to_front mem lookup
    insert delete bytes_eq
evicts = refl

evict_if_needed-oldest_example :
    let used = get_all (codes "b" ∷ codes "a" ∷ []) two_files in
    (i : ℕ) × (last? used.queue ≡ some i)
    × ((evict_if_needed used).queue ≡ init used.queue)
    × ((j : ℕ)
        → mem j two_files.queue ≡ true
        → (j == i) ≡ false
        → used_later two_files j i (codes "b" ∷ codes "a" ∷ []) ≡ true)
evict_if_needed-oldest_example =
    evict_if_needed-oldest (codes "b" ∷ codes "a" ∷ []) two_files two_files-IsIndexed (omega arith)
      (omega arith)

-- A use keeps a file from the eviction.
used_is_kept : (evict_if_needed (get_all (codes "a" ∷ []) two_files)).queue ≡ 0 ∷ []
unfolding get_all evict_if_needed oldest_if_needed evict_entry get remove without move_to_front mem
    lookup insert delete bytes_eq
used_is_kept = refl

one_file-IsBounded : IsBounded one_file
one_file-IsBounded = record {
  indexed = one_file-IsIndexed;
  limited = omega arith;
  within = omega arith;
}

try_store-IsBounded_example : IsBounded (try_store 7 (codes "b") 1 b_slot true one_file).1
unfolding mem
try_store-IsBounded_example =
    try_store-IsBounded 7 (codes "b") 1 b_slot true one_file refl refl one_file-IsBounded

-- One goroutine stores a file.
abbrev at_work : System
at_work = record {
  fm = (store 5 (codes "a") 0 a_slot (start 1 300 slots).fm).1;
  next = 1;
  places = set_place 0 (inside for_store (codes "a") 0) (λ t. idle);
}

stores_first : Reach (start 1 300 slots) at_work
unfolding store get lookup
stores_first = and_step at_start (store_entry 0 5 (codes "a") a_slot refl)

Reach-IsPresent_example : lookup (codes "a") at_work.fm.elements ≡ some 0
Reach-IsPresent_example =
    Reach-IsPresent 1 300 slots at_work stores_first 0 for_store (codes "a") 0 refl

-- It leaves, and two goroutines look at the file at the same time.
abbrev left : System
left = record { fm = at_work.fm; next = 1; places = set_place 0 idle at_work.places }

abbrev name_a : Bytes
name_a = codes "a"

abbrev seen : FileMap
seen = (get name_a (get name_a at_work.fm).1).1

abbrev both : System
both = record {
  fm = (get name_a (get name_a seen).1).1;
  next = 1;
  places = set_place 1 (inside for_peek name_a 0) (
      set_place 0 (inside for_peek name_a 0) (
        set_place 1 (locked for_peek name_a 0) (
          set_place 0 (locked for_peek name_a 0) (
            set_place 1 (waiting for_peek name_a 0)
              (set_place 0 (waiting for_peek name_a 0) left.places)))));
}
