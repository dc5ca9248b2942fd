-- ===== src/FileMap/Stored.antt =====
-- lib/storage/base/file_map.go: what `TryStore` leaves.
use makisu.Base.{
  ℕ, suc, ◌<◌, ◌≤◌, Bool, true, false, ◌≡◌, inl, inr, refl, ap, ◌∙◌, arith, some, none, List, [],
  ◌∷◌, Bytes, lookup, insert, length, Option-cases,
}
use makisu.FileMap.{
  Slot, FileMap, mem, without, move_to_front, get, remove, store, add, oldest_if_needed,
  first_access, set_entry,
}
use makisu.FileMap.Calls.{evict_entry, evict_if_needed, end_store, try_store}
use makisu.FileMap.Indexed.{
  IsIndexed, get-free, get-taken, length-front, mem-front, front-IsIndexed, remove-IsIndexed,
  added-IsIndexed, entry-IsIndexed,
}
use makisu.FileMap.Bounded.{evict_if_needed-IsIndexed, evict_if_needed-length, remove-taken}

touched : ℕ → Slot → Slot
touched now slot = record slot { last_access = now; metadata = some now }

store-taken :
    (now : ℕ) (name : Bytes) (i j : ℕ) (slot : Slot) (fm : FileMap)
    → lookup name fm.elements ≡ some j
    → store now name i slot fm ≡ (
      false,
      record fm {
        queue = move_to_front j fm.queue;
        entries = set_entry i (touched now slot) fm.entries;
      },
    )
unfolding store touched
store-taken now name i j slot fm taken =
    rw (store, get-taken name j fm taken, get-taken name j fm taken) refl

add-free :
    (name : Bytes) (i : ℕ) (fm : FileMap)
    → lookup name fm.elements ≡ none
    → add name i fm ≡ record fm { queue = i ∷ fm.queue; elements = insert name i fm.elements }
unfolding add
add-free name i fm free = rw (add, free) refl

store-add :
    (now : ℕ) (name : Bytes) (i : ℕ) (slot : Slot) (fm : FileMap)
    → lookup name fm.elements ≡ none
    → store now name i slot fm
      ≡ (true, add name i (record fm { entries = set_entry i (first_access now slot) fm.entries }))
unfolding store
store-add now name i slot fm free = rw (store, get-free name fm free, get-free name fm free) refl

store-new :
    (now : ℕ) (name : Bytes) (i : ℕ) (slot : Slot) (fm : FileMap)
    → lookup name fm.elements ≡ none
    → store now name i slot fm ≡ (
      true,
      record fm {
        queue = i ∷ fm.queue;
        elements = insert name i fm.elements;
        entries = set_entry i (first_access now slot) fm.entries;
      },
    )
store-new now name i slot fm free =
    store-add now name i slot fm free
    ∙ ap (λ x. (true, x))
        (add-free name i (record fm { entries = set_entry i (first_access now slot) fm.entries })
          free)

first_access-name : (now : ℕ) (slot : Slot) → (first_access now slot).file_name ≡ slot.file_name
first_access-name now slot = ground arith

-- A map of a limited size whose list and names agree, and that holds no more files than its size.
pub record IsBounded (fm : FileMap) : Type 0 where
  pub indexed : IsIndexed fm
  pub limited : 0 < fm.size
  pub within : length fm.queue ≤ fm.size

get-size : (name : Bytes) (fm : FileMap) → (get name fm).1.size ≡ fm.size
unfolding get
get-size name fm = ground arith

remove-size : (name : Bytes) (fm : FileMap) → (remove name fm).size ≡ fm.size
unfolding remove
remove-size name fm = ground arith

evict_entry-size : (i : ℕ) (fm : FileMap) → (evict_entry i fm).size ≡ fm.size
unfolding evict_entry
evict_entry-size i fm =
    let name = (fm.entries i).file_name in
    ground (arith, get-size name fm, remove-size name (get name fm).1)

evict_if_needed-size : (fm : FileMap) → (evict_if_needed fm).size ≡ fm.size
unfolding evict_if_needed
evict_if_needed-size fm = elim (Option-cases (oldest_if_needed fm)) [
  | inl within ↦ rw (evict_if_needed, within) refl
  | inr (i, oldest) ↦ rw (evict_if_needed, oldest) (evict_entry-size i fm)
]

near-IsBounded :
    (fm : FileMap)
    → IsIndexed fm
    → 0 < fm.size
    → length fm.queue ≤ suc fm.size
    → IsBounded (evict_if_needed fm)
near-IsBounded fm idx limited near = record {
  indexed = evict_if_needed-IsIndexed fm idx;
  limited = rw (evict_if_needed-size fm) limited;
  within = rw (evict_if_needed-size fm) (evict_if_needed-length fm idx limited near);
}

remove-free : (name : Bytes) (fm : FileMap) → lookup name fm.elements ≡ none → remove name fm ≡ fm
unfolding remove
remove-free name fm free = rw (remove, free) refl

without-shorter : (i : ℕ) (q : List ℕ) → length (without i q) ≤ length q
unfolding without
without-shorter i [] = omega arith
without-shorter i (j ∷ q) = ground (arith, without-shorter i q)

remove-length :
    (name : Bytes) (fm : FileMap) {n : ℕ} → length fm.queue ≤ n → length (remove name fm).queue ≤ n
remove-length name fm h = elim (Option-cases (lookup name fm.elements)) [
  | inl free ↦ rw (remove-free name fm free) h
  | inr (i, taken) ↦
      rw (remove-taken name i fm taken) (omega (arith, without-shorter i fm.queue, h))
]

-- The entry that the function did not accept is removed again.
back-IsBounded :
    (name : Bytes) (fm : FileMap)
    → IsIndexed fm
    → 0 < fm.size
    → length fm.queue ≤ suc fm.size
    → IsBounded (evict_if_needed (remove name fm))
back-IsBounded name fm idx limited near =
    near-IsBounded (remove name fm) (remove-IsIndexed name fm idx)
      (rw (remove-size name fm) limited) (rw (remove-size name fm) (remove-length name fm near))

ended-IsBounded :
    (name : Bytes) (result : Bool) (fm : FileMap)
    → IsIndexed fm
    → 0 < fm.size
    → length fm.queue ≤ suc fm.size
    → IsBounded (end_store name result fm).1
unfolding end_store
ended-IsBounded name true fm = near-IsBounded fm
ended-IsBounded name false fm = back-IsBounded name fm

-- Storing a new entry under its own name, whatever the function then gives, leaves a map whose list
-- and names agree and that holds no more files than its size.
pub try_store-IsBounded :
    (now : ℕ) (name : Bytes) (i : ℕ) (slot : Slot) (result : Bool) (fm : FileMap)
    → mem i fm.queue ≡ false
    → slot.file_name ≡ name
    → IsBounded fm
    → IsBounded (try_store now name i slot result fm).1
unfolding try_store
try_store-IsBounded now name i slot result fm fresh same b =
    elim (Option-cases (lookup name fm.elements)) [
      | inl free ↦ rw (store-new now name i slot fm free) (
          ended-IsBounded name result _
            (added-IsIndexed name i (first_access now slot) fm b.indexed fresh
              (first_access-name now slot ∙ same) free)
            b.limited (omega (arith, b.within)))
      | inr (j, taken) ↦ rw (store-taken now name i j slot fm taken) (
          near-IsBounded _
            (entry-IsIndexed i (touched now slot) (record fm { queue = move_to_front j fm.queue })
              (front-IsIndexed j fm b.indexed) (mem-front i j fm.queue b.indexed.once ∙ fresh))
            b.limited (rw (length-front j fm.queue) (omega (arith, b.within))))
    ]
