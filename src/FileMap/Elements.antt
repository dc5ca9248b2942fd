-- ===== src/FileMap/Elements.antt =====
-- What the critical sections do to the names in the map.
use makisu.Base.{
  ℕ, true, false, ◌&&◌, ◌==◌, ◌≡◌, ◌≢◌, ◌⊎◌, inl, inr, arith, some, none, List, [], ◌∷◌,
  if◌then◌else◌, Bytes, bytes_eq, bytes_eq_iff, lookup, lookup-insert, lookup-delete, last?,
  Option-cases,
}
use makisu.FileMap.{
  Slot, FileMap, mem, without, move_to_front, get, get_and_touch, touch, add, remove, store,
  oldest_if_needed,
}

pub ==-eq : (a b : ℕ) → (a == b) ≡ true → a ≡ b
==-eq a b e = ground (arith, e)

pub ==-refl : (i : ℕ) → (i == i) ≡ true
==-refl i = ground arith

pub ==-ne : (a b : ℕ) → (a == b) ≡ false → a ≢ b
==-ne a b e = ground (arith, e)

pub get-elements : (name : Bytes) (fm : FileMap) → (get name fm).1.elements ≡ fm.elements
unfolding get
get-elements name fm = ground arith

pub get-found : (name : Bytes) (fm : FileMap) → (get name fm).0 ≡ lookup name fm.elements
unfolding get
get-found name fm = ground arith

pub get_and_touch-found :
    (now : ℕ) (name : Bytes) (fm : FileMap)
    → (get_and_touch now name fm).0 ≡ lookup name fm.elements
unfolding get_and_touch
get_and_touch-found now name fm = ground (arith, get-found name fm)

pub touch-elements : (now i : ℕ) (fm : FileMap) → (touch now i fm).elements ≡ fm.elements
unfolding touch
touch-elements now i fm = ground arith

pub get_and_touch-elements :
    (now : ℕ) (name : Bytes) (fm : FileMap) → (get_and_touch now name fm).1.elements ≡ fm.elements
unfolding get_and_touch
get_and_touch-elements now name fm = ground (arith, get-elements name fm, touch-elements now)

pub remove-elements :
    (name j : Bytes) (fm : FileMap)
    → lookup j (remove name fm).elements ≡ (if bytes_eq name j then none else lookup j fm.elements)
unfolding remove
remove-elements name j fm = ground (arith, bytes_eq_iff name j, lookup-delete name j fm.elements)

pub store-elements :
    (now : ℕ) (name j : Bytes) (i : ℕ) (slot : Slot) (fm : FileMap)
    → lookup j (store now name i slot fm).1.elements
      ≡ (if (store now name i slot fm).0 && bytes_eq name j then some i else lookup j fm.elements)
unfolding store get add
store-elements now name j i slot fm = ground (arith, lookup-insert name j i fm.elements)

-- A new entry is stored only under a name that is free.
pub store-free :
    (now : ℕ) (name : Bytes) (i : ℕ) (slot : Slot) (fm : FileMap)
    → (store now name i slot fm).0 ≡ true
    → lookup name fm.elements ≡ none
unfolding store get
store-free now name i slot fm e = ground (arith, e)

-- The entries of the list stay those that it had.
pub mem-without : (j i : ℕ) (q : List ℕ) → mem j (without i q) ≡ true → mem j q ≡ true
unfolding mem without
mem-without j i [] e = e
mem-without j i (k ∷ q) e = ground (arith, mem-without j i q, e)

pub mem-move_to_front : (j i : ℕ) (q : List ℕ) → mem j (move_to_front i q) ≡ true → mem j q ≡ true
unfolding move_to_front mem
mem-move_to_front j i q e = ground (arith, ==-eq j i, mem-without j i q, e)

pub mem-last : (i : ℕ) (q : List ℕ) → last? q ≡ some i → mem i q ≡ true
unfolding mem
mem-last i [] e = absurd (ground (arith, e))
mem-last i (j ∷ []) e = ground (arith, e)
mem-last i (j ∷ k ∷ q) e = ground (arith, mem-last i (k ∷ q) e)

pub get-queue :
    (j : ℕ) (name : Bytes) (fm : FileMap)
    → mem j (get name fm).1.queue ≡ true
    → mem j fm.queue ≡ true
unfolding get
get-queue j name fm e = elim (Option-cases (lookup name fm.elements)) [
  | inl free ↦ ground (arith, e, free)
  | inr (i, taken) ↦ ground (arith, mem-move_to_front j i fm.queue, e, taken)
]

touch-queue : (now i : ℕ) (fm : FileMap) → (touch now i fm).queue ≡ fm.queue
unfolding touch
touch-queue now i fm = ground arith

pub get_and_touch-queue :
    (j now : ℕ) (name : Bytes) (fm : FileMap)
    → mem j (get_and_touch now name fm).1.queue ≡ true
    → mem j fm.queue ≡ true
unfolding get_and_touch
get_and_touch-queue j now name fm e = elim (Option-cases (get name fm).0) [
  | inl free ↦ get-queue j name fm (rw (get_and_touch, free) at e)
  | inr (i, taken) ↦
      get-queue j name fm (rw (get_and_touch, taken, touch-queue now i (get name fm).1) at e)
]

pub remove-queue :
    (j : ℕ) (name : Bytes) (fm : FileMap)
    → mem j (remove name fm).queue ≡ true
    → mem j fm.queue ≡ true
unfolding remove
remove-queue j name fm e = elim (Option-cases (lookup name fm.elements)) [
  | inl free ↦ ground (arith, e, free)
  | inr (i, taken) ↦ ground (arith, mem-without j i fm.queue, e, taken)
]

pub store-queue :
    (j now : ℕ) (name : Bytes) (i : ℕ) (slot : Slot) (fm : FileMap)
    → mem j (store now name i slot fm).1.queue ≡ true
    → (j ≡ i) ⊎ (mem j fm.queue ≡ true)
unfolding store get add mem
store-queue j now name i slot fm e = elim (Option-cases (lookup name fm.elements)) [
  | inl free ↦ ground (arith, e, free)
  | inr (k, taken) ↦ inr (ground (arith, mem-move_to_front j k fm.queue, e, taken))
]

pub oldest-mem : (i : ℕ) (fm : FileMap) → oldest_if_needed fm ≡ some i → mem i fm.queue ≡ true
unfolding oldest_if_needed
oldest-mem i fm e = ground (arith, mem-last i fm.queue, e)
