-- ===== src/FileMap/Threads/Older.antt =====
-- A new entry is none that a goroutine has or that is in the map.
use makisu.Base.{
  ℕ, ◌+◌, ◌<◌, Bool, true, false, ◌&&◌, ◌==◌, ◌≡◌, ◌≢◌, ◌⊎◌, inl, inr, refl, sym, ◌∙◌, subst, arith,
  some, if◌then◌else◌, Bytes, bytes_eq, lookup, Bool-cases,
}
use mathlib.Core.Option.{some-injective}
use makisu.FileMap.{Slot, FileMap, mem, get, remove, store}
use makisu.FileMap.Elements.{
  ==-eq, ==-refl, ==-ne, get-elements, get-found, get_and_touch-elements, get_and_touch-found,
  remove-elements, store-elements, get-queue, get_and_touch-queue, remove-queue, store-queue,
  oldest-mem,
}
use makisu.FileMap.Threads.{
  Method, Place, System, Step, for_read, for_peek, for_write, for_delete, for_evict, for_store,
  idle, waiting, locked, inside, set_place, second_look, after_function, look_up, begin_evict, lock,
  enter, give_up, leave, store_entry,
}

pub second_look-elements :
    (m : Method) (now : ℕ) (name : Bytes) (fm : FileMap)
    → (second_look m now name fm).1.elements ≡ fm.elements
unfolding second_look
second_look-elements for_read now name fm = get_and_touch-elements now name fm
second_look-elements for_write now name fm = get_and_touch-elements now name fm
second_look-elements for_peek now name fm = get-elements name fm
second_look-elements for_delete now name fm = get-elements name fm
second_look-elements for_evict now name fm = get-elements name fm
second_look-elements for_store now name fm = get-elements name fm

pub second_look-found :
    (m : Method) (now : ℕ) (name : Bytes) (fm : FileMap)
    → (second_look m now name fm).0 ≡ lookup name fm.elements
unfolding second_look
second_look-found for_read now name fm = get_and_touch-found now name fm
second_look-found for_write now name fm = get_and_touch-found now name fm
second_look-found for_peek now name fm = get-found name fm
second_look-found for_delete now name fm = get-found name fm
second_look-found for_evict now name fm = get-found name fm
second_look-found for_store now name fm = get-found name fm

second_look-queue :
    (m : Method) (j now : ℕ) (name : Bytes) (fm : FileMap)
    → mem j (second_look m now name fm).1.queue ≡ true
    → mem j fm.queue ≡ true
unfolding second_look
second_look-queue for_read j now name fm = get_and_touch-queue j now name fm
second_look-queue for_write j now name fm = get_and_touch-queue j now name fm
second_look-queue for_peek j now name fm = get-queue j name fm
second_look-queue for_delete j now name fm = get-queue j name fm
second_look-queue for_evict j now name fm = get-queue j name fm
second_look-queue for_store j now name fm = get-queue j name fm

-- The goroutine that moves, and the others.
pub moved :
    (t u : ℕ) (p : Place) (places : ℕ → Place)
    → ((t ≡ u) × (set_place t p places u ≡ p)) ⊎ ((t ≢ u) × (set_place t p places u ≡ places u))
moved t u p places = elim (Bool-cases (t == u)) [
  | inl same ↦ inl (==-eq t u same, rw same refl)
  | inr other ↦ inr (==-ne t u other, rw other refl)
]

-- An entry that a goroutine has or that is in the map is older than the next one.
abbrev pub names_entry : ℕ → Place → Bool
names_entry i p = elim p [
  | idle ↦ false
  | waiting m name j ↦ i == j
  | locked m name j ↦ i == j
  | inside m name j ↦ i == j
]

abbrev pub OldMap : FileMap → ℕ → Type 0
OldMap fm n =
    ((name : Bytes) (i : ℕ) → lookup name fm.elements ≡ some i → i < n)
    × ((i : ℕ) → mem i fm.queue ≡ true → i < n)

abbrev pub OldPlaces : (ℕ → Place) → ℕ → Type 0
OldPlaces places n = (t i : ℕ) → names_entry i (places t) ≡ true → i < n

abbrev pub IsOlder : System → Type 0
IsOlder s = OldPlaces s.places s.next × OldMap s.fm s.next

set_place-old :
    (t n : ℕ) (p : Place) (places : ℕ → Place)
    → OldPlaces places n
    → ((i : ℕ) → names_entry i p ≡ true → i < n)
    → OldPlaces (set_place t p places) n
set_place-old t n p places old new u i e = elim (moved t u p places) [
  | inl (same, at_t) ↦ new i (rw at_t at e)
  | inr (other, at_u) ↦ old u i (rw at_u at e)
]

same-old :
    (n : ℕ) (fm fm' : FileMap)
    → fm'.elements ≡ fm.elements
    → ((j : ℕ) → mem j fm'.queue ≡ true → mem j fm.queue ≡ true)
    → OldMap fm n
    → OldMap fm' n
same-old n fm fm' same sub (names, queued) = (
  λ name i e. names name i (subst (λ x. lookup name x ≡ some i) same e),
  λ i e. queued i (sub i e),
)

remove-old : (n : ℕ) (name : Bytes) (fm : FileMap) → OldMap fm n → OldMap (remove name fm) n
remove-old n name fm (names, queued) = (
  λ j i e. names j i (ground (arith, remove-elements name j fm, e)),
  λ i e. queued i (remove-queue i name fm e),
)

after_function-old :
    (m : Method) (result : Bool) (n : ℕ) (name : Bytes) (fm : FileMap)
    → OldMap fm n
    → OldMap (after_function m result name fm) n
unfolding after_function
after_function-old for_read result n name fm old = old
after_function-old for_write result n name fm old = old
after_function-old for_peek result n name fm old = old
after_function-old for_delete true n name fm old = remove-old n name fm old
after_function-old for_delete false n name fm old = old
after_function-old for_evict result n name fm old = remove-old n name fm old
after_function-old for_store true n name fm old = old
after_function-old for_store false n name fm old = remove-old n name fm old

store-old :
    (now n : ℕ) (name : Bytes) (slot : Slot) (fm : FileMap)
    → OldMap fm n
    → OldMap (store now name n slot fm).1 (n + 1)
store-old now n name slot fm (names, queued) = (
  λ j i e. elim (Bool-cases ((store now name n slot fm).0 && bytes_eq name j)) [
    | inl new ↦
        ground (arith, some-injective n i (rw (store-elements now name j n slot fm, new) at e), e)
    | inr old ↦ ground (arith, names j i (rw (store-elements now name j n slot fm, old) at e))
  ],
  λ i e. elim (store-queue i now name n slot fm e) [
    | inl new ↦ ground (arith, new)
    | inr old ↦ ground (arith, queued i old)
  ],
)

only-old : (n i : ℕ) → i < n → (j : ℕ) → (j == i) ≡ true → j < n
only-old n i old j e = ground (arith, old, e)

held-old :
    (n t : ℕ) (places : ℕ → Place) (p : Place) (i : ℕ)
    → OldPlaces places n
    → places t ≡ p
    → names_entry i p ≡ true
    → i < n
held-old n t places p i old e named = old t i (rw e named)

more-old : (n : ℕ) (places : ℕ → Place) → OldPlaces places n → OldPlaces places (n + 1)
more-old n places old t i e = ground (arith, old t i e)

stored-old :
    (stored : Bool) (name : Bytes) (n i : ℕ)
    → names_entry i (if stored then inside for_store name n else idle) ≡ true
    → i < n + 1
stored-old true name n i e = ground (arith, e)
stored-old false name n i e = absurd (ground (arith, e))

pub Step-IsOlder : {s s' : System} → Step s s' → IsOlder s → IsOlder s'
Step-IsOlder {s} (look_up t m name i e found) (places, map) = (
  set_place-old t s.next (waiting m name i) s.places places
      (only-old s.next i (map.0 name i (sym (get-found name s.fm) ∙ found))),
  same-old s.next s.fm (get name s.fm).1 (get-elements name s.fm) (λ j. get-queue j name s.fm) map,
)
Step-IsOlder {s} (begin_evict t i e found) (places, map) = (
  set_place-old t s.next (waiting for_evict (s.fm.entries i).file_name i) s.places places
      (only-old s.next i (map.1 i (oldest-mem i s.fm found))),
  map,
)
Step-IsOlder {s} (lock t m name i e free) (places, map) = (
  set_place-old t s.next (locked m name i) s.places places
      (only-old s.next i (held-old s.next t s.places (waiting m name i) i places e (==-refl i))),
  map,
)
Step-IsOlder {s} (enter t now m name i e found) (places, map) = (
  set_place-old t s.next (inside m name i) s.places places
      (only-old s.next i (held-old s.next t s.places (locked m name i) i places e (==-refl i))),
  same-old s.next s.fm (second_look m now name s.fm).1 (second_look-elements m now name s.fm)
      (λ j. second_look-queue m j now name s.fm) map,
)
Step-IsOlder {s} (give_up t now m name i e lost) (places, map) = (
  set_place-old t s.next idle s.places places (λ j h. absurd (ground (arith, h))),
  same-old s.next s.fm (second_look m now name s.fm).1 (second_look-elements m now name s.fm)
      (λ j. second_look-queue m j now name s.fm) map,
)
Step-IsOlder {s} (leave t m name i result e) (places, map) = (
  set_place-old t s.next idle s.places places (λ j h. absurd (ground (arith, h))),
  after_function-old m result s.next name s.fm map,
)
Step-IsOlder {s} (store_entry t now name slot e) (places, map) = (
  set_place-old t (s.next + 1)
      (if (store now name s.next slot s.fm).0 then inside for_store name s.next else idle) s.places
      (more-old s.next s.places places)
      (stored-old (store now name s.next slot s.fm).0 name s.next),
  store-old now s.next name slot s.fm map,
)
