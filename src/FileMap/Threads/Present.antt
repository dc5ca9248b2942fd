-- ===== src/FileMap/Threads/Present.antt =====
-- The entries of the functions that run, and the names in the map.
use makisu.Base.{
  ℕ, Bool, true, false, ◌&&◌, ◌≡◌, ◌≢◌, ◌⊎◌, inl, inr, refl, sym, ◌∙◌, arith, some, if◌then◌else◌,
  Bytes, bytes_eq, bytes_eq_iff, lookup, Bool-cases,
}
use mathlib.Core.Option.{some-injective}
use makisu.FileMap.{Slot, FileMap, get, remove, store}
use makisu.FileMap.Elements.{==-refl, get-elements, remove-elements, store-elements, store-free}
use makisu.FileMap.Threads.{
  Method, Place, System, Step, for_read, for_peek, for_write, for_delete, for_evict, for_store,
  idle, waiting, locked, inside, is_shared, set_place, second_look, after_function, look_up,
  begin_evict, lock, enter, give_up, leave, store_entry,
}
use makisu.FileMap.Threads.Older.{second_look-elements, second_look-found, moved}
use makisu.FileMap.Threads.Exclusive.{IsExclusive}

-- Every function that runs has its entry under its name in the map.
abbrev pub IsPresent : System → Type 0
IsPresent s =
    (t : ℕ) (m : Method) (name : Bytes) (i : ℕ)
    → s.places t ≡ inside m name i
    → lookup name s.fm.elements ≡ some i

-- What is done after a function removes at most its own name, and only for a method that excludes
-- every other.
remove-lookup :
    (name j : Bytes) (fm : FileMap)
    → (lookup j (remove name fm).elements ≡ lookup j fm.elements) ⊎ ((false ≡ false) × (name ≡ j))
remove-lookup name j fm = elim (Bool-cases (bytes_eq name j)) [
  | inl same ↦ inr (refl, (bytes_eq_iff name j).0 same)
  | inr other ↦ inl (ground (arith, remove-elements name j fm, other))
]

after_function-lookup :
    (m : Method) (result : Bool) (name j : Bytes) (fm : FileMap)
    → (lookup j (after_function m result name fm).elements ≡ lookup j fm.elements)
      ⊎ ((is_shared m ≡ false) × (name ≡ j))
unfolding after_function is_shared
after_function-lookup for_read result name j fm = inl refl
after_function-lookup for_write result name j fm = inl refl
after_function-lookup for_peek result name j fm = inl refl
after_function-lookup for_delete true name j fm = remove-lookup name j fm
after_function-lookup for_delete false name j fm = inl refl
after_function-lookup for_evict result name j fm = remove-lookup name j fm
after_function-lookup for_store true name j fm = inl refl
after_function-lookup for_store false name j fm = remove-lookup name j fm

set_place-present :
    (t : ℕ) (p : Place) (s : System) (fm' : FileMap)
    → ((m : Method) (name : Bytes) (i : ℕ)
        → p ≡ inside m name i
        → lookup name fm'.elements ≡ some i)
    → ((u : ℕ) (m : Method) (name : Bytes) (i : ℕ)
        → t ≢ u
        → s.places u ≡ inside m name i
        → lookup name fm'.elements ≡ some i)
    → (u : ℕ) (m : Method) (name : Bytes) (i : ℕ) → set_place t p s.places u ≡ inside m name i
    → lookup name fm'.elements ≡ some i
set_place-present t p s fm' new old u m name i e = elim (moved t u p s.places) [
  | inl (same, at_t) ↦ new m name i (sym at_t ∙ e)
  | inr (other, at_u) ↦ old u m name i other (sym at_u ∙ e)
]

-- A map with the same names has the entries of the same functions.
same-present :
    (s : System) (fm' : FileMap)
    → fm'.elements ≡ s.fm.elements
    → IsPresent s
    → (t u : ℕ) (m : Method) (name : Bytes) (i : ℕ) → t ≢ u
    → s.places u ≡ inside m name i
    → lookup name fm'.elements ≡ some i
same-present s fm' same pres t u m name i ne e = rw same (pres u m name i e)

stored-inside :
    (stored : Bool) (m : Method) (name j : Bytes) (n i : ℕ)
    → (if stored then inside for_store name n else idle) ≡ inside m j i
    → (stored ≡ true) × (name ≡ j) × (n ≡ i)
stored-inside true m name j n i e = (refl, cc, cc)
stored-inside false m name j n i e = cc

entered-present :
    (m m' : Method) (now : ℕ) (name j : Bytes) (i k : ℕ) (fm : FileMap)
    → (second_look m now name fm).0 ≡ some i
    → inside m name i ≡ inside m' j k
    → lookup j (second_look m now name fm).1.elements ≡ some k
entered-present m m' now name j i k fm found h =
    let same_name : name ≡ j = cc in
    let same_entry : i ≡ k = cc in
    rw (second_look-elements m now name fm, ← same_name, ← same_entry)
      (sym (second_look-found m now name fm) ∙ found)

-- Two functions of one name, of which one excludes every other, are one function.
pub alone :
    (s : System) (t u : ℕ) (m m' : Method) (name : Bytes) (i k : ℕ)
    → IsExclusive s
    → IsPresent s
    → t ≢ u
    → s.places t ≡ inside m name i
    → s.places u ≡ inside m' name k
    → is_shared m && is_shared m' ≡ true
alone s t u m m' name i k ex pres ne et eu =
    let same : i ≡ k = some-injective i k (sym (pres t m name i et) ∙ pres u m' name k eu) in
    let shared = ex t u i ne (rw et (==-refl i)) (rw (eu, same) (==-refl k)) in
    rw (et, eu) at shared

left-present :
    (s : System) (t u : ℕ) (m m' : Method) (name j : Bytes) (i k : ℕ) (result : Bool)
    → IsExclusive s
    → IsPresent s
    → t ≢ u
    → s.places t ≡ inside m name i
    → s.places u ≡ inside m' j k
    → lookup j (after_function m result name s.fm).elements ≡ some k
left-present s t u m m' name j i k result ex pres ne et eu =
    elim (after_function-lookup m result name j s.fm) [
      | inl same ↦ same ∙ pres u m' j k eu
      | inr (excludes, same) ↦
          absurd (ground (arith, alone s t u m m' name i k ex pres ne et (rw same eu), excludes))
    ]

stored-present :
    (now n : ℕ) (m : Method) (name j : Bytes) (k : ℕ) (slot : Slot) (fm : FileMap)
    → (if (store now name n slot fm).0 then inside for_store name n else idle) ≡ inside m j k
    → lookup j (store now name n slot fm).1.elements ≡ some k
stored-present now n m name j k slot fm h =
    let (stored, same_name, same_entry) =
      stored-inside (store now name n slot fm).0 m name j n k h in
    store-elements now name j n slot fm
    ∙ (rw (stored, (bytes_eq_iff name j).1 same_name, same_entry) refl)

other-present :
    (now n : ℕ) (name j : Bytes) (k : ℕ) (slot : Slot) (fm : FileMap)
    → lookup j fm.elements ≡ some k
    → lookup j (store now name n slot fm).1.elements ≡ some k
other-present now n name j k slot fm taken =
    elim (Bool-cases ((store now name n slot fm).0 && bytes_eq name j)) [
      | inl new ↦
          let free = store-free now name n slot fm (ground (arith, new)) in
          let same : name ≡ j = (bytes_eq_iff name j).0 (ground (arith, new)) in
          absurd (ground (arith, rw same at free, taken))
      | inr old ↦ store-elements now name j n slot fm ∙ (rw old taken)
    ]

pub Step-IsPresent : {s s' : System} → Step s s' → IsExclusive s → IsPresent s → IsPresent s'
Step-IsPresent {s} (look_up t m name i e found) ex pres =
    set_place-present t (waiting m name i) s (get name s.fm).1 (λ m' j k h. cc)
      (same-present s (get name s.fm).1 (get-elements name s.fm) pres t)
Step-IsPresent {s} (begin_evict t i e found) ex pres =
    set_place-present t (waiting for_evict (s.fm.entries i).file_name i) s s.fm (λ m' j k h. cc)
      (same-present s s.fm refl pres t)
Step-IsPresent {s} (lock t m name i e free) ex pres =
    set_place-present t (locked m name i) s s.fm (λ m' j k h. cc) (same-present s s.fm refl pres t)
Step-IsPresent {s} (enter t now m name i e found) ex pres =
    set_place-present t (inside m name i) s (second_look m now name s.fm).1
      (λ m' j k h. entered-present m m' now name j i k s.fm found h)
      (same-present s (second_look m now name s.fm).1 (second_look-elements m now name s.fm) pres t)
Step-IsPresent {s} (give_up t now m name i e lost) ex pres =
    set_place-present t idle s (second_look m now name s.fm).1 (λ m' j k h. cc)
      (same-present s (second_look m now name s.fm).1 (second_look-elements m now name s.fm) pres t)
Step-IsPresent {s} (leave t m name i result e) ex pres =
    set_place-present t idle s (after_function m result name s.fm) (λ m' j k h. cc)
      (λ u m' j k ne h. left-present s t u m m' name j i k result ex pres ne e h)
Step-IsPresent {s} (store_entry t now name slot e) ex pres =
    set_place-present t
      (if (store now name s.next slot s.fm).0 then inside for_store name s.next else idle) s
      (store now name s.next slot s.fm).1
      (λ m' j k h. stored-present now s.next m' name j k slot s.fm h)
      (λ u m' j k ne h. other-present now s.next name j k slot s.fm (pres u m' j k h))
