-- ===== src/FileMap/Recency.antt =====
-- lib/storage/base/file_map.go: the order in which the entries of the map were used, and the entry
-- that an eviction takes. Every `get` is a use, also one that only looks.
use makisu.Base.{
  ℕ, ◌<◌, Bool, true, false, if◌then◌else◌, ◌==◌, ◌≡◌, refl, sym, ◌∙◌, arith, some, none, List, [],
  ◌∷◌, Bytes, Option, lookup, length, last?, init, Option-cases, Bool-cases, inl, inr,
}
use makisu.FileMap.{FileMap, mem, without, move_to_front, get}
use makisu.FileMap.Elements.{==-eq, mem-last}
use makisu.FileMap.Calls.{evict_if_needed}
use makisu.FileMap.Indexed.{
  distinct, IsIndexed, get-free, get-taken, get-IsIndexed, mem-front, length-front, mem-same,
}
use makisu.FileMap.Bounded.{last-some, evict_if_needed-init}

-- The map after its `get` was called with these names, the last call in front.
unfoldable pub get_all : List Bytes → FileMap → FileMap
unfolding get
get_all [] fm = fm
get_all (name ∷ names) fm = (get name (get_all names fm)).1

-- In a list, j comes up before i does.
unfoldable pub before : ℕ → ℕ → List ℕ → Bool
before j i [] = false
before j i (k ∷ q) = if k == j then true else if k == i then false else before j i q

abbrev one_use : Option ℕ → ℕ → ℕ → Bool → Bool
one_use none j i earlier = earlier
one_use (some k) j i earlier = if k == j then true else if k == i then false else earlier

-- The entry j was used later than i: the last call that found either found j. Where none did, the
-- order in the list is still the one of before.
unfoldable pub used_later : FileMap → ℕ → ℕ → List Bytes → Bool
unfolding before
used_later fm j i [] = before j i fm.queue
used_later fm j i (name ∷ names) = one_use (lookup name fm.elements) j i (used_later fm j i names)

before-without :
    (j i k : ℕ) (q : List ℕ)
    → (k == j) ≡ false
    → (k == i) ≡ false
    → before j i (without k q) ≡ before j i q
unfolding before without
before-without j i k [] e f = refl
before-without j i k (m ∷ q) e f = elim (Bool-cases (k == m)) [
  | inl same ↦ rw (same, sym (==-eq k m same), e, f) refl
  | inr other ↦ rw (other, before, before-without j i k q e f) refl
]

before-front :
    (j i k : ℕ) (q : List ℕ)
    → mem k q ≡ true
    → before j i (move_to_front k q) ≡ one_use (some k) j i (before j i q)
unfolding before move_to_front
before-front j i k q m = ground (arith, m, before-without j i k q)

-- All others come up before the last.
before_last :
    (j i : ℕ) (q : List ℕ)
    → distinct q ≡ true
    → last? q ≡ some i
    → mem j q ≡ true
    → (j == i) ≡ false
    → before j i q ≡ true
unfolding before distinct mem
before_last j i [] d l m e = cc
before_last j i (k ∷ []) d l m e = ground (arith, l, m, e)
before_last j i (k ∷ k' ∷ q) d l m e =
    ground (arith, before_last j i (k' ∷ q), mem-last i (k' ∷ q) l, mem-same k i (k' ∷ q), d, m, e)

get_all-IsIndexed :
    (names : List Bytes) (fm : FileMap) → IsIndexed fm → IsIndexed (get_all names fm)
unfolding get_all
get_all-IsIndexed [] fm idx = idx
get_all-IsIndexed (name ∷ names) fm idx =
    get-IsIndexed name (get_all names fm) (get_all-IsIndexed names fm idx)

-- What a call keeps: the size, the names, and which and how many entries there are.
record Same (fm fm' : FileMap) : Type 0 where
  size : fm'.size ≡ fm.size
  elements : fm'.elements ≡ fm.elements
  held : length fm'.queue ≡ length fm.queue
  members : (j : ℕ) → mem j fm'.queue ≡ mem j fm.queue

get-Same : (name : Bytes) (fm : FileMap) → IsIndexed fm → Same fm (get name fm).1
get-Same name fm idx = elim (Option-cases (lookup name fm.elements)) [
  | inl free ↦
      rw (get-free name fm free)
        (record { size = refl; elements = refl; held = refl; members = λ j. refl })
  | inr (i, taken) ↦ rw (get-taken name i fm taken) (record {
    size = refl;
    elements = refl;
    held = length-front i fm.queue;
    members = λ j. mem-front j i fm.queue idx.once;
  })
]

get_all-Same : (names : List Bytes) (fm : FileMap) → IsIndexed fm → Same fm (get_all names fm)
unfolding get_all
get_all-Same [] fm idx = record { size = refl; elements = refl; held = refl; members = λ j. refl }
get_all-Same (name ∷ names) fm idx =
    let old = get_all-Same names fm idx in
    let new = get-Same name (get_all names fm) (get_all-IsIndexed names fm idx) in
    record {
      size = new.size ∙ old.size;
      elements = new.elements ∙ old.elements;
      held = new.held ∙ old.held;
      members = λ j. new.members j ∙ old.members j;
    }

before-get :
    (j i : ℕ) (name : Bytes) (fm : FileMap)
    → IsIndexed fm
    → before j i (get name fm).1.queue ≡ one_use (lookup name fm.elements) j i (before j i fm.queue)
before-get j i name fm idx = elim (Option-cases (lookup name fm.elements)) [
  | inl free ↦ rw (get-free name fm free, free) refl
  | inr (k, taken) ↦
      rw (get-taken name k fm taken, taken)
        (before-front j i k fm.queue ((idx.named name k).0 taken).0)
]

-- The list has the entries by their last use.
before-used_later :
    (j i : ℕ) (names : List Bytes) (fm : FileMap)
    → IsIndexed fm
    → before j i (get_all names fm).queue ≡ used_later fm j i names
unfolding get_all used_later
before-used_later j i [] fm idx = refl
before-used_later j i (name ∷ names) fm idx =
    let fm' = get_all names fm in
    let named = (get_all-Same names fm idx).elements in
    before-get j i name fm' (get_all-IsIndexed names fm idx)
    ∙ (rw (named, before-used_later j i names fm idx) refl)

-- In a map whose list and names agree, and whose limited size is exceeded, after any calls of `get`
-- (each of which counts as a use, also where a method only looks): the entry that is evicted is the
-- last of the list, it is evicted alone, the others keep their order, and every other entry of the
-- map was used later than it, where of two that were not used since the order in the list says it.
pub evict_if_needed-oldest :
    (names : List Bytes) (fm : FileMap)
    → IsIndexed fm
    → 0 < fm.size
    → fm.size < length fm.queue
    → (i : ℕ) × (last? (get_all names fm).queue ≡ some i)
      × ((evict_if_needed (get_all names fm)).queue ≡ init (get_all names fm).queue)
      × ((j : ℕ) → mem j fm.queue ≡ true → (j == i) ≡ false → used_later fm j i names ≡ true)
evict_if_needed-oldest names fm idx limited full =
    let idx' = get_all-IsIndexed names fm idx in
    let same = get_all-Same names fm idx in
    let (i, last) = last-some (get_all names fm).queue (omega (arith, same.held, limited, full)) in
    (
      i,
      last,
      evict_if_needed-init (get_all names fm) idx' (omega (arith, same.size, limited))
          (omega (arith, same.size, same.held, full)),
      λ j m other.
          sym (before-used_later j i names fm idx)
          ∙ before_last j i (get_all names fm).queue idx'.once last (same.members j ∙ m) other,
    )
