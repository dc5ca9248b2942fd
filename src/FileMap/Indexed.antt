-- ===== src/FileMap/Indexed.antt =====
-- The map of names and the list of entries tell the same, and how long the list gets.
use makisu.Base.{
  ℕ, suc, Bool, true, false, not, ◌&&◌, ◌==◌, ◌≡◌, ◌↔◌, inl, inr, refl, sym, ap, ◌∙◌, arith, some,
  none, List, [], ◌∷◌, Bytes, bytes_eq_iff, lookup, insert, delete, lookup-insert, lookup-delete,
  length, Option-cases,
}
use makisu.FileMap.{Slot, FileMap, mem, without, move_to_front, get, remove, set_entry}
use makisu.FileMap.Elements.{==-eq}

-- No entry stands in the list twice.
unfoldable pub distinct : List ℕ → Bool
unfolding mem
distinct [] = true
distinct (i ∷ q) = not (mem i q) && distinct q

pub mem-same : (j k : ℕ) (q : List ℕ) → (j == k) ≡ true → mem j q ≡ mem k q
mem-same j k q e = ap (λ x. mem x q) (==-eq j k e)

pub mem-without_other :
    (j i : ℕ) (q : List ℕ) → distinct q ≡ true → mem j (without i q) ≡ (mem j q && not (i == j))
unfolding mem without distinct
mem-without_other j i [] d = refl
mem-without_other j i (k ∷ q) d = ground (arith, mem-without_other j i q, mem-same j k q, d)

distinct-without : (i : ℕ) (q : List ℕ) → distinct q ≡ true → distinct (without i q) ≡ true
unfolding distinct without
distinct-without i [] d = d
distinct-without i (k ∷ q) d =
    ground (arith, distinct-without i q, mem-without_other k i q, mem-same i k q, d)

pub mem-front : (j i : ℕ) (q : List ℕ) → distinct q ≡ true → mem j (move_to_front i q) ≡ mem j q
unfolding mem move_to_front
mem-front j i q d = ground (arith, mem-without_other j i q d, mem-same j i q)

pub distinct-front : (i : ℕ) (q : List ℕ) → distinct q ≡ true → distinct (move_to_front i q) ≡ true
unfolding distinct move_to_front
distinct-front i q d = ground (arith, mem-without_other i i q d, distinct-without i q d, d)

pub length-without : (i : ℕ) (q : List ℕ) → mem i q ≡ true → suc (length (without i q)) ≡ length q
unfolding mem without
length-without i [] e = absurd (ground (arith, e))
length-without i (j ∷ q) e = ground (arith, length-without i q, e)

pub length-front : (i : ℕ) (q : List ℕ) → length (move_to_front i q) ≡ length q
unfolding move_to_front
length-front i q = ground (arith, length-without i q)

-- Every name leads to its entry in the list, and every entry in the list has its name.
pub record IsIndexed (fm : FileMap) : Type 0 where
  pub once : distinct fm.queue ≡ true
  pub named :
      (name : Bytes) (i : ℕ)
      → lookup name fm.elements ≡ some i
        ↔ ((mem i fm.queue ≡ true) × ((fm.entries i).file_name ≡ name))

pub get-free :
    (name : Bytes) (fm : FileMap) → lookup name fm.elements ≡ none → get name fm ≡ (none, fm)
unfolding get
get-free name fm free = rw (get, free) refl

pub get-taken :
    (name : Bytes) (i : ℕ) (fm : FileMap)
    → lookup name fm.elements ≡ some i
    → get name fm ≡ (some i, record fm { queue = move_to_front i fm.queue })
unfolding get
get-taken name i fm taken = rw (get, taken) refl

pub front-IsIndexed :
    (i : ℕ) (fm : FileMap)
    → IsIndexed fm
    → IsIndexed (record fm { queue = move_to_front i fm.queue })
front-IsIndexed i fm idx = record {
  once = distinct-front i fm.queue idx.once;
  named = λ name j. (
    λ e.
        let (queued, name_of) = (idx.named name j).0 e in
        (mem-front j i fm.queue idx.once ∙ queued, name_of),
    λ h. (idx.named name j).1 (sym (mem-front j i fm.queue idx.once) ∙ h.0, h.1),
  );
}

pub get-IsIndexed : (name : Bytes) (fm : FileMap) → IsIndexed fm → IsIndexed (get name fm).1
get-IsIndexed name fm idx = elim (Option-cases (lookup name fm.elements)) [
  | inl free ↦ rw (get-free name fm free) idx
  | inr (i, taken) ↦ rw (get-taken name i fm taken) (front-IsIndexed i fm idx)
]

entry-same :
    (i j : ℕ) (entries : ℕ → Slot) → (i == j) ≡ true → (entries i).file_name ≡ (entries j).file_name
entry-same i j entries e = ap (λ x. (entries x).file_name) (==-eq i j e)

removed-IsIndexed :
    (name : Bytes) (i : ℕ) (fm : FileMap)
    → IsIndexed fm
    → lookup name fm.elements ≡ some i
    → IsIndexed (record fm { queue = without i fm.queue; elements = delete name fm.elements })
unfolding mem distinct
removed-IsIndexed name i fm idx taken = record {
  once = distinct-without i fm.queue idx.once;
  named = λ k j. (
    λ e. ground (
      arith,
      lookup-delete name k fm.elements,
      bytes_eq_iff name k,
      idx.named k j,
      idx.named name i,
      mem-without_other j i fm.queue idx.once,
      entry-same i j fm.entries,
      taken,
      e,
    ),
    λ h. ground (
      arith,
      lookup-delete name k fm.elements,
      bytes_eq_iff name k,
      idx.named k j,
      idx.named name i,
      mem-without_other j i fm.queue idx.once,
      entry-same i j fm.entries,
      taken,
      h,
    ),
  );
}

pub remove-IsIndexed : (name : Bytes) (fm : FileMap) → IsIndexed fm → IsIndexed (remove name fm)
unfolding remove
remove-IsIndexed name fm idx = elim (Option-cases (lookup name fm.elements)) [
  | inl free ↦ rw (remove, free) idx
  | inr (i, taken) ↦ rw (remove, taken) (removed-IsIndexed name i fm idx taken)
]

-- A new entry in a free name, with its slot.
pub added-IsIndexed :
    (name : Bytes) (i : ℕ) (slot : Slot) (fm : FileMap)
    → IsIndexed fm
    → mem i fm.queue ≡ false
    → slot.file_name ≡ name
    → lookup name fm.elements ≡ none
    → IsIndexed (record fm {
      queue = i ∷ fm.queue;
      elements = insert name i fm.elements;
      entries = set_entry i slot fm.entries;
    })
unfolding mem distinct
added-IsIndexed name i slot fm idx fresh same free = record {
  once = ground (arith, fresh, idx.once);
  named = λ k j. (
    λ e. ground (
      arith,
      lookup-insert name k i fm.elements,
      bytes_eq_iff name k,
      idx.named k j,
      mem-same j i fm.queue,
      fresh,
      same,
      free,
      e,
    ),
    λ h. ground (
      arith,
      lookup-insert name k i fm.elements,
      bytes_eq_iff name k,
      idx.named k j,
      mem-same j i fm.queue,
      fresh,
      same,
      free,
      h,
    ),
  );
}

-- A slot that no entry in the list has may be anything.
pub entry-IsIndexed :
    (i : ℕ) (slot : Slot) (fm : FileMap)
    → IsIndexed fm
    → mem i fm.queue ≡ false
    → IsIndexed (record fm { entries = set_entry i slot fm.entries })
unfolding mem distinct
entry-IsIndexed i slot fm idx fresh = record {
  once = idx.once;
  named = λ k j. (
    λ e. ground (arith, idx.named k j, mem-same j i fm.queue, fresh, e),
    λ h. ground (arith, idx.named k j, mem-same j i fm.queue, fresh, h),
  );
}
