-- ===== src/FileMap/Bounded.antt =====
-- lib/storage/base/file_map.go: how many files the map holds, and which one it evicts.
use makisu.Base.{
  ℕ, suc, ◌<◌, ◌≤◌, true, leb, ◌==◌, ◌≡◌, inl, inr, refl, ◌∙◌, arith, some, none, List, [], ◌∷◌,
  Bytes, lookup, delete, length, last?, init, Bool-cases, Option-cases,
}
use makisu.FileMap.{FileMap, mem, without, move_to_front, get, remove, oldest_if_needed}
use makisu.FileMap.Elements.{==-refl, mem-last}
use makisu.FileMap.Calls.{evict_entry, evict_if_needed}
use makisu.FileMap.Indexed.{
  distinct, IsIndexed, get-free, get-taken, mem-same, get-IsIndexed, remove-IsIndexed,
}

pub remove-taken :
    (name : Bytes) (i : ℕ) (fm : FileMap)
    → lookup name fm.elements ≡ some i
    → remove name fm ≡ record fm { queue = without i fm.queue; elements = delete name fm.elements }
unfolding remove
remove-taken name i fm taken = rw (remove, taken) refl

without-front : (i : ℕ) (q : List ℕ) → mem i q ≡ true → without i (move_to_front i q) ≡ without i q
unfolding without move_to_front
without-front i q e = ground (arith, e)

without-last : (i : ℕ) (q : List ℕ) → distinct q ≡ true → last? q ≡ some i → without i q ≡ init q
unfolding without distinct mem
without-last i [] d e = refl
without-last i (j ∷ []) d e = ground (arith, e)
without-last i (j ∷ k ∷ q) d e =
    ground (arith, without-last i (k ∷ q), mem-last i (k ∷ q), mem-same i j (k ∷ q), d, e)

-- The eviction of an entry that the map has under its name.
evict_entry-known :
    (i : ℕ) (fm : FileMap)
    → lookup (fm.entries i).file_name fm.elements ≡ some i
    → evict_entry i fm ≡ record fm {
      queue = without i (move_to_front i fm.queue);
      elements = delete (fm.entries i).file_name fm.elements;
    }
unfolding evict_entry
evict_entry-known i fm taken =
    let name = (fm.entries i).file_name in
    rw (evict_entry, get-taken name i fm taken, ==-refl i, get-taken name i fm taken)
      (remove-taken name i (record fm { queue = move_to_front i fm.queue }) taken)

evict_entry-IsIndexed : (i : ℕ) (fm : FileMap) → IsIndexed fm → IsIndexed (evict_entry i fm)
unfolding evict_entry
evict_entry-IsIndexed i fm idx =
    let name = (fm.entries i).file_name in
    elim (Option-cases (lookup name fm.elements)) [
      | inl free ↦ rw (evict_entry, get-free name fm free) (get-IsIndexed name fm idx)
      | inr (j, taken) ↦ elim (Bool-cases (i == j)) [
        | inl same ↦
            rw (evict_entry, get-taken name j fm taken, same)
              (remove-IsIndexed name (get name fm).1 (get-IsIndexed name fm idx))
        | inr other ↦ rw (evict_entry, get-taken name j fm taken, other) (get-IsIndexed name fm idx)
      ]
    ]

pub evict_if_needed-IsIndexed : (fm : FileMap) → IsIndexed fm → IsIndexed (evict_if_needed fm)
unfolding evict_if_needed
evict_if_needed-IsIndexed fm idx = elim (Option-cases (oldest_if_needed fm)) [
  | inl within ↦ rw (evict_if_needed, within) idx
  | inr (i, oldest) ↦ rw (evict_if_needed, oldest) (evict_entry-IsIndexed i fm idx)
]

pub last-some : (q : List ℕ) → 0 < length q → (i : ℕ) × (last? q ≡ some i)
last-some [] h = absurd (omega (arith, h))
last-some (i ∷ []) h = (i, refl)
last-some (i ∷ j ∷ q) h = last-some (j ∷ q) (omega arith)

oldest-last :
    (fm : FileMap) → 0 < fm.size → fm.size < length fm.queue → oldest_if_needed fm ≡ last? fm.queue
unfolding oldest_if_needed
oldest-last fm limited full = ground (arith, limited, full)

oldest-none : (fm : FileMap) → length fm.queue ≤ fm.size → oldest_if_needed fm ≡ none
unfolding oldest_if_needed
oldest-none fm within = ground (arith, within)

-- In a map whose list and names agree, and whose limited size is exceeded, the last entry of the
-- list is evicted and no other.
pub evict_if_needed-init :
    (fm : FileMap)
    → IsIndexed fm
    → 0 < fm.size
    → fm.size < length fm.queue
    → (evict_if_needed fm).queue ≡ init fm.queue
unfolding evict_if_needed
evict_if_needed-init fm idx limited full =
    let (i, last) = last-some fm.queue (omega (arith, limited, full)) in
    let queued = mem-last i fm.queue last in
    rw
      (
        evict_if_needed,
        oldest-last fm limited full ∙ last,
        evict_entry-known i fm ((idx.named (fm.entries i).file_name i).1 (queued, refl)),
      )
      (without-front i fm.queue queued ∙ without-last i fm.queue idx.once last)

length-init : (q : List ℕ) → 0 < length q → suc (length (init q)) ≡ length q
length-init [] h = absurd (omega (arith, h))
length-init (i ∷ []) h = refl
length-init (i ∷ j ∷ q) h = omega (arith, length-init (j ∷ q))

pub evict_if_needed-length :
    (fm : FileMap)
    → IsIndexed fm
    → 0 < fm.size
    → length fm.queue ≤ suc fm.size
    → length (evict_if_needed fm).queue ≤ fm.size
unfolding evict_if_needed
evict_if_needed-length fm idx limited near = elim (Bool-cases (leb (length fm.queue) fm.size)) [
  | inl within ↦
      rw (evict_if_needed, oldest-none fm (ground (arith, within))) (ground (arith, within))
  | inr over ↦
      let full : fm.size < length fm.queue = ground (arith, over) in
      rw (evict_if_needed-init fm idx limited full)
        (omega (arith, length-init fm.queue (omega (arith, full)), near))
]
