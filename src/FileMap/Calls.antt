-- ===== src/FileMap/Calls.antt =====
-- lib/storage/base/file_map.go: the methods where no other goroutine comes between.
use makisu.Base.{ℕ, Bool, true, false, ◌==◌, Option, some, none, if◌then◌else◌, Bytes}
use makisu.FileMap.{Slot, FileMap, get, get_and_touch, remove, store, oldest_if_needed}

-- What `syncRemoveOldestIfNeeded` does with the entry.
unfoldable pub evict_entry : ℕ → FileMap → FileMap
unfolding get remove
evict_entry i fm =
    let name = (fm.entries i).file_name in
    let (found, fm') = get name fm in
    elim found [ none ↦ fm' | some j ↦ if i == j then remove name fm' else fm' ]

-- `(*lruFileMap).syncRemoveOldestIfNeeded`
unfoldable pub evict_if_needed : FileMap → FileMap
unfolding oldest_if_needed evict_entry
evict_if_needed fm = elim (oldest_if_needed fm) [ none ↦ fm | some i ↦ evict_entry i fm ]

-- The end of `TryStore` for an entry that was stored, by what the function gives.
unfoldable pub end_store : Bytes → Bool → FileMap → Bool × FileMap
unfolding remove evict_if_needed
end_store name true fm = (true, evict_if_needed fm)
end_store name false fm = (false, evict_if_needed (remove name fm))

-- `TryStore` of a new entry, with what the function gives.
unfoldable pub try_store : ℕ → Bytes → ℕ → Slot → Bool → FileMap → Bool × FileMap
unfolding store end_store evict_if_needed
try_store now name i slot result fm =
    let (stored, fm') = store now name i slot fm in
    if stored then end_store name result fm' else (false, evict_if_needed fm')

-- `LoadForWrite` and `LoadForRead`: the entry that the function is called with.
unfoldable pub load : ℕ → Bytes → FileMap → Option ℕ × FileMap
unfolding get get_and_touch
load now name fm =
    let (found, fm') = get name fm in
    elim found [
      | none ↦ (none, fm')
      | some i ↦
          let (again, fm'') = get_and_touch now name fm' in
          elim again [ none ↦ (none, fm'') | some j ↦ (if i == j then some i else none, fm'') ]
    ]

-- `LoadForPeek`
unfoldable pub peek : Bytes → FileMap → Option ℕ × FileMap
unfolding get
peek name fm =
    let (found, fm') = get name fm in
    elim found [
      | none ↦ (none, fm')
      | some i ↦
          let (again, fm'') = get name fm' in
          elim again [ none ↦ (none, fm'') | some j ↦ (if i == j then some i else none, fm'') ]
    ]

-- `Delete`, with what the function gives.
unfoldable pub delete_entry : Bytes → Bool → FileMap → Bool × FileMap
unfolding peek remove
delete_entry name result fm =
    let (found, fm') = peek name fm in
    elim found [
      | none ↦ (false, fm')
      | some i ↦ if result then (true, remove name fm') else (false, fm')
    ]
