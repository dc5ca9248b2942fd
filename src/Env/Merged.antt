-- ===== src/Env/Merged.antt =====
-- What is read from a merged environment.
use makisu.Base.{
  Bool, true, false, not, ◌&&◌, ◌==◌, Option, some, none, List, [], ◌∷◌, map, all, ◌≡◌, ◌∙◌, refl,
  arith, if◌then◌else◌, Bytes, bytes_eq, bytes_eq_iff, Dict, lookup, insert, insert_all,
  lookup-insert, Option-cases, inl, inr,
}
use makisu.Text.{cut, cut_found}
use makisu.Env.{
  entry_of, convert_onto, convert_string_slice_to_map, insert_string, sort_strings, spell_entry,
  merge_env,
}

-- The value of the first text with a key.
value_in : Bytes → List Bytes → Option Bytes
value_in k [] = none
value_in k (s ∷ ss) = if bytes_eq (entry_of s).0 k then some (entry_of s).1 else value_in k ss

abbrev is_none : Option Bytes → Bool
is_none o = elim o [ none ↦ true | some v ↦ false ]

-- No key is in two texts.
has_distinct_keys : List Bytes → Bool
unfolding value_in
has_distinct_keys [] = true
has_distinct_keys (s ∷ ss) = is_none (value_in (entry_of s).0 ss) && has_distinct_keys ss

convert_onto-value_in :
    (k : Bytes) (acc : Dict Bytes) (xs : List Bytes)
    → has_distinct_keys xs ≡ true
    → lookup k (convert_onto acc xs)
      ≡ (elim (value_in k xs) [ none ↦ lookup k acc | some v ↦ some v ])
unfolding has_distinct_keys value_in convert_onto
convert_onto-value_in k acc [] d = refl
convert_onto-value_in k acc (s ∷ ss) d = ground (
  arith,
  convert_onto-value_in k (insert (entry_of s).0 (entry_of s).1 acc) ss,
  lookup-insert (entry_of s).0 k (entry_of s).1 acc,
  bytes_eq_iff (entry_of s).0 k,
  d,
)

value_in-insert_string :
    (k s : Bytes) (xs : List Bytes)
    → is_none (value_in (entry_of s).0 xs) ≡ true
    → value_in k (insert_string s xs)
      ≡ (if bytes_eq (entry_of s).0 k then some (entry_of s).1 else value_in k xs)
unfolding value_in insert_string
value_in-insert_string k s [] d = refl
value_in-insert_string k s (t ∷ ts) d = ground (
  arith,
  value_in-insert_string k s ts,
  bytes_eq_iff (entry_of s).0 k,
  bytes_eq_iff (entry_of t).0 k,
  bytes_eq_iff (entry_of t).0 (entry_of s).0,
  d,
)

insert_string-has_distinct_keys :
    (s : Bytes) (xs : List Bytes)
    → is_none (value_in (entry_of s).0 xs) ≡ true
    → has_distinct_keys xs ≡ true
    → has_distinct_keys (insert_string s xs) ≡ true
unfolding has_distinct_keys value_in insert_string
insert_string-has_distinct_keys s [] n d = refl
insert_string-has_distinct_keys s (t ∷ ts) n d = ground (
  arith,
  insert_string-has_distinct_keys s ts,
  value_in-insert_string (entry_of t).0 s ts,
  bytes_eq_iff (entry_of s).0 (entry_of t).0,
  bytes_eq_iff (entry_of t).0 (entry_of s).0,
  n,
  d,
)

abbrev pub has_no_equals : Bytes → Bool
has_no_equals = all (λ c. not (c == b'='))

-- A map that can be spelled: each key once, and without the sign between key and value.
unfoldable pub is_spellable : Dict Bytes → Bool
unfolding lookup
is_spellable [] = true
is_spellable ((k, v) ∷ d) = has_no_equals k && (is_none (lookup k d) && is_spellable d)

entry_of-spell_entry :
    (k v : Bytes) → has_no_equals k ≡ true → entry_of (spell_entry (k, v)) ≡ (k, v)
unfolding entry_of
entry_of-spell_entry k v h = rw (entry_of, cut_found b'=' k v h) refl

is_spellable-first :
    (k v : Bytes) (d : Dict Bytes)
    → is_spellable ((k, v) ∷ d) ≡ true
    → (has_no_equals k ≡ true) × (is_none (lookup k d) ≡ true) × (is_spellable d ≡ true)
unfolding is_spellable
is_spellable-first k v d h = (ground (arith, h), ground (arith, h), ground (arith, h))

-- The texts of a map, in order, have its keys once each, and say what the map says.
sort_strings-value_in :
    (d : Dict Bytes) (k : Bytes)
    → is_spellable d ≡ true
    → value_in k (sort_strings (map spell_entry d)) ≡ lookup k d
unfolding sort_strings value_in lookup
sort_strings-value_in [] k h = refl
sort_strings-value_in ((j, v) ∷ d) k h =
    let (clean, fresh, rest) = is_spellable-first j v d h in
    value_in-insert_string k (spell_entry (j, v)) (sort_strings (map spell_entry d))
      (rw (entry_of-spell_entry j v clean, sort_strings-value_in d j rest) fresh)
    ∙ (rw (entry_of-spell_entry j v clean, sort_strings-value_in d k rest) refl)

sort_strings-has_distinct_keys :
    (d : Dict Bytes)
    → is_spellable d ≡ true
    → has_distinct_keys (sort_strings (map spell_entry d)) ≡ true
unfolding sort_strings has_distinct_keys
sort_strings-has_distinct_keys [] h = refl
sort_strings-has_distinct_keys ((j, v) ∷ d) h =
    let (clean, fresh, rest) = is_spellable-first j v d h in
    insert_string-has_distinct_keys (spell_entry (j, v)) (sort_strings (map spell_entry d))
      (rw (entry_of-spell_entry j v clean, sort_strings-value_in d j rest) fresh)
      (sort_strings-has_distinct_keys d rest)

convert-sort_strings :
    (d : Dict Bytes) (k : Bytes)
    → is_spellable d ≡ true
    → lookup k (convert_string_slice_to_map (sort_strings (map spell_entry d))) ≡ lookup k d
unfolding convert_string_slice_to_map lookup
convert-sort_strings d k h =
    convert_onto-value_in k [] (sort_strings (map spell_entry d))
      (sort_strings-has_distinct_keys d h)
    ∙ (rw (sort_strings-value_in d k h) (ground arith))

insert-is_spellable :
    (k v : Bytes) (d : Dict Bytes)
    → has_no_equals k ≡ true
    → is_spellable d ≡ true
    → is_spellable (insert k v d) ≡ true
unfolding is_spellable insert lookup
insert-is_spellable k v [] c h = ground (arith, c)
insert-is_spellable k v ((j, w) ∷ d) c h = ground (
  arith,
  insert-is_spellable k v d,
  lookup-insert k j v d,
  bytes_eq_iff k j,
  bytes_eq_iff j k,
  c,
  h,
)

cut-has_no_equals : (s x y : Bytes) → cut b'=' s ≡ some (x, y) → has_no_equals x ≡ true
unfolding cut
cut-has_no_equals [] x y e = absurd (ground (arith, e))
cut-has_no_equals (c ∷ cs) x y e = elim (Option-cases (cut b'=' cs)) [
  | inl missing ↦ ground (arith, missing, e)
  | inr ((x', y'), found) ↦ ground (arith, cut-has_no_equals cs x' y' found, found, e)
]

nothing-has_no_equals : (s : Bytes) → cut b'=' s ≡ none → has_no_equals s ≡ true
unfolding cut
nothing-has_no_equals [] e = refl
nothing-has_no_equals (c ∷ cs) e = ground (arith, nothing-has_no_equals cs, e)

entry_of-has_no_equals : (s : Bytes) → has_no_equals (entry_of s).0 ≡ true
unfolding entry_of
entry_of-has_no_equals s = elim (Option-cases (cut b'=' s)) [
  | inl missing ↦ rw (entry_of, missing) (nothing-has_no_equals s missing)
  | inr ((x, y), found) ↦ rw (entry_of, found) (cut-has_no_equals s x y found)
]

convert_onto-is_spellable :
    (acc : Dict Bytes) (xs : List Bytes)
    → is_spellable acc ≡ true
    → is_spellable (convert_onto acc xs) ≡ true
unfolding convert_onto
convert_onto-is_spellable acc [] h = h
convert_onto-is_spellable acc (s ∷ ss) h =
    convert_onto-is_spellable (insert (entry_of s).0 (entry_of s).1 acc) ss
      (insert-is_spellable (entry_of s).0 (entry_of s).1 acc (entry_of-has_no_equals s) h)

abbrev pub all_keys : (Bytes → Bool) → Dict Bytes → Bool
all_keys p d = all (λ entry. p entry.0) d

insert_all-is_spellable :
    (new acc : Dict Bytes)
    → all_keys has_no_equals new ≡ true
    → is_spellable acc ≡ true
    → is_spellable (insert_all new acc) ≡ true
unfolding insert_all
insert_all-is_spellable [] acc c h = h
insert_all-is_spellable ((k, v) ∷ new) acc c h =
    insert_all-is_spellable new (insert k v acc) (ground (arith, c))
      (insert-is_spellable k v acc (ground (arith, c)) h)

-- If no new key has an equals sign, then a merged environment reads back as the environment before
-- with the new values put into it.
pub merge_env-lookup :
    (env : List Bytes) (new : Dict Bytes) (k : Bytes)
    → all_keys has_no_equals new ≡ true
    → lookup k (convert_string_slice_to_map (merge_env env new))
      ≡ lookup k (insert_all new (convert_string_slice_to_map env))
unfolding merge_env convert_string_slice_to_map is_spellable
merge_env-lookup env new k c =
    convert-sort_strings (insert_all new (convert_onto [] env)) k
      (insert_all-is_spellable new (convert_onto [] env) c (convert_onto-is_spellable [] env refl))
