-- ===== src/Env.antt =====
-- lib/utils/utils.go: environments as lists of key=value texts, and maps.
pub mod Merged
use makisu.Base.{
  Bool, true, false, not, Option, some, none, List, [], ◌∷◌, ◌++◌, map, if◌then◌else◌, Bytes, Dict,
  insert, insert_all,
}
use makisu.Text.{cut}
use makisu.Snapshot.Layer.{bytes_lt}

-- `strings.SplitN(value, "=", 2)`, with no value where there is no "=".
unfoldable pub entry_of : Bytes → Bytes × Bytes
unfolding cut
entry_of s = elim (cut b'=' s) [ none ↦ (s, []) | some p ↦ p ]

unfoldable pub convert_onto : Dict Bytes → List Bytes → Dict Bytes
unfolding entry_of insert
convert_onto acc [] = acc
convert_onto acc (s ∷ ss) = convert_onto (insert (entry_of s).0 (entry_of s).1 acc) ss

-- `ConvertStringSliceToMap`
unfoldable pub convert_string_slice_to_map : List Bytes → Dict Bytes
unfolding convert_onto
convert_string_slice_to_map = convert_onto []

-- `MergeStringMaps`
unfoldable pub merge_string_maps : Dict Bytes → Dict Bytes → Dict Bytes
unfolding insert_all
merge_string_maps one two = insert_all two (insert_all one [])

unfoldable pub insert_string : Bytes → List Bytes → List Bytes
unfolding bytes_lt
insert_string s [] = s ∷ []
insert_string s (t ∷ ts) =
    let rest = insert_string s ts in if bytes_lt t s then t ∷ rest else s ∷ t ∷ ts

-- `sort.Strings`
unfoldable pub sort_strings : List Bytes → List Bytes
unfolding insert_string
sort_strings [] = []
sort_strings (s ∷ ss) = insert_string s (sort_strings ss)

abbrev pub spell_entry : Bytes × Bytes → Bytes
spell_entry (k, v) = k ++ b'=' ∷ v

-- `MergeEnv`; Go visits the map in any order, and sorts the texts after that.
unfoldable pub merge_env : List Bytes → Dict Bytes → List Bytes
unfolding convert_string_slice_to_map insert_all sort_strings
merge_env env_list new_env_map =
    sort_strings (map spell_entry (insert_all new_env_map (convert_string_slice_to_map env_list)))
