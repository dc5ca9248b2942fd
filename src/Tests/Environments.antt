-- ===== src/Tests/Environments.antt =====
-- Runs of the environments of lib/utils/utils.go, and their theorem at a concrete input.
use makisu.Base.{List, [], ◌∷◌, ◌≡◌, refl, Bytes, codes, Dict, lookup, insert, insert_all, bytes_eq}
use makisu.Text.{cut}
use makisu.Env.{convert_string_slice_to_map, merge_env}
use makisu.Env.Merged.{merge_env-lookup}

abbrev old_env : List Bytes
old_env = codes "B=2" ∷ codes "A=1" ∷ []

abbrev new_env : Dict Bytes
new_env = (codes "B", codes "3") ∷ []

merges : merge_env old_env new_env ≡ codes "A=1" ∷ codes "B=3" ∷ []
unfolding merge_env cut insert bytes_eq
merges = refl

merge_env-lookup_example :
    lookup (codes "B") (convert_string_slice_to_map (merge_env old_env new_env))
    ≡ lookup (codes "B") (insert_all new_env (convert_string_slice_to_map old_env))
merge_env-lookup_example = merge_env-lookup old_env new_env (codes "B") refl
