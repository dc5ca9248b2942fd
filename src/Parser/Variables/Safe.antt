-- ===== src/Parser/Variables/Safe.antt =====
-- `replaceVariables` never indexes `varsInProgress` out of range.
use makisu.Base.{
  ℕ, false, none, List, [], ◌∷◌, ◌==◌, Bytes, err, Dict, length, last?, ◌≡◌, ◌≢◌, arith,
  bind-eq-err, inl, inr,
}
use makisu.Parser.Variables.{
  ReplaceState, ReplaceBase, index_out_of_range, outside, dollar, var, var_bracket, var_colon,
  next_rune, end_of_input, run, replace_variables,
}

last?-ne-none {ℓ} : {A : Type ℓ} (xs : List A) → (length xs == 0) ≡ false → last? xs ≢ none
last?-ne-none [] h = cc
last?-ne-none (x ∷ []) h = cc
last?-ne-none (x ∷ y ∷ xs) h = last?-ne-none (y ∷ xs) (ground arith)

next_rune-ne-panic :
    (q : ReplaceState) (s : ReplaceBase) (r : ℕ) → next_rune q s r ≢ err index_out_of_range
unfolding next_rune
next_rune-ne-panic outside s r = ground arith
next_rune-ne-panic dollar s r = ground arith
next_rune-ne-panic var s r = ground (arith, last?-ne-none s.vars_in_progress)
next_rune-ne-panic var_bracket s r = ground (arith, last?-ne-none s.vars_in_progress)
next_rune-ne-panic var_colon s r = ground arith

end_of_input-ne-panic :
    (q : ReplaceState) (s : ReplaceBase) → end_of_input q s ≢ err index_out_of_range
unfolding end_of_input
end_of_input-ne-panic outside s = ground arith
end_of_input-ne-panic _ s = ground arith

run-ne-panic :
    (rs : Bytes) (q : ReplaceState) (s : ReplaceBase) → run q s rs ≢ err index_out_of_range
unfolding run
run-ne-panic [] q s = end_of_input-ne-panic q s
run-ne-panic (r ∷ rs) q s = λ h. elim (bind-eq-err (next_rune q s r) (λ qs. run qs.0 qs.1 rs) h) [
  | inl now ↦ next_rune-ne-panic q s r now
  | inr (qs, e, later) ↦ run-ne-panic rs qs.0 qs.1 later
]

-- On every input, the reads `varsInProgress[len(varsInProgress)-1]` are in range: the machine never
-- panics, however variables are nested or left open.
pub replace_variables-ne-panic :
    (input : Bytes) (vars : Dict Bytes) → replace_variables input vars ≢ err index_out_of_range
unfolding replace_variables
replace_variables-ne-panic input vars = run-ne-panic input outside _
