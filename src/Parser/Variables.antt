-- ===== src/Parser/Variables.antt =====
-- lib/parser/dockerfile/replace_variables.go: the state machine that replaces `$name`, `${name}`,
-- `${name:-default}` and `${name:+alternative}` in the arguments of a directive.
pub mod Template
pub mod Names
pub mod Expand
pub mod Nested
pub mod Safe
use makisu.Base.{
  ℕ, Bool, true, false, not, ◌&&◌, ◌||◌, Option, some, none, List, [], ◌∷◌, ◌++◌, ◌==◌,
  if◌then◌else◌, Bytes, Result, ok, err, ◌>>=◌, Dict, lookup, bytes_eq, length, last?, init,
}
use makisu.Parser.Runes.{valid_key_rune, rune_bytes}

-- The error of a method, by its message; `index_out_of_range` stands for a Go panic.
pub data ReplaceError : Type 0 where
  missing_default invalid_default_command recursive_colon recursive_end : ReplaceError
  missing_variable missing_close_bracket index_out_of_range : ReplaceError

pub data ReplaceState : Type 0 where
  outside dollar var var_bracket var_colon : ReplaceState

-- `currDefaultCmd` is a rune, and 0 where none is set.
pub record ReplaceBase : Type 0 where
  pub result : Bytes
  pub vars : Dict Bytes
  pub curr_var : Bytes
  pub vars_in_progress : List Bytes
  pub curr_default_cmd : ℕ
  pub curr_default_val : Bytes
  pub escaped : Bool

abbrev pub ReplaceStep : Type 0
ReplaceStep = Result ReplaceError (ReplaceState × ReplaceBase)

abbrev pub reset : ReplaceBase → ReplaceBase
reset s = record s { curr_var = []; curr_default_cmd = 0; curr_default_val = [] }

abbrev is_empty : Bytes → Bool
is_empty b = bytes_eq b []

-- `val` where the map has the variable, else the other text.
abbrev pub get_or : Option Bytes → Bytes → Bytes
get_or none d = d
get_or (some v) d = v

-- `(*replaceVarsBase).resolveCurrVar`: the value, or `none` where it returns false.
base_resolve : ReplaceBase → Result ReplaceError (Option Bytes)
base_resolve s =
    let found = lookup s.curr_var s.vars in
    if s.curr_default_cmd == b'-'
    then (if is_empty s.curr_default_val
        then err missing_default
        else ok (some (get_or found s.curr_default_val)))
    else if s.curr_default_cmd == b'+'
    then (if is_empty s.curr_default_val
        then err missing_default
        else ok (some (elim found [ none ↦ [] | some _ ↦ s.curr_default_val ])))
    else if not (s.curr_default_cmd == 0)
    then err invalid_default_command
    else ok found

-- `(*replaceVarsStateVar).resolveCurrVar`
var_resolve : ReplaceBase → Bool → Result ReplaceError Bytes
var_resolve s recursing = do
  found ← base_resolve s
  ok (
      get_or found
        (if recursing then b'$' ∷ b'{' ∷ (s.curr_var ++ b'}' ∷ []) else b'$' ∷ s.curr_var))

-- `(*replaceVarsStateVarBracket).resolveCurrVar`
bracket_resolve : ReplaceBase → Result ReplaceError Bytes
bracket_resolve s = do
  found ← base_resolve s
  ok (get_or found (b'$' ∷ b'{' ∷ (s.curr_var ++ b'}' ∷ [])))

-- `currVar = varsInProgress[len-1] + val`, with that last entry dropped.
resume : ReplaceBase → Bytes → Result ReplaceError ReplaceBase
resume s val = elim (last? s.vars_in_progress) [
  | none ↦ err index_out_of_range
  | some outer ↦
      ok (record s { curr_var = outer ++ val; vars_in_progress = init s.vars_in_progress })
]

-- `(*replaceVarsStateNone).nextRune`
none_next_rune : ReplaceBase → ℕ → ReplaceStep
none_next_rune s r =
    if s.escaped
    then ok (
      outside,
      record s {
        result = (if not (r == b'$') then s.result ++ b'\\' ∷ [] else s.result) ++ rune_bytes r;
        escaped = false;
      },
    )
    else if r == b'\\'
    then ok (outside, record s { escaped = true })
    else if r == b'$'
    then ok (dollar, s)
    else ok (outside, record s { result = s.result ++ rune_bytes r })

-- `(*replaceVarsStateDollar).nextRune`
dollar_next_rune : ReplaceBase → ℕ → ReplaceStep
dollar_next_rune s r =
    if r == b'{'
    then ok (var_bracket, s)
    else ok (var, record s { curr_var = s.curr_var ++ rune_bytes r })

-- What `(*replaceVarsStateVar).nextRune` does after a variable that is not nested.
var_ended : ReplaceBase → Bytes → ℕ → ReplaceStep
var_ended s val r =
    if r == b'\\'
    then ok (outside, reset (record s { result = s.result ++ val; escaped = true }))
    else if r == b'$'
    then ok (dollar, reset (record s { result = s.result ++ val }))
    else ok (outside, reset (record s { result = (s.result ++ val) ++ rune_bytes r }))

-- What it does after a nested variable, at a close bracket.
nested_closed : ReplaceBase → Bytes → ReplaceStep
nested_closed s val = do
  s' ← resume s val
  if not (length s'.vars_in_progress == 0) then ok (var_bracket, s') else (do
    outer ← var_resolve s' true
    ok (outside, reset (record s' { result = s'.result ++ outer })))

-- What it does after a nested variable, at a colon.
nested_colon : ReplaceBase → ReplaceStep
nested_colon s =
    if not (length s.vars_in_progress == 1)
    then err recursive_colon
    else (do val ← var_resolve s false; s' ← resume s val; ok (var_colon, s'))

-- `(*replaceVarsStateVar).nextRune`
var_next_rune : ReplaceBase → ℕ → ReplaceStep
var_next_rune s r =
    if not (valid_key_rune r)
    then (do
      val ← var_resolve s false
      if length s.vars_in_progress == 0
          then var_ended s val r
          else if r == b'}'
          then nested_closed s val
          else if r == b':'
          then nested_colon s
          else (do s' ← resume s val; ok (var_bracket, s')))
    else ok (var, record s { curr_var = s.curr_var ++ rune_bytes r })

-- `(*replaceVarsStateVarBracket).nextRune`
var_bracket_next_rune : ReplaceBase → ℕ → ReplaceStep
var_bracket_next_rune s r =
    if r == b'$'
    then ok (
      dollar,
      record s { vars_in_progress = s.vars_in_progress ++ s.curr_var ∷ []; curr_var = [] },
    )
    else if r == b':'
    then (if is_empty s.curr_var then err missing_variable else ok (var_colon, s))
    else if r == b'}'
    then (do
      val ← bracket_resolve s
      if length s.vars_in_progress == 0
          then ok (outside, reset (record s { result = s.result ++ val }))
          else (do s' ← resume s val; ok (var_bracket, s')))
    else ok (var_bracket, record s { curr_var = s.curr_var ++ rune_bytes r })

-- `(*replaceVarsStateVarColon).nextRune`; here `resolveCurrVar` is that of the base, whose value is
-- empty where it returns false.
var_colon_next_rune : ReplaceBase → ℕ → ReplaceStep
var_colon_next_rune s r =
    if s.curr_default_cmd == 0
    then (if not (r == b'-' || r == b'+')
        then err invalid_default_command
        else ok (var_colon, record s { curr_default_cmd = r }))
    else if s.escaped
    then ok (
      var_colon,
      record s {
        curr_default_val =
            (if not (r == b'}') then s.curr_default_val ++ b'\\' ∷ [] else s.curr_default_val)
            ++ rune_bytes r;
        escaped = false;
      },
    )
    else if r == b'\\'
    then ok (var_colon, record s { escaped = true })
    else if r == b'}'
    then (do
      found ← base_resolve s
      ok (outside, reset (record s { result = s.result ++ get_or found [] })))
    else ok (var_colon, record s { curr_default_val = s.curr_default_val ++ rune_bytes r })

-- The five methods `nextRune`.
unfoldable pub next_rune : ReplaceState → ReplaceBase → ℕ → ReplaceStep
unfolding base_resolve var_resolve bracket_resolve resume none_next_rune dollar_next_rune var_ended
    nested_closed nested_colon var_next_rune var_bracket_next_rune var_colon_next_rune
next_rune outside s r = none_next_rune s r
next_rune dollar s r = dollar_next_rune s r
next_rune var s r = var_next_rune s r
next_rune var_bracket s r = var_bracket_next_rune s r
next_rune var_colon s r = var_colon_next_rune s r

-- The five methods `endOfInput`.
unfoldable pub end_of_input : ReplaceState → ReplaceBase → Result ReplaceError Bytes
unfolding base_resolve var_resolve
end_of_input outside s = ok s.result
end_of_input dollar s = ok (s.result ++ b'$' ∷ [])
end_of_input var s =
    if not (length s.vars_in_progress == 0)
    then err recursive_end
    else (do val ← var_resolve s false; ok (s.result ++ val))
end_of_input var_bracket s =
    if is_empty s.curr_var then err missing_variable else err missing_close_bracket
end_of_input var_colon s = err missing_close_bracket

-- The loop of `replaceVariables` over the bytes left.
unfoldable pub run : ReplaceState → ReplaceBase → Bytes → Result ReplaceError Bytes
run q s [] = end_of_input q s
run q s (r ∷ rs) = do (q', s') ← next_rune q s r; run q' s' rs

unfoldable pub replace_variables : Bytes → Dict Bytes → Result ReplaceError Bytes
unfolding run next_rune end_of_input
replace_variables input vars =
    run outside
      (record {
        result = [];
        vars = vars;
        curr_var = [];
        vars_in_progress = [];
        curr_default_cmd = 0;
        curr_default_val = [];
        escaped = false;
      })
      input
