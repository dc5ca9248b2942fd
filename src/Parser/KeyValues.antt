-- ===== src/Parser/KeyValues.antt =====
-- lib/parser/dockerfile/parse_key_values.go: the state machine that reads `<key>=<value>` pairs.
pub mod Pairs
pub mod Sound
use makisu.Base.{
  ℕ, Bool, true, false, not, ◌&&◌, [], ◌∷◌, ◌++◌, ◌==◌, if◌then◌else◌, Bytes, Result, ok, err,
  ◌>>=◌, Dict, insert, bytes_eq,
}
use makisu.Parser.Runes.{is_space, valid_key_rune, rune_bytes}

-- The error of a method, by its message.
pub data KeyValueError : Type 0 where
  missing_value invalid_key_rune expected_equals missing_quote missing_whitespace : KeyValueError

pub data KeyValueState : Type 0 where
  space key equals value value_quote value_end_quote : KeyValueState

pub record KeyValueBase : Type 0 where
  pub vars : Dict Bytes
  pub curr_key : Bytes
  pub curr_val : Bytes
  pub escaped : Bool

abbrev pub KeyValueStep : Type 0
KeyValueStep = Result KeyValueError (KeyValueState × KeyValueBase)

-- `(*parseKVsStateValQuote).consumeCurrKV`: an empty value is allowed.
abbrev pub consume_quoted : KeyValueBase → KeyValueBase
consume_quoted s = record s {
  vars = insert s.curr_key s.curr_val s.vars;
  curr_key = [];
  curr_val = [];
}

-- `(*parseKVsBase).consumeCurrKV`
consume_curr_kv : KeyValueBase → Result KeyValueError KeyValueBase
consume_curr_kv s = if bytes_eq s.curr_val [] then err missing_value else ok (consume_quoted s)

abbrev push_key : KeyValueBase → ℕ → KeyValueBase
push_key s r = record s { curr_key = s.curr_key ++ rune_bytes r }

abbrev push_val : KeyValueBase → ℕ → KeyValueBase
push_val s r = record s { curr_val = s.curr_val ++ rune_bytes r }

-- `(*parseKVsStateSpace).nextRune`
space_next_rune : KeyValueBase → ℕ → KeyValueStep
space_next_rune s r =
    if is_space r
    then ok (space, s)
    else if not (valid_key_rune r)
    then err invalid_key_rune
    else ok (key, push_key s r)

-- `(*parseKVsStateKey).nextRune`
key_next_rune : KeyValueBase → ℕ → KeyValueStep
key_next_rune s r =
    if r == b'='
    then ok (equals, s)
    else if not (valid_key_rune r)
    then err invalid_key_rune
    else ok (key, push_key s r)

-- `(*parseKVsStateEquals).nextRune`
equals_next_rune : KeyValueBase → ℕ → KeyValueStep
equals_next_rune s r =
    if r == b'"'
    then ok (value_quote, s)
    else if r == b'\\'
    then ok (value, record s { escaped = true })
    else ok (value, push_val s r)

-- `(*parseKVsStateVal).nextRune`
value_next_rune : KeyValueBase → ℕ → KeyValueStep
value_next_rune s r =
    if s.escaped
    then ok (
      value,
      record s {
        curr_val =
            (if not (is_space r) && not (r == b'"') then s.curr_val ++ b'\\' ∷ [] else s.curr_val)
            ++ rune_bytes r;
        escaped = false;
      },
    )
    else if r == b'\\'
    then ok (value, record s { escaped = true })
    else if is_space r
    then (do s' ← consume_curr_kv s; ok (space, s'))
    else ok (value, push_val s r)

-- `(*parseKVsStateValQuote).nextRune`
value_quote_next_rune : KeyValueBase → ℕ → KeyValueStep
value_quote_next_rune s r =
    if s.escaped
    then ok (
      value_quote,
      record s {
        curr_val =
            (if not (r == b'"') then s.curr_val ++ b'\\' ∷ [] else s.curr_val) ++ rune_bytes r;
        escaped = false;
      },
    )
    else if r == b'\\'
    then ok (value_quote, record s { escaped = true })
    else if r == b'"'
    then ok (value_end_quote, consume_quoted s)
    else ok (value_quote, push_val s r)

-- `(*parseKVsStateValEndQuote).nextRune`
value_end_quote_next_rune : KeyValueBase → ℕ → KeyValueStep
value_end_quote_next_rune s r = if not (is_space r) then err missing_whitespace else ok (space, s)

-- The six methods `nextRune`.
unfoldable pub next_rune : KeyValueState → KeyValueBase → ℕ → KeyValueStep
unfolding consume_curr_kv space_next_rune key_next_rune equals_next_rune value_next_rune
    value_quote_next_rune value_end_quote_next_rune
next_rune space s r = space_next_rune s r
next_rune key s r = key_next_rune s r
next_rune equals s r = equals_next_rune s r
next_rune value s r = value_next_rune s r
next_rune value_quote s r = value_quote_next_rune s r
next_rune value_end_quote s r = value_end_quote_next_rune s r

-- The six methods `endOfInput`.
unfoldable pub end_of_input : KeyValueState → KeyValueBase → Result KeyValueError (Dict Bytes)
unfolding consume_curr_kv
end_of_input space s = ok s.vars
end_of_input key s = err expected_equals
end_of_input equals s = err expected_equals
end_of_input value s = do s' ← consume_curr_kv s; ok s'.vars
end_of_input value_quote s = err missing_quote
end_of_input value_end_quote s = ok s.vars

-- The loop of `parseKeyVals` over the bytes left.
unfoldable pub run : KeyValueState → KeyValueBase → Bytes → Result KeyValueError (Dict Bytes)
run q s [] = end_of_input q s
run q s (r ∷ rs) = do (q', s') ← next_rune q s r; run q' s' rs

unfoldable pub parse_key_vals : Bytes → Result KeyValueError (Dict Bytes)
unfolding run next_rune end_of_input
parse_key_vals input =
    run space (record { vars = []; curr_key = []; curr_val = []; escaped = false }) input
