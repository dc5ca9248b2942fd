-- ===== src/Parser/SplitArgs.antt =====
-- lib/parser/dockerfile/split_args.go: the state machine that splits a line into arguments.
pub mod Words
pub mod Shell
use makisu.Base.{
  ℕ, Bool, true, false, not, ◌&&◌, ◌||◌, List, [], ◌∷◌, ◌++◌, ◌==◌, if◌then◌else◌, Bytes, Result,
  ok, err, ◌>>=◌, length, ltb,
}
use makisu.Parser.Runes.{is_space, rune_bytes}

-- The error of a method, by its message.
pub data SplitError : Type 0 where
  missing_whitespace missing_quote not_in_shell : SplitError

pub data SplitState : Type 0 where
  space arg quote end_quote shell_characters : SplitState

pub record SplitArgsBase : Type 0 where
  pub args : List Bytes
  pub curr_arg : Bytes
  pub escaped : Bool
  pub for_shell : Bool

abbrev pub SplitStep : Type 0
SplitStep = Result SplitError (SplitState × SplitArgsBase)

-- `s.currArg += string(r)`
abbrev pub push : SplitArgsBase → ℕ → SplitArgsBase
push s r = record s { curr_arg = s.curr_arg ++ rune_bytes r }

abbrev pub is_shell_rune : ℕ → Bool
is_shell_rune r = r == b'&' || r == b'|' || r == b';'

-- `if len(s.currArg) > 0 { s.args = append(s.args, s.currArg) }`
abbrev flushed : SplitArgsBase → List Bytes
flushed s = if ltb 0 (length s.curr_arg) then s.args ++ s.curr_arg ∷ [] else s.args

-- `(*splitArgsStateSpace).nextRune`
space_next_rune : SplitArgsBase → ℕ → SplitStep
space_next_rune s r =
    if is_space r
    then ok (space, s)
    else if r == b'"'
    then ok (quote, if s.for_shell then record s { curr_arg = s.curr_arg ++ b'"' ∷ [] } else s)
    else if r == b'\\'
    then ok (arg, record s { escaped = true })
    else if s.for_shell && is_shell_rune r
    then ok (shell_characters, record s { args = flushed s; curr_arg = rune_bytes r })
    else ok (arg, push s r)

-- `(*splitArgsStateArg).nextRune`
arg_next_rune : SplitArgsBase → ℕ → SplitStep
arg_next_rune s r =
    if s.escaped
    then ok (
      arg,
      record s {
        curr_arg =
            (if not (is_space r) && not (r == b'"') then s.curr_arg ++ b'\\' ∷ [] else s.curr_arg)
            ++ rune_bytes r;
        escaped = false;
      },
    )
    else if is_space r
    then ok (space, record s { args = s.args ++ s.curr_arg ∷ []; curr_arg = [] })
    else if s.for_shell && is_shell_rune r
    then ok (shell_characters, record s { args = flushed s; curr_arg = rune_bytes r })
    else ok (arg, push s r)

-- `(*splitArgsStateQuote).nextRune`
quote_next_rune : SplitArgsBase → ℕ → SplitStep
quote_next_rune s r =
    if s.escaped
    then ok (
      quote,
      record s {
        curr_arg =
            (if not (r == b'"') || s.for_shell then s.curr_arg ++ b'\\' ∷ [] else s.curr_arg)
            ++ rune_bytes r;
        escaped = false;
      },
    )
    else if r == b'\\'
    then ok (quote, record s { escaped = true })
    else if r == b'"'
    then ok (
      end_quote,
      record s {
        args = s.args ++ (if s.for_shell then s.curr_arg ++ b'"' ∷ [] else s.curr_arg) ∷ [];
        curr_arg = [];
      },
    )
    else ok (quote, push s r)

-- `(*splitArgsStateEndQuote).nextRune`; in Go, `&&` binds tighter than `||`.
end_quote_next_rune : SplitArgsBase → ℕ → SplitStep
end_quote_next_rune s r =
    if not (is_space r)
    then (if (s.for_shell && r == b'&') || r == b'|' || r == b';'
        then ok (shell_characters, record s { curr_arg = rune_bytes r })
        else err missing_whitespace)
    else ok (space, s)

-- `(*splitArgsStateShellCharacters).nextRune`
shell_characters_next_rune : SplitArgsBase → ℕ → SplitStep
shell_characters_next_rune s r =
    if not s.for_shell
    then err not_in_shell
    else if not (is_shell_rune r)
    then ok
        (space, record s { args = flushed s; curr_arg = if is_space r then [] else rune_bytes r })
    else ok (shell_characters, push s r)

-- The five methods `nextRune`.
unfoldable pub next_rune : SplitState → SplitArgsBase → ℕ → SplitStep
unfolding space_next_rune arg_next_rune quote_next_rune end_quote_next_rune
    shell_characters_next_rune
next_rune space s r = space_next_rune s r
next_rune arg s r = arg_next_rune s r
next_rune quote s r = quote_next_rune s r
next_rune end_quote s r = end_quote_next_rune s r
next_rune shell_characters s r = shell_characters_next_rune s r

-- The five methods `endOfInput`.
unfoldable pub end_of_input : SplitState → SplitArgsBase → Result SplitError (List Bytes)
end_of_input space s = ok s.args
end_of_input arg s = ok (s.args ++ s.curr_arg ∷ [])
end_of_input quote s = err missing_quote
end_of_input end_quote s = ok s.args
end_of_input shell_characters s = ok s.args

-- The loop of `splitArgs` over the bytes left.
unfoldable pub run : SplitState → SplitArgsBase → Bytes → Result SplitError (List Bytes)
run q s [] = end_of_input q s
run q s (r ∷ rs) = do (q', s') ← next_rune q s r; run q' s' rs

pub split_args : Bytes → Bool → Result SplitError (List Bytes)
unfolding run next_rune end_of_input
split_args input for_shell =
    run space (record { args = []; curr_arg = []; escaped = false; for_shell = for_shell }) input
