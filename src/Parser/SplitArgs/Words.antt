-- ===== src/Parser/SplitArgs/Words.antt =====
-- What `splitArgs` returns outside a shell for a line of words, each bare or between quotes.
use makisu.Base.{
  ℕ, Bool, true, false, not, ◌&&◌, List, [], ◌∷◌, ◌++◌, map, ◌≡◌, ap, ◌∙◌, append-nil, append_assoc,
  arith, ◌==◌, if◌then◌else◌, Bytes, ok, all, All,
}
use makisu.Parser.Runes.{is_space, is_ascii, rune_bytes_ascii}
use makisu.Parser.SplitArgs.{
  space, arg, quote, SplitArgsBase, next_rune, end_of_input, run, split_args,
}

-- The base outside a shell, with no escape pending.
abbrev plain : List Bytes → Bytes → SplitArgsBase
plain done curr = record { args = done; curr_arg = curr; escaped = false; for_shell = false }

-- A byte of a bare word.
abbrev pub bare_byte : ℕ → Bool
bare_byte c = is_ascii c && not (is_space c) && not (c == b'"') && not (c == b'\\')

-- A byte of a quoted word: the source cannot write a backslash before a quote.
abbrev pub quoted_byte : ℕ → Bool
quoted_byte c = is_ascii c && not (c == b'\\')

-- An argument as a line spells it.
pub data Word : Type 0 where
  bare : ℕ → Bytes → Word
  quoted : Bytes → Word

-- The bytes that the argument stands for.
abbrev pub meaning : Word → Bytes
meaning (bare c cs) = c ∷ cs
meaning (quoted cs) = cs

abbrev pub IsWord : Word → Type 0
IsWord (bare c cs) = (bare_byte c && all bare_byte cs) ≡ true
IsWord (quoted cs) = all quoted_byte cs ≡ true

abbrev pub escape : Bytes → Bytes
escape [] = []
escape (c ∷ cs) = if c == b'"' then b'\\' ∷ b'"' ∷ escape cs else c ∷ escape cs

-- One word, followed by the rest of the line.
abbrev pub spell : Word → Bytes → Bytes
spell (bare c cs) rest = c ∷ (cs ++ rest)
spell (quoted cs) rest = b'"' ∷ (escape cs ++ (b'"' ∷ rest))

-- Words with one blank behind each but the last.
abbrev pub line : List Word → Bytes
line [] = []
line (w ∷ []) = spell w []
line (w ∷ v ∷ ws) = spell w (b' ' ∷ line (v ∷ ws))

-- One byte of a bare word, and of a quoted one.
arg_byte :
    (c : ℕ) (rest : Bytes) (done : List Bytes) (curr : Bytes)
    → bare_byte c ≡ true
    → run arg (plain done curr) (c ∷ rest) ≡ run arg (plain done (curr ++ c ∷ [])) rest
unfolding run next_rune
arg_byte c rest done curr h = ground (arith, rune_bytes_ascii c)

quote_byte :
    (c : ℕ) (rest : Bytes) (done : List Bytes) (curr : Bytes)
    → quoted_byte c ≡ true
    → run quote (plain done curr) (escape (c ∷ []) ++ rest)
      ≡ run quote (plain done (curr ++ c ∷ [])) rest
unfolding run next_rune
quote_byte c rest done curr h = ground (arith, rune_bytes_ascii c)

space_byte :
    (c : ℕ) (rest : Bytes) (done : List Bytes)
    → bare_byte c ≡ true
    → run space (plain done []) (c ∷ rest) ≡ run arg (plain done (c ∷ [])) rest
unfolding run next_rune
space_byte c rest done h = ground (arith, rune_bytes_ascii c)

run-bare :
    (cs rest : Bytes) (done : List Bytes) (curr : Bytes)
    → all bare_byte cs ≡ true
    → run arg (plain done curr) (cs ++ rest) ≡ run arg (plain done (curr ++ cs)) rest
run-bare [] rest done curr h = rw append-nil
run-bare (c ∷ cs) rest done curr h =
    arg_byte c (cs ++ rest) done curr (ground arith)
    ∙ run-bare cs rest done (curr ++ c ∷ []) (ground arith)
    ∙ rw append_assoc

pub escape-cons :
    (c : ℕ) (cs rest : Bytes) → escape (c ∷ cs) ++ rest ≡ escape (c ∷ []) ++ (escape cs ++ rest)
escape-cons c cs rest = ground arith

run-escape :
    (cs rest : Bytes) (done : List Bytes) (curr : Bytes)
    → all quoted_byte cs ≡ true
    → run quote (plain done curr) (escape cs ++ rest) ≡ run quote (plain done (curr ++ cs)) rest
run-escape [] rest done curr h = rw append-nil
run-escape (c ∷ cs) rest done curr h =
    ap (run quote (plain done curr)) (escape-cons c cs rest)
    ∙ quote_byte c (escape cs ++ rest) done curr (ground arith)
    ∙ run-escape cs rest done (curr ++ c ∷ []) (ground arith)
    ∙ rw append_assoc

-- A word from the state between arguments, before a blank and at the end of the line.
run-spell :
    (w : Word) (rest : Bytes) (done : List Bytes)
    → IsWord w
    → run space (plain done []) (spell w (b' ' ∷ rest))
      ≡ run space (plain (done ++ meaning w ∷ []) []) rest
unfolding run next_rune end_of_input is_space
run-spell (bare c cs) rest done h =
    space_byte c (cs ++ b' ' ∷ rest) done (ground arith)
    ∙ run-bare cs (b' ' ∷ rest) done (c ∷ []) (ground arith)
run-spell (quoted cs) rest done h = run-escape cs (b'"' ∷ b' ' ∷ rest) done [] h

run-spell_last :
    (w : Word) (done : List Bytes)
    → IsWord w
    → run space (plain done []) (spell w []) ≡ ok (done ++ meaning w ∷ [])
unfolding run next_rune end_of_input is_space
run-spell_last (bare c cs) done h =
    space_byte c (cs ++ []) done (ground arith) ∙ run-bare cs [] done (c ∷ []) (ground arith)
run-spell_last (quoted cs) done h = run-escape cs (b'"' ∷ []) done [] h

run-line :
    (ws : List Word) (done : List Bytes)
    → All IsWord ws
    → run space (plain done []) (line ws) ≡ ok (done ++ map meaning ws)
unfolding run next_rune end_of_input is_space
run-line [] done h = rw append-nil
run-line (w ∷ []) done h = run-spell_last w done h.0
run-line (w ∷ v ∷ ws) done h =
    run-spell w (line (v ∷ ws)) done h.0
    ∙ run-line (v ∷ ws) (done ++ meaning w ∷ []) h.1
    ∙ rw append_assoc

-- Outside a shell, a line of words, each bare (ASCII, no blank, quote or backslash) or between
-- quotes (ASCII, no backslash, its quotes escaped), one blank apart, splits into exactly the
-- arguments that the words stand for, in order.
pub split_args-line :
    (ws : List Word) → All IsWord ws → split_args (line ws) false ≡ ok (map meaning ws)
unfolding split_args
split_args-line ws h = run-line ws [] h
