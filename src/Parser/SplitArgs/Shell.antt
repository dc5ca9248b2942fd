-- ===== src/Parser/SplitArgs/Shell.antt =====
-- What `splitArgs` returns in a shell (for CMD and ENTRYPOINT) for a line of words and operators.
use makisu.Base.{
  ℕ, Bool, true, false, not, ◌&&◌, List, [], ◌∷◌, ◌++◌, map, ◌≡◌, sym, ap, ◌∙◌, append-nil,
  append_assoc, arith, Bytes, ok, all, All,
}
use makisu.Parser.Runes.{is_space, is_ascii, rune_bytes_ascii}
use makisu.Parser.SplitArgs.{
  space, arg, quote, shell_characters, SplitArgsBase, next_rune, end_of_input, run, split_args,
  is_shell_rune,
}
use makisu.Parser.SplitArgs.Words.{bare_byte, quoted_byte, escape, escape-cons}

-- The base in a shell, with no escape pending.
abbrev shell : List Bytes → Bytes → SplitArgsBase
shell done curr = record { args = done; curr_arg = curr; escaped = false; for_shell = true }

abbrev pub shell_byte : ℕ → Bool
shell_byte c = bare_byte c && not (is_shell_rune c)

-- A bare word, a quoted word, or an operator such as `&&`.
pub data Token : Type 0 where
  bare : ℕ → Bytes → Token
  quoted : Bytes → Token
  operator : ℕ → Bytes → Token

abbrev pub IsToken : Token → Type 0
IsToken (bare c cs) = (shell_byte c && all shell_byte cs) ≡ true
IsToken (quoted cs) = all quoted_byte cs ≡ true
IsToken (operator c cs) = (is_shell_rune c && all is_shell_rune cs) ≡ true

-- The text of a token.
abbrev pub text : Token → Bytes
text (bare c cs) = c ∷ cs
text (quoted cs) = b'"' ∷ (escape cs ++ b'"' ∷ [])
text (operator c cs) = c ∷ cs

-- The tokens of a line that keep their place: an operator at its end does not.
abbrev pub kept : List Token → List Token
kept [] = []
kept (bare c cs ∷ []) = bare c cs ∷ []
kept (quoted cs ∷ []) = quoted cs ∷ []
kept (operator c cs ∷ []) = []
kept (t ∷ u ∷ ts) = t ∷ kept (u ∷ ts)

-- The texts, one blank apart.
abbrev pub shell_line : List Token → Bytes
shell_line [] = []
shell_line (t ∷ []) = text t
shell_line (t ∷ u ∷ ts) = text t ++ (b' ' ∷ shell_line (u ∷ ts))

arg_byte :
    (c : ℕ) (rest : Bytes) (done : List Bytes) (curr : Bytes)
    → shell_byte c ≡ true
    → run arg (shell done curr) (c ∷ rest) ≡ run arg (shell done (curr ++ c ∷ [])) rest
unfolding run next_rune
arg_byte c rest done curr h = ground (arith, rune_bytes_ascii c)

space_byte :
    (c : ℕ) (rest : Bytes) (done : List Bytes)
    → shell_byte c ≡ true
    → run space (shell done []) (c ∷ rest) ≡ run arg (shell done (c ∷ [])) rest
unfolding run next_rune
space_byte c rest done h = ground (arith, rune_bytes_ascii c)

quote_byte :
    (c : ℕ) (rest : Bytes) (done : List Bytes) (curr : Bytes)
    → quoted_byte c ≡ true
    → run quote (shell done curr) (escape (c ∷ []) ++ rest)
      ≡ run quote (shell done (curr ++ escape (c ∷ []))) rest
unfolding run next_rune
quote_byte c rest done curr h =
    ground (arith, rune_bytes_ascii c, append_assoc curr (b'\\' ∷ []) (b'"' ∷ []))

shell_rune_ascii : (c : ℕ) → is_shell_rune c ≡ true → is_ascii c ≡ true
unfolding is_ascii
shell_rune_ascii c h = ground arith

operator_byte :
    (c : ℕ) (rest : Bytes) (done : List Bytes) (curr : Bytes)
    → is_shell_rune c ≡ true
    → run shell_characters (shell done curr) (c ∷ rest)
      ≡ run shell_characters (shell done (curr ++ c ∷ [])) rest
unfolding run next_rune
operator_byte c rest done curr h = ground (arith, rune_bytes_ascii c, shell_rune_ascii c)

operator_end :
    (c : ℕ) (cs rest : Bytes) (done : List Bytes)
    → run shell_characters (shell done (c ∷ cs)) (b' ' ∷ rest)
      ≡ run space (shell (done ++ (c ∷ cs) ∷ []) []) rest
unfolding run next_rune is_space
operator_end c cs rest done = ground arith

operator_start :
    (c : ℕ) (rest : Bytes) (done : List Bytes)
    → is_shell_rune c ≡ true
    → run space (shell done []) (c ∷ rest) ≡ run shell_characters (shell done (c ∷ [])) rest
unfolding run next_rune is_space
operator_start c rest done h = ground (arith, rune_bytes_ascii c, shell_rune_ascii c)

run-bare :
    (cs rest : Bytes) (done : List Bytes) (curr : Bytes)
    → all shell_byte cs ≡ true
    → run arg (shell done curr) (cs ++ rest) ≡ run arg (shell done (curr ++ cs)) rest
run-bare [] rest done curr h = rw append-nil
run-bare (c ∷ cs) rest done curr h =
    arg_byte c (cs ++ rest) done curr (ground arith)
    ∙ run-bare cs rest done (curr ++ c ∷ []) (ground arith)
    ∙ rw append_assoc

run-operator :
    (cs rest : Bytes) (done : List Bytes) (curr : Bytes)
    → all is_shell_rune cs ≡ true
    → run shell_characters (shell done curr) (cs ++ rest)
      ≡ run shell_characters (shell done (curr ++ cs)) rest
run-operator [] rest done curr h = rw append-nil
run-operator (c ∷ cs) rest done curr h =
    operator_byte c (cs ++ rest) done curr (ground arith)
    ∙ run-operator cs rest done (curr ++ c ∷ []) (ground arith)
    ∙ rw append_assoc

escape_parts : (c : ℕ) (cs : Bytes) → escape (c ∷ []) ++ escape cs ≡ escape (c ∷ cs)
escape_parts c cs = ground arith

run-escape :
    (cs rest : Bytes) (done : List Bytes) (curr : Bytes)
    → all quoted_byte cs ≡ true
    → run quote (shell done curr) (escape cs ++ rest)
      ≡ run quote (shell done (curr ++ escape cs)) rest
run-escape [] rest done curr h = rw append-nil
run-escape (c ∷ cs) rest done curr h =
    ap (run quote (shell done curr)) (escape-cons c cs rest)
    ∙ quote_byte c (escape cs ++ rest) done curr (ground arith)
    ∙ run-escape cs rest done (curr ++ escape (c ∷ [])) (ground arith)
    ∙ ap (λ e. run quote (shell done e) rest)
        (append_assoc curr (escape (c ∷ [])) (escape cs) ∙ ap (◌++◌ curr) (escape_parts c cs))

-- A token before a blank, and at the end of the line.
run-text :
    (t : Token) (rest : Bytes) (done : List Bytes)
    → IsToken t
    → run space (shell done []) (text t ++ (b' ' ∷ rest))
      ≡ run space (shell (done ++ text t ∷ []) []) rest
unfolding run next_rune end_of_input is_space
run-text (bare c cs) rest done h =
    space_byte c (cs ++ b' ' ∷ rest) done (ground arith)
    ∙ run-bare cs (b' ' ∷ rest) done (c ∷ []) (ground arith)
run-text (quoted cs) rest done h =
    ap (run quote (shell done (b'"' ∷ []))) (append_assoc (escape cs) (b'"' ∷ []) (b' ' ∷ rest))
    ∙ run-escape cs (b'"' ∷ b' ' ∷ rest) done (b'"' ∷ []) h
run-text (operator c cs) rest done h =
    operator_start c (cs ++ b' ' ∷ rest) done (ground arith)
    ∙ run-operator cs (b' ' ∷ rest) done (c ∷ []) (ground arith)
    ∙ operator_end c cs rest done

run-text_last :
    (t : Token) (done : List Bytes)
    → IsToken t
    → run space (shell done []) (text t) ≡ ok (done ++ map text (kept (t ∷ [])))
unfolding run next_rune end_of_input is_space
run-text_last (bare c cs) done h =
    ap (λ e. run space (shell done []) (c ∷ e)) (sym (append-nil cs))
    ∙ space_byte c (cs ++ []) done (ground arith)
    ∙ run-bare cs [] done (c ∷ []) (ground arith)
run-text_last (quoted cs) done h = run-escape cs (b'"' ∷ []) done (b'"' ∷ []) h
run-text_last (operator c cs) done h =
    ap (λ e. run space (shell done []) (c ∷ e)) (sym (append-nil cs))
    ∙ operator_start c (cs ++ []) done (ground arith)
    ∙ run-operator cs [] done (c ∷ []) (ground arith)
    ∙ rw append-nil

run-shell_line :
    (ts : List Token) (done : List Bytes)
    → All IsToken ts
    → run space (shell done []) (shell_line ts) ≡ ok (done ++ map text (kept ts))
unfolding run end_of_input
run-shell_line [] done h = rw append-nil
run-shell_line (t ∷ []) done h = run-text_last t done h.0
run-shell_line (t ∷ u ∷ ts) done h =
    run-text t (shell_line (u ∷ ts)) done h.0
    ∙ run-shell_line (u ∷ ts) (done ++ text t ∷ []) h.1
    ∙ rw append_assoc

-- In a shell, a line of bare words, quoted words and operators (runs of `&`, `|` and `;`), one
-- blank apart, splits into exactly their texts, quotes kept, in order; but an operator that ends
-- the line is lost.
pub split_args-shell_line :
    (ts : List Token) → All IsToken ts → split_args (shell_line ts) true ≡ ok (map text (kept ts))
unfolding split_args
split_args-shell_line ts h = run-shell_line ts [] h
