-- ===== src/Parser/KeyValues/Pairs.antt =====
-- What `parseKeyVals` returns for a line of pairs, each value bare or between quotes.
use makisu.Base.{
  ℕ, Bool, true, false, ◌&&◌, List, [], ◌∷◌, ◌++◌, ◌≡◌, refl, ap, ◌∙◌, append-nil, append_assoc,
  arith, Bytes, bytes_eq, ok, all, All, Dict, insert,
}
use makisu.Parser.Runes.{is_space, is_ascii, valid_key_rune, rune_bytes_ascii}
use makisu.Parser.KeyValues.{
  space, key, equals, value, value_quote, KeyValueBase, next_rune, end_of_input, run,
  parse_key_vals,
}
use makisu.Parser.SplitArgs.Words.{
  bare_byte, quoted_byte, escape, escape-cons, Word, bare, quoted, meaning, IsWord, spell,
}

abbrev pub key_byte : ℕ → Bool
key_byte c = is_ascii c && valid_key_rune c

-- A pair: the key's first byte and the others, and its value as the line spells it.
pub record Pair : Type 0 where
  pub first : ℕ
  pub others : Bytes
  pub word : Word

abbrev pub IsPair : Pair → Type 0
IsPair p = ((key_byte p.first && all key_byte p.others) ≡ true) × IsWord p.word

abbrev pub spell_pair : Pair → Bytes → Bytes
spell_pair p rest = p.first ∷ (p.others ++ (b'=' ∷ spell p.word rest))

-- Pairs with one blank behind each but the last.
abbrev pub pair_line : List Pair → Bytes
pair_line [] = []
pair_line (p ∷ []) = spell_pair p []
pair_line (p ∷ q ∷ ps) = spell_pair p (b' ' ∷ pair_line (q ∷ ps))

-- The assignments, in the order of the line.
abbrev pub assign : List Pair → Dict Bytes → Dict Bytes
assign [] m = m
assign (p ∷ ps) m = assign ps (insert (p.first ∷ p.others) (meaning p.word) m)

abbrev at : Dict Bytes → Bytes → Bytes → KeyValueBase
at m k v = record { vars = m; curr_key = k; curr_val = v; escaped = false }

key_start :
    (c : ℕ) (rest : Bytes) (m : Dict Bytes)
    → key_byte c ≡ true
    → run space (at m [] []) (c ∷ rest) ≡ run key (at m (c ∷ []) []) rest
unfolding run next_rune is_space valid_key_rune is_ascii
key_start c rest m h = ground (arith, rune_bytes_ascii c)

key_step :
    (c : ℕ) (rest : Bytes) (m : Dict Bytes) (k : Bytes)
    → key_byte c ≡ true
    → run key (at m k []) (c ∷ rest) ≡ run key (at m (k ++ c ∷ []) []) rest
unfolding run next_rune valid_key_rune
key_step c rest m k h = ground (arith, rune_bytes_ascii c)

value_start :
    (c : ℕ) (rest : Bytes) (m : Dict Bytes) (k : Bytes)
    → bare_byte c ≡ true
    → run equals (at m k []) (c ∷ rest) ≡ run value (at m k (c ∷ [])) rest
unfolding run next_rune
value_start c rest m k h = ground (arith, rune_bytes_ascii c)

value_step :
    (c : ℕ) (rest : Bytes) (m : Dict Bytes) (k v : Bytes)
    → bare_byte c ≡ true
    → run value (at m k v) (c ∷ rest) ≡ run value (at m k (v ++ c ∷ [])) rest
unfolding run next_rune
value_step c rest m k v h = ground (arith, rune_bytes_ascii c)

quote_step :
    (c : ℕ) (rest : Bytes) (m : Dict Bytes) (k v : Bytes)
    → quoted_byte c ≡ true
    → run value_quote (at m k v) (escape (c ∷ []) ++ rest)
      ≡ run value_quote (at m k (v ++ c ∷ [])) rest
unfolding run next_rune
quote_step c rest m k v h = ground (arith, rune_bytes_ascii c)

run-key :
    (cs rest : Bytes) (m : Dict Bytes) (k : Bytes)
    → all key_byte cs ≡ true
    → run key (at m k []) (cs ++ rest) ≡ run key (at m (k ++ cs) []) rest
run-key [] rest m k h = rw append-nil
run-key (c ∷ cs) rest m k h =
    key_step c (cs ++ rest) m k (ground arith)
    ∙ run-key cs rest m (k ++ c ∷ []) (ground arith)
    ∙ rw append_assoc

run-bare :
    (cs rest : Bytes) (m : Dict Bytes) (k v : Bytes)
    → all bare_byte cs ≡ true
    → run value (at m k v) (cs ++ rest) ≡ run value (at m k (v ++ cs)) rest
run-bare [] rest m k v h = rw append-nil
run-bare (c ∷ cs) rest m k v h =
    value_step c (cs ++ rest) m k v (ground arith)
    ∙ run-bare cs rest m k (v ++ c ∷ []) (ground arith)
    ∙ rw append_assoc

run-escape :
    (cs rest : Bytes) (m : Dict Bytes) (k v : Bytes)
    → all quoted_byte cs ≡ true
    → run value_quote (at m k v) (escape cs ++ rest) ≡ run value_quote (at m k (v ++ cs)) rest
run-escape [] rest m k v h = rw append-nil
run-escape (c ∷ cs) rest m k v h =
    ap (run value_quote (at m k v)) (escape-cons c cs rest)
    ∙ quote_step c (escape cs ++ rest) m k v (ground arith)
    ∙ run-escape cs rest m k (v ++ c ∷ []) (ground arith)
    ∙ rw append_assoc

-- A value before a blank, and at the end of the line.
run-value :
    (w : Word) (rest : Bytes) (m : Dict Bytes) (k : Bytes)
    → IsWord w
    → run equals (at m k []) (spell w (b' ' ∷ rest))
      ≡ run space (at (insert k (meaning w) m) [] []) rest
unfolding run next_rune end_of_input is_space bytes_eq
run-value (bare c cs) rest m k h =
    value_start c (cs ++ b' ' ∷ rest) m k (ground arith)
    ∙ run-bare cs (b' ' ∷ rest) m k (c ∷ []) (ground arith)
run-value (quoted cs) rest m k h = run-escape cs (b'"' ∷ b' ' ∷ rest) m k [] h

run-value_last :
    (w : Word) (m : Dict Bytes) (k : Bytes)
    → IsWord w
    → run equals (at m k []) (spell w []) ≡ ok (insert k (meaning w) m)
unfolding run next_rune end_of_input is_space bytes_eq
run-value_last (bare c cs) m k h =
    value_start c (cs ++ []) m k (ground arith) ∙ run-bare cs [] m k (c ∷ []) (ground arith)
run-value_last (quoted cs) m k h = run-escape cs (b'"' ∷ []) m k [] h

-- A key and the `=` behind it.
run-key_equals :
    (p : Pair) (rest : Bytes) (m : Dict Bytes)
    → (key_byte p.first && all key_byte p.others) ≡ true
    → run space (at m [] []) (p.first ∷ (p.others ++ (b'=' ∷ rest)))
      ≡ run equals (at m (p.first ∷ p.others) []) rest
unfolding run next_rune
run-key_equals p rest m h =
    key_start p.first (p.others ++ b'=' ∷ rest) m (ground arith)
    ∙ run-key p.others (b'=' ∷ rest) m (p.first ∷ []) (ground arith)

run-pair_line :
    (ps : List Pair) (m : Dict Bytes)
    → All IsPair ps
    → run space (at m [] []) (pair_line ps) ≡ ok (assign ps m)
unfolding run end_of_input
run-pair_line [] m h = refl
run-pair_line (p ∷ []) m h =
    run-key_equals p (spell p.word []) m h.0.0 ∙ run-value_last p.word m (p.first ∷ p.others) h.0.1
run-pair_line (p ∷ q ∷ ps) m h =
    run-key_equals p (spell p.word (b' ' ∷ pair_line (q ∷ ps))) m h.0.0
    ∙ run-value p.word (pair_line (q ∷ ps)) m (p.first ∷ p.others) h.0.1
    ∙ run-pair_line (q ∷ ps) (insert (p.first ∷ p.others) (meaning p.word) m) h.1

-- A line of pairs, one blank apart, gives exactly the map that the assignments make, in order:
-- keys of ASCII key runes, values bare (ASCII, not empty, no blank, quote or backslash) or between
-- quotes (ASCII, no backslash, its quotes escaped, perhaps empty).
pub parse_key_vals-pair_line :
    (ps : List Pair) → All IsPair ps → parse_key_vals (pair_line ps) ≡ ok (assign ps [])
unfolding parse_key_vals
parse_key_vals-pair_line ps h = run-pair_line ps [] h
