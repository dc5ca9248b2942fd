-- ===== src/Tests/Arguments.antt =====
-- Runs of lib/parser/dockerfile: split_args.go and parse_key_values.go.
use makisu.Base.{true, false, List, [], ◌∷◌, map, ◌≡◌, refl, codes, ok}
use makisu.Parser.Runes.{is_space, is_ascii, is_letter, is_number, valid_key_rune}
use makisu.Parser.SplitArgs.{split_args}
use makisu.Parser.SplitArgs.Words.{Word, meaning, line, split_args-line}
use makisu.Parser.SplitArgs.Shell.{Token, kept, text, shell_line, split_args-shell_line}
use makisu.Parser.KeyValues.{parse_key_vals}
use makisu.Parser.KeyValues.Pairs.{Pair, pair_line, assign, parse_key_vals-pair_line}

-- `a "b \"c"`
abbrev two_words : List Word
two_words = Word.bare (b'a') [] ∷ Word.quoted (codes "b \"c") ∷ []

line-two_words : line two_words ≡ codes "a \"b \\\"c\""
line-two_words = refl

split_args-line_example : split_args (line two_words) false ≡ ok (map meaning two_words)
unfolding is_ascii is_space
split_args-line_example = split_args-line two_words (refl, (refl, tt))

-- `sleep "5" &`
abbrev sleep_tokens : List Token
sleep_tokens =
    Token.bare (b's') (codes "leep") ∷ Token.quoted (codes "5") ∷ Token.operator (b'&') [] ∷ []

shell_line-sleep_tokens : shell_line sleep_tokens ≡ codes "sleep \"5\" &"
shell_line-sleep_tokens = refl

split_args-shell_line_example :
    split_args (shell_line sleep_tokens) true ≡ ok (map text (kept sleep_tokens))
unfolding is_ascii is_space
split_args-shell_line_example = split_args-shell_line sleep_tokens (refl, (refl, (refl, tt)))

-- `a=1 b="x y"`
abbrev two_pairs : List Pair
two_pairs =
    record { first = b'a'; others = []; word = Word.bare (b'1') [] }
    ∷ record { first = b'b'; others = []; word = Word.quoted (codes "x y") }
    ∷ []

parse_key_vals-pair_line_example : parse_key_vals (pair_line two_pairs) ≡ ok (assign two_pairs [])
unfolding is_ascii is_space is_letter is_number valid_key_rune
parse_key_vals-pair_line_example =
    parse_key_vals-pair_line two_pairs ((refl, refl), ((refl, refl), tt))
