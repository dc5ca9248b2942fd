-- ===== src/Parser/Variables/Expand.antt =====
-- What `replaceVariables` returns for the texts of `Template`.
use makisu.Base.{
  ℕ, Bool, true, false, ◌&&◌, ◌||◌, some, none, List, [], ◌∷◌, ◌++◌, ◌≡◌, refl, ◌∙◌, append-nil,
  append_assoc, arith, ◌==◌, Bytes, ok, all, Dict, lookup, bytes_eq,
}
use makisu.Parser.Runes.{valid_key_rune, rune_bytes}
use makisu.Parser.Variables.{
  outside, var, var_bracket, var_colon, get_or, next_rune, end_of_input, run,
}
use makisu.Parser.Variables.Template.{
  copied, Segment, literal, escaped_dollar, backslash, bare_name, braced, default, alternative,
  literal_byte, name_byte, ends_name, spell, IsSegment, meaning, template, IsTemplate, expand,
}
use makisu.Parser.Variables.Names.{
  clear, naming, defaulting, name_step, run-bare, run-name, run-default,
}

module _ (vars : Dict Bytes) where
  literal_step :
      (c : ℕ) (rest res : Bytes)
      → literal_byte c ≡ true
      → run outside (clear vars [] res) (c ∷ rest)
        ≡ run outside (clear vars [] (res ++ rune_bytes c)) rest
  unfolding run next_rune
  literal_step c rest res h = ground arith

  run-literal :
      (cs rest res : Bytes)
      → all literal_byte cs ≡ true
      → run outside (clear vars [] res) (cs ++ rest)
        ≡ run outside (clear vars [] (res ++ copied cs)) rest
  run-literal [] rest res h = rw append-nil
  run-literal (c ∷ cs) rest res h =
      literal_step c (cs ++ rest) res (ground arith)
      ∙ run-literal cs rest (res ++ rune_bytes c) (ground arith)
      ∙ rw append_assoc

  pub rune_bytes-ne-nil : (c : ℕ) (cs : Bytes) → bytes_eq (rune_bytes c ++ cs) [] ≡ false
  unfolding rune_bytes bytes_eq
  rune_bytes-ne-nil c cs = ground arith

  -- A bare name ends at a byte that is no key rune, which is then read outside.
  bare_end :
      (rest res n : Bytes)
      → ends_name rest ≡ true
      → run var (naming vars [] res n) rest
        ≡ run outside (clear vars [] (res ++ get_or (lookup n vars) (b'$' ∷ n))) rest
  unfolding run next_rune end_of_input
  bare_end [] res n h = ground arith
  bare_end (c ∷ rest) res n h = ground arith

  name_end :
      (rest res n : Bytes)
      → run var_bracket (naming vars [] res n) (b'}' ∷ rest)
        ≡ run outside
            (clear vars [] (res ++ get_or (lookup n vars) (b'$' ∷ b'{' ∷ (n ++ b'}' ∷ []))))
            rest
  unfolding run next_rune
  name_end rest res n = ground arith

  default_end :
      (rest res n d : Bytes)
      → bytes_eq d [] ≡ false
      → run var_colon (defaulting vars [] res n b'-' d) (b'}' ∷ rest)
        ≡ run outside (clear vars [] (res ++ get_or (lookup n vars) d)) rest
  unfolding run next_rune
  default_end rest res n d h = ground arith

  alternative_end :
      (rest res n d : Bytes)
      → bytes_eq d [] ≡ false
      → run var_colon (defaulting vars [] res n b'+' d) (b'}' ∷ rest)
        ≡ run outside (clear vars [] (res ++ elim (lookup n vars) [ none ↦ [] | some _ ↦ d ])) rest
  unfolding run next_rune
  alternative_end rest res n d h = ground arith

  run-backslash :
      (c : ℕ) (rest res : Bytes)
      → (c == b'$') ≡ false
      → run outside (clear vars [] res) (b'\\' ∷ c ∷ rest)
        ≡ run outside (clear vars [] (res ++ b'\\' ∷ rune_bytes c)) rest
  unfolding run next_rune
  run-backslash c rest res h = ground (arith, append_assoc res (b'\\' ∷ []) (rune_bytes c))

  run-escaped_dollar :
      (rest res : Bytes)
      → run outside (clear vars [] res) (b'\\' ∷ b'$' ∷ rest)
        ≡ run outside (clear vars [] (res ++ b'$' ∷ [])) rest
  unfolding run next_rune rune_bytes
  run-escaped_dollar rest res = refl

  dollar_start :
      (c : ℕ) (rest res : Bytes)
      → valid_key_rune c ≡ true
      → run outside (clear vars [] res) (b'$' ∷ c ∷ rest)
        ≡ run var (naming vars [] res (rune_bytes c)) rest
  unfolding run next_rune valid_key_rune
  dollar_start c rest res h = ground arith

  run-bare_name :
      (c : ℕ) (cs rest res : Bytes)
      → (valid_key_rune c && all valid_key_rune cs && ends_name rest) ≡ true
      → run outside (clear vars [] res) (b'$' ∷ c ∷ (cs ++ rest))
        ≡ run outside (clear vars [] (res ++ meaning vars (bare_name c cs))) rest
  run-bare_name c cs rest res h =
      dollar_start c (cs ++ rest) res (ground arith)
      ∙ run-bare vars [] cs rest res (rune_bytes c) (ground arith)
      ∙ bare_end rest res (copied (c ∷ cs)) (ground arith)

  run-braced :
      (n rest res : Bytes)
      → all name_byte n ≡ true
      → run outside (clear vars [] res) (b'$' ∷ b'{' ∷ (n ++ (b'}' ∷ rest)))
        ≡ run outside (clear vars [] (res ++ meaning vars (braced n))) rest
  unfolding run next_rune rune_bytes
  run-braced n rest res h = run-name vars [] n (b'}' ∷ rest) res [] h ∙ name_end rest res (copied n)

  -- `${c cs:` and the command.
  run-colon :
      (c : ℕ) (cs : Bytes) (cmd : ℕ) (rest res : Bytes)
      → (name_byte c && all name_byte cs) ≡ true
      → (cmd == b'-' || cmd == b'+') ≡ true
      → run outside (clear vars [] res) (b'$' ∷ b'{' ∷ c ∷ (cs ++ (b':' ∷ cmd ∷ rest)))
        ≡ run var_colon (defaulting vars [] res (copied (c ∷ cs)) cmd []) rest
  unfolding run next_rune
  run-colon c cs cmd rest res h k =
      name_step vars [] c (cs ++ (b':' ∷ cmd ∷ rest)) res [] (ground arith)
      ∙ run-name vars [] cs (b':' ∷ cmd ∷ rest) res (rune_bytes c) (ground arith)
      ∙ ground (arith, rune_bytes-ne-nil c (copied cs))

  run-segment :
      (t : Segment) (rest res : Bytes)
      → IsSegment t rest
      → run outside (clear vars [] res) (spell t rest)
        ≡ run outside (clear vars [] (res ++ meaning vars t)) rest
  run-segment (literal bs) rest res h = run-literal bs rest res h
  run-segment escaped_dollar rest res h = run-escaped_dollar rest res
  run-segment (backslash c) rest res h = run-backslash c rest res h
  run-segment (bare_name c cs) rest res h = run-bare_name c cs rest res h
  run-segment (braced n) rest res h = run-braced n rest res h
  run-segment (default c cs d ds) rest res h =
      run-colon c cs b'-' (d ∷ (ds ++ b'}' ∷ rest)) res (ground arith) refl
      ∙ run-default vars [] (d ∷ ds) (b'}' ∷ rest) res (copied (c ∷ cs)) b'-' [] refl (ground arith)
      ∙ default_end rest res (copied (c ∷ cs)) (copied (d ∷ ds)) (rune_bytes-ne-nil d (copied ds))
  run-segment (alternative c cs d ds) rest res h =
      run-colon c cs b'+' (d ∷ (ds ++ b'}' ∷ rest)) res (ground arith) refl
      ∙ run-default vars [] (d ∷ ds) (b'}' ∷ rest) res (copied (c ∷ cs)) b'+' [] refl (ground arith)
      ∙ alternative_end rest res (copied (c ∷ cs)) (copied (d ∷ ds))
          (rune_bytes-ne-nil d (copied ds))

  pub run-template :
      (ts : List Segment) (final : Bool) (res : Bytes)
      → IsTemplate ts final
      → run outside (clear vars [] res) (template ts final) ≡ ok (res ++ expand vars ts)
  unfolding run next_rune end_of_input
  run-template [] final res h = ground (arith, append-nil res)
  run-template (t ∷ ts) final res h =
      run-segment t (template ts final) res h.0
      ∙ run-template ts final (res ++ meaning vars t) h.1
      ∙ rw append_assoc
