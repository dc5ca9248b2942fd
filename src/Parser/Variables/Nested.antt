-- ===== src/Parser/Variables/Nested.antt =====
-- Variables inside the names of variables.
use makisu.Base.{
  ℕ, true, false, ◌&&◌, List, [], ◌∷◌, ◌++◌, ◌≡◌, refl, ◌∙◌, append_assoc, arith, Bytes, ok, err,
  all, Dict, lookup, bytes_eq,
}
use makisu.Parser.Runes.{valid_key_rune, rune_bytes}
use makisu.Parser.Variables.{
  outside, dollar, var, var_bracket, var_colon, get_or, next_rune, end_of_input, run,
  replace_variables, missing_close_bracket,
}
use makisu.Parser.Variables.Template.{copied, name_byte, default_byte}
use makisu.Parser.Variables.Names.{
  clear, naming, defaulting, name_step, run-bare, run-name, run-default,
}
use makisu.Parser.Variables.Expand.{rune_bytes-ne-nil}

-- What a bare and a braced name stand for.
abbrev pub bare_value : Dict Bytes → Bytes → Bytes
bare_value vars n = get_or (lookup n vars) (b'$' ∷ n)

abbrev pub braced_value : Dict Bytes → Bytes → Bytes
braced_value vars n = get_or (lookup n vars) (b'$' ∷ b'{' ∷ (n ++ b'}' ∷ []))

module _ (vars : Dict Bytes) where
  -- `${n` and the `$` of an inner variable.
  open_inner :
      (n rest res : Bytes)
      → all name_byte n ≡ true
      → run outside (clear vars [] res) (b'$' ∷ b'{' ∷ (n ++ (b'$' ∷ rest)))
        ≡ run dollar (naming vars (copied n ∷ []) res []) rest
  unfolding run next_rune
  open_inner n rest res h = run-name vars [] n (b'$' ∷ rest) res [] h

  -- The same, one level down.
  open_inner_again :
      (k n rest res : Bytes)
      → all name_byte n ≡ true
      → run dollar (naming vars (k ∷ []) res []) (b'{' ∷ (n ++ (b'$' ∷ rest)))
        ≡ run dollar (naming vars (k ∷ copied n ∷ []) res []) rest
  unfolding run next_rune
  open_inner_again k n rest res h = run-name vars (k ∷ []) n (b'$' ∷ rest) res [] h

  inner_start :
      (stack : List Bytes) (c : ℕ) (rest res : Bytes)
      → valid_key_rune c ≡ true
      → run dollar (naming vars stack res []) (c ∷ rest)
        ≡ run var (naming vars stack res (rune_bytes c)) rest
  unfolding run next_rune valid_key_rune
  inner_start stack c rest res h = ground arith

  close_twice :
      (k l v : Bytes)
      → bytes_eq (k ++ braced_value vars (l ++ bare_value vars v)) [] ≡ false
      → run var (naming vars (k ∷ l ∷ []) [] v) (b'}' ∷ b'}' ∷ []) ≡ err missing_close_bracket
  unfolding run next_rune end_of_input valid_key_rune
  close_twice k l v h = ground arith

  -- A bare variable in a name that itself stands in a name that is not empty, `${n${m$c}}`, is
  -- refused for a missing bracket, whatever the variables: its two close brackets do not end both
  -- names.
  pub replace_variables-inner_twice :
      (x : ℕ) (n m : Bytes) (c : ℕ) (cs : Bytes)
      → (name_byte x && all name_byte n) ≡ true
      → all name_byte m ≡ true
      → (valid_key_rune c && all valid_key_rune cs) ≡ true
      → replace_variables
          (b'$'
            ∷ b'{'
            ∷ ((x ∷ n) ++ (b'$' ∷ b'{' ∷ (m ++ (b'$' ∷ c ∷ (cs ++ (b'}' ∷ b'}' ∷ [])))))))
          vars
        ≡ err missing_close_bracket
  unfolding replace_variables
  replace_variables-inner_twice x n m c cs h k e =
      open_inner (x ∷ n) (b'{' ∷ (m ++ (b'$' ∷ c ∷ (cs ++ (b'}' ∷ b'}' ∷ []))))) [] h
      ∙ open_inner_again (copied (x ∷ n)) m (c ∷ (cs ++ (b'}' ∷ b'}' ∷ []))) [] k
      ∙ inner_start stack c (cs ++ (b'}' ∷ b'}' ∷ [])) [] (ground arith)
      ∙ run-bare vars stack cs (b'}' ∷ b'}' ∷ []) [] (rune_bytes c) (ground arith)
      ∙ close_twice (copied (x ∷ n)) (copied m) (copied (c ∷ cs))
          (rw append_assoc (rune_bytes-ne-nil vars x _))
    where
      stack : List Bytes
      stack = copied (x ∷ n) ∷ copied m ∷ []

  open_default :
      (k m rest : Bytes)
      → bytes_eq m [] ≡ false
      → run var_bracket (naming vars (k ∷ []) [] m) (b':' ∷ b'-' ∷ rest)
        ≡ run var_colon (defaulting vars (k ∷ []) [] m b'-' []) rest
  unfolding run next_rune
  open_default k m rest h = ground arith

  close_default :
      (k m d : Bytes)
      → bytes_eq d [] ≡ false
      → run var_colon (defaulting vars (k ∷ []) [] m b'-' d) (b'}' ∷ b'}' ∷ [])
        ≡ ok (get_or (lookup m vars) d ++ b'}' ∷ [])
  unfolding run next_rune end_of_input rune_bytes
  close_default k m d h = ground arith

  -- A default inside a name, `${n${m:-d}}`, replaces the inner variable alone: the outer name is
  -- dropped from the result and its close bracket is copied to it.
  pub replace_variables-inner_default :
      (n : Bytes) (c : ℕ) (m : Bytes) (d : ℕ) (ds : Bytes)
      → all name_byte n ≡ true
      → (name_byte c && all name_byte m) ≡ true
      → (default_byte d && all default_byte ds) ≡ true
      → replace_variables
          (b'$'
            ∷ b'{'
            ∷ (n ++ (b'$' ∷ b'{' ∷ c ∷ (m ++ (b':' ∷ b'-' ∷ d ∷ (ds ++ (b'}' ∷ b'}' ∷ [])))))))
          vars
        ≡ ok (get_or (lookup (copied (c ∷ m)) vars) (copied (d ∷ ds)) ++ b'}' ∷ [])
  unfolding replace_variables run next_rune
  replace_variables-inner_default n c m d ds h k e =
      open_inner n (b'{' ∷ c ∷ (m ++ (b':' ∷ b'-' ∷ d ∷ (ds ++ (b'}' ∷ b'}' ∷ []))))) [] h
      ∙ name_step vars stack c (m ++ (b':' ∷ b'-' ∷ d ∷ (ds ++ (b'}' ∷ b'}' ∷ [])))) [] []
          (ground arith)
      ∙ run-name vars stack m (b':' ∷ b'-' ∷ d ∷ (ds ++ (b'}' ∷ b'}' ∷ []))) [] (rune_bytes c)
          (ground arith)
      ∙ open_default (copied n) (copied (c ∷ m)) (d ∷ (ds ++ (b'}' ∷ b'}' ∷ [])))
          (rune_bytes-ne-nil vars c _)
      ∙ run-default vars stack (d ∷ ds) (b'}' ∷ b'}' ∷ []) [] (copied (c ∷ m)) b'-' [] refl e
      ∙ close_default (copied n) (copied (c ∷ m)) (copied (d ∷ ds)) (rune_bytes-ne-nil vars d _)
    where
      stack : List Bytes
      stack = copied n ∷ []
