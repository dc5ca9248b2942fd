-- ===== src/Parser/Variables/Names.antt =====
-- The machine of `replaceVariables` inside a variable, under any stack of outer variables.
use makisu.Base.{
  ℕ, true, false, List, [], ◌∷◌, ◌++◌, ◌≡◌, ◌∙◌, append-nil, append_assoc, arith, ◌==◌, Bytes, all,
  Dict,
}
use makisu.Parser.Runes.{valid_key_rune, rune_bytes}
use makisu.Parser.Variables.{ReplaceBase, var, var_bracket, var_colon, next_rune, run}
use makisu.Parser.Variables.Template.{copied, name_byte, default_byte}

-- Between pieces, and within a variable: the outer variables, the text so far and the name so far.
abbrev pub clear : Dict Bytes → List Bytes → Bytes → ReplaceBase
clear vars stack res = record {
  result = res;
  vars = vars;
  curr_var = [];
  vars_in_progress = stack;
  curr_default_cmd = 0;
  curr_default_val = [];
  escaped = false;
}

abbrev pub naming : Dict Bytes → List Bytes → Bytes → Bytes → ReplaceBase
naming vars stack res n = record (clear vars stack res) { curr_var = n }

abbrev pub defaulting : Dict Bytes → List Bytes → Bytes → Bytes → ℕ → Bytes → ReplaceBase
defaulting vars stack res n cmd d = record (naming vars stack res n) {
  curr_default_cmd = cmd;
  curr_default_val = d;
}

module _ (vars : Dict Bytes) (stack : List Bytes) where
  pub bare_step :
      (c : ℕ) (rest res n : Bytes)
      → valid_key_rune c ≡ true
      → run var (naming vars stack res n) (c ∷ rest)
        ≡ run var (naming vars stack res (n ++ rune_bytes c)) rest
  unfolding run next_rune
  bare_step c rest res n h = ground arith

  pub name_step :
      (c : ℕ) (rest res n : Bytes)
      → name_byte c ≡ true
      → run var_bracket (naming vars stack res n) (c ∷ rest)
        ≡ run var_bracket (naming vars stack res (n ++ rune_bytes c)) rest
  unfolding run next_rune
  name_step c rest res n h = ground arith

  pub default_step :
      (c : ℕ) (rest res n : Bytes) (cmd : ℕ) (d : Bytes)
      → (cmd == 0) ≡ false
      → default_byte c ≡ true
      → run var_colon (defaulting vars stack res n cmd d) (c ∷ rest)
        ≡ run var_colon (defaulting vars stack res n cmd (d ++ rune_bytes c)) rest
  unfolding run next_rune
  default_step c rest res n cmd d e h = ground arith

  pub run-bare :
      (cs rest res n : Bytes)
      → all valid_key_rune cs ≡ true
      → run var (naming vars stack res n) (cs ++ rest)
        ≡ run var (naming vars stack res (n ++ copied cs)) rest
  run-bare [] rest res n h = rw append-nil
  run-bare (c ∷ cs) rest res n h =
      bare_step c (cs ++ rest) res n (ground arith)
      ∙ run-bare cs rest res (n ++ rune_bytes c) (ground arith)
      ∙ rw append_assoc

  pub run-name :
      (cs rest res n : Bytes)
      → all name_byte cs ≡ true
      → run var_bracket (naming vars stack res n) (cs ++ rest)
        ≡ run var_bracket (naming vars stack res (n ++ copied cs)) rest
  run-name [] rest res n h = rw append-nil
  run-name (c ∷ cs) rest res n h =
      name_step c (cs ++ rest) res n (ground arith)
      ∙ run-name cs rest res (n ++ rune_bytes c) (ground arith)
      ∙ rw append_assoc

  pub run-default :
      (cs rest res n : Bytes) (cmd : ℕ) (d : Bytes)
      → (cmd == 0) ≡ false
      → all default_byte cs ≡ true
      → run var_colon (defaulting vars stack res n cmd d) (cs ++ rest)
        ≡ run var_colon (defaulting vars stack res n cmd (d ++ copied cs)) rest
  run-default [] rest res n cmd d e h = rw append-nil
  run-default (c ∷ cs) rest res n cmd d e h =
      default_step c (cs ++ rest) res n cmd d e (ground arith)
      ∙ run-default cs rest res n cmd (d ++ rune_bytes c) e (ground arith)
      ∙ rw append_assoc
