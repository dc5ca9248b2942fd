-- ===== src/Tests/Dockerfile.antt =====
-- Runs of lib/parser/dockerfile: the directives, the parsing state and parse_file.go.
use makisu.Base.{
  ℕ, ltb, length, bytes_eq, zero, suc, true, false, some, none, List, [], ◌∷◌, ◌++◌, ◌≡◌, ◌≢◌, refl,
  codes, err, Bytes, lookup,
}
use makisu.Parser.Directive.{Decoders, BaseDirective, Directive, ParsingState, ParseError}
use makisu.Parser.Line.{
  new_base_directive, replace_vars, replace_vars_global, replace_vars_curr_stage,
}
use makisu.Text.{fields, equal_fold}
use makisu.Parser.Runes.{rune_bytes}
use makisu.Parser.Variables.{replace_variables}
use makisu.Parser.Construct.{new_run_directive}
use makisu.Parser.Dispatch.{new_directive, new_from_directive}
use makisu.Parser.Update.{new_parsing_state, update}
use makisu.Parser.File.{FileError, parse_line, parse_lines, parse_file}
use makisu.Parser.File.Stages.{Keeps, parse_lines-Keeps}
use makisu.Parser.File.Before.{parse_file-ne-panic}
use makisu.Parser.File.Comments.{is_short}

-- No array is JSON, and no text is a duration.
abbrev no_decoders : Decoders
no_decoders = record { json_array = λ s. none; duration = λ s. none }

abbrev start : ParsingState
start = new_parsing_state []

abbrev from_line : Bytes
from_line = codes "FROM a AS b"

parse_file-ne-panic_example :
    parse_file no_decoders (codes "ENV a=b") []
    ≢ err (FileError.update_failed 1 ParseError.nil_map_write)
parse_file-ne-panic_example = parse_file-ne-panic no_decoders (codes "ENV a=b") [] 1

abbrev with_comments : Bytes
with_comments = codes "# a" ++ (10 ∷ codes "FROM a") ++ (10 ∷ 10 ∷ codes " # b")

abbrev from_base : BaseDirective
from_base = record { t = codes "from"; args = codes "a AS b"; commit = false }

abbrev one_stage : ParsingState
one_stage = record start {
  stages =
      record {
        from_directive = record { base = from_base; image = codes "a"; alias = codes "b" };
        directives = [];
      }
      ∷ [];
  stage_vars = some [];
}

abbrev run_base : BaseDirective
run_base = record { t = codes "run"; args = codes "x"; commit = true }

abbrev two_lines : List Bytes
two_lines = from_line ∷ codes "RUN x #!COMMIT" ∷ []

abbrev with_run : ParsingState
with_run = record one_stage {
  stages =
      record {
        from_directive = record { base = from_base; image = codes "a"; alias = codes "b" };
        directives = Directive.run run_base (codes "x") ∷ [];
      }
      ∷ [];
}

parse_lines-Keeps_example : Keeps start with_run
unfolding parse_lines parse_line new_parsing_state new_directive new_base_directive bytes_eq lookup
    new_from_directive replace_vars_global replace_vars replace_variables fields rune_bytes
    equal_fold update new_run_directive replace_vars_curr_stage
parse_lines-Keeps_example = parse_lines-Keeps no_decoders two_lines 0 start refl refl

abbrev repeated : ℕ → Bytes
repeated zero = []
repeated (suc n) = b'x' ∷ repeated n

length-repeated : (n : ℕ) → length (repeated n) ≡ n
length-repeated zero = refl
length-repeated (suc n) = rw (length-repeated n)

is_short-repeated : (n : ℕ) → is_short (repeated n) ≡ ltb n 0x1_0000
is_short-repeated n = rw (length-repeated n)
