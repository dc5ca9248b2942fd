-- ===== src/Parser/File.antt =====
-- lib/parser/dockerfile/parse_file.go: from the text of a Dockerfile to its stages.
pub mod Steps
pub mod Stages
pub mod Before
pub mod Comments
use makisu.Base.{
  ℕ, zero, suc, ◌+◌, Bool, true, false, not, ◌&&◌, ◌||◌, Option, some, none, List, [], ◌∷◌, ◌++◌,
  ◌==◌, if◌then◌else◌, Bytes, bytes_eq, ok, err, ◌>>=◌, Dict, Result, length, ltb,
}
use makisu.Text.{trim, split}
use makisu.Parser.Directive.{Directive, ParsingState, Stage, ParseError, Parsed, Decoders}
use makisu.Parser.Dispatch.{new_directive}
use makisu.Parser.Update.{update, new_parsing_state}

abbrev pub is_tab_or_space : ℕ → Bool
is_tab_or_space c = c == b' ' || c == 9

-- Whether `removeCommentLines` keeps the line: it is no comment and not blank.
abbrev pub keeps : Bytes → Bool
keeps trimmed = elim trimmed [ [] ↦ false | c ∷ _ ↦ not (c == b'#') ]

-- The loop of `removeCommentLines`.
keep_lines : List Bytes → Bytes
keep_lines [] = []
keep_lines (line ∷ lines) =
    let rest = keep_lines lines in
    if keeps (trim is_tab_or_space line) then line ++ (10 ∷ rest) else rest

unfoldable pub remove_comment_lines : Bytes → Bytes
unfolding keep_lines
remove_comment_lines contents = keep_lines (split 10 contents)

-- `strings.Replace(s, "\\\n", "", -1)`
unfoldable pub join_continued : Bytes → Bytes
join_continued [] = []
join_continued (a ∷ []) = a ∷ []
join_continued (a ∷ b ∷ rest) =
    let joined = join_continued rest in
    let kept = a ∷ join_continued (b ∷ rest) in if a == b'\\' && b == 10 then joined else kept

-- `bufio.MaxScanTokenSize`
abbrev pub max_scan_token_size : ℕ
max_scan_token_size = 0x1_0000

-- A line without the carriage return that ends it.
pub drop_cr : Bytes → Bytes
drop_cr [] = []
drop_cr (c ∷ []) = if c == 13 then [] else c ∷ []
drop_cr (c ∷ d ∷ rest) = c ∷ drop_cr (d ∷ rest)

-- What `bufio.Scanner` yields of the parts between newlines: it stops at a line that does not fit
-- its buffer, and drops an empty part at the end.
unfoldable pub scan_lines : List Bytes → List Bytes
unfolding drop_cr
scan_lines [] = []
scan_lines (line ∷ []) =
    if bytes_eq line [] || not (ltb (length line) max_scan_token_size)
    then []
    else drop_cr line ∷ []
scan_lines (line ∷ next ∷ lines) =
    let rest = scan_lines (next ∷ lines) in
    if not (ltb (length line) max_scan_token_size) then [] else drop_cr line ∷ rest

-- An error, with the number of its line.
pub data FileError : Type 0 where
  new_directive_failed update_failed : ℕ → ParseError → FileError

-- The lines that the loop sees.
abbrev pub lines_of : Bytes → List Bytes
lines_of contents = scan_lines (split 10 (join_continued (remove_comment_lines contents)))

module _ (dec : Decoders) where
  -- The body of the loop over the lines.
  unfoldable pub parse_line : ℕ → Bytes → ParsingState → Result FileError ParsingState
  parse_line count text state = elim (new_directive dec text state) [
    | err e ↦ err (new_directive_failed count e)
    | ok none ↦ ok state
    | ok (some d) ↦ elim (update d state) [
      | err e ↦ err (update_failed count e)
      | ok state' ↦ ok state'
    ]
  ]

  -- The loop, after `count` lines.
  unfoldable pub parse_lines : ℕ → List Bytes → ParsingState → Result FileError ParsingState
  parse_lines count [] state = ok state
  parse_lines count (text ∷ texts) state = do
    state' ← parse_line (count + 1) text state
    parse_lines (count + 1) texts state'

  -- `ParseFile`
  unfoldable pub parse_file : Bytes → Dict Bytes → Result FileError (List Stage)
  unfolding parse_lines parse_line
  parse_file contents args = do
    state ← parse_lines 0 (lines_of contents) (new_parsing_state args)
    ok state.stages
