-- ===== src/Parser/File/Comments.antt =====
-- Comment lines, and lines that the scanner cannot hold.
use makisu.Base.{
  ℕ, Bool, true, false, not, List, [], ◌∷◌, ◌++◌, map, ◌≡◌, refl, ap, ◌∙◌, arith, ◌==◌, ltb, Bytes,
  length, append-nil, append_assoc, all, All, all-snoc, Bool-cases, inl, inr,
}
use makisu.Text.{trim, split, split_from}
use makisu.Parser.File.{
  is_tab_or_space, keeps, keep_lines, remove_comment_lines, max_scan_token_size, scan_lines,
  drop_cr,
}

-- A line holds no newline.
abbrev pub is_line_byte : ℕ → Bool
is_line_byte c = not (c == 10)

split_from-IsLine :
    (part s : Bytes)
    → all is_line_byte part ≡ true
    → All (λ l. all is_line_byte l ≡ true) (split_from 10 part s)
unfolding split_from
split_from-IsLine part [] h = (h, tt)
split_from-IsLine part (c ∷ cs) h = elim (Bool-cases (c == 10)) [
  | inl e ↦ rw e (h, split_from-IsLine [] cs refl)
  | inr e ↦
      rw e (split_from-IsLine (part ++ c ∷ []) cs (all-snoc is_line_byte part c h (ground arith)))
]

-- Splitting a line, its newline and the rest.
split_from-line :
    (part line rest : Bytes)
    → all is_line_byte line ≡ true
    → split_from 10 part (line ++ (10 ∷ rest)) ≡ (part ++ line) ∷ split_from 10 [] rest
unfolding split_from
split_from-line part [] rest h = rw append-nil
split_from-line part (c ∷ line) rest h =
    ground (arith, split_from-line (part ++ c ∷ []) line rest, append_assoc part (c ∷ []) line)

split-keep_lines :
    (lines : List Bytes)
    → All (λ l. all is_line_byte l ≡ true) lines
    → keep_lines (split 10 (keep_lines lines)) ≡ keep_lines lines
unfolding keep_lines split trim
split-keep_lines [] h = refl
split-keep_lines (line ∷ lines) h = elim (Bool-cases (keeps (trim is_tab_or_space line))) [
  | inl e ↦ rw e (
      ap keep_lines (split_from-line [] line (keep_lines lines) h.0)
      ∙ rw e (ap (λ r. line ++ 10 ∷ r) (split-keep_lines lines h.1)))
  | inr e ↦ rw e (split-keep_lines lines h.1)
]

-- Removing the comment lines and the blank ones twice is removing them once: nothing that is left
-- is a comment line.
pub remove_comment_lines_idem :
    (contents : Bytes)
    → remove_comment_lines (remove_comment_lines contents) ≡ remove_comment_lines contents
unfolding remove_comment_lines split
remove_comment_lines_idem contents =
    split-keep_lines (split 10 contents) (split_from-IsLine [] contents refl)

-- A line that the buffer of the scanner holds.
abbrev pub is_short : Bytes → Bool
is_short line = ltb (length line) max_scan_token_size

-- The scanner drops a line of 65536 bytes or more and everything behind it, and the parser sees
-- no error: it returns the stages of the lines above.
pub scan_lines-long :
    (above below : List Bytes) (line : Bytes)
    → all is_short above ≡ true
    → is_short line ≡ false
    → scan_lines (above ++ line ∷ below) ≡ map drop_cr above
unfolding scan_lines
scan_lines-long [] [] line a l = ground arith
scan_lines-long [] (b ∷ below) line a l = ground arith
scan_lines-long (x ∷ []) below line a l = ground arith
scan_lines-long (x ∷ y ∷ above) below line a l =
    ground (arith, scan_lines-long (y ∷ above) below line)
