-- ===== src/Parser/Line.antt =====
-- lib/parser/dockerfile/base.go: from a line to the type and the arguments of a directive.
use makisu.Base.{
  ℕ, ◌%◌, Bool, false, not, ◌&&◌, ◌||◌, Option, some, none, [], ◌∷◌, ◌++◌, ◌==◌, if◌then◌else◌,
  Bytes, bytes_eq, codes, ok, err, Dict,
}
use makisu.Text.{
  is_regexp_space, trim_left, trim_space, to_lower, count, after_prefix, has_prefix, cut,
}
use makisu.Parser.Directive.{
  BaseDirective, ParsingState, ParseError, Parsed, not_a_directive, before_first_from,
  replace_failed, in_directive,
}
use makisu.Parser.Variables.{replace_variables}

abbrev is_even : ℕ → Bool
is_even n = n % 2 == 0

-- Whether `uncomment` cuts the line at a `#` with these texts before and behind it: no quote is
-- open there, or it is the last `#` and the quotes of an open kind are even behind it.
cuts_at : Bytes → Bytes → Bool
cuts_at before rest =
    (is_even (count b'\'' before) && is_even (count b'"' before))
    || (count b'#' rest == 0
        && ((not (is_even (count b'\'' before)) && is_even (count b'\'' rest))
            || (not (is_even (count b'"' before)) && is_even (count b'"' rest))))

-- The loop of `uncomment` over the rest of the line; the result is the whole line if nothing cuts.
uncomment_from : Bytes → Bytes → Bytes
unfolding cuts_at
uncomment_from before [] = before
uncomment_from before (c ∷ rest) =
    let later = uncomment_from (before ++ c ∷ []) rest in
    if c == b'#' && cuts_at before rest then before else later

uncomment : Bytes → Bytes
unfolding uncomment_from count
uncomment line = uncomment_from [] line

-- `#!`, blanks and `commit` at the head of the text.
commit_here : Bytes → Bool
unfolding has_prefix trim_left is_regexp_space after_prefix
commit_here s = elim (after_prefix (codes "#!") s) [
  | none ↦ false
  | some rest ↦ has_prefix (trim_left is_regexp_space rest) (codes "commit")
]

-- `commitRegexp.MatchString`: such a text anywhere.
commit_matches : Bytes → Bool
unfolding commit_here
commit_matches [] = false
commit_matches (c ∷ cs) = commit_here (c ∷ cs) || commit_matches cs

-- `whitespaceRegexp.Split(s, 2)`: the text before the first run of blanks and that behind it.
split_whitespace : Bytes → Option (Bytes × Bytes)
unfolding trim_left is_regexp_space
split_whitespace [] = none
split_whitespace (c ∷ cs) =
    let rest = split_whitespace cs in
    if is_regexp_space c
    then some ([], trim_left is_regexp_space cs)
    else elim rest [ none ↦ none | some (x, y) ↦ some (c ∷ x, y) ]

-- `newBaseDirective`; `none` is a line with nothing on it.
unfoldable pub new_base_directive : Bytes → Parsed (Option BaseDirective)
unfolding uncomment commit_matches split_whitespace to_lower trim_space count cut
new_base_directive text =
    let commit : Bool = elim (cut b'#' text) [
      | none ↦ false
      | some (_, behind) ↦ commit_matches (to_lower (b'#' ∷ behind))
    ] in
    let line : Bytes = elim (cut b'#' text) [ none ↦ text | some _ ↦ uncomment text ] in
    let trimmed = trim_space line in
    if bytes_eq trimmed [] then ok none else elim (split_whitespace trimmed) [
      | none ↦ err not_a_directive
      | some (first, second) ↦
          ok (some (record { t = to_lower first; args = trim_space second; commit = commit }))
    ]

-- `(*baseDirective).err`
abbrev pub base_err {ℓ} : {A : Type ℓ} → BaseDirective → ParseError → Parsed A
base_err d e = err (in_directive d.t d.args e)

-- `(*baseDirective).replaceVars`
unfoldable pub replace_vars : BaseDirective → Dict Bytes → Parsed BaseDirective
replace_vars d vars = elim (replace_variables d.args vars) [
  | err e ↦ base_err d (replace_failed e)
  | ok replaced ↦ ok (record d { args = replaced })
]

unfoldable pub replace_vars_curr_stage : BaseDirective → ParsingState → Parsed BaseDirective
replace_vars_curr_stage d state = elim state.stage_vars [
  | none ↦ base_err d before_first_from
  | some vars ↦ replace_vars d vars
]

unfoldable pub replace_vars_global : BaseDirective → ParsingState → Parsed BaseDirective
replace_vars_global d state = replace_vars d state.global_args

unfoldable pub replace_vars_curr_stage_or_global :
    BaseDirective → ParsingState → Parsed BaseDirective
replace_vars_curr_stage_or_global d state = elim state.stage_vars [
  | none ↦ replace_vars d state.global_args
  | some vars ↦ replace_vars d vars
]
