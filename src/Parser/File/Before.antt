-- ===== src/Parser/File/Before.antt =====
-- Directives before the first stage, and the write to a nil map that a stage's absence could cause.
use makisu.Base.{
  ℕ, ◌+◌, Bool, true, false, some, none, List, [], ◌∷◌, ◌≡◌, ◌≢◌, refl, arith, Bytes, ok, err, Dict,
  bind-eq-ok, bind-eq-err, Result-cases, Option-cases, all, inl, inr, lookup, ◌⊎◌,
}
use makisu.Parser.Directive.{
  BaseDirective, Directive, ParsingState, Stage, Decoders, unsupported_directive, nil_map_write,
  before_first_from, in_directive, arg, env, from, add, healthcheck, maintainer,
}
use makisu.Parser.Line.{replace_vars_curr_stage, new_base_directive}
use makisu.Parser.Construct.{
  new_add_directive, new_copy_directive, new_cmd_directive, new_entrypoint_directive,
  new_run_directive, new_volume_directive,
}
use makisu.Parser.Healthcheck.{is_healthcheck, new_healthcheck-is_healthcheck}
use makisu.Parser.Dispatch.{
  Kind, add_kind, arg_kind, from_kind, healthcheck_kind, directive_constructors, construct,
  construct_base, new_directive, new_arg_directive, new_env_directive, new_expose_directive,
  new_from_directive, new_label_directive, new_maintainer_directive, new_stopsignal_directive,
  new_user_directive, new_workdir_directive,
}
use makisu.Parser.Update.{
  update, add_to_curr_stage, arg_update, env_update, from_update, new_parsing_state,
}
use makisu.Parser.File.{
  FileError, parse_line, parse_lines, parse_file, lines_of, update_failed, new_directive_failed,
}
use makisu.Parser.File.Steps.{IsWellFormed, is_plain}
use makisu.Parser.File.Stages.{has_no_from, parse_lines-Keeps}

-- The types that may stand before the first FROM.
abbrev pub may_precede : Kind → Bool
may_precede arg_kind = true
may_precede from_kind = true
may_precede add_kind = false
may_precede _ = false

-- A constructor that replaces variables of the stage fails where there is none.
curr_stage-none :
    (d : BaseDirective) (st : ParsingState)
    → st.stage_vars ≡ none
    → replace_vars_curr_stage d st ≡ err (in_directive d.t d.args before_first_from)
unfolding replace_vars_curr_stage
curr_stage-none d st h = ground arith

healthcheck-is_plain : (d : Directive) → is_healthcheck d ≡ true → is_plain d ≡ true
healthcheck-is_plain (healthcheck d) h = refl
healthcheck-is_plain (maintainer base a) h = refl
healthcheck-is_plain _ h = absurd (ground arith)

construct-is_plain :
    (dec : Decoders) (k : Kind) (base : BaseDirective) (st : ParsingState) {d : Directive}
    → may_precede k ≡ false
    → st.stage_vars ≡ none
    → construct dec k base st ≡ ok d
    → is_plain d ≡ true
unfolding construct new_add_directive new_copy_directive new_cmd_directive new_entrypoint_directive
    new_run_directive new_volume_directive new_env_directive new_expose_directive
    new_label_directive new_maintainer_directive new_stopsignal_directive new_user_directive
    new_workdir_directive
construct-is_plain dec add_kind base st m h e = ground (arith, curr_stage-none base st)
construct-is_plain dec arg_kind base st m h e = ground arith
construct-is_plain dec from_kind base st m h e = ground arith
construct-is_plain dec healthcheck_kind base st m h e =
    healthcheck-is_plain _ (new_healthcheck-is_healthcheck dec base st e)
construct-is_plain dec k base st m h e = ground (arith, curr_stage-none base st)

-- Outside a stage a plain directive cannot be added.
update-is_plain :
    (d : Directive) (st : ParsingState)
    → is_plain d ≡ true
    → st.stages ≡ []
    → update d st ≡ err before_first_from
unfolding update add_to_curr_stage
update-is_plain (arg d) st p h = ground arith
update-is_plain (env base envs) st p h = ground arith
update-is_plain (from d) st p h = ground arith
update-is_plain (add d) st p h = ground arith
update-is_plain d st p h = ground arith

-- Before the first FROM, where there are neither stages nor stage variables, every line that holds
-- a directive is an error, unless its type is ARG or FROM: no such line is skipped, and none
-- opens a stage.
pub parse_line-before_from :
    (dec : Decoders) (count : ℕ) (text : Bytes) (st : ParsingState) (base : BaseDirective)
    → st.stages ≡ []
    → st.stage_vars ≡ none
    → new_base_directive text ≡ ok (some base)
    → (lookup base.t directive_constructors ≡ none)
      ⊎ ((k : Kind) × (lookup base.t directive_constructors ≡ some k) × (may_precede k ≡ false))
    → (e : FileError) × (parse_line dec count text st ≡ err e)
parse_line-before_from dec count text st base s v b (inl unknown) = (
  new_directive_failed count (in_directive base.t base.args unsupported_directive),
  unfold parse_line new_directive construct_base in ground arith,
)
parse_line-before_from dec count text st base s v b (inr (k, known, m)) =
    elim (Result-cases (construct dec k base st)) [
      | inl (d, e) ↦ (
        update_failed count before_first_from,
        unfold parse_line new_directive construct_base in
            ground (arith, update-is_plain d st (construct-is_plain dec k base st m v e) s),
      )
      | inr (x, e) ↦ (
        new_directive_failed count x,
        unfold parse_line new_directive construct_base in ground arith,
      )
    ]

abbrev is_env : Directive → Bool
is_env (env base envs) = true
is_env (add d) = false
is_env _ = false

is_plain-is_env : (d : Directive) → is_plain d ≡ true → is_env d ≡ false
is_plain-is_env (env base envs) h = ground arith
is_plain-is_env _ h = refl

-- ENV is constructed in a stage only.
construct-is_env :
    (dec : Decoders) (k : Kind) (base : BaseDirective) (st : ParsingState) {d : Directive}
    → st.stage_vars ≡ none
    → construct dec k base st ≡ ok d
    → is_env d ≡ false
construct-is_env dec arg_kind base st h e = unfold construct new_arg_directive in ground arith
construct-is_env dec from_kind base st h e = unfold construct new_from_directive in ground arith
construct-is_env dec add_kind base st h e =
    is_plain-is_env _ (construct-is_plain dec add_kind base st refl h e)
construct-is_env dec k base st h e = is_plain-is_env _ (construct-is_plain dec k base st refl h e)

update-ne-panic :
    (d : Directive) (st : ParsingState)
    → (st.stage_vars ≡ none → is_env d ≡ false)
    → update d st ≢ err nil_map_write
unfolding update add_to_curr_stage arg_update env_update from_update
update-ne-panic (arg d) st h = ground arith
update-ne-panic (env base []) st h = ground arith
update-ne-panic (env base (e ∷ es)) st h = elim (Option-cases st.stage_vars) [
  | inl n ↦ absurd (ground (arith, h n))
  | inr (vars, n) ↦ ground arith
]
update-ne-panic (from d) st h = ground arith
update-ne-panic (add d) st h = ground arith
update-ne-panic _ st h = ground arith

-- The start of the parser, and each state that it reaches, are well formed.
new_parsing_state-IsWellFormed : (args : Dict Bytes) → IsWellFormed (new_parsing_state args)
unfolding new_parsing_state
new_parsing_state-IsWellFormed args = refl

new_directive-is_env :
    (dec : Decoders) (text : Bytes) (st : ParsingState) {d : Directive}
    → new_directive dec text st ≡ ok (some d)
    → st.stage_vars ≡ none
    → is_env d ≡ false
unfolding new_directive construct_base
new_directive-is_env dec text st {d} e h = elim (Result-cases (new_base_directive text)) [
  | inl (none, b) ↦ absurd (ground arith)
  | inl (some base, b) ↦ elim (Option-cases (lookup base.t directive_constructors)) [
    | inl unknown ↦ absurd (ground arith)
    | inr (k, known) ↦ construct-is_env dec k base st h (ground arith)
  ]
  | inr (x, b) ↦ absurd (ground arith)
]

parse_line-ne-panic :
    (dec : Decoders) (count n : ℕ) (text : Bytes) (st : ParsingState)
    → parse_line dec count text st ≢ err (update_failed n nil_map_write)
unfolding parse_line
parse_line-ne-panic dec count n text st = elim (Result-cases (new_directive dec text st)) [
  | inl (none, e) ↦ ground arith
  | inl (some d, e) ↦ ground (arith, update-ne-panic d st (new_directive-is_env dec text st e))
  | inr (x, e) ↦ ground arith
]

parse_lines-ne-panic :
    (dec : Decoders) (texts : List Bytes) (count n : ℕ) (st : ParsingState)
    → parse_lines dec count texts st ≢ err (update_failed n nil_map_write)
unfolding parse_lines
parse_lines-ne-panic dec [] count n st h = ground arith
parse_lines-ne-panic dec (text ∷ texts) count n st h =
    elim (bind-eq-err (parse_line dec (count + 1) text st)
      (λ s. parse_lines dec (count + 1) texts s) h) [
        | inl now ↦ parse_line-ne-panic dec (count + 1) n text st now
        | inr (mid, e, later) ↦ parse_lines-ne-panic dec texts (count + 1) n mid later
      ]

-- No Dockerfile makes ENV write to the variables of a stage that does not exist, which would panic:
-- whatever the text, the arguments and the decoders, that is not how the parser ends.
pub parse_file-ne-panic :
    (dec : Decoders) (contents : Bytes) (args : Dict Bytes) (n : ℕ)
    → parse_file dec contents args ≢ err (update_failed n nil_map_write)
unfolding parse_file
parse_file-ne-panic dec contents args n h =
    elim (bind-eq-err (parse_lines dec 0 (lines_of contents) (new_parsing_state args))
      (λ (s : ParsingState). ok s.stages) h) [
        | inl now ↦ parse_lines-ne-panic dec (lines_of contents) 0 n (new_parsing_state args) now
        | inr (mid, e, later) ↦ cc
      ]

-- What `ParseFile` returns, whatever the text: no stage has a FROM among its directives.
pub parse_file-no_from :
    (dec : Decoders) (contents : Bytes) (args : Dict Bytes) {stages : List Stage}
    → parse_file dec contents args ≡ ok stages
    → all has_no_from stages ≡ true
unfolding parse_file new_parsing_state
parse_file-no_from dec contents args h =
    let (mid, e, later) =
      bind-eq-ok (parse_lines dec 0 (lines_of contents) (new_parsing_state args))
        (λ (s : ParsingState). ok s.stages) h in
    let kept = parse_lines-Keeps dec (lines_of contents) 0 (new_parsing_state args) refl e in
    ground (arith, kept.no_from refl)
