-- ===== src/Parser/Healthcheck.antt =====
-- lib/parser/dockerfile/healthcheck.go: the HEALTHCHECK directive.
use makisu.Base.{
  ℕ, ◌≡◌, arith, Bool, true, false, ◌||◌, Option, some, none, List, [], ◌∷◌, ◌==◌, if◌then◌else◌,
  Bytes, bytes_eq, codes, ok, err, ◌>>=◌,
}
use makisu.Text.{
  ℤ, pos, equal_fold, has_prefix, to_lower, trim_left, trim_right, trim, is_regexp_space, atoi,
}
use makisu.Parser.Directive.{
  BaseDirective, Directive, ParsingState, ParseError, Parsed, Decoders, before_first_from,
  cmd_not_defined, bad_interval, bad_timeout, bad_start_period, bad_retries, unsupported_flag,
  missing_cmd, replace_failed, split_failed, healthcheck, maintainer,
}
use makisu.Parser.Line.{base_err}
use makisu.Parser.Construct.{wrapped, parse_string_flag, plain_error}
use makisu.Parser.SplitArgs.{split_args}
use makisu.Parser.Variables.{replace_variables}

-- The class `[\s|\\]`.
is_padding : ℕ → Bool
unfolding is_regexp_space
is_padding c = is_regexp_space c || c == b'|' || c == b'\\'

-- `(?i)^[\s|\\]*none[\s|\\]*$`
is_none : Bytes → Bool
unfolding is_padding equal_fold trim
is_none s = equal_fold (trim is_padding s) (codes "none")

-- The text before the first `cmd` in any letter case and that behind it.
cut_cmd : Bytes → Option (Bytes × Bytes)
unfolding to_lower has_prefix
cut_cmd (a ∷ b ∷ c ∷ rest) =
    let later = cut_cmd (b ∷ c ∷ rest) in
    if bytes_eq (to_lower (a ∷ b ∷ c ∷ [])) (codes "cmd")
    then some ([], rest)
    else elim later [ none ↦ none | some (x, y) ↦ some (a ∷ x, y) ]
cut_cmd _ = none

-- The texts before and behind the first match of `(?i)[\s|\\]*cmd[\s|\\]*`.
cut_cmd_padded : Bytes → Option (Bytes × Bytes)
unfolding cut_cmd is_padding trim_left trim_right
cut_cmd_padded s = elim (cut_cmd s) [
  | none ↦ none
  | some (x, y) ↦ some (trim_right is_padding x, trim_left is_padding y)
]

-- What the loop over the flags sets.
pub record HealthcheckFlags : Type 0 where
  pub interval : ℤ
  pub timeout : ℤ
  pub start_period : ℤ
  pub retries : ℤ

abbrev no_flags : HealthcheckFlags
no_flags = record { interval = pos 0; timeout = pos 0; start_period = pos 0; retries = pos 0 }

-- A parsed value, or the error of its flag.
abbrev or_else {ℓ} : {A : Type ℓ} → ParseError → Option A → Parsed A
or_else e none = err e
or_else e (some a) = ok a

module _ (dec : Decoders) where
  retries_flag : BaseDirective → HealthcheckFlags → Bytes → Parsed HealthcheckFlags
  retries_flag d f flag = do
    val ← wrapped d plain_error (parse_string_flag flag (codes "retries"))
    elim val [
      | none ↦ base_err d unsupported_flag
      | some v ↦ do n ← or_else bad_retries (atoi v); ok (record f { retries = n })
    ]

  start_period_flag : BaseDirective → HealthcheckFlags → Bytes → Parsed HealthcheckFlags
  unfolding retries_flag
  start_period_flag d f flag = do
    val ← wrapped d plain_error (parse_string_flag flag (codes "start-period"))
    elim val [
      | none ↦ retries_flag d f flag
      | some v ↦ do
        n ← or_else bad_start_period (dec.duration v)
        ok (record f { start_period = n })
    ]

  timeout_flag : BaseDirective → HealthcheckFlags → Bytes → Parsed HealthcheckFlags
  unfolding start_period_flag
  timeout_flag d f flag = do
    val ← wrapped d plain_error (parse_string_flag flag (codes "timeout"))
    elim val [
      | none ↦ start_period_flag d f flag
      | some v ↦ do n ← or_else bad_timeout (dec.duration v); ok (record f { timeout = n })
    ]

  -- The loop's body.
  healthcheck_flag : BaseDirective → HealthcheckFlags → Bytes → Parsed HealthcheckFlags
  unfolding timeout_flag
  healthcheck_flag d f flag = do
    val ← wrapped d plain_error (parse_string_flag flag (codes "interval"))
    elim val [
      | none ↦ timeout_flag d f flag
      | some v ↦ do n ← or_else bad_interval (dec.duration v); ok (record f { interval = n })
    ]

  healthcheck_flags : BaseDirective → HealthcheckFlags → List Bytes → Parsed HealthcheckFlags
  unfolding healthcheck_flag
  healthcheck_flags d f [] = ok f
  healthcheck_flags d f (flag ∷ rest) = do
    f' ← healthcheck_flag d f flag
    healthcheck_flags d f' rest

  abbrev healthcheck_of : BaseDirective → HealthcheckFlags → List Bytes → Directive
  healthcheck_of d f test = healthcheck (record {
    base = d;
    interval = f.interval;
    timeout = f.timeout;
    start_period = f.start_period;
    retries = f.retries;
    test = test;
  })

  -- The command, behind the flags.
  healthcheck_cmd : BaseDirective → HealthcheckFlags → Bytes → Parsed Directive
  healthcheck_cmd d f remaining = elim (dec.json_array remaining) [
    | some [] ↦ base_err d missing_cmd
    | some (c ∷ cs) ↦ ok (healthcheck_of d f (codes "CMD" ∷ c ∷ cs))
    | none ↦ do
      args ← wrapped d split_failed (split_args remaining false)
      elim args [
        | [] ↦ base_err d missing_cmd
        | _ ↦ ok (healthcheck_of d f (codes "CMD-SHELL" ∷ remaining ∷ []))
      ]
  ]

  -- The flags, the variables of the stage and the command.
  healthcheck_parts : BaseDirective → ParsingState → Bytes → Bytes → Parsed Directive
  unfolding healthcheck_flags healthcheck_cmd
  healthcheck_parts d state before behind = elim (split_args before false) [
    | err _ ↦ err bad_interval
    | ok flags ↦ do
      f ← healthcheck_flags d no_flags flags
      elim state.stage_vars [
        | none ↦ base_err d before_first_from
        | some vars ↦ do
          remaining ← wrapped d replace_failed (replace_variables behind vars)
          healthcheck_cmd d f remaining
      ]
  ]

  pub new_healthcheck_directive : BaseDirective → ParsingState → Parsed Directive
  unfolding is_none cut_cmd_padded healthcheck_parts
  new_healthcheck_directive d state =
      if is_none d.args
      then ok (healthcheck_of d no_flags (codes "None" ∷ []))
      else elim (cut_cmd_padded d.args) [
        | none ↦ base_err d cmd_not_defined
        | some (before, behind) ↦ healthcheck_parts d state before behind
      ]

abbrev pub is_healthcheck : Directive → Bool
is_healthcheck (healthcheck d) = true
is_healthcheck (maintainer base a) = false
is_healthcheck _ = false

module _ (dec : Decoders) (d : BaseDirective) where
  healthcheck_cmd-is_healthcheck :
      (f : HealthcheckFlags) (remaining : Bytes) {r : Directive}
      → healthcheck_cmd dec d f remaining ≡ ok r
      → is_healthcheck r ≡ true
  unfolding healthcheck_cmd
  healthcheck_cmd-is_healthcheck f remaining h = ground arith

  healthcheck_parts-is_healthcheck :
      (state : ParsingState) (before behind : Bytes) {r : Directive}
      → healthcheck_parts dec d state before behind ≡ ok r
      → is_healthcheck r ≡ true
  unfolding healthcheck_parts
  healthcheck_parts-is_healthcheck state before behind h =
      grind (arith, healthcheck_cmd-is_healthcheck)

  -- The constructor of HEALTHCHECK makes no other directive.
  pub new_healthcheck-is_healthcheck :
      (state : ParsingState) {r : Directive}
      → new_healthcheck_directive dec d state ≡ ok r
      → is_healthcheck r ≡ true
  unfolding new_healthcheck_directive
  new_healthcheck-is_healthcheck state h = grind (arith, healthcheck_parts-is_healthcheck)
