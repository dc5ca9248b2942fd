-- ===== src/Parser/Directive.antt =====
-- lib/parser/dockerfile: the types of directives, stages, parser states and errors.
use makisu.Base.{Bool, Option, List, Bytes, Dict, Result}
use makisu.Parser.KeyValues.{KeyValueError}
use makisu.Parser.SplitArgs.{SplitError}
use makisu.Parser.Variables.{ReplaceError}
use makisu.Text.{ℤ}

-- The errors of the package, by their messages; `in_directive` is `parseError`, with the type and
-- the arguments of the directive, and `nil_map_write` stands for a Go panic.
pub data ParseError : Type 0 where
  before_first_from missing_args missing_space not_exactly_one_arg : ParseError
  unsupported_directive not_a_directive bad_alias wrong_flag_format missing_flag_value : ParseError
  archive_flag_format too_many_flags cmd_not_defined bad_interval bad_timeout : ParseError
  bad_start_period bad_retries unsupported_flag missing_cmd : ParseError
  signal_not_integer signal_negative nil_map_write : ParseError
  replace_failed : ReplaceError → ParseError
  split_failed : SplitError → ParseError
  key_values_failed : KeyValueError → ParseError
  in_directive : Bytes → Bytes → ParseError → ParseError

abbrev pub Parsed {ℓ} : Type ℓ → Type ℓ
Parsed A = Result ParseError A

pub record BaseDirective : Type 0 where
  pub t : Bytes
  pub args : Bytes
  pub commit : Bool

pub record FromDirective : Type 0 where
  pub base : BaseDirective
  pub image : Bytes
  pub alias : Bytes

pub record ArgDirective : Type 0 where
  pub base : BaseDirective
  pub name : Bytes
  pub default_val : Bytes
  pub resolved_val : Option Bytes

pub record AddCopyDirective : Type 0 where
  pub base : BaseDirective
  pub chown : Bytes
  pub preserve_owner : Bool
  pub srcs : List Bytes
  pub dst : Bytes

pub record HealthcheckDirective : Type 0 where
  pub base : BaseDirective
  pub interval : ℤ
  pub timeout : ℤ
  pub start_period : ℤ
  pub retries : ℤ
  pub test : List Bytes

-- A directive; the types with one field beside the base carry that field.
pub data Directive : Type 0 where
  add : AddCopyDirective → Directive
  arg : ArgDirective → Directive
  cmd : BaseDirective → List Bytes → Directive
  copy : AddCopyDirective → Bytes → Directive
  entrypoint : BaseDirective → List Bytes → Directive
  env : BaseDirective → Dict Bytes → Directive
  expose : BaseDirective → List Bytes → Directive
  from : FromDirective → Directive
  healthcheck : HealthcheckDirective → Directive
  label : BaseDirective → Dict Bytes → Directive
  maintainer : BaseDirective → Bytes → Directive
  run : BaseDirective → Bytes → Directive
  stopsignal : BaseDirective → ℤ → Directive
  user : BaseDirective → Bytes → Directive
  volume : BaseDirective → List Bytes → Directive
  workdir : BaseDirective → Bytes → Directive

pub record Stage : Type 0 where
  pub from_directive : FromDirective
  pub directives : List Directive

-- `stage_vars` is `none` where the map is nil.
pub record ParsingState : Type 0 where
  pub stages : List Stage
  pub passed_args : Dict Bytes
  pub global_args : Dict Bytes
  pub stage_vars : Option (Dict Bytes)

-- What the parser uses of `encoding/json` and `time`: the decoder of an array of strings and
-- the reader of durations; `none` is an error.
pub record Decoders : Type 0 where
  pub json_array : Bytes → Option (List Bytes)
  pub duration : Bytes → Option ℤ
