-- ===== src/Parser/Dispatch.antt =====
-- lib/parser/dockerfile: the other constructors of directives, and `newDirective`.
use makisu.Base.{
  false, not, Option, some, none, List, [], ◌∷◌, ◌==◌, if◌then◌else◌, Bytes, codes, ok, err, ◌>>=◌,
  ◌>>◌, guard, Dict, length, lookup,
}
use makisu.Text.{pos, negsuc, fields, equal_fold, cut, atoi}
use makisu.Parser.Directive.{
  BaseDirective, Directive, ParsingState, Parsed, Decoders, missing_args, missing_space,
  not_exactly_one_arg, unsupported_directive, bad_alias, signal_not_integer, signal_negative,
  split_failed, key_values_failed, in_directive, arg, env, expose, from, label, maintainer,
  stopsignal, user, workdir,
}
use makisu.Parser.Line.{
  base_err, replace_vars_curr_stage, replace_vars_global, replace_vars_curr_stage_or_global,
  new_base_directive,
}
use makisu.Parser.Construct.{
  wrapped, new_add_directive, new_copy_directive, new_cmd_directive, new_entrypoint_directive,
  new_run_directive, new_volume_directive,
}
use makisu.Parser.SplitArgs.{split_args}
use makisu.Parser.KeyValues.{parse_key_vals}
use makisu.Parser.Healthcheck.{new_healthcheck_directive}

-- ARG with one pair of key and value.
arg_of_pairs : BaseDirective → Dict Bytes → Parsed Directive
arg_of_pairs d ((k, v) ∷ []) =
    ok (arg (record { base = d; name = k; default_val = v; resolved_val = none }))
arg_of_pairs d _ = base_err d not_exactly_one_arg

unfoldable pub new_arg_directive : BaseDirective → ParsingState → Parsed Directive
unfolding arg_of_pairs
new_arg_directive base state = do
  d ← replace_vars_curr_stage_or_global base state
  elim (parse_key_vals d.args) [
    | ok vars ↦ arg_of_pairs d vars
    | err _ ↦ do
      args ← wrapped d split_failed (split_args d.args false)
      guard (length args == 1) (in_directive d.t d.args not_exactly_one_arg)
      ok (arg (record { base = d; name = d.args; default_val = []; resolved_val = none }))
  ]

unfoldable pub new_env_directive : BaseDirective → ParsingState → Parsed Directive
new_env_directive base state = do
  d ← replace_vars_curr_stage base state
  elim (parse_key_vals d.args) [
    | ok vars ↦ ok (env d vars)
    | err _ ↦ elim (cut b' ' d.args) [
      | none ↦ base_err d missing_space
      | some (key, []) ↦ base_err d missing_space
      | some (key, c ∷ cs) ↦ ok (env d ((key, c ∷ cs) ∷ []))
    ]
  ]

unfoldable pub new_expose_directive : BaseDirective → ParsingState → Parsed Directive
new_expose_directive base state = do
  d ← replace_vars_curr_stage base state
  guard (not (length (fields d.args) == 0)) (in_directive d.t d.args missing_args)
  ok (expose d (fields d.args))

-- FROM, of the fields of its arguments.
from_of : BaseDirective → List Bytes → Parsed Directive
from_of d [] = base_err d missing_args
from_of d (image ∷ []) = ok (from (record { base = d; image = image; alias = [] }))
from_of d (image ∷ word ∷ alias ∷ []) =
    if equal_fold word (codes "as")
    then ok (from (record { base = d; image = image; alias = alias }))
    else base_err d bad_alias
from_of d _ = base_err d bad_alias

unfoldable pub new_from_directive : BaseDirective → ParsingState → Parsed Directive
unfolding from_of
new_from_directive base state = do d ← replace_vars_global base state; from_of d (fields d.args)

unfoldable pub new_label_directive : BaseDirective → ParsingState → Parsed Directive
new_label_directive base state = do
  d ← replace_vars_curr_stage base state
  elim (parse_key_vals d.args) [
    | ok labels ↦ ok (label d labels)
    | err e ↦ err (key_values_failed e)
  ]

unfoldable pub new_maintainer_directive : BaseDirective → ParsingState → Parsed Directive
new_maintainer_directive base state = ok (maintainer base base.args)

unfoldable pub new_stopsignal_directive : BaseDirective → ParsingState → Parsed Directive
new_stopsignal_directive base state = elim (atoi base.args) [
  | none ↦ err signal_not_integer
  | some (negsuc n) ↦ err signal_negative
  | some (pos n) ↦ ok (stopsignal base (pos n))
]

-- The one field of the arguments, for USER and WORKDIR.
only_field : BaseDirective → List Bytes → Parsed Bytes
only_field d (a ∷ []) = ok a
only_field d _ = base_err d not_exactly_one_arg

unfoldable pub new_user_directive : BaseDirective → ParsingState → Parsed Directive
unfolding only_field
new_user_directive base state = do
  d ← replace_vars_curr_stage base state
  a ← only_field d (fields d.args)
  ok (user d a)

unfoldable pub new_workdir_directive : BaseDirective → ParsingState → Parsed Directive
unfolding only_field
new_workdir_directive base state = do
  d ← replace_vars_curr_stage base state
  a ← only_field d (fields d.args)
  ok (workdir d a)

-- The constructors that the map `directiveConstructors` names.
pub data Kind : Type 0 where
  add_kind arg_kind cmd_kind copy_kind entrypoint_kind env_kind expose_kind from_kind : Kind
  healthcheck_kind label_kind maintainer_kind run_kind stopsignal_kind user_kind : Kind
  volume_kind workdir_kind : Kind

abbrev pub directive_constructors : Dict Kind
directive_constructors =
    (codes "add", add_kind)
    ∷ (codes "arg", arg_kind)
    ∷ (codes "cmd", cmd_kind)
    ∷ (codes "copy", copy_kind)
    ∷ (codes "entrypoint", entrypoint_kind)
    ∷ (codes "env", env_kind)
    ∷ (codes "expose", expose_kind)
    ∷ (codes "from", from_kind)
    ∷ (codes "healthcheck", healthcheck_kind)
    ∷ (codes "label", label_kind)
    ∷ (codes "maintainer", maintainer_kind)
    ∷ (codes "run", run_kind)
    ∷ (codes "stopsignal", stopsignal_kind)
    ∷ (codes "user", user_kind)
    ∷ (codes "volume", volume_kind)
    ∷ (codes "workdir", workdir_kind)
    ∷ []

module _ (dec : Decoders) where
  unfoldable pub construct : Kind → BaseDirective → ParsingState → Parsed Directive
  construct add_kind = new_add_directive dec
  construct arg_kind = new_arg_directive
  construct cmd_kind = new_cmd_directive dec
  construct copy_kind = new_copy_directive dec
  construct entrypoint_kind = new_entrypoint_directive dec
  construct env_kind = new_env_directive
  construct expose_kind = new_expose_directive
  construct from_kind = new_from_directive
  construct healthcheck_kind = new_healthcheck_directive dec
  construct label_kind = new_label_directive
  construct maintainer_kind = new_maintainer_directive
  construct run_kind = new_run_directive dec
  construct stopsignal_kind = new_stopsignal_directive
  construct user_kind = new_user_directive
  construct volume_kind = new_volume_directive dec
  construct workdir_kind = new_workdir_directive

  -- The look-up of the constructor and its call.
  unfoldable pub construct_base : BaseDirective → ParsingState → Parsed Directive
  unfolding construct
  construct_base base state = elim (lookup base.t directive_constructors) [
    | none ↦ base_err base unsupported_directive
    | some k ↦ construct k base state
  ]

  -- `newDirective`; `none` is a line with nothing on it.
  unfoldable pub new_directive : Bytes → ParsingState → Parsed (Option Directive)
  unfolding construct_base
  new_directive line state = do
    base ← new_base_directive line
    elim base [
      | none ↦ ok none
      | some d ↦ do directive ← construct_base d state; ok (some directive)
    ]
