-- ===== src/Parser/Update.antt =====
-- lib/parser/dockerfile/state.go and the methods `update`: what a directive does to the state.
use makisu.Base.{
  Option, some, none, List, [], ◌∷◌, ◌++◌, if◌then◌else◌, Bytes, bytes_eq, ok, err, Dict, lookup,
  insert, insert_all,
}
use makisu.Parser.Directive.{
  Directive, ArgDirective, FromDirective, ParsingState, Stage, Parsed, before_first_from,
  nil_map_write, add, arg, cmd, copy, entrypoint, env, expose, from, healthcheck, label, maintainer,
  run, stopsignal, user, volume, workdir,
}

unfoldable pub new_parsing_state : Dict Bytes → ParsingState
new_parsing_state vars = record {
  stages = [];
  passed_args = vars;
  global_args = [];
  stage_vars = none;
}

-- `(*Stage).addDirective`
abbrev pub add_directive : Stage → Directive → Stage
add_directive s d = record s { directives = s.directives ++ d ∷ [] }

-- The stages, the last with one more directive.
unfoldable pub add_to_last : Directive → List Stage → List Stage
add_to_last d [] = []
add_to_last d (s ∷ []) = add_directive s d ∷ []
add_to_last d (s ∷ s' ∷ ss) = s ∷ add_to_last d (s' ∷ ss)

-- `(*parsingState).addToCurrStage`
unfoldable pub add_to_curr_stage : ParsingState → Directive → Parsed ParsingState
unfolding add_to_last
add_to_curr_stage state d = elim state.stages [
  | [] ↦ err before_first_from
  | _ ↦ ok (record state { stages = add_to_last d state.stages })
]

-- The value that ARG resolves to from the passed arguments and its default, if any.
abbrev pub resolved_by : Option Bytes → Bytes → Option Bytes
resolved_by (some val) default_val = some val
resolved_by none default_val = if bytes_eq default_val [] then none else some default_val

-- `vars[d.Name] = val` where there is a value.
abbrev pub set_if : Option Bytes → Bytes → Dict Bytes → Dict Bytes
set_if none name vars = vars
set_if (some val) name vars = insert name val vars

-- The value of the global argument, or else the value so far.
abbrev pub override : Option Bytes → Option Bytes → Option Bytes
override none resolved = resolved
override (some val) resolved = some val

-- `(*ArgDirective).update`
unfoldable pub arg_update : ArgDirective → ParsingState → Parsed ParsingState
unfolding add_to_curr_stage
arg_update d state =
    let resolved = resolved_by (lookup d.name state.passed_args) d.default_val in
    elim state.stage_vars [
      | none ↦ ok (record state { global_args = set_if resolved d.name state.global_args })
      | some vars ↦
          let global = lookup d.name state.global_args in
          add_to_curr_stage
            (record state {
              stage_vars = some (set_if global d.name (set_if resolved d.name vars));
            })
            (arg (record d { resolved_val = override global (override resolved d.resolved_val) }))
    ]

-- `(*EnvDirective).update`: a write to a nil map panics.
unfoldable pub env_update : Directive → Dict Bytes → ParsingState → Parsed ParsingState
unfolding add_to_curr_stage
env_update d [] state = add_to_curr_stage state d
env_update d (e ∷ es) state = elim state.stage_vars [
  | none ↦ err nil_map_write
  | some vars ↦ add_to_curr_stage (record state { stage_vars = some (insert_all (e ∷ es) vars) }) d
]

-- `(*FromDirective).update`
unfoldable pub from_update : FromDirective → ParsingState → Parsed ParsingState
from_update d state = ok (record state {
  stages = state.stages ++ record { from_directive = d; directives = [] } ∷ [];
  stage_vars = some [];
})

-- The methods `update`: all others add the directive to the stage.
unfoldable pub update : Directive → ParsingState → Parsed ParsingState
unfolding arg_update env_update from_update add_to_curr_stage
update (arg d) state = arg_update d state
update (env base envs) state = env_update (env base envs) envs state
update (from d) state = from_update d state
update (add d) state = add_to_curr_stage state (add d)
update (cmd base l) state = add_to_curr_stage state (cmd base l)
update (copy d stage) state = add_to_curr_stage state (copy d stage)
update (entrypoint base l) state = add_to_curr_stage state (entrypoint base l)
update (expose base l) state = add_to_curr_stage state (expose base l)
update (healthcheck d) state = add_to_curr_stage state (healthcheck d)
update (label base l) state = add_to_curr_stage state (label base l)
update (maintainer base a) state = add_to_curr_stage state (maintainer base a)
update (run base c) state = add_to_curr_stage state (run base c)
update (stopsignal base n) state = add_to_curr_stage state (stopsignal base n)
update (user base u) state = add_to_curr_stage state (user base u)
update (volume base l) state = add_to_curr_stage state (volume base l)
update (workdir base w) state = add_to_curr_stage state (workdir base w)
