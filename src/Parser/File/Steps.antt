-- ===== src/Parser/File/Steps.antt =====
-- The parser as a transition system: what one line may do to the state.
use makisu.Base.{
  ℕ, Bool, true, false, Option, some, none, List, [], ◌∷◌, ◌++◌, ◌≡◌, refl, arith, if◌then◌else◌,
  Bytes, bytes_eq, ok, Dict, lookup, insert_all, Option-cases, Result-cases, lookup-insert, inl,
  inr,
}
use makisu.Parser.Directive.{
  BaseDirective, Directive, ArgDirective, FromDirective, ParsingState, Stage, Decoders, add, arg,
  cmd, copy, entrypoint, env, expose, from, healthcheck, label, maintainer, run, stopsignal, user,
  volume, workdir,
}
use makisu.Parser.Dispatch.{new_directive}
use makisu.Parser.Update.{
  update, add_to_curr_stage, add_to_last, arg_update, env_update, from_update, resolved_by, set_if,
  override,
}
use makisu.Parser.File.{parse_line}

abbrev pub is_started : List Stage → Bool
is_started [] = false
is_started (s ∷ ss) = true

abbrev pub has_vars : Option (Dict Bytes) → Bool
has_vars none = false
has_vars (some vars) = true

-- Stage variables exist exactly when a stage does.
abbrev pub IsWellFormed : ParsingState → Type 0
IsWellFormed st = is_started st.stages ≡ has_vars st.stage_vars

-- Whether `update` does nothing but add the directive to the stage.
abbrev pub is_plain : Directive → Bool
is_plain (arg d) = false
is_plain (env base envs) = false
is_plain (from d) = false
is_plain (add d) = true
is_plain (cmd base l) = true
is_plain (copy d s) = true
is_plain (entrypoint base l) = true
is_plain (expose base l) = true
is_plain (healthcheck d) = true
is_plain (label base l) = true
is_plain (maintainer base a) = true
is_plain (run base c) = true
is_plain (stopsignal base n) = true
is_plain (user base u) = true
is_plain (volume base l) = true
is_plain (workdir base w) = true

-- The stage variables that ARG leaves: a global argument wins over a passed one, and that over the
-- default.
abbrev pub arg_value : ArgDirective → ParsingState → Option Bytes
arg_value d st =
    override (lookup d.name st.global_args)
      (resolved_by (lookup d.name st.passed_args) d.default_val)

-- One line: nothing on it, ARG before the first stage, FROM, or a directive of the last stage.
pub data Step (st st' : ParsingState) : Type 0 where
  skip : st' ≡ st → Step st st'
  declare_global :
      (d : ArgDirective)
      → is_started st.stages ≡ false
      → st' ≡ record st {
        global_args =
            set_if (resolved_by (lookup d.name st.passed_args) d.default_val) d.name st.global_args;
      }
      → Step st st'
  open_stage :
      (d : FromDirective)
      → st' ≡ record st {
        stages = st.stages ++ record { from_directive = d; directives = [] } ∷ [];
        stage_vars = some [];
      }
      → Step st st'
  declare :
      (d : ArgDirective) (r : Option Bytes) (vars vars' : Dict Bytes)
      → is_started st.stages ≡ true
      → st.stage_vars ≡ some vars
      → ((k : Bytes)
          → lookup k vars' ≡ (
              if bytes_eq d.name k
              then override (arg_value d st) (lookup k vars)
              else lookup k vars))
      → st' ≡ record st {
        stages = add_to_last (arg (record d { resolved_val = r })) st.stages;
        stage_vars = some vars';
      }
      → Step st st'
  assign :
      (base : BaseDirective) (envs vars : Dict Bytes)
      → is_started st.stages ≡ true
      → st.stage_vars ≡ some vars
      → st' ≡ record st {
        stages = add_to_last (env base envs) st.stages;
        stage_vars = some (insert_all envs vars);
      }
      → Step st st'
  extend :
      (d : Directive)
      → is_plain d ≡ true
      → is_started st.stages ≡ true
      → st' ≡ record st { stages = add_to_last d st.stages }
      → Step st st'

-- `addToCurrStage` succeeds exactly inside a stage.
pub add_to_curr_stage-eq-ok :
    (st : ParsingState) (d : Directive) {st' : ParsingState}
    → add_to_curr_stage st d ≡ ok st'
    → (is_started st.stages ≡ true) × (st' ≡ record st { stages = add_to_last d st.stages })
unfolding add_to_curr_stage
add_to_curr_stage-eq-ok st d h = ground arith

set_if-lookup :
    (o : Option Bytes) (n k : Bytes) (m : Dict Bytes)
    → lookup k (set_if o n m) ≡ (if bytes_eq n k then override o (lookup k m) else lookup k m)
set_if-lookup none n k m = ground arith
set_if-lookup (some v) n k m = lookup-insert n k v m

-- The two writes of ARG inside a stage.
set_twice-lookup :
    (g r : Option Bytes) (n k : Bytes) (m : Dict Bytes)
    → lookup k (set_if g n (set_if r n m))
      ≡ (if bytes_eq n k then override (override g r) (lookup k m) else lookup k m)
set_twice-lookup g r n k m =
    ground (arith, set_if-lookup g n k (set_if r n m), set_if-lookup r n k m)

arg_update-Step :
    (d : ArgDirective) (st : ParsingState) {st' : ParsingState}
    → IsWellFormed st
    → arg_update d st ≡ ok st'
    → Step st st'
unfolding arg_update
arg_update-Step d st w h = elim (Option-cases st.stage_vars) [
  | inl e ↦ declare_global d (ground arith) (ground arith)
  | inr (vars, e) ↦
      let resolved : Option Bytes = resolved_by (lookup d.name st.passed_args) d.default_val in
      let global : Option Bytes = lookup d.name st.global_args in
      let vars' : Dict Bytes = set_if global d.name (set_if resolved d.name vars) in
      let r : Option Bytes = override global (override resolved d.resolved_val) in
      let (s, e') =
        add_to_curr_stage-eq-ok (record st { stage_vars = some vars' })
          (arg (record d { resolved_val = r })) (ground arith) in
      declare d r vars vars' s e (λ k. set_twice-lookup global resolved d.name k vars) e'
]

env_update-Step :
    (base : BaseDirective) (envs : Dict Bytes) (st : ParsingState) {st' : ParsingState}
    → IsWellFormed st
    → env_update (env base envs) envs st ≡ ok st'
    → Step st st'
unfolding env_update insert_all
env_update-Step base [] st w h = elim (Option-cases st.stage_vars) [
  | inl e ↦ let (s, _) = add_to_curr_stage-eq-ok st (env base []) h in absurd (ground arith)
  | inr (vars, e) ↦
      let (s, e') = add_to_curr_stage-eq-ok st (env base []) h in
      assign base [] vars s e (ground arith)
]
env_update-Step base (x ∷ xs) st w h = elim (Option-cases st.stage_vars) [
  | inl e ↦ absurd (ground arith)
  | inr (vars, e) ↦
      let (s, e') =
        add_to_curr_stage-eq-ok (record st { stage_vars = some (insert_all (x ∷ xs) vars) })
          (env base (x ∷ xs)) (ground arith) in
      assign base (x ∷ xs) vars s e e'
]

pub update-Step :
    (d : Directive) (st : ParsingState) {st' : ParsingState}
    → IsWellFormed st
    → update d st ≡ ok st'
    → Step st st'
unfolding update from_update
update-Step (arg d) st w h = arg_update-Step d st w h
update-Step (from d) st w h = open_stage d (ground arith)
update-Step (env base envs) st w h = env_update-Step base envs st w h
update-Step (add d) st w h =
    let (s, e) = add_to_curr_stage-eq-ok st (add d) h in extend (add d) refl s e
update-Step d st w h = let (s, e) = add_to_curr_stage-eq-ok st d h in extend d refl s e

pub parse_line-Step :
    (dec : Decoders) (count : ℕ) (text : Bytes) (st : ParsingState) {st' : ParsingState}
    → IsWellFormed st
    → parse_line dec count text st ≡ ok st'
    → Step st st'
unfolding parse_line
parse_line-Step dec count text st w h = elim (Result-cases (new_directive dec text st)) [
  | inl (none, e) ↦ skip (ground arith)
  | inl (some d, e) ↦ update-Step d st w (ground arith)
  | inr (x, e) ↦ absurd (ground arith)
]
