-- ===== src/Builder/Plan.antt =====
-- lib/builder/build_plan.go, and in build_stage.go the creation of stages: from the stages of a
-- Dockerfile to the stages of a build, in the order in which they are built.
pub mod Order
pub mod Process
use makisu.Base.{
  ℕ, zero, suc, ◌+◌, Bool, true, false, not, ◌&&◌, ◌||◌, Option, some, none, List, [], ◌∷◌, ◌++◌,
  map, ◌==◌, ltb, if◌then◌else◌, Bytes, bytes_eq, Result, ok, err, ◌>>=◌, ◌>>◌, guard, Dict, lookup,
  insert, length, last?,
}
use mathlib.Core.List.{reverse}
use makisu.Text.{atoi}
use makisu.Image.{is_valid, parse_name_for_pull}
use makisu.Parser.Directive.{Directive, Stage, FromDirective, from}

-- What a stage asks of a step: its cache ID, the directories that it copies from another stage, and
-- whether it needs files on disk.
pub record PlanStep : Type 0 where
  pub cache_id : Bytes
  pub context_alias : Bytes
  pub context_dirs : List Bytes
  pub require_on_disk : Bool

pub record BuildPlanOptions : Type 0 where
  pub force_commit : Bool
  pub allow_modify_fs : Bool

pub record BuildStage : Type 0 where
  pub alias : Bytes
  pub copy_from_dirs : Dict (List Bytes)
  pub nodes : List PlanStep
  pub force_commit : Bool
  pub require_on_disk : Bool

-- The part of `BuildPlan` that the processing of stages changes, with the seed of cache IDs.
pub record BuildPlan : Type 0 where
  pub stages : List BuildStage
  pub copy_from_dirs : Dict (List Bytes)
  pub stage_aliases : List Bytes
  pub seed : Bytes

pub data PlanError {ℓ} (E : Type ℓ) : Type ℓ where
  duplicate_alias numeric_alias must_allow_modify_fs nonexistent_stage target_not_found :
      PlanError E
  step_failed : E → PlanError E

-- One more than a number, in decimal digits from the last to the first.
next_digits : Bytes → Bytes
next_digits [] = b'1' ∷ []
next_digits (d ∷ ds) =
    let carried = next_digits ds in if d == b'9' then b'0' ∷ carried else suc d ∷ ds

digits_of : ℕ → Bytes
unfolding next_digits
digits_of zero = b'0' ∷ []
digits_of (suc n) = next_digits (digits_of n)

-- `strconv.Itoa` on a number that is not negative.
itoa : ℕ → Bytes
unfolding digits_of
itoa n = reverse (digits_of n)

-- `_, ok := m[k]` on a set of strings.
pub member : Bytes → List Bytes → Bool
member k [] = false
member k (x ∷ xs) = bytes_eq x k || member k xs

-- `stringset.FromSlice(append(a, b...)).ToSlice()`, in one of the orders that it may have.
union : List Bytes → List Bytes → List Bytes
unfolding member
union a [] = a
union a (b ∷ bs) = union (if member b a then a else a ++ b ∷ []) bs

abbrev pub dirs_of : Option (List Bytes) → List Bytes
dirs_of none = []
dirs_of (some dirs) = dirs

-- The loop of `newBuildStageHelper`: the directories that the steps copy, by alias.
context_dirs_of : List PlanStep → Dict (List Bytes) → Dict (List Bytes)
context_dirs_of [] m = m
context_dirs_of (s ∷ ss) m = context_dirs_of ss (
    if ltb 0 (length s.context_dirs)
    then insert s.context_alias (dirs_of (lookup s.context_alias m) ++ s.context_dirs) m
    else m)

abbrev pub some_on_disk : List PlanStep → Bool
some_on_disk [] = false
some_on_disk (s ∷ ss) = s.require_on_disk || some_on_disk ss

-- `newBuildStageHelper`
new_build_stage_helper : Bytes → List PlanStep → Bool → BuildStage
unfolding context_dirs_of
new_build_stage_helper alias steps force_commit = record {
  alias = alias;
  copy_from_dirs = context_dirs_of steps [];
  nodes = steps;
  force_commit = force_commit;
  require_on_disk = some_on_disk steps;
}

-- The cache ID of the last node of the stage; every stage has its FROM.
abbrev pub last_cache_id : BuildStage → Bytes → Bytes
last_cache_id s seed = elim (last? s.nodes) [ none ↦ seed | some node ↦ node.cache_id ]

-- `NewDockerfileStep` with a seed, and `NewFromStep` of an image with `SetCacheID`.
pub record StepFactory : Type 1 where
  pub Error : Type 0
  pub new_dockerfile_step : Directive → Bytes → Result Error PlanStep
  pub new_from_step : Bytes → Bytes → Result Error PlanStep

module _ (factory : StepFactory) (opts : BuildPlanOptions) where
  open factory use {Error, new_dockerfile_step, new_from_step}

  -- The loop of `createDockerfileSteps`: each step has the cache ID of the one before as its seed.
  create_steps : Bytes → List Directive → Result (PlanError Error) (List PlanStep)
  create_steps seed [] = ok []
  create_steps seed (d ∷ ds) = elim (new_dockerfile_step d seed) [
    | err e ↦ err (step_failed e)
    | ok step ↦ do steps ← create_steps step.cache_id ds; ok (step ∷ steps)
  ]

  -- `newBuildStage`
  new_build_stage :
      Bytes → Bytes → FromDirective → List Directive → Result (PlanError Error) BuildStage
  unfolding create_steps new_build_stage_helper
  new_build_stage alias seed base directives = do
    steps ← create_steps seed (from base ∷ directives)
    ok (new_build_stage_helper alias steps opts.force_commit)

  -- `newRemoteImageStage`, which never forces commits.
  unfoldable pub new_remote_image_stage : Bytes → Bytes → Result (PlanError Error) BuildStage
  unfolding new_build_stage_helper
  new_remote_image_stage alias seed = elim (new_from_step alias seed) [
    | err e ↦ err (step_failed e)
    | ok step ↦ ok (new_build_stage_helper alias (step ∷ []) false)
  ]

  -- The body of the loop over `stage.copyFromDirs`.
  unfoldable pub add_copy_from : Bytes → List Bytes → BuildPlan → Result (PlanError Error) BuildPlan
  unfolding union member
  add_copy_from alias dirs plan =
      let plan' = record plan {
        copy_from_dirs =
            insert alias (union (dirs_of (lookup alias plan.copy_from_dirs)) dirs)
              plan.copy_from_dirs;
      } in
      if member alias plan.stage_aliases
      then ok plan'
      else if not (is_valid (parse_name_for_pull alias))
      then err nonexistent_stage
      else (do
        stage ← new_remote_image_stage alias plan.seed
        ok (record plan' {
          stages = plan.stages ++ stage ∷ [];
          seed = last_cache_id stage plan.seed;
        }))

  -- The loop over `stage.copyFromDirs`, in one of the orders that Go may take.
  add_copy_froms : Dict (List Bytes) → BuildPlan → Result (PlanError Error) BuildPlan
  add_copy_froms [] plan = ok plan
  add_copy_froms ((alias, dirs) ∷ m) plan = do
    plan' ← add_copy_from alias dirs plan
    add_copy_froms m plan'

  -- The alias that a stage with this number gets.
  alias_of : ℕ → Bytes → List Bytes → Result (PlanError Error) Bytes
  unfolding itoa member
  alias_of i [] aliases = ok (itoa i)
  alias_of i (c ∷ cs) aliases =
      if member (c ∷ cs) aliases
      then err duplicate_alias
      else elim (atoi (c ∷ cs)) [ none ↦ ok (c ∷ cs) | some _ ↦ err numeric_alias ]

  -- The body of the loop over the parsed stages.
  add_stage : ℕ → Stage → BuildPlan → Result (PlanError Error) BuildPlan
  unfolding alias_of new_build_stage add_copy_froms
  add_stage i parsed plan = do
    alias ← alias_of i parsed.from_directive.alias plan.stage_aliases
    stage ←
        new_build_stage alias plan.seed (record parsed.from_directive { alias = alias })
          parsed.directives
    guard (not (ltb 0 (length stage.copy_from_dirs) && not opts.allow_modify_fs))
        must_allow_modify_fs
    plan' ←
        add_copy_froms stage.copy_from_dirs
          (record plan { stage_aliases = alias ∷ plan.stage_aliases })
    ok (record plan' { stages = plan'.stages ++ stage ∷ []; seed = last_cache_id stage plan'.seed })

  -- The loop over the parsed stages, from the one with this number.
  add_stages : ℕ → List Stage → BuildPlan → Result (PlanError Error) BuildPlan
  add_stages i [] plan = ok plan
  add_stages i (parsed ∷ rest) plan = do
    plan' ← add_stage i parsed plan
    add_stages (i + 1) rest plan'

  -- `processStagesAndAliases`, with the seed that it computes from the build and its options.
  unfoldable pub process_stages_and_aliases :
      Bytes → Bytes → List Stage → Result (PlanError Error) BuildPlan
  unfolding add_stages add_stage member
  process_stages_and_aliases seed stage_target parsed = do
    plan ←
        add_stages 0 parsed
          (record { stages = []; copy_from_dirs = []; stage_aliases = []; seed = seed })
    guard (length stage_target == 0 || member stage_target plan.stage_aliases) target_not_found
    ok plan
