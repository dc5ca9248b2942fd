-- ===== src/Tests/Planning.antt =====
-- Runs of lib/builder/build_plan.go.
use makisu.Base.{
  arith, true, false, List, [], ◌∷◌, ◌≡◌, refl, codes, ok, err, Result, Bytes, map, insert,
  bytes_eq,
}
use makisu.Parser.Directive.{Directive, BaseDirective, Stage}
use makisu.Text.{atoi}
use makisu.Image.{is_valid, parse_name_for_pull}
use makisu.Builder.Plan.{
  add_copy_from, new_remote_image_stage, PlanStep, BuildPlan, BuildPlanOptions, StepFactory,
  PlanError, process_stages_and_aliases,
}
use makisu.Builder.Plan.Order.{is_ordered}
use makisu.Builder.Plan.Process.{CopiesNothing, process_stages-is_ordered}

-- The stage and the directories that a directive copies from.
abbrev source_of : Directive → Bytes × List Bytes
source_of (Directive.copy d stage) = (stage, d.srcs)
source_of (Directive.run base c) = ([], [])
source_of _ = ([], [])

abbrev step_of : Bytes × List Bytes → Bytes → PlanStep
step_of source seed = record {
  cache_id = b'1' ∷ seed;
  context_alias = source.0;
  context_dirs = source.1;
  require_on_disk = false;
}

abbrev steps : StepFactory
steps = record {
  Error = Bytes;
  new_dockerfile_step = λ d seed. ok (step_of (source_of d) seed);
  new_from_step = λ image seed. ok (step_of ([], []) seed);
}

steps-CopiesNothing : CopiesNothing steps
steps-CopiesNothing image seed s h = ground (arith, h)

abbrev options : BuildPlanOptions
options = record { force_commit = false; allow_modify_fs = true }

abbrev base : BaseDirective
base = record { t = codes "copy"; args = []; commit = false }

abbrev copy_from : Bytes → Directive
copy_from alias =
    Directive.copy
      (record {
        base = base;
        chown = [];
        preserve_owner = false;
        srcs = codes "x" ∷ [];
        dst = codes "y";
      })
      alias

abbrev stage : Bytes → List Directive → Stage
stage alias directives = record {
  from_directive = record { base = base; image = codes "i"; alias = alias };
  directives = directives;
}

-- A stage `b`, and a stage that copies from it and from the image `d.e/f`.
abbrev two_stages : List Stage
two_stages =
    stage (codes "b") [] ∷ stage [] (copy_from (codes "b") ∷ copy_from (codes "d.e/f") ∷ []) ∷ []

abbrev plan_of : Result (PlanError Bytes) BuildPlan → BuildPlan
plan_of (ok p) = p
plan_of (err e) = record { stages = []; copy_from_dirs = []; stage_aliases = []; seed = [] }

abbrev plan : BuildPlan
plan = plan_of (process_stages_and_aliases steps options (codes "s") (codes "b") two_stages)

process_stages-is_ordered_example : is_ordered [] plan.stages ≡ true
unfolding process_stages_and_aliases atoi insert bytes_eq add_copy_from is_valid parse_name_for_pull
    new_remote_image_stage
process_stages-is_ordered_example =
    process_stages-is_ordered steps options (codes "s") (codes "b") two_stages steps-CopiesNothing
      refl

-- An image that two stages copy from is downloaded by two stages of the plan.
abbrev copied_twice : List Stage
copied_twice =
    stage [] (copy_from (codes "d.e/f") ∷ []) ∷ stage [] (copy_from (codes "d.e/f") ∷ []) ∷ []

copied_twice-aliases :
    map
      (λ s. s.alias)
      (plan_of (process_stages_and_aliases steps options (codes "s") [] copied_twice)).stages
    ≡ codes "d.e/f" ∷ codes "0" ∷ codes "d.e/f" ∷ codes "1" ∷ []
unfolding process_stages_and_aliases atoi insert bytes_eq add_copy_from is_valid parse_name_for_pull
    new_remote_image_stage
copied_twice-aliases = refl
