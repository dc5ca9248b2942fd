-- ===== src/Builder/Execute.antt =====
-- lib/builder/build_plan.go: Execute and executeStage.
use makisu.Base.{
  Bool, true, false, not, ◌&&◌, Option, none, some, List, [], ◌∷◌, Bytes, bytes_eq, Dict, lookup,
  Result, ok, err, ◌>>=◌, if◌then◌else◌,
}
pub mod Target

-- What the stages, the cache manager, the store and the environment do; nothing is assumed of it.
pub record StageOperations : Type 1 where
  pub World : Type 0
  pub Env : Type 0
  pub Stage : Type 0
  pub Manifest : Type 0
  pub Error : Type 0
  pub alias : Stage → Bytes
  pub environ : World → Env
  pub restore_env : Env → World → World
  pub pull_cache_layers : Stage → World → Stage × World
  pub checkpoint : Stage → List Bytes → World → Result Error World
  pub cleanup : Stage → World → Result Error World
  pub wait_for_push : World → World
  pub save_manifest : Stage → Bytes → World → Result Error (Manifest × World)

-- `nil_stage` is a panic: the plan has no stage.
pub data ExecuteError (E : Type 0) : Type 0 where
  failed : E → ExecuteError E
  nil_stage : ExecuteError E

pub record ExecuteOptions : Type 0 where
  pub allow_modify_fs : Bool
  pub copy_from_dirs : Dict (List Bytes)
  pub stage_target : Bytes

abbrev pub is_some : {A : Type 0} → Option A → Bool
is_some none = false
is_some (some a) = true

abbrev pub or_empty : {A : Type 0} → Option (List A) → List A
or_empty none = []
or_empty (some xs) = xs

abbrev pub is_empty : {A : Type 0} → List A → Bool
is_empty [] = true
is_empty (x ∷ xs) = false

-- `(*buildStage).build`, with its last two arguments.
abbrev pub Build : StageOperations → Type 0
Build ops =
    ops.Stage
    → (last_stage copied_from : Bool) → ops.World
    → Result ops.Error (ops.Stage × ops.World)

module _ (ops : StageOperations) (build : Build ops) (opts : ExecuteOptions) where
  open ops use {World, Env, Stage, Manifest, Error}

  unfoldable pub execute_stage : Stage → Bool → Bool → World → Result Error (Stage × World)
  execute_stage stage last_stage copied_from w =
      build stage last_stage copied_from w >>= λ (b : Stage × World).
      if opts.allow_modify_fs
      then (ops.checkpoint b.0 (or_empty (lookup (ops.alias stage) opts.copy_from_dirs)) b.1
          >>= λ w₁. ops.cleanup b.0 w₁ >>= λ w₂. ok (b.0, w₂))
      else ok b

  -- The loop over the stages, with the stage that it came to.
  unfoldable pub execute_stages :
      Env → Option Stage → List Stage → World → Result Error (Option Stage × World)
  execute_stages env current [] w = ok (current, w)
  execute_stages env current (stage ∷ rest) w =
      let pulled = ops.pull_cache_layers stage w in
      let copied_from = is_some (lookup (ops.alias stage) opts.copy_from_dirs) in
      execute_stage pulled.0 (is_empty rest) copied_from pulled.1 >>= λ (done : Stage × World).
      let restored = ops.restore_env env done.1 in
      let go_on = execute_stages env (some done.0) rest restored in
      if not (bytes_eq opts.stage_target []) && bytes_eq (ops.alias stage) opts.stage_target
      then ok (some done.0, restored)
      else go_on

  -- The manifests of the replicas.
  unfoldable pub save_replicas : Stage → List Bytes → World → Result Error World
  save_replicas stage [] w = ok w
  save_replicas stage (name ∷ names) w =
      ops.save_manifest stage name w >>= λ (s : Manifest × World). save_replicas stage names s.1

  abbrev pub lift : {A : Type 0} → Result Error A → Result (ExecuteError Error) A
  lift (ok a) = ok a
  lift (err e) = err (failed e)

  unfoldable pub execute :
      List Stage → Bytes → List Bytes → World → Result (ExecuteError Error) (Manifest × World)
  unfolding execute_stages save_replicas
  execute stages target replicas w =
      lift (execute_stages (ops.environ w) none stages w) >>= λ (r : Option Stage × World).
      elim r.0 [
        | none ↦ err nil_stage
        | some stage ↦ lift (
            ops.save_manifest stage target (ops.wait_for_push r.1) >>= λ (s : Manifest × World).
            save_replicas stage replicas s.1 >>= λ w'. ok (s.0, w'))
      ]
