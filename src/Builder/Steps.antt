-- ===== src/Builder/Steps.antt =====
-- lib/builder/step: what the steps of a stage do to the image configuration and the stage variables.
pub mod Environment
use makisu.Base.{
  ℕ, Bool, true, false, Option, some, none, List, [], ◌∷◌, if◌then◌else◌, Bytes, Dict, insert,
  insert_all,
}
use makisu.Text.{ℤ}
use makisu.Paths.{is_abs, join_path}
use makisu.Env.{merge_string_maps, merge_env}

-- `image.HealthConfig`; a duration is a number of nanoseconds.
pub record HealthConfig : Type 0 where
  pub interval : ℤ
  pub timeout : ℤ
  pub start_period : ℤ
  pub retries : ℤ
  pub test : List Bytes

-- What the steps change of `image.Config`.
pub record Config : Type 0 where
  pub author : Bytes
  pub user : Bytes
  pub working_dir : Bytes
  pub cmd : List Bytes
  pub entrypoint : List Bytes
  pub env : List Bytes
  pub labels : Dict Bytes
  pub exposed_ports : Dict (Unit {0})
  pub volumes : Dict (Unit {0})
  pub stop_signal : Bytes
  pub healthcheck : Option HealthConfig

-- What the steps read and change of `context.BuildContext`.
pub record StepContext : Type 0 where
  pub root_dir : Bytes
  pub stage_vars : Dict Bytes

-- The steps behind the FROM of a stage, with the fields that their constructors set. `other` is ADD,
-- COPY or RUN, whose `UpdateCtxAndConfig` is that of `baseStep`.
pub data Step : Type 0 where
  arg : Bytes → Option Bytes → Step
  cmd : List Bytes → Step
  entrypoint : List Bytes → Step
  env : Dict Bytes → Step
  expose : Dict (Unit {0}) → Step
  healthcheck : HealthConfig → Step
  label : Dict Bytes → Step
  maintainer : Bytes → Step
  stopsignal : ℤ → Step
  user : Bytes → Step
  volume : Dict (Unit {0}) → Step
  workdir : Bytes → Step
  other : Step

-- The set of the arguments, as `NewExposeStep` and `NewVolumeStep` make it.
unfoldable pub set_of : List Bytes → Dict (Unit {0})
unfolding insert
set_of [] = []
set_of (p ∷ ps) = insert p tt (set_of ps)

-- `utils.MergeStructMaps`
unfoldable pub merge_struct_maps : Dict (Unit {0}) → Dict (Unit {0}) → Dict (Unit {0})
unfolding insert_all
merge_struct_maps one two = insert_all two (insert_all one [])

-- The values of a map, expanded.
unfoldable pub expand_values : (Bytes → Bytes) → Dict Bytes → Dict Bytes
expand_values expand [] = []
expand_values expand ((k, v) ∷ m) = (k, expand v) ∷ expand_values expand m

-- The working directory behind a step WORKDIR.
unfoldable pub new_working_dir : Bytes → Bytes → Bytes → Bytes
unfolding join_path
new_working_dir root_dir before dir =
    join_path ((if is_abs dir then root_dir else before) ∷ dir ∷ [])

-- What `UpdateCtxAndConfig` of each step does to the copied configuration.
abbrev pub update_cmd : List Bytes → Config → Config
update_cmd words c = record c { cmd = words }

abbrev pub update_entrypoint : List Bytes → Config → Config
update_entrypoint words c = record c { entrypoint = words }

abbrev pub update_env : (Bytes → Bytes) → Dict Bytes → Config → Config
update_env expand envs c = record c { env = merge_env c.env (expand_values expand envs) }

abbrev pub update_expose : Dict (Unit {0}) → Config → Config
update_expose ports c = record c { exposed_ports = merge_struct_maps c.exposed_ports ports }

abbrev pub update_healthcheck : HealthConfig → Config → Config
update_healthcheck h c = record c { healthcheck = some h }

abbrev pub update_label : Dict Bytes → Config → Config
update_label labels c = record c { labels = merge_string_maps c.labels labels }

abbrev pub update_maintainer : Bytes → Config → Config
update_maintainer author c = record c { author = author }

abbrev pub update_stopsignal : Bytes → Config → Config
update_stopsignal signal c = record c { stop_signal = signal }

abbrev pub update_user : Bytes → Config → Config
update_user name c = record c { user = name }

abbrev pub update_volume : Dict (Unit {0}) → Config → Config
update_volume volumes c = record c { volumes = merge_struct_maps c.volumes volumes }

abbrev pub update_workdir : (Bytes → Bool) → Bytes → Bytes → Config → Option Config
update_workdir has_dir root_dir dir c =
    let new = new_working_dir root_dir c.working_dir dir in
    if has_dir new then some (record c { working_dir = new }) else none

-- The copy of the configuration by way of JSON, the text of a number, and whether a directory is
-- there or could be made.
module _ (copy_config : Config → Option Config) (itoa : ℤ → Bytes) (has_dir : Bytes → Bool) where
  -- The change of the copied configuration.
  unfoldable pub update_config : (Bytes → Bytes) → StepContext → Step → Config → Option Config
  unfolding merge_env merge_string_maps merge_struct_maps expand_values new_working_dir
  update_config expand ctx (arg name val) c = some c
  update_config expand ctx (cmd words) c = some (update_cmd words c)
  update_config expand ctx (entrypoint words) c = some (update_entrypoint words c)
  update_config expand ctx (env envs) c = some (update_env expand envs c)
  update_config expand ctx (expose ports) c = some (update_expose ports c)
  update_config expand ctx (healthcheck h) c = some (update_healthcheck h c)
  update_config expand ctx (label labels) c = some (update_label labels c)
  update_config expand ctx (maintainer author) c = some (update_maintainer author c)
  update_config expand ctx (stopsignal signal) c = some (update_stopsignal (itoa signal) c)
  update_config expand ctx (user name) c = some (update_user name c)
  update_config expand ctx (volume volumes) c = some (update_volume volumes c)
  update_config expand ctx (workdir dir) c = update_workdir has_dir ctx.root_dir (expand dir) c
  update_config expand ctx other c = some c

  -- The change of the stage variables.
  unfoldable pub update_vars : Step → StepContext → StepContext
  unfolding insert insert_all
  update_vars (arg name none) ctx = ctx
  update_vars (arg name (some val)) ctx = record ctx { stage_vars = insert name val ctx.stage_vars }
  update_vars (env envs) ctx = record ctx { stage_vars = insert_all envs ctx.stage_vars }
  update_vars _ ctx = ctx

  -- `UpdateCtxAndConfig`; `expand` is `os.ExpandEnv` in the environment of that time.
  unfoldable pub update_ctx_and_config :
      (Bytes → Bytes) → Step → StepContext × Config → Option (StepContext × Config)
  unfolding update_config update_vars
  update_ctx_and_config expand step (ctx, c) = elim (copy_config c) [
    | none ↦ none
    | some copied ↦ elim (update_config expand ctx step copied) [
      | none ↦ none
      | some c' ↦ some (update_vars step ctx, c')
    ]
  ]

  -- The steps behind the FROM of a stage, one after another, as their nodes update the configuration.
  unfoldable pub update_all :
      List ((Bytes → Bytes) × Step) → StepContext × Config → Option (StepContext × Config)
  unfolding update_ctx_and_config
  update_all [] s = some s
  update_all ((expand, step) ∷ steps) s = elim (update_ctx_and_config expand step s) [
    | none ↦ none
    | some s' ↦ update_all steps s'
  ]
