-- ===== src/Tests/Stepping.antt =====
-- Runs of lib/builder/step, and its theorem at a concrete input.
use makisu.Base.{true, some, none, List, [], ◌∷◌, ◌≡◌, refl, Bytes, codes, lookup}
use makisu.Text.{ℤ}
use makisu.Env.{convert_string_slice_to_map}
use makisu.Builder.Steps.{Config, StepContext, Step, env, user, update_all}
use makisu.Builder.Steps.Environment.{assign_all, update_all-assign_all}

abbrev old_config : Config
old_config = record {
  author = [];
  user = [];
  working_dir = codes "/";
  cmd = [];
  entrypoint = [];
  env = codes "A=1" ∷ [];
  labels = [];
  exposed_ports = [];
  volumes = [];
  stop_signal = [];
  healthcheck = none;
}

abbrev new_config : Config
new_config = record old_config { user = codes "me"; env = codes "A=2" ∷ [] }

abbrev old_context : StepContext
old_context = record { root_dir = codes "/"; stage_vars = [] }

abbrev new_context : StepContext
new_context = record old_context { stage_vars = (codes "A", codes "2") ∷ [] }

abbrev same : Bytes → Bytes
same v = v

abbrev two_steps : List ((Bytes → Bytes) × Step)
two_steps = (same, env ((codes "A", codes "2") ∷ [])) ∷ (same, user (codes "me")) ∷ []

abbrev no_text : ℤ → Bytes
no_text n = []

updates :
    update_all some no_text (λ p. true) two_steps (old_context, old_config)
    ≡ some (new_context, new_config)
unfolding update_all
updates = refl

update_all-assign_all_example :
    lookup (codes "A") (convert_string_slice_to_map new_config.env)
    ≡ lookup (codes "A") (assign_all two_steps (convert_string_slice_to_map old_config.env))
update_all-assign_all_example =
    update_all-assign_all some no_text (λ p. true) (λ c. refl) two_steps old_context old_config
      (codes "A") refl updates
