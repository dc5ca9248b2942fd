-- ===== src/Tests/Executing.antt =====
-- Runs of Execute in lib/builder/build_plan.go: a stage is its alias, and the world a list of what
-- was done.
use makisu.Base.{false, List, [], ◌∷◌, ◌≡◌, refl, Bytes, bytes_eq, codes, ok, if◌then◌else◌, lookup}
use makisu.Builder.Execute.{StageOperations, ExecuteOptions, Build, execute, execute_stage}
use makisu.Builder.Execute.Target.{execute_target}

abbrev traced : StageOperations
traced = record {
  World = List Bytes;
  Env = Unit {0};
  Stage = Bytes;
  Manifest = Bytes;
  Error = Bytes;
  alias = λ s. s;
  environ = λ w. tt;
  restore_env = λ e w. w;
  pull_cache_layers = λ s w. (s, codes "pull" ∷ w);
  checkpoint = λ s dirs w. ok (codes "checkpoint" ∷ w);
  cleanup = λ s w. ok (codes "cleanup" ∷ w);
  wait_for_push = λ w. codes "wait" ∷ w;
  save_manifest = λ s name w. ok (s, name ∷ w);
}

-- One build commits the last node of the last stage, the other does not.
abbrev commits : Build traced
commits s last_stage copied w = ok (s, (if last_stage then codes "commit" else codes "build") ∷ w)

abbrev forgets : Build traced
forgets s last_stage copied w = ok (s, codes "build" ∷ w)

abbrev to_a : ExecuteOptions
to_a = record { allow_modify_fs = false; copy_from_dirs = []; stage_target = codes "a" }

bytes_of_a : bytes_eq (codes "a") [] ≡ false
unfolding bytes_eq
bytes_of_a = refl

execute_target_example :
    execute traced commits to_a (codes "a" ∷ codes "b" ∷ []) (codes "t") [] []
    ≡ execute traced forgets to_a (codes "a" ∷ codes "b" ∷ []) (codes "t") [] []
execute_target_example =
    execute_target traced commits forgets to_a (λ s copied w. refl) [] (codes "a") (codes "b") []
      (codes "t") [] [] bytes_of_a refl

-- Stage a is built, but its last node is not committed, and stage b is never reached.
stops_at_target :
    execute traced commits to_a (codes "a" ∷ codes "b" ∷ []) (codes "t") [] []
    ≡ ok (codes "a", codes "t" ∷ codes "wait" ∷ codes "build" ∷ codes "pull" ∷ [])
unfolding execute execute_stage bytes_eq lookup
stops_at_target = refl
