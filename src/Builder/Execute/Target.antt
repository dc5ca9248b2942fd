-- ===== src/Builder/Execute/Target.antt =====
-- The build of a target stage.
use makisu.Base.{
  Bool, true, false, not, ◌&&◌, Option, none, some, List, [], ◌∷◌, ◌++◌, Bytes, bytes_eq,
  bytes_eq_refl, lookup, Result, ok, err, ◌>>=◌, ◌≡◌, refl, Bool-cases, inl, inr,
}
use makisu.Builder.Execute.{
  StageOperations, ExecuteOptions, Build, is_some, is_empty, execute_stage, execute_stages, execute,
}

is_empty-append : {A : Type 0} (xs : List A) (y : A) (ys : List A) → is_empty (xs ++ y ∷ ys) ≡ false
is_empty-append [] y ys = refl
is_empty-append (x ∷ xs) y ys = refl

bind-cong :
    {E A B : Type 0} (m : Result E A) (f g : A → Result E B)
    → ((a : A) → f a ≡ g a)
    → (m >>= f) ≡ (m >>= g)
bind-cong (ok a) f g h = h a
bind-cong (err e) f g h = refl

module _ (ops : StageOperations) (build build' : Build ops) (opts : ExecuteOptions)
    (agree : (s : ops.Stage) (copied : Bool) (w : ops.World)
      → build s false copied w ≡ build' s false copied w) where
  execute_stage-agree :
      (s : ops.Stage) (copied : Bool) (w : ops.World)
      → execute_stage ops build opts s false copied w
        ≡ execute_stage ops build' opts s false copied w
  unfolding execute_stage
  execute_stage-agree s copied w = rw (agree s copied w) refl

  execute_stages-agree :
      (env : ops.Env) (current : Option ops.Stage) (before : List ops.Stage)
      (stage next : ops.Stage) (after : List ops.Stage) (w : ops.World)
      → bytes_eq opts.stage_target [] ≡ false
      → ops.alias stage ≡ opts.stage_target
      → execute_stages ops build opts env current (before ++ stage ∷ next ∷ after) w
        ≡ execute_stages ops build' opts env current (before ++ stage ∷ next ∷ after) w
  unfolding execute_stages
  execute_stages-agree env current [] stage next after w given is =
      let pulled = ops.pull_cache_layers stage w in
      let copied = is_some (lookup (ops.alias stage) opts.copy_from_dirs) in
      let met : not (bytes_eq opts.stage_target []) && bytes_eq (ops.alias stage) opts.stage_target
          ≡ true =
        rw (given, is, bytes_eq_refl opts.stage_target) refl in
      rw (execute_stage-agree pulled.0 copied pulled.1) (
        bind-cong (execute_stage ops build' opts pulled.0 false copied pulled.1) _ _
          (λ done. rw met refl))
  execute_stages-agree env current (x ∷ before) stage next after w given is =
      let pulled = ops.pull_cache_layers x w in
      let copied = is_some (lookup (ops.alias x) opts.copy_from_dirs) in
      let met = not (bytes_eq opts.stage_target []) && bytes_eq (ops.alias x) opts.stage_target in
      rw (is_empty-append before stage (next ∷ after), execute_stage-agree pulled.0 copied pulled.1)
        (bind-cong (execute_stage ops build' opts pulled.0 false copied pulled.1) _ _ λ done.
          elim (Bool-cases met) [
            | inl stop ↦ rw stop refl
            | inr on ↦ rw on (
                execute_stages-agree env (some done.0) before stage next after
                  (ops.restore_env env done.1) given is)
          ])

  -- Where the target stage is not the last one, no stage is built as the last one: what the building
  -- of stages does with `last_stage`, the commit of the last node among it, has no part in the
  -- outcome of Execute.
  pub execute_target :
      (before : List ops.Stage) (stage next : ops.Stage) (after : List ops.Stage) (target : Bytes)
      (replicas : List Bytes) (w : ops.World)
      → bytes_eq opts.stage_target [] ≡ false
      → ops.alias stage ≡ opts.stage_target
      → execute ops build opts (before ++ stage ∷ next ∷ after) target replicas w
        ≡ execute ops build' opts (before ++ stage ∷ next ∷ after) target replicas w
  unfolding execute
  execute_target before stage next after target replicas w given is =
      rw (execute_stages-agree (ops.environ w) none before stage next after w given is) refl
