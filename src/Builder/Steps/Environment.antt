-- ===== src/Builder/Steps/Environment.antt =====
-- The environment of an image, through the steps of a stage.
use makisu.Base.{
  Bool, true, ◌&&◌, Option, some, none, List, [], ◌∷◌, ◌≡◌, ◌∙◌, refl, sym, ap, arith, Bytes, Dict,
  lookup, insert, insert_all, lookup-insert, Option-cases, Bool-cases, inl, inr,
}
use mathlib.Core.Option.{some-injective}
use makisu.Text.{ℤ}
use makisu.Env.{convert_string_slice_to_map}
use makisu.Env.Merged.{has_no_equals, all_keys, merge_env-lookup}
use makisu.Builder.Steps.{
  Config, StepContext, Step, arg, cmd, entrypoint, env, expose, healthcheck, label, maintainer,
  stopsignal, user, volume, workdir, other, expand_values, new_working_dir, update_config,
  update_ctx_and_config, update_all,
}

-- What one step makes of the map of the environment.
abbrev envs_of : Step → Option (Dict Bytes)
envs_of step = elim step [ env envs ↦ some envs | _ ↦ none ]

abbrev pub assigned : (Bytes → Bytes) → Step → Dict Bytes → Dict Bytes
assigned expand step d = elim (envs_of step) [
  | none ↦ d
  | some envs ↦ insert_all (expand_values expand envs) d
]

-- The map that the steps ENV make, in their order, of a map from before.
abbrev pub assign_all : List ((Bytes → Bytes) × Step) → Dict Bytes → Dict Bytes
assign_all [] d = d
assign_all ((expand, step) ∷ steps) d = assign_all steps (assigned expand step d)

-- Every key of an ENV step is without an equals sign.
abbrev pub has_clean_keys : Step → Bool
has_clean_keys step = elim step [ env envs ↦ all_keys has_no_equals envs | _ ↦ true ]

abbrev pub all_clean : List ((Bytes → Bytes) × Step) → Bool
all_clean [] = true
all_clean ((expand, step) ∷ steps) = has_clean_keys step && all_clean steps

all_keys-expand_values :
    (expand : Bytes → Bytes) (m : Dict Bytes)
    → all_keys has_no_equals m ≡ true
    → all_keys has_no_equals (expand_values expand m) ≡ true
unfolding expand_values
all_keys-expand_values expand [] h = refl
all_keys-expand_values expand ((k, v) ∷ m) h = ground (arith, all_keys-expand_values expand m, h)

-- Two maps that say the same, with the same entries put into them, say the same.
lookup-insert_all :
    (m d e : Dict Bytes)
    → ((k : Bytes) → lookup k d ≡ lookup k e)
    → (k : Bytes) → lookup k (insert_all m d) ≡ lookup k (insert_all m e)
unfolding insert_all
lookup-insert_all [] d e same k = same k
lookup-insert_all ((j, v) ∷ m) d e same k =
    lookup-insert_all m (insert j v d) (insert j v e)
      (λ i. ground (arith, lookup-insert j i v d, lookup-insert j i v e, same i)) k

lookup-assigned :
    (expand : Bytes → Bytes) (step : Step) (d e : Dict Bytes)
    → ((k : Bytes) → lookup k d ≡ lookup k e)
    → (k : Bytes) → lookup k (assigned expand step d) ≡ lookup k (assigned expand step e)
lookup-assigned expand step d e same k = elim (Option-cases (envs_of step)) [
  | inl no_envs ↦ rw (assigned, no_envs) (same k)
  | inr (envs, sets) ↦
      rw (assigned, sets) (lookup-insert_all (expand_values expand envs) d e same k)
]

lookup-assign_all :
    (steps : List ((Bytes → Bytes) × Step)) (d e : Dict Bytes)
    → ((k : Bytes) → lookup k d ≡ lookup k e)
    → (k : Bytes) → lookup k (assign_all steps d) ≡ lookup k (assign_all steps e)
lookup-assign_all [] d e same k = same k
lookup-assign_all ((expand, step) ∷ steps) d e same k =
    lookup-assign_all steps (assigned expand step d) (assigned expand step e)
      (lookup-assigned expand step d e same) k

same-env :
    {c c' : Config} (k : Bytes)
    → ◌≡◌ {A = Option Config} (some c) (some c')
    → lookup k (convert_string_slice_to_map c'.env) ≡ lookup k (convert_string_slice_to_map c.env)
same-env {c} {c'} k e =
    ap (λ x. lookup k (convert_string_slice_to_map x.env)) (sym (some-injective c c' e))

module _ (copy_config : Config → Option Config) (itoa : ℤ → Bytes) (has_dir : Bytes → Bool) where
  update_config-assigned :
      (expand : Bytes → Bytes) (ctx : StepContext) (step : Step) (c : Config) {c' : Config}
      (k : Bytes)
      → has_clean_keys step ≡ true
      → update_config copy_config itoa has_dir expand ctx step c ≡ some c'
      → lookup k (convert_string_slice_to_map c'.env)
        ≡ lookup k (assigned expand step (convert_string_slice_to_map c.env))
  unfolding update_config
  update_config-assigned expand ctx (env envs) c {c'} k clean e =
      same-env k e
      ∙ merge_env-lookup c.env (expand_values expand envs) k
          (all_keys-expand_values expand envs clean)
  update_config-assigned expand ctx (arg name val) c k clean e = same-env k e
  update_config-assigned expand ctx (cmd words) c k clean e = same-env k e
  update_config-assigned expand ctx (entrypoint words) c k clean e = same-env k e
  update_config-assigned expand ctx (expose ports) c k clean e = same-env k e
  update_config-assigned expand ctx (healthcheck h) c k clean e = same-env k e
  update_config-assigned expand ctx (label labels) c k clean e = same-env k e
  update_config-assigned expand ctx (maintainer author) c k clean e = same-env k e
  update_config-assigned expand ctx (stopsignal signal) c k clean e = same-env k e
  update_config-assigned expand ctx (user name) c k clean e = same-env k e
  update_config-assigned expand ctx (volume volumes) c k clean e = same-env k e
  update_config-assigned expand ctx (workdir dir) c k clean e =
      elim (Bool-cases (has_dir (new_working_dir ctx.root_dir c.working_dir (expand dir)))) [
        | inl made ↦ same-env k (rw (update_config, made) at e)
        | inr failed ↦ absurd (ground (arith, rw (update_config, failed) at e))
      ]
  update_config-assigned expand ctx other c k clean e = same-env k e

  update_ctx_and_config-update_config :
      ((c : Config) → copy_config c ≡ some c)
      → (expand : Bytes → Bytes) (step : Step) (ctx : StepContext) (c : Config)
        {s : StepContext × Config}
      → update_ctx_and_config copy_config itoa has_dir expand step (ctx, c) ≡ some s
      → update_config copy_config itoa has_dir expand ctx step c ≡ some s.1
  unfolding update_ctx_and_config
  update_ctx_and_config-update_config copies expand step ctx c {s} e =
      elim (Option-cases (update_config copy_config itoa has_dir expand ctx step c)) [
        | inl failed ↦ absurd (ground (arith, rw (update_ctx_and_config, copies c, failed) at e))
        | inr (c1, done) ↦
            done
            ∙ ap (λ x. some x.1)
                (some-injective _ s (rw (update_ctx_and_config, copies c, done) at e))
      ]

  -- Where no step fails, the environment that the steps of a stage leave reads back as the one from
  -- before with the expanded values of the ENV steps put into it in order, if the keys of those
  -- steps are without an equals sign and the copy of a configuration is that configuration.
  pub update_all-assign_all :
      ((c : Config) → copy_config c ≡ some c)
      → (steps : List ((Bytes → Bytes) × Step)) (ctx : StepContext) (c : Config)
        {ctx' : StepContext} {c' : Config}
      → (k : Bytes) → all_clean steps ≡ true
      → update_all copy_config itoa has_dir steps (ctx, c) ≡ some (ctx', c')
      → lookup k (convert_string_slice_to_map c'.env)
        ≡ lookup k (assign_all steps (convert_string_slice_to_map c.env))
  unfolding update_all
  update_all-assign_all copies [] ctx c k clean e =
      ap (λ x. lookup k (convert_string_slice_to_map (x.1).env)) (sym (some-injective _ _ e))
  update_all-assign_all copies ((expand, step) ∷ steps) ctx c k clean e =
      elim (Option-cases (update_ctx_and_config copy_config itoa has_dir expand step (ctx, c))) [
        | inl failed ↦ absurd (ground (arith, rw (failed, update_all) at e))
        | inr ((ctx1, c1), done) ↦
            update_all-assign_all copies steps ctx1 c1 k (ground (arith, clean))
              (rw (done, update_all) at e)
            ∙ lookup-assign_all steps (convert_string_slice_to_map c1.env)
                (assigned expand step (convert_string_slice_to_map c.env))
                (λ j.
                  update_config-assigned expand ctx step c j (ground (arith, clean))
                    (update_ctx_and_config-update_config copies expand step ctx c done))
                k
      ]
