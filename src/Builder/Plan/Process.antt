-- ===== src/Builder/Plan/Process.antt =====
-- The processing of the stages of a Dockerfile: the plan that it makes is in order.
use makisu.Base.{
  ℕ, ◌+◌, true, not, ◌&&◌, List, [], ◌∷◌, ◌++◌, ◌≡◌, refl, ◌∙◌, arith, ltb, Bytes, ok, Result-cases,
  Bool-cases, guard, bind-eq-ok, inl, inr, Dict, length,
}
use makisu.Parser.Directive.{Stage}
use makisu.Builder.Plan.{
  BuildPlan, BuildPlanOptions, BuildStage, must_allow_modify_fs, PlanStep, StepFactory, member,
  context_dirs_of, new_build_stage_helper, new_build_stage, new_remote_image_stage, add_copy_from,
  add_copy_froms, alias_of, add_stage, add_stages, process_stages_and_aliases,
}
use makisu.Builder.Plan.Order.{
  is_ordered, copies_from, seen_in, cons-Within, member_second, Inv, Grows, same-Grows, seen_snoc,
  more-Grows, IsBuilt, placed-IsBuilt,
}

-- A step of FROM copies nothing from other stages.
abbrev pub CopiesNothing : StepFactory → Type 0
CopiesNothing factory =
    (image seed : Bytes) (s : PlanStep)
    → factory.new_from_step image seed ≡ ok s
    → s.context_dirs ≡ []

module _ (factory : StepFactory) (opts : BuildPlanOptions) where
  open factory use {Error, new_dockerfile_step, new_from_step}

  new_remote_image_stage-eq-ok :
      (alias seed : Bytes) {s : BuildStage}
      → CopiesNothing factory
      → new_remote_image_stage factory opts alias seed ≡ ok s
      → (s.alias ≡ alias) × (s.copy_from_dirs ≡ [])
  unfolding new_remote_image_stage new_build_stage_helper context_dirs_of
  new_remote_image_stage-eq-ok alias seed {s} c h = elim (Result-cases (new_from_step alias seed)) [
    | inl (step, e) ↦ let n = c alias seed step e in ground (arith, e, n, h)
    | inr (x, e) ↦ ground (arith, e, h)
  ]

  new_build_stage-alias :
      (alias seed : Bytes) (base : _) (ds : _) {s : BuildStage}
      → new_build_stage factory opts alias seed base ds ≡ ok s
      → s.alias ≡ alias
  unfolding new_build_stage new_build_stage_helper
  new_build_stage-alias alias seed base ds h = ground (arith, h)

  add_copy_from-Grows :
      (a alias : Bytes) (dirs : List Bytes) (p : BuildPlan) {p' : BuildPlan}
      → CopiesNothing factory
      → Inv a p
      → add_copy_from factory opts alias dirs p ≡ ok p'
      → Grows a p p' × (member alias (a ∷ seen_in p') ≡ true)
  unfolding add_copy_from
  add_copy_from-Grows a alias dirs p {p'} c i h = elim (Bool-cases (member alias p.stage_aliases)) [
    | inl known ↦
        let g = same-Grows a p p' (ground (arith, known, h)) (ground (arith, known, h)) i in
        (g, g.inv.known alias (rw g.aliases known))
    | inr new ↦ elim (Result-cases (new_remote_image_stage factory opts alias p.seed)) [
      | inl (s, e) ↦
          let (named, none_copied) = new_remote_image_stage-eq-ok alias p.seed c e in
          let st : p'.stages ≡ p.stages ++ s ∷ [] = ground (arith, new, e, h) in
          (
            more-Grows a p p' s st (ground (arith, new, e, h)) (rw none_copied refl) i,
            rw (seen_snoc p p' s st) (member_second a s.alias alias (seen_in p) named),
          )
      | inr (x, e) ↦ absurd (ground (arith, new, e, h))
    ]
  ]

  add_copy_froms-Grows :
      (a : Bytes) (m : Dict (List Bytes)) (p : BuildPlan) {p' : BuildPlan}
      → CopiesNothing factory
      → Inv a p
      → add_copy_froms factory opts m p ≡ ok p'
      → Grows a p p' × (copies_from (a ∷ seen_in p') m ≡ true)
  unfolding add_copy_froms
  add_copy_froms-Grows a [] p {p'} c i h =
      let e : p ≡ p' = ground (arith, h) in (same-Grows a p p' (rw e refl) (rw e refl) i, refl)
  add_copy_froms-Grows a ((alias, dirs) ∷ m) p {p'} c i h =
      let (mid, now, later) =
        bind-eq-ok (add_copy_from factory opts alias dirs p) (λ q. add_copy_froms factory opts m q)
          h in
      let (g, first) = add_copy_from-Grows a alias dirs p c i now in
      let (g', others) = add_copy_froms-Grows a m mid c g.inv later in
      (
        record {
          inv = g'.inv;
          seen = λ k e. g'.seen k (g.seen k e);
          aliases = g'.aliases ∙ g.aliases;
        },
        rw (cons-Within a (seen_in mid) (seen_in p') g'.seen alias first) others,
      )

  add_stage-IsBuilt :
      (n : ℕ) (parsed : Stage) (p : BuildPlan) {p' : BuildPlan}
      → CopiesNothing factory
      → IsBuilt p
      → add_stage factory opts n parsed p ≡ ok p'
      → IsBuilt p'
  unfolding add_stage
  add_stage-IsBuilt n parsed p {p'} c i h =
      let (alias, e, h1) =
        bind-eq-ok (alias_of factory opts n parsed.from_directive.alias p.stage_aliases) _ h in
      let (s, f, h2) =
        bind-eq-ok
          (new_build_stage factory opts alias p.seed
            (record parsed.from_directive { alias = alias }) parsed.directives)
          _ h1 in
      let (u, g, h3) =
        bind-eq-ok
          (guard (not (ltb 0 (length s.copy_from_dirs) && not opts.allow_modify_fs))
            must_allow_modify_fs)
          _ h2 in
      let (q, k, h4) =
        bind-eq-ok
          (add_copy_froms factory opts s.copy_from_dirs
            (record p { stage_aliases = alias ∷ p.stage_aliases }))
          _ h3 in
      let start : Inv alias (record p { stage_aliases = alias ∷ p.stage_aliases }) = record {
        built = i.built;
        known = cons-Within alias p.stage_aliases (seen_in p) i.known;
      } in
      let (grown, copies) = add_copy_froms-Grows alias s.copy_from_dirs _ c start k in
      placed-IsBuilt alias q p' s (ground (arith, h4)) (ground (arith, h4))
        (new_build_stage-alias alias p.seed _ _ f) copies grown.inv

  add_stages-IsBuilt :
      (n : ℕ) (parsed : List Stage) (p : BuildPlan) {p' : BuildPlan}
      → CopiesNothing factory
      → IsBuilt p
      → add_stages factory opts n parsed p ≡ ok p'
      → IsBuilt p'
  unfolding add_stages
  add_stages-IsBuilt n [] p {p'} c i h = let e : p ≡ p' = ground (arith, h) in rw (← e) i
  add_stages-IsBuilt n (d ∷ ds) p c i h =
      let (mid, now, later) =
        bind-eq-ok (add_stage factory opts n d p) (λ q. add_stages factory opts (n + 1) ds q) h in
      add_stages-IsBuilt (n + 1) ds mid c (add_stage-IsBuilt n d p c i now) later

  -- Where the step of FROM copies nothing: in the plan that is made of any parsed stages, each stage
  -- copies only from stages in front of it, which are built before it, or from itself; an image that
  -- is copied from has a stage of its own in front.
  pub process_stages-is_ordered :
      (seed stage_target : Bytes) (parsed : List Stage) {p : BuildPlan}
      → CopiesNothing factory
      → process_stages_and_aliases factory opts seed stage_target parsed ≡ ok p
      → is_ordered [] p.stages ≡ true
  unfolding process_stages_and_aliases
  process_stages-is_ordered seed stage_target parsed {p} c h =
      let (q, e, h1) = bind-eq-ok (add_stages factory opts 0 parsed _) _ h in
      let same : q ≡ p = ground (arith, h1) in
      let start : IsBuilt
          (record { stages = []; copy_from_dirs = []; stage_aliases = []; seed = seed }) =
        record { built = refl; known = λ k m. m } in
      rw (← same) (add_stages-IsBuilt 0 parsed _ c start e).built
