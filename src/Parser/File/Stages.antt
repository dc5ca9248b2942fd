-- ===== src/Parser/File/Stages.antt =====
-- What the steps of the parser keep: the arguments, the stages already there, and their shape.
use makisu.Base.{
  ℕ, ◌+◌, Bool, true, false, not, some, List, [], ◌∷◌, ◌++◌, ◌≡◌, refl, sym, ap, ◌∙◌, arith, Bytes,
  ok, Dict, bind-eq-ok, append-nil, append_assoc, all, all-snoc,
}
use makisu.Parser.Directive.{Directive, ParsingState, Stage, Decoders, from, add}
use makisu.Parser.Update.{add_to_last}
use makisu.Parser.File.{parse_line, parse_lines}
use makisu.Parser.File.Steps.{
  is_started, IsWellFormed, is_plain, Step, skip, declare_global, open_stage, declare, assign,
  extend, parse_line-Step,
}

-- The list begins with the other.
abbrev pub Begins : List Directive → List Directive → Type 0
Begins xs ys = (zs : List Directive) × (ys ≡ xs ++ zs)

-- How stages may grow: the last may get more directives, and more stages may follow; all else stays.
abbrev pub Grows : List Stage → List Stage → Type 0
Grows [] ys = Unit
Grows (x ∷ xs) [] = ⊥
Grows (x ∷ []) (y ∷ ys) = (x.from_directive ≡ y.from_directive) × Begins x.directives y.directives
Grows (x ∷ x' ∷ xs) (y ∷ ys) = (x ≡ y) × Grows (x' ∷ xs) ys

Grows-refl : (xs : List Stage) → Grows xs xs
Grows-refl [] = tt
Grows-refl (x ∷ []) = (refl, ([], sym (append-nil x.directives)))
Grows-refl (x ∷ y ∷ xs) = (refl, Grows-refl (y ∷ xs))

Grows-append : (xs ys : List Stage) → Grows xs (xs ++ ys)
Grows-append [] ys = tt
Grows-append (x ∷ []) ys = (refl, ([], sym (append-nil x.directives)))
Grows-append (x ∷ y ∷ xs) ys = (refl, Grows-append (y ∷ xs) ys)

Grows-add_to_last : (d : Directive) (xs : List Stage) → Grows xs (add_to_last d xs)
unfolding add_to_last
Grows-add_to_last d [] = tt
Grows-add_to_last d (x ∷ []) = (refl, (d ∷ [], refl))
Grows-add_to_last d (x ∷ y ∷ xs) = (refl, Grows-add_to_last d (y ∷ xs))

Begins-trans : (xs ys zs : List Directive) → Begins xs ys → Begins ys zs → Begins xs zs
Begins-trans xs ys zs (more, e) (yet, f) =
    (more ++ yet, f ∙ ap (λ l. l ++ yet) e ∙ append_assoc xs more yet)

Grows-trans : (xs ys zs : List Stage) → Grows xs ys → Grows ys zs → Grows xs zs
Grows-trans [] ys zs h k = tt
Grows-trans (x ∷ xs) [] zs h k = absurd h
Grows-trans (x ∷ []) (y ∷ []) [] h k = elim k [ ]
Grows-trans (x ∷ []) (y ∷ y' ∷ ys) [] h k = elim k [ ]
Grows-trans (x ∷ []) (y ∷ []) (z ∷ zs) h k =
    (h.0 ∙ k.0, Begins-trans x.directives y.directives z.directives h.1 k.1)
Grows-trans (x ∷ []) (y ∷ y' ∷ ys) (z ∷ zs) h k = rw (← k.0) h
Grows-trans (x ∷ x' ∷ xs) (y ∷ []) [] h k = elim k [ ]
Grows-trans (x ∷ x' ∷ xs) (y ∷ y' ∷ ys) [] h k = elim k [ ]
Grows-trans (x ∷ x' ∷ xs) (y ∷ []) (z ∷ zs) h k = absurd h.1
Grows-trans (x ∷ x' ∷ xs) (y ∷ y' ∷ ys) (z ∷ zs) h k =
    (h.0 ∙ k.0, Grows-trans (x' ∷ xs) (y' ∷ ys) zs h.1 k.1)

-- No directive of a stage is FROM: the one that opened it stands apart.
abbrev pub is_from : Directive → Bool
is_from (from d) = true
is_from (add d) = false
is_from _ = false

abbrev pub has_no_from : Stage → Bool
has_no_from s = all (λ d. not (is_from d)) s.directives

-- What a run of the parser keeps.
pub record Keeps (st st' : ParsingState) : Type 0 where
  pub well_formed : IsWellFormed st'
  pub grows : Grows st.stages st'.stages
  pub passed : st'.passed_args ≡ st.passed_args
  pub started : is_started st.stages ≡ true → is_started st'.stages ≡ true
  pub globals : is_started st.stages ≡ true → st'.global_args ≡ st.global_args
  pub no_from : all has_no_from st.stages ≡ true → all has_no_from st'.stages ≡ true

is_started-add_to_last :
    (d : Directive) (xs : List Stage) → is_started (add_to_last d xs) ≡ is_started xs
unfolding add_to_last
is_started-add_to_last d [] = refl
is_started-add_to_last d (x ∷ []) = refl
is_started-add_to_last d (x ∷ y ∷ xs) = refl

is_started-append : (xs : List Stage) (y : Stage) → is_started (xs ++ y ∷ []) ≡ true
is_started-append [] y = refl
is_started-append (x ∷ xs) y = refl

no_from-add_to_last :
    (d : Directive) (xs : List Stage)
    → is_from d ≡ false
    → all has_no_from xs ≡ true
    → all has_no_from (add_to_last d xs) ≡ true
unfolding add_to_last
no_from-add_to_last d [] e h = refl
no_from-add_to_last d (x ∷ []) e h =
    ground (arith, all-snoc (λ (a : Directive). not (is_from a)) x.directives d)
no_from-add_to_last d (x ∷ y ∷ xs) e h = ground (arith, no_from-add_to_last d (y ∷ xs) e)

is_plain-is_from : (d : Directive) → is_plain d ≡ true → is_from d ≡ false
is_plain-is_from (from d) h = ground arith
is_plain-is_from _ h = refl

Keeps-refl : (st : ParsingState) → IsWellFormed st → Keeps st st
Keeps-refl st w = record {
  well_formed = w;
  grows = Grows-refl st.stages;
  passed = refl;
  started = λ h. h;
  globals = λ h. refl;
  no_from = λ h. h;
}

Keeps-trans : {s t u : ParsingState} → Keeps s t → Keeps t u → Keeps s u
Keeps-trans {s} {t} {u} h k = record {
  well_formed = k.well_formed;
  grows = Grows-trans s.stages t.stages u.stages h.grows k.grows;
  passed = k.passed ∙ h.passed;
  started = λ e. k.started (h.started e);
  globals = λ e. k.globals (h.started e) ∙ h.globals e;
  no_from = λ e. k.no_from (h.no_from e);
}

-- A directive added to the stage, with new stage variables.
Keeps-added :
    (st : ParsingState) (d : Directive) (vars : Dict Bytes)
    → is_from d ≡ false
    → is_started st.stages ≡ true
    → Keeps st (record st { stages = add_to_last d st.stages; stage_vars = some vars })
Keeps-added st d vars e s = record {
  well_formed = is_started-add_to_last d st.stages ∙ s;
  grows = Grows-add_to_last d st.stages;
  passed = refl;
  started = λ h. is_started-add_to_last d st.stages ∙ s;
  globals = λ h. refl;
  no_from = no_from-add_to_last d st.stages e;
}

pub Step-Keeps : {st st' : ParsingState} → IsWellFormed st → Step st st' → Keeps st st'
Step-Keeps {st} w (skip e) = rw e (Keeps-refl st w)
Step-Keeps {st} w (declare_global d s e) = rw e (record {
  well_formed = w;
  grows = Grows-refl st.stages;
  passed = refl;
  started = λ h. h;
  globals = λ h. absurd (ground arith);
  no_from = λ h. h;
})
Step-Keeps {st} w (open_stage d e) = rw e (record {
  well_formed = is_started-append st.stages _;
  grows = Grows-append st.stages _;
  passed = refl;
  started = λ h. is_started-append st.stages _;
  globals = λ h. refl;
  no_from = λ h. all-snoc has_no_from st.stages _ h refl;
})
Step-Keeps {st} w (declare d r vars vars' s v l e) = rw e (Keeps-added st _ vars' refl s)
Step-Keeps {st} w (assign base envs vars s v e) = rw e (Keeps-added st _ _ refl s)
Step-Keeps {st} w (extend d p s e) = rw e (record {
  well_formed = is_started-add_to_last d st.stages ∙ w;
  grows = Grows-add_to_last d st.stages;
  passed = refl;
  started = λ h. is_started-add_to_last d st.stages ∙ s;
  globals = λ h. refl;
  no_from = no_from-add_to_last d st.stages (is_plain-is_from d p);
})

-- From a well-formed state, a run over any lines that succeeds ends in a well-formed state; the
-- stages before the last are unchanged, the last has its FROM and its directives, perhaps with more
-- behind them, and perhaps more stages follow; no stage gets a FROM among its directives; the passed
-- arguments never change, nor the global ones once there is a stage.
pub parse_lines-Keeps :
    (dec : Decoders) (texts : List Bytes) (count : ℕ) (st : ParsingState) {st' : ParsingState}
    → IsWellFormed st
    → parse_lines dec count texts st ≡ ok st'
    → Keeps st st'
unfolding parse_lines
parse_lines-Keeps dec [] count st {st'} w h =
    let e : st ≡ st' = ground arith in rw (← e) (Keeps-refl st w)
parse_lines-Keeps dec (text ∷ texts) count st w h =
    let (mid, now, later) =
      bind-eq-ok (parse_line dec (count + 1) text st) (λ s. parse_lines dec (count + 1) texts s)
        h in
    let first = Step-Keeps w (parse_line-Step dec (count + 1) text st w now) in
    Keeps-trans first (parse_lines-Keeps dec texts (count + 1) mid first.well_formed later)
