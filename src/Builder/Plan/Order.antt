-- ===== src/Builder/Plan/Order.antt =====
-- The order of the stages of a build plan: what a stage copies from.
use makisu.Base.{
  Bool, true, ◌&&◌, List, [], ◌∷◌, ◌++◌, ◌≡◌, refl, arith, Bytes, bytes_eq_refl, Dict, all,
}
use makisu.Builder.Plan.{BuildPlan, BuildStage, member}

-- Every alias that the stage copies from is among these.
abbrev pub copies_from : List Bytes → Dict (List Bytes) → Bool
copies_from known = all (λ (e : Bytes × List Bytes). member e.0 known)

-- Each stage copies only from itself and from stages in front of it, or with these aliases.
abbrev pub is_ordered : List Bytes → List BuildStage → Bool
is_ordered seen [] = true
is_ordered seen (s ∷ ss) =
    copies_from (s.alias ∷ seen) s.copy_from_dirs && is_ordered (s.alias ∷ seen) ss

-- The aliases seen behind these stages.
abbrev pub seen_after : List Bytes → List BuildStage → List Bytes
seen_after seen [] = seen
seen_after seen (s ∷ ss) = seen_after (s.alias ∷ seen) ss

abbrev pub seen_in : BuildPlan → List Bytes
seen_in p = seen_after [] p.stages

is_ordered-snoc :
    (seen : List Bytes) (ss : List BuildStage) (s : BuildStage)
    → is_ordered seen ss ≡ true
    → copies_from (s.alias ∷ seen_after seen ss) s.copy_from_dirs ≡ true
    → is_ordered seen (ss ++ s ∷ []) ≡ true
is_ordered-snoc seen [] s h k = ground (arith, k)
is_ordered-snoc seen (t ∷ ss) s h k =
    let later = is_ordered-snoc (t.alias ∷ seen) ss s (ground (arith, h)) k in
    ground (arith, h, later)

seen_after-snoc :
    (seen : List Bytes) (ss : List BuildStage) (s : BuildStage)
    → seen_after seen (ss ++ s ∷ []) ≡ s.alias ∷ seen_after seen ss
seen_after-snoc seen [] s = refl
seen_after-snoc seen (t ∷ ss) s = seen_after-snoc (t.alias ∷ seen) ss s

abbrev pub Within : List Bytes → List Bytes → Type 0
Within xs ys = (k : Bytes) → member k xs ≡ true → member k ys ≡ true

pub cons-Within : (x : Bytes) (xs ys : List Bytes) → Within xs ys → Within (x ∷ xs) (x ∷ ys)
unfolding member
cons-Within x xs ys h k m = ground (arith, h k, m)

-- The plan while the stage with alias `a` is added: its stages are ordered, and every alias that it
-- knows is that of the stage or of one in the plan.
pub record Inv (a : Bytes) (p : BuildPlan) : Type 0 where
  pub built : is_ordered [] p.stages ≡ true
  pub known : Within p.stage_aliases (a ∷ seen_in p)

pub member_second : (a b k : Bytes) (xs : List Bytes) → b ≡ k → member k (a ∷ b ∷ xs) ≡ true
unfolding member
member_second a b k xs e = ground (arith, bytes_eq_refl k, e)

-- What the plan loses nothing of, and how the stage's sources become known.
pub record Grows (a : Bytes) (p p' : BuildPlan) : Type 0 where
  pub inv : Inv a p'
  pub seen : Within (seen_in p) (seen_in p')
  pub aliases : p'.stage_aliases ≡ p.stage_aliases

pub same-Grows :
    (a : Bytes) (p p' : BuildPlan)
    → p'.stages ≡ p.stages
    → p'.stage_aliases ≡ p.stage_aliases
    → Inv a p
    → Grows a p p'
same-Grows a p p' s e i = record {
  inv = record { built = rw s i.built; known = λ k m. rw s (i.known k (rw e at m)) };
  seen = λ k m. rw s m;
  aliases = e;
}

pub seen_snoc :
    (p p' : BuildPlan) (s : BuildStage)
    → p'.stages ≡ p.stages ++ s ∷ []
    → seen_in p' ≡ s.alias ∷ seen_in p
seen_snoc p p' s e = rw e (seen_after-snoc [] p.stages s)

pub more-Grows :
    (a : Bytes) (p p' : BuildPlan) (s : BuildStage)
    → p'.stages ≡ p.stages ++ s ∷ []
    → p'.stage_aliases ≡ p.stage_aliases
    → copies_from (s.alias ∷ seen_in p) s.copy_from_dirs ≡ true
    → Inv a p
    → Grows a p p'
unfolding member
more-Grows a p p' s st e c i =
    let seen : Within (seen_in p) (seen_in p') =
      λ k m. rw (seen_snoc p p' s st) (ground (arith, m)) in
    record {
      inv = record {
        built = rw st (is_ordered-snoc [] p.stages s i.built c);
        known = λ k m. cons-Within a (seen_in p) (seen_in p') seen k (i.known k (rw e at m));
      };
      seen = seen;
      aliases = e;
    }

-- Between two stages: no alias is known but those of the stages in the plan.
pub record IsBuilt (p : BuildPlan) : Type 0 where
  pub built : is_ordered [] p.stages ≡ true
  pub known : Within p.stage_aliases (seen_in p)

pub placed-IsBuilt :
    (alias : Bytes) (p p' : BuildPlan) (s : BuildStage)
    → p'.stages ≡ p.stages ++ s ∷ []
    → p'.stage_aliases ≡ p.stage_aliases
    → s.alias ≡ alias
    → copies_from (alias ∷ seen_in p) s.copy_from_dirs ≡ true
    → Inv alias p
    → IsBuilt p'
placed-IsBuilt alias p p' s st e a c i = record {
  built = rw st (is_ordered-snoc [] p.stages s i.built (rw a c));
  known = λ k m. rw (seen_snoc p p' s st, a) (i.known k (rw e at m));
}
