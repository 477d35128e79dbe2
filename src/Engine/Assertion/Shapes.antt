-- ===== src/Engine/Assertion/Shapes.antt =====
-- Propagation (`propagate` of core/engine.go) changes no more of a set than its computed fields.
use mathlib.Core.Path.{subst}
use velarix.Prelude.{
  ℕ, zero, suc, String, ◌≡◌, inl, inr, refl, sym, ap, ◌∙◌, Option, none, some, List, [], ◌∷◌, ◌++◌,
  ◌==◌, eq_iff, arith, lookup, lookup-insert, eqb, Bool-cases, Option-cases,
}
use velarix.Env.{Env}
use velarix.Fact.{Fact, JustificationSet, invalid}
use velarix.Engine.{Engine, children, reevaluate, notify}
use velarix.Engine.Propagation.{
  resolve, refresh_set, refresh_sets, visit_fact, visit, propagate_from,
}

-- A set without its computed fields.
abbrev pub shape : JustificationSet → JustificationSet
shape js = record js { current_valid_parents = 0; confidence = invalid }

abbrev pub bare_set : Option JustificationSet → Option JustificationSet
bare_set none = none
bare_set (some js) = some (shape js)

-- The same sets, up to their computed fields.
abbrev pub AreSame : Engine → Engine → Type 0
AreSame e e' =
    (j : String)
    → bare_set (lookup j e'.justification_sets) ≡ bare_set (lookup j e.justification_sets)

pub reevaluate-shape :
    (env : Env) (e : Engine) (js : JustificationSet) (f : Fact)
    → shape (reevaluate env e js f) ≡ shape js
unfolding reevaluate
reevaluate-shape env e js f = refl

refresh_set-AreSame : (env : Env) (e : Engine) (j : String) → AreSame e (refresh_set env e j).0
unfolding refresh_set
refresh_set-AreSame env e j = elim (Option-cases (lookup j e.justification_sets)) [
  | inl gone ↦ rw (gone, refresh_set) (λ k. refl)
  | inr (js, at_j) ↦ elim (Option-cases (lookup js.child_fact_id e.facts)) [
    | inl gone ↦ rw (at_j, gone, refresh_set) (λ k. refl)
    | inr (child, at_c) ↦
        let js' = reevaluate env e js child in
        rw (at_j, at_c, refresh_set)
          (λ k. elim (Bool-cases (j == k)) [
            | inr other ↦ rw (lookup-insert j k js' e.justification_sets, other) refl
            | inl same ↦
                let at_k : lookup k e.justification_sets ≡ some js =
                  ap (λ i. lookup i e.justification_sets) (sym ((eq_iff j k).0 same)) ∙ at_j in
                rw (lookup-insert j k js' e.justification_sets, same, at_k)
                  (ap some (reevaluate-shape env e js child))
          ])
  ]
]

refresh_sets-AreSame :
    (env : Env) (js : List String) (e : Engine) → AreSame e (refresh_sets env e js).0
unfolding refresh_sets
refresh_sets-AreSame env [] e = λ k. refl
refresh_sets-AreSame env (j ∷ js) e =
    λ k. refresh_sets-AreSame env js (refresh_set env e j).0 k ∙ refresh_set-AreSame env e j k

visit_fact-AreSame :
    (env : Env) (n : ℕ) (x : String) (e : Engine) (o : Option Fact)
    → AreSame e (visit_fact env n e x o).0
unfolding visit_fact notify
visit_fact-AreSame env n x e none = λ k. refl
visit_fact-AreSame env n x e (some f) = elim (Bool-cases (eqb (resolve e f) f.derived_status)) [
  | inl same ↦ rw (same, visit_fact) (λ k. refl)
  | inr changed ↦ rw (changed, visit_fact) (refresh_sets-AreSame env (env.range n (children e x)) _)
]

pub propagate_from-AreSame :
    (env : Env) (n : ℕ) (e e' : Engine) (queue : List String)
    → propagate_from env n e queue ≡ some e'
    → AreSame e e'
unfolding propagate_from visit
propagate_from-AreSame env zero e e' [] h =
    subst (AreSame e) {x = e} {y = e'} (ground arith) (λ k. refl)
propagate_from-AreSame env (suc n) e e' [] h =
    subst (AreSame e) {x = e} {y = e'} (ground arith) (λ k. refl)
propagate_from-AreSame env zero e e' (x ∷ queue) h = cc
propagate_from-AreSame env (suc n) e e' (x ∷ queue) h = λ k.
    propagate_from-AreSame env n (visit env n e x).0 e' (queue ++ (visit env n e x).1) h k
    ∙ visit_fact-AreSame env n x e (lookup x e.facts) k
