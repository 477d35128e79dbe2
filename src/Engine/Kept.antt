-- ===== src/Engine/Kept.antt =====
-- What propagation leaves alone: all but the computed fields of facts and sets and the events.
use mathlib.Core.Path.{subst}
use velarix.Prelude.{
  ℕ, zero, suc, String, ◌≡◌, inl, inr, refl, sym, ap, ◌∙◌, ◌||◌, Option, none, some, List, [], ◌∷◌,
  ◌++◌, ◌==◌, eq_iff, arith, eqb, lookup, insert, has, lookup-insert, Bool-cases, Option-cases,
}
use velarix.Env.{Env}
use velarix.Fact.{Fact}
use velarix.Engine.{Engine, Listener, children, notify}
use velarix.Engine.Propagation.{
  resolve, recounted, refresh_set, refresh_sets, visit_fact, visit, propagate_from,
}
use velarix.Engine.Frame.{written}

-- A fact without its computed fields.
abbrev pub bare : Option Fact → Option Fact
bare none = none
bare (some f) = some (written f 0 0)

pub record IsKept (e e' : Engine) : Type 0 where
  pub facts : (k : String) → bare (lookup k e'.facts) ≡ bare (lookup k e.facts)
  pub retracted : e'.retracted_facts ≡ e.retracted_facts
  pub children : e'.children_index ≡ e.children_index
  pub roots : e'.collapsed_roots ≡ e.collapsed_roots
  pub mutations : e'.mutation_count ≡ e.mutation_count
  pub dominators : e'.dirty_dominators ≡ e.dirty_dominators

IsKept-refl : (e : Engine) → IsKept e e
IsKept-refl e = record {
  facts = λ k. refl;
  retracted = refl;
  children = refl;
  roots = refl;
  mutations = refl;
  dominators = refl;
}

IsKept-trans : {e e' e'' : Engine} → IsKept e e' → IsKept e' e'' → IsKept e e''
IsKept-trans h k = record {
  facts = λ i. k.facts i ∙ h.facts i;
  retracted = k.retracted ∙ h.retracted;
  children = k.children ∙ h.children;
  roots = k.roots ∙ h.roots;
  mutations = k.mutations ∙ h.mutations;
  dominators = k.dominators ∙ h.dominators;
}

refresh_set-IsKept : (env : Env) (e : Engine) (j : String) → IsKept e (refresh_set env e j).0
unfolding refresh_set
refresh_set-IsKept env e j = elim (Option-cases (lookup j e.justification_sets)) [
  | inl gone ↦ rw (gone, refresh_set) (IsKept-refl e)
  | inr (js, at_j) ↦ elim (Option-cases (lookup js.child_fact_id e.facts)) [
    | inl gone ↦ rw (at_j, gone, refresh_set) (IsKept-refl e)
    | inr (child, at_c) ↦
        rw (at_j, at_c, refresh_set)
          (record {
            facts = λ k. refl;
            retracted = refl;
            children = refl;
            roots = refl;
            mutations = refl;
            dominators = refl;
          })
  ]
]

refresh_sets-IsKept :
    (env : Env) (js : List String) (e : Engine) → IsKept e (refresh_sets env e js).0
unfolding refresh_sets
refresh_sets-IsKept env [] e = IsKept-refl e
refresh_sets-IsKept env (j ∷ js) e =
    IsKept-trans (refresh_set-IsKept env e j) (refresh_sets-IsKept env js (refresh_set env e j).0)

-- A write of computed fields.
IsKept-write :
    (e : Engine) (x : String) (f g : Fact) (ls : List Listener)
    → lookup x e.facts ≡ some f
    → written g 0 0 ≡ written f 0 0
    → IsKept e (record e { facts = insert x g e.facts; listeners = ls })
IsKept-write e x f g ls there same = record {
  facts = λ k. elim (Bool-cases (x == k)) [
    | inl here ↦
        rw (lookup-insert x k g e.facts, here)
          (ap some same ∙ ap bare (sym there ∙ ap (λ q. lookup q e.facts) ((eq_iff x k).0 here)))
    | inr other ↦ rw (lookup-insert x k g e.facts, other)
  ];
  retracted = refl;
  children = refl;
  roots = refl;
  mutations = refl;
  dominators = refl;
}

bare-recounted : (e : Engine) (f : Fact) → written (recounted e f) 0 0 ≡ written f 0 0
unfolding recounted
bare-recounted e f = elim (Bool-cases (has f.id e.retracted_facts || f.is_root)) [
  | inl h ↦ rw h
  | inr h ↦ rw h
]

visit_fact-IsKept :
    (env : Env) (n : ℕ) (x : String) (e : Engine) (o : Option Fact)
    → lookup x e.facts ≡ o
    → IsKept e (visit_fact env n e x o).0
unfolding visit_fact notify
visit_fact-IsKept env n x e none gone = IsKept-refl e
visit_fact-IsKept env n x e (some f) there =
    elim (Bool-cases (eqb (resolve e f) f.derived_status)) [
      | inl same ↦
          rw (same, visit_fact)
            (IsKept-write e x f (recounted e f) e.listeners there (bare-recounted e f))
      | inr changed ↦
          rw (changed, visit_fact)
            (IsKept-trans
              (IsKept-write e x f (record (recounted e f) { derived_status = resolve e f })
                (notify env e f.id (resolve e f)).listeners there (bare-recounted e f))
              (refresh_sets-IsKept env (env.range n (children e x)) _))
    ]

-- A call of `propagate` that ends changes no field of a fact but its status and its count of valid
-- sets, adds and removes no fact, and changes neither the retracted facts, the children, the
-- collapsed roots, the count of mutations nor the mark of the dominators.
pub propagate_from-IsKept :
    (env : Env) (n : ℕ) (e e' : Engine) (queue : List String)
    → propagate_from env n e queue ≡ some e'
    → IsKept e e'
unfolding propagate_from visit
propagate_from-IsKept env zero e e' [] h = subst (IsKept e) (ground arith) (IsKept-refl e)
propagate_from-IsKept env (suc n) e e' [] h = subst (IsKept e) (ground arith) (IsKept-refl e)
propagate_from-IsKept env zero e e' (x ∷ queue) h = cc
propagate_from-IsKept env (suc n) e e' (x ∷ queue) h =
    IsKept-trans (visit_fact-IsKept env n x e (lookup x e.facts) refl)
      (propagate_from-IsKept env n (visit env n e x).0 e' (queue ++ (visit env n e x).1) h)
