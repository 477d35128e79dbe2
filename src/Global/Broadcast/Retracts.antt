-- ===== src/Global/Broadcast/Retracts.antt =====
-- What is left of a retraction of core/global_truth.go in the engine of a subscriber that has the fact.
use velarix.Prelude.{
  String, ◌≡◌, ◌≢◌, inl, inr, refl, ap, ◌∙◌, true, Option, none, some, [], ◌∷◌, ◌==◌, eq_iff,
  eq_refl, arith, lookup, lookup-insert, has, Bool-cases, Option-cases,
}
use velarix.Env.{Env}
use velarix.Engine.{Engine}
use velarix.Engine.Propagation.{propagate}
use velarix.Engine.Kept.{propagate_from-IsKept}
use velarix.Engine.Operations.{retract_fact, reason_or, has_reason, mark_retracted}
use velarix.Global.{kept}

has_reason_iff :
    (reason : String) (o : Option String) → has_reason reason o ≡ true → o ≡ some reason
unfolding has_reason
has_reason_iff reason none h = cc
has_reason_iff reason (some r) h = ap some ((eq_iff r reason).0 h)

-- Retracted, and nothing else of the marks is lost by what follows.
propagate-retracted :
    (env : Env) (e e' : Engine) (id reason : String)
    → propagate env (mark_retracted e id reason) (id ∷ []) ≡ some e'
    → lookup id e'.retracted_facts ≡ some reason
unfolding propagate mark_retracted
propagate-retracted env e e' id reason ends =
    let same =
      (propagate_from-IsKept env env.fuel (mark_retracted e id reason) e' (id ∷ [])
        ends).retracted in
    ap (lookup id) same ∙ ground (arith, lookup-insert id id reason e.retracted_facts, eq_refl id)

-- The fact is retracted for the reason that was given.
pub retract_fact-retracts :
    (env : Env) (e : Engine) (id given : String)
    → has id e.facts ≡ true
    → kept (retract_fact env e id given) ≢ none
    → (e' : Engine) × (kept (retract_fact env e id given) ≡ some e')
      × (lookup id e'.retracted_facts ≡ some (reason_or "retracted" given))
unfolding retract_fact
retract_fact-retracts env e id given there steps =
    let reason = reason_or "retracted" given in
    let marked = mark_retracted e id reason in
    elim (Bool-cases (has_reason reason (lookup id e.retracted_facts))) [
      | inl already ↦
          (e, rw (there, already) refl, has_reason_iff reason (lookup id e.retracted_facts) already)
      | inr fresh ↦ elim (Option-cases (propagate env marked (id ∷ []))) [
        | inl endless ↦ absurd (steps (rw (there, fresh, endless) refl))
        | inr (e', ends) ↦
            (e', rw (there, fresh, ends) refl, propagate-retracted env e e' id reason ends)
      ]
    ]

pub reason_or_twice :
    (given : String)
    → reason_or "retracted" (reason_or "global_retract" given) ≡ reason_or "global_retract" given
reason_or_twice given = elim (Bool-cases (given == "")) [
  | inl empty ↦ rw empty refl
  | inr other ↦ rw (other, other) refl
]
