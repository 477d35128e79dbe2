-- ===== src/Engine/Impact/Growth.antt =====
-- What a round of the simulation of an impact adds.
use mathlib.Core.Path.{subst}
use velarix.Prelude.{
  ℕ, suc, ◌≤◌, ◌<◌, String, ◌≡◌, ◌⊎◌, inl, inr, refl, sym, false, ◌||◌, some, List, [], ◌∷◌, ◌++◌,
  ◌==◌, arith, if◌then◌else◌, ltb, eqb, contains, contains-cons, contains-append, contains-nil,
  eq_refl, length, lookup, insert, Map, Bool-cases,
}
use velarix.Fact.{JustificationSet, Status, threshold, invalid}
use velarix.Engine.{Engine}
use velarix.Engine.Impact.{
  Simulation, mark_child, simulate_child, simulate_set, simulate_justification_set,
  simulated_derived_status, value_at,
}

-- The sets whose child is not impacted yet.
unfoldable pub unaffected : List String → Map JustificationSet → ℕ
unaffected ids [] = 0
unaffected ids ((j, js) ∷ sets) =
    if contains ids js.child_fact_id then unaffected ids sets else suc (unaffected ids sets)

pub unaffected_bound :
    (ids : List String) (sets : Map JustificationSet) → unaffected ids sets ≤ length sets
unfolding unaffected
unaffected_bound ids [] = omega arith
unaffected_bound ids ((j, js) ∷ sets) = ground (arith, unaffected_bound ids sets)

pub contains-one :
    (ids : List String) (k x : String) → contains (ids ++ k ∷ []) x ≡ (contains ids x || k == x)
contains-one ids k x =
    ground (arith, contains-append ids (k ∷ []) x, contains-cons k [] x, contains-nil x)

pub unaffected_mono :
    (ids : List String) (k : String) (sets : Map JustificationSet)
    → unaffected (ids ++ k ∷ []) sets ≤ unaffected ids sets
unfolding unaffected
unaffected_mono ids k [] = omega arith
unaffected_mono ids k ((j, js) ∷ sets) =
    ground (arith, unaffected_mono ids k sets, contains-one ids k js.child_fact_id)

-- Each new id takes a set away.
pub unaffected_less :
    (ids : List String) (j : String) (js : JustificationSet) (sets : Map JustificationSet)
    → lookup j sets ≡ some js
    → contains ids js.child_fact_id ≡ false
    → unaffected (ids ++ js.child_fact_id ∷ []) sets < unaffected ids sets
unfolding unaffected lookup
unaffected_less ids j js [] at_j fresh = cc
unaffected_less ids j js ((i, is) ∷ sets) at_j fresh = elim (Bool-cases (i == j)) [
  | inl here ↦
      let same : is ≡ js = ground arith in
      subst
        (λ s.
          unaffected (ids ++ js.child_fact_id ∷ []) ((i, s) ∷ sets)
          < unaffected ids ((i, s) ∷ sets))
        (sym same)
        (ground (
          arith,
          unaffected_mono ids js.child_fact_id sets,
          contains-one ids js.child_fact_id js.child_fact_id,
          eq_refl js.child_fact_id,
        ))
  | inr other ↦ ground (
    arith,
    unaffected_less ids j js sets (ground arith) fresh,
    contains-one ids js.child_fact_id is.child_fact_id,
  )
]

-- A round on a set adds no id, or the child of the set, which then waits in the queue.
abbrev pub Grown : Simulation → String → Simulation × List String → Type 0
Grown s child r =
    ((r.0.impacted ≡ s.impacted) × (r.1 ≡ []))
    ⊎ ((contains s.impacted child ≡ false)
        × (r.0.impacted ≡ s.impacted ++ child ∷ [])
        × (r.1 ≡ child ∷ []))

pub mark_child-Grown :
    (child : String) (status : Status) (s : Simulation) → Grown s child (mark_child child status s)
unfolding mark_child
mark_child-Grown child status s = elim (Bool-cases (contains s.impacted child)) [
  | inl old ↦ elim (Bool-cases (ltb status threshold)) [
    | inl low ↦ rw (old, low) (inl (refl, refl))
    | inr high ↦ rw high (inl (refl, refl))
  ]
  | inr new ↦ elim (Bool-cases (ltb status threshold)) [
    | inl low ↦ inr (new, rw (low, new) refl, rw (low, new) refl)
    | inr high ↦ rw high (inl (refl, refl))
  ]
]

pub simulate_child-Grown :
    (e : Engine) (child : String) (s : Simulation) → Grown s child (simulate_child e child s)
unfolding simulate_child
simulate_child-Grown e child s =
    elim (Bool-cases
      (eqb (simulated_derived_status e child s.confidence) (value_at child s.status))) [
        | inl same ↦ rw same (inl (refl, refl))
        | inr changed ↦
            rw changed (mark_child-Grown child (simulated_derived_status e child s.confidence) s)
      ]

pub simulate_set-Grown :
    (now : ℕ) (e : Engine) (set_id : String) (js : JustificationSet) (s : Simulation)
    → Grown s js.child_fact_id (simulate_set now e set_id js s)
unfolding simulate_set
simulate_set-Grown now e set_id js s =
    let t = simulate_justification_set now e js s.status in
    let c : Status = if eqb t.count js.target_valid_parents then t.least else invalid in
    elim (Bool-cases (eqb c (value_at set_id s.confidence))) [
      | inl same ↦ rw same (inl (refl, refl))
      | inr changed ↦ rw changed (
          simulate_child-Grown e js.child_fact_id
            (record s { confidence = insert set_id c s.confidence }))
    ]
