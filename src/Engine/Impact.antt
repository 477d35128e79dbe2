-- ===== src/Engine/Impact.antt =====
-- `GetImpact` of core/engine.go: the invalidation of a fact, simulated beside the engine. The order of
-- the map `impacted` is that of the discovery of its ids; the addition of float64 is a parameter.
pub mod Growth
pub mod Dependents
use velarix.Prelude.{
  ℕ, zero, suc, ◌+◌, String, Bool, true, false, ◌&&◌, not, Option, none, some, List, [], ◌∷◌, ◌++◌,
  ◌==◌, ltb, leb, eqb, if◌then◌else◌, contains, length, Map, lookup, insert, has,
}
use velarix.Env.{Env}
use velarix.Value.{Value, str, read}
use velarix.Fact.{Fact, JustificationSet, Status, invalid, valid, threshold, empirical}
use velarix.Dependencies.{dependency_confidence, dependency_satisfied, dependency_scope_satisfied}
use velarix.Ids.{justification_set_id}
use velarix.Engine.{Engine, Tally, effective_status, children}

-- `simStatus`, `simJSetConfidence` and `impacted`
pub record Simulation : Type 0 where
  pub status : Map Status
  pub confidence : Map Status
  pub impacted : List String

-- m[key], of a map of numbers
unfoldable pub value_at : String → Map Status → Status
value_at key m = elim (lookup key m) [ none ↦ 0 | some s ↦ s ]

unfoldable pub fact_statuses : Env → Engine → Map Fact → Map Status
fact_statuses env e [] = []
fact_statuses env e ((id, f) ∷ rest) = (id, effective_status env e f) ∷ fact_statuses env e rest

unfoldable pub set_confidences : Map JustificationSet → Map Status
set_confidences [] = []
set_confidences ((id, js) ∷ rest) = (id, js.confidence) ∷ set_confidences rest

-- initImpactSimulationUnsafe, and the first writes of simulateInvalidationUnsafe
unfoldable pub init_impact_simulation : Env → Engine → String → Simulation
unfolding fact_statuses set_confidences
init_impact_simulation env e fact_id = record {
  status = insert fact_id invalid (fact_statuses env e e.facts);
  confidence = set_confidences e.justification_sets;
  impacted = fact_id ∷ [];
}

-- dependencySatisfied, where a fact may be missing
unfoldable pub satisfied_by : ℕ → Option Fact → Status → Bool → Option Fact → Bool
satisfied_by now (some parent) status negated (some child) =
    dependency_satisfied now parent status negated child
satisfied_by now (some parent) status negated none =
    if negated
    then ltb status threshold
    else dependency_scope_satisfied parent empirical && leb threshold status
satisfied_by now none status negated child =
    if negated then ltb status threshold else leb threshold status

unfoldable pub simulate_parents :
    ℕ → Engine → Map Status → Option Fact → Bool → List String → Tally → Tally
unfolding value_at satisfied_by
simulate_parents now e statuses child negated [] t = t
simulate_parents now e statuses child negated (p ∷ ps) t =
    let status = value_at p statuses in
    let confidence = dependency_confidence status negated in
    simulate_parents now e statuses child negated ps (record {
      count =
          if satisfied_by now (lookup p e.facts) status negated child then t.count + 1 else t.count;
      least = if ltb confidence t.least then confidence else t.least;
    })

-- simulateJustificationSetUnsafe
unfoldable pub simulate_justification_set : ℕ → Engine → JustificationSet → Map Status → Tally
unfolding simulate_parents
simulate_justification_set now e js statuses =
    let child = lookup js.child_fact_id e.facts in
    simulate_parents now e statuses child true js.negative_parent_fact_ids (
      simulate_parents now e statuses child false js.positive_parent_fact_ids
        (record { count = 0; least = valid }))

unfoldable pub best_from : String → ℕ → List (List String) → Map Status → Status → Status
unfolding value_at
best_from id index [] confidences best = best
best_from id index (_ ∷ rest) confidences best =
    let confidence = value_at (justification_set_id id index) confidences in
    best_from id (index + 1) rest confidences (if ltb best confidence then confidence else best)

-- simulatedDerivedStatusUnsafe
unfoldable pub simulated_derived_status : Engine → String → Map Status → Status
unfolding best_from
simulated_derived_status e fact_id confidences = elim (lookup fact_id e.facts) [
  | none ↦ invalid
  | some fact ↦ best_from fact_id 0 fact.justification_sets confidences invalid
]

-- A child whose simulated status has changed, with what goes on the queue.
unfoldable pub mark_child : String → Status → Simulation → Simulation × List String
mark_child child status s =
    if ltb status threshold && not (contains s.impacted child)
    then (
      record s { status = insert child status s.status; impacted = s.impacted ++ child ∷ [] },
      child ∷ [],
    )
    else (record s { status = insert child status s.status }, [])

unfoldable pub simulate_child : Engine → String → Simulation → Simulation × List String
unfolding simulated_derived_status value_at mark_child
simulate_child e child s =
    let status = simulated_derived_status e child s.confidence in
    if eqb status (value_at child s.status) then (s, []) else mark_child child status s

-- The body of the inner loop of `simulateInvalidationUnsafe`.
unfoldable pub simulate_set :
    ℕ → Engine → String → JustificationSet → Simulation → Simulation × List String
unfolding simulate_justification_set simulate_child value_at
simulate_set now e set_id js s =
    let t = simulate_justification_set now e js s.status in
    let confidence = if eqb t.count js.target_valid_parents then t.least else invalid in
    if eqb confidence (value_at set_id s.confidence)
    then (s, [])
    else simulate_child e js.child_fact_id
        (record s { confidence = insert set_id confidence s.confidence })

-- What a simulation comes to. A set that is not there is a nil pointer, which panics.
pub data Simulated : Type 0 where
  impacting : Simulation → List String → Simulated
  nil_set : Simulated
  exhausted : Simulated

unfoldable pub simulate_sets : ℕ → Engine → List String → Simulation → List String → Simulated
unfolding simulate_set
simulate_sets now e [] s queue = impacting s queue
simulate_sets now e (set_id ∷ rest) s queue = elim (lookup set_id e.justification_sets) [
  | none ↦ nil_set
  | some js ↦ let r = simulate_set now e set_id js s in simulate_sets now e rest r.0 (queue ++ r.1)
]

-- simulateInvalidationUnsafe, of at most `fuel` rounds
unfoldable pub simulate_invalidation : Env → ℕ → Engine → List String → Simulation → Simulated
unfolding simulate_sets
simulate_invalidation env fuel e [] s = impacting s []
simulate_invalidation env zero e (id ∷ queue) s = exhausted
simulate_invalidation env (suc fuel) e (id ∷ queue) s =
    elim (simulate_sets env.now e (env.range fuel (children e id)) s queue) [
      | impacting s' queue' ↦ simulate_invalidation env fuel e queue' s'
      | nil_set ↦ nil_set
      | exhausted ↦ exhausted
    ]

-- ImpactReport
pub record ImpactReport : Type 0 where
  pub impacted_ids : List String
  pub direct_count : ℕ
  pub total_count : ℕ
  pub action_count : ℕ
  pub epistemic_loss : Status

unfoldable pub is_action : Option Value → Bool
is_action (some (str s)) = s == "action"
is_action _ = false

-- One round of the loop of `buildImpactReportUnsafe`.
unfoldable pub count_impacted :
    (Status → Status → Status) → String → Option Fact → ImpactReport → ImpactReport
unfolding is_action read
count_impacted plus root none r = r
count_impacted plus root (some fact) r = record r {
  epistemic_loss = plus r.epistemic_loss fact.derived_status;
  direct_count = if fact.idom == root then r.direct_count + 1 else r.direct_count;
  action_count =
      if is_action (read fact.payload "type") then r.action_count + 1 else r.action_count;
}

unfoldable pub count_all :
    (Status → Status → Status) → Engine → String → List String → ImpactReport → ImpactReport
unfolding count_impacted
count_all plus e root [] r = r
count_all plus e root (id ∷ ids) r = count_all plus e root ids (
    count_impacted plus root (lookup id e.facts)
      (record r { impacted_ids = r.impacted_ids ++ id ∷ [] }))

-- buildImpactReportUnsafe
unfoldable pub build_impact_report :
    (Status → Status → Status) → Engine → List String → String → ImpactReport
unfolding count_all
build_impact_report plus e impacted root = count_all plus e root impacted (record {
  impacted_ids = [];
  direct_count = 0;
  total_count = length impacted;
  action_count = 0;
  epistemic_loss = 0;
})

pub data Impact : Type 0 where
  report : ImpactReport → Impact
  fact_not_found : Impact
  panicked : Impact
  undecided : Impact

abbrev reported : (Status → Status → Status) → Engine → String → Simulated → Impact
reported plus e root (impacting s queue) = report (build_impact_report plus e s.impacted root)
reported plus e root nil_set = panicked
reported plus e root exhausted = undecided

-- GetImpact
unfoldable pub get_impact : (Status → Status → Status) → Env → Engine → String → Impact
unfolding init_impact_simulation simulate_invalidation build_impact_report
get_impact plus env e fact_id =
    if has fact_id e.facts
    then reported plus e fact_id
        (simulate_invalidation env env.fuel e (fact_id ∷ []) (init_impact_simulation env e fact_id))
    else fact_not_found
