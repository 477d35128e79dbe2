-- ===== src/Examples/Runs.antt =====
-- Runs of the engine on small graphs.
use velarix.Prelude.{
  ◌≡◌, refl, ℕ, ◌+◌, String, Option, none, some, List, [], ◌∷◌, lookup, insert, pos, contains, add,
}
use velarix.Fact.{Fact, Status, valid}
use velarix.Engine.{Engine, new_engine}
use velarix.Engine.Outcome.{failed, unknown_parent}
use velarix.Engine.Assertion.{assert_fact}
use velarix.Engine.Operations.{invalidate_root}
use velarix.Engine.Impact.{Impact, report, fact_not_found, panicked, undecided, get_impact}
use velarix.Examples.Graph.{env, root, derived, graph}

abbrev asserted : Engine → Fact → Engine
asserted e f = (assert_fact env e (some f)).1

-- The graph of the other examples, as assertions build it.
built :
    asserted
      (asserted new_engine (record (root "a") { asserted_at = pos 0 }))
      (derived "b" (("a" ∷ []) ∷ []))
    ≡ graph
unfolding assert_fact lookup insert contains add velarix.Cycles.detect_cycle
    velarix.Engine.Propagation.propagate velarix.Dependencies.normalize_dependency_token
    velarix.Prelude.trim_space velarix.Dependencies.split_dependency_set
    velarix.Dependencies.dependency_satisfied velarix.Engine.status_at
    velarix.Fact.effective_assertion_kind velarix.Value.map_string_slice velarix.Value.metadata_bool
    velarix.Value.int64_from_metadata velarix.Ids.justification_set_id
    velarix.Dependencies.dependency_confidence
built = refl

-- "c" has two justification sets, of which the first rests on the absence of "b".
abbrev base : Engine
base =
    asserted
      (asserted (asserted (asserted new_engine (root "a")) (root "b"))
        (derived "c" (("a" ∷ "!b" ∷ []) ∷ ("a" ∷ "b" ∷ []) ∷ [])))
      (derived "d" (("!c" ∷ []) ∷ []))

abbrev status : String → Engine → Option Status
status k e = elim (lookup k e.facts) [ none ↦ none | some f ↦ some f.derived_status ]

first : (status "c" base ≡ some valid) × (status "d" base ≡ some 0)
unfolding assert_fact lookup insert contains add velarix.Cycles.detect_cycle
    velarix.Engine.Propagation.propagate velarix.Dependencies.normalize_dependency_token
    velarix.Prelude.trim_space velarix.Dependencies.split_dependency_set
    velarix.Dependencies.dependency_satisfied velarix.Engine.status_at
    velarix.Fact.effective_assertion_kind velarix.Value.map_string_slice velarix.Value.metadata_bool
    velarix.Value.int64_from_metadata velarix.Ids.justification_set_id
    velarix.Dependencies.dependency_confidence
first = (refl, refl)

-- Without "b" the other set holds; without "a" none does, and "d" comes to hold.
second :
    (status "c" (invalidate_root env base "b").1 ≡ some valid)
    × (status "d" (invalidate_root env base "a").1 ≡ some valid)
unfolding assert_fact lookup insert contains add invalidate_root velarix.Cycles.detect_cycle
    velarix.Engine.Propagation.propagate velarix.Dependencies.normalize_dependency_token
    velarix.Prelude.trim_space velarix.Dependencies.split_dependency_set
    velarix.Dependencies.dependency_satisfied velarix.Engine.status_at
    velarix.Fact.effective_assertion_kind velarix.Value.map_string_slice velarix.Value.metadata_bool
    velarix.Value.int64_from_metadata velarix.Ids.justification_set_id
    velarix.Dependencies.dependency_confidence
second = (refl, refl)

-- A parent that is no fact is refused.
refusal :
    (assert_fact env base (some (derived "e" (("x" ∷ []) ∷ [])))).0 ≡ failed (unknown_parent "x")
unfolding assert_fact lookup insert contains add velarix.Cycles.detect_cycle
    velarix.Engine.Propagation.propagate velarix.Dependencies.normalize_dependency_token
    velarix.Prelude.trim_space velarix.Dependencies.split_dependency_set
    velarix.Dependencies.dependency_satisfied velarix.Engine.status_at
    velarix.Fact.effective_assertion_kind velarix.Value.map_string_slice velarix.Value.metadata_bool
    velarix.Value.int64_from_metadata velarix.Ids.justification_set_id
    velarix.Dependencies.dependency_confidence
refusal = refl

-- "y" rests on the absence of "x", and "z" on the absence of "y". The invalidation of "x" makes "z"
-- invalid, and the report of its impact does not name "z".
abbrev chain : Engine
chain =
    asserted (asserted (asserted new_engine (root "x")) (derived "y" (("!x" ∷ []) ∷ [])))
      (derived "z" (("!y" ∷ []) ∷ []))

abbrev impacted : Impact → List String
impacted (report r) = r.impacted_ids
impacted fact_not_found = []
impacted panicked = []
impacted undecided = []

unreported :
    (status "z" chain ≡ some valid)
    × (status "z" (invalidate_root env chain "x").1 ≡ some 0)
    × (impacted (get_impact ◌+◌ env chain "x") ≡ "x" ∷ [])
unfolding assert_fact lookup insert contains add invalidate_root velarix.Cycles.detect_cycle
    velarix.Engine.Propagation.propagate velarix.Dependencies.normalize_dependency_token
    velarix.Prelude.trim_space velarix.Dependencies.split_dependency_set
    velarix.Dependencies.dependency_satisfied velarix.Engine.status_at
    velarix.Fact.effective_assertion_kind velarix.Value.map_string_slice velarix.Value.metadata_bool
    velarix.Value.int64_from_metadata velarix.Ids.justification_set_id
    velarix.Dependencies.dependency_confidence get_impact
unreported = (refl, refl, refl)
