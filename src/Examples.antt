-- ===== src/Examples.antt =====
-- The theorems at a small graph, and runs of the engine.
pub mod Graph
pub mod Runs
pub mod Stores
pub mod Shared
use velarix.Prelude.{
  ◌≡◌, ◌≢◌, All, ◌==◌, false≢true, sym, ap, ◌<◌, ◌≤◌, ◌↔◌, ℕ, String, refl, true, false, Option,
  none, some, List, [], ◌∷◌, pos, arith, lookup, has,
}
use velarix.Fact.{Fact, JustificationSet, Status, valid, invalid, threshold}
use velarix.Dependencies.{dependency_satisfied}
use velarix.Dependencies.Polarity.{IsShort, Grounds, dependency_satisfied_iff}
use velarix.Ids.{justification_set_id}
use velarix.Ids.Injective.{justification_set_id_injective}
use velarix.Engine.{Engine, notify}
use velarix.Engine.Propagation.{propagate_from}
use velarix.Engine.Outcome.{done}
use velarix.Engine.Operations.{invalidate_root, set_root_confidence, retract_fact}
use velarix.Engine.Operations.Settles.{
  HasControl, IsRetracted, invalidate_root_settles, set_root_confidence_settles,
  retract_fact_settles,
}
use velarix.Engine.Assertion.{fresh, validate_assert_fact, assert_fact}
use velarix.Engine.Assertion.Entered.{rank_with}
use velarix.Engine.Assertion.Registered.{AreRegistered, assert_fact_registers}
use velarix.Engine.Assertion.Settles.{assert_fact_settles}
use velarix.Engine.Governance.{set_fact_review, normalize_review_status}
use velarix.Engine.Governance.Review.{HasReview, set_fact_review_lem}
use velarix.Engine.Listeners.{subscribe, unsubscribe}
use velarix.Engine.Listeners.Independent.{has_channel, unsubscribe-notify}
use velarix.Consistency.{contradiction}
use velarix.Consistency.Report.{consistency_issues_for_ids}
use velarix.Consistency.Report.Sound.{IsFound, consistency_issues_for_ids-IsFound}
use velarix.Consistency.Symmetric.{contradiction_comm}
use velarix.Value.{str, strs, int, field, end, int64_from_metadata}
use velarix.Engine.Stable.{IsStable}
use velarix.Engine.Belief.{IsGrounded, belief_justified, belief_complete}
use velarix.Engine.Rounds.{weight, load, IsOrdered}
use velarix.Engine.Rounds.Ends.{propagate_from_returns}
use velarix.Engine.Kept.{IsKept, propagate_from-IsKept}
use velarix.Engine.Settled.Control.{controlled, Progress-controlled}
use velarix.Engine.Settled.Queue.{Progress, propagate_from-keeps}
use velarix.Examples.Graph.{env, root, derived, a, b, b_set, graph, rank, graph-IsStable}

-- A child that takes a fact of a source, asserted at most a minute ago.
abbrev choosy : Fact
choosy = record (derived "c" []) {
  metadata = some (
      field "grounding_allowed_source_types" (strs ("user" ∷ []))
        (field "grounding_max_age_seconds" (int (pos 60)) end));
}

short : IsShort (int64_from_metadata choosy.metadata "grounding_max_age_seconds")
unfolding int64_from_metadata
short = omega arith

dependency_satisfied_iff_example :
    ((dependency_satisfied 5 (root "a") valid false choosy ≡ true)
      ↔ Grounds 5 (root "a") valid choosy)
    × ((dependency_satisfied 5 (root "a") valid true choosy ≡ true) ↔ (valid < threshold))
dependency_satisfied_iff_example = dependency_satisfied_iff 5 (root "a") valid choosy short

justification_set_id_injective_example : (◌≡◌ {A = String} "b" "b") × (◌≡◌ {A = ℕ} 12 12)
justification_set_id_injective_example = justification_set_id_injective "b" "b" 12 12 refl

a_there : lookup "a" graph.facts ≡ some a
unfolding lookup
a_there = refl

b_there : lookup "b" graph.facts ≡ some b
unfolding lookup
b_there = refl

b_set_there : lookup (justification_set_id "b" 0) graph.justification_sets ≡ some b_set
unfolding lookup justification_set_id
b_set_there = refl

enough : weight 1 1 ≤ env.fuel
unfolding weight
enough = omega arith

invalidate_root_settles_example :
    (e' : Engine) × (invalidate_root env graph "a" ≡ (done, e'))
    × IsStable rank 1 1 env e'
    × HasControl rank 1 1 env graph "a" invalid e'
invalidate_root_settles_example =
    invalidate_root_settles rank 1 1 env graph "a" a a_there refl enough graph-IsStable

set_root_confidence_settles_example :
    (e' : Engine) × (set_root_confidence env graph "a" threshold ≡ (done, e'))
    × IsStable rank 1 1 env e'
    × HasControl rank 1 1 env graph "a" threshold e'
set_root_confidence_settles_example =
    set_root_confidence_settles rank 1 1 env graph "a" threshold a a_there refl enough
      graph-IsStable

retract_fact_settles_example :
    (e' : Engine) × (retract_fact env graph "a" "" ≡ (done, e'))
    × IsStable rank 1 1 env e'
    × IsRetracted rank 1 1 env graph "a" "retracted" e'
retract_fact_settles_example =
    retract_fact_settles rank 1 1 env graph "a" "" a a_there enough graph-IsStable

b_held : 0 < b.derived_status
b_held = omega arith

belief_justified_example :
    (i : ℕ) × (js : JustificationSet) × (lookup
        (justification_set_id "b" i)
        graph.justification_sets
      ≡ some js)
    × (js.confidence ≡ valid)
    × (threshold ≤ valid)
    × IsGrounded env graph b js
unfolding lookup
belief_justified_example =
    belief_justified env graph "b" b graph-IsStable.linked graph-IsStable.settled_now b_there
      (refl, refl) b_held

belief_complete_example : valid ≤ b.derived_status
unfolding lookup
belief_complete_example =
    belief_complete env graph "b" b graph-IsStable.linked graph-IsStable.settled_now b_there
      (refl, refl) 0 b_set (omega arith) b_set_there (omega arith)

-- The graph once "a" is made invalid, in front of the propagation and behind it.
abbrev marked : Engine
marked = controlled env graph "a" a invalid ("a" ∷ []) 1 a_there

abbrev fallen : Engine
fallen = record marked {
  facts =
      ("a", record a { manual_status = invalid; derived_status = invalid })
      ∷ ("b", record b { derived_status = invalid; valid_justification_count = 0 })
      ∷ [];
  justification_sets =
      (justification_set_id "b" 0, record b_set { current_valid_parents = 0; confidence = invalid })
      ∷ [];
}

falls : propagate_from env 5 marked ("a" ∷ []) ≡ some fallen
unfolding propagate_from lookup justification_set_id velarix.Prelude.insert velarix.Engine.children
    dependency_satisfied velarix.Fact.effective_assertion_kind velarix.Prelude.trim_space
    velarix.Value.map_string_slice velarix.Value.metadata_bool velarix.Value.int64_from_metadata
    velarix.Engine.status_at
falls = refl

propagate_from-keeps_example : Progress env [] fallen
propagate_from-keeps_example =
    propagate_from-keeps env 5 marked fallen ("a" ∷ []) []
      (Progress-controlled env graph "a" a invalid ("a" ∷ []) 1 a_there refl (λ p. omega arith)
        graph-IsStable.linked graph-IsStable.settled_now)
      falls

propagate_from-IsKept_example : IsKept marked fallen
propagate_from-IsKept_example = propagate_from-IsKept env 5 marked fallen ("a" ∷ []) falls

propagate_from_returns_example :
    (e' : Engine) × (propagate_from env 5 graph ("a" ∷ "b" ∷ []) ≡ some e') × IsOrdered rank 1 1 e'
propagate_from_returns_example =
    propagate_from_returns rank 1 1 env 5 graph ("a" ∷ "b" ∷ []) graph-IsStable.ordered
      (unfold weight load in omega arith)

-- A fact with two justification sets, of which the second rests on the absence of "b".
abbrev c : Fact
c = derived "c" (("a" ∷ "b" ∷ []) ∷ ("a" ∷ "!b" ∷ []) ∷ [])

c_new : validate_assert_fact env graph c ≡ fresh
unfolding validate_assert_fact lookup velarix.Dependencies.normalize_dependency_token
    velarix.Prelude.trim_space velarix.Cycles.detect_cycle velarix.Prelude.contains
    velarix.Engine.children justification_set_id
c_new = refl

plenty : weight 3 2 ≤ env.fuel
unfolding weight
plenty = omega arith

assert_fact_settles_example :
    (e' : Engine) × (assert_fact env graph (some c) ≡ (done, e'))
    × IsStable (rank_with "c" 1 rank) 2 3 env e'
    × (has "c" e'.facts ≡ true)
assert_fact_settles_example = assert_fact_settles rank 1 1 env graph c graph-IsStable c_new plenty

c_derived : c.is_root ≡ false
c_derived = refl

assert_fact_registers_example :
    (e' : Engine) × (assert_fact env graph (some c) ≡ (done, e'))
    × AreRegistered e' "c" 0 c.justification_sets
assert_fact_registers_example =
    assert_fact_registers rank 1 1 env graph c graph-IsStable c_new plenty c_derived

approved_is : normalize_review_status " Approved" ≢ ""
unfolding normalize_review_status velarix.Prelude.codes_eq velarix.Prelude.to_lower
    velarix.Prelude.trim_space
approved_is = λ p. false≢true (sym (ap (λ (s : String). s == "approved") p))

set_fact_review_lem_example :
    (e' : Engine) × (set_fact_review env graph "a" " Approved" "seen" (pos 0) ≡ (done, e'))
    × HasReview env graph "a" "seen" (pos 0) a (normalize_review_status " Approved") e'
set_fact_review_lem_example =
    set_fact_review_lem env graph "a" "seen" (pos 0) a " Approved" a_there approved_is

-- The graph with a listener.
abbrev watched : Engine
watched = subscribe graph 7

no_channel : has_channel 8 watched.listeners ≡ false
unfolding subscribe
no_channel = refl

unsubscribe-notify_example :
    unsubscribe (notify env (subscribe watched 8) "a" invalid) 8 ≡ notify env watched "a" invalid
unsubscribe-notify_example = unsubscribe-notify env watched 8 "a" invalid no_channel

-- Two facts that give one claim different values.
abbrev claims : String → String → Fact
claims id value = record (root id) {
  payload = some (field "claim_key" (str "colour") (field "claim_value" (str value) end));
}

contradiction_comm_example :
    contradiction (λ x y. false) (claims "x" "red") (claims "y" "blue")
    ≡ contradiction (λ x y. false) (claims "y" "blue") (claims "x" "red")
contradiction_comm_example =
    contradiction_comm (λ x y. false) (claims "x" "red") (claims "y" "blue") refl

-- Two facts that contradict each other, and hold.
abbrev disputed : Engine
disputed = record graph { facts = ("x", claims "x" "red") ∷ ("y", claims "y" "blue") ∷ graph.facts }

consistency_issues_for_ids-IsFound_example :
    All
      (IsFound (λ x y. false) env disputed false ("x" ∷ "y" ∷ []))
      (consistency_issues_for_ids (λ x y. false) env disputed false ("x" ∷ "y" ∷ []))
consistency_issues_for_ids-IsFound_example =
    consistency_issues_for_ids-IsFound (λ x y. false) env disputed false ("x" ∷ "y" ∷ [])
