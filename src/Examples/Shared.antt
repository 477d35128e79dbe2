-- ===== src/Examples/Shared.antt =====
-- The theorems on global facts, reasoning and slices at the small graph, and a retraction that does not reach a subscriber.
use velarix.Prelude.{
  ℕ, ◌<◌, ◌≤◌, String, ◌≡◌, ◌≢◌, ◌↔◌, refl, ap, Bool, true, false, Option, none, some, List, [],
  ◌∷◌, ◌==◌, arith, contains, length, keys, lookup, insert, has, All,
}
use velarix.Fact.{Fact}
use velarix.Engine.{Engine, new_engine}
use velarix.Engine.Rounds.{weight}
use velarix.Engine.Operations.{retract_fact, reason_or}
use velarix.Engine.Operations.Settles.{retract_fact_settles}
use velarix.Global.{GlobalTruth, new_global_truth, members, kept, get_global_fact, subscribe}
use velarix.Global.Partition.{partition, edges_of}
use velarix.Global.Partition.Components.{AreLinked}
use velarix.Global.Partition.Edges.{IsEdge}
use velarix.Global.Partition.Groups.{together}
use velarix.Global.Partition.Correct.{partition_connects}
use velarix.Global.Broadcast.{at_version, retract_global}
use velarix.Global.Broadcast.Reaches.{CanStep, retract_global_reaches}
use velarix.Reasoning.{ReasoningChain, audit_reasoning_chain}
use velarix.Reasoning.Audit.{AreFine, audit_reasoning_chain_iff}
use velarix.Slice.{SliceOptions, select_belief_slice}
use velarix.Slice.Bounds.{
  IsBounded, AreNew, select_belief_slice-IsBounded, select_belief_slice-oversized,
}
use velarix.Examples.Graph.{env, a, b, graph, rank, graph-IsStable}

few : length (edges_of graph.facts (env.range 1 (keys graph.facts))) < env.fuel
unfolding edges_of keys lookup velarix.Dependencies.is_negated velarix.Global.Partition.token_id
few = omega arith

a_known : has "a" graph.facts ≡ true
unfolding lookup
a_known = refl

b_known : has "b" graph.facts ≡ true
unfolding lookup
b_known = refl

edge : IsEdge graph.facts "b" "a"
unfolding lookup velarix.Global.Partition.Edges.mentions
    velarix.Global.Partition.Edges.mentions_in_set velarix.Global.Partition.token_id
    velarix.Dependencies.is_negated
edge = (b, refl, refl, refl)

linked : AreLinked (IsEdge graph.facts) "a" "b"
linked = AreLinked.back edge AreLinked.itself

partition_connects_example :
    (groups : List (List String)) × (partition env graph.facts ≡ some groups)
    × ((together groups "a" "b" ≡ true) ↔ AreLinked (IsEdge graph.facts) "a" "b")
partition_connects_example =
    partition_connects env graph.facts graph-IsStable.linked.keyed "a" "b" few a_known b_known

-- The facts of the graph are global, and its engine refers to "b".
abbrev shared : GlobalTruth
shared = record new_global_truth {
  facts = graph.facts;
  subscribers = ("s", graph) ∷ [];
  dep_index = ("b", "s" ∷ []) ∷ [];
}

refers_b : contains (members shared.dep_index "b") "s" ≡ true
unfolding members lookup contains
refers_b = refl

s_there : lookup "s" shared.subscribers ≡ some graph
unfolding lookup
s_there = refl

a_there : lookup "a" graph.facts ≡ some a
unfolding lookup
a_there = refl

enough : weight 1 1 ≤ env.fuel
unfolding weight
enough = omega arith

steps : kept (retract_fact env graph "a" "global_retract") ≢ none
steps h =
    let (e', ends, stable, rest) =
      retract_fact_settles rank 1 1 env graph "a" "global_retract" a a_there enough
        graph-IsStable in
    cc (ap kept ends, h)

can :
    CanStep (λ e. kept (retract_fact env e "a" (reason_or "global_retract" ""))) shared.subscribers
can = (steps, tt)

named : ("a" == "") ≡ false
named = refl

retract_global_reaches_example :
    (g' : GlobalTruth) × (retract_global env shared "a" "" ≡ (at_version 1, g'))
    × (get_global_fact g' "a" ≡ none)
    × (e'' : Engine) × (kept (retract_fact env graph "a" "global_retract") ≡ some e'')
    × (lookup "s" g'.subscribers ≡ some e'')
    × (lookup "a" e''.retracted_facts ≡ some "global_retract")
retract_global_reaches_example =
    retract_global_reaches env shared graph-IsStable.linked.keyed "a" "" "b" "s" graph named a_known
      b_known linked refers_b s_there a_known few can

-- The session "t" subscribes with an empty engine, gets the global fact "a", and keeps it when it is
-- retracted: the index lists only "s" under it.
abbrev both : GlobalTruth
both =
    (subscribe env (record shared { facts = ("a", a) ∷ []; dep_index = ("a", "s" ∷ []) ∷ [] }) "t"
      (some new_engine)).1

abbrev is_retracted : String → GlobalTruth → Option Bool
is_retracted session g = elim (lookup session g.subscribers) [
  | none ↦ none
  | some e ↦ some (has "a" e.retracted_facts)
]

abbrev holds : String → GlobalTruth → Option Bool
holds session g = elim (lookup session g.subscribers) [
  | none ↦ none
  | some e ↦ some (has "a" e.facts)
]

unreached :
    (holds "t" both ≡ some true)
    × (is_retracted "s" (retract_global env both "a" "").1 ≡ some true)
    × (is_retracted "t" (retract_global env both "a" "").1 ≡ some false)
unfolding subscribe retract_global lookup insert contains keys velarix.Global.members
    velarix.Engine.Assertion.assert_fact velarix.Cycles.detect_cycle
    velarix.Engine.Propagation.propagate retract_fact velarix.Engine.children
    velarix.Global.Partition.partition velarix.Ids.justification_set_id velarix.Engine.status_at
    velarix.Dependencies.dependency_satisfied velarix.Fact.effective_assertion_kind
    velarix.Prelude.trim_space velarix.Value.map_string_slice velarix.Value.metadata_bool
    velarix.Value.int64_from_metadata velarix.Prelude.add velarix.Dependencies.is_negated
    velarix.Engine.Propagation.resolve velarix.Dependencies.dependency_confidence
unreached = (refl, refl, refl)

-- A chain of one step, from "a" to "b".
abbrev chain : ReasoningChain
chain = record {
  chain_id = "chain";
  steps =
      record {
        id = "step";
        kind = "";
        content = "";
        evidence_fact_ids = " a" ∷ [];
        justification_fact_ids = [];
        output_fact_id = "b";
        contradicts_fact_ids = [];
        confidence = 0;
      }
      ∷ [];
}

audit_reasoning_chain_iff_example :
    ((audit_reasoning_chain (λ x y. false) env graph (some chain)).valid ≡ true)
    ↔ AreFine (λ x y. false) env graph [] chain.steps
audit_reasoning_chain_iff_example = audit_reasoning_chain_iff (λ x y. false) env graph chain

-- A slice of at most five facts and ten characters, of facts with a hundred characters each.
abbrev options : SliceOptions
options = record { max_facts = 5; max_chars = 10; include_dependencies = false }

abbrev estimate : Fact → ℕ
estimate f = 100

abbrev dependencies : Fact → List Fact
dependencies f = []

select_belief_slice-IsBounded_example :
    IsBounded options estimate (select_belief_slice options estimate dependencies (a ∷ b ∷ []))
select_belief_slice-IsBounded_example =
    select_belief_slice-IsBounded options estimate dependencies (a ∷ b ∷ [])

AreNew-two : AreNew [] (a ∷ b ∷ [])
unfolding contains
AreNew-two = (refl, (refl, tt))

select_belief_slice-oversized_example :
    (select_belief_slice options estimate dependencies (a ∷ b ∷ [])).selected ≡ a ∷ b ∷ []
select_belief_slice-oversized_example =
    select_belief_slice-oversized options estimate dependencies refl a (b ∷ []) (omega arith)
      AreNew-two (omega arith)
