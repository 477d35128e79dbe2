-- ===== src/Examples/Stores.antt =====
-- The theorems on snapshots, the journal, impacts and global facts, at the small graph.
use mathlib.Core.Path.{subst}
use velarix.Prelude.{
  IsUnique, ℕ, suc, ◌≤◌, ◌<◌, String, ◌≡◌, ◌≢◌, ◌⊎◌, inl, inr, refl, sym, ap, ◌∙◌, Bool, true,
  false, ◌||◌, ◌&&◌, Option, none, some, List, [], ◌∷◌, ◌==◌, false≢true, arith, if◌then◌else◌, All,
  contains, length, lookup, insert, has, Map, ◌↔◌, eq_iff,
}
use velarix.Ids.{justification_set_id}
use velarix.Fact.{Fact}
use velarix.Dependencies.{ok, parse_dependency_ref}
use velarix.Engine.{Engine, new_engine, children}
use velarix.Engine.Rounds.{weight}
use velarix.Engine.Stable.{IsStable}
use velarix.Engine.Outcome.{done}
use velarix.Engine.Assertion.{assert_fact}
use velarix.Engine.Assertion.Entered.{rank_with}
use velarix.Engine.Assertion.Known.{IsKnown}
use velarix.Engine.Assertion.Accepted.{IsAcceptable, assert_fact_accepts}
use velarix.Engine.Snapshot.{Codec, Saved, state_of, to_snapshot, from_snapshot, restored}
use velarix.Engine.Snapshot.Validated.{AreRanked}
use velarix.Engine.Snapshot.Restored.{
  HasState, IsRestored, IsRefused, from_snapshot_cases, from_snapshot-to_snapshot,
}
use velarix.Engine.Explain.{ExplanationOutput, explained, tokens_of, explain_reasoning}
use velarix.Engine.Explain.Ancestors.{refers, followed, IsParent, IsAncestor, chain_ids}
use velarix.Engine.Explain.Chain.{explain_reasoning_complete}
use velarix.Journal.{JournalEntry, append_assert, replay_from}
use velarix.Journal.Sessions.{any_concerns, replay_from-other}
use velarix.Global.{GlobalTruth, new_global_truth, subscribe, members}
use velarix.Global.Index.{IsInverse}
use velarix.Global.Reached.Facts.{IsGlobal, IsReached-IsGlobal}
use velarix.Global.Reached.{Step, IsReached, IsReached-IsInverse}
use velarix.Global.Broadcast.{assert_global}
use velarix.Global.Listed.{refers as refers_to, is_global}
use velarix.Global.Follow.{subscribe-dep_index}
use velarix.Examples.Graph.{env, root, derived, a, graph, rank, graph-IsStable, fact_cases}

-- A fact on both facts of the graph, and on the absence of one.
abbrev c : Fact
c = derived "c" (("a" ∷ "b" ∷ []) ∷ ("a" ∷ "!b" ∷ []) ∷ [])

IsKnown-a : IsKnown graph "a"
unfolding parse_dependency_ref velarix.Prelude.trim_space lookup
IsKnown-a = (record { fact_id = "a"; negated = false; original = "a" }, refl, refl)

IsKnown-b : IsKnown graph "b"
unfolding parse_dependency_ref velarix.Prelude.trim_space lookup
IsKnown-b = (record { fact_id = "b"; negated = false; original = "b" }, refl, refl)

IsKnown-not_b : IsKnown graph "!b"
unfolding parse_dependency_ref velarix.Prelude.trim_space lookup
IsKnown-not_b = (record { fact_id = "b"; negated = true; original = "!b" }, refl, refl)

c-IsAcceptable : IsAcceptable graph c
unfolding lookup
c-IsAcceptable = record {
  room = omega arith;
  absent = refl;
  justified = inr (λ h. cc);
  grounded =
      ((λ h. cc, (IsKnown-a, (IsKnown-b, tt))), ((λ h. cc, (IsKnown-a, (IsKnown-not_b, tt))), tt));
}

plenty : weight 3 2 ≤ env.fuel
unfolding weight
plenty = omega arith

assert_fact_accepts_example :
    (e' : Engine) × (assert_fact env graph (some c) ≡ (done, e'))
    × IsStable (rank_with "c" 1 rank) 2 3 env e'
    × (has "c" e'.facts ≡ true)
assert_fact_accepts_example =
    assert_fact_accepts rank 1 1 env graph c graph-IsStable (omega arith) c-IsAcceptable plenty

-- A codec for one state.
abbrev codec : Codec
codec = record {
  encode = λ s. some (1 ∷ []);
  decode = λ bytes. some (state_of graph);
  checksum_ieee = λ bytes. length bytes;
}

abbrev saved : Saved
saved = record { timestamp = 1000; mutation_count = 2; bytes = 1 ∷ []; checksum = 1 }

taken : to_snapshot codec env graph ≡ some saved
unfolding to_snapshot
taken = refl

parsed_a : parse_dependency_ref "a" ≡ ok (record { fact_id = "a"; negated = false; original = "a" })
unfolding parse_dependency_ref velarix.Prelude.trim_space
parsed_a = refl

graph-AreRanked : AreRanked rank 1 graph.facts
unfolding lookup
graph-AreRanked = record {
  keyed = λ k f h. elim (fact_cases k f h) [
    | inl (at_k, same) ↦ ap (λ (z : Fact). z.id) same ∙ sym at_k
    | inr (at_k, same) ↦ ap (λ (z : Fact). z.id) same ∙ sym at_k
  ];
  below = λ k h. ground arith;
  grounded = λ k f h. elim (fact_cases k f h) [
    | inl (at_k, same) ↦ rw same tt
    | inr (at_k, same) ↦
        rw (same, at_k)
          (
            (
              (
                record { fact_id = "a"; negated = false; original = "a" },
                parsed_a,
                refl,
                omega arith,
              ),
              tt,
            ),
            tt,
          )
  ];
}

from_snapshot-to_snapshot_example :
    (e'' : Engine) × (from_snapshot codec env new_engine (some saved) ≡ (restored, e''))
    × HasState new_engine (state_of graph) e''
from_snapshot-to_snapshot_example =
    from_snapshot-to_snapshot codec rank 1 env env graph new_engine saved (λ bytes h. refl) taken
      (omega arith) graph-AreRanked (omega arith)

from_snapshot_cases_example :
    IsRestored codec env new_engine (some saved) (from_snapshot codec env new_engine (some saved))
    ⊎ IsRefused new_engine (from_snapshot codec env new_engine (some saved))
from_snapshot_cases_example = from_snapshot_cases codec env new_engine (some saved)

-- A journal of one entry, and a line that is none.
abbrev unmarshal : String → Option JournalEntry
unmarshal line = if line == "first" then some (append_assert 5 "s" (root "a")) else none

none_of_t : any_concerns unmarshal "t" ("first" ∷ "second" ∷ []) ≡ false
unfolding any_concerns
none_of_t = refl

replay_from-other_example :
    lookup "t" (replay_from unmarshal (λ n. env) 1 (("t", graph) ∷ []) ("first" ∷ "second" ∷ [])).1
    ≡ lookup "t" (("t", graph) ∷ [])
replay_from-other_example =
    replay_from-other unmarshal (λ n. env) ("first" ∷ "second" ∷ []) 1 (("t", graph) ∷ []) "t"
      none_of_t

-- The facts of the graph, as what depends on "a".
abbrev Known : String → Type 0
Known k = has k graph.facts ≡ true

-- The session of the graph subscribes where "a" has become a global fact.
abbrev shared : GlobalTruth
shared = (assert_global env new_global_truth (some a)).1

shared-IsReached : IsReached shared
shared-IsReached = IsReached.further env (IsReached.initial refl) (Step.asserts (some a) refl)

named : ("s" == "") ≡ false
named = refl

subscribe-dep_index_example :
    contains (members (subscribe env shared "s" (some graph)).1.dep_index "a") "s" ≡ (
      if "s" == "s"
      then refers_to graph.facts "a" && is_global shared.facts "a"
      else contains (members shared.dep_index "a") "s")
subscribe-dep_index_example =
    subscribe-dep_index env shared "s" graph "a" "s" shared-IsReached named

abbrev subscribed_store : GlobalTruth
subscribed_store = (subscribe env shared "s" (some graph)).1

subscribed_store-IsReached : IsReached subscribed_store
subscribed_store-IsReached =
    IsReached.further env shared-IsReached (Step.subscribes "s" (some graph) refl)

-- The index has a member there.
s_indexed : contains (members subscribed_store.dep_index "a") "s" ≡ true
unfolding subscribe assert_global members lookup contains insert velarix.Global.remove_session_index
    velarix.Global.index_deps velarix.Global.deps_of_facts velarix.Global.rebuild_session_index
    velarix.Prelude.keys velarix.Prelude.add velarix.Global.Broadcast.assert_targets
    velarix.Global.Broadcast.broadcast_to velarix.Prelude.trim_space velarix.Dependencies.is_negated
    velarix.Engine.Assertion.assert_fact velarix.Cycles.detect_cycle
    velarix.Global.Partition.partition velarix.Engine.children velarix.Engine.Propagation.propagate
    velarix.Ids.justification_set_id velarix.Engine.status_at velarix.Global.replay_facts
    velarix.Global.replayed_to velarix.Prelude.erase
s_indexed = refl

IsReached-IsInverse_example : IsInverse subscribed_store
IsReached-IsInverse_example = IsReached-IsInverse subscribed_store subscribed_store-IsReached

IsReached-IsGlobal_example : IsGlobal subscribed_store
IsReached-IsGlobal_example = IsReached-IsGlobal subscribed_store subscribed_store-IsReached

-- The order of the graph, for its explanations.
refers_to_a : (y : String) → refers ("a" ∷ []) y ≡ true → y ≡ "a"
unfolding refers velarix.Dependencies.trim_mark
refers_to_a y h = sym ((eq_iff "a" y).0 (ground arith))

graph-rising : (x y : String) → IsParent graph x y → rank y < rank x
unfolding tokens_of refers
graph-rising x y (f, at_x, by, there) = elim (fact_cases x f at_x) [
  | inl (is_x, is_f) ↦ cc (subst (λ (z : Fact). refers (followed z) y ≡ true) is_f by)
  | inr (is_x, is_f) ↦
      let is_a = refers_to_a y (subst (λ (z : Fact). refers (followed z) y ≡ true) is_f by) in
      rw (is_x, is_a) (omega arith)
]

b_there : has "b" graph.facts ≡ true
unfolding lookup
b_there = refl

explain_reasoning_complete_example :
    (o : ExplanationOutput) × (explain_reasoning env graph "b" ≡ explained o)
    × IsUnique (chain_ids o.causal_chain)
    × ((contains (chain_ids o.causal_chain) "a" ≡ true) ↔ IsAncestor graph "b" "a")
explain_reasoning_complete_example =
    explain_reasoning_complete env graph rank graph-rising graph-IsStable.linked.keyed "b" "a"
      b_there (omega arith)
