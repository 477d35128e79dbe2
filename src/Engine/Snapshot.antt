-- ===== src/Engine/Snapshot.antt =====
-- `ToSnapshot`, `FromSnapshot` and `buildValidationEngine` of core/engine.go. The encoding
-- (encoding/gob) and the checksum (hash/crc32) are parameters.
pub mod Validated
pub mod Restored
use velarix.Prelude.{
  ℕ, suc, String, Option, none, some, List, [], ◌∷◌, true, ltb, eqb, if◌then◌else◌, Map, lookup,
  insert, has, keys, length,
}
use velarix.Env.{Env}
use velarix.Fact.{Fact, JustificationSet, invalid}
use velarix.Dependencies.{TokenError, Split, ok, err, split_dependency_set}
use velarix.Ids.{justification_set_id}
use velarix.Cycles
use velarix.Cycles.{CycleCheck, detect_cycle}
use velarix.Engine.{Engine, new_engine, children, add_child_index}
use velarix.Engine.Assertion.{max_facts_per_session}

-- What a snapshot holds of the engine, the `payload` of both functions.
pub record State : Type 0 where
  pub facts : Map Fact
  pub justification_sets : Map JustificationSet
  pub children_index : Map (List String)
  pub collapsed_roots : List String
  pub retracted_facts : Map String
  pub mutation_count : ℕ

-- The encoder may refuse a state, and the decoder a text.
pub record Codec : Type 0 where
  pub encode : State → Option (List ℕ)
  pub decode : List ℕ → Option State
  pub checksum_ieee : List ℕ → ℕ

-- Snapshot
pub record Saved : Type 0 where
  pub timestamp : ℕ
  pub mutation_count : ℕ
  pub bytes : List ℕ
  pub checksum : ℕ

abbrev pub state_of : Engine → State
state_of e = record {
  facts = e.facts;
  justification_sets = e.justification_sets;
  children_index = e.children_index;
  collapsed_roots = e.collapsed_roots;
  retracted_facts = e.retracted_facts;
  mutation_count = e.mutation_count;
}

-- ToSnapshot
unfoldable pub to_snapshot : Codec → Env → Engine → Option Saved
to_snapshot codec env e = elim (codec.encode (state_of e)) [
  | none ↦ none
  | some bytes ↦ some (record {
    timestamp = env.now;
    mutation_count = e.mutation_count;
    bytes = bytes;
    checksum = codec.checksum_ieee bytes;
  })
]

pub data Restoring : Type 0 where
  restored : Restoring
  nil_snapshot checksum_mismatch undecodable too_many_facts : Restoring
  unknown_parent : String → Restoring
  bad_token : TokenError → Restoring
  cycle : List String → Restoring
  undecided : Restoring

-- A validation engine, or why there is none.
pub data Built : Type 0 where
  built : Engine → Built
  refused : Restoring → Built

-- The links of one set in the validation engine. The set carries no counts.
unfoldable pub link_set : Engine → String → Fact → Split → Engine
link_set v set_id fact s = record v {
  justification_sets =
      insert set_id
        (record {
          id = set_id;
          child_fact_id = fact.id;
          parent_fact_ids = s.all;
          positive_parent_fact_ids = s.positive;
          negative_parent_fact_ids = s.negative;
          target_valid_parents = 0;
          current_valid_parents = 0;
          confidence = invalid;
          idom = "";
        })
        v.justification_sets;
}

-- The loop over the parents of a set.
unfoldable pub link_parents : Engine → String → Fact → Split → List String → Built
unfolding link_set add_child_index
link_parents v set_id fact s [] = built v
link_parents v set_id fact s (parent ∷ rest) =
    let linked =
      link_parents (link_set (add_child_index v parent set_id) set_id fact s) set_id fact s rest in
    if has parent v.facts then linked else refused (unknown_parent parent)

-- The loop over the sets of a fact.
unfoldable pub link_sets : Engine → Fact → ℕ → List (List String) → Built
unfolding link_parents
link_sets v fact index [] = built v
link_sets v fact index (set ∷ sets) = elim (split_dependency_set set) [
  | err x ↦ refused (bad_token x)
  | ok s ↦ elim (link_parents v (justification_set_id fact.id index) fact s s.all) [
    | refused x ↦ refused x
    | built v' ↦ link_sets v' fact (suc index) sets
  ]
]

-- The loop over the facts.
unfoldable pub link_facts : Engine → List String → Built
unfolding link_sets
link_facts v [] = built v
link_facts v (id ∷ ids) = elim (lookup id v.facts) [
  | none ↦ link_facts v ids
  | some fact ↦ elim (link_sets v fact 0 fact.justification_sets) [
    | refused x ↦ refused x
    | built v' ↦ link_facts v' ids
  ]
]

-- buildValidationEngine
unfoldable pub build_validation_engine : Env → Map Fact → Built
unfolding link_facts
build_validation_engine env facts =
    link_facts (record new_engine { facts = facts }) (env.range 0 (keys facts))

abbrev pub of_cycle_check : CycleCheck → Restoring → Restoring
of_cycle_check Cycles.acyclic rest = rest
of_cycle_check (Cycles.bad_token x) rest = bad_token x
of_cycle_check (Cycles.cycle path) rest = cycle path
of_cycle_check Cycles.undecided rest = undecided

-- The check of each fact for a cycle.
unfoldable pub check_facts : Env → Engine → List String → Restoring
unfolding detect_cycle
check_facts env v [] = restored
check_facts env v (id ∷ ids) = elim (lookup id v.facts) [
  | none ↦ check_facts env v ids
  | some fact ↦ of_cycle_check (detect_cycle env v fact) (check_facts env v ids)
]

abbrev pub check_built : Env → Built → Restoring
check_built env (refused x) = x
check_built env (built v) = check_facts env v (env.range 1 (keys v.facts))

-- The tests of the decoded state.
unfoldable pub check_state : Env → State → Restoring
unfolding build_validation_engine check_facts
check_state env s =
    if ltb max_facts_per_session (length s.facts)
    then too_many_facts
    else check_built env (build_validation_engine env s.facts)

-- The engine with the decoded state.
unfoldable pub restore : Engine → State → Engine
restore e s = record e {
  facts = s.facts;
  justification_sets = s.justification_sets;
  children_index = s.children_index;
  collapsed_roots = s.collapsed_roots;
  retracted_facts = s.retracted_facts;
  mutation_count = s.mutation_count;
  dirty_dominators = true;
}

abbrev pub commit : Engine → State → Restoring → Restoring × Engine
commit e s restored = (restored, restore e s)
commit e s x = (x, e)

unfoldable pub restore_decoded : Env → Engine → Option State → Restoring × Engine
unfolding check_state restore
restore_decoded env e none = (undecodable, e)
restore_decoded env e (some s) = commit e s (check_state env s)

-- FromSnapshot
unfoldable pub from_snapshot : Codec → Env → Engine → Option Saved → Restoring × Engine
unfolding restore_decoded
from_snapshot codec env e none = (nil_snapshot, e)
from_snapshot codec env e (some saved) =
    if eqb (codec.checksum_ieee saved.bytes) saved.checksum
    then restore_decoded env e (codec.decode saved.bytes)
    else (checksum_mismatch, e)
