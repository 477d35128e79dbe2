-- ===== src/Engine.antt =====
-- core/engine.go: the engine's state, the status of a fact at a reading of the clock, the parents
-- of a justification set, and the work queue that carries a change to what depends on it.
pub mod Propagation
pub mod Outcome
pub mod Assertion
pub mod Operations
pub mod Governance
pub mod Verification
pub mod Listeners
pub mod Snapshot
pub mod Impact
pub mod Explain
pub mod Frame
pub mod Settled
pub mod Rounds
pub mod Kept
pub mod Stable
pub mod Belief
use velarix.Prelude.{
  ℕ, zero, suc, ◌+◌, String, Bool, true, false, ◌&&◌, ◌||◌, not, Option, none, some, List, [], ◌∷◌,
  ◌++◌, ◌==◌, pos, ltb, leb, eqb, ltbℤ, length, if◌then◌else◌, contains, add, Map, lookup, insert,
  has, map,
}
use velarix.Env.{Env}
use velarix.Fact.{Fact, JustificationSet, Status, invalid, valid, threshold}
use velarix.Dependencies.{dependency_confidence, dependency_satisfied}
use velarix.Ids.{justification_set_id}

pub record ChangeEvent : Type 0 where
  pub fact_id : String
  pub status : Status
  pub timestamp : ℕ

-- A channel that `Subscribe` made, with the events that wait in its buffer.
pub record Listener : Type 0 where
  pub channel : ℕ
  pub buffer : List ChangeEvent

pub record Engine : Type 0 where
  pub facts : Map Fact
  pub justification_sets : Map JustificationSet
  pub children_index : Map (List String)
  pub collapsed_roots : List String
  pub dirty_dominators : Bool
  pub retracted_facts : Map String
  pub listeners : List Listener
  pub mutation_count : ℕ
  pub last_snapshot_time : ℕ

-- NewEngine
abbrev pub new_engine : Engine
new_engine = record {
  facts = [];
  justification_sets = [];
  children_index = [];
  collapsed_roots = [];
  dirty_dominators = false;
  retracted_facts = [];
  listeners = [];
  mutation_count = 0;
  last_snapshot_time = 0;
}

-- The `select` of `notify`: a full buffer drops the event.
unfoldable pub offer : ChangeEvent → Listener → Listener
offer event l =
    if ltb (length l.buffer) 100 then record l { buffer = l.buffer ++ event ∷ [] } else l

-- notify
unfoldable pub notify : Env → Engine → String → Status → Engine
unfolding offer
notify env e fact_id status = record e {
  listeners =
      map (offer (record { fact_id = fact_id; status = status; timestamp = env.now })) e.listeners;
}

-- `fact.ValidUntil > 0 && now > fact.ValidUntil`
unfoldable pub is_expired : ℕ → Fact → Bool
is_expired now fact = ltbℤ (pos 0) fact.valid_until && ltbℤ fact.valid_until (pos now)

-- effectiveStatusUnsafe, for the map of retracted facts
unfoldable pub status_at : ℕ → Map String → Fact → Status
unfolding is_expired
status_at now retracted fact =
    if has fact.id retracted
    then invalid
    else if is_expired now fact
    then invalid
    else if fact.is_root
    then fact.manual_status
    else fact.derived_status

abbrev pub effective_status : Env → Engine → Fact → Status
effective_status env e fact = status_at env.now e.retracted_facts fact

-- The ids that ChildrenIndex[fact_id] holds.
unfoldable pub children : Engine → String → List String
children e fact_id = elim (lookup fact_id e.children_index) [ none ↦ [] | some ids ↦ ids ]

-- The running count of satisfied parents, and the least confidence so far.
pub record Tally : Type 0 where
  pub count : ℕ
  pub least : Status

unfoldable pub tally_parent : ℕ → Map String → Fact → Bool → Option Fact → Tally → Tally
tally_parent now retracted child negated none t = t
tally_parent now retracted child negated (some parent) t =
    let status = status_at now retracted parent in
    let confidence = dependency_confidence status negated in
    record {
      count = if dependency_satisfied now parent status negated child then t.count + 1 else t.count;
      least = if ltb confidence t.least then confidence else t.least;
    }

unfoldable pub tally_parents : ℕ → Map String → Map Fact → Fact → Bool → List String → Tally → Tally
unfolding tally_parent
tally_parents now retracted facts child negated [] t = t
tally_parents now retracted facts child negated (p ∷ ps) t =
    tally_parents now retracted facts child negated ps
      (tally_parent now retracted child negated (lookup p facts) t)

-- computeJustificationSetParentsUnsafe
unfoldable pub compute_parents : Env → Engine → JustificationSet → Fact → Tally
unfolding tally_parents
compute_parents env e js child =
    tally_parents env.now e.retracted_facts e.facts child true js.negative_parent_fact_ids (
      tally_parents env.now e.retracted_facts e.facts child false js.positive_parent_fact_ids
        (record { count = 0; least = valid }))

-- A justification set after its parents are counted anew: its confidence is that of the weakest
-- parent if all are satisfied.
unfoldable pub reevaluate : Env → Engine → JustificationSet → Fact → JustificationSet
unfolding compute_parents
reevaluate env e js child =
    let t = compute_parents env e js child in
    record js {
      current_valid_parents = t.count;
      confidence = if eqb t.count js.target_valid_parents then t.least else invalid;
    }

-- addChildIndexUnsafe
unfoldable pub add_child_index : Engine → String → String → Engine
unfolding children
add_child_index e parent_id set_id = record e {
  children_index = insert parent_id (add (children e parent_id) set_id) e.children_index;
}
