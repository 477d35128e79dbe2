-- ===== src/Global.antt =====
-- core/global_truth.go: the facts that sessions share, the sessions that follow them, and the index of
-- the global facts that each session refers to. An engine is kept under the session it was registered
-- for. `AssertGlobal`, `RetractGlobal` and the partition stand in the modules Broadcast and Partition.
pub mod Index
pub mod Listed
pub mod Follow
pub mod Partition
pub mod Broadcast
pub mod Reached
use velarix.Prelude.{
  ℕ, suc, ◌+◌, String, Bool, true, false, ◌&&◌, not, Option, none, some, List, [], ◌∷◌, ◌++◌, ◌==◌,
  if◌then◌else◌, contains, add, discard, trim_space, Map, lookup, insert, erase, has, keys, length,
}
use velarix.Env.{Env}
use velarix.Value.{Value, Fields, bool, end, put_field}
use velarix.Fact.{Fact}
use velarix.Dependencies.{is_negated, trim_mark}
use velarix.Engine.{Engine}
use velarix.Engine.Outcome.{Outcome, done, failed, out_of_fuel}
use velarix.Engine.Assertion.{assert_fact}

pub record GlobalTruth : Type 0 where
  pub facts : Map Fact
  pub retracted : Map String
  pub version : ℕ
  pub subscribers : Map Engine
  pub dep_index : Map (List String)
  pub session_deps : Map (List String)

-- NewGlobalTruth
abbrev pub new_global_truth : GlobalTruth
new_global_truth = record {
  facts = [];
  retracted = [];
  version = 0;
  subscribers = [];
  dep_index = [];
  session_deps = [];
}

-- The set under a key of a map of sets.
unfoldable pub members : Map (List String) → String → List String
members m key = elim (lookup key m) [ none ↦ [] | some l ↦ l ]

-- A session leaves the sessions of a fact, and a fact without sessions the index.
unfoldable pub unindex_from : String → String → Map (List String) → List String → Map (List String)
unindex_from session id index [] = erase id index
unindex_from session id index (s ∷ rest) = insert id (s ∷ rest) index

unfoldable pub unindex : String → String → Map (List String) → Map (List String)
unfolding unindex_from
unindex session id index = elim (lookup id index) [
  | none ↦ index
  | some sessions ↦ unindex_from session id index (discard sessions session)
]

unfoldable pub unindex_all : String → List String → Map (List String) → Map (List String)
unfolding unindex
unindex_all session [] index = index
unindex_all session (id ∷ ids) index = unindex_all session ids (unindex session id index)

-- removeSessionIndexLocked
unfoldable pub remove_session_index : GlobalTruth → String → GlobalTruth
unfolding unindex_all members
remove_session_index g session = record g {
  session_deps = erase session g.session_deps;
  dep_index = unindex_all session (members g.session_deps session) g.dep_index;
}

-- The id that a token refers to, as the index reads it.
unfoldable pub referred : String → String
referred token = trim_space (if is_negated token then trim_mark token else token)

-- The ids of the global facts among those that tokens refer to.
unfoldable pub deps_of_token : Map Fact → String → List String → List String
unfolding referred
deps_of_token global token deps =
    if referred token == ""
    then deps
    else if has (referred token) global
    then add deps (referred token)
    else deps

unfoldable pub deps_of_set : Map Fact → List String → List String → List String
unfolding deps_of_token
deps_of_set global [] deps = deps
deps_of_set global (token ∷ tokens) deps =
    deps_of_set global tokens (deps_of_token global token deps)

unfoldable pub deps_of_sets : Map Fact → List (List String) → List String → List String
unfolding deps_of_set
deps_of_sets global [] deps = deps
deps_of_sets global (set ∷ sets) deps = deps_of_sets global sets (deps_of_set global set deps)

unfoldable pub deps_of_facts : Map Fact → Map Fact → List String → List String
unfolding deps_of_sets
deps_of_facts global [] deps = deps
deps_of_facts global ((id, f) ∷ more) deps =
    deps_of_facts global more (deps_of_sets global f.justification_sets deps)

-- `gt.depIndex[factID][sessionID] = struct{}{}`
unfoldable pub index : String → String → Map (List String) → Map (List String)
unfolding members
index session id m = insert id (add (members m id) session) m

unfoldable pub index_all : String → List String → Map (List String) → Map (List String)
unfolding index
index_all session [] m = m
index_all session (id ∷ ids) m = index_all session ids (index session id m)

unfoldable pub index_deps : GlobalTruth → String → List String → GlobalTruth
unfolding index_all
index_deps g session [] = g
index_deps g session (id ∷ ids) = record g {
  session_deps = insert session (id ∷ ids) g.session_deps;
  dep_index = index_all session (id ∷ ids) g.dep_index;
}

-- rebuildSessionIndexLocked
unfoldable pub rebuild_session_index : GlobalTruth → String → Engine → GlobalTruth
unfolding remove_session_index deps_of_facts index_deps
rebuild_session_index g session e =
    index_deps (remove_session_index g session) session (deps_of_facts g.facts e.facts [])

-- withGlobalTruthFlag
unfoldable pub with_global_truth_flag : Option Fields → Option Fields
unfolding put_field
with_global_truth_flag none = some (put_field end "_global_truth" (bool true))
with_global_truth_flag (some fs) = some (put_field fs "_global_truth" (bool true))

abbrev pub flagged : Fact → Fact
flagged f = record f { metadata = with_global_truth_flag f.metadata }

-- The engine after an `AssertFact` whose error is dropped.
abbrev pub kept : Outcome × Engine → Option Engine
kept (done, e) = some e
kept (failed x, e) = some e
kept (out_of_fuel, e) = none

unfoldable pub replay_fact : Env → Map String → Option Fact → Engine → Option Engine
unfolding with_global_truth_flag
replay_fact env retracted none e = some e
replay_fact env retracted (some f) e =
    if has f.id retracted then some e else kept (assert_fact env e (some (flagged f)))

-- The facts that are not retracted, asserted in a new subscriber.
unfoldable pub replay_facts : Env → GlobalTruth → List String → Engine → Option Engine
unfolding replay_fact
replay_facts env g [] e = some e
replay_facts env g (id ∷ ids) e = elim (replay_fact env g.retracted (lookup id g.facts) e) [
  | none ↦ none
  | some e' ↦ replay_facts env g ids e'
]

pub data Subscribed : Type 0 where
  subscribed : Subscribed
  empty_session nil_engine : Subscribed
  unfinished : Subscribed

unfoldable pub replayed_to : GlobalTruth → String → Option Engine → Subscribed × GlobalTruth
replayed_to g session none = (unfinished, g)
replayed_to g session (some e) =
    (subscribed, record g { subscribers = insert session e g.subscribers })

-- Subscribe
unfoldable pub subscribe : Env → GlobalTruth → String → Option Engine → Subscribed × GlobalTruth
unfolding rebuild_session_index replay_facts replayed_to
subscribe env g session none = (if session == "" then empty_session else nil_engine, g)
subscribe env g session (some e) =
    let g' =
      rebuild_session_index (record g { subscribers = insert session e g.subscribers }) session e in
    if session == ""
    then (empty_session, g)
    else replayed_to g' session (replay_facts env g' (env.range 0 (keys g'.facts)) e)

-- Unsubscribe
unfoldable pub unsubscribe : GlobalTruth → String → GlobalTruth
unfolding remove_session_index
unsubscribe g session =
    remove_session_index (record g { subscribers = erase session g.subscribers }) session

-- One dependency of `IndexFactDependencies`.
unfoldable pub index_dep : String → String → GlobalTruth → GlobalTruth
unfolding index
index_dep session id g = record g {
  session_deps = insert session (add (members g.session_deps session) id) g.session_deps;
  dep_index = index session id g.dep_index;
}

unfoldable pub index_dep_list : String → List String → GlobalTruth → GlobalTruth
unfolding index_dep
index_dep_list session [] g = g
index_dep_list session (id ∷ ids) g = index_dep_list session ids (index_dep session id g)

-- IndexFactDependencies: the ids are written one by one, in their order.
unfoldable pub index_fact_dependencies : GlobalTruth → String → Option Fact → GlobalTruth
unfolding index_dep_list deps_of_sets members
index_fact_dependencies g session none = g
index_fact_dependencies g session (some f) =
    if session == ""
    then g
    else index_dep_list session (deps_of_sets g.facts f.justification_sets [])
        (record g { session_deps = insert session (members g.session_deps session) g.session_deps })

-- GetGlobalFact
unfoldable pub get_global_fact : GlobalTruth → String → Option Fact
get_global_fact g id = if has id g.retracted then none else lookup id g.facts

-- SubscriberCount
unfoldable pub subscriber_count : GlobalTruth → ℕ
subscriber_count g = length g.subscribers
