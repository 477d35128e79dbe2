-- ===== src/Global/Broadcast.antt =====
-- `AssertGlobal` and `RetractGlobal` of core/global_truth.go, and the subscribers that they reach. The
-- counter of the broadcasts is left out.
pub mod Reaches
pub mod Retracts
use velarix.Prelude.{
  ℕ, ◌+◌, ◌%◌, String, Bool, true, false, ◌&&◌, not, Option, none, some, List, [], ◌∷◌, ◌==◌, ltb,
  if◌then◌else◌, contains, add, Map, lookup, insert, erase, has, keys, length,
}
use velarix.Env.{Env}
use velarix.Fact.{Fact}
use velarix.Consistency.Report.{is_less, sort_by}
use velarix.Engine.{Engine}
use velarix.Engine.Outcome.{Outcome, done, failed, out_of_fuel}
use velarix.Engine.Assertion.{assert_fact}
use velarix.Engine.Operations.{retract_fact, reason_or}
use velarix.Global.{GlobalTruth, members, kept, flagged, with_global_truth_flag}
use velarix.Global.Partition.{partition}

-- The component of an id: the last group that holds it, or the id alone.
unfoldable pub component_from : String → List (List String) → List String → List String
component_from id [] current = current
component_from id (group ∷ groups) current =
    component_from id groups (if contains group id then group else current)

unfoldable pub add_all : List String → List String → List String
add_all [] seen = seen
add_all (s ∷ sessions) seen = add_all sessions (add seen s)

unfoldable pub sessions_of : Map (List String) → List String → List String → List String
unfolding add_all
sessions_of index [] seen = seen
sessions_of index (id ∷ ids) seen = sessions_of index ids (add_all (members index id) seen)

-- affectedSubscribersLocked
unfoldable pub affected_subscribers : Env → GlobalTruth → String → Option (List String)
unfolding partition component_from sessions_of sort_by is_less
affected_subscribers env g id = elim (partition env g.facts) [
  | none ↦ none
  | some groups ↦
      some (sort_by is_less (sessions_of g.dep_index (component_from id groups (id ∷ [])) []))
]

-- A broadcast to the engines of some of the sessions.
unfoldable pub broadcast_from :
    (Engine → Option Engine) → Map Engine → (String → Bool) → Option (Map Engine)
broadcast_from step [] targeted = some []
broadcast_from step ((session, e) ∷ more) targeted =
    let rest = broadcast_from step more targeted in
    elim (if targeted session then step e else some e) [
      | none ↦ none
      | some e' ↦ elim rest [ none ↦ none | some more' ↦ some ((session, e') ∷ more') ]
    ]

-- Whether a session that subscribes is among the affected ones.
unfoldable pub any_subscribed : Map Engine → List String → Bool
any_subscribed subscribers [] = false
any_subscribed subscribers (s ∷ sessions) =
    let rest = any_subscribed subscribers sessions in if has s subscribers then true else rest

pub data Broadcast : Type 0 where
  at_version : ℕ → Broadcast
  nil_fact empty_id global_fact_not_found : Broadcast
  unfinished : Broadcast

unfoldable pub broadcast_to :
    (Engine → Option Engine) → GlobalTruth → Option (String → Bool) → Broadcast × GlobalTruth
unfolding broadcast_from
broadcast_to step g none = (unfinished, g)
broadcast_to step g (some targeted) = elim (broadcast_from step g.subscribers targeted) [
  | none ↦ (unfinished, g)
  | some subscribers ↦ (at_version g.version, record g { subscribers = subscribers })
]

-- An int64 that counts up, as an unsigned number.
abbrev pub next_version : ℕ → ℕ
next_version v = (v + 1) % 18446744073709551616

unfoldable pub assert_targets : Env → GlobalTruth → String → Bool → Option (String → Bool)
unfolding affected_subscribers any_subscribed
assert_targets env g id existed =
    let selected : Option (String → Bool) = elim (affected_subscribers env g id) [
      | none ↦ none
      | some affected ↦ some (
          if any_subscribed g.subscribers affected
          then (λ session. contains affected session)
          else (λ session. true))
    ] in
    if existed then selected else some (λ session. true)

-- AssertGlobal
unfoldable pub assert_global : Env → GlobalTruth → Option Fact → Broadcast × GlobalTruth
unfolding assert_targets broadcast_to with_global_truth_flag
assert_global env g none = (nil_fact, g)
assert_global env g (some f) =
    let g' : GlobalTruth = record g {
      facts = insert f.id f g.facts;
      retracted = erase f.id g.retracted;
      version = next_version g.version;
    } in
    broadcast_to (λ e. kept (assert_fact env e (some (flagged f)))) g'
      (assert_targets env g' f.id (has f.id g.facts))

unfoldable pub retract_targets : Env → GlobalTruth → String → Option (String → Bool)
unfolding affected_subscribers
retract_targets env g id = elim (affected_subscribers env g id) [
  | none ↦ none
  | some affected ↦ some (
      if ltb 0 (length affected) && ltb (length affected) (length g.subscribers)
      then (λ session. contains affected session)
      else (λ session. true))
]

-- RetractGlobal
unfoldable pub retract_global : Env → GlobalTruth → String → String → Broadcast × GlobalTruth
unfolding retract_targets broadcast_to
retract_global env g id given =
    let reason = reason_or "global_retract" given in
    let g' : GlobalTruth = record g {
      retracted = insert id reason g.retracted;
      version = next_version g.version;
    } in
    if id == ""
    then (empty_id, g)
    else if has id g.facts
    then broadcast_to (λ e. kept (retract_fact env e id reason)) g' (retract_targets env g' id)
    else (global_fact_not_found, g)
