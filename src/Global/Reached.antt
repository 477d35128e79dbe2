-- ===== src/Global/Reached.antt =====
-- The stores that the operations on global facts lead to from the empty one.
pub mod Facts
use mathlib.Core.Path.{subst}
use velarix.Prelude.{
  String, ◌≡◌, ◌==◌, inl, inr, refl, sym, Bool, Option, none, some, contains, lookup, erase, insert,
  has, Bool-cases, Option-cases,
}
use velarix.Env.{Env}
use velarix.Fact.{Fact}
use velarix.Engine.{Engine}
use velarix.Engine.Assertion.{assert_fact}
use velarix.Engine.Operations.{retract_fact, reason_or}
use velarix.Global.{
  GlobalTruth, members, kept, flagged, subscribe, unsubscribe, index_fact_dependencies,
  new_global_truth,
}
use velarix.Global.Broadcast.{
  assert_global, assert_targets, retract_global, retract_targets, broadcast_to, broadcast_from,
  next_version,
}
use velarix.Global.Index.{
  IsInverse, subscribe-IsInverse, remove_session_index-IsInverse, index_fact_dependencies-IsInverse,
}

-- The operations that change the store.
pub data Step (env : Env) : GlobalTruth → GlobalTruth → Type 0 where
  asserts : {g g' : GlobalTruth} (o : Option Fact) → g' ≡ (assert_global env g o).1 → Step env g g'
  retracts :
      {g g' : GlobalTruth} (id reason : String)
      → g' ≡ (retract_global env g id reason).1
      → Step env g g'
  subscribes :
      {g g' : GlobalTruth} (session : String) (o : Option Engine)
      → g' ≡ (subscribe env g session o).1
      → Step env g g'
  unsubscribes :
      {g g' : GlobalTruth} (session : String) → g' ≡ unsubscribe g session → Step env g g'
  indexes :
      {g g' : GlobalTruth} (session : String) (o : Option Fact)
      → g' ≡ index_fact_dependencies g session o
      → Step env g g'

-- What is reached from an empty store, whatever the clock reads at each step.
pub data IsReached : GlobalTruth → Type 0 where
  initial : {g : GlobalTruth} → g ≡ new_global_truth → IsReached g
  further :
      {before g : GlobalTruth} (env : Env) → IsReached before → Step env before g → IsReached g

new_global_truth-IsInverse : IsInverse new_global_truth
unfolding members lookup contains
new_global_truth-IsInverse id s = refl

-- A broadcast leaves the indexes alone.
broadcast_to-IsInverse :
    (step : Engine → Option Engine) (g : GlobalTruth) (targets : Option (String → Bool))
    → IsInverse g
    → IsInverse (broadcast_to step g targets).1
unfolding broadcast_to
broadcast_to-IsInverse step g none inverse = inverse
broadcast_to-IsInverse step g (some targeted) inverse =
    elim (Option-cases (broadcast_from step g.subscribers targeted)) [
      | inl endless ↦ rw (endless, broadcast_to) inverse
      | inr (subscribers, ends) ↦ rw (ends, broadcast_to) inverse
    ]

assert_global-IsInverse :
    (env : Env) (g : GlobalTruth) (o : Option Fact)
    → IsInverse g
    → IsInverse (assert_global env g o).1
unfolding assert_global
assert_global-IsInverse env g none inverse = inverse
assert_global-IsInverse env g (some f) inverse =
    let g' : GlobalTruth = record g {
      facts = insert f.id f g.facts;
      retracted = erase f.id g.retracted;
      version = next_version g.version;
    } in
    broadcast_to-IsInverse (λ e. kept (assert_fact env e (some (flagged f)))) g'
      (assert_targets env g' f.id (has f.id g.facts)) inverse

retract_global-IsInverse :
    (env : Env) (g : GlobalTruth) (id reason : String)
    → IsInverse g
    → IsInverse (retract_global env g id reason).1
unfolding retract_global
retract_global-IsInverse env g id reason inverse =
    let given = reason_or "global_retract" reason in
    let g' : GlobalTruth = record g {
      retracted = insert id given g.retracted;
      version = next_version g.version;
    } in
    elim (Bool-cases (id == "")) [
      | inl nameless ↦ rw nameless inverse
      | inr named ↦ elim (Bool-cases (has id g.facts)) [
        | inr unknown ↦ rw (named, unknown) inverse
        | inl known ↦
            rw (named, known)
              (broadcast_to-IsInverse (λ e. kept (retract_fact env e id given)) g'
                (retract_targets env g' id) inverse)
      ]
    ]

Step-IsInverse : (env : Env) (g g' : GlobalTruth) → Step env g g' → IsInverse g → IsInverse g'
unfolding unsubscribe
Step-IsInverse env g g' (asserts o is) inverse =
    subst IsInverse (sym is) (assert_global-IsInverse env g o inverse)
Step-IsInverse env g g' (retracts id reason is) inverse =
    subst IsInverse (sym is) (retract_global-IsInverse env g id reason inverse)
Step-IsInverse env g g' (subscribes session o is) inverse =
    subst IsInverse (sym is) (subscribe-IsInverse env g session o inverse)
Step-IsInverse env g g' (unsubscribes session is) inverse = subst IsInverse (sym is) (
    remove_session_index-IsInverse (record g { subscribers = erase session g.subscribers }) session
      inverse)
Step-IsInverse env g g' (indexes session o is) inverse =
    subst IsInverse (sym is) (index_fact_dependencies-IsInverse g session o inverse)

-- In a store that global facts and retractions, subscriptions, cancellations and new facts of
-- sessions have led to from the empty one, a session stands under a fact in one index exactly when
-- the fact stands under the session in the other.
pub IsReached-IsInverse : (g : GlobalTruth) → IsReached g → IsInverse g
IsReached-IsInverse g (initial is) = subst IsInverse (sym is) new_global_truth-IsInverse
IsReached-IsInverse g (further {before} env reached step) =
    Step-IsInverse env before g step (IsReached-IsInverse before reached)
