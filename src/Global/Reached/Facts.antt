-- ===== src/Global/Reached/Facts.antt =====
-- What the index by fact lists are global facts.
use mathlib.Core.Path.{subst}
use velarix.Prelude.{
  String, ◌≡◌, ◌==◌, inl, inr, refl, sym, ap, ◌∙◌, Bool, true, Option, none, some, List, [], ◌∷◌,
  arith, eq_iff, contains, contains-cons, contains-nil, lookup, erase, insert, lookup-insert, has,
  keys, Map, Bool-cases, Option-cases,
}
use velarix.Env.{Env}
use velarix.Fact.{Fact}
use velarix.Engine.{Engine}
use velarix.Engine.Assertion.{assert_fact}
use velarix.Engine.Operations.{retract_fact, reason_or}
use velarix.Global.{
  GlobalTruth, members, kept, flagged, subscribe, replayed_to, replay_facts, unsubscribe,
  remove_session_index, rebuild_session_index, index_deps, index_dep, index_dep_list,
  index_fact_dependencies, deps_of_sets, deps_of_facts, new_global_truth,
}
use velarix.Global.Broadcast.{
  assert_global, assert_targets, retract_global, retract_targets, broadcast_to, broadcast_from,
  next_version,
}
use velarix.Global.Index.{IsInverse, contains-index, remove_session_index_lem}
use velarix.Global.Listed.{is_global, contains-deps_of_sets, rebuild_session_index_lem}
use velarix.Global.Reached.{
  Step, asserts, retracts, subscribes, unsubscribes, indexes, IsReached, initial, further,
  IsReached-IsInverse,
}

-- Each id under which the index lists a session is that of a global fact.
abbrev pub IsGlobal : GlobalTruth → Type 0
IsGlobal g =
    (id session : String) → contains (members g.dep_index id) session ≡ true → has id g.facts ≡ true

has-insert :
    (k : String) (f : Fact) (facts : Map Fact) (id : String)
    → has id facts ≡ true
    → has id (insert k f facts) ≡ true
has-insert k f facts id there = ground (arith, there, lookup-insert k id f facts)

broadcast_to-IsGlobal :
    (step : Engine → Option Engine) (g : GlobalTruth) (targets : Option (String → Bool))
    → IsGlobal g
    → IsGlobal (broadcast_to step g targets).1
unfolding broadcast_to
broadcast_to-IsGlobal step g none global = global
broadcast_to-IsGlobal step g (some targeted) global =
    elim (Option-cases (broadcast_from step g.subscribers targeted)) [
      | inl endless ↦ rw (endless, broadcast_to) global
      | inr (subscribers, ends) ↦ rw (ends, broadcast_to) global
    ]

assert_global-IsGlobal :
    (env : Env) (g : GlobalTruth) (o : Option Fact)
    → IsGlobal g
    → IsGlobal (assert_global env g o).1
unfolding assert_global
assert_global-IsGlobal env g none global = global
assert_global-IsGlobal env g (some f) global =
    let g' : GlobalTruth = record g {
      facts = insert f.id f g.facts;
      retracted = erase f.id g.retracted;
      version = next_version g.version;
    } in
    broadcast_to-IsGlobal (λ e. kept (assert_fact env e (some (flagged f)))) g'
      (assert_targets env g' f.id (has f.id g.facts))
      (λ id session listed. has-insert f.id f g.facts id (global id session listed))

retract_global-IsGlobal :
    (env : Env) (g : GlobalTruth) (id reason : String)
    → IsGlobal g
    → IsGlobal (retract_global env g id reason).1
unfolding retract_global
retract_global-IsGlobal env g id reason global =
    let given = reason_or "global_retract" reason in
    let g' : GlobalTruth = record g {
      retracted = insert id given g.retracted;
      version = next_version g.version;
    } in
    elim (Bool-cases (id == "")) [
      | inl nameless ↦ rw nameless global
      | inr named ↦ elim (Bool-cases (has id g.facts)) [
        | inr unknown ↦ rw (named, unknown) global
        | inl known ↦
            rw (named, known)
              (broadcast_to-IsGlobal (λ e. kept (retract_fact env e id given)) g'
                (retract_targets env g' id) global)
      ]
    ]

remove_session_index-IsGlobal :
    (g : GlobalTruth) (session : String)
    → IsInverse g
    → IsGlobal g
    → IsGlobal (remove_session_index g session)
remove_session_index-IsGlobal g session inverse global id s listed =
    unfold remove_session_index in
    global id s (ground (arith, listed, remove_session_index_lem g session id s inverse))

index_deps-facts :
    (g : GlobalTruth) (session : String) (ids : List String)
    → (index_deps g session ids).facts ≡ g.facts
unfolding index_deps
index_deps-facts g session [] = refl
index_deps-facts g session (id ∷ ids) = refl

rebuild_session_index-facts :
    (g : GlobalTruth) (session : String) (e : Engine)
    → (rebuild_session_index g session e).facts ≡ g.facts
unfolding rebuild_session_index remove_session_index
rebuild_session_index-facts g session e =
    index_deps-facts (remove_session_index g session) session (deps_of_facts g.facts e.facts [])

rebuild_session_index-IsGlobal :
    (g : GlobalTruth) (session : String) (e : Engine)
    → IsInverse g
    → IsGlobal g
    → IsGlobal (rebuild_session_index g session e)
rebuild_session_index-IsGlobal g session e inverse global id s listed =
    let now = rebuild_session_index_lem g session e id s inverse in
    ap (has id) (rebuild_session_index-facts g session e) ∙ elim (Bool-cases (session == s)) [
      | inl same ↦ unfold is_global in ground (arith, now, listed, same)
      | inr other ↦ global id s (ground (arith, now, listed, other))
    ]

subscribe-IsGlobal :
    (env : Env) (g : GlobalTruth) (session : String) (o : Option Engine)
    → IsInverse g
    → IsGlobal g
    → IsGlobal (subscribe env g session o).1
unfolding subscribe replayed_to
subscribe-IsGlobal env g session none inverse global = global
subscribe-IsGlobal env g session (some e) inverse global =
    let g1 : GlobalTruth = record g { subscribers = insert session e g.subscribers } in
    let g2 = rebuild_session_index g1 session e in
    let rebuilt : IsGlobal g2 = rebuild_session_index-IsGlobal g1 session e inverse global in
    elim (Bool-cases (session == "")) [
      | inl nameless ↦ rw nameless global
      | inr named ↦ elim (Option-cases (replay_facts env g2 (env.range 0 (keys g2.facts)) e)) [
        | inl endless ↦ rw (named, endless) rebuilt
        | inr (e', ends) ↦ rw (named, ends) rebuilt
      ]
    ]

index_dep_list-IsGlobal :
    (session : String) (ids : List String) (g : GlobalTruth)
    → ((id : String) → contains ids id ≡ true → has id g.facts ≡ true)
    → IsGlobal g
    → IsGlobal (index_dep_list session ids g)
unfolding index_dep_list index_dep
index_dep_list-IsGlobal session [] g known global = global
index_dep_list-IsGlobal session (x ∷ ids) g known global =
    let x_known = known x (ground (arith, contains-cons x ids x, eq_iff x x)) in
    index_dep_list-IsGlobal session ids (index_dep session x g)
      (λ id h. known id (ground (arith, contains-cons x ids id, h)))
      (λ id s listed. elim (Bool-cases (x == id)) [
        | inl same ↦ ap (λ k. has k g.facts) (sym ((eq_iff x id).0 same)) ∙ x_known
        | inr other ↦
            global id s (ground (arith, listed, other, contains-index session x g.dep_index id s))
      ])

index_fact_dependencies-IsGlobal :
    (g : GlobalTruth) (session : String) (o : Option Fact)
    → IsGlobal g
    → IsGlobal (index_fact_dependencies g session o)
unfolding index_fact_dependencies
index_fact_dependencies-IsGlobal g session none global = global
index_fact_dependencies-IsGlobal g session (some f) global = elim (Bool-cases (session == "")) [
  | inl nameless ↦ rw nameless global
  | inr named ↦ rw named (
      index_dep_list-IsGlobal session (deps_of_sets g.facts f.justification_sets [])
        (record g { session_deps = insert session (members g.session_deps session) g.session_deps })
        (λ id h.
          let now = contains-deps_of_sets g.facts f.justification_sets [] id in
          unfold is_global in ground (arith, h, now, contains-nil id))
        global)
]

Step-IsGlobal :
    (env : Env) (g g' : GlobalTruth) → Step env g g' → IsInverse g → IsGlobal g → IsGlobal g'
unfolding unsubscribe
Step-IsGlobal env g g' (asserts o is) inverse global =
    subst IsGlobal (sym is) (assert_global-IsGlobal env g o global)
Step-IsGlobal env g g' (retracts id reason is) inverse global =
    subst IsGlobal (sym is) (retract_global-IsGlobal env g id reason global)
Step-IsGlobal env g g' (subscribes session o is) inverse global =
    subst IsGlobal (sym is) (subscribe-IsGlobal env g session o inverse global)
Step-IsGlobal env g g' (unsubscribes session is) inverse global = subst IsGlobal (sym is) (
    remove_session_index-IsGlobal (record g { subscribers = erase session g.subscribers }) session
      inverse global)
Step-IsGlobal env g g' (indexes session o is) inverse global =
    subst IsGlobal (sym is) (index_fact_dependencies-IsGlobal g session o global)

new_global_truth-IsGlobal : IsGlobal new_global_truth
unfolding members lookup contains
new_global_truth-IsGlobal id s listed = cc

-- In a store that global facts and retractions, subscriptions, cancellations and new facts of
-- sessions have led to from the empty one, each id under which the index lists a session is that
-- of a global fact.
pub IsReached-IsGlobal : (g : GlobalTruth) → IsReached g → IsGlobal g
IsReached-IsGlobal g (initial is) = subst IsGlobal (sym is) new_global_truth-IsGlobal
IsReached-IsGlobal g (further {before} env reached step) =
    Step-IsGlobal env before g step (IsReached-IsInverse before reached)
      (IsReached-IsGlobal before reached)
