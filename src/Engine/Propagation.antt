-- ===== src/Engine/Propagation.antt =====
-- `propagate` and `recomputeChildrenForParentUnsafe` of core/engine.go.
use velarix.Prelude.{
  ℕ, zero, suc, ◌+◌, String, Bool, ◌&&◌, ◌||◌, not, Option, none, some, List, [], ◌∷◌, ◌++◌, ltb,
  leb, eqb, if◌then◌else◌, lookup, insert, has, Map,
}
use velarix.Env.{Env}
use velarix.Fact.{Fact, JustificationSet, Status, invalid, threshold}
use velarix.Ids.{justification_set_id}
use velarix.Engine.{Engine, notify, children, reevaluate}

-- The valid sets seen so far, and the greatest confidence among them.
pub record Support : Type 0 where
  pub count : ℕ
  pub best : Status

unfoldable pub support_set : Option JustificationSet → Support → Support
support_set none s = s
support_set (some js) s =
    if leb threshold js.confidence
    then record {
      count = s.count + 1;
      best = if ltb s.best js.confidence then js.confidence else s.best;
    }
    else s

-- The sets of a derived fact from the index on.
unfoldable pub support_from :
    Map JustificationSet → String → ℕ → List (List String) → Support → Support
unfolding support_set
support_from sets id index [] s = s
support_from sets id index (_ ∷ rest) s =
    support_from sets id (index + 1) rest
      (support_set (lookup (justification_set_id id index) sets) s)

unfoldable pub support : Engine → Fact → Support
unfolding support_from
support e fact =
    support_from e.justification_sets fact.id 0 fact.justification_sets
      (record { count = 0; best = invalid })

-- The status that a fact should have: the `newStatus` of `propagate`.
unfoldable pub resolve : Engine → Fact → Status
unfolding support
resolve e fact =
    if has fact.id e.retracted_facts
    then invalid
    else if fact.is_root
    then fact.manual_status
    else (support e fact).best

-- Only the branch of a derived fact writes its count of valid sets.
unfoldable pub recounted : Engine → Fact → Fact
unfolding support
recounted e fact =
    if has fact.id e.retracted_facts || fact.is_root
    then fact
    else record fact { valid_justification_count = (support e fact).count }

unfoldable pub differs : JustificationSet → JustificationSet → Bool
differs old new =
    not
      (eqb old.current_valid_parents new.current_valid_parents && eqb old.confidence new.confidence)

-- One justification set that depends on a changed fact, with the facts to look at again.
unfoldable pub refresh_set : Env → Engine → String → Engine × List String
unfolding reevaluate differs
refresh_set env e set_id = elim (lookup set_id e.justification_sets) [
  | none ↦ (e, [])
  | some js ↦ elim (lookup js.child_fact_id e.facts) [
    | none ↦ (e, [])
    | some child ↦
        let js' = reevaluate env e js child in
        (
          record e { justification_sets = insert set_id js' e.justification_sets },
          if differs js js' then child.id ∷ [] else [],
        )
  ]
]

unfoldable pub refresh_sets : Env → Engine → List String → Engine × List String
unfolding refresh_set
refresh_sets env e [] = (e, [])
refresh_sets env e (set_id ∷ rest) =
    let (e', queued) = refresh_set env e set_id in
    let (e'', more) = refresh_sets env e' rest in (e'', queued ++ more)

-- recomputeChildrenForParentUnsafe
unfoldable pub recompute_children : Env → Engine → String → Engine × List String
unfolding refresh_sets
recompute_children env e parent_id = refresh_sets env e (env.range 0 (children e parent_id))

-- One round of the loop of `propagate`, with `n` rounds left.
unfoldable pub visit_fact : Env → ℕ → Engine → String → Option Fact → Engine × List String
unfolding resolve recounted refresh_sets notify
visit_fact env n e fact_id none = (e, [])
visit_fact env n e fact_id (some fact) =
    let status = resolve e fact in
    let fact' = recounted e fact in
    if eqb status fact.derived_status
    then (record e { facts = insert fact_id fact' e.facts }, [])
    else let changed = record e {
      facts = insert fact_id (record fact' { derived_status = status }) e.facts;
    } in
      refresh_sets env (notify env changed fact.id status) (env.range n (children e fact_id))

unfoldable pub visit : Env → ℕ → Engine → String → Engine × List String
unfolding visit_fact
visit env n e fact_id = visit_fact env n e fact_id (lookup fact_id e.facts)

-- `propagate`: `none` means that the fuel ran out with facts left in the queue.
unfoldable pub propagate_from : Env → ℕ → Engine → List String → Option Engine
unfolding visit
propagate_from env n e [] = some e
propagate_from env zero e (fact_id ∷ queue) = none
propagate_from env (suc n) e (fact_id ∷ queue) =
    let (e', more) = visit env n e fact_id in propagate_from env n e' (queue ++ more)

unfoldable pub propagate : Env → Engine → List String → Option Engine
unfolding propagate_from
propagate env e queue = propagate_from env env.fuel e queue
