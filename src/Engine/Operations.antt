-- ===== src/Engine/Operations.antt =====
-- The operations of core/engine.go that change a fact: `InvalidateRoot`, `SetRootConfidence`,
-- `RetractFact` and `SweepExpiredFacts`.
pub mod Settles
use velarix.Prelude.{
  ◌+◌, String, Bool, false, ◌&&◌, not, Option, none, some, List, [], ◌∷◌, ◌++◌, ◌==◌, ltb, eqb,
  if◌then◌else◌, lookup, insert, has, add, discard, keys, pos, eqbℤ, ltbℤ,
}
use velarix.Env.{Env}
use velarix.Fact.{Fact, Status, invalid, threshold}
use velarix.Engine.{Engine}
use velarix.Engine.Propagation.{propagate}
use velarix.Engine.Outcome.{Outcome, not_found, not_root, done, failed, settled}

-- Marks a root as invalid, in front of the propagation.
unfoldable pub mark_invalid : Engine → String → Fact → Engine
mark_invalid e id fact = record e {
  facts = insert id (record fact { manual_status = invalid }) e.facts;
  collapsed_roots = add e.collapsed_roots id;
  mutation_count = e.mutation_count + 1;
}

unfoldable pub invalidate_found : Env → Engine → String → Option Fact → Outcome × Engine
unfolding mark_invalid
invalidate_found env e id none = (failed not_found, e)
invalidate_found env e id (some fact) =
    if not fact.is_root
    then (failed not_root, e)
    else if eqb fact.manual_status invalid
    then (done, e)
    else settled (mark_invalid e id fact) (propagate env (mark_invalid e id fact) (id ∷ []))

-- InvalidateRoot
unfoldable pub invalidate_root : Env → Engine → String → Outcome × Engine
unfolding invalidate_found
invalidate_root env e id = invalidate_found env e id (lookup id e.facts)

-- Writes the confidence of a root, in front of the propagation.
unfoldable pub mark_confidence : Engine → String → Fact → Status → Engine
mark_confidence e id fact confidence = record e {
  facts = insert id (record fact { manual_status = confidence }) e.facts;
  collapsed_roots =
      if ltb confidence threshold then add e.collapsed_roots id else discard e.collapsed_roots id;
  mutation_count = e.mutation_count + 1;
}

unfoldable pub set_found : Env → Engine → String → Status → Option Fact → Outcome × Engine
unfolding mark_confidence
set_found env e id confidence none = (failed not_found, e)
set_found env e id confidence (some fact) =
    if not fact.is_root
    then (failed not_root, e)
    else if eqb fact.manual_status confidence
    then (done, e)
    else let marked = mark_confidence e id fact confidence in
      settled marked (propagate env marked (id ∷ []))

-- SetRootConfidence
unfoldable pub set_root_confidence : Env → Engine → String → Status → Outcome × Engine
unfolding set_found
set_root_confidence env e id confidence = set_found env e id confidence (lookup id e.facts)

abbrev pub reason_or : String → String → String
reason_or default reason = if reason == "" then default else reason

unfoldable pub has_reason : String → Option String → Bool
has_reason reason none = false
has_reason reason (some r) = r == reason

unfoldable pub mark_retracted : Engine → String → String → Engine
mark_retracted e id reason = record e {
  retracted_facts = insert id reason e.retracted_facts;
  mutation_count = e.mutation_count + 1;
}

-- RetractFact
unfoldable pub retract_fact : Env → Engine → String → String → Outcome × Engine
unfolding mark_retracted has_reason
retract_fact env e id given =
    let reason = reason_or "retracted" given in
    let marked = mark_retracted e id reason in
    if not (has id e.facts)
    then (failed not_found, e)
    else if has_reason reason (lookup id e.retracted_facts)
    then (done, e)
    else settled marked (propagate env marked (id ∷ []))

-- The test of the first loop of `SweepExpiredFacts`.
unfoldable pub is_due : Env → Engine → Fact → Bool
is_due env e fact =
    not (eqbℤ fact.valid_until (pos 0))
    && ltbℤ fact.valid_until (pos env.now)
    && not (has fact.id e.retracted_facts)

unfoldable pub expire : Env → Engine → List String → Option Fact → Engine × List String
unfolding is_due
expire env e expired none = (e, expired)
expire env e expired (some fact) =
    if is_due env e fact
    then (
      record e { retracted_facts = insert fact.id "expired" e.retracted_facts },
      expired ++ fact.id ∷ [],
    )
    else (e, expired)

-- The first loop: the newly expired facts, in the order in which the loop meets them.
unfoldable pub expire_all : Env → Engine → List String → List String → Engine × List String
unfolding expire
expire_all env e expired [] = (e, expired)
expire_all env e expired (key ∷ rest) =
    let (e', expired') = expire env e expired (lookup key e.facts) in
    expire_all env e' expired' rest

-- The second loop: one propagation for each of them.
unfoldable pub propagate_each : Env → Engine → List String → Option Engine
propagate_each env e [] = some e
propagate_each env e (id ∷ rest) = elim (propagate env e (id ∷ [])) [
  | none ↦ none
  | some e' ↦ propagate_each env e' rest
]

unfoldable pub propagate_expired : Env → Engine → List String → Outcome × Engine
unfolding propagate_each
propagate_expired env e [] = (done, e)
propagate_expired env e (id ∷ rest) =
    let counted = record e { mutation_count = e.mutation_count + 1 } in
    settled counted (propagate_each env counted (id ∷ rest))

-- SweepExpiredFacts, with the ids that it returns.
unfoldable pub sweep_expired_facts : Env → Engine → (Outcome × Engine) × List String
unfolding expire_all propagate_expired
sweep_expired_facts env e =
    let (e', expired) = expire_all env e [] (env.range 0 (keys e.facts)) in
    (propagate_expired env e' expired, expired)
