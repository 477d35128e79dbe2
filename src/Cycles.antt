-- ===== src/Cycles.antt =====
-- core/cycles.go: the search for a path that a new fact would close to a cycle.
pub mod Sound
use velarix.Prelude.{
  ℕ, zero, suc, String, none, some, List, [], ◌∷◌, ◌++◌, ◌==◌, if◌then◌else◌, contains, lookup, has,
}
use velarix.Env.{Env}
use velarix.Fact.{Fact}
use velarix.Dependencies.{TokenError, ok, err, normalize_dependency_token}
use velarix.Engine.{Engine, children}

-- `found` holds the path, `absent` the ids visited so far.
pub data Search : Type 0 where
  found : List String → Search
  absent : List String → Search
  exhausted : Search

abbrev extend : String → Search → Search
extend id (found path) = found (id ∷ path)
extend id (absent visited) = absent visited
extend id exhausted = exhausted

-- The loop of `reachable` over the sets that depend on a fact; `go` is the call for a child.
unfoldable pub through_sets :
    (String → List String → Search) → Engine → List String → List String → Search
through_sets go e [] visited = absent visited
through_sets go e (set_id ∷ rest) visited = elim (lookup set_id e.justification_sets) [
  | none ↦ through_sets go e rest visited
  | some js ↦ elim (go js.child_fact_id visited) [
    | found path ↦ found path
    | absent visited' ↦ through_sets go e rest visited'
    | exhausted ↦ exhausted
  ]
]

-- reachable, for a search at most `fuel` calls deep
unfoldable pub reachable : Env → Engine → String → ℕ → String → List String → Search
unfolding through_sets
reachable env e target zero from visited =
    if from == target
    then found (target ∷ [])
    else if contains visited from
    then absent visited
    else exhausted
reachable env e target (suc fuel) from visited =
    let deeper = extend from (
      through_sets (reachable env e target fuel) e (env.range fuel (children e from))
        (from ∷ visited)) in
    if from == target
    then found (target ∷ [])
    else if contains visited from
    then absent visited
    else deeper

pub data CycleCheck : Type 0 where
  acyclic : CycleCheck
  bad_token : TokenError → CycleCheck
  cycle : List String → CycleCheck
  undecided : CycleCheck

abbrev pub judged : (List String → List String) → CycleCheck → Search → CycleCheck
judged close rest (found path) = cycle (close path)
judged close rest (absent visited) = rest
judged close rest exhausted = undecided

-- One token of the new fact, in front of the rest of the check.
unfoldable pub check_parent : Env → Engine → String → String → CycleCheck → CycleCheck
unfolding reachable
check_parent env e new_id parent_id rest =
    if has new_id e.facts
    then judged (λ path. path ++ new_id ∷ []) rest (reachable env e parent_id env.fuel new_id [])
    else judged (λ path. new_id ∷ path) rest (reachable env e new_id env.fuel parent_id [])

unfoldable pub check_tokens : Env → Engine → String → List String → CycleCheck → CycleCheck
unfolding check_parent
check_tokens env e new_id [] rest = rest
check_tokens env e new_id (token ∷ tokens) rest = elim (normalize_dependency_token token) [
  | err x ↦ bad_token x
  | ok parent_id ↦ check_parent env e new_id parent_id (check_tokens env e new_id tokens rest)
]

unfoldable pub check_sets : Env → Engine → String → List (List String) → CycleCheck
unfolding check_tokens
check_sets env e new_id [] = acyclic
check_sets env e new_id (set ∷ sets) = check_tokens env e new_id set (check_sets env e new_id sets)

-- detectCycle
unfoldable pub detect_cycle : Env → Engine → Fact → CycleCheck
unfolding check_sets
detect_cycle env e fact = check_sets env e fact.id fact.justification_sets
