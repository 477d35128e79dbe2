-- ===== src/Engine/Impact/Dependents.antt =====
-- The simulation of an invalidation ends, and what it reports depends on the fact.
use velarix.Prelude.{ℕ, ◌+◌, ◌≤◌, String, ◌≡◌, true, some, List, contains, length, lookup, has}
use velarix.Env.{Env}
use velarix.Fact.{Fact, JustificationSet}
use velarix.Engine.{Engine, children}
use velarix.Engine.Impact.{Simulation, Simulated, impacting, nil_set, exhausted}
use velarix.Engine.Impact.Growth.{unaffected}

-- Every listed set is there.
abbrev pub IsListed : Engine → Type 0
IsListed e = (p j : String) → contains (children e p) j ≡ true → has j e.justification_sets ≡ true

-- Dependence on a fact: it reaches the children of the sets that are listed under what it holds of.
abbrev pub IsClosed : Engine → (String → Type 0) → Type 0
IsClosed e Q =
    (p j : String) (js : JustificationSet)
    → Q p
    → contains (children e p) j ≡ true
    → lookup j e.justification_sets ≡ some js
    → Q js.child_fact_id

abbrev pub Each : (String → Type 0) → List String → Type 0
Each Q ids = (k : String) → contains ids k ≡ true → Q k

-- The state of the simulation between two sets: `bound` rounds are enough for the queue and for the ids
-- to come, and what was found depends on the fact.
record Simulating (e : Engine) (Q : String → Type 0) (fact_id : String) (bound : ℕ) (s : Simulation)
    (queue : List String) : Type 0 where
  enough : length queue + unaffected s.impacted e.justification_sets ≤ bound
  waiting : Each Q queue
  found : Each Q s.impacted
  itself : contains s.impacted fact_id ≡ true

-- The simulation has ended well.
abbrev Reported : (Q : String → Type 0) → String → Simulated → Type 0
Reported Q fact_id (impacting s queue) = Each Q s.impacted × (contains s.impacted fact_id ≡ true)
Reported Q fact_id nil_set = ⊥
Reported Q fact_id exhausted = ⊥
