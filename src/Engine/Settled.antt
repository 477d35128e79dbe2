-- ===== src/Engine/Settled.antt =====
-- The states in which nothing is left to propagate, and those in which the facts of a work list
-- are still to be looked at.
pub mod Refresh
pub mod Write
pub mod Visit
pub mod Queue
pub mod Control
pub mod Retraction
use velarix.Prelude.{
  ◌≡◌, ◌≢◌, ◌⊎◌, ℕ, String, Bool, true, false, some, List, contains, lookup, has, length, ◌+◌,
}
use velarix.Env.{Env}
use velarix.Fact.{Fact, JustificationSet}
use velarix.Ids.{justification_set_id}
use velarix.Engine.{Engine, children, reevaluate}
use velarix.Engine.Propagation.{resolve}
use velarix.Engine.Frame.{is_external, parents}

-- The links between facts and justification sets.
pub record IsLinked (e : Engine) : Type 0 where
  -- a fact stands under its own id
  pub keyed : (k : String) (f : Fact) → lookup k e.facts ≡ some f → f.id ≡ k
  -- the sets under a fact's set ids are sets of that fact
  pub owned :
      (id : String) (i : ℕ) (js : JustificationSet)
      → lookup (justification_set_id id i) e.justification_sets ≡ some js
      → js.child_fact_id ≡ id
  -- a set is listed under each parent that is a fact
  pub indexed :
      (j : String) (js : JustificationSet) (p : String) (f : Fact)
      → lookup j e.justification_sets ≡ some js
      → lookup p e.facts ≡ some f
      → contains (parents js) p ≡ true
      → contains (children e p) j ≡ true
  -- the child of a set is a fact
  pub childed :
      (j : String) (js : JustificationSet)
      → lookup j e.justification_sets ≡ some js
      → has js.child_fact_id e.facts ≡ true
  -- the parents of a set are facts
  pub known :
      (j : String) (js : JustificationSet) (p : String)
      → lookup j e.justification_sets ≡ some js
      → contains (parents js) p ≡ true
      → has p e.facts ≡ true
  -- only facts have sets listed
  pub listing : (p j : String) → contains (children e p) j ≡ true → has p e.facts ≡ true
  -- all parents are to be valid
  pub targeted :
      (j : String) (js : JustificationSet)
      → lookup j e.justification_sets ≡ some js
      → js.target_valid_parents
        ≡ length js.positive_parent_fact_ids + length js.negative_parent_fact_ids

-- Every fact has the status that its root control or its justification sets give it, and every
-- set has the count and the confidence that its parents give it.
pub record IsSettled (env : Env) (e : Engine) : Type 0 where
  pub resolved :
      (k : String) (f : Fact) → lookup k e.facts ≡ some f → f.derived_status ≡ resolve e f
  pub evaluated :
      (j : String) (js : JustificationSet) (child : Fact)
      → lookup j e.justification_sets ≡ some js
      → lookup js.child_fact_id e.facts ≡ some child
      → reevaluate env e js child ≡ js

-- The set `j` waits for a parent in the work list: an external fact whose status has changed.
pub record Awaits (e : Engine) (work : List String) (j : String) : Type 0 where
  pub parent : String
  pub fact : Fact
  pub queued : contains work parent ≡ true
  pub listed : contains (children e parent) j ≡ true
  pub present : lookup parent e.facts ≡ some fact
  pub external : is_external e fact ≡ true
  pub stale : fact.derived_status ≢ resolve e fact

-- Settled but for the facts of the work list and the sets `open_sets`.
pub record IsSettling (env : Env) (e : Engine) (work open_sets : List String) : Type 0 where
  pub resolved :
      (k : String) (f : Fact)
      → lookup k e.facts ≡ some f
      → contains work k ≡ false
      → f.derived_status ≡ resolve e f
  pub evaluated :
      (j : String) (js : JustificationSet) (child : Fact)
      → lookup j e.justification_sets ≡ some js
      → lookup js.child_fact_id e.facts ≡ some child
      → contains open_sets j ≡ false
      → (reevaluate env e js child ≡ js) ⊎ Awaits e work j
