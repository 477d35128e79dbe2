-- ===== src/Consistency/Report.antt =====
-- `CheckConsistency` of core/consistency.go: the pairs of facts that are compared, and the report.
-- The last sort keeps the order of issues that it takes as equal, where sort.Slice may not.
pub mod Sound
pub mod Ids
use Prim.Native.Nat.{lt, eq, gt}
use Prim.Native.String.{compare, ◌++◌ as concat}
use velarix.Prelude.{
  ℕ, String, Bool, true, false, not, ◌&&◌, ◌||◌, Option, none, some, List, [], ◌∷◌, ◌++◌, ◌==◌, ltb,
  if◌then◌else◌, contains, trim_space, lookup, keys, length,
}
use velarix.Env.{Env}
use velarix.Fact.{Fact, threshold}
use velarix.Engine.{Engine, effective_status}
use velarix.Consistency.{
  Conflict, explicit_contradiction, claim_value_conflict, predicate_object_conflict,
  polarity_conflict, semantic_negation_conflict, ConsistencyIssue, contradiction_issue_for_facts,
}

-- a < b on texts
unfoldable pub is_less : String → String → Bool
is_less s t = elim (compare s t) [ lt ↦ true | eq ↦ false | gt ↦ false ]

unfoldable pub insert_sorted {ℓ} : {A : Type ℓ} → (A → A → Bool) → A → List A → List A
insert_sorted less x [] = x ∷ []
insert_sorted less x (y ∷ ys) =
    let rest = insert_sorted less x ys in if less y x then y ∷ rest else x ∷ y ∷ ys

-- sort.Strings and sort.Slice
unfoldable pub sort_by {ℓ} : {A : Type ℓ} → (A → A → Bool) → List A → List A
unfolding insert_sorted
sort_by less [] = []
sort_by less (x ∷ xs) = insert_sorted less x (sort_by less xs)

unfoldable pub unique_ids : List String → List String → List String
unique_ids seen [] = []
unique_ids seen (raw ∷ rest) =
    let id = trim_space raw in
    let skipped = unique_ids seen rest in
    let kept = unique_ids (id ∷ seen) rest in
    if id == "" || contains seen id then skipped else id ∷ kept

-- uniqueSortedFactIDs
unfoldable pub unique_sorted_fact_ids : List String → List String
unfolding unique_ids sort_by is_less
unique_sorted_fact_ids ids = sort_by is_less (unique_ids [] ids)

-- Without ids, all facts are compared.
unfoldable pub checked_ids : Env → Engine → List String → List String
unfolding sort_by is_less
checked_ids env e [] = sort_by is_less (env.range 0 (keys e.facts))
checked_ids env e (id ∷ ids) = id ∷ ids

-- A fact that takes part in the comparison.
unfoldable pub candidate : Env → Engine → Bool → String → Option Fact
candidate env e include_invalid id = elim (lookup id e.facts) [
  | none ↦ none
  | some f ↦
      if not include_invalid && ltb (effective_status env e f) threshold then none else some f
]

-- The type of an issue, as a text
abbrev name_of : Conflict → String
name_of explicit_contradiction = "explicit_contradiction"
name_of claim_value_conflict = "claim_value_conflict"
name_of predicate_object_conflict = "predicate_object_conflict"
name_of polarity_conflict = "polarity_conflict"
name_of semantic_negation_conflict = "semantic_negation_conflict"

module _ (mismatch : Fact → Fact → Bool) (env : Env) (e : Engine) (include_invalid : Bool) where
  -- The issue of two facts, with the key of its pair, if there is one.
  unfoldable pub pair_issues :
      String → String → Fact → Option Fact → List (String × ConsistencyIssue)
  unfolding contradiction_issue_for_facts
  pair_issues id_a id_b a none = []
  pair_issues id_a id_b a (some b) = elim (contradiction_issue_for_facts mismatch a b) [
    | none ↦ []
    | some issue ↦
        (concat (name_of issue.kind) (concat ":" (concat id_a (concat ":" id_b))), issue) ∷ []
  ]

  -- The inner loop.
  unfoldable pub issues_with : String → Fact → List String → List (String × ConsistencyIssue)
  unfolding pair_issues candidate
  issues_with id_a a [] = []
  issues_with id_a a (id ∷ ids) =
      pair_issues id_a id a (candidate env e include_invalid id) ++ issues_with id_a a ids

  unfoldable pub issues_of : String → Option Fact → List String → List (String × ConsistencyIssue)
  unfolding issues_with
  issues_of id_a none ids = []
  issues_of id_a (some a) ids = issues_with id_a a ids

  -- The outer loop, in front of the test of `seenPairs`.
  unfoldable pub issues_from : List String → List (String × ConsistencyIssue)
  unfolding issues_of candidate
  issues_from [] = []
  issues_from (id ∷ ids) = issues_of id (candidate env e include_invalid id) ids ++ issues_from ids

  -- The test of `seenPairs`, on all pairs in their order.
  unfoldable pub unseen : List String → List (String × ConsistencyIssue) → List ConsistencyIssue
  unseen seen [] = []
  unseen seen ((key, issue) ∷ rest) =
      let skipped = unseen seen rest in
      let kept = unseen (key ∷ seen) rest in if contains seen key then skipped else issue ∷ kept

  unfoldable pub joined : List String → String
  joined [] = ""
  joined (id ∷ []) = id
  joined (id ∷ next ∷ ids) = concat id (concat "," (joined (next ∷ ids)))

  unfoldable pub issue_less : ConsistencyIssue → ConsistencyIssue → Bool
  unfolding is_less joined
  issue_less i j =
      if i.severity == j.severity
      then is_less (joined i.fact_ids) (joined j.fact_ids)
      else is_less i.severity j.severity

  -- consistencyIssuesForIDsUnsafe
  unfoldable pub consistency_issues_for_ids : List String → List ConsistencyIssue
  unfolding unique_sorted_fact_ids checked_ids issues_from unseen sort_by issue_less
  consistency_issues_for_ids ids =
      sort_by issue_less (unseen [] (issues_from (checked_ids env e (unique_sorted_fact_ids ids))))

  -- CheckConsistency: the ids that were checked, and the issues
  unfoldable pub check_consistency : List String → List String × List ConsistencyIssue
  unfolding consistency_issues_for_ids
  check_consistency ids =
      let checked = checked_ids env e (unique_sorted_fact_ids ids) in
      (checked, consistency_issues_for_ids checked)
