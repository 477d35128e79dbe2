-- ===== src/Consistency/Report/Sound.antt =====
-- Each issue of a report is a contradiction of two facts that take part.
use velarix.Consistency.Report.Ids.{
  All-sort_by, AreBlank, IsAsked, unique_sorted_fact_ids-AreBlank, unique_sorted_fact_ids-IsAsked,
  unique_sorted_fact_ids-IsUnique,
}
use velarix.Prelude.{
  ◌⊎◌, ◌≢◌, eq_iff, arith, false, contains-cons, IsUnique, String, ◌≡◌, inl, inr, refl, Bool,
  Option, none, some, List, [], ◌∷◌, ◌++◌, Bool-cases, Option-cases, All, contains,
}
use velarix.Env.{Env}
use velarix.Fact.{Fact}
use velarix.Engine.{Engine}
use velarix.Consistency.{ConsistencyIssue, contradiction_issue_for_facts}
use velarix.Consistency.Report.{
  candidate, pair_issues, issues_with, issues_of, issues_from, unseen, consistency_issues_for_ids,
  checked_ids, unique_sorted_fact_ids, issue_less,
}

module _ {A : Type 0} (P : A → Type 0) where
  All-concat : (front back : List A) → All P back → All P front → All P (front ++ back)
  All-concat [] back rest first = rest
  All-concat (x ∷ front) back rest (one, first) = (one, All-concat front back rest first)

module _ (mismatch : Fact → Fact → Bool) (env : Env) (e : Engine) (include_invalid : Bool) where
  -- Two facts that a check of the ids compares: all facts if no id is given, or else those of two ids.
  abbrev pub IsCompared : List String → String → String → Type 0
  IsCompared ids i j = AreBlank ids ⊎ (IsAsked ids i × IsAsked ids j × (i ≢ j))

  -- The issue is the contradiction of two facts that take part.
  pub record IsFound (ids : List String) (issue : ConsistencyIssue) : Type 0 where
    pub left_id : String
    pub right_id : String
    pub left : Fact
    pub right : Fact
    pub compared : IsCompared ids left_id right_id
    pub left_is : candidate env e include_invalid left_id ≡ some left
    pub right_is : candidate env e include_invalid right_id ≡ some right
    pub contradictory : contradiction_issue_for_facts mismatch left right ≡ some issue

  -- Each id of a list is compared with those after it.
  abbrev AreCompared : List String → List String → Type 0
  AreCompared ids [] = Unit
  AreCompared ids (i ∷ l) = All (IsCompared ids i) l × AreCompared ids l

  IsCompared-All :
      (ids : List String) (i : String) (l : List String)
      → IsAsked ids i
      → contains l i ≡ false
      → All (IsAsked ids) l
      → All (IsCompared ids i) l
  IsCompared-All ids i [] asked apart h = tt
  IsCompared-All ids i (j ∷ l) asked apart (first, rest) = (
    inr (asked, first, λ same. ground (arith, apart, contains-cons j l i, eq_iff j i, same)),
    IsCompared-All ids i l asked (ground (arith, apart, contains-cons j l i)) rest,
  )

  asked-AreCompared : (ids l : List String) → All (IsAsked ids) l → IsUnique l → AreCompared ids l
  asked-AreCompared ids [] h u = tt
  asked-AreCompared ids (i ∷ l) (first, rest) (apart, unique) =
      (IsCompared-All ids i l first apart rest, asked-AreCompared ids l rest unique)

  blank-All :
      (ids : List String) (i : String) (l : List String) → AreBlank ids → All (IsCompared ids i) l
  blank-All ids i [] blank = tt
  blank-All ids i (j ∷ l) blank = (inl blank, blank-All ids i l blank)

  blank-AreCompared : (ids l : List String) → AreBlank ids → AreCompared ids l
  blank-AreCompared ids [] blank = tt
  blank-AreCompared ids (i ∷ l) blank = (blank-All ids i l blank, blank-AreCompared ids l blank)

  checked-AreCompared :
      (ids l : List String)
      → (l ≡ [] → AreBlank ids)
      → All (IsAsked ids) l
      → IsUnique l
      → AreCompared ids (checked_ids env e l)
  unfolding checked_ids
  checked-AreCompared ids [] none_given asked unique = blank-AreCompared ids _ (none_given refl)
  checked-AreCompared ids (i ∷ l) none_given asked unique =
      asked-AreCompared ids (i ∷ l) asked unique

  abbrev IsFoundPair : List String → String × ConsistencyIssue → Type 0
  IsFoundPair ids pair = IsFound ids pair.1

  pair_issues-All :
      (ids : List String) (i j : String) (a : Fact) (o : Option Fact)
      → IsCompared ids i j
      → candidate env e include_invalid i ≡ some a
      → candidate env e include_invalid j ≡ o
      → All (IsFoundPair ids) (pair_issues mismatch env e include_invalid i j a o)
  unfolding pair_issues
  pair_issues-All ids i j a none compared left right = tt
  pair_issues-All ids i j a (some b) compared left right =
      elim (Option-cases (contradiction_issue_for_facts mismatch a b)) [
        | inl none_found ↦ rw (none_found, pair_issues) tt
        | inr (issue, found) ↦
            rw (found, pair_issues)
              (
                record {
                  left_id = i;
                  right_id = j;
                  left = a;
                  right = b;
                  compared = compared;
                  left_is = left;
                  right_is = right;
                  contradictory = found;
                },
                tt,
              )
      ]

  issues_with-All :
      (ids : List String) (i : String) (a : Fact) (l : List String)
      → All (IsCompared ids i) l
      → candidate env e include_invalid i ≡ some a
      → All (IsFoundPair ids) (issues_with mismatch env e include_invalid i a l)
  unfolding issues_with
  issues_with-All ids i a [] compared left = tt
  issues_with-All ids i a (j ∷ l) (first, rest) left =
      All-concat (IsFoundPair ids) _ _ (issues_with-All ids i a l rest left)
        (pair_issues-All ids i j a _ first left refl)

  issues_of-All :
      (ids : List String) (i : String) (o : Option Fact) (l : List String)
      → All (IsCompared ids i) l
      → candidate env e include_invalid i ≡ o
      → All (IsFoundPair ids) (issues_of mismatch env e include_invalid i o l)
  unfolding issues_of
  issues_of-All ids i none l compared left = tt
  issues_of-All ids i (some a) l compared left = issues_with-All ids i a l compared left

  issues_from-All :
      (ids l : List String)
      → AreCompared ids l
      → All (IsFoundPair ids) (issues_from mismatch env e include_invalid l)
  unfolding issues_from
  issues_from-All ids [] compared = tt
  issues_from-All ids (i ∷ l) (first, rest) =
      All-concat (IsFoundPair ids) _ _ (issues_from-All ids l rest)
        (issues_of-All ids i _ l first refl)

  unseen-All :
      (ids seen : List String) (pairs : List (String × ConsistencyIssue))
      → All (IsFoundPair ids) pairs
      → All (IsFound ids) (unseen mismatch env e include_invalid seen pairs)
  unfolding unseen
  unseen-All ids seen [] h = tt
  unseen-All ids seen ((key, issue) ∷ rest) (one, more) = elim (Bool-cases (contains seen key)) [
    | inl twice ↦ rw twice (unseen-All ids seen rest more)
    | inr first ↦ rw first (one, unseen-All ids (key ∷ seen) rest more)
  ]

  -- Each issue that a check of ids reports is the contradiction of two facts of the engine that take
  -- part in it: unless all ids are blank, when all facts are compared, they are the facts of two
  -- different ids that were given, and unless invalid facts are included, both reach the threshold.
  pub consistency_issues_for_ids-IsFound :
      (ids : List String)
      → All (IsFound ids) (consistency_issues_for_ids mismatch env e include_invalid ids)
  unfolding consistency_issues_for_ids
  consistency_issues_for_ids-IsFound ids =
      let sorted = unique_sorted_fact_ids ids in
      let compared =
        checked-AreCompared ids sorted (unique_sorted_fact_ids-AreBlank ids)
          (unique_sorted_fact_ids-IsAsked ids) (unique_sorted_fact_ids-IsUnique ids) in
      All-sort_by (IsFound ids) (issue_less mismatch env e include_invalid) _
        (unseen-All ids [] _ (issues_from-All ids (checked_ids env e sorted) compared))
