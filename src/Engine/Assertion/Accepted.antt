-- ===== src/Engine/Assertion/Accepted.antt =====
-- A new fact on known parents is accepted: no new fact closes a cycle.
use velarix.Prelude.{
  ℕ, suc, ◌+◌, ◌≤◌, ◌<◌, String, ◌≡◌, ◌≢◌, ◌⊎◌, inl, inr, refl, ap, ◌∙◌, true, false, not, ◌&&◌,
  none, some, List, [], ◌∷◌, contains, arith, leb, eqb, length, lookup, has, List-cases, All,
}
use velarix.Env.{Env}
use velarix.Fact.{Fact, JustificationSet}
use velarix.Dependencies.{normalize_dependency_token}
use velarix.Engine.{Engine, children}
use velarix.Engine.Outcome.{done}
use velarix.Engine.Rounds.{weight, IsOrdered}
use velarix.Engine.Settled.{IsLinked}
use velarix.Engine.Stable.{IsStable}
use velarix.Engine.Assertion.{
  fresh, Validation, assert_fact, check_tokens, check_sets, check_new, validate_assert_fact,
  max_facts_per_session,
}
use velarix.Engine.Assertion.Known.{IsKnown}
use velarix.Engine.Assertion.Entered.{rank_with}
use velarix.Engine.Assertion.Settles.{assert_fact_settles}
use velarix.Cycles
use velarix.Cycles.{CycleCheck, acyclic, Search, judged, check_parent, reachable, detect_cycle}
use velarix.Cycles.Sound.{Ended, reachable-Ended}

-- The tokens of a set that is not empty refer to facts.
abbrev pub IsWellGrounded : Engine → List String → Type 0
IsWellGrounded e set = (set ≢ []) × All (IsKnown e) set

judged_lem :
    (e : Engine) (id p : String) (rest : CycleCheck) (s : Search)
    → lookup id e.facts ≡ none
    → has p e.facts ≡ true
    → Ended (λ x. x ≡ id) p s
    → judged (λ path. id ∷ path) rest s ≡ rest
judged_lem e id p rest (Search.found path) gone known h = cc (known, gone, h)
judged_lem e id p rest (Search.absent visited) gone known h = refl
judged_lem e id p rest Search.exhausted gone known h = absurd h

module _ (rank : String → ℕ) (top width : ℕ) (env : Env) (e : Engine) (linked : IsLinked e)
    (o : IsOrdered rank top width e) (enough : top < env.fuel) (id : String)
    (gone : lookup id e.facts ≡ none) where
  -- A fact that is not there is the child of no set.
  no_child :
      (q j : String) (js : JustificationSet)
      → contains (children e q) j ≡ true
      → lookup j e.justification_sets ≡ some js
      → js.child_fact_id ≡ id
      → q ≡ id
  no_child q j js listed at_j same = cc (linked.childed j js at_j, gone, same)

  check_parent_lem :
      (p : String) (rest : CycleCheck) → has p e.facts ≡ true → check_parent env e id p rest ≡ rest
  unfolding check_parent
  check_parent_lem p rest known =
      let ended =
        reachable-Ended rank top env e o.rising id (λ x. x ≡ id) refl no_child env.fuel p []
          (omega arith) in
      rw gone (judged_lem e id p rest (reachable env e id env.fuel p []) gone known ended)

  cycle_tokens_lem :
      (set : List String) (rest : CycleCheck)
      → All (IsKnown e) set
      → Cycles.check_tokens env e id set rest ≡ rest
  unfolding Cycles.check_tokens normalize_dependency_token
  cycle_tokens_lem [] rest known = refl
  cycle_tokens_lem (token ∷ set) rest ((r, parsed, there), known) =
      rw (parsed, Cycles.check_tokens)
        (check_parent_lem r.fact_id (Cycles.check_tokens env e id set rest) there
          ∙ cycle_tokens_lem set rest known)

  cycle_sets_lem :
      (sets : List (List String))
      → All (IsWellGrounded e) sets
      → Cycles.check_sets env e id sets ≡ acyclic
  unfolding Cycles.check_sets
  cycle_sets_lem [] known = refl
  cycle_sets_lem (set ∷ sets) ((_, one), known) =
      cycle_tokens_lem set (Cycles.check_sets env e id sets) one ∙ cycle_sets_lem sets known

check_tokens_lem :
    (e : Engine) (set : List String) (rest : Validation)
    → All (IsKnown e) set
    → check_tokens e set rest ≡ rest
unfolding check_tokens normalize_dependency_token
check_tokens_lem e [] rest known = refl
check_tokens_lem e (token ∷ set) rest ((r, parsed, there), known) =
    rw (parsed, there, check_tokens) (check_tokens_lem e set rest known)

check_sets_lem :
    (e : Engine) (sets : List (List String)) (rest : Validation)
    → All (IsWellGrounded e) sets
    → check_sets e sets rest ≡ rest
unfolding check_sets
check_sets_lem e [] rest known = refl
check_sets_lem e ([] ∷ sets) rest ((filled, _), known) = absurd (filled refl)
check_sets_lem e ((token ∷ tokens) ∷ sets) rest ((_, one), known) =
    check_tokens_lem e (token ∷ tokens) (check_sets e sets rest) one
    ∙ check_sets_lem e sets rest known

-- A fact that can be asserted: there is room, its id is new, it is a root or has justification sets,
-- and these hold tokens, all of which refer to facts.
pub record IsAcceptable (e : Engine) (f : Fact) : Type 0 where
  pub room : length e.facts < max_facts_per_session
  pub absent : lookup f.id e.facts ≡ none
  pub justified : (f.is_root ≡ true) ⊎ (f.justification_sets ≢ [])
  pub grounded : All (IsWellGrounded e) f.justification_sets

unjustified :
    (f : Fact)
    → (f.is_root ≡ true) ⊎ (f.justification_sets ≢ [])
    → (not f.is_root && eqb (length f.justification_sets) 0) ≡ false
unjustified f (inl root) = rw root refl
unjustified f (inr filled) = elim (List-cases f.justification_sets) [
  | inl empty ↦ absurd (filled empty)
  | inr (set, sets, same) ↦ ground (arith, ap (λ (l : List (List String)). length l) same)
]

module _ (rank : String → ℕ) (top width : ℕ) (env : Env) (e : Engine) (f : Fact)
    (s : IsStable rank top width env e) (enough : top < env.fuel)
    (acceptable : IsAcceptable e f) where
  check_new_lem : check_new env e f ≡ fresh
  unfolding check_new detect_cycle
  check_new_lem =
      rw
        (
          unjustified f acceptable.justified,
          cycle_sets_lem rank top width env e s.linked s.ordered enough f.id acceptable.absent
              f.justification_sets acceptable.grounded,
        )
        (check_sets_lem e f.justification_sets fresh acceptable.grounded)

  -- With fuel above the order, a fact that can be asserted on a stable engine passes validation as
  -- new: it closes no cycle.
  pub validate_assert_fact_accepts : validate_assert_fact env e f ≡ fresh
  unfolding validate_assert_fact
  validate_assert_fact_accepts =
      let small : leb max_facts_per_session (length e.facts) ≡ false =
        ground (arith, acceptable.room) in
      rw (small, acceptable.absent, validate_assert_fact) check_new_lem

  -- With fuel for the order and its weight, AssertFact of a fact that can be asserted on a stable
  -- engine returns no error and ends in a stable engine that has the fact. A fact can be asserted
  -- if there is room for it, its id is new, it is a root or has justification sets, and each of its
  -- sets has tokens, all of which refer to facts.
  pub assert_fact_accepts :
      weight (width + length f.justification_sets) (suc top) ≤ env.fuel
      → (e' : Engine) × (assert_fact env e (some f) ≡ (done, e'))
        × IsStable (rank_with f.id top rank) (suc top) (width + length f.justification_sets) env e'
        × (has f.id e'.facts ≡ true)
  assert_fact_accepts fuel =
      assert_fact_settles rank top width env e f s validate_assert_fact_accepts fuel
