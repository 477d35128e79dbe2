-- ===== src/Engine/Belief.antt =====
-- What a status of a settled engine rests on: the justification sets of the fact, and the parents
-- of those sets.
use mathlib.Core.Path.{subst}
use velarix.Prelude.{
  ℕ, zero, suc, ◌+◌, ◌≤◌, ◌<◌, String, ◌≡◌, ◌⊎◌, inl, inr, refl, sym, ap, ◌∙◌, Bool, true, false,
  some, List, [], ◌∷◌, arith, eqb, eqb→eq, leb, leb→le, ltb, Map, lookup, has, Bool-cases,
  Option-cases, length, All,
}
use velarix.Env.{Env}
use velarix.Fact.{Fact, JustificationSet, Status, invalid, valid, threshold}
use velarix.Dependencies.{dependency_satisfied}
use velarix.Ids.{justification_set_id}
use velarix.Engine.{
  Engine, Tally, effective_status, tally_parent, tally_parents, reevaluate, compute_parents,
}
use velarix.Engine.Propagation.{Support, support_set, support_from, support, resolve}
use velarix.Engine.Settled.{IsLinked, IsSettled}

-- The parent `p` is a fact, and satisfies the dependency of `child` on it.
abbrev pub IsSatisfied : Env → Engine → Fact → Bool → String → Type 0
IsSatisfied env e child negated p =
    (parent : Fact) × (lookup p e.facts ≡ some parent)
    × (dependency_satisfied env.now parent (effective_status env e parent) negated child ≡ true)

-- Every parent of the set satisfies its dependency.
pub record IsGrounded (env : Env) (e : Engine) (child : Fact) (js : JustificationSet) : Type 0 where
  pub positive : All (IsSatisfied env e child false) js.positive_parent_fact_ids
  pub negative : All (IsSatisfied env e child true) js.negative_parent_fact_ids

module _ (env : Env) (e : Engine) (child : Fact) (negated : Bool) where
  abbrev tally : List String → Tally → Tally
  tally = tally_parents env.now e.retracted_facts e.facts child negated

  abbrev step : String → Tally → Tally
  step p = tally_parent env.now e.retracted_facts child negated (lookup p e.facts)

  step_cases :
      (p : String) (t : Tally)
      → ((step p t).count ≡ t.count)
        ⊎ (((step p t).count ≡ t.count + 1) × IsSatisfied env e child negated p)
  unfolding tally_parent
  step_cases p t = elim (Option-cases (lookup p e.facts)) [
    | inl gone ↦ inl (rw gone)
    | inr (parent, there) ↦
        elim (Bool-cases
          (dependency_satisfied env.now parent (effective_status env e parent) negated child)) [
            | inl h ↦ inr (rw (there, h), (parent, there, h))
            | inr h ↦ inl (rw (there, h))
          ]
  ]

  tally-le : (ps : List String) (t : Tally) → (tally ps t).count ≤ t.count + length ps
  unfolding tally_parents
  tally-le [] t = omega arith
  tally-le (p ∷ ps) t = elim (step_cases p t) [
    | inl h ↦ omega (arith, tally-le ps (step p t))
    | inr (h, _) ↦ omega (arith, tally-le ps (step p t))
  ]

  -- A full count means that every parent satisfies its dependency.
  tally-All :
      (ps : List String) (t : Tally)
      → t.count + length ps ≤ (tally ps t).count
      → All (IsSatisfied env e child negated) ps
  unfolding tally_parents
  tally-All [] t h = tt
  tally-All (p ∷ ps) t h = elim (step_cases p t) [
    | inl same ↦ absurd (omega (arith, tally-le ps (step p t)))
    | inr (more, sat) ↦ (sat, tally-All ps (step p t) (omega arith))
  ]

abbrev none_yet : Tally
none_yet = record { count = 0; least = valid }

-- A set that is settled and has a confidence has all its parents satisfied.
IsGrounded-reevaluated :
    (env : Env) (e : Engine) (js : JustificationSet) (child : Fact)
    → js.target_valid_parents
      ≡ length js.positive_parent_fact_ids + length js.negative_parent_fact_ids
    → reevaluate env e js child ≡ js
    → 0 < js.confidence
    → IsGrounded env e child js
unfolding reevaluate compute_parents
IsGrounded-reevaluated env e js child target same sure =
    let full : eqb
          (tally env e child true js.negative_parent_fact_ids
            (tally env e child false js.positive_parent_fact_ids none_yet)).count
          js.target_valid_parents
        ≡ true =
      ground (arith, ap (λ (z : JustificationSet). z.confidence) same) in
    let counted : (tally env e child true js.negative_parent_fact_ids
          (tally env e child false js.positive_parent_fact_ids none_yet)).count
        ≡ js.target_valid_parents =
      eqb→eq _ _ full in
    let below = tally-le env e child false js.positive_parent_fact_ids none_yet in
    let above =
      tally-le env e child true js.negative_parent_fact_ids
        (tally env e child false js.positive_parent_fact_ids none_yet) in
    record {
      positive = tally-All env e child false js.positive_parent_fact_ids none_yet (omega arith);
      negative =
          tally-All env e child true js.negative_parent_fact_ids
            (tally env e child false js.positive_parent_fact_ids none_yet) (omega arith);
    }

module _ (sets : Map JustificationSet) (id : String) where
  -- A set of the fact that reaches the threshold, with the given confidence.
  abbrev Supports : Status → Type 0
  Supports c =
      (i : ℕ) × (js : JustificationSet) × (lookup (justification_set_id id i) sets ≡ some js)
      × (js.confidence ≡ c)
      × (threshold ≤ c)

  set_cases :
      (i : ℕ) (s : Support)
      → ((support_set (lookup (justification_set_id id i) sets) s).best ≡ s.best)
        ⊎ Supports (support_set (lookup (justification_set_id id i) sets) s).best
  unfolding support_set
  set_cases i s = elim (Option-cases (lookup (justification_set_id id i) sets)) [
    | inl gone ↦ inl (rw gone)
    | inr (js, there) ↦ elim (Bool-cases (leb threshold js.confidence)) [
      | inr low ↦ inl (rw (there, low))
      | inl high ↦ elim (Bool-cases (ltb s.best js.confidence)) [
        | inr old ↦ inl (rw (there, high, old))
        | inl new ↦ rw (there, high, new) (inr (i, js, there, refl, leb→le _ _ high))
      ]
    ]
  ]

  support_cases :
      (i : ℕ) (l : List (List String)) (s : Support)
      → ((support_from sets id i l s).best ≡ s.best) ⊎ Supports (support_from sets id i l s).best
  unfolding support_from
  support_cases i [] s = inl refl
  support_cases i (_ ∷ l) s =
      elim (support_cases (i + 1) l (support_set (lookup (justification_set_id id i) sets) s)) [
        | inr found ↦ inr found
        | inl same ↦ elim (set_cases i s) [
          | inl old ↦ inl (same ∙ old)
          | inr found ↦ inr (subst Supports (sym same) found)
        ]
      ]

  set-ge :
      (i : ℕ) (s : Support)
      → s.best ≤ (support_set (lookup (justification_set_id id i) sets) s).best
  unfolding support_set
  set-ge i s = ground arith

  support-ge :
      (i : ℕ) (l : List (List String)) (s : Support) → s.best ≤ (support_from sets id i l s).best
  unfolding support_from
  support-ge i [] s = omega arith
  support-ge i (_ ∷ l) s = omega (
    arith,
    set-ge i s,
    support-ge (i + 1) l (support_set (lookup (justification_set_id id i) sets) s),
  )

  set-ge_self :
      (i : ℕ) (s : Support) (js : JustificationSet)
      → lookup (justification_set_id id i) sets ≡ some js
      → threshold ≤ js.confidence
      → js.confidence ≤ (support_set (lookup (justification_set_id id i) sets) s).best
  unfolding support_set
  set-ge_self i s js there high = rw there (ground arith)

  support-ge_self :
      (i n : ℕ) (l : List (List String)) (s : Support) (js : JustificationSet)
      → n < length l
      → lookup (justification_set_id id (i + n)) sets ≡ some js
      → threshold ≤ js.confidence
      → js.confidence ≤ (support_from sets id i l s).best
  unfolding support_from
  support-ge_self i n [] s js h there high = absurd (omega arith)
  support-ge_self i zero (_ ∷ l) s js h there high =
      let at_i : lookup (justification_set_id id i) sets ≡ some js =
        subst (λ k. lookup (justification_set_id id k) sets ≡ some js) (omega arith) there in
      omega (
        arith,
        set-ge_self i s js at_i high,
        support-ge (i + 1) l (support_set (lookup (justification_set_id id i) sets) s),
      )
  support-ge_self i (suc n) (_ ∷ l) s js h there high =
      support-ge_self (i + 1) n l _ js (omega arith)
        (subst (λ k. lookup (justification_set_id id k) sets ≡ some js) (omega arith) there) high

-- A derived fact that is neither a root nor retracted.
abbrev pub IsDerived : Engine → Fact → Type 0
IsDerived e f = (has f.id e.retracted_facts ≡ false) × (f.is_root ≡ false)

module _ (env : Env) (e : Engine) (k : String) (f : Fact) (linked : IsLinked e)
    (s : IsSettled env e) (there : lookup k e.facts ≡ some f) (derived : IsDerived e f) where
  derived_status_lem : f.derived_status ≡ (support e f).best
  unfolding resolve
  derived_status_lem = s.resolved k f there ∙ simp (derived.0, derived.1)

  own_set :
      (i : ℕ) (js : JustificationSet)
      → lookup (justification_set_id f.id i) e.justification_sets ≡ some js
      → reevaluate env e js f ≡ js
  own_set i js at_i = s.evaluated (justification_set_id f.id i) js f at_i (
      subst (λ q. lookup q e.facts ≡ some f)
        (sym (linked.owned f.id i js at_i ∙ linked.keyed k f there)) there)

  -- In a settled engine a derived fact that is neither a root nor retracted, and has a status other
  -- than invalid, has a justification set whose confidence is that status and reaches the
  -- threshold, and all of whose parents satisfy their dependencies.
  pub belief_justified :
      0 < f.derived_status
      → (i : ℕ) × (js : JustificationSet) × (lookup
            (justification_set_id f.id i)
            e.justification_sets
          ≡ some js)
        × (js.confidence ≡ f.derived_status)
        × (threshold ≤ f.derived_status)
        × IsGrounded env e f js
  unfolding support
  belief_justified held =
      elim (support_cases e.justification_sets f.id 0 f.justification_sets
        (record { count = 0; best = invalid })) [
          | inl none_found ↦ absurd (omega (arith, derived_status_lem))
          | inr (i, js, at_i, sure, high) ↦ (
            i,
            js,
            at_i,
            sure ∙ sym derived_status_lem,
            omega (arith, derived_status_lem),
            IsGrounded-reevaluated env e js f
                (linked.targeted (justification_set_id f.id i) js at_i) (own_set i js at_i)
                (omega arith),
          )
        ]

  -- In a settled engine the status of a derived fact that is neither a root nor retracted is at
  -- least the confidence of each of its justification sets that reaches the threshold.
  pub belief_complete :
      (n : ℕ) (js : JustificationSet)
      → n < length f.justification_sets
      → lookup (justification_set_id f.id n) e.justification_sets ≡ some js
      → threshold ≤ js.confidence
      → js.confidence ≤ f.derived_status
  unfolding support
  belief_complete n js h at_n high =
      let at_sum : lookup (justification_set_id f.id (0 + n)) e.justification_sets ≡ some js =
        subst (λ i. lookup (justification_set_id f.id i) e.justification_sets ≡ some js)
          (omega arith) at_n in
      omega (
        arith,
        derived_status_lem,
        support-ge_self e.justification_sets f.id 0 n f.justification_sets
            (record { count = 0; best = invalid }) js h at_sum high,
      )
