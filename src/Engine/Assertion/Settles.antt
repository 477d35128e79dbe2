-- ===== src/Engine/Assertion/Settles.antt =====
-- Asserting a new fact on a stable engine ends in a stable engine.
use mathlib.Core.Path.{subst}
use velarix.Prelude.{
  ℕ, suc, ◌+◌, ◌≤◌, String, ◌≡◌, inl, inr, refl, sym, ap, ◌∙◌, true, Option, none, some, List, [],
  ◌∷◌, arith, if◌then◌else◌, ltb, add, lookup, has, is_some, Bool-cases, length, All, pos, eqbℤ,
}
use velarix.Env.{Env}
use velarix.Fact.{Fact, Status, threshold, invalid}
use velarix.Engine.Frame.{written}
use velarix.Engine.{Engine, notify}
use velarix.Engine.Propagation.{propagate}
use velarix.Engine.Outcome.{Outcome, done, settled}
use velarix.Engine.Kept.{bare}
use velarix.Engine.Rounds.{weight, IsOrdered}
use velarix.Engine.Stable.{IsStable, propagate_settles}
use velarix.Engine.Assertion.{
  fresh, validate_assert_fact, assert_fact, insert_fact, stamped, register_fact, collapse,
  initialize_root_fact, initialize_derived_fact, add_sets, after_sets,
}
use velarix.Engine.Assertion.Building.{IsBuilding, Progress-built}
use velarix.Engine.Assertion.Sets.{IsFit, add_sets_lem}
use velarix.Engine.Assertion.Known.{
  IsKnown, validate_assert_fact-IsNew, split_dependency_set-AreFacts,
}
use velarix.Engine.Assertion.Entered.{rank_with, entered, is_other, has_entered, entered-IsBuilding}

collapse_lem :
    (e : Engine) (id : String) (status : Status)
    → collapse e id status ≡ record e {
      collapsed_roots =
          if ltb status threshold then add e.collapsed_roots id else e.collapsed_roots;
    }
unfolding collapse
collapse_lem e id status = elim (Bool-cases (ltb status threshold)) [
  | inl low ↦ rw low
  | inr high ↦ rw high
]

wider :
    (rank : String → ℕ) (top width more : ℕ) (e : Engine)
    → IsOrdered rank top width e
    → IsOrdered rank top (width + more) e
wider rank top width more e o = record {
  keyed = o.keyed;
  rising = o.rising;
  below = o.below;
  narrow = λ p. omega (arith, o.narrow p);
}

has-bare : (o p : Option Fact) → bare o ≡ bare p → is_some p ≡ true → is_some o ≡ true
has-bare none none same there = there
has-bare none (some g) same there = cc
has-bare (some f) p same there = refl

-- Propagation from the fact that was built up ends in a stable engine that has the fact.
built_settles :
    (rank : String → ℕ) (top width built : ℕ) (env : Env) (f : Fact) (e : Engine)
    → weight width top ≤ env.fuel
    → IsBuilding rank top built env f e
    → IsOrdered rank top width e
    → (e' : Engine) × (propagate env e (f.id ∷ []) ≡ some e')
      × IsStable rank top width env e'
      × (has f.id e'.facts ≡ true)
built_settles rank top width built env f e fuel b ordered =
    let (e', ends, stable, kept) =
      propagate_settles rank top width env e f.id fuel (Progress-built rank top built env f e b)
        ordered in
    (
      e',
      ends,
      stable,
      has-bare (lookup f.id e'.facts) (lookup f.id e.facts) (kept.facts f.id) (rw b.here refl),
    )

stamped_lem :
    (env : Env) (f : Fact)
    → stamped env f
      ≡ record f { asserted_at = if eqbℤ f.asserted_at (pos 0) then pos env.now else f.asserted_at }
unfolding stamped
stamped_lem env f = elim (Bool-cases (eqbℤ f.asserted_at (pos 0))) [
  | inl unset ↦ rw unset
  | inr set ↦ rw set
]

pub assert_fact-fresh :
    (env : Env) (e : Engine) (f : Fact)
    → validate_assert_fact env e f ≡ fresh
    → assert_fact env e (some f)
      ≡ insert_fact env e (record f {
        asserted_at = if eqbℤ f.asserted_at (pos 0) then pos env.now else f.asserted_at;
      })
unfolding assert_fact
assert_fact-fresh env e f new = rw (new, assert_fact) (ap (insert_fact env e) (stamped_lem env f))

module _ (rank : String → ℕ) (top width : ℕ) (env : Env) (e : Engine)
    (s : IsStable rank top width env e) (f : Fact) (absent : lookup f.id e.facts ≡ none) where
  -- The engine is stable again, with the fact last in the order, and has the fact.
  abbrev Settled : Outcome × Engine → Type 0
  Settled r =
      (e' : Engine) × (r ≡ (done, e'))
      × IsStable (rank_with f.id top rank) (suc top) (width + length f.justification_sets) env e'
      × (has f.id e'.facts ≡ true)

  -- The engine in front of the propagation from a new root.
  abbrev root_entered : Engine
  root_entered =
      entered rank top width env e s f f.manual_status f.valid_justification_count absent
        (if ltb f.manual_status threshold then add e.collapsed_roots f.id else e.collapsed_roots)
        (notify env e f.id f.manual_status).listeners true (e.mutation_count + 1)

  root_start :
      initialize_root_fact env (register_fact e f) f
      ≡ settled root_entered (propagate env root_entered (f.id ∷ []))
  unfolding initialize_root_fact register_fact notify
  root_start =
      ap
        (λ (z : Engine).
          settled (notify env z f.id f.manual_status)
            (propagate env (notify env z f.id f.manual_status) (f.id ∷ [])))
        (collapse_lem _ f.id f.manual_status)

  root_settles :
      weight (width + length f.justification_sets) (suc top) ≤ env.fuel
      → Settled (initialize_root_fact env (register_fact e f) f)
  root_settles fuel =
      let b =
        entered-IsBuilding rank top width env e s f f.manual_status f.valid_justification_count
          absent
          (if ltb f.manual_status threshold then add e.collapsed_roots f.id else e.collapsed_roots)
          (notify env e f.id f.manual_status).listeners true (e.mutation_count + 1) in
      let (e', ends, stable, there) =
        built_settles (rank_with f.id top rank) (suc top) (width + length f.justification_sets)
          width env _ root_entered fuel b
          (wider _ (suc top) width (length f.justification_sets) root_entered b.ordered) in
      (e', root_start ∙ ap (settled root_entered) ends, stable, there)

  All-IsFit :
      (sets : List (List String)) (z : Engine) (g : Fact)
      → g.id ≡ f.id
      → ((k : String) → has k e.facts ≡ true → has k z.facts ≡ true)
      → All (All (IsKnown e)) sets
      → All (IsFit (rank_with f.id top rank) (suc top) env z g) sets
  All-IsFit [] z g same keeps known = tt
  All-IsFit (set ∷ sets) z g same keeps (one, more) =
      let (split, splits, facts) = split_dependency_set-AreFacts e set one in
      (
        (
          split,
          splits,
          λ p h. (
            keeps p (facts p h),
            rw same (is_other rank top width env e s f 0 0 absent [] [] true 0 p (facts p h)),
          ),
        ),
        All-IsFit sets z g same keeps more,
      )

  -- The engine in front of the justification sets of a new derived fact.
  abbrev derived_entered : Engine
  derived_entered =
      entered rank top width env e s f invalid 0 absent e.collapsed_roots e.listeners true
        (e.mutation_count + 1)

  derived_start :
      initialize_derived_fact env (register_fact e f) f
      ≡ after_sets env f.id
          (add_sets env derived_entered (written f invalid 0) 0 f.justification_sets)
  unfolding initialize_derived_fact register_fact
  derived_start = refl

  derived_settles :
      weight (width + length f.justification_sets) (suc top) ≤ env.fuel
      → All (All (IsKnown e)) f.justification_sets
      → Settled (initialize_derived_fact env (register_fact e f) f)
  derived_settles fuel known =
      let (m, g, ends, same, b) =
        add_sets_lem (rank_with f.id top rank) (suc top) env f.justification_sets width
          derived_entered (written f invalid 0) 0
          (entered-IsBuilding rank top width env e s f invalid 0 absent e.collapsed_roots
            e.listeners true (e.mutation_count + 1))
          (All-IsFit f.justification_sets derived_entered (written f invalid 0) refl
            (has_entered rank top width env e s f invalid 0 absent e.collapsed_roots e.listeners
              true (e.mutation_count + 1))
            known) in
      let (e', settles, stable, there) =
        built_settles (rank_with f.id top rank) (suc top) (width + length f.justification_sets)
          (width + length f.justification_sets) env g m fuel b b.ordered in
      (
        e',
        derived_start
            ∙ ap (after_sets env f.id) ends
            ∙ subst (λ id. settled m (propagate env m (id ∷ [])) ≡ (done, e')) same
                (ap (settled m) settles),
        stable,
        subst (λ id. has id e'.facts ≡ true) same there,
      )

  insert_settles :
      weight (width + length f.justification_sets) (suc top) ≤ env.fuel
      → All (All (IsKnown e)) f.justification_sets
      → Settled (insert_fact env e f)
  unfolding insert_fact
  insert_settles fuel known = elim (Bool-cases f.is_root) [
    | inl root ↦ subst Settled (sym (rw (root, insert_fact))) (root_settles fuel)
    | inr derived ↦ subst Settled (sym (rw (derived, insert_fact))) (derived_settles fuel known)
  ]

-- With fuel for the weight of the order with the fact at its end, asserting a fact that passes
-- validation as new on a stable engine returns no error, whatever its justification sets, and ends
-- in a stable engine that has the fact.
pub assert_fact_settles :
    (rank : String → ℕ) (top width : ℕ) (env : Env) (e : Engine) (f : Fact)
    → IsStable rank top width env e
    → validate_assert_fact env e f ≡ fresh
    → weight (width + length f.justification_sets) (suc top) ≤ env.fuel
    → (e' : Engine) × (assert_fact env e (some f) ≡ (done, e'))
      × IsStable (rank_with f.id top rank) (suc top) (width + length f.justification_sets) env e'
      × (has f.id e'.facts ≡ true)
assert_fact_settles rank top width env e f s new fuel =
    let n = validate_assert_fact-IsNew env e f new in
    let (e', ends, stable, there) =
      insert_settles rank top width env e s
        (record f {
          asserted_at = if eqbℤ f.asserted_at (pos 0) then pos env.now else f.asserted_at;
        })
        n.absent fuel n.tokens in
    (e', assert_fact-fresh env e f new ∙ ends, stable, there)
