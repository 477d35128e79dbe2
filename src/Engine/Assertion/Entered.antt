-- ===== src/Engine/Assertion/Entered.antt =====
-- The engine when a new fact has been entered, in front of its justification sets (`registerFactLocked`).
use velarix.Prelude.{
  ℕ, suc, String, ◌≡◌, ◌⊎◌, inl, inr, refl, ap, ◌∙◌, Bool, true, false, none, some, List, ◌==◌,
  eq_iff, eq_refl, arith, if◌then◌else◌, contains, lookup, insert, has, lookup-insert, Bool-cases,
}
use velarix.Env.{Env}
use velarix.Fact.{Fact, JustificationSet, Status}
use velarix.Engine.{Engine, Listener, children, reevaluate, compute_parents}
use velarix.Engine.Frame.{written, parents, reevaluate-absent}
use velarix.Engine.Propagation.{resolve, support}
use velarix.Engine.Settled.{IsLinked}
use velarix.Engine.Rounds.{IsOrdered}
use velarix.Engine.Stable.{IsStable}
use velarix.Engine.Assertion.Building.{IsBuilding}

-- The order in which the new fact comes last.
abbrev pub rank_with : String → ℕ → (String → ℕ) → String → ℕ
rank_with id top rank k = if id == k then suc top else rank k

module _ (rank : String → ℕ) (top width : ℕ) (env : Env) (e : Engine)
    (s : IsStable rank top width env e) (f : Fact) (d : Status) (c : ℕ)
    (absent : lookup f.id e.facts ≡ none) (roots : List String) (ls : List Listener) (dirty : Bool)
    (count : ℕ) where
  abbrev g : Fact
  g = written f d c

  -- The new fact is in the map of facts, and has no justification sets yet.
  abbrev pub entered : Engine
  entered = record e {
    facts = insert f.id g (insert f.id f e.facts);
    collapsed_roots = roots;
    listeners = ls;
    dirty_dominators = dirty;
    mutation_count = count;
  }

  lookup-entered :
      (k : String) → lookup k entered.facts ≡ (if f.id == k then some g else lookup k e.facts)
  lookup-entered k =
      ground (arith, lookup-insert f.id k g (insert f.id f e.facts), lookup-insert f.id k f e.facts)

  fact_cases :
      (k : String) (h : Fact)
      → lookup k entered.facts ≡ some h
      → ((f.id ≡ k) × (h ≡ g)) ⊎ (((f.id == k) ≡ false) × (lookup k e.facts ≡ some h))
  fact_cases k h at_k = ground (arith, lookup-entered k, eq_iff f.id k)

  pub has_entered : (k : String) → has k e.facts ≡ true → has k entered.facts ≡ true
  has_entered k h = ground (arith, lookup-entered k)

  -- A fact that was there is another fact.
  pub is_other : (k : String) → has k e.facts ≡ true → (f.id == k) ≡ false
  is_other k h = elim (Bool-cases (f.id == k)) [
    | inr other ↦ other
    | inl same ↦ cc (h, absent, (eq_iff f.id k).0 same)
  ]

  unused-entered :
      (j : String) (js : JustificationSet)
      → lookup j e.justification_sets ≡ some js
      → contains (parents js) f.id ≡ false
  unused-entered j js at_j = elim (Bool-cases (contains (parents js) f.id)) [
    | inr free ↦ free
    | inl bad ↦ cc (is_other f.id (s.linked.known j js f.id at_j bad), eq_refl f.id)
  ]

  reevaluate-entered :
      (j : String) (js : JustificationSet) (child : Fact)
      → lookup j e.justification_sets ≡ some js
      → reevaluate env entered js child ≡ reevaluate env e js child
  reevaluate-entered j js child at_j =
      let free = unused-entered j js at_j in
      let outer : reevaluate env entered js child
          ≡ reevaluate env (record e { facts = insert f.id f e.facts }) js child =
        unfold reevaluate in
        unfold compute_parents in
        reevaluate-absent env (record e { facts = insert f.id f e.facts }) js child f.id g free in
      outer ∙ reevaluate-absent env e js child f.id f free

  resolve-entered : (h : Fact) → resolve e h ≡ resolve entered h
  unfolding resolve support
  resolve-entered h = refl

  IsLinked-entered : IsLinked entered
  IsLinked-entered = record {
    keyed = λ k h at_k. elim (fact_cases k h at_k) [
      | inl (same, is) ↦ ap (λ (z : Fact). z.id) is ∙ same
      | inr (_, old) ↦ s.linked.keyed k h old
    ];
    owned = s.linked.owned;
    indexed = λ j js p h at_j at_p is_parent. elim (fact_cases p h at_p) [
      | inr (_, old) ↦ unfold children in s.linked.indexed j js p h at_j old is_parent
      | inl (same, _) ↦ cc (is_other p (s.linked.known j js p at_j is_parent), same, eq_refl p)
    ];
    childed = λ j js at_j. has_entered js.child_fact_id (s.linked.childed j js at_j);
    known = λ j js p at_j is_parent. has_entered p (s.linked.known j js p at_j is_parent);
    listing = λ p j listed. has_entered p (s.linked.listing p j (unfold children in listed));
    targeted = s.linked.targeted;
  }

  abbrev rank' : String → ℕ
  rank' = rank_with f.id top rank

  has_cases :
      (k : String)
      → has k entered.facts ≡ true
      → ((f.id == k) ≡ true) ⊎ (((f.id == k) ≡ false) × (has k e.facts ≡ true))
  has_cases k h = ground (arith, lookup-entered k)

  IsOrdered-entered : IsOrdered rank' (suc top) width entered
  IsOrdered-entered = record {
    keyed = IsLinked-entered.keyed;
    rising = λ p j js listed at_j.
        let old = s.ordered.rising p j js (unfold children in listed) at_j in
        rw
          (
            is_other p (s.linked.listing p j (unfold children in listed)),
            is_other js.child_fact_id (s.linked.childed j js at_j),
          )
          (old.0, omega arith);
    below = λ k h. elim (has_cases k h) [
      | inl same ↦ rw same (omega arith)
      | inr (other, old) ↦ rw other (omega (arith, s.ordered.below k old))
    ];
    narrow = λ p. unfold children in s.ordered.narrow p;
  }

  pub entered-IsBuilding : IsBuilding rank' (suc top) width env g entered
  entered-IsBuilding = record {
    linked = IsLinked-entered;
    ordered = IsOrdered-entered;
    here = rw (lookup-entered f.id, eq_refl f.id) refl;
    unused = λ j js at_j. unused-entered j js at_j;
    unlisted = λ j. elim (Bool-cases (contains (children entered f.id) j)) [
      | inr free ↦ free
      | inl listed ↦
          cc (is_other f.id (s.linked.listing f.id j (unfold children in listed)), eq_refl f.id)
    ];
    last = λ p there other. elim (has_cases p there) [
      | inl same ↦ cc (same, other)
      | inr (apart, old) ↦ rw (apart, eq_refl f.id) (omega (arith, s.ordered.below p old))
    ];
    resolved = λ k h at_k other. elim (fact_cases k h at_k) [
      | inl (same, _) ↦ cc (same, other, eq_refl f.id)
      | inr (_, old) ↦ s.settled_now.resolved k h old ∙ resolve-entered h
    ];
    evaluated = λ j js child at_j its_c.
        reevaluate-entered j js child at_j ∙ elim (fact_cases js.child_fact_id child its_c) [
          | inl (same, _) ↦ cc (
            is_other js.child_fact_id (s.linked.childed j js at_j),
            same,
            eq_refl js.child_fact_id,
          )
          | inr (_, old) ↦ s.settled_now.evaluated j js child at_j old
        ];
  }
