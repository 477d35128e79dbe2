-- ===== src/Engine/Settled/Control.antt =====
-- A change from outside, to the status of a root or to the retracted facts, leaves one fact to
-- look at.
use mathlib.Core.Path.{subst}
use velarix.Prelude.{
  ℕ, String, ◌≡◌, ◌≢◌, ◌⊎◌, inl, inr, refl, sym, ap, ◌∙◌, true, false, some, List, [], ◌∷◌, ◌==◌,
  eq_iff, eq_refl, arith, contains, contains-cons, lookup, insert, has, lookup-insert, Bool-cases,
  false≢true,
}
use velarix.Env.{Env}
use velarix.Fact.{Fact, JustificationSet, Status}
use velarix.Engine.{Engine, children, reevaluate, compute_parents, status_at}
use velarix.Engine.Propagation.{resolve, support}
use velarix.Engine.Frame.{parents, reevaluate-child, reevaluate-same, reevaluate-absent}
use velarix.Engine.Settled.{IsLinked, IsSettled, Awaits}
use velarix.Engine.Settled.Queue.{Progress}

-- An active root has the status that was set by hand.
pub resolve-root :
    (e : Engine) (f : Fact)
    → has f.id e.retracted_facts ≡ false
    → f.is_root ≡ true
    → resolve e f ≡ f.manual_status
unfolding resolve
resolve-root e f active root = rw (active, root)

module _ (env : Env) (e : Engine) (x : String) (f : Fact) (m : Status) (roots : List String)
    (count : ℕ) (there : lookup x e.facts ≡ some f) where
  abbrev changed : Fact
  changed = record f { manual_status = m }

  -- The root's own status is written, and nothing is propagated yet.
  abbrev pub controlled : Engine
  controlled = record e {
    facts = insert x changed e.facts;
    collapsed_roots = roots;
    mutation_count = count;
  }

  found_cases :
      (k : String) (g : Fact)
      → lookup k controlled.facts ≡ some g
      → ((x ≡ k) × (g ≡ changed)) ⊎ (((x == k) ≡ false) × (lookup k e.facts ≡ some g))
  found_cases k g at_k = ground (arith, lookup-insert x k changed e.facts, eq_iff x k)

  has_after : (k : String) → has k e.facts ≡ true → has k controlled.facts ≡ true
  has_after k h = ground (arith, lookup-insert x k changed e.facts)

  IsLinked-controlled : IsLinked e → IsLinked controlled
  unfolding children
  IsLinked-controlled linked = record {
    keyed = λ k g at_k. elim (found_cases k g at_k) [
      | inl (here, same) ↦ ap (λ (z : Fact). z.id) same ∙ linked.keyed x f there ∙ here
      | inr (_, old) ↦ linked.keyed k g old
    ];
    owned = linked.owned;
    targeted = linked.targeted;
    childed = λ j js at_j. has_after js.child_fact_id (linked.childed j js at_j);
    known = λ j js p at_j is_parent. has_after p (linked.known j js p at_j is_parent);
    listing = λ p j listed. has_after p (linked.listing p j listed);
    indexed = λ j js p g at_j at_p is_parent. elim (found_cases p g at_p) [
      | inl (here, same) ↦
          linked.indexed j js p f at_j (subst (λ q. lookup q e.facts ≡ some f) here there) is_parent
      | inr (_, old) ↦ linked.indexed j js p g at_j old is_parent
    ];
  }

  module _ (root : f.is_root ≡ true) (new : m ≢ f.manual_status) (linked : IsLinked e)
      (s : IsSettled env e) where
    -- Either the root counts as a parent as it did, or its status is now another.
    effect :
        (status_at env.now e.retracted_facts changed ≡ status_at env.now e.retracted_facts f)
        ⊎ (changed.derived_status ≢ resolve controlled changed)
    unfolding status_at resolve
    effect = elim (Bool-cases (has f.id e.retracted_facts)) [
      | inl gone ↦ inl (rw gone)
      | inr active ↦ inr (λ p. new (
          sym (p ∙ resolve-root controlled changed active root)
          ∙ s.resolved x f there
          ∙ resolve-root e f active root))
    ]

    reevaluate-controlled :
        (j : String) (js : JustificationSet) (child : Fact)
        → lookup j e.justification_sets ≡ some js
        → (reevaluate env controlled js child ≡ reevaluate env e js child)
          ⊎ Awaits controlled (x ∷ []) j
    unfolding reevaluate compute_parents children
    reevaluate-controlled j js child at_j = elim (Bool-cases (contains (parents js) x)) [
      | inr apart ↦ inl (reevaluate-absent env e js child x changed apart)
      | inl parent ↦ elim effect [
        | inl same ↦ inl (
            reevaluate-same env e js child x f changed there
              (record { kind = refl; metadata = refl; asserted = refl; status = same }))
        | inr stale ↦ inr (record {
          parent = x;
          fact = changed;
          queued = ground (arith, contains-cons x [] x, eq_refl x);
          listed = linked.indexed j js x f at_j there parent;
          present = rw (lookup-insert x x changed e.facts, eq_refl x);
          external = ground arith;
          stale = stale;
        })
      ]
    ]

    evaluated_controlled :
        (j : String) (js : JustificationSet) (child old : Fact)
        → lookup j e.justification_sets ≡ some js
        → lookup js.child_fact_id e.facts ≡ some old
        → reevaluate env e js child ≡ reevaluate env e js old
        → (reevaluate env controlled js child ≡ js) ⊎ Awaits controlled (x ∷ []) j
    evaluated_controlled j js child old at_j its_child as_old =
        elim (reevaluate-controlled j js child at_j) [
          | inl p ↦ inl (p ∙ as_old ∙ s.evaluated j js old at_j its_child)
          | inr a ↦ inr a
        ]

    pub Progress-controlled : Progress env (x ∷ []) controlled
    unfolding resolve support
    Progress-controlled = (
      IsLinked-controlled linked,
      record {
        resolved = λ k g at_k idle. elim (found_cases k g at_k) [
          | inl (here, same) ↦
              absurd (false≢true (sym idle ∙ ground (arith, contains-cons x [] k, eq_iff x k)))
          | inr (_, old) ↦ s.resolved k g old
        ];
        evaluated = λ j js child at_j its_child closed.
            elim (found_cases js.child_fact_id child its_child) [
              | inl (here, same) ↦
                  evaluated_controlled j js child f at_j
                    (subst (λ q. lookup q e.facts ≡ some f) here there)
                    (rw same (
                      reevaluate-child env e js f changed
                        (record { kind = refl; metadata = refl })))
              | inr (_, old) ↦ evaluated_controlled j js child child at_j old refl
            ];
      },
    )
