-- ===== src/Engine/Settled/Write.antt =====
-- Writing the status that a fact should have settles that fact, and opens the sets that depend
-- on it.
use mathlib.Core.Path.{subst}
use velarix.Prelude.{
  ℕ, String, ◌≡◌, ◌≢◌, ◌⊎◌, inl, inr, refl, sym, ap, ◌∙◌, true, false, some, List, [], ◌∷◌, ◌==◌,
  eq_iff, arith, contains, contains-nil, contains-cons, lookup, insert, has, lookup-insert,
  Bool-cases,
}
use velarix.Env.{Env}
use velarix.Fact.{Fact, JustificationSet, Status}
use velarix.Engine.{Engine, Listener, children, reevaluate}
use velarix.Engine.Propagation.{resolve}
use velarix.Engine.Frame.{written, resolve-written, reevaluate-child}
use velarix.Engine.Settled.{IsLinked, IsSettling, Awaits}

module _ (env : Env) (e : Engine) (x : String) (f : Fact) (d : Status) (c : ℕ) (ls : List Listener)
    (there : lookup x e.facts ≡ some f) where
  abbrev pub after : Engine
  after = record e { facts = insert x (written f d c) e.facts; listeners = ls }

  -- A fact of the new state is the written one or an old one.
  found_cases :
      (k : String) (g : Fact)
      → lookup k after.facts ≡ some g
      → ((x ≡ k) × (g ≡ written f d c)) ⊎ (((x == k) ≡ false) × (lookup k e.facts ≡ some g))
  found_cases k g at_k = ground (arith, lookup-insert x k (written f d c) e.facts, eq_iff x k)

  has_after : (k : String) → has k e.facts ≡ true → has k after.facts ≡ true
  has_after k h = ground (arith, lookup-insert x k (written f d c) e.facts)

  pub IsLinked-after : IsLinked e → IsLinked after
  unfolding children
  IsLinked-after linked = record {
    keyed = λ k g at_k. elim (found_cases k g at_k) [
      | inl (here, same) ↦ ap (λ (z : Fact). z.id) same ∙ linked.keyed x f there ∙ here
      | inr (_, old) ↦ linked.keyed k g old
    ];
    owned = linked.owned;
    targeted = linked.targeted;
    childed = λ j js at_j. has_after js.child_fact_id (linked.childed j js at_j);
    known = λ j js p at_j is_parent. has_after p (linked.known j js p at_j is_parent);
    listing = λ p j listed. has_after p (linked.listing p j listed);
    indexed = λ j js p g at_j at_p is_parent. elim (found_cases p g at_p) [
      | inl (here, same) ↦
          linked.indexed j js p f at_j (subst (λ q. lookup q e.facts ≡ some f) here there) is_parent
      | inr (_, old) ↦ linked.indexed j js p g at_j old is_parent
    ];
  }

  -- What the write leaves alone: the sets outside `open_sets` count as before, and none of them
  -- waits for the written fact.
  pub record IsQuiet (open_sets : List String) : Type 0 where
    pub same :
        (j : String) (js : JustificationSet) (child : Fact)
        → lookup j e.justification_sets ≡ some js
        → contains open_sets j ≡ false
        → reevaluate env after js child ≡ reevaluate env e js child
    pub no_wait :
        (j : String)
        → contains open_sets j ≡ false
        → f.derived_status ≢ resolve e f
        → contains (children e x) j ≡ true
        → ⊥

  was : (p : String) (g : Fact) → x ≡ p → lookup p e.facts ≡ some g → g ≡ f
  was p g here present =
      let at_x : lookup x e.facts ≡ some g =
        subst (λ q. lookup q e.facts ≡ some g) (sym here) present in
      ground arith

  Awaits-after :
      (work open_sets : List String) (j : String)
      → IsQuiet open_sets
      → contains open_sets j ≡ false
      → Awaits e (x ∷ work) j
      → Awaits after work j
  unfolding children
  Awaits-after work open_sets j quiet closed a = elim (Bool-cases (x == a.parent)) [
    | inl here ↦ absurd (
        quiet.no_wait j closed
          (subst (λ z. z.derived_status ≢ resolve e z)
            (was a.parent a.fact ((eq_iff x a.parent).0 here) a.present) a.stale)
          (subst (λ q. contains (children e q) j ≡ true) (sym ((eq_iff x a.parent).0 here))
            a.listed))
    | inr other ↦ record {
      parent = a.parent;
      fact = a.fact;
      queued = ground (arith, contains-cons x work a.parent, a.queued);
      listed = a.listed;
      present = ground (arith, lookup-insert x a.parent (written f d c) e.facts, a.present);
      external = a.external;
      stale = λ p. a.stale (
          p
          ∙ resolve-written e after.facts ls a.fact a.fact.derived_status
              a.fact.valid_justification_count);
    }
  ]

  evaluated_after :
      (work open_sets : List String) (j : String) (js : JustificationSet) (child old : Fact)
      → IsQuiet open_sets
      → IsSettling env e (x ∷ work) []
      → lookup j e.justification_sets ≡ some js
      → lookup js.child_fact_id e.facts ≡ some old
      → reevaluate env e js child ≡ reevaluate env e js old
      → contains open_sets j ≡ false
      → (reevaluate env after js child ≡ js) ⊎ Awaits after work j
  evaluated_after work open_sets j js child old quiet s at_j its_child as_old closed =
      elim (s.evaluated j js old at_j its_child (contains-nil j)) [
        | inl p ↦ inl (quiet.same j js child at_j closed ∙ as_old ∙ p)
        | inr a ↦ inr (Awaits-after work open_sets j quiet closed a)
      ]

  pub IsSettling-after :
      (work open_sets : List String)
      → d ≡ resolve e f
      → IsQuiet open_sets
      → IsSettling env e (x ∷ work) []
      → IsSettling env after work open_sets
  IsSettling-after work open_sets is_status quiet s = record {
    resolved = λ k g at_k idle. elim (found_cases k g at_k) [
      | inl (here, same) ↦
          subst (λ z. z.derived_status ≡ resolve after z) (sym same)
            (is_status ∙ sym (resolve-written e after.facts ls f d c))
      | inr (ne, old) ↦
          s.resolved k g old (ground (arith, contains-cons x work k))
          ∙ sym (resolve-written e after.facts ls g g.derived_status g.valid_justification_count)
    ];
    evaluated = λ j js child at_j its_child closed.
        elim (found_cases js.child_fact_id child its_child) [
          | inl (here, same) ↦
              evaluated_after work open_sets j js child f quiet s at_j
                (subst (λ q. lookup q e.facts ≡ some f) here there)
                (rw same (
                  reevaluate-child env e js f (written f d c)
                    (record { kind = refl; metadata = refl })))
                closed
          | inr (_, old) ↦
              evaluated_after work open_sets j js child child quiet s at_j old refl closed
        ];
  }
