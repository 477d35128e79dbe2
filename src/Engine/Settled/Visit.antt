-- ===== src/Engine/Settled/Visit.antt =====
-- One round of the work queue, and the queue as a whole.
use mathlib.Core.Path.{subst}
use mathlib.Core.List.{append_assoc, append-nil}
use velarix.Prelude.{
  ℕ, String, ◌≡◌, inl, inr, refl, sym, ap, true, false, some, List, [], ◌∷◌, ◌++◌, ◌==◌, eq_iff,
  arith, eqb, contains-cons, lookup, insert, Bool-cases, Option-cases,
}
use velarix.Env.{Env}
use velarix.Fact.{Fact, JustificationSet}
use velarix.Engine.{Engine, Listener, children, reevaluate, notify, compute_parents, status_at}
use velarix.Engine.Propagation.{resolve, recounted, refresh_set, refresh_sets, visit_fact}
use velarix.Engine.Frame.{written, recounted_lem, reevaluate-same, reevaluate-absent}
use velarix.Engine.Settled.Write.{IsQuiet}
use velarix.Engine.Settled.{IsLinked, IsSettling}
use velarix.Engine.Settled.Refresh.{IsSettling-after, IsLinked-after}

-- A set that is not there needs no counting.
IsSettling-skip :
    (env : Env) (e : Engine) (j : String) (work open_sets : List String)
    → ((js : JustificationSet) (c : Fact)
        → lookup j e.justification_sets ≡ some js
        → lookup js.child_fact_id e.facts ≡ some c
        → ⊥)
    → IsSettling env e work (j ∷ open_sets)
    → IsSettling env e (work ++ []) open_sets
IsSettling-skip env e j work open_sets gone s = rw (append-nil work) (record {
  resolved = s.resolved;
  evaluated = λ i js c at_i its_c closed. elim (Bool-cases (j == i)) [
    | inl here ↦ absurd (
        gone js c
          (subst (λ q. lookup q e.justification_sets ≡ some js) (sym ((eq_iff j i).0 here)) at_i)
          its_c)
    | inr other ↦ s.evaluated i js c at_i its_c (ground (arith, contains-cons j open_sets i))
  ];
})

module _ (env : Env) (j : String) (work open_sets : List String) where
  refresh_set-keeps :
      (e : Engine)
      → IsLinked e
      → IsSettling env e work (j ∷ open_sets)
      → IsLinked (refresh_set env e j).0
        × IsSettling env (refresh_set env e j).0 (work ++ (refresh_set env e j).1) open_sets
  unfolding refresh_set
  refresh_set-keeps e linked s = elim (Option-cases (lookup j e.justification_sets)) [
    | inl gone ↦
        rw (gone, refresh_set)
          (linked, IsSettling-skip env e j work open_sets (λ js c at_j _. ground arith) s)
    | inr (js, at_j) ↦ elim (Option-cases (lookup js.child_fact_id e.facts)) [
      | inl childless ↦
          rw (at_j, childless, refresh_set)
            (linked, IsSettling-skip env e j work open_sets (λ js' c at_j' its_c. ground arith) s)
      | inr (child, its_child) ↦
          rw (at_j, its_child, refresh_set)
            (
              IsLinked-after env e j js child at_j its_child linked,
              IsSettling-after env e j js child at_j its_child work open_sets linked s,
            )
    ]
  ]

pub refresh_sets-keeps :
    (env : Env) (js work : List String) (e : Engine)
    → IsLinked e
    → IsSettling env e work js
    → IsLinked (refresh_sets env e js).0
      × IsSettling env (refresh_sets env e js).0 (work ++ (refresh_sets env e js).1) []
unfolding refresh_sets
refresh_sets-keeps env [] work e linked s = (linked, rw (append-nil work) s)
refresh_sets-keeps env (j ∷ js) work e linked s =
    let (linked', s') = refresh_set-keeps env j work js e linked s in
    let (linked'', s'') =
      refresh_sets-keeps env js (work ++ (refresh_set env e j).1) (refresh_set env e j).0 linked'
        s' in
    (linked'', rw (append_assoc work (refresh_set env e j).1) at s'')

-- The new listeners when a status is announced.
abbrev pub told : Env → Engine → Fact → List Listener
told env e f = (notify env e f.id (resolve e f)).listeners

module _ (env : Env) (n : ℕ) (e : Engine) (x : String) (f : Fact) where
  abbrev pub count : ℕ
  count = (recounted e f).valid_justification_count

  pub visit_fact-same :
      eqb (resolve e f) f.derived_status ≡ true
      → visit_fact env n e x (some f)
        ≡ (record e { facts = insert x (written f f.derived_status count) e.facts }, [])
  unfolding visit_fact
  visit_fact-same h =
      rw h (ap (λ z. (record e { facts = insert x z e.facts }, [])) (recounted_lem e f))

  pub visit_fact-changed :
      eqb (resolve e f) f.derived_status ≡ false
      → visit_fact env n e x (some f)
        ≡ refresh_sets env
            (record e {
              facts = insert x (written f (resolve e f) count) e.facts;
              listeners = told env e f;
            })
            (env.range n (children e x))
  unfolding visit_fact notify
  visit_fact-changed h = rw h (
      ap
        (λ (z : Fact).
          refresh_sets env
            (record e {
              facts = insert x (record z { derived_status = resolve e f }) e.facts;
              listeners = told env e f;
            })
            (env.range n (children e x)))
        (recounted_lem e f))

module _ (env : Env) (e : Engine) (x : String) (f : Fact) (c : ℕ) (ls : List Listener)
    (there : lookup x e.facts ≡ some f) where
  pub IsQuiet-same :
      f.derived_status ≡ resolve e f → IsQuiet env e x f f.derived_status c ls there []
  unfolding reevaluate compute_parents status_at
  IsQuiet-same h = record {
    same = λ j js child at_j closed.
        reevaluate-same env e js child x f (written f f.derived_status c) there
          (record { kind = refl; metadata = refl; asserted = refl; status = refl });
    no_wait = λ j closed stale listed. stale h;
  }

  -- The sets that depend on the fact are those that are counted anew.
  pub IsQuiet-changed :
      (n : ℕ) → IsLinked e → IsQuiet env e x f (resolve e f) c ls there (env.range n (children e x))
  unfolding reevaluate compute_parents
  IsQuiet-changed n linked = record {
    same = λ j js child at_j closed.
        reevaluate-absent env e js child x (written f (resolve e f) c)
          (ground (arith, linked.indexed j js x f, env.contains-range n (children e x) j));
    no_wait = λ j closed stale listed. ground (arith, env.contains-range n (children e x) j);
  }
