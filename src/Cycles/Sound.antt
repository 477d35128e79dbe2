-- ===== src/Cycles/Sound.antt =====
-- What a search along the justification sets finds: with fuel for the order of the facts it ends, and
-- it does not find what lies before its start.
use mathlib.Core.Path.{subst}
use velarix.Prelude.{
  ℕ, zero, suc, ◌-◌, ◌≤◌, ◌<◌, String, ◌≡◌, inl, inr, sym, ◌∙◌, true, some, List, [], ◌∷◌, ◌==◌,
  eq_iff, arith, contains, contains-cons, eq_refl, lookup, Bool-cases, Option-cases,
}
use velarix.Env.{Env}
use velarix.Fact.{JustificationSet}
use velarix.Engine.{Engine, children}
use velarix.Cycles.{Search, found, absent, exhausted, extend, through_sets, reachable}

-- A search from `from` has ended, and if it has found its target, `from` has the property `Q`.
abbrev pub Ended : (String → Type 0) → String → Search → Type 0
Ended Q from (found path) = Q from
Ended Q from (absent visited) = Unit {0}
Ended Q from exhausted = ⊥

-- The child of a set that is listed under a fact comes after the fact.
abbrev pub IsRising : (String → ℕ) → ℕ → Engine → Type 0
IsRising rank top e =
    (p j : String) (js : JustificationSet)
    → contains (children e p) j ≡ true
    → lookup j e.justification_sets ≡ some js
    → (rank p < rank js.child_fact_id) × (rank js.child_fact_id ≤ top)

module _ (rank : String → ℕ) (top : ℕ) (env : Env) (e : Engine) (rising : IsRising rank top e)
    (target : String) (Q : String → Type 0) (here : Q target)
    (back : (p j : String) (js : JustificationSet)
      → contains (children e p) j ≡ true
      → lookup j e.justification_sets ≡ some js
      → Q js.child_fact_id
      → Q p) where
  Ended-extend : (from : String) (s : Search) → Ended Q from s → Ended Q from (extend from s)
  Ended-extend from (found path) h = h
  Ended-extend from (absent visited) h = h
  Ended-extend from exhausted h = h

  Ended-next :
      (from child : String) (s : Search) (rest : List String → Search)
      → Ended Q child s
      → (Q child → Q from)
      → ((v : List String) → Ended Q from (rest v))
      → Ended Q from
          (elim s [ found path ↦ found path | absent v ↦ rest v | exhausted ↦ exhausted ])
  Ended-next from child (found path) rest h up more = up h
  Ended-next from child (absent v) rest h up more = more v
  Ended-next from child exhausted rest h up more = h

  Ended-through_sets :
      (fuel : ℕ) (from : String)
      → top - rank from ≤ fuel
      → ((child : String) (visited : List String)
          → top - rank child < fuel
          → Ended Q child (reachable env e target fuel child visited))
      → (l visited : List String)
      → ((j : String) → contains l j ≡ true → contains (children e from) j ≡ true)
      → Ended Q from (through_sets (reachable env e target fuel) e l visited)
  unfolding through_sets
  Ended-through_sets fuel from enough rec [] visited within = tt
  Ended-through_sets fuel from enough rec (j ∷ l) visited within =
      let first : contains (children e from) j ≡ true =
        within j (ground (arith, contains-cons j l j, eq_refl j)) in
      let rest_lem : (v : List String)
          → Ended Q from (through_sets (reachable env e target fuel) e l v) =
        λ v.
          Ended-through_sets fuel from enough rec l v
            (λ i h. within i (ground (arith, contains-cons j l i))) in
      elim (Option-cases (lookup j e.justification_sets)) [
        | inl gone ↦ rw (gone, through_sets) (rest_lem visited)
        | inr (js, at_j) ↦
            let above = rising from j js first at_j in
            rw (at_j, through_sets)
              (Ended-next from js.child_fact_id
                (reachable env e target fuel js.child_fact_id visited)
                (through_sets (reachable env e target fuel) e l)
                (rec js.child_fact_id visited (omega (arith, above.0, above.1)))
                (back from j js first at_j) rest_lem)
      ]

  -- With fuel above the distance to the top of the order the search ends.
  pub reachable-Ended :
      (fuel : ℕ) (from : String) (visited : List String)
      → top - rank from < fuel
      → Ended Q from (reachable env e target fuel from visited)
  unfolding reachable
  reachable-Ended zero from visited enough = absurd (omega arith)
  reachable-Ended (suc fuel) from visited enough = elim (Bool-cases (from == target)) [
    | inl same ↦ rw same (subst Q (sym ((eq_iff from target).0 same)) here)
    | inr other ↦ elim (Bool-cases (contains visited from)) [
      | inl old ↦ rw (other, old) tt
      | inr new ↦
          rw (other, new)
            (Ended-extend from _ (
              Ended-through_sets fuel from (omega arith) (λ c v h. reachable-Ended fuel c v h)
                (env.range fuel (children e from)) (from ∷ visited)
                (λ j listed. sym (env.contains-range fuel (children e from) j) ∙ listed)))
    ]
  ]
