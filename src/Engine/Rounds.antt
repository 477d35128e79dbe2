-- ===== src/Engine/Rounds.antt =====
-- The work queue of `propagate` empties: along an order of the facts in which every justification
-- set's child comes after its parents, the load of the queue falls with each round.
pub mod Ends
use velarix.Prelude.{
  ℕ, zero, suc, ◌+◌, ◌-◌, ◌*◌, ◌≤◌, ◌<◌, String, ◌≡◌, ◌≢◌, ◌⊎◌, inl, inr, refl, sym, ap, ◌∙◌, Bool,
  true, false, ◌||◌, not, ◌&&◌, Option, none, some, List, [], ◌∷◌, ◌++◌, ◌==◌, eq_iff, eq_refl,
  arith, eqb, eqb→eq, if◌then◌else◌, contains, contains-nil, contains-cons, contains-append, Map,
  lookup, insert, has, lookup-insert, Bool-cases, Option-cases, length,
}
use velarix.Env.{Env}
use velarix.Fact.{Fact, JustificationSet, Status, invalid}
use velarix.Engine.{Engine, Listener, children, reevaluate, notify, compute_parents}
use velarix.Engine.Propagation.{
  resolve, recounted, differs, refresh_set, refresh_sets, visit_fact, visit, propagate_from,
  propagate,
}

-- (width + 1) to the power of k.
unfoldable pub weight : ℕ → ℕ → ℕ
weight width zero = 1
weight width (suc k) = width * weight width k + weight width k

pub weight-pos : (b k : ℕ) → 0 < weight b k
unfolding weight
weight-pos b zero = omega arith
weight-pos b (suc k) = omega (arith, weight-pos b k)

pub weight_mono : (b k m : ℕ) → k ≤ m → weight b k ≤ weight b m
unfolding weight
weight_mono b zero m h = weight-pos b m
weight_mono b (suc k) zero h = absurd (omega arith)
weight_mono b (suc k) (suc m) h = grind (arith, weight_mono b k m)

-- `rank` orders the facts, `top` bounds the ranks of children, and `width` the sets of one parent.
module _ (rank : String → ℕ) (top width : ℕ) where
  pub record IsOrdered (e : Engine) : Type 0 where
    pub keyed : (k : String) (f : Fact) → lookup k e.facts ≡ some f → f.id ≡ k
    pub rising :
        (p j : String) (js : JustificationSet)
        → contains (children e p) j ≡ true
        → lookup j e.justification_sets ≡ some js
        → (rank p < rank js.child_fact_id) × (rank js.child_fact_id ≤ top)
    pub below : (k : String) → has k e.facts ≡ true → rank k ≤ top
    pub narrow : (p : String) → length (children e p) ≤ width

  -- What is left to do for the facts of the queue.
  unfoldable pub load : List String → ℕ
  load [] = 0
  load (x ∷ xs) = weight width (top - rank x) + load xs

  pub load-append : (xs ys : List String) → load (xs ++ ys) ≡ load xs + load ys
  unfolding load
  load-append [] ys = omega arith
  load-append (x ∷ xs) ys = omega (arith, load-append xs ys)

  IsOrdered-set :
      (env : Env) (e : Engine) (j : String) → IsOrdered e → IsOrdered (refresh_set env e j).0
  unfolding refresh_set
  IsOrdered-set env e j o = elim (Option-cases (lookup j e.justification_sets)) [
    | inl gone ↦ rw (gone, refresh_set) o
    | inr (js, at_j) ↦ elim (Option-cases (lookup js.child_fact_id e.facts)) [
      | inl gone ↦ rw (at_j, gone, refresh_set) o
      | inr (child, at_c) ↦
          rw (at_j, at_c, refresh_set)
            (record {
              keyed = o.keyed;
              rising = λ p i js' listed at_i.
                  unfold children reevaluate in
                  ground (
                    arith,
                    lookup-insert j i (reevaluate env e js child) e.justification_sets,
                    eq_iff j i,
                    o.rising p i js,
                    o.rising p i js',
                  );
              below = o.below;
              narrow = unfold children in o.narrow;
            })
    ]
  ]

  -- The load of one fact that stands above a fact at distance `d` from the top.
  pub room : ℕ → ℕ
  room zero = 0
  room (suc k) = weight width k

  pub weight-le-room : (a d : ℕ) → a < d → weight width a ≤ room d
  unfolding room
  weight-le-room a zero h = elim h [ ]
  weight-le-room a (suc d) h = weight_mono width a d (omega arith)

  pub room_fits : (d a : ℕ) → a ≤ width * room d → a < weight width d
  unfolding room weight
  room_fits zero a h = omega arith
  room_fits (suc d) a h = omega (arith, weight-pos width d)

  load-if :
      (b : Bool) (y : String) (n : ℕ)
      → weight width (top - rank y) ≤ n
      → load (if b then y ∷ [] else []) ≤ n
  unfolding load
  load-if true y n h = omega arith
  load-if false y n h = omega arith

  -- One set puts at most its child on the queue, which comes after the parent `x`.
  load-set :
      (env : Env) (e : Engine) (x j : String)
      → IsOrdered e
      → contains (children e x) j ≡ true
      → load (refresh_set env e j).1 ≤ room (top - rank x)
  unfolding refresh_set load
  load-set env e x j o listed = elim (Option-cases (lookup j e.justification_sets)) [
    | inl gone ↦ rw (gone, refresh_set) (omega arith)
    | inr (js, at_j) ↦ elim (Option-cases (lookup js.child_fact_id e.facts)) [
      | inl gone ↦ rw (at_j, gone, refresh_set) (omega arith)
      | inr (child, at_c) ↦
          rw (at_j, at_c, refresh_set)
            (load-if (differs js (reevaluate env e js child)) child.id (room (top - rank x)) (
              rw (o.keyed js.child_fact_id child at_c) (
                weight-le-room (top - rank js.child_fact_id) (top - rank x)
                  (omega (arith, o.rising x j js listed at_j)))))
    ]
  ]

  children-set :
      (env : Env) (e : Engine) (j p : String) → children (refresh_set env e j).0 p ≡ children e p
  unfolding refresh_set children
  children-set env e j p = elim (Option-cases (lookup j e.justification_sets)) [
    | inl gone ↦ rw (gone, refresh_set)
    | inr (js, at_j) ↦ elim (Option-cases (lookup js.child_fact_id e.facts)) [
      | inl gone ↦ rw (at_j, gone, refresh_set)
      | inr (child, at_c) ↦ rw (at_j, at_c, refresh_set)
    ]
  ]

  pub load-sets :
      (env : Env) (x : String) (js : List String) (e : Engine)
      → IsOrdered e
      → ((j : String) → contains js j ≡ true → contains (children e x) j ≡ true)
      → IsOrdered (refresh_sets env e js).0
        × (load (refresh_sets env e js).1 ≤ length js * room (top - rank x))
  unfolding refresh_sets load
  load-sets env x [] e o within = (o, omega arith)
  load-sets env x (j ∷ js) e o within =
      let one = load-set env e x j o (within j (ground (arith, contains-cons j js j, eq_refl j))) in
      let rest = load-sets env x js (refresh_set env e j).0 (IsOrdered-set env e j o) (λ i listed.
        rw (children-set env e j x) (within i (ground (arith, contains-cons j js i)))) in
      (
        rest.0,
        omega (
          arith,
          load-append (refresh_set env e j).1 (refresh_sets env (refresh_set env e j).0 js).1,
        ),
      )
