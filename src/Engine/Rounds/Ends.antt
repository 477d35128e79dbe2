-- ===== src/Engine/Rounds/Ends.antt =====
-- Each round of `propagate` lightens the queue, so that fuel for its load empties it.
use velarix.Prelude.{
  ℕ, zero, suc, ◌-◌, ◌≤◌, ◌<◌, String, ◌≡◌, inl, inr, refl, sym, ◌∙◌, Option, none, some, List, [],
  ◌∷◌, ◌++◌, eq_iff, arith, eqb, lookup, insert, lookup-insert, Bool-cases,
}
use velarix.Env.{Env}
use velarix.Fact.{Fact}
use velarix.Engine.{Engine, Listener, children, notify}
use velarix.Engine.Propagation.{resolve, recounted, refresh_sets, visit_fact, visit, propagate_from}
use velarix.Engine.Rounds.{weight, weight-pos, IsOrdered, load, room_fits, load-append, load-sets}

module _ (rank : String → ℕ) (top width : ℕ) where
  written-IsOrdered :
      (e : Engine) (x : String) (f g : Fact) (ls : List Listener)
      → lookup x e.facts ≡ some f
      → g.id ≡ f.id
      → IsOrdered rank top width e
      → IsOrdered rank top width (record e { facts = insert x g e.facts; listeners = ls })
  unfolding children
  written-IsOrdered e x f g ls there same o = record {
    keyed = λ k h at_k.
        ground (arith, lookup-insert x k g e.facts, eq_iff x k, o.keyed k h, o.keyed x f there);
    rising = o.rising;
    below = λ k h. o.below k (ground (arith, lookup-insert x k g e.facts, eq_iff x k));
    narrow = o.narrow;
  }

  id-recounted : (e : Engine) (f : Fact) → (recounted e f).id ≡ f.id
  unfolding recounted
  id-recounted e f = ground arith

  -- The sets of a fact whose status has changed.
  announced :
      (env : Env) (n : ℕ) (x : String) (e : Engine) (f g : Fact) (ls : List Listener)
      → lookup x e.facts ≡ some f
      → g.id ≡ f.id
      → IsOrdered rank top width e
      → IsOrdered rank top width
          (refresh_sets env
            (record e { facts = insert x g e.facts; listeners = ls })
            (env.range n (children e x))).0
        × (load rank top width
              (refresh_sets env
                (record e { facts = insert x g e.facts; listeners = ls })
                (env.range n (children e x))).1
            < weight width (top - rank x))
  unfolding children
  announced env n x e f g ls there same ord =
      let r =
        load-sets rank top width env x (env.range n (children e x))
          (record e { facts = insert x g e.facts; listeners = ls })
          (written-IsOrdered e x f g ls there same ord)
          (λ j listed. sym (env.contains-range n (children e x) j) ∙ listed) in
      (
        r.0,
        room_fits rank top width (top - rank x) _
            (grind (arith, r.1, env.length-range n (children e x), ord.narrow x)),
      )

  -- A round takes more off the queue than it puts there.
  visit_fact-load :
      (env : Env) (n : ℕ) (x : String) (e : Engine) (o : Option Fact)
      → lookup x e.facts ≡ o
      → IsOrdered rank top width e
      → IsOrdered rank top width (visit_fact env n e x o).0
        × (load rank top width (visit_fact env n e x o).1 < weight width (top - rank x))
  unfolding visit_fact load notify
  visit_fact-load env n x e none gone ord = (ord, weight-pos width (top - rank x))
  visit_fact-load env n x e (some f) there ord =
      elim (Bool-cases (eqb (resolve e f) f.derived_status)) [
        | inl same ↦
            rw (same, visit_fact)
              (
                written-IsOrdered e x f (recounted e f) e.listeners there (id-recounted e f) ord,
                weight-pos width (top - rank x),
              )
        | inr changed ↦
            rw (changed, visit_fact)
              (announced env n x e f (record (recounted e f) { derived_status = resolve e f })
                (notify env e f.id (resolve e f)).listeners there (id-recounted e f) ord)
      ]

  -- With facts ordered so that children come after their parents, fuel for the load of the queue
  -- is enough for `propagate` to empty it, and the facts stay ordered.
  pub propagate_from_returns :
      (env : Env) (n : ℕ) (e : Engine) (queue : List String)
      → IsOrdered rank top width e
      → load rank top width queue ≤ n
      → (e' : Engine) × (propagate_from env n e queue ≡ some e') × IsOrdered rank top width e'
  unfolding propagate_from visit load
  propagate_from_returns env zero e [] ord h = (e, refl, ord)
  propagate_from_returns env (suc n) e [] ord h = (e, refl, ord)
  propagate_from_returns env zero e (x ∷ queue) ord h =
      absurd (omega (arith, weight-pos width (top - rank x)))
  propagate_from_returns env (suc n) e (x ∷ queue) ord h =
      let r = visit_fact-load env n x e (lookup x e.facts) refl ord in
      propagate_from_returns env n (visit env n e x).0 (queue ++ (visit env n e x).1) r.0
        (omega (arith, load-append rank top width queue (visit env n e x).1))
