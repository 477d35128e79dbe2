-- ===== src/Engine/Settled/Retraction.antt =====
-- Retracting a fact leaves that fact to look at.
use mathlib.Core.Path.{subst}
use velarix.Prelude.{
  ℕ, ◌+◌, String, ◌≡◌, ◌≢◌, ◌⊎◌, inl, inr, refl, sym, ◌∙◌, Bool, true, false, some, List, [], ◌∷◌,
  ◌==◌, eq_iff, eq_refl, arith, eqb, eqb→eq, eq→eqb, contains, contains-cons, contains-append, Map,
  lookup, insert, has, lookup-insert, Bool-cases, Option-cases,
}
use velarix.Env.{Env}
use velarix.Fact.{Fact, JustificationSet, invalid}
use velarix.Engine.{
  Engine, Tally, children, reevaluate, compute_parents, status_at, tally_parent, tally_parents,
}
use velarix.Engine.Propagation.{resolve, support}
use velarix.Engine.Operations.{mark_retracted}
use velarix.Engine.Frame.{parents}
use velarix.Engine.Settled.{IsLinked, IsSettled, Awaits}
use velarix.Engine.Settled.Queue.{Progress}

tally_parent-status :
    (now : ℕ) (r r' : Map String) (child f : Fact) (negated : Bool) (t : Tally)
    → status_at now r' f ≡ status_at now r f
    → tally_parent now r' child negated (some f) t ≡ tally_parent now r child negated (some f) t
unfolding tally_parent
tally_parent-status now r r' child f negated t h = rw h

-- Parents with the statuses that they had count as they did.
tally_parents-status :
    (now : ℕ) (r r' : Map String) (facts : Map Fact) (child : Fact) (negated : Bool)
    (ps : List String) (t : Tally)
    → ((p : String) (f : Fact)
        → contains ps p ≡ true
        → lookup p facts ≡ some f
        → status_at now r' f ≡ status_at now r f)
    → tally_parents now r' facts child negated ps t ≡ tally_parents now r facts child negated ps t
unfolding tally_parents tally_parent
tally_parents-status now r r' facts child negated [] t h = refl
tally_parents-status now r r' facts child negated (p ∷ ps) t h =
    let same : tally_parent now r' child negated (lookup p facts) t
        ≡ tally_parent now r child negated (lookup p facts) t =
      elim (Option-cases (lookup p facts)) [
        | inl gone ↦ rw gone
        | inr (f, there) ↦ rw there (
            tally_parent-status now r r' child f negated t
              (h p f (ground (arith, contains-cons p ps p, eq_refl p)) there))
      ] in
    rw same (
      tally_parents-status now r r' facts child negated ps _
        (λ q f listed. h q f (ground (arith, contains-cons p ps q))))

module _ (env : Env) (e : Engine) (x reason : String) (f : Fact) (there : lookup x e.facts ≡ some f)
    (linked : IsLinked e) (s : IsSettled env e) where
  abbrev marked : Engine
  marked = record e {
    retracted_facts = insert x reason e.retracted_facts;
    mutation_count = e.mutation_count + 1;
  }

  reevaluate-marked :
      (js : JustificationSet) (child : Fact)
      → ((p : String) (g : Fact)
          → contains (parents js) p ≡ true
          → lookup p e.facts ≡ some g
          → status_at env.now marked.retracted_facts g ≡ status_at env.now e.retracted_facts g)
      → reevaluate env marked js child ≡ reevaluate env e js child
  unfolding reevaluate compute_parents
  reevaluate-marked js child h =
      let both =
        λ (p : String). contains-append js.positive_parent_fact_ids js.negative_parent_fact_ids p in
      rw (
        tally_parents-status env.now e.retracted_facts marked.retracted_facts e.facts child false
            js.positive_parent_fact_ids (record { count = 0; least = 9007199254740992 })
            (λ p g listed. h p g (ground (arith, both p))),
        tally_parents-status env.now e.retracted_facts marked.retracted_facts e.facts child true
            js.negative_parent_fact_ids _ (λ p g listed. h p g (ground (arith, both p))),
      )

  has-marked :
      (k : String) (g : Fact)
      → (x == k) ≡ false
      → lookup k e.facts ≡ some g
      → has g.id marked.retracted_facts ≡ has g.id e.retracted_facts
  has-marked k g other at_k =
      rw (linked.keyed k g at_k, lookup-insert x k reason e.retracted_facts, other)

  status-other :
      (k : String) (g : Fact)
      → (x == k) ≡ false
      → lookup k e.facts ≡ some g
      → status_at env.now marked.retracted_facts g ≡ status_at env.now e.retracted_facts g
  unfolding status_at
  status-other k g other at_k = rw (has-marked k g other at_k)

  resolve-other :
      (k : String) (g : Fact)
      → (x == k) ≡ false
      → lookup k e.facts ≡ some g
      → resolve marked g ≡ resolve e g
  unfolding resolve support
  resolve-other k g other at_k = rw (has-marked k g other at_k)

  has_self : has f.id marked.retracted_facts ≡ true
  has_self = rw (linked.keyed x f there, lookup-insert x x reason e.retracted_facts, eq_refl x)

  resolve_self : resolve marked f ≡ invalid
  unfolding resolve
  resolve_self = rw has_self

  -- A fact whose computed status is invalid was invalid for its children.
  status_self :
      f.derived_status ≡ invalid
      → status_at env.now marked.retracted_facts f ≡ status_at env.now e.retracted_facts f
  unfolding status_at resolve
  status_self h = rw has_self (ground (arith, s.resolved x f there))

  effect :
      (status_at env.now marked.retracted_facts f ≡ status_at env.now e.retracted_facts f)
      ⊎ (f.derived_status ≢ resolve marked f)
  effect = elim (Bool-cases (eqb f.derived_status invalid)) [
    | inl zero_now ↦ inl (status_self (eqb→eq _ _ zero_now))
    | inr other ↦ inr (λ p. cc (other, eq→eqb _ _ (p ∙ resolve_self)))
  ]

  evaluated_marked :
      (j : String) (js : JustificationSet) (child : Fact)
      → lookup j e.justification_sets ≡ some js
      → (reevaluate env marked js child ≡ reevaluate env e js child) ⊎ Awaits marked (x ∷ []) j
  unfolding children
  evaluated_marked j js child at_j = elim (Bool-cases (contains (parents js) x)) [
    | inr apart ↦ inl (
        reevaluate-marked js child
          (λ p g listed at_p. status-other p g (ground (arith, eq_iff x p)) at_p))
    | inl parent ↦ elim effect [
      | inl same ↦ inl (
          reevaluate-marked js child (λ p g listed at_p. elim (Bool-cases (x == p)) [
            | inl here ↦
                subst
                  (λ z.
                    status_at env.now marked.retracted_facts z
                    ≡ status_at env.now e.retracted_facts z)
                  (let at_x : lookup x e.facts ≡ some g =
                      subst (λ q. lookup q e.facts ≡ some g) (sym ((eq_iff x p).0 here)) at_p in
                    ground arith)
                  same
            | inr other ↦ status-other p g other at_p
          ]))
      | inr stale ↦ inr (record {
        parent = x;
        fact = f;
        queued = ground (arith, contains-cons x [] x, eq_refl x);
        listed = linked.indexed j js x f at_j there parent;
        present = there;
        external = ground (arith, has_self);
        stale = stale;
      })
    ]
  ]

  pub Progress-retracted : Progress env (x ∷ []) (mark_retracted e x reason)
  unfolding mark_retracted children
  Progress-retracted = (
    record {
      keyed = linked.keyed;
      owned = linked.owned;
      indexed = linked.indexed;
      targeted = linked.targeted;
      childed = linked.childed;
      known = linked.known;
      listing = linked.listing;
    },
    record {
      resolved = λ k g at_k idle.
          s.resolved k g at_k ∙ sym (resolve-other k g (ground (arith, contains-cons x [] k)) at_k);
      evaluated = λ j js child at_j its_child closed. elim (evaluated_marked j js child at_j) [
        | inl p ↦ inl (p ∙ s.evaluated j js child at_j its_child)
        | inr a ↦ inr a
      ];
    },
  )
