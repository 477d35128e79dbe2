-- ===== src/Engine/Operations/Settles.antt =====
-- Each operation on a stable engine ends, with fuel for its load, in a stable engine.
use velarix.Prelude.{
  ℕ, ◌+◌, ◌≤◌, String, true, false, ◌≡◌, ◌≢◌, inl, inr, sym, ap, ◌∙◌, Option, none, some, List, [],
  ◌∷◌, ltb, if◌then◌else◌, add, discard, arith, lookup, eq_refl, eq_iff, eqb, eqb→eq, eq→eqb,
  lookup-insert, Bool-cases,
}
use velarix.Env.{Env}
use velarix.Fact.{Fact, Status, invalid, threshold}
use velarix.Engine.{Engine, children, status_at}
use velarix.Engine.Propagation.{propagate}
use velarix.Engine.Outcome.{done, settled}
use velarix.Engine.Operations.{
  invalidate_root, invalidate_found, mark_invalid, set_root_confidence, set_found, mark_confidence,
  retract_fact, mark_retracted, has_reason, reason_or,
}
use velarix.Engine.Kept.{IsKept}
use velarix.Engine.Rounds.{weight, IsOrdered}
use velarix.Engine.Settled.Control.{controlled, Progress-controlled}
use velarix.Engine.Settled.Retraction.{Progress-retracted}
use velarix.Engine.Stable.{IsStable, propagate_settles, bare-some}

module _ (rank : String → ℕ) (top width : ℕ) (env : Env) (e : Engine) (id : String) where
  IsOrdered-controlled :
      (f : Fact) (m : Status) (roots : List String) (count : ℕ) (there : lookup id e.facts ≡ some f)
      → IsOrdered rank top width e
      → IsOrdered rank top width (controlled env e id f m roots count there)
  unfolding children
  IsOrdered-controlled f m roots count there o = record {
    keyed = λ k g at_k. ground (
      arith,
      lookup-insert id k (record f { manual_status = m }) e.facts,
      eq_iff id k,
      o.keyed k g,
      o.keyed id f there,
    );
    rising = o.rising;
    below = λ k h.
        o.below k (
          ground (arith, lookup-insert id k (record f { manual_status = m }) e.facts, eq_iff id k));
    narrow = o.narrow;
  }

  -- A root of the state `e'` whose own status is `m`.
  abbrev pub HasControl : Status → Engine → Type 0
  HasControl m e' =
      (g : Fact) × (lookup id e'.facts ≡ some g) × (g.is_root ≡ true) × (g.manual_status ≡ m)

  control_settles :
      (f : Fact) (m : Status) (roots : List String) (count : ℕ) (there : lookup id e.facts ≡ some f)
      → f.is_root ≡ true
      → m ≢ f.manual_status
      → weight width top ≤ env.fuel
      → IsStable rank top width env e
      → (e' : Engine) × (propagate env (controlled env e id f m roots count there) (id ∷ [])
          ≡ some e')
        × IsStable rank top width env e'
        × IsKept (controlled env e id f m roots count there) e'
        × HasControl m e'
  control_settles f m roots count there root new fuel s =
      let (e', ends, stable, kept) =
        propagate_settles rank top width env (controlled env e id f m roots count there) id fuel
          (Progress-controlled env e id f m roots count there root new s.linked s.settled_now)
          (IsOrdered-controlled f m roots count there s.ordered) in
      let (g, at_id, same) =
        bare-some (lookup id e'.facts) (record f { manual_status = m })
          (kept.facts id
            ∙ rw (lookup-insert id id (record f { manual_status = m }) e.facts, eq_refl id)) in
      (
        e',
        ends,
        stable,
        kept,
        (
          g,
          at_id,
          ap (λ (z : Fact). z.is_root) same ∙ root,
          ap (λ (z : Fact). z.manual_status) same,
        ),
      )

  found_already :
      (f : Fact)
      → lookup id e.facts ≡ some f
      → f.is_root ≡ true
      → eqb f.manual_status invalid ≡ true
      → invalidate_root env e id ≡ (done, e)
  unfolding invalidate_root
  found_already f there root already = rw (there, invalidate_found) (simp (root, already))

  found_fresh :
      (f : Fact)
      → lookup id e.facts ≡ some f
      → f.is_root ≡ true
      → eqb f.manual_status invalid ≡ false
      → invalidate_root env e id
        ≡ settled (mark_invalid e id f) (propagate env (mark_invalid e id f) (id ∷ []))
  unfolding invalidate_root
  found_fresh f there root fresh = rw (there, invalidate_found) (simp (root, fresh))

  set_already :
      (f : Fact) (c : Status)
      → lookup id e.facts ≡ some f
      → f.is_root ≡ true
      → eqb f.manual_status c ≡ true
      → set_root_confidence env e id c ≡ (done, e)
  unfolding set_root_confidence
  set_already f c there root already = rw (there, set_found) (simp (root, already))

  set_fresh :
      (f : Fact) (c : Status)
      → lookup id e.facts ≡ some f
      → f.is_root ≡ true
      → eqb f.manual_status c ≡ false
      → set_root_confidence env e id c
        ≡ settled (mark_confidence e id f c) (propagate env (mark_confidence e id f c) (id ∷ []))
  unfolding set_root_confidence
  set_fresh f c there root fresh = rw (there, set_found) (simp (root, fresh))

  -- With fuel for the weight of the order, invalidating a root of a stable engine returns no error
  -- and ends in a stable engine in which it is an invalid root.
  pub invalidate_root_settles :
      (f : Fact)
      → lookup id e.facts ≡ some f
      → f.is_root ≡ true
      → weight width top ≤ env.fuel
      → IsStable rank top width env e
      → (e' : Engine) × (invalidate_root env e id ≡ (done, e'))
        × IsStable rank top width env e'
        × HasControl invalid e'
  unfolding mark_invalid
  invalidate_root_settles f there root fuel s = elim (Bool-cases (eqb f.manual_status invalid)) [
    | inl already ↦ (e, found_already f there root already, s, (f, there, root, eqb→eq _ _ already))
    | inr fresh ↦
        let (e', ends, stable, _, control) =
          control_settles f invalid (add e.collapsed_roots id) (e.mutation_count + 1) there root
            (λ p. cc (fresh, eq→eqb _ _ (sym p))) fuel s in
        (e', found_fresh f there root fresh ∙ ap (settled _) ends, stable, control)
  ]

  -- With fuel for the weight of the order, setting the confidence of a root of a stable engine
  -- returns no error and ends in a stable engine in which the root has that confidence.
  pub set_root_confidence_settles :
      (confidence : Status) (f : Fact)
      → lookup id e.facts ≡ some f
      → f.is_root ≡ true
      → weight width top ≤ env.fuel
      → IsStable rank top width env e
      → (e' : Engine) × (set_root_confidence env e id confidence ≡ (done, e'))
        × IsStable rank top width env e'
        × HasControl confidence e'
  unfolding mark_confidence
  set_root_confidence_settles confidence f there root fuel s =
      elim (Bool-cases (eqb f.manual_status confidence)) [
        | inl already ↦ (
          e,
          set_already f confidence there root already,
          s,
          (f, there, root, eqb→eq _ _ already),
        )
        | inr fresh ↦
            let (e', ends, stable, _, control) =
              control_settles f confidence
                (if ltb confidence threshold
                  then add e.collapsed_roots id
                  else discard e.collapsed_roots id)
                (e.mutation_count + 1) there root (λ p. cc (fresh, eq→eqb _ _ (sym p))) fuel s in
            (e', set_fresh f confidence there root fresh ∙ ap (settled _) ends, stable, control)
      ]

  -- The fact is retracted for the reason that was given.
  pub record IsRetracted (reason : String) (e' : Engine) : Type 0 where
    pub reason_kept : lookup id e'.retracted_facts ≡ some reason
    pub without_status :
        (g : Fact) → lookup id e'.facts ≡ some g → status_at env.now e'.retracted_facts g ≡ invalid

  without_status_lem :
      (e' : Engine) (reason : String) (g : Fact)
      → lookup id e'.retracted_facts ≡ some reason
      → g.id ≡ id
      → status_at env.now e'.retracted_facts g ≡ invalid
  unfolding status_at
  without_status_lem e' reason g there same = rw (same, there)

  IsRetracted_lem :
      (e' : Engine) (reason : String)
      → IsStable rank top width env e'
      → lookup id e'.retracted_facts ≡ some reason
      → IsRetracted reason e'
  IsRetracted_lem e' reason s there = record {
    reason_kept = there;
    without_status = λ g at_id. without_status_lem e' reason g there (s.ordered.keyed id g at_id);
  }

  same_reason : (o : Option String) (reason : String) → has_reason reason o ≡ true → o ≡ some reason
  unfolding has_reason
  same_reason none reason h = cc
  same_reason (some r) reason h = ap some ((eq_iff r reason).0 h)

  -- With fuel for the weight of the order, retracting a fact of a stable engine returns no error
  -- and ends in a stable engine in which the fact is retracted for the given reason, "retracted" if
  -- it is empty, and has the status invalid.
  pub retract_fact_settles :
      (reason : String) (f : Fact)
      → lookup id e.facts ≡ some f
      → weight width top ≤ env.fuel
      → IsStable rank top width env e
      → (e' : Engine) × (retract_fact env e id reason ≡ (done, e'))
        × IsStable rank top width env e'
        × IsRetracted (reason_or "retracted" reason) e'
  unfolding retract_fact mark_retracted
  retract_fact_settles reason f there fuel s =
      elim (Bool-cases (has_reason (reason_or "retracted" reason) (lookup id e.retracted_facts))) [
        | inl already ↦ (
          e,
          rw (there, already),
          s,
          IsRetracted_lem e (reason_or "retracted" reason) s (same_reason _ _ already),
        )
        | inr fresh ↦
            let (e', ends, stable, kept) =
              propagate_settles rank top width env
                (mark_retracted e id (reason_or "retracted" reason)) id fuel
                (Progress-retracted env e id (reason_or "retracted" reason) f there s.linked
                  s.settled_now)
                (record {
                  keyed = s.ordered.keyed;
                  rising = unfold children in s.ordered.rising;
                  below = s.ordered.below;
                  narrow = unfold children in s.ordered.narrow;
                }) in
            (
              e',
              rw (there, fresh, ends),
              stable,
              IsRetracted_lem e' (reason_or "retracted" reason) stable (
                  ap (lookup id) kept.retracted
                  ∙ rw (
                    lookup-insert id id (reason_or "retracted" reason) e.retracted_facts,
                    eq_refl id,
                  )),
            )
      ]
