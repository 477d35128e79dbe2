-- ===== src/Engine/Settled/Refresh.antt =====
-- Counting a set anew settles it, and puts the fact that it justifies on the work list.
use mathlib.Core.Path.{subst}
use velarix.Prelude.{
  ℕ, String, ◌≡◌, ◌≢◌, ◌⊎◌, inl, inr, refl, sym, ◌∙◌, true, false, some, List, [], ◌∷◌, ◌++◌, ◌==◌,
  eq_iff, arith, if◌then◌else◌, contains, contains-nil, contains-cons, contains-append, Map, lookup,
  insert, lookup-insert, Bool-cases,
}
use velarix.Env.{Env}
use velarix.Fact.{Fact, JustificationSet}
use velarix.Ids.{justification_set_id}
use velarix.Engine.{Engine, children, reevaluate, compute_parents}
use velarix.Engine.Propagation.{resolve, differs}
use velarix.Engine.Frame.{reevaluate-reevaluate, resolve-external, resolve-sets}
use velarix.Engine.Settled.{IsLinked, IsSettling, Awaits}

abbrev pub with_sets : Engine → Map JustificationSet → Engine
with_sets e sets = record e { justification_sets = sets }

-- What a set is told by a change: its counted fields.
same_of_differs :
    (env : Env) (e : Engine) (js : JustificationSet) (child : Fact)
    → differs js (reevaluate env e js child) ≡ false
    → reevaluate env e js child ≡ js
unfolding differs reevaluate
same_of_differs env e js child h = ground arith

module _ (env : Env) (e : Engine) (j : String) (js : JustificationSet) (child : Fact)
    (there : lookup j e.justification_sets ≡ some js)
    (its_child : lookup js.child_fact_id e.facts ≡ some child) where
  abbrev pub new_set : JustificationSet
  new_set = reevaluate env e js child

  abbrev pub after : Engine
  after = with_sets e (insert j new_set e.justification_sets)

  -- A fact that the set does not justify has the status that it had.
  resolve_other : (f : Fact) → IsLinked e → f.id ≢ js.child_fact_id → resolve after f ≡ resolve e f
  resolve_other f linked ne =
      resolve-sets e (insert j new_set e.justification_sets) f
        (λ i. other i (Bool-cases (j == justification_set_id f.id i)))
    where
      other :
          (i : ℕ)
          → ((j == justification_set_id f.id i) ≡ true)
            ⊎ ((j == justification_set_id f.id i) ≡ false)
          → lookup (justification_set_id f.id i) (insert j new_set e.justification_sets)
            ≡ lookup (justification_set_id f.id i) e.justification_sets
      other i (inl e') = absurd (
          ne (
            sym (
              linked.owned f.id i js (
                subst (λ q. lookup q e.justification_sets ≡ some js)
                  ((eq_iff j (justification_set_id f.id i)).0 e') there))))
      other i (inr e') =
          rw (lookup-insert j (justification_set_id f.id i) new_set e.justification_sets, e')

  -- An unchanged set changes no status.
  resolve_same : (f : Fact) → new_set ≡ js → resolve after f ≡ resolve e f
  resolve_same f same =
      resolve-sets e (insert j new_set e.justification_sets) f (λ i.
        pointwise (justification_set_id f.id i) (Bool-cases (j == justification_set_id f.id i)))
    where
      pointwise :
          (q : String)
          → ((j == q) ≡ true) ⊎ ((j == q) ≡ false)
          → lookup q (insert j new_set e.justification_sets) ≡ lookup q e.justification_sets
      pointwise q (inl e') =
          rw (lookup-insert j q new_set e.justification_sets, e', same)
            (sym (subst (λ q. lookup q e.justification_sets ≡ some js) ((eq_iff j q).0 e') there))
      pointwise q (inr e') = rw (lookup-insert j q new_set e.justification_sets, e')

  abbrev pub queued : List String
  queued = if differs js new_set then child.id ∷ [] else []

  Awaits-after :
      (work more : List String) (i : String) → Awaits e work i → Awaits after (work ++ more) i
  unfolding children
  Awaits-after work more i a = record {
    parent = a.parent;
    fact = a.fact;
    queued = ground (arith, contains-append work more a.parent, a.queued);
    listed = a.listed;
    present = a.present;
    external = a.external;
    stale = λ p.
        a.stale (p ∙ resolve-external e (insert j new_set e.justification_sets) a.fact a.external);
  }

  child_ne :
      (work : List String) (k : String) (f : Fact)
      → IsLinked e
      → lookup k e.facts ≡ some f
      → contains (work ++ queued) k ≡ false
      → differs js new_set ≡ true
      → f.id ≢ js.child_fact_id
  child_ne work k f linked at_k idle changed p = ground (
    arith,
    contains-append work queued k,
    contains-cons child.id [] k,
    contains-nil k,
    eq_iff child.id k,
    linked.keyed js.child_fact_id child its_child,
    linked.keyed k f at_k,
  )

  resolve-after :
      (work : List String) (k : String) (f : Fact)
      → IsLinked e
      → lookup k e.facts ≡ some f
      → contains (work ++ queued) k ≡ false
      → resolve after f ≡ resolve e f
  resolve-after work k f linked at_k idle = elim (Bool-cases (differs js new_set)) [
    | inl changed ↦ resolve_other f linked (child_ne work k f linked at_k idle changed)
    | inr same ↦ resolve_same f (same_of_differs env e js child same)
  ]

  evaluated_self :
      (js' : JustificationSet) (c : Fact)
      → new_set ≡ js'
      → lookup js'.child_fact_id e.facts ≡ some c
      → reevaluate env after js' c ≡ js'
  unfolding reevaluate
  evaluated_self js' c is_new its_c =
      let same : lookup js.child_fact_id e.facts ≡ some c =
        subst (λ (z : JustificationSet). lookup z.child_fact_id e.facts ≡ some c) (sym is_new)
          its_c in
      let same_child : child ≡ c = ground arith in
      subst (λ z. reevaluate env after z c ≡ z) is_new
        (subst (λ q. reevaluate env after new_set q ≡ new_set) same_child
          (reevaluate-reevaluate env e js child (insert j new_set e.justification_sets)))

  reevaluate-after :
      (js' : JustificationSet) (c : Fact) → reevaluate env after js' c ≡ reevaluate env e js' c
  unfolding reevaluate compute_parents
  reevaluate-after js' c = refl

  evaluated_after :
      (work open_sets : List String) (i : String) (js' : JustificationSet) (c : Fact)
      → IsSettling env e work (j ∷ open_sets)
      → lookup i (insert j new_set e.justification_sets) ≡ some js'
      → lookup js'.child_fact_id e.facts ≡ some c
      → contains open_sets i ≡ false
      → (reevaluate env after js' c ≡ js') ⊎ Awaits after (work ++ queued) i
  evaluated_after work open_sets i js' c s at_i its_c closed = elim (Bool-cases (j == i)) [
    | inl here ↦ inl (
        evaluated_self js' c (ground (arith, lookup-insert j i new_set e.justification_sets)) its_c)
    | inr other ↦
        elim (s.evaluated i js' c (ground (arith, lookup-insert j i new_set e.justification_sets))
          its_c (ground (arith, contains-cons j open_sets i))) [
            | inl p ↦ inl (reevaluate-after js' c ∙ p)
            | inr a ↦ inr (Awaits-after work queued i a)
          ]
  ]

  pub IsSettling-after :
      (work open_sets : List String)
      → IsLinked e
      → IsSettling env e work (j ∷ open_sets)
      → IsSettling env after (work ++ queued) open_sets
  IsSettling-after work open_sets linked s = record {
    resolved = λ k f at_k idle.
        s.resolved k f at_k (ground (arith, contains-append work queued k))
        ∙ sym (resolve-after work k f linked at_k idle);
    evaluated =
        λ i js' c at_i its_c closed. evaluated_after work open_sets i js' c s at_i its_c closed;
  }

  pub IsLinked-after : IsLinked e → IsLinked after
  unfolding reevaluate children
  IsLinked-after linked = record {
    keyed = linked.keyed;
    owned = λ id i js' at_i. ground (
      arith,
      lookup-insert j (justification_set_id id i) new_set e.justification_sets,
      eq_iff j (justification_set_id id i),
      linked.owned id i js,
      linked.owned id i js',
    );
    indexed = λ i js' p f at_i at_p is_parent. ground (
      arith,
      lookup-insert j i new_set e.justification_sets,
      eq_iff j i,
      linked.indexed i js p f,
      linked.indexed i js' p f,
    );
    childed = λ i js' at_i. ground (
      arith,
      lookup-insert j i new_set e.justification_sets,
      eq_iff j i,
      linked.childed i js,
      linked.childed i js',
    );
    known = λ i js' p at_i is_parent. ground (
      arith,
      lookup-insert j i new_set e.justification_sets,
      eq_iff j i,
      linked.known i js p,
      linked.known i js' p,
    );
    listing = linked.listing;
    targeted = λ i js' at_i. ground (
      arith,
      lookup-insert j i new_set e.justification_sets,
      eq_iff j i,
      linked.targeted i js,
      linked.targeted i js',
    );
  }
