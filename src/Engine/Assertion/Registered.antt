-- ===== src/Engine/Assertion/Registered.antt =====
-- The justification sets that `AssertFact` of core/engine.go registers for a derived fact.
use mathlib.Core.Path.{subst}
use velarix.Prelude.{
  ℕ, suc, ◌+◌, ◌≤◌, ◌<◌, String, ◌≡◌, ◌⊎◌, inl, inr, refl, sym, ap, ◌∙◌, Bool, true, false, some,
  List, [], ◌∷◌, ◌==◌, eq_iff, eq_refl, arith, if◌then◌else◌, lookup, lookup-insert, eqb, length,
  pos, eqbℤ, Bool-cases, Option-cases,
}
use velarix.Env.{Env}
use velarix.Fact.{Fact, JustificationSet}
use velarix.Dependencies.{TokenError, Split, Parsed, ok, err, split_dependency_set}
use velarix.Ids.{justification_set_id}
use velarix.Ids.Injective.{justification_set_id_injective}
use velarix.Engine.{Engine, reevaluate}
use velarix.Engine.Propagation.{propagate}
use velarix.Engine.Outcome.{Outcome, done, failed, bad_token, out_of_fuel, settled}
use velarix.Engine.Stable.{IsStable}
use velarix.Engine.Rounds.{weight}
use velarix.Engine.Assertion.{
  fresh, validate_assert_fact, assert_fact, insert_fact, register_fact, initialize_derived_fact,
  blank_set, index_parents, add_set, add_sets, after_sets,
}
use velarix.Engine.Assertion.Indexing.{index_parents-IsListing}
use velarix.Engine.Assertion.Shapes.{
  shape, bare_set, AreSame, reevaluate-shape, propagate_from-AreSame,
}
use velarix.Engine.Assertion.Settles.{assert_fact-fresh, assert_fact_settles}

-- The engine has a set of the fact under the index, with the parents of the split tokens.
abbrev pub HasSet : Engine → String → ℕ → Split → Type 0
HasSet e id index s =
    (js : JustificationSet) × (lookup (justification_set_id id index) e.justification_sets
      ≡ some js)
    × (js.child_fact_id ≡ id)
    × (js.parent_fact_ids ≡ s.all)
    × (js.positive_parent_fact_ids ≡ s.positive)
    × (js.negative_parent_fact_ids ≡ s.negative)
    × (js.target_valid_parents ≡ length s.positive + length s.negative)

-- Each list of tokens has its set, counted from an index.
abbrev pub AreRegistered : Engine → String → ℕ → List (List String) → Type 0
AreRegistered e id index [] = Unit
AreRegistered e id index (set ∷ sets) =
    ((s : Split) × (split_dependency_set set ≡ ok s) × HasSet e id index s)
    × AreRegistered e id (index + 1) sets

has_shape :
    (e : Engine) (f : Fact) (index : ℕ) (s : Split)
    → bare_set (lookup (justification_set_id f.id index) e.justification_sets)
      ≡ some (shape (blank_set f index s))
    → HasSet e f.id index s
unfolding blank_set
has_shape e f index s h =
    elim (Option-cases (lookup (justification_set_id f.id index) e.justification_sets)) [
      | inl gone ↦ cc (h, ap bare_set gone)
      | inr (js, there) ↦
          let is : some (shape js) ≡ some (shape (blank_set f index s)) =
            sym (ap bare_set there) ∙ h in
          (
            js,
            there,
            unfold blank_set in ground (arith, is),
            unfold blank_set in ground (arith, is),
            unfold blank_set in ground (arith, is),
            unfold blank_set in ground (arith, is),
            unfold blank_set in ground (arith, is),
          )
    ]

-- What the writes of one set come to.
pub record IsAdded (env : Env) (e : Engine) (f : Fact) (index : ℕ) (s : Split) : Type 0 where
  pub same_id : (add_set env e f index s).1.id ≡ f.id
  pub added :
      bare_set
        (lookup (justification_set_id f.id index) (add_set env e f index s).0.justification_sets)
      ≡ some (shape (blank_set f index s))
  pub others :
      (i : ℕ)
      → i < index
      → lookup (justification_set_id f.id i) (add_set env e f index s).0.justification_sets
        ≡ lookup (justification_set_id f.id i) e.justification_sets

id_of_if :
    (c : Bool) (f : Fact) (n : ℕ)
    → (if c then record f { valid_justification_count = n } else f).id ≡ f.id
id_of_if true f n = refl
id_of_if false f n = refl

index_parents-sets :
    (e : Engine) (j : String) (ps : List String)
    → (index_parents e j ps).justification_sets ≡ e.justification_sets
index_parents-sets e j ps =
    ap (λ (z : Engine). z.justification_sets) (index_parents-IsListing e j ps).others

add_set-IsAdded :
    (env : Env) (e : Engine) (f : Fact) (index : ℕ) (s : Split) → IsAdded env e f index s
unfolding add_set blank_set
add_set-IsAdded env e f index s =
    let id = justification_set_id f.id index in
    let m = index_parents e id s.positive in
    let indexed = index_parents m id s.negative in
    let js' = reevaluate env indexed (blank_set f index s) f in
    let before : indexed.justification_sets ≡ e.justification_sets =
      index_parents-sets m id s.negative ∙ index_parents-sets e id s.positive in
    record {
      same_id = id_of_if (eqb js'.current_valid_parents js'.target_valid_parents) f _;
      added =
          rw (lookup-insert id id js' indexed.justification_sets, eq_refl id)
            (ap some (reevaluate-shape env indexed (blank_set f index s) f));
      others = λ i below. elim (Bool-cases (id == justification_set_id f.id i)) [
        | inr other ↦
            rw
              (lookup-insert id (justification_set_id f.id i) js' indexed.justification_sets, other)
              (ap (lookup (justification_set_id f.id i)) before)
        | inl same ↦
            let clash =
              (justification_set_id_injective f.id f.id index i ((eq_iff id _).0 same)).1 in
            absurd (omega (arith, clash, below))
      ];
    }

Parsed-cases : (p : Parsed Split) → ((x : TokenError) × (p ≡ err x)) ⊎ ((s : Split) × (p ≡ ok s))
Parsed-cases (err x) = inl (x, refl)
Parsed-cases (ok s) = inr (s, refl)

-- The loop registers a set for each list of tokens, and keeps the sets in front of them.
add_sets-AreRegistered :
    (env : Env) (sets : List (List String)) (e m : Engine) (f : Fact) (index : ℕ)
    → add_sets env e f index sets ≡ (done, m)
    → AreRegistered m f.id index sets
      × ((i : ℕ)
          → i < index
          → lookup (justification_set_id f.id i) m.justification_sets
            ≡ lookup (justification_set_id f.id i) e.justification_sets)
unfolding add_sets
add_sets-AreRegistered env [] e m f index ends =
    let same : e ≡ m = ap (λ (r : Outcome × Engine). r.1) ends in
    (tt, λ i below. ap (λ z. lookup (justification_set_id f.id i) z.justification_sets) (sym same))
add_sets-AreRegistered env (set ∷ sets) e m f index ends =
    elim (Parsed-cases (split_dependency_set set)) [
      | inl (x, bad) ↦
          let fails : add_sets env e f index (set ∷ sets) ≡ (failed (bad_token x), e) =
            rw (bad, add_sets) refl in
          cc (ap (λ (r : Outcome × Engine). r.0) (sym fails ∙ ends))
      | inr (s, splits) ↦
          let a = add_set-IsAdded env e f index s in
          let r = add_set env e f index s in
          let goes_on : add_sets env e f index (set ∷ sets)
              ≡ add_sets env r.0 r.1 (index + 1) sets =
            rw (splits, add_sets) refl in
          let (later, keeps) =
            add_sets-AreRegistered env sets r.0 m r.1 (index + 1) (sym goes_on ∙ ends) in
          let kept_at : (i : ℕ)
              → i < index + 1
              → lookup (justification_set_id f.id i) m.justification_sets
                ≡ lookup (justification_set_id f.id i) r.0.justification_sets =
            subst
              (λ id.
                (i : ℕ)
                → i < index + 1
                → lookup (justification_set_id id i) m.justification_sets
                  ≡ lookup (justification_set_id id i) r.0.justification_sets)
              a.same_id keeps in
          let (js, there, child, all, positive, negative, target) =
            has_shape r.0 f index s a.added in
          (
            (
              (
                s,
                splits,
                (js, kept_at index (omega arith) ∙ there, child, all, positive, negative, target),
              ),
              subst (λ id. AreRegistered m id (index + 1) sets) a.same_id later,
            ),
            λ i below. kept_at i (omega (arith, below)) ∙ a.others i below,
          )
    ]

HasSet-same :
    (e e' : Engine) (id : String) (index : ℕ) (s : Split)
    → AreSame e e'
    → HasSet e id index s
    → HasSet e' id index s
HasSet-same e e' id index s same (js, there, child, all, positive, negative, target) =
    let at_id = same (justification_set_id id index) in
    elim (Option-cases (lookup (justification_set_id id index) e'.justification_sets)) [
      | inl gone ↦ cc (sym (ap bare_set gone) ∙ at_id ∙ ap bare_set there)
      | inr (js', there') ↦
          let is : some (shape js') ≡ some (shape js) =
            sym (ap bare_set there') ∙ at_id ∙ ap bare_set there in
          (
            js',
            there',
            ground (arith, is, child),
            ground (arith, is, all),
            ground (arith, is, positive),
            ground (arith, is, negative),
            ground (arith, is, target),
          )
    ]

AreRegistered-same :
    (e e' : Engine) (id : String) (sets : List (List String)) (index : ℕ)
    → AreSame e e'
    → AreRegistered e id index sets
    → AreRegistered e' id index sets
AreRegistered-same e e' id [] index same h = tt
AreRegistered-same e e' id (set ∷ sets) index same ((s, splits, one), more) = (
  (s, splits, HasSet-same e e' id index s same one),
  AreRegistered-same e e' id sets (index + 1) same more,
)

after_sets-done :
    (env : Env) (id : String) (e' : Engine) (r : Outcome × Engine)
    → after_sets env id r ≡ (done, e')
    → (m : Engine) × (r ≡ (done, m)) × (propagate env m (id ∷ []) ≡ some e')
after_sets-done env id e' (done, m) h = elim (Option-cases (propagate env m (id ∷ []))) [
  | inl endless ↦ cc (ap (λ (q : Outcome × Engine). q.0) (sym (ap (settled m) endless) ∙ h))
  | inr (z, ends) ↦
      (m, refl, ends ∙ ap (λ (q : Outcome × Engine). some q.1) (sym (ap (settled m) ends) ∙ h))
]
after_sets-done env id e' (failed x, m) h = cc (ap (λ (q : Outcome × Engine). q.0) h)
after_sets-done env id e' (out_of_fuel, m) h = cc (ap (λ (q : Outcome × Engine). q.0) h)

initialize-AreRegistered :
    (env : Env) (e e' : Engine) (f : Fact)
    → initialize_derived_fact env e f ≡ (done, e')
    → AreRegistered e' f.id 0 f.justification_sets
unfolding initialize_derived_fact propagate
initialize-AreRegistered env e e' f h =
    let (m, adds, ends) = after_sets-done env f.id e' _ h in
    AreRegistered-same m e' f.id f.justification_sets 0
      (propagate_from-AreSame env env.fuel m e' (f.id ∷ []) ends)
      (add_sets-AreRegistered env f.justification_sets _ m _ 0 adds).0

-- With fuel for the weight of the order with the fact at its end, asserting a derived fact that
-- passes validation as new on a stable engine returns no error, and the engine then has, under the
-- id of the fact and the index of each of its lists of dependencies, a justification set of the
-- fact with the parents into which the list splits, all of which it requires.
pub assert_fact_registers :
    (rank : String → ℕ) (top width : ℕ) (env : Env) (e : Engine) (f : Fact)
    → IsStable rank top width env e
    → validate_assert_fact env e f ≡ fresh
    → weight (width + length f.justification_sets) (suc top) ≤ env.fuel
    → f.is_root ≡ false
    → (e' : Engine) × (assert_fact env e (some f) ≡ (done, e'))
      × AreRegistered e' f.id 0 f.justification_sets
unfolding insert_fact
assert_fact_registers rank top width env e f s new fuel derived =
    let (e', ends, stable, here) = assert_fact_settles rank top width env e f s new fuel in
    let g : Fact = record f {
      asserted_at = if eqbℤ f.asserted_at (pos 0) then pos env.now else f.asserted_at;
    } in
    let starts : insert_fact env e g ≡ initialize_derived_fact env (register_fact e g) g =
      rw (derived, insert_fact) refl in
    (
      e',
      ends,
      initialize-AreRegistered env (register_fact e g) e' g
          (sym starts ∙ sym (assert_fact-fresh env e f new) ∙ ends),
    )
