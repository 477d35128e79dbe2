-- ===== src/Engine/Assertion/Building.antt =====
-- The states in which a new derived fact gets its justification sets (the loop of
-- `initializeDerivedFactLocked`).
use mathlib.Core.Path.{subst}
use velarix.Prelude.{
  ℕ, suc, ◌+◌, ◌≤◌, ◌<◌, String, ◌≡◌, ◌⊎◌, inl, inr, refl, sym, ap, ◌∙◌, true, false, some, [], ◌∷◌,
  ◌==◌, eq_iff, eq_refl, arith, contains, contains-cons, lookup, insert, has, lookup-insert,
  Bool-cases, length,
}
use velarix.Env.{Env}
use velarix.Fact.{Fact, JustificationSet}
use velarix.Ids.{justification_set_id}
use velarix.Ids.Injective.{justification_set_id_injective}
use velarix.Engine.{Engine, children, reevaluate}
use velarix.Engine.Frame.{
  parents, IsSameChild, reevaluate-reevaluate, reevaluate-child, reevaluate-absent, resolve-sets,
}
use velarix.Engine.Propagation.{resolve}
use velarix.Engine.Settled.{IsLinked}
use velarix.Engine.Settled.Queue.{Progress}
use velarix.Engine.Rounds.{IsOrdered}
use velarix.Engine.Assertion.Indexing.{IsListing, length-room}

-- Linked, ordered and settled but for the fact `f`, on which no other fact rests.
pub record IsBuilding (rank : String → ℕ) (top width : ℕ) (env : Env) (f : Fact) (e : Engine)
    : Type 0 where
  pub linked : IsLinked e
  pub ordered : IsOrdered rank top width e
  pub here : lookup f.id e.facts ≡ some f
  pub unused :
      (j : String) (js : JustificationSet)
      → lookup j e.justification_sets ≡ some js
      → contains (parents js) f.id ≡ false
  pub unlisted : (j : String) → contains (children e f.id) j ≡ false
  -- the fact comes after all others
  pub last : (p : String) → has p e.facts ≡ true → (f.id == p) ≡ false → rank p < rank f.id
  pub resolved :
      (k : String) (g : Fact)
      → lookup k e.facts ≡ some g
      → (f.id == k) ≡ false
      → g.derived_status ≡ resolve e g
  pub evaluated :
      (j : String) (js : JustificationSet) (child : Fact)
      → lookup j e.justification_sets ≡ some js
      → lookup js.child_fact_id e.facts ≡ some child
      → reevaluate env e js child ≡ js

pub Progress-built :
    (rank : String → ℕ) (top width : ℕ) (env : Env) (f : Fact) (e : Engine)
    → IsBuilding rank top width env f e
    → Progress env (f.id ∷ []) e
Progress-built rank top width env f e b = (
  b.linked,
  record {
    resolved = λ k g at_k idle. b.resolved k g at_k (ground (arith, contains-cons f.id [] k));
    evaluated = λ j js c at_j its_c closed. inl (b.evaluated j js c at_j its_c);
  },
)

-- A new set of `f`, which takes the count `n` of its valid sets.
module _ (rank : String → ℕ) (top width : ℕ) (env : Env) (f : Fact) (e : Engine)
    (b : IsBuilding rank top width env f e) (index : ℕ) (blank : JustificationSet) (n : ℕ)
    (C : Engine) (child_is : blank.child_fact_id ≡ f.id)
    (target_is : blank.target_valid_parents
      ≡ length blank.positive_parent_fact_ids + length blank.negative_parent_fact_ids)
    (known : (p : String)
      → contains (parents blank) p ≡ true
      → (has p e.facts ≡ true) × ((f.id == p) ≡ false))
    (listing : IsListing e (justification_set_id f.id index) (parents blank) C) where
  abbrev set_id : String
  set_id = justification_set_id f.id index

  abbrev js' : JustificationSet
  js' = reevaluate env e blank f

  abbrev f' : Fact
  f' = record f { valid_justification_count = n }

  abbrev after : Engine
  after = record e {
    facts = insert f.id f' e.facts;
    justification_sets = insert set_id js' e.justification_sets;
    children_index = C.children_index;
  }

  parents_same : parents js' ≡ parents blank
  unfolding reevaluate
  parents_same = refl

  child_same : js'.child_fact_id ≡ f.id
  unfolding reevaluate
  child_same = child_is

  children-after : (p : String) → children after p ≡ children C p
  unfolding children
  children-after p = refl

  fact_cases :
      (k : String) (g : Fact)
      → lookup k after.facts ≡ some g
      → ((f.id ≡ k) × (g ≡ f')) ⊎ (((f.id == k) ≡ false) × (lookup k e.facts ≡ some g))
  fact_cases k g at_k = ground (arith, lookup-insert f.id k f' e.facts, eq_iff f.id k)

  set_cases :
      (j : String) (js : JustificationSet)
      → lookup j after.justification_sets ≡ some js
      → ((set_id ≡ j) × (js ≡ js')) ⊎ (lookup j e.justification_sets ≡ some js)
  set_cases j js at_j =
      ground (arith, lookup-insert set_id j js' e.justification_sets, eq_iff set_id j)

  has_after : (k : String) → has k e.facts ≡ true → has k after.facts ≡ true
  has_after k h = ground (arith, lookup-insert f.id k f' e.facts)

  has_before : (k : String) → has k after.facts ≡ true → has k e.facts ≡ true
  has_before k h = elim (Bool-cases (f.id == k)) [
    | inl same ↦ rw (sym ((eq_iff f.id k).0 same), b.here) refl
    | inr other ↦ ground (arith, lookup-insert f.id k f' e.facts)
  ]

  has_self : has f.id after.facts ≡ true
  has_self = has_after f.id (rw b.here refl)

  listed_cases :
      (p i : String)
      → contains (children after p) i ≡ true
      → (contains (children e p) i ≡ true) ⊎ ((i ≡ set_id) × (contains (parents blank) p ≡ true))
  listed_cases p i h = listing.origin p i (rw (sym (children-after p)) h)

  IsLinked-after : IsLinked after
  IsLinked-after = record {
    keyed = λ k g at_k. elim (fact_cases k g at_k) [
      | inl (same, is) ↦ ap (λ (z : Fact). z.id) is ∙ same
      | inr (_, old) ↦ b.linked.keyed k g old
    ];
    owned = λ id i js at_j. elim (set_cases (justification_set_id id i) js at_j) [
      | inl (same, is) ↦
          ap (λ (z : JustificationSet). z.child_fact_id) is
          ∙ child_same
          ∙ (justification_set_id_injective f.id id index i same).0
      | inr old ↦ b.linked.owned id i js old
    ];
    indexed = λ j js p g at_j at_p is_parent. rw (children-after p) (elim (set_cases j js at_j) [
      | inl (same, is) ↦
          let mine = subst (λ z. contains (parents z) p ≡ true) is is_parent in
          subst (λ z. contains (children C p) z ≡ true) same
            (listing.lists p (rw (sym parents_same) mine) (has_before p (rw at_p refl)))
      | inr old ↦ elim (fact_cases p g at_p) [
        | inl (here, _) ↦ listing.grows p j (
            b.linked.indexed j js p f old (subst (λ z. lookup z e.facts ≡ some f) here b.here)
              is_parent)
        | inr (_, there) ↦ listing.grows p j (b.linked.indexed j js p g old there is_parent)
      ]
    ]);
    childed = λ j js at_j. elim (set_cases j js at_j) [
      | inl (same, is) ↦ rw (is, child_same) has_self
      | inr old ↦ has_after js.child_fact_id (b.linked.childed j js old)
    ];
    known = λ j js p at_j is_parent. elim (set_cases j js at_j) [
      | inl (same, is) ↦
          has_after p
            (known p
              (rw (sym parents_same) (subst (λ z. contains (parents z) p ≡ true) is is_parent))).0
      | inr old ↦ has_after p (b.linked.known j js p old is_parent)
    ];
    listing = λ p i h. elim (listed_cases p i h) [
      | inl old ↦ has_after p (b.linked.listing p i old)
      | inr (_, is_parent) ↦ has_after p (known p is_parent).0
    ];
    targeted = λ j js at_j. elim (set_cases j js at_j) [
      | inl (same, is) ↦ rw is (unfold reevaluate in target_is)
      | inr old ↦ b.linked.targeted j js old
    ];
  }

  same_child : IsSameChild f f'
  same_child = record { kind = refl; metadata = refl }

  -- A set without `f` among its parents counts as it did.
  reevaluate-after :
      (js : JustificationSet) (child : Fact)
      → contains (parents js) f.id ≡ false
      → reevaluate env after js child ≡ reevaluate env e js child
  reevaluate-after js child free =
      unfold reevaluate in
      unfold velarix.Engine.compute_parents in reevaluate-absent env e js child f.id f' free

  free_lem : contains (parents blank) f.id ≡ false
  free_lem = elim (Bool-cases (contains (parents blank) f.id)) [
    | inr free ↦ free
    | inl bad ↦ cc ((known f.id bad).1, eq_refl f.id)
  ]

  settled_new : reevaluate env after js' f' ≡ js'
  settled_new =
      reevaluate-after js' f' (rw parents_same free_lem)
      ∙ reevaluate-child env e js' f f' same_child
      ∙ reevaluate-reevaluate env e blank f e.justification_sets

  evaluated-after :
      (j : String) (js : JustificationSet) (child : Fact)
      → lookup j after.justification_sets ≡ some js
      → lookup js.child_fact_id after.facts ≡ some child
      → reevaluate env after js child ≡ js
  evaluated-after j js child at_j its_c = elim (set_cases j js at_j) [
    | inl (same, is) ↦ elim (fact_cases js.child_fact_id child its_c) [
      | inl (_, own) ↦ rw (is, own) settled_new
      | inr (other, _) ↦
          cc (other, ap (λ (z : JustificationSet). z.child_fact_id) is, child_same, eq_refl f.id)
    ]
    | inr old ↦
        reevaluate-after js child (b.unused j js old)
        ∙ elim (fact_cases js.child_fact_id child its_c) [
          | inr (_, there) ↦ b.evaluated j js child old there
          | inl (here, own) ↦ rw own (
              reevaluate-child env e js f f' same_child
              ∙ b.evaluated j js f old (subst (λ z. lookup z e.facts ≡ some f) here b.here))
        ]
  ]

  other_sets :
      (g : Fact) (i : ℕ)
      → (f.id == g.id) ≡ false
      → lookup (justification_set_id g.id i) after.justification_sets
        ≡ lookup (justification_set_id g.id i) e.justification_sets
  other_sets g i apart = elim (Bool-cases (set_id == justification_set_id g.id i)) [
    | inr other ↦
        rw (lookup-insert set_id (justification_set_id g.id i) js' e.justification_sets, other)
    | inl same ↦ cc (
      apart,
      (justification_set_id_injective f.id g.id index i ((eq_iff set_id _).0 same)).0,
      eq_refl f.id,
    )
  ]

  resolve-after : (g : Fact) → (f.id == g.id) ≡ false → resolve after g ≡ resolve e g
  resolve-after g apart =
      unfold resolve velarix.Engine.Propagation.support in
      resolve-sets e after.justification_sets g (λ i. other_sets g i apart)

  resolved-after :
      (k : String) (g : Fact)
      → lookup k after.facts ≡ some g
      → (f.id == k) ≡ false
      → g.derived_status ≡ resolve after g
  resolved-after k g at_k other = elim (fact_cases k g at_k) [
    | inl (same, _) ↦ cc (other, same, eq_refl f.id)
    | inr (_, old) ↦
        b.resolved k g old other ∙ sym (resolve-after g (rw (b.linked.keyed k g old) other))
  ]

  -- A parent of a set of `f` comes before `f`.
  parent_below :
      (p i : String)
      → contains (children after p) i ≡ true
      → (rank p < rank f.id) × (rank f.id ≤ top)
  parent_below p i listed = (
    elim (listed_cases p i listed) [
      | inr (_, is_parent) ↦ b.last p (known p is_parent).0 (known p is_parent).1
      | inl before ↦ b.last p (b.linked.listing p i before) (elim (Bool-cases (f.id == p)) [
        | inr other ↦ other
        | inl own ↦ cc (before, b.unlisted i, (eq_iff f.id p).0 own)
      ])
    ],
    b.ordered.below f.id (rw b.here refl),
  )

  IsOrdered-after : IsOrdered rank top (suc width) after
  IsOrdered-after = record {
    keyed = IsLinked-after.keyed;
    rising = λ p j js listed at_j. elim (set_cases j js at_j) [
      | inl (same, is) ↦
          subst (λ z. (rank p < rank z) × (rank z ≤ top))
            (sym (ap (λ (z : JustificationSet). z.child_fact_id) is ∙ child_same))
            (parent_below p j listed)
      | inr old ↦ elim (listed_cases p j listed) [
        | inl before ↦ b.ordered.rising p j js before old
        | inr (same, is_parent) ↦
            subst (λ z. (rank p < rank z) × (rank z ≤ top))
              (sym (
                b.linked.owned f.id index js
                  (subst (λ z. lookup z e.justification_sets ≡ some js) same old)))
              (parent_below p j listed)
      ]
    ];
    below = λ k h. b.ordered.below k (has_before k h);
    narrow = λ p.
        rw (children-after p)
          (omega (arith, length-room e C set_id p (listing.bounded p), b.ordered.narrow p));
  }

  pub IsBuilding-after : IsBuilding rank top (suc width) env f' after
  IsBuilding-after = record {
    linked = IsLinked-after;
    ordered = IsOrdered-after;
    here = rw (lookup-insert f.id f.id f' e.facts, eq_refl f.id) refl;
    unused = λ j js at_j. elim (set_cases j js at_j) [
      | inl (same, is) ↦
          subst (λ z. contains (parents z) f.id ≡ false) (sym is) (rw parents_same free_lem)
      | inr old ↦ b.unused j js old
    ];
    unlisted = λ j. elim (Bool-cases (contains (children after f.id) j)) [
      | inr free ↦ free
      | inl listed ↦ elim (listed_cases f.id j listed) [
        | inl before ↦ cc (before, b.unlisted j)
        | inr (_, is_parent) ↦ cc (is_parent, free_lem)
      ]
    ];
    last = λ p there other. b.last p (has_before p there) other;
    resolved = resolved-after;
    evaluated = evaluated-after;
  }
