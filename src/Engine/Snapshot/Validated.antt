-- ===== src/Engine/Snapshot/Validated.antt =====
-- The facts of an engine pass the validation of a snapshot.
use mathlib.Core.Path.{subst}
use velarix.Prelude.{
  ℕ, suc, ◌≤◌, ◌<◌, String, ◌≡◌, ◌⊎◌, inl, inr, refl, sym, ap, ◌∙◌, true, ◌||◌, none, some, List,
  [], ◌∷◌, ◌++◌, ◌==◌, eq_iff, eq_refl, arith, if◌then◌else◌, contains, contains-cons, contains-nil,
  contains-append, contains-add, add, Map, lookup, insert-cases, has, keys, Bool-cases,
  Option-cases, All,
}
use velarix.Env.{Env}
use velarix.Fact.{Fact, JustificationSet}
use velarix.Dependencies.{
  DependencyRef, ok, err, Split, parse_dependency_ref, seen_key, split_ref, split_from,
  split_dependency_set,
}
use velarix.Ids.{justification_set_id}
use velarix.Ids.Injective.{justification_set_id_injective}
use velarix.Cycles
use velarix.Cycles.{CycleCheck, acyclic, Search, judged, check_parent, reachable, detect_cycle}
use velarix.Cycles.Sound.{Ended, IsRising, reachable-Ended}
use velarix.Engine.{Engine, new_engine, children, add_child_index}
use velarix.Engine.Assertion.Indexing.{children-add}
use velarix.Engine.Snapshot.{
  Built, built, restored, link_set, link_parents, link_sets, link_facts, build_validation_engine,
  check_facts, check_built,
}

module _ (rank : String → ℕ) (top : ℕ) where
  -- The token refers to a fact that comes before the fact `id`.
  abbrev pub IsBefore : Map Fact → String → String → Type 0
  IsBefore facts id token =
      (r : DependencyRef) × (parse_dependency_ref token ≡ ok r)
      × (has r.fact_id facts ≡ true)
      × (rank r.fact_id < rank id)

  -- Each fact stands under its id, and its tokens refer to facts that come before it.
  pub record AreRanked (facts : Map Fact) : Type 0 where
    pub keyed : (k : String) (f : Fact) → lookup k facts ≡ some f → f.id ≡ k
    pub below : (k : String) → has k facts ≡ true → rank k ≤ top
    pub grounded :
        (k : String) (f : Fact)
        → lookup k facts ≡ some f
        → All (All (IsBefore facts k)) f.justification_sets

  -- A parent of the fact `id`.
  abbrev IsParent : Map Fact → String → String → Type 0
  IsParent facts id p = (has p facts ≡ true) × (rank p < rank id)

  -- All parents of a split come before the fact `id`.
  abbrev AreParents : Map Fact → String → List String → Type 0
  AreParents facts id ps = (p : String) → contains ps p ≡ true → IsParent facts id p

  contains-split_ref :
      (r : DependencyRef) (s : Split) (p : String)
      → contains (split_ref r s).all p ≡ (contains s.all p || r.fact_id == p)
  unfolding split_ref
  contains-split_ref r s p = ground (
    arith,
    contains-append s.all (r.fact_id ∷ []) p,
    contains-cons r.fact_id [] p,
    contains-nil p,
  )

  AreParents-ref :
      (facts : Map Fact) (id : String) (r : DependencyRef) (s : Split)
      → IsParent facts id r.fact_id
      → AreParents facts id s.all
      → AreParents facts id (split_ref r s).all
  AreParents-ref facts id r s one old p h = elim (Bool-cases (r.fact_id == p)) [
    | inl same ↦ subst (IsParent facts id) ((eq_iff r.fact_id p).0 same) one
    | inr other ↦ old p (ground (arith, contains-split_ref r s p))
  ]

  split_from_lem :
      (facts : Map Fact) (id : String) (tokens seen : List String) (s : Split)
      → All (IsBefore facts id) tokens
      → AreParents facts id s.all
      → (s' : Split) × (split_from tokens seen s ≡ ok s') × AreParents facts id s'.all
  unfolding split_from
  split_from_lem facts id [] seen s known old = (s, refl, old)
  split_from_lem facts id (token ∷ tokens) seen s ((r, parsed, there, less), known) old =
      elim (Bool-cases (contains seen (seen_key r))) [
        | inl twice ↦
            let (s', ends, fine) = split_from_lem facts id tokens seen s known old in
            (s', rw (parsed, twice, split_from) ends, fine)
        | inr first ↦
            let (s', ends, fine) =
              split_from_lem facts id tokens (seen_key r ∷ seen) (split_ref r s) known
                (AreParents-ref facts id r s (there, less) old) in
            (s', rw (parsed, first, split_from) ends, fine)
      ]

  split_lem :
      (facts : Map Fact) (id : String) (tokens : List String)
      → All (IsBefore facts id) tokens
      → (s : Split) × (split_dependency_set tokens ≡ ok s) × AreParents facts id s.all
  unfolding split_dependency_set
  split_lem facts id tokens known =
      split_from_lem facts id tokens [] (record { positive = []; negative = []; all = [] }) known
        (λ p h. cc (h, contains-nil p))

  -- In the validation engine a set is listed under facts that come before the fact of its id, and
  -- stands under an id of its child.
  record IsLegal (v : Engine) : Type 0 where
    listed :
        (p j : String)
        → contains (children v p) j ≡ true
        → (id : String) × (i : ℕ) × (j ≡ justification_set_id id i)
          × (rank p < rank id)
          × (rank id ≤ top)
    owned :
        (j : String) (js : JustificationSet)
        → lookup j v.justification_sets ≡ some js
        → (i : ℕ) × (j ≡ justification_set_id js.child_fact_id i)

  IsRising-legal : (v : Engine) → IsLegal v → IsRising rank top v
  IsRising-legal v l p j js listed at_j =
      let (id, i, is_j, less, high) = l.listed p j listed in
      let (k, own) = l.owned j js at_j in
      let same = (justification_set_id_injective id js.child_fact_id i k (sym is_j ∙ own)).0 in
      subst (λ z. (rank p < rank z) × (rank z ≤ top)) same (less, high)

  module _ (fact : Fact) (index : ℕ) (s : Split) (high : rank fact.id ≤ top) where
    abbrev set_id : String
    set_id = justification_set_id fact.id index

    abbrev linked : Engine → String → Engine
    linked v p = link_set (add_child_index v p set_id) set_id fact s

    children-linked :
        (v : Engine) (p q : String)
        → children (linked v p) q ≡ (if p == q then add (children v p) set_id else children v q)
    unfolding link_set children
    children-linked v p q = children-add v p set_id q

    listed_cases :
        (v : Engine) (p q j : String)
        → contains (children (linked v p) q) j ≡ true
        → (contains (children v q) j ≡ true) ⊎ ((p ≡ q) × (set_id ≡ j))
    listed_cases v p q j h = ground (
      arith,
      children-linked v p q,
      contains-add (children v p) set_id j,
      eq_iff p q,
      eq_iff set_id j,
    )

    set_cases :
        (v : Engine) (p j : String) (js : JustificationSet)
        → lookup j (linked v p).justification_sets ≡ some js
        → ((set_id ≡ j) × (js.child_fact_id ≡ fact.id)) ⊎ (lookup j v.justification_sets ≡ some js)
    unfolding link_set add_child_index
    set_cases v p j js h = elim (insert-cases set_id j _ js v.justification_sets h) [
      | inl (same, is) ↦ inl (same, ap (λ (z : JustificationSet). z.child_fact_id) is)
      | inr (_, old) ↦ inr old
    ]

    IsLegal-link :
        (v : Engine) (p : String) → IsLegal v → rank p < rank fact.id → IsLegal (linked v p)
    IsLegal-link v p l less = record {
      listed = λ q j h. elim (listed_cases v p q j h) [
        | inl old ↦ l.listed q j old
        | inr (same, is_j) ↦
            (fact.id, index, sym is_j, subst (λ z. rank z < rank fact.id) same less, high)
      ];
      owned = λ j js at_j. elim (set_cases v p j js at_j) [
        | inl (same, child) ↦ (index, sym same ∙ ap (λ z. justification_set_id z index) (sym child))
        | inr old ↦ l.owned j js old
      ];
    }

    facts-linked : (v : Engine) (p : String) → (linked v p).facts ≡ v.facts
    unfolding link_set add_child_index
    facts-linked v p = refl

    link_parents-cons :
        (v : Engine) (p : String) (ps : List String)
        → has p v.facts ≡ true
        → link_parents v set_id fact s (p ∷ ps) ≡ link_parents (linked v p) set_id fact s ps
    unfolding link_parents
    link_parents-cons v p ps there = rw there

    -- The validation engine after a step: legal, on the same facts.
    abbrev Links : Map Fact → Built → Type 0
    Links facts b = (v : Engine) × (b ≡ built v) × (v.facts ≡ facts) × IsLegal v

    link_parents_lem :
        (facts : Map Fact) (ps : List String) (v : Engine)
        → v.facts ≡ facts
        → IsLegal v
        → AreParents facts fact.id ps
        → Links facts (link_parents v set_id fact s ps)
    link_parents_lem facts [] v same l known = (v, unfold link_parents in refl, same, l)
    link_parents_lem facts (p ∷ ps) v same l known =
        let (there, less) = known p (ground (arith, contains-cons p ps p, eq_refl p)) in
        let (v', ends, same', l') =
          link_parents_lem facts ps (linked v p) (facts-linked v p ∙ same) (IsLegal-link v p l less)
            (λ q h. known q (ground (arith, contains-cons p ps q))) in
        (
          v',
          link_parents-cons v p ps (subst (λ m. has p m ≡ true) (sym same) there) ∙ ends,
          same',
          l',
        )

  abbrev IsLinkedTo : Map Fact → Built → Type 0
  IsLinkedTo facts b = (v : Engine) × (b ≡ built v) × (v.facts ≡ facts) × IsLegal v

  link_sets-ok :
      (v v' : Engine) (fact : Fact) (index : ℕ) (set : List String) (sets : List (List String))
      (s : Split)
      → split_dependency_set set ≡ ok s
      → link_parents v (justification_set_id fact.id index) fact s s.all ≡ built v'
      → link_sets v fact index (set ∷ sets) ≡ link_sets v' fact (suc index) sets
  unfolding link_sets
  link_sets-ok v v' fact index set sets s splits links = rw (splits, links, link_sets)

  link_sets_lem :
      (facts : Map Fact) (fact : Fact) (sets : List (List String)) (index : ℕ) (v : Engine)
      → rank fact.id ≤ top
      → v.facts ≡ facts
      → IsLegal v
      → All (All (IsBefore facts fact.id)) sets
      → IsLinkedTo facts (link_sets v fact index sets)
  link_sets_lem facts fact [] index v high same l known = (v, unfold link_sets in refl, same, l)
  link_sets_lem facts fact (set ∷ sets) index v high same l (one, more) =
      let (s, splits, parents) = split_lem facts fact.id set one in
      let (v1, links, same1, l1) =
        link_parents_lem fact index s high facts s.all v same l parents in
      let (v', ends, same', l') = link_sets_lem facts fact sets (suc index) v1 high same1 l1 more in
      (v', link_sets-ok v v1 fact index set sets s splits links ∙ ends, same', l')

  module _ (facts : Map Fact) (ranked : AreRanked facts) where
    link_facts-ok :
        (v v' : Engine) (id : String) (ids : List String) (fact : Fact)
        → lookup id v.facts ≡ some fact
        → link_sets v fact 0 fact.justification_sets ≡ built v'
        → link_facts v (id ∷ ids) ≡ link_facts v' ids
    unfolding link_facts
    link_facts-ok v v' id ids fact there links = rw (there, links, link_facts)

    link_facts-none :
        (v : Engine) (id : String) (ids : List String)
        → lookup id v.facts ≡ none
        → link_facts v (id ∷ ids) ≡ link_facts v ids
    unfolding link_facts
    link_facts-none v id ids gone = rw (gone, link_facts)

    link_facts_lem :
        (ids : List String) (v : Engine)
        → v.facts ≡ facts
        → IsLegal v
        → IsLinkedTo facts (link_facts v ids)
    link_facts_lem [] v same l = (v, unfold link_facts in refl, same, l)
    link_facts_lem (id ∷ ids) v same l = elim (Option-cases (lookup id facts)) [
      | inl gone ↦
          let (v', ends, same', l') = link_facts_lem ids v same l in
          (v', link_facts-none v id ids (ap (lookup id) same ∙ gone) ∙ ends, same', l')
      | inr (fact, there) ↦
          let is_id = ranked.keyed id fact there in
          let (v1, links, same1, l1) =
            link_sets_lem facts fact fact.justification_sets 0 v
              (subst (λ z. rank z ≤ top) (sym is_id) (ranked.below id (rw there refl))) same l
              (subst (λ z. All (All (IsBefore facts z)) fact.justification_sets) (sym is_id)
                (ranked.grounded id fact there)) in
          let (v', ends, same', l') = link_facts_lem ids v1 same1 l1 in
          (v', link_facts-ok v v1 id ids fact (ap (lookup id) same ∙ there) links ∙ ends, same', l')
    ]

judged_lem :
    (rank : String → ℕ) (id p : String) (rest : CycleCheck) (found_search : Search)
    → rank p < rank id
    → Ended (λ x. rank x ≤ rank p) id found_search
    → judged (λ path. path ++ id ∷ []) rest found_search ≡ rest
judged_lem rank id p rest (Search.found path) less h = absurd (omega arith)
judged_lem rank id p rest (Search.absent visited) less h = refl
judged_lem rank id p rest Search.exhausted less h = absurd h

module _ (rank : String → ℕ) (top : ℕ) (env : Env) (enough : top < env.fuel) (v : Engine)
    (rising : IsRising rank top v) (id : String) (there : has id v.facts ≡ true) where
  check_parent_lem :
      (p : String) (rest : CycleCheck) → rank p < rank id → check_parent env v id p rest ≡ rest
  unfolding check_parent
  check_parent_lem p rest less =
      let ended =
        reachable-Ended rank top env v rising p (λ x. rank x ≤ rank p) (omega arith)
          (λ q j js listed at_j below. omega (arith, rising q j js listed at_j)) env.fuel id []
          (omega arith) in
      rw there (judged_lem rank id p rest (reachable env v p env.fuel id []) less ended)

  check_tokens_lem :
      (facts : Map Fact) (set : List String) (rest : CycleCheck)
      → All (IsBefore rank top facts id) set
      → Cycles.check_tokens env v id set rest ≡ rest
  unfolding Cycles.check_tokens velarix.Dependencies.normalize_dependency_token
  check_tokens_lem facts [] rest known = refl
  check_tokens_lem facts (token ∷ set) rest ((r, parsed, _, less), known) =
      rw (parsed, Cycles.check_tokens)
        (check_parent_lem r.fact_id (Cycles.check_tokens env v id set rest) less
          ∙ check_tokens_lem facts set rest known)

  check_sets_lem :
      (facts : Map Fact) (sets : List (List String))
      → All (All (IsBefore rank top facts id)) sets
      → Cycles.check_sets env v id sets ≡ acyclic
  unfolding Cycles.check_sets
  check_sets_lem facts [] known = refl
  check_sets_lem facts (set ∷ sets) (one, known) =
      check_tokens_lem facts set (Cycles.check_sets env v id sets) one
      ∙ check_sets_lem facts sets known

module _ (rank : String → ℕ) (top : ℕ) (env : Env) (enough : top < env.fuel) (facts : Map Fact)
    (ranked : AreRanked rank top facts) where
  detect_cycle_lem :
      (v : Engine) (id : String) (fact : Fact)
      → v.facts ≡ facts
      → IsRising rank top v
      → lookup id facts ≡ some fact
      → detect_cycle env v fact ≡ acyclic
  unfolding detect_cycle
  detect_cycle_lem v id fact same rising there =
      let is_id = ranked.keyed id fact there in
      check_sets_lem rank top env enough v rising fact.id
        (ap (λ (m : Map Fact). has fact.id m) same ∙ ap (λ k. has k facts) is_id ∙ rw there refl)
        facts fact.justification_sets
        (subst (λ z. All (All (IsBefore rank top facts z)) fact.justification_sets) (sym is_id)
          (ranked.grounded id fact there))

  check_facts_lem :
      (v : Engine) (ids : List String)
      → v.facts ≡ facts
      → IsRising rank top v
      → check_facts env v ids ≡ restored
  unfolding check_facts
  check_facts_lem v [] same rising = refl
  check_facts_lem v (id ∷ ids) same rising = elim (Option-cases (lookup id facts)) [
    | inl gone ↦ rw (ap (lookup id) same ∙ gone, check_facts) (check_facts_lem v ids same rising)
    | inr (fact, there) ↦
        rw (ap (lookup id) same ∙ there, detect_cycle_lem v id fact same rising there, check_facts)
          (check_facts_lem v ids same rising)
  ]

  IsLegal-new : IsLegal rank top (record new_engine { facts = facts })
  unfolding children lookup contains
  IsLegal-new = record { listed = λ p j h. cc; owned = λ j js h. cc }

  -- Facts that the order ranks pass the validation of a snapshot.
  pub validation_lem : check_built env (build_validation_engine env facts) ≡ restored
  unfolding build_validation_engine
  validation_lem =
      let (v, links, same, legal) =
        link_facts_lem rank top facts ranked (env.range 0 (keys facts))
          (record new_engine { facts = facts }) refl IsLegal-new in
      ap (check_built env) links
      ∙ check_facts_lem v (env.range 1 (keys v.facts)) same (IsRising-legal rank top v legal)
