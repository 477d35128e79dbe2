-- ===== src/Slice/Bounds.antt =====
-- The bounds of a slice, and where the bound on its size is lost.
use mathlib.Core.List.{append_assoc, append-nil}
use mathlib.Core.Path.{subst}
use velarix.Prelude.{
  IsUnique, IsUnique-one, contains-append, contains-cons, ℕ, ◌+◌, ◌≤◌, ◌<◌, String, ◌≡◌, ◌⊎◌, inl,
  inr, refl, sym, ap, ◌∙◌, Bool, true, false, ◌&&◌, List, [], ◌∷◌, ◌++◌, ℤ, pos, negsuc, leb, ltbℤ,
  length, length-append, arith, if◌then◌else◌, contains, contains-nil, Bool-cases,
}
use velarix.Fact.{Fact}
use velarix.Slice.{
  SliceOptions, Selection, spend, too_large, append_fact, add_fact, add_dependencies,
  with_dependencies, is_full, select_from, select_belief_slice,
}

unfoldable pub total : (Fact → ℕ) → List Fact → ℕ
total estimate [] = 0
total estimate (f ∷ facts) = estimate f + total estimate facts

total-append :
    (estimate : Fact → ℕ) (facts : List Fact) (f : Fact)
    → total estimate (facts ++ f ∷ []) ≡ total estimate facts + estimate f
unfolding total
total-append estimate [] f = omega arith
total-append estimate (g ∷ facts) f = omega (arith, total-append estimate facts f)

unfoldable pub fact_ids : List Fact → List String
fact_ids [] = []
fact_ids (f ∷ facts) = f.id ∷ fact_ids facts

fact_ids-append :
    (facts : List Fact) (f : Fact) → fact_ids (facts ++ f ∷ []) ≡ fact_ids facts ++ f.id ∷ []
unfolding fact_ids
fact_ids-append [] f = refl
fact_ids-append (g ∷ facts) f = ap (λ ids. g.id ∷ ids) (fact_ids-append facts f)

-- What is left is the bound less what was taken, or nothing is left.
abbrev pub IsSpent : (Fact → ℕ) → ℕ → List Fact → ℤ → Type 0
IsSpent estimate bound facts (pos left) = (left ≡ 0) ⊎ (total estimate facts + left ≡ bound)
IsSpent estimate bound facts (negsuc over) = Unit

module _ (opts : SliceOptions) (estimate : Fact → ℕ) where
  pub record IsBounded (s : Selection) : Type 0 where
    pub few : length s.selected ≤ opts.max_facts
    pub distinct : IsUnique (fact_ids s.selected)
    pub recorded : (k : String) → contains s.selected_ids k ≡ contains (fact_ids s.selected) k
    pub spent : IsSpent estimate opts.max_chars s.selected s.remaining_chars

  IsSpent-append :
      (facts : List Fact) (f : Fact) (left : ℤ)
      → IsSpent estimate opts.max_chars facts left
      → IsSpent estimate opts.max_chars
          (facts ++ f ∷ [])
          (if ltbℤ (pos 0) left then spend left (estimate f) else left)
  unfolding spend
  IsSpent-append facts f (negsuc n) h = elim (Bool-cases (ltbℤ (pos 0) (negsuc n))) [
    | inl p ↦ rw p tt
    | inr p ↦ rw p tt
  ]
  IsSpent-append facts f (pos n) h = elim (Bool-cases (ltbℤ (pos 0) (pos n))) [
    | inr empty ↦ rw empty (inl (ground (arith, empty)))
    | inl some_left ↦ elim (Bool-cases (leb (estimate f) n)) [
      | inr over ↦ rw (some_left, over) tt
      | inl fits ↦
          rw (some_left, fits)
            (elim h [
              | inl none_left ↦ absurd (ground (arith, some_left, none_left))
              | inr exact ↦ inr (ground (arith, exact, total-append estimate facts f, fits))
            ])
    ]
  ]

  leb_room :
      (s : Selection)
      → leb opts.max_facts (length s.selected) ≡ false
      → length s.selected < opts.max_facts
  leb_room s h = ground arith

  append_fact-IsBounded :
      (s : Selection) (f : Fact)
      → IsBounded s
      → contains s.selected_ids f.id ≡ false
      → leb opts.max_facts (length s.selected) ≡ false
      → IsBounded (append_fact opts estimate s f)
  unfolding append_fact
  append_fact-IsBounded s f b fresh room = record {
    few = omega (arith, length-append {0} s.selected (f ∷ []), leb_room s room);
    distinct =
        subst IsUnique (sym (fact_ids-append s.selected f))
          (IsUnique-one (fact_ids s.selected) f.id (sym (b.recorded f.id) ∙ fresh) b.distinct);
    recorded = λ k. ground (
      arith,
      b.recorded k,
      contains-cons f.id s.selected_ids k,
      ap (λ ids. contains ids k) (fact_ids-append s.selected f),
      contains-append (fact_ids s.selected) (f.id ∷ []) k,
      contains-cons f.id [] k,
      contains-nil k,
    );
    spent = IsSpent-append s.selected f s.remaining_chars b.spent;
  }

  add_fact-IsBounded :
      (s : Selection) (f : Fact) → IsBounded s → IsBounded (add_fact opts estimate s f).1
  unfolding add_fact
  add_fact-IsBounded s f b = elim (Bool-cases (contains s.selected_ids f.id)) [
    | inl old ↦ rw old b
    | inr fresh ↦ elim (Bool-cases (leb opts.max_facts (length s.selected))) [
      | inl full ↦ rw (fresh, full) b
      | inr room ↦ elim (Bool-cases (too_large opts estimate s f)) [
        | inl large ↦ rw (fresh, room, large) b
        | inr fits ↦ rw (fresh, room, fits) (append_fact-IsBounded s f b fresh room)
      ]
    ]
  ]

  if-IsBounded :
      (b : Bool) (s s' : Selection) → IsBounded s → IsBounded s' → IsBounded (if b then s else s')
  if-IsBounded true s s' h h' = h
  if-IsBounded false s s' h h' = h'

  add_dependencies-IsBounded :
      (deps : List Fact) (s : Selection)
      → IsBounded s
      → IsBounded (add_dependencies opts estimate deps s)
  unfolding add_dependencies
  add_dependencies-IsBounded [] s b = b
  add_dependencies-IsBounded (f ∷ deps) s b =
      let b1 = add_fact-IsBounded s f b in
      elim (Bool-cases ((add_fact opts estimate s f).0)) [
        | inl on ↦ rw on (add_dependencies-IsBounded deps (add_fact opts estimate s f).1 b1)
        | inr off ↦ rw off b1
      ]

  module _ (dependencies : Fact → List Fact) where
    with_dependencies-IsBounded :
        (f : Fact) (s : Selection)
        → IsBounded s
        → IsBounded (with_dependencies opts estimate dependencies f s)
    unfolding with_dependencies
    with_dependencies-IsBounded f s b =
        if-IsBounded opts.include_dependencies (add_dependencies opts estimate (dependencies f) s) s
          (add_dependencies-IsBounded (dependencies f) s b) b

    select_from-IsBounded :
        (ranked : List Fact) (s : Selection)
        → IsBounded s
        → IsBounded (select_from opts estimate dependencies ranked s)
    unfolding select_from
    select_from-IsBounded [] s b = b
    select_from-IsBounded (f ∷ ranked) s b =
        let r = add_fact opts estimate s f in
        let b1 = add_fact-IsBounded s f b in
        let s' = with_dependencies opts estimate dependencies f r.1 in
        let b2 = with_dependencies-IsBounded f r.1 b1 in
        elim (Bool-cases (r.0)) [
          | inr off ↦ rw off b1
          | inl on ↦ elim (Bool-cases (is_full opts estimate dependencies s')) [
            | inl full ↦ rw (on, full) b2
            | inr room ↦ rw (on, room) (select_from-IsBounded ranked s' b2)
          ]
        ]

    -- A slice has at most `max_facts` facts, with different ids, which are the recorded ones, and
    -- as long as some of the bound on its size is left, this and the sizes of its facts make up
    -- the bound.
    pub select_belief_slice-IsBounded :
        (ranked : List Fact) → IsBounded (select_belief_slice opts estimate dependencies ranked)
    unfolding select_belief_slice total
    select_belief_slice-IsBounded ranked = select_from-IsBounded ranked _ (record {
      few = omega arith;
      distinct = unfold fact_ids in tt;
      recorded = λ k. unfold fact_ids in refl;
      spent = inr (omega arith);
    })

-- The ids of the facts are new and different.
abbrev pub AreNew : List String → List Fact → Type 0
AreNew seen [] = Unit
AreNew seen (f ∷ facts) = (contains seen f.id ≡ false) × AreNew (f.id ∷ seen) facts

module _ (opts : SliceOptions) (estimate : Fact → ℕ) (dependencies : Fact → List Fact)
    (alone : opts.include_dependencies ≡ false) where
  exhausted_step :
      (s : Selection) (f : Fact) (facts : List Fact)
      → ltbℤ (pos 0) s.remaining_chars ≡ false
      → contains s.selected_ids f.id ≡ false
      → length s.selected < opts.max_facts
      → select_from opts estimate dependencies (f ∷ facts) s
        ≡ select_from opts estimate dependencies facts (record {
          selected = s.selected ++ f ∷ [];
          selected_ids = f.id ∷ s.selected_ids;
          remaining_chars = s.remaining_chars;
        })
  unfolding select_from add_fact append_fact too_large with_dependencies is_full
  exhausted_step s f facts spent_all fresh room =
      let free : leb opts.max_facts (length s.selected) ≡ false = ground arith in
      simp (spent_all, fresh, free, alone)

  select_from-exhausted :
      (facts : List Fact) (s : Selection)
      → ltbℤ (pos 0) s.remaining_chars ≡ false
      → AreNew s.selected_ids facts
      → length s.selected + length facts ≤ opts.max_facts
      → (select_from opts estimate dependencies facts s).selected ≡ s.selected ++ facts
  unfolding select_from
  select_from-exhausted [] s spent_all new room = sym (append-nil s.selected)
  select_from-exhausted (f ∷ facts) s spent_all (fresh, new) room =
      ap (λ (r : Selection). r.selected)
        (exhausted_step s f facts spent_all fresh (omega (arith, room)))
      ∙ select_from-exhausted facts _ spent_all new
          (omega (arith, room, length-append {0} s.selected (f ∷ [])))
      ∙ append_assoc s.selected (f ∷ []) facts

  abbrev start : Selection
  start = record { selected = []; selected_ids = []; remaining_chars = pos opts.max_chars }

  first_step :
      (f : Fact) (facts : List Fact)
      → 0 < opts.max_facts
      → select_from opts estimate dependencies (f ∷ facts) start
        ≡ select_from opts estimate dependencies facts (append_fact opts estimate start f)
  unfolding select_from add_fact append_fact too_large with_dependencies is_full
  first_step f facts room =
      let free : leb opts.max_facts 0 ≡ false = ground arith in
      let fits : (ltbℤ (pos 0) (pos opts.max_chars)
            && false
            && ltbℤ (pos opts.max_chars) (pos (estimate f)))
          ≡ false =
        ground arith in
      let new = contains-nil f.id in simp (fits, free, alone, new)

  spent_by_first :
      (f : Fact)
      → opts.max_chars ≤ estimate f
      → ltbℤ (pos 0) (append_fact opts estimate start f).remaining_chars ≡ false
  unfolding append_fact spend
  spent_by_first f large = ground (arith, large)

  -- Without dependencies, a first fact whose size reaches the bound on the size of a slice lifts that
  -- bound: the slice then takes all facts, up to their number, however large they are.
  pub select_belief_slice-oversized :
      (f : Fact) (facts : List Fact)
      → opts.max_chars ≤ estimate f
      → AreNew [] (f ∷ facts)
      → length (f ∷ facts) ≤ opts.max_facts
      → (select_belief_slice opts estimate dependencies (f ∷ facts)).selected ≡ f ∷ facts
  unfolding select_belief_slice
  select_belief_slice-oversized f facts large (fresh, new) room =
      ap (λ (r : Selection). r.selected) (first_step f facts (omega (arith, room)))
      ∙ select_from-exhausted facts (append_fact opts estimate start f) (spent_by_first f large)
          (unfold append_fact in new) (unfold append_fact in omega (arith, room))
      ∙ unfold append_fact in refl
