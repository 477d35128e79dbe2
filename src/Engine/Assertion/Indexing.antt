-- ===== src/Engine/Assertion/Indexing.antt =====
-- The index of children after a set is listed under its parents (`addChildIndexUnsafe` in the two
-- loops of `newJustificationSetLocked`).
use velarix.Prelude.{
  ℕ, ◌+◌, ◌≤◌, String, ◌≡◌, ◌⊎◌, inl, inr, refl, sym, ap, ◌∙◌, true, false, List, [], ◌∷◌, ◌++◌,
  ◌==◌, eq_iff, eq_refl, arith, if◌then◌else◌, contains, contains-nil, contains-cons,
  contains-append, contains-add, add, has, lookup-insert, Bool-cases, length,
}
use velarix.Engine.{Engine, children, add_child_index}
use velarix.Engine.Assertion.{index_parents}

pub children-add :
    (e : Engine) (q j p : String)
    → children (add_child_index e q j) p ≡ (if q == p then add (children e q) j else children e p)
unfolding children add_child_index
children-add e q j p =
    rw (lookup-insert q p (add (children e q) j) e.children_index, children)
      (elim (Bool-cases (q == p)) [ inl same ↦ rw same | inr other ↦ rw other ])

length-last : (xs : List String) (j : String) → length (xs ++ j ∷ []) ≡ length xs + 1
length-last [] j = refl
length-last (x ∷ xs) j = omega (arith, length-last xs j)

-- The length of the list with room for `j`.
abbrev room : List String → String → ℕ
room xs j = if contains xs j then length xs else length xs + 1

room-add : (xs : List String) (j : String) → room (add xs j) j ≡ room xs j
unfolding add
room-add xs j =
    ground (arith, length-last xs j, contains-append xs (j ∷ []) j, contains-cons j [] j, eq_refl j)

-- What it means for `C` to be the index of `e` with `j` listed under facts of `ps`.
pub record IsListing (e : Engine) (j : String) (ps : List String) (C : Engine) : Type 0 where
  pub others : C ≡ record e { children_index = C.children_index }
  pub grows : (p i : String) → contains (children e p) i ≡ true → contains (children C p) i ≡ true
  pub lists :
      (p : String) → contains ps p ≡ true → has p e.facts ≡ true → contains (children C p) j ≡ true
  pub origin :
      (p i : String)
      → contains (children C p) i ≡ true
      → (contains (children e p) i ≡ true) ⊎ ((i ≡ j) × (contains ps p ≡ true))
  pub bounded : (p : String) → room (children C p) j ≡ room (children e p) j

IsListing-nil : (e : Engine) (j : String) → IsListing e j [] e
IsListing-nil e j = record {
  others = refl;
  grows = λ p i h. h;
  lists = λ p h there. ground (arith, contains-nil p);
  origin = λ p i h. inl h;
  bounded = λ p. refl;
}

IsListing-add :
    (e C : Engine) (j q : String) (ps : List String)
    → IsListing (add_child_index e q j) j ps C
    → IsListing e j (q ∷ ps) C
IsListing-add e C j q ps l = record {
  others = unfold add_child_index in l.others;
  grows = λ p i h.
      l.grows p i
        (ground (arith, children-add e q j p, contains-add (children e q) j i, eq_iff q p));
  lists = λ p h there. elim (Bool-cases (q == p)) [
    | inl same ↦
        l.grows p j
          (ground (arith, children-add e q j p, contains-add (children e q) j j, eq_refl j))
    | inr other ↦ l.lists p (ground (arith, contains-cons q ps p)) (unfold add_child_index in there)
  ];
  origin = λ p i h. elim (l.origin p i h) [
    | inr (same, within) ↦ inr (same, ground (arith, contains-cons q ps p))
    | inl old ↦ elim (Bool-cases (q == p)) [
      | inr other ↦ inl (ground (arith, children-add e q j p))
      | inl here ↦ elim (Bool-cases (j == i)) [
        | inl same ↦ inr (sym ((eq_iff j i).0 same), ground (arith, contains-cons q ps p))
        | inr apart ↦
            inl (ground (arith, children-add e q j p, contains-add (children e q) j i, eq_iff q p))
      ]
    ]
  ];
  bounded = λ p.
      l.bounded p
      ∙ rw (children-add e q j p) (elim (Bool-cases (q == p)) [
        | inr other ↦ rw other
        | inl same ↦ rw (same, sym ((eq_iff q p).0 same)) (room-add (children e q) j)
      ]);
}

IsListing-skip :
    (e C : Engine) (j q : String) (ps : List String)
    → has q e.facts ≡ false
    → IsListing e j ps C
    → IsListing e j (q ∷ ps) C
IsListing-skip e C j q ps gone l = record {
  others = l.others;
  grows = l.grows;
  lists = λ p h there. l.lists p (ground (arith, contains-cons q ps p, eq_iff q p)) there;
  origin = λ p i h. elim (l.origin p i h) [
    | inr (same, within) ↦ inr (same, ground (arith, contains-cons q ps p))
    | inl old ↦ inl old
  ];
  bounded = l.bounded;
}

pub index_parents-IsListing :
    (e : Engine) (j : String) (ps : List String) → IsListing e j ps (index_parents e j ps)
unfolding index_parents
index_parents-IsListing e j [] = IsListing-nil e j
index_parents-IsListing e j (q ∷ ps) = elim (Bool-cases (has q e.facts)) [
  | inl there ↦
      rw there (IsListing-add e _ j q ps (index_parents-IsListing (add_child_index e q j) j ps))
  | inr gone ↦ rw gone (IsListing-skip e _ j q ps gone (index_parents-IsListing e j ps))
]

pub IsListing-append :
    (e m C : Engine) (j : String) (ps qs : List String)
    → IsListing e j ps m
    → IsListing m j qs C
    → IsListing e j (ps ++ qs) C
IsListing-append e m C j ps qs a b = record {
  others = b.others ∙ ap (λ (z : Engine). record z { children_index = C.children_index }) a.others;
  grows = λ p i h. b.grows p i (a.grows p i h);
  lists = λ p h there. elim (Bool-cases (contains ps p)) [
    | inl first ↦ b.grows p j (a.lists p first there)
    | inr later ↦ b.lists p (ground (arith, contains-append ps qs p)) (rw a.others there)
  ];
  origin = λ p i h. elim (b.origin p i h) [
    | inr (same, within) ↦ inr (same, ground (arith, contains-append ps qs p))
    | inl old ↦ elim (a.origin p i old) [
      | inl older ↦ inl older
      | inr (same, within) ↦ inr (same, ground (arith, contains-append ps qs p))
    ]
  ];
  bounded = λ p. b.bounded p ∙ a.bounded p;
}

-- A list grows by one at most.
pub length-room :
    (e C : Engine) (j p : String)
    → room (children C p) j ≡ room (children e p) j
    → length (children C p) ≤ length (children e p) + 1
length-room e C j p h = ground arith
