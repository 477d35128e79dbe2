-- ===== src/Consistency/Report/Ids.antt =====
-- The ids that a check of core/consistency.go takes: trimmed, each once, and in order.
use velarix.Prelude.{
  String, ◌≡◌, inl, inr, refl, ap, ◌∙◌, Bool, true, false, ◌||◌, List, [], ◌∷◌, ◌==◌, eq_iff,
  eq_refl, arith, contains, contains-nil, contains-cons, trim_space, Bool-cases, All, IsUnique,
}
use velarix.Consistency.Report.{insert_sorted, sort_by, is_less, unique_ids, unique_sorted_fact_ids}

contains-insert_sorted :
    (less : String → String → Bool) (x : String) (l : List String) (k : String)
    → contains (insert_sorted less x l) k ≡ (x == k || contains l k)
unfolding insert_sorted
contains-insert_sorted less x [] k = contains-cons x [] k
contains-insert_sorted less x (y ∷ l) k = ground (
  arith,
  contains-insert_sorted less x l k,
  contains-cons y l k,
  contains-cons x (y ∷ l) k,
  contains-cons y (insert_sorted less x l) k,
)

pub contains-sort_by :
    (less : String → String → Bool) (l : List String) (k : String)
    → contains (sort_by less l) k ≡ contains l k
unfolding sort_by
contains-sort_by less [] k = refl
contains-sort_by less (x ∷ l) k = ground (
  arith,
  contains-insert_sorted less x (sort_by less l) k,
  contains-sort_by less l k,
  contains-cons x l k,
)

module _ {A : Type 0} (P : A → Type 0) where
  module _ (less : A → A → Bool) where
    All-insert_sorted : (x : A) (xs : List A) → P x → All P xs → All P (insert_sorted less x xs)
    unfolding insert_sorted
    All-insert_sorted x [] px pxs = (px, tt)
    All-insert_sorted x (y ∷ ys) px (py, pys) = elim (Bool-cases (less y x)) [
      | inl later ↦ rw later (py, All-insert_sorted x ys px pys)
      | inr here ↦ rw here (px, (py, pys))
    ]

    pub All-sort_by : (xs : List A) → All P xs → All P (sort_by less xs)
    unfolding sort_by
    All-sort_by [] pxs = tt
    All-sort_by (x ∷ xs) (px, pxs) = All-insert_sorted x (sort_by less xs) px (All-sort_by xs pxs)

IsUnique-insert_sorted :
    (less : String → String → Bool) (x : String) (l : List String)
    → contains l x ≡ false
    → IsUnique l
    → IsUnique (insert_sorted less x l)
unfolding insert_sorted
IsUnique-insert_sorted less x [] fresh h = (fresh, tt)
IsUnique-insert_sorted less x (y ∷ l) fresh (first, rest) = elim (Bool-cases (less y x)) [
  | inr here ↦ rw here (fresh, (first, rest))
  | inl after ↦ rw after (
    ground (
      arith,
      contains-insert_sorted less x l y,
      contains-cons y l x,
      fresh,
      first,
      eq_iff x y,
      eq_iff y x,
    ),
    IsUnique-insert_sorted less x l (ground (arith, contains-cons y l x, fresh)) rest,
  )
]

IsUnique-sort_by :
    (less : String → String → Bool) (l : List String) → IsUnique l → IsUnique (sort_by less l)
unfolding sort_by
IsUnique-sort_by less [] h = tt
IsUnique-sort_by less (x ∷ l) (first, rest) =
    IsUnique-insert_sorted less x (sort_by less l) (contains-sort_by less l x ∙ first)
      (IsUnique-sort_by less l rest)

sort_by-empty : (less : String → String → Bool) (l : List String) → sort_by less l ≡ [] → l ≡ []
sort_by-empty less [] h = refl
sort_by-empty less (x ∷ l) h =
    let there = contains-sort_by less (x ∷ l) x in
    ground (arith, there, ap (λ m. contains m x) h, contains-cons x l x, contains-nil x, eq_refl x)

contains-unique_ids :
    (seen l : List String) (k : String)
    → contains seen k ≡ true
    → contains (unique_ids seen l) k ≡ false
unfolding unique_ids
contains-unique_ids seen [] k old = contains-nil k
contains-unique_ids seen (raw ∷ l) k old =
    elim (Bool-cases (trim_space raw == "" || contains seen (trim_space raw))) [
      | inl skipped ↦ rw skipped (contains-unique_ids seen l k old)
      | inr taken ↦ rw taken (
          ground (
            arith,
            contains-cons (trim_space raw) (unique_ids (trim_space raw ∷ seen) l) k,
            contains-unique_ids (trim_space raw ∷ seen) l k
                (ground (arith, old, contains-cons (trim_space raw) seen k)),
            eq_iff (trim_space raw) k,
            old,
            taken,
          ))
    ]

IsUnique-unique_ids : (seen l : List String) → IsUnique (unique_ids seen l)
unfolding unique_ids
IsUnique-unique_ids seen [] = tt
IsUnique-unique_ids seen (raw ∷ l) =
    elim (Bool-cases (trim_space raw == "" || contains seen (trim_space raw))) [
      | inl skipped ↦ rw skipped (IsUnique-unique_ids seen l)
      | inr taken ↦ rw taken (
        contains-unique_ids (trim_space raw ∷ seen) l (trim_space raw) (
            ground (
              arith,
              contains-cons (trim_space raw) seen (trim_space raw),
              eq_refl (trim_space raw),
            )),
        IsUnique-unique_ids (trim_space raw ∷ seen) l,
      )
    ]

-- No id is given.
abbrev pub AreBlank : List String → Type 0
AreBlank ids = All (λ raw. trim_space raw ≡ "") ids

-- An id is one of those given, without the spaces around it.
abbrev pub IsAsked : List String → String → Type 0
IsAsked ids id = (raw : String) × (contains ids raw ≡ true) × (trim_space raw ≡ id)

unique_ids-AreBlank : (l : List String) → unique_ids [] l ≡ [] → AreBlank l
unfolding unique_ids
unique_ids-AreBlank [] h = tt
unique_ids-AreBlank (raw ∷ l) h = elim (Bool-cases (trim_space raw == "")) [
  | inl blank ↦
      ((eq_iff (trim_space raw) "").0 blank, unique_ids-AreBlank l (ground (arith, h, blank)))
  | inr named ↦
      let taken : trim_space raw ∷ unique_ids (trim_space raw ∷ []) l ≡ [] =
        ground (arith, h, named, contains-nil (trim_space raw)) in
      cc taken
]

unique_ids-IsAsked :
    (ids seen l : List String)
    → ((raw : String) → contains l raw ≡ true → contains ids raw ≡ true)
    → All (IsAsked ids) (unique_ids seen l)
unfolding unique_ids
unique_ids-IsAsked ids seen [] within = tt
unique_ids-IsAsked ids seen (raw ∷ l) within =
    let later : (r : String) → contains l r ≡ true → contains ids r ≡ true =
      λ r h. within r (ground (arith, h, contains-cons raw l r)) in
    elim (Bool-cases (trim_space raw == "" || contains seen (trim_space raw))) [
      | inl skipped ↦ rw skipped (unique_ids-IsAsked ids seen l later)
      | inr taken ↦ rw taken (
        (raw, within raw (ground (arith, contains-cons raw l raw, eq_refl raw)), refl),
        unique_ids-IsAsked ids (trim_space raw ∷ seen) l later,
      )
    ]

pub unique_sorted_fact_ids-IsUnique : (ids : List String) → IsUnique (unique_sorted_fact_ids ids)
unfolding unique_sorted_fact_ids
unique_sorted_fact_ids-IsUnique ids =
    IsUnique-sort_by is_less (unique_ids [] ids) (IsUnique-unique_ids [] ids)

pub unique_sorted_fact_ids-AreBlank :
    (ids : List String) → unique_sorted_fact_ids ids ≡ [] → AreBlank ids
unfolding unique_sorted_fact_ids
unique_sorted_fact_ids-AreBlank ids h =
    unique_ids-AreBlank ids (sort_by-empty is_less (unique_ids [] ids) h)

pub unique_sorted_fact_ids-IsAsked :
    (ids : List String) → All (IsAsked ids) (unique_sorted_fact_ids ids)
unfolding unique_sorted_fact_ids
unique_sorted_fact_ids-IsAsked ids =
    All-sort_by (IsAsked ids) is_less (unique_ids [] ids)
      (unique_ids-IsAsked ids [] ids (λ raw h. h))
