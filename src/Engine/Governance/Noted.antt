-- ===== src/Engine/Governance/Noted.antt =====
-- The metadata of a fact as `SetFactReview` of core/governance.go writes them, key by key.
use velarix.Prelude.{
  String, ◌≡◌, inl, inr, refl, Bool, false, ◌&&◌, ◌||◌, Option, none, some, ◌==◌, eq_iff, arith, ℤ,
  if◌then◌else◌, Bool-cases,
}
use velarix.Value.{Value, Fields, end, field, bool, str, int, get_field, put_field, read}
use velarix.Engine.Governance.{approved, waived, fields_of, review_fields}

get_field-put_field :
    (fs : Fields) (k j : String) (v : Value)
    → get_field (put_field fs k v) j ≡ (if k == j then some v else get_field fs j)
unfolding get_field put_field
get_field-put_field end k j v = refl
get_field-put_field (field i w fs) k j v = elim (Bool-cases (i == k)) [
  | inl same ↦
      let is_k = (eq_iff i k).0 same in
      rw (same, is_k) (elim (Bool-cases (k == j)) [ inl h ↦ rw h refl | inr h ↦ rw h refl ])
  | inr other ↦
      rw other
        (ground (arith, get_field-put_field fs k j v, other, eq_iff i j, eq_iff k j, eq_iff i k))
]

pub read_fields : (m : Option Fields) (k : String) → get_field (fields_of m) k ≡ read m k
unfolding fields_of read get_field
read_fields none k = refl
read_fields (some fs) k = refl

abbrev is_cleared : String → Bool
is_cleared status = status == approved || status == waived

-- What a review leaves under a key of the metadata, of what was there.
abbrev pub noted : String → String → ℤ → String → Option Value → Option Value
noted status reason at k before =
    if is_cleared status && "requires_human_review" == k
    then some (bool false)
    else if "reviewed_at" == k
    then some (int at)
    else if "review_reason" == k
    then some (str reason)
    else if "review_status" == k
    then some (str status)
    else before

pub read-review_fields :
    (status reason k : String) (at : ℤ) (fs : Fields)
    → get_field (review_fields status reason at fs) k ≡ noted status reason at k (get_field fs k)
unfolding review_fields
read-review_fields status reason k at fs =
    let f1 = put_field fs "review_status" (str status) in
    let f2 = put_field f1 "review_reason" (str reason) in
    let f3 = put_field f2 "reviewed_at" (int at) in
    let third : get_field f3 k ≡ (
        if "reviewed_at" == k
        then some (int at)
        else if "review_reason" == k
        then some (str reason)
        else if "review_status" == k
        then some (str status)
        else get_field fs k) =
      rw
        (
          get_field-put_field f2 "reviewed_at" k (int at),
          get_field-put_field f1 "review_reason" k (str reason),
          get_field-put_field fs "review_status" k (str status),
        )
        refl in
    elim (Bool-cases (is_cleared status)) [
      | inr kept ↦ rw kept third
      | inl cleared ↦
          rw (cleared, get_field-put_field f3 "requires_human_review" k (bool false), third) refl
    ]
