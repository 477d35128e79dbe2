-- ===== src/Engine/Governance/Review.antt =====
-- Which facts ask for a review once `SetFactReview` has returned.
use mathlib.Core.Path.{subst}
use velarix.Prelude.{
  ℕ, ◌+◌, String, ◌≡◌, ◌≢◌, ◌⊎◌, inl, inr, refl, sym, ap, ◌∙◌, Bool, true, false, not, ◌&&◌, ◌||◌,
  Option, none, some, ◌==◌, eq_iff, eq_refl, arith, ℤ, pos, eqbℤ, if◌then◌else◌, lookup, insert,
  lookup-insert, Bool-cases, codes, codes_eq, List, to_lower, trim_space,
}
use velarix.Env.{Env}
use velarix.Value.{read, truth, metadata_bool}
use velarix.Fact.{Fact}
use velarix.Engine.{Engine}
use velarix.Engine.Outcome.{done}
use velarix.Engine.Governance.Noted.{noted, read_fields, read-review_fields}
use velarix.Engine.Governance.{
  approved, waived, pending, review_rejected, review_of, normalize_review_status,
  requires_human_review, fields_of, reviewed, review_found, set_fact_review,
}

-- The four statuses of a review.
data IsStatus : String → Type 0 where
  is_approved : IsStatus approved
  is_waived : IsStatus waived
  is_rejected : IsStatus review_rejected
  is_pending : IsStatus pending

review_cases : (l : List ℕ) → (review_of l ≡ "") ⊎ IsStatus (review_of l)
unfolding review_of
review_cases l = elim (Bool-cases (codes_eq l (codes approved))) [
  | inl a ↦ rw a (inr is_approved)
  | inr a ↦ elim (Bool-cases (codes_eq l (codes waived))) [
    | inl w ↦ rw (a, w) (inr is_waived)
    | inr w ↦ elim (Bool-cases (codes_eq l (codes review_rejected))) [
      | inl r ↦ rw (a, w, r) (inr is_rejected)
      | inr r ↦ elim (Bool-cases (codes_eq l (codes pending))) [
        | inl p ↦ rw (a, w, r, p) (inr is_pending)
        | inr p ↦ rw (a, w, r, p) (inl refl)
      ]
    ]
  ]
]

normal_again : (status : String) → IsStatus status → normalize_review_status status ≡ status
unfolding normalize_review_status codes_eq velarix.Prelude.to_lower velarix.Prelude.trim_space
normal_again _ is_approved = refl
normal_again _ is_waived = refl
normal_again _ is_rejected = refl
normal_again _ is_pending = refl

not_empty : (status : String) → IsStatus status → (status == "") ≡ false
not_empty _ is_approved = refl
not_empty _ is_waived = refl
not_empty _ is_rejected = refl
not_empty _ is_pending = refl

asks_lem :
    (status : String) (g : Fact) (demanded : Bool)
    → IsStatus status
    → normalize_review_status g.review_status ≡ status
    → (status ≡ review_rejected → metadata_bool g.metadata "requires_human_review" ≡ demanded)
    → requires_human_review g ≡ (status == pending || (status == review_rejected && demanded))
unfolding requires_human_review
asks_lem _ g demanded is_approved h same = rw h (ground arith)
asks_lem _ g demanded is_waived h same = rw h (ground arith)
asks_lem _ g demanded is_rejected h same = rw (h, same refl) (ground arith)
asks_lem _ g demanded is_pending h same = rw h (ground arith)

module _ (env : Env) (e : Engine) (id reason : String) (at : ℤ) (f : Fact) where
  -- The time of the review.
  abbrev at' : ℤ
  at' = if eqbℤ at (pos 0) then pos env.now else at

  -- The fact with the review, the metadata key by key.
  pub record IsReviewed (status : String) (g : Fact) : Type 0 where
    pub review : g ≡ record f {
      review_status = status;
      review_reason = trim_space reason;
      reviewed_at = at';
      metadata = g.metadata;
    }
    pub metadata :
        (k : String)
        → read g.metadata k ≡ noted status (trim_space reason) at' k (read f.metadata k)

  -- What a review with a status makes of the engine.
  pub record HasReview (status : String) (e' : Engine) : Type 0 where
    pub fact : Fact
    pub there : lookup id e'.facts ≡ some fact
    -- a fact that has the status is not written
    pub again : normalize_review_status f.review_status ≡ status → e' ≡ e
    pub written : normalize_review_status f.review_status ≢ status → IsReviewed status fact
    pub counted :
        normalize_review_status f.review_status ≢ status
        → e' ≡ record e { facts = e'.facts; mutation_count = e.mutation_count + 1 }
    pub others : (k : String) → k ≢ id → lookup k e'.facts ≡ lookup k e.facts
    -- a pending review is asked for, and a rejected one where the metadata demanded a review before
    pub asks : requires_human_review fact ≡ (
        status == pending
        || (status == review_rejected && metadata_bool f.metadata "requires_human_review"))

  reviewed-IsReviewed : (status : String) → IsReviewed status (reviewed status reason at' f)
  unfolding reviewed read
  reviewed-IsReviewed status = record {
    review = refl;
    metadata = λ k.
        read-review_fields status (trim_space reason) k at' (fields_of f.metadata)
        ∙ ap (noted status (trim_space reason) at' k) (read_fields f.metadata k);
  }

  reviewed-asks :
      (status : String)
      → IsStatus status
      → requires_human_review (reviewed status reason at' f) ≡ (
          status == pending
          || (status == review_rejected && metadata_bool f.metadata "requires_human_review"))
  unfolding metadata_bool
  reviewed-asks status is =
      asks_lem status (reviewed status reason at' f)
        (metadata_bool f.metadata "requires_human_review") is
        (unfold reviewed in normal_again status is)
        (λ rejected.
          ap truth {y = read f.metadata "requires_human_review"}
            ((reviewed-IsReviewed status).metadata "requires_human_review" ∙ rw rejected refl))

  found_settles :
      (status : String)
      → lookup id e.facts ≡ some f
      → IsStatus status
      → (e' : Engine) × (review_found env e id status reason at (some f) ≡ (done, e'))
        × HasReview status e'
  unfolding review_found
  found_settles status at_id is =
      let g = reviewed status reason at' f in
      elim (Bool-cases (normalize_review_status f.review_status == status)) [
        | inl same ↦
            let is_same = (eq_iff (normalize_review_status f.review_status) status).0 same in
            (
              e,
              rw (not_empty status is, same) refl,
              record {
                fact = f;
                there = at_id;
                again = λ h. refl;
                written = λ h. absurd (h is_same);
                counted = λ h. absurd (h is_same);
                others = λ k h. refl;
                asks = asks_lem status f _ is is_same (λ h. refl);
              },
            )
        | inr other ↦ (
          record e { facts = insert id g e.facts; mutation_count = e.mutation_count + 1 },
          rw (not_empty status is, other) refl,
          record {
            fact = g;
            there = rw (lookup-insert id id g e.facts, eq_refl id) refl;
            again = λ h. cc ((eq_iff (normalize_review_status f.review_status) status).1 h, other);
            written = λ h. reviewed-IsReviewed status;
            counted = λ h. refl;
            others = λ k h. ground (arith, lookup-insert id k g e.facts, eq_iff id k, h);
            asks = reviewed-asks status is;
          },
        )
      ]

  -- With a status that is one of the four of a review, SetFactReview on a fact of the engine returns no
  -- error. If the fact has that status already, the engine is left as it is. Else the fact gets the
  -- status, the reason without spaces around it and the time of the review, which is now if none is
  -- given, and under their keys the metadata get the same, and that no review is required if it is
  -- approved or waived; all other fields of the fact, all other keys of its metadata and all other
  -- facts are as before, and of the engine only the count of mutations changes. Either way the fact
  -- then asks for a review exactly if the status is pending, or if it is rejected and the metadata
  -- demanded a review before.
  pub set_fact_review_lem :
      (status : String)
      → lookup id e.facts ≡ some f
      → normalize_review_status status ≢ ""
      → (e' : Engine) × (set_fact_review env e id status reason at ≡ (done, e'))
        × HasReview (normalize_review_status status) e'
  unfolding set_fact_review
  set_fact_review_lem status at_id known =
      let cases : (normalize_review_status status ≡ "")
          ⊎ IsStatus (normalize_review_status status) =
        unfold normalize_review_status in review_cases (to_lower (trim_space status)) in
      elim cases [
        | inl none_of_them ↦ absurd (known none_of_them)
        | inr is ↦
            subst
              (λ o.
                (e' : Engine) × (review_found env e id (normalize_review_status status) reason at o
                  ≡ (done, e'))
                × HasReview (normalize_review_status status) e')
              (sym at_id) (found_settles (normalize_review_status status) at_id is)
      ]
