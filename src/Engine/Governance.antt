-- ===== src/Engine/Governance.antt =====
-- core/governance.go: the review of a fact, and what asks for one. MetadataBool and MetadataString
-- stand with the values that they read.
pub mod Review
pub mod Noted
use velarix.Prelude.{
  ℕ, ◌+◌, String, Bool, true, false, not, ◌&&◌, ◌||◌, Option, none, some, List, ◌==◌, ℤ, pos,
  negsuc, ltbℤ, eqbℤ, leb, if◌then◌else◌, lookup, insert, trim_space, to_lower, codes, codes_eq,
}
use velarix.Env.{Env}
use velarix.Value.{Value, Fields, end, bool, int, str, put_field, metadata_bool, metadata_string}
use velarix.Fact.{Fact}
use velarix.Engine.{Engine}
use velarix.Engine.Outcome.{Outcome, done, failed, not_found, invalid_review_status}

abbrev pub pending : String
pending = "pending"

abbrev pub approved : String
approved = "approved"

abbrev pub waived : String
waived = "waived"

abbrev pub review_rejected : String
review_rejected = "rejected"

-- NormalizeReviewStatus, by the code points of the text in lower case
unfoldable pub review_of : List ℕ → String
review_of s =
    if codes_eq s (codes approved)
    then approved
    else if codes_eq s (codes waived)
    then waived
    else if codes_eq s (codes review_rejected)
    then review_rejected
    else if codes_eq s (codes pending)
    then pending
    else ""

unfoldable pub normalize_review_status : String → String
unfolding review_of
normalize_review_status s = review_of (to_lower (trim_space s))

-- The number 1, 0.95 and 0.75 in units of 2 ^ -53.
abbrev one : ℤ
one = pos 9007199254740992

abbrev high : ℤ
high = pos 8556839292003942

abbrev medium : ℤ
medium = pos 6755399441055744

-- ClampUnitFloat
unfoldable pub clamp_unit_float : ℤ → ℤ
clamp_unit_float v = if ltbℤ v (pos 0) then pos 0 else if ltbℤ one v then one else v

-- EffectiveEntrenchment
unfoldable pub effective_entrenchment : Fact → ℤ
unfolding clamp_unit_float
effective_entrenchment f =
    let raw = metadata_string f.metadata "entrenchment" in
    if ltbℤ (pos 0) f.entrenchment
    then clamp_unit_float f.entrenchment
    else if raw == "high"
    then high
    else if raw == "medium"
    then medium
    else pos 0

-- RequiresHumanReview
unfoldable pub requires_human_review : Fact → Bool
unfolding normalize_review_status
requires_human_review f =
    let status = normalize_review_status f.review_status in
    if metadata_bool f.metadata "requires_human_review"
    then not (status == approved) && not (status == waived)
    else status == pending

-- A nil map is made before it is written.
unfoldable pub fields_of : Option Fields → Fields
fields_of none = end
fields_of (some fs) = fs

unfoldable pub review_fields : String → String → ℤ → Fields → Fields
unfolding put_field
review_fields status reason at fs =
    let noted =
      put_field (put_field (put_field fs "review_status" (str status)) "review_reason" (str reason))
        "reviewed_at" (int at) in
    if status == approved || status == waived
    then put_field noted "requires_human_review" (bool false)
    else noted

-- The fact as the review leaves it.
unfoldable pub reviewed : String → String → ℤ → Fact → Fact
unfolding fields_of review_fields
reviewed status reason at f = record f {
  review_status = status;
  review_reason = trim_space reason;
  reviewed_at = at;
  metadata = some (review_fields status (trim_space reason) at (fields_of f.metadata));
}

unfoldable pub review_found :
    Env → Engine → String → String → String → ℤ → Option Fact → Outcome × Engine
unfolding normalize_review_status reviewed
review_found env e id status reason at none = (failed not_found, e)
review_found env e id status reason at (some fact) =
    let at' = if eqbℤ at (pos 0) then pos env.now else at in
    if status == ""
    then (failed invalid_review_status, e)
    else if normalize_review_status fact.review_status == status
    then (done, e)
    else (
      done,
      record e {
        facts = insert id (reviewed status reason at' fact) e.facts;
        mutation_count = e.mutation_count + 1;
      },
    )

-- SetFactReview
unfoldable pub set_fact_review : Env → Engine → String → String → String → ℤ → Outcome × Engine
unfolding review_found
set_fact_review env e id status reason at =
    review_found env e id (normalize_review_status status) reason at (lookup id e.facts)
