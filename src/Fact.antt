-- ===== src/Fact.antt =====
-- core/fact.go, and the readers of a fact in core/verification.go, core/governance.go and
-- core/dependencies.go.
use velarix.Prelude.{
  ℕ, String, Bool, Option, none, some, List, ◌==◌, ℤ, if◌then◌else◌, trim_space, to_lower, codes,
  codes_eq,
}
use velarix.Value.{Value, Fields, str, obj, read, get_field, text}

-- A float64 from 0 up that is a whole number of units of 2⁻⁵³: on these 1 - x is exact.
abbrev pub Status : Type 0
Status = ℕ

abbrev pub invalid : Status
invalid = 0

abbrev pub valid : Status
valid = 9007199254740992

-- `ConfidenceThreshold`: the float64 that 0.6 denotes.
abbrev pub threshold : Status
threshold = 5404319552844595

pub record JustificationSet : Type 0 where
  pub id : String
  pub child_fact_id : String
  pub parent_fact_ids : List String
  pub positive_parent_fact_ids : List String
  pub negative_parent_fact_ids : List String
  pub target_valid_parents : ℕ
  pub current_valid_parents : ℕ
  pub confidence : Status
  pub idom : String

pub record Fact : Type 0 where
  pub id : String
  pub payload : Option Fields
  pub metadata : Option Fields
  pub is_root : Bool
  pub manual_status : Status
  pub entrenchment : ℤ
  pub review_status : String
  pub review_reason : String
  pub reviewed_at : ℤ
  pub valid_until : ℤ
  pub asserted_at : ℤ
  pub assertion_kind : String
  pub derived_status : Status
  pub valid_justification_count : ℕ
  pub justification_sets : List (List String)
  pub idom : String
  pub pre_order : ℕ
  pub post_order : ℕ

abbrev pub empirical : String
empirical = "empirical"

abbrev pub uncertain : String
uncertain = "uncertain"

abbrev pub hypothetical : String
hypothetical = "hypothetical"

abbrev pub fictional : String
fictional = "fictional"

-- effectiveAssertionKind
unfoldable pub effective_assertion_kind : Fact → String
effective_assertion_kind f =
    if trim_space f.assertion_kind == "" then empirical else trim_space f.assertion_kind

abbrev pub unverified : String
unverified = "unverified"

abbrev pub verified : String
verified = "verified"

abbrev pub rejected : String
rejected = "rejected"

-- NormalizeVerificationStatus, by the code points of the text in lower case
unfoldable pub verification_of : List ℕ → String
verification_of s =
    if codes_eq s (codes unverified)
    then unverified
    else if codes_eq s (codes verified)
    then verified
    else if codes_eq s (codes rejected)
    then rejected
    else ""

unfoldable pub normalize_verification_status : String → String
unfolding verification_of
normalize_verification_status s = verification_of (to_lower (trim_space s))

unfoldable pub status_text : Option Value → String
unfolding normalize_verification_status
status_text (some (str s)) = normalize_verification_status s
status_text _ = ""

-- FactVerificationStatus
unfoldable pub fact_verification_status : Fact → String
unfolding status_text read
fact_verification_status f = status_text (read f.metadata "verification_status")

-- FactSourceType: the provenance record comes first.
unfoldable pub provenance_source : Option Value → Option String
unfolding get_field
provenance_source (some (obj fs)) = elim (get_field fs "source_type") [
  | some (str s) ↦ some (trim_space s)
  | _ ↦ none
]
provenance_source _ = none

unfoldable pub fact_source_type : Fact → String
unfolding provenance_source read text
fact_source_type f = elim (provenance_source (read f.metadata "_provenance")) [
  | some s ↦ s
  | none ↦ text (read f.metadata "source_type")
]
