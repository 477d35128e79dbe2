-- ===== src/Consistency.antt =====
-- core/consistency.go: the claim that a fact makes, and when two facts contradict each other. The
-- comparison of two texts by their vectors (`semanticNegationMismatch`) is a parameter.
pub mod Symmetric
pub mod Report
use Prim.Native.String.{◌++◌ as concat}
use velarix.Prelude.{
  ℕ, String, Bool, true, false, not, ◌&&◌, ◌||◌, Option, none, some, List, [], ◌∷◌, ◌++◌, ◌==◌,
  if◌then◌else◌, contains, trim_space, to_lower, codes, codes_eq,
}
use velarix.Value.{metadata_string, map_string_slice}
use velarix.Fact.{Fact, empirical, hypothetical, fictional}

-- firstNonEmptyString
unfoldable pub first_non_empty_string : List String → String
first_non_empty_string [] = ""
first_non_empty_string (v ∷ rest) =
    let later = first_non_empty_string rest in if trim_space v == "" then later else trim_space v

-- claimSignature; the polarity is in lower case, as code points
pub record ClaimSignature : Type 0 where
  pub claim_key : String
  pub claim_value : String
  pub subject : String
  pub predicate : String
  pub object : String
  pub polarity : List ℕ
  pub contradicts : List String

-- The payload comes first, and the metadata where the payload says nothing.
unfoldable pub from_either : Fact → String → String
from_either f key =
    if metadata_string f.payload key == ""
    then metadata_string f.metadata key
    else metadata_string f.payload key

unfoldable pub polarity_of : List ℕ → List ℕ
polarity_of [] = codes "positive"
polarity_of (c ∷ cs) = c ∷ cs

-- extractClaimSignature
unfoldable pub extract_claim_signature : Fact → ClaimSignature
unfolding from_either polarity_of first_non_empty_string
extract_claim_signature f = record {
  claim_key = from_either f "claim_key";
  claim_value = from_either f "claim_value";
  subject = from_either f "subject";
  predicate = from_either f "predicate";
  object = from_either f "object";
  polarity = polarity_of (
      to_lower (
        first_non_empty_string
          (metadata_string f.payload "polarity" ∷ metadata_string f.metadata "polarity" ∷ [])));
  contradicts =
      map_string_slice f.payload "contradicts" ++ map_string_slice f.metadata "contradicts";
}

-- assertionScope
unfoldable pub assertion_scope : Fact → String
assertion_scope f =
    if f.assertion_kind == hypothetical || f.assertion_kind == fictional
    then f.assertion_kind
    else empirical

pub data Conflict : Type 0 where
  explicit_contradiction claim_value_conflict predicate_object_conflict : Conflict
  polarity_conflict semantic_negation_conflict : Conflict

-- The cases of `contradictionIssueForFacts` on the two claims, in their order.
unfoldable pub values_differ : ClaimSignature → ClaimSignature → Bool
values_differ a b =
    not (a.claim_key == "")
    && a.claim_key == b.claim_key
    && not (a.claim_value == "")
    && not (b.claim_value == "")
    && not (a.claim_value == b.claim_value)

unfoldable pub same_topic : ClaimSignature → ClaimSignature → Bool
same_topic a b =
    not (a.subject == "")
    && not (a.predicate == "")
    && a.subject == b.subject
    && a.predicate == b.predicate

unfoldable pub objects_differ : ClaimSignature → ClaimSignature → Bool
unfolding same_topic
objects_differ a b =
    same_topic a b && not (a.object == "") && not (b.object == "") && not (a.object == b.object)

unfoldable pub polarities_differ : ClaimSignature → ClaimSignature → Bool
unfolding same_topic
polarities_differ a b =
    same_topic a b
    && not (a.object == "")
    && a.object == b.object
    && not (codes_eq a.polarity b.polarity)

unfoldable pub conflict_of :
    (Fact → Fact → Bool) → Fact → Fact → ClaimSignature → ClaimSignature → Option Conflict
unfolding values_differ objects_differ polarities_differ
conflict_of mismatch a b sig_a sig_b =
    if contains sig_a.contradicts b.id || contains sig_b.contradicts a.id
    then some explicit_contradiction
    else if values_differ sig_a sig_b
    then some claim_value_conflict
    else if objects_differ sig_a sig_b
    then some predicate_object_conflict
    else if polarities_differ sig_a sig_b
    then some polarity_conflict
    else if mismatch a b
    then some semantic_negation_conflict
    else none

-- The kind of the issue that contradictionIssueForFacts returns, if it returns one.
unfoldable pub contradiction : (Fact → Fact → Bool) → Fact → Fact → Option Conflict
unfolding conflict_of extract_claim_signature assertion_scope
contradiction mismatch a b =
    if assertion_scope a == assertion_scope b
    then conflict_of mismatch a b (extract_claim_signature a) (extract_claim_signature b)
    else none

-- ConsistencyIssue, as contradictionIssueForFacts fills it
pub record ConsistencyIssue : Type 0 where
  pub kind : Conflict
  pub severity : String
  pub fact_ids : List String
  pub message : String

abbrev severity_of : Conflict → String
severity_of semantic_negation_conflict = "medium"
severity_of _ = "high"

unfoldable pub message_of : String → String → ClaimSignature → Conflict → String
message_of facts_a id_b sig explicit_contradiction =
    concat facts_a (concat " and " (concat id_b " are marked as contradictory."))
message_of facts_a id_b sig claim_value_conflict = concat facts_a (
    concat " and "
      (concat id_b (concat " assert different values for claim_key=" (concat sig.claim_key "."))))
message_of facts_a id_b sig predicate_object_conflict = concat facts_a (
    concat " and " (
      concat id_b
        (concat " disagree on " (concat sig.subject (concat "/" (concat sig.predicate "."))))))
message_of facts_a id_b sig polarity_conflict = concat facts_a (
    concat " and " (
      concat id_b (
        concat " assert opposite polarity for " (
          concat sig.subject
            (concat "/" (concat sig.predicate (concat "/" (concat sig.object "."))))))))
message_of facts_a id_b sig semantic_negation_conflict =
    concat facts_a
      (concat " and " (concat id_b " are semantically close but appear to negate each other."))

-- contradictionIssueForFacts
unfoldable pub contradiction_issue_for_facts :
    (Fact → Fact → Bool) → Fact → Fact → Option ConsistencyIssue
unfolding contradiction message_of extract_claim_signature
contradiction_issue_for_facts mismatch a b = elim (contradiction mismatch a b) [
  | none ↦ none
  | some kind ↦ some (record {
    kind = kind;
    severity = severity_of kind;
    fact_ids = a.id ∷ b.id ∷ [];
    message = message_of (concat "Facts " a.id) b.id (extract_claim_signature a) kind;
  })
]
