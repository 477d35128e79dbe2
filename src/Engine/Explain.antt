-- ===== src/Engine/Explain.antt =====
-- core/explain.go: the explanation of a fact by the facts that it rests on. The counterfactual is never
-- asked for and left out, as are the session and the time, which the callers fill in.
pub mod Ancestors
pub mod Chain
use Prim.Native.String.{◌++◌ as concat}
use velarix.Prelude.{
  ℕ, zero, suc, String, Bool, true, false, ◌&&◌, ◌||◌, not, Option, none, some, List, [], ◌∷◌, ◌++◌,
  ◌==◌, pos, ltb, leb, length, if◌then◌else◌, contains, add, lookup,
}
use velarix.Env.{Env}
use velarix.Value.{Value, Fields, str, strs, float, int, obj, end, field, read, get_field}
use velarix.Fact.{Fact, Status, threshold, uncertain}
use velarix.Dependencies.{is_negated, trim_mark}
use velarix.Consistency.Report.{is_less, sort_by}
use velarix.Engine.{Engine, effective_status}

-- BeliefExplanation
pub record BeliefExplanation : Type 0 where
  pub fact_id : String
  pub confidence : Status
  pub tier : String
  pub assertion_kind : String
  pub provenance : Option Fields
  pub payload : Option Fields
  pub is_root : Bool
  pub parents : List String
  pub negated_parents : List String

-- The float64 that 0.9 denotes.
abbrev certainty : Status
certainty = 8106479329266893

-- confidenceTier
unfoldable pub confidence_tier : Status → String → String
confidence_tier confidence kind =
    if kind == uncertain
    then (if leb threshold confidence then "probable" else "uncertain")
    else if ltb certainty confidence
    then "certain"
    else if leb threshold confidence
    then "probable"
    else "uncertain"

-- The tokens of all sets, in the order of the two loops.
unfoldable pub tokens_of : List (List String) → List String
tokens_of [] = []
tokens_of (set ∷ sets) = set ++ tokens_of sets

unfoldable pub clean_ids : Bool → List String → List String
clean_ids negated [] = []
clean_ids negated (token ∷ tokens) =
    let rest = clean_ids negated tokens in
    if (negated && is_negated token) || (not negated && not (is_negated token))
    then trim_mark token ∷ rest
    else rest

unfoldable pub object_of : Option Value → Option Fields
object_of (some (obj fs)) = some fs
object_of _ = none

unfoldable pub belief_of : Env → Engine → Fact → BeliefExplanation
unfolding confidence_tier tokens_of clean_ids object_of read
belief_of env e fact = record {
  fact_id = fact.id;
  confidence = effective_status env e fact;
  tier = confidence_tier (effective_status env e fact) fact.assertion_kind;
  assertion_kind = fact.assertion_kind;
  provenance = object_of (read fact.metadata "_provenance");
  payload = fact.payload;
  is_root = fact.is_root;
  parents = if fact.is_root then [] else clean_ids false (tokens_of fact.justification_sets);
  negated_parents = if fact.is_root then [] else clean_ids true (tokens_of fact.justification_sets);
}

-- The ids visited so far, and the part of the chain that was built. `none`: the fuel has run out.
abbrev pub Walked : Type 0
Walked = Option (List String × List BeliefExplanation)

abbrev pub then_walk : Walked → (List String → Walked) → Walked
then_walk none rest = none
then_walk (some (visited, chain)) rest = elim (rest visited) [
  | none ↦ none
  | some (visited', more) ↦ some (visited', chain ++ more)
]

-- The two loops of `buildCausalChain`; `go` is the call for a parent.
unfoldable pub walk_tokens :
    (Fact → List String → Walked) → Engine → List String → List String → Walked
walk_tokens go e [] visited = some (visited, [])
walk_tokens go e (token ∷ tokens) visited = elim (lookup (trim_mark token) e.facts) [
  | none ↦ walk_tokens go e tokens visited
  | some parent ↦ then_walk (go parent visited) (λ visited'. walk_tokens go e tokens visited')
]

abbrev pub first_belief : BeliefExplanation → Walked → Walked
first_belief belief none = none
first_belief belief (some (visited, chain)) = some (visited, belief ∷ chain)

-- buildCausalChain, at most `fuel` calls deep
unfoldable pub build_causal_chain : ℕ → Env → Engine → Fact → List String → Walked
unfolding walk_tokens belief_of tokens_of
build_causal_chain zero env e fact visited =
    if contains visited fact.id then some (visited, []) else none
build_causal_chain (suc fuel) env e fact visited =
    let deeper = first_belief (belief_of env e fact) (
      walk_tokens (build_causal_chain fuel env e) e
        (if fact.is_root then [] else tokens_of fact.justification_sets)
        (visited ++ fact.id ∷ [])) in
    if contains visited fact.id then some (visited, []) else deeper

-- ExplanationSource
pub record ExplanationSource : Type 0 where
  pub fact_id : String
  pub source_type : String
  pub source_ref : String
  pub payload_hash : String
  pub policy_version : String

-- ExplanationOutput
pub record ExplanationOutput : Type 0 where
  pub fact_id : String
  pub summary : String
  pub structured : Fields
  pub invalidated_fact_ids : List String
  pub sources : List ExplanationSource
  pub policy_versions : List String
  pub causal_chain : List BeliefExplanation

unfoldable pub string_in : Option Fields → String → Option String
unfolding get_field
string_in none key = none
string_in (some fs) key = elim (get_field fs key) [ some (str s) ↦ some s | _ ↦ none ]

abbrev or_empty : Option String → String
or_empty none = ""
or_empty (some s) = s

unfoldable pub source_of : BeliefExplanation → ExplanationSource
unfolding string_in
source_of belief = record {
  fact_id = belief.fact_id;
  source_type = or_empty (string_in belief.provenance "source_type");
  source_ref = or_empty (string_in belief.provenance "source_ref");
  payload_hash = or_empty (string_in belief.provenance "payload_hash");
  policy_version = or_empty (string_in belief.provenance "policy_version");
}

unfoldable pub sources_of : List BeliefExplanation → List ExplanationSource
unfolding source_of
sources_of [] = []
sources_of (belief ∷ chain) =
    let s = source_of belief in
    let rest = sources_of chain in
    if s.source_type == "" && s.source_ref == "" && s.payload_hash == "" && s.policy_version == ""
    then rest
    else s ∷ rest

unfoldable pub invalidated : List BeliefExplanation → List String → List String
invalidated [] ids = ids
invalidated (belief ∷ chain) ids =
    invalidated chain (if ltb belief.confidence threshold then add ids belief.fact_id else ids)

unfoldable pub policies : List BeliefExplanation → List String → List String
unfolding string_in
policies [] versions = versions
policies (belief ∷ chain) versions =
    policies chain (elim (string_in belief.provenance "policy_version") [
      | none ↦ versions
      | some v ↦ add versions v
    ])

unfoldable pub summary_of : String → Status → String
summary_of id status =
    if ltb status threshold
    then concat "Fact "
        (concat id " is blocked or stale because one or more dependencies are no longer valid.")
    else concat "Fact " (concat id " is supported by the current dependency set.")

-- enrichForDecisionContext
unfoldable pub enrich_for_decision_context :
    String → Fact → Status → List BeliefExplanation → ExplanationOutput
unfolding sources_of invalidated policies summary_of sort_by is_less
enrich_for_decision_context fact_id fact status chain =
    let ids = sort_by is_less (invalidated chain []) in
    let versions = sort_by is_less (policies chain []) in
    record {
      fact_id = fact_id;
      summary = summary_of fact.id status;
      structured = field "fact_id" (str fact.id) (
          field "current_status" (float (pos status)) (
            field "invalidated_fact_ids" (strs ids) (
              field "policy_versions" (strs versions)
                (field "source_count" (int (pos (length (sources_of chain)))) end))));
      invalidated_fact_ids = ids;
      sources = sources_of chain;
      policy_versions = versions;
      causal_chain = chain;
    }

pub data Explained : Type 0 where
  explained : ExplanationOutput → Explained
  fact_not_found : Explained
  unfinished : Explained

unfoldable pub explain_found : Env → Engine → String → Fact → Walked → Explained
unfolding enrich_for_decision_context
explain_found env e fact_id fact none = unfinished
explain_found env e fact_id fact (some (visited, chain)) =
    explained (enrich_for_decision_context fact_id fact (effective_status env e fact) chain)

-- ExplainReasoning
unfoldable pub explain_reasoning : Env → Engine → String → Explained
unfolding build_causal_chain explain_found
explain_reasoning env e fact_id = elim (lookup fact_id e.facts) [
  | none ↦ fact_not_found
  | some fact ↦ explain_found env e fact_id fact (build_causal_chain env.fuel env e fact [])
]
