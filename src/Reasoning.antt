-- ===== src/Reasoning.antt =====
-- core/reasoning.go: the audit of a chain of reasoning steps against the facts of the engine. The order
-- of the map of candidates is that of their discovery, in front of the sort.
pub mod Audit
use Prim.Native.String.{◌++◌ as concat}
use velarix.Prelude.{
  ℕ, String, Bool, true, false, ◌&&◌, not, Option, none, some, List, [], ◌∷◌, ◌++◌, ◌==◌, ltb, eqb,
  length, if◌then◌else◌, contains, add, lookup, has, trim_space,
}
use velarix.Env.{Env}
use velarix.Fact.{Fact, Status, threshold}
use velarix.Consistency.{ConsistencyIssue}
use velarix.Consistency.Report.{
  is_less, sort_by, unique_sorted_fact_ids, consistency_issues_for_ids,
}
use velarix.Engine.{Engine, effective_status}

-- ReasoningStep
pub record ReasoningStep : Type 0 where
  pub id : String
  pub kind : String
  pub content : String
  pub evidence_fact_ids : List String
  pub justification_fact_ids : List String
  pub output_fact_id : String
  pub contradicts_fact_ids : List String
  pub confidence : Status

-- ReasoningChain
pub record ReasoningChain : Type 0 where
  pub chain_id : String
  pub steps : List ReasoningStep

-- ReasoningStepAudit
pub record ReasoningStepAudit : Type 0 where
  pub step_id : String
  pub valid : Bool
  pub missing_fact_ids : List String
  pub invalid_fact_ids : List String
  pub output_fact_id : String
  pub consistency_findings : List ConsistencyIssue

-- ReasoningAuditReport
pub record ReasoningAuditReport : Type 0 where
  pub chain_id : String
  pub valid : Bool
  pub summary : String
  pub step_audits : List ReasoningStepAudit
  pub issues : List ConsistencyIssue
  pub retract_candidate_fact_ids : List String
  pub verified_at : ℕ

-- The ids that are no facts, and those of facts below the threshold.
unfoldable pub validate_fact_refs : Env → Engine → List String → List String × List String
validate_fact_refs env e [] = ([], [])
validate_fact_refs env e (id ∷ ids) =
    let (missing, stale) = validate_fact_refs env e ids in
    elim (lookup id e.facts) [
      | none ↦ (id ∷ missing, stale)
      | some f ↦
          if ltb (effective_status env e f) threshold
          then (missing, id ∷ stale)
          else (missing, stale)
    ]

unfoldable pub add_others : String → List String → List String → List String
add_others output [] candidates = candidates
add_others output (id ∷ ids) candidates =
    add_others output ids (if id == output then candidates else add candidates id)

-- addRetractCandidatesFromIssues
unfoldable pub add_retract_candidates : List ConsistencyIssue → String → List String → List String
unfolding add_others
add_retract_candidates [] output candidates = candidates
add_retract_candidates (issue ∷ issues) output candidates =
    add_retract_candidates issues output (add_others output issue.fact_ids candidates)

unfoldable pub add_known : Engine → List String → List String → List String
add_known e [] candidates = candidates
add_known e (id ∷ ids) candidates =
    add_known e ids (if has id e.facts then add candidates id else candidates)

abbrev pub is_nil {ℓ} : {A : Type ℓ} → List A → Bool
is_nil [] = true
is_nil (x ∷ xs) = false

-- uniqueIDs, of the three lists of a step
unfoldable pub ref_ids : ReasoningStep → List String
ref_ids step =
    unique_sorted_fact_ids
      (step.evidence_fact_ids ++ (step.justification_fact_ids ++ step.contradicts_fact_ids))

module _ (mismatch : Fact → Fact → Bool) (env : Env) (e : Engine) where
  -- The audit of a step without an output.
  unfoldable pub audit_refs : ReasoningStep → List String × List String → ReasoningStepAudit
  unfolding sort_by is_less
  audit_refs step (missing, stale) = record {
    step_id = step.id;
    valid = is_nil missing && is_nil stale;
    missing_fact_ids = sort_by is_less missing;
    invalid_fact_ids = sort_by is_less stale;
    output_fact_id = step.output_fact_id;
    consistency_findings = [];
  }

  -- The audit of a step with an output, by the issues of the output with the earlier ones.
  unfoldable pub audit_output :
      ReasoningStep
      → List String × List String
      → List String × List String
      → List ConsistencyIssue
      → ReasoningStepAudit
  unfolding sort_by is_less
  audit_output step (missing, stale) (missing', stale') issues = record {
    step_id = step.id;
    valid = is_nil missing && is_nil stale && is_nil missing' && is_nil stale' && is_nil issues;
    missing_fact_ids = sort_by is_less (missing ++ missing');
    invalid_fact_ids = sort_by is_less (stale ++ stale');
    output_fact_id = step.output_fact_id;
    consistency_findings = issues;
  }

  -- auditReasoningStepUnsafe, with the candidates for a retraction
  unfoldable pub audit_reasoning_step :
      ReasoningStep → List String → List String → ReasoningStepAudit × List String
  unfolding ref_ids validate_fact_refs audit_refs audit_output add_retract_candidates add_known
  audit_reasoning_step step prior candidates =
      let refs = validate_fact_refs env e (ref_ids step) in
      let issues = consistency_issues_for_ids mismatch env e false (step.output_fact_id ∷ prior) in
      if step.output_fact_id == "" then (audit_refs step refs, candidates) else (
        audit_output step refs (validate_fact_refs env e (step.output_fact_id ∷ [])) issues,
        add_known e step.contradicts_fact_ids
            (add_retract_candidates issues step.output_fact_id candidates),
      )

  -- What the loop has gathered.
  pub record Audited : Type 0 where
    pub audits : List ReasoningStepAudit
    pub candidates : List String

  unfoldable pub audit_steps : List ReasoningStep → List String → List String → Audited
  unfolding audit_reasoning_step
  audit_steps [] prior candidates = record { audits = []; candidates = candidates }
  audit_steps (step ∷ steps) prior candidates =
      let r = audit_reasoning_step step prior candidates in
      let rest =
        audit_steps steps
          (if step.output_fact_id == "" then prior else prior ++ step.output_fact_id ∷ []) r.1 in
      record { audits = r.0 ∷ rest.audits; candidates = rest.candidates }

  unfoldable pub all_valid : List ReasoningStepAudit → Bool
  all_valid [] = true
  all_valid (audit ∷ audits) = audit.valid && all_valid audits

  -- The findings of a step without an output are none.
  unfoldable pub issues_of_steps : List ReasoningStepAudit → List ConsistencyIssue
  issues_of_steps [] = []
  issues_of_steps (audit ∷ audits) = audit.consistency_findings ++ issues_of_steps audits

  unfoldable pub report_of : ReasoningChain → Audited → ReasoningAuditReport
  unfolding all_valid issues_of_steps sort_by is_less
  report_of chain audited = record {
    chain_id = chain.chain_id;
    valid = all_valid audited.audits;
    summary =
        if all_valid audited.audits
        then "reasoning chain passed verification"
        else concat "reasoning chain " (
            concat (trim_space chain.chain_id)
              " requires review; one or more steps reference stale, missing, or contradictory beliefs");
    step_audits = audited.audits;
    issues = issues_of_steps audited.audits;
    retract_candidate_fact_ids = sort_by is_less audited.candidates;
    verified_at = env.now;
  }

  -- AuditReasoningChain
  unfoldable pub audit_reasoning_chain : Option ReasoningChain → ReasoningAuditReport
  unfolding report_of audit_steps
  audit_reasoning_chain none = record {
    chain_id = "";
    valid = false;
    summary = "reasoning chain is missing";
    step_audits = [];
    issues = [];
    retract_candidate_fact_ids = [];
    verified_at = env.now;
  }
  audit_reasoning_chain (some chain) = report_of chain (audit_steps chain.steps [] [])
