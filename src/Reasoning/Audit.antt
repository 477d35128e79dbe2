-- ===== src/Reasoning/Audit.antt =====
-- A chain of reasoning passes the audit exactly when each of its steps is fine.
use mathlib.Core.Path.{subst}
use velarix.Prelude.{
  ◌≤◌, String, ◌≡◌, ◌⊎◌, ◌↔◌, inl, inr, refl, sym, ap, ◌∙◌, Bool, true, false, ◌||◌, ◌&&◌, none,
  some, List, [], ◌∷◌, ◌++◌, ◌==◌, eq_iff, arith, if◌then◌else◌, ltb, contains, contains-cons,
  contains-nil, trim_space, lookup, Bool-cases, Option-cases, All,
}
use velarix.Env.{Env}
use velarix.Fact.{Fact, threshold}
use velarix.Consistency.{ConsistencyIssue}
use velarix.Consistency.Report.{
  insert_sorted, sort_by, is_less, unique_ids, unique_sorted_fact_ids, consistency_issues_for_ids,
}
use velarix.Engine.{Engine, effective_status}
use velarix.Global.Partition.Groups.{All-sort_by}
use velarix.Reasoning.{
  ReasoningStep, ReasoningChain, is_nil, ref_ids, validate_fact_refs, audit_refs, audit_output,
  audit_reasoning_step, audit_steps, all_valid, report_of, audit_reasoning_chain,
}

module _ (P : String → Type 0) where
  All-unsort_insert :
      (x : String) (l : List String) → All P (insert_sorted is_less x l) → P x × All P l
  unfolding insert_sorted
  All-unsort_insert x [] (first, rest) = (first, tt)
  All-unsort_insert x (y ∷ l) h = elim (Bool-cases (is_less y x)) [
    | inl after ↦
        let moved : All P (y ∷ insert_sorted is_less x l) =
          subst (λ b. All P (if b then y ∷ insert_sorted is_less x l else x ∷ y ∷ l)) after h in
        let inner = All-unsort_insert x l moved.1 in (inner.0, (moved.0, inner.1))
    | inr before ↦
        subst (λ b. All P (if b then y ∷ insert_sorted is_less x l else x ∷ y ∷ l)) before h
  ]

  All-unsort : (l : List String) → All P (sort_by is_less l) → All P l
  unfolding sort_by
  All-unsort [] h = tt
  All-unsort (x ∷ l) h =
      let (first, rest) = All-unsort_insert x (sort_by is_less l) h in (first, All-unsort l rest)

  -- An id is blank, or has the property once it is trimmed.
  abbrev pub IsBlankOr : String → Type 0
  IsBlankOr raw = (trim_space raw ≡ "") ⊎ P (trim_space raw)

  abbrev Seen : List String → Type 0
  Seen seen = (k : String) → contains seen k ≡ true → P k

  Seen-cons : (x : String) (seen : List String) → P x → Seen seen → Seen (x ∷ seen)
  Seen-cons x seen p h k listed = elim (Bool-cases (x == k)) [
    | inl same ↦ subst P ((eq_iff x k).0 same) p
    | inr other ↦ h k (ground (arith, listed, other, contains-cons x seen k))
  ]

  skip_blank : (s : String) (b : Bool) → s ≡ "" → (s == "" || b) ≡ true
  skip_blank s b h = ground (arith, eq_iff s "")

  All-unique_ids : (l seen : List String) → All IsBlankOr l → All P (unique_ids seen l)
  unfolding unique_ids
  All-unique_ids [] seen h = tt
  All-unique_ids (raw ∷ l) seen (first, rest) =
      elim (Bool-cases (trim_space raw == "" || contains seen (trim_space raw))) [
        | inl skipped ↦ rw skipped (All-unique_ids l seen rest)
        | inr fresh ↦ rw fresh (elim first [
          | inl blank ↦
              cc (fresh, skip_blank (trim_space raw) (contains seen (trim_space raw)) blank)
          | inr p ↦ (p, All-unique_ids l (trim_space raw ∷ seen) rest)
        ])
      ]

  unique_ids-All : (l seen : List String) → Seen seen → All P (unique_ids seen l) → All IsBlankOr l
  unfolding unique_ids
  unique_ids-All [] seen old h = tt
  unique_ids-All (raw ∷ l) seen old h =
      elim (Bool-cases (trim_space raw == "" || contains seen (trim_space raw))) [
        | inl skipped ↦
            let rest : All P (unique_ids seen l) =
              subst
                (λ b. All P (
                  if b
                  then unique_ids seen l
                  else trim_space raw ∷ unique_ids (trim_space raw ∷ seen) l))
                skipped h in
            (
              elim (Bool-cases (trim_space raw == "")) [
                | inl blank ↦ inl ((eq_iff (trim_space raw) "").0 blank)
                | inr filled ↦ inr (old (trim_space raw) (ground (arith, skipped, filled)))
              ],
              unique_ids-All l seen old rest,
            )
        | inr fresh ↦
            let both : P (trim_space raw) × All P (unique_ids (trim_space raw ∷ seen) l) =
              subst
                (λ b. All P (
                  if b
                  then unique_ids seen l
                  else trim_space raw ∷ unique_ids (trim_space raw ∷ seen) l))
                fresh h in
            (
              inr both.0,
              unique_ids-All l (trim_space raw ∷ seen) (Seen-cons (trim_space raw) seen both.0 old)
                  both.1,
            )
      ]

  All-unique_sorted : (l : List String) → All P (unique_sorted_fact_ids l) ↔ All IsBlankOr l
  unfolding unique_sorted_fact_ids
  All-unique_sorted l = (
    (λ h.
        unique_ids-All l [] (λ k listed. cc (listed, contains-nil k))
          (All-unsort (unique_ids [] l) h)),
    (λ h. All-sort_by P is_less (unique_ids [] l) (All-unique_ids l [] h)),
  )

module _ (mismatch : Fact → Fact → Bool) (env : Env) (e : Engine) where
  -- The id is that of a fact that holds.
  abbrev pub Holds : String → Type 0
  Holds id = (f : Fact) × (lookup id e.facts ≡ some f) × (threshold ≤ effective_status env e f)

  abbrev passes : List String × List String → Bool
  passes r = is_nil r.0 && is_nil r.1

  refs_gone :
      (id : String) (ids : List String)
      → lookup id e.facts ≡ none
      → passes (validate_fact_refs env e (id ∷ ids)) ≡ false
  unfolding validate_fact_refs
  refs_gone id ids gone = rw (gone, validate_fact_refs) refl

  refs_low :
      (id : String) (ids : List String) (f : Fact)
      → lookup id e.facts ≡ some f
      → ltb (effective_status env e f) threshold ≡ true
      → passes (validate_fact_refs env e (id ∷ ids)) ≡ false
  unfolding validate_fact_refs
  refs_low id ids f there low = rw (there, validate_fact_refs, low) (ground arith)

  refs_held :
      (id : String) (ids : List String) (f : Fact)
      → lookup id e.facts ≡ some f
      → ltb (effective_status env e f) threshold ≡ false
      → passes (validate_fact_refs env e (id ∷ ids)) ≡ passes (validate_fact_refs env e ids)
  unfolding validate_fact_refs
  refs_held id ids f there high = rw (there, validate_fact_refs, high) refl

  -- References pass exactly when each is a fact that holds.
  passes-Holds : (ids : List String) → passes (validate_fact_refs env e ids) ≡ true → All Holds ids
  passes-Holds [] h = tt
  passes-Holds (id ∷ ids) h = elim (Option-cases (lookup id e.facts)) [
    | inl gone ↦ cc (h, refs_gone id ids gone)
    | inr (f, there) ↦ elim (Bool-cases (ltb (effective_status env e f) threshold)) [
      | inl low ↦ cc (h, refs_low id ids f there low)
      | inr high ↦ (
        (f, there, ground (arith, high)),
        passes-Holds ids (sym (refs_held id ids f there high) ∙ h),
      )
    ]
  ]

  Holds-passes : (ids : List String) → All Holds ids → passes (validate_fact_refs env e ids) ≡ true
  Holds-passes [] h = unfold validate_fact_refs in refl
  Holds-passes (id ∷ ids) ((f, there, high), rest) =
      refs_held id ids f there (ground (arith, high)) ∙ Holds-passes ids rest

  -- The references of a step.
  abbrev pub references : ReasoningStep → List String
  references step =
      step.evidence_fact_ids ++ (step.justification_fact_ids ++ step.contradicts_fact_ids)

  -- A step is fine after earlier outputs: its references hold, and its output, if it has one, holds
  -- and contradicts none of them.
  abbrev pub IsFine : List String → ReasoningStep → Type 0
  IsFine prior step =
      All (IsBlankOr Holds) (references step)
      × ((step.output_fact_id ≡ "")
          ⊎ (Holds step.output_fact_id
              × (consistency_issues_for_ids mismatch env e false (step.output_fact_id ∷ prior)
                  ≡ [])))

  abbrev pub AreFine : List String → List ReasoningStep → Type 0
  AreFine prior [] = Unit
  AreFine prior (step ∷ steps) =
      IsFine prior step
      × AreFine (if step.output_fact_id == "" then prior else prior ++ step.output_fact_id ∷ [])
          steps

  issues_nil : (l : List ConsistencyIssue) → is_nil l ≡ true → l ≡ []
  issues_nil [] h = refl
  issues_nil (x ∷ l) h = cc

  refs_iff :
      (step : ReasoningStep)
      → (passes (validate_fact_refs env e (ref_ids step)) ≡ true)
        ↔ All (IsBlankOr Holds) (references step)
  unfolding ref_ids
  refs_iff step = (
    (λ h. (All-unique_sorted Holds (references step)).0 (passes-Holds (ref_ids step) h)),
    (λ h. Holds-passes (ref_ids step) ((All-unique_sorted Holds (references step)).1 h)),
  )

  audit_step_valid :
      (step : ReasoningStep) (prior candidates : List String)
      → (audit_reasoning_step mismatch env e step prior candidates).0.valid ≡ (
          if step.output_fact_id == ""
          then passes (validate_fact_refs env e (ref_ids step))
          else passes (validate_fact_refs env e (ref_ids step))
            && passes (validate_fact_refs env e (step.output_fact_id ∷ []))
            && is_nil
                (consistency_issues_for_ids mismatch env e false (step.output_fact_id ∷ prior)))
  unfolding audit_reasoning_step audit_refs audit_output
  audit_step_valid step prior candidates = elim (Bool-cases (step.output_fact_id == "")) [
    | inl none_given ↦ rw none_given refl
    | inr given ↦ rw given (ground arith)
  ]

  audit_step-IsFine :
      (step : ReasoningStep) (prior candidates : List String)
      → ((audit_reasoning_step mismatch env e step prior candidates).0.valid ≡ true)
        ↔ IsFine prior step
  audit_step-IsFine step prior candidates =
      let is = audit_step_valid step prior candidates in
      elim (Bool-cases (step.output_fact_id == "")) [
        | inl none_given ↦
            let is_blank = (eq_iff step.output_fact_id "").0 none_given in
            (
              (λ h. ((refs_iff step).0 (ground (arith, h, is, none_given)), inl is_blank)),
              (λ fine.
                  let passed = (refs_iff step).1 fine.0 in ground (arith, is, none_given, passed)),
            )
        | inr given ↦ (
          (λ h. (
            (refs_iff step).0 (ground (arith, h, is, given)),
            inr (
              (passes-Holds (step.output_fact_id ∷ []) (ground (arith, h, is, given))).0,
              issues_nil _ (ground (arith, h, is, given)),
            ),
          )),
          (λ fine.
              let passed = (refs_iff step).1 fine.0 in
              elim (fine.1) [
                | inl blank ↦ cc (given, (eq_iff step.output_fact_id "").1 blank)
                | inr (held, clear) ↦
                    let out = Holds-passes (step.output_fact_id ∷ []) (held, tt) in
                    ground (arith, is, given, passed, out, ap (λ l. is_nil l) clear)
              ]),
        )
      ]

  audit_steps-AreFine :
      (steps : List ReasoningStep) (prior candidates : List String)
      → (all_valid mismatch env e (audit_steps mismatch env e steps prior candidates).audits ≡ true)
        ↔ AreFine prior steps
  unfolding audit_steps all_valid
  audit_steps-AreFine [] prior candidates = ((λ h. tt), (λ h. refl))
  audit_steps-AreFine (step ∷ steps) prior candidates =
      let r = audit_reasoning_step mismatch env e step prior candidates in
      let next : List String =
        if step.output_fact_id == "" then prior else prior ++ step.output_fact_id ∷ [] in
      let one = audit_step-IsFine step prior candidates in
      let rest = audit_steps-AreFine steps next r.1 in
      (
        (λ h. (one.0 (ground (arith, h)), rest.0 (ground (arith, h)))),
        (λ fine.
            let first = one.1 fine.0 in
            let others = rest.1 fine.1 in ground (arith, first, others)),
      )

  -- The audit of a chain is valid exactly when each reference of each step, blank ones aside, is after
  -- trimming the id of a fact that holds, and the output of each step, if it has one, is the id of a
  -- fact that holds, with no consistency issue among it and the earlier outputs.
  pub audit_reasoning_chain_iff :
      (chain : ReasoningChain)
      → ((audit_reasoning_chain mismatch env e (some chain)).valid ≡ true) ↔ AreFine [] chain.steps
  unfolding audit_reasoning_chain report_of
  audit_reasoning_chain_iff chain = audit_steps-AreFine chain.steps [] []
