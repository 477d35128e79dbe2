-- ===== src/Engine/Verification.antt =====
-- core/verification.go: the verification of a fact, and the key of its claim. The readings of the
-- verification status and of the source's type stand with the facts.
use velarix.Prelude.{
  ◌+◌, String, false, Option, none, some, List, [], ◌∷◌, ◌==◌, ℤ, pos, eqbℤ, if◌then◌else◌, lookup,
  insert, trim_space,
}
use velarix.Env.{Env}
use velarix.Value.{Value, Fields, bool, int, str, put_field, read}
use velarix.Fact.{Fact, verified, normalize_verification_status}
use velarix.Engine.{Engine}
use velarix.Engine.Propagation.{recompute_children, propagate}
use velarix.Engine.Outcome.{Outcome, done, failed, not_found, invalid_verification_status, settled}
use velarix.Engine.Governance.{fields_of}

-- A text that is not blank is noted without the space around it.
unfoldable pub put_text : Fields → String → String → Fields
unfolding put_field
put_text fs key given =
    if trim_space given == "" then fs else put_field fs key (str (trim_space given))

-- What the caller says of a verification.
pub record Check : Type 0 where
  pub method : String
  pub source_ref : String
  pub reason : String
  pub verified_at : ℤ

unfoldable pub verification_fields : String → Check → Fields → Fields
unfolding put_text
verification_fields status c fs =
    let noted = put_field fs "verification_status" (str status) in
    let told =
      put_text
        (put_text (put_text noted "verification_method" c.method) "verification_source_ref"
          c.source_ref)
        "verification_reason" c.reason in
    let dated = put_field told "verified_at" (int c.verified_at) in
    if status == verified then put_field dated "requires_verification" (bool false) else dated

-- The engine with the verified fact, in front of the propagation.
unfoldable pub mark_verified : Env → Engine → String → String → Check → Fact → Engine
unfolding fields_of verification_fields
mark_verified env e id status c fact =
    let at = if eqbℤ c.verified_at (pos 0) then pos env.now else c.verified_at in
    record e {
      facts =
          insert id
            (record fact {
              metadata = some (
                  verification_fields status (record c { verified_at = at })
                    (fields_of fact.metadata));
            })
            e.facts;
      mutation_count = e.mutation_count + 1;
    }

-- An empty queue is not propagated.
abbrev pub propagate_some : Env → Engine × List String → Outcome × Engine
propagate_some env (e, []) = (done, e)
propagate_some env (e, id ∷ queue) = settled e (propagate env e (id ∷ queue))

unfoldable pub verify_found :
    Env → Engine → String → String → Check → Option Fact → Outcome × Engine
unfolding mark_verified recompute_children
verify_found env e id status c none = (failed not_found, e)
verify_found env e id status c (some fact) =
    if status == ""
    then (failed invalid_verification_status, e)
    else propagate_some env (recompute_children env (mark_verified env e id status c fact) id)

-- SetFactVerification
unfoldable pub set_fact_verification : Env → Engine → String → String → Check → Outcome × Engine
unfolding verify_found
set_fact_verification env e id status c =
    verify_found env e id (normalize_verification_status status) c (lookup id e.facts)

-- FactClaimKey: the payload comes first.
unfoldable pub claim_text : Option Value → Option String
claim_text (some (str s)) = some (trim_space s)
claim_text _ = none

unfoldable pub fact_claim_key : Fact → String
unfolding claim_text
fact_claim_key f = elim (claim_text (read f.payload "claim_key")) [
  | some key ↦ key
  | none ↦ elim (claim_text (read f.metadata "claim_key")) [ some key ↦ key | none ↦ "" ]
]
