-- ===== src/Dependencies.antt =====
-- core/dependencies.go: what a dependency token denotes, how a justification set is split by
-- polarity, and when a parent satisfies a dependency.
pub mod Polarity
use velarix.Prelude.{
  ℕ, ◌-◌, ◌*◌, ◌%◌, String, Bool, true, false, not, ◌&&◌, ◌||◌, List, [], ◌∷◌, ◌++◌, ◌==◌, ℤ, pos,
  negsuc, ltb, leb, ltbℤ, if◌then◌else◌, trim_space, contains, equal_fold,
}
use Prim.Native.String.{◌++◌ as concat}
use Prim.Native.Char.{code}
use velarix.Prelude.{eqb}
use velarix.Value.{metadata_bool, map_string_slice, int64_from_metadata}
use velarix.Fact.{
  Fact, Status, invalid, valid, threshold, empirical, uncertain, hypothetical, fictional,
  effective_assertion_kind, fact_verification_status, fact_source_type, verified,
}

pub record DependencyRef : Type 0 where
  pub fact_id : String
  pub negated : Bool
  pub original : String

pub data TokenError : Type 0 where
  empty_token : TokenError
  missing_fact_id : String → TokenError

pub data Parsed {ℓ} (A : Type ℓ) : Type ℓ where
  ok : A → Parsed A
  err : TokenError → Parsed A

-- strings.HasPrefix(token, "!") and strings.TrimPrefix
unfoldable pub is_negated : String → Bool
is_negated String.[] = false
is_negated (String.◌∷◌ c s) = eqb (code c) b'!'

unfoldable pub trim_mark : String → String
trim_mark String.[] = String.[]
trim_mark (String.◌∷◌ c s) = if eqb (code c) b'!' then s else String.◌∷◌ c s

-- The text that is left when the mark of a negated token is gone.
unfoldable pub unmarked : String → String
unfolding is_negated trim_mark
unmarked token = if is_negated token then trim_space (trim_mark token) else token

-- ParseDependencyRef
unfoldable pub parse_dependency_ref : String → Parsed DependencyRef
unfolding unmarked
parse_dependency_ref raw =
    let token = trim_space raw in
    if token == ""
    then err empty_token
    else if unmarked token == ""
    then err (missing_fact_id raw)
    else ok (record { fact_id = unmarked token; negated = is_negated token; original = token })

unfoldable pub normalized : Parsed DependencyRef → Parsed String
normalized (ok r) = ok r.fact_id
normalized (err e) = err e

-- normalizeDependencyToken
unfoldable pub normalize_dependency_token : String → Parsed String
unfolding normalized parse_dependency_ref
normalize_dependency_token raw = normalized (parse_dependency_ref raw)

pub record Split : Type 0 where
  pub positive : List String
  pub negative : List String
  pub all : List String

-- The key under which a reference counts as seen.
unfoldable pub seen_key : DependencyRef → String
seen_key r = if r.negated then concat "!" r.fact_id else r.fact_id

-- One round of the loop of `splitDependencySet`.
unfoldable pub split_ref : DependencyRef → Split → Split
split_ref r s =
    if r.negated
    then record s { all = s.all ++ r.fact_id ∷ []; negative = s.negative ++ r.fact_id ∷ [] }
    else record s { all = s.all ++ r.fact_id ∷ []; positive = s.positive ++ r.fact_id ∷ [] }

unfoldable pub split_from : List String → List String → Split → Parsed Split
unfolding parse_dependency_ref seen_key split_ref
split_from [] seen s = ok s
split_from (raw ∷ rest) seen s = elim (parse_dependency_ref raw) [
  | err e ↦ err e
  | ok r ↦ elim (contains seen (seen_key r)) [
    | true ↦ split_from rest seen s
    | false ↦ split_from rest (seen_key r ∷ seen) (split_ref r s)
  ]
]

-- splitDependencySet
unfoldable pub split_dependency_set : List String → Parsed Split
unfolding split_from
split_dependency_set tokens =
    split_from tokens [] (record { positive = []; negative = []; all = [] })

-- dependencyConfidence
unfoldable pub dependency_confidence : Status → Bool → Status
dependency_confidence status negated =
    if not negated
    then status
    else if leb status invalid
    then valid
    else if leb valid status
    then invalid
    else valid - status

-- dependencyScopeSatisfied
unfoldable pub dependency_scope_satisfied : Fact → String → Bool
dependency_scope_satisfied parent child_scope =
    let parent_scope = effective_assertion_kind parent in
    not (
      (parent_scope == fictional || parent_scope == hypothetical)
      && (child_scope == empirical || child_scope == uncertain))

-- An int64 product.
unfoldable pub wrap64 : ℕ → ℤ
wrap64 n =
    let r = n % 18446744073709551616 in
    if ltb r 9223372036854775808 then pos r else negsuc (18446744073709551616 - r - 1)

-- `maxAgeSeconds > 0 && parent.AssertedAt > 0 && now-parent.AssertedAt > maxAgeSeconds*1000`
unfoldable pub is_too_old : ℕ → ℤ → ℤ → Bool
unfolding wrap64
is_too_old now (pos age) (pos asserted) =
    ltb 0 age
    && ltb 0 asserted
    && (if leb asserted now
        then ltbℤ (wrap64 (age * 1000)) (pos (now - asserted))
        else ltbℤ (wrap64 (age * 1000)) (negsuc (asserted - now - 1)))
is_too_old now _ _ = false

unfoldable pub allows : List String → String → Bool
allows [] source = false
allows (candidate ∷ rest) source = equal_fold candidate source || allows rest source

unfoldable pub source_allowed : List String → String → Bool
unfolding allows
source_allowed [] source = true
source_allowed (s ∷ ss) source = allows (s ∷ ss) source

-- dependencyGroundingSatisfied. Without metadata each of the three demands is void.
unfoldable pub dependency_grounding_satisfied : ℕ → Fact → Fact → Bool
unfolding source_allowed is_too_old
dependency_grounding_satisfied now parent child =
    source_allowed (map_string_slice child.metadata "grounding_allowed_source_types")
      (fact_source_type parent)
    && (not (metadata_bool child.metadata "grounding_require_verified")
        || fact_verification_status parent == verified)
    && not (
        is_too_old now (int64_from_metadata child.metadata "grounding_max_age_seconds")
          parent.asserted_at)

-- dependencySatisfied
unfoldable pub dependency_satisfied : ℕ → Fact → Status → Bool → Fact → Bool
unfolding dependency_scope_satisfied dependency_grounding_satisfied
dependency_satisfied now parent parent_status negated child =
    if negated
    then ltb parent_status threshold
    else dependency_scope_satisfied parent (effective_assertion_kind child)
      && dependency_grounding_satisfied now parent child
      && leb threshold parent_status
