-- ===== src/Dependencies/Polarity.antt =====
-- The two polarities of a dependency, and what a parent must meet to satisfy one.
use velarix.Prelude.{
  ◌+◌, ◌*◌, ◌∙◌, ap, refl, List, [], ◌∷◌, ℤ, pos, negsuc, contains, contains-cons, contains-nil,
  equal_fold, ℕ, ◌≤◌, ◌<◌, String, true, false, not, ◌&&◌, ◌||◌, ◌≡◌, ◌≢◌, ◌↔◌, ◌⊎◌, inl, inr,
  arith, Bool-cases, eq_iff, ◌==◌,
}
use velarix.Fact.{
  Fact, Status, threshold, empirical, uncertain, hypothetical, fictional, effective_assertion_kind,
  fact_verification_status, verified,
}
use velarix.Value.{metadata_bool, map_string_slice, int64_from_metadata}
use velarix.Fact.{fact_source_type}
use velarix.Dependencies.{dependency_satisfied, source_allowed, allows, is_too_old, wrap64}

-- A source is among those that a child allows, whatever the case of their letters, or the child
-- allows all.
abbrev pub IsAllowed : List String → String → Type 0
IsAllowed sources source =
    (sources ≡ []) ⊎ ((s : String) × (contains sources s ≡ true) × (equal_fold s source ≡ true))

-- The parent was asserted at most `age` seconds ago. No positive age, or no time, asks for nothing.
abbrev pub IsFresh : ℕ → ℤ → ℤ → Type 0
IsFresh now (pos age) (pos asserted) = (age ≡ 0) ⊎ (asserted ≡ 0) ⊎ (now ≤ asserted + age * 1000)
IsFresh now _ _ = Unit

-- The age in milliseconds is an int64.
abbrev pub IsShort : ℤ → Type 0
IsShort (pos age) = age * 1000 < 9223372036854775808
IsShort (negsuc _) = Unit

-- What a parent must meet to ground a child positively.
pub record Grounds (now : ℕ) (parent : Fact) (status : Status) (child : Fact) : Type 0 where
  pub reaches : threshold ≤ status
  -- a fictional or hypothetical parent grounds no empirical or uncertain child
  pub scope :
      (effective_assertion_kind parent ≡ fictional)
        ⊎ (effective_assertion_kind parent ≡ hypothetical)
      → (effective_assertion_kind child ≢ empirical) × (effective_assertion_kind child ≢ uncertain)
  pub source :
      IsAllowed
        (map_string_slice child.metadata "grounding_allowed_source_types")
        (fact_source_type parent)
  pub verification :
      metadata_bool child.metadata "grounding_require_verified" ≡ true
      → fact_verification_status parent ≡ verified
  pub age :
      IsFresh now
        (int64_from_metadata child.metadata "grounding_max_age_seconds")
        parent.asserted_at

allows_find :
    (sources : List String) (source : String)
    → allows sources source ≡ true
    → (s : String) × (contains sources s ≡ true) × (equal_fold s source ≡ true)
unfolding allows
allows_find [] source h = cc
allows_find (c ∷ sources) source h = elim (Bool-cases (equal_fold c source)) [
  | inl same ↦ (c, ground (arith, contains-cons c sources c, eq_iff c c), same)
  | inr other ↦
      let (s, among, same) = allows_find sources source (ground (arith, h, other)) in
      (s, ground (arith, contains-cons c sources s, among), same)
]

allows_member :
    (sources : List String) (source s : String)
    → contains sources s ≡ true
    → equal_fold s source ≡ true
    → allows sources source ≡ true
unfolding allows
allows_member [] source s among same = cc (among, contains-nil s)
allows_member (c ∷ sources) source s among same = elim (Bool-cases (c == s)) [
  | inl is ↦
      let here : equal_fold c source ≡ true =
        ap (λ x. equal_fold x source) ((eq_iff c s).0 is) ∙ same in
      ground (arith, here)
  | inr other ↦ ground (
    arith,
    allows_member sources source s (ground (arith, among, other, contains-cons c sources s)) same,
  )
]

source_allowed_iff :
    (sources : List String) (source : String)
    → (source_allowed sources source ≡ true) ↔ IsAllowed sources source
unfolding source_allowed
source_allowed_iff [] source = (λ h. inl refl, λ h. refl)
source_allowed_iff (c ∷ sources) source = (
  λ h. inr (allows_find (c ∷ sources) source h),
  λ h. elim h [
    | inl empty ↦ cc
    | inr (s, among, same) ↦ allows_member (c ∷ sources) source s among same
  ],
)

wrap64_small : (n : ℕ) → n < 9223372036854775808 → wrap64 n ≡ pos n
unfolding wrap64
wrap64_small n small = ground arith

is_too_old_iff :
    (now : ℕ) (age asserted : ℤ)
    → IsShort age
    → (is_too_old now age asserted ≡ false) ↔ IsFresh now age asserted
unfolding is_too_old
is_too_old_iff now (pos age) (pos asserted) short = (
  λ h. ground (arith, wrap64_small (age * 1000) short),
  λ h. ground (arith, wrap64_small (age * 1000) short),
)
is_too_old_iff now (pos age) (negsuc n) short = (λ h. tt, λ h. refl)
is_too_old_iff now (negsuc n) asserted short = (λ h. tt, λ h. refl)

either : (p a b : String) → ((p == a || p == b) ≡ true) ↔ ((p ≡ a) ⊎ (p ≡ b))
either p a b =
    (λ h. ground (arith, eq_iff p a, eq_iff p b), λ h. ground (arith, eq_iff p a, eq_iff p b))

scope_iff :
    (p c : String)
    → (not ((p == fictional || p == hypothetical) && (c == empirical || c == uncertain)) ≡ true)
      ↔ ((p ≡ fictional) ⊎ (p ≡ hypothetical) → (c ≢ empirical) × (c ≢ uncertain))
scope_iff p c = (
  λ h kinds. (
    λ e.
        let real = (either c empirical uncertain).1 (inl e) in
        let unreal = (either p fictional hypothetical).1 kinds in ground arith,
    λ e.
        let real = (either c empirical uncertain).1 (inr e) in
        let unreal = (either p fictional hypothetical).1 kinds in ground arith,
  ),
  λ h. elim (Bool-cases (p == fictional || p == hypothetical)) [
    | inr other ↦ rw other
    | inl unreal ↦ elim (Bool-cases (c == empirical || c == uncertain)) [
      | inr other ↦ ground arith
      | inl real ↦
          let (a, b) = h ((either p fictional hypothetical).0 unreal) in
          elim ((either c empirical uncertain).0 real) [
            | inl e ↦ absurd (a e)
            | inr e ↦ absurd (b e)
          ]
    ]
  ],
)

-- If the age that the child demands is an int64 in milliseconds too, a parent satisfies a positive
-- dependency exactly when it reaches the threshold, is no fictional or hypothetical ground of an
-- empirical or uncertain child, comes from one of the sources that the child allows, if it lists
-- any, is verified if the child demands it, and, if the child demands a positive age and the
-- parent has a positive time of assertion, was asserted at most that long ago. It satisfies a
-- negated one exactly when it is below the threshold.
pub dependency_satisfied_iff :
    (now : ℕ) (parent : Fact) (status : Status) (child : Fact)
    → IsShort (int64_from_metadata child.metadata "grounding_max_age_seconds")
    → ((dependency_satisfied now parent status false child ≡ true)
        ↔ Grounds now parent status child)
      × ((dependency_satisfied now parent status true child ≡ true) ↔ (status < threshold))
unfolding dependency_satisfied
dependency_satisfied_iff now parent status child short =
    let sources = map_string_slice child.metadata "grounding_allowed_source_types" in
    let age = int64_from_metadata child.metadata "grounding_max_age_seconds" in
    let allowed = source_allowed_iff sources (fact_source_type parent) in
    let fresh = is_too_old_iff now age parent.asserted_at short in
    let scope = scope_iff (effective_assertion_kind parent) (effective_assertion_kind child) in
    (
      (
        λ h. record {
          reaches = ground arith;
          scope = scope.0 (ground arith);
          source = allowed.0 (ground arith);
          verification = λ v. ground (arith, eq_iff (fact_verification_status parent) verified);
          age = fresh.0 (ground arith);
        },
        λ g.
            let in_scope = scope.1 g.scope in
            let from_allowed = allowed.1 g.source in
            let is_fresh = fresh.1 g.age in
            elim (Bool-cases (metadata_bool child.metadata "grounding_require_verified")) [
              | inr free ↦ ground (arith, g.reaches, in_scope, from_allowed, is_fresh)
              | inl bound ↦
                  let checked =
                    (eq_iff (fact_verification_status parent) verified).1 (g.verification bound) in
                  ground (arith, g.reaches, in_scope, from_allowed, is_fresh)
            ],
      ),
      (λ h. ground arith, λ h. ground arith),
    )
