-- ===== src/Engine/Assertion/Known.antt =====
-- What the validation of a new fact says of the tokens of its justification sets, and what that
-- says of the sets when they are split.
use velarix.Prelude.{
  String, ◌≡◌, ◌⊎◌, inl, inr, refl, sym, ◌∙◌, true, false, ◌||◌, none, some, List, [], ◌∷◌, ◌++◌,
  ◌==◌, eq_iff, arith, leb, if◌then◌else◌, contains, contains-nil, contains-cons, contains-append,
  lookup, has, Bool-cases, Option-cases, All, length,
}
use velarix.Env.{Env}
use velarix.Fact.{Fact}
use velarix.Cycles.{detect_cycle}
use velarix.Dependencies.{
  DependencyRef, Parsed, ok, err, Split, TokenError, parse_dependency_ref,
  normalize_dependency_token, seen_key, split_ref, split_from, split_dependency_set,
}
use velarix.Engine.{Engine}
use velarix.Engine.Outcome.{bad_token, unknown_parent, memory_cap_exceeded, different_content}
use velarix.Engine.Assertion.{
  Validation, fresh, refused, noop, check_tokens, check_sets, check_new, validate_assert_fact,
  of_cycle_check, same_content, max_facts_per_session,
}

Parsed-cases {ℓ} :
    {A : Type ℓ} (p : Parsed A) → ((a : A) × (p ≡ ok a)) ⊎ ((x : TokenError) × (p ≡ err x))
Parsed-cases (ok a) = inl (a, refl)
Parsed-cases (err x) = inr (x, refl)

-- The token refers to a fact.
abbrev pub IsKnown : Engine → String → Type 0
IsKnown e token =
    (r : DependencyRef) × (parse_dependency_ref token ≡ ok r) × (has r.fact_id e.facts ≡ true)

module _ (e : Engine) (token : String) (tokens : List String) (rest : Validation) where
  tokens-err :
      (x : TokenError)
      → parse_dependency_ref token ≡ err x
      → check_tokens e (token ∷ tokens) rest ≡ refused (bad_token x)
  unfolding check_tokens normalize_dependency_token
  tokens-err x bad = rw (bad, check_tokens)

  tokens-ok :
      (r : DependencyRef)
      → parse_dependency_ref token ≡ ok r
      → check_tokens e (token ∷ tokens) rest ≡ (
          if has r.fact_id e.facts
          then check_tokens e tokens rest
          else refused (unknown_parent r.fact_id))
  unfolding check_tokens normalize_dependency_token
  tokens-ok r parsed = rw (parsed, check_tokens)

  token-cases :
      check_tokens e (token ∷ tokens) rest ≡ fresh
      → IsKnown e token × (check_tokens e tokens rest ≡ fresh)
  token-cases h = elim (Parsed-cases (parse_dependency_ref token)) [
    | inr (x, bad) ↦ cc (h, tokens-err x bad)
    | inl (r, parsed) ↦ elim (Bool-cases (has r.fact_id e.facts)) [
      | inr unknown ↦ ground (arith, tokens-ok r parsed)
      | inl there ↦ ((r, parsed, there), ground (arith, tokens-ok r parsed))
    ]
  ]

check_tokens-fresh :
    (e : Engine) (tokens : List String) (rest : Validation)
    → check_tokens e tokens rest ≡ fresh
    → All (IsKnown e) tokens × (rest ≡ fresh)
check_tokens-fresh e [] rest h = (tt, unfold check_tokens in h)
check_tokens-fresh e (token ∷ tokens) rest h =
    let (one, later) = token-cases e token tokens rest h in
    let (more, last) = check_tokens-fresh e tokens rest later in ((one, more), last)

check_sets-fresh :
    (e : Engine) (sets : List (List String)) (rest : Validation)
    → check_sets e sets rest ≡ fresh
    → All (All (IsKnown e)) sets
unfolding check_sets
check_sets-fresh e [] rest h = tt
check_sets-fresh e ([] ∷ sets) rest h = cc
check_sets-fresh e ((token ∷ tokens) ∷ sets) rest h =
    let (one, later) = check_tokens-fresh e (token ∷ tokens) (check_sets e sets rest) h in
    (one, check_sets-fresh e sets rest later)

-- A new fact is no fact yet, and its tokens refer to facts.
pub record IsNew (e : Engine) (f : Fact) : Type 0 where
  pub absent : lookup f.id e.facts ≡ none
  pub tokens : All (All (IsKnown e)) f.justification_sets

check_new-fresh :
    (env : Env) (e : Engine) (f : Fact)
    → check_new env e f ≡ fresh
    → All (All (IsKnown e)) f.justification_sets
unfolding check_new
check_new-fresh env e f h =
    check_sets-fresh e f.justification_sets (of_cycle_check (detect_cycle env e f)) (ground arith)

present_lem :
    (env : Env) (e : Engine) (f g : Fact)
    → lookup f.id e.facts ≡ some g
    → leb max_facts_per_session (length e.facts) ≡ false
    → validate_assert_fact env e f ≡ (if same_content g f then noop else refused different_content)
unfolding validate_assert_fact
present_lem env e f g there small = rw (small, there, validate_assert_fact)

absent_lem :
    (env : Env) (e : Engine) (f : Fact)
    → lookup f.id e.facts ≡ none
    → leb max_facts_per_session (length e.facts) ≡ false
    → validate_assert_fact env e f ≡ check_new env e f
unfolding validate_assert_fact
absent_lem env e f gone small = rw (small, gone, validate_assert_fact)

full_lem :
    (env : Env) (e : Engine) (f : Fact)
    → leb max_facts_per_session (length e.facts) ≡ true
    → validate_assert_fact env e f ≡ refused memory_cap_exceeded
unfolding validate_assert_fact
full_lem env e f full = rw (full, validate_assert_fact)

pub validate_assert_fact-IsNew :
    (env : Env) (e : Engine) (f : Fact) → validate_assert_fact env e f ≡ fresh → IsNew e f
validate_assert_fact-IsNew env e f h =
    elim (Bool-cases (leb max_facts_per_session (length e.facts))) [
      | inl full ↦ cc (h, full_lem env e f full)
      | inr small ↦ elim (Option-cases (lookup f.id e.facts)) [
        | inl gone ↦ record {
          absent = gone;
          tokens = check_new-fresh env e f (sym (absent_lem env e f gone small) ∙ h);
        }
        | inr (g, there) ↦ elim (Bool-cases (same_content g f)) [
          | inl same ↦ cc (h, present_lem env e f g there small, same)
          | inr other ↦ cc (h, present_lem env e f g there small, other)
        ]
      ]
    ]

-- The parents of a split are facts.
abbrev pub AreFacts : Engine → Split → Type 0
AreFacts e s = (p : String) → contains (s.positive ++ s.negative) p ≡ true → has p e.facts ≡ true

contains-split_ref :
    (r : DependencyRef) (s : Split) (p : String)
    → contains ((split_ref r s).positive ++ (split_ref r s).negative) p
      ≡ (r.fact_id == p || contains (s.positive ++ s.negative) p)
unfolding split_ref
contains-split_ref r s p = ground (
  arith,
  contains-append (s.positive ++ r.fact_id ∷ []) s.negative p,
  contains-append s.positive (r.fact_id ∷ []) p,
  contains-append s.positive (s.negative ++ r.fact_id ∷ []) p,
  contains-append s.negative (r.fact_id ∷ []) p,
  contains-append s.positive s.negative p,
  contains-cons r.fact_id [] p,
  contains-nil p,
)

split_ref-AreFacts :
    (e : Engine) (r : DependencyRef) (s : Split)
    → has r.fact_id e.facts ≡ true
    → AreFacts e s
    → AreFacts e (split_ref r s)
split_ref-AreFacts e r s there old p h = elim (Bool-cases (r.fact_id == p)) [
  | inl same ↦ rw (sym ((eq_iff r.fact_id p).0 same)) there
  | inr other ↦ old p (ground (arith, contains-split_ref r s p))
]

-- A set of known tokens splits, into parents that are facts.
split_from-AreFacts :
    (e : Engine) (tokens seen : List String) (s : Split)
    → All (IsKnown e) tokens
    → AreFacts e s
    → (s' : Split) × (split_from tokens seen s ≡ ok s') × AreFacts e s'
unfolding split_from
split_from-AreFacts e [] seen s known old = (s, refl, old)
split_from-AreFacts e (token ∷ tokens) seen s ((r, parsed, there), known) old =
    elim (Bool-cases (contains seen (seen_key r))) [
      | inl twice ↦
          let (s', ends, fine) = split_from-AreFacts e tokens seen s known old in
          (s', rw (parsed, twice, split_from) ends, fine)
      | inr first ↦
          let (s', ends, fine) =
            split_from-AreFacts e tokens (seen_key r ∷ seen) (split_ref r s) known
              (split_ref-AreFacts e r s there old) in
          (s', rw (parsed, first, split_from) ends, fine)
    ]

pub split_dependency_set-AreFacts :
    (e : Engine) (tokens : List String)
    → All (IsKnown e) tokens
    → (s : Split) × (split_dependency_set tokens ≡ ok s) × AreFacts e s
unfolding split_dependency_set
split_dependency_set-AreFacts e tokens known =
    split_from-AreFacts e tokens [] (record { positive = []; negative = []; all = [] }) known
      (λ p h. cc (h, contains-nil p))
