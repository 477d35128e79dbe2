-- ===== src/Consistency/Symmetric.antt =====
-- That two facts contradict each other does not depend on their order.
use velarix.Prelude.{ℕ, String, ◌≡◌, refl, Bool, List, [], ◌∷◌, ◌==◌, eq_iff, arith, codes_eq}
use velarix.Fact.{Fact}
use velarix.Consistency.{
  ClaimSignature, values_differ, same_topic, objects_differ, polarities_differ, conflict_of,
  contradiction, assertion_scope, extract_claim_signature,
}

eq_comm : (s t : String) → (s == t) ≡ (t == s)
eq_comm s t = ground (arith, eq_iff s t, eq_iff t s)

codes_eq_comm : (xs ys : List ℕ) → codes_eq xs ys ≡ codes_eq ys xs
unfolding codes_eq
codes_eq_comm [] [] = refl
codes_eq_comm [] (y ∷ ys) = refl
codes_eq_comm (x ∷ xs) [] = refl
codes_eq_comm (x ∷ xs) (y ∷ ys) = ground (arith, codes_eq_comm xs ys)

module _ (a b : ClaimSignature) where
  values_differ_comm : values_differ a b ≡ values_differ b a
  unfolding values_differ
  values_differ_comm = ground (
    arith,
    eq_iff a.claim_key b.claim_key,
    eq_iff b.claim_key a.claim_key,
    eq_comm a.claim_value b.claim_value,
  )

  same_topic_comm : same_topic a b ≡ same_topic b a
  unfolding same_topic
  same_topic_comm = ground (
    arith,
    eq_iff a.subject b.subject,
    eq_iff b.subject a.subject,
    eq_iff a.predicate b.predicate,
    eq_iff b.predicate a.predicate,
  )

  objects_differ_comm : objects_differ a b ≡ objects_differ b a
  unfolding objects_differ
  objects_differ_comm = ground (arith, same_topic_comm, eq_comm a.object b.object)

  polarities_differ_comm : polarities_differ a b ≡ polarities_differ b a
  unfolding polarities_differ
  polarities_differ_comm = ground (
    arith,
    same_topic_comm,
    eq_iff a.object b.object,
    eq_iff b.object a.object,
    codes_eq_comm a.polarity b.polarity,
  )

conflict_of_comm :
    (mismatch : Fact → Fact → Bool) (a b : Fact) (s t : ClaimSignature)
    → mismatch a b ≡ mismatch b a
    → conflict_of mismatch a b s t ≡ conflict_of mismatch b a t s
unfolding conflict_of
conflict_of_comm mismatch a b s t h =
    ground (arith, h, values_differ_comm s t, objects_differ_comm s t, polarities_differ_comm s t)

-- If the comparison by vectors does not depend on the order of two facts, neither does it whether
-- and how they contradict each other.
pub contradiction_comm :
    (mismatch : Fact → Fact → Bool) (a b : Fact)
    → mismatch a b ≡ mismatch b a
    → contradiction mismatch a b ≡ contradiction mismatch b a
unfolding contradiction
contradiction_comm mismatch a b h = ground (
  arith,
  eq_comm (assertion_scope a) (assertion_scope b),
  conflict_of_comm mismatch a b (extract_claim_signature a) (extract_claim_signature b) h,
)
