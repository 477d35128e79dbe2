-- ===== src/Examples/Graph.antt =====
-- A small graph: the root "a", and the fact "b" whose one justification set holds "a".
use velarix.Prelude.{
  ℕ, suc, ◌+◌, ◌*◌, ◌≤◌, ◌<◌, String, ◌≡◌, ◌⊎◌, inl, inr, refl, sym, ap, ◌∙◌, Bool, true, false,
  Option, none, some, List, [], ◌∷◌, ◌==◌, eq_iff, eq_refl, arith, pos, lookup, has, contains,
  contains-nil, contains-cons, length, if◌then◌else◌, Bool-cases, Map,
}
use mathlib.Core.Path.{subst}
use velarix.Env.{Env}
use velarix.Fact.{Fact, JustificationSet, Status, valid}
use velarix.Ids.{justification_set_id}
use velarix.Ids.Injective.{justification_set_id_injective}
use velarix.Engine.{Engine, new_engine, children, reevaluate}
use velarix.Engine.Frame.{parents}
use velarix.Engine.Propagation.{resolve}
use velarix.Engine.Settled.{IsLinked, IsSettled}
use velarix.Engine.Rounds.{IsOrdered}
use velarix.Engine.Stable.{IsStable}

abbrev pub env : Env
env = record {
  now = 1000;
  fuel = 1000;
  range = λ n l. l;
  contains-range = λ n l k. refl;
  length-range = λ n l. refl;
}

abbrev pub root : String → Fact
root id = record {
  id = id;
  payload = none;
  metadata = none;
  is_root = true;
  manual_status = valid;
  entrenchment = pos 0;
  review_status = "";
  review_reason = "";
  reviewed_at = pos 0;
  valid_until = pos 0;
  asserted_at = pos 1000;
  assertion_kind = "";
  derived_status = 0;
  valid_justification_count = 0;
  justification_sets = [];
  idom = "";
  pre_order = 0;
  post_order = 0;
}

abbrev pub derived : String → List (List String) → Fact
derived id sets = record (root id) { is_root = false; manual_status = 0; justification_sets = sets }

abbrev pub a : Fact
a = record (root "a") { derived_status = valid }

abbrev pub b : Fact
b = record (derived "b" (("a" ∷ []) ∷ [])) { derived_status = valid; valid_justification_count = 1 }

abbrev pub b_set : JustificationSet
b_set = record {
  id = justification_set_id "b" 0;
  child_fact_id = "b";
  parent_fact_ids = "a" ∷ [];
  positive_parent_fact_ids = "a" ∷ [];
  negative_parent_fact_ids = [];
  target_valid_parents = 1;
  current_valid_parents = 1;
  confidence = valid;
  idom = "";
}

abbrev pub graph : Engine
graph = record new_engine {
  facts = ("a", a) ∷ ("b", b) ∷ [];
  justification_sets = (justification_set_id "b" 0, b_set) ∷ [];
  children_index = ("a", justification_set_id "b" 0 ∷ []) ∷ [];
  dirty_dominators = true;
  mutation_count = 2;
}

lookup_cases :
    {A : Type 0} (j k : String) (x y : A) (m : Map A)
    → lookup k ((j, x) ∷ m) ≡ some y
    → ((k ≡ j) × (y ≡ x)) ⊎ (lookup k m ≡ some y)
unfolding lookup
lookup_cases j k x y m h = elim (Bool-cases (j == k)) [
  | inl same ↦ inl (sym ((eq_iff j k).0 same), ground arith)
  | inr other ↦ inr (ground arith)
]

lookup_last :
    {A : Type 0} (j k : String) (x y : A) → lookup k ((j, x) ∷ []) ≡ some y → (k ≡ j) × (y ≡ x)
unfolding lookup
lookup_last j k x y h = elim (lookup_cases j k x y [] h) [ inl here ↦ here | inr none_left ↦ cc ]

pub fact_cases :
    (k : String) (f : Fact)
    → lookup k graph.facts ≡ some f
    → ((k ≡ "a") × (f ≡ a)) ⊎ ((k ≡ "b") × (f ≡ b))
fact_cases k f h = elim (lookup_cases "a" k a f (("b", b) ∷ []) h) [
  | inl here ↦ inl here
  | inr there ↦ inr (lookup_last "b" k b f there)
]

pub set_lem :
    (j : String) (js : JustificationSet)
    → lookup j graph.justification_sets ≡ some js
    → (j ≡ justification_set_id "b" 0) × (js ≡ b_set)
set_lem j js h = lookup_last (justification_set_id "b" 0) j b_set js h

pub has_iff : (k : String) → has k graph.facts ≡ true → (k ≡ "a") ⊎ (k ≡ "b")
unfolding lookup
has_iff k h = elim (Bool-cases ("a" == k)) [
  | inl same ↦ inl (sym ((eq_iff "a" k).0 same))
  | inr other ↦ inr (sym ((eq_iff "b" k).0 (ground arith)))
]

pub child_lem :
    (p j : String)
    → contains (children graph p) j ≡ true
    → (p ≡ "a") × (j ≡ justification_set_id "b" 0)
unfolding children lookup contains
child_lem p j h = elim (Bool-cases ("a" == p)) [
  | inr other ↦ cc (other, h)
  | inl same ↦
      (sym ((eq_iff "a" p).0 same), sym ((eq_iff (justification_set_id "b" 0) j).0 (ground arith)))
]

parent_iff : (p : String) → contains (parents b_set) p ≡ true → p ≡ "a"
unfolding contains
parent_iff p h = sym ((eq_iff "a" p).0 (ground arith))

listed_lem : contains (children graph "a") (justification_set_id "b" 0) ≡ true
unfolding children lookup contains
listed_lem = rw (eq_refl (justification_set_id "b" 0))

a_there : has "a" graph.facts ≡ true
unfolding lookup
a_there = refl

b_there : has "b" graph.facts ≡ true
unfolding lookup
b_there = refl

graph-IsLinked : IsLinked graph
graph-IsLinked = record {
  keyed = λ k f h. elim (fact_cases k f h) [
    | inl (at_k, same) ↦ ap (λ (z : Fact). z.id) same ∙ sym at_k
    | inr (at_k, same) ↦ ap (λ (z : Fact). z.id) same ∙ sym at_k
  ];
  owned = λ id i js h.
      let (at_j, same) = set_lem _ js h in
      ap (λ (z : JustificationSet). z.child_fact_id) same
      ∙ sym (justification_set_id_injective id "b" i 0 at_j).0;
  indexed = λ j js p f at_j at_p h.
      let (same_j, same) = set_lem j js at_j in
      let at_a = parent_iff p (subst (λ z. contains (parents z) p ≡ true) same h) in
      rw (at_a, same_j) listed_lem;
  childed = λ j js h. let (at_j, same) = set_lem j js h in rw same b_there;
  known = λ j js p at_j h.
      let (same_j, same) = set_lem j js at_j in
      let at_a = parent_iff p (subst (λ z. contains (parents z) p ≡ true) same h) in
      rw at_a a_there;
  listing = λ p j h. rw (child_lem p j h).0 a_there;
  targeted = λ j js h. let (at_j, same) = set_lem j js h in rw same refl;
}

b-resolves : b.derived_status ≡ resolve graph b
unfolding resolve lookup justification_set_id
b-resolves = refl

set-evaluates : reevaluate env graph b_set b ≡ b_set
unfolding reevaluate lookup velarix.Dependencies.dependency_satisfied
    velarix.Fact.effective_assertion_kind velarix.Prelude.trim_space velarix.Value.map_string_slice
    velarix.Value.metadata_bool velarix.Value.int64_from_metadata velarix.Engine.status_at
    velarix.Dependencies.dependency_confidence
set-evaluates = refl

child_eq : (child : Fact) → lookup "b" graph.facts ≡ some child → child ≡ b
unfolding lookup
child_eq child h = ground arith

set_settled :
    (child : Fact)
    → lookup b_set.child_fact_id graph.facts ≡ some child
    → reevaluate env graph b_set child ≡ b_set
set_settled child h = rw (child_eq child h) set-evaluates

graph-IsSettled : IsSettled env graph
graph-IsSettled = record {
  resolved = λ k f h. elim (fact_cases k f h) [
    | inl (at_k, same) ↦ rw same (unfold resolve lookup in refl)
    | inr (at_k, same) ↦ rw same b-resolves
  ];
  evaluated = λ j js child at_j at_c.
      let (same_j, same) = set_lem j js at_j in
      subst
        (λ z. lookup z.child_fact_id graph.facts ≡ some child → reevaluate env graph z child ≡ z)
        (sym same) (set_settled child) at_c;
}

abbrev pub rank : String → ℕ
rank k = if k == "b" then 1 else 0

rank_small : (k : String) → rank k ≤ 1
rank_small k = ground arith

children_short : (p : String) → length (children graph p) ≤ 1
unfolding children lookup
children_short p = ground arith

graph-IsOrdered : IsOrdered rank 1 1 graph
graph-IsOrdered = record {
  keyed = graph-IsLinked.keyed;
  rising = λ p j js listed at_j. rw ((set_lem j js at_j).1, (child_lem p j listed).0) (omega arith);
  below = λ k h. rank_small k;
  narrow = children_short;
}

pub graph-IsStable : IsStable rank 1 1 env graph
graph-IsStable = record {
  linked = graph-IsLinked;
  settled_now = graph-IsSettled;
  ordered = graph-IsOrdered;
}
