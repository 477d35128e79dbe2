-- ===== src/Engine/Assertion.antt =====
-- `AssertFact` of core/engine.go and what it calls.
pub mod Indexing
pub mod Building
pub mod Sets
pub mod Known
pub mod Entered
pub mod Settles
pub mod Shapes
pub mod Registered
pub mod Accepted
use velarix.Prelude.{
  ℕ, ◌+◌, String, Bool, true, false, ◌&&◌, ◌||◌, not, Option, none, some, List, [], ◌∷◌, ltb, leb,
  eqb, if◌then◌else◌, lookup, insert, has, length, add, pos, eqbℤ,
}
use velarix.Env.{Env}
use velarix.Value.{Fields, obj, deep_equal, strs_eq}
use velarix.Fact.{Fact, JustificationSet, Status, invalid, threshold}
use velarix.Dependencies.{Split, ok, err, split_dependency_set, normalize_dependency_token}
use velarix.Cycles
use velarix.Cycles.{detect_cycle}
use velarix.Ids.{justification_set_id}
use velarix.Engine.{Engine, notify, add_child_index, reevaluate}
use velarix.Engine.Propagation.{propagate}
use velarix.Engine.Outcome.{
  Error, Outcome, nil_argument, different_content, no_justification, empty_set, memory_cap_exceeded,
  unknown_parent, bad_token, cycle, done, failed, out_of_fuel, settled,
}

-- `MaxFactsPerSession`
abbrev pub max_facts_per_session : ℕ
max_facts_per_session = 80000

unfoldable pub same_payload : Option Fields → Option Fields → Bool
same_payload none none = true
same_payload (some a) (some b) = deep_equal (obj a) (obj b)
same_payload _ _ = false

unfoldable pub same_sets : List (List String) → List (List String) → Bool
same_sets [] [] = true
same_sets (s ∷ ss) (t ∷ ts) = strs_eq s t && same_sets ss ts
same_sets _ _ = false

unfoldable pub same_content : Fact → Fact → Bool
unfolding same_payload same_sets
same_content old new =
    ((old.is_root && new.is_root) || (not old.is_root && not new.is_root))
    && eqb old.manual_status new.manual_status
    && same_payload old.payload new.payload
    && same_sets old.justification_sets new.justification_sets

pub data Validation : Type 0 where
  noop : Validation
  fresh : Validation
  refused : Error → Validation
  undecided : Validation

unfoldable pub check_tokens : Engine → List String → Validation → Validation
check_tokens e [] rest = rest
check_tokens e (token ∷ tokens) rest = elim (normalize_dependency_token token) [
  | err x ↦ refused (bad_token x)
  | ok parent_id ↦
      if has parent_id e.facts
      then check_tokens e tokens rest
      else refused (unknown_parent parent_id)
]

unfoldable pub check_sets : Engine → List (List String) → Validation → Validation
unfolding check_tokens
check_sets e [] rest = rest
check_sets e ([] ∷ sets) rest = refused empty_set
check_sets e ((token ∷ tokens) ∷ sets) rest =
    check_tokens e (token ∷ tokens) (check_sets e sets rest)

abbrev of_cycle_check : Cycles.CycleCheck → Validation
of_cycle_check Cycles.acyclic = fresh
of_cycle_check (Cycles.bad_token x) = refused (bad_token x)
of_cycle_check (Cycles.cycle path) = refused (cycle path)
of_cycle_check Cycles.undecided = undecided

unfoldable pub check_new : Env → Engine → Fact → Validation
unfolding check_sets
check_new env e f =
    if not f.is_root && eqb (length f.justification_sets) 0
    then refused no_justification
    else check_sets e f.justification_sets (of_cycle_check (detect_cycle env e f))

-- validateAssertFactLocked; its write to `AssertedAt` is `stamped`.
unfoldable pub validate_assert_fact : Env → Engine → Fact → Validation
unfolding check_new same_content
validate_assert_fact env e f =
    if leb max_facts_per_session (length e.facts)
    then refused memory_cap_exceeded
    else elim (lookup f.id e.facts) [
      | some existing ↦ if same_content existing f then noop else refused different_content
      | none ↦ check_new env e f
    ]

unfoldable pub stamped : Env → Fact → Fact
stamped env f = if eqbℤ f.asserted_at (pos 0) then record f { asserted_at = pos env.now } else f

-- registerFactLocked
unfoldable pub register_fact : Engine → Fact → Engine
register_fact e f = record e {
  facts = insert f.id f e.facts;
  dirty_dominators = true;
  mutation_count = e.mutation_count + 1;
}

-- The roots whose own status is below the threshold.
unfoldable pub collapse : Engine → String → Status → Engine
collapse e id status =
    if ltb status threshold then record e { collapsed_roots = add e.collapsed_roots id } else e

-- initializeRootFactLocked
unfoldable pub initialize_root_fact : Env → Engine → Fact → Outcome × Engine
unfolding collapse notify
initialize_root_fact env e f =
    let f' = record f { derived_status = f.manual_status } in
    let written = record e { facts = insert f.id f' e.facts } in
    let noted = notify env (collapse written f.id f.manual_status) f.id f.manual_status in
    settled noted (propagate env noted (f.id ∷ []))

-- The set as it stands before its parents are counted.
unfoldable pub blank_set : Fact → ℕ → Split → JustificationSet
blank_set f index s = record {
  id = justification_set_id f.id index;
  child_fact_id = f.id;
  parent_fact_ids = s.all;
  positive_parent_fact_ids = s.positive;
  negative_parent_fact_ids = s.negative;
  target_valid_parents = length s.positive + length s.negative;
  current_valid_parents = 0;
  confidence = invalid;
  idom = "";
}

-- `addChildIndexUnsafe` for each parent that is a fact.
unfoldable pub index_parents : Engine → String → List String → Engine
unfolding add_child_index
index_parents e set_id [] = e
index_parents e set_id (p ∷ ps) =
    index_parents (if has p e.facts then add_child_index e p set_id else e) set_id ps

-- newJustificationSetLocked, with the write of its result into the map of sets; the fact that it
-- justifies comes back with its count of valid sets.
unfoldable pub add_set : Env → Engine → Fact → ℕ → Split → Engine × Fact
unfolding blank_set index_parents reevaluate
add_set env e f index s =
    let js = blank_set f index s in
    let indexed = index_parents (index_parents e js.id s.positive) js.id s.negative in
    let js' = reevaluate env indexed js f in
    let f' =
      if eqb js'.current_valid_parents js'.target_valid_parents
      then record f { valid_justification_count = f.valid_justification_count + 1 }
      else f in
    (
      record indexed {
        facts = insert f.id f' indexed.facts;
        justification_sets = insert js.id js' indexed.justification_sets;
      },
      f',
    )

-- The loop of `initializeDerivedFactLocked`: the engine, and the error that ended the loop.
unfoldable pub add_sets : Env → Engine → Fact → ℕ → List (List String) → Outcome × Engine
unfolding add_set
add_sets env e f index [] = (done, e)
add_sets env e f index (set ∷ sets) = elim (split_dependency_set set) [
  | err x ↦ (failed (bad_token x), e)
  | ok s ↦ let (e', f') = add_set env e f index s in add_sets env e' f' (index + 1) sets
]

abbrev after_sets : Env → String → Outcome × Engine → Outcome × Engine
after_sets env id (done, e) = settled e (propagate env e (id ∷ []))
after_sets env id (failed x, e) = (failed x, e)
after_sets env id (out_of_fuel, e) = (out_of_fuel, e)

-- initializeDerivedFactLocked
unfoldable pub initialize_derived_fact : Env → Engine → Fact → Outcome × Engine
unfolding add_sets
initialize_derived_fact env e f =
    let f' = record f { derived_status = invalid; valid_justification_count = 0 } in
    after_sets env f.id
      (add_sets env (record e { facts = insert f.id f' e.facts }) f' 0 f.justification_sets)

unfoldable pub insert_fact : Env → Engine → Fact → Outcome × Engine
unfolding register_fact initialize_root_fact initialize_derived_fact
insert_fact env e f =
    if f.is_root
    then initialize_root_fact env (register_fact e f) f
    else initialize_derived_fact env (register_fact e f) f

-- AssertFact
unfoldable pub assert_fact : Env → Engine → Option Fact → Outcome × Engine
unfolding validate_assert_fact stamped insert_fact
assert_fact env e none = (failed nil_argument, e)
assert_fact env e (some f) = elim (validate_assert_fact env e f) [
  | noop ↦ (done, e)
  | refused x ↦ (failed x, e)
  | undecided ↦ (out_of_fuel, e)
  | fresh ↦ insert_fact env e (stamped env f)
]
