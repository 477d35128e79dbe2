-- ===== src/Engine/Settled/Queue.antt =====
-- The work queue as a whole: what `propagate` leaves is settled.
use mathlib.Core.Path.{subst}
use mathlib.Core.List.{append-nil}
use velarix.Prelude.{
  ℕ, zero, suc, String, ◌≡◌, inl, inr, refl, sym, ◌∙◌, Option, none, some, List, [], ◌∷◌, ◌++◌,
  eq_iff, arith, eqb, eqb→eq, contains, contains-nil, contains-cons, contains-append, lookup,
  Bool-cases, false≢true,
}
use velarix.Env.{Env}
use velarix.Fact.{Fact}
use velarix.Engine.{Engine, children}
use velarix.Engine.Propagation.{resolve, visit_fact, visit, propagate_from}
use velarix.Engine.Settled.Write
use velarix.Engine.Settled.{IsLinked, IsSettling, IsSettled, Awaits}
use velarix.Engine.Settled.Visit.{
  refresh_sets-keeps, visit_fact-same, visit_fact-changed, IsQuiet-same, IsQuiet-changed, count,
  told,
}

-- The links hold, and all but the work list is settled.
abbrev pub Progress : Env → List String → Engine → Type 0
Progress env work e = IsLinked e × IsSettling env e work []

-- The order of the work list does not matter.
Awaits-order :
    (e : Engine) (work work' : List String) (j : String)
    → ((k : String) → contains work' k ≡ contains work k)
    → Awaits e work j
    → Awaits e work' j
Awaits-order e work work' j same a = record {
  parent = a.parent;
  fact = a.fact;
  queued = same a.parent ∙ a.queued;
  listed = a.listed;
  present = a.present;
  external = a.external;
  stale = a.stale;
}

pub IsSettling-order :
    (env : Env) (e : Engine) (work work' : List String)
    → ((k : String) → contains work' k ≡ contains work k)
    → IsSettling env e work []
    → IsSettling env e work' []
IsSettling-order env e work work' same s = record {
  resolved = λ k f at_k idle. s.resolved k f at_k (sym (same k) ∙ idle);
  evaluated = λ j js c at_j its_c closed. elim (s.evaluated j js c at_j its_c closed) [
    | inl p ↦ inl p
    | inr a ↦ inr (Awaits-order e work work' j same a)
  ];
}

-- An id that is no fact's needs no work.
IsSettling-drop :
    (env : Env) (e : Engine) (x : String) (work : List String)
    → lookup x e.facts ≡ none
    → IsSettling env e (x ∷ work) []
    → IsSettling env e work []
IsSettling-drop env e x work gone s = record {
  resolved =
      λ k f at_k idle. s.resolved k f at_k (ground (arith, contains-cons x work k, eq_iff x k));
  evaluated = λ j js c at_j its_c closed. elim (s.evaluated j js c at_j its_c closed) [
    | inl p ↦ inl p
    | inr a ↦ inr (record {
      parent = a.parent;
      fact = a.fact;
      queued =
          ground (arith, contains-cons x work a.parent, eq_iff x a.parent, a.queued, a.present);
      listed = a.listed;
      present = a.present;
      external = a.external;
      stale = a.stale;
    })
  ];
}

module _ (env : Env) (n : ℕ) (x : String) (work : List String) (e : Engine) where
  visit_fact-keeps :
      (o : Option Fact)
      → lookup x e.facts ≡ o
      → Progress env (x ∷ work) e
      → Progress env (work ++ (visit_fact env n e x o).1) (visit_fact env n e x o).0
  unfolding visit_fact
  visit_fact-keeps none gone (linked, s) =
      (linked, rw (append-nil work) (IsSettling-drop env e x work gone s))
  visit_fact-keeps (some f) there (linked, s) =
      elim (Bool-cases (eqb (resolve e f) f.derived_status)) [
        | inl same ↦ rw (visit_fact-same env n e x f same) (
          Write.IsLinked-after env e x f f.derived_status (count env n e x f) e.listeners there
              linked,
          rw (append-nil work) (
              Write.IsSettling-after env e x f f.derived_status (count env n e x f) e.listeners
                there work [] (sym (eqb→eq _ _ same))
                (IsQuiet-same env e x f (count env n e x f) e.listeners there
                  (sym (eqb→eq _ _ same)))
                s),
        )
        | inr changed ↦ rw (visit_fact-changed env n e x f changed) (
            refresh_sets-keeps env (env.range n (children e x)) work _
              (Write.IsLinked-after env e x f (resolve e f) (count env n e x f) (told env e f) there
                linked)
              (Write.IsSettling-after env e x f (resolve e f) (count env n e x f) (told env e f)
                there work (env.range n (children e x)) refl
                (IsQuiet-changed env e x f (count env n e x f) (told env e f) there n linked) s))
      ]

  visit-keeps :
      Progress env (x ∷ work) e → Progress env (work ++ (visit env n e x).1) (visit env n e x).0
  unfolding visit
  visit-keeps = visit_fact-keeps (lookup x e.facts) refl

-- Where only the facts of the queue and of `pending` may have a status that is not resolved, and
-- each set that is not evaluated waits for one of them, a call of `propagate` that empties the
-- queue leaves only the facts of `pending` in that state. It keeps the engine linked.
pub propagate_from-keeps :
    (env : Env) (n : ℕ) (e e' : Engine) (queue pending : List String)
    → Progress env (queue ++ pending) e
    → propagate_from env n e queue ≡ some e'
    → Progress env pending e'
unfolding propagate_from
propagate_from-keeps env zero e e' [] pending p h = subst (Progress env pending) (ground arith) p
propagate_from-keeps env (suc n) e e' [] pending p h = subst (Progress env pending) (ground arith) p
propagate_from-keeps env zero e e' (x ∷ queue) pending p h = cc
propagate_from-keeps env (suc n) e e' (x ∷ queue) pending p h =
    let next = visit-keeps env n x (queue ++ pending) e p in
    let more = (visit env n e x).1 in
    propagate_from-keeps env n (visit env n e x).0 e' (queue ++ more) pending
      (
        next.0,
        IsSettling-order env _ ((queue ++ pending) ++ more) ((queue ++ more) ++ pending)
            (λ k. ground (
              arith,
              contains-append (queue ++ pending) more k,
              contains-append (queue ++ more) pending k,
              contains-append queue pending k,
              contains-append queue more k,
            ))
            next.1,
      )
      h

-- With nothing on the work list the engine is settled.
pub IsSettled-nil : (env : Env) (e : Engine) → IsSettling env e [] [] → IsSettled env e
IsSettled-nil env e s = record {
  resolved = λ k f at_k. s.resolved k f at_k (contains-nil k);
  evaluated = λ j js c at_j its_c. elim (s.evaluated j js c at_j its_c (contains-nil j)) [
    | inl p ↦ p
    | inr a ↦ absurd (false≢true (sym (contains-nil a.parent) ∙ a.queued))
  ];
}
