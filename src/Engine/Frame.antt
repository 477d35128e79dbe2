-- ===== src/Engine/Frame.antt =====
-- What an engine's computations read: the status that a fact should have and the count of a set's
-- parents are the same after a write that they do not look at.
use velarix.Prelude.{
  ℕ, ◌+◌, String, ◌≡◌, inl, inr, refl, Bool, true, false, ◌||◌, Option, none, some, List, [], ◌∷◌,
  ◌++◌, ◌==◌, eq_iff, arith, contains, contains-cons, contains-append, Map, lookup, insert, has,
  lookup-insert, Bool-cases,
}
use mathlib.Core.Path.{subst}
use velarix.Env.{Env}
use velarix.Fact.{
  Fact, JustificationSet, Status, invalid, effective_assertion_kind, fact_source_type,
  fact_verification_status,
}
use velarix.Dependencies.{dependency_satisfied}
use velarix.Ids.{justification_set_id}
use velarix.Engine.{
  Engine, Listener, Tally, status_at, tally_parent, tally_parents, compute_parents, reevaluate,
}
use velarix.Engine.Propagation.{Support, support_from, support, resolve, recounted}

-- A fact with its two computed fields written.
abbrev pub written : Fact → Status → ℕ → Fact
written f d c = record f { derived_status = d; valid_justification_count = c }

-- A root or a retracted fact: its status does not come from justification sets.
abbrev pub is_external : Engine → Fact → Bool
is_external e f = has f.id e.retracted_facts || f.is_root

-- Of the child only its kind and its metadata are read.
pub record IsSameChild (child child' : Fact) : Type 0 where
  pub kind : child'.assertion_kind ≡ child.assertion_kind
  pub metadata : child'.metadata ≡ child.metadata

dependency_satisfied-child :
    (now : ℕ) (parent child child' : Fact) (s : Status) (negated : Bool)
    → IsSameChild child child'
    → dependency_satisfied now parent s negated child'
      ≡ dependency_satisfied now parent s negated child
unfolding dependency_satisfied effective_assertion_kind
dependency_satisfied-child now parent child child' s negated h = rw (h.kind, h.metadata)

tally_parent-child :
    (now : ℕ) (retracted : Map String) (child child' : Fact) (negated : Bool) (o : Option Fact)
    (t : Tally)
    → IsSameChild child child'
    → tally_parent now retracted child' negated o t ≡ tally_parent now retracted child negated o t
unfolding tally_parent
tally_parent-child now retracted child child' negated none t h = refl
tally_parent-child now retracted child child' negated (some p) t h =
    rw (dependency_satisfied-child now p child child' (status_at now retracted p) negated h)

tally_parents-child :
    (now : ℕ) (retracted : Map String) (facts : Map Fact) (child child' : Fact) (negated : Bool)
    (ps : List String) (t : Tally)
    → IsSameChild child child'
    → tally_parents now retracted facts child' negated ps t
      ≡ tally_parents now retracted facts child negated ps t
unfolding tally_parents
tally_parents-child now retracted facts child child' negated [] t h = refl
tally_parents-child now retracted facts child child' negated (p ∷ ps) t h =
    rw (tally_parent-child now retracted child child' negated (lookup p facts) t h) (
      tally_parents-child now retracted facts child child' negated ps
        (tally_parent now retracted child negated (lookup p facts) t) h)

-- Of a parent, what grounds a dependency is read, and its status.
pub record IsSameParent (now : ℕ) (retracted : Map String) (f g : Fact) : Type 0 where
  pub kind : g.assertion_kind ≡ f.assertion_kind
  pub metadata : g.metadata ≡ f.metadata
  pub asserted : g.asserted_at ≡ f.asserted_at
  pub status : status_at now retracted g ≡ status_at now retracted f

tally_parent-same :
    (now : ℕ) (retracted : Map String) (child f g : Fact) (negated : Bool) (t : Tally)
    → IsSameParent now retracted f g
    → tally_parent now retracted child negated (some g) t
      ≡ tally_parent now retracted child negated (some f) t
unfolding tally_parent dependency_satisfied effective_assertion_kind fact_source_type
    fact_verification_status
tally_parent-same now retracted child f g negated t h =
    rw (h.status, h.kind, h.metadata, h.asserted)

module _ (now : ℕ) (retracted : Map String) (facts : Map Fact) (child : Fact) (negated : Bool)
    (x : String) where
  -- A parent that grounds as before counts as before.
  tally_parents-same :
      (f g : Fact) (ps : List String) (t : Tally)
      → lookup x facts ≡ some f
      → IsSameParent now retracted f g
      → tally_parents now retracted (insert x g facts) child negated ps t
        ≡ tally_parents now retracted facts child negated ps t
  unfolding tally_parents
  tally_parents-same f g [] t there h = refl
  tally_parents-same f g (p ∷ ps) t there h =
      let same : tally_parent now retracted child negated (lookup p (insert x g facts)) t
          ≡ tally_parent now retracted child negated (lookup p facts) t =
        elim (Bool-cases (x == p)) [
          | inl e ↦
              rw
                (
                  lookup-insert x p g facts,
                  e,
                  subst (λ q. lookup q facts ≡ some f) ((eq_iff x p).0 e) there,
                )
                (tally_parent-same now retracted child f g negated t h)
          | inr e ↦ rw (lookup-insert x p g facts, e)
        ] in
      rw same (tally_parents-same f g ps _ there h)

  -- A fact that is no parent is not read.
  tally_parents-absent :
      (g : Fact) (ps : List String) (t : Tally)
      → contains ps x ≡ false
      → tally_parents now retracted (insert x g facts) child negated ps t
        ≡ tally_parents now retracted facts child negated ps t
  unfolding tally_parents
  tally_parents-absent g [] t no_parent = refl
  tally_parents-absent g (p ∷ ps) t no_parent =
      let same : lookup p (insert x g facts) ≡ lookup p facts =
        ground (arith, lookup-insert x p g facts, contains-cons p ps x, eq_iff x p, eq_iff p x) in
      rw same (tally_parents-absent g ps _ (ground (arith, contains-cons p ps x)))

-- The parents of a set, of both polarities.
abbrev pub parents : JustificationSet → List String
parents js = js.positive_parent_fact_ids ++ js.negative_parent_fact_ids

module _ (env : Env) (e : Engine) (js : JustificationSet) (child : Fact) where
  -- A set that is already counted counts the same again.
  pub reevaluate-reevaluate :
      (sets : Map JustificationSet)
      → reevaluate env (record e { justification_sets = sets }) (reevaluate env e js child) child
        ≡ reevaluate env e js child
  unfolding reevaluate compute_parents
  reevaluate-reevaluate sets = refl

  pub reevaluate-child :
      (child' : Fact)
      → IsSameChild child child'
      → reevaluate env e js child' ≡ reevaluate env e js child
  unfolding reevaluate compute_parents
  reevaluate-child child' h = rw (
    tally_parents-child env.now e.retracted_facts e.facts child child' false
        js.positive_parent_fact_ids (record { count = 0; least = 9007199254740992 }) h,
    tally_parents-child env.now e.retracted_facts e.facts child child' true
        js.negative_parent_fact_ids _ h,
  )

  pub reevaluate-same :
      (x : String) (f g : Fact)
      → lookup x e.facts ≡ some f
      → IsSameParent env.now e.retracted_facts f g
      → reevaluate env (record e { facts = insert x g e.facts }) js child
        ≡ reevaluate env e js child
  unfolding reevaluate compute_parents
  reevaluate-same x f g there h = rw (
    tally_parents-same env.now e.retracted_facts e.facts child false x f g
        js.positive_parent_fact_ids (record { count = 0; least = 9007199254740992 }) there h,
    tally_parents-same env.now e.retracted_facts e.facts child true x f g
        js.negative_parent_fact_ids _ there h,
  )

  pub reevaluate-absent :
      (x : String) (g : Fact)
      → contains (parents js) x ≡ false
      → reevaluate env (record e { facts = insert x g e.facts }) js child
        ≡ reevaluate env e js child
  unfolding reevaluate compute_parents
  reevaluate-absent x g no_parent =
      let apart = contains-append js.positive_parent_fact_ids js.negative_parent_fact_ids x in
      rw (
        tally_parents-absent env.now e.retracted_facts e.facts child false x g
            js.positive_parent_fact_ids (record { count = 0; least = 9007199254740992 })
            (ground (arith, apart)),
        tally_parents-absent env.now e.retracted_facts e.facts child true x g
            js.negative_parent_fact_ids _ (ground (arith, apart)),
      )

-- An external fact's status does not depend on the justification sets.
pub resolve-external :
    (e : Engine) (sets : Map JustificationSet) (f : Fact)
    → is_external e f ≡ true
    → resolve (record e { justification_sets = sets }) f ≡ resolve e f
unfolding resolve
resolve-external e sets f h = ground arith

support_from-eq :
    (sets sets' : Map JustificationSet) (id : String)
    → ((i : ℕ) → lookup (justification_set_id id i) sets' ≡ lookup (justification_set_id id i) sets)
    → (i : ℕ) (l : List (List String)) (s : Support)
    → support_from sets' id i l s ≡ support_from sets id i l s
unfolding support_from
support_from-eq sets sets' id h i [] s = refl
support_from-eq sets sets' id h i (_ ∷ l) s = rw (h i) (support_from-eq sets sets' id h (i + 1) l _)

-- A fact whose own sets are the same has the same status.
pub resolve-sets :
    (e : Engine) (sets : Map JustificationSet) (f : Fact)
    → ((i : ℕ)
        → lookup (justification_set_id f.id i) sets
          ≡ lookup (justification_set_id f.id i) e.justification_sets)
    → resolve (record e { justification_sets = sets }) f ≡ resolve e f
unfolding resolve support
resolve-sets e sets f h = rw (
    support_from-eq e.justification_sets sets f.id h 0 f.justification_sets
      (record { count = 0; best = invalid }))

-- The status that a fact should have does not depend on its computed fields or on other facts.
pub resolve-written :
    (e : Engine) (facts : Map Fact) (ls : List Listener) (f : Fact) (d : Status) (c : ℕ)
    → resolve (record e { facts = facts; listeners = ls }) (written f d c) ≡ resolve e f
unfolding resolve support
resolve-written e facts ls f d c = refl

pub recounted_lem :
    (e : Engine) (f : Fact)
    → recounted e f ≡ written f f.derived_status (recounted e f).valid_justification_count
unfolding recounted
recounted_lem e f = ground arith
