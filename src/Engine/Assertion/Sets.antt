-- ===== src/Engine/Assertion/Sets.antt =====
-- The loop of `initializeDerivedFactLocked` over the justification sets of a new fact.
use mathlib.Core.Path.{subst}
use velarix.Prelude.{
  ℕ, suc, ◌+◌, String, ◌≡◌, refl, sym, ◌∙◌, Bool, true, false, List, [], ◌∷◌, ◌++◌, ◌==◌, eqb,
  arith, if◌then◌else◌, contains, insert, has, lookup-insert, length, All,
}
use velarix.Env.{Env}
use velarix.Fact.{Fact, JustificationSet}
use velarix.Dependencies.{Split, ok, split_dependency_set}
use velarix.Ids.{justification_set_id}
use velarix.Engine.{Engine, reevaluate}
use velarix.Engine.Outcome.{done}
use velarix.Engine.Assertion.{blank_set, index_parents, add_set, add_sets}
use velarix.Engine.Assertion.Indexing.{index_parents-IsListing, IsListing, IsListing-append}
use velarix.Engine.Assertion.Building.{IsBuilding, IsBuilding-after}

-- The end of `add_set`, in front of the writes to the maps.
abbrev finished : Env → Engine → Fact → JustificationSet → Engine × Fact
finished env z f js =
    let js' = reevaluate env z js f in
    let f' =
      if eqb js'.current_valid_parents js'.target_valid_parents
      then record f { valid_justification_count = f.valid_justification_count + 1 }
      else f in
    (
      record z {
        facts = insert f.id f' z.facts;
        justification_sets = insert js.id js' z.justification_sets;
      },
      f',
    )

-- The parents of a set of the fact are other facts.
abbrev pub AreOthers : Engine → Fact → Split → Type 0
AreOthers e f s =
    (p : String)
    → contains (s.positive ++ s.negative) p ≡ true
    → (has p e.facts ≡ true) × ((f.id == p) ≡ false)

-- The fact is built up, under the same id, and no other fact is lost.
pub record IsBuilt (rank : String → ℕ) (top width : ℕ) (env : Env) (f : Fact) (e : Engine)
    (r : Engine × Fact) : Type 0 where
  pub building : IsBuilding rank top width env r.1 r.0
  pub same_id : r.1.id ≡ f.id
  pub keeps : (k : String) → has k e.facts ≡ true → has k r.0.facts ≡ true

has-insert :
    (e : Engine) (x k : String) (g : Fact)
    → has k e.facts ≡ true
    → has k (insert x g e.facts) ≡ true
has-insert e x k g h = ground (arith, lookup-insert x k g e.facts)

either_way : {A : Type 0} (P : A → Type 0) (c : Bool) (x y : A) → P x → P y → P (if c then x else y)
either_way P true x y on off = on
either_way P false x y on off = off

module _ (rank : String → ℕ) (top width : ℕ) (env : Env) (e C : Engine) (f : Fact) (index : ℕ)
    (s : Split) (b : IsBuilding rank top width env f e) (others : AreOthers e f s)
    (listing : IsListing e (justification_set_id f.id index) (s.positive ++ s.negative) C) where
  counted-IsBuilt :
      (n : ℕ)
      → IsBuilt rank top (suc width) env f e (
        record e {
          facts = insert f.id (record f { valid_justification_count = n }) e.facts;
          justification_sets =
              insert
                (justification_set_id f.id index)
                (reevaluate env e (blank_set f index s) f)
                e.justification_sets;
          children_index = C.children_index;
        },
        record f { valid_justification_count = n },
      )
  unfolding blank_set
  counted-IsBuilt n = record {
    building =
        IsBuilding-after rank top width env f e b index (blank_set f index s) n C refl refl others
          listing;
    same_id = refl;
    keeps = λ k h. has-insert e f.id k _ h;
  }

  finished-IsBuilt :
      IsBuilt rank top
        (suc width)
        env
        f
        e
        (finished env (record e { children_index = C.children_index }) f (blank_set f index s))
  unfolding blank_set reevaluate velarix.Engine.compute_parents
  finished-IsBuilt =
      either_way
        (λ g. IsBuilt rank top (suc width) env f e (
          record e {
            facts = insert f.id g e.facts;
            justification_sets =
                insert (justification_set_id f.id index) (reevaluate env e (blank_set f index s) f)
                  e.justification_sets;
            children_index = C.children_index;
          },
          g,
        ))
        (eqb (reevaluate env e (blank_set f index s) f).current_valid_parents
          (reevaluate env e (blank_set f index s) f).target_valid_parents)
        (record f { valid_justification_count = f.valid_justification_count + 1 }) f
        (counted-IsBuilt (f.valid_justification_count + 1))
        (counted-IsBuilt f.valid_justification_count)

module _ (rank : String → ℕ) (top : ℕ) (env : Env) where
  add_set-IsBuilt :
      (width : ℕ) (e : Engine) (f : Fact) (index : ℕ) (s : Split)
      → IsBuilding rank top width env f e
      → AreOthers e f s
      → IsBuilt rank top (suc width) env f e (add_set env e f index s)
  unfolding add_set
  add_set-IsBuilt width e f index s b others =
      let id = justification_set_id f.id index in
      let m = index_parents e id s.positive in
      let listing =
        IsListing-append e m (index_parents m id s.negative) id s.positive s.negative
          (index_parents-IsListing e id s.positive) (index_parents-IsListing m id s.negative) in
      subst (λ z. IsBuilt rank top (suc width) env f e (finished env z f (blank_set f index s)))
        (sym listing.others)
        (finished-IsBuilt rank top width env e (index_parents m id s.negative) f index s b others
          listing)

  -- A set splits, into parents that are other facts.
  abbrev pub IsFit : Engine → Fact → List String → Type 0
  IsFit e f set = (s : Split) × (split_dependency_set set ≡ ok s) × AreOthers e f s

  IsFit-after :
      (width : ℕ) (f : Fact) (e : Engine) (r : Engine × Fact) (set : List String)
      → IsBuilt rank top width env f e r
      → IsFit e f set
      → IsFit r.0 r.1 set
  IsFit-after width f e r set built (s, splits, others) =
      (s, splits, λ p h. (built.keeps p (others p h).0, rw built.same_id (others p h).1))

  All-after :
      (width : ℕ) (f : Fact) (e : Engine) (r : Engine × Fact) (sets : List (List String))
      → IsBuilt rank top width env f e r
      → All (IsFit e f) sets
      → All (IsFit r.0 r.1) sets
  All-after width f e r [] built h = tt
  All-after width f e r (set ∷ sets) built (one, more) =
      (IsFit-after width f e r set built one, All-after width f e r sets built more)

  add_sets-ok :
      (e : Engine) (f : Fact) (index : ℕ) (set : List String) (sets : List (List String))
      (s : Split)
      → split_dependency_set set ≡ ok s
      → add_sets env e f index (set ∷ sets)
        ≡ add_sets env (add_set env e f index s).0 (add_set env e f index s).1 (index + 1) sets
  unfolding add_sets
  add_sets-ok e f index set sets s splits = rw (splits, add_sets)

  -- The loop ends without an error when each set splits into other facts.
  pub add_sets_lem :
      (sets : List (List String)) (width : ℕ) (e : Engine) (f : Fact) (index : ℕ)
      → IsBuilding rank top width env f e
      → All (IsFit e f) sets
      → (e' : Engine) × (f' : Fact) × (add_sets env e f index sets ≡ (done, e'))
        × (f'.id ≡ f.id)
        × IsBuilding rank top (width + length sets) env f' e'
  unfolding add_sets
  add_sets_lem [] width e f index b fit =
      (e, f, refl, refl, subst (λ w. IsBuilding rank top w env f e) (omega arith) b)
  add_sets_lem (set ∷ sets) width e f index b ((s, splits, others), fit) =
      let built = add_set-IsBuilt width e f index s b others in
      let r = add_set env e f index s in
      let (e', f', ends, same, b') =
        add_sets_lem sets (suc width) r.0 r.1 (index + 1) built.building
          (All-after (suc width) f e r sets built fit) in
      (
        e',
        f',
        add_sets-ok e f index set sets s splits ∙ ends,
        same ∙ built.same_id,
        subst (λ w. IsBuilding rank top w env f' e') (omega arith) b',
      )
