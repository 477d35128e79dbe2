-- ===== src/Engine/Stable.antt =====
-- The engine between two operations, and the end of an operation that looks at one fact.
use velarix.Prelude.{ℕ, ◌-◌, ◌≤◌, String, ◌≡◌, refl, Option, none, some, [], ◌∷◌, arith}
use velarix.Env.{Env}
use velarix.Fact.{Fact}
use velarix.Engine.{Engine}
use velarix.Engine.Propagation.{propagate}
use velarix.Engine.Kept.{IsKept, bare, propagate_from-IsKept}
use velarix.Engine.Frame.{written}
use velarix.Engine.Rounds.{weight, weight_mono, IsOrdered, load}
use velarix.Engine.Rounds.Ends.{propagate_from_returns}
use velarix.Engine.Settled.{IsLinked, IsSettled}
use velarix.Engine.Settled.Queue.{Progress, propagate_from-keeps, IsSettled-nil}

module _ (rank : String → ℕ) (top width : ℕ) (env : Env) where
  -- Linked and settled, with facts ordered so that children come after their parents.
  pub record IsStable (e : Engine) : Type 0 where
    pub linked : IsLinked e
    pub settled_now : IsSettled env e
    pub ordered : IsOrdered rank top width e

  -- Propagation from one fact ends in a stable engine, and keeps all that is not computed.
  pub propagate_settles :
      (m : Engine) (x : String)
      → weight width top ≤ env.fuel
      → Progress env (x ∷ []) m
      → IsOrdered rank top width m
      → (e' : Engine) × (propagate env m (x ∷ []) ≡ some e') × IsStable e' × IsKept m e'
  unfolding propagate load
  propagate_settles m x fuel progress ordered =
      let (e', ends, ordered') =
        propagate_from_returns rank top width env env.fuel m (x ∷ []) ordered
          (omega (arith, weight_mono width (top - rank x) top)) in
      let (linked, settling) = propagate_from-keeps env env.fuel m e' (x ∷ []) [] progress ends in
      (
        e',
        ends,
        record { linked = linked; settled_now = IsSettled-nil env e' settling; ordered = ordered' },
        propagate_from-IsKept env env.fuel m e' (x ∷ []) ends,
      )

pub bare-some :
    (o : Option Fact) (h : Fact)
    → bare o ≡ some (written h 0 0)
    → (g : Fact) × (o ≡ some g) × (written g 0 0 ≡ written h 0 0)
bare-some none h e = cc
bare-some (some g) h e = (g, refl, ground arith)
