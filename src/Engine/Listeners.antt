-- ===== src/Engine/Listeners.antt =====
-- `Subscribe` and `Unsubscribe` of core/engine.go. A channel is a number that no listener has.
pub mod Independent
use velarix.Prelude.{
  ℕ, ◌+◌, Bool, true, false, Option, none, some, List, [], ◌∷◌, ◌++◌, eqb, if◌then◌else◌,
}
use velarix.Engine.{Engine, Listener}

-- Subscribe, for the channel that `make` gives
unfoldable pub subscribe : Engine → ℕ → Engine
subscribe e channel = record e {
  listeners = e.listeners ++ (record { channel = channel; buffer = [] }) ∷ [];
}

-- The first listener of the channel is taken off.
unfoldable pub without : ℕ → List Listener → List Listener
without channel [] = []
without channel (l ∷ ls) =
    let rest = without channel ls in if eqb l.channel channel then ls else l ∷ rest

-- Unsubscribe
unfoldable pub unsubscribe : Engine → ℕ → Engine
unfolding without
unsubscribe e channel = record e { listeners = without channel e.listeners }
