-- ===== src/Engine/Listeners/Independent.antt =====
-- A listener that comes and goes leaves the others as they are.
use velarix.Prelude.{
  ◌≡◌, refl, ap, ℕ, String, Bool, true, false, List, [], ◌∷◌, ◌++◌, arith, eqb, eq→eqb, map,
  if◌then◌else◌,
}
use velarix.Env.{Env}
use velarix.Fact.{Status}
use velarix.Engine.{Engine, Listener, ChangeEvent, offer, notify}
use velarix.Engine.Listeners.{subscribe, without, unsubscribe}

abbrev pub has_channel : ℕ → List Listener → Bool
has_channel c [] = false
has_channel c (l ∷ ls) = if eqb l.channel c then true else has_channel c ls

channel-offer : (event : ChangeEvent) (l : Listener) → (offer event l).channel ≡ l.channel
unfolding offer
channel-offer event l = ground arith

without-last :
    (event : ChangeEvent) (l : Listener) (ls : List Listener)
    → has_channel l.channel ls ≡ false
    → without l.channel (map (offer event) (ls ++ l ∷ [])) ≡ map (offer event) ls
unfolding without offer
without-last event l [] h = rw (channel-offer event l, eq→eqb l.channel l.channel refl)
without-last event l (m ∷ ls) h =
    let other : eqb m.channel l.channel ≡ false = ground arith in
    rw (channel-offer event m, other)
      (ap (◌∷◌ (offer event m)) (without-last event l ls (ground arith)))

-- A channel that no listener has is subscribed, an event is announced, and the channel is
-- unsubscribed: the engine is then the one in which the event was announced without that channel.
pub unsubscribe-notify :
    (env : Env) (e : Engine) (channel : ℕ) (fact_id : String) (status : Status)
    → has_channel channel e.listeners ≡ false
    → unsubscribe (notify env (subscribe e channel) fact_id status) channel
      ≡ notify env e fact_id status
unfolding unsubscribe notify subscribe
unsubscribe-notify env e channel fact_id status fresh =
    ap (λ (ls : List Listener). record e { listeners = ls })
      (without-last _ (record { channel = channel; buffer = [] }) e.listeners fresh)
