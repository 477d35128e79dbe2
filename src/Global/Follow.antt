-- ===== src/Global/Follow.antt =====
-- What the index holds of a session that has subscribed.
use velarix.Prelude.{
  String, ◌≡◌, inl, inr, false, ◌&&◌, some, ◌==◌, if◌then◌else◌, contains, insert, keys,
  Option-cases,
}
use velarix.Env.{Env}
use velarix.Engine.{Engine}
use velarix.Global.{
  GlobalTruth, members, rebuild_session_index, subscribe, replayed_to, replay_facts,
}
use velarix.Global.Listed.{refers, is_global, rebuild_session_index_lem}
use velarix.Global.Reached.{IsReached, IsReached-IsInverse}

-- In a store that the operations on global facts have led to from the empty one, after the
-- subscription of a session with a name and an engine, the session stands under an id exactly when
-- a token of a fact of the engine refers to it and it is a global fact; the other sessions stand
-- where they stood.
pub subscribe-dep_index :
    (env : Env) (g : GlobalTruth) (session : String) (e : Engine) (id s : String)
    → IsReached g
    → (session == "") ≡ false
    → contains (members (subscribe env g session (some e)).1.dep_index id) s ≡ (
        if session == s
        then refers e.facts id && is_global g.facts id
        else contains (members g.dep_index id) s)
unfolding subscribe replayed_to
subscribe-dep_index env g session e id s reached named =
    let g1 : GlobalTruth = record g { subscribers = insert session e g.subscribers } in
    let g2 = rebuild_session_index g1 session e in
    let rebuilt = rebuild_session_index_lem g1 session e id s (IsReached-IsInverse g reached) in
    elim (Option-cases (replay_facts env g2 (env.range 0 (keys g2.facts)) e)) [
      | inl endless ↦ rw (named, endless) rebuilt
      | inr (e', ends) ↦ rw (named, ends) rebuilt
    ]
