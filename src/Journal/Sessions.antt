-- ===== src/Journal/Sessions.antt =====
-- The entries of other sessions do not touch a session.
use velarix.Prelude.{
  ℕ, suc, String, ◌≡◌, inl, inr, refl, sym, ◌∙◌, Bool, true, false, ◌||◌, Option, none, some, List,
  [], ◌∷◌, ◌==◌, Map, lookup, lookup-insert, Bool-cases, Option-cases,
}
use velarix.Env.{Env}
use velarix.Engine.{Engine}
use velarix.Journal.{
  JournalEntry, Replayed, Ending, replay_on, engine_of, replay_entry, next, replay_from, replayed,
  no_session, corrupt, refused, unfinished,
}

-- Whether a line holds an entry of the session.
unfoldable pub concerns : (String → Option JournalEntry) → String → String → Bool
concerns unmarshal session line = elim (unmarshal line) [
  | none ↦ false
  | some entry ↦ entry.session_id == session
]

unfoldable pub any_concerns : (String → Option JournalEntry) → String → List String → Bool
unfolding concerns
any_concerns unmarshal session [] = false
any_concerns unmarshal session (line ∷ lines) =
    concerns unmarshal session line || any_concerns unmarshal session lines

replay_entry-other :
    (env : Env) (engines : Map Engine) (entry : JournalEntry) (session : String)
    → (entry.session_id == session) ≡ false
    → lookup session (replay_entry env engines entry).1 ≡ lookup session engines
unfolding replay_entry
replay_entry-other env engines entry session other = elim (Bool-cases (entry.session_id == "")) [
  | inl orphan ↦ rw orphan
  | inr named ↦ rw (
    named,
    lookup-insert entry.session_id session
        (replay_on entry.kind env entry (engine_of engines entry.session_id)).1 engines,
    other,
  )
]

-- The engine of a session after the lines that follow.
next-other :
    (n : ℕ) (session : String) (o : Option Engine) (r : Replayed × Map Engine)
    (rest : Map Engine → Ending × Map Engine)
    → lookup session r.1 ≡ o
    → ((engines : Map Engine) → lookup session engines ≡ o → lookup session (rest engines).1 ≡ o)
    → lookup session (next n r rest).1 ≡ o
next-other n session o (replayed, engines) rest now later = later engines now
next-other n session o (no_session, engines) rest now later = now
next-other n session o (corrupt, engines) rest now later = now
next-other n session o (refused x, engines) rest now later = now
next-other n session o (unfinished, engines) rest now later = now

-- A line of other sessions, and those after it.
concerns-other :
    (unmarshal : String → Option JournalEntry) (session line : String) (entry : JournalEntry)
    → unmarshal line ≡ some entry
    → concerns unmarshal session line ≡ (entry.session_id == session)
unfolding concerns
concerns-other unmarshal session line entry reads = rw (reads, concerns) refl

or_none : (a b : Bool) → (a || b) ≡ false → (a ≡ false) × (b ≡ false)
or_none true b h = (h, cc)
or_none false b h = (refl, h)

-- A replay of lines that hold no entry of a session leaves the engine of the session as it is, however
-- the replay ends.
pub replay_from-other :
    (unmarshal : String → Option JournalEntry) (envs : ℕ → Env) (lines : List String) (n : ℕ)
    (engines : Map Engine) (session : String)
    → any_concerns unmarshal session lines ≡ false
    → lookup session (replay_from unmarshal envs n engines lines).1 ≡ lookup session engines
unfolding replay_from any_concerns
replay_from-other unmarshal envs [] n engines session none_of_them = refl
replay_from-other unmarshal envs (line ∷ lines) n engines session none_of_them =
    let (first, others) =
      or_none (concerns unmarshal session line) (any_concerns unmarshal session lines)
        none_of_them in
    elim (Option-cases (unmarshal line)) [
      | inl garbled ↦ rw (garbled, replay_from) refl
      | inr (entry, reads) ↦
          let other : (entry.session_id == session) ≡ false =
            sym (concerns-other unmarshal session line entry reads) ∙ first in
          rw (reads, replay_from)
            (next-other n session (lookup session engines) (replay_entry (envs n) engines entry) _
              (replay_entry-other (envs n) engines entry session other)
              (λ engines' same.
                replay_from-other unmarshal envs lines (suc n) engines' session others ∙ same))
    ]
