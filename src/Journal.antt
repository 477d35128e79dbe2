-- ===== src/Journal.antt =====
-- store/journal.go: the entries of the journal, and their replay on the engines of the sessions.
-- A line is read by encoding/json, which is a parameter; the messages of the log are left out.
pub mod Sessions
use velarix.Prelude.{
  ℕ, zero, suc, String, Bool, Option, none, some, List, [], ◌∷◌, ◌==◌, ℤ, pos, ltb, ltbℤ, quot,
  if◌then◌else◌, Map, lookup, insert,
}
use velarix.Env.{Env}
use velarix.Value.{Value, Fields, float, str, read}
use velarix.Fact.{Fact, Status}
use velarix.Engine.{Engine, new_engine}
use velarix.Engine.Outcome.{Outcome, Error, done, failed, out_of_fuel}
use velarix.Engine.Assertion.{assert_fact}
use velarix.Engine.Operations.{invalidate_root, set_root_confidence, retract_fact}
use velarix.Engine.Governance.{set_fact_review}
use velarix.Engine.Verification.{Check, set_fact_verification}

pub data EventType : Type 0 where
  asserted invalidated retracted reviewed cycle_violation snapshot_corruption : EventType
  confidence_adjusted revalidation_complete admin_action decision_record : EventType
  fact_expired fact_verification : EventType
  unknown : String → EventType

pub record JournalEntry : Type 0 where
  pub kind : EventType
  pub session_id : String
  pub actor_id : String
  pub fact : Option Fact
  pub fact_id : String
  pub payload : Option Fields
  pub timestamp : ℤ

abbrev blank_entry : EventType → String → ℕ → JournalEntry
blank_entry kind session_id now = record {
  kind = kind;
  session_id = session_id;
  actor_id = "";
  fact = none;
  fact_id = "";
  payload = none;
  timestamp = pos now;
}

-- AppendAssert: the entry that it writes
abbrev pub append_assert : ℕ → String → Fact → JournalEntry
append_assert now session_id f = record (blank_entry asserted session_id now) { fact = some f }

-- AppendInvalidate: the entry that it writes
abbrev pub append_invalidate : ℕ → String → String → JournalEntry
append_invalidate now session_id fact_id = record (blank_entry invalidated session_id now) {
  fact_id = fact_id;
}

unfoldable pub string_value : Option Value → String
string_value (some (str s)) = s
string_value _ = ""

-- payloadString
unfoldable pub payload_string : Option Fields → String → String
unfolding string_value read
payload_string payload key = string_value (read payload key)

unfoldable pub float_value : Option Value → Option ℤ
float_value (some (float f)) = some f
float_value _ = none

-- payloadFloat64: a number of units of 2 ^ -53
unfoldable pub payload_float64 : Option Fields → String → Option ℤ
unfolding float_value read
payload_float64 payload key = float_value (read payload key)

-- payloadInt64FromFloat
unfoldable pub payload_int64_from_float : Option Fields → String → Option ℤ
unfolding payload_float64
payload_int64_from_float payload key = elim (payload_float64 payload key) [
  | none ↦ none
  | some f ↦ some (quot f 9007199254740992)
]

-- The id of an entry, or else that of its fact.
unfoldable pub entry_fact_id : JournalEntry → String
entry_fact_id entry = elim (entry.fact) [
  | none ↦ entry.fact_id
  | some f ↦ if entry.fact_id == "" then f.id else entry.fact_id
]

-- What replaying an entry comes to.
pub data Replayed : Type 0 where
  replayed : Replayed
  no_session : Replayed
  corrupt : Replayed
  refused : Error → Replayed
  unfinished : Replayed

-- An operation whose error ends the replay.
abbrev pub strict : Outcome × Engine → Replayed × Engine
strict (done, e) = (replayed, e)
strict (failed x, e) = (refused x, e)
strict (out_of_fuel, e) = (unfinished, e)

-- An operation whose error is only logged.
abbrev pub lenient : Outcome × Engine → Replayed × Engine
lenient (done, e) = (replayed, e)
lenient (failed x, e) = (replayed, e)
lenient (out_of_fuel, e) = (unfinished, e)

unfoldable pub replay_review : Env → JournalEntry → Engine → Replayed × Engine
unfolding payload_string payload_int64_from_float
replay_review env entry e =
    let at : ℤ = elim (payload_int64_from_float entry.payload "reviewed_at") [
      | none ↦ entry.timestamp
      | some v ↦ v
    ] in
    strict (
      set_fact_review env e entry.fact_id (payload_string entry.payload "status")
        (payload_string entry.payload "reason") at)

-- Only a positive confidence is applied.
unfoldable pub adjust : Env → Engine → String → Option ℤ → Replayed × Engine
adjust env e id (some (pos c)) =
    if id == ""
    then (replayed, e)
    else if ltb 0 c
    then lenient (set_root_confidence env e id c)
    else (replayed, e)
adjust env e id _ = (replayed, e)

unfoldable pub replay_verification : Env → JournalEntry → Engine → Replayed × Engine
unfolding payload_string payload_int64_from_float entry_fact_id
replay_verification env entry e =
    let at : ℤ = elim (payload_int64_from_float entry.payload "verified_at") [
      | none ↦ entry.timestamp
      | some v ↦ if ltbℤ (pos 0) v then v else entry.timestamp
    ] in
    if entry_fact_id entry == ""
    then (replayed, e)
    else lenient (
        set_fact_verification env e (entry_fact_id entry) (payload_string entry.payload "status")
          (record {
            method = payload_string entry.payload "method";
            source_ref = payload_string entry.payload "source_ref";
            reason = payload_string entry.payload "reason";
            verified_at = at;
          }))

-- The `switch` of `replayEntry`.
unfoldable pub replay_on : EventType → Env → JournalEntry → Engine → Replayed × Engine
unfolding replay_review adjust replay_verification payload_float64 payload_string entry_fact_id
replay_on asserted env entry e = strict (assert_fact env e entry.fact)
replay_on invalidated env entry e = strict (invalidate_root env e entry.fact_id)
replay_on retracted env entry e =
    strict (retract_fact env e entry.fact_id (payload_string entry.payload "reason"))
replay_on reviewed env entry e = replay_review env entry e
replay_on cycle_violation env entry e = (replayed, e)
replay_on snapshot_corruption env entry e = (replayed, e)
replay_on confidence_adjusted env entry e =
    adjust env e (entry_fact_id entry) (payload_float64 entry.payload "confidence")
replay_on revalidation_complete env entry e = (replayed, e)
replay_on admin_action env entry e = (replayed, e)
replay_on decision_record env entry e = (replayed, e)
replay_on fact_expired env entry e =
    if entry_fact_id entry == ""
    then (replayed, e)
    else lenient (retract_fact env e (entry_fact_id entry) "expired")
replay_on fact_verification env entry e = replay_verification env entry e
replay_on (unknown name) env entry e = (replayed, e)

-- The engine of a session, made on its first entry.
unfoldable pub engine_of : Map Engine → String → Engine
engine_of engines session_id = elim (lookup session_id engines) [ none ↦ new_engine | some e ↦ e ]

-- replayEntry
unfoldable pub replay_entry : Env → Map Engine → JournalEntry → Replayed × Map Engine
unfolding replay_on engine_of
replay_entry env engines entry =
    let (r, e) = replay_on entry.kind env entry (engine_of engines entry.session_id) in
    if entry.session_id == "" then (no_session, engines) else (r, insert entry.session_id e engines)

-- Where a replay has ended: after the last line, or at a line that failed.
pub data Ending : Type 0 where
  complete : Ending
  stopped : ℕ → Replayed → Ending

-- The next line is read if this one was replayed.
abbrev pub next :
    ℕ → Replayed × Map Engine → (Map Engine → Ending × Map Engine) → Ending × Map Engine
next n (replayed, engines) rest = rest engines
next n (no_session, engines) rest = (stopped n no_session, engines)
next n (corrupt, engines) rest = (stopped n corrupt, engines)
next n (refused x, engines) rest = (stopped n (refused x), engines)
next n (unfinished, engines) rest = (stopped n unfinished, engines)

-- Replay, from the line `n` on. Each line reads the clock anew.
unfoldable pub replay_from :
    (String → Option JournalEntry) → (ℕ → Env) → ℕ → Map Engine → List String → Ending × Map Engine
unfolding replay_entry
replay_from unmarshal envs n engines [] = (complete, engines)
replay_from unmarshal envs n engines (line ∷ lines) = elim (unmarshal line) [
  | none ↦ (stopped n corrupt, engines)
  | some entry ↦
      next n (replay_entry (envs n) engines entry)
        (λ engines'. replay_from unmarshal envs (suc n) engines' lines)
]

-- Replay of the lines of a file
unfoldable pub replay :
    (String → Option JournalEntry) → (ℕ → Env) → Map Engine → List String → Ending × Map Engine
unfolding replay_from
replay unmarshal envs engines lines = replay_from unmarshal envs 1 engines lines
