-- ===== src/Engine/Snapshot/Restored.antt =====
-- What `FromSnapshot` leaves: the state that was saved, or the engine as it was.
use mathlib.Core.Path.{subst}
use velarix.Prelude.{
  ℕ, ◌≤◌, ◌<◌, String, ◌≡◌, ◌≢◌, ◌⊎◌, inl, inr, refl, sym, ap, ◌∙◌, true, false, Option, none, some,
  List, arith, ltb, eqb, eqb→eq, eq→eqb, length, Bool-cases, Option-cases,
}
use velarix.Env.{Env}
use velarix.Engine.{Engine}
use velarix.Engine.Assertion.{max_facts_per_session}
use velarix.Engine.Snapshot.{
  State, Codec, Saved, state_of, to_snapshot, from_snapshot, restore_decoded, restore, commit,
  check_state, Restoring, restored, nil_snapshot, checksum_mismatch, undecodable, too_many_facts,
  unknown_parent, bad_token, cycle, undecided,
}
use velarix.Engine.Snapshot.Validated.{AreRanked, validation_lem}

-- The decoder gives back the state from its encoding.
abbrev pub IsLossless : Codec → State → Type 0
IsLossless codec s = (bytes : List ℕ) → codec.encode s ≡ some bytes → codec.decode bytes ≡ some s

-- The engine holds the state, its dominators are to be computed again, and its listeners are as they were.
pub record HasState (e : Engine) (s : State) (e' : Engine) : Type 0 where
  pub state : state_of e' ≡ s
  pub listening : e'.listeners ≡ e.listeners
  pub dirty : e'.dirty_dominators ≡ true

restore-HasState : (e : Engine) (s : State) → HasState e s (restore e s)
unfolding restore
restore-HasState e s = record { state = refl; listening = refl; dirty = refl }

-- FromSnapshot has restored the engine `e` from the state `s`.
pub record IsRestored (codec : Codec) (env : Env) (e : Engine) (o : Option Saved)
    (r : Restoring × Engine) : Type 0 where
  pub saved : Saved
  pub state : State
  pub given : o ≡ some saved
  pub intact : codec.checksum_ieee saved.bytes ≡ saved.checksum
  pub decoded : codec.decode saved.bytes ≡ some state
  pub checked : check_state env state ≡ restored
  pub outcome : r.0 ≡ restored
  pub loaded : HasState e state r.1

-- It has returned an error, and the engine is as it was.
abbrev pub IsRefused : Engine → Restoring × Engine → Type 0
IsRefused e r = (r.0 ≢ restored) × (r.1 ≡ e)

commit_cases :
    (e : Engine) (s : State) (x : Restoring)
    → ((x ≡ restored) × (commit e s x ≡ (restored, restore e s))) ⊎ IsRefused e (commit e s x)
commit_cases e s restored = inl (refl, refl)
commit_cases e s nil_snapshot = inr (λ h. cc, refl)
commit_cases e s checksum_mismatch = inr (λ h. cc, refl)
commit_cases e s undecodable = inr (λ h. cc, refl)
commit_cases e s too_many_facts = inr (λ h. cc, refl)
commit_cases e s (unknown_parent p) = inr (λ h. cc, refl)
commit_cases e s (bad_token t) = inr (λ h. cc, refl)
commit_cases e s (cycle path) = inr (λ h. cc, refl)
commit_cases e s undecided = inr (λ h. cc, refl)

to_none :
    (codec : Codec) (env : Env) (e : Engine)
    → codec.encode (state_of e) ≡ none
    → to_snapshot codec env e ≡ none
unfolding to_snapshot
to_none codec env e h = rw (h, to_snapshot)

to_some :
    (codec : Codec) (env : Env) (e : Engine) (bytes : List ℕ)
    → codec.encode (state_of e) ≡ some bytes
    → to_snapshot codec env e
      ≡ some (record {
        timestamp = env.now;
        mutation_count = e.mutation_count;
        bytes = bytes;
        checksum = codec.checksum_ieee bytes;
      })
unfolding to_snapshot
to_some codec env e bytes h = rw (h, to_snapshot)

restored_lem :
    (codec : Codec) (env : Env) (e : Engine) (s : State) (saved : Saved)
    → codec.checksum_ieee saved.bytes ≡ saved.checksum
    → codec.decode saved.bytes ≡ some s
    → check_state env s ≡ restored
    → from_snapshot codec env e (some saved) ≡ (restored, restore e s)
unfolding from_snapshot restore_decoded
restored_lem codec env e s saved intact decodes checked =
    rw (eq→eqb _ _ intact, decodes, checked, restore_decoded)

-- FromSnapshot either restores the engine from the state that an intact snapshot holds, once that
-- state has passed the checks, or returns an error and leaves the engine as it was.
pub from_snapshot_cases :
    (codec : Codec) (env : Env) (e : Engine) (o : Option Saved)
    → IsRestored codec env e o (from_snapshot codec env e o)
      ⊎ IsRefused e (from_snapshot codec env e o)
unfolding from_snapshot restore_decoded
from_snapshot_cases codec env e none = inr (λ h. cc, refl)
from_snapshot_cases codec env e (some saved) =
    elim (Bool-cases (eqb (codec.checksum_ieee saved.bytes) saved.checksum)) [
      | inr broken ↦ rw broken (inr (λ h. cc, refl))
      | inl whole ↦ elim (Option-cases (codec.decode saved.bytes)) [
        | inl garbled ↦ rw (whole, garbled, restore_decoded) (inr (λ h. cc, refl))
        | inr (s, decodes) ↦ elim (commit_cases e s (check_state env s)) [
          | inr kept ↦ rw (whole, decodes, restore_decoded) (inr kept)
          | inl (checked, ends) ↦ inl (record {
            saved = saved;
            state = s;
            given = refl;
            intact = eqb→eq _ _ whole;
            decoded = decodes;
            checked = checked;
            outcome =
                rw (whole, decodes, restore_decoded) (ap (λ (r : Restoring × Engine). r.0) ends);
            loaded = rw (whole, decodes, restore_decoded, ends) (restore-HasState e s);
          })
        ]
      ]
    ]

some_injective : (a b : Saved) → ◌≡◌ {A = Option Saved} (some a) (some b) → a ≡ b
some_injective a b h = cc

check_state_lem :
    (rank : String → ℕ) (top : ℕ) (env : Env) (e : Engine)
    → length e.facts ≤ max_facts_per_session
    → AreRanked rank top e.facts
    → top < env.fuel
    → check_state env (state_of e) ≡ restored
unfolding check_state
check_state_lem rank top env e small ranked enough =
    let fits : ltb max_facts_per_session (length e.facts) ≡ false = ground arith in
    rw fits (validation_lem rank top env enough e.facts ranked)

-- FromSnapshot on what ToSnapshot has saved.
from_snapshot-restore :
    (codec : Codec) (rank : String → ℕ) (top : ℕ) (env env' : Env) (e e' : Engine) (saved : Saved)
    → IsLossless codec (state_of e)
    → to_snapshot codec env e ≡ some saved
    → length e.facts ≤ max_facts_per_session
    → AreRanked rank top e.facts
    → top < env'.fuel
    → from_snapshot codec env' e' (some saved) ≡ (restored, restore e' (state_of e))
from_snapshot-restore codec rank top env env' e e' saved lossless taken small ranked enough =
    elim (Option-cases (codec.encode (state_of e))) [
      | inl refused ↦ cc (taken, to_none codec env e refused)
      | inr (bytes, encodes) ↦
          let same = some_injective _ _ (sym taken ∙ to_some codec env e bytes encodes) in
          restored_lem codec env' e' (state_of e) saved
            (subst (λ (z : Saved). codec.checksum_ieee z.bytes ≡ z.checksum) (sym same) refl)
            (subst (λ (z : Saved). codec.decode z.bytes ≡ some (state_of e)) (sym same)
              (lossless bytes encodes))
            (check_state_lem rank top env' e small ranked enough)
    ]

-- With a codec that is lossless on the state of the engine and fuel above the order, a snapshot of an
-- engine whose facts are within the cap and ranked is restored into any engine: that engine then has
-- the saved state, keeps its listeners, and marks its dominators as to be computed again.
pub from_snapshot-to_snapshot :
    (codec : Codec) (rank : String → ℕ) (top : ℕ) (env env' : Env) (e e' : Engine) (saved : Saved)
    → IsLossless codec (state_of e)
    → to_snapshot codec env e ≡ some saved
    → length e.facts ≤ max_facts_per_session
    → AreRanked rank top e.facts
    → top < env'.fuel
    → (e'' : Engine) × (from_snapshot codec env' e' (some saved) ≡ (restored, e''))
      × HasState e' (state_of e) e''
from_snapshot-to_snapshot codec rank top env env' e e' saved lossless taken small ranked enough = (
  restore e' (state_of e),
  from_snapshot-restore codec rank top env env' e e' saved lossless taken small ranked enough,
  restore-HasState e' (state_of e),
)
