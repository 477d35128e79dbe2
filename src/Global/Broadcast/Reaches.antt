-- ===== src/Global/Broadcast/Reaches.antt =====
-- A retraction reaches the sessions that refer to a fact of the same component.
use velarix.Prelude.{
  ◌<◌, String, ◌≡◌, ◌≢◌, inl, inr, refl, sym, ap, ◌∙◌, Bool, true, false, ◌||◌, ◌&&◌, Option, none,
  some, List, [], ◌∷◌, ◌==◌, eq_iff, eq_refl, arith, if◌then◌else◌, ltb, contains, contains-nil,
  contains-cons, contains-add, add, Map, lookup, insert, lookup-insert, has, keys, length,
  Bool-cases, Option-cases, All,
}
use velarix.Env.{Env}
use velarix.Fact.{Fact}
use velarix.Consistency.Report.{is_less, sort_by}
use velarix.Consistency.Report.Ids.{contains-sort_by}
use velarix.Engine.{Engine}
use velarix.Engine.Operations.{retract_fact, reason_or}
use velarix.Global.Broadcast.Retracts.{retract_fact-retracts, reason_or_twice}
use velarix.Global.{GlobalTruth, members, kept, get_global_fact}
use velarix.Global.Partition.{edges_of}
use velarix.Global.Partition.Components.{AreLinked}
use velarix.Global.Partition.Edges.{IsEdge}
use velarix.Global.Partition.Groups.{together}
use velarix.Global.Partition.Correct.{partition-closed}
use velarix.Global.Broadcast.{
  component_from, add_all, sessions_of, affected_subscribers, broadcast_from, at_version,
  next_version, broadcast_to, retract_targets, retract_global,
}

module _ (u v : String) where
  component_from-kept :
      (groups : List (List String)) (current : List String)
      → contains current v ≡ true
      → All (λ g. contains g u ≡ true → contains g v ≡ true) groups
      → contains (component_from u groups current) v ≡ true
  unfolding component_from
  component_from-kept [] current held closed = held
  component_from-kept (g ∷ groups) current held (first, rest) = elim (Bool-cases (contains g u)) [
    | inl holds ↦ rw holds (component_from-kept groups g (first holds) rest)
    | inr other ↦ rw other (component_from-kept groups current held rest)
  ]

  -- The component holds what each group with `u` holds.
  component_from-holds :
      (groups : List (List String)) (current : List String)
      → together groups u u ≡ true
      → All (λ g. contains g u ≡ true → contains g v ≡ true) groups
      → contains (component_from u groups current) v ≡ true
  unfolding component_from together
  component_from-holds [] current t closed = cc
  component_from-holds (g ∷ groups) current t (first, rest) = elim (Bool-cases (contains g u)) [
    | inl holds ↦ rw holds (component_from-kept groups g (first holds) rest)
    | inr other ↦ rw other (component_from-holds groups current (ground (arith, t, other)) rest)
  ]

contains-add_all :
    (sessions seen : List String) (s : String)
    → contains (add_all sessions seen) s ≡ (contains seen s || contains sessions s)
unfolding add_all
contains-add_all [] seen s = ground (arith, contains-nil s)
contains-add_all (x ∷ sessions) seen s = ground (
  arith,
  contains-add_all sessions (add seen x) s,
  contains-add seen x s,
  contains-cons x sessions s,
)

sessions_of-seen :
    (m : Map (List String)) (ids seen : List String) (s : String)
    → contains seen s ≡ true
    → contains (sessions_of m ids seen) s ≡ true
unfolding sessions_of
sessions_of-seen m [] seen s h = h
sessions_of-seen m (id ∷ ids) seen s h =
    sessions_of-seen m ids (add_all (members m id) seen) s
      (ground (arith, contains-add_all (members m id) seen s, h))

sessions_of-member :
    (m : Map (List String)) (ids seen : List String) (x s : String)
    → contains ids x ≡ true
    → contains (members m x) s ≡ true
    → contains (sessions_of m ids seen) s ≡ true
unfolding sessions_of
sessions_of-member m [] seen x s listed h = cc (listed, contains-nil x)
sessions_of-member m (id ∷ ids) seen x s listed h = elim (Bool-cases (id == x)) [
  | inl same ↦
      let here : contains (members m id) s ≡ true =
        ap (λ k. contains (members m k) s) ((eq_iff id x).0 same) ∙ h in
      sessions_of-seen m ids (add_all (members m id) seen) s
        (ground (arith, contains-add_all (members m id) seen s, here))
  | inr other ↦
      sessions_of-member m ids (add_all (members m id) seen) x s
        (ground (arith, listed, other, contains-cons id ids x)) h
]

-- Every engine has the fuel for the step.
abbrev pub CanStep : (Engine → Option Engine) → Map Engine → Type 0
CanStep step m = All (λ (p : String × Engine). step p.1 ≢ none) m

CanStep-lookup :
    (step : Engine → Option Engine) (m : Map Engine) (session : String) (e : Engine)
    → CanStep step m
    → lookup session m ≡ some e
    → step e ≢ none
unfolding lookup
CanStep-lookup step [] session e can there = cc
CanStep-lookup step ((s, found) ∷ m) session e (first, rest) there =
    elim (Bool-cases (s == session)) [
      | inr other ↦ CanStep-lookup step m session e rest (ground (arith, there, other))
      | inl same ↦
          let is_e : found ≡ e = ground (arith, there, same) in
          λ stuck. first (ap step is_e ∙ stuck)
    ]

broadcast_from_lem :
    (step : Engine → Option Engine) (m : Map Engine) (targeted : String → Bool)
    → CanStep step m
    → (m' : Map Engine) × (broadcast_from step m targeted ≡ some m')
      × ((s : String) (e : Engine)
          → lookup s m ≡ some e
          → lookup s m' ≡ (if targeted s then step e else some e))
unfolding broadcast_from lookup
broadcast_from_lem step [] targeted can = ([], refl, λ s e h. cc)
broadcast_from_lem step ((session, e) ∷ m) targeted (first, rest) =
    let (m', ends, each) = broadcast_from_lem step m targeted rest in
    elim (Option-cases (if targeted session then step e else some e)) [
      | inl stuck ↦ elim (Bool-cases (targeted session)) [
        | inl aimed ↦ absurd (first (ap (λ b. if b then step e else some e) (sym aimed) ∙ stuck))
        | inr spared ↦ cc (stuck, ap (λ b. if b then step e else some e) spared)
      ]
      | inr (e', steps) ↦ (
        (session, e') ∷ m',
        rw (steps, broadcast_from, ends) refl,
        λ s found h. elim (Bool-cases (session == s)) [
          | inr other ↦ rw other (each s found (ground (arith, h, other)))
          | inl same ↦
              let is_s = (eq_iff session s).0 same in
              let is_e : e ≡ found = ground (arith, h, same) in
              rw (same, sym is_s, sym is_e) (sym steps)
        ],
      )
    ]

module _ (env : Env) (g : GlobalTruth)
    (keyed : (k : String) (f : Fact) → lookup k g.facts ≡ some f → f.id ≡ k) (id x session : String)
    (enough : length (edges_of g.facts (env.range 1 (keys g.facts))) < env.fuel)
    (there : has id g.facts ≡ true) (known : has x g.facts ≡ true)
    (linked : AreLinked (IsEdge g.facts) id x)
    (refers : contains (members g.dep_index x) session ≡ true) where
  -- The session is among those that a change of the fact affects.
  affected_subscribers-contains :
      (affected : List String) × (affected_subscribers env g id ≡ some affected)
      × (contains affected session ≡ true)
  unfolding affected_subscribers
  affected_subscribers-contains =
      let (groups, ends, some_group, closed) =
        partition-closed env g.facts keyed id x enough there known linked in
      let component = component_from id groups (id ∷ []) in
      (
        sort_by is_less (sessions_of g.dep_index component []),
        rw (ends, affected_subscribers) refl,
        contains-sort_by is_less (sessions_of g.dep_index component []) session
            ∙ sessions_of-member g.dep_index component [] x session
                (component_from-holds id x groups (id ∷ []) some_group closed) refers,
      )

  retract_targets-aims :
      (targeted : String → Bool) × (retract_targets env g id ≡ some targeted)
      × (targeted session ≡ true)
  unfolding retract_targets
  retract_targets-aims =
      let (affected, ends, among) = affected_subscribers-contains in
      let selective = ltb 0 (length affected) && ltb (length affected) (length g.subscribers) in
      (
        (if selective then (λ s. contains affected s) else (λ s. true)),
        rw (ends, retract_targets) refl,
        elim (Bool-cases selective) [
          | inl some_of ↦ rw some_of among
          | inr all_of ↦ rw all_of refl
        ],
      )

-- RetractGlobal of a global fact, when the facts stand under their ids, `find` is allowed more calls than
-- there are pairs to unite, and the engine of each subscriber has the fuel for the retraction: the
-- next version is returned, the fact is no longer found, and each subscriber that the index lists
-- under a fact connected with it and whose engine has the fact holds it as retracted, for the reason
-- that was given or "global_retract", in the engine that `RetractFact` leaves.
pub retract_global_reaches :
    (env : Env) (g : GlobalTruth)
    → ((k : String) (f : Fact) → lookup k g.facts ≡ some f → f.id ≡ k)
    → (id given x session : String) (e : Engine) → (id == "") ≡ false
    → has id g.facts ≡ true
    → has x g.facts ≡ true
    → AreLinked (IsEdge g.facts) id x
    → contains (members g.dep_index x) session ≡ true
    → lookup session g.subscribers ≡ some e
    → has id e.facts ≡ true
    → length (edges_of g.facts (env.range 1 (keys g.facts))) < env.fuel
    → CanStep (λ e'. kept (retract_fact env e' id (reason_or "global_retract" given))) g.subscribers
    → (g' : GlobalTruth) × (retract_global env g id given
        ≡ (at_version (next_version g.version), g'))
      × (get_global_fact g' id ≡ none)
      × (e'' : Engine) × (kept (retract_fact env e id (reason_or "global_retract" given))
          ≡ some e'')
      × (lookup session g'.subscribers ≡ some e'')
      × (lookup id e''.retracted_facts ≡ some (reason_or "global_retract" given))
unfolding retract_global broadcast_to get_global_fact
retract_global_reaches env g keyed id given x session e named there known linked refers subscribes
      has_it enough can =
    let reason = reason_or "global_retract" given in
    let step : Engine → Option Engine = λ e'. kept (retract_fact env e' id reason) in
    let g1 : GlobalTruth = record g {
      retracted = insert id reason g.retracted;
      version = next_version g.version;
    } in
    let (targeted, aims, hit) =
      retract_targets-aims env g1 keyed id x session enough there known linked refers in
    let (subscribers, ends, each) = broadcast_from_lem step g.subscribers targeted can in
    let (e'', steps, retracted) =
      retract_fact-retracts env e id reason has_it
        (CanStep-lookup step g.subscribers session e can subscribes) in
    (
      record g1 { subscribers = subscribers },
      rw (named, there, aims, broadcast_to, ends) refl,
      ground (arith, lookup-insert id id reason g.retracted, eq_refl id),
      e'',
      steps,
      each session e subscribes ∙ ap (λ b. if b then step e else some e) hit ∙ steps,
      retracted ∙ ap some (reason_or_twice given),
    )
