-- ===== src/Global/Index.antt =====
-- The two indexes of the global facts, one by fact and the other by session, and the operations on them.
use velarix.Prelude.{
  ℕ, String, ◌≡◌, ◌⊎◌, inl, inr, refl, sym, ◌∙◌, Bool, true, false, ◌||◌, ◌&&◌, not, Option, none,
  some, List, [], ◌∷◌, ◌==◌, eq_iff, arith, if◌then◌else◌, contains, contains-cons, contains-add,
  contains-nil, add, discard, eq_refl, lookup, lookup-insert, lookup-erase, lookup-nil, insert,
  erase, Map, Bool-cases, Option-cases,
}
use velarix.Env.{Env}
use velarix.Fact.{Fact}
use velarix.Engine.{Engine}
use velarix.Global.{
  GlobalTruth, members, unindex_from, unindex, unindex_all, remove_session_index, index, index_all,
  index_deps, index_dep, index_dep_list, index_fact_dependencies, rebuild_session_index,
  deps_of_facts, deps_of_sets, subscribe, replayed_to, replay_facts,
}

contains-discard :
    (l : List String) (k x : String) → contains (discard l k) x ≡ (not (k == x) && contains l x)
unfolding contains discard
contains-discard [] k x = ground arith
contains-discard (y ∷ l) k x =
    ground (arith, contains-discard l k x, eq_iff y k, eq_iff k x, eq_iff y x)

pub members-insert :
    (k j : String) (l : List String) (m : Map (List String))
    → members (insert k l m) j ≡ (if k == j then l else members m j)
unfolding members
members-insert k j l m = ground (arith, lookup-insert k j l m)

pub members-erase :
    (k j : String) (m : Map (List String))
    → members (erase k m) j ≡ (if k == j then [] else members m j)
unfolding members
members-erase k j m = ground (arith, lookup-erase k j m)

members-none : (m : Map (List String)) (k : String) → lookup k m ≡ none → members m k ≡ []
unfolding members
members-none m k gone = rw (gone, members) refl

members-some :
    (m : Map (List String)) (k : String) (l : List String) → lookup k m ≡ some l → members m k ≡ l
unfolding members
members-some m k l at_k = rw (at_k, members) refl

members-unindex_from :
    (session id : String) (m : Map (List String)) (l : List String) (j : String)
    → members (unindex_from session id m l) j ≡ (if id == j then l else members m j)
unfolding unindex_from
members-unindex_from session id m [] j = members-erase id j m
members-unindex_from session id m (s ∷ rest) j = members-insert id j (s ∷ rest) m

contains-unindex :
    (session id : String) (m : Map (List String)) (j s : String)
    → contains (members (unindex session id m) j) s
      ≡ (not (id == j && session == s) && contains (members m j) s)
unfolding unindex
contains-unindex session id m j s = elim (Option-cases (lookup id m)) [
  | inl gone ↦
      rw (gone, unindex) (ground (arith, members-none m id gone, contains-nil s, eq_iff id j))
  | inr (l, at_id) ↦
      rw (at_id, unindex)
        (ground (
          arith,
          members-unindex_from session id m (discard l session) j,
          contains-discard l session s,
          members-some m id l at_id,
          eq_iff id j,
        ))
]

contains-unindex_all :
    (session : String) (ids : List String) (m : Map (List String)) (j s : String)
    → contains (members (unindex_all session ids m) j) s
      ≡ (not (contains ids j && session == s) && contains (members m j) s)
unfolding unindex_all
contains-unindex_all session [] m j s = ground (arith, contains-nil j)
contains-unindex_all session (id ∷ ids) m j s = ground (
  arith,
  contains-unindex_all session ids (unindex session id m) j s,
  contains-unindex session id m j s,
  contains-cons id ids j,
)

pub contains-index :
    (session id : String) (m : Map (List String)) (j s : String)
    → contains (members (index session id m) j) s
      ≡ ((id == j && session == s) || contains (members m j) s)
unfolding index
contains-index session id m j s = ground (
  arith,
  members-insert id j (add (members m id) session) m,
  contains-add (members m id) session s,
  eq_iff id j,
)

pub contains-index_all :
    (session : String) (ids : List String) (m : Map (List String)) (j s : String)
    → contains (members (index_all session ids m) j) s
      ≡ ((contains ids j && session == s) || contains (members m j) s)
unfolding index_all
contains-index_all session [] m j s = ground (arith, contains-nil j)
contains-index_all session (id ∷ ids) m j s = ground (
  arith,
  contains-index_all session ids (index session id m) j s,
  contains-index session id m j s,
  contains-cons id ids j,
)

-- A session stands under a fact in one index exactly when the fact stands under the session in the other.
abbrev pub IsInverse : GlobalTruth → Type 0
IsInverse g =
    (id session : String)
    → contains (members g.dep_index id) session ≡ contains (members g.session_deps session) id

pub remove_session_index_lem :
    (g : GlobalTruth) (session id s : String)
    → IsInverse g
    → contains (members (remove_session_index g session).dep_index id) s
      ≡ (not (session == s) && contains (members g.dep_index id) s)
unfolding remove_session_index
remove_session_index_lem g session id s inverse = ground (
  arith,
  contains-unindex_all session (members g.session_deps session) g.dep_index id s,
  inverse id s,
  eq_iff session s,
)

pub remove_session_index-IsInverse :
    (g : GlobalTruth) (session : String) → IsInverse g → IsInverse (remove_session_index g session)
unfolding remove_session_index
remove_session_index-IsInverse g session inverse id s = ground (
  arith,
  contains-unindex_all session (members g.session_deps session) g.dep_index id s,
  inverse id s,
  eq_iff session s,
  members-erase session s g.session_deps,
  contains-nil id,
)

index_deps-IsInverse :
    (g : GlobalTruth) (session : String) (ids : List String)
    → ((id : String) → contains (members g.dep_index id) session ≡ false)
    → IsInverse g
    → IsInverse (index_deps g session ids)
unfolding index_deps
index_deps-IsInverse g session [] absent inverse = inverse
index_deps-IsInverse g session (x ∷ ids) absent inverse = λ id s. ground (
  arith,
  contains-index_all session (x ∷ ids) g.dep_index id s,
  members-insert session s (x ∷ ids) g.session_deps,
  inverse id s,
  absent id,
  eq_iff session s,
)

rebuild_session_index-IsInverse :
    (g : GlobalTruth) (session : String) (e : Engine)
    → IsInverse g
    → IsInverse (rebuild_session_index g session e)
unfolding rebuild_session_index
rebuild_session_index-IsInverse g session e inverse =
    index_deps-IsInverse (remove_session_index g session) session (deps_of_facts g.facts e.facts [])
      (λ id. ground (arith, remove_session_index_lem g session id session inverse, eq_refl session))
      (remove_session_index-IsInverse g session inverse)

index_dep-IsInverse :
    (g : GlobalTruth) (session x : String) → IsInverse g → IsInverse (index_dep session x g)
unfolding index_dep
index_dep-IsInverse g session x inverse id s = ground (
  arith,
  contains-index session x g.dep_index id s,
  members-insert session s (add (members g.session_deps session) x) g.session_deps,
  contains-add (members g.session_deps session) x id,
  inverse id s,
  eq_iff session s,
)

index_dep_list-IsInverse :
    (session : String) (ids : List String) (g : GlobalTruth)
    → IsInverse g
    → IsInverse (index_dep_list session ids g)
unfolding index_dep_list
index_dep_list-IsInverse session [] g inverse = inverse
index_dep_list-IsInverse session (x ∷ ids) g inverse =
    index_dep_list-IsInverse session ids (index_dep session x g)
      (index_dep-IsInverse g session x inverse)

pub subscribe-IsInverse :
    (env : Env) (g : GlobalTruth) (session : String) (o : Option Engine)
    → IsInverse g
    → IsInverse (subscribe env g session o).1
unfolding subscribe replayed_to
subscribe-IsInverse env g session none inverse = inverse
subscribe-IsInverse env g session (some e) inverse =
    let g1 : GlobalTruth = record g { subscribers = insert session e g.subscribers } in
    let g2 = rebuild_session_index g1 session e in
    let rebuilt : IsInverse g2 = rebuild_session_index-IsInverse g1 session e inverse in
    elim (Bool-cases (session == "")) [
      | inl nameless ↦ rw nameless inverse
      | inr named ↦
          elim (Option-cases
            (replay_facts env g2 (env.range 0 (velarix.Prelude.keys g2.facts)) e)) [
              | inl endless ↦ rw (named, endless) rebuilt
              | inr (e', ends) ↦ rw (named, ends) rebuilt
            ]
    ]

pub index_fact_dependencies-IsInverse :
    (g : GlobalTruth) (session : String) (o : Option Fact)
    → IsInverse g
    → IsInverse (index_fact_dependencies g session o)
unfolding index_fact_dependencies
index_fact_dependencies-IsInverse g session none inverse = inverse
index_fact_dependencies-IsInverse g session (some f) inverse = elim (Bool-cases (session == "")) [
  | inl nameless ↦ rw nameless inverse
  | inr named ↦ rw named (
      index_dep_list-IsInverse session (deps_of_sets g.facts f.justification_sets [])
        (record g { session_deps = insert session (members g.session_deps session) g.session_deps })
        (λ id s. ground (
          arith,
          inverse id s,
          members-insert session s (members g.session_deps session) g.session_deps,
          eq_iff session s,
        )))
]
