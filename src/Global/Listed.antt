-- ===== src/Global/Listed.antt =====
-- Which ids the index of the global facts lists for the facts of a session.
use velarix.Prelude.{
  String, ◌≡◌, Bool, false, ◌||◌, ◌&&◌, not, List, [], ◌∷◌, ◌==◌, eq_iff, arith, if◌then◌else◌,
  contains, contains-add, contains-nil, has, Map,
}
use velarix.Fact.{Fact}
use velarix.Engine.{Engine}
use velarix.Global.{
  GlobalTruth, members, referred, deps_of_token, deps_of_set, deps_of_sets, deps_of_facts,
  remove_session_index, index_deps, rebuild_session_index,
}
use velarix.Global.Index.{IsInverse, contains-index_all, remove_session_index_lem}

-- Whether a token of the facts refers to an id.
unfoldable pub refers_in_set : List String → String → Bool
refers_in_set [] id = false
refers_in_set (token ∷ tokens) id = referred token == id || refers_in_set tokens id

unfoldable pub refers_in_sets : List (List String) → String → Bool
refers_in_sets [] id = false
refers_in_sets (set ∷ sets) id = refers_in_set set id || refers_in_sets sets id

unfoldable pub refers : Map Fact → String → Bool
refers [] id = false
refers ((key, f) ∷ more) id = refers_in_sets f.justification_sets id || refers more id

-- The ids that may be indexed.
unfoldable pub is_global : Map Fact → String → Bool
is_global global id = not (id == "") && has id global

contains-deps_of_token :
    (global : Map Fact) (token : String) (deps : List String) (id : String)
    → contains (deps_of_token global token deps) id
      ≡ (contains deps id || (referred token == id && is_global global id))
unfolding deps_of_token is_global
contains-deps_of_token global token deps id = ground (
  arith,
  contains-add deps (referred token) id,
  eq_iff (referred token) id,
  eq_iff (referred token) "",
  eq_iff id "",
)

contains-deps_of_set :
    (global : Map Fact) (tokens deps : List String) (id : String)
    → contains (deps_of_set global tokens deps) id
      ≡ (contains deps id || (refers_in_set tokens id && is_global global id))
unfolding deps_of_set refers_in_set
contains-deps_of_set global [] deps id = ground arith
contains-deps_of_set global (token ∷ tokens) deps id = ground (
  arith,
  contains-deps_of_set global tokens (deps_of_token global token deps) id,
  contains-deps_of_token global token deps id,
)

pub contains-deps_of_sets :
    (global : Map Fact) (sets : List (List String)) (deps : List String) (id : String)
    → contains (deps_of_sets global sets deps) id
      ≡ (contains deps id || (refers_in_sets sets id && is_global global id))
unfolding deps_of_sets refers_in_sets
contains-deps_of_sets global [] deps id = ground arith
contains-deps_of_sets global (set ∷ sets) deps id = ground (
  arith,
  contains-deps_of_sets global sets (deps_of_set global set deps) id,
  contains-deps_of_set global set deps id,
)

contains-deps_of_facts :
    (global facts : Map Fact) (deps : List String) (id : String)
    → contains (deps_of_facts global facts deps) id
      ≡ (contains deps id || (refers facts id && is_global global id))
unfolding deps_of_facts refers
contains-deps_of_facts global [] deps id = ground arith
contains-deps_of_facts global ((key, f) ∷ more) deps id = ground (
  arith,
  contains-deps_of_facts global more (deps_of_sets global f.justification_sets deps) id,
  contains-deps_of_sets global f.justification_sets deps id,
)

index_deps_lem :
    (g : GlobalTruth) (session : String) (ids : List String) (id s : String)
    → contains (members (index_deps g session ids).dep_index id) s
      ≡ ((contains ids id && session == s) || contains (members g.dep_index id) s)
unfolding index_deps
index_deps_lem g session [] id s = ground (arith, contains-nil id)
index_deps_lem g session (x ∷ ids) id s = contains-index_all session (x ∷ ids) g.dep_index id s

pub rebuild_session_index_lem :
    (g : GlobalTruth) (session : String) (e : Engine) (id s : String)
    → IsInverse g
    → contains (members (rebuild_session_index g session e).dep_index id) s ≡ (
        if session == s
        then refers e.facts id && is_global g.facts id
        else contains (members g.dep_index id) s)
unfolding rebuild_session_index remove_session_index
rebuild_session_index_lem g session e id s inverse = ground (
  arith,
  index_deps_lem (remove_session_index g session) session (deps_of_facts g.facts e.facts []) id s,
  remove_session_index_lem g session id s inverse,
  contains-deps_of_facts g.facts e.facts [] id,
  contains-nil id,
)
