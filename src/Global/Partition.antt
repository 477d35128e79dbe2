-- ===== src/Global/Partition.antt =====
-- `Partition` of core/global_truth.go: the components of the global facts, by union and find.
pub mod Forest
pub mod Components
pub mod Groups
pub mod Edges
pub mod Correct
use velarix.Prelude.{
  ℕ, zero, suc, String, Bool, false, Option, none, some, List, [], ◌∷◌, ◌++◌, ◌==◌, if◌then◌else◌,
  Map, lookup, insert, has, keys,
}
use velarix.Env.{Env}
use velarix.Fact.{Fact}
use velarix.Dependencies.{is_negated, trim_mark}
use velarix.Consistency.Report.{is_less, sort_by}

-- parent[x], where a missing key gives the empty text
unfoldable pub up : Map String → String → String
up parent x = elim (lookup x parent) [ none ↦ "" | some p ↦ p ]

-- The body of `find` after its recursive call: the path is shortened.
unfoldable pub shorten : String → Option (Map String × String) → Option (Map String × String)
shorten x none = none
shorten x (some (parent, r)) = some (insert x r parent, r)

-- find, at most `fuel` calls deep
unfoldable pub find : ℕ → Map String → String → Option (Map String × String)
unfolding up shorten
find zero parent x = if up parent x == x then some (parent, x) else none
find (suc fuel) parent x =
    let deeper = shorten x (find fuel parent (up parent x)) in
    if up parent x == x then some (parent, x) else deeper

unfoldable pub joined_roots : String → Option (Map String × String) → Option (Map String)
joined_roots px none = none
joined_roots px (some (parent, py)) = some (if px == py then parent else insert px py parent)

unfoldable pub union_from : ℕ → String → Option (Map String × String) → Option (Map String)
unfolding find joined_roots
union_from fuel y none = none
union_from fuel y (some (parent, px)) = joined_roots px (find fuel parent y)

-- union
unfoldable pub union : ℕ → Map String → String → String → Option (Map String)
unfolding union_from
union fuel parent x y = union_from fuel y (find fuel parent x)

-- The id that a token refers to, as the partition reads it.
unfoldable pub token_id : String → String
token_id token = if is_negated token then trim_mark token else token

-- The pairs that are united: a fact with each global fact that one of its tokens refers to.
unfoldable pub edges_of_set : Map Fact → String → List String → List (String × String)
unfolding token_id
edges_of_set facts id [] = []
edges_of_set facts id (token ∷ tokens) =
    let rest = edges_of_set facts id tokens in
    if has (token_id token) facts then (id, token_id token) ∷ rest else rest

unfoldable pub edges_of_sets : Map Fact → String → List (List String) → List (String × String)
unfolding edges_of_set
edges_of_sets facts id [] = []
edges_of_sets facts id (set ∷ sets) = edges_of_set facts id set ++ edges_of_sets facts id sets

unfoldable pub edges_of : Map Fact → List String → List (String × String)
unfolding edges_of_sets
edges_of facts [] = []
edges_of facts (key ∷ more) = elim (lookup key facts) [
  | none ↦ edges_of facts more
  | some f ↦ edges_of_sets facts f.id f.justification_sets ++ edges_of facts more
]

unfoldable pub unite_all : ℕ → List (String × String) → Map String → Option (Map String)
unfolding union
unite_all fuel [] parent = some parent
unite_all fuel ((x, y) ∷ edges) parent = elim (union fuel parent x y) [
  | none ↦ none
  | some parent' ↦ unite_all fuel edges parent'
]

-- `parent[id] = id`, for each key
unfoldable pub own_parents : List String → Map String → Map String
own_parents [] parent = parent
own_parents (id ∷ ids) parent = own_parents ids (insert id id parent)

-- The groups, by root.
unfoldable pub group_under : String → String → Map (List String) → Map (List String)
group_under root id groups = elim (lookup root groups) [
  | none ↦ insert root (id ∷ []) groups
  | some ids ↦ insert root (ids ++ id ∷ []) groups
]

unfoldable pub group_all :
    ℕ → List String → Map String → Map (List String) → Option (Map (List String))
unfolding find group_under
group_all fuel [] parent groups = some groups
group_all fuel (id ∷ ids) parent groups = elim (find fuel parent id) [
  | none ↦ none
  | some (parent', root) ↦ group_all fuel ids parent' (group_under root id groups)
]

unfoldable pub first_less : List String → List String → Bool
unfolding is_less
first_less (x ∷ xs) (y ∷ ys) = is_less x y
first_less _ _ = false

unfoldable pub sorted_groups : Map (List String) → List (List String)
unfolding is_less sort_by
sorted_groups [] = []
sorted_groups ((root, ids) ∷ groups) = sort_by is_less ids ∷ sorted_groups groups

unfoldable pub partition_from :
    Env → List String → Option (Map String) → Option (List (List String))
unfolding group_all sorted_groups sort_by first_less
partition_from env ids none = none
partition_from env ids (some parent) = elim (group_all env.fuel ids parent []) [
  | none ↦ none
  | some groups ↦ some (sort_by first_less (sorted_groups groups))
]

-- partitionLocked: `none` means that the calls of `find` went too deep.
unfoldable pub partition : Env → Map Fact → Option (List (List String))
unfolding edges_of unite_all own_parents partition_from
partition env facts = partition_from env (env.range 2 (keys facts)) (
    unite_all env.fuel (edges_of facts (env.range 1 (keys facts)))
      (own_parents (env.range 0 (keys facts)) []))
