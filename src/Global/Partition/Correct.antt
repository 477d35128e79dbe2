-- ===== src/Global/Partition/Correct.antt =====
-- The partition of the global facts is that into connected components.
use mathlib.Core.Path.{subst}
use mathlib.Core.List.{append_assoc, append-nil}
use velarix.Prelude.{
  ℕ, suc, ◌+◌, ◌≤◌, ◌<◌, String, ◌≡◌, ◌↔◌, inl, inr, refl, sym, ap, ◌∙◌, true, false, some, List,
  [], ◌∷◌, ◌++◌, ◌==◌, eq_iff, arith, if◌then◌else◌, contains, contains-nil, contains-cons, Map,
  lookup, insert, has, keys, length, Bool-cases, All,
}
use velarix.Env.{Env}
use velarix.Fact.{Fact}
use velarix.Consistency.Report.{sort_by}
use velarix.Global.Partition.{
  up, own_parents, group_under, group_all, first_less, sorted_groups, partition_from, partition,
  edges_of,
}
use velarix.Global.Partition.Forest.{IsForest, find_lem, up-insert}
use velarix.Global.Partition.Components.{
  AreLinked, along, back, itself, IsSound, AreEdges, unite_all-IsUnited, link_trans, link_sym,
}
use velarix.Global.Partition.Edges.{IsEdge, All-edges_of, edge_of}
use velarix.Global.Partition.Groups.{
  together, together-sort_by, All-sort_by, sorted_groups-closed, AreGroups, group_under-AreGroups,
  together-roots, roots-together,
}

up-own_parents :
    (ids : List String) (m : Map String) (x : String)
    → up (own_parents ids m) x ≡ (if contains ids x then x else up m x)
unfolding own_parents
up-own_parents [] m x = ground (arith, contains-nil x)
up-own_parents (id ∷ ids) m x = ground (
  arith,
  up-own_parents ids (insert id id m) x,
  up-insert id id x m,
  contains-cons id ids x,
  eq_iff id x,
)

module _ (ids : List String) where
  -- At the start each key is a tree of its own, and all other texts are under the empty one.
  abbrev own_root : String → String
  own_root x = if contains ids x then x else ""

  abbrev own_height : String → ℕ
  own_height x = if own_root x == x then 0 else 1

  own_root_idem : (x : String) → own_root (own_root x) ≡ own_root x
  own_root_idem x = elim (Bool-cases (contains ids x)) [
    | inl key ↦ rw (key, key) refl
    | inr other ↦ rw other (ground arith)
  ]

  up-own_root : (x : String) → up (own_parents ids []) x ≡ own_root x
  up-own_root x = up-own_parents ids [] x ∙ unfold up lookup in refl

  own_height-root : (x : String) → own_height (own_root x) ≡ 0
  own_height-root x = ground (arith, own_root_idem x, eq_iff (own_root (own_root x)) (own_root x))

  own_parents-IsForest : IsForest (own_parents ids []) own_root own_height 1
  own_parents-IsForest = record {
    same = λ x. ap own_root (up-own_root x) ∙ own_root_idem x;
    fixed = λ x h. sym (up-own_root x) ∙ h;
    rooted = λ x. up-own_root (own_root x) ∙ own_root_idem x;
    lower = λ x h.
        let off : (own_root x == x) ≡ false =
          ground (arith, eq_iff (own_root x) x, h, up-own_root x) in
        rw (up-own_root x) (omega (arith, own_height-root x, ap (λ b. if b then 0 else suc 0) off));
    ground_level = own_height-root;
    bounded = λ x. ground arith;
  }

-- The groups of all ids, by the roots of a forest.
group_all-AreGroups :
    (root : String → String) (height : String → ℕ) (n fuel : ℕ)
    → n ≤ fuel
    → (ids before : List String) (m : Map String) (groups : Map (List String))
    → IsForest m root height n
    → AreGroups root before groups
    → (groups' : Map (List String)) × (group_all fuel ids m groups ≡ some groups')
      × AreGroups root (before ++ ids) groups'
unfolding group_all
group_all-AreGroups root height n fuel enough [] before m groups f g =
    (groups, refl, rw (append-nil before) g)
group_all-AreGroups root height n fuel enough (id ∷ ids) before m groups f g =
    let (m1, finds, f1) =
      find_lem root height n fuel m id f (omega (arith, f.bounded id, enough)) in
    let (groups', ends, g') =
      group_all-AreGroups root height n fuel enough ids (before ++ id ∷ []) m1
        (group_under (root id) id groups) f1 (group_under-AreGroups root before id groups g) in
    (
      groups',
      rw (finds, group_all) ends,
      subst (λ l. AreGroups root l groups') (append_assoc before (id ∷ []) ids) g',
    )

no_groups : (root : String → String) → AreGroups root [] []
no_groups root = record { distinct = tt; entries = tt; rooted = λ u h. cc (h, contains-nil u) }

contains-keys : {V : Type 0} (m : Map V) (k : String) → contains (keys m) k ≡ has k m
unfolding keys lookup
contains-keys [] k = contains-nil k
contains-keys ((j, v) ∷ m) k = ground (arith, contains-keys m k, contains-cons j (keys m) k)

module _ (env : Env) (facts : Map Fact)
    (keyed : (k : String) (f : Fact) → lookup k facts ≡ some f → f.id ≡ k) where
  abbrev ids_at : ℕ → List String
  ids_at n = env.range n (keys facts)

  contains-ids_at : (n : ℕ) (k : String) → contains (ids_at n) k ≡ has k facts
  contains-ids_at n k = env.contains-range n (keys facts) k ∙ contains-keys facts k

  abbrev IsFact : String → Type 0
  IsFact k = has k facts ≡ true

  own-IsSound : IsSound (IsEdge facts) IsFact (own_root (ids_at 0))
  own-IsSound x known =
      let here : own_root (ids_at 0) x ≡ x = ground (arith, contains-ids_at 0 x, known) in
      subst (AreLinked (IsEdge facts) x) (sym here) itself

  edges-AreEdges : AreEdges (IsEdge facts) IsFact (edges_of facts (ids_at 1))
  edges-AreEdges =
      All-edges_of facts (λ p. IsEdge facts p.0 p.1 × IsFact p.0 × IsFact p.1) keyed (ids_at 1)
        (λ u v e. let (f, there, m, known) = e in (e, rw there refl, known))

  listed : (u v : String) → IsEdge facts u v → contains (ids_at 1) u ≡ true
  listed u v (f, there, m, known) = contains-ids_at 1 u ∙ rw there refl

  -- Linked facts have one root.
  linked-root :
      (root : String → String)
      → All (λ (p : String × String). root p.0 ≡ root p.1) (edges_of facts (ids_at 1))
      → (u v : String) → AreLinked (IsEdge facts) u v
      → root u ≡ root v
  linked-root root joined u v itself = refl
  linked-root root joined u v (along {y = y} e more) =
      edge_of facts (λ p. root p.0 ≡ root p.1) keyed (ids_at 1) u y joined (listed u y e) e
      ∙ linked-root root joined y v more
  linked-root root joined u v (back {y = y} e more) =
      sym (edge_of facts (λ p. root p.0 ≡ root p.1) keyed (ids_at 1) y u joined (listed y u e) e)
      ∙ linked-root root joined y v more

  partition_from-some :
      (parent : Map String) (groups : Map (List String))
      → group_all env.fuel (ids_at 2) parent [] ≡ some groups
      → partition_from env (ids_at 2) (some parent)
        ≡ some (sort_by first_less (sorted_groups groups))
  unfolding partition_from
  partition_from-some parent groups ends = rw (ends, partition_from) refl

  -- With more calls of `find` allowed than there are pairs to unite, and with the facts under their ids,
  -- the partition of the global facts is computed, and two of the facts stand in one group exactly when
  -- a chain of tokens, read in either direction, connects them.
  pub partition_connects :
      (u v : String)
      → length (edges_of facts (env.range 1 (keys facts))) < env.fuel
      → has u facts ≡ true
      → has v facts ≡ true
      → (groups : List (List String)) × (partition env facts ≡ some groups)
        × ((together groups u v ≡ true) ↔ AreLinked (IsEdge facts) u v)
  unfolding partition
  partition_connects u v enough there_u there_v =
      let united =
        unite_all-IsUnited (IsEdge facts) IsFact env.fuel (edges_of facts (ids_at 1))
          (own_root (ids_at 0)) (own_height (ids_at 0)) 1 (own_parents (ids_at 0) [])
          (own_parents-IsForest (ids_at 0)) own-IsSound edges-AreEdges (omega (arith, enough)) in
      let (gathered, ends, g) =
        group_all-AreGroups united.root' united.height' (1 + length (edges_of facts (ids_at 1)))
          env.fuel (omega (arith, enough)) (ids_at 2) [] united.parent [] united.forest
          (no_groups united.root') in
      let in_u : contains (ids_at 2) u ≡ true = contains-ids_at 2 u ∙ there_u in
      let in_v : contains (ids_at 2) v ≡ true = contains-ids_at 2 v ∙ there_v in
      let same = together-sort_by first_less (sorted_groups gathered) u v in
      let sound = united.sound in
      (
        sort_by first_less (sorted_groups gathered),
        ap (partition_from env (ids_at 2)) united.ends
            ∙ partition_from-some united.parent gathered ends,
        (
          (λ t.
              let one =
                together-roots united.root' (ids_at 2) gathered u v g.entries (sym same ∙ t) in
              link_trans (IsEdge facts) u (united.root' v) v
                (subst (AreLinked (IsEdge facts) u) one (sound u there_u))
                (link_sym (IsEdge facts) v (united.root' v) (sound v there_v))),
          (λ l.
              same
              ∙ roots-together united.root' (ids_at 2) gathered u v g.entries (g.rooted u in_u) in_u
                  in_v (linked-root united.root' united.joined u v l)),
        ),
      )

  -- The partition has a group with each of the facts, and each group is closed under links.
  pub partition-closed :
      (u v : String)
      → length (edges_of facts (env.range 1 (keys facts))) < env.fuel
      → has u facts ≡ true
      → has v facts ≡ true
      → AreLinked (IsEdge facts) u v
      → (groups : List (List String)) × (partition env facts ≡ some groups)
        × (together groups u u ≡ true)
        × All (λ g. contains g u ≡ true → contains g v ≡ true) groups
  unfolding partition
  partition-closed u v enough there_u there_v linked =
      let united =
        unite_all-IsUnited (IsEdge facts) IsFact env.fuel (edges_of facts (ids_at 1))
          (own_root (ids_at 0)) (own_height (ids_at 0)) 1 (own_parents (ids_at 0) [])
          (own_parents-IsForest (ids_at 0)) own-IsSound edges-AreEdges (omega (arith, enough)) in
      let (gathered, ends, g) =
        group_all-AreGroups united.root' united.height' (1 + length (edges_of facts (ids_at 1)))
          env.fuel (omega (arith, enough)) (ids_at 2) [] united.parent [] united.forest
          (no_groups united.root') in
      let in_u : contains (ids_at 2) u ≡ true = contains-ids_at 2 u ∙ there_u in
      let in_v : contains (ids_at 2) v ≡ true = contains-ids_at 2 v ∙ there_v in
      (
        sort_by first_less (sorted_groups gathered),
        ap (partition_from env (ids_at 2)) united.ends
            ∙ partition_from-some united.parent gathered ends,
        together-sort_by first_less (sorted_groups gathered) u u
            ∙ roots-together united.root' (ids_at 2) gathered u u g.entries (g.rooted u in_u) in_u
                in_u refl,
        All-sort_by (λ h. contains h u ≡ true → contains h v ≡ true) first_less
            (sorted_groups gathered)
            (sorted_groups-closed united.root' (ids_at 2) gathered u v g.entries in_v
              (linked-root united.root' united.joined u v linked)),
      )
