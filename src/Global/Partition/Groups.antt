-- ===== src/Global/Partition/Groups.antt =====
-- The groups that the partition makes of the facts, by their roots.
use velarix.Prelude.{
  String, ◌≡◌, inl, inr, refl, ap, Bool, true, false, ◌||◌, ◌&&◌, none, some, List, [], ◌∷◌, ◌++◌,
  ◌==◌, eq_iff, arith, contains, contains-nil, contains-cons, contains-append, Map, lookup, insert,
  has, lookup-insert, Bool-cases, Option-cases, All,
}
use velarix.Consistency.Report.Ids.{contains-sort_by}
use velarix.Consistency.Report.{insert_sorted, sort_by, is_less}
use velarix.Global.Partition.{group_under, sorted_groups}

-- Whether some group holds both ids.
unfoldable pub together : List (List String) → String → String → Bool
together [] u v = false
together (ids ∷ groups) u v = (contains ids u && contains ids v) || together groups u v

together-insert_sorted :
    (less : List String → List String → Bool) (x : List String) (l : List (List String))
    (u v : String)
    → together (insert_sorted less x l) u v ≡ ((contains x u && contains x v) || together l u v)
unfolding insert_sorted together
together-insert_sorted less x [] u v = refl
together-insert_sorted less x (y ∷ l) u v = ground (arith, together-insert_sorted less x l u v)

pub together-sort_by :
    (less : List String → List String → Bool) (l : List (List String)) (u v : String)
    → together (sort_by less l) u v ≡ together l u v
unfolding sort_by together
together-sort_by less [] u v = refl
together-sort_by less (x ∷ l) u v =
    ground (arith, together-insert_sorted less x (sort_by less l) u v, together-sort_by less l u v)

module _ {A : Type 0} (P : A → Type 0) (less : A → A → Bool) where
  All-insert_sorted : (x : A) (l : List A) → P x → All P l → All P (insert_sorted less x l)
  unfolding insert_sorted
  All-insert_sorted x [] first rest = (first, tt)
  All-insert_sorted x (y ∷ l) first (second, rest) = elim (Bool-cases (less y x)) [
    | inl after ↦ rw after (second, All-insert_sorted x l first rest)
    | inr before ↦ rw before (first, (second, rest))
  ]

  pub All-sort_by : (l : List A) → All P l → All P (sort_by less l)
  unfolding sort_by
  All-sort_by [] h = tt
  All-sort_by (x ∷ l) (first, rest) =
      All-insert_sorted x (sort_by less l) first (All-sort_by l rest)

module _ {V : Type 0} where
  abbrev pub AreDistinct : Map V → Type 0
  AreDistinct [] = Unit
  AreDistinct ((k, v) ∷ m) = (has k m ≡ false) × AreDistinct m

  AreDistinct-insert : (k : String) (v : V) (m : Map V) → AreDistinct m → AreDistinct (insert k v m)
  unfolding insert
  AreDistinct-insert k v [] h = (unfold lookup in refl, tt)
  AreDistinct-insert k v ((j, w) ∷ m) (first, rest) = elim (Bool-cases (j == k)) [
    | inl same ↦ rw same (ground (arith, first, eq_iff j k), rest)
    | inr other ↦ rw other (
      ground (arith, first, other, lookup-insert k j v m, eq_iff j k, eq_iff k j),
      AreDistinct-insert k v m rest,
    )
  ]

  -- The entries of a map after a write.
  module _ (E E' : String → V → Type 0) (k : String)
      (step : (r : String) (g : V) → (r == k) ≡ false → E r g → E' r g) where
    abbrev Entries : (String → V → Type 0) → Map V → Type 0
    Entries P m = All (λ (p : String × V). P p.0 p.1) m

    Entries-apart : (m : Map V) → has k m ≡ false → Entries E m → Entries E' m
    unfolding lookup
    Entries-apart [] apart h = tt
    Entries-apart ((j, w) ∷ m) apart (first, rest) = elim (Bool-cases (j == k)) [
      | inl same ↦ absurd (ground (arith, apart, same))
      | inr other ↦ (step j w other first, Entries-apart m (ground (arith, apart, other)) rest)
    ]

    Entries-insert :
        (v : V) (m : Map V) → E' k v → AreDistinct m → Entries E m → Entries E' (insert k v m)
    unfolding insert
    Entries-insert v [] new distinct h = (new, tt)
    Entries-insert v ((j, w) ∷ m) new (first_alone, distinct) (first, rest) =
        elim (Bool-cases (j == k)) [
          | inl same ↦ rw same (new, Entries-apart m (ground (arith, first_alone, eq_iff j k)) rest)
          | inr other ↦ rw other (step j w other first, Entries-insert v m new distinct rest)
        ]

module _ (root : String → String) where
  -- The groups hold the ids looked at so far, each in the group of its root.
  abbrev IsGroup : List String → String → List String → Type 0
  IsGroup ids r g = (u : String) → contains g u ≡ (contains ids u && root u == r)

  pub record AreGroups (ids : List String) (groups : Map (List String)) : Type 0 where
    pub distinct : AreDistinct groups
    pub entries : All (λ (p : String × List String). IsGroup ids p.0 p.1) groups
    pub rooted : (u : String) → contains ids u ≡ true → has (root u) groups ≡ true

  entry-lookup :
      (ids : List String) (groups : Map (List String)) (r : String) (g : List String)
      → All (λ (p : String × List String). IsGroup ids p.0 p.1) groups
      → lookup r groups ≡ some g
      → IsGroup ids r g
  unfolding lookup
  entry-lookup ids [] r g h at_r = λ u. cc
  entry-lookup ids ((j, w) ∷ groups) r g (first, rest) at_r = λ u. elim (Bool-cases (j == r)) [
    | inl same ↦ ground (arith, at_r, same, eq_iff j r, first u)
    | inr other ↦ entry-lookup ids groups r g rest (ground (arith, at_r, other)) u
  ]

  contains-more :
      (ids : List String) (id u : String)
      → contains (ids ++ id ∷ []) u ≡ (contains ids u || id == u)
  contains-more ids id u =
      ground (arith, contains-append ids (id ∷ []) u, contains-cons id [] u, contains-nil u)

  module _ (ids : List String) (id : String) where
    -- The other groups stay as they are.
    stays :
        (r : String) (g : List String)
        → (r == root id) ≡ false
        → IsGroup ids r g
        → IsGroup (ids ++ id ∷ []) r g
    stays r g other group u = elim (Bool-cases (id == u)) [
      | inl same ↦
          let at_u : root id ≡ root u = ap root ((eq_iff id u).0 same) in
          ground
            (arith, group u, contains-more ids id u, eq_iff (root u) r, eq_iff r (root id), at_u)
      | inr fresh ↦ ground (arith, group u, contains-more ids id u)
    ]

    joins :
        (g : List String)
        → IsGroup ids (root id) g
        → IsGroup (ids ++ id ∷ []) (root id) (g ++ id ∷ [])
    joins g group u = elim (Bool-cases (id == u)) [
      | inl same ↦
          let at_u : root id ≡ root u = ap root ((eq_iff id u).0 same) in
          ground (
            arith,
            group u,
            contains-more ids id u,
            contains-more g id u,
            eq_iff (root u) (root id),
            at_u,
          )
      | inr fresh ↦ ground (arith, group u, contains-more ids id u, contains-more g id u)
    ]

    -- A first id of its root.
    begins :
        (groups : Map (List String))
        → AreGroups ids groups
        → lookup (root id) groups ≡ none
        → IsGroup ids (root id) []
    begins groups g gone u = elim (Bool-cases (contains ids u && root u == root id)) [
      | inr apart ↦ ground (arith, apart, contains-nil u)
      | inl here ↦
          let there = g.rooted u (ground (arith, here)) in
          absurd (ground (arith, there, here, gone, eq_iff (root u) (root id)))
    ]

    rooted-insert :
        (groups : Map (List String)) (v : List String) (u : String)
        → AreGroups ids groups
        → contains (ids ++ id ∷ []) u ≡ true
        → has (root u) (insert (root id) v groups) ≡ true
    rooted-insert groups v u g h = elim (Bool-cases (id == u)) [
      | inl same ↦
          let at_u : root id ≡ root u = ap root ((eq_iff id u).0 same) in
          ground (arith, lookup-insert (root id) (root u) v groups, eq_iff (root id) (root u), at_u)
      | inr fresh ↦
          let there = g.rooted u (ground (arith, h, contains-more ids id u, fresh)) in
          ground (arith, lookup-insert (root id) (root u) v groups, there)
    ]

    group-insert :
        (groups : Map (List String)) (v : List String)
        → AreGroups ids groups
        → IsGroup (ids ++ id ∷ []) (root id) v
        → AreGroups (ids ++ id ∷ []) (insert (root id) v groups)
    group-insert groups v g new = record {
      distinct = AreDistinct-insert (root id) v groups g.distinct;
      entries =
          Entries-insert (IsGroup ids) (IsGroup (ids ++ id ∷ [])) (root id) stays v groups new
            g.distinct g.entries;
      rooted = λ u h. rooted-insert groups v u g h;
    }

    pub group_under-AreGroups :
        (groups : Map (List String))
        → AreGroups ids groups
        → AreGroups (ids ++ id ∷ []) (group_under (root id) id groups)
    unfolding group_under
    group_under-AreGroups groups g = elim (Option-cases (lookup (root id) groups)) [
      | inl gone ↦
          rw (gone, group_under) (group-insert groups (id ∷ []) g (joins [] (begins groups g gone)))
      | inr (old, at_root) ↦
          rw (at_root, group_under)
            (group-insert groups (old ++ id ∷ []) g
              (joins old (entry-lookup ids groups (root id) old g.entries at_root)))
    ]

  -- Two ids stand in one group exactly when they have one root.
  pub together-roots :
      (ids : List String) (groups : Map (List String)) (u v : String)
      → All (λ (p : String × List String). IsGroup ids p.0 p.1) groups
      → together (sorted_groups groups) u v ≡ true
      → root u ≡ root v
  unfolding together sorted_groups
  together-roots ids [] u v h t = cc
  together-roots ids ((r, g) ∷ groups) u v (first, rest) t =
      elim (Bool-cases (contains g u && contains g v)) [
        | inl both ↦ ground (arith, both, first u, first v, eq_iff (root u) r, eq_iff (root v) r)
        | inr apart ↦
            together-roots ids groups u v rest
              (ground (arith, t, apart, contains-sort_by is_less g u, contains-sort_by is_less g v))
      ]

  pub roots-together :
      (ids : List String) (groups : Map (List String)) (u v : String)
      → All (λ (p : String × List String). IsGroup ids p.0 p.1) groups
      → has (root u) groups ≡ true
      → contains ids u ≡ true
      → contains ids v ≡ true
      → root u ≡ root v
      → together (sorted_groups groups) u v ≡ true
  unfolding together sorted_groups lookup
  roots-together ids [] u v h there in_u in_v one = cc
  roots-together ids ((r, g) ∷ groups) u v (first, rest) there in_u in_v one =
      elim (Bool-cases (r == root u)) [
        | inl same ↦ ground (
          arith,
          same,
          first u,
          first v,
          in_u,
          in_v,
          one,
          eq_iff r (root u),
          eq_iff (root u) r,
          eq_iff (root v) r,
          contains-sort_by is_less g u,
          contains-sort_by is_less g v,
        )
        | inr other ↦
            let later =
              roots-together ids groups u v rest (ground (arith, there, other)) in_u in_v one in
            ground (arith, later)
      ]

  -- A group that holds an id holds the others of its root.
  pub sorted_groups-closed :
      (ids : List String) (groups : Map (List String)) (u v : String)
      → All (λ (p : String × List String). IsGroup ids p.0 p.1) groups
      → contains ids v ≡ true
      → root u ≡ root v
      → All (λ g. contains g u ≡ true → contains g v ≡ true) (sorted_groups groups)
  unfolding sorted_groups
  sorted_groups-closed ids [] u v h in_v one = tt
  sorted_groups-closed ids ((r, g) ∷ groups) u v (first, rest) in_v one = (
    λ held. ground (
      arith,
      held,
      contains-sort_by is_less g u,
      contains-sort_by is_less g v,
      first u,
      first v,
      in_v,
      one,
    ),
    sorted_groups-closed ids groups u v rest in_v one,
  )
