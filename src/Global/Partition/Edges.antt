-- ===== src/Global/Partition/Edges.antt =====
-- The pairs that the partition unites: a fact, and a global fact that one of its tokens refers to.
use mathlib.Core.Path.{subst}
use velarix.Prelude.{
  String, ◌≡◌, inl, inr, sym, ap, ◌∙◌, Bool, true, false, ◌||◌, none, some, List, [], ◌∷◌, ◌++◌,
  ◌==◌, eq_iff, eq_refl, arith, if◌then◌else◌, contains, contains-nil, contains-cons, Map, lookup,
  has, Bool-cases, Option-cases, All,
}
use velarix.Fact.{Fact}
use velarix.Global.Partition.{token_id, edges_of_set, edges_of_sets, edges_of}

unfoldable pub mentions_in_set : List String → String → Bool
mentions_in_set [] v = false
mentions_in_set (token ∷ tokens) v = token_id token == v || mentions_in_set tokens v

unfoldable pub mentions : List (List String) → String → Bool
mentions [] v = false
mentions (set ∷ sets) v = mentions_in_set set v || mentions sets v

-- A fact has a token that refers to a global fact.
abbrev pub IsEdge : Map Fact → String → String → Type 0
IsEdge facts u v =
    (f : Fact) × (lookup u facts ≡ some f)
    × (mentions f.justification_sets v ≡ true)
    × (has v facts ≡ true)

module _ {A : Type 0} (P : A → Type 0) where
  All-append : (xs ys : List A) → All P xs → All P ys → All P (xs ++ ys)
  All-append [] ys h g = g
  All-append (x ∷ xs) ys (first, rest) g = (first, All-append xs ys rest g)

  All-append_left : (xs ys : List A) → All P (xs ++ ys) → All P xs
  All-append_left [] ys h = tt
  All-append_left (x ∷ xs) ys (first, rest) = (first, All-append_left xs ys rest)

  All-append_right : (xs ys : List A) → All P (xs ++ ys) → All P ys
  All-append_right [] ys h = h
  All-append_right (x ∷ xs) ys (first, rest) = All-append_right xs ys rest

  All-if : (b : Bool) (x : A) (l : List A) → All P (if b then x ∷ l else l) → All P l
  All-if true x l (first, rest) = rest
  All-if false x l h = h

module _ (facts : Map Fact) (P : String × String → Type 0) where
  All-edges_of_set :
      (id : String) (tokens : List String)
      → ((v : String) → mentions_in_set tokens v ≡ true → has v facts ≡ true → P (id, v))
      → All P (edges_of_set facts id tokens)
  unfolding edges_of_set mentions_in_set
  All-edges_of_set id [] h = tt
  All-edges_of_set id (token ∷ tokens) h =
      let rest = All-edges_of_set id tokens (λ v m there. h v (ground (arith, m)) there) in
      elim (Bool-cases (has (token_id token) facts)) [
        | inl there ↦
            rw there (h (token_id token) (ground (arith, eq_refl (token_id token))) there, rest)
        | inr gone ↦ rw gone rest
      ]

  edge_of_set :
      (id : String) (tokens : List String) (v : String)
      → All P (edges_of_set facts id tokens)
      → mentions_in_set tokens v ≡ true
      → has v facts ≡ true
      → P (id, v)
  unfolding edges_of_set mentions_in_set
  edge_of_set id [] v all m there = cc
  edge_of_set id (token ∷ tokens) v all m there = elim (Bool-cases (token_id token == v)) [
    | inl same ↦
        let is_v = (eq_iff (token_id token) v).0 same in
        let known : has (token_id token) facts ≡ true = ap (λ k. has k facts) is_v ∙ there in
        let both : P (id, token_id token) × All P (edges_of_set facts id tokens) =
          subst
            (λ b. All P (
              if b
              then (id, token_id token) ∷ edges_of_set facts id tokens
              else edges_of_set facts id tokens))
            known all in
        subst (λ k. P (id, k)) is_v both.0
    | inr other ↦
        edge_of_set id tokens v
          (All-if P (has (token_id token) facts) (id, token_id token) (edges_of_set facts id tokens)
            all)
          (ground (arith, m, other)) there
  ]

  All-edges_of_sets :
      (id : String) (sets : List (List String))
      → ((v : String) → mentions sets v ≡ true → has v facts ≡ true → P (id, v))
      → All P (edges_of_sets facts id sets)
  unfolding edges_of_sets mentions
  All-edges_of_sets id [] h = tt
  All-edges_of_sets id (set ∷ sets) h =
      All-append P (edges_of_set facts id set) (edges_of_sets facts id sets)
        (All-edges_of_set id set (λ v m there. h v (ground (arith, m)) there))
        (All-edges_of_sets id sets (λ v m there. h v (ground (arith, m)) there))

  edge_of_sets :
      (id : String) (sets : List (List String)) (v : String)
      → All P (edges_of_sets facts id sets)
      → mentions sets v ≡ true
      → has v facts ≡ true
      → P (id, v)
  unfolding edges_of_sets mentions
  edge_of_sets id [] v all m there = cc
  edge_of_sets id (set ∷ sets) v all m there = elim (Bool-cases (mentions_in_set set v)) [
    | inl here ↦
        edge_of_set id set v
          (All-append_left P (edges_of_set facts id set) (edges_of_sets facts id sets) all) here
          there
    | inr other ↦
        edge_of_sets id sets v
          (All-append_right P (edges_of_set facts id set) (edges_of_sets facts id sets) all)
          (ground (arith, m, other)) there
  ]

  module _ (keyed : (k : String) (f : Fact) → lookup k facts ≡ some f → f.id ≡ k) where
    -- What holds of all edges holds of all pairs.
    pub All-edges_of :
        (l : List String)
        → ((u v : String) → IsEdge facts u v → P (u, v))
        → All P (edges_of facts l)
    unfolding edges_of
    All-edges_of [] h = tt
    All-edges_of (key ∷ l) h = elim (Option-cases (lookup key facts)) [
      | inl gone ↦ rw (gone, edges_of) (All-edges_of l h)
      | inr (f, there) ↦
          let is_key = keyed key f there in
          rw (there, edges_of)
            (All-append P (edges_of_sets facts f.id f.justification_sets) (edges_of facts l)
              (All-edges_of_sets f.id f.justification_sets
                (λ v m known. subst (λ k. P (k, v)) (sym is_key) (h key v (f, there, m, known))))
              (All-edges_of l h))
    ]

    edges_of-some :
        (key : String) (l : List String) (f : Fact)
        → lookup key facts ≡ some f
        → edges_of facts (key ∷ l)
          ≡ edges_of_sets facts f.id f.justification_sets ++ edges_of facts l
    unfolding edges_of
    edges_of-some key l f there = rw (there, edges_of)

    edges_of-none :
        (key : String) (l : List String)
        → lookup key facts ≡ none
        → edges_of facts (key ∷ l) ≡ edges_of facts l
    unfolding edges_of
    edges_of-none key l gone = rw (gone, edges_of)

    pairs_of :
        (key : String) (l : List String) (f : Fact)
        → lookup key facts ≡ some f
        → All P (edges_of facts (key ∷ l))
        → All P (edges_of_sets facts f.id f.justification_sets ++ edges_of facts l)
    unfolding edges_of
    pairs_of key l f there all = subst (All P) (edges_of-some key l f there) all

    gone_of :
        (key : String) (l : List String)
        → lookup key facts ≡ none
        → All P (edges_of facts (key ∷ l))
        → All P (edges_of facts l)
    gone_of key l gone all = subst (All P) (edges_of-none key l gone) all

    rest_of :
        (key : String) (l : List String)
        → All P (edges_of facts (key ∷ l))
        → All P (edges_of facts l)
    unfolding edges_of
    rest_of key l all = elim (Option-cases (lookup key facts)) [
      | inl gone ↦ gone_of key l gone all
      | inr (f, there) ↦
          All-append_right P (edges_of_sets facts f.id f.justification_sets) (edges_of facts l)
            (pairs_of key l f there all)
    ]

    -- What holds of all pairs holds of all edges from the keys.
    pub edge_of :
        (l : List String) (u v : String)
        → All P (edges_of facts l)
        → contains l u ≡ true
        → IsEdge facts u v
        → P (u, v)
    edge_of [] u v all listed e = cc (listed, contains-nil u)
    edge_of (key ∷ l) u v all listed (f, there, m, known) = elim (Bool-cases (key == u)) [
      | inl same ↦
          let is_u = (eq_iff key u).0 same in
          let pairs = pairs_of key l f (ap (λ k. lookup k facts) is_u ∙ there) all in
          subst (λ k. P (k, v)) (keyed u f there)
            (edge_of_sets f.id f.justification_sets v
              (All-append_left P (edges_of_sets facts f.id f.justification_sets) (edges_of facts l)
                pairs)
              m known)
      | inr other ↦
          edge_of l u v (rest_of key l all) (ground (arith, listed, other, contains-cons key l u))
            (f, there, m, known)
    ]
