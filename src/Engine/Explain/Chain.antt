-- ===== src/Engine/Explain/Chain.antt =====
-- The causal chain of a fact holds the fact and what it rests on, each once.
use mathlib.Core.Path.{subst}
use mathlib.Core.List.{append_assoc, append-nil}
use velarix.Prelude.{
  IsUnique, IsUnique-one, ℕ, zero, suc, ◌<◌, String, ◌≡◌, ◌↔◌, inl, inr, refl, sym, ap, ◌∙◌, true,
  false, ◌||◌, some, List, [], ◌∷◌, ◌++◌, ◌==◌, eq_iff, eq_refl, arith, contains, contains-nil,
  contains-cons, contains-append, lookup, has, Bool-cases, Option-cases,
}
use velarix.Env.{Env}
use velarix.Fact.{Fact}
use velarix.Dependencies.{trim_mark}
use velarix.Engine.{Engine, effective_status}
use velarix.Engine.Explain.{
  BeliefExplanation, belief_of, Walked, then_walk, walk_tokens, build_causal_chain,
  ExplanationOutput, enrich_for_decision_context, explained, explain_found, explain_reasoning,
}
use velarix.Engine.Explain.Ancestors.{
  chain_ids, chain_ids-append, refers, followed, IsParent, IsAncestor, itself, further,
}

module _ (e : Engine) (S : String → Type 0) where
  -- A part of the walk, from the ids `before`.
  record IsWalk (before : List String) (r : List String × List BeliefExplanation) : Type 0 where
    order : r.0 ≡ before ++ chain_ids r.1
    closed :
        (x y : String)
        → contains r.0 x ≡ true
        → contains before x ≡ false
        → IsParent e x y
        → contains r.0 y ≡ true
    sound : (x : String) → contains r.0 x ≡ true → contains before x ≡ false → S x
    unique : IsUnique before → IsUnique r.0

  IsWalk-keeps :
      (before : List String) (r : List String × List BeliefExplanation) (x : String)
      → IsWalk before r
      → contains before x ≡ true
      → contains r.0 x ≡ true
  IsWalk-keeps before r x w h =
      ap (λ l. contains l x) w.order ∙ ground (arith, contains-append before (chain_ids r.1) x, h)

  IsWalk-nil : (before : List String) → IsWalk before (before, [])
  unfolding chain_ids
  IsWalk-nil before = record {
    order = sym (append-nil before);
    closed = λ x y h g p. cc (h, g);
    sound = λ x h g. cc (h, g);
    unique = λ u. u;
  }

  IsWalk-trans :
      (before visited visited' : List String) (c d : List BeliefExplanation)
      → IsWalk before (visited, c)
      → IsWalk visited (visited', d)
      → IsWalk before (visited', c ++ d)
  IsWalk-trans before visited visited' c d w w' = record {
    order =
        w'.order
        ∙ ap (λ l. l ++ chain_ids d) w.order
        ∙ append_assoc before (chain_ids c) (chain_ids d)
        ∙ ap (λ l. before ++ l) (sym (chain_ids-append c d));
    closed = λ x y h fresh p. elim (Bool-cases (contains visited x)) [
      | inl old ↦ IsWalk-keeps visited (visited', d) y w' (w.closed x y old fresh p)
      | inr new ↦ w'.closed x y h new p
    ];
    sound = λ x h fresh. elim (Bool-cases (contains visited x)) [
      | inl old ↦ w.sound x old fresh
      | inr new ↦ w'.sound x h new
    ];
    unique = λ u. w'.unique (w.unique u);
  }

  -- A walk that has ended.
  record Ends (before : List String) (o : Walked) (P : List String → Type 0) : Type 0 where
    visited : List String
    chain : List BeliefExplanation
    ends : o ≡ some (visited, chain)
    walk : IsWalk before (visited, chain)
    meets : P visited

  then_walk-some :
      (o : Walked) (rest : List String → Walked) (visited visited' : List String)
      (c d : List BeliefExplanation)
      → o ≡ some (visited, c)
      → rest visited ≡ some (visited', d)
      → then_walk o rest ≡ some (visited', c ++ d)
  then_walk-some o rest visited visited' c d first second = rw first (rw (second, then_walk) refl)

  abbrev AllSeen : List String → List String → Type 0
  AllSeen tokens visited =
      (y : String) → refers tokens y ≡ true → has y e.facts ≡ true → contains visited y ≡ true

  -- What the walk may meet under tokens.
  abbrev Goes : (Fact → List String → Walked) → List String → Type 0
  Goes go tokens =
      (y : String) (f : Fact) (before : List String)
      → refers tokens y ≡ true
      → lookup y e.facts ≡ some f
      → Ends before (go f before) (λ visited. contains visited y ≡ true)

  walk_tokens-Ends :
      (go : Fact → List String → Walked) (tokens before : List String)
      → Goes go tokens
      → Ends before (walk_tokens go e tokens before) (AllSeen tokens)
  unfolding walk_tokens refers
  walk_tokens-Ends go [] before goes = record {
    visited = before;
    chain = [];
    ends = refl;
    walk = IsWalk-nil before;
    meets = λ y h known. cc;
  }
  walk_tokens-Ends go (token ∷ tokens) before goes =
      let later : Goes go tokens = λ y f v h there. goes y f v (ground (arith, h)) there in
      elim (Option-cases (lookup (trim_mark token) e.facts)) [
        | inl gone ↦
            let rest = walk_tokens-Ends go tokens before later in
            record {
              visited = rest.visited;
              chain = rest.chain;
              ends = rw (gone, walk_tokens) rest.ends;
              walk = rest.walk;
              meets = λ y h known. elim (Bool-cases (trim_mark token == y)) [
                | inl same ↦ absurd (ground (arith, gone, known, same, eq_iff (trim_mark token) y))
                | inr other ↦ rest.meets y (ground (arith, h, other)) known
              ];
            }
        | inr (parent, there) ↦
            let one =
              goes (trim_mark token) parent before (ground (arith, eq_refl (trim_mark token)))
                there in
            let rest = walk_tokens-Ends go tokens one.visited later in
            record {
              visited = rest.visited;
              chain = one.chain ++ rest.chain;
              ends =
                  rw (there, walk_tokens)
                    (then_walk-some (go parent before) (walk_tokens go e tokens) one.visited
                      rest.visited one.chain rest.chain one.ends rest.ends);
              walk =
                  IsWalk-trans before one.visited rest.visited one.chain rest.chain one.walk
                    rest.walk;
              meets = λ y h known. elim (Bool-cases (trim_mark token == y)) [
                | inl same ↦
                    subst (λ k. contains rest.visited k ≡ true)
                      ((eq_iff (trim_mark token) y).0 same)
                      (IsWalk-keeps one.visited (rest.visited, rest.chain) (trim_mark token)
                        rest.walk one.meets)
                | inr other ↦ rest.meets y (ground (arith, h, other)) known
              ];
            }
      ]

  module _ (env : Env) (rank : String → ℕ)
      (rising : (x y : String) → IsParent e x y → rank y < rank x)
      (keyed : (k : String) (f : Fact) → lookup k e.facts ≡ some f → f.id ≡ k)
      (onward : (x y : String) → S x → IsParent e x y → S y) where
    contains-last :
        (before : List String) (id x : String)
        → contains (before ++ id ∷ []) x ≡ (contains before x || id == x)
    contains-last before id x =
        ground (arith, contains-append before (id ∷ []) x, contains-cons id [] x, contains-nil x)

    -- The fact in front of what was found under its tokens.
    node-IsWalk :
        (f : Fact) (id : String) (before visited : List String) (chain : List BeliefExplanation)
        → lookup id e.facts ≡ some f
        → contains before id ≡ false
        → S id
        → IsWalk (before ++ id ∷ []) (visited, chain)
        → AllSeen (followed f) visited
        → IsWalk before (visited, belief_of env e f ∷ chain)
    unfolding belief_of chain_ids
    node-IsWalk f id before visited chain there fresh s w all = record {
      order =
          w.order
          ∙ append_assoc before (id ∷ []) (chain_ids chain)
          ∙ ap (λ k. before ++ k ∷ chain_ids chain) (sym (keyed id f there));
      closed = λ x y h new p. elim (Bool-cases (id == x)) [
        | inl same ↦
            let (g, at_x, by, known) = p in
            let is_f : g ≡ f =
              ground (arith, at_x, there, ap (λ k. lookup k e.facts) ((eq_iff id x).0 same)) in
            all y (subst (λ (z : Fact). refers (followed z) y ≡ true) is_f by) known
        | inr other ↦ w.closed x y h (ground (arith, contains-last before id x, new, other)) p
      ];
      sound = λ x h new. elim (Bool-cases (id == x)) [
        | inl same ↦ subst S ((eq_iff id x).0 same) s
        | inr other ↦ w.sound x h (ground (arith, contains-last before id x, new, other))
      ];
      unique = λ u. w.unique (IsUnique-one before id fresh u);
    }

    build_causal_chain-Ends :
        (fuel : ℕ) (f : Fact) (id : String) (before : List String)
        → lookup id e.facts ≡ some f
        → S id
        → rank id < fuel
        → Ends before
            (build_causal_chain fuel env e f before)
            (λ visited. contains visited id ≡ true)
    unfolding build_causal_chain
    build_causal_chain-Ends zero f id before there s enough = absurd (omega arith)
    build_causal_chain-Ends (suc fuel) f id before there s enough =
        elim (Bool-cases (contains before f.id)) [
          | inl old ↦ record {
            visited = before;
            chain = [];
            ends = rw old refl;
            walk = IsWalk-nil before;
            meets = subst (λ k. contains before k ≡ true) (keyed id f there) old;
          }
          | inr new ↦
              let is_id = keyed id f there in
              let below =
                walk_tokens-Ends (build_causal_chain fuel env e) (followed f) (before ++ id ∷ [])
                  (λ y g v by at_y.
                    let p : IsParent e id y = (f, there, by, rw at_y refl) in
                    build_causal_chain-Ends fuel g y v at_y (onward id y s p)
                      (omega (arith, rising id y p))) in
              let at_start : walk_tokens (build_causal_chain fuel env e) e (followed f)
                    (before ++ f.id ∷ [])
                  ≡ some (below.visited, below.chain) =
                ap
                  (λ k.
                    walk_tokens (build_causal_chain fuel env e) e (followed f) (before ++ k ∷ []))
                  is_id
                ∙ below.ends in
              record {
                visited = below.visited;
                chain = belief_of env e f ∷ below.chain;
                ends = rw (new, at_start) refl;
                walk =
                    node-IsWalk f id before below.visited below.chain there
                      (subst (λ k. contains before k ≡ false) is_id new) s below.walk below.meets;
                meets =
                    IsWalk-keeps (before ++ id ∷ []) (below.visited, below.chain) id below.walk
                      (ground (arith, contains-last before id id, eq_refl id));
              }
        ]

IsAncestor-seen :
    (e : Engine) (visited : List String) (id k : String)
    → contains visited id ≡ true
    → ((x y : String) → contains visited x ≡ true → IsParent e x y → contains visited y ≡ true)
    → IsAncestor e id k
    → contains visited k ≡ true
IsAncestor-seen e visited id k start closed itself = start
IsAncestor-seen e visited id k start closed (further {y = y} path p) =
    closed y k (IsAncestor-seen e visited id y start closed path) p

-- In an engine whose facts stand under their ids and can be ordered so that a fact comes after those its
-- tokens refer to, with fuel above the rank of a fact, ExplainReasoning explains the fact: the causal
-- chain names no fact twice, and it names exactly the fact and those that it rests on at any distance.
pub explain_reasoning_complete :
    (env : Env) (e : Engine) (rank : String → ℕ)
    → ((x y : String) → IsParent e x y → rank y < rank x)
    → ((k : String) (f : Fact) → lookup k e.facts ≡ some f → f.id ≡ k)
    → (id k : String) → has id e.facts ≡ true
    → rank id < env.fuel
    → (o : ExplanationOutput) × (explain_reasoning env e id ≡ explained o)
      × IsUnique (chain_ids o.causal_chain)
      × ((contains (chain_ids o.causal_chain) k ≡ true) ↔ IsAncestor e id k)
unfolding explain_reasoning explain_found enrich_for_decision_context
explain_reasoning_complete env e rank rising keyed id k there enough =
    elim (Option-cases (lookup id e.facts)) [
      | inl gone ↦ absurd (ground (arith, there, gone))
      | inr (f, at_id) ↦
          let run =
            build_causal_chain-Ends e (IsAncestor e id) env rank rising keyed
              (λ x y path p. further path p) env.fuel f id [] at_id itself enough in
          let order : run.visited ≡ chain_ids run.chain = run.walk.order in
          (
            enrich_for_decision_context id f (effective_status env e f) run.chain,
            rw (at_id, explain_reasoning, run.ends) refl,
            subst IsUnique order (run.walk.unique tt),
            (
              (λ h. run.walk.sound k (ap (λ l. contains l k) order ∙ h) (contains-nil k)),
              (λ path.
                  ap (λ l. contains l k) (sym order)
                  ∙ IsAncestor-seen e run.visited id k run.meets
                      (λ x y h p. run.walk.closed x y h (contains-nil x) p) path),
            ),
          )
    ]
