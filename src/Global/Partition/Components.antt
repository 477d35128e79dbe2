-- ===== src/Global/Partition/Components.antt =====
-- The trees after all unions are the connected components.
use mathlib.Core.Path.{subst}
use velarix.Prelude.{
  ℕ, suc, ◌+◌, ◌≤◌, String, ◌≡◌, inl, inr, refl, sym, Option, none, some, List, [], ◌∷◌, arith, Map,
  length, All,
}
use velarix.Global.Partition.{unite_all, union}
use velarix.Global.Partition.Forest.{IsForest, IsJoined, Joining, union-Joining}

-- The facts that edges connect, in any direction and number.
pub data AreLinked (Edge : String → String → Type 0) : String → String → Type 0 where
  itself : {x : String} → AreLinked Edge x x
  along : {x y z : String} → Edge x y → AreLinked Edge y z → AreLinked Edge x z
  back : {x y z : String} → Edge y x → AreLinked Edge y z → AreLinked Edge x z

module _ (Edge : String → String → Type 0) where
  pub link_trans : (x y z : String) → AreLinked Edge x y → AreLinked Edge y z → AreLinked Edge x z
  link_trans x y z itself g = g
  link_trans x y z (along e f) g = along e (link_trans _ y z f g)
  link_trans x y z (back e f) g = back e (link_trans _ y z f g)

  link_sym_onto : (x y z : String) → AreLinked Edge x y → AreLinked Edge x z → AreLinked Edge y z
  link_sym_onto x y z itself g = g
  link_sym_onto x y z (along e f) g = link_sym_onto _ y z f (back e g)
  link_sym_onto x y z (back e f) g = link_sym_onto _ y z f (along e g)

  pub link_sym : (x y : String) → AreLinked Edge x y → AreLinked Edge y x
  link_sym x y f = link_sym_onto x y x f itself

  -- A key is linked to its root.
  abbrev pub IsSound : (String → Type 0) → (String → String) → Type 0
  IsSound K root = (x : String) → K x → AreLinked Edge x (root x)

  -- The ends of each pair are keys with an edge.
  abbrev pub AreEdges : (String → Type 0) → List (String × String) → Type 0
  AreEdges K edges = All (λ (p : String × String). Edge p.0 p.1 × K p.0 × K p.1) edges

  IsSound-joined :
      (K : String → Type 0) (root root' : String → String) (x y : String)
      → IsJoined root root' x y
      → IsSound K root
      → Edge x y
      → K x
      → K y
      → IsSound K root'
  IsSound-joined K root root' x y joined sound e kx ky z kz = elim (joined.only z) [
    | inl stays ↦ subst (AreLinked Edge z) (sym stays) (sound z kz)
    | inr (from, to) ↦
        let up_to_x : AreLinked Edge z x =
          link_trans z (root z) x (sound z kz)
            (subst (λ r. AreLinked Edge r x) (sym from) (link_sym x (root x) (sound x kx))) in
        subst (AreLinked Edge z) (sym to) (link_trans z x (root y) up_to_x (along e (sound y ky)))
  ]

  -- The forest after all edges are united: its trees hold what they held and the edges, and no more
  -- than what the edges link.
  pub record IsUnited (K : String → Type 0) (root : String → String) (n : ℕ)
      (edges : List (String × String)) (o : Option (Map String)) : Type 0 where
    pub parent : Map String
    pub root' : String → String
    pub height' : String → ℕ
    pub ends : o ≡ some parent
    pub forest : IsForest parent root' height' (n + length edges)
    pub sound : IsSound K root'
    pub coarser : (u v : String) → root u ≡ root v → root' u ≡ root' v
    pub joined : All (λ (p : String × String). root' p.0 ≡ root' p.1) edges

  IsUnited-more :
      (K : String → Type 0) (root : String → String) (n : ℕ) (x y : String)
      (edges : List (String × String)) (o : Option (Map String))
      → (j : Joining root n x y o) → (rest : Map String → Option (Map String))
      → IsUnited K j.root' (suc n) edges (rest j.parent)
      → IsUnited K root n ((x, y) ∷ edges) (elim o [ none ↦ none | some m ↦ rest m ])
  IsUnited-more K root n x y edges o j rest u = record {
    parent = u.parent;
    root' = u.root';
    height' = u.height';
    ends = rw j.ends u.ends;
    forest = subst (IsForest u.parent u.root' u.height') (omega arith) u.forest;
    sound = u.sound;
    coarser = λ a b h. u.coarser a b (j.joined.coarser a b h);
    joined = (u.coarser x y j.joined.together, u.joined);
  }

  pub unite_all-IsUnited :
      (K : String → Type 0) (fuel : ℕ) (edges : List (String × String)) (root : String → String)
      (height : String → ℕ) (n : ℕ) (m : Map String)
      → IsForest m root height n
      → IsSound K root
      → AreEdges K edges
      → n + length edges ≤ fuel
      → IsUnited K root n edges (unite_all fuel edges m)
  unfolding unite_all
  unite_all-IsUnited K fuel [] root height n m f sound edgy enough = record {
    parent = m;
    root' = root;
    height' = height;
    ends = refl;
    forest = subst (IsForest m root height) (omega arith) f;
    sound = sound;
    coarser = λ u v h. h;
    joined = tt;
  }
  unite_all-IsUnited K fuel ((x, y) ∷ edges) root height n m f sound ((e, kx, ky), edgy) enough =
      let j = union-Joining root height n fuel m x y f (omega (arith, enough)) in
      IsUnited-more K root n x y edges (union fuel m x y) j (unite_all fuel edges) (
        unite_all-IsUnited K fuel edges j.root' j.height' (suc n) j.parent j.forest
          (IsSound-joined K root j.root' x y j.joined sound e kx ky) edgy (omega (arith, enough)))
