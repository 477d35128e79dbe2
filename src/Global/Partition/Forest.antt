-- ===== src/Global/Partition/Forest.antt =====
-- The parents of the union-find as a forest: `find` gives the root, and `union` joins two trees.
use velarix.Prelude.{
  ℕ, zero, suc, ◌≤◌, ◌<◌, String, ◌≡◌, ◌≢◌, ◌⊎◌, inl, inr, refl, sym, ap, ◌∙◌, false, Option, some,
  ◌==◌, eq_iff, eq_refl, arith, if◌then◌else◌, Map, insert, lookup-insert, Bool-cases, false≢true,
}
use velarix.Global.Partition.{up, shorten, find, joined_roots, union_from, union}

pub up-insert :
    (k v j : String) (m : Map String) → up (insert k v m) j ≡ (if k == j then v else up m j)
unfolding up
up-insert k v j m = ground (arith, lookup-insert k j v m)

-- The parents lead each text up to its root, which `root` names, in at most `height` steps.
pub record IsForest (parent : Map String) (root : String → String) (height : String → ℕ) (n : ℕ)
    : Type 0 where
  pub same : (x : String) → root (up parent x) ≡ root x
  pub fixed : (x : String) → up parent x ≡ x → root x ≡ x
  pub rooted : (x : String) → up parent (root x) ≡ root x
  pub lower : (x : String) → up parent x ≢ x → height (up parent x) < height x
  pub ground_level : (x : String) → height (root x) ≡ 0
  pub bounded : (x : String) → height x ≤ n

module _ (root : String → String) (height : String → ℕ) (n : ℕ) where
  root_idem : (m : Map String) → IsForest m root height n → (x : String) → root (root x) ≡ root x
  root_idem m f x = f.fixed (root x) (f.rooted x)

  root_higher :
      (m : Map String) → IsForest m root height n → (x : String) → root x ≢ x → 0 < height x
  root_higher m f x off = omega (arith, f.lower x (λ h. off (f.fixed x h)))

  module _ (m : Map String) (f : IsForest m root height n) (x : String) where
    abbrev m' : Map String
    m' = insert x (root x) m

    -- A text that is moved, or is not.
    moved :
        (z : String) → ((x ≡ z) × (up m' z ≡ root x)) ⊎ (((x == z) ≡ false) × (up m' z ≡ up m z))
    moved z = ground (arith, up-insert x (root x) z m, eq_iff x z)

    shorten-IsForest : IsForest m' root height n
    shorten-IsForest = record {
      same = λ z. elim (moved z) [
        | inl (at_z, goes) ↦ ap root goes ∙ root_idem m f x ∙ ap root at_z
        | inr (other, goes) ↦ ap root goes ∙ f.same z
      ];
      fixed = λ z h. elim (moved z) [
        | inl (at_z, goes) ↦ ap root (sym at_z) ∙ sym goes ∙ h
        | inr (other, goes) ↦ f.fixed z (sym goes ∙ h)
      ];
      rooted = λ z. elim (moved (root z)) [
        | inl (at_z, goes) ↦ goes ∙ ap root at_z ∙ root_idem m f z
        | inr (other, goes) ↦ goes ∙ f.rooted z
      ];
      lower = λ z h. elim (moved z) [
        | inl (at_z, goes) ↦
            let off : root x ≢ x = λ p. h (goes ∙ p ∙ at_z) in
            rw goes (omega (arith, f.ground_level x, root_higher m f x off, ap height at_z))
        | inr (other, goes) ↦ rw goes (f.lower z (λ p. h (goes ∙ p)))
      ];
      ground_level = f.ground_level;
      bounded = f.bounded;
    }

  -- `find` gives the root, and leaves a forest with the same roots.
  pub find_lem :
      (fuel : ℕ) (m : Map String) (x : String)
      → IsForest m root height n
      → height x ≤ fuel
      → (m' : Map String) × (find fuel m x ≡ some (m', root x)) × IsForest m' root height n
  unfolding find
  find_lem zero m x f enough = elim (Bool-cases (up m x == x)) [
    | inl top ↦ (m, rw (top, f.fixed x ((eq_iff (up m x) x).0 top)) refl, f)
    | inr below ↦
        absurd (omega (arith, f.lower x (λ p. false≢true (sym below ∙ (eq_iff (up m x) x).1 p))))
  ]
  find_lem (suc fuel) m x f enough = elim (Bool-cases (up m x == x)) [
    | inl top ↦ (m, rw (top, f.fixed x ((eq_iff (up m x) x).0 top)) refl, f)
    | inr below ↦
        let less = f.lower x (λ p. false≢true (sym below ∙ (eq_iff (up m x) x).1 p)) in
        let (m1, finds, f1) = find_lem fuel m (up m x) f (omega (arith, less)) in
        (insert x (root x) m1, rw (below, finds, shorten, f.same x) refl, shorten-IsForest m1 f1 x)
  ]

-- Roots `root'` after the trees of `x` and `y` are joined: nothing else has changed.
pub record IsJoined (root root' : String → String) (x y : String) : Type 0 where
  pub together : root' x ≡ root' y
  pub coarser : (u v : String) → root u ≡ root v → root' u ≡ root' v
  pub only : (z : String) → (root' z ≡ root z) ⊎ ((root z ≡ root x) × (root' z ≡ root y))

module _ (root : String → String) (height : String → ℕ) (n : ℕ) (m : Map String)
    (f : IsForest m root height n) (x y : String) where
  abbrev px : String
  px = root x

  abbrev py : String
  py = root y

  abbrev root' : String → String
  root' z = if root z == px then py else root z

  abbrev height' : String → ℕ
  height' z = if root z == px then suc (height z) else height z

  root'-IsJoined : (px == py) ≡ false → IsJoined root root' x y
  root'-IsJoined apart = record {
    together = ground (arith, eq_refl px);
    coarser = λ u v h. rw h refl;
    only = λ z. ground (arith, eq_iff (root z) px);
  }

  module _ (apart : (px == py) ≡ false) where
    under :
        (z : String)
        → ((px ≡ z) × (up (insert px py m) z ≡ py))
          ⊎ (((px == z) ≡ false) × (up (insert px py m) z ≡ up m z))
    under z = ground (arith, up-insert px py z m, eq_iff px z)

    -- The root of the tree that stays, and of the tree that goes.
    at_py : root py ≡ py
    at_py = root_idem root height n m f y

    at_px : root px ≡ px
    at_px = root_idem root height n m f x

    py_stays : (py == px) ≡ false
    py_stays = ground (arith, eq_iff px py, eq_iff py px)

    root'-py : root' py ≡ py
    root'-py = rw (at_py, py_stays) refl

    root'-px : root' px ≡ py
    root'-px = rw (at_px, eq_refl px) refl

    height'-py : height' py ≡ 0
    height'-py = rw (at_py, py_stays) (f.ground_level y)

    height'-px : height' px ≡ 1
    height'-px = rw (at_px, eq_refl px) (ap suc (f.ground_level x))

    union-IsForest : IsForest (insert px py m) root' height' (suc n)
    union-IsForest = record {
      same = λ z. elim (under z) [
        | inl (at_z, goes) ↦ ap root' goes ∙ root'-py ∙ sym root'-px ∙ ap root' at_z
        | inr (other, goes) ↦ ap root' goes ∙ ap (λ r. if r == px then py else r) (f.same z)
      ];
      fixed = λ z h. elim (under z) [
        | inl (at_z, goes) ↦
            absurd (false≢true (sym apart ∙ (eq_iff px py).1 (at_z ∙ sym h ∙ goes)))
        | inr (other, goes) ↦
            let here = f.fixed z (sym goes ∙ h) in
            ground (arith, here, other, eq_iff px z, eq_iff (root z) px)
      ];
      rooted = λ z. elim (Bool-cases (root z == px)) [
        | inl moves ↦ elim (under py) [
          | inl (at, goes) ↦ absurd (false≢true (sym apart ∙ (eq_iff px py).1 at))
          | inr (other, goes) ↦ rw moves (goes ∙ f.rooted y)
        ]
        | inr stays ↦ elim (under (root z)) [
          | inl (at, goes) ↦ absurd (false≢true (sym stays ∙ (eq_iff (root z) px).1 (sym at)))
          | inr (other, goes) ↦ rw stays (goes ∙ f.rooted z)
        ]
      ];
      lower = λ z h. elim (under z) [
        | inl (at_z, goes) ↦ omega (arith, ap height' goes, height'-py, height'-px, ap height' at_z)
        | inr (other, goes) ↦
            let less = f.lower z (λ p. h (goes ∙ p)) in rw (goes, f.same z) (ground (arith, less))
      ];
      ground_level = λ z. elim (Bool-cases (root z == px)) [
        | inl moves ↦ rw moves height'-py
        | inr stays ↦ rw (stays, root_idem root height n m f z, stays) (f.ground_level z)
      ];
      bounded = λ z. ground (arith, f.bounded z);
    }

-- The forest after the trees of `x` and `y` are joined.
pub record Joining (root : String → String) (n : ℕ) (x y : String) (o : Option (Map String))
    : Type 0 where
  pub parent : Map String
  pub root' : String → String
  pub height' : String → ℕ
  pub ends : o ≡ some parent
  pub forest : IsForest parent root' height' (suc n)
  pub joined : IsJoined root root' x y

higher :
    (root : String → String) (height : String → ℕ) (n : ℕ) (m : Map String)
    → IsForest m root height n
    → IsForest m root height (suc n)
higher root height n m f = record {
  same = f.same;
  fixed = f.fixed;
  rooted = f.rooted;
  lower = f.lower;
  ground_level = f.ground_level;
  bounded = λ x. omega (arith, f.bounded x);
}

joined_roots-Joining :
    (root : String → String) (height : String → ℕ) (n : ℕ) (m : Map String) (x y : String)
    → IsForest m root height n
    → Joining root n x y (joined_roots (root x) (some (m, root y)))
unfolding joined_roots
joined_roots-Joining root height n m x y f = elim (Bool-cases (root x == root y)) [
  | inl one ↦ record {
    parent = m;
    root' = root;
    height' = height;
    ends = rw one refl;
    forest = higher root height n m f;
    joined = record {
      together = (eq_iff (root x) (root y)).0 one;
      coarser = λ u v h. h;
      only = λ z. inl refl;
    };
  }
  | inr apart ↦ record {
    parent = insert (root x) (root y) m;
    root' = root' root height n m f x y;
    height' = height' root height n m f x y;
    ends = rw apart refl;
    forest = union-IsForest root height n m f x y apart;
    joined = root'-IsJoined root height n m f x y apart;
  }
]

pub union-Joining :
    (root : String → String) (height : String → ℕ) (n fuel : ℕ) (m : Map String) (x y : String)
    → IsForest m root height n
    → n ≤ fuel
    → Joining root n x y (union fuel m x y)
unfolding union union_from
union-Joining root height n fuel m x y f enough =
    let (m1, finds_x, f1) = find_lem root height n fuel m x f (omega (arith, f.bounded x)) in
    let (m2, finds_y, f2) = find_lem root height n fuel m1 y f1 (omega (arith, f1.bounded y)) in
    rw (finds_x, union_from, finds_y) (joined_roots-Joining root height n m2 x y f2)
