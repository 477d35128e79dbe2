-- ===== src/Prelude/Lists.antt =====
-- Lists measured by native numbers, and lists of texts as sets.
use Prim.Native.Nat.{ℕ, suc, ◌+◌}
use Prim.Native.String.{String}
use mathlib.Core.Path.{◌≡◌, refl}
use mathlib.Core.Logic.{◌⊎◌, inl, inr}
use mathlib.Core.Bool.{Bool, false, ◌||◌}
use mathlib.Core.List.{List, [], ◌∷◌, ◌++◌}
use native.Mathlib.Omega.{arith}
use text.Mathlib.Text.{◌==◌}
use text.Mathlib.TextEquality.{eq_iff}
use velarix.Prelude.Tests.{if◌then◌else◌}

module _ {ℓ} {A : Type ℓ} where
  abbrev pub length : List A → ℕ
  length [] = 0
  length (x ∷ xs) = suc (length xs)

  pub length-append : (xs ys : List A) → length (xs ++ ys) ≡ length xs + length ys
  length-append [] ys = omega arith
  length-append (x ∷ xs) ys = omega (arith, length-append xs ys)

-- `containsString` of core/consistency.go, and the test `_, ok := set[k]` on a set of texts.
unfoldable pub contains : List String → String → Bool
contains [] k = false
contains (x ∷ xs) k = x == k || contains xs k

-- `set[k] = struct{}{}` and `delete(set, k)`.
unfoldable pub add : List String → String → List String
add s k = if contains s k then s else s ++ k ∷ []

unfoldable pub discard : List String → String → List String
discard [] k = []
discard (x ∷ xs) k = let rest = discard xs k in if x == k then rest else x ∷ rest

pub contains-nil : (k : String) → contains [] k ≡ false
unfolding contains
contains-nil k = refl

pub contains-cons :
    (x : String) (xs : List String) (k : String) → contains (x ∷ xs) k ≡ (x == k || contains xs k)
unfolding contains
contains-cons x xs k = refl

pub contains-append :
    (xs ys : List String) (k : String) → contains (xs ++ ys) k ≡ (contains xs k || contains ys k)
unfolding contains
contains-append [] ys k = refl
contains-append (x ∷ xs) ys k = ground (arith, contains-append xs ys k)

pub contains-add :
    (xs : List String) (x k : String) → contains (add xs x) k ≡ (x == k || contains xs k)
unfolding add
contains-add xs x k =
    ground (arith, eq_iff x k, contains-append xs (x ∷ []) k, contains-cons x [] k, contains-nil k)

-- No text stands in the list twice.
abbrev pub IsUnique : List String → Type 0
IsUnique [] = Unit
IsUnique (x ∷ xs) = (contains xs x ≡ false) × IsUnique xs

pub IsUnique-one :
    (xs : List String) (k : String) → contains xs k ≡ false → IsUnique xs → IsUnique (xs ++ k ∷ [])
IsUnique-one [] k fresh h = (contains-nil k, tt)
IsUnique-one (x ∷ xs) k fresh (first, rest) = (
  ground (
    arith,
    first,
    fresh,
    contains-cons x xs k,
    contains-append xs (k ∷ []) x,
    contains-cons k [] x,
    contains-nil x,
    eq_iff k x,
    eq_iff x k,
  ),
  IsUnique-one xs k (ground (arith, fresh, contains-cons x xs k)) rest,
)

abbrev pub All {ℓ κ} : {A : Type ℓ} → (A → Type κ) → List A → Type κ
All P [] = Unit
All P (x ∷ xs) = P x × All P xs

pub List-cases {ℓ} : {A : Type ℓ} (l : List A) → (l ≡ []) ⊎ ((x : A) × (xs : List A) × (l ≡ x ∷ xs))
List-cases [] = inl refl
List-cases (x ∷ xs) = inr (x, xs, refl)
