-- ===== src/Prelude/Maps.antt =====
-- Go's maps with text keys, as association lists: a key that is there keeps its place.
use Prim.Native.Nat.{◌+◌}
use Prim.Native.String.{String}
use mathlib.Core.Path.{◌≡◌, refl}
use mathlib.Core.Logic.{◌⊎◌}
use mathlib.Core.Bool.{Bool, true, false}
use mathlib.Core.Option.{Option, none, some}
use mathlib.Core.List.{List, [], ◌∷◌}
use native.Mathlib.Omega.{arith}
use text.Mathlib.Text.{◌==◌}
use text.Mathlib.TextEquality.{eq_iff}
use velarix.Prelude.Tests.{if◌then◌else◌}
use velarix.Prelude.Lists.{length}

abbrev pub Map {ℓ} : Type ℓ → Type ℓ
Map V = List (String × V)

abbrev pub is_some {ℓ} : {A : Type ℓ} → Option A → Bool
is_some none = false
is_some (some a) = true

module _ {ℓ} {V : Type ℓ} where
  -- v, ok := m[key]
  unfoldable pub lookup : String → Map V → Option V
  lookup key [] = none
  lookup key ((at, val) ∷ more) = if at == key then some val else lookup key more

  -- m[key] = val
  unfoldable pub insert : String → V → Map V → Map V
  insert key val [] = (key, val) ∷ []
  insert key val ((at, old) ∷ more) =
      if at == key then (key, val) ∷ more else (at, old) ∷ insert key val more

  -- delete(m, key)
  unfoldable pub erase : String → Map V → Map V
  erase key [] = []
  erase key ((at, old) ∷ more) =
      let rest = erase key more in if at == key then rest else (at, old) ∷ rest

  unfoldable pub keys : Map V → List String
  keys [] = []
  keys ((at, val) ∷ more) = at ∷ keys more

  abbrev pub has : String → Map V → Bool
  has key m = is_some (lookup key m)

  pub lookup-nil : (key : String) → lookup key [] ≡ none
  unfolding lookup
  lookup-nil key = refl

  pub lookup-insert :
      (key other : String) (val : V) (m : Map V)
      → lookup other (insert key val m) ≡ (if key == other then some val else lookup other m)
  unfolding lookup insert
  lookup-insert key other val [] = refl
  lookup-insert key other val ((at, old) ∷ more) =
      let ih = lookup-insert key other val more in
      ground (arith, ih, eq_iff at key, eq_iff at other, eq_iff key other)

  -- What is found after a write is what was written, or was there.
  pub insert-cases :
      (key other : String) (val found : V) (m : Map V)
      → lookup other (insert key val m) ≡ some found
      → ((key ≡ other) × (found ≡ val)) ⊎ (((key == other) ≡ false) × (lookup other m ≡ some found))
  insert-cases key other val found m h =
      ground (arith, lookup-insert key other val m, eq_iff key other)

  pub lookup-erase :
      (k j : String) (m : Map V) → lookup j (erase k m) ≡ (if k == j then none else lookup j m)
  unfolding lookup erase
  lookup-erase k j [] = ground arith
  lookup-erase k j ((i, w) ∷ m) =
      ground (arith, eq_iff k j, eq_iff i k, eq_iff i j, lookup-erase k j m)

  -- A write to a key that is there keeps the number of entries, and any other adds one.
  pub length-insert :
      (k : String) (v : V) (m : Map V)
      → length (insert k v m) ≡ (if has k m then length m else length m + 1)
  unfolding lookup insert
  length-insert k v [] = omega arith
  length-insert k v ((i, w) ∷ m) = ground (arith, length-insert k v m)
