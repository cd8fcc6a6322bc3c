-- ===== src/Prelude/Map.antt =====
-- `std::map` and `std::unordered_map` over keys that are only compared, as association lists.
use Prim.Native.Nat.{ℕ, ◌+◌, ◌≤◌}
use mathlib.Core.Path.{◌≡◌, refl, sym, ◌∙◌}
use mathlib.Core.Logic.{◌≢◌, inl, inr}
use mathlib.Core.List.{List, [], ◌∷◌}
use mathlib.Core.Option.{Option, none, some}
use native.Mathlib.Omega.{arith}
use pqblockchain.Prelude.Tests.{◌==◌, if◌then◌else◌, ne→==, Bool-cases}
use pqblockchain.Prelude.Lists.{length}

abbrev pub Map {ℓ} : Type ℓ → Type ℓ
Map V = List (ℕ × V)

module _ {ℓ} {V : Type ℓ} where
  -- `m.find(k)`
  abbrev pub lookup : ℕ → Map V → Option V
  lookup k [] = none
  lookup k ((j, v) ∷ m) = if j == k then some v else lookup k m

  -- `m[k] = v`
  abbrev pub assign : ℕ → V → Map V → Map V
  assign k v [] = (k, v) ∷ []
  assign k v ((j, w) ∷ m) = if j == k then (j, v) ∷ m else (j, w) ∷ assign k v m

  -- `m.erase(k)`
  abbrev pub erase : ℕ → Map V → Map V
  erase k [] = []
  erase k ((j, w) ∷ m) = if j == k then m else (j, w) ∷ erase k m

  -- No key is present twice.
  abbrev pub HasKeys : Map V → Type ℓ
  HasKeys [] = Unit {ℓ}
  HasKeys ((j, v) ∷ m) = (lookup j m ≡ none) × HasKeys m

  pub lookup-assign :
      (k j : ℕ) (v : V) (m : Map V)
      → lookup j (assign k v m) ≡ (if k == j then some v else lookup j m)
  lookup-assign k j v [] = refl
  lookup-assign k j v ((i, w) ∷ m) = ground (arith, lookup-assign k j v m)

  pub lookup-assign_self : (k : ℕ) (v : V) (m : Map V) → lookup k (assign k v m) ≡ some v
  lookup-assign_self k v m = ground (arith, lookup-assign k k v m)

  pub lookup-assign_ne :
      (k j : ℕ) (v : V) (m : Map V) → k ≢ j → lookup j (assign k v m) ≡ lookup j m
  lookup-assign_ne k j v m h = ground (arith, lookup-assign k j v m)

  pub assign-HasKeys : (k : ℕ) (v : V) (m : Map V) → HasKeys m → HasKeys (assign k v m)
  assign-HasKeys k v [] h = (refl, tt)
  assign-HasKeys k v ((i, w) ∷ m) h =
      ground (arith, assign-HasKeys k v m h.1, lookup-assign k i v m)

  pub lookup-erase_ne : (k j : ℕ) (m : Map V) → k ≢ j → lookup j (erase k m) ≡ lookup j m
  lookup-erase_ne k j [] h = refl
  lookup-erase_ne k j ((i, w) ∷ m) h = ground (arith, lookup-erase_ne k j m h)

  pub lookup-erase_self : (k : ℕ) (m : Map V) → HasKeys m → lookup k (erase k m) ≡ none
  lookup-erase_self k [] h = refl
  lookup-erase_self k ((i, w) ∷ m) h = ground (arith, lookup-erase_self k m h.1)

  pub erase-HasKeys : (k : ℕ) (m : Map V) → HasKeys m → HasKeys (erase k m)
  erase-HasKeys k [] h = tt
  erase-HasKeys k ((i, w) ∷ m) h = elim (Bool-cases (i == k)) [
    | inl e ↦ rw e h.1
    | inr e ↦
        rw e (lookup-erase_ne k i m (λ same. ne→== i k e (sym same)) ∙ h.0, erase-HasKeys k m h.1)
  ]

  pub length-assign : (k : ℕ) (v : V) (m : Map V) → length (assign k v m) ≤ length m + 1
  length-assign k v [] = omega arith
  length-assign k v ((i, w) ∷ m) = ground (arith, length-assign k v m)
