-- ===== src/Prelude/Set.antt =====
-- `std::set` over keys that are only compared, as a list.
use Prim.Native.Nat.{ℕ}
use mathlib.Core.Path.{◌≡◌, ap}
use mathlib.Core.Bool.{Bool, true, false}
use mathlib.Core.List.{List, [], ◌∷◌}
use native.Mathlib.Omega.{arith}
use pqblockchain.Prelude.Tests.{◌==◌, if◌then◌else◌}

-- `s.find(k) != s.end()`
abbrev pub contains : ℕ → List ℕ → Bool
contains k [] = false
contains k (j ∷ s) = if j == k then true else contains k s

-- `s.insert(k)`
abbrev pub include : ℕ → List ℕ → List ℕ
include k s = if contains k s then s else k ∷ s

-- `s.erase(k)`, and what `std::remove_if` keeps of a vector.
abbrev pub exclude : ℕ → List ℕ → List ℕ
exclude k [] = []
exclude k (j ∷ s) = if j == k then exclude k s else j ∷ exclude k s

contains_same : (k j : ℕ) (s : List ℕ) → k ≡ j → contains k s ≡ contains j s
contains_same k j s e = ap (λ i. contains i s) e

pub contains-include :
    (k j : ℕ) (s : List ℕ) → contains j (include k s) ≡ (if k == j then true else contains j s)
contains-include k j s = ground (arith, contains_same k j s)

pub contains-exclude :
    (k j : ℕ) (s : List ℕ) → contains j (exclude k s) ≡ (if k == j then false else contains j s)
contains-exclude k j [] = ground arith
contains-exclude k j (i ∷ s) = ground (arith, contains-exclude k j s)
