-- ===== src/Serialize/Bytes.antt =====
-- The bytes of a number, least significant first, and back.
use native.Mathlib.Nat.{pow-suc}
use pqblockchain.Prelude.{
  ℕ, zero, suc, ◌+◌, ◌*◌, ◌/◌, ◌%◌, ◌^◌, ◌<◌, ◌≡◌, refl, ap, List, [], ◌∷◌, length, All, arith,
}

unfoldable pub le_bytes : ℕ → ℕ → List ℕ
le_bytes zero v = []
le_bytes (suc n) v = (v % 256) ∷ le_bytes n (v / 256)

unfoldable pub le_number : List ℕ → ℕ
le_number [] = 0
le_number (b ∷ bs) = b + 256 * le_number bs

pub length-le_bytes : (n v : ℕ) → length (le_bytes n v) ≡ n
unfolding le_bytes
length-le_bytes zero v = refl
length-le_bytes (suc n) v = ap suc (length-le_bytes n (v / 256))

unfoldable pub le_number-le_bytes : (n v : ℕ) → v < 256 ^ n → le_number (le_bytes n v) ≡ v
unfolding le_bytes le_number
le_number-le_bytes zero v h = omega arith
le_number-le_bytes (suc n) v h =
    omega (arith, le_number-le_bytes n (v / 256) (omega (arith, pow-suc 256 n)))

-- Each byte is below 256.
abbrev pub IsBytes : List ℕ → Type 0
IsBytes = All (λ b. b < 256)

pub le_bytes-IsBytes : (n v : ℕ) → IsBytes (le_bytes n v)
unfolding le_bytes
le_bytes-IsBytes zero v = tt
le_bytes-IsBytes (suc n) v = (omega arith, le_bytes-IsBytes n (v / 256))

pub le_number-lt : (bytes : List ℕ) → IsBytes bytes → le_number bytes < 256 ^ length bytes
unfolding le_number
le_number-lt [] h = omega arith
le_number-lt (b ∷ bytes) h =
    let first = h.0 in
    let rest : le_number bytes < 256 ^ length bytes = le_number-lt bytes h.1 in
    omega (arith, pow-suc 256 (length bytes))
