-- ===== src/Merkle/Tests.antt =====
-- Merkle roots with a hash function that can be computed by hand.
use pqblockchain.Prelude.{ℕ, ◌≡◌, ◌*◌, ◌+◌, ◌%◌, [], ◌∷◌}
use pqblockchain.Crypto.{Hash}
use pqblockchain.Merkle.{compute_merkle_root, hash_level, empty_string_hash}
use pqblockchain.Merkle.Level.{parents, hash_level-parents}
use pqblockchain.Merkle.Root.{IsRoot, compute_merkle_root-IsRoot}

-- A polynomial in the bytes, in place of SHA-512.
abbrev polynomial : Hash
polynomial [] = 7
polynomial (b ∷ bytes) = (b + 3 * polynomial bytes) % 1009

hash_level-parents_example :
    hash_level polynomial (1 ∷ (2 ∷ (3 ∷ []))) ≡ parents polynomial (1 ∷ (2 ∷ (3 ∷ [])))
hash_level-parents_example = hash_level-parents polynomial (1 ∷ (2 ∷ (3 ∷ [])))

compute_merkle_root-IsRoot_example :
    IsRoot polynomial (1 ∷ (2 ∷ (3 ∷ []))) (compute_merkle_root polynomial (1 ∷ (2 ∷ (3 ∷ []))))
    × ((b : ℕ)
        → IsRoot polynomial (1 ∷ (2 ∷ (3 ∷ []))) b
        → b ≡ compute_merkle_root polynomial (1 ∷ (2 ∷ (3 ∷ []))))
    × (compute_merkle_root polynomial [] ≡ empty_string_hash)
compute_merkle_root-IsRoot_example = compute_merkle_root-IsRoot polynomial 1 (2 ∷ (3 ∷ []))
