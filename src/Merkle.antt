-- ===== src/Merkle.antt =====
-- src/Consensus/MerkleRootCompute.cpp. The vector of hashes is a list that is written in place.
pub mod Level
pub mod Root
mod Tests
use pqblockchain.Prelude.{
  ℕ, zero, suc, ◌+◌, ◌*◌, ◌/◌, ◌%◌, Bool, true, false, List, [], ◌∷◌, ◌++◌, map, length, take,
  get_or, set, ltb, ◌==◌, if◌then◌else◌,
}
use pqblockchain.Crypto.{Hash, hash_pair}
use pqblockchain.Transaction.{Transaction}
use pqblockchain.Transaction.Set.{TransactionSet}
use pqblockchain.Block.{Block}

-- `EMPTY_STRING_HASH` of src/Basis/PQBconstants.cpp.
abbrev pub empty_string_hash : ℕ
empty_string_hash =
    0xcf83e1357eefb8bdf1542850d66d8007d620e4050b5715dc83f4a921d36ce9ce47d0d13c5d85f2b0ff8318d2877eec2f63b931bd47417a81a538327af927da3e

-- `leafsHashes.back()`; it is never asked of an empty vector.
abbrev pub back : List ℕ → ℕ
back [] = 0
back (a ∷ []) = a
back (a ∷ (b ∷ r)) = back (b ∷ r)

-- `if (leafsHashes.size() & 1) leafsHashes.push_back(leafsHashes.back());`
unfoldable pub pad : List ℕ → List ℕ
pad hashes = if length hashes % 2 == 1 then hashes ++ back hashes ∷ [] else hashes

module _ (sha512 : Hash) where
  -- The loop over `i` and `j`, where `i` is `2 * j`, from `j` on for `n` rounds.
  unfoldable pub hash_pairs : ℕ → ℕ → List ℕ → List ℕ
  hash_pairs zero j hashes = hashes
  hash_pairs (suc n) j hashes =
      hash_pairs n (j + 1)
        (set hashes j (hash_pair sha512 (get_or hashes (2 * j) 0) (get_or hashes (2 * j + 1) 0)))

  -- One round of the `while` loop: all pairs, and the vector cut to half its size.
  unfoldable pub hash_level : List ℕ → List ℕ
  unfolding hash_pairs pad
  hash_level hashes =
      let padded = pad hashes in take (length padded / 2) (hash_pairs (length padded / 2) 0 padded)

  -- `while (leafsHashes.size() > 1)`, with fuel.
  unfoldable pub reduce : ℕ → List ℕ → List ℕ
  reduce zero hashes = hashes
  reduce (suc fuel) hashes = elim (ltb 1 (length hashes)) [
    | true ↦ reduce fuel (hash_level hashes)
    | false ↦ hashes
  ]

  -- `ComputeMerkleRoot`. Each round leaves fewer hashes, so their number is fuel enough.
  unfoldable pub compute_merkle_root : List ℕ → ℕ
  unfolding reduce hash_level
  compute_merkle_root [] = empty_string_hash
  compute_merkle_root (a ∷ r) = get_or (reduce (length (a ∷ r)) (a ∷ r)) 0 0

  -- `ComputeTxSetMerkleRoot`.
  unfoldable pub compute_tx_set_merkle_root : TransactionSet → ℕ
  unfolding compute_merkle_root
  compute_tx_set_merkle_root set = compute_merkle_root (map (λ t. t.id_hash) set)

  -- `ComputeBlocksMerkleRoot`.
  unfoldable pub compute_blocks_merkle_root : Block → ℕ
  unfolding compute_merkle_root
  compute_blocks_merkle_root b = compute_merkle_root (map (λ t. t.id_hash) b.tx_set)
