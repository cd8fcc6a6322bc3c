-- ===== src/Merkle/Root.antt =====
-- The root of the tree: what it is, that it is always reached, and which lists share it.
use pqblockchain.Prelude.{
  ℕ, zero, suc, ◌+◌, ◌≡◌, ◌≤◌, ◌<◌, refl, ap, List, [], ◌∷◌, ◌++◌, length, length-append, get_or,
  lt→ltb, arith,
}
use pqblockchain.Crypto.{Hash, hash_pair}
use pqblockchain.Merkle.{empty_string_hash, reduce, compute_merkle_root}
use pqblockchain.Merkle.Level.{parents, length-parents, hash_level-parents}

-- The root of a tree over these leaves, level by level.
pub data IsRoot (sha512 : Hash) : List ℕ → ℕ → Type 0 where
  root : (a : ℕ) → IsRoot sha512 (a ∷ []) a
  level :
      {hashes : List ℕ} {a : ℕ}
      → 1 < length hashes
      → IsRoot sha512 (parents sha512 hashes) a
      → IsRoot sha512 hashes a

module _ (sha512 : Hash) where
  reduce-IsRoot :
      (fuel : ℕ) (hashes : List ℕ)
      → 0 < length hashes
      → length hashes ≤ fuel
      → IsRoot sha512 hashes (get_or (reduce sha512 fuel hashes) 0 0)
  unfolding reduce
  reduce-IsRoot zero hashes h k = absurd (omega arith)
  reduce-IsRoot (suc fuel) [] h k = elim h [ ]
  reduce-IsRoot (suc fuel) (a ∷ []) h k = root a
  reduce-IsRoot (suc fuel) (a ∷ (b ∷ r)) h k =
      rw
        (
          lt→ltb 1 (length (a ∷ (b ∷ r))) (omega arith),
          reduce,
          hash_level-parents sha512 (a ∷ (b ∷ r)),
        )
        (level (omega arith) (
          reduce-IsRoot fuel (parents sha512 (a ∷ (b ∷ r)))
            (omega (arith, length-parents sha512 (a ∷ (b ∷ r))))
            (omega (arith, length-parents sha512 (a ∷ (b ∷ r))))))

  below :
      {hashes : List ℕ} {a : ℕ}
      → IsRoot sha512 hashes a
      → 1 < length hashes
      → IsRoot sha512 (parents sha512 hashes) a
  below (root a) h = absurd (omega arith)
  below (level _ r) h = r

  -- A list of leaves has one root at most.
  IsRoot-unique :
      {hashes : List ℕ} {a b : ℕ} → IsRoot sha512 hashes a → IsRoot sha512 hashes b → a ≡ b
  IsRoot-unique (root a) r = single r
    where
      single : {b : ℕ} → IsRoot sha512 (a ∷ []) b → a ≡ b
      single (root _) = refl
      single (level h _) = absurd (omega arith)
  IsRoot-unique (level h q) r = IsRoot-unique q (below r h)

  -- `ComputeMerkleRoot` ends, and gives the root of the tree over any leaves, of which there is one:
  -- each level pairs the nodes of the one below, the last with itself where their number is odd.
  -- Without leaves it gives the fixed hash of the empty string.
  pub compute_merkle_root-IsRoot :
      (a : ℕ) (r : List ℕ)
      → IsRoot sha512 (a ∷ r) (compute_merkle_root sha512 (a ∷ r))
        × ((b : ℕ) → IsRoot sha512 (a ∷ r) b → b ≡ compute_merkle_root sha512 (a ∷ r))
        × (compute_merkle_root sha512 [] ≡ empty_string_hash)
  unfolding compute_merkle_root
  compute_merkle_root-IsRoot a r =
      let found : IsRoot sha512 (a ∷ r) (get_or (reduce sha512 (length (a ∷ r)) (a ∷ r)) 0 0) =
        reduce-IsRoot (length (a ∷ r)) (a ∷ r) (omega arith) (omega arith) in
      (found, λ b other. IsRoot-unique other found, refl)

  parents-double :
      (n : ℕ) (hashes : List ℕ) (a : ℕ)
      → length hashes ≡ n + n
      → parents sha512 (hashes ++ a ∷ []) ≡ parents sha512 (hashes ++ a ∷ (a ∷ []))
  unfolding parents
  parents-double zero [] a h = refl
  parents-double zero (b ∷ r) a h = absurd (omega arith)
  parents-double (suc n) [] a h = absurd (omega arith)
  parents-double (suc n) (b ∷ []) a h = absurd (omega arith)
  parents-double (suc n) (b ∷ (c ∷ r)) a h =
      ap (◌∷◌ (hash_pair sha512 b c)) (parents-double n r a (omega arith))

  -- Whatever the hash function, a list of an odd number of leaves, three at least, has the Merkle
  -- root of the longer list that repeats its last leaf: the root does not determine the leaves.
  pub compute_merkle_root-double :
      (n : ℕ) (b : ℕ) (r : List ℕ) (a : ℕ)
      → length (b ∷ r) ≡ n + n
      → compute_merkle_root sha512 ((b ∷ r) ++ a ∷ [])
        ≡ compute_merkle_root sha512 ((b ∷ r) ++ a ∷ (a ∷ []))
  compute_merkle_root-double n b r a h =
      let short = compute_merkle_root-IsRoot b (r ++ a ∷ []) in
      let long = compute_merkle_root-IsRoot b (r ++ a ∷ (a ∷ [])) in
      long.1 _ (
        level (omega (arith, length-append r (a ∷ (a ∷ [])))) (
          rw (← parents-double n (b ∷ r) a h)
            (below short.0 (omega (arith, length-append r (a ∷ []))))))
