-- ===== src/Crypto.antt =====
-- src/Crypto/Signer.hpp and src/Crypto/HashManager.cpp. The algorithms are those of PQClean and
-- Crypto++, so they are parameters: the chosen signature algorithm is a record of its operations,
-- and SHA-512 a function from the bytes that are hashed to the 64-byte digest.
use pqblockchain.Prelude.{ℕ, ◌^◌, ◌<◌, Bool, List, ◌++◌}
use pqblockchain.Exceptions.{Result}
use pqblockchain.Serialize.{blob_bytes}

-- `class SignAlgorithm`: `sign signed_data private_key` and `verify signature signed_data public_key`.
pub record SignAlgorithm : Type 0 where
  pub sign : List ℕ → List ℕ → Result (List ℕ)
  pub verify : List ℕ → List ℕ → List ℕ → Bool
  pub public_key_size : ℕ
  pub private_key_size : ℕ

abbrev pub Hash : Type 0
Hash = List ℕ → ℕ

-- The digest has 512 bits.
abbrev pub IsDigest : Hash → Type 0
IsDigest sha512 = (bytes : List ℕ) → sha512 bytes < 256 ^ 64

-- `HashMan::SHA512_hash` of two blobs: one digest over both, the first one first.
unfoldable pub hash_pair : Hash → ℕ → ℕ → ℕ
hash_pair sha512 first second = sha512 (blob_bytes first ++ blob_bytes second)
