-- ===== src/Block/Encoding.antt =====
-- The bytes that a serialized block consists of, and when a block can be serialized.
use pqblockchain.Prelude.{ℕ, ◌^◌, ◌<◌, ◌≡◌, ◌≢◌, List, [], ◌∷◌, ◌++◌, All, length}
use pqblockchain.Serialize.{le_bytes, blob_bytes}
use pqblockchain.Transaction.Set.{TransactionSet, IsOrdered}
use pqblockchain.Transaction.Encoding as TransactionEncoding
use pqblockchain.Transaction.Encoding.{IsEncodable}
use pqblockchain.Block.{BlockHeader, BlockBody, Block}

unfoldable pub encode_header : BlockHeader → List ℕ
encode_header h =
    le_bytes 4 h.version
    ++ (le_bytes 4 h.sequence
        ++ (le_bytes 4 h.size
            ++ (blob_bytes h.transactions_merkle_root_hash
                ++ (blob_bytes h.previous_block_hash
                    ++ blob_bytes h.account_balance_merkle_root_hash))))

unfoldable pub encode_all : TransactionSet → List ℕ
encode_all [] = []
encode_all (t ∷ ts) = TransactionEncoding.encode t ++ encode_all ts

unfoldable pub encode_body : BlockBody → List ℕ
encode_body b = le_bytes 4 b.transaction_count ++ encode_all b.tx_set

unfoldable pub encode : Block → List ℕ
encode b = encode_header b.block_header ++ encode_body b.block_body

-- The fields are within the ranges of their types.
pub record FitsHeader (h : BlockHeader) : Type 0 where
  pub version_fits : h.version < 256 ^ 4
  pub sequence_fits : h.sequence < 256 ^ 4
  pub size_fits : h.size < 256 ^ 4
  pub transactions_fits : h.transactions_merkle_root_hash < 256 ^ 64
  pub previous_fits : h.previous_block_hash < 256 ^ 64
  pub accounts_fits : h.account_balance_merkle_root_hash < 256 ^ 64

-- The hashes that serialization without `skipChecks` asks for are there.
pub record HasHashes (h : BlockHeader) : Type 0 where
  pub transactions_set : h.transactions_merkle_root_hash ≢ 0
  pub previous_set : h.previous_block_hash ≢ 0
  pub accounts_set : h.account_balance_merkle_root_hash ≢ 0

-- The count is that of the set, the set is in order, and each transaction can be serialized.
pub record IsBodyEncodable (b : BlockBody) : Type 0 where
  pub count_fits : b.transaction_count < 256 ^ 4
  pub count_true : length b.tx_set ≡ b.transaction_count
  pub ordered : IsOrdered b.tx_set
  pub all_encodable : All IsEncodable b.tx_set

pub record IsBlockEncodable (b : Block) : Type 0 where
  pub fits : FitsHeader b.block_header
  pub hashes : HasHashes b.block_header
  pub body : IsBodyEncodable b.block_body
