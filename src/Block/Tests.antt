-- ===== src/Block/Tests.antt =====
-- A block with one transaction, and what the theorems say of it.
use pqblockchain.Prelude.{ℕ, ◌≡◌, ◌≤◌, refl, List, [], ◌∷◌, ◌++◌, length, replicate, arith}
use pqblockchain.Exceptions.{ok}
use pqblockchain.Serialize.{Cursor, advance, Reads}
use pqblockchain.Transaction.Tests.{five_to_seven, five_to_seven-IsEncodable}
use pqblockchain.Block.{Block, get_size, serialize, deserialize}
use pqblockchain.Block.Encoding.{IsBlockEncodable}
use pqblockchain.Block.Safety.{block_deserialize-Reads}
use pqblockchain.Block.RoundTrip.{block-deserialize-serialize}

abbrev pub small_block : Block
small_block = record {
  block_header = record {
    version = 1;
    sequence = 2;
    size = 1;
    transactions_merkle_root_hash = 11;
    previous_block_hash = 12;
    account_balance_merkle_root_hash = 13;
  };
  block_body = record { transaction_count = 1; tx_set = five_to_seven ∷ [] };
}

pub small_block-IsBlockEncodable : IsBlockEncodable small_block
small_block-IsBlockEncodable = record {
  fits = record {
    version_fits = omega arith;
    sequence_fits = omega arith;
    size_fits = omega arith;
    transactions_fits = omega arith;
    previous_fits = omega arith;
    accounts_fits = omega arith;
  };
  hashes = record {
    transactions_set = λ e. omega arith;
    previous_set = λ e. omega arith;
    accounts_set = λ e. omega arith;
  };
  body = record {
    count_fits = omega arith;
    count_true = refl;
    ordered = (tt, tt);
    all_encodable = (five_to_seven-IsEncodable, tt);
  };
}

block-deserialize-serialize_example :
    (bytes : List ℕ) × (get_size small_block ≡ ok (length bytes))
    × ((c : Cursor) → length bytes ≤ length c.room → serialize small_block c ≡ ok (advance bytes c))
    × ((rest : List ℕ) → deserialize [] (bytes ++ rest) ≡ ok (small_block, rest))
block-deserialize-serialize_example =
    block-deserialize-serialize small_block small_block-IsBlockEncodable

-- Bytes that announce more than sixteen million transactions.
block_deserialize-Reads_example : Reads (deserialize [] (replicate 300 1)) (replicate 300 1)
block_deserialize-Reads_example = block_deserialize-Reads [] (replicate 300 1)
