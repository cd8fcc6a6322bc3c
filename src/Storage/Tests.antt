-- ===== src/Storage/Tests.antt =====
-- A database that is a function of the key, and what the theorem says of a block in it.
use pqblockchain.Prelude.{ℕ, ◌≡◌, ◌≢◌, sym, ap, true, some, List, length, ◌==◌, if◌then◌else◌}
use pqblockchain.Exceptions.{ok}
use pqblockchain.Crypto.{Hash}
use pqblockchain.Block.{get_block_hash}
use pqblockchain.Block.Tests.{small_block, small_block-IsBlockEncodable}
use pqblockchain.Execution.Tests.{some-injective}
use pqblockchain.Storage.{Stored, value, not_found, Database}
use pqblockchain.Storage.Blocks.{get_block, set_block}
use pqblockchain.Storage.RoundTrip.{get_block-set_block}

pub put-same :
    (id j : ℕ) (bytes : List ℕ) (db db' : ℕ → Stored)
    → some (λ k. if id == k then value bytes else db k) ≡ some db'
    → db' j ≡ (if id == j then value bytes else db j)
put-same id j bytes db db' e = ap (λ f. f j) (sym (some-injective _ _ e))

abbrev pub memory_database : Database
memory_database = record {
  Db = ℕ → Stored;
  get_value = λ db id. db id;
  put_value = λ id bytes db. some (λ k. if id == k then value bytes else db k);
  get-put = λ id j bytes db db' e. put-same id j bytes db db' e;
}

abbrev pub nothing_stored : ℕ → Stored
nothing_stored id = not_found

abbrev length_hash : Hash
length_hash bytes = length bytes

get_block-set_block_example :
    (id : ℕ) × (db' : ℕ → Stored) × (get_block_hash length_hash small_block.block_header ≡ ok id)
    × (set_block memory_database length_hash small_block nothing_stored ≡ ok (db', true))
    × (get_block memory_database id db' ≡ ok (some small_block))
    × ((j : ℕ)
        → j ≢ id
        → get_block memory_database j db' ≡ get_block memory_database j nothing_stored)
get_block-set_block_example =
    get_block-set_block memory_database length_hash small_block nothing_stored
      small_block-IsBlockEncodable (λ id bytes e. cc)
