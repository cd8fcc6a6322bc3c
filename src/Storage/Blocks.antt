-- ===== src/Storage/Blocks.antt =====
-- src/Storage/BlocksStorage.cpp, over the parameter that stands for LevelDB.
use pqblockchain.Prelude.{ℕ, ◌≡◌, refl, Bool, true, false, Option, none, some, List, []}
use pqblockchain.Exceptions.{Result, ok, ◌>>=◌}
use pqblockchain.Serialize.{fresh, contents}
use pqblockchain.Crypto.{Hash}
use pqblockchain.Block.{Block, get_block_hash}
use pqblockchain.Block
use pqblockchain.Storage.{Stored, value, not_found, get_failed, Database}

module _ (d : Database) where
  -- `BlocksStorage::getBlock`, with `none` for the null pointer.
  unfoldable pub get_block : ℕ → Database.Db d → Result (Option Block)
  get_block id db = elim (d.get_value db id) [
    | not_found ↦ ok none
    | get_failed ↦ ok none
    | value bytes ↦ do (b, _) ← Block.deserialize [] bytes; ok (some b)
  ]

  -- `BlocksStorage::getRawBlock`: the buffer afterwards, and the result.
  unfoldable pub get_raw_block : ℕ → Database.Db d → List ℕ → List ℕ × Bool
  get_raw_block id db buffer = elim (d.get_value db id) [
    | not_found ↦ (buffer, false)
    | get_failed ↦ (buffer, false)
    | value bytes ↦ (bytes, false)
  ]

  -- `BlocksStorage::setBlock` of bytes.
  unfoldable pub set_raw_block : ℕ → List ℕ → Database.Db d → Database.Db d × Bool
  set_raw_block id bytes db = elim (d.put_value id bytes db) [
    | none ↦ (db, false)
    | some db' ↦ (db', true)
  ]

  -- `BlocksStorage::setBlock`.
  unfoldable pub set_block : Hash → Block → Database.Db d → Result (Database.Db d × Bool)
  unfolding set_raw_block
  set_block sha512 b db = do
    size ← Block.get_size b
    c ← Block.serialize b (fresh size)
    id ← get_block_hash sha512 b.block_header
    ok (set_raw_block id (contents c) db)

  -- No call of `getRawBlock` succeeds, also where the database has the block.
  pub get_raw_block-false :
      (id : ℕ) (db : Database.Db d) (buffer : List ℕ) → (get_raw_block id db buffer).1 ≡ false
  unfolding get_raw_block
  get_raw_block-false id db buffer = by_value (d.get_value db id)
    where
      by_value :
          (s : Stored)
          → (let r : List ℕ × Bool = elim s [
            | not_found ↦ (buffer, false)
            | get_failed ↦ (buffer, false)
            | value bytes ↦ (bytes, false)
          ] in
              r.1)
            ≡ false
      by_value (value bytes) = refl
      by_value not_found = refl
      by_value get_failed = refl
