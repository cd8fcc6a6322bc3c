-- ===== src/Block.antt =====
-- src/Ledger/Block.hpp and Block.cpp.
pub mod Encoding
pub mod Bounded
pub mod RoundTrip
pub mod Safety
pub mod Tests
use pqblockchain.Prelude.{
  ℕ, zero, suc, ◌+◌, ◌%◌, ◌^◌, Bool, true, false, List, [], ◌∷◌, length, ltb, ◌==◌,
}
use pqblockchain.Exceptions.{Result, ok, throw, fault, ◌>>=◌, throw_if, block}
use pqblockchain.Serialize.{
  Cursor, serialize_number, deserialize_number, serialize_blob, deserialize_blob, fresh, contents,
}
use pqblockchain.Crypto.{Hash}
use pqblockchain.Transaction
use pqblockchain.Transaction.{Transaction}
use pqblockchain.Transaction.Set.{TransactionSet, insert}

pub record BlockHeader : Type 0 where
  pub version : ℕ
  pub sequence : ℕ
  pub size : ℕ
  pub transactions_merkle_root_hash : ℕ
  pub previous_block_hash : ℕ
  pub account_balance_merkle_root_hash : ℕ

pub record BlockBody : Type 0 where
  pub transaction_count : ℕ
  pub tx_set : TransactionSet

-- `class Block : public BlockHeader, public BlockBody`. `getBlockHeader` is the first field, and
-- `setBlockHeader` an update of it.
pub record Block : Type 0 where
  pub block_header : BlockHeader
  pub open block_header use *
  pub block_body : BlockBody
  pub open block_body use *

-- `BlockHeader::setNull`.
abbrev pub null_header : BlockHeader
null_header = record {
  version = 0;
  sequence = 0;
  size = 0;
  transactions_merkle_root_hash = 0;
  previous_block_hash = 0;
  account_balance_merkle_root_hash = 0;
}

-- `BlockBody::setNull`.
abbrev pub null_body : BlockBody
null_body = record { transaction_count = 0; tx_set = [] }

-- `Block::setNull`.
abbrev pub null_block : Block
null_block = record { block_header = null_header; block_body = null_body }

-- `BlockHeader::getSize`.
abbrev pub header_size : ℕ
header_size = 4 + 4 + 4 + 64 + 64 + 64

serialize_header_fields : BlockHeader → Cursor → Result Cursor
serialize_header_fields h c = do
  c ← serialize_number 4 h.version c
  c ← serialize_number 4 h.sequence c
  c ← serialize_number 4 h.size c
  c ← serialize_blob h.transactions_merkle_root_hash c
  c ← serialize_blob h.previous_block_hash c
  serialize_blob h.account_balance_merkle_root_hash c

-- The checks that `skipChecks` leaves out.
check_hashes : BlockHeader → Cursor → Result Cursor
unfolding serialize_header_fields
check_hashes h c = throw_if (h.transactions_merkle_root_hash == 0) block (
    throw_if (h.previous_block_hash == 0) block
      (throw_if (h.account_balance_merkle_root_hash == 0) block (serialize_header_fields h c)))

-- `BlockHeader::serialize`.
unfoldable pub serialize_header : BlockHeader → Bool → Cursor → Result Cursor
unfolding check_hashes serialize_header_fields
serialize_header h skip_checks c =
    throw_if (ltb (length c.room) header_size) block
      (elim skip_checks [ true ↦ serialize_header_fields h c | false ↦ check_hashes h c ])

-- `BlockHeader::deserialize`.
unfoldable pub deserialize_header : List ℕ → Result (BlockHeader × List ℕ)
deserialize_header buffer = throw_if (ltb (length buffer) header_size) block do
  (version, buffer) ← deserialize_number 4 buffer
  (sequence, buffer) ← deserialize_number 4 buffer
  (size, buffer) ← deserialize_number 4 buffer
  (transactions, buffer) ← deserialize_blob buffer
  (previous, buffer) ← deserialize_blob buffer
  (accounts, buffer) ← deserialize_blob buffer
  ok (
    record {
      version = version;
      sequence = sequence;
      size = size;
      transactions_merkle_root_hash = transactions;
      previous_block_hash = previous;
      account_balance_merkle_root_hash = accounts;
    },
    buffer,
  )

-- `BlockHeader::getBlockHash`.
unfoldable pub get_block_hash : Hash → BlockHeader → Result ℕ
unfolding serialize_header
get_block_hash sha512 h = do
  c ← serialize_header h true (fresh header_size)
  ok (sha512 (contents c))

-- `BlockBody::addTransaction`: the count grows also where the set does not.
unfoldable pub add_transaction : Transaction → BlockBody → BlockBody
add_transaction t b = record {
  transaction_count = (b.transaction_count + 1) % 2 ^ 32;
  tx_set = insert t b.tx_set;
}

set_size : TransactionSet → Result ℕ
set_size [] = ok 0
set_size (t ∷ ts) = do size ← Transaction.get_size t; sizes ← set_size ts; ok (size + sizes)

-- `BlockBody::getSize`.
unfoldable pub body_size : BlockBody → Result ℕ
unfolding set_size
body_size b = do size ← set_size b.tx_set; ok (size + 4)

serialize_all : TransactionSet → Cursor → Result Cursor
serialize_all [] c = ok c
serialize_all (t ∷ ts) c = do c ← Transaction.serialize t c; serialize_all ts c

-- `BlockBody::serialize`.
unfoldable pub serialize_body : BlockBody → Cursor → Result Cursor
unfolding body_size serialize_all
serialize_body b c = do
  size ← body_size b
  throw_if (ltb (length c.room) size) block
      do c ← serialize_number 4 b.transaction_count c; serialize_all b.tx_set c

deserialize_all : ℕ → TransactionSet → List ℕ → Result (TransactionSet × List ℕ)
deserialize_all zero set buffer = ok (set, buffer)
deserialize_all (suc n) set buffer = do
  (t, buffer) ← Transaction.deserialize buffer
  deserialize_all n (insert t set) buffer

-- `BlockBody::deserialize`, into an object that holds the set `set`, which is not cleared.
unfoldable pub deserialize_body : TransactionSet → List ℕ → Result (BlockBody × List ℕ)
unfolding deserialize_all
deserialize_body set buffer = throw_if (ltb (length buffer) 4) block do
  (count, buffer) ← deserialize_number 4 buffer
  (set, buffer) ← deserialize_all count set buffer
  ok (record { transaction_count = count; tx_set = set }, buffer)

-- `Block::getSize`.
unfoldable pub get_size : Block → Result ℕ
unfolding body_size
get_size b = do size ← body_size b.block_body; ok (header_size + size)

-- `Block::serialize`.
unfoldable pub serialize : Block → Cursor → Result Cursor
unfolding serialize_header serialize_body
serialize b c = do c ← serialize_header b.block_header false c; serialize_body b.block_body c

-- `Block::deserialize`.
unfoldable pub deserialize : TransactionSet → List ℕ → Result (Block × List ℕ)
unfolding deserialize_header deserialize_body
deserialize set buffer = do
  (header, buffer) ← deserialize_header buffer
  (body, buffer) ← deserialize_body set buffer
  ok (record { block_header = header; block_body = body }, buffer)
