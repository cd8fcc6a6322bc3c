-- ===== src/Proposal/OfBlock.antt =====
-- `BlockProposal` of src/Consensus/Proposal.cpp. The type of a proposal is the number of its
-- enumerator, four bytes wide: 0 for a block.
pub mod RoundTrip
pub mod Safety
use pqblockchain.Prelude.{ℕ, ◌+◌, ◌%◌, ◌^◌, Bool, true, not, ◌||◌, List, [], length, ltb, ◌==◌}
use pqblockchain.Exceptions.{Result, ok, ◌>>=◌, throw_if, proposal, transaction}
use pqblockchain.Serialize.{
  Cursor, get, serialize_number, deserialize_number, serialize_blob, deserialize_blob, blob_bytes,
  fresh, contents,
}
use pqblockchain.Crypto.{Hash, SignAlgorithm}
use pqblockchain.Transaction.{put_prefix}
use pqblockchain.Block.{BlockHeader, header_size, null_header, serialize_header, deserialize_header}

pub record BlockProposal : Type 0 where
  pub type_of_proposal : ℕ
  pub issuer : ℕ
  pub block_id : ℕ
  pub signature_size : ℕ
  pub signature : List ℕ
  pub proposed_block_header : BlockHeader

-- `BlockProposal::setNull`.
abbrev pub null_proposal : BlockProposal
null_proposal = record {
  type_of_proposal = 0;
  issuer = 0;
  block_id = 0;
  signature_size = 0;
  signature = [];
  proposed_block_header = null_header;
}

-- `BlockProposal::check`: the hash of the balances is not there before the block is executed.
unfoldable pub check : BlockProposal → Bool
check p =
    let h = p.proposed_block_header in
    not (
      p.issuer == 0
      || (p.block_id == 0
          || (h.previous_block_hash == 0
              || (h.transactions_merkle_root_hash == 0
                  || (not (h.account_balance_merkle_root_hash == 0) || h.sequence == 0)))))

-- `BlockProposal::getHash`.
unfoldable pub get_hash : Hash → BlockProposal → Result ℕ
get_hash sha512 p = do
  c ← serialize_number 4 p.type_of_proposal (fresh (4 + 64 + 64))
  c ← serialize_blob p.issuer c
  c ← serialize_blob p.block_id c
  ok (sha512 (contents c))

-- `BlockProposal::sign`.
unfoldable pub sign : Hash → SignAlgorithm → List ℕ → BlockProposal → Result BlockProposal
unfolding get_hash
sign sha512 s private_key p = do
  hash ← get_hash sha512 p
  bytes ← s.sign (blob_bytes hash) private_key
  ok (record p { signature = bytes; signature_size = length bytes % 2 ^ 32 })

-- `BlockProposal::verify`.
unfoldable pub verify : Hash → SignAlgorithm → List ℕ → BlockProposal → Result Bool
unfolding get_hash
verify sha512 s public_key p = do
  hash ← get_hash sha512 p
  ok (s.verify p.signature (blob_bytes hash) public_key)

-- `BlockProposal::getSize`.
unfoldable pub get_size : BlockProposal → Result ℕ
get_size p =
    throw_if (p.signature_size == 0) proposal
      (ok (4 + 64 + 64 + 4 + p.signature_size + header_size))

-- `BlockProposal::serialize`.
unfoldable pub serialize : BlockProposal → Cursor → Result Cursor
unfolding get_size
serialize p c = do
  size ← get_size p
  throw_if (ltb (length c.room) size) proposal do
    c ← serialize_number 4 p.type_of_proposal c
    c ← serialize_blob p.issuer c
    c ← serialize_blob p.block_id c
    c ← serialize_number 4 p.signature_size c
    c ← put_prefix p.signature_size p.signature c
    serialize_header p.proposed_block_header true c

-- `BlockProposal::deserialize`.
unfoldable pub deserialize : List ℕ → Result (BlockProposal × List ℕ)
deserialize buffer = throw_if (ltb (length buffer) (4 + 64 + 64 + 4)) transaction do
  (type, buffer) ← deserialize_number 4 buffer
  (issuer, buffer) ← deserialize_blob buffer
  (id, buffer) ← deserialize_blob buffer
  (size, buffer) ← deserialize_number 4 buffer
  throw_if (ltb (length buffer) size) transaction do
    (bytes, buffer) ← get size buffer
    (header, buffer) ← deserialize_header buffer
    ok (
      record {
        type_of_proposal = type;
        issuer = issuer;
        block_id = id;
        signature_size = size;
        signature = bytes;
        proposed_block_header = header;
      },
      buffer,
    )
