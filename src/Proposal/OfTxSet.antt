-- ===== src/Proposal/OfTxSet.antt =====
-- `TxSetProposal` of src/Consensus/Proposal.cpp. The type of a proposal is the number of its
-- enumerator, four bytes wide: 1 for a transaction set.
pub mod Bounded
pub mod RoundTrip
pub mod Safety
use pqblockchain.Prelude.{ℕ, ◌+◌, ◌%◌, ◌^◌, Bool, not, ◌||◌, List, [], length, ltb, ◌==◌}
use pqblockchain.Exceptions.{Result, ok, ◌>>=◌, throw_if, proposal}
use pqblockchain.Serialize.{
  Cursor, get, serialize_number, deserialize_number, serialize_blob, deserialize_blob, blob_bytes,
  fresh, contents,
}
use pqblockchain.Crypto.{Hash, SignAlgorithm}
use pqblockchain.Transaction.{put_prefix}
use pqblockchain.Transaction.Set.{TransactionSet}
use pqblockchain.Block.{BlockBody, null_body, body_size, serialize_body, deserialize_body}

pub record TxSetProposal : Type 0 where
  pub type_of_proposal : ℕ
  pub seq : ℕ
  pub time : ℕ
  pub issuer : ℕ
  pub tx_set_id : ℕ
  pub previous_block_id : ℕ
  pub signature_size : ℕ
  pub signature : List ℕ
  pub tx_set_body : BlockBody

-- `TxSetProposal::setNull`.
abbrev pub null_proposal : TxSetProposal
null_proposal = record {
  type_of_proposal = 1;
  seq = 0;
  time = 0;
  issuer = 0;
  tx_set_id = 0;
  previous_block_id = 0;
  signature_size = 0;
  signature = [];
  tx_set_body = null_body;
}

-- `TxSetProposal::check`.
unfoldable pub check : TxSetProposal → Bool
check p = not (p.issuer == 0 || (p.time == 0 || (p.tx_set_id == 0 || p.previous_block_id == 0)))

-- `TxSetProposal::getHash`.
unfoldable pub get_hash : Hash → TxSetProposal → Result ℕ
get_hash sha512 p = do
  c ← serialize_number 4 p.type_of_proposal (fresh (4 + 4 + 8 + 64 + 64 + 64))
  c ← serialize_number 4 p.seq c
  c ← serialize_number 8 p.time c
  c ← serialize_blob p.issuer c
  c ← serialize_blob p.tx_set_id c
  c ← serialize_blob p.previous_block_id c
  ok (sha512 (contents c))

-- `TxSetProposal::sign`.
unfoldable pub sign : Hash → SignAlgorithm → List ℕ → TxSetProposal → Result TxSetProposal
unfolding get_hash
sign sha512 s private_key p = do
  hash ← get_hash sha512 p
  bytes ← s.sign (blob_bytes hash) private_key
  ok (record p { signature = bytes; signature_size = length bytes % 2 ^ 32 })

-- `TxSetProposal::verify`.
unfoldable pub verify : Hash → SignAlgorithm → List ℕ → TxSetProposal → Result Bool
unfolding get_hash
verify sha512 s public_key p = do
  hash ← get_hash sha512 p
  ok (s.verify p.signature (blob_bytes hash) public_key)

-- The bytes in front of the signature.
abbrev pub prefix_size : ℕ
prefix_size = 4 + 4 + 8 + 64 + 64 + 64 + 4

-- `TxSetProposal::getSize`.
unfoldable pub get_size : TxSetProposal → Result ℕ
get_size p =
    throw_if (p.signature_size == 0) proposal
      do size ← body_size p.tx_set_body; ok (prefix_size + p.signature_size + size)

-- `TxSetProposal::serialize`.
unfoldable pub serialize : TxSetProposal → Cursor → Result Cursor
unfolding get_size
serialize p c = do
  size ← get_size p
  throw_if (ltb (length c.room) size) proposal do
    c ← serialize_number 4 p.type_of_proposal c
    c ← serialize_number 4 p.seq c
    c ← serialize_number 8 p.time c
    c ← serialize_blob p.issuer c
    c ← serialize_blob p.tx_set_id c
    c ← serialize_blob p.previous_block_id c
    c ← serialize_number 4 p.signature_size c
    c ← put_prefix p.signature_size p.signature c
    serialize_body p.tx_set_body c

-- What both deserializations read: everything in front of the body, which stays as it was.
deserialize_prefix : BlockBody → List ℕ → Result (TxSetProposal × List ℕ)
deserialize_prefix body buffer = throw_if (ltb (length buffer) prefix_size) proposal do
  (type, buffer) ← deserialize_number 4 buffer
  (seq, buffer) ← deserialize_number 4 buffer
  (time, buffer) ← deserialize_number 8 buffer
  (issuer, buffer) ← deserialize_blob buffer
  (id, buffer) ← deserialize_blob buffer
  (previous, buffer) ← deserialize_blob buffer
  (size, buffer) ← deserialize_number 4 buffer
  throw_if (ltb (length buffer) size) proposal do
    (bytes, buffer) ← get size buffer
    ok (
      record {
        type_of_proposal = type;
        seq = seq;
        time = time;
        issuer = issuer;
        tx_set_id = id;
        previous_block_id = previous;
        signature_size = size;
        signature = bytes;
        tx_set_body = body;
      },
      buffer,
    )

-- `TxSetProposal::deserialize`, into an object that holds the body `body`.
unfoldable pub deserialize : BlockBody → List ℕ → Result (TxSetProposal × List ℕ)
unfolding deserialize_prefix
deserialize body buffer = do
  (p, buffer) ← deserialize_prefix body buffer
  (body, buffer) ← deserialize_body body.tx_set buffer
  ok (record p { tx_set_body = body }, buffer)

-- `TxSetProposal::deserializeExceptTxSet`: the number of transactions is read without a check that
-- it is there.
unfoldable pub deserialize_except_tx_set : BlockBody → List ℕ → Result (TxSetProposal × List ℕ)
unfolding deserialize_prefix
deserialize_except_tx_set body buffer = do
  (p, buffer) ← deserialize_prefix body buffer
  (count, buffer) ← deserialize_number 4 buffer
  ok (record p { tx_set_body = record p.tx_set_body { transaction_count = count } }, buffer)
