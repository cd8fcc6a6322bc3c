-- ===== src/Transaction.antt =====
-- src/Ledger/Transaction.hpp and Transaction.cpp. Wallet addresses and hashes (`byte64_t`) are the
-- numbers below 2^512 that their 64 bytes spell, the first byte most significant, so that the
-- comparison by `memcmp` is that of the numbers and the null blob is 0. The time stamp is the bit
-- pattern of the `int64_t`.
pub mod Encoding
pub mod Bounded
pub mod RoundTrip
pub mod Set
pub mod Safety
pub mod Tests
use pqblockchain.Prelude.{
  ℕ, ◌+◌, ◌%◌, ◌^◌, Bool, true, false, not, ◌||◌, List, [], length, take, ltb, leb, ◌==◌,
  if◌then◌else◌,
}
use pqblockchain.Exceptions.{Result, ok, throw, fault, ◌>>=◌, throw_if, transaction}
use pqblockchain.Serialize.{
  Cursor, put, get, serialize_number, deserialize_number, serialize_blob, deserialize_blob,
  blob_bytes, fresh, contents,
}
use pqblockchain.Crypto.{Hash, SignAlgorithm}

pub record TransactionData : Type 0 where
  pub version_number : ℕ
  pub sequence_number : ℕ
  pub cash_amount : ℕ
  pub timestamp : ℕ
  pub sender_wallet_address : ℕ
  pub receiver_wallet_address : ℕ

pub record Transaction : Type 0 where
  pub transaction_data : TransactionData
  pub open transaction_data use *
  pub id_hash : ℕ
  pub signature : List ℕ
  pub signature_size : ℕ

-- Whether the fields of the transaction are set.
unfoldable pub check_transaction_structure : Transaction → Bool
check_transaction_structure t = not (
    t.version_number == 0
    || (t.sequence_number == 0
        || (t.sender_wallet_address == 0
            || (t.receiver_wallet_address == 0
                || (t.id_hash == 0 || (length t.signature == 0 || t.signature_size == 0))))))

-- `TransactionData::getSize`.
abbrev pub data_size : ℕ
data_size = 4 + 4 + 4 + 8 + 64 + 64

serialize_fields : TransactionData → Cursor → Result Cursor
serialize_fields d c = do
  c ← serialize_number 4 d.version_number c
  c ← serialize_number 4 d.sequence_number c
  c ← serialize_number 4 d.cash_amount c
  c ← serialize_number 8 d.timestamp c
  c ← serialize_blob d.sender_wallet_address c
  serialize_blob d.receiver_wallet_address c

-- `TransactionData::serialize`.
unfoldable pub serialize_data : TransactionData → Cursor → Result Cursor
unfolding serialize_fields
serialize_data d c =
    throw_if (d.sender_wallet_address == 0) transaction
      (throw_if (d.receiver_wallet_address == 0) transaction (serialize_fields d c))

-- `TransactionData::deserialize`.
unfoldable pub deserialize_data : List ℕ → Result (TransactionData × List ℕ)
deserialize_data buffer = do
  (version, buffer) ← deserialize_number 4 buffer
  (sequence, buffer) ← deserialize_number 4 buffer
  (cash, buffer) ← deserialize_number 4 buffer
  (time, buffer) ← deserialize_number 8 buffer
  (sender, buffer) ← deserialize_blob buffer
  (receiver, buffer) ← deserialize_blob buffer
  ok (
    record {
      version_number = version;
      sequence_number = sequence;
      cash_amount = cash;
      timestamp = time;
      sender_wallet_address = sender;
      receiver_wallet_address = receiver;
    },
    buffer,
  )

-- `Transaction::getSize`.
unfoldable pub get_size : Transaction → Result ℕ
get_size t =
    throw_if (t.signature_size == 0) transaction (ok (data_size + 64 + 4 + t.signature_size))

-- `std::memcpy` of the first `size` bytes of a vector: a read past its end is undefined.
unfoldable pub put_prefix : ℕ → List ℕ → Cursor → Result Cursor
put_prefix size bytes c = if leb size (length bytes) then put (take size bytes) c else fault

-- `Transaction::serialize`.
unfoldable pub serialize : Transaction → Cursor → Result Cursor
unfolding get_size put_prefix serialize_data
serialize t c = throw_if (t.id_hash == 0) transaction do
  size ← get_size t
  throw_if (ltb (length c.room) size) transaction do
    c ← serialize_data t.transaction_data c
    c ← serialize_blob t.id_hash c
    c ← serialize_number 4 t.signature_size c
    put_prefix t.signature_size t.signature c

-- The signature is copied only if the buffer holds that many bytes more.
deserialize_signature : TransactionData → ℕ → ℕ → List ℕ → Result (Transaction × List ℕ)
deserialize_signature d hash size buffer = throw_if (ltb (length buffer) size) transaction do
  (bytes, buffer) ← get size buffer
  ok (
    record { transaction_data = d; id_hash = hash; signature = bytes; signature_size = size },
    buffer,
  )

-- `Transaction::deserialize`.
unfoldable pub deserialize : List ℕ → Result (Transaction × List ℕ)
unfolding deserialize_data deserialize_signature
deserialize buffer = throw_if (ltb (length buffer) (data_size + 64 + 4)) transaction do
  (d, buffer) ← deserialize_data buffer
  (hash, buffer) ← deserialize_blob buffer
  (size, buffer) ← deserialize_number 4 buffer
  deserialize_signature d hash size buffer

-- `Transaction::setHash`: the digest of the serialized data.
unfoldable pub set_hash : Hash → Transaction → Result Transaction
unfolding serialize_data
set_hash sha512 t = do
  c ← serialize_data t.transaction_data (fresh data_size)
  ok (record t { id_hash = sha512 (contents c) })

-- `Transaction::sign`.
unfoldable pub sign : SignAlgorithm → List ℕ → Transaction → Result Transaction
sign s private_key t = throw_if (t.id_hash == 0) transaction do
  bytes ← s.sign (blob_bytes t.id_hash) private_key
  ok (record t { signature = bytes; signature_size = length bytes % 2 ^ 32 })

-- `Transaction::verify`.
unfoldable pub verify : SignAlgorithm → List ℕ → Transaction → Bool
verify s public_key t = s.verify t.signature (blob_bytes t.id_hash) public_key
