-- ===== src/Transaction/Safety.antt =====
-- `Transaction::deserialize` on any bytes.
use pqblockchain.Prelude.{ℕ, ◌+◌, ◌≤◌, ◌≡◌, inl, inr, refl, List, length, ltb, ltb-false, arith}
use pqblockchain.Exceptions.{ok, transaction}
use pqblockchain.Serialize.{
  deserialize_number_within, deserialize_blob_within, get_within, Reads, Reads-throw_if,
}
use pqblockchain.Transaction.{
  TransactionData, data_size, deserialize_data, deserialize_signature, deserialize,
}

deserialize_data_within :
    (buffer : List ℕ)
    → data_size ≤ length buffer
    → (d : TransactionData) × (rest : List ℕ) × (deserialize_data buffer ≡ ok (d, rest))
      × (length rest + data_size ≡ length buffer)
unfolding deserialize_data
deserialize_data_within b₀ h =
    let (version, b₁, e₁, l₁) = deserialize_number_within 4 b₀ (omega arith) in
    let (sequence, b₂, e₂, l₂) = deserialize_number_within 4 b₁ (omega arith) in
    let (cash, b₃, e₃, l₃) = deserialize_number_within 4 b₂ (omega arith) in
    let (time, b₄, e₄, l₄) = deserialize_number_within 8 b₃ (omega arith) in
    let (sender, b₅, e₅, l₅) = deserialize_blob_within b₄ (omega arith) in
    let (receiver, b₆, e₆, l₆) = deserialize_blob_within b₅ (omega arith) in
    (
      record {
        version_number = version;
        sequence_number = sequence;
        cash_amount = cash;
        timestamp = time;
        sender_wallet_address = sender;
        receiver_wallet_address = receiver;
      },
      b₆,
      rw (e₁, e₂, e₃, e₄, e₅, e₆) refl,
      omega arith,
    )

deserialize_signature-Reads :
    (d : TransactionData) (hash size : ℕ) (buffer : List ℕ)
    → Reads (deserialize_signature d hash size buffer) buffer
unfolding deserialize_signature
deserialize_signature-Reads d hash size buffer =
    Reads-throw_if (ltb (length buffer) size) transaction _ buffer (λ long.
      let (bytes, rest, e, l) = get_within size buffer (ltb-false _ _ long) in
      inr (
        record { transaction_data = d; id_hash = hash; signature = bytes; signature_size = size },
        rest,
        rw e refl,
        omega arith,
      ))

-- `Transaction::deserialize` of any bytes whatever ends with an exception, or with a transaction and
-- what is left of the buffer: it never reads past the end, also where the size of the signature
-- that the bytes name is larger than the buffer.
pub transaction_deserialize-Reads : (buffer : List ℕ) → Reads (deserialize buffer) buffer
unfolding deserialize
transaction_deserialize-Reads b₀ =
    Reads-throw_if (ltb (length b₀) (data_size + 64 + 4)) transaction _ b₀ (λ long.
      let room : data_size + 64 + 4 ≤ length b₀ = ltb-false _ _ long in
      let (d, b₁, e₁, l₁) = deserialize_data_within b₀ (omega arith) in
      let (hash, b₂, e₂, l₂) = deserialize_blob_within b₁ (omega arith) in
      let (size, b₃, e₃, l₃) = deserialize_number_within 4 b₂ (omega arith) in
      rw (e₁, e₂, e₃)
        (elim (deserialize_signature-Reads d hash size b₃) [
          | inl x ↦ inl x
          | inr (t, rest, h, l) ↦ inr (t, rest, h, omega arith)
        ]))
