-- ===== src/Block/Safety.antt =====
-- `Block::deserialize` on any bytes.
use pqblockchain.Prelude.{ℕ, zero, suc, ◌≤◌, inr, refl, List, length, ltb, ltb-false, arith}
use pqblockchain.Exceptions.{block}
use pqblockchain.Serialize.{
  deserialize_number_within, deserialize_blob_within, Reads, Reads-bind, Reads-weaken,
  Reads-throw_if,
}
use pqblockchain.Transaction
use pqblockchain.Transaction.Safety.{transaction_deserialize-Reads}
use pqblockchain.Transaction.Set.{TransactionSet, insert}
use pqblockchain.Block.{
  header_size, deserialize_header, deserialize_all, deserialize_body, deserialize,
}

pub deserialize_header-Reads : (buffer : List ℕ) → Reads (deserialize_header buffer) buffer
unfolding deserialize_header
deserialize_header-Reads b₀ = Reads-throw_if (ltb (length b₀) header_size) block _ b₀ (λ long.
    let room : header_size ≤ length b₀ = ltb-false _ _ long in
    let (version, b₁, e₁, l₁) = deserialize_number_within 4 b₀ (omega arith) in
    let (sequence, b₂, e₂, l₂) = deserialize_number_within 4 b₁ (omega arith) in
    let (size, b₃, e₃, l₃) = deserialize_number_within 4 b₂ (omega arith) in
    let (transactions, b₄, e₄, l₄) = deserialize_blob_within b₃ (omega arith) in
    let (previous, b₅, e₅, l₅) = deserialize_blob_within b₄ (omega arith) in
    let (accounts, b₆, e₆, l₆) = deserialize_blob_within b₅ (omega arith) in
    inr (
      record {
        version = version;
        sequence = sequence;
        size = size;
        transactions_merkle_root_hash = transactions;
        previous_block_hash = previous;
        account_balance_merkle_root_hash = accounts;
      },
      b₆,
      rw (e₁, e₂, e₃, e₄, e₅, e₆) refl,
      omega arith,
    ))

deserialize_all-Reads :
    (n : ℕ) (set : TransactionSet) (buffer : List ℕ) → Reads (deserialize_all n set buffer) buffer
unfolding deserialize_all
deserialize_all-Reads zero set buffer = inr (set, buffer, refl, omega arith)
deserialize_all-Reads (suc n) set buffer =
    Reads-bind (Transaction.deserialize buffer) _ buffer (transaction_deserialize-Reads buffer)
      (λ t rest _. deserialize_all-Reads n (insert t set) rest)

pub deserialize_body-Reads :
    (set : TransactionSet) (buffer : List ℕ) → Reads (deserialize_body set buffer) buffer
unfolding deserialize_body
deserialize_body-Reads set b₀ = Reads-throw_if (ltb (length b₀) 4) block _ b₀ (λ long.
    let (count, b₁, e₁, l₁) = deserialize_number_within 4 b₀ (ltb-false _ _ long) in
    rw e₁ (
      Reads-weaken _ b₁ b₀ (omega arith) (
        Reads-bind (deserialize_all count set b₁) _ b₁ (deserialize_all-Reads count set b₁)
          (λ s rest _. inr (_, rest, refl, omega arith)))))

-- `Block::deserialize` of any bytes whatever, into any object, ends with an exception, or with a
-- block and what is left of the buffer: it never reads past the end, however many transactions the
-- bytes announce.
pub block_deserialize-Reads :
    (set : TransactionSet) (buffer : List ℕ) → Reads (deserialize set buffer) buffer
unfolding deserialize
block_deserialize-Reads set buffer =
    Reads-bind (deserialize_header buffer) _ buffer (deserialize_header-Reads buffer) (λ h b₁ _.
      Reads-bind (deserialize_body set b₁) _ b₁ (deserialize_body-Reads set b₁)
        (λ b b₂ _. inr (_, b₂, refl, omega arith)))
