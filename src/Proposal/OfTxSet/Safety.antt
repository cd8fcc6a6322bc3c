-- ===== src/Proposal/OfTxSet/Safety.antt =====
-- `TxSetProposal::deserialize` on any bytes.
use pqblockchain.Prelude.{ℕ, ◌≤◌, inr, refl, List, length, ltb, ltb-false, arith}
use pqblockchain.Exceptions.{ok, ◌>>=◌, throw_if, proposal}
use pqblockchain.Serialize.{
  deserialize_number_within, deserialize_blob_within, get_within, get, Reads, Reads-bind,
  Reads-weaken, Reads-throw_if,
}
use pqblockchain.Block.{BlockBody, deserialize_body}
use pqblockchain.Block.Safety.{deserialize_body-Reads}
use pqblockchain.Proposal.OfTxSet.{TxSetProposal, prefix_size, deserialize_prefix, deserialize}

-- The signature is the last field in front of the body.
signature-Reads :
    (f : List ℕ → TxSetProposal) (size : ℕ) (buffer : List ℕ)
    → Reads
        (throw_if (ltb (length buffer) size) proposal (get size buffer >>= λ r. ok (f r.0, r.1)))
        buffer
signature-Reads f size buffer =
    Reads-throw_if (ltb (length buffer) size) proposal _ buffer (λ enough.
      let (bytes, rest, e, l) = get_within size buffer (ltb-false _ _ enough) in
      inr (f bytes, rest, rw e refl, omega arith))

deserialize_prefix-Reads :
    (body : BlockBody) (buffer : List ℕ) → Reads (deserialize_prefix body buffer) buffer
unfolding deserialize_prefix
deserialize_prefix-Reads body b₀ =
    Reads-throw_if (ltb (length b₀) prefix_size) proposal _ b₀ (λ long.
      let room : prefix_size ≤ length b₀ = ltb-false _ _ long in
      let (type, b₁, e₁, l₁) = deserialize_number_within 4 b₀ (omega arith) in
      let (seq, b₂, e₂, l₂) = deserialize_number_within 4 b₁ (omega arith) in
      let (time, b₃, e₃, l₃) = deserialize_number_within 8 b₂ (omega arith) in
      let (issuer, b₄, e₄, l₄) = deserialize_blob_within b₃ (omega arith) in
      let (id, b₅, e₅, l₅) = deserialize_blob_within b₄ (omega arith) in
      let (previous, b₆, e₆, l₆) = deserialize_blob_within b₅ (omega arith) in
      let (size, b₇, e₇, l₇) = deserialize_number_within 4 b₆ (omega arith) in
      rw (e₁, e₂, e₃, e₄, e₅, e₆, e₇)
        (Reads-weaken _ b₇ b₀ (omega arith) (
          signature-Reads
            (λ bytes. record {
              type_of_proposal = type;
              seq = seq;
              time = time;
              issuer = issuer;
              tx_set_id = id;
              previous_block_id = previous;
              signature_size = size;
              signature = bytes;
              tx_set_body = body;
            })
            size b₇)))

-- `TxSetProposal::deserialize` of any bytes whatever, into any object, ends with an exception, or
-- with a proposal and what is left of the buffer: it never reads past the end.
pub tx_set_proposal_deserialize-Reads :
    (body : BlockBody) (buffer : List ℕ) → Reads (deserialize body buffer) buffer
unfolding deserialize
tx_set_proposal_deserialize-Reads body buffer =
    Reads-bind (deserialize_prefix body buffer) _ buffer (deserialize_prefix-Reads body buffer)
      (λ p b₁ _.
        Reads-bind (deserialize_body body.tx_set b₁) _ b₁ (deserialize_body-Reads body.tx_set b₁)
          (λ b b₂ _. inr (_, b₂, refl, omega arith)))
