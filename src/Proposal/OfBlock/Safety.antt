-- ===== src/Proposal/OfBlock/Safety.antt =====
-- `BlockProposal::deserialize` on any bytes.
use pqblockchain.Prelude.{ℕ, ◌+◌, ◌≤◌, inr, refl, List, length, ltb, ltb-false, arith}
use pqblockchain.Exceptions.{transaction}
use pqblockchain.Serialize.{
  deserialize_number_within, deserialize_blob_within, get_within, Reads, Reads-bind, Reads-weaken,
  Reads-throw_if,
}
use pqblockchain.Block.{deserialize_header}
use pqblockchain.Block.Safety.{deserialize_header-Reads}
use pqblockchain.Proposal.OfBlock.{deserialize}

-- `BlockProposal::deserialize` of any bytes whatever ends with an exception, or with a proposal and
-- what is left of the buffer: it never reads past the end.
pub block_proposal_deserialize-Reads : (buffer : List ℕ) → Reads (deserialize buffer) buffer
unfolding deserialize
block_proposal_deserialize-Reads b₀ =
    Reads-throw_if (ltb (length b₀) (4 + 64 + 64 + 4)) transaction _ b₀ (λ long.
      let room : 4 + 64 + 64 + 4 ≤ length b₀ = ltb-false _ _ long in
      let (type, b₁, e₁, l₁) = deserialize_number_within 4 b₀ (omega arith) in
      let (issuer, b₂, e₂, l₂) = deserialize_blob_within b₁ (omega arith) in
      let (id, b₃, e₃, l₃) = deserialize_blob_within b₂ (omega arith) in
      let (size, b₄, e₄, l₄) = deserialize_number_within 4 b₃ (omega arith) in
      rw (e₁, e₂, e₃, e₄)
        (Reads-throw_if (ltb (length b₄) size) transaction _ b₀ (λ enough.
          let (bytes, b₅, e₅, l₅) = get_within size b₄ (ltb-false _ _ enough) in
          rw e₅ (
            Reads-weaken _ b₅ b₀ (omega arith) (
              Reads-bind (deserialize_header b₅) _ b₅ (deserialize_header-Reads b₅)
                (λ h rest _. inr (_, rest, refl, omega arith)))))))
