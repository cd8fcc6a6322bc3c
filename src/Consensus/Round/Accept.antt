-- ===== src/Consensus/Round/Accept.antt =====
-- What `Consensus::onAccept` of src/Consensus/Consensus.cpp leaves.
use pqblockchain.Prelude.{ℕ, ◌≡◌, refl, inl, inr, [], Bool-cases}
use pqblockchain.Exceptions.{ok, >>=-inverse, ok_subst}
use pqblockchain.Crypto.{Hash}
use pqblockchain.Block
use pqblockchain.Block.{Block, BlockHeader, null_block, null_body, get_block_hash}
use pqblockchain.Transaction.Set.{TransactionSet}
use pqblockchain.Consensus.State.{open_phase, Consensus, Wrapper, begin_consensus, reset}
use pqblockchain.Consensus.Round.Timer.{finish_block, accept_block, on_accept}

module _ (sha512 : Hash) (difference : TransactionSet → TransactionSet → TransactionSet)
    {W : Type 0} (wrapper : Wrapper W) where
  -- A new round that builds on the block `b`, whose hash is `id`.
  abbrev pub BuildsOn : Block → ℕ → Consensus → Type 0
  BuildsOn b id s =
      (s.prev_block ≡ b)
      × (s.prev_block_id ≡ id)
      × (s.phase ≡ open_phase)
      × (s.result ≡ reset)
      × (s.curr_peer_proposals ≡ [])
      × (s.acquired_sets ≡ [])

  accept_block-BuildsOn :
      (now : ℕ) (b : Block) (id : ℕ) (s : Consensus) (w : W) (r : Consensus × W)
      → accept_block sha512 difference wrapper now b id s w ≡ ok r
      → BuildsOn b id r.0
  unfolding accept_block begin_consensus
  accept_block-BuildsOn now b id s w r e =
      let (shared, _, later) = >>=-inverse (wrapper.share_block _ w) _ r e in
      let (added, _, last) =
        >>=-inverse (wrapper.add_block_header_to_chain b id shared) _ r later in
      elim (Bool-cases added.1) [
        | inl valid ↦
            let (executed, _, final) =
              >>=-inverse (wrapper.execute_block b added.0) _ r (rw valid at last) in
            ok_subst (λ x. BuildsOn b id x.0) _ r final (refl, refl, refl, refl, refl, refl)
        | inr not_valid ↦
            ok_subst (λ x. BuildsOn b id x.0) _ r (rw not_valid at last)
              (refl, refl, refl, refl, refl, refl)
      ]

  finish_block-inverse :
      (s : Consensus) (b : Block)
      → finish_block s ≡ ok b
      → (b.previous_block_hash ≡ s.prev_block_id)
        × (b.sequence ≡ (s.curr_block).sequence)
        × (b.tx_set ≡ (s.result).txns)
  unfolding finish_block
  finish_block-inverse s b e =
      let (size, _, last) = >>=-inverse (Block.get_size _) _ b e in
      ok_subst
        (λ x.
          (x.previous_block_hash ≡ s.prev_block_id)
          × (x.sequence ≡ (s.curr_block).sequence)
          × (x.tx_set ≡ (s.result).txns))
        _ b last (refl, refl, refl)

  -- Where `onAccept` returns, the block of the round is the one on which the next one builds: `prev_block`
  -- is the finished block and `prev_block_id` the hash of its header; the finished block names the last
  -- agreed block as its predecessor, keeps the sequence number of the current one and holds exactly the
  -- transactions of the result; and a new round is open, with no result, no positions of peers and no
  -- sets. (The wrapper is arbitrary.)
  pub on_accept_next_round :
      (now : ℕ) (s : Consensus) (w : W) (r : Consensus × W)
      → on_accept sha512 difference wrapper now s w ≡ ok r
      → (b : Block) × (id : ℕ) × BuildsOn b id r.0
        × (get_block_hash sha512 b.block_header ≡ ok id)
        × (b.previous_block_hash ≡ s.prev_block_id)
        × (b.sequence ≡ (s.curr_block).sequence)
        × (b.tx_set ≡ (s.result).txns)
  unfolding on_accept
  on_accept_next_round now s w r e =
      let (b, finished, later) = >>=-inverse (finish_block s) _ r e in
      let (id, hashed, last) = >>=-inverse (get_block_hash sha512 b.block_header) _ r later in
      let (previous, sequence, txns) = finish_block-inverse s b finished in
      (b, id, accept_block-BuildsOn now b id s w r last, hashed, previous, sequence, txns)
