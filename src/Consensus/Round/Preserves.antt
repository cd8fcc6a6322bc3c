-- ===== src/Consensus/Round/Preserves.antt =====
-- What every operation of the wrapper keeps, a round of src/Consensus/Consensus.cpp keeps.
use pqblockchain.Prelude.{ℕ, ◌*◌, ◌-◌, ◌≡◌, refl, inl, inr, ltb, ◌==◌, Bool-cases, Option-cases}
use pqblockchain.Prelude.Map.{lookup}
use pqblockchain.Exceptions.{Result, Ensures, Ensures-ok, Ensures_bind}
use pqblockchain.Crypto.{Hash}
use pqblockchain.Transaction.Set.{TransactionSet}
use pqblockchain.Block.{Block, get_block_hash}
use pqblockchain.Proposal.OfBlock.{BlockProposal}
use pqblockchain.Proposal.OfTxSet.{TxSetProposal}
use pqblockchain.Consensus.Agreement.{have_consensus}
use pqblockchain.Consensus.State.{
  ConsensusPhase, open_phase, establish, accepted, Consensus, Wrapper,
}
use pqblockchain.Consensus.Round.{
  same_sets, remove_stale_proposals, remove_stale_sets, update_votes,
}
use pqblockchain.Consensus.Round.Timer.{
  positions, close_block, change_set, update_proposals, finish_block, accept_block, on_accept,
  establish_entry, by_phase, preferred_entry, timer_entry, peer_proposal,
}

-- Each operation of the wrapper keeps a property of its state.
pub record IsKept {W : Type 0} (P : W → Type 0) (wrapper : Wrapper W) : Type 0 where
  pub tx_set_shared :
      (p : TxSetProposal) (w : W) → P w → Ensures (λ r. P r.1) (wrapper.share_tx_set p w)
  pub block_shared : (p : BlockProposal) (w : W) → P w → Ensures P (wrapper.share_block p w)
  pub proposal_added :
      (p : BlockProposal) (id : ℕ) (w : W)
      → P w
      → Ensures (λ r. P r.0) (wrapper.add_block_proposal_to_chain p id w)
  pub header_added :
      (b : Block) (id : ℕ) (w : W)
      → P w
      → Ensures (λ r. P r.0) (wrapper.add_block_header_to_chain b id w)
  pub executed : (b : Block) (w : W) → P w → Ensures P (wrapper.execute_block b w)

module _ (sha512 : Hash) (difference : TransactionSet → TransactionSet → TransactionSet)
    {W : Type 0} (wrapper : Wrapper W) (P : W → Type 0) (kept : IsKept P wrapper) where
  abbrev Keeps : Result (Consensus × W) → Type 0
  Keeps m = Ensures (λ r. P r.1) m

  close_block-Keeps :
      (now seconds : ℕ) (s : Consensus) (w : W)
      → P w
      → Keeps (close_block sha512 difference wrapper now seconds s w)
  unfolding close_block
  close_block-Keeps now seconds s w h =
      Ensures_bind (λ r. P r.1) (λ r. P r.1) (wrapper.share_tx_set _ w) _ (kept.tx_set_shared _ w h)
        (λ r k. Ensures-ok (λ x. P x.1) _ k)

  change_set-Keeps :
      (seconds : ℕ) (txns : TransactionSet) (s : Consensus) (w : W)
      → P w
      → Keeps (change_set sha512 difference wrapper seconds txns s w)
  unfolding change_set
  change_set-Keeps seconds txns s w h =
      Ensures_bind (λ r. P r.1) (λ r. P r.1) (wrapper.share_tx_set _ w) _ (kept.tx_set_shared _ w h)
        (λ r k. elim (Option-cases (lookup (r.0).tx_set_id s.acquired_sets)) [
          | inl new ↦ rw new (Ensures-ok (λ x. P x.1) _ k)
          | inr (_, known) ↦ rw known (Ensures-ok (λ x. P x.1) _ k)
        ])

  update_proposals-Keeps :
      (seconds : ℕ) (s : Consensus) (w : W)
      → P w
      → Keeps (update_proposals sha512 difference wrapper seconds s w)
  unfolding update_proposals
  update_proposals-Keeps seconds s w h =
      let stale = remove_stale_proposals seconds s.curr_peer_proposals (s.result).disputes in
      Ensures_bind (λ r. Unit {0}) (λ r. P r.1) (update_votes s.converge stale.1 (s.result).txns) _
        (λ a e. tt)
        (λ r _. elim (Bool-cases (same_sets r.1 (s.result).txns)) [
          | inl same ↦ rw same (Ensures-ok (λ x. P x.1) _ h)
          | inr changed ↦ rw changed (
              change_set-Keeps seconds r.1
                (record s {
                  curr_peer_proposals = stale.0;
                  acquired_sets = remove_stale_sets seconds s.acquired_sets;
                  result = record s.result { disputes = r.0 };
                })
                w h)
        ])

  accept_block-Keeps :
      (now : ℕ) (b : Block) (id : ℕ) (s : Consensus) (w : W)
      → P w
      → Keeps (accept_block sha512 difference wrapper now b id s w)
  unfolding accept_block
  accept_block-Keeps now b id s w h =
      Ensures_bind P (λ r. P r.1) (wrapper.share_block _ w) _ (kept.block_shared _ w h)
        (λ shared k.
          Ensures_bind (λ r. P r.0) (λ r. P r.1) (wrapper.add_block_header_to_chain b id shared) _
            (kept.header_added b id shared k)
            (λ added j. elim (Bool-cases added.1) [
              | inr not_valid ↦ rw not_valid (Ensures-ok (λ x. P x.1) _ j)
              | inl valid ↦ rw valid (
                  Ensures_bind P (λ r. P r.1) (wrapper.execute_block b added.0) _
                    (kept.executed b added.0 j) (λ done i. Ensures-ok (λ x. P x.1) _ i))
            ]))

  on_accept-Keeps :
      (now : ℕ) (s : Consensus) (w : W) → P w → Keeps (on_accept sha512 difference wrapper now s w)
  unfolding on_accept
  on_accept-Keeps now s w h =
      Ensures_bind (λ b. Unit {0}) (λ r. P r.1) (finish_block s) _ (λ b e. tt)
        (λ b _.
          Ensures_bind (λ id. Unit {0}) (λ r. P r.1) (get_block_hash sha512 b.block_header) _
            (λ id e. tt) (λ id _. accept_block-Keeps now b id s w h))

  establish_entry-Keeps :
      (now seconds : ℕ) (s : Consensus) (w : W)
      → P w
      → Keeps (establish_entry sha512 difference wrapper now seconds s w)
  unfolding establish_entry
  establish_entry-Keeps now seconds s w h =
      Ensures_bind (λ r. P r.1) (λ r. P r.1)
        (update_proposals sha512 difference wrapper seconds _ w) _
        (update_proposals-Keeps seconds _ w h)
        (λ r k.
          elim (Bool-cases (
            have_consensus (wrapper.get_unl_count r.1) (((r.0).result).tx_proposal).tx_set_id
              (positions (r.0).curr_peer_proposals))) [
                | inl agreed ↦
                    rw agreed (on_accept-Keeps now (record r.0 { phase = accepted }) r.1 k)
                | inr open_yet ↦ rw open_yet (Ensures-ok (λ x. P x.1) _ k)
              ])

  by_phase-Keeps :
      (now seconds : ℕ) (s : Consensus) (w : W) (p : ConsensusPhase)
      → s.phase ≡ p
      → P w
      → Keeps (by_phase sha512 difference wrapper now seconds s w)
  unfolding by_phase
  by_phase-Keeps now seconds s w accepted e h = rw (by_phase, e) (Ensures-ok (λ x. P x.1) (s, w) h)
  by_phase-Keeps now seconds s w establish e h =
      rw (by_phase, e) (establish_entry-Keeps now seconds s w h)
  by_phase-Keeps now seconds s w open_phase e h =
      elim (Bool-cases (ltb s.prev_round_time (2 * (now - s.open_time)))) [
        | inl late ↦
            rw (by_phase, e, late)
              (close_block-Keeps now seconds (record s { phase = establish }) w h)
        | inr early ↦ rw (by_phase, e, early) (Ensures-ok (λ x. P x.1) (s, w) h)
      ]

  preferred_entry-Keeps :
      (now seconds : ℕ) (s : Consensus) (w : W)
      → P w
      → Keeps (preferred_entry sha512 difference wrapper now seconds s w)
  unfolding preferred_entry
  preferred_entry-Keeps now seconds s w h =
      Ensures_bind (λ r. Unit {0}) (λ r. P r.1) (wrapper.get_preferred w) _ (λ a e. tt)
        (λ r _. by_phase-Keeps now seconds _ w _ refl h)

  pub timer_entry-Keeps :
      (now seconds : ℕ) (s : Consensus) (w : W) (p : ConsensusPhase)
      → s.phase ≡ p
      → P w
      → Keeps (timer_entry sha512 difference wrapper now seconds s w)
  unfolding timer_entry
  timer_entry-Keeps now seconds s w accepted e h =
      rw (timer_entry, e) (Ensures-ok (λ x. P x.1) (s, w) h)
  timer_entry-Keeps now seconds s w open_phase e h =
      rw (timer_entry, e) (preferred_entry-Keeps now seconds s w h)
  timer_entry-Keeps now seconds s w establish e h =
      rw (timer_entry, e) (preferred_entry-Keeps now seconds s w h)

  pub peer_proposal-Keeps :
      (prop : BlockProposal) (s : Consensus) (w : W)
      → P w
      → Keeps (peer_proposal sha512 difference wrapper prop s w)
  unfolding peer_proposal
  peer_proposal-Keeps prop s w h =
      elim (Bool-cases ((prop.proposed_block_header).sequence == (s.curr_block).sequence)) [
        | inr other ↦ rw (peer_proposal, other) (Ensures-ok (λ x. P x.1) (s, w) h)
        | inl same ↦
            rw (peer_proposal, same)
              (Ensures_bind (λ r. P r.0) (λ r. P r.1)
                (wrapper.add_block_proposal_to_chain prop s.curr_block_id w) _
                (kept.proposal_added prop s.curr_block_id w h)
                (λ added k. elim (Bool-cases added.1) [
                  | inr not_valid ↦ rw not_valid (Ensures-ok (λ x. P x.1) _ k)
                  | inl valid ↦ rw valid (
                      Ensures_bind P (λ r. P r.1) (wrapper.execute_block s.curr_block added.0) _
                        (kept.executed s.curr_block added.0 k)
                        (λ done i. Ensures-ok (λ x. P x.1) _ i))
                ]))
      ]
