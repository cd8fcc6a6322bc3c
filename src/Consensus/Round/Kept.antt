-- ===== src/Consensus/Round/Kept.antt =====
-- The operations of a round that leave its phase as it is.
use pqblockchain.Prelude.{
  ℕ, ◌≡◌, refl, ap, ◌∙◌, inl, inr, Bool, true, false, [], ◌∷◌, ◌==◌, if◌then◌else◌, Bool-cases,
  Option-cases,
}
use pqblockchain.Prelude.Map.{Map, lookup, assign}
use pqblockchain.Exceptions.{ok, >>=-inverse, ok_subst}
use pqblockchain.Crypto.{Hash}
use pqblockchain.Transaction.Set.{TransactionSet}
use pqblockchain.Proposal.OfTxSet.{TxSetProposal}
use pqblockchain.Consensus.State.{CProposal, CTxSet, Consensus, Wrapper, reset, is_set}
use pqblockchain.Consensus.Round.{
  member, create_disputes, update_disputes, update_agreeing, acquire, same_sets, update_votes,
  remove_stale_proposals, remove_stale_sets,
}
use pqblockchain.Consensus.Round.Timer.{
  dispute_positions, closed_round, close_block, change_set, update_proposals,
}

module _ (sha512 : Hash) (difference : TransactionSet → TransactionSet → TransactionSet)
    {W : Type 0} (wrapper : Wrapper W) where
  create_disputes-phase :
      (set : CTxSet) (s : Consensus) → (create_disputes difference set s).phase ≡ s.phase
  unfolding create_disputes
  create_disputes-phase set s = elim (Bool-cases (member set.set_id (s.result).compares)) [
    | inl e ↦ rw e refl
    | inr e ↦ elim (Bool-cases (set.set_id == ((s.result).tx_proposal).tx_set_id)) [
      | inl same ↦ rw (e, same) refl
      | inr other ↦ rw (e, other) refl
    ]
  ]

  pub dispute_positions-phase :
      (proposals : Map CProposal) (s : Consensus)
      → (dispute_positions sha512 difference proposals s).phase ≡ s.phase
  unfolding dispute_positions
  dispute_positions-phase [] s = refl
  dispute_positions-phase ((node, pos) ∷ proposals) s =
      elim (Option-cases (lookup pos.tx_set_id s.acquired_sets)) [
        | inl e ↦ rw (dispute_positions, e) (dispute_positions-phase proposals s)
        | inr (set, e) ↦
            rw (dispute_positions, e)
              (dispute_positions-phase proposals (create_disputes difference set s)
                ∙ create_disputes-phase set s)
      ]

  if_phase :
      (test : Bool) (s t : Consensus)
      → t.phase ≡ s.phase
      → (let r : Consensus = if test then s else t in r.phase) ≡ s.phase
  if_phase true s t e = refl
  if_phase false s t e = e

  update_agreeing-phase :
      (rest : Map CProposal) (set : CTxSet) (s : Consensus)
      → (update_agreeing difference rest set s).phase ≡ s.phase
  unfolding update_agreeing update_disputes
  update_agreeing-phase [] set s = refl
  update_agreeing-phase ((node, pos) ∷ rest) set s =
      elim (Bool-cases (pos.tx_set_id == set.set_id)) [
        | inl e ↦ rw e (
            update_agreeing-phase rest set (update_disputes difference node set s)
            ∙ if_phase (member set.set_id (s.result).compares) s (create_disputes difference set s)
                (create_disputes-phase set s))
        | inr e ↦ rw e (update_agreeing-phase rest set s)
      ]

  pub acquire-phase :
      (prop : TxSetProposal) (s : Consensus) → (acquire difference prop s).phase ≡ s.phase
  unfolding acquire
  acquire-phase prop s = elim (Option-cases (lookup prop.tx_set_id s.acquired_sets)) [
    | inr (set, e) ↦ rw (e, acquire) refl
    | inl e ↦ elim (Bool-cases (is_set s.result)) [
      | inr unset ↦ rw (e, acquire, unset) refl
      | inl closed ↦
          let set : CTxSet = record {
            set = (prop.tx_set_body).tx_set;
            set_id = prop.tx_set_id;
            time = prop.time;
          } in
          rw (e, acquire, closed)
            (update_agreeing-phase s.curr_peer_proposals set
              (record s { acquired_sets = assign prop.tx_set_id set s.acquired_sets }))
    ]
  ]

  -- An open round does not look at the sets of its peers.
  pub acquire-reset :
      (prop : TxSetProposal) (s : Consensus)
      → s.result ≡ reset
      → (acquire difference prop s).result ≡ reset
  unfolding acquire is_set
  acquire-reset prop s e = elim (Option-cases (lookup prop.tx_set_id s.acquired_sets)) [
    | inr (set, known) ↦ rw (known, acquire) e
    | inl new ↦
        let unset : is_set s.result ≡ false = ap is_set e ∙ refl in rw (new, acquire, unset) e
  ]

  pub change_set-phase :
      (seconds : ℕ) (txns : TransactionSet) (s : Consensus) (w : W) (r : Consensus × W)
      → change_set sha512 difference wrapper seconds txns s w ≡ ok r
      → (r.0).phase ≡ s.phase
  unfolding change_set
  change_set-phase seconds txns s w r e =
      let (shared, signed, later) = >>=-inverse (wrapper.share_tx_set _ w) _ r e in
      elim (Option-cases (lookup (shared.0).tx_set_id s.acquired_sets)) [
        | inr (known, there) ↦ ok_subst (λ x. (x.0).phase ≡ s.phase) _ r (rw there at later) refl
        | inl new ↦
            ok_subst (λ x. (x.0).phase ≡ s.phase) _ r (rw new at later)
              (update_agreeing-phase s.curr_peer_proposals _ _)
      ]

  pub update_proposals-phase :
      (seconds : ℕ) (s : Consensus) (w : W) (r : Consensus × W)
      → update_proposals sha512 difference wrapper seconds s w ≡ ok r
      → (r.0).phase ≡ s.phase
  unfolding update_proposals
  update_proposals-phase seconds s w r e =
      let left = remove_stale_proposals seconds s.curr_peer_proposals (s.result).disputes in
      let (voted, counted, later) =
        >>=-inverse (update_votes s.converge left.1 (s.result).txns) _ r e in
      elim (Bool-cases (same_sets voted.1 (s.result).txns)) [
        | inl unchanged ↦ ok_subst (λ x. (x.0).phase ≡ s.phase) _ r (rw unchanged at later) refl
        | inr changed ↦
            change_set-phase seconds voted.1
              (record s {
                curr_peer_proposals = left.0;
                acquired_sets = remove_stale_sets seconds s.acquired_sets;
                result = record s.result { disputes = voted.0 };
              })
              w r (rw changed at later)
      ]

  pub close_block-phase :
      (now seconds : ℕ) (s : Consensus) (w : W) (r : Consensus × W)
      → close_block sha512 difference wrapper now seconds s w ≡ ok r
      → (r.0).phase ≡ s.phase
  unfolding close_block
  close_block-phase now seconds s w r e =
      let (shared, signed, later) = >>=-inverse (wrapper.share_tx_set _ w) _ r e in
      ok_subst (λ x. (x.0).phase ≡ s.phase) _ r later
        (dispute_positions-phase s.curr_peer_proposals
          (closed_round now (wrapper.get_current_transaction_set (s.result).txns w) shared.0 s))
