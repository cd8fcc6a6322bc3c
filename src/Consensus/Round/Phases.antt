-- ===== src/Consensus/Round/Phases.antt =====
-- The phases of a round, over every sequence of calls: src/Consensus/Consensus.cpp.
use pqblockchain.Prelude.{
  [], ◌∷◌, ℕ, ◌*◌, ◌-◌, ◌≡◌, ◌≢◌, ◌⊎◌, refl, sym, ◌∙◌, subst, inl, inr, ltb, ◌==◌, if_both,
  Bool-cases,
}
use pqblockchain.Exceptions.{Result, ok, >>=-inverse, ok_subst}
use pqblockchain.Crypto.{Hash}
use pqblockchain.Transaction.Set.{TransactionSet}
use pqblockchain.Proposal.OfBlock.{BlockProposal}
use pqblockchain.Proposal.OfTxSet.{TxSetProposal}
use pqblockchain.Consensus.Agreement.{TransactionPool, have_consensus}
use pqblockchain.Consensus.Thread.{thread_turn}
use pqblockchain.Consensus.State.{
  ms, open_phase, establish, accepted, Consensus, Wrapper, begin_consensus, new_consensus, reset,
}
use pqblockchain.Consensus.Round.{with_position, got_tx_set}
use pqblockchain.Consensus.Round.Timer.{
  positions, update_proposals, establish_entry, by_phase, preferred_entry, timer_entry,
  peer_proposal,
}
use pqblockchain.Consensus.Round.Kept.{
  acquire-phase, acquire-reset, update_proposals-phase, close_block-phase,
}
use pqblockchain.Consensus.Round.Accept.{on_accept_next_round}
use pqblockchain.Consensus.Round.Sequence.{got_tx_set-cases, running_phase}

module _ (sha512 : Hash) (difference : TransactionSet → TransactionSet → TransactionSet)
    {W : Type 0} (wrapper : Wrapper W) where
  -- A call that returns: a turn of the thread, which may start the round again before it calls the timer,
  -- or a proposal of a peer. What the wrapper's state becomes between two calls is up to the rest of the
  -- program, as is the pool that the thread looks at.
  pub data Step : Consensus → Consensus → Type 0 where
    turn :
        {s t : Consensus} (v w : W) (pool : TransactionPool) (now seconds last : ℕ)
        → thread_turn sha512 difference wrapper pool now seconds last s v ≡ ok (t, w)
        → Step s t
    tx_set_proposal : {s : Consensus} (prop : TxSetProposal) → Step s (got_tx_set difference prop s)
    block_proposal :
        {s t : Consensus} (v w : W) (prop : BlockProposal)
        → peer_proposal sha512 difference wrapper prop s v ≡ ok (t, w)
        → Step s t

  pub data Reach (s : Consensus) : Consensus → Type 0 where
    here : Reach s s
    next : {t u : Consensus} → Reach s t → Step t u → Reach s u

  -- Between two calls the round is open, with nothing decided, or establishing.
  abbrev pub IsBetween : Consensus → Type 0
  IsBetween s = ((s.phase ≡ open_phase) × (s.result ≡ reset)) ⊎ (s.phase ≡ establish)

  got_tx_set-IsBetween :
      (prop : TxSetProposal) (s : Consensus)
      → IsBetween s
      → IsBetween (got_tx_set difference prop s)
  got_tx_set-IsBetween prop s b = elim (got_tx_set-cases difference prop s) [
    | inl same ↦ subst IsBetween (sym same) b
    | inr (_, e) ↦ subst IsBetween (sym e) (elim b [
      | inl (opened, unset) ↦ inl (
        acquire-phase sha512 difference wrapper prop (with_position prop s) ∙ opened,
        acquire-reset sha512 difference wrapper prop (with_position prop s) unset,
      )
      | inr closed ↦
          inr (acquire-phase sha512 difference wrapper prop (with_position prop s) ∙ closed)
    ])
  ]

  establish_entry-IsBetween :
      (now seconds : ℕ) (s : Consensus) (w : W) (r : Consensus × W)
      → s.phase ≡ establish
      → establish_entry sha512 difference wrapper now seconds s w ≡ ok r
      → IsBetween r.0
  unfolding establish_entry
  establish_entry-IsBetween now seconds s w r p e =
      let (updated, kept, later) =
        >>=-inverse (update_proposals sha512 difference wrapper seconds _ w) _ r e in
      elim (Bool-cases (
        have_consensus (wrapper.get_unl_count updated.1)
          (((updated.0).result).tx_proposal).tx_set_id
          (positions (updated.0).curr_peer_proposals))) [
            | inl agreed ↦
                let (b, id, (_, _, opened, unset, _, _), _, _, _, _) =
                  on_accept_next_round sha512 difference wrapper now
                    (record updated.0 { phase = accepted }) updated.1 r (rw agreed at later) in
                inl (opened, unset)
            | inr open_yet ↦
                ok_subst (λ x. IsBetween x.0) updated r (rw open_yet at later)
                  (inr
                    (update_proposals-phase sha512 difference wrapper seconds _ w updated kept ∙ p))
          ]

  IsBetween-running : (s : Consensus) → IsBetween s → s.phase ≢ accepted
  IsBetween-running s (inl (opened, _)) e =
      let no_phase : open_phase ≡ accepted = sym opened ∙ e in cc
  IsBetween-running s (inr closed) e = let no_phase : establish ≡ accepted = sym closed ∙ e in cc

  by_phase-IsBetween :
      (now seconds : ℕ) (s : Consensus) (w : W) (r : Consensus × W)
      → IsBetween s
      → by_phase sha512 difference wrapper now seconds s w ≡ ok r
      → IsBetween r.0
  unfolding by_phase
  by_phase-IsBetween now seconds s w r (inr closed) e =
      establish_entry-IsBetween now seconds s w r closed (rw (by_phase, closed) at e)
  by_phase-IsBetween now seconds s w r (inl (opened, unset)) e =
      elim (Bool-cases (ltb s.prev_round_time (2 * (now - s.open_time)))) [
        | inl late ↦ inr (
            close_block-phase sha512 difference wrapper now seconds (record s { phase = establish })
              w r (rw (by_phase, opened, late) at e))
        | inr early ↦
            ok_subst (λ x. IsBetween x.0) (s, w) r (rw (by_phase, opened, early) at e)
              (inl (opened, unset))
      ]

  timer_entry-IsBetween :
      (now seconds : ℕ) (s : Consensus) (w : W) (r : Consensus × W)
      → IsBetween s
      → timer_entry sha512 difference wrapper now seconds s w ≡ ok r
      → IsBetween r.0
  unfolding timer_entry preferred_entry begin_consensus
  timer_entry-IsBetween now seconds s w r b e =
      let entered =
        sym (
          running_phase s.phase (let idle : Result (Consensus × W) = ok (s, w) in idle)
            (preferred_entry sha512 difference wrapper now seconds s w) (IsBetween-running s b))
        ∙ e in
      let (preferred, _, later) = >>=-inverse (wrapper.get_preferred w) _ r entered in
      by_phase-IsBetween now seconds _ w r
        (if_both IsBetween (preferred.0 == s.prev_block_id) s _ b (inl (refl, refl))) later

  thread_turn-IsBetween :
      (pool : TransactionPool) (now seconds last : ℕ) (s : Consensus) (w : W) (r : Consensus × W)
      → IsBetween s
      → thread_turn sha512 difference wrapper pool now seconds last s w ≡ ok r
      → IsBetween r.0
  unfolding thread_turn begin_consensus
  thread_turn-IsBetween [] now seconds last s w r b e = ok_subst (λ x. IsBetween x.0) (s, w) r e b
  thread_turn-IsBetween (tx ∷ pool) now seconds last s w r b e =
      timer_entry-IsBetween now seconds _ w r
        (if_both IsBetween (ltb (ms 3000) (now - last)) (begin_consensus now s) s (inl (refl, refl))
          b)
        e

  peer_proposal-IsBetween :
      (prop : BlockProposal) (s : Consensus) (w : W) (r : Consensus × W)
      → IsBetween s
      → peer_proposal sha512 difference wrapper prop s w ≡ ok r
      → IsBetween r.0
  unfolding peer_proposal
  peer_proposal-IsBetween prop s w r b e =
      elim (Bool-cases ((prop.proposed_block_header).sequence == (s.curr_block).sequence)) [
        | inr other ↦ ok_subst (λ x. IsBetween x.0) (s, w) r (rw (peer_proposal, other) at e) b
        | inl same ↦
            let (added, _, later) =
              >>=-inverse (wrapper.add_block_proposal_to_chain prop s.curr_block_id w) _ r
                (rw (peer_proposal, same) at e) in
            elim (Bool-cases added.1) [
              | inr not_valid ↦
                  ok_subst (λ x. IsBetween x.0) (s, added.0) r (rw not_valid at later) b
              | inl valid ↦
                  let (executed, _, last) =
                    >>=-inverse (wrapper.execute_block s.curr_block added.0) _ r
                      (rw valid at later) in
                  ok_subst (λ x. IsBetween x.0) _ r last b
            ]
      ]

  Step-IsBetween : {s t : Consensus} → Step s t → IsBetween s → IsBetween t
  Step-IsBetween (turn v w pool now seconds last e) b =
      thread_turn-IsBetween pool now seconds last _ v _ b e
  Step-IsBetween (tx_set_proposal prop) b = got_tx_set-IsBetween prop _ b
  Step-IsBetween (block_proposal v w prop e) b = peer_proposal-IsBetween prop _ v _ b e

  Reach-IsBetween : {s t : Consensus} → Reach s t → IsBetween s → IsBetween t
  Reach-IsBetween here b = b
  Reach-IsBetween (next r step) b = Step-IsBetween step (Reach-IsBetween r b)

  -- However the thread and the proposals of peers call it, a consensus that started as its constructor
  -- leaves it is never found in the phase ACCEPTED between two calls that return: it is establishing, or it
  -- is open, and then its result is reset, with no transactions, no proposal of ours and no disputes. So
  -- the tests of `timerEntry` and `gotTxSet` for that phase never succeed. (The wrapper, its state between
  -- the calls, the clocks and the difference of two sets are arbitrary.)
  pub Reach-phases :
      (genesis_block_hash now : ℕ) {s : Consensus}
      → Reach (new_consensus genesis_block_hash now) s
      → (s.phase ≢ accepted) × (s.phase ≡ open_phase → s.result ≡ reset)
  unfolding new_consensus begin_consensus
  Reach-phases genesis_block_hash now {s} r =
      let between = Reach-IsBetween r (inl (refl, refl)) in
      (
        IsBetween-running s between,
        λ e. elim between [
          | inl (opened, unset) ↦ unset
          | inr closed ↦ absurd (let no_phase : establish ≡ open_phase = sym closed ∙ e in cc)
        ],
      )
