-- ===== src/Consensus/Round/Sequence.antt =====
-- The positions of the peers, as `gotTxSet` keeps them.
use pqblockchain.Prelude.{
  ℕ, ◌<◌, ◌≡◌, ◌≢◌, ◌⊎◌, refl, sym, ap, ◌∙◌, inl, inr, Bool, true, false, not, some, [], ◌∷◌, leb,
  ◌==◌, if◌then◌else◌, Bool-cases, Option-cases, ==→eq, ne→==, arith,
}
use pqblockchain.Prelude.Map.{Map, lookup, assign, lookup-assign_self, lookup-assign_ne}
use pqblockchain.Transaction.Set.{TransactionSet}
use pqblockchain.Proposal.OfTxSet.{TxSetProposal}
use pqblockchain.Consensus.State.{
  ConsensusPhase, CProposal, CTxSet, Consensus, is_set, open_phase, establish, accepted,
}
use pqblockchain.Consensus.Round.{
  create_disputes, update_disputes, update_agreeing, acquire, is_next, position, with_position,
  got_tx_set, member,
}

by_phase-cases :
    (p : ConsensusPhase) (a b : Consensus)
    → let r : Consensus = elim p [ accepted ↦ a | _ ↦ b ] in (r ≡ a) ⊎ (r ≡ b)
by_phase-cases open_phase a b = inr refl
by_phase-cases establish a b = inr refl
by_phase-cases accepted a b = inl refl

pub running_phase :
    {A : Type 0} (p : ConsensusPhase) (a b : A)
    → p ≢ accepted
    → (let r : A = elim p [ accepted ↦ a | _ ↦ b ] in r) ≡ b
running_phase open_phase a b h = refl
running_phase establish a b h = refl
running_phase accepted a b h = absurd (h refl)

if_same :
    (test : Bool) (s t : Consensus)
    → t.curr_peer_proposals ≡ s.curr_peer_proposals
    → (let r : Consensus = if test then s else t in r.curr_peer_proposals) ≡ s.curr_peer_proposals
if_same true s t e = refl
if_same false s t e = e

module _ (difference : TransactionSet → TransactionSet → TransactionSet) where
  -- `gotTxSet` leaves everything as it is, or stores the position and goes on.
  pub got_tx_set-cases :
      (prop : TxSetProposal) (s : Consensus)
      → (got_tx_set difference prop s ≡ s)
        ⊎ ((is_next prop s ≡ true)
            × (got_tx_set difference prop s ≡ acquire difference prop (with_position prop s)))
  unfolding got_tx_set
  got_tx_set-cases prop s =
      let next : Consensus = acquire difference prop (with_position prop s) in
      elim (by_phase-cases s.phase s (if is_next prop s then next else s)) [
        | inl same ↦ inl same
        | inr e ↦ elim (Bool-cases (is_next prop s)) [
          | inl taken ↦ inr (taken, e ∙ (rw taken refl))
          | inr refused ↦ inl (e ∙ (rw refused refl))
        ]
      ]

  create_disputes_positions :
      (set : CTxSet) (s : Consensus)
      → (create_disputes difference set s).curr_peer_proposals ≡ s.curr_peer_proposals
  unfolding create_disputes
  create_disputes_positions set s = elim (Bool-cases (member set.set_id (s.result).compares)) [
    | inl e ↦ rw e refl
    | inr e ↦ elim (Bool-cases (set.set_id == ((s.result).tx_proposal).tx_set_id)) [
      | inl same ↦ rw (e, same) refl
      | inr other ↦ rw (e, other) refl
    ]
  ]

  update_disputes_positions :
      (node : ℕ) (set : CTxSet) (s : Consensus)
      → (update_disputes difference node set s).curr_peer_proposals ≡ s.curr_peer_proposals
  unfolding update_disputes
  update_disputes_positions node set s =
      if_same (member set.set_id (s.result).compares) s (create_disputes difference set s)
        (create_disputes_positions set s)

  update_agreeing_positions :
      (rest : Map CProposal) (set : CTxSet) (s : Consensus)
      → (update_agreeing difference rest set s).curr_peer_proposals ≡ s.curr_peer_proposals
  unfolding update_agreeing
  update_agreeing_positions [] set s = refl
  update_agreeing_positions ((node, pos) ∷ rest) set s =
      elim (Bool-cases (pos.tx_set_id == set.set_id)) [
        | inl e ↦ rw e (
            update_agreeing_positions rest set (update_disputes difference node set s)
            ∙ update_disputes_positions node set s)
        | inr e ↦ rw e (update_agreeing_positions rest set s)
      ]

  acquire_positions :
      (prop : TxSetProposal) (s : Consensus)
      → (acquire difference prop s).curr_peer_proposals ≡ s.curr_peer_proposals
  unfolding acquire
  acquire_positions prop s = elim (Option-cases (lookup prop.tx_set_id s.acquired_sets)) [
    | inr (set, e) ↦ rw (e, acquire) refl
    | inl e ↦ elim (Bool-cases (is_set s.result)) [
      | inr unset ↦ rw (e, acquire, unset) refl
      | inl closed ↦
          let set : CTxSet = record {
            set = (prop.tx_set_body).tx_set;
            set_id = prop.tx_set_id;
            time = prop.time;
          } in
          rw (e, acquire, closed)
            (update_agreeing_positions s.curr_peer_proposals set
              (record s { acquired_sets = assign prop.tx_set_id set s.acquired_sets }))
    ]
  ]

  -- A proposal that is taken belongs to the round, and is newer than its peer's last one.
  is_next-newer :
      (prop : TxSetProposal) (s : Consensus)
      → is_next prop s ≡ true
      → (prop.previous_block_id ≡ s.prev_block_id)
        × ((old : CProposal)
            → lookup prop.issuer s.curr_peer_proposals ≡ some old
            → old.seq < prop.seq)
  unfolding is_next
  is_next-newer prop s h = elim (Bool-cases (prop.previous_block_id == s.prev_block_id)) [
    | inr apart ↦ absurd (let no : false ≡ true = rw (apart, is_next) at h in cc)
    | inl same ↦ (
      ==→eq prop.previous_block_id s.prev_block_id same,
      λ old e.
          let newer : not (leb prop.seq old.seq) ≡ true = rw (same, e, is_next) at h in
          ground arith,
    )
  ]

  -- Whatever proposal of a transaction set comes in, `gotTxSet` changes no peer's position but that of
  -- the issuer, and that only to the position of the proposal, if the proposal builds on our last block
  -- and has a greater sequence number than the issuer's position before.
  pub got_tx_set_positions :
      (prop : TxSetProposal) (s : Consensus) (k : ℕ)
      → let earlier = lookup k s.curr_peer_proposals in
        let later = lookup k (got_tx_set difference prop s).curr_peer_proposals in
        (later ≡ earlier)
        ⊎ ((prop.issuer ≡ k)
            × (later ≡ some (position prop))
            × (prop.previous_block_id ≡ s.prev_block_id)
            × ((old : CProposal) → earlier ≡ some old → old.seq < prop.seq))
  got_tx_set_positions prop s k = elim (got_tx_set-cases prop s) [
    | inl same ↦ inl (ap (λ t. lookup k t.curr_peer_proposals) same)
    | inr (taken, next) ↦
        let stored =
          ap (λ t. lookup k t.curr_peer_proposals) next
          ∙ ap (λ m. lookup k m) (acquire_positions prop (with_position prop s)) in
        elim (Bool-cases (prop.issuer == k)) [
          | inl own ↦
              let same = ==→eq prop.issuer k own in
              let (previous, newer) = is_next-newer prop s taken in
              inr (
                same,
                stored
                    ∙ ap (λ j. lookup j (assign prop.issuer (position prop) s.curr_peer_proposals))
                        (sym same)
                    ∙ lookup-assign_self prop.issuer (position prop) s.curr_peer_proposals,
                previous,
                λ old e. newer old (ap (λ j. lookup j s.curr_peer_proposals) same ∙ e),
              )
          | inr other ↦ inl (
              stored
              ∙ lookup-assign_ne prop.issuer k (position prop) s.curr_peer_proposals
                  (ne→== prop.issuer k other))
        ]
  ]
