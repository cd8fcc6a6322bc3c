-- ===== src/Consensus/Round/Votes/Follow.antt =====
-- The votes of a peer that proposes a set of transactions: `gotTxSet` of src/Consensus/Consensus.cpp.
use pqblockchain.Prelude.{
  ℕ, ◌≡◌, ◌≢◌, refl, sym, ap, ◌∙◌, inl, inr, Bool, true, false, none, some, [], ◌∷◌, All, ◌==◌,
  if◌then◌else◌, Bool-cases, Option-cases, ==→eq, ne→==, eq→==, subst,
}
use pqblockchain.Prelude.Map.{Map, lookup, assign, lookup-assign_self, lookup-assign_ne}
use pqblockchain.Transaction.Set.{TransactionSet}
use pqblockchain.Proposal.OfTxSet.{TxSetProposal}
use pqblockchain.Consensus.Dispute.{Dispute, set_vote}
use pqblockchain.Consensus.Dispute.Laws.{votes-set_vote}
use pqblockchain.Consensus.State.{CProposal, CTxSet, Consensus, exists, is_set, accepted}
use pqblockchain.Consensus.Round.{
  set_votes, create_disputes, update_disputes, update_agreeing, acquire, is_next, position,
  with_position, got_tx_set, member,
}
use pqblockchain.Consensus.Round.Sequence.{running_phase}

-- The set that a proposal brings.
abbrev pub proposed_set : TxSetProposal → CTxSet
proposed_set prop = record {
  set = (prop.tx_set_body).tx_set;
  set_id = prop.tx_set_id;
  time = prop.time;
}

-- On each dispute the peer has voted for the transaction exactly if the set has it.
abbrev pub IsVoted : ℕ → CTxSet → Map Dispute → Type 0
IsVoted k set disputes = All (λ e. lookup k (e.1).votes ≡ some (exists (e.1).tx set)) disputes

set_vote-tx : (node : ℕ) (vote : Bool) (d : Dispute) → (set_vote node vote d).tx ≡ d.tx
unfolding set_vote
set_vote-tx node true d = elim (Option-cases (lookup node d.votes)) [
  | inl e ↦ rw (e, set_vote) refl
  | inr (true, e) ↦ rw (e, set_vote) refl
  | inr (false, e) ↦ rw (e, set_vote) refl
]
set_vote-tx node false d = elim (Option-cases (lookup node d.votes)) [
  | inl e ↦ rw (e, set_vote) refl
  | inr (true, e) ↦ rw (e, set_vote) refl
  | inr (false, e) ↦ rw (e, set_vote) refl
]

-- A vote of a peer by its set, as the dispute has it then.
set_vote_by_set :
    (k : ℕ) (set : CTxSet) (node : ℕ) (d : Dispute)
    → lookup k (assign node (exists d.tx set) d.votes) ≡ some (exists d.tx set)
    → let d' : Dispute = set_vote node (exists d.tx set) d in
      lookup k d'.votes ≡ some (exists d'.tx set)
set_vote_by_set k set node d h =
    ap (lookup k) (votes-set_vote node (exists d.tx set) d)
    ∙ h
    ∙ ap (λ t. some (exists t set)) (sym (set_vote-tx node (exists d.tx set) d))

set_votes-own :
    (node : ℕ) (set : CTxSet) (disputes : Map Dispute)
    → IsVoted node set (set_votes node set disputes)
unfolding set_votes
set_votes-own node set [] = tt
set_votes-own node set ((id, d) ∷ disputes) = (
  set_vote_by_set node set node d (lookup-assign_self node (exists d.tx set) d.votes),
  set_votes-own node set disputes,
)

set_votes-kept :
    (k node : ℕ) (set : CTxSet) (disputes : Map Dispute)
    → node ≢ k
    → IsVoted k set disputes
    → IsVoted k set (set_votes node set disputes)
unfolding set_votes
set_votes-kept k node set [] apart v = tt
set_votes-kept k node set ((id, d) ∷ disputes) apart v = (
  set_vote_by_set k set node d (lookup-assign_ne node k (exists d.tx set) d.votes apart ∙ v.0),
  set_votes-kept k node set disputes apart v.1,
)

-- The set has been compared, and the peer has voted by it.
abbrev Follows : ℕ → CTxSet → Consensus → Type 0
Follows k set s = (member set.set_id (s.result).compares ≡ true) × IsVoted k set (s.result).disputes

module _ (difference : TransactionSet → TransactionSet → TransactionSet) where
  create_disputes_compared :
      (set : CTxSet) (s : Consensus)
      → member set.set_id ((create_disputes difference set s).result).compares ≡ true
  unfolding create_disputes
  create_disputes_compared set s = elim (Bool-cases (member set.set_id (s.result).compares)) [
    | inl known ↦ rw known known
    | inr new ↦ elim (Bool-cases (set.set_id == ((s.result).tx_proposal).tx_set_id)) [
      | inl ours ↦ rw (new, ours) (rw (eq→== set.set_id set.set_id refl) refl)
      | inr other ↦ rw (new, other) (rw (eq→== set.set_id set.set_id refl) refl)
    ]
  ]

  -- The state in which `updateDisputes` votes.
  abbrev compared : CTxSet → Consensus → Consensus
  compared set s =
      if member set.set_id (s.result).compares then s else create_disputes difference set s

  compared-member :
      (set : CTxSet) (s : Consensus) → member set.set_id ((compared set s).result).compares ≡ true
  compared-member set s = elim (Bool-cases (member set.set_id (s.result).compares)) [
    | inl known ↦ rw known known
    | inr new ↦ rw new (create_disputes_compared set s)
  ]

  update_disputes-Follows :
      (node : ℕ) (set : CTxSet) (s : Consensus)
      → Follows node set (update_disputes difference node set s)
  unfolding update_disputes
  update_disputes-Follows node set s =
      (compared-member set s, set_votes-own node set ((compared set s).result).disputes)

  update_disputes-kept :
      (k node : ℕ) (set : CTxSet) (s : Consensus)
      → Follows k set s
      → Follows k set (update_disputes difference node set s)
  update_disputes-kept k node set s h = elim (Bool-cases (node == k)) [
    | inl own ↦
        subst (λ j. Follows j set (update_disputes difference node set s)) (==→eq node k own)
          (update_disputes-Follows node set s)
    | inr other ↦
        unfold update_disputes in
        rw (h.0) (h.0, set_votes-kept k node set (s.result).disputes (ne→== node k other) h.1)
  ]

  update_agreeing-kept :
      (k : ℕ) (proposals : Map CProposal) (set : CTxSet) (s : Consensus)
      → Follows k set s
      → Follows k set (update_agreeing difference proposals set s)
  unfolding update_agreeing
  update_agreeing-kept k [] set s h = h
  update_agreeing-kept k ((node, pos) ∷ proposals) set s h =
      elim (Bool-cases (pos.tx_set_id == set.set_id)) [
        | inl agrees ↦ rw agrees (
            update_agreeing-kept k proposals set (update_disputes difference node set s)
              (update_disputes-kept k node set s h))
        | inr differs ↦ rw differs (update_agreeing-kept k proposals set s h)
      ]

  update_agreeing-Follows :
      (k : ℕ) (pos : CProposal) (proposals : Map CProposal) (set : CTxSet) (s : Consensus)
      → lookup k proposals ≡ some pos
      → pos.tx_set_id ≡ set.set_id
      → Follows k set (update_agreeing difference proposals set s)
  unfolding update_agreeing
  update_agreeing-Follows k pos [] set s e same = absurd (let no : none ≡ some pos = e in cc)
  update_agreeing-Follows k pos ((node, first) ∷ proposals) set s e same =
      elim (Bool-cases (node == k)) [
        | inl own ↦
            let is : some first ≡ some pos = rw own at e in
            let back : first ≡ pos = cc in
            let agrees : (first.tx_set_id == set.set_id) ≡ true =
              eq→== first.tx_set_id set.set_id (ap (λ q. q.tx_set_id) back ∙ same) in
            rw agrees (
              update_agreeing-kept k proposals set (update_disputes difference node set s) (
                subst (λ j. Follows j set (update_disputes difference node set s))
                  (==→eq node k own) (update_disputes-Follows node set s)))
        | inr other ↦
            let later : lookup k proposals ≡ some pos = rw other at e in
            elim (Bool-cases (first.tx_set_id == set.set_id)) [
              | inl agrees ↦ rw agrees (
                  update_agreeing-Follows k pos proposals set
                    (update_disputes difference node set s) later same)
              | inr differs ↦ rw differs (update_agreeing-Follows k pos proposals set s later same)
            ]
      ]

  -- A proposal that belongs to the round and is newer than the last one of its peer, while the round is
  -- not accepted. If it brings a set that is not known yet, and we have a position ourselves, then the peer
  -- has a vote on every dispute there is afterwards, and the vote is for the transaction exactly if the set
  -- has it. But if the set is known already, the disputes and all their votes stay as they were, also those
  -- of the peer for the set that it has left.
  pub got_tx_set_votes :
      (prop : TxSetProposal) (s : Consensus)
      → is_next prop s ≡ true
      → s.phase ≢ accepted
      → let t : Consensus = got_tx_set difference prop s in
        (lookup prop.tx_set_id s.acquired_sets ≡ none
          → is_set s.result ≡ true
          → IsVoted prop.issuer (proposed_set prop) (t.result).disputes)
        × ((known : CTxSet)
            → lookup prop.tx_set_id s.acquired_sets ≡ some known
            → (t.result).disputes ≡ (s.result).disputes)
  unfolding got_tx_set
  got_tx_set_votes prop s taken running =
      let placed : Consensus = with_position prop s in
      let next : got_tx_set difference prop s ≡ acquire difference prop placed =
        running_phase s.phase s (if is_next prop s then acquire difference prop placed else s)
          running
        ∙ ap (λ b. let r : Consensus = if b then acquire difference prop placed else s in r)
            taken in
      (
        λ new ours.
            subst (λ t. IsVoted prop.issuer (proposed_set prop) (t.result).disputes) (sym next)
              (unfold acquire in
                rw (acquire, new, ours)
                  (update_agreeing-Follows prop.issuer (position prop) placed.curr_peer_proposals
                    (proposed_set prop) _
                    (lookup-assign_self prop.issuer (position prop) s.curr_peer_proposals) refl).1),
        λ set known.
            ap (λ t. (t.result).disputes) next ∙ (unfold acquire in rw (acquire, known) refl),
      )
