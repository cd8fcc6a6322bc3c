-- ===== src/Consensus/Round/Votes/Disputes.antt =====
-- `createDisputes`, `updateDisputes` and `gotTxSet` leave the votes on every dispute settled.
use pqblockchain.Prelude.{
  ℕ, ◌+◌, ◌^◌, ◌<◌, ◌≡◌, refl, sym, inl, inr, Bool, [], ◌∷◌, All, length, ◌==◌, if◌then◌else◌,
  if_both, Bool-cases, Option-cases, eq→==, ==→eq, ne→==, arith,
}
use pqblockchain.Prelude.Map.{
  Map, lookup, assign, lookup-assign_self, lookup-assign_ne, length-assign,
}
use pqblockchain.Transaction.{Transaction}
use pqblockchain.Transaction.Set.{TransactionSet}
use pqblockchain.Proposal.OfTxSet.{TxSetProposal}
use pqblockchain.Consensus.Dispute.{Dispute, new_dispute, set_vote}
use pqblockchain.Consensus.State.{CProposal, CTxSet, Consensus, exists, is_set}
use pqblockchain.Consensus.Round.{
  member, vote_known, dispute_all, set_votes, create_disputes, update_disputes, update_agreeing,
  acquire, position, with_position, got_tx_set,
}
use pqblockchain.Consensus.Round.Sequence.{got_tx_set-cases}
use pqblockchain.Consensus.Round.Votes.{IsSettled, IsPeer, IsSettled-weaken, set_vote-IsSettled}

abbrev pub AllSettled : (ℕ → Type 0) → Map Dispute → Type 0
AllSettled P = All (λ e. IsSettled P e.1)

-- Every dispute of the round has true counters, which cannot wrap, and votes of peers with a position.
abbrev pub IsValid : Consensus → Type 0
IsValid s = AllSettled (IsPeer s.curr_peer_proposals) (s.result).disputes

pub AllSettled-weaken :
    (P Q : ℕ → Type 0) (disputes : Map Dispute)
    → ((k : ℕ) → P k → Q k)
    → AllSettled P disputes
    → AllSettled Q disputes
AllSettled-weaken P Q [] f v = tt
AllSettled-weaken P Q ((id, d) ∷ disputes) f v =
    (IsSettled-weaken P Q d f v.0, AllSettled-weaken P Q disputes f v.1)

assign-AllSettled :
    (P : ℕ → Type 0) (k : ℕ) (d : Dispute) (disputes : Map Dispute)
    → IsSettled P d
    → AllSettled P disputes
    → AllSettled P (assign k d disputes)
assign-AllSettled P k d [] h v = (h, tt)
assign-AllSettled P k d ((j, e) ∷ disputes) h v = elim (Bool-cases (j == k)) [
  | inl same ↦ rw same (h, v.1)
  | inr apart ↦ rw apart (v.0, assign-AllSettled P k d disputes h v.1)
]

-- The keys of a map are known in it.
keys_known_cons :
    {V : Type 0} (j : ℕ) (w : V) (m rest : Map V)
    → All (λ e. IsPeer m e.0) rest
    → All (λ e. IsPeer ((j, w) ∷ m) e.0) rest
keys_known_cons j w m [] h = tt
keys_known_cons j w m ((k, v) ∷ rest) h = (
  elim (Bool-cases (j == k)) [ inl e ↦ rw e (λ no. cc) | inr e ↦ rw e h.0 ],
  keys_known_cons j w m rest h.1,
)

pub keys_known : {V : Type 0} (m : Map V) → All (λ e. IsPeer m e.0) m
keys_known [] = tt
keys_known ((j, w) ∷ m) = (rw (eq→== j j refl) (λ no. cc), keys_known_cons j w m m (keys_known m))

new_dispute-IsSettled :
    (P : ℕ → Type 0) (tx : Transaction) (vote : Bool) → IsSettled P (new_dispute tx vote)
new_dispute-IsSettled P tx vote = record {
  counted = record { keys = tt; yays_counted = refl; nays_counted = refl };
  room = omega arith;
  voters = λ k h. absurd (h refl);
}

module _ (proposals : Map CProposal) (few : length proposals + 1 < 2 ^ 32) where
  vote_known-IsSettled :
      (rest : Map CProposal) (acquired : Map CTxSet) (d : Dispute)
      → All (λ e. IsPeer proposals e.0) rest
      → IsSettled (IsPeer proposals) d
      → IsSettled (IsPeer proposals) (vote_known rest acquired d)
  unfolding vote_known
  vote_known-IsSettled [] acquired d h v = v
  vote_known-IsSettled ((node, pos) ∷ rest) acquired d h v =
      elim (Option-cases (lookup pos.tx_set_id acquired)) [
        | inl e ↦ rw (e, vote_known) (vote_known-IsSettled rest acquired d h.1 v)
        | inr (set, e) ↦
            rw (e, vote_known)
              (vote_known-IsSettled rest acquired (set_vote node (exists d.tx set) d) h.1
                (set_vote-IsSettled proposals few node (exists d.tx set) d h.0 v))
      ]

  dispute_all-AllSettled :
      (txns diff : TransactionSet) (acquired : Map CTxSet) (disputes : Map Dispute)
      → AllSettled (IsPeer proposals) disputes
      → AllSettled (IsPeer proposals) (dispute_all txns proposals acquired diff disputes)
  unfolding dispute_all
  dispute_all-AllSettled txns [] acquired disputes v = v
  dispute_all-AllSettled txns (tx ∷ diff) acquired disputes v =
      elim (Option-cases (lookup tx.id_hash disputes)) [
        | inr (d, e) ↦ rw (e, dispute_all) (dispute_all-AllSettled txns diff acquired disputes v)
        | inl e ↦
            rw (e, dispute_all)
              (dispute_all-AllSettled txns diff acquired _ (
                assign-AllSettled (IsPeer proposals) tx.id_hash _ disputes
                  (vote_known-IsSettled proposals acquired _ (keys_known proposals)
                    (new_dispute-IsSettled (IsPeer proposals) tx _))
                  v))
      ]

  set_votes-AllSettled :
      (node : ℕ) (set : CTxSet) (disputes : Map Dispute)
      → IsPeer proposals node
      → AllSettled (IsPeer proposals) disputes
      → AllSettled (IsPeer proposals) (set_votes node set disputes)
  unfolding set_votes
  set_votes-AllSettled node set [] peer v = tt
  set_votes-AllSettled node set ((id, d) ∷ disputes) peer v = (
    set_vote-IsSettled proposals few node (exists d.tx set) d peer v.0,
    set_votes-AllSettled node set disputes peer v.1,
  )

-- The positions are `proposals`, and the disputes are settled for them.
abbrev pub IsValidFor : Map CProposal → Consensus → Type 0
IsValidFor proposals s =
    (s.curr_peer_proposals ≡ proposals) × AllSettled (IsPeer proposals) (s.result).disputes

module _ (difference : TransactionSet → TransactionSet → TransactionSet) (proposals : Map CProposal)
    (few : length proposals + 1 < 2 ^ 32) where
  pub create_disputes-IsValidFor :
      (set : CTxSet) (s : Consensus)
      → IsValidFor proposals s
      → IsValidFor proposals (create_disputes difference set s)
  unfolding create_disputes
  create_disputes-IsValidFor set s v = elim (Bool-cases (member set.set_id (s.result).compares)) [
    | inl e ↦ rw e v
    | inr e ↦ elim (Bool-cases (set.set_id == ((s.result).tx_proposal).tx_set_id)) [
      | inl same ↦ rw (e, same) v
      | inr other ↦
          rw (e, other, v.0)
            (
              refl,
              dispute_all-AllSettled proposals few (s.result).txns
                  (difference (s.result).txns set.set) s.acquired_sets (s.result).disputes v.1,
            )
    ]
  ]

  update_disputes-IsValidFor :
      (node : ℕ) (set : CTxSet) (s : Consensus)
      → IsPeer proposals node
      → IsValidFor proposals s
      → IsValidFor proposals (update_disputes difference node set s)
  unfolding update_disputes
  update_disputes-IsValidFor node set s peer v =
      let compared : Consensus =
        if member set.set_id (s.result).compares then s else create_disputes difference set s in
      let w : IsValidFor proposals compared =
        if_both (IsValidFor proposals) (member set.set_id (s.result).compares) s _ v
          (create_disputes-IsValidFor set s v) in
      (w.0, set_votes-AllSettled proposals few node set (compared.result).disputes peer w.1)

  pub update_agreeing-IsValidFor :
      (rest : Map CProposal) (set : CTxSet) (s : Consensus)
      → All (λ e. IsPeer proposals e.0) rest
      → IsValidFor proposals s
      → IsValidFor proposals (update_agreeing difference rest set s)
  unfolding update_agreeing
  update_agreeing-IsValidFor [] set s h v = v
  update_agreeing-IsValidFor ((node, pos) ∷ rest) set s h v =
      elim (Bool-cases (pos.tx_set_id == set.set_id)) [
        | inl e ↦ rw e (
            update_agreeing-IsValidFor rest set (update_disputes difference node set s) h.1
              (update_disputes-IsValidFor node set s h.0 v))
        | inr e ↦ rw e (update_agreeing-IsValidFor rest set s h.1 v)
      ]

  acquire-IsValidFor :
      (prop : TxSetProposal) (s : Consensus)
      → IsValidFor proposals s
      → IsValidFor proposals (acquire difference prop s)
  unfolding acquire
  acquire-IsValidFor prop s v = elim (Option-cases (lookup prop.tx_set_id s.acquired_sets)) [
    | inr (set, e) ↦ rw (e, acquire) v
    | inl e ↦ elim (Bool-cases (is_set s.result)) [
      | inr unset ↦ rw (e, acquire, unset) v
      | inl closed ↦
          rw (e, acquire, closed, v.0)
            (update_agreeing-IsValidFor proposals _ _ (keys_known proposals) (refl, v.1))
    ]
  ]

IsPeer-assign :
    {V : Type 0} (k : ℕ) (v : V) (m : Map V) (j : ℕ) → IsPeer m j → IsPeer (assign k v m) j
IsPeer-assign k v m j h = elim (Bool-cases (k == j)) [
  | inl e ↦ rw (sym (==→eq k j e), lookup-assign_self k v m) (λ no. cc)
  | inr e ↦ rw (lookup-assign_ne k j v m (ne→== k j e)) h
]

-- Whatever proposal of a transaction set comes in, `gotTxSet` keeps the disputes valid: the counters of
-- each are the numbers of its votes for and against, which are those of peers with a position, each
-- counted once. (There are positions of fewer than 2^32 - 2 peers; the difference of two sets is
-- whatever the library gives.)
pub got_tx_set-IsValid :
    (difference : TransactionSet → TransactionSet → TransactionSet) (prop : TxSetProposal)
    (s : Consensus)
    → length s.curr_peer_proposals + 2 < 2 ^ 32
    → IsValid s
    → IsValid (got_tx_set difference prop s)
got_tx_set-IsValid difference prop s few v = elim (got_tx_set-cases difference prop s) [
  | inl same ↦ rw same v
  | inr (_, next) ↦ rw next (
      let after = with_position prop s in
      let grown : length after.curr_peer_proposals + 1 < 2 ^ 32 =
        omega (arith, length-assign prop.issuer (position prop) s.curr_peer_proposals) in
      let w = acquire-IsValidFor difference after.curr_peer_proposals grown prop after (
        refl,
        AllSettled-weaken (IsPeer s.curr_peer_proposals) (IsPeer after.curr_peer_proposals)
            (s.result).disputes (IsPeer-assign prop.issuer (position prop) s.curr_peer_proposals) v,
      ) in
      rw w.0 w.1)
]
