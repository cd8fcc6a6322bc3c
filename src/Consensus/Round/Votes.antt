-- ===== src/Consensus/Round/Votes.antt =====
-- The votes on disputed transactions during a round: each is that of a peer with a position.
pub mod Disputes
pub mod Stale
pub mod Follow
pub mod Updates
use pqblockchain.Prelude.{
  ℕ, zero, suc, ◌+◌, ◌^◌, ◌≤◌, ◌<◌, ◌≡◌, ◌≢◌, refl, sym, ap, ◌∙◌, ◌⊎◌, inl, inr, Bool, true, false,
  Option, none, some, List, [], ◌∷◌, All, length, ◌==◌, if◌then◌else◌, Bool-cases, Option-cases,
  ==→eq, ne→==, eq→==, ne→==_false, arith,
}
use pqblockchain.Prelude.Map.{
  Map, lookup, assign, erase, HasKeys, lookup-assign_self, lookup-assign_ne, lookup-erase_ne,
  length-assign,
}
use pqblockchain.Exceptions.{Result, ok, ◌>>=◌}
use pqblockchain.Transaction.{Transaction}
use pqblockchain.Transaction.Set.{TransactionSet, find}
use pqblockchain.Consensus.Dispute.{Dispute, new_dispute, set_vote, un_vote}
use pqblockchain.Consensus.Dispute.Laws.{IsCounted, HasRoom, set_vote-IsCounted, un_vote-IsCounted}
use pqblockchain.Consensus.State.{
  CProposal, CTxSet, Consensus, ConsensusResult, exists, is_set, open_phase, establish, accepted,
}
use pqblockchain.Consensus.Round.{
  member, vote_known, dispute_all, set_votes, create_disputes, update_disputes, update_agreeing,
  acquire, is_next, got_tx_set,
}

-- The counters of a dispute are those of its votes, cannot wrap, and are votes of peers in `P`.
pub record IsSettled (P : ℕ → Type 0) (d : Dispute) : Type 0 where
  pub counted : IsCounted d
  pub room : HasRoom d
  pub voters : (k : ℕ) → lookup k d.votes ≢ none → P k

-- The peer has a position.
abbrev pub IsPeer : {V : Type 0} → Map V → ℕ → Type 0
IsPeer m k = lookup k m ≢ none

pub IsSettled-weaken :
    (P Q : ℕ → Type 0) (d : Dispute) → ((k : ℕ) → P k → Q k) → IsSettled P d → IsSettled Q d
IsSettled-weaken P Q d f v = record {
  counted = v.counted;
  room = v.room;
  voters = λ k h. f k (v.voters k h);
}

length-erase : {V : Type 0} (k : ℕ) (m : Map V) → IsPeer m k → length (erase k m) + 1 ≡ length m
length-erase k [] h = absurd (h refl)
length-erase k ((j, w) ∷ m) h = elim (Bool-cases (j == k)) [
  | inl e ↦ rw e (omega arith)
  | inr e ↦ rw e (omega (arith, length-erase k m (rw e at h)))
]

-- A map whose keys are all keys of another one is no longer.
length-keys :
    {A B : Type 0} (a : Map A) (b : Map B)
    → HasKeys a
    → ((k : ℕ) → IsPeer a k → IsPeer b k)
    → length a ≤ length b
length-keys [] b h f = omega arith
length-keys ((k, v) ∷ a) b h f =
    let here : IsPeer b k = f k (rw (eq→== k k refl) (λ e. cc)) in
    let rest : length a ≤ length (erase k b) = length-keys a (erase k b) h.1 (λ j known.
      let apart : k ≢ j = λ same. known (ap (λ i. lookup i a) (sym same) ∙ h.0) in
      rw (lookup-erase_ne k j b apart) (f j (rw (ne→==_false k j apart) known))) in
    omega (arith, length-erase k b here)

pub HasRoom-peers :
    {V : Type 0} (proposals : Map V) (d : Dispute)
    → IsCounted d
    → ((k : ℕ) → lookup k d.votes ≢ none → IsPeer proposals k)
    → length proposals + 1 < 2 ^ 32
    → HasRoom d
HasRoom-peers proposals d c f few = omega (arith, length-keys d.votes proposals c.keys f)

module _ {V : Type 0} (proposals : Map V) (few : length proposals + 1 < 2 ^ 32) where
  pub set_vote-IsSettled :
      (node : ℕ) (vote : Bool) (d : Dispute)
      → IsPeer proposals node
      → IsSettled (IsPeer proposals) d
      → IsSettled (IsPeer proposals) (set_vote node vote d)
  set_vote-IsSettled node vote d peer v =
      let (c, own, others) = set_vote-IsCounted node vote d v.counted v.room in
      let known : (k : ℕ) → lookup k (set_vote node vote d).votes ≢ none → IsPeer proposals k =
        λ k h. elim (Bool-cases (node == k)) [
          | inl e ↦ rw (sym (==→eq node k e)) peer
          | inr e ↦ v.voters k (rw (others k (ne→== node k e)) at h)
        ] in
      record { counted = c; room = HasRoom-peers proposals _ c known few; voters = known }
