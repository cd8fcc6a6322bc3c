-- ===== src/Consensus/Round/Votes/Stale.antt =====
-- The first loop of `updateProposals` (src/Consensus/Consensus.cpp): stale positions and their votes.
use pqblockchain.Prelude.{
  none, some, ℕ, ◌≤◌, ◌≡◌, ◌≢◌, ◌⊎◌, refl, sym, ap, ◌∙◌, inl, inr, true, false, [], ◌∷◌, length,
  ◌==◌, if◌then◌else◌, Bool-cases, Option-cases, ne→==_false, eq→==, ==→eq, subst, arith,
}
use pqblockchain.Prelude.Map.{HasKeys, Map, lookup, erase, lookup-erase_ne}
use pqblockchain.Consensus.Dispute.{Dispute, un_vote}
use pqblockchain.Consensus.Dispute.Laws.{un_vote-IsCounted}
use pqblockchain.Consensus.State.{CProposal}
use pqblockchain.Consensus.Round.{is_stale, un_votes, remove_stale_proposals}
use pqblockchain.Consensus.Round.Votes.{IsSettled, IsPeer}
use pqblockchain.Consensus.Round.Votes.Disputes.{AllSettled, AllSettled-weaken}

length-erase_le : {V : Type 0} (k : ℕ) (m : Map V) → length (erase k m) ≤ length m
length-erase_le k [] = omega arith
length-erase_le k ((j, w) ∷ m) = ground (arith, length-erase_le k m)

votes-un_vote :
    (node : ℕ) (d : Dispute)
    → ((un_vote node d).votes ≡ d.votes) ⊎ ((un_vote node d).votes ≡ erase node d.votes)
unfolding un_vote
votes-un_vote node d = elim (Option-cases (lookup node d.votes)) [
  | inl e ↦ inl (rw (e, un_vote) refl)
  | inr (true, e) ↦ inr (rw (e, un_vote) refl)
  | inr (false, e) ↦ inr (rw (e, un_vote) refl)
]

un_vote-IsSettled :
    (P Q : ℕ → Type 0) (node : ℕ) (d : Dispute)
    → ((k : ℕ) → node ≢ k → P k → Q k)
    → IsSettled P d
    → IsSettled Q (un_vote node d)
un_vote-IsSettled P Q node d f v =
    let (c, gone) = un_vote-IsCounted node d v.counted v.room in
    let few = v.room in
    record {
      counted = c;
      room = elim (votes-un_vote node d) [
        | inl e ↦ rw e few
        | inr e ↦ rw e (omega (arith, length-erase_le node d.votes))
      ];
      voters = λ k h.
          let apart : node ≢ k =
            λ e. h (ap (λ j. lookup j (un_vote node d).votes) (sym e) ∙ gone) in
          f k apart (
            v.voters k (elim (votes-un_vote node d) [
              | inl e ↦ rw e at h
              | inr e ↦ rw (e, lookup-erase_ne node k d.votes apart) at h
            ]));
    }

un_votes-AllSettled :
    (P Q : ℕ → Type 0) (node : ℕ) (disputes : Map Dispute)
    → ((k : ℕ) → node ≢ k → P k → Q k)
    → AllSettled P disputes
    → AllSettled Q (un_votes node disputes)
unfolding un_votes
un_votes-AllSettled P Q node [] f v = tt
un_votes-AllSettled P Q node ((id, d) ∷ disputes) f v =
    (un_vote-IsSettled P Q node d f v.0, un_votes-AllSettled P Q node disputes f v.1)

-- The peer is in `P` or has a position.
abbrev Or : (ℕ → Type 0) → Map CProposal → ℕ → Type 0
Or P proposals k = P k ⊎ IsPeer proposals k

Or-drop :
    (P : ℕ → Type 0) (node : ℕ) (pos : CProposal) (proposals : Map CProposal) (k : ℕ)
    → node ≢ k
    → Or P ((node, pos) ∷ proposals) k
    → Or P proposals k
Or-drop P node pos proposals k apart (inl p) = inl p
Or-drop P node pos proposals k apart (inr known) = inr (rw (ne→==_false node k apart) at known)

Or-split :
    (P : ℕ → Type 0) (node : ℕ) (pos : CProposal) (proposals : Map CProposal) (k : ℕ)
    → Or P ((node, pos) ∷ proposals) k
    → Or (λ j. P j ⊎ (node ≡ j)) proposals k
Or-split P node pos proposals k (inl p) = inl (inl p)
Or-split P node pos proposals k (inr known) = elim (Bool-cases (node == k)) [
  | inl own ↦ inl (inr (==→eq node k own))
  | inr other ↦ inr (rw other at known)
]

Or-back :
    (P : ℕ → Type 0) (node : ℕ) (pos : CProposal) (proposals : Map CProposal) (k : ℕ)
    → Or (λ j. P j ⊎ (node ≡ j)) proposals k
    → Or P ((node, pos) ∷ proposals) k
Or-back P node pos proposals k (inl (inl p)) = inl p
Or-back P node pos proposals k (inl (inr own)) = inr (rw (eq→== node k own) (λ no. cc))
Or-back P node pos proposals k (inr known) = elim (Bool-cases (node == k)) [
  | inl own ↦ inr (rw own (λ no. cc))
  | inr other ↦ inr (rw other known)
]

remove_stale-AllSettled :
    (now : ℕ) (proposals : Map CProposal) (disputes : Map Dispute) (P : ℕ → Type 0)
    → AllSettled (Or P proposals) disputes
    → let left = remove_stale_proposals now proposals disputes in AllSettled (Or P left.0) left.1
unfolding remove_stale_proposals
remove_stale-AllSettled now [] disputes P v = v
remove_stale-AllSettled now ((node, pos) ∷ proposals) disputes P v =
    elim (Bool-cases (is_stale now pos.time)) [
      | inl stale ↦
          rw (remove_stale_proposals, stale)
            (remove_stale-AllSettled now proposals (un_votes node disputes) P (
              un_votes-AllSettled (Or P ((node, pos) ∷ proposals)) (Or P proposals) node disputes
                (Or-drop P node pos proposals) v))
      | inr fresh ↦
          rw (remove_stale_proposals, fresh)
            (AllSettled-weaken _ _ _ (Or-back P node pos _) (
              remove_stale-AllSettled now proposals disputes (λ k. P k ⊎ (node ≡ k))
                (AllSettled-weaken (Or P ((node, pos) ∷ proposals)) _ disputes
                  (Or-split P node pos proposals) v)))
    ]

pub remove_stale_peers :
    (now : ℕ) (proposals : Map CProposal) (disputes : Map Dispute)
    → AllSettled (IsPeer proposals) disputes
    → let left = remove_stale_proposals now proposals disputes in AllSettled (IsPeer left.0) left.1
remove_stale_peers now proposals disputes v =
    let left = remove_stale_proposals now proposals disputes in
    AllSettled-weaken (Or (λ _. ⊥) left.0) (IsPeer left.0) left.1
      (λ k h. elim h [ inl never ↦ absurd never | inr known ↦ known ])
      (remove_stale-AllSettled now proposals disputes (λ _. ⊥)
        (AllSettled-weaken (IsPeer proposals) (Or (λ _. ⊥) proposals) disputes (λ k h. inr h) v))

-- No position appears.
pub remove_stale-none :
    (now k : ℕ) (proposals : Map CProposal) (disputes : Map Dispute)
    → lookup k proposals ≡ none
    → lookup k (remove_stale_proposals now proposals disputes).0 ≡ none
unfolding remove_stale_proposals
remove_stale-none now k [] disputes e = refl
remove_stale-none now k ((node, pos) ∷ proposals) disputes e = elim (Bool-cases (node == k)) [
  | inl own ↦ absurd (let no : some pos ≡ none = rw own at e in cc)
  | inr other ↦ elim (Bool-cases (is_stale now pos.time)) [
    | inl stale ↦
        rw (remove_stale_proposals, stale)
          (remove_stale-none now k proposals (un_votes node disputes) (rw other at e))
    | inr fresh ↦
        rw (remove_stale_proposals, fresh)
          (rw other (remove_stale-none now k proposals disputes (rw other at e)))
  ]
]

-- A stale position goes, and a fresh one stays.
pub remove_stale-lookup :
    (now k : ℕ) (pos : CProposal) (proposals : Map CProposal) (disputes : Map Dispute)
    → HasKeys proposals
    → lookup k proposals ≡ some pos
    → lookup k (remove_stale_proposals now proposals disputes).0
      ≡ (if is_stale now pos.time then none else some pos)
unfolding remove_stale_proposals
remove_stale-lookup now k pos [] disputes h e = absurd (let no : none ≡ some pos = e in cc)
remove_stale-lookup now k pos ((node, first) ∷ proposals) disputes h e =
    elim (Bool-cases (node == k)) [
      | inl own ↦
          let is : some first ≡ some pos = rw own at e in
          let back : first ≡ pos = cc in
          let absent : lookup k proposals ≡ none =
            subst (λ j. lookup j proposals ≡ none) (==→eq node k own) h.0 in
          elim (Bool-cases (is_stale now first.time)) [
            | inl stale ↦
                let stale_pos : is_stale now pos.time ≡ true =
                  subst (λ q. is_stale now q.time ≡ true) back stale in
                rw (remove_stale_proposals, stale, stale_pos)
                  (remove_stale-none now k proposals (un_votes node disputes) absent)
            | inr fresh ↦
                let fresh_pos : is_stale now pos.time ≡ false =
                  subst (λ q. is_stale now q.time ≡ false) back fresh in
                rw (remove_stale_proposals, fresh, fresh_pos) (rw own is)
          ]
      | inr other ↦
          let later : lookup k proposals ≡ some pos = rw other at e in
          elim (Bool-cases (is_stale now first.time)) [
            | inl stale ↦
                rw (remove_stale_proposals, stale)
                  (remove_stale-lookup now k pos proposals (un_votes node disputes) h.1 later)
            | inr fresh ↦
                rw (remove_stale_proposals, fresh)
                  (rw other (remove_stale-lookup now k pos proposals disputes h.1 later))
          ]
    ]

pub length-remove_stale :
    (now : ℕ) (proposals : Map CProposal) (disputes : Map Dispute)
    → length (remove_stale_proposals now proposals disputes).0 ≤ length proposals
unfolding remove_stale_proposals
length-remove_stale now [] disputes = omega arith
length-remove_stale now ((node, pos) ∷ proposals) disputes =
    elim (Bool-cases (is_stale now pos.time)) [
      | inl stale ↦
          rw (remove_stale_proposals, stale)
            (let l = length-remove_stale now proposals (un_votes node disputes) in omega arith)
      | inr fresh ↦
          rw (remove_stale_proposals, fresh)
            (let l = length-remove_stale now proposals disputes in omega arith)
    ]
