-- ===== src/Consensus/Dispute/Tests.antt =====
-- A dispute with two votes, and what the theorems say of it.
use pqblockchain.Prelude.{ℕ, ◌≡◌, ◌≢◌, refl, true, false, some, [], ◌∷◌, arith}
use pqblockchain.Prelude.Map.{lookup}
use pqblockchain.Exceptions.{ok}
use pqblockchain.Transaction.Tests.{five_to_seven}
use pqblockchain.Consensus.Dispute.{Dispute, set_vote, update_vote, differs}
use pqblockchain.Consensus.Dispute.Laws.{
  IsCounted, unopposed, set_vote-IsCounted, update_vote-unopposed,
}

abbrev split_vote : Dispute
split_vote = record {
  tx = five_to_seven;
  our_vote = true;
  yays = 1;
  nays = 1;
  votes = (21, true) ∷ ((22, false) ∷ []);
}

split_vote-IsCounted : IsCounted split_vote
split_vote-IsCounted = record {
  keys = (refl, (refl, tt));
  yays_counted = refl;
  nays_counted = refl;
}

set_vote-IsCounted_example :
    IsCounted (set_vote 22 true split_vote)
    × (lookup 22 (set_vote 22 true split_vote).votes ≡ some true)
    × ((peer : ℕ)
        → 22 ≢ peer
        → lookup peer (set_vote 22 true split_vote).votes ≡ lookup peer split_vote.votes)
set_vote-IsCounted_example =
    set_vote-IsCounted 22 true split_vote split_vote-IsCounted (omega arith)

update_vote-unopposed_example :
    update_vote (record { num = 1; den = 2 }) split_vote
    ≡ ok
        (record split_vote { our_vote = unopposed split_vote }, differs (unopposed split_vote) true)
update_vote-unopposed_example =
    update_vote-unopposed (record { num = 1; den = 2 }) split_vote (omega arith)
