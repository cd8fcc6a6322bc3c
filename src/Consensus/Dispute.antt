-- ===== src/Consensus/Dispute.antt =====
-- `class DisputeTransaction` of src/Consensus/ConsensusParams.hpp and ConsensusParams.cpp. Peers are
-- named by the numbers whose hexadecimal digits the program uses. The counters are `uint32_t`. The
-- stage of the round (`converge`, a double) is a quotient of two numbers, and the thresholds are the
-- decimal fractions that the source writes.
pub mod Laws
mod Tests
use pqblockchain.Prelude.{
  ℕ, ◌+◌, ◌-◌, ◌*◌, ◌/◌, ◌%◌, ◌^◌, Bool, true, false, none, some, [], ltb, ◌==◌, if◌then◌else◌,
}
use pqblockchain.Prelude.Map.{Map, lookup, assign, erase}
use pqblockchain.Exceptions.{Result, ok, fault}
use pqblockchain.Transaction.{Transaction}

pub record Dispute : Type 0 where
  pub tx : Transaction
  pub our_vote : Bool
  pub yays : ℕ
  pub nays : ℕ
  pub votes : Map Bool

-- The constructor of `DisputeTransaction`.
abbrev pub new_dispute : Transaction → Bool → Dispute
new_dispute tx vote = record { tx = tx; our_vote = vote; yays = 0; nays = 0; votes = [] }

-- `++n` and `--n` of a `uint32_t`.
abbrev pub increment : ℕ → ℕ
increment n = (n + 1) % 2 ^ 32

abbrev pub decrement : ℕ → ℕ
decrement n = (n + 2 ^ 32 - 1) % 2 ^ 32

count_first : Bool → Dispute → Dispute
count_first true d = record d { yays = increment d.yays }
count_first false d = record d { nays = increment d.nays }

-- The vote of a peer that has voted before, by its new vote and its old one.
count_again : Bool → Bool → Dispute → Dispute
count_again true false d = record d { nays = decrement d.nays; yays = increment d.yays }
count_again false true d = record d { nays = increment d.nays; yays = decrement d.yays }
count_again _ _ d = d

-- `DisputeTransaction::setVote`.
unfoldable pub set_vote : ℕ → Bool → Dispute → Dispute
unfolding count_first count_again
set_vote node vote d = elim (lookup node d.votes) [
  | none ↦ count_first vote (record d { votes = assign node vote d.votes })
  | some old ↦ count_again vote old (record d { votes = assign node vote d.votes })
]

-- `DisputeTransaction::unVote`.
unfoldable pub un_vote : ℕ → Dispute → Dispute
un_vote node d = elim (lookup node d.votes) [
  | none ↦ d
  | some true ↦ record d { yays = decrement d.yays; votes = erase node d.votes }
  | some false ↦ record d { nays = decrement d.nays; votes = erase node d.votes }
]

-- A non-negative quotient.
pub record Ratio : Type 0 where
  pub num : ℕ
  pub den : ℕ

abbrev pub less_ratio : Ratio → Ratio → Bool
less_ratio a b = ltb (a.num * b.den) (b.num * a.den)

-- The threshold of `updateVote`, by the stage of the round.
unfoldable pub threshold : Ratio → Ratio
threshold converge =
    if less_ratio converge (record { num = 1; den = 2 })
    then record { num = 1; den = 2 }
    else if less_ratio converge (record { num = 85; den = 100 })
    then record { num = 65; den = 100 }
    else if less_ratio converge (record { num = 2; den = 1 })
    then record { num = 7; den = 10 }
    else record { num = 95; den = 100 }

abbrev vote_number : Bool → ℕ
vote_number true = 1
vote_number false = 0

-- `newVote`: both sides of the division are `uint32_t`, so it drops the remainder.
unfoldable pub new_vote : Ratio → Dispute → Bool
unfolding threshold
new_vote converge d = less_ratio (threshold converge) (record {
  num = ((d.yays + vote_number d.our_vote) % 2 ^ 32) / ((d.yays + d.nays + 1) % 2 ^ 32);
  den = 1;
})

-- Whether two votes differ.
abbrev differs : Bool → Bool → Bool
differs true false = true
differs false true = true
differs _ _ = false

-- `if (newVote != ourVote_)`: whether our vote changed.
decide_vote : Bool → Dispute → Dispute × Bool
decide_vote vote d =
    if differs vote d.our_vote then (record d { our_vote = vote }, true) else (d, false)

-- `DisputeTransaction::updateVote`. A division by zero is undefined.
unfoldable pub update_vote : Ratio → Dispute → Result (Dispute × Bool)
unfolding decide_vote
update_vote converge d =
    if (d.yays + d.nays + 1) % 2 ^ 32 == 0 then fault else ok (decide_vote (new_vote converge d) d)
