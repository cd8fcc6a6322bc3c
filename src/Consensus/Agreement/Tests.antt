-- ===== src/Consensus/Agreement/Tests.antt =====
-- Three peers, a pool with one transaction, and what the theorems say of them.
use pqblockchain.Prelude.{ℕ, ◌≡◌, ◌≤◌, ◌↔◌, refl, true, false, [], ◌∷◌}
use pqblockchain.Prelude.Map.{Map}
use pqblockchain.Transaction.Tests.{five_to_seven}
use pqblockchain.Consensus.Agreement.{
  TransactionPool, is_transaction_in_pool, count_agree, have_consensus, have_consensus-unanimous,
}

-- Two peers of three propose the set 50.
abbrev three_proposals : Map ℕ
three_proposals = (31, 50) ∷ ((32, 51) ∷ ((33, 50) ∷ []))

have_consensus-unanimous_example :
    (have_consensus 3 50 three_proposals ≡ true) ↔ (3 ≤ count_agree 50 three_proposals)
have_consensus-unanimous_example = have_consensus-unanimous 3 50 three_proposals

abbrev small_pool : TransactionPool
small_pool = (11, five_to_seven) ∷ []

nine_to_five_absent : is_transaction_in_pool 12 small_pool ≡ false
unfolding is_transaction_in_pool
nine_to_five_absent = refl
