-- ===== src/MessageProcessor.antt =====
-- The checks that `MessageProcessor` of src/Network/MessageManagement.cpp makes of what it receives.
-- The balance of an account is a parameter: `none` where the account does not exist.
pub mod Checks
pub mod State
pub mod Handlers
pub mod Inventories
pub mod Kept
pub mod Asked
pub mod Announced
pub mod Forged
pub mod Late
pub mod Reachable
pub mod Tests
use pqblockchain.Prelude.{ℕ, Bool, true, false, Option, none, some, ◌==◌, not, ◌&&◌}
use pqblockchain.Exceptions.{Result, ok, ◌>>=◌}
use pqblockchain.Crypto.{Hash, SignAlgorithm}
use pqblockchain.Account.{AccountBalance}
use pqblockchain.Transaction
use pqblockchain.Transaction.{Transaction, check_transaction_structure}
use pqblockchain.Proposal.OfBlock
use pqblockchain.Proposal.OfBlock.{BlockProposal}
use pqblockchain.Proposal.OfTxSet
use pqblockchain.Proposal.OfTxSet.{TxSetProposal}

module _ (get_balance : ℕ → Option AccountBalance) (s : SignAlgorithm) where
  -- The steps of `checkTransaction` behind the search for the sender.
  check_signature : Transaction → AccountBalance → Bool
  check_signature tx sender = elim (Transaction.verify s sender.public_key tx) [
    | false ↦ false
    | true ↦ elim (get_balance tx.receiver_wallet_address) [ none ↦ false | some _ ↦ true ]
  ]

  -- `MessageProcessor::checkTransaction`.
  unfoldable pub check_transaction : Transaction → Bool
  unfolding check_signature
  check_transaction tx = elim (check_transaction_structure tx) [
    | false ↦ false
    | true ↦ elim (tx.sender_wallet_address == tx.receiver_wallet_address) [
      | true ↦ false
      | false ↦ elim (get_balance tx.sender_wallet_address) [
        | none ↦ false
        | some sender ↦ check_signature tx sender
      ]
    ]
  ]

  -- `MessageProcessor::checkProposal` of a block.
  unfoldable pub check_block_proposal : Hash → BlockProposal → Result Bool
  check_block_proposal sha512 p = elim (OfBlock.check p) [
    | false ↦ ok false
    | true ↦ elim (get_balance p.issuer) [
      | none ↦ ok false
      | some acc ↦ OfBlock.verify sha512 s acc.public_key p
    ]
  ]

  -- `MessageProcessor::checkProposal` of a transaction set.
  unfoldable pub check_tx_set_proposal : Hash → TxSetProposal → Result Bool
  check_tx_set_proposal sha512 p = elim (OfTxSet.check p) [
    | false ↦ ok false
    | true ↦ elim (get_balance p.issuer) [
      | none ↦ ok false
      | some acc ↦ OfTxSet.verify sha512 s acc.public_key p
    ]
  ]
