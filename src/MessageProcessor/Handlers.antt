-- ===== src/MessageProcessor/Handlers.antt =====
-- The handlers of `MessageProcessor` for transactions, proposals, blocks and accounts, and
-- `lateProcessing`: src/Network/MessageManagement.cpp.
use pqblockchain.Prelude.{
  ℕ, Bool, true, false, Option, none, some, List, [], ◌∷◌, ◌==◌, if◌then◌else◌,
}
use pqblockchain.Prelude.Map.{lookup, erase}
use pqblockchain.Prelude.Set.{contains, exclude}
use pqblockchain.Exceptions.{Result, ok, ◌>>=◌}
use pqblockchain.Crypto.{Hash, SignAlgorithm}
use pqblockchain.Transaction.{Transaction}
use pqblockchain.Transaction.Set.{TransactionSet, insert}
use pqblockchain.Block.{get_block_hash, null_body}
use pqblockchain.Account.{AccountBalance, BalanceStore}
use pqblockchain.Account.Addresses.{Account, get_account_id}
use pqblockchain.Storage.{Database}
use pqblockchain.Storage.Accounts.{get_account, set_account}
use pqblockchain.Proposal.OfTxSet.{TxSetProposal}
use pqblockchain.Message.Payloads.{
  deserialize_transaction, deserialize_block_proposal, deserialize_tx_set_proposal,
  deserialize_block, deserialize_account_message,
}
use pqblockchain.ConnectionManager.Polling.{MessageItem}
use pqblockchain.Consensus.Agreement.{add_transaction_to_pool, get_transaction_from_pool}
use pqblockchain.Consensus.Round.{got_tx_set}
use pqblockchain.Consensus.Round.Timer.{peer_proposal}
use pqblockchain.Consensus.Wrapper.{consensus_wrapper}
use pqblockchain.MessageProcessor.{check_transaction, check_block_proposal, check_tx_set_proposal}
use pqblockchain.MessageProcessor.State.{
  Processor, inv_tx, inv_account, forward_inv_message, accounts, with_accounts,
}

-- A new object of `Account`.
abbrev pub new_account : Account
new_account = record {
  account_balance = record { public_key = []; balance = 0; tx_sequence = 0 };
  addresses = [];
  id = 0;
}

module _ (b : BalanceStore) (d : Database) where
  abbrev balance_of : Processor b d → ℕ → Option AccountBalance
  balance_of p = b.find (p.wrapper).balances

  -- `waitingData.erase(id)`.
  abbrev pub received : ℕ → Processor b d → Processor b d
  received id p = record p { waiting_data = exclude id p.waiting_data }

  -- `consensus->addTransactionToPool(tx)`.
  unfoldable pub into_pool : Transaction → Processor b d → Processor b d × Bool
  into_pool tx p =
      let (pool, new) = add_transaction_to_pool tx (p.wrapper).tx_pool in
      (record p { wrapper = record p.wrapper { tx_pool = pool } }, new)

  unfoldable pub store_account : ℕ → Account → MessageItem → Processor b d → Result (Processor b d)
  store_account id acc i p = do
    (written, _) ← set_account d b id acc (accounts b d p)
    forward_inv_message b d id inv_account i (with_accounts b d written p)

  module _ (s : SignAlgorithm) where
    -- `procTransactionMessage`, from the transaction on.
    unfoldable pub take_transaction :
        Transaction → MessageItem → Processor b d → Result (Processor b d)
    unfolding into_pool
    take_transaction tx i p =
        let waited : Processor b d = received tx.id_hash p in
        elim (check_transaction (balance_of waited) s tx) [
          | false ↦ ok waited
          | true ↦
              let (pooled, new) = into_pool tx waited in
              elim new [
                | false ↦ ok pooled
                | true ↦ forward_inv_message b d tx.id_hash inv_tx i pooled
              ]
        ]

    -- `procTransactionMessage`.
    unfoldable pub proc_transaction_message : MessageItem → Processor b d → Result (Processor b d)
    unfolding take_transaction
    proc_transaction_message i p = do
      (tx, _) ← deserialize_transaction i.msg
      take_transaction tx i p

    -- The loop of `procTxSetProposalMessage`: the set with the transactions of the pool in place of
    -- those of the proposal, and without those that fail the check.
    unfoldable pub renew_set :
        TransactionSet → TransactionSet → Processor b d → TransactionSet × Processor b d
    unfolding into_pool
    renew_set [] new_set p = (new_set, p)
    renew_set (tx ∷ set) new_set p =
        elim (get_transaction_from_pool tx.id_hash (p.wrapper).tx_pool) [
          | some known ↦ renew_set set (insert known new_set) p
          | none ↦ elim (check_transaction (balance_of p) s tx) [
            | false ↦ renew_set set new_set p
            | true ↦ renew_set set (insert tx new_set) (received tx.id_hash (into_pool tx p).0)
          ]
        ]

  module _ (sha512 : Hash) where
    -- `procBlockMessage`: a block that was asked for is not stored yet.
    unfoldable pub proc_block_message : MessageItem → Processor b d → Result (Processor b d)
    proc_block_message i p = do
      (block, _) ← deserialize_block [] i.msg
      id ← get_block_hash sha512 block.block_header
      elim (lookup id p.block_inv_quorum) [
        | none ↦ ok p
        | some count ↦
            ok (
              if count == 0 then record p { block_inv_quorum = erase id p.block_inv_quorum } else p)
      ]

    -- `procAccountMessage`, from the account on. An account that is asked for overwrites the stored one.
    unfoldable pub take_account : Account → MessageItem → Processor b d → Result (Processor b d)
    unfolding store_account
    take_account a i p =
        let (acc, id) = get_account_id sha512 a in
        elim (contains id p.waiting_data) [
          | true ↦ store_account id acc i (received id p)
          | false ↦ do
            (stored, found) ← get_account d b id acc (accounts b d p)
            elim found [ true ↦ ok p | false ↦ store_account id stored i p ]
        ]

    -- `procAccountMessage`.
    unfoldable pub proc_account_message : ℕ → MessageItem → Processor b d → Result (Processor b d)
    unfolding take_account
    proc_account_message key_size i p = do
      (acc, _) ← deserialize_account_message key_size new_account i.msg
      take_account acc i p

  module _ (sha512 : Hash) (s : SignAlgorithm) (stored_balances : BalanceStore.Db b → List (List ℕ))
      (difference : TransactionSet → TransactionSet → TransactionSet) where
    -- `procBlockProposalMessage`, with `ConsensusWrapper::notifyBlockProposal`. `peerProposal` reads
    -- neither clock.
    unfoldable pub proc_block_proposal_message :
        MessageItem → Processor b d → Result (Processor b d)
    proc_block_proposal_message i p = do
      (prop, _) ← deserialize_block_proposal i.msg
      accepted ← check_block_proposal (balance_of p) s sha512 prop
      elim accepted [
        | false ↦ ok p
        | true ↦ do
          (consensus, wrapper) ←
              peer_proposal sha512 difference (consensus_wrapper b d sha512 s stored_balances) prop
                p.consensus p.wrapper
          ok (record p { consensus = consensus; wrapper = wrapper })
      ]

    -- `procTxSetProposalMessage`, from the proposal on, with `ConsensusWrapper::notifyTxSetProposal`.
    unfoldable pub take_tx_set_proposal : TxSetProposal → Processor b d → Result (Processor b d)
    unfolding renew_set
    take_tx_set_proposal prop p = do
      accepted ← check_tx_set_proposal (balance_of p) s sha512 prop
      elim accepted [
        | false ↦ ok p
        | true ↦
            let (new_set, renewed) = renew_set s (prop.tx_set_body).tx_set [] p in
            let prop : TxSetProposal = record prop {
              tx_set_body = record prop.tx_set_body { tx_set = new_set };
            } in
            ok (record renewed { consensus = got_tx_set difference prop renewed.consensus })
      ]

    -- `procTxSetProposalMessage`.
    unfoldable pub proc_tx_set_proposal_message :
        MessageItem → Processor b d → Result (Processor b d)
    unfolding take_tx_set_proposal
    proc_tx_set_proposal_message i p = do
      (prop, _) ← deserialize_tx_set_proposal null_body i.msg
      take_tx_set_proposal prop p
