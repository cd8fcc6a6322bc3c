-- ===== src/MessageProcessor/Late.antt =====
-- The handlers of `MessageProcessor` (src/Network/MessageManagement.cpp) and the pool of transactions:
-- `lateProcessing` of any message of bytes.
use pqblockchain.Prelude.{
  if_both, drop, ℕ, ◌^◌, ◌<◌, inl, inr, List, [], ◌==◌, All, Bool-cases, Option-cases,
}
use pqblockchain.Prelude.Map.{lookup}
use pqblockchain.Serialize.{IsBytes, drop-IsBytes}
use pqblockchain.Transaction.Bounded.{transaction_deserialize-lt}
use pqblockchain.Block.{null_body}
use pqblockchain.Proposal.OfTxSet.Bounded.{tx_set_proposal_deserialize-Fits}
use pqblockchain.Message.{Message, get_header_size}
use pqblockchain.Message.Payloads
use pqblockchain.Message.Payloads.{
  type_number, block_proposal, tx_set_proposal, getdata, deserialize_transaction,
  deserialize_tx_set_proposal, deserialize_account_message, deserialize_inventory,
  deserialize_get_data,
}
use pqblockchain.Exceptions.{Ensures-ok, Ensures, >>=-inverse, ok_subst}
use pqblockchain.Crypto.{Hash, SignAlgorithm}
use pqblockchain.Transaction.{Transaction}
use pqblockchain.Transaction.Set.{TransactionSet}
use pqblockchain.Block.{get_block_hash}
use pqblockchain.Account.{BalanceStore}
use pqblockchain.Storage.{Database}
use pqblockchain.Proposal.OfTxSet.{TxSetProposal}
use pqblockchain.Message.Payloads.{InvItem, deserialize_block_proposal, deserialize_block}
use pqblockchain.ConnectionManager.Polling.{MessageItem, item_priority}
use pqblockchain.Consensus.Round.Timer.{peer_proposal}
use pqblockchain.Consensus.Round.Preserves.{peer_proposal-Keeps}
use pqblockchain.Consensus.Wrapper.{consensus_wrapper}
use pqblockchain.Consensus.Wrapper.Pool.{IsPoolOf, consensus_wrapper-IsKept}
use pqblockchain.MessageProcessor.{check_block_proposal, check_tx_set_proposal}
use pqblockchain.MessageProcessor.State.{Processor}
use pqblockchain.MessageProcessor.Handlers.{
  proc_transaction_message, proc_tx_set_proposal_message, proc_account_message, new_account,
  take_tx_set_proposal, proc_block_message, proc_block_proposal_message,
}
use pqblockchain.MessageProcessor.Inventories.{
  proc_inv_message, proc_get_data_message, late_processing,
}
use pqblockchain.MessageProcessor.Asked.{take_inventory-HasPool, answer_items-HasPool}
use pqblockchain.MessageProcessor.Kept.{
  HasPool, take_transaction-HasPool, renew_set-HasPool, take_account-HasPool, Accepts,
}

module _ (Q : Transaction → Type 0) (b : BalanceStore) (d : Database) (sha512 : Hash)
    (s : SignAlgorithm) (key_size : ℕ) (stored_balances : BalanceStore.Db b → List (List ℕ))
    (difference : TransactionSet → TransactionSet → TransactionSet) where
  take_tx_set_proposal-HasPool :
      (prop : TxSetProposal) (p : Processor b d)
      → Accepts Q b d s p
      → All (λ t. t.cash_amount < 2 ^ 32) (prop.tx_set_body).tx_set
      → HasPool Q b d p
      → Ensures
          (HasPool Q b d)
          (take_tx_set_proposal b d sha512 s stored_balances difference prop p)
  unfolding take_tx_set_proposal
  take_tx_set_proposal-HasPool prop p accepts fits h q e =
      let (accepted, _, last) =
        >>=-inverse (check_tx_set_proposal (b.find (p.wrapper).balances) s sha512 prop) _ q e in
      elim (Bool-cases accepted) [
        | inr refused ↦ ok_subst (HasPool Q b d) p q (rw refused at last) h
        | inl yes_then ↦
            ok_subst (HasPool Q b d) _ q (rw yes_then at last)
              (renew_set-HasPool Q b d s (prop.tx_set_body).tx_set [] p accepts fits h)
      ]

  proc_block_proposal_message-HasPool :
      (i : MessageItem) (p : Processor b d)
      → HasPool Q b d p
      → Ensures
          (HasPool Q b d)
          (proc_block_proposal_message b d sha512 s stored_balances difference i p)
  unfolding proc_block_proposal_message
  proc_block_proposal_message-HasPool i p h q e =
      let (prop, _, e1) = >>=-inverse (deserialize_block_proposal i.msg) _ q e in
      let (accepted, _, e2) =
        >>=-inverse (check_block_proposal (b.find (p.wrapper).balances) s sha512 prop.0) _ q e1 in
      elim (Bool-cases accepted) [
        | inr refused ↦ ok_subst (HasPool Q b d) p q (rw refused at e2) h
        | inl yes_then ↦
            let (r, done, last) =
              >>=-inverse
                (peer_proposal sha512 difference (consensus_wrapper b d sha512 s stored_balances)
                  prop.0 p.consensus p.wrapper)
                _ q (rw yes_then at e2) in
            ok_subst (HasPool Q b d) _ q last (
              peer_proposal-Keeps sha512 difference (consensus_wrapper b d sha512 s stored_balances)
                (IsPoolOf Q b d) (consensus_wrapper-IsKept Q b d sha512 s stored_balances) prop.0
                p.consensus p.wrapper h r done)
      ]

  proc_block_message-HasPool :
      (i : MessageItem) (p : Processor b d)
      → HasPool Q b d p
      → Ensures (HasPool Q b d) (proc_block_message b d sha512 i p)
  unfolding proc_block_message
  proc_block_message-HasPool i p h q e =
      let (blk, _, e1) = >>=-inverse (deserialize_block [] i.msg) _ q e in
      let (id, _, e2) = >>=-inverse (get_block_hash sha512 (blk.0).block_header) _ q e1 in
      elim (Option-cases (lookup id p.block_inv_quorum)) [
        | inl none_there ↦ ok_subst (HasPool Q b d) p q (rw none_there at e2) h
        | inr (count, there) ↦ elim (Bool-cases (count == 0)) [
          | inl asked ↦ ok_subst (HasPool Q b d) _ q (rw (there, asked) at e2) h
          | inr counted ↦ ok_subst (HasPool Q b d) _ q (rw (there, counted) at e2) h
        ]
      ]

  payload-IsBytes : (m : Message) → IsBytes m.buffer → IsBytes (drop get_header_size m.buffer)
  payload-IsBytes m h = drop-IsBytes get_header_size m.buffer h

  proc_transaction_message-HasPool :
      (i : MessageItem) (p : Processor b d)
      → Accepts Q b d s p
      → IsBytes (i.msg).buffer
      → HasPool Q b d p
      → Ensures (HasPool Q b d) (proc_transaction_message b d s i p)
  unfolding proc_transaction_message deserialize_transaction
  proc_transaction_message-HasPool i p accepts bytes h q e =
      let (tx, read, last) = >>=-inverse (deserialize_transaction i.msg) _ q e in
      let fits = transaction_deserialize-lt _ (payload-IsBytes i.msg bytes) tx read in
      take_transaction-HasPool Q b d s tx.0 i p accepts fits.0 h q last

  proc_tx_set_proposal_message-HasPool :
      (i : MessageItem) (p : Processor b d)
      → Accepts Q b d s p
      → IsBytes (i.msg).buffer
      → HasPool Q b d p
      → Ensures
          (HasPool Q b d)
          (proc_tx_set_proposal_message b d sha512 s stored_balances difference i p)
  unfolding proc_tx_set_proposal_message deserialize_tx_set_proposal
  proc_tx_set_proposal_message-HasPool i p accepts bytes h q e =
      let (prop, read, last) = >>=-inverse (deserialize_tx_set_proposal null_body i.msg) _ q e in
      let fits =
        tx_set_proposal_deserialize-Fits null_body _ tt (payload-IsBytes i.msg bytes) prop read in
      take_tx_set_proposal-HasPool prop.0 p accepts fits.0 h q last

  proc_account_message-HasPool :
      (i : MessageItem) (p : Processor b d)
      → HasPool Q b d p
      → Ensures (HasPool Q b d) (proc_account_message b d sha512 key_size i p)
  unfolding proc_account_message
  proc_account_message-HasPool i p h q e =
      let (a, _, last) =
        >>=-inverse (deserialize_account_message key_size new_account i.msg) _ q e in
      take_account-HasPool Q b d sha512 a.0 i p h q last

  proc_inv_message-HasPool :
      (i : MessageItem) (p : Processor b d)
      → HasPool Q b d p
      → Ensures (HasPool Q b d) (proc_inv_message b d i p)
  unfolding proc_inv_message
  proc_inv_message-HasPool i p h q e =
      let (items, _, last) = >>=-inverse (deserialize_inventory i.msg) _ q e in
      take_inventory-HasPool b d Q items.0 i p h q last

  proc_get_data_message-HasPool :
      (i : MessageItem) (p : Processor b d)
      → HasPool Q b d p
      → Ensures (HasPool Q b d) (proc_get_data_message b d key_size i p)
  unfolding proc_get_data_message
  proc_get_data_message-HasPool i p h q e =
      let (items, _, last) = >>=-inverse (deserialize_get_data i.msg) _ q e in
      answer_items-HasPool b d Q key_size items.0 i p h q last

  pub late_processing-HasPool :
      (i : MessageItem) (p : Processor b d)
      → Accepts Q b d s p
      → IsBytes (i.msg).buffer
      → HasPool Q b d p
      → Ensures
          (HasPool Q b d)
          (late_processing b d sha512 s key_size stored_balances difference i p)
  unfolding late_processing
  late_processing-HasPool i p accepts bytes h =
      let has = Ensures (HasPool Q b d) in
      if_both has (item_priority i == type_number Payloads.tx) _ _
        (proc_transaction_message-HasPool i p accepts bytes h)
        (if_both has (item_priority i == type_number block_proposal) _ _
          (proc_block_proposal_message-HasPool i p h)
          (if_both has (item_priority i == type_number tx_set_proposal) _ _
            (proc_tx_set_proposal_message-HasPool i p accepts bytes h)
            (if_both has (item_priority i == type_number Payloads.block) _ _
              (proc_block_message-HasPool i p h)
              (if_both has (item_priority i == type_number Payloads.account) _ _
                (proc_account_message-HasPool i p h)
                (if_both has (item_priority i == type_number Payloads.inv) _ _
                  (proc_inv_message-HasPool i p h)
                  (if_both has (item_priority i == type_number getdata) _ _
                    (proc_get_data_message-HasPool i p h) (Ensures-ok (HasPool Q b d) p h)))))))
