-- ===== src/MessageProcessor/Reachable.antt =====
-- The node over every sequence of messages and calls of the timer: `MessageProcessor` of
-- src/Network/MessageManagement.cpp with `Consensus` and `ConsensusWrapper` of
-- src/Consensus/Consensus.cpp.
use pqblockchain.Prelude.{true, some, ◌≢◌, ℕ, ◌≡◌, ◌≢◌, List}
use pqblockchain.Prelude.Map.{Map}
use pqblockchain.Serialize.{IsBytes}
use pqblockchain.Exceptions.{ok}
use pqblockchain.Crypto.{Hash, SignAlgorithm}
use pqblockchain.Transaction.Set.{find, TransactionSet}
use pqblockchain.Account.{AccountBalance, BalanceStore}
use pqblockchain.Storage.{Database}
use pqblockchain.ConnectionManager.Polling.{MessageItem}
use pqblockchain.Consensus.State.{Consensus}
use pqblockchain.Consensus.Thread.{thread_turn}
use pqblockchain.Consensus.Wrapper.{ConsensusWrapper, consensus_wrapper}
use pqblockchain.MessageProcessor.State.{Processor}
use pqblockchain.MessageProcessor.Inventories.{late_processing}
use pqblockchain.Transaction
use pqblockchain.Transaction.{Transaction}

module _ (b : BalanceStore) (d : Database) (sha512 : Hash) (s : SignAlgorithm) (key_size : ℕ)
    (stored_balances : BalanceStore.Db b → List (List ℕ))
    (difference : TransactionSet → TransactionSet → TransactionSet) where
  -- A message from the queue, or a call of the timer of the consensus.
  pub data Step : Processor b d → Processor b d → Type 0 where
    message :
        {p q : Processor b d} (i : MessageItem)
        → IsBytes (i.msg).buffer
        → late_processing b d sha512 s key_size stored_balances difference i p ≡ ok q
        → Step p q
    timer :
        {p : Processor b d} (now seconds last : ℕ) (c : Consensus) (w : ConsensusWrapper b d)
        → thread_turn sha512 difference
            (consensus_wrapper b d sha512 s stored_balances)
            (p.wrapper).tx_pool
            now
            seconds
            last
            p.consensus
            p.wrapper
          ≡ ok (c, w)
        → Step p (record p { consensus = c; wrapper = w })

  pub data Reach (p : Processor b d) : Processor b d → Type 0 where
    here : Reach p p
    next : {q r : Processor b d} → Reach p q → Step q r → Reach p r

  -- When a node that started as `p` accepted the transaction, its sender was not its receiver, and its
  -- signature was verified by the key of the account that the sender then had.
  abbrev pub WasSigned : Processor b d → Transaction → Type 0
  WasSigned p tx =
      (r : Processor b d) × Reach p r
      × (tx.sender_wallet_address ≢ tx.receiver_wallet_address)
      × (acc : AccountBalance) × (b.find (r.wrapper).balances tx.sender_wallet_address ≡ some acc)
      × (Transaction.verify s acc.public_key tx ≡ true)
