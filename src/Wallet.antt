-- ===== src/Wallet.antt =====
-- src/Wallet/Wallet.hpp and Wallet.cpp: the records of the local wallet's transactions.
use pqblockchain.Prelude.{ℕ, ◌+◌, ◌-◌, ◌%◌, ◌^◌, none, some, List, []}
use pqblockchain.Prelude.Map.{Map, lookup, assign}
use pqblockchain.Exceptions.{Result, ok, ◌>>=◌}
use pqblockchain.Crypto.{Hash, SignAlgorithm}
use pqblockchain.Transaction
use pqblockchain.Transaction.{Transaction, TransactionData}

-- `enum class TxState`.
pub data TxState : Type 0 where
  canceled confirmed waiting : TxState

pub record Wallet : Type 0 where
  pub public_key : List ℕ
  pub secret_key : List ℕ
  pub wallet_id : ℕ
  pub node_unl : List ℕ
  pub tx_records : Map (TransactionData × TxState)
  pub balance : ℕ
  pub tx_sequence_number : ℕ

-- `addToBlance`.
unfoldable pub add_to_balance : ℕ → Wallet → Wallet
add_to_balance cash w = record w { balance = (w.balance + cash) % 2 ^ 32 }

-- `txRecords.emplace`: an entry that is there stays.
emplace : ℕ → TransactionData × TxState → Wallet → Wallet
emplace id entry w = elim (lookup id w.tx_records) [
  | none ↦ record w { tx_records = assign id entry w.tx_records }
  | some _ ↦ w
]

-- `Wallet::updateTransaction`.
unfoldable pub update_transaction : ℕ → TxState → Wallet → Wallet
unfolding add_to_balance
update_transaction id status w = elim (lookup id w.tx_records) [
  | none ↦ w
  | some (d, _) ↦
      let w' : Wallet = record w { tx_records = assign id (d, status) w.tx_records } in
      elim status [ canceled ↦ add_to_balance d.cash_amount w' | _ ↦ w' ]
]

-- `Wallet::receivedTransaction`.
unfoldable pub received_transaction : ℕ → TransactionData → TxState → Wallet → Wallet
unfolding add_to_balance emplace
received_transaction id d confirmed w = emplace id (d, confirmed) (add_to_balance d.cash_amount w)
received_transaction id d other w = emplace id (d, other) w

-- `Wallet::createNewTransaction`, at the time `now`. The check of the balance is disabled in the
-- source.
unfoldable pub create_new_transaction :
    Hash → SignAlgorithm → ℕ → ℕ → ℕ → Wallet → Result (Transaction × Wallet)
unfolding emplace
create_new_transaction sha512 s now receiver amount w = do
  let sequence : ℕ = (w.tx_sequence_number + 1) % 2 ^ 32
  let d : TransactionData = record {
    version_number = 1;
    sequence_number = sequence;
    cash_amount = amount;
    timestamp = now;
    sender_wallet_address = w.wallet_id;
    receiver_wallet_address = receiver;
  }
  t ←
      Transaction.set_hash sha512
        (record { transaction_data = d; id_hash = 0; signature = []; signature_size = 0 })
  t ← Transaction.sign s w.secret_key t
  ok (
    t,
    emplace t.id_hash (t.transaction_data, waiting)
        (record w {
          tx_sequence_number = sequence;
          balance = (w.balance + 2 ^ 32 - amount) % 2 ^ 32;
        }),
  )
