-- ===== src/Execution.antt =====
-- The execution of a set of transactions: `ConsensusWrapper::countAccountDifferencesByTxSet` of
-- src/Consensus/Consensus.cpp, and `AccountBalanceStorage::setBalancesByAccDiffs` of
-- src/Storage/AccountStorage.cpp. Accounts are named by their addresses, where the source's table
-- of differences uses their hexadecimal digits. A `signed long` is its 64-bit pattern.
pub mod Differences
pub mod Totals
pub mod Loop
pub mod Conservation
pub mod Keys
pub mod Tests
use pqblockchain.Prelude.{
  ℕ, zero, suc, ◌+◌, ◌-◌, ◌%◌, ◌^◌, Bool, true, false, ◌&&◌, Option, none, some, List, [], ◌∷◌,
  ◌++◌, length, ltb, leb, ◌==◌, if◌then◌else◌,
}
use pqblockchain.Prelude.Map.{Map, lookup, assign}
use pqblockchain.Exceptions.{Result, ok, throw, ◌>>=◌, storage}
use pqblockchain.Transaction.{Transaction}
use pqblockchain.Transaction.Set.{TransactionSet}
use pqblockchain.Account.{AccountBalance, BalanceStore}
use pqblockchain.Wallet.{Wallet, confirmed, update_transaction, received_transaction}

pub record AccountDifference : Type 0 where
  pub id : ℕ
  pub balance_diff : ℕ
  pub tx_sequence : ℕ

abbrev pub Differences : Type 0
Differences = Map AccountDifference

-- The variables of the loop over the set. `kept` is the part of the set behind the iterator.
pub record Run : Type 0 where
  pub acc : AccountBalance
  pub curr_acc : ℕ
  pub up_balance : ℕ
  pub acc_diffs : Differences
  pub wallet : Wallet
  pub kept : TransactionSet

-- The sender's entry: `balanceDiff -= amount`. In a new entry `0 - amount` is a `uint32_t`.
unfoldable pub debit : Transaction → Differences → Differences
debit tx diffs = elim (lookup tx.sender_wallet_address diffs) [
  | some d ↦
      assign tx.sender_wallet_address
        (record d {
          balance_diff = (d.balance_diff + 2 ^ 64 - tx.cash_amount) % 2 ^ 64;
          tx_sequence = tx.sequence_number;
        })
        diffs
  | none ↦
      assign tx.sender_wallet_address
        (record {
          id = tx.sender_wallet_address;
          balance_diff = (2 ^ 32 - tx.cash_amount) % 2 ^ 32;
          tx_sequence = tx.sequence_number;
        })
        diffs
]

-- The receiver's entry: `balanceDiff += amount`.
unfoldable pub credit : Transaction → Differences → Differences
credit tx diffs = elim (lookup tx.receiver_wallet_address diffs) [
  | some d ↦
      assign tx.receiver_wallet_address
        (record d { balance_diff = (d.balance_diff + tx.cash_amount) % 2 ^ 64 }) diffs
  | none ↦
      assign tx.receiver_wallet_address
        (record { id = tx.receiver_wallet_address; balance_diff = tx.cash_amount; tx_sequence = 0 })
        diffs
]

-- The local wallet hears of a confirmed transaction of its own, or to it.
note_wallet : Transaction → Wallet → Wallet
note_wallet tx w =
    if tx.sender_wallet_address == w.wallet_id
    then update_transaction tx.id_hash confirmed w
    else if tx.receiver_wallet_address == w.wallet_id
    then received_transaction tx.id_hash tx.transaction_data confirmed w
    else w

unfoldable pub confirm : Transaction → Run → Run
unfolding note_wallet
confirm tx r = record r {
  up_balance = (r.up_balance + 2 ^ 32 - tx.cash_amount) % 2 ^ 32;
  acc_diffs = credit tx (debit tx r.acc_diffs);
  wallet = note_wallet tx r.wallet;
  kept = r.kept ++ tx ∷ [];
}

-- The checks of the balance and of the sequence number: a transaction that fails one is erased.
unfoldable pub settle : Transaction → Run → Run
settle tx r =
    if ltb r.up_balance tx.cash_amount
    then r
    else if leb tx.sequence_number r.acc.tx_sequence
    then r
    else confirm tx r

-- The transactions behind `it` with its sender and its sequence number.
unfoldable pub has_duplicate : ℕ → ℕ → TransactionSet → Bool
has_duplicate sender sequence [] = false
has_duplicate sender sequence (next ∷ rest) =
    (sender == next.sender_wallet_address) && (sequence == next.sequence_number)

unfoldable pub drop_duplicates : ℕ → ℕ → TransactionSet → TransactionSet
drop_duplicates sender sequence [] = []
drop_duplicates sender sequence (next ∷ rest) =
    let dropped = drop_duplicates sender sequence rest in
    if (sender == next.sender_wallet_address) && (sequence == next.sequence_number)
    then dropped
    else next ∷ rest

module _ (get_balance : ℕ → Option AccountBalance) where
  -- The sender's balance is read where the sender changes; `none` if there is no such account.
  unfoldable pub load_sender : Transaction → Run → Option Run
  load_sender tx r =
      if r.curr_acc == tx.sender_wallet_address
      then some r
      else elim (get_balance tx.sender_wallet_address) [
        | none ↦ none
        | some acc ↦
            some (record r {
              acc = acc;
              curr_acc = tx.sender_wallet_address;
              up_balance = acc.balance;
            })
      ]

  -- The loop over the set, with fuel: each round takes one transaction at least. A transaction of
  -- an unknown sender stays in the set.
  unfoldable pub count_loop : ℕ → TransactionSet → Run → Run
  count_loop zero txs r = r
  count_loop (suc fuel) [] r = r
  count_loop (suc fuel) (tx ∷ rest) r = elim (load_sender tx r) [
    | none ↦ count_loop fuel rest (record r { kept = r.kept ++ tx ∷ [] })
    | some r' ↦ elim (has_duplicate r'.curr_acc tx.sequence_number rest) [
      | true ↦ count_loop fuel (drop_duplicates r'.curr_acc tx.sequence_number rest) r'
      | false ↦ count_loop fuel rest (settle tx r')
    ]
  ]

  abbrev pub start : Wallet → Run
  start w = record {
    acc = record { public_key = []; balance = 0; tx_sequence = 0 };
    curr_acc = 0;
    up_balance = 0;
    acc_diffs = [];
    wallet = w;
    kept = [];
  }

  -- `countAccountDifferencesByTxSet`: the differences, the wallet and the set that is left.
  unfoldable pub count_account_differences : Wallet → TransactionSet → Run
  count_account_differences w txs = count_loop (length txs) txs (start w)

  -- The new balance of an account, modulo 2^32.
  unfoldable pub updated : AccountDifference → Result AccountBalance
  updated d = elim (get_balance d.id) [
    | none ↦ throw storage
    | some acc ↦ ok (record acc {
      balance = (acc.balance + d.balance_diff) % 2 ^ 32;
      tx_sequence = if d.tx_sequence == 0 then acc.tx_sequence else d.tx_sequence;
    })
  ]

  unfoldable pub collect : Differences → Result (Map AccountBalance)
  collect [] = ok []
  collect ((key, d) ∷ diffs) = do acc ← updated d; batch ← collect diffs; ok ((d.id, acc) ∷ batch)

-- `AccountBalanceStorage::setBalancesByAccDiffs`: one batch, written only if every account is there.
unfoldable pub set_balances_by_acc_diffs :
    (s : BalanceStore) → Differences → BalanceStore.Db s → Result (BalanceStore.Db s)
set_balances_by_acc_diffs s diffs db = do
  batch ← collect (s.find db) diffs
  elim (s.write batch db) [ none ↦ throw storage | some db' ↦ ok db' ]
