-- ===== src/Account.antt =====
-- src/Storage/Account.hpp and Account.cpp (the balance of an account), and the balance database of
-- src/Storage/AccountStorage.cpp. LevelDB is a parameter: a store with what its documentation
-- promises of an atomic batch.
pub mod RoundTrip
pub mod Addresses
mod Tests
use pqblockchain.Prelude.{ℕ, ◌+◌, ◌≡◌, Option, none, some, List, length, ltb}
use pqblockchain.Prelude.Map.{Map, lookup, HasKeys}
use pqblockchain.Exceptions.{Result, ok, ◌>>=◌, throw_if, storage}
use pqblockchain.Serialize.{Cursor, put, get, serialize_number, deserialize_number}

pub record AccountBalance : Type 0 where
  pub public_key : List ℕ
  pub balance : ℕ
  pub tx_sequence : ℕ

-- `AccountBalance::getAccountBalanceSize`, by the key size of the chosen algorithm.
abbrev pub account_balance_size : ℕ → ℕ
account_balance_size key_size = 4 + 4 + key_size

-- `AccountBalance::serializeAccountBalance`.
unfoldable pub serialize_account_balance : ℕ → AccountBalance → Cursor → Result Cursor
serialize_account_balance key_size a c =
    throw_if (ltb (length c.room) (account_balance_size key_size)) storage do
      c ← put a.public_key c
      c ← serialize_number 4 a.balance c
      serialize_number 4 a.tx_sequence c

-- `AccountBalance::deserializeAccountBalance`.
unfoldable pub deserialize_account_balance : ℕ → List ℕ → Result (AccountBalance × List ℕ)
deserialize_account_balance key_size buffer =
    throw_if (ltb (length buffer) (account_balance_size key_size)) storage do
      (key, buffer) ← get key_size buffer
      (balance, buffer) ← deserialize_number 4 buffer
      (sequence, buffer) ← deserialize_number 4 buffer
      ok (record { public_key = key; balance = balance; tx_sequence = sequence }, buffer)

-- The value that a batch puts under a key, and the one that was there if it puts none.
abbrev pub or_stored {ℓ} : {A : Type ℓ} → Option A → Option A → Option A
or_stored (some a) old = some a
or_stored none old = old

-- The database of balances. `find` is `getBalance`: `none` if there is no such account. `write`
-- applies a batch of puts at once, or fails and gives `none`.
pub record BalanceStore : Type 1 where
  pub Db : Type 0
  pub find : Db → ℕ → Option AccountBalance
  pub write : Map AccountBalance → Db → Option Db
  pub find-write :
      (batch : Map AccountBalance) (db db' : Db) (id : ℕ)
      → HasKeys batch
      → write batch db ≡ some db'
      → find db' id ≡ or_stored (lookup id batch) (find db id)
