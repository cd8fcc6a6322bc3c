-- ===== src/Storage/Accounts.antt =====
-- `AccountBalanceStorage::setBalance`, `AccountAddressStorage` and `AccountStorage` of
-- src/Storage/AccountStorage.cpp, over the parameters that stand for LevelDB.
use pqblockchain.Prelude.{ℕ, Bool, true, false, none, some, [], ◌∷◌}
use pqblockchain.Exceptions.{Result, ok, ◌>>=◌}
use pqblockchain.Serialize.{fresh, contents}
use pqblockchain.Account.{AccountBalance, BalanceStore}
use pqblockchain.Account.Addresses.{
  Addresses, Account, account_address_size, serialize_account_address, deserialize_account_address,
}
use pqblockchain.Storage.{value, not_found, get_failed, Database}

module _ (d : Database) where
  -- `AccountAddressStorage::getAddresses`, into an object that holds `addresses`.
  unfoldable pub get_addresses : ℕ → Addresses → Database.Db d → Result (Addresses × Bool)
  get_addresses id addresses db = elim (d.get_value db id) [
    | not_found ↦ ok (addresses, false)
    | get_failed ↦ ok (addresses, false)
    | value bytes ↦ do
      (addresses, _) ← deserialize_account_address addresses bytes
      ok (addresses, true)
  ]

  -- `AccountAddressStorage::setAddresses`.
  unfoldable pub set_addresses : ℕ → Addresses → Database.Db d → Result (Database.Db d × Bool)
  set_addresses id addresses db = do
    c ← serialize_account_address addresses (fresh (account_address_size addresses))
    elim (d.put_value id (contents c) db) [ none ↦ ok (db, false) | some db' ↦ ok (db', true) ]

  module _ (b : BalanceStore) where
    -- `AccountStorage`: its two databases.
    pub record Accounts : Type 0 where
      pub balances : BalanceStore.Db b
      pub address_db : Database.Db d

    -- `AccountBalanceStorage::setBalance`, a batch of one put.
    unfoldable pub set_balance : ℕ → AccountBalance → BalanceStore.Db b → BalanceStore.Db b × Bool
    set_balance id acc db = elim (b.write ((id, acc) ∷ []) db) [
      | none ↦ (db, false)
      | some db' ↦ (db', true)
    ]

    -- `AccountStorage::getAccount`, into the object `acc`. A balance that is found stays in the
    -- object also where the addresses are not.
    unfoldable pub get_account : ℕ → Account → Accounts → Result (Account × Bool)
    unfolding get_addresses
    get_account id acc s = elim (b.find s.balances id) [
      | none ↦ ok (acc, false)
      | some balance ↦ do
        (addresses, found) ← get_addresses id acc.addresses s.address_db
        ok (record acc { account_balance = balance; addresses = addresses }, found)
    ]

    -- `AccountStorage::setAccount`: a balance that is written stays also where the addresses fail.
    unfoldable pub set_account : ℕ → Account → Accounts → Result (Accounts × Bool)
    unfolding set_balance set_addresses
    set_account id acc s =
        let (balances, written) = set_balance id acc.account_balance s.balances in
        let kept : Accounts = record s { balances = balances } in
        elim written [
          | false ↦ ok (kept, false)
          | true ↦ do
            (addresses, success) ← set_addresses id acc.addresses s.address_db
            ok (record kept { address_db = addresses }, success)
        ]
