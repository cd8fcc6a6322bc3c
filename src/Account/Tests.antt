-- ===== src/Account/Tests.antt =====
-- An account with a key of two bytes, and what the theorem says of it.
use pqblockchain.Prelude.{ℕ, ◌≡◌, [], ◌∷◌, ◌++◌, List, length, replicate, arith}
use pqblockchain.Exceptions.{ok}
use pqblockchain.Serialize.{Cursor, advance}
use pqblockchain.Account.{AccountBalance}
use pqblockchain.Account.Addresses.{
  Addresses, Account, account_address_size, account_size, serialize_account, deserialize_account,
}
use pqblockchain.Account.Addresses.RoundTrip.{account-deserialize-serialize}

abbrev short_key : AccountBalance
short_key = record { public_key = 1 ∷ (2 ∷ []); balance = 300; tx_sequence = 4 }

abbrev two_addresses : Addresses
two_addresses = (49 ∷ (50 ∷ [])) ∷ ((51 ∷ []) ∷ [])

abbrev two_address_account : Account
two_address_account = record { account_balance = short_key; addresses = two_addresses; id = 9 }

abbrev buffer : Cursor
buffer = record { before = []; room = replicate 30 0 }

account-deserialize-serialize_example :
    (bytes : List ℕ) × (length bytes ≡ account_size 2 two_address_account)
    × (serialize_account 2 two_address_account buffer ≡ ok (advance bytes buffer))
    × ((rest : List ℕ) (o : Account)
        → o.addresses ≡ []
        → deserialize_account 2 o (bytes ++ rest)
          ≡ ok (record o { account_balance = short_key; addresses = two_addresses }, rest))
unfolding account_address_size
account-deserialize-serialize_example =
    account-deserialize-serialize two_address_account buffer (omega arith) (omega arith)
      (omega arith) (((λ e. omega arith), ((λ e. omega arith), tt)), (((λ e. omega arith), tt), tt))
      (omega arith)
