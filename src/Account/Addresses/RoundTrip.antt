-- ===== src/Account/Addresses/RoundTrip.antt =====
-- `Account::serialize` and `Account::deserialize` of src/Storage/Account.cpp.
use pqblockchain.Prelude.{
  ℕ, ◌^◌, ◌≤◌, ◌<◌, ◌≡◌, refl, ap, List, [], ◌++◌, append_assoc, length, All, length-append,
  length-drop, arith,
}
use pqblockchain.Exceptions.{ok}
use pqblockchain.Serialize.{Cursor, advance, advance-advance}
use pqblockchain.Account.RoundTrip.{account_balance-deserialize-serialize}
use pqblockchain.Account.Addresses.{
  Account, max_account_addresses, account_size, serialize_account, deserialize_account,
}
use pqblockchain.Account.Addresses.Laws.{IsAddress, account_address-deserialize-serialize}

-- An account whose key has the size that the algorithm asks for, whose numbers fit their types, and which
-- has ten addresses at most, without zero bytes: in a buffer with the room that `getSize` asks for,
-- `Account::serialize` succeeds and appends exactly that many bytes at the offset, and
-- `Account::deserialize` into an object without addresses gives the balance and the addresses back,
-- whatever bytes follow. The id of the object stays as it is.
pub account-deserialize-serialize :
    (a : Account) (c : Cursor)
    → (a.account_balance).balance < 256 ^ 4
    → (a.account_balance).tx_sequence < 256 ^ 4
    → length a.addresses ≤ max_account_addresses
    → All IsAddress a.addresses
    → let key_size = length (a.account_balance).public_key in
      account_size key_size a ≤ length c.room
      → (bytes : List ℕ) × (length bytes ≡ account_size key_size a)
        × (serialize_account key_size a c ≡ ok (advance bytes c))
        × ((rest : List ℕ) (o : Account)
            → o.addresses ≡ []
            → deserialize_account key_size o (bytes ++ rest)
              ≡ ok
                  (record o { account_balance = a.account_balance; addresses = a.addresses }, rest))
unfolding serialize_account deserialize_account
account-deserialize-serialize a c balance_fits sequence_fits few clean room =
    let (first, first_size, first_written, first_read) =
      account_balance-deserialize-serialize a.account_balance c balance_fits sequence_fits
        (omega arith) in
    let behind = length-drop (length first) c.room in
    let (second, second_size, second_written, second_read) =
      account_address-deserialize-serialize a.addresses (advance first c) few clean (omega arith) in
    (
      first ++ second,
      omega (arith, length-append first second),
      rw (first_written, second_written) (ap ok (advance-advance first second c)),
      λ rest o blank.
          rw (append_assoc first second rest, first_read (second ++ rest), blank, second_read rest)
            refl,
    )
