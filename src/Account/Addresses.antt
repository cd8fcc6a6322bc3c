-- ===== src/Account/Addresses.antt =====
-- `AccountAddress` and `Account` of src/Storage/Account.hpp and Account.cpp. An address is a string of
-- bytes, and addresses are separated by zero bytes.
pub mod Laws
pub mod RoundTrip
use pqblockchain.Prelude.{
  ℕ, zero, suc, ◌+◌, Bool, true, false, not, ◌&&◌, List, [], ◌∷◌, ◌++◌, length, take, ltb, ◌==◌,
  if◌then◌else◌,
}
use pqblockchain.Exceptions.{Result, ok, fault, ◌>>=◌, throw_if, storage}
use pqblockchain.Serialize.{Cursor, put, serialize_number, deserialize_number}
use pqblockchain.Crypto.{Hash}
use pqblockchain.Account.{
  AccountBalance, account_balance_size, serialize_account_balance, deserialize_account_balance,
}

abbrev pub max_account_addresses : ℕ
max_account_addresses = 10

-- `AccountAddress`, and its `setNull` is the empty list.
abbrev pub Addresses : Type 0
Addresses = List (List ℕ)

-- `getAccountAddressSize`.
unfoldable pub account_address_size : Addresses → ℕ
account_address_size [] = 4
account_address_size (a ∷ rest) = 1 + length a + account_address_size rest

-- The `while` loop of `serializeAccountAddress`, over the addresses that are left.
serialize_addresses : Addresses → Cursor → Result Cursor
serialize_addresses [] c = ok c
serialize_addresses (a ∷ rest) c = do
  c ← put a c
  c ← serialize_number 1 0 c
  serialize_addresses rest c

-- `serializeAccountAddress`: no more than ten addresses are written.
unfoldable pub serialize_account_address : Addresses → Cursor → Result Cursor
unfolding serialize_addresses account_address_size
serialize_account_address addresses c =
    let count : ℕ =
      if ltb max_account_addresses (length addresses)
      then max_account_addresses
      else length addresses in
    throw_if (ltb (length c.room) (account_address_size addresses)) storage do
      c ← serialize_number 4 count c
      serialize_addresses (take max_account_addresses addresses) c

-- The bytes up to the next zero byte. The test of the loop lets it read the byte behind the buffer.
read_address : List ℕ → Result (List ℕ × List ℕ)
read_address [] = fault
read_address (b ∷ buffer) = elim (b == 0) [
  | true ↦ ok ([], buffer)
  | false ↦ do (address, rest) ← read_address buffer; ok (b ∷ address, rest)
]

deserialize_addresses : ℕ → Addresses → List ℕ → Result (Addresses × List ℕ)
deserialize_addresses zero addresses buffer = ok (addresses, buffer)
deserialize_addresses (suc n) addresses buffer = do
  (address, buffer) ← read_address buffer
  deserialize_addresses n (addresses ++ address ∷ []) buffer

-- `deserializeAccountAddress`, into an object that holds `addresses`. A count above ten is accepted,
-- and nothing behind it is read.
unfoldable pub deserialize_account_address : Addresses → List ℕ → Result (Addresses × List ℕ)
unfolding read_address deserialize_addresses
deserialize_account_address addresses buffer = throw_if (ltb (length buffer) 4) storage do
  (count, buffer) ← deserialize_number 4 buffer
  elim (ltb max_account_addresses count) [
    | true ↦ ok (addresses, buffer)
    | false ↦ deserialize_addresses count addresses buffer
  ]

-- `class Account : public AccountBalance, public AccountAddress`.
pub record Account : Type 0 where
  pub account_balance : AccountBalance
  pub addresses : Addresses
  pub id : ℕ

-- `Account::getAccountID`: the id is computed where it is first asked for.
unfoldable pub get_account_id : Hash → Account → Account × ℕ
get_account_id sha512 a =
    let key : List ℕ = (a.account_balance).public_key in
    if a.id == 0 && not (length key == 0)
    then (record a { id = sha512 key }, sha512 key)
    else (a, a.id)

-- `Account::getSize`.
abbrev pub account_size : ℕ → Account → ℕ
account_size key_size a = account_balance_size key_size + account_address_size a.addresses

-- `Account::serialize`.
unfoldable pub serialize_account : ℕ → Account → Cursor → Result Cursor
serialize_account key_size a c = do
  c ← serialize_account_balance key_size a.account_balance c
  serialize_account_address a.addresses c

-- `Account::deserialize`, into the object `a`.
unfoldable pub deserialize_account : ℕ → Account → List ℕ → Result (Account × List ℕ)
deserialize_account key_size a buffer = do
  (balance, buffer) ← deserialize_account_balance key_size buffer
  (addresses, buffer) ← deserialize_account_address a.addresses buffer
  ok (record a { account_balance = balance; addresses = addresses }, buffer)
