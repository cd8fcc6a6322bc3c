-- ===== src/Account/RoundTrip.antt =====
-- What `AccountBalance::serializeAccountBalance` writes, `deserializeAccountBalance` reads back.
use pqblockchain.Prelude.{
  ℕ, ◌^◌, ◌<◌, ◌≤◌, ◌≡◌, refl, ◌∙◌, List, ◌++◌, append_assoc, length, length-append, arith,
  le→ltb_false,
}
use pqblockchain.Exceptions.{ok}
use pqblockchain.Serialize.{
  Cursor, advance, put-put, put-fits, le_bytes, length-le_bytes, serialize_number, get-append,
  deserialize_number-le_bytes,
}
use pqblockchain.Account.{
  AccountBalance, account_balance_size, serialize_account_balance, deserialize_account_balance,
}

encode : AccountBalance → List ℕ
encode a = a.public_key ++ (le_bytes 4 a.balance ++ le_bytes 4 a.tx_sequence)

length-encode_account :
    (a : AccountBalance) → length (encode a) ≡ account_balance_size (length a.public_key)
unfolding encode
length-encode_account a = simp (length-append, length-le_bytes) (omega arith)

-- An account whose key has the size that the algorithm asks for and whose numbers fit their types, in
-- a buffer with the room that `getAccountBalanceSize` asks for: serialization succeeds, appends
-- exactly that many bytes at the offset, and deserialization gives the account back, whatever bytes
-- follow.
pub account_balance-deserialize-serialize :
    (a : AccountBalance) (c : Cursor)
    → a.balance < 256 ^ 4
    → a.tx_sequence < 256 ^ 4
    → account_balance_size (length a.public_key) ≤ length c.room
    → (bytes : List ℕ) × (length bytes ≡ account_balance_size (length a.public_key))
      × (serialize_account_balance (length a.public_key) a c ≡ ok (advance bytes c))
      × ((rest : List ℕ)
          → deserialize_account_balance (length a.public_key) (bytes ++ rest) ≡ ok (a, rest))
unfolding serialize_account_balance deserialize_account_balance encode serialize_number
account_balance-deserialize-serialize a c balance_fits sequence_fits room = (
  encode a,
  length-encode_account a,
  rw (le→ltb_false (length c.room) (account_balance_size (length a.public_key)) room) (
      simp put-put (
        put-put a.public_key _ c ∙ put-fits (encode a) c (omega (arith, length-encode_account a)))),
  λ rest.
      rw
        (le→ltb_false (length (encode a ++ rest)) (account_balance_size (length a.public_key))
          (omega (arith, length-append (encode a) rest, length-encode_account a)))
        (simp append_assoc (
          rw (
            get-append (length a.public_key) a.public_key _ refl,
            deserialize_number-le_bytes 4 a.balance _ balance_fits,
            deserialize_number-le_bytes 4 a.tx_sequence _ sequence_fits,
          ))),
)
