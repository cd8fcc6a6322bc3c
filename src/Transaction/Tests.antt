-- ===== src/Transaction/Tests.antt =====
-- Transactions with concrete fields, and what the theorems say of them.
use pqblockchain.Prelude.{ℕ, ◌≡◌, refl, [], ◌∷◌, ◌++◌, List, length, arith}
use pqblockchain.Exceptions.{ok}
use pqblockchain.Serialize.{advance, fresh}
use pqblockchain.Transaction.{Transaction, serialize, deserialize, get_size}
use pqblockchain.Transaction.Encoding.{IsEncodable}
use pqblockchain.Transaction.RoundTrip.{deserialize-serialize}
use pqblockchain.Transaction.Set.{TransactionSet, IsOrdered}

-- Account 5 sends 3 to account 7; account 9 sends 4 to account 5.
abbrev pub five_to_seven : Transaction
five_to_seven = record {
  transaction_data = record {
    version_number = 1;
    sequence_number = 2;
    cash_amount = 3;
    timestamp = 1700000000;
    sender_wallet_address = 5;
    receiver_wallet_address = 7;
  };
  id_hash = 11;
  signature = 1 ∷ (2 ∷ []);
  signature_size = 2;
}

abbrev pub nine_to_five : Transaction
nine_to_five = record {
  transaction_data = record {
    version_number = 1;
    sequence_number = 1;
    cash_amount = 4;
    timestamp = 1700000001;
    sender_wallet_address = 9;
    receiver_wallet_address = 5;
  };
  id_hash = 12;
  signature = 3 ∷ [];
  signature_size = 1;
}

pub five_to_seven-IsEncodable : IsEncodable five_to_seven
five_to_seven-IsEncodable = record {
  data_encodable = record {
    version_fits = omega arith;
    sequence_fits = omega arith;
    cash_fits = omega arith;
    time_fits = omega arith;
    sender_fits = omega arith;
    receiver_fits = omega arith;
    sender_set = λ e. omega arith;
    receiver_set = λ e. omega arith;
  };
  hash_fits = omega arith;
  hash_set = λ e. omega arith;
  size_fits = omega arith;
  size_set = λ e. omega arith;
  size_true = refl;
}

abbrev pub two_transactions : TransactionSet
two_transactions = five_to_seven ∷ (nine_to_five ∷ [])

pub two_transactions-IsOrdered : IsOrdered two_transactions
two_transactions-IsOrdered = ((refl, tt), (tt, tt))

deserialize-serialize_example :
    (bytes : List ℕ) × (get_size five_to_seven ≡ ok (length bytes))
    × (serialize five_to_seven (fresh 300) ≡ ok (advance bytes (fresh 300)))
    × ((rest : List ℕ) → deserialize (bytes ++ rest) ≡ ok (five_to_seven, rest))
unfolding fresh
deserialize-serialize_example =
    deserialize-serialize five_to_seven (fresh 300) five_to_seven-IsEncodable (omega arith)
