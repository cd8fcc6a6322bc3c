-- ===== src/Transaction/Encoding.antt =====
-- The bytes that a serialized transaction consists of.
use pqblockchain.Prelude.{ℕ, ◌^◌, ◌<◌, ◌≡◌, ◌≢◌, List, ◌++◌, length}
use pqblockchain.Serialize.{le_bytes, blob_bytes}
use pqblockchain.Transaction.{TransactionData, Transaction}

unfoldable pub encode_data : TransactionData → List ℕ
encode_data d =
    le_bytes 4 d.version_number
    ++ (le_bytes 4 d.sequence_number
        ++ (le_bytes 4 d.cash_amount
            ++ (le_bytes 8 d.timestamp
                ++ (blob_bytes d.sender_wallet_address ++ blob_bytes d.receiver_wallet_address))))

unfoldable pub encode : Transaction → List ℕ
encode t =
    encode_data t.transaction_data
    ++ (blob_bytes t.id_hash ++ (le_bytes 4 t.signature_size ++ t.signature))

-- The fields are set and within the ranges of their types, and the signature has its size.
pub record IsDataEncodable (d : TransactionData) : Type 0 where
  pub version_fits : d.version_number < 256 ^ 4
  pub sequence_fits : d.sequence_number < 256 ^ 4
  pub cash_fits : d.cash_amount < 256 ^ 4
  pub time_fits : d.timestamp < 256 ^ 8
  pub sender_fits : d.sender_wallet_address < 256 ^ 64
  pub receiver_fits : d.receiver_wallet_address < 256 ^ 64
  pub sender_set : d.sender_wallet_address ≢ 0
  pub receiver_set : d.receiver_wallet_address ≢ 0

pub record IsEncodable (t : Transaction) : Type 0 where
  pub data_encodable : IsDataEncodable t.transaction_data
  pub hash_fits : t.id_hash < 256 ^ 64
  pub hash_set : t.id_hash ≢ 0
  pub size_fits : t.signature_size < 256 ^ 4
  pub size_set : t.signature_size ≢ 0
  pub size_true : length t.signature ≡ t.signature_size
