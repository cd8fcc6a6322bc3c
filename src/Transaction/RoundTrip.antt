-- ===== src/Transaction/RoundTrip.antt =====
-- What `serialize` writes, `deserialize` reads back.
use pqblockchain.Prelude.{
  ℕ, ◌+◌, ◌≤◌, ◌≡◌, refl, sym, ap, ◌∙◌, List, ◌++◌, append_assoc, length, length-append,
  take-length, arith, ne→==_false, le→leb, le→ltb_false,
}
use pqblockchain.Exceptions.{ok}
use pqblockchain.Serialize.{
  Cursor, put, advance, put-put, put-put_then, put-fits, length-le_bytes, length-blob_bytes,
  serialize_number, serialize_blob, get-append, deserialize_number-le_bytes,
  deserialize_blob-blob_bytes,
}
use pqblockchain.Transaction.{
  TransactionData, Transaction, data_size, serialize_fields, serialize_data, get_size, serialize,
  deserialize_data, deserialize_signature, deserialize,
}
use pqblockchain.Transaction.Encoding.{encode_data, encode, IsDataEncodable, IsEncodable}

serialize_fields-put :
    (d : TransactionData) (c : Cursor) → serialize_fields d c ≡ put (encode_data d) c
unfolding serialize_fields serialize_number serialize_blob encode_data
serialize_fields-put d c = simp (put-put_then, put-put, append_assoc) (put-put _ _ c)

pub length-encode_data : (d : TransactionData) → length (encode_data d) ≡ data_size
unfolding encode_data
length-encode_data d = simp (length-append, length-le_bytes, length-blob_bytes) refl

pub length-encode :
    (t : Transaction)
    → length t.signature ≡ t.signature_size
    → length (encode t) ≡ data_size + 64 + 4 + t.signature_size
unfolding encode
length-encode t h =
    simp (length-append, length-le_bytes, length-blob_bytes, length-encode_data, h) (omega arith)

pub serialize_data-put :
    (d : TransactionData) (c : Cursor)
    → IsDataEncodable d
    → serialize_data d c ≡ put (encode_data d) c
unfolding serialize_data
serialize_data-put d c e =
    rw
      (
        ne→==_false d.sender_wallet_address 0 e.sender_set,
        ne→==_false d.receiver_wallet_address 0 e.receiver_set,
      )
      (serialize_fields-put d c)

-- Serialization of a complete transaction never throws where the buffer has the size that `getSize` gives.
pub serialize-put :
    (t : Transaction) (c : Cursor)
    → IsEncodable t
    → data_size + 64 + 4 + t.signature_size ≤ length c.room
    → serialize t c ≡ put (encode t) c
unfolding serialize encode serialize_number serialize_blob
serialize-put t c e h =
    rw
      (
        ne→==_false t.id_hash 0 e.hash_set,
        ne→==_false t.signature_size 0 e.size_set,
        le→ltb_false (length c.room) (data_size + 64 + 4 + t.signature_size) h,
        serialize_data-put t.transaction_data c e.data_encodable,
        ← e.size_true,
      )
      (simp
        (le→leb (length t.signature) (length t.signature) (omega arith), take-length, put-put_then)
        (put-put _ _ c ∙ ap (λ w. put w c) (simp append_assoc)))

deserialize_data-encode_data :
    (d : TransactionData) (rest : List ℕ)
    → IsDataEncodable d
    → deserialize_data (encode_data d ++ rest) ≡ ok (d, rest)
unfolding deserialize_data encode_data
deserialize_data-encode_data d rest e = simp append_assoc (
    rw (
      deserialize_number-le_bytes 4 d.version_number _ e.version_fits,
      deserialize_number-le_bytes 4 d.sequence_number _ e.sequence_fits,
      deserialize_number-le_bytes 4 d.cash_amount _ e.cash_fits,
      deserialize_number-le_bytes 8 d.timestamp _ e.time_fits,
      deserialize_blob-blob_bytes d.sender_wallet_address _ e.sender_fits,
      deserialize_blob-blob_bytes d.receiver_wallet_address _ e.receiver_fits,
    ))

deserialize_signature-append :
    (d : TransactionData) (hash size : ℕ) (bytes rest : List ℕ)
    → length bytes ≡ size
    → deserialize_signature d hash size (bytes ++ rest)
      ≡ ok (
        record { transaction_data = d; id_hash = hash; signature = bytes; signature_size = size },
        rest,
      )
unfolding deserialize_signature
deserialize_signature-append d hash size bytes rest h = rw (
  le→ltb_false (length (bytes ++ rest)) size (omega (arith, length-append bytes rest)),
  get-append size bytes rest h,
)

pub deserialize-encode :
    (t : Transaction) (rest : List ℕ)
    → IsEncodable t
    → deserialize (encode t ++ rest) ≡ ok (t, rest)
unfolding deserialize
deserialize-encode t rest e =
    rw
      (le→ltb_false (length (encode t ++ rest)) (data_size + 64 + 4)
        (omega (arith, length-append (encode t) rest, length-encode t e.size_true)))
      (unfold encode in
        simp append_assoc (
          rw (
            deserialize_data-encode_data t.transaction_data _ e.data_encodable,
            deserialize_blob-blob_bytes t.id_hash _ e.hash_fits,
            deserialize_number-le_bytes 4 t.signature_size _ e.size_fits,
            deserialize_signature-append t.transaction_data t.id_hash t.signature_size t.signature
                rest e.size_true,
          )))

-- A transaction whose fields are set and fit their types, in a buffer with the room that
-- `getSize` asks for: `serialize` succeeds, appends exactly `getSize` bytes at the offset, and
-- `deserialize` at that place gives the transaction back, whatever bytes follow.
pub deserialize-serialize :
    (t : Transaction) (c : Cursor)
    → IsEncodable t
    → data_size + 64 + 4 + t.signature_size ≤ length c.room
    → (bytes : List ℕ) × (get_size t ≡ ok (length bytes))
      × (serialize t c ≡ ok (advance bytes c))
      × ((rest : List ℕ) → deserialize (bytes ++ rest) ≡ ok (t, rest))
unfolding get_size
deserialize-serialize t c e h = (
  encode t,
  rw (ne→==_false t.signature_size 0 e.size_set) (ap ok (sym (length-encode t e.size_true))),
  serialize-put t c e h ∙ put-fits (encode t) c (rw (length-encode t e.size_true) h),
  λ rest. deserialize-encode t rest e,
)
