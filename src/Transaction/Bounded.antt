-- ===== src/Transaction/Bounded.antt =====
-- The amount of a transaction that is read from bytes.
use pqblockchain.Prelude.{ℕ, ◌^◌, ◌<◌, List, ltb, length}
use pqblockchain.Serialize.{
  IsBytes, AreBytes, Yields, Yields-ok, Yields-bind, Ensures-throw_if, get-IsBytes,
  deserialize_number-lt, deserialize_blob-IsBytes, get, deserialize_number, deserialize_blob,
}
use pqblockchain.Transaction.{TransactionData, deserialize_data, deserialize_signature, deserialize}

abbrev pub Any : {A : Type 0} → A → Type 0
Any a = Unit {0}

deserialize_data-lt :
    (buffer : List ℕ)
    → IsBytes buffer
    → Yields (λ d. d.cash_amount < 2 ^ 32) (deserialize_data buffer)
unfolding deserialize_data
deserialize_data-lt buffer h0 =
    Yields-bind (λ v. v < 256 ^ 4) _ (deserialize_number 4 buffer) _
      (deserialize_number-lt 4 buffer h0)
      (λ version b1 _ h1.
        Yields-bind (λ v. v < 256 ^ 4) _ (deserialize_number 4 b1) _ (deserialize_number-lt 4 b1 h1)
          (λ sequence b2 _ h2.
            Yields-bind (λ v. v < 256 ^ 4) _ (deserialize_number 4 b2) _
              (deserialize_number-lt 4 b2 h2)
              (λ cash b3 fits h3.
                Yields-bind (λ v. v < 256 ^ 8) _ (deserialize_number 8 b3) _
                  (deserialize_number-lt 8 b3 h3)
                  (λ time b4 _ h4.
                    Yields-bind Any _ (deserialize_blob b4) _ (deserialize_blob-IsBytes b4 h4)
                      (λ sender b5 _ h5.
                        Yields-bind Any _ (deserialize_blob b5) _ (deserialize_blob-IsBytes b5 h5)
                          (λ receiver b6 _ h6. Yields-ok _ _ b6 fits h6))))))

deserialize_signature-lt :
    (d : TransactionData) (hash size : ℕ) (buffer : List ℕ)
    → d.cash_amount < 2 ^ 32
    → IsBytes buffer
    → Yields (λ t. t.cash_amount < 2 ^ 32) (deserialize_signature d hash size buffer)
unfolding deserialize_signature
deserialize_signature-lt d hash size buffer fits h =
    Ensures-throw_if _ (ltb (length buffer) size) _ _ (
      Yields-bind (AreBytes size) _ (get size buffer) _ (get-IsBytes size buffer h)
        (λ bytes rest _ k. Yields-ok _ _ rest fits k))

-- A transaction that is read from bytes has an amount that fits 32 bits.
pub transaction_deserialize-lt :
    (buffer : List ℕ) → IsBytes buffer → Yields (λ t. t.cash_amount < 2 ^ 32) (deserialize buffer)
unfolding deserialize
transaction_deserialize-lt buffer h0 = Ensures-throw_if _ _ _ _ (
    Yields-bind (λ d. d.cash_amount < 2 ^ 32) _ (deserialize_data buffer) _
      (deserialize_data-lt buffer h0)
      (λ d b1 fits h1.
        Yields-bind Any _ (deserialize_blob b1) _ (deserialize_blob-IsBytes b1 h1) (λ hash b2 _ h2.
          Yields-bind (λ v. v < 256 ^ 4) _ (deserialize_number 4 b2) _
            (deserialize_number-lt 4 b2 h2)
            (λ size b3 _ h3. deserialize_signature-lt d hash size b3 fits h3))))
