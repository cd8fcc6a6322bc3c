-- ===== src/Proposal/OfTxSet/Bounded.antt =====
-- The amounts of the transactions of a proposal that is read from bytes.
use pqblockchain.Prelude.{ℕ, ◌^◌, ◌<◌, List, All}
use pqblockchain.Serialize.{
  IsBytes, AreBytes, Yields, Yields-ok, Yields-bind, Ensures-throw_if, get-IsBytes,
  deserialize_number-lt, deserialize_blob-IsBytes, get, deserialize_number, deserialize_blob,
}
use pqblockchain.Transaction.Bounded.{Any}
use pqblockchain.Block.{BlockBody, deserialize_body}
use pqblockchain.Block.Bounded.{Fits, deserialize_body-Fits}
use pqblockchain.Proposal.OfTxSet.{deserialize_prefix, deserialize}

deserialize_prefix-IsBytes :
    (body : BlockBody) (buffer : List ℕ)
    → IsBytes buffer
    → Yields Any (deserialize_prefix body buffer)
unfolding deserialize_prefix
deserialize_prefix-IsBytes body buffer h0 = Ensures-throw_if _ _ _ _ (
    Yields-bind (λ v. v < 256 ^ 4) _ (deserialize_number 4 buffer) _
      (deserialize_number-lt 4 buffer h0)
      (λ type b1 _ h1.
        Yields-bind (λ v. v < 256 ^ 4) _ (deserialize_number 4 b1) _ (deserialize_number-lt 4 b1 h1)
          (λ seq b2 _ h2.
            Yields-bind (λ v. v < 256 ^ 8) _ (deserialize_number 8 b2) _
              (deserialize_number-lt 8 b2 h2)
              (λ time b3 _ h3.
                Yields-bind Any _ (deserialize_blob b3) _ (deserialize_blob-IsBytes b3 h3)
                  (λ issuer b4 _ h4.
                    Yields-bind Any _ (deserialize_blob b4) _ (deserialize_blob-IsBytes b4 h4)
                      (λ id b5 _ h5.
                        Yields-bind Any _ (deserialize_blob b5) _ (deserialize_blob-IsBytes b5 h5)
                          (λ previous b6 _ h6.
                            Yields-bind (λ v. v < 256 ^ 4) _ (deserialize_number 4 b6) _
                              (deserialize_number-lt 4 b6 h6)
                              (λ size b7 _ h7. Ensures-throw_if _ _ _ _ (
                                Yields-bind (AreBytes size) _ (get size b7) _
                                  (get-IsBytes size b7 h7)
                                  (λ bytes rest _ k. Yields-ok Any _ rest tt k))))))))))

-- Each transaction of a proposal that is read from bytes has an amount that fits 32 bits.
pub tx_set_proposal_deserialize-Fits :
    (body : BlockBody) (buffer : List ℕ)
    → All Fits body.tx_set
    → IsBytes buffer
    → Yields (λ p. All Fits (p.tx_set_body).tx_set) (deserialize body buffer)
unfolding deserialize
tx_set_proposal_deserialize-Fits body buffer fits h0 =
    Yields-bind Any _ (deserialize_prefix body buffer) _ (deserialize_prefix-IsBytes body buffer h0)
      (λ p b1 _ h1.
        Yields-bind (λ b. All Fits b.tx_set) _ (deserialize_body body.tx_set b1) _
          (deserialize_body-Fits body.tx_set b1 fits h1)
          (λ read rest all k. Yields-ok _ _ rest all k))
