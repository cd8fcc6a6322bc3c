-- ===== src/Block/Bounded.antt =====
-- The amounts of the transactions of a block that is read from bytes.
use pqblockchain.Prelude.{ℕ, zero, suc, ◌^◌, ◌<◌, List, All}
use pqblockchain.Serialize.{
  IsBytes, Yields, Yields-ok, Yields-bind, Ensures-throw_if, deserialize_number-lt,
  deserialize_number,
}
use pqblockchain.Transaction
use pqblockchain.Transaction.{Transaction}
use pqblockchain.Transaction.Bounded.{transaction_deserialize-lt}
use pqblockchain.Transaction.Set.{TransactionSet, insert, insert-All}
use pqblockchain.Block.{deserialize_all, deserialize_body}

abbrev pub Fits : Transaction → Type 0
Fits t = t.cash_amount < 2 ^ 32

deserialize_all-Fits :
    (n : ℕ) (set : TransactionSet) (buffer : List ℕ)
    → All Fits set
    → IsBytes buffer
    → Yields (All Fits) (deserialize_all n set buffer)
unfolding deserialize_all
deserialize_all-Fits zero set buffer fits h = Yields-ok (All Fits) set buffer fits h
deserialize_all-Fits (suc n) set buffer fits h =
    Yields-bind Fits (All Fits) (Transaction.deserialize buffer) _
      (transaction_deserialize-lt buffer h)
      (λ t rest one k.
        deserialize_all-Fits n (insert t set) rest (insert-All Fits t set one fits) k)

pub deserialize_body-Fits :
    (set : TransactionSet) (buffer : List ℕ)
    → All Fits set
    → IsBytes buffer
    → Yields (λ b. All Fits b.tx_set) (deserialize_body set buffer)
unfolding deserialize_body
deserialize_body-Fits set buffer fits h = Ensures-throw_if _ _ _ _ (
    Yields-bind (λ v. v < 256 ^ 4) _ (deserialize_number 4 buffer) _
      (deserialize_number-lt 4 buffer h)
      (λ count b1 _ h1.
        Yields-bind (All Fits) _ (deserialize_all count set b1) _
          (deserialize_all-Fits count set b1 fits h1) (λ set rest all k. Yields-ok _ _ rest all k)))
