-- ===== src/MessageProcessor/Checks.antt =====
-- What the check of a received transaction ensures, and what it leaves open.
use pqblockchain.Prelude.{
  ℕ, ◌^◌, ◌<◌, ◌≡◌, ◌≢◌, refl, inl, inr, true, false, Option, none, some, ◌==◌, arith, Bool-cases,
  Option-cases, ne→==,
}
use pqblockchain.Crypto.{SignAlgorithm}
use pqblockchain.Account.{AccountBalance}
use pqblockchain.Transaction
use pqblockchain.Transaction.{Transaction, check_transaction_structure}
use pqblockchain.Execution.Loop.{IsPayable}
use pqblockchain.MessageProcessor.{check_signature, check_transaction}

structure_sender :
    (t : Transaction) → check_transaction_structure t ≡ true → t.sender_wallet_address ≢ 0
unfolding check_transaction_structure
structure_sender t h e = ground arith

module _ (get_balance : ℕ → Option AccountBalance) (s : SignAlgorithm) where
  signed :
      (t : Transaction) (sender : AccountBalance)
      → check_signature get_balance s t sender ≡ true
      → (Transaction.verify s sender.public_key t ≡ true)
        × (get_balance t.receiver_wallet_address ≢ none)
  unfolding check_signature
  signed t sender h = elim (Bool-cases (Transaction.verify s sender.public_key t)) [
    | inl v ↦
        (v, λ none_there. let no : false ≡ true = rw (v, none_there, check_signature) at h in cc)
    | inr v ↦ let no : false ≡ true = rw (v, check_signature) at h in cc
  ]

  -- A transaction that `checkTransaction` accepts, with an amount that fits its type, is one that the
  -- execution of a set can pay: its sender is set and its receiver has an account. Moreover the sender
  -- has an account, is not the receiver, and its key verifies the signature.
  pub check_transaction-IsPayable :
      (t : Transaction)
      → check_transaction get_balance s t ≡ true
      → t.cash_amount < 2 ^ 32
      → IsPayable get_balance t
        × (t.sender_wallet_address ≢ t.receiver_wallet_address)
        × ((acc : AccountBalance) × (get_balance t.sender_wallet_address ≡ some acc)
            × (Transaction.verify s acc.public_key t ≡ true))
  unfolding check_transaction
  check_transaction-IsPayable t h fits = elim (Bool-cases (check_transaction_structure t)) [
    | inr e ↦ let no : false ≡ true = rw (e, check_transaction) at h in cc
    | inl e ↦ elim (Bool-cases (t.sender_wallet_address == t.receiver_wallet_address)) [
      | inl same ↦ let no : false ≡ true = rw (e, same, check_transaction) at h in cc
      | inr apart ↦ elim (Option-cases (get_balance t.sender_wallet_address)) [
        | inl unknown ↦ let no : false ≡ true = rw (e, apart, unknown, check_transaction) at h in cc
        | inr (acc, known) ↦
            let (verified, receiver) =
              signed t acc (rw (e, apart, known, check_transaction) at h) in
            (
              record {
                sender_set = structure_sender t e;
                cash_fits = fits;
                receiver_known = receiver;
              },
              ne→== _ _ apart,
              (acc, known, verified),
            )
      ]
    ]
  ]

  -- `checkTransaction` does not look at the amount: a transaction with its amount replaced by any
  -- other, and its hash and signature kept, is accepted exactly where the original is.
  pub check_transaction_amount :
      (t : Transaction) (amount : ℕ)
      → check_transaction get_balance s
          (record t { transaction_data = record t.transaction_data { cash_amount = amount } })
        ≡ check_transaction get_balance s t
  unfolding check_transaction check_signature check_transaction_structure Transaction.verify
  check_transaction_amount t amount = refl
