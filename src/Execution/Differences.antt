-- ===== src/Execution/Differences.antt =====
-- What the table of differences makes of each balance, and how `debit` and `credit` change that.
use pqblockchain.Prelude.{
  ℕ, ◌+◌, ◌%◌, ◌^◌, ◌≡◌, ◌≢◌, ◌≤◌, ◌<◌, inl, inr, Option, none, some, Option-cases, arith,
}
use pqblockchain.Prelude.Map.{lookup, lookup-assign_self, lookup-assign_ne}
use pqblockchain.Transaction.{Transaction}
use pqblockchain.Account.{AccountBalance}
use pqblockchain.Execution.{AccountDifference, Differences, debit, credit}

-- The difference of an account, 0 if it has no entry.
abbrev pub difference_of : Option AccountDifference → ℕ
difference_of none = 0
difference_of (some d) = d.balance_diff

abbrev pub balance_of : Option AccountBalance → ℕ
balance_of none = 0
balance_of (some a) = a.balance

lookup-debit_ne :
    (tx : Transaction) (diffs : Differences) (id : ℕ)
    → tx.sender_wallet_address ≢ id
    → lookup id (debit tx diffs) ≡ lookup id diffs
unfolding debit
lookup-debit_ne tx diffs id h = elim (Option-cases (lookup tx.sender_wallet_address diffs)) [
  | inl e ↦ rw (e, debit) (lookup-assign_ne tx.sender_wallet_address id _ diffs h)
  | inr (d, e) ↦ rw (e, debit) (lookup-assign_ne tx.sender_wallet_address id _ diffs h)
]

lookup-credit_ne :
    (tx : Transaction) (diffs : Differences) (id : ℕ)
    → tx.receiver_wallet_address ≢ id
    → lookup id (credit tx diffs) ≡ lookup id diffs
unfolding credit
lookup-credit_ne tx diffs id h = elim (Option-cases (lookup tx.receiver_wallet_address diffs)) [
  | inl e ↦ rw (e, credit) (lookup-assign_ne tx.receiver_wallet_address id _ diffs h)
  | inr (d, e) ↦ rw (e, credit) (lookup-assign_ne tx.receiver_wallet_address id _ diffs h)
]

module _ (get_balance : ℕ → Option AccountBalance) where
  -- The balance of an account once the differences are applied, modulo 2^32.
  unfoldable pub effect : Differences → ℕ → ℕ
  effect diffs id = (balance_of (get_balance id) + difference_of (lookup id diffs)) % 2 ^ 32

  pub effect-debit_ne :
      (tx : Transaction) (diffs : Differences) (id : ℕ)
      → tx.sender_wallet_address ≢ id
      → effect (debit tx diffs) id ≡ effect diffs id
  unfolding effect
  effect-debit_ne tx diffs id h = rw (lookup-debit_ne tx diffs id h)

  pub effect-credit_ne :
      (tx : Transaction) (diffs : Differences) (id : ℕ)
      → tx.receiver_wallet_address ≢ id
      → effect (credit tx diffs) id ≡ effect diffs id
  unfolding effect
  effect-credit_ne tx diffs id h = rw (lookup-credit_ne tx diffs id h)

  -- A debit takes the amount from the sender, who has it.
  pub effect-debit :
      (tx : Transaction) (diffs : Differences)
      → tx.cash_amount < 2 ^ 32
      → tx.cash_amount ≤ effect diffs tx.sender_wallet_address
      → effect (debit tx diffs) tx.sender_wallet_address + tx.cash_amount
        ≡ effect diffs tx.sender_wallet_address
  unfolding effect debit
  effect-debit tx diffs h k = elim (Option-cases (lookup tx.sender_wallet_address diffs)) [
    | inl e ↦
        let has : tx.cash_amount
            ≤ (balance_of (get_balance tx.sender_wallet_address) + 0) % 2 ^ 32 =
          rw e at k in
        rw (e, debit) (rw (lookup-assign_self tx.sender_wallet_address _ diffs) (omega arith))
    | inr (d, e) ↦
        let has : tx.cash_amount
            ≤ (balance_of (get_balance tx.sender_wallet_address) + d.balance_diff) % 2 ^ 32 =
          rw e at k in
        rw (e, debit) (rw (lookup-assign_self tx.sender_wallet_address _ diffs) (omega arith))
  ]

  -- A credit gives the amount to the receiver, where that does not pass 2^32.
  pub effect-credit :
      (tx : Transaction) (diffs : Differences)
      → effect diffs tx.receiver_wallet_address + tx.cash_amount < 2 ^ 32
      → effect (credit tx diffs) tx.receiver_wallet_address
        ≡ effect diffs tx.receiver_wallet_address + tx.cash_amount
  unfolding effect credit
  effect-credit tx diffs k = elim (Option-cases (lookup tx.receiver_wallet_address diffs)) [
    | inl e ↦
        let fits : (balance_of (get_balance tx.receiver_wallet_address) + 0) % 2 ^ 32
              + tx.cash_amount
            < 2 ^ 32 =
          rw e at k in
        rw (e, credit) (rw (lookup-assign_self tx.receiver_wallet_address _ diffs) (omega arith))
    | inr (d, e) ↦
        let fits : (balance_of (get_balance tx.receiver_wallet_address) + d.balance_diff) % 2 ^ 32
              + tx.cash_amount
            < 2 ^ 32 =
          rw e at k in
        rw (e, credit) (rw (lookup-assign_self tx.receiver_wallet_address _ diffs) (omega arith))
  ]
