-- ===== src/Execution/Tests.antt =====
-- Three accounts and two transactions between them, and what the theorems say of them.
use pqblockchain.Prelude.{
  ℕ, ◌≡◌, ◌≢◌, refl, ap, sym, true, Option, none, some, [], ◌∷◌, if◌then◌else◌, ◌==◌, arith,
}
use pqblockchain.Prelude.Map.{Map, lookup}
use pqblockchain.Exceptions.{ok}
use pqblockchain.Transaction.Tests.{two_transactions, two_transactions-IsOrdered}
use pqblockchain.Account.{AccountBalance, BalanceStore, or_stored}
use pqblockchain.Wallet.{Wallet}
use pqblockchain.Execution.{count_account_differences, set_balances_by_acc_diffs}
use pqblockchain.Execution.Differences.{balance_of}
use pqblockchain.Execution.Totals.{contains, total}
use pqblockchain.Execution.Loop.{Accounts}
use pqblockchain.Execution.Conservation.{execute-conserves}

pub some-injective : {A : Type 0} (a b : A) → some a ≡ some b → a ≡ b
some-injective a b e = cc

pub same_at :
    (batch : Map AccountBalance) (db db' : ℕ → Option AccountBalance) (id : ℕ)
    → some (λ id. or_stored (lookup id batch) (db id)) ≡ some db'
    → db' id ≡ or_stored (lookup id batch) (db id)
same_at batch db db' id e = ap (λ f. f id) (sym (some-injective _ _ e))

-- A store that is a function of the address.
abbrev pub memory_store : BalanceStore
memory_store = record {
  Db = ℕ → Option AccountBalance;
  find = λ db. db;
  write = λ batch db. some (λ id. or_stored (lookup id batch) (db id));
  find-write = λ batch db db' id keys e. same_at batch db db' id e;
}

abbrev pub account_with : ℕ → AccountBalance
account_with n = record { public_key = []; balance = n; tx_sequence = 0 }

abbrev pub three_accounts : ℕ → Option AccountBalance
three_accounts id =
    if id == 5
    then some (account_with 10)
    else if id == 7
    then some (account_with 20)
    else if id == 9
    then some (account_with 30)
    else none

abbrev pub empty_wallet : Wallet
empty_wallet = record {
  public_key = [];
  secret_key = [];
  wallet_id = 5;
  node_unl = [];
  tx_records = [];
  balance = 10;
  tx_sequence_number = 0;
}

three_accounts-covers :
    (id : ℕ) → three_accounts id ≢ none → contains id (5 ∷ (7 ∷ (9 ∷ []))) ≡ true
three_accounts-covers id h = ground arith

three_accounts-Accounts : Accounts three_accounts (5 ∷ (7 ∷ (9 ∷ [])))
three_accounts-Accounts = record {
  distinct = (refl, (refl, (refl, tt)));
  covers = three_accounts-covers;
  supply = omega arith;
}

execute-conserves_example :
    (db : ℕ → Option AccountBalance) × (set_balances_by_acc_diffs memory_store
        (count_account_differences three_accounts empty_wallet two_transactions).acc_diffs
        three_accounts
      ≡ ok db)
    × (total (λ id. balance_of (db id)) (5 ∷ (7 ∷ (9 ∷ [])))
        ≡ total (λ id. balance_of (three_accounts id)) (5 ∷ (7 ∷ (9 ∷ []))))
execute-conserves_example =
    execute-conserves memory_store three_accounts (5 ∷ (7 ∷ (9 ∷ []))) empty_wallet two_transactions
      three_accounts-Accounts two_transactions-IsOrdered
      (
        record { sender_set = λ e. omega arith; cash_fits = omega arith; receiver_known = λ e. cc },
        (
          record {
            sender_set = λ e. omega arith;
            cash_fits = omega arith;
            receiver_known = λ e. cc;
          },
          tt,
        ),
      )
      (λ batch e. cc)
