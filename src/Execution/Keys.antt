-- ===== src/Execution/Keys.antt =====
-- The execution of a set of transactions removes no account, whatever the set is.
use pqblockchain.Prelude.{
  ℕ, zero, suc, ◌≡◌, ◌≢◌, refl, sym, ap, ◌∙◌, inl, inr, Option, none, some, [], ◌∷◌, ◌++◌, ◌==◌,
  ltb, leb, length, Bool-cases, Option-cases, ==→eq, if_both, arith,
}
use pqblockchain.Prelude.Map.{Map, lookup, assign, HasKeys, assign-HasKeys}
use pqblockchain.Exceptions.{ok, throw, storage, >>=-inverse, ok_subst}
use pqblockchain.Transaction.{Transaction}
use pqblockchain.Transaction.Set.{TransactionSet}
use pqblockchain.Account.{AccountBalance, BalanceStore, or_stored}
use pqblockchain.Wallet.{Wallet}
use pqblockchain.Execution.{
  AccountDifference, Differences, Run, debit, credit, confirm, settle, has_duplicate, load_sender,
  count_loop, start, count_account_differences, updated, collect, set_balances_by_acc_diffs,
}

-- Each entry is that of its key.
abbrev pub IsOwn : Differences → Type 0
IsOwn [] = Unit {0}
IsOwn ((k, d) ∷ diffs) = (d.id ≡ k) × IsOwn diffs

abbrev pub IsTable : Differences → Type 0
IsTable diffs = HasKeys diffs × IsOwn diffs

IsOwn-assign :
    (k : ℕ) (d : AccountDifference) (diffs : Differences)
    → d.id ≡ k
    → IsOwn diffs
    → IsOwn (assign k d diffs)
IsOwn-assign k d [] e o = (e, tt)
IsOwn-assign k d ((j, c) ∷ diffs) e o = elim (Bool-cases (j == k)) [
  | inl s ↦ rw s (e ∙ sym (==→eq j k s), o.1)
  | inr s ↦ rw s (o.0, IsOwn-assign k d diffs e o.1)
]

IsOwn-lookup :
    (k : ℕ) (d : AccountDifference) (diffs : Differences)
    → IsOwn diffs
    → lookup k diffs ≡ some d
    → d.id ≡ k
IsOwn-lookup k d [] o e = absurd (cc)
IsOwn-lookup k d ((j, c) ∷ diffs) o e = ground (arith, IsOwn-lookup k d diffs o.1)

debit-IsTable : (tx : Transaction) (diffs : Differences) → IsTable diffs → IsTable (debit tx diffs)
unfolding debit
debit-IsTable tx diffs t = elim (Option-cases (lookup tx.sender_wallet_address diffs)) [
  | inl e ↦ rw (e, debit) (assign-HasKeys _ _ diffs t.0, IsOwn-assign _ _ diffs refl t.1)
  | inr (d, e) ↦
      rw (e, debit)
        (assign-HasKeys _ _ diffs t.0, IsOwn-assign _ _ diffs (IsOwn-lookup _ d diffs t.1 e) t.1)
]

credit-IsTable :
    (tx : Transaction) (diffs : Differences) → IsTable diffs → IsTable (credit tx diffs)
unfolding credit
credit-IsTable tx diffs t = elim (Option-cases (lookup tx.receiver_wallet_address diffs)) [
  | inl e ↦ rw (e, credit) (assign-HasKeys _ _ diffs t.0, IsOwn-assign _ _ diffs refl t.1)
  | inr (d, e) ↦
      rw (e, credit)
        (assign-HasKeys _ _ diffs t.0, IsOwn-assign _ _ diffs (IsOwn-lookup _ d diffs t.1 e) t.1)
]

settle-IsTable :
    (tx : Transaction) (r : Run) → IsTable r.acc_diffs → IsTable (settle tx r).acc_diffs
unfolding settle confirm
settle-IsTable tx r t =
    if_both (λ (q : Run). IsTable q.acc_diffs) (ltb r.up_balance tx.cash_amount) r _ t
      (if_both (λ (q : Run). IsTable q.acc_diffs) (leb tx.sequence_number r.acc.tx_sequence) r
        (confirm tx r) t
        (credit-IsTable tx (debit tx r.acc_diffs) (debit-IsTable tx r.acc_diffs t)))

module _ (get_balance : ℕ → Option AccountBalance) where
  load_sender-diffs :
      (tx : Transaction) (r r' : Run)
      → load_sender get_balance tx r ≡ some r'
      → r'.acc_diffs ≡ r.acc_diffs
  unfolding load_sender
  load_sender-diffs tx r r' e = ground arith

  count_loop-IsTable :
      (fuel : ℕ) (txs : TransactionSet) (r : Run)
      → IsTable r.acc_diffs
      → IsTable (count_loop get_balance fuel txs r).acc_diffs
  unfolding count_loop
  count_loop-IsTable zero txs r t = t
  count_loop-IsTable (suc fuel) [] r t = t
  count_loop-IsTable (suc fuel) (tx ∷ rest) r t =
      elim (Option-cases (load_sender get_balance tx r)) [
        | inl e ↦
            rw (e, count_loop)
              (count_loop-IsTable fuel rest (record r { kept = r.kept ++ tx ∷ [] }) t)
        | inr (r', e) ↦
            let t' : IsTable r'.acc_diffs = rw (load_sender-diffs tx r r' e) t in
            elim (Bool-cases (has_duplicate r'.curr_acc tx.sequence_number rest)) [
              | inl twice ↦ rw (e, count_loop) (rw twice (count_loop-IsTable fuel _ r' t'))
              | inr once ↦
                  rw (e, count_loop)
                    (rw once
                      (count_loop-IsTable fuel rest (settle tx r') (settle-IsTable tx r' t')))
            ]
      ]

  collect-HasKeys :
      (diffs : Differences) (batch : Map AccountBalance)
      → IsTable diffs
      → collect get_balance diffs ≡ ok batch
      → HasKeys batch × ((k : ℕ) → lookup k diffs ≡ none → lookup k batch ≡ none)
  unfolding collect
  collect-HasKeys [] batch t e =
      ok_subst
        (λ r.
          HasKeys r × ((k : ℕ) → lookup {V = AccountDifference} k [] ≡ none → lookup k r ≡ none))
        [] batch e (tt, λ k h. refl)
  collect-HasKeys ((key, d) ∷ diffs) batch t e =
      let (acc, _, later) = >>=-inverse (updated get_balance d) _ batch e in
      let (rest, f, last) = >>=-inverse (collect get_balance diffs) _ batch later in
      let (keys, absent) = collect-HasKeys diffs rest (t.0.1, t.1.1) f in
      ok_subst (λ r. HasKeys r × ((k : ℕ) → lookup k ((key, d) ∷ diffs) ≡ none → lookup k r ≡ none))
        ((d.id, acc) ∷ rest) batch last
        (
          (absent d.id (ap (λ j. lookup j diffs) t.1.0 ∙ t.0.0), keys),
          λ k h. ground (arith, absent k, t.1.0),
        )

module _ (s : BalanceStore) where
  -- Whatever the set of transactions is: an account that the database has is there afterwards.
  pub set_balances-keeps_accounts :
      (w : Wallet) (txs : TransactionSet) (db db' : BalanceStore.Db s) (id : ℕ)
      → set_balances_by_acc_diffs s (count_account_differences (s.find db) w txs).acc_diffs db
        ≡ ok db'
      → s.find db id ≢ none
      → s.find db' id ≢ none
  unfolding set_balances_by_acc_diffs count_account_differences
  set_balances-keeps_accounts w txs db db' id e known =
      let diffs : Differences =
        (count_loop (s.find db) (length txs) txs (start (s.find db) w)).acc_diffs in
      let (batch, collected, last) = >>=-inverse (collect (s.find db) diffs) _ db' e in
      let (keys, _) =
        collect-HasKeys (s.find db) diffs batch
          (count_loop-IsTable (s.find db) (length txs) txs (start (s.find db) w) (tt, tt))
          collected in
      elim (Option-cases (s.write batch db)) [
        | inl failed ↦ absurd (let no : throw storage ≡ ok db' = rw failed at last in cc)
        | inr (written, done) ↦
            ok_subst (λ r. s.find r id ≢ none) written db' (rw done at last)
              (λ gone.
                overwritten (lookup id batch) (s.find db id) known
                  (sym (s.find-write batch db written id keys done) ∙ gone))
      ]
    where
      overwritten : (new old : Option AccountBalance) → old ≢ none → or_stored new old ≡ none → ⊥
      overwritten none old k h = k h
      overwritten (some a) old k h = cc
