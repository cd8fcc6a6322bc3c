-- ===== src/Execution/Conservation.antt =====
-- Executing a set of transactions neither makes nor loses money.
use pqblockchain.Prelude.{
  ℕ, zero, suc, ◌+◌, ◌%◌, ◌^◌, ◌≡◌, ◌≢◌, ◌≤◌, refl, sym, ap, subst, ◌∙◌, inl, inr, false, Option,
  none, some, List, [], ◌∷◌, ◌++◌, ◌==◌, All, length, Bool-cases, Option-cases, ==→eq, ne→==, eq→==,
  ne→==_false, arith, if◌then◌else◌,
}
use pqblockchain.Prelude.Map.{Map, lookup, HasKeys}
use pqblockchain.Exceptions.{ok}
use pqblockchain.Transaction.{Transaction}
use pqblockchain.Transaction.Set.{TransactionSet, IsOrdered}
use pqblockchain.Account.{AccountBalance, BalanceStore, or_stored}
use pqblockchain.Wallet.{Wallet}
use pqblockchain.Execution.{
  AccountDifference, Differences, Run, load_sender, settle, count_loop, start,
  count_account_differences, updated, collect, set_balances_by_acc_diffs, has_duplicate,
}
use pqblockchain.Execution.Totals.{total, total-agree, le-total}
use pqblockchain.Execution.Differences.{balance_of, difference_of, effect}
use pqblockchain.Execution.Loop.{
  Known, IsPayable, Accounts, Inv, FromSender, FromSender-AllAfter, settle-Inv, load-Inv,
  curr_acc-settle, has_duplicate-ordered,
}

module _ (get_balance : ℕ → Option AccountBalance) where
  load_same :
      (tx : Transaction) (r : Run)
      → r.curr_acc ≡ tx.sender_wallet_address
      → load_sender get_balance tx r ≡ some r
  unfolding load_sender
  load_same tx r e = rw (eq→== _ _ e)

  load_unknown :
      (tx : Transaction) (r : Run)
      → r.curr_acc ≢ tx.sender_wallet_address
      → get_balance tx.sender_wallet_address ≡ none
      → load_sender get_balance tx r ≡ none
  unfolding load_sender
  load_unknown tx r n e = rw (ne→==_false _ _ n, e)

  load_known :
      (tx : Transaction) (r : Run) (acc : AccountBalance)
      → r.curr_acc ≢ tx.sender_wallet_address
      → get_balance tx.sender_wallet_address ≡ some acc
      → load_sender get_balance tx r
        ≡ some
            (record r { acc = acc; curr_acc = tx.sender_wallet_address; up_balance = acc.balance })
  unfolding load_sender
  load_known tx r acc n e = rw (ne→==_false _ _ n, e)

module _ (get_balance : ℕ → Option AccountBalance) (ids : List ℕ)
    (accounts : Accounts get_balance ids) where
  count_loop-Inv :
      (fuel : ℕ) (txs : TransactionSet) (r : Run)
      → length txs ≤ fuel
      → IsOrdered txs
      → All (IsPayable get_balance) txs
      → FromSender r.curr_acc txs
      → Inv get_balance ids accounts r
      → Inv get_balance ids accounts (count_loop get_balance fuel txs r)
  unfolding count_loop
  count_loop-Inv zero txs r h o p f v = v
  count_loop-Inv (suc fuel) [] r h o p f v = v
  count_loop-Inv (suc fuel) (tx ∷ rest) r h o p f v =
      elim (Bool-cases (r.curr_acc == tx.sender_wallet_address)) [
        | inl e ↦
            let same : r.curr_acc ≡ tx.sender_wallet_address = ==→eq _ _ e in
            rw (load_same get_balance tx r same, count_loop)
              (rw
                (
                  subst (λ a. has_duplicate a tx.sequence_number rest ≡ false) (sym same) unique,
                  count_loop,
                )
                (count_loop-Inv fuel rest (settle tx r) (omega arith) o.1 p.1
                  (subst (λ a. FromSender a rest) (sym (curr_acc-settle tx r ∙ same))
                    (FromSender-AllAfter tx rest o.0))
                  (settle-Inv get_balance ids accounts tx r p.0 same v)))
        | inr e ↦ elim (Option-cases (get_balance tx.sender_wallet_address)) [
          | inl unknown ↦
              rw (load_unknown get_balance tx r (ne→== _ _ e) unknown, count_loop)
                (count_loop-Inv fuel rest (record r { kept = r.kept ++ tx ∷ [] }) (omega arith) o.1
                  p.1 f.1
                  (record {
                    sum = v.sum;
                    current = v.current;
                    known_sender = v.known_sender;
                    later = v.later;
                    known = v.known;
                    keys = v.keys;
                  }))
          | inr (acc, found) ↦
              let loaded : Run = record r {
                acc = acc;
                curr_acc = tx.sender_wallet_address;
                up_balance = acc.balance;
              } in
              rw (load_known get_balance tx r acc (ne→== _ _ e) found, count_loop)
                (rw (unique, count_loop)
                  (count_loop-Inv fuel rest (settle tx loaded) (omega arith) o.1 p.1
                    (subst (λ a. FromSender a rest) (sym (curr_acc-settle tx loaded))
                      (FromSender-AllAfter tx rest o.0))
                    (settle-Inv get_balance ids accounts tx loaded p.0 refl (
                      load-Inv get_balance ids accounts tx r acc
                        (let ne : r.curr_acc ≢ tx.sender_wallet_address = ne→== _ _ e in
                          let le : r.curr_acc ≤ tx.sender_wallet_address = f.0 in omega arith)
                        found v))))
        ]
      ]
    where
      unique : has_duplicate tx.sender_wallet_address tx.sequence_number rest ≡ false
      unique = has_duplicate-ordered tx rest o.0

  -- With no entry in the table the balance stays.
  effect_empty : (j : ℕ) → effect get_balance [] j ≡ balance_of (get_balance j)
  unfolding effect
  effect_empty j = elim (Option-cases (get_balance j)) [
    | inl e ↦ rw e
    | inr (acc, e) ↦ omega (
      arith,
      accounts.supply,
      le-total (λ id. balance_of (get_balance id)) j ids
          (accounts.covers j (λ n. not_none acc e n)),
    )
  ]
    where
      not_none : (acc : AccountBalance) → get_balance j ≡ some acc → get_balance j ≢ none
      not_none acc e n = cc

  start-Inv : (w : Wallet) → Inv get_balance ids accounts (start get_balance w)
  start-Inv w = record {
    sum = total-agree _ _ ids (λ j m. effect_empty j);
    current = λ e. absurd (e refl);
    known_sender = λ e. absurd (e refl);
    later = λ a _. omega (arith, effect_empty a);
    known = tt;
    keys = tt;
  }

-- The table of differences and the batch that is made of it name the same accounts.
abbrev batched : Option AccountBalance → Option ℕ
batched none = none
batched (some a) = some a.balance

abbrev planned : ℕ → Option AccountDifference → Option ℕ
planned b none = none
planned b (some d) = some ((b + d.balance_diff) % 2 ^ 32)

none_of_batched : (o : Option AccountBalance) → batched o ≡ none → o ≡ none
none_of_batched none h = refl
none_of_batched (some a) h = cc

module _ (get_balance : ℕ → Option AccountBalance) where
  updated-ok :
      (d : AccountDifference)
      → get_balance d.id ≢ none
      → (acc : AccountBalance) × (updated get_balance d ≡ ok acc)
        × (acc.balance ≡ (balance_of (get_balance d.id) + d.balance_diff) % 2 ^ 32)
  unfolding updated
  updated-ok d n = elim (Option-cases (get_balance d.id)) [
    | inl e ↦ absurd (n e)
    | inr (acc, e) ↦ (
      record acc {
        balance = (acc.balance + d.balance_diff) % 2 ^ 32;
        tx_sequence = if d.tx_sequence == 0 then acc.tx_sequence else d.tx_sequence;
      },
      rw (e, updated) refl,
      rw e refl,
    )
  ]

  batched-cons :
      (key id : ℕ) (d : AccountDifference) (acc : AccountBalance) (x : Option AccountBalance)
      (y : Option AccountDifference)
      → d.id ≡ key
      → acc.balance ≡ (balance_of (get_balance d.id) + d.balance_diff) % 2 ^ 32
      → batched x ≡ planned (balance_of (get_balance id)) y
      → batched (if d.id == id then some acc else x)
        ≡ planned (balance_of (get_balance id)) (if key == id then some d else y)
  batched-cons key id d acc x y same b h = rw same (elim (Bool-cases (key == id)) [
    | inl s ↦
        let there : d.id ≡ id = same ∙ ==→eq key id s in
        rw s (ap some (b ∙ ap (λ j. (balance_of (get_balance j) + d.balance_diff) % 2 ^ 32) there))
    | inr s ↦ rw s h
  ])

  collect-ok :
      (diffs : Differences)
      → Known get_balance diffs
      → HasKeys diffs
      → (batch : Map AccountBalance) × HasKeys batch
        × (collect get_balance diffs ≡ ok batch)
        × ((id : ℕ)
            → batched (lookup id batch) ≡ planned (balance_of (get_balance id)) (lookup id diffs))
  unfolding collect
  collect-ok [] k u = ([], tt, refl, λ id. refl)
  collect-ok ((key, d) ∷ diffs) k u =
      let (acc, e, b) = updated-ok d (rw (k.0.0) (k.0.1)) in
      let (batch, q, f, h) = collect-ok diffs k.1 u.1 in
      (
        (d.id, acc) ∷ batch,
        (
          none_of_batched _ (
              h d.id
              ∙ ap (planned (balance_of (get_balance d.id)))
                  (ap (λ j. lookup j diffs) k.0.0 ∙ u.0)),
          q,
        ),
        rw (e, f),
        λ id. batched-cons key id d acc (lookup id batch) (lookup id diffs) k.0.0 b (h id),
      )

-- The balance that is read after the batch.
stored :
    (b : ℕ) (o : Option AccountBalance) (p : Option AccountDifference) (old : Option AccountBalance)
    → batched o ≡ planned b p
    → b ≡ balance_of old
    → (b + 0) % 2 ^ 32 ≡ b
    → balance_of (or_stored o old) ≡ (b + difference_of p) % 2 ^ 32
stored b none none old h e f = sym e ∙ sym f
stored b none (some d) old h e f = cc
stored b (some a) none old h e f = cc
stored b (some a) (some d) old h e f = ground arith

module _ (s : BalanceStore) where
  set_balances-effect :
      (db : BalanceStore.Db s) (ids : List ℕ) (diffs : Differences)
      → Accounts (s.find db) ids
      → Known (s.find db) diffs
      → HasKeys diffs
      → ((batch : Map AccountBalance) → s.write batch db ≢ none)
      → (db' : BalanceStore.Db s) × (set_balances_by_acc_diffs s diffs db ≡ ok db')
        × ((id : ℕ) → balance_of (s.find db' id) ≡ effect (s.find db) diffs id)
  unfolding set_balances_by_acc_diffs
  set_balances-effect db ids diffs accounts k u writes =
      let (batch, q, f, h) = collect-ok (s.find db) diffs k u in
      elim (Option-cases (s.write batch db)) [
        | inl e ↦ absurd (writes batch e)
        | inr (db', e) ↦ (
          db',
          rw f (rw (e, set_balances_by_acc_diffs) refl),
          λ id.
              unfold effect in
              (ap balance_of (s.find-write batch db db' id q e)
                ∙ stored (balance_of (s.find db id)) (lookup id batch) (lookup id diffs)
                    (s.find db id) (h id) refl
                    (unfold effect in effect_empty (s.find db) ids accounts id)),
        )
      ]

  -- Executing a set of transactions neither makes nor loses money. Let the accounts of the database
  -- hold less than 2^32 in all, the set be in its order, each transaction have a sender that is not
  -- the null address, an amount that fits 32 bits and a receiver with an account, and the database
  -- accept any batch. Then the differences that are counted are written without an exception, and the
  -- accounts hold together exactly what they held before.
  pub execute-conserves :
      (db : BalanceStore.Db s) (ids : List ℕ) (w : Wallet) (txs : TransactionSet)
      → Accounts (s.find db) ids
      → IsOrdered txs
      → All (IsPayable (s.find db)) txs
      → ((batch : Map AccountBalance) → s.write batch db ≢ none)
      → (db' : BalanceStore.Db s) × (set_balances_by_acc_diffs s
            (count_account_differences (s.find db) w txs).acc_diffs
            db
          ≡ ok db')
        × (total (λ id. balance_of (s.find db' id)) ids
            ≡ total (λ id. balance_of (s.find db id)) ids)
  unfolding count_account_differences
  execute-conserves db ids w txs accounts o p writes =
      let v =
        count_loop-Inv (s.find db) ids accounts (length txs) txs (start (s.find db) w) (omega arith)
          o p (from_null txs) (start-Inv (s.find db) ids accounts w) in
      let (db', e, same) = set_balances-effect db ids _ accounts v.known v.keys writes in
      (db', e, total-agree _ _ ids (λ j _. same j) ∙ v.sum)
    where
      from_null : (ts : TransactionSet) → FromSender 0 ts
      from_null [] = tt
      from_null (t ∷ ts) = (omega arith, from_null ts)
