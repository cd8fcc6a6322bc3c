-- ===== src/MessageProcessor/Kept.antt =====
-- What the handlers of `MessageProcessor` (src/Network/MessageManagement.cpp) do to the pool of
-- transactions and to the balances.
use pqblockchain.Prelude.{
  ℕ, ◌^◌, ◌<◌, ◌≡◌, ◌≢◌, refl, sym, ◌∙◌, inl, inr, true, Option, none, some, [], ◌∷◌, All,
  Bool-cases, Option-cases,
}
use pqblockchain.Prelude.Map.{lookup}
use pqblockchain.Prelude.Set.{contains}
use pqblockchain.Exceptions.{Ensures, Ensures-ok, >>=-inverse, ok_subst}
use pqblockchain.Crypto.{Hash, SignAlgorithm}
use pqblockchain.Transaction.{Transaction}
use pqblockchain.Transaction.Set.{TransactionSet, insert}
use pqblockchain.Account.{AccountBalance, BalanceStore, or_stored}
use pqblockchain.Account.Addresses.{Account, get_account_id}
use pqblockchain.Storage.{Database}
use pqblockchain.Storage.Accounts.{set_balance, get_account, set_account, set_addresses}
use pqblockchain.Message.Payloads.{serialize_inventory}
use pqblockchain.ConnectionManager.Polling.{MessageItem}
use pqblockchain.Consensus.Agreement.{add_transaction_to_pool, get_transaction_from_pool}
use pqblockchain.Consensus.Wrapper.Pool.{IsLater, IsPool-IsLater, IsPool-assign, IsPoolOf}
use pqblockchain.MessageProcessor.{check_transaction}
use pqblockchain.MessageProcessor.Checks.{check_transaction-IsPayable}
use pqblockchain.MessageProcessor.State.{
  Processor, inv_tx, inv_account, request, forward_inv_message, accounts, with_accounts,
}
use pqblockchain.MessageProcessor.Handlers.{
  received, into_pool, take_transaction, renew_set, store_account, take_account,
}

module _ (Q : Transaction → Type 0) (b : BalanceStore) (d : Database) where
  abbrev pub HasPool : Processor b d → Type 0
  HasPool p = IsPoolOf Q b d p.wrapper

  forward_inv_message-HasPool :
      (id type : ℕ) (i : MessageItem) (p : Processor b d)
      → HasPool p
      → Ensures HasPool (forward_inv_message b d id type i p)
  unfolding forward_inv_message request
  forward_inv_message-HasPool id type i p h q e =
      let (m, _, last) = >>=-inverse (serialize_inventory _ _) _ q e in ok_subst HasPool _ q last h

  module _ (s : SignAlgorithm) where
    -- What `checkTransaction` accepts now, of an amount that fits its type, has the property.
    abbrev pub Accepts : Processor b d → Type 0
    Accepts p =
        (tx : Transaction)
        → tx.cash_amount < 2 ^ 32
        → check_transaction (b.find (p.wrapper).balances) s tx ≡ true
        → Q tx

    into_pool-HasPool :
        (tx : Transaction) (p : Processor b d)
        → Accepts p
        → tx.cash_amount < 2 ^ 32
        → check_transaction (b.find (p.wrapper).balances) s tx ≡ true
        → HasPool p
        → HasPool (into_pool b d tx p).0
    unfolding into_pool add_transaction_to_pool
    into_pool-HasPool tx p accepts fits checked h =
        elim (Option-cases (lookup tx.id_hash (p.wrapper).tx_pool)) [
          | inr (old, known) ↦ rw (known, add_transaction_to_pool) h
          | inl new ↦
              rw (new, add_transaction_to_pool)
                (IsPool-assign Q (b.find (p.wrapper).balances) tx (p.wrapper).tx_pool
                  (
                    (check_transaction-IsPayable (b.find (p.wrapper).balances) s tx checked fits).0,
                    accepts tx fits checked,
                  )
                  h)
        ]

    pub take_transaction-HasPool :
        (tx : Transaction) (i : MessageItem) (p : Processor b d)
        → Accepts p
        → tx.cash_amount < 2 ^ 32
        → HasPool p
        → Ensures HasPool (take_transaction b d s tx i p)
    unfolding take_transaction
    take_transaction-HasPool tx i p accepts fits h =
        let waited : Processor b d = received b d tx.id_hash p in
        elim (Bool-cases (check_transaction (b.find (p.wrapper).balances) s tx)) [
          | inr refused ↦ rw (refused, take_transaction) (Ensures-ok HasPool waited h)
          | inl accepted ↦
              let pooled = into_pool-HasPool tx waited accepts fits accepted h in
              elim (Bool-cases (into_pool b d tx waited).1) [
                | inr old ↦
                    rw (accepted, old, take_transaction)
                      (Ensures-ok HasPool (into_pool b d tx waited).0 pooled)
                | inl new ↦
                    rw (accepted, new, take_transaction)
                      (forward_inv_message-HasPool tx.id_hash inv_tx i (into_pool b d tx waited).0
                        pooled)
              ]
        ]

    pub renew_set-HasPool :
        (set new_set : TransactionSet) (p : Processor b d)
        → Accepts p
        → All (λ t. t.cash_amount < 2 ^ 32) set
        → HasPool p
        → HasPool (renew_set b d s set new_set p).1
    unfolding renew_set into_pool
    renew_set-HasPool [] new_set p accepts fits h = h
    renew_set-HasPool (tx ∷ set) new_set p accepts fits h =
        elim (Option-cases (get_transaction_from_pool tx.id_hash (p.wrapper).tx_pool)) [
          | inr (known, e) ↦
              rw (e, renew_set) (renew_set-HasPool set (insert known new_set) p accepts fits.1 h)
          | inl new ↦ elim (Bool-cases (check_transaction (b.find (p.wrapper).balances) s tx)) [
            | inr refused ↦
                rw (new, refused, renew_set) (renew_set-HasPool set new_set p accepts fits.1 h)
            | inl accepted ↦
                rw (new, accepted, renew_set)
                  (renew_set-HasPool set (insert tx new_set)
                    (received b d tx.id_hash (into_pool b d tx p).0) accepts fits.1
                    (into_pool-HasPool tx p accepts fits.0 accepted h))
          ]
        ]

  set_balance-IsLater :
      (id : ℕ) (acc : AccountBalance) (db : BalanceStore.Db b)
      → IsLater (b.find db) (b.find (set_balance d b id acc db).0)
  unfolding set_balance
  set_balance-IsLater id acc db j known = elim (Option-cases (b.write ((id, acc) ∷ []) db)) [
    | inl failed ↦ rw (failed, set_balance) known
    | inr (db', done) ↦
        rw (done, set_balance)
          (λ gone.
            overwritten (lookup j ((id, acc) ∷ [])) (b.find db j) known
              (sym (b.find-write ((id, acc) ∷ []) db db' j (refl, tt) done) ∙ gone))
  ]
    where
      overwritten : (new old : Option AccountBalance) → old ≢ none → or_stored new old ≡ none → ⊥
      overwritten none old k h = k h
      overwritten (some a) old k h = cc

  set_account-IsLater :
      (id : ℕ) (acc : Account) (p : Processor b d)
      → Ensures
          (λ r. IsLater (b.find (p.wrapper).balances) (b.find (r.0).balances))
          (set_account d b id acc (accounts b d p))
  unfolding set_account
  set_account-IsLater id acc p r e =
      let later = set_balance-IsLater id acc.account_balance (p.wrapper).balances in
      elim (Bool-cases (set_balance d b id acc.account_balance (p.wrapper).balances).1) [
        | inr failed ↦
            ok_subst (λ x. IsLater (b.find (p.wrapper).balances) (b.find (x.0).balances)) _ r
              (rw (failed, set_account) at e) later
        | inl written ↦
            let (stored, _, last) =
              >>=-inverse (set_addresses d id acc.addresses p.address_db) _ r
                (rw (written, set_account) at e) in
            ok_subst (λ x. IsLater (b.find (p.wrapper).balances) (b.find (x.0).balances)) _ r last
              later
      ]

  store_account-HasPool :
      (id : ℕ) (acc : Account) (i : MessageItem) (p : Processor b d)
      → HasPool p
      → Ensures HasPool (store_account b d id acc i p)
  unfolding store_account
  store_account-HasPool id acc i p h q e =
      let (written, done, last) = >>=-inverse (set_account d b id acc (accounts b d p)) _ q e in
      forward_inv_message-HasPool id inv_account i (with_accounts b d written.0 p)
        (IsPool-IsLater Q (b.find (p.wrapper).balances) (b.find (written.0).balances)
          (p.wrapper).tx_pool (set_account-IsLater id acc p written done) h)
        q last

  pub take_account-HasPool :
      (sha512 : Hash) (a : Account) (i : MessageItem) (p : Processor b d)
      → HasPool p
      → Ensures HasPool (take_account b d sha512 a i p)
  unfolding take_account
  take_account-HasPool sha512 a i p h q e =
      let acc : Account = (get_account_id sha512 a).0 in
      let id : ℕ = (get_account_id sha512 a).1 in
      elim (Bool-cases (contains id p.waiting_data)) [
        | inl awaited ↦
            store_account-HasPool id acc i (received b d id p) h q (rw (awaited, take_account) at e)
        | inr unasked ↦
            let (stored, _, last) =
              >>=-inverse (get_account d b id acc (accounts b d p)) _ q
                (rw (unasked, take_account) at e) in
            elim (Bool-cases stored.1) [
              | inl known ↦ ok_subst HasPool p q (rw known at last) h
              | inr new ↦ store_account-HasPool id stored.0 i p h q (rw new at last)
            ]
      ]
