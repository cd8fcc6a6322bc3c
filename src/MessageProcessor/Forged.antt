-- ===== src/MessageProcessor/Forged.antt =====
-- Accounts from the network: `procAccountMessage` of src/Network/MessageManagement.cpp.
use pqblockchain.Prelude.{
  ℕ, ◌≡◌, ◌⊎◌, refl, sym, ap, ◌∙◌, inl, inr, true, false, none, some, [], ◌∷◌, Bool-cases, if_both,
  eq→==,
}
use pqblockchain.Prelude.Set.{contains}
use pqblockchain.Exceptions.{ok, Ensures, >>=-inverse, ok_subst}
use pqblockchain.Crypto.{Hash}
use pqblockchain.Account.{AccountBalance, BalanceStore}
use pqblockchain.Account.Addresses.{Account, get_account_id}
use pqblockchain.Storage.{Database}
use pqblockchain.Storage.Accounts.{set_balance, get_account, set_account, set_addresses}
use pqblockchain.Message.Payloads.{serialize_inventory}
use pqblockchain.ConnectionManager.Polling.{MessageItem}
use pqblockchain.MessageProcessor.State.{
  Processor, inv_account, request, forward_inv_message, accounts, with_accounts,
}
use pqblockchain.MessageProcessor.Handlers.{received, store_account, take_account}

module _ (b : BalanceStore) (d : Database) where
  forward_inv_message-balances :
      (id type : ℕ) (i : MessageItem) (p : Processor b d)
      → Ensures
          (λ q. (q.wrapper).balances ≡ (p.wrapper).balances)
          (forward_inv_message b d id type i p)
  unfolding forward_inv_message request
  forward_inv_message-balances id type i p q e =
      let (m, _, last) = >>=-inverse (serialize_inventory _ _) _ q e in
      ok_subst (λ r. (r.wrapper).balances ≡ (p.wrapper).balances) _ q last refl

  set_balance-find :
      (id : ℕ) (acc : AccountBalance) (old db : BalanceStore.Db b)
      → b.write ((id, acc) ∷ []) old ≡ some db
      → b.find (set_balance d b id acc old).0 id ≡ some acc
  unfolding set_balance
  set_balance-find id acc old db done =
      rw (done, set_balance)
        (b.find-write ((id, acc) ∷ []) old db id (refl, tt) done ∙ rw (eq→== id id refl) refl)

  get_account_id-balance :
      (sha512 : Hash) (a : Account)
      → (get_account_id sha512 a).0.account_balance ≡ a.account_balance
  unfolding get_account_id
  get_account_id-balance sha512 a =
      if_both (λ (r : Account × ℕ). r.0.account_balance ≡ a.account_balance) _ _ _ refl refl

  store_account-balance :
      (id : ℕ) (acc : Account) (i : MessageItem) (p : Processor b d) (db : BalanceStore.Db b)
      → b.write ((id, acc.account_balance) ∷ []) (p.wrapper).balances ≡ some db
      → Ensures
          (λ q. b.find (q.wrapper).balances id ≡ some acc.account_balance)
          (store_account b d id acc i p)
  unfolding store_account set_account
  store_account-balance id acc i p db done q e =
      let (written, set, last) = >>=-inverse (set_account d b id acc (accounts b d p)) _ q e in
      let (addresses, _, kept) =
        >>=-inverse (set_addresses d id acc.addresses p.address_db) _ written
          (rw (done, set_account) at set) in
      let stored : b.find (written.0).balances id ≡ some acc.account_balance =
        ok_subst (λ x. b.find (x.0).balances id ≡ some acc.account_balance) _ written kept
          (set_balance-find id acc.account_balance (p.wrapper).balances db done) in
      ap (λ x. b.find x id)
        (forward_inv_message-balances id inv_account i (with_accounts b d written.0 p) q last)
      ∙ stored

  -- An account from the network is not checked: where its identifier is awaited, or the database has
  -- no balance for it, `procAccountMessage` stores the balance that the peer has sent, whatever it is,
  -- if the database takes it. An awaited account loses the balance that it had.
  pub take_account-stored :
      (sha512 : Hash) (a : Account) (i : MessageItem) (p q : Processor b d) (db : BalanceStore.Db b)
      → let id : ℕ = (get_account_id sha512 a).1 in
        (contains id p.waiting_data ≡ true) ⊎ (b.find (p.wrapper).balances id ≡ none)
        → b.write ((id, a.account_balance) ∷ []) (p.wrapper).balances ≡ some db
        → take_account b d sha512 a i p ≡ ok q
        → b.find (q.wrapper).balances id ≡ some a.account_balance
  unfolding take_account get_account
  take_account-stored sha512 a i p q db open_way done e =
      let acc : Account = (get_account_id sha512 a).0 in
      let id : ℕ = (get_account_id sha512 a).1 in
      let same = get_account_id-balance sha512 a in
      let writes : b.write ((id, acc.account_balance) ∷ []) (p.wrapper).balances ≡ some db =
        rw same done in
      elim (Bool-cases (contains id p.waiting_data)) [
        | inl awaited ↦
            store_account-balance id acc i (received b d id p) db writes q
              (rw (awaited, take_account) at e)
            ∙ ap some same
        | inr unasked ↦ elim open_way [
          | inl awaited ↦ absurd (let no : false ≡ true = sym unasked ∙ awaited in cc)
          | inr unknown ↦
              store_account-balance id acc i p db writes q
                (rw (unknown, get_account) at (rw (unasked, take_account) at e))
              ∙ ap some same
        ]
      ]
