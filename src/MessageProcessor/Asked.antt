-- ===== src/MessageProcessor/Asked.antt =====
-- What inventories and requests for data do to the node: src/Network/MessageManagement.cpp.
use pqblockchain.Prelude.{
  ℕ, ◌≡◌, refl, inl, inr, Bool, true, false, List, [], ◌∷◌, ◌==◌, leb, ◌*◌, ◌+◌, ◌%◌, ◌^◌, length,
  Bool-cases, Option-cases, if_both, All,
}
use pqblockchain.Prelude.Map.{lookup}
use pqblockchain.Prelude.Set.{contains}
use pqblockchain.Exceptions.{Result, ok, Ensures, Ensures-ok, >>=-inverse, ok_subst}
use pqblockchain.Transaction
use pqblockchain.Transaction.{Transaction}
use pqblockchain.Account.{BalanceStore}
use pqblockchain.Storage.{Database}
use pqblockchain.Storage.Blocks.{get_block, get_raw_block-false}
use pqblockchain.Storage.Accounts.{get_account}
use pqblockchain.Message.Payloads.{
  InvItem, serialize_get_data, serialize_transaction, serialize_account_message,
}
use pqblockchain.ConnectionManager.Polling.{MessageItem}
use pqblockchain.Consensus.Agreement.{is_transaction_in_pool, get_transaction_from_pool}
use pqblockchain.MessageProcessor.State.{
  Processor, inv_tx, inv_block, inv_account, request, accounts,
}
use pqblockchain.MessageProcessor.Handlers.{new_account}
use pqblockchain.MessageProcessor.Inventories.{
  await, set_quorum, proc_inv_transaction, count_inventory, proc_inv_block, proc_inv_account,
  proc_inv_item, proc_inv_items, take_inventory, proc_get_transaction, proc_get_block,
  proc_get_account, answer_item, answer_items,
}
use pqblockchain.MessageProcessor.Kept.{HasPool}

module _ (b : BalanceStore) (d : Database) where
  proc_get_block-same :
      (id : ℕ) (i : MessageItem) (p : Processor b d) → proc_get_block b d id i p ≡ p
  unfolding proc_get_block
  proc_get_block-same id i p =
      rw (get_raw_block-false d id (p.wrapper).blocks [], proc_get_block) refl

  -- No block is ever sent: a request for blocks, whichever they are and whatever the database holds,
  -- is read to its end and answered by no message, and nothing changes.
  pub answer_items-blocks :
      (key_size : ℕ) (items : List InvItem) (i : MessageItem) (p : Processor b d)
      → All (λ item. item.request_type ≡ inv_block) items
      → answer_items b d key_size items i p ≡ ok p
  unfolding answer_items answer_item
  answer_items-blocks key_size [] i p all = refl
  answer_items-blocks key_size (item ∷ items) i p all =
      rw (all.0)
        (rw (proc_get_block-same item.item_id i p) (answer_items-blocks key_size items i p all.1))

  module _ (Q : Transaction → Type 0) where
    abbrev KeepsPool : Result (Processor b d × Bool) → Type 0
    KeepsPool m = Ensures (λ r. HasPool Q b d r.0) m

    proc_inv_block-HasPool :
        (id : ℕ) (p : Processor b d) → HasPool Q b d p → KeepsPool (proc_inv_block b d id p)
    unfolding proc_inv_block count_inventory
    proc_inv_block-HasPool id p h = elim (Option-cases (lookup id p.block_inv_quorum)) [
      | inl new ↦ λ r e.
          let (stored, _, last) =
            >>=-inverse (get_block d id (p.wrapper).blocks) _ r (rw (new, proc_inv_block) at e) in
          elim (Option-cases stored) [
            | inl unknown ↦ ok_subst (λ x. HasPool Q b d x.0) _ r (rw unknown at last) h
            | inr (block, there) ↦ ok_subst (λ x. HasPool Q b d x.0) _ r (rw there at last) h
          ]
      | inr (seen, counted) ↦
          let count : ℕ = (seen + 1) % 2 ^ 32 in
          rw (counted, proc_inv_block)
            (Ensures-ok (λ x. HasPool Q b d x.0) _
              (if_both (λ (x : Processor b d × Bool). HasPool Q b d x.0) (seen == 0) (p, false) _ h
                (if_both (λ (x : Processor b d × Bool). HasPool Q b d x.0)
                  (leb (4 * length ((p.wrapper).wallet).node_unl) (5 * count))
                  (set_quorum b d id 0 p, true) (set_quorum b d id count p, false) h h)))
    ]

    proc_inv_account-HasPool :
        (id : ℕ) (p : Processor b d) → HasPool Q b d p → KeepsPool (proc_inv_account b d id p)
    unfolding proc_inv_account
    proc_inv_account-HasPool id p h = elim (Bool-cases (contains id p.waiting_data)) [
      | inl awaited ↦
          rw (awaited, proc_inv_account) (Ensures-ok (λ x. HasPool Q b d x.0) (p, false) h)
      | inr new ↦ λ r e.
          let (found, _, last) =
            >>=-inverse (get_account d b id new_account (accounts b d p)) _ r
              (rw (new, proc_inv_account) at e) in
          elim (Bool-cases found.1) [
            | inl there ↦ ok_subst (λ x. HasPool Q b d x.0) _ r (rw there at last) h
            | inr unknown ↦ ok_subst (λ x. HasPool Q b d x.0) _ r (rw unknown at last) h
          ]
    ]

    proc_inv_transaction-HasPool :
        (id : ℕ) (p : Processor b d)
        → HasPool Q b d p
        → HasPool Q b d (proc_inv_transaction b d id p).0
    unfolding proc_inv_transaction
    proc_inv_transaction-HasPool id p h =
        if_both (λ (x : Processor b d × Bool). HasPool Q b d x.0) (contains id p.waiting_data)
          (p, false) _ h
          (if_both (λ (x : Processor b d × Bool). HasPool Q b d x.0)
            (is_transaction_in_pool id (p.wrapper).tx_pool) (p, false) (await b d id p, true) h h)

    proc_inv_item-HasPool :
        (item : InvItem) (p : Processor b d)
        → HasPool Q b d p
        → KeepsPool (proc_inv_item b d item p)
    unfolding proc_inv_item
    proc_inv_item-HasPool item p h =
        if_both KeepsPool (item.request_type == inv_tx) _ _
          (Ensures-ok (λ x. HasPool Q b d x.0) (proc_inv_transaction b d item.item_id p)
            (proc_inv_transaction-HasPool item.item_id p h))
          (if_both KeepsPool (item.request_type == inv_block) _ _
            (proc_inv_block-HasPool item.item_id p h)
            (if_both KeepsPool (item.request_type == inv_account) _ _
              (proc_inv_account-HasPool item.item_id p h)
              (Ensures-ok (λ x. HasPool Q b d x.0) (p, false) h)))

    proc_inv_items-HasPool :
        (items : List InvItem) (p : Processor b d)
        → HasPool Q b d p
        → Ensures (λ r. HasPool Q b d r.0) (proc_inv_items b d items p)
    unfolding proc_inv_items
    proc_inv_items-HasPool [] p h r e = ok_subst (λ x. HasPool Q b d x.0) (p, []) r e h
    proc_inv_items-HasPool (item ∷ items) p h r e =
        let (first, done, e1) = >>=-inverse (proc_inv_item b d item p) _ r e in
        let (rest, later, last) = >>=-inverse (proc_inv_items b d items first.0) _ r e1 in
        ok_subst (λ x. HasPool Q b d x.0) _ r last
          (proc_inv_items-HasPool items first.0 (proc_inv_item-HasPool item p h first done) rest
            later)

    pub take_inventory-HasPool :
        (items : List InvItem) (i : MessageItem) (p : Processor b d)
        → HasPool Q b d p
        → Ensures (HasPool Q b d) (take_inventory b d items i p)
    unfolding take_inventory request
    take_inventory-HasPool items i p h q e =
        let (r, done, e1) = >>=-inverse (proc_inv_items b d items p) _ q e in
        let kept = proc_inv_items-HasPool items p h r done in
        elim (Bool-cases (length r.1 == 0)) [
          | inl nothing ↦ ok_subst (HasPool Q b d) r.0 q (rw nothing at e1) kept
          | inr wanted ↦
              let (m, _, last) = >>=-inverse (serialize_get_data r.1 _) _ q (rw wanted at e1) in
              ok_subst (HasPool Q b d) _ q last kept
        ]

    proc_get_transaction-HasPool :
        (id : ℕ) (i : MessageItem) (p : Processor b d)
        → HasPool Q b d p
        → Ensures (HasPool Q b d) (proc_get_transaction b d id i p)
    unfolding proc_get_transaction request
    proc_get_transaction-HasPool id i p h =
        elim (Option-cases (get_transaction_from_pool id (p.wrapper).tx_pool)) [
          | inl absent ↦ rw (absent, proc_get_transaction) (Ensures-ok (HasPool Q b d) p h)
          | inr (t, there) ↦ λ q e.
              let (size, _, e1) =
                >>=-inverse (Transaction.get_size t) _ q (rw (there, proc_get_transaction) at e) in
              let (m, _, last) = >>=-inverse (serialize_transaction t _) _ q e1 in
              ok_subst (HasPool Q b d) _ q last h
        ]

    proc_get_account-HasPool :
        (key_size id : ℕ) (i : MessageItem) (p : Processor b d)
        → HasPool Q b d p
        → Ensures (HasPool Q b d) (proc_get_account b d key_size id i p)
    unfolding proc_get_account request
    proc_get_account-HasPool key_size id i p h q e =
        let (found, _, e1) = >>=-inverse (get_account d b id new_account (accounts b d p)) _ q e in
        elim (Bool-cases found.1) [
          | inr absent ↦ ok_subst (HasPool Q b d) p q (rw absent at e1) h
          | inl there ↦
              let (m, _, last) =
                >>=-inverse (serialize_account_message key_size found.0 _) _ q (rw there at e1) in
              ok_subst (HasPool Q b d) _ q last h
        ]

    answer_item-HasPool :
        (key_size : ℕ) (item : InvItem) (i : MessageItem) (p : Processor b d)
        → HasPool Q b d p
        → Ensures (HasPool Q b d) (answer_item b d key_size item i p)
    unfolding answer_item
    answer_item-HasPool key_size item i p h =
        if_both (Ensures (HasPool Q b d)) (item.request_type == inv_tx) _ _
          (proc_get_transaction-HasPool item.item_id i p h)
          (if_both (Ensures (HasPool Q b d)) (item.request_type == inv_block) _ _
            (rw (proc_get_block-same item.item_id i p) (Ensures-ok (HasPool Q b d) p h))
            (if_both (Ensures (HasPool Q b d)) (item.request_type == inv_account) _ _
              (proc_get_account-HasPool key_size item.item_id i p h)
              (Ensures-ok (HasPool Q b d) p h)))

    pub answer_items-HasPool :
        (key_size : ℕ) (items : List InvItem) (i : MessageItem) (p : Processor b d)
        → HasPool Q b d p
        → Ensures (HasPool Q b d) (answer_items b d key_size items i p)
    unfolding answer_items
    answer_items-HasPool key_size [] i p h q e = ok_subst (HasPool Q b d) p q e h
    answer_items-HasPool key_size (item ∷ items) i p h q e =
        let (r, done, later) = >>=-inverse (answer_item b d key_size item i p) _ q e in
        answer_items-HasPool key_size items i r (answer_item-HasPool key_size item i p h r done) q
          later
