-- ===== src/MessageProcessor/Inventories.antt =====
-- The handlers of `MessageProcessor` for inventories and requests for data, and `lateProcessing`:
-- src/Network/MessageManagement.cpp.
use pqblockchain.Prelude.{
  ℕ, ◌+◌, ◌*◌, ◌%◌, ◌^◌, Bool, true, false, none, some, List, [], ◌∷◌, length, leb, ◌==◌,
  if◌then◌else◌,
}
use pqblockchain.Prelude.Map.{lookup, assign}
use pqblockchain.Prelude.Set.{contains, include}
use pqblockchain.Exceptions.{Result, ok, ◌>>=◌}
use pqblockchain.Crypto.{Hash, SignAlgorithm}
use pqblockchain.Transaction
use pqblockchain.Transaction.Set.{TransactionSet}
use pqblockchain.Account.{BalanceStore}
use pqblockchain.Account.Addresses.{account_size}
use pqblockchain.Storage.{Database}
use pqblockchain.Storage.Blocks.{get_block, get_raw_block}
use pqblockchain.Storage.Accounts.{get_account}
use pqblockchain.Message.{Message, new_message, set_raw_data}
use pqblockchain.Message.Payloads.{
  InvItem, type_number, tx, block_proposal, tx_set_proposal, block, account, inv, getdata,
  construct_message_header, inv_payload_size, serialize_get_data, serialize_transaction,
  serialize_account_message, deserialize_inventory, deserialize_get_data,
}
use pqblockchain.ConnectionManager.Polling.{MessageItem, item_priority}
use pqblockchain.Consensus.Agreement.{is_transaction_in_pool, get_transaction_from_pool}
use pqblockchain.MessageProcessor.State.{
  Processor, inv_block, inv_tx, inv_account, request, answer, accounts,
}
use pqblockchain.MessageProcessor.Handlers.{
  new_account, proc_transaction_message, proc_block_proposal_message, proc_tx_set_proposal_message,
  proc_block_message, proc_account_message,
}

module _ (b : BalanceStore) (d : Database) where
  abbrev pub await : ℕ → Processor b d → Processor b d
  await id p = record p { waiting_data = include id p.waiting_data }

  -- `procInvTransaction`: whether the item is to be asked for.
  unfoldable pub proc_inv_transaction : ℕ → Processor b d → Processor b d × Bool
  proc_inv_transaction id p =
      if contains id p.waiting_data
      then (p, false)
      else if is_transaction_in_pool id (p.wrapper).tx_pool
      then (p, false)
      else (await id p, true)

  abbrev pub set_quorum : ℕ → ℕ → Processor b d → Processor b d
  set_quorum id count p = record p { block_inv_quorum = assign id count p.block_inv_quorum }

  -- A further inventory of a block that is not asked for yet. `count >= UNL.size() * 0.8`, a
  -- comparison of doubles that is exact for 32-bit counts.
  unfoldable pub count_inventory : ℕ → ℕ → Processor b d → Processor b d × Bool
  count_inventory id seen p =
      let count : ℕ = (seen + 1) % 2 ^ 32 in
      if leb (4 * length ((p.wrapper).wallet).node_unl) (5 * count)
      then (set_quorum id 0 p, true)
      else (set_quorum id count p, false)

  -- `procInvBlock`. A count of zero is that of a block that has been asked for.
  unfoldable pub proc_inv_block : ℕ → Processor b d → Result (Processor b d × Bool)
  unfolding count_inventory
  proc_inv_block id p = elim (lookup id p.block_inv_quorum) [
    | some seen ↦ ok (if seen == 0 then (p, false) else count_inventory id seen p)
    | none ↦ do
      stored ← get_block d id (p.wrapper).blocks
      elim stored [ some _ ↦ ok (p, false) | none ↦ ok (set_quorum id 1 p, false) ]
  ]

  -- `procInvAccount`.
  unfoldable pub proc_inv_account : ℕ → Processor b d → Result (Processor b d × Bool)
  proc_inv_account id p = elim (contains id p.waiting_data) [
    | true ↦ ok (p, false)
    | false ↦ do
      (_, found) ← get_account d b id new_account (accounts b d p)
      if found then ok (p, false) else ok (await id p, true)
  ]

  -- One item of an inventory.
  unfoldable pub proc_inv_item : InvItem → Processor b d → Result (Processor b d × Bool)
  unfolding proc_inv_transaction proc_inv_block proc_inv_account
  proc_inv_item item p =
      if item.request_type == inv_tx
      then ok (proc_inv_transaction item.item_id p)
      else if item.request_type == inv_block
      then proc_inv_block item.item_id p
      else if item.request_type == inv_account
      then proc_inv_account item.item_id p
      else ok (p, false)

  -- The loop of `procInvMessage`: the items that are to be asked for.
  unfoldable pub proc_inv_items :
      List InvItem → Processor b d → Result (Processor b d × List InvItem)
  unfolding proc_inv_item
  proc_inv_items [] p = ok (p, [])
  proc_inv_items (item ∷ items) p = do
    (p, wanted) ← proc_inv_item item p
    (p, rest) ← proc_inv_items items p
    ok (p, if wanted then item ∷ rest else rest)

  -- `procInvMessage`, from the items on: they are asked for in one message.
  unfoldable pub take_inventory :
      List InvItem → MessageItem → Processor b d → Result (Processor b d)
  unfolding proc_inv_items request
  take_inventory items i p = do
    (p, wanted) ← proc_inv_items items p
    elim (length wanted == 0) [
      | true ↦ ok p
      | false ↦ do
        m ←
            serialize_get_data wanted
              (new_message (construct_message_header getdata (inv_payload_size (length wanted))))
        ok (request b d (answer i m) p)
    ]

  -- `procInvMessage`.
  unfoldable pub proc_inv_message : MessageItem → Processor b d → Result (Processor b d)
  unfolding take_inventory
  proc_inv_message i p = do (items, _) ← deserialize_inventory i.msg; take_inventory items i p

  -- `procGetTransaction`.
  unfoldable pub proc_get_transaction : ℕ → MessageItem → Processor b d → Result (Processor b d)
  unfolding request
  proc_get_transaction id i p = elim (get_transaction_from_pool id (p.wrapper).tx_pool) [
    | none ↦ ok p
    | some t ↦ do
      size ← Transaction.get_size t
      m ← serialize_transaction t (new_message (construct_message_header tx size))
      ok (request b d (answer i m) p)
  ]

  -- `procGetBlock`.
  unfoldable pub proc_get_block : ℕ → MessageItem → Processor b d → Processor b d
  unfolding request
  proc_get_block id i p =
      let (raw, found) = get_raw_block d id (p.wrapper).blocks [] in
      elim found [
        | false ↦ p
        | true ↦
            let m : Message = new_message (construct_message_header block (length raw)) in
            request b d (answer i (set_raw_data raw m)) p
      ]

  -- `procGetAccount`, by the size of a public key.
  unfoldable pub proc_get_account : ℕ → ℕ → MessageItem → Processor b d → Result (Processor b d)
  unfolding request
  proc_get_account key_size id i p = do
    (acc, found) ← get_account d b id new_account (accounts b d p)
    elim found [
      | false ↦ ok p
      | true ↦ do
        m ←
            serialize_account_message key_size acc
              (new_message (construct_message_header account (account_size key_size acc)))
        ok (request b d (answer i m) p)
    ]

  -- One item of a request for data.
  unfoldable pub answer_item : ℕ → InvItem → MessageItem → Processor b d → Result (Processor b d)
  unfolding proc_get_transaction proc_get_block proc_get_account
  answer_item key_size item i p =
      if item.request_type == inv_tx
      then proc_get_transaction item.item_id i p
      else if item.request_type == inv_block
      then ok (proc_get_block item.item_id i p)
      else if item.request_type == inv_account
      then proc_get_account key_size item.item_id i p
      else ok p

  -- The loop of `procGetDataMessage`.
  unfoldable pub answer_items :
      ℕ → List InvItem → MessageItem → Processor b d → Result (Processor b d)
  unfolding answer_item
  answer_items key_size [] i p = ok p
  answer_items key_size (item ∷ items) i p = do
    p ← answer_item key_size item i p
    answer_items key_size items i p

  -- `procGetDataMessage`.
  unfoldable pub proc_get_data_message : ℕ → MessageItem → Processor b d → Result (Processor b d)
  unfolding answer_items
  proc_get_data_message key_size i p = do
    (items, _) ← deserialize_get_data i.msg
    answer_items key_size items i p

  -- `lateProcessing`.
  unfoldable pub late_processing :
      Hash
      → SignAlgorithm
      → ℕ
      → (BalanceStore.Db b → List (List ℕ))
      → (TransactionSet → TransactionSet → TransactionSet)
      → MessageItem
      → Processor b d
      → Result (Processor b d)
  unfolding proc_inv_message proc_get_data_message
  late_processing sha512 s key_size stored_balances difference i p =
      let type : ℕ = item_priority i in
      if type == type_number tx
      then proc_transaction_message b d s i p
      else if type == type_number block_proposal
      then proc_block_proposal_message b d sha512 s stored_balances difference i p
      else if type == type_number tx_set_proposal
      then proc_tx_set_proposal_message b d sha512 s stored_balances difference i p
      else if type == type_number block
      then proc_block_message b d sha512 i p
      else if type == type_number account
      then proc_account_message b d sha512 key_size i p
      else if type == type_number inv
      then proc_inv_message i p
      else if type == type_number getdata
      then proc_get_data_message key_size i p
      else ok p
