-- ===== src/MessageProcessor/Tests.antt =====
-- Three accounts, a signature scheme that can be computed by hand, and what the theorems say of them.
use pqblockchain.Prelude.{
  List, Bool, true, false, ltb, ℕ, ◌*◌, ◌≤◌, ◌<◌, ◌≡◌, ◌⊎◌, ◌≢◌, inl, refl, Option, none, some, [],
  ◌∷◌, ◌==◌, length, if◌then◌else◌, arith,
}
use pqblockchain.Prelude.Map.{lookup}
use pqblockchain.Exceptions.{Result, ok, fault, throw}
use pqblockchain.Crypto.{SignAlgorithm}
use pqblockchain.Serialize.{
  fresh, serialize_number, put, le_bytes, serialize_blob, blob_bytes, contents,
}
use pqblockchain.Transaction
use pqblockchain.Transaction.{Transaction, check_transaction_structure}
use pqblockchain.Transaction.Set.{find}
use pqblockchain.Transaction.Tests.{five_to_seven}
use pqblockchain.Chain.{genesis_node}
use pqblockchain.Account.{AccountBalance, BalanceStore, or_stored}
use pqblockchain.Account.Addresses.{Account, get_account_id, serialize_account_address}
use pqblockchain.Execution.{Differences, count_account_differences}
use pqblockchain.Execution.Loop.{Accounts, IsPayable}
use pqblockchain.Execution.Tests.{memory_store, empty_wallet}
use pqblockchain.Storage.Tests.{memory_database, nothing_stored}
use pqblockchain.Storage.Blocks.{get_block}
use pqblockchain.Storage.Accounts.{set_account}
use pqblockchain.Message.{Message, new_message, serialize_with}
use pqblockchain.Message.Payloads
use pqblockchain.Message.Payloads.{
  serialize_transaction, InvItem, serialize_inventory, construct_message_header,
}
use pqblockchain.ConnectionManager.Polling.{MessageItem}
use pqblockchain.Consensus.State.{new_consensus}
use pqblockchain.Consensus.Wrapper.{current_transaction_set}
use pqblockchain.MessageProcessor.{check_transaction}
use pqblockchain.MessageProcessor.Checks.{check_transaction-IsPayable}
use pqblockchain.MessageProcessor.State.{Processor, inv_block, forward_inv_message}
use pqblockchain.MessageProcessor.Handlers.{take_account}
use pqblockchain.MessageProcessor.Inventories.{answer_items, late_processing}
use pqblockchain.MessageProcessor.Asked.{answer_items-blocks}
use pqblockchain.MessageProcessor.Announced.{announced, unl_size, proc_inv_block_announced}
use pqblockchain.MessageProcessor.Forged.{take_account-stored}

-- A signature is valid if it has the length of the key.
abbrev pub length_scheme : SignAlgorithm
length_scheme = record {
  sign = λ bytes key. ok key;
  verify = λ signature bytes key. length signature == length key;
  public_key_size = 2;
  private_key_size = 2;
}

abbrev pub two_accounts : ℕ → Option AccountBalance
two_accounts id =
    if id == 5
    then some (record { public_key = 1 ∷ (2 ∷ []); balance = 10; tx_sequence = 0 })
    else if id == 7
    then some (record { public_key = 3 ∷ (4 ∷ []); balance = 20; tx_sequence = 0 })
    else none

five_to_seven_accepted : check_transaction two_accounts length_scheme five_to_seven ≡ true
unfolding check_transaction check_transaction_structure Transaction.verify
five_to_seven_accepted = refl

check_transaction-IsPayable_example :
    IsPayable two_accounts five_to_seven
    × (five_to_seven.sender_wallet_address ≢ five_to_seven.receiver_wallet_address)
    × ((acc : AccountBalance) × (two_accounts 5 ≡ some acc)
        × (Transaction.verify length_scheme acc.public_key five_to_seven ≡ true))
check_transaction-IsPayable_example =
    check_transaction-IsPayable two_accounts length_scheme five_to_seven five_to_seven_accepted
      (omega arith)

-- A node that trusts two others and has received nothing.
abbrev listening : Processor memory_store memory_database
listening = record {
  consensus = new_consensus 100 0;
  wrapper = record {
    tx_pool = [];
    chain = record {
      ch = (100, genesis_node 100) ∷ [];
      valid_block = genesis_node 100;
      unl_count = 2;
      validations = [];
    };
    sharers = [];
    balances = two_accounts;
    blocks = nothing_stored;
    wallet = record empty_wallet { node_unl = 31 ∷ (32 ∷ []) };
    message_requests = [];
  };
  address_db = nothing_stored;
  block_inv_quorum = [];
  waiting_data = 9 ∷ [];
}

-- A message from the peer 31.
abbrev item : MessageItem
item = record {
  connection_id = 4;
  peer_id = 31;
  is_unl = true;
  msg = new_message (construct_message_header Payloads.inv 0);
}

answer_items-blocks_example :
    answer_items memory_store memory_database 2
      (record { request_type = inv_block; item_id = 8 } ∷ [])
      item
      listening
    ≡ ok listening
answer_items-blocks_example =
    answer_items-blocks memory_store memory_database 2
      (record { request_type = inv_block; item_id = 8 } ∷ []) item listening (refl, tt)

proc_inv_block_announced_example :
    (2 ≤ 3
      → 4 * unl_size memory_store memory_database 8 listening ≤ 5 * 3
      → (q : Processor memory_store memory_database) × (announced memory_store memory_database 8 3
            listening
          ≡ ok (q, 1))
        × (lookup 8 q.block_inv_quorum ≡ some 0))
    × ((3 < 2) ⊎ (5 * 3 < 4 * unl_size memory_store memory_database 8 listening)
        → (q : Processor memory_store memory_database) × (announced memory_store memory_database 8 3
              listening
            ≡ ok (q, 0)))
unfolding get_block
proc_inv_block_announced_example =
    proc_inv_block_announced memory_store memory_database 8 3 listening refl refl (omega arith)

abbrev returned :
    Result (Processor memory_store memory_database) → Processor memory_store memory_database
returned (ok p) = p
returned fault = listening
returned (throw _) = listening

-- The account 9, which the node waits for, with a balance of a thousand.
abbrev rich_account : Account
rich_account = record {
  account_balance = record { public_key = 5 ∷ (6 ∷ []); balance = 1000; tx_sequence = 0 };
  addresses = [];
  id = 9;
}

abbrev taken : Processor memory_store memory_database
taken =
    returned (take_account memory_store memory_database (λ bytes. 9) rich_account item listening)

taken_account :
    take_account memory_store memory_database (λ bytes. 9) rich_account item listening ≡ ok taken
unfolding take_account fresh serialize_number put le_bytes serialize_blob blob_bytes contents
    get_account_id set_account serialize_account_address forward_inv_message serialize_inventory
    serialize_with
taken_account = refl

take_account-stored_example :
    memory_store.find (taken.wrapper).balances 9 ≡ some rich_account.account_balance
unfolding get_account_id
take_account-stored_example =
    take_account-stored memory_store memory_database (λ bytes. 9) rich_account item listening taken
      (λ k. or_stored (lookup k ((9, rich_account.account_balance) ∷ [])) (two_accounts k))
      (inl refl) refl taken_account

-- The message of a transaction, as `serialize_transaction` writes it.
abbrev transaction_message : Message
transaction_message =
    message_of
      (serialize_transaction five_to_seven (new_message (construct_message_header Payloads.tx 218)))
  where
    message_of : Result Message → Message
    message_of (ok m) = m
    message_of _ = new_message (construct_message_header Payloads.tx 0)

abbrev transaction_item : MessageItem
transaction_item = record item { msg = transaction_message }

abbrev are_bytes : List ℕ → Bool
are_bytes [] = true
are_bytes (x ∷ xs) = if ltb x 256 then are_bytes xs else false

abbrev pooled : Processor memory_store memory_database
pooled = returned (
    late_processing memory_store memory_database (λ bytes. 9) length_scheme 2 (λ db. []) (λ a c. a)
      transaction_item listening)

abbrev executed : BalanceStore.Db memory_store → Differences
executed db =
    (count_account_differences db (pooled.wrapper).wallet
      (current_transaction_set (pooled.wrapper).tx_pool [])).acc_diffs
