-- ===== src/Consensus/Wrapper/Tests.antt =====
-- A node with a pool of two transactions that executes a block with one of them, and what the theorem
-- says of it.
use pqblockchain.Prelude.{ℕ, ◌≡◌, true, refl, none, [], ◌∷◌, if◌then◌else◌}
use pqblockchain.Prelude.Map.{lookup}
use pqblockchain.Chain.Assign.{
  assign_account_hash, adopt, move_validations, rename_valid, share_header,
}
use pqblockchain.Block.{
  get_block_hash, body_size, get_size, serialize, serialize_body, serialize_header,
}
use pqblockchain.Serialize.{
  fresh, serialize_number, put, le_bytes, blob_bytes, contents, serialize_blob,
}
use pqblockchain.Merkle.{compute_merkle_root, compute_tx_set_merkle_root, hash_level, pad, reduce}
use pqblockchain.Storage.Blocks.{set_block, set_raw_block}
use pqblockchain.Transaction
use pqblockchain.Wallet.{add_to_balance, received_transaction, update_transaction}
use pqblockchain.Exceptions.{Result, ok, fault, throw}
use pqblockchain.Crypto.{Hash, SignAlgorithm}
use pqblockchain.Block.Tests.{small_block}
use pqblockchain.Transaction.Tests.{five_to_seven, nine_to_five}
use pqblockchain.Execution.{
  count_account_differences, set_balances_by_acc_diffs, collect, count_loop, load_sender,
  has_duplicate, settle, confirm, credit, debit, updated, drop_duplicates,
}
use pqblockchain.Execution.Tests.{memory_store, empty_wallet, three_accounts}
use pqblockchain.Storage.Tests.{memory_database, nothing_stored}
use pqblockchain.Chain.Tests.{small_chain, first_node}
use pqblockchain.Consensus.Wrapper.{
  ConsensusWrapper, execute_block, erase_transactions, get_accounts_merkle_root_hash, recount,
}
use pqblockchain.Consensus.Wrapper.Executed.{has_hash, execute_block-pool}

-- A signature is the key.
abbrev key_scheme : SignAlgorithm
key_scheme = record {
  sign = λ bytes key. ok key;
  verify = λ signature bytes key. true;
  public_key_size = 2;
  private_key_size = 2;
}

-- The first block has just become valid.
abbrev ready : ConsensusWrapper memory_store memory_database
ready = record {
  tx_pool = (11, five_to_seven) ∷ ((12, nine_to_five) ∷ []);
  chain = record small_chain { valid_block = first_node };
  sharers = 101 ∷ [];
  balances = three_accounts;
  blocks = nothing_stored;
  wallet = empty_wallet;
  message_requests = [];
}

abbrev returned :
    Result (ConsensusWrapper memory_store memory_database)
    → ConsensusWrapper memory_store memory_database
returned (ok w) = w
returned fault = ready
returned (throw _) = ready

abbrev constant : Hash
constant bytes = 105

abbrev afterwards : ConsensusWrapper memory_store memory_database
afterwards =
    returned
      (execute_block memory_store memory_database constant key_scheme (λ db. []) small_block ready)

executed :
    execute_block memory_store memory_database constant key_scheme (λ db. []) small_block ready
    ≡ ok afterwards
unfolding execute_block set_balances_by_acc_diffs collect count_account_differences count_loop
    load_sender has_duplicate settle confirm credit debit updated assign_account_hash get_block_hash
    fresh serialize_number put le_bytes body_size get_size serialize serialize_body serialize_header
    adopt move_validations rename_valid share_header erase_transactions
    get_accounts_merkle_root_hash recount drop_duplicates compute_merkle_root
    compute_tx_set_merkle_root hash_level pad reduce blob_bytes contents serialize_blob set_block
    set_raw_block Transaction.get_size Transaction.serialize add_to_balance received_transaction
    update_transaction
executed = refl

execute_block-pool_example :
    ((id : ℕ)
      → lookup id afterwards.tx_pool
        ≡ (if has_hash id small_block.tx_set then none else lookup id ready.tx_pool))
    × (set_balances_by_acc_diffs memory_store
          (count_account_differences three_accounts empty_wallet small_block.tx_set).acc_diffs
          three_accounts
        ≡ ok afterwards.balances)
execute_block-pool_example =
    execute_block-pool memory_store memory_database constant key_scheme (λ db. []) small_block ready
      afterwards (refl, (refl, tt)) executed
