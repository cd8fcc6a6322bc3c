-- ===== src/Consensus/Wrapper.antt =====
-- `class ConsensusWrapper` of src/Consensus/Consensus.cpp: what a round of the consensus asks of the
-- rest of the node, over the chain, the databases, the wallet and the requests to the connections.
-- Accounts and peers are named by their identifiers. The bytes of all balances in the order of their
-- keys, which an iterator of LevelDB reads, are a parameter.
pub mod Pool
pub mod Executed
pub mod Tests
use pqblockchain.Prelude.{
  ℕ, ◌+◌, ◌%◌, ◌^◌, Bool, true, false, Option, none, some, List, [], ◌∷◌, length, map, ◌==◌,
  if◌then◌else◌,
}
use pqblockchain.Prelude.Map.{Map}
use pqblockchain.Exceptions.{Result, ok, fault, ◌>>=◌}
use pqblockchain.Crypto.{Hash, SignAlgorithm}
use pqblockchain.Transaction.{Transaction}
use pqblockchain.Transaction.Set.{TransactionSet, insert}
use pqblockchain.Block.{Block, BlockHeader}
use pqblockchain.Block
use pqblockchain.Merkle.{compute_merkle_root, compute_tx_set_merkle_root}
use pqblockchain.Account.{BalanceStore}
use pqblockchain.Wallet.{Wallet}
use pqblockchain.Execution.{Run, count_account_differences, set_balances_by_acc_diffs}
use pqblockchain.Storage.{Database}
use pqblockchain.Storage.Blocks.{set_block}
use pqblockchain.Proposal.OfBlock.{BlockProposal}
use pqblockchain.Proposal.OfBlock
use pqblockchain.Proposal.OfTxSet.{TxSetProposal}
use pqblockchain.Proposal.OfTxSet
use pqblockchain.Chain.{Chain, update_valid_block}
use pqblockchain.Chain
use pqblockchain.Chain.Preferred.{get_preferred_block}
use pqblockchain.Chain.Assign.{assign_account_hash}
use pqblockchain.Message.{Message, new_message}
use pqblockchain.Message.Payloads
use pqblockchain.Message.Payloads.{
  construct_message_header, serialize_tx_set_proposal, serialize_block_proposal,
}
use pqblockchain.ConnectionManager.Requests.{
  RequestType, MessageRequest, no_name, add_message_request,
}
use pqblockchain.Consensus.State.{Wrapper}
use pqblockchain.Consensus.Agreement.{TransactionPool, remove_transaction_from_pool}

-- A message of the type for every peer.
abbrev pub to_everyone : Message → MessageRequest
to_everyone message = record {
  request_type = RequestType.broadcast;
  connection_id = 0;
  peer_id = no_name;
  message = message;
}

-- The header of a block without its account hash.
abbrev pub chain_header : BlockHeader → BlockHeader
chain_header h = record h { account_balance_merkle_root_hash = 0 }

-- `getCurrentTransactionSet`: all of the pool is inserted.
unfoldable pub current_transaction_set : TransactionPool → TransactionSet → TransactionSet
current_transaction_set [] set = set
current_transaction_set ((_, tx) ∷ pool) set = current_transaction_set pool (insert tx set)

-- The first loop of `executeBlock`.
unfoldable pub erase_transactions : TransactionSet → TransactionPool → TransactionPool
erase_transactions [] pool = pool
erase_transactions (tx ∷ set) pool =
    erase_transactions set (remove_transaction_from_pool tx.id_hash pool)

module _ (b : BalanceStore) (d : Database) where
  -- `class ConsensusWrapper`, with the requests of its connection manager.
  pub record ConsensusWrapper : Type 0 where
    pub tx_pool : TransactionPool
    pub chain : Chain
    pub sharers : List ℕ
    pub balances : BalanceStore.Db b
    pub blocks : Database.Db d
    pub wallet : Wallet
    pub message_requests : List MessageRequest

  module _ (sha512 : Hash) (s : SignAlgorithm)
      (stored_balances : BalanceStore.Db b → List (List ℕ)) where
    -- `getPreferred`: the depth of the tree is less than the number of its nodes.
    unfoldable pub get_preferred : ConsensusWrapper → Result (ℕ × BlockHeader)
    get_preferred w = do
      found ← get_preferred_block (length (w.chain).ch + 1) (w.chain).valid_block w.chain
      elim found [ none ↦ fault | some n ↦ ok (n.id, n.block) ]

    -- `share` of a proposal of a set.
    unfoldable pub share_tx_set :
        TxSetProposal → ConsensusWrapper → Result (TxSetProposal × ConsensusWrapper)
    unfolding add_message_request
    share_tx_set p w = do
      p ← OfTxSet.sign sha512 s (w.wallet).secret_key (record p { issuer = (w.wallet).wallet_id })
      size ← OfTxSet.get_size p
      m ←
          serialize_tx_set_proposal p
            (new_message (construct_message_header Payloads.tx_set_proposal size))
      ok (p, record w { message_requests = add_message_request (to_everyone m) w.message_requests })

    -- `share` of a proposal of a block.
    unfoldable pub share_block : BlockProposal → ConsensusWrapper → Result ConsensusWrapper
    unfolding add_message_request
    share_block p w = do
      p ← OfBlock.sign sha512 s (w.wallet).secret_key (record p { issuer = (w.wallet).wallet_id })
      size ← OfBlock.get_size p
      m ←
          serialize_block_proposal p
            (new_message (construct_message_header Payloads.block_proposal size))
      ok (record w { message_requests = add_message_request (to_everyone m) w.message_requests })

    -- The end of `addBlockProposalToChain` and of `addBlockHeaderToChain`.
    unfoldable pub put_into_chain :
        ℕ → BlockHeader → Bool → ℕ → ConsensusWrapper → Result (ConsensusWrapper × Bool)
    put_into_chain issuer header is_local curr_block_id w = do
      c ← Chain.insert sha512 issuer (chain_header header) is_local w.chain
      let (c', changed) = update_valid_block curr_block_id c
      ok (
        record w { chain = c'; sharers = if changed then curr_block_id ∷ [] else w.sharers },
        changed,
      )

    -- `addBlockProposalToChain`.
    unfoldable pub add_block_proposal_to_chain :
        BlockProposal → ℕ → ConsensusWrapper → Result (ConsensusWrapper × Bool)
    unfolding put_into_chain
    add_block_proposal_to_chain p curr_block_id w =
        put_into_chain p.issuer p.proposed_block_header false curr_block_id w

    -- `addBlockHeaderToChain`.
    unfoldable pub add_block_header_to_chain :
        Block → ℕ → ConsensusWrapper → Result (ConsensusWrapper × Bool)
    unfolding put_into_chain
    add_block_header_to_chain block curr_block_id w =
        put_into_chain (w.wallet).wallet_id block.block_header true curr_block_id w

    -- `AccountBalanceStorage::getAccountsMerkleRootHash`.
    unfoldable pub get_accounts_merkle_root_hash : BalanceStore.Db b → ℕ
    get_accounts_merkle_root_hash db = compute_merkle_root sha512 (map sha512 (stored_balances db))

    -- The block of `executeBlock` with the transactions that are left, whose number was `count`.
    unfoldable pub recount : ℕ → TransactionSet → Block → Result Block
    recount count kept block = do
      let left : Block = record block { block_body = record block.block_body { tx_set = kept } }
      elim (length kept == count) [
        | true ↦ ok left
        | false ↦ do
          let counted : Block = record left {
            block_header = record left.block_header {
              transactions_merkle_root_hash = compute_tx_set_merkle_root sha512 kept;
            };
            block_body = record left.block_body { transaction_count = length kept % 2 ^ 32 };
          }
          size ← Block.get_size counted
          ok (record counted {
            block_header = record counted.block_header { size = size % 2 ^ 32 };
          })
      ]

    -- `executeBlock`. The result of `setBlock` is ignored.
    unfoldable pub execute_block : Block → ConsensusWrapper → Result ConsensusWrapper
    unfolding erase_transactions recount get_accounts_merkle_root_hash
    execute_block block w = do
      let run : Run = count_account_differences (b.find w.balances) w.wallet block.tx_set
      balances ← set_balances_by_acc_diffs b run.acc_diffs w.balances
      counted ← recount (length block.tx_set) run.kept block
      let root : ℕ = get_accounts_merkle_root_hash balances
      (chain, sharers) ← assign_account_hash sha512 root w.sharers w.chain
      (blocks, _) ←
          set_block d sha512
            (record counted {
              block_header = record counted.block_header {
                account_balance_merkle_root_hash = root;
              };
            })
            w.blocks
      ok (record w {
        tx_pool = erase_transactions block.tx_set w.tx_pool;
        chain = chain;
        sharers = sharers;
        balances = balances;
        blocks = blocks;
        wallet = run.wallet;
      })

    -- The interface of a round, filled by `ConsensusWrapper`.
    unfoldable pub consensus_wrapper : Wrapper ConsensusWrapper
    consensus_wrapper = record {
      get_preferred = get_preferred;
      get_current_transaction_set = λ set w. current_transaction_set w.tx_pool set;
      get_unl_count = λ w. length (w.wallet).node_unl;
      share_tx_set = share_tx_set;
      share_block = share_block;
      add_block_proposal_to_chain = add_block_proposal_to_chain;
      add_block_header_to_chain = add_block_header_to_chain;
      execute_block = execute_block;
    }
