-- ===== src/MessageProcessor/State.antt =====
-- The state that the handlers of `MessageProcessor` (src/Network/MessageManagement.cpp) change, and
-- the requests that they make.
use pqblockchain.Prelude.{ℕ, List, [], ◌∷◌}
use pqblockchain.Prelude.Map.{Map}
use pqblockchain.Exceptions.{Result, ok, ◌>>=◌}
use pqblockchain.Account.{BalanceStore}
use pqblockchain.Storage.{Database}
use pqblockchain.Storage.Accounts.{Accounts}
use pqblockchain.Message.{Message, new_message}
use pqblockchain.Message.Payloads
use pqblockchain.Message.Payloads.{
  InvItem, construct_message_header, inv_payload_size, serialize_inventory, serialize_get_data,
}
use pqblockchain.ConnectionManager.Requests.{MessageRequest, add_message_request, one, broadcast}
use pqblockchain.ConnectionManager.Polling.{MessageItem}
use pqblockchain.Consensus.State.{Consensus}
use pqblockchain.Consensus.Wrapper.{ConsensusWrapper}

-- An answer to the sender of the item.
abbrev pub answer : MessageItem → Message → MessageRequest
answer i m = record {
  request_type = one;
  connection_id = i.connection_id;
  peer_id = i.peer_id;
  message = m;
}

-- `enum class InvType`.
abbrev pub inv_block : ℕ
inv_block = 0

abbrev pub inv_tx : ℕ
inv_tx = 1

abbrev pub inv_account : ℕ
inv_account = 2

module _ (b : BalanceStore) (d : Database) where
  -- `class MessageProcessor`, with the consensus and its wrapper. The databases of balances and of
  -- blocks and the requests to the connection manager are those of the wrapper.
  pub record Processor : Type 0 where
    pub consensus : Consensus
    pub wrapper : ConsensusWrapper b d
    pub address_db : Database.Db d
    pub block_inv_quorum : Map ℕ
    pub waiting_data : List ℕ

  -- `connMng->addMessageRequest`.
  unfoldable pub request : MessageRequest → Processor → Processor
  unfolding add_message_request
  request r p = record p {
    wrapper = record p.wrapper {
      message_requests = add_message_request r (p.wrapper).message_requests;
    };
  }

  -- `forwardInvMessage`: to everyone but the sender.
  unfoldable pub forward_inv_message : ℕ → ℕ → MessageItem → Processor → Result Processor
  unfolding request
  forward_inv_message id type i p = do
    m ←
        serialize_inventory (record { request_type = type; item_id = id } ∷ [])
          (new_message (construct_message_header Payloads.inv (inv_payload_size 1)))
    ok (
        request
          (record {
            request_type = broadcast;
            connection_id = i.connection_id;
            peer_id = i.peer_id;
            message = m;
          })
          p)

  -- The databases of accounts, as `AccountStorage` has them.
  abbrev pub accounts : Processor → Accounts d b
  accounts p = record { balances = (p.wrapper).balances; address_db = p.address_db }

  abbrev pub with_accounts : Accounts d b → Processor → Processor
  with_accounts a p = record p {
    wrapper = record p.wrapper { balances = a.balances };
    address_db = a.address_db;
  }
