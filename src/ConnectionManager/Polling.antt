-- ===== src/ConnectionManager/Polling.antt =====
-- One round of `ConnectionManager::manageConnections` of src/Network/MessageManagement.cpp, and what
-- `MessageProcessor` does with a message before it is queued.
use pqblockchain.Prelude.{ℕ, Bool, true, false, Option, none, some, List, [], ◌∷◌, ◌==◌}
use pqblockchain.Prelude.Map.{Map, lookup, assign}
use pqblockchain.Prelude.Set.{contains}
use pqblockchain.Exceptions.{Result, ok, fault, ◌>>=◌}
use pqblockchain.Crypto.{Hash}
use pqblockchain.Connection.{Socket, receive_message}
use pqblockchain.Message.{Message}
use pqblockchain.Message.Payloads.{VersionData, version, type_number, deserialize_version}
use pqblockchain.Account.Addresses.{Addresses}
use pqblockchain.ConnectionManager.{
  ConnectionManager, notify_connection_version, accept_new_connection, set_connection, close_later,
  close_sockets,
}
use pqblockchain.ConnectionManager.Requests.{push}
use pqblockchain.ConnectionManager.Sending.{
  count_bytes, process_message_requests, process_connection_requests,
}

-- `message_item_t`.
pub record MessageItem : Type 0 where
  pub connection_id : ℕ
  pub peer_id : ℕ
  pub is_unl : Bool
  pub msg : Message

-- `ProcessingQueueComparator`.
abbrev pub item_priority : MessageItem → ℕ
item_priority i = ((i.msg).msg_hdr).message_type

-- The connections with their sockets, and the queue of the message processor.
pub record Traffic : Type 0 where
  pub manager : ConnectionManager
  pub sockets : Map Socket
  pub processing_queue : List MessageItem

-- `addMessageToProcessingQueue`.
unfoldable pub add_message_to_processing_queue : MessageItem → List MessageItem → List MessageItem
add_message_to_processing_queue i queue = push item_priority i queue

-- What the local node is: its version message, its name and the names on its UNL, and the digits of
-- an identifier as `getHex` writes them.
pub record LocalNode : Type 0 where
  pub version_data : VersionData
  pub name : ℕ
  pub unl : List ℕ
  pub get_hex : ℕ → ℕ

-- What a call of `poll` and the calls of the system behind it give: a client with its port and its
-- socket, the sockets with bytes to read, and the sockets that new connections open.
pub record PollResult : Type 0 where
  pub client : Option (ℕ × ℕ)
  pub ready : List ℕ
  pub attempts : List (Option ℕ)

module _ (sha512 : Hash) (get_addresses : ℕ → Option Addresses) (node : LocalNode) where
  -- `procVersionMessage`: every connection is accepted.
  unfoldable pub proc_version_message : MessageItem → ConnectionManager → Result ConnectionManager
  proc_version_message i m = do
    (v, _) ← deserialize_version i.msg
    notify_connection_version node.name node.unl i.connection_id (node.get_hex v.peer_id) true m

  -- `processMessage`, with `earlyProcessing`.
  unfoldable pub process_message : MessageItem → Traffic → Result Traffic
  unfolding proc_version_message add_message_to_processing_queue
  process_message i t = elim (item_priority i == type_number version) [
    | true ↦ do m ← proc_version_message i t.manager; ok (record t { manager = m })
    | false ↦
        ok (record t { processing_queue = add_message_to_processing_queue i t.processing_queue })
  ]

  -- `handleConnectionPoll`, with the step of the loop that notes a closed connection.
  unfoldable pub handle_connection_poll : ℕ → Traffic → Result Traffic
  unfolding process_message
  handle_connection_poll fd t = elim (lookup fd (t.manager).connection_pool) [
    | none ↦ ok t
    | some c ↦ elim (lookup fd t.sockets) [
      | none ↦ fault
      | some s ↦ do
        r ← receive_message sha512 c s
        let m : ConnectionManager = set_connection fd r.connection t.manager
        let read : Traffic = record t { manager = m; sockets = assign fd r.socket t.sockets }
        elim r.close_flag [
          | true ↦ ok (record read { manager = close_later fd m })
          | false ↦ elim r.received_message [
            | none ↦ ok read
            | some msg ↦
                process_message
                  (record {
                    connection_id = fd;
                    peer_id = (r.connection).conn_id;
                    is_unl = (r.connection).is_unl;
                    msg = msg;
                  })
                  (record read { manager = count_bytes msg m })
          ]
        ]
    ]
  ]

  -- The loop over the descriptors.
  unfoldable pub handle_ready : List ℕ → List ℕ → Traffic → Result Traffic
  unfolding handle_connection_poll
  handle_ready ready [] t = ok t
  handle_ready ready (fd ∷ fds) t = elim (contains fd ready) [
    | false ↦ handle_ready ready fds t
    | true ↦ do t ← handle_connection_poll fd t; handle_ready ready fds t
  ]

  -- `handleServerPoll`.
  unfoldable pub handle_server_poll : Option (ℕ × ℕ) → ConnectionManager → ConnectionManager
  handle_server_poll none m = m
  handle_server_poll (some (port, socket)) m = (accept_new_connection port socket m).0

  -- A round of `manageConnections` in which `poll` found something.
  unfoldable pub manage_round : PollResult → Traffic → Result Traffic
  unfolding handle_ready handle_server_poll
  manage_round p t = do
    let served : ConnectionManager = handle_server_poll p.client t.manager
    t ← handle_ready p.ready served.descriptors (record t { manager = served })
    let closed : ConnectionManager = close_sockets t.manager
    m ←
        process_connection_requests get_addresses node.version_data p.attempts
          (process_message_requests closed)
    ok (record t { manager = m })
