-- ===== src/ConnectionManager/Sending.antt =====
-- What `ConnectionManager` of src/Network/MessageManagement.cpp does with the requests of the queues.
use pqblockchain.Prelude.{
  ℕ, ◌+◌, ◌%◌, ◌^◌, not, ◌&&◌, Option, none, some, List, [], ◌∷◌, ◌++◌, length, ◌==◌, if◌then◌else◌,
}
use pqblockchain.Prelude.Map.{Map, lookup}
use pqblockchain.Exceptions.{Result, ok, ◌>>=◌}
use pqblockchain.Connection.{Connection}
use pqblockchain.Message.{Message}
use pqblockchain.Message.Payloads.{VersionData}
use pqblockchain.Account.Addresses.{Addresses}
use pqblockchain.ConnectionManager.{ConnectionManager, create_new_connection}
use pqblockchain.ConnectionManager.Requests.{
  MessageRequest, ConnectionRequest, one, broadcast, unlcast,
}

abbrev pub sends : Message → List ℕ → List (ℕ × Message)
sends message [] = []
sends message (socket ∷ sockets) = (socket, message) ∷ sends message sockets

-- `sendMessageToPeer`: the sockets on which the message goes out.
unfoldable pub send_message_to_peer : ℕ → ℕ → Map Connection → List ℕ
send_message_to_peer socket peer pool = elim (lookup socket pool) [
  | none ↦ []
  | some c ↦ if (c.conn_id == peer) && c.is_confirmed then socket ∷ [] else []
]

-- `broadcastMessageToAllPeers`: to every confirmed connection but that of the sender.
unfoldable pub broadcast_message_to_all_peers : ℕ → ℕ → Map Connection → List ℕ
broadcast_message_to_all_peers socket peer [] = []
broadcast_message_to_all_peers socket peer ((to, c) ∷ pool) =
    let others = broadcast_message_to_all_peers socket peer pool in
    if c.is_confirmed && (not (to == socket) && not (c.conn_id == peer))
    then to ∷ others
    else others

-- `broadcastMessageToUNLPeers`.
unfoldable pub broadcast_message_to_unl_peers : ℕ → ℕ → Map Connection → List ℕ
broadcast_message_to_unl_peers socket peer [] = []
broadcast_message_to_unl_peers socket peer ((to, c) ∷ pool) =
    let others = broadcast_message_to_unl_peers socket peer pool in
    if (c.is_unl && c.is_confirmed) && (not (to == socket) && not (c.conn_id == peer))
    then to ∷ others
    else others

-- The sockets of a request.
unfoldable pub recipients : MessageRequest → Map Connection → List ℕ
unfolding send_message_to_peer broadcast_message_to_all_peers broadcast_message_to_unl_peers
recipients r pool = elim r.request_type [
  | one ↦ send_message_to_peer r.connection_id r.peer_id pool
  | unlcast ↦ broadcast_message_to_unl_peers r.connection_id r.peer_id pool
  | broadcast ↦ broadcast_message_to_all_peers r.connection_id r.peer_id pool
]

-- `counterOfProcessedBytes_ += message->getSize()`.
abbrev pub count_bytes : Message → ConnectionManager → ConnectionManager
count_bytes message m = record m {
  processed_bytes = (m.processed_bytes + length message.buffer) % 2 ^ 64;
}

-- The loop of `processMessageQueueRequests`, over the requests that are left.
unfoldable pub send_requests : List MessageRequest → ConnectionManager → ConnectionManager
unfolding recipients
send_requests [] m = m
send_requests (r ∷ queue) m =
    let counted : ConnectionManager = count_bytes r.message m in
    send_requests queue
      (record counted { sent = m.sent ++ sends r.message (recipients r m.connection_pool) })

-- `processMessageQueueRequests`.
unfoldable pub process_message_requests : ConnectionManager → ConnectionManager
unfolding send_requests
process_message_requests m = record (send_requests m.message_requests m) { message_requests = [] }

-- The loop of `processConnectionQueueRequests`. A peer with no account ends it, and the requests
-- behind it stay in the queue. `attempts` are the sockets that the next calls of `connectToPeer`
-- open; where it has run out no more are opened.
module _ (get_addresses : ℕ → Option Addresses) (local : VersionData) where
  connect_requests :
      List ConnectionRequest → List (Option ℕ) → ConnectionManager → Result ConnectionManager
  connect_requests [] attempts m = ok (record m { connection_requests = [] })
  connect_requests (r ∷ queue) attempts m = elim (get_addresses r.peer_id) [
    | none ↦ ok (record m { connection_requests = queue })
    | some _ ↦ elim attempts [
      | [] ↦ do
        (m, _) ← create_new_connection local none r.peer_id r.set_as_unl m
        connect_requests queue [] m
      | opened ∷ rest ↦ do
        (m, _) ← create_new_connection local opened r.peer_id r.set_as_unl m
        connect_requests queue rest m
    ]
  ]

  -- `processConnectionQueueRequests`.
  unfoldable pub process_connection_requests :
      List (Option ℕ) → ConnectionManager → Result ConnectionManager
  unfolding connect_requests
  process_connection_requests attempts m = connect_requests m.connection_requests attempts m
