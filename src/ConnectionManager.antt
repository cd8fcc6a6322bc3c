-- ===== src/ConnectionManager.antt =====
-- `class ConnectionManager` of src/Network/MessageManagement.hpp and MessageManagement.cpp: the pool
-- of connections by their sockets, the names of the connected peers and the queues of requests. A
-- socket that `connectToPeer` opens is a parameter, and messages that are sent are kept in order.
pub mod Requests
pub mod Sending
pub mod Polling
pub mod Names
pub mod Recipients
pub mod Consistency
pub mod Handshake
pub mod Reachable
pub mod Ports
pub mod Filtered
mod Tests
use pqblockchain.Prelude.{
  ℕ, ◌+◌, ◌%◌, ◌^◌, Bool, true, false, not, ◌&&◌, Option, none, some, List, [], ◌∷◌, ◌++◌, length,
  drop, ltb, ◌==◌, if◌then◌else◌,
}
use pqblockchain.Prelude.Map.{Map, lookup, assign, erase}
use pqblockchain.Prelude.Set.{contains, include, exclude}
use pqblockchain.Exceptions.{Result, ok, fault, ◌>>=◌}
use pqblockchain.Connection.{Connection, new_connection}
use pqblockchain.Message.{Message, new_message}
use pqblockchain.Message.Payloads
use pqblockchain.Message.Payloads.{
  VersionData, construct_message_header, serialize_ack, serialize_version, version_payload_size,
}
use pqblockchain.ConnectionManager.Requests.{
  RequestType, MessageRequest, ConnectionRequest, add_message_request,
}

-- `class ConnectionManager`. `descriptors` are the sockets of `socketDescriptors`, and `sent` are the
-- messages that went out, with their sockets.
pub record ConnectionManager : Type 0 where
  pub connection_pool : Map Connection
  pub connected_peers : List ℕ
  pub descriptors : List ℕ
  pub sockets_to_close : List ℕ
  pub message_requests : List MessageRequest
  pub connection_requests : List ConnectionRequest
  pub processed_bytes : ℕ
  pub sent : List (ℕ × Message)

-- `isConnectionInConnectionPool` of a peer.
abbrev pub is_peer_connected : ℕ → ConnectionManager → Bool
is_peer_connected peer m = contains peer m.connected_peers

-- The first connection of the pool with that name.
abbrev pub find_named : ℕ → Map Connection → Option (ℕ × Connection)
find_named peer [] = none
find_named peer ((socket, c) ∷ pool) =
    if c.conn_id == peer then some (socket, c) else find_named peer pool

-- `getConnectionFromConnectionPool` of a peer, with the socket of the connection.
unfoldable pub connection_of_peer : ℕ → ConnectionManager → Option (ℕ × Connection)
connection_of_peer peer m =
    if is_peer_connected peer m then find_named peer m.connection_pool else none

-- `getConnectionID`, with `none` for -1.
unfoldable pub get_connection_id : ℕ → ConnectionManager → Option ℕ
unfolding connection_of_peer
get_connection_id peer m = elim (connection_of_peer peer m) [
  | none ↦ none
  | some (socket, _) ↦ some socket
]

-- `addConnectionToConnectionPool`, with `addSocketDescriptor`.
unfoldable pub add_connection : ℕ → Connection → ℕ → ConnectionManager → ConnectionManager × Bool
add_connection socket c peer m = elim (lookup socket m.connection_pool) [
  | some _ ↦ (m, false)
  | none ↦ (
    record m {
      connected_peers = include peer m.connected_peers;
      connection_pool = assign socket c m.connection_pool;
      descriptors = m.descriptors ++ socket ∷ [];
    },
    true,
  )
]

-- `deleteSocketDescriptor`: `erase` of the iterator that `remove_if` returns takes out one element.
abbrev pub delete_descriptor : ℕ → List ℕ → List ℕ
delete_descriptor socket ds =
    let kept : List ℕ = exclude socket ds in kept ++ drop (length kept + 1) ds

-- `deleteConnection`, with `deleteConnectionFromConnectionPool`.
unfoldable pub delete_connection : ℕ → ConnectionManager → ConnectionManager
delete_connection socket m = elim (lookup socket m.connection_pool) [
  | none ↦ m
  | some c ↦ record m {
    connected_peers = exclude c.conn_id m.connected_peers;
    connection_pool = erase socket m.connection_pool;
    descriptors = delete_descriptor socket m.descriptors;
  }
]

-- The loop of `manageConnections` that removes the connections that are to be closed.
delete_connections : List ℕ → ConnectionManager → ConnectionManager
delete_connections [] m = m
delete_connections (socket ∷ sockets) m = delete_connections sockets (delete_connection socket m)

unfoldable pub close_sockets : ConnectionManager → ConnectionManager
unfolding delete_connections
close_sockets m = record (delete_connections m.sockets_to_close m) { sockets_to_close = [] }

-- `updatePeerIdOfConnectionInConnectionPool`.
unfoldable pub update_peer_id : ℕ → ℕ → ℕ → ConnectionManager → ConnectionManager
update_peer_id socket old_peer new_peer m = elim (lookup socket m.connection_pool) [
  | none ↦ m
  | some c ↦ record m {
    connected_peers = include new_peer (exclude old_peer m.connected_peers);
    connection_pool = assign socket (record c { conn_id = new_peer }) m.connection_pool;
  }
]

-- A change of a connection through a pointer to it.
abbrev pub set_connection : ℕ → Connection → ConnectionManager → ConnectionManager
set_connection socket c m = record m { connection_pool = assign socket c m.connection_pool }

abbrev pub close_later : ℕ → ConnectionManager → ConnectionManager
close_later socket m = record m { sockets_to_close = m.sockets_to_close ++ socket ∷ [] }

-- `peerID.substr(64)` of the 128 digits of a peer.
abbrev pub short_name : ℕ → ℕ
short_name peer = 256 ^ 64 + peer % 256 ^ 64

-- The branch of `notifyConnectionVersion` for a peer that is connected already by the connection
-- `existing`, where that is to be closed: it leaves its name and its place on the UNL to this one.
pub replace_existing : ℕ → ℕ → ℕ → Connection → ConnectionManager → Result ConnectionManager
unfolding update_peer_id
replace_existing socket peer existing ex m = elim (lookup socket m.connection_pool) [
  | none ↦ fault
  | some c ↦
      let m : ConnectionManager = set_connection socket (record c { is_unl = ex.is_unl }) m in
      ok (close_later existing (update_peer_id existing peer (short_name peer) m))
]

-- The end of `notifyConnectionVersion`: the connection gets its name and is confirmed.
unfoldable pub name_connection : List ℕ → ℕ → ℕ → ConnectionManager → Result ConnectionManager
unfolding update_peer_id add_message_request
name_connection unl socket peer m = elim (lookup socket m.connection_pool) [
  | none ↦ fault
  | some c ↦ do
    ack ← serialize_ack (new_message (construct_message_header Payloads.ack 0))
    let unl_peer : Bool = if contains peer unl then true else c.is_unl
    let named : ConnectionManager =
        update_peer_id socket c.conn_id peer
          (set_connection socket (record c { is_unl = unl_peer }) m)
    let confirmed : Connection = record { conn_id = peer; is_confirmed = true; is_unl = unl_peer }
    ok (record (set_connection socket confirmed named) {
      message_requests =
          add_message_request
            (record {
              request_type = RequestType.one;
              connection_id = socket;
              peer_id = peer;
              message = ack;
            })
            named.message_requests;
    })
]

-- `notifyConnectionVersion`, by the names of the local node and of the peers on its UNL. A name that
-- is known but that no connection has would make `exConn` a null pointer.
unfoldable pub notify_connection_version :
    ℕ → List ℕ → ℕ → ℕ → Bool → ConnectionManager → Result ConnectionManager
unfolding name_connection replace_existing connection_of_peer
notify_connection_version local unl socket peer false m = ok (close_later socket m)
notify_connection_version local unl socket peer true m = elim (is_peer_connected peer m) [
  | false ↦ name_connection unl socket peer m
  | true ↦ elim (ltb peer local) [
    | true ↦ ok (close_later socket m)
    | false ↦ elim (connection_of_peer peer m) [
      | none ↦ fault
      | some (existing, ex) ↦
          replace_existing socket peer existing ex m >>= λ m'. name_connection unl socket peer m'
    ]
  ]
]

-- `acceptNewConnection`: until it sends its version a peer is named by its port.
unfoldable pub accept_new_connection : ℕ → ℕ → ConnectionManager → ConnectionManager × Bool
unfolding add_connection
accept_new_connection port socket m = add_connection socket (new_connection port false) port m

-- `createNewConnection`, by the version message of the local node and the socket that
-- `connectToPeer` opens, if any.
unfoldable pub create_new_connection :
    VersionData → Option ℕ → ℕ → Bool → ConnectionManager → Result (ConnectionManager × Bool)
unfolding add_connection add_message_request
create_new_connection local opened peer is_on_unl m = elim (is_peer_connected peer m) [
  | true ↦ ok (m, false)
  | false ↦ elim opened [
    | none ↦ ok (m, false)
    | some socket ↦
        let (added, success) = add_connection socket (new_connection peer is_on_unl) peer m in
        elim success [
          | false ↦ ok (added, false)
          | true ↦ do
            greeting ←
                serialize_version local
                  (new_message (construct_message_header Payloads.version version_payload_size))
            let confirmed : Connection = record {
              conn_id = peer;
              is_confirmed = true;
              is_unl = is_on_unl;
            }
            let m : ConnectionManager = set_connection socket confirmed added
            ok (
              record m {
                message_requests =
                    add_message_request
                      (record {
                        request_type = RequestType.one;
                        connection_id = socket;
                        peer_id = peer;
                        message = greeting;
                      })
                      m.message_requests;
              },
              true,
            )
        ]
  ]
]
