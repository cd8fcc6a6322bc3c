-- ===== src/ConnectionManager/Tests.antt =====
-- A manager with a few connections, and what the theorems say of it.
use pqblockchain.Prelude.{
  ℕ, ◌+◌, ◌^◌, ◌≡◌, refl, true, false, none, some, [], ◌∷◌, IsIn, Option, All, length, replicate,
  ◌++◌,
}
use pqblockchain.Prelude.Map.{lookup}
use pqblockchain.Prelude.Set.{contains}
use pqblockchain.Exceptions.{Result, ok, throw, fault}
use pqblockchain.Serialize.{
  serialize_number, put, le_bytes, contents, deserialize_number, get, le_number, blob_bytes,
}
use pqblockchain.Connection.{
  Connection, new_connection, send_message, receive_message, peek, receive_loop, recv,
  filter_message, send_loop,
}
use pqblockchain.Message.{Message, new_message}
use pqblockchain.Message
use pqblockchain.Message.Payloads
use pqblockchain.Message.Payloads.{construct_message_header, serialize_ack}
use pqblockchain.ConnectionManager.{
  ConnectionManager, accept_new_connection, connection_of_peer, delete_connection,
  notify_connection_version, close_sockets,
}
use pqblockchain.ConnectionManager.Requests.{MessageRequest, broadcast, add_message_request, push}
use pqblockchain.ConnectionManager.Sending.{
  recipients, process_message_requests, process_connection_requests,
}
use pqblockchain.ConnectionManager.Consistency.{IsConsistent}
use pqblockchain.ConnectionManager.Recipients.{
  is_meant, recipients_lem, process_message_requests-sends,
}
use pqblockchain.ConnectionManager.Reachable.{
  no_connections, Reach, here, next, accepted, notified, deleted, Reach-IsConsistent,
}
use pqblockchain.ConnectionManager.Ports.{accept_new_connection_same_port}
use pqblockchain.ConnectionManager.Filtered.{
  IsAllowed, IsFiltered, handle_connection_poll-IsFiltered, manage_round-IsAllowed,
}
use pqblockchain.ConnectionManager.Polling.{
  Traffic, LocalNode, PollResult, handle_connection_poll, manage_round, handle_ready,
  handle_server_poll, process_message, add_message_to_processing_queue,
}
use pqblockchain.Crypto.{Hash}
use pqblockchain.Account.Addresses.{Addresses}
use pqblockchain.Message.CheckSum.{encode_message_header}

-- Two clients, from two ports.
abbrev two_clients : ConnectionManager
two_clients = record no_connections {
  connection_pool = (4, new_connection 300 false) ∷ ((5, new_connection 301 false) ∷ []);
  connected_peers = 301 ∷ (300 ∷ []);
  descriptors = 4 ∷ (5 ∷ []);
}

-- The name of a peer.
abbrev peer : ℕ
peer = 256 ^ 128 + 77

abbrev returned : Result ConnectionManager → ConnectionManager
returned (ok m) = m
returned (throw e) = no_connections
returned fault = no_connections

-- The first of them has sent its version.
abbrev one_named : ConnectionManager
one_named = returned (notify_connection_version 5 (peer ∷ []) 4 peer true two_clients)

one_named-returned : notify_connection_version 5 (peer ∷ []) 4 peer true two_clients ≡ ok one_named
unfolding notify_connection_version serialize_ack Message.serialize_with serialize_number put
    le_bytes contents add_message_request
one_named-returned = refl

accept_4_5 : Reach no_connections two_clients
unfolding accept_new_connection
accept_4_5 = next (next here (accepted 300 4 refl)) (accepted 301 5 refl)

Reach-IsConsistent_example :
    IsConsistent (delete_connection 5 one_named)
    × ((name fd : ℕ) (c : Connection)
        → connection_of_peer name (delete_connection 5 one_named) ≡ some (fd, c)
        → (lookup fd (delete_connection 5 one_named).connection_pool ≡ some c) × (c.conn_id ≡ name))
Reach-IsConsistent_example = Reach-IsConsistent (
    next (next accept_4_5 (notified 5 (peer ∷ []) 4 peer true refl one_named-returned)) (deleted 5))

accept_new_connection_same_port_example :
    let n : ConnectionManager =
      delete_connection 4
        (accept_new_connection 300 5 (accept_new_connection 300 4 no_connections).0).0 in
    (lookup 5 n.connection_pool ≡ some (new_connection 300 false))
    × (contains 5 n.descriptors ≡ true)
    × (connection_of_peer 300 n ≡ none)
accept_new_connection_same_port_example =
    accept_new_connection_same_port 300 4 5 no_connections (λ e. cc) refl refl

abbrev confirmed_named : ℕ → Connection
confirmed_named name = record { conn_id = name; is_confirmed = true; is_unl = false }

abbrev three_peers : ConnectionManager
three_peers = record no_connections {
  connection_pool =
      (4, confirmed_named 70) ∷ ((5, confirmed_named 71) ∷ ((6, new_connection 72 false) ∷ []));
  connected_peers = 72 ∷ (71 ∷ (70 ∷ []));
  descriptors = 4 ∷ (5 ∷ (6 ∷ []));
}

-- To everyone but the first peer.
abbrev to_others : MessageRequest
to_others = record {
  request_type = broadcast;
  connection_id = 4;
  peer_id = 70;
  message = new_message (construct_message_header Payloads.inv 0);
}

recipients_lem_example :
    contains 6 (recipients to_others three_peers.connection_pool)
    ≡ is_meant broadcast 4 70 6 (some (new_connection 72 false))
recipients_lem_example =
    recipients_lem to_others 6 three_peers.connection_pool (refl, (refl, (refl, tt)))

process_message_requests-sends_example :
    let after : ConnectionManager =
      process_message_requests
        (record three_peers { message_requests = add_message_request to_others [] }) in
    IsIn {A = ℕ × Message} (5, to_others.message) after.sent × (after.message_requests ≡ [])
process_message_requests-sends_example =
    process_message_requests-sends to_others three_peers 5 (refl, (refl, (refl, tt))) refl

-- The length of the bytes, as a digest.
abbrev length_hash : Hash
length_hash bytes = length bytes

abbrev this_node : LocalNode
this_node = record {
  version_data = record { version = 1; node_type = 0; peer_id = 9 };
  name = 9;
  unl = [];
  get_hex = λ id. id;
}

abbrev greeting : Message
greeting = record {
  msg_hdr = construct_message_header Payloads.inv 3;
  buffer = encode_message_header (construct_message_header Payloads.inv 3) ++ (7 ∷ (8 ∷ (9 ∷ [])));
  current_message_size = 0;
}

-- The first peer has sent an inventory.
abbrev greeted : Traffic
greeted = record {
  manager = three_peers;
  sockets =
      (
        4,
        record {
          stream = send_message length_hash greeting (replicate 19 4);
          pieces = 15 ∷ replicate 19 1;
        },
      )
      ∷ [];
  processing_queue = [];
}

traffic : Result Traffic → Traffic
traffic (ok t) = t
traffic (throw e) = greeted
traffic fault = greeted

-- Nobody has an address.
abbrev no_addresses : ℕ → Option Addresses
no_addresses id = none

abbrev polled : Traffic
polled = traffic (handle_connection_poll length_hash no_addresses this_node 4 greeted)

handle_connection_poll-IsFiltered_example : IsFiltered 4 greeted polled
unfolding handle_connection_poll traffic receive_message send_message peek Message.set_check_sum
    encode_message_header le_bytes Message.deserialize_message_header deserialize_number get
    le_number Payloads.create_message Message.check_message receive_loop recv Message.add_fragment
    blob_bytes filter_message
handle_connection_poll-IsFiltered_example =
    handle_connection_poll-IsFiltered length_hash no_addresses this_node 4 greeted polled refl

-- The queue has the inventory.
polled-queue : length polled.processing_queue ≡ 1
unfolding handle_connection_poll traffic receive_message send_message peek Message.set_check_sum
    encode_message_header le_bytes Message.deserialize_message_header deserialize_number get
    le_number Payloads.create_message Message.check_message receive_loop recv Message.add_fragment
    blob_bytes filter_message send_loop process_message push add_message_to_processing_queue
polled-queue = refl

abbrev one_client : PollResult
one_client = record { client = some (303, 7); ready = 4 ∷ []; attempts = [] }

abbrev managed : Traffic
managed = traffic (manage_round length_hash no_addresses this_node one_client greeted)

manage_round-IsAllowed_example : All IsAllowed managed.processing_queue
unfolding manage_round handle_connection_poll traffic accept_new_connection receive_message
    send_message peek Message.set_check_sum encode_message_header le_bytes
    Message.deserialize_message_header deserialize_number get le_number Payloads.create_message
    Message.check_message receive_loop recv Message.add_fragment blob_bytes filter_message
    process_connection_requests close_sockets process_message_requests handle_ready
    handle_server_poll
manage_round-IsAllowed_example =
    manage_round-IsAllowed length_hash no_addresses this_node one_client greeted tt managed refl
