-- ===== src/ConnectionManager/Recipients.antt =====
-- Which connections a request of src/Network/MessageManagement.cpp reaches.
use pqblockchain.Prelude.{
  ℕ, ◌≡◌, refl, sym, ap, ◌∙◌, inl, inr, Bool, true, false, not, ◌&&◌, Option, none, some, List, [],
  ◌∷◌, ◌++◌, ◌==◌, ltb, IsIn, IsIn-append_left, IsIn-append_right, Bool-cases, ==→eq, if_both,
  subst, arith,
}
use pqblockchain.Prelude.Map.{Map, lookup, HasKeys}
use pqblockchain.Prelude.Set.{contains}
use pqblockchain.Connection.{Connection}
use pqblockchain.Message.{Message}
use pqblockchain.ConnectionManager.{ConnectionManager}
use pqblockchain.ConnectionManager.Requests.{
  RequestType, MessageRequest, add_message_request, push, request_priority, one, broadcast, unlcast,
}
use pqblockchain.ConnectionManager.Sending.{
  sends, send_message_to_peer, broadcast_message_to_all_peers, broadcast_message_to_unl_peers,
  recipients, count_bytes, send_requests, process_message_requests,
}

-- Whether a connection of the socket `fd` is meant by a request. A request for one peer names the
-- socket and the peer, one for many the socket and the peer that are left out.
abbrev pub is_meant : RequestType → ℕ → ℕ → ℕ → Option Connection → Bool
is_meant type socket peer fd none = false
is_meant one socket peer fd (some c) = (fd == socket) && ((c.conn_id == peer) && c.is_confirmed)
is_meant broadcast socket peer fd (some c) =
    c.is_confirmed && (not (fd == socket) && not (c.conn_id == peer))
is_meant unlcast socket peer fd (some c) =
    (c.is_unl && c.is_confirmed) && (not (fd == socket) && not (c.conn_id == peer))

module _ (socket peer fd : ℕ) where
  broadcast_message_to_all_peers-absent :
      (pool : Map Connection)
      → lookup fd pool ≡ none
      → contains fd (broadcast_message_to_all_peers socket peer pool) ≡ false
  unfolding broadcast_message_to_all_peers
  broadcast_message_to_all_peers-absent [] h = refl
  broadcast_message_to_all_peers-absent ((to, c) ∷ pool) h =
      ground (arith, broadcast_message_to_all_peers-absent pool)

  broadcast_message_to_all_peers-lookup :
      (pool : Map Connection)
      → HasKeys pool
      → contains fd (broadcast_message_to_all_peers socket peer pool)
        ≡ is_meant broadcast socket peer fd (lookup fd pool)
  unfolding broadcast_message_to_all_peers
  broadcast_message_to_all_peers-lookup [] k = refl
  broadcast_message_to_all_peers-lookup ((to, c) ∷ pool) k = ground (
    arith,
    broadcast_message_to_all_peers-lookup pool k.1,
    broadcast_message_to_all_peers-absent pool,
  )

  broadcast_message_to_unl_peers-absent :
      (pool : Map Connection)
      → lookup fd pool ≡ none
      → contains fd (broadcast_message_to_unl_peers socket peer pool) ≡ false
  unfolding broadcast_message_to_unl_peers
  broadcast_message_to_unl_peers-absent [] h = refl
  broadcast_message_to_unl_peers-absent ((to, c) ∷ pool) h =
      ground (arith, broadcast_message_to_unl_peers-absent pool)

  broadcast_message_to_unl_peers-lookup :
      (pool : Map Connection)
      → HasKeys pool
      → contains fd (broadcast_message_to_unl_peers socket peer pool)
        ≡ is_meant unlcast socket peer fd (lookup fd pool)
  unfolding broadcast_message_to_unl_peers
  broadcast_message_to_unl_peers-lookup [] k = refl
  broadcast_message_to_unl_peers-lookup ((to, c) ∷ pool) k = ground (
    arith,
    broadcast_message_to_unl_peers-lookup pool k.1,
    broadcast_message_to_unl_peers-absent pool,
  )

  send_message_to_peer-lookup :
      (pool : Map Connection)
      → contains fd (send_message_to_peer socket peer pool)
        ≡ is_meant one socket peer fd (lookup fd pool)
  unfolding send_message_to_peer
  send_message_to_peer-lookup pool = elim (Bool-cases (fd == socket)) [
    | inl same ↦
        subst
          (λ k.
            contains fd (send_message_to_peer k peer pool)
            ≡ is_meant one k peer fd (lookup fd pool))
          (==→eq fd socket same) (at_socket (lookup fd pool) refl)
    | inr apart ↦ elsewhere (lookup fd pool) (lookup socket pool) refl refl apart
  ]
    where
      at_socket :
          (o : Option Connection)
          → lookup fd pool ≡ o
          → contains fd (send_message_to_peer fd peer pool) ≡ is_meant one fd peer fd o
      at_socket none e = rw (e, send_message_to_peer) refl
      at_socket (some c) e = rw (e, send_message_to_peer) (ground arith)

      elsewhere :
          (o p : Option Connection)
          → lookup fd pool ≡ o
          → lookup socket pool ≡ p
          → (fd == socket) ≡ false
          → contains fd (send_message_to_peer socket peer pool) ≡ is_meant one socket peer fd o
      elsewhere none none e f apart = rw (f, send_message_to_peer) refl
      elsewhere none (some k) e f apart = rw (f, send_message_to_peer) (ground arith)
      elsewhere (some c) none e f apart = rw (f, send_message_to_peer) (ground arith)
      elsewhere (some c) (some k) e f apart = rw (f, send_message_to_peer) (ground arith)

-- A request for one peer goes to the socket that it names if the confirmed connection there bears the
-- name of the peer; one for all goes to every confirmed connection, and one for the UNL to every
-- confirmed connection on it, but neither to the socket nor to the peer that it names. It goes to no
-- other socket.
pub recipients_lem :
    (r : MessageRequest) (fd : ℕ) (pool : Map Connection)
    → HasKeys pool
    → contains fd (recipients r pool)
      ≡ is_meant r.request_type r.connection_id r.peer_id fd (lookup fd pool)
unfolding recipients
recipients_lem r fd pool k = by_type r.request_type refl
  where
    by_type :
        (t : RequestType)
        → r.request_type ≡ t
        → contains fd (recipients r pool)
          ≡ is_meant r.request_type r.connection_id r.peer_id fd (lookup fd pool)
    by_type one e =
        rw (e, recipients) (send_message_to_peer-lookup r.connection_id r.peer_id fd pool)
    by_type broadcast e =
        rw (e, recipients)
          (broadcast_message_to_all_peers-lookup r.connection_id r.peer_id fd pool k)
    by_type unlcast e =
        rw (e, recipients)
          (broadcast_message_to_unl_peers-lookup r.connection_id r.peer_id fd pool k)

sends-IsIn :
    (fd : ℕ) (message : Message) (sockets : List ℕ)
    → contains fd sockets ≡ true
    → IsIn {A = ℕ × Message} (fd, message) (sends message sockets)
sends-IsIn fd message [] h = absurd (let no : false ≡ true = h in cc)
sends-IsIn fd message (x ∷ sockets) h = elim (Bool-cases (x == fd)) [
  | inl here ↦ inl (ap (λ k. (k, message)) (==→eq x fd here))
  | inr apart ↦ inr (sends-IsIn fd message sockets (rw apart at h))
]

push-IsIn :
    (r : MessageRequest) (queue : List MessageRequest) → IsIn r (push request_priority r queue)
unfolding push
push-IsIn r [] = inl refl
push-IsIn r (q ∷ queue) =
    if_both (IsIn r) (ltb (request_priority q) (request_priority r)) (r ∷ (q ∷ queue))
      (q ∷ push request_priority r queue) (inl refl) (inr (push-IsIn r queue))

send_requests-kept :
    (queue : List MessageRequest) (m : ConnectionManager) (out : ℕ × Message)
    → IsIn out m.sent
    → IsIn out (send_requests queue m).sent
unfolding send_requests
send_requests-kept [] m out h = h
send_requests-kept (r ∷ queue) m out h =
    send_requests-kept queue
      (record (count_bytes r.message m) {
        sent = m.sent ++ sends r.message (recipients r m.connection_pool);
      })
      out (IsIn-append_left out m.sent (sends r.message (recipients r m.connection_pool)) h)

send_requests-IsIn :
    (queue : List MessageRequest) (m : ConnectionManager) (r : MessageRequest) (fd : ℕ)
    → IsIn r queue
    → contains fd (recipients r m.connection_pool) ≡ true
    → IsIn {A = ℕ × Message} (fd, r.message) (send_requests queue m).sent
unfolding send_requests
send_requests-IsIn [] m r fd h meant = absurd h
send_requests-IsIn (q ∷ queue) m r fd (inl same) meant =
    subst (λ t. IsIn {A = ℕ × Message} (fd, t.message) (send_requests (q ∷ queue) m).sent) same
      (send_requests-kept queue
        (record (count_bytes q.message m) {
          sent = m.sent ++ sends q.message (recipients q m.connection_pool);
        })
        (fd, q.message)
        (IsIn-append_right (fd, q.message) m.sent (sends q.message (recipients q m.connection_pool))
          (sends-IsIn fd q.message (recipients q m.connection_pool)
            (subst (λ t. contains fd (recipients t m.connection_pool) ≡ true) (sym same) meant))))
send_requests-IsIn (q ∷ queue) m r fd (inr h) meant =
    send_requests-IsIn queue
      (record (count_bytes q.message m) {
        sent = m.sent ++ sends q.message (recipients q m.connection_pool);
      })
      r fd h meant

-- A request that has been added to the queue is not starved: the next call of
-- `processMessageQueueRequests` sends its message to every connection that it means, whatever else is
-- in the queue, and leaves the queue empty.
pub process_message_requests-sends :
    (r : MessageRequest) (m : ConnectionManager) (fd : ℕ)
    → HasKeys m.connection_pool
    → is_meant r.request_type r.connection_id r.peer_id fd (lookup fd m.connection_pool) ≡ true
    → let after : ConnectionManager =
        process_message_requests
          (record m { message_requests = add_message_request r m.message_requests }) in
      IsIn {A = ℕ × Message} (fd, r.message) after.sent × (after.message_requests ≡ [])
unfolding process_message_requests add_message_request
process_message_requests-sends r m fd k meant =
    let queue : List MessageRequest = push request_priority r m.message_requests in
    (
      send_requests-IsIn queue (record m { message_requests = queue }) r fd
          (push-IsIn r m.message_requests) (recipients_lem r fd m.connection_pool k ∙ meant),
      refl,
    )
