-- ===== src/ConnectionManager/Filtered.antt =====
-- Which messages reach the queue of `MessageProcessor` over the connections: `handleConnectionPoll`,
-- `processMessage` and a round of `manageConnections` of src/Network/MessageManagement.cpp, with the
-- filter of src/Network/Connection.cpp.
use pqblockchain.Prelude.{
  ℕ, ◌≡◌, ◌≢◌, ◌⊎◌, refl, sym, ap, ◌∙◌, inl, inr, true, Option, some, List, [], ◌∷◌, All, ltb, ◌==◌,
  if_both, Bool-cases, Option-cases, ne→==, subst,
}
use pqblockchain.Prelude.Map.{lookup}
use pqblockchain.Prelude.Set.{contains}
use pqblockchain.Exceptions.{ok, fault, Ensures, >>=-inverse, ok_subst}
use pqblockchain.Crypto.{Hash}
use pqblockchain.Account.Addresses.{Addresses}
use pqblockchain.Connection.{Connection, receive_message}
use pqblockchain.Connection.Refusal.{IsProposal, receive_message-IsReceived}
use pqblockchain.Message.Payloads.{type_number, version, ack}
use pqblockchain.ConnectionManager.{ConnectionManager, close_sockets}
use pqblockchain.ConnectionManager.Requests.{push}
use pqblockchain.ConnectionManager.Sending.{process_message_requests, process_connection_requests}
use pqblockchain.ConnectionManager.Polling.{
  MessageItem, item_priority, Traffic, LocalNode, PollResult, add_message_to_processing_queue,
  proc_version_message, process_message, handle_connection_poll, handle_ready, handle_server_poll,
  manage_round,
}

-- No version message and no acknowledgement, and a proposal only from a peer on the unique node list.
abbrev pub IsAllowed : MessageItem → Type 0
IsAllowed i =
    (item_priority i ≢ type_number version)
    × (item_priority i ≢ type_number ack)
    × (IsProposal i.msg → i.is_unl ≡ true)

-- The item came over the socket, whose connection is confirmed and has the name and the place of the
-- item.
abbrev pub IsFrom : ℕ → ConnectionManager → MessageItem → Type 0
IsFrom fd m i =
    (c : Connection) × (lookup fd m.connection_pool ≡ some c)
    × (c.is_confirmed ≡ true)
    × (i.connection_id ≡ fd)
    × (i.peer_id ≡ c.conn_id)
    × (i.is_unl ≡ c.is_unl)

-- The queue is as before, or has one more message.
abbrev pub IsFiltered : ℕ → Traffic → Traffic → Type 0
IsFiltered fd t r =
    (r.processing_queue ≡ t.processing_queue)
    ⊎ ((i : MessageItem) × (r.processing_queue
          ≡ add_message_to_processing_queue i t.processing_queue)
        × IsAllowed i
        × IsFrom fd t.manager i)

push-All :
    (P : MessageItem → Type 0) (i : MessageItem) (queue : List MessageItem)
    → P i
    → All P queue
    → All P (push item_priority i queue)
unfolding push
push-All P i [] h all = (h, tt)
push-All P i (j ∷ queue) h all =
    if_both (All P) (ltb (item_priority j) (item_priority i)) (i ∷ (j ∷ queue)) _ (h, all)
      (all.0, push-All P i queue h all.1)

module _ (sha512 : Hash) (get_addresses : ℕ → Option Addresses) (node : LocalNode) where
  process_message-queue :
      (i : MessageItem) (t : Traffic)
      → Ensures
          (λ r.
            (r.processing_queue ≡ t.processing_queue)
            ⊎ ((item_priority i ≢ type_number version)
                × (r.processing_queue ≡ add_message_to_processing_queue i t.processing_queue)))
          (process_message sha512 get_addresses node i t)
  unfolding process_message
  process_message-queue i t r e = elim (Bool-cases (item_priority i == type_number version)) [
    | inl early ↦
        let (m, _, last) =
          >>=-inverse (proc_version_message sha512 get_addresses node i t.manager) _ r
            (rw (early, process_message) at e) in
        inl (ok_subst (λ x. x.processing_queue ≡ t.processing_queue) _ r last refl)
    | inr late ↦ inr (
      ne→== _ _ late,
      ok_subst (λ x. x.processing_queue ≡ add_message_to_processing_queue i t.processing_queue) _ r
          (rw (late, process_message) at e) refl,
    )
  ]

  -- A readable socket gives the message processor at most one message. That message came over a
  -- confirmed connection of the pool, whose name and place on the unique node list it bears; it is no
  -- version message and no acknowledgement; and if it is a proposal, the connection is one of the unique
  -- node list.
  pub handle_connection_poll-IsFiltered :
      (fd : ℕ) (t : Traffic)
      → Ensures (IsFiltered fd t) (handle_connection_poll sha512 get_addresses node fd t)
  unfolding handle_connection_poll
  handle_connection_poll-IsFiltered fd t r e =
      elim (Option-cases (lookup fd (t.manager).connection_pool)) [
        | inl unknown ↦
            ok_subst (IsFiltered fd t) t r (rw (unknown, handle_connection_poll) at e) (inl refl)
        | inr (c, held) ↦ elim (Option-cases (lookup fd t.sockets)) [
          | inl no_socket ↦
              absurd
                (let no : fault ≡ ok r = rw (held, no_socket, handle_connection_poll) at e in cc)
          | inr (s, connected) ↦
              let (got, read, later) =
                >>=-inverse (receive_message sha512 c s) _ r
                  (rw (held, connected, handle_connection_poll) at e) in
              elim (Bool-cases got.close_flag) [
                | inl closing ↦ ok_subst (IsFiltered fd t) _ r (rw closing at later) (inl refl)
                | inr going ↦ elim (receive_message-IsReceived sha512 c s got read) [
                  | inl nothing ↦
                      ok_subst (IsFiltered fd t) _ r (rw (going, nothing) at later) (inl refl)
                  | inr (m, there, same, passed) ↦
                      let i : MessageItem = record {
                        connection_id = fd;
                        peer_id = (got.connection).conn_id;
                        is_unl = (got.connection).is_unl;
                        msg = m;
                      } in
                      elim (process_message-queue i _ r (rw (going, there) at later)) [
                        | inl kept ↦ inl kept
                        | inr (late, queued) ↦ elim passed [
                          | inl (early, _) ↦ absurd (late early)
                          | inr (_, no_ack, confirmed, on_unl) ↦ inr (
                            i,
                            queued,
                            (late, no_ack, λ p. ap (λ x. x.is_unl) same ∙ on_unl p),
                            (
                              c,
                              held,
                              confirmed,
                              refl,
                              ap (λ x. x.conn_id) same,
                              ap (λ x. x.is_unl) same,
                            ),
                          )
                        ]
                      ]
                ]
              ]
        ]
      ]

  handle_ready-All :
      (ready fds : List ℕ) (t : Traffic)
      → All IsAllowed t.processing_queue
      → Ensures
          (λ r. All IsAllowed r.processing_queue)
          (handle_ready sha512 get_addresses node ready fds t)
  unfolding handle_ready add_message_to_processing_queue
  handle_ready-All ready [] t all r e = ok_subst (λ x. All IsAllowed x.processing_queue) t r e all
  handle_ready-All ready (fd ∷ fds) t all r e = elim (Bool-cases (contains fd ready)) [
    | inr quiet ↦ handle_ready-All ready fds t all r (rw (quiet, handle_ready) at e)
    | inl polled ↦
        let (u, done, later) =
          >>=-inverse (handle_connection_poll sha512 get_addresses node fd t) _ r
            (rw (polled, handle_ready) at e) in
        handle_ready-All ready fds u
          (elim (handle_connection_poll-IsFiltered fd t u done) [
            | inl kept ↦ subst (All IsAllowed) (sym kept) all
            | inr (i, queued, allowed, _) ↦
                subst (All IsAllowed) (sym queued)
                  (push-All IsAllowed i t.processing_queue allowed all)
          ])
          r later
  ]

  -- Whatever clients connect and whatever comes over the sockets, a round of `manageConnections` keeps the
  -- queue of the message processor free of version messages and acknowledgements, and of proposals from
  -- peers outside the unique node list.
  pub manage_round-IsAllowed :
      (p : PollResult) (t : Traffic)
      → All IsAllowed t.processing_queue
      → Ensures (λ r. All IsAllowed r.processing_queue) (manage_round sha512 get_addresses node p t)
  unfolding manage_round
  manage_round-IsAllowed p t all r e =
      let served : ConnectionManager =
        handle_server_poll sha512 get_addresses node p.client t.manager in
      let (u, ready, later) =
        >>=-inverse
          (handle_ready sha512 get_addresses node p.ready served.descriptors
            (record t { manager = served }))
          _ r e in
      let (m, _, last) =
        >>=-inverse
          (process_connection_requests get_addresses node.version_data p.attempts
            (process_message_requests (close_sockets u.manager)))
          _ r later in
      ok_subst (λ x. All IsAllowed x.processing_queue) _ r last
        (handle_ready-All p.ready served.descriptors (record t { manager = served }) all u ready)
