-- ===== src/ConnectionManager/Reachable.antt =====
-- The pool of connections over every sequence of the operations of `ConnectionManager`
-- (src/Network/MessageManagement.cpp).
use pqblockchain.Prelude.{
  ℕ, ◌≡◌, refl, inl, inr, Bool, true, false, Option, some, List, [], ltb, Bool-cases, Option-cases,
  arith,
}
use pqblockchain.Prelude.Map.{lookup, lookup-assign_self}
use pqblockchain.Prelude.Set.{contains}
use pqblockchain.Exceptions.{ok, fault, >>=-inverse, ok_subst}
use pqblockchain.Connection.{Connection, new_connection}
use pqblockchain.Message.{new_message}
use pqblockchain.Message.Payloads
use pqblockchain.Message.Payloads.{
  VersionData, construct_message_header, serialize_version, version_payload_size,
}
use pqblockchain.ConnectionManager.{
  ConnectionManager, is_peer_connected, connection_of_peer, add_connection, delete_connection,
  set_connection, short_name, replace_existing, notify_connection_version, accept_new_connection,
  create_new_connection,
}
use pqblockchain.ConnectionManager.Consistency.{
  IsConsistent, set_connection-IsConsistent, add_connection-IsConsistent,
  delete_connection-IsConsistent,
}
use pqblockchain.ConnectionManager.Handshake.{
  find_named-found, name_connection-IsConsistent, replace_existing-IsConsistent,
}

-- No connection yet.
abbrev pub no_connections : ConnectionManager
no_connections = record {
  connection_pool = [];
  connected_peers = [];
  descriptors = [];
  sockets_to_close = [];
  message_requests = [];
  connection_requests = [];
  processed_bytes = 0;
  sent = [];
}

module _ (m : ConnectionManager) (v : IsConsistent m) where
  connection_of_peer-found :
      (peer fd : ℕ) (c : Connection)
      → connection_of_peer peer m ≡ some (fd, c)
      → (lookup fd m.connection_pool ≡ some c) × (c.conn_id ≡ peer)
  unfolding connection_of_peer
  connection_of_peer-found peer fd c h =
      find_named-found peer fd c m.connection_pool (v.agree).keys (ground arith)

  notify-IsConsistent :
      (local : ℕ) (unl : List ℕ) (socket peer : ℕ) (status : Bool) (m' : ConnectionManager)
      → contains (short_name peer) m.connected_peers ≡ false
      → notify_connection_version local unl socket peer status m ≡ ok m'
      → IsConsistent m'
  unfolding notify_connection_version
  notify-IsConsistent local unl socket peer false m' fresh e = ok_subst IsConsistent _ m' e v
  notify-IsConsistent local unl socket peer true m' fresh e =
      elim (Bool-cases (is_peer_connected peer m)) [
        | inr new ↦
            name_connection-IsConsistent m v unl socket peer m' new
              (rw (new, notify_connection_version) at e)
        | inl known ↦ elim (Bool-cases (ltb peer local)) [
          | inl refuse ↦
              ok_subst IsConsistent _ m' (rw (known, refuse, notify_connection_version) at e) v
          | inr replace ↦ elim (Option-cases (connection_of_peer peer m)) [
            | inl missing ↦ absurd (
                let no : fault ≡ ok m' =
                  rw (known, replace, missing, notify_connection_version) at e in
                cc)
            | inr ((existing, ex), found) ↦
                let (there, called) = connection_of_peer-found peer existing ex found in
                let (between, first, second) =
                  >>=-inverse (replace_existing socket peer existing ex m) _ m'
                    (rw (known, replace, found, notify_connection_version) at e) in
                let (v1, free) =
                  replace_existing-IsConsistent m v unl socket peer between existing ex there called
                    known fresh first in
                name_connection-IsConsistent between v1 unl socket peer m' free second
          ]
        ]
      ]

  add_connection-lookup :
      (socket peer : ℕ) (c : Connection)
      → (add_connection socket c peer m).1 ≡ true
      → lookup socket (add_connection socket c peer m).0.connection_pool ≡ some c
  unfolding add_connection
  add_connection-lookup socket peer c added =
      ground (arith, lookup-assign_self socket c m.connection_pool)

  create-IsConsistent :
      (local : VersionData) (opened : Option ℕ) (peer : ℕ) (is_on_unl : Bool)
      (m' : ConnectionManager) (r : Bool)
      → create_new_connection local opened peer is_on_unl m ≡ ok (m', r)
      → IsConsistent m'
  unfolding create_new_connection
  create-IsConsistent local opened peer is_on_unl m' r e =
      elim (Bool-cases (is_peer_connected peer m)) [
        | inl known ↦
            ok_subst (λ t. IsConsistent t.0) _ (m', r) (rw (known, create_new_connection) at e) v
        | inr new ↦ elim (Option-cases opened) [
          | inl failed ↦
              ok_subst (λ t. IsConsistent t.0) _ (m', r)
                (rw (new, failed, create_new_connection) at e) v
          | inr (socket, got) ↦
              let c : Connection = new_connection peer is_on_unl in
              elim (Bool-cases (add_connection socket c peer m).1) [
                | inr held ↦
                    ok_subst (λ t. IsConsistent t.0) _ (m', r)
                      (rw (new, got, held, create_new_connection) at e)
                      (add_connection-IsConsistent m v socket c new)
                | inl added ↦
                    let (greeting, _, last) =
                      >>=-inverse
                        (serialize_version local (
                          new_message
                            (construct_message_header Payloads.version version_payload_size)))
                        _ (m', r) (rw (new, got, added, create_new_connection) at e) in
                    ok_subst (λ t. IsConsistent t.0) _ (m', r) last
                      (set_connection-IsConsistent (add_connection socket c peer m).0
                        (add_connection-IsConsistent m v socket c new) socket c
                        (record { conn_id = peer; is_confirmed = true; is_unl = is_on_unl })
                        (add_connection-lookup socket peer c added) refl)
              ]
        ]
      ]

-- An operation of the connection manager. A client comes from a port that names no other connection,
-- and the name that a replaced connection is left with, the last 64 digits of its peer, names no other.
-- A message that is read may change the flags of its connection, but not its name.
pub data Step : ConnectionManager → ConnectionManager → Type 0 where
  accepted :
      {m : ConnectionManager} (port socket : ℕ)
      → contains port m.connected_peers ≡ false
      → Step m (accept_new_connection port socket m).0
  created :
      {m m' : ConnectionManager} (local : VersionData) (opened : Option ℕ) (peer : ℕ)
      (is_on_unl r : Bool)
      → create_new_connection local opened peer is_on_unl m ≡ ok (m', r)
      → Step m m'
  notified :
      {m m' : ConnectionManager} (local : ℕ) (unl : List ℕ) (socket peer : ℕ) (status : Bool)
      → contains (short_name peer) m.connected_peers ≡ false
      → notify_connection_version local unl socket peer status m ≡ ok m'
      → Step m m'
  flagged :
      {m : ConnectionManager} (socket : ℕ) (c c' : Connection)
      → lookup socket m.connection_pool ≡ some c
      → c'.conn_id ≡ c.conn_id
      → Step m (set_connection socket c' m)
  deleted : {m : ConnectionManager} (socket : ℕ) → Step m (delete_connection socket m)

pub data Reach (m : ConnectionManager) : ConnectionManager → Type 0 where
  here : Reach m m
  next : {n o : ConnectionManager} → Reach m n → Step n o → Reach m o

pub Step-IsConsistent : {m m' : ConnectionManager} → Step m m' → IsConsistent m → IsConsistent m'
unfolding accept_new_connection
Step-IsConsistent {m} (accepted port socket fresh) v =
    add_connection-IsConsistent m v socket (new_connection port false) fresh
Step-IsConsistent {m} {m'} (created local opened peer is_on_unl r e) v =
    create-IsConsistent m v local opened peer is_on_unl m' r e
Step-IsConsistent {m} {m'} (notified local unl socket peer status fresh e) v =
    notify-IsConsistent m v local unl socket peer status m' fresh e
Step-IsConsistent {m} (flagged socket c c' there same) v =
    set_connection-IsConsistent m v socket c c' there same
Step-IsConsistent {m} (deleted socket) v = delete_connection-IsConsistent m v socket

no_connections-IsConsistent : IsConsistent no_connections
no_connections-IsConsistent = record {
  agree = record {
    keys = tt;
    named = λ fd c h. absurd (cc);
    owner = λ peer h. absurd (let no : false ≡ true = h in cc);
    unique = λ fd gd c e h k same. absurd (cc);
  };
  watched = λ fd. refl;
  once = tt;
}

-- From a manager without connections on, whatever is accepted, opened, named, flagged and closed, in
-- any order: each connection of the pool bears the name of a connected peer and each such name is
-- that of exactly one connection, so that `getConnectionFromConnectionPool` finds by a name exactly
-- the connection that bears it; and exactly the sockets of the pool are polled, each of them once.
-- The steps assume that a client's port and the rest of a replaced name are no names yet.
pub Reach-IsConsistent :
    {m : ConnectionManager}
    → Reach no_connections m
    → IsConsistent m
      × ((peer fd : ℕ) (c : Connection)
          → connection_of_peer peer m ≡ some (fd, c)
          → (lookup fd m.connection_pool ≡ some c) × (c.conn_id ≡ peer))
Reach-IsConsistent r =
    let v = consistent r in (v, λ peer fd c. connection_of_peer-found _ v peer fd c)
  where
    consistent : {m : ConnectionManager} → Reach no_connections m → IsConsistent m
    consistent here = no_connections-IsConsistent
    consistent (next before step) = Step-IsConsistent step (consistent before)
