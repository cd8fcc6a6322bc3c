-- ===== src/ConnectionManager/Ports.antt =====
-- Accepted connections are named by the port of the client: `acceptNewConnection` of
-- src/Network/MessageManagement.cpp.
use pqblockchain.Prelude.{
  if◌then◌else◌, ne→==_false, eq→==, ℕ, ◌≡◌, ◌≢◌, refl, sym, ap, ◌∙◌, true, false, none, some, List,
  [], ◌∷◌, ◌++◌, arith,
}
use pqblockchain.Prelude.Map.{
  lookup, assign, erase, lookup-assign_self, lookup-assign_ne, lookup-erase_ne,
}
use pqblockchain.Prelude.Set.{exclude, contains, include, contains-exclude}
use pqblockchain.Connection.{Connection, new_connection}
use pqblockchain.ConnectionManager.{
  delete_descriptor, ConnectionManager, connection_of_peer, add_connection, delete_connection,
  accept_new_connection,
}
use pqblockchain.ConnectionManager.Consistency.{contains-append}

add_connection-free :
    (m : ConnectionManager) (socket peer : ℕ) (c : Connection)
    → lookup socket m.connection_pool ≡ none
    → (add_connection socket c peer m).0 ≡ record m {
      connected_peers = include peer m.connected_peers;
      connection_pool = assign socket c m.connection_pool;
      descriptors = m.descriptors ++ socket ∷ [];
    }
unfolding add_connection
add_connection-free m socket peer c free = rw (free, add_connection) refl

contains-append_left :
    (k : ℕ) (fds more : List ℕ) → contains k fds ≡ true → contains k (fds ++ more) ≡ true
contains-append_left k [] more h = absurd (cc)
contains-append_left k (fd ∷ fds) more h = ground (arith, contains-append_left k fds more)

-- Another socket is polled still.
delete_descriptor-contains :
    (socket other : ℕ) (fds : List ℕ)
    → socket ≢ other
    → contains other fds ≡ true
    → contains other (delete_descriptor socket fds) ≡ true
delete_descriptor-contains socket other fds apart h =
    contains-append_left other (exclude socket fds) _ (
      contains-exclude socket other fds
      ∙ ap (λ b. if b then false else contains other fds) (ne→==_false socket other apart)
      ∙ h)

delete_connection-held :
    (m : ConnectionManager) (socket : ℕ) (c : Connection)
    → lookup socket m.connection_pool ≡ some c
    → (connection_of_peer c.conn_id (delete_connection socket m) ≡ none)
      × ((delete_connection socket m).connection_pool ≡ erase socket m.connection_pool)
      × ((delete_connection socket m).descriptors ≡ delete_descriptor socket m.descriptors)
unfolding delete_connection connection_of_peer
delete_connection-held m socket c held =
    rw (held, delete_connection)
      (ground (arith, contains-exclude c.conn_id c.conn_id m.connected_peers), refl, refl)

-- Two clients from the same port, on two sockets that are free. When the first of them closes, the
-- second stays in the pool and is polled, but its name is unknown: no connection is found by it.
pub accept_new_connection_same_port :
    (port first second : ℕ) (m : ConnectionManager)
    → first ≢ second
    → lookup first m.connection_pool ≡ none
    → lookup second m.connection_pool ≡ none
    → let n : ConnectionManager =
        delete_connection first
          (accept_new_connection port second (accept_new_connection port first m).0).0 in
      (lookup second n.connection_pool ≡ some (new_connection port false))
      × (contains second n.descriptors ≡ true)
      × (connection_of_peer port n ≡ none)
unfolding accept_new_connection
accept_new_connection_same_port port first second m apart free1 free2 =
    let c : Connection = new_connection port false in
    let n : ConnectionManager = (add_connection first c port m).0 in
    let pool1 : n.connection_pool ≡ assign first c m.connection_pool =
      ap (λ k. k.connection_pool) (add_connection-free m first port c free1) in
    let free : lookup second n.connection_pool ≡ none =
      ap (lookup second) pool1 ∙ lookup-assign_ne first second c m.connection_pool apart ∙ free2 in
    let o : ConnectionManager = (add_connection second c port n).0 in
    let pool2 : o.connection_pool ≡ assign second c n.connection_pool =
      ap (λ k. k.connection_pool) (add_connection-free n second port c free) in
    let held : lookup first o.connection_pool ≡ some c =
      ap (lookup first) pool2
      ∙ lookup-assign_ne second first c n.connection_pool (λ same. apart (sym same))
      ∙ ap (lookup first) pool1
      ∙ lookup-assign_self first c m.connection_pool in
    let fds2 : o.descriptors ≡ n.descriptors ++ second ∷ [] =
      ap (λ k. k.descriptors) (add_connection-free n second port c free) in
    let polled : contains second o.descriptors ≡ true =
      ap (contains second) fds2
      ∙ contains-append second second n.descriptors
      ∙ ap (λ b. if b then true else contains second n.descriptors) (eq→== second second refl) in
    let (unknown, left, watched_left) = delete_connection-held o first c held in
    (
      ap (lookup second) left
          ∙ lookup-erase_ne first second o.connection_pool apart
          ∙ ap (lookup second) pool2
          ∙ lookup-assign_self second c n.connection_pool,
      ap (contains second) watched_left
          ∙ delete_descriptor-contains first second o.descriptors apart polled,
      unknown,
    )
