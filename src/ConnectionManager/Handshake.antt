-- ===== src/ConnectionManager/Handshake.antt =====
-- The parts of `notifyConnectionVersion` of src/Network/MessageManagement.cpp, and the pool of
-- connections behind them.
use pqblockchain.Prelude.{
  ℕ, ◌≡◌, refl, sym, ap, ◌∙◌, subst, inl, inr, Bool, true, false, some, List, [], ◌∷◌, ◌==◌,
  if◌then◌else◌, Bool-cases, Option-cases, ==→eq, arith,
}
use pqblockchain.Prelude.Map.{Map, lookup, assign, HasKeys, lookup-assign, lookup-assign_self}
use pqblockchain.Prelude.Set.{contains, include, exclude, contains-include, contains-exclude}
use pqblockchain.Exceptions.{ok, fault, >>=-inverse, ok_subst}
use pqblockchain.Connection.{Connection}
use pqblockchain.Message.{new_message}
use pqblockchain.Message.Payloads
use pqblockchain.Message.Payloads.{
  VersionData, construct_message_header, serialize_ack, serialize_version, version_payload_size,
}
use pqblockchain.ConnectionManager.{
  ConnectionManager, find_named, update_peer_id, set_connection, short_name, replace_existing,
  name_connection,
}
use pqblockchain.ConnectionManager.Consistency.{
  IsConsistent, set_connection-IsConsistent, update_peer_id-IsConsistent,
}

pub find_named-found :
    (peer fd : ℕ) (c : Connection) (pool : Map Connection)
    → HasKeys pool
    → find_named peer pool ≡ some (fd, c)
    → (lookup fd pool ≡ some c) × (c.conn_id ≡ peer)
find_named-found peer fd c [] k h = absurd (cc)
find_named-found peer fd c ((gd, e) ∷ pool) k h =
    ground (arith, find_named-found peer fd c pool k.1)

update_peer_id-lookup :
    (m : ConnectionManager) (fd old new : ℕ) (c : Connection)
    → lookup fd m.connection_pool ≡ some c
    → lookup fd (update_peer_id fd old new m).connection_pool ≡ some (record c { conn_id = new })
unfolding update_peer_id
update_peer_id-lookup m fd old new c there =
    rw (there, update_peer_id)
      (lookup-assign_self fd (record c { conn_id = new }) m.connection_pool)

update_peer_id-peers :
    (m : ConnectionManager) (fd old new : ℕ) (c : Connection)
    → lookup fd m.connection_pool ≡ some c
    → (update_peer_id fd old new m).connected_peers ≡ include new (exclude old m.connected_peers)
unfolding update_peer_id
update_peer_id-peers m fd old new c there = rw (there, update_peer_id) refl

module _ (m : ConnectionManager) (v : IsConsistent m) (unl : List ℕ) (socket peer : ℕ) where
  pub name_connection-IsConsistent :
      (m' : ConnectionManager)
      → contains peer m.connected_peers ≡ false
      → name_connection unl socket peer m ≡ ok m'
      → IsConsistent m'
  unfolding name_connection
  name_connection-IsConsistent m' fresh e = elim (Option-cases (lookup socket m.connection_pool)) [
    | inl missing ↦ absurd (let no : fault ≡ ok m' = rw (missing, name_connection) at e in cc)
    | inr (c, there) ↦
        let (ack, _, last) =
          >>=-inverse (serialize_ack (new_message (construct_message_header Payloads.ack 0))) _ m'
            (rw (there, name_connection) at e) in
        let unl_peer : Bool = if contains peer unl then true else c.is_unl in
        let flagged : Connection = record c { is_unl = unl_peer } in
        let m1 : ConnectionManager = set_connection socket flagged m in
        let v1 = set_connection-IsConsistent m v socket c flagged there refl in
        let there1 = lookup-assign_self socket flagged m.connection_pool in
        let v2 = update_peer_id-IsConsistent m1 v1 socket flagged peer there1 fresh in
        let there2 = update_peer_id-lookup m1 socket c.conn_id peer flagged there1 in
        ok_subst IsConsistent _ m' last (
          set_connection-IsConsistent (update_peer_id socket c.conn_id peer m1) v2 socket
            (record flagged { conn_id = peer })
            (record { conn_id = peer; is_confirmed = true; is_unl = unl_peer }) there2 refl)
  ]

  -- The connection that the pool has under the key `existing` behind the change of another.
  same_name :
      (c' ex : Connection) (existing : ℕ)
      → lookup existing m.connection_pool ≡ some ex
      → ((c : Connection) → lookup socket m.connection_pool ≡ some c → c'.conn_id ≡ c.conn_id)
      → (e : Connection) × (lookup existing (assign socket c' m.connection_pool) ≡ some e)
        × (e.conn_id ≡ ex.conn_id)
  same_name c' ex existing there kept = elim (Bool-cases (socket == existing)) [
    | inl same ↦ (
      c',
      lookup-assign socket existing c' m.connection_pool ∙ rw same refl,
      kept ex (rw (==→eq socket existing same) there),
    )
    | inr apart ↦ (ex, lookup-assign socket existing c' m.connection_pool ∙ rw apart there, refl)
  ]

  pub replace_existing-IsConsistent :
      (m' : ConnectionManager) (existing : ℕ) (ex : Connection)
      → lookup existing m.connection_pool ≡ some ex
      → ex.conn_id ≡ peer
      → contains peer m.connected_peers ≡ true
      → contains (short_name peer) m.connected_peers ≡ false
      → replace_existing socket peer existing ex m ≡ ok m'
      → IsConsistent m' × (contains peer m'.connected_peers ≡ false)
  unfolding replace_existing
  replace_existing-IsConsistent m' existing ex there called known fresh e =
      elim (Option-cases (lookup socket m.connection_pool)) [
        | inl missing ↦ absurd (let no : fault ≡ ok m' = rw (missing, replace_existing) at e in cc)
        | inr (c, here) ↦
            let flagged : Connection = record c { is_unl = ex.is_unl } in
            let m1 : ConnectionManager = set_connection socket flagged m in
            let v1 = set_connection-IsConsistent m v socket c flagged here refl in
            let (e1, there1, same1) =
              same_name flagged ex existing there
                (λ c0 h. let s : some c ≡ some c0 = sym here ∙ h in cc) in
            let v2 = update_peer_id-IsConsistent m1 v1 existing e1 (short_name peer) there1 fresh in
            let v3 : IsConsistent (update_peer_id existing peer (short_name peer) m1) =
              subst (λ old. IsConsistent (update_peer_id existing old (short_name peer) m1))
                (same1 ∙ called) v2 in
            ok_subst (λ r. IsConsistent r × (contains peer r.connected_peers ≡ false)) _ m'
              (rw (here, replace_existing) at e)
              (
                v3,
                gone (short_name peer)
                    (update_peer_id existing peer (short_name peer) m1).connected_peers fresh
                    (update_peer_id-peers m1 existing peer (short_name peer) e1 there1),
              )
      ]
    where
      gone :
          (short : ℕ) (peers : List ℕ)
          → contains short m.connected_peers ≡ false
          → peers ≡ include short (exclude peer m.connected_peers)
          → contains peer peers ≡ false
      gone short peers new is =
          ap (contains peer) is
          ∙ ground (
            arith,
            known,
            contains-include short peer (exclude peer m.connected_peers),
            contains-exclude peer peer m.connected_peers,
          )
