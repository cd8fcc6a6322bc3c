-- ===== src/ConnectionManager/Consistency.antt =====
-- The pool of connections, the names of the connected peers and the descriptors that are polled, over
-- every sequence of the operations of `ConnectionManager` (src/Network/MessageManagement.cpp).
use pqblockchain.Prelude.{
  ℕ, zero, suc, ◌+◌, ◌≤◌, ◌≡◌, refl, sym, ap, ◌∙◌, subst, inl, inr, Bool, true, false, Option, none,
  some, List, [], ◌∷◌, ◌++◌, length, drop, append-nil, ◌==◌, if◌then◌else◌, Bool-cases,
  Option-cases, ==→eq, ne→==, arith,
}
use pqblockchain.Prelude.Map.{
  Map, lookup, assign, lookup-assign, lookup-erase_ne, lookup-erase_self,
}
use pqblockchain.Prelude.Set.{contains, exclude, contains-exclude}
use pqblockchain.Connection.{Connection}
use pqblockchain.ConnectionManager.{
  ConnectionManager, add_connection, delete_descriptor, delete_connection, update_peer_id,
  set_connection,
}
use pqblockchain.ConnectionManager.Names.{Agree, Agree-add, Agree-change, Agree-rename, Agree-erase}

abbrev pub is_held : Option Connection → Bool
is_held none = false
is_held (some _) = true

abbrev pub IsOnce : List ℕ → Type 0
IsOnce [] = Unit {0}
IsOnce (fd ∷ fds) = (contains fd fds ≡ false) × IsOnce fds

-- Names and connections agree, and exactly the sockets of the pool are polled, each once.
pub record Consistent (pool : Map Connection) (peers descriptors : List ℕ) : Type 0 where
  pub agree : Agree pool peers
  pub watched : (fd : ℕ) → contains fd descriptors ≡ is_held (lookup fd pool)
  pub once : IsOnce descriptors

abbrev pub IsConsistent : ConnectionManager → Type 0
IsConsistent m = Consistent m.connection_pool m.connected_peers m.descriptors

pub contains-append :
    (fd gd : ℕ) (fds : List ℕ)
    → contains gd (fds ++ fd ∷ []) ≡ (if fd == gd then true else contains gd fds)
contains-append fd gd [] = refl
contains-append fd gd (x ∷ fds) = ground (arith, contains-append fd gd fds)

append-IsOnce :
    (fd : ℕ) (fds : List ℕ) → contains fd fds ≡ false → IsOnce fds → IsOnce (fds ++ fd ∷ [])
append-IsOnce fd [] new o = (refl, tt)
append-IsOnce fd (x ∷ fds) new o =
    (ground (arith, contains-append fd x fds), append-IsOnce fd fds (ground arith) o.1)

exclude-absent : (fd : ℕ) (fds : List ℕ) → contains fd fds ≡ false → exclude fd fds ≡ fds
exclude-absent fd [] h = refl
exclude-absent fd (x ∷ fds) h = ground (arith, exclude-absent fd fds)

length-exclude : (fd : ℕ) (fds : List ℕ) → IsOnce fds → length fds ≤ length (exclude fd fds) + 1
length-exclude fd [] o = omega arith
length-exclude fd (x ∷ fds) o = elim (Bool-cases (x == fd)) [
  | inl here ↦
      let gone : exclude fd fds ≡ fds =
        exclude-absent fd fds (subst (λ k. contains k fds ≡ false) (==→eq x fd here) o.0) in
      rw here (rw gone (omega arith))
  | inr apart ↦ rw apart (omega (arith, length-exclude fd fds o.1))
]

drop_all : (n : ℕ) (fds : List ℕ) → length fds ≤ n → drop n fds ≡ []
drop_all zero [] h = refl
drop_all zero (x ∷ fds) h = absurd (omega arith)
drop_all (suc n) [] h = refl
drop_all (suc n) (x ∷ fds) h = drop_all n fds (omega arith)

delete_descriptor-once :
    (fd : ℕ) (fds : List ℕ) → IsOnce fds → delete_descriptor fd fds ≡ exclude fd fds
delete_descriptor-once fd fds o =
    ap (λ r. exclude fd fds ++ r)
      (drop_all (length (exclude fd fds) + 1) fds (length-exclude fd fds o))
    ∙ append-nil (exclude fd fds)

exclude-IsOnce : (fd : ℕ) (fds : List ℕ) → IsOnce fds → IsOnce (exclude fd fds)
exclude-IsOnce fd [] o = tt
exclude-IsOnce fd (x ∷ fds) o = ground (arith, exclude-IsOnce fd fds o.1, contains-exclude fd x fds)

module _ (m : ConnectionManager) (v : IsConsistent m) (fd : ℕ) where
  watched-assign :
      (c c' : Connection)
      → lookup fd m.connection_pool ≡ some c
      → (gd : ℕ) → contains gd m.descriptors ≡ is_held (lookup gd (assign fd c' m.connection_pool))
  watched-assign c c' there gd =
      ground (arith, lookup-assign fd gd c' m.connection_pool, v.watched gd)

  pub set_connection-IsConsistent :
      (c c' : Connection)
      → lookup fd m.connection_pool ≡ some c
      → c'.conn_id ≡ c.conn_id
      → IsConsistent (set_connection fd c' m)
  set_connection-IsConsistent c c' there same = record {
    agree = Agree-change m.connection_pool m.connected_peers v.agree fd c c' there same;
    watched = watched-assign c c' there;
    once = v.once;
  }

  pub update_peer_id-IsConsistent :
      (c : Connection) (new : ℕ)
      → lookup fd m.connection_pool ≡ some c
      → contains new m.connected_peers ≡ false
      → IsConsistent (update_peer_id fd c.conn_id new m)
  unfolding update_peer_id
  update_peer_id-IsConsistent c new there fresh =
      rw (there, update_peer_id)
        record {
          agree =
              Agree-rename m.connection_pool m.connected_peers v.agree fd c
                (record c { conn_id = new }) there fresh;
          watched = watched-assign c (record c { conn_id = new }) there;
          once = v.once;
        }

  pub add_connection-IsConsistent :
      (c : Connection)
      → contains c.conn_id m.connected_peers ≡ false
      → IsConsistent (add_connection fd c c.conn_id m).0
  unfolding add_connection
  add_connection-IsConsistent c fresh = elim (Option-cases (lookup fd m.connection_pool)) [
    | inr (old, there) ↦ rw (there, add_connection) v
    | inl free ↦
        rw (free, add_connection)
          record {
            agree = Agree-add m.connection_pool m.connected_peers v.agree fd c fresh free;
            watched = λ gd. ground (
              arith,
              contains-append fd gd m.descriptors,
              lookup-assign fd gd c m.connection_pool,
              v.watched gd,
            );
            once = append-IsOnce fd m.descriptors (ground (arith, v.watched fd)) v.once;
          }
  ]

  pub delete_connection-IsConsistent : IsConsistent (delete_connection fd m)
  unfolding delete_connection
  delete_connection-IsConsistent = elim (Option-cases (lookup fd m.connection_pool)) [
    | inl free ↦ rw (free, delete_connection) v
    | inr (c, there) ↦
        let shut = delete_descriptor-once fd m.descriptors v.once in
        rw (there, delete_connection)
          (rw shut record {
            agree = Agree-erase m.connection_pool m.connected_peers v.agree fd c there;
            watched = λ gd. elim (Bool-cases (fd == gd)) [
              | inl same ↦
                  contains-exclude fd gd m.descriptors
                  ∙ rw same (
                      rw (sym (==→eq fd gd same))
                        (ap is_held (sym (lookup-erase_self fd m.connection_pool (v.agree).keys))))
              | inr apart ↦
                  contains-exclude fd gd m.descriptors
                  ∙ rw apart (
                      v.watched gd
                      ∙ ap is_held
                          (sym (lookup-erase_ne fd gd m.connection_pool (ne→== fd gd apart))))
            ];
            once = exclude-IsOnce fd m.descriptors v.once;
          })
  ]
