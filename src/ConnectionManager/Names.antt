-- ===== src/ConnectionManager/Names.antt =====
-- The names of the connected peers and the connections of the pool: src/Network/MessageManagement.cpp.
use pqblockchain.Prelude.{
  ℕ, ◌≡◌, sym, inl, inr, true, false, none, some, List, ◌==◌, if◌then◌else◌, Bool-cases, ==→eq,
  ne→==, arith,
}
use pqblockchain.Prelude.Map.{
  Map, lookup, assign, erase, HasKeys, lookup-assign, lookup-erase_ne, lookup-erase_self,
  assign-HasKeys, erase-HasKeys,
}
use pqblockchain.Prelude.Set.{contains, include, exclude, contains-include, contains-exclude}
use pqblockchain.Connection.{Connection}

-- The names are those of the connections, and no two connections have the same.
pub record Agree (pool : Map Connection) (peers : List ℕ) : Type 0 where
  pub keys : HasKeys pool
  pub named : (fd : ℕ) (c : Connection) → lookup fd pool ≡ some c → contains c.conn_id peers ≡ true
  pub owner :
      (peer : ℕ)
      → contains peer peers ≡ true
      → (fd : ℕ) × (c : Connection) × (lookup fd pool ≡ some c) × (c.conn_id ≡ peer)
  pub unique :
      (fd gd : ℕ) (c e : Connection)
      → lookup fd pool ≡ some c
      → lookup gd pool ≡ some e
      → c.conn_id ≡ e.conn_id
      → fd ≡ gd

module _ (pool : Map Connection) (peers : List ℕ) (a : Agree pool peers) (fd : ℕ) where
  -- A connection that is new in the pool, with a new name.
  pub Agree-add :
      (c : Connection)
      → contains c.conn_id peers ≡ false
      → lookup fd pool ≡ none
      → Agree (assign fd c pool) (include c.conn_id peers)
  Agree-add c fresh free = record {
    keys = assign-HasKeys fd c pool a.keys;
    named = λ gd e h. ground (
      arith,
      lookup-assign fd gd c pool,
      contains-include c.conn_id e.conn_id peers,
      a.named gd e,
    );
    owner = λ peer h. elim (Bool-cases (c.conn_id == peer)) [
      | inl same ↦ (fd, c, ground (arith, lookup-assign fd fd c pool), ==→eq _ _ same)
      | inr apart ↦
          let (gd, e, there, called) =
            a.owner peer (ground (arith, contains-include c.conn_id peer peers)) in
          (gd, e, ground (arith, lookup-assign fd gd c pool), called)
    ];
    unique = λ gd hd e f h k same. ground (
      arith,
      lookup-assign fd gd c pool,
      lookup-assign fd hd c pool,
      a.unique gd hd e f,
      a.named gd e,
      a.named hd f,
    );
  }

  -- A change of a connection that keeps its name.
  pub Agree-change :
      (c c' : Connection)
      → lookup fd pool ≡ some c
      → c'.conn_id ≡ c.conn_id
      → Agree (assign fd c' pool) peers
  Agree-change c c' there same = record {
    keys = assign-HasKeys fd c' pool a.keys;
    named = λ gd e h. ground (arith, lookup-assign fd gd c' pool, a.named gd e, a.named fd c);
    owner = λ peer h.
        let (gd, e, held, called) = a.owner peer h in
        elim (Bool-cases (fd == gd)) [
          | inl at ↦ (
            fd,
            c',
            ground (arith, lookup-assign fd fd c' pool),
            ground (arith, a.unique fd gd c e),
          )
          | inr apart ↦ (gd, e, ground (arith, lookup-assign fd gd c' pool), called)
        ];
    unique = λ gd hd e f h k equal. ground (
      arith,
      lookup-assign fd gd c' pool,
      lookup-assign fd hd c' pool,
      a.unique gd hd e f,
      a.unique fd hd c f,
      a.unique gd fd e c,
    );
  }

  -- A connection is given a name that nobody has.
  pub Agree-rename :
      (c c' : Connection)
      → lookup fd pool ≡ some c
      → contains c'.conn_id peers ≡ false
      → Agree (assign fd c' pool) (include c'.conn_id (exclude c.conn_id peers))
  Agree-rename c c' there fresh = record {
    keys = assign-HasKeys fd c' pool a.keys;
    named = λ gd e h. ground (
      arith,
      lookup-assign fd gd c' pool,
      contains-include c'.conn_id e.conn_id (exclude c.conn_id peers),
      contains-exclude c.conn_id e.conn_id peers,
      a.named gd e,
      a.unique fd gd c e,
    );
    owner = λ peer h. elim (Bool-cases (c'.conn_id == peer)) [
      | inl same ↦ (fd, c', ground (arith, lookup-assign fd fd c' pool), ==→eq _ _ same)
      | inr apart ↦
          let (gd, e, held, called) = a.owner peer (
            ground (
              arith,
              contains-include c'.conn_id peer (exclude c.conn_id peers),
              contains-exclude c.conn_id peer peers,
            )) in
          (
            gd,
            e,
            ground (
              arith,
              lookup-assign fd gd c' pool,
              contains-include c'.conn_id peer (exclude c.conn_id peers),
              contains-exclude c.conn_id peer peers,
            ),
            called,
          )
    ];
    unique = λ gd hd e f h k equal. ground (
      arith,
      lookup-assign fd gd c' pool,
      lookup-assign fd hd c' pool,
      a.unique gd hd e f,
      a.named gd e,
      a.named hd f,
    );
  }

  lookup-erase : (gd : ℕ) → lookup gd (erase fd pool) ≡ (if fd == gd then none else lookup gd pool)
  lookup-erase gd = elim (Bool-cases (fd == gd)) [
    | inl same ↦ rw same (rw (sym (==→eq fd gd same)) (lookup-erase_self fd pool a.keys))
    | inr apart ↦ rw apart (lookup-erase_ne fd gd pool (ne→== fd gd apart))
  ]

  -- A connection is closed.
  pub Agree-erase :
      (c : Connection) → lookup fd pool ≡ some c → Agree (erase fd pool) (exclude c.conn_id peers)
  Agree-erase c there = record {
    keys = erase-HasKeys fd pool a.keys;
    named = λ gd e h. ground (
      arith,
      lookup-erase gd,
      contains-exclude c.conn_id e.conn_id peers,
      a.named gd e,
      a.unique fd gd c e,
    );
    owner = λ peer h.
        let (gd, e, held, called) =
          a.owner peer (ground (arith, contains-exclude c.conn_id peer peers)) in
        (gd, e, ground (arith, lookup-erase gd, contains-exclude c.conn_id peer peers), called);
    unique =
        λ gd hd e f h k equal. ground (arith, lookup-erase gd, lookup-erase hd, a.unique gd hd e f);
  }
