-- ===== src/Chain.antt =====
-- src/Consensus/Chain.hpp and Chain.cpp: the tree of block headers. The nodes are those of a
-- `std::map`, which are never erased or moved, so a pointer to a node is the node's key. Issuers
-- are named by the numbers whose hexadecimal digits the program uses.
pub mod Laws
pub mod Preferred
pub mod Tree
pub mod Assign
pub mod Assigned
pub mod Tests
use pqblockchain.Prelude.{
  ℕ, ◌+◌, ◌-◌, ◌*◌, ◌%◌, ◌^◌, Bool, true, false, ◌&&◌, Option, none, some, List, [], ◌∷◌, ◌++◌, ltb,
  leb, if◌then◌else◌,
}
use pqblockchain.Prelude.Map.{Map, lookup, assign}
use pqblockchain.Exceptions.{Result, ok, fault, ◌>>=◌}
use pqblockchain.Crypto.{Hash}
use pqblockchain.Block.{BlockHeader, null_header, get_block_hash}

pub record BlockNode : Type 0 where
  pub id : ℕ
  pub block : BlockHeader
  pub parent : Option ℕ
  pub valid_child : Option ℕ
  pub childs : List ℕ
  pub tip_support : ℕ

-- A pointer to a node: to the node of a key, null, or the address that `&exNode->second` gives where
-- `exNode` is `ch.end()`.
pub data Reference : Type 0 where
  node : ℕ → Reference
  null past_end : Reference

pub record Chain : Type 0 where
  pub ch : Map BlockNode
  pub valid_block : BlockNode
  pub unl_count : ℕ
  pub validations : Map Reference

-- `getGenesisBlockNode`, with the hash of the empty header.
abbrev pub genesis_node : ℕ → BlockNode
genesis_node id = record {
  id = id;
  block = null_header;
  parent = none;
  valid_child = none;
  childs = [];
  tip_support = 0;
}

-- The constructor of `Chain`.
unfoldable pub new_chain : Hash → ℕ → Result Chain
new_chain sha512 size_of_unl = do
  id ← get_block_hash sha512 null_header
  ok (record {
    ch = (id, genesis_node id) ∷ [];
    valid_block = genesis_node id;
    unl_count = size_of_unl;
    validations = [];
  })

-- `lastRef->second->tipSupport--`, unless the pointer is null.
withdraw : Reference → Map BlockNode → Result (Map BlockNode)
withdraw null ch = ok ch
withdraw past_end ch = fault
withdraw (node id) ch = elim (lookup id ch) [
  | none ↦ fault
  | some n ↦ ok (assign id (record n { tip_support = (n.tip_support + 2 ^ 32 - 1) % 2 ^ 32 }) ch)
]

-- The first step of `insert`: an issuer that has voted before takes its vote back.
leave : ℕ → Bool → Chain → Result (Map BlockNode)
leave issuer true c = ok c.ch
leave issuer false c = elim (lookup issuer c.validations) [
  | none ↦ ok c.ch
  | some r ↦ withdraw r c.ch
]

-- The block is in the tree already.
support_again : ℕ → ℕ → Bool → BlockNode → Chain → Chain
support_again issuer id is_local n c = record c {
  ch =
      if is_local
      then c.ch
      else assign id (record n { tip_support = (n.tip_support + 1) % 2 ^ 32 }) c.ch;
  validations = assign issuer (node id) c.validations;
}

-- A new block: a leaf below its parent, if that is in the tree. The pointer that is kept for the
-- issuer is that of `exNode`.
grow : ℕ → ℕ → BlockHeader → Bool → Chain → Chain
grow issuer id block is_local c = elim (lookup block.previous_block_hash c.ch) [
  | none ↦ c
  | some p ↦ record c {
    ch =
        assign block.previous_block_hash (record p { childs = p.childs ++ id ∷ [] })
          (assign id
            (record {
              id = id;
              block = block;
              parent = some block.previous_block_hash;
              valid_child = none;
              childs = [];
              tip_support = if is_local then 0 else 1;
            })
            c.ch);
    validations = assign issuer past_end c.validations;
  }
]

-- `Chain::insert`.
unfoldable pub insert : Hash → ℕ → BlockHeader → Bool → Chain → Result Chain
unfolding leave withdraw support_again grow
insert sha512 issuer block is_local c = do
  ch ← leave issuer is_local c
  id ← get_block_hash sha512 block
  elim (lookup id ch) [
    | some n ↦ ok (support_again issuer id is_local n (record c { ch = ch }))
    | none ↦ ok (grow issuer id block is_local (record c { ch = ch }))
  ]

-- `Chain::checkQuorum`. `tipSupport > 0.8 * UNLcount`, a comparison of doubles that is exact for
-- 32-bit counts.
unfoldable pub check_quorum : BlockNode → Chain → Bool
check_quorum n c =
    ltb (4 * c.unl_count) (5 * n.tip_support)
    && ltb ((c.valid_block).block).sequence (n.block).sequence

-- `Chain::updateValidBlock`: the valid block is a copy of the node.
unfoldable pub update_valid_block : ℕ → Chain → Chain × Bool
unfolding check_quorum
update_valid_block id c = elim (lookup id c.ch) [
  | none ↦ (c, false)
  | some n ↦ if check_quorum n c then (record c { valid_block = n }, true) else (c, false)
]

add_support : List ℕ → ℕ → Map BlockNode → Result ℕ
add_support [] count ch = ok count
add_support (k ∷ childs) count ch = elim (lookup k ch) [
  | none ↦ fault
  | some n ↦ add_support childs ((count + n.tip_support) % 2 ^ 32) ch
]

-- `Chain::getSupport`: the node's own support and that of its children.
unfoldable pub get_support : BlockNode → Chain → Result ℕ
unfolding add_support
get_support n c = add_support n.childs n.tip_support c.ch

-- The issuers whose last block has the sequence number of `n` or a later one are not counted.
subtract_committed : ℕ → Map Reference → ℕ → Map BlockNode → Result ℕ
subtract_committed sequence [] count ch = ok count
subtract_committed sequence ((_, null) ∷ rest) count ch = subtract_committed sequence rest count ch
subtract_committed sequence ((_, past_end) ∷ rest) count ch = fault
subtract_committed sequence ((_, node k) ∷ rest) count ch = elim (lookup k ch) [
  | none ↦ fault
  | some n ↦
      if leb sequence (n.block).sequence
      then subtract_committed sequence rest ((count + 2 ^ 32 - 1) % 2 ^ 32) ch
      else subtract_committed sequence rest count ch
]

-- `Chain::getUncommitted`.
unfoldable pub get_uncommitted : BlockNode → Chain → Result ℕ
unfolding subtract_committed
get_uncommitted n c = subtract_committed (n.block).sequence c.validations c.unl_count c.ch
