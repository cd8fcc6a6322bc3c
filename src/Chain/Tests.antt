-- ===== src/Chain/Tests.antt =====
-- A tree with a genesis block and one block above it, and what the theorems say of it.
use pqblockchain.Prelude.{
  ◌≤◌, ℕ, ◌+◌, ◌-◌, ◌*◌, ◌<◌, ◌≡◌, ◌≢◌, ◌⊎◌, refl, true, false, none, some, inl, inr, Bool, List,
  ◌==◌, Bool-cases, ==→eq, subst, [], ◌∷◌, ◌++◌, arith,
}
use pqblockchain.Prelude.Map.{lookup}
use pqblockchain.Exceptions.{ok, fault}
use pqblockchain.Crypto.{Hash}
use pqblockchain.Block.{BlockHeader, get_block_hash}
use pqblockchain.Serialize.{
  fresh, serialize_number, put, le_bytes, serialize_blob, blob_bytes, contents,
}
use pqblockchain.Chain.{
  BlockNode, Chain, genesis_node, node, past_end, insert, update_valid_block, check_quorum,
}
use pqblockchain.Chain.Preferred.{get_preferred_block}
use pqblockchain.Chain.Tree.{IsTree, IsPlaced}
use pqblockchain.Chain.Tree.Insert.{get_preferred_block-terminates}
use pqblockchain.Chain.Assign.{assign_account_hash}
use pqblockchain.Chain.Assigned.{assign_account_hash-past_end}
use pqblockchain.Chain.Laws.{update_valid_block-quorum, insert_new-past_end, insert_known-support}

-- The fifth byte, which is the lowest one of the sequence number, plus 100, in place of SHA-512.
abbrev sequence_hash : Hash
sequence_hash (_ ∷ (_ ∷ (_ ∷ (_ ∷ (sequence ∷ _))))) = sequence + 100
sequence_hash _ = 0

abbrev header_of : ℕ → ℕ → BlockHeader
header_of sequence previous = record {
  version = 1;
  sequence = sequence;
  size = 1;
  transactions_merkle_root_hash = 11;
  previous_block_hash = previous;
  account_balance_merkle_root_hash = 0;
}

-- Five validators have voted for the block 101, of whom issuer 31 is one.
abbrev pub first_node : BlockNode
first_node = record {
  id = 101;
  block = header_of 1 100;
  parent = some 100;
  valid_child = none;
  childs = [];
  tip_support = 5;
}

abbrev genesis_with_child : BlockNode
genesis_with_child = record (genesis_node 100) { childs = 101 ∷ [] }

abbrev pub small_chain : Chain
small_chain = record {
  ch = (100, genesis_with_child) ∷ ((101, first_node) ∷ []);
  valid_block = genesis_node 100;
  unl_count = 6;
  validations = (31, node 101) ∷ [];
}

hash_above : get_block_hash sequence_hash (header_of 2 101) ≡ ok 102
unfolding get_block_hash fresh serialize_number put le_bytes serialize_blob blob_bytes contents
hash_above = refl

hash_below : get_block_hash sequence_hash (header_of 0 0) ≡ ok 100
unfolding get_block_hash fresh serialize_number put le_bytes serialize_blob blob_bytes contents
hash_below = refl

update_valid_block-quorum_example :
    ((n : BlockNode) × (lookup 101 small_chain.ch ≡ some n)
      × (4 * 6 < 5 * n.tip_support)
      × (0 < (n.block).sequence)
      × (update_valid_block 101 small_chain ≡ (record small_chain { valid_block = n }, true)))
    ⊎ (((n : BlockNode)
          → lookup 101 small_chain.ch ≡ some n
          → (5 * n.tip_support ≤ 4 * 6) ⊎ ((n.block).sequence ≤ 0))
        × (update_valid_block 101 small_chain ≡ (small_chain, false)))
update_valid_block-quorum_example = update_valid_block-quorum 101 small_chain

insert_new-past_end_example :
    (c' : Chain) × (insert sequence_hash 32 (header_of 2 101) false small_chain ≡ ok c')
    × (lookup 101 c'.ch ≡ some (record first_node { childs = [] ++ 102 ∷ [] }))
    × ((next : BlockHeader) → insert sequence_hash 32 next false c' ≡ fault)
insert_new-past_end_example =
    insert_new-past_end sequence_hash 32 102 (header_of 2 101) first_node small_chain refl
      hash_above refl refl

insert_known-support_example :
    (c' : Chain) × (insert sequence_hash 31 (header_of 0 0) false small_chain ≡ ok c')
    × (lookup 101 c'.ch ≡ some (record first_node { tip_support = 5 - 1 }))
    × (lookup 100 c'.ch ≡ some (record genesis_with_child { tip_support = 0 + 1 }))
    × ((j : ℕ) → 101 ≢ j → 100 ≢ j → lookup j c'.ch ≡ lookup j small_chain.ch)
    × (lookup 31 c'.validations ≡ some (node 100))
insert_known-support_example =
    insert_known-support sequence_hash 31 100 101 (header_of 0 0) first_node genesis_with_child
      small_chain refl refl (omega arith) (omega arith) hash_below refl (omega arith)
      (λ e. omega arith)

abbrev depth : ℕ → ℕ
depth k = k - 100

small_chain-IsTree : IsTree 1 small_chain.ch
small_chain-IsTree = record {
  depth = depth;
  placed = λ k n e. elim (Bool-cases (100 == k)) [
    | inl genesis ↦
        let found : some genesis_with_child ≡ some n = rw genesis at e in
        let same : genesis_with_child ≡ n = cc in
        subst (λ m. IsPlaced depth 1 small_chain.ch k m.childs) same
          (let here = ==→eq 100 k genesis in (omega arith, (omega arith, tt), ((λ no. cc), tt)))
    | inr above ↦ elim (Bool-cases (101 == k)) [
      | inl first ↦
          let found : some first_node ≡ some n = rw (above, first) at e in
          let same : first_node ≡ n = cc in
          subst (λ m. IsPlaced depth 1 small_chain.ch k m.childs) same
            (let here = ==→eq 101 k first in (omega arith, tt, tt))
      | inr neither ↦ absurd (let never : none ≡ some n = rw (above, neither) at e in cc)
    ]
  ];
}

-- Two more validators vote for the first block, which is known and becomes valid.
abbrev first_votes : List (ℕ × BlockHeader × Bool × ℕ)
first_votes = (32, header_of 1 100, false, 101) ∷ ((33, header_of 1 100, false, 101) ∷ [])

abbrev genesis_after_votes : Chain
genesis_after_votes = record small_chain {
  ch = (100, genesis_with_child) ∷ ((101, record first_node { tip_support = 7 }) ∷ []);
  valid_block = record first_node { tip_support = 6 };
  validations = (31, node 101) ∷ ((32, node 101) ∷ ((33, node 101) ∷ []));
}

get_preferred_block-terminates_example :
    IsTree 3 genesis_after_votes.ch
    × (get_preferred_block 4 genesis_with_child genesis_after_votes ≢ ok none)
unfolding insert get_block_hash fresh serialize_number put le_bytes serialize_blob blob_bytes
    contents update_valid_block check_quorum
get_preferred_block-terminates_example =
    get_preferred_block-terminates sequence_hash first_votes 1 100 genesis_with_child small_chain
      genesis_after_votes small_chain-IsTree refl refl

-- The first block has become valid.
abbrev first_valid : Chain
first_valid = record small_chain { valid_block = first_node }

-- A hash for every block, in place of SHA-512.
abbrev constant : Hash
constant bytes = 105

-- The first block has the account hash 77, and its node stands under its new hash.
abbrev with_accounts : BlockNode
with_accounts = record first_node {
  id = 105;
  block = record (header_of 1 100) { account_balance_merkle_root_hash = 77 };
}

abbrev assigned : Chain
assigned = record first_valid {
  ch =
      (100, record genesis_with_child { valid_child = some 105 })
      ∷ ((101, record with_accounts { id = 101 }) ∷ ((105, with_accounts) ∷ []));
  valid_block = with_accounts;
  validations = (31, node 105) ∷ [];
}

hash_constant : (h : BlockHeader) → get_block_hash constant h ≡ ok 105
unfolding get_block_hash fresh serialize_number put le_bytes serialize_blob blob_bytes contents
hash_constant h = refl

assign_account_hash-past_end_example :
    assign_account_hash constant 77
      (101 ∷ [])
      (record first_valid { validations = (31, node 101) ∷ ((32, past_end) ∷ []) })
    ≢ ok (assigned, [])
assign_account_hash-past_end_example =
    assign_account_hash-past_end constant 77 (101 ∷ [])
      (record first_valid { validations = (31, node 101) ∷ ((32, past_end) ∷ []) }) 105 32
      (hash_constant _) refl (inr (inl refl)) (assigned, [])
