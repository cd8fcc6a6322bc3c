-- ===== src/Chain/Assign.antt =====
-- `Chain::assignAccountHashToValidBlock` of src/Consensus/Chain.cpp. Nodes hold pointers to headers,
-- and the copy of a node holds the pointer of the original: `sharers` are the keys of the nodes that
-- share the header of the valid block. `updateValidBlock` leaves the node that it copies, since no
-- older node shares the header of a block with a greater sequence number.
use pqblockchain.Prelude.{ℕ, none, some, List, [], ◌∷◌, ◌==◌, if◌then◌else◌}
use pqblockchain.Prelude.Map.{Map, lookup, assign}
use pqblockchain.Exceptions.{Result, ok, fault, ◌>>=◌}
use pqblockchain.Crypto.{Hash}
use pqblockchain.Block.{BlockHeader, get_block_hash}
use pqblockchain.Chain.{BlockNode, Reference, node, null, past_end, Chain}

-- A write to the shared header, as the nodes see it.
unfoldable pub share_header : BlockHeader → List ℕ → Map BlockNode → Map BlockNode
share_header header [] ch = ch
share_header header (k ∷ sharers) ch = elim (lookup k ch) [
  | none ↦ share_header header sharers ch
  | some n ↦ share_header header sharers (assign k (record n { block = header }) ch)
]

-- The loop over the last blocks of the peers: those at the node `old` move to the node `new`.
unfoldable pub move_validations : ℕ → ℕ → Map BlockNode → Map Reference → Result (Map Reference)
move_validations old new ch [] = ok []
move_validations old new ch ((peer, null) ∷ rest) = fault
move_validations old new ch ((peer, past_end) ∷ rest) = fault
move_validations old new ch ((peer, node k) ∷ rest) = elim (lookup k ch) [
  | none ↦ fault
  | some n ↦ do
    moved ← move_validations old new ch rest
    ok ((peer, node (if n.id == old then new else k)) ∷ moved)
]

-- `it->second.parent->validChild = &newit->second`
unfoldable pub adopt : ℕ → ℕ → Map BlockNode → Result (Map BlockNode)
adopt old new ch = elim (lookup old ch) [
  | none ↦ fault
  | some n ↦ elim n.parent [
    | none ↦ fault
    | some p ↦ elim (lookup p ch) [
      | none ↦ fault
      | some above ↦ ok (assign p (record above { valid_child = some new }) ch)
    ]
  ]
]

-- The valid block with its new header, whose hash is `new`.
unfoldable pub rename_valid : BlockHeader → ℕ → List ℕ → Chain → Result (Chain × List ℕ)
unfolding share_header move_validations adopt
rename_valid header new sharers c =
    let old : ℕ = (c.valid_block).id in
    let valid : BlockNode = record c.valid_block { block = header; id = new } in
    let ch : Map BlockNode = share_header header sharers c.ch in
    elim (lookup new ch) [
      | some _ ↦ ok (record c { ch = ch; valid_block = valid }, sharers)
      | none ↦ do
        ch ← adopt old new (assign new valid ch)
        validations ← move_validations old new ch c.validations
        ok (record c { ch = ch; valid_block = valid; validations = validations }, new ∷ sharers)
    ]

-- `assignAccountHashToValidBlock`: the chain, and the nodes that share the header from then on.
unfoldable pub assign_account_hash : Hash → ℕ → List ℕ → Chain → Result (Chain × List ℕ)
unfolding rename_valid
assign_account_hash sha512 account_hash sharers c = do
  let header : BlockHeader = record (c.valid_block).block {
    account_balance_merkle_root_hash = account_hash;
  }
  new ← get_block_hash sha512 header
  rename_valid header new sharers c
