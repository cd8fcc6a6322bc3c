-- ===== src/Chain/Assigned.antt =====
-- What `Chain::assignAccountHashToValidBlock` of src/Consensus/Chain.cpp leaves.
use pqblockchain.Prelude.{
  ℕ, ◌≡◌, ◌≢◌, refl, inl, inr, none, List, [], ◌∷◌, IsIn, Option-cases, arith,
}
use pqblockchain.Prelude.Map.{Map, lookup, assign, lookup-assign}
use pqblockchain.Exceptions.{ok, fault, >>=-inverse}
use pqblockchain.Crypto.{Hash}
use pqblockchain.Block.{BlockHeader, get_block_hash}
use pqblockchain.Chain.{BlockNode, Reference, node, null, past_end, Chain}
use pqblockchain.Chain.Assign.{
  share_header, move_validations, adopt, rename_valid, assign_account_hash,
}

lookup-share_header :
    (header : BlockHeader) (k : ℕ) (sharers : List ℕ) (ch : Map BlockNode)
    → lookup k ch ≡ none
    → lookup k (share_header header sharers ch) ≡ none
unfolding share_header
lookup-share_header header k [] ch h = h
lookup-share_header header k (j ∷ sharers) ch h = elim (Option-cases (lookup j ch)) [
  | inl absent ↦ rw (absent, share_header) (lookup-share_header header k sharers ch h)
  | inr (n, there) ↦
      rw (there, share_header)
        (lookup-share_header header k sharers (assign j (record n { block = header }) ch)
          (ground (arith, lookup-assign j k (record n { block = header }) ch)))
]

pub move_validations-past_end :
    (old new peer : ℕ) (ch : Map BlockNode) (validations : Map Reference)
    → IsIn {A = ℕ × Reference} (peer, past_end) validations
    → move_validations old new ch validations ≡ fault
unfolding move_validations
move_validations-past_end old new peer ch [] h = absurd h
move_validations-past_end old new peer ch ((k, null) ∷ rest) h = refl
move_validations-past_end old new peer ch ((k, past_end) ∷ rest) h = refl
move_validations-past_end old new peer ch ((k, node j) ∷ rest) (inl e) = absurd (cc)
move_validations-past_end old new peer ch ((k, node j) ∷ rest) (inr h) =
    elim (Option-cases (lookup j ch)) [
      | inl absent ↦ rw (absent, move_validations) refl
      | inr (n, there) ↦
          rw (there, move_validations) (rw (move_validations-past_end old new peer ch rest h) refl)
    ]

-- Where the last block of any peer was new when the peer proposed it, so that the pointer kept for the
-- peer is past the end of the tree, `assignAccountHashToValidBlock` never returns a chain with a new
-- node: it reads through that pointer, or through a null pointer before.
pub assign_account_hash-past_end :
    (sha512 : Hash) (account_hash : ℕ) (sharers : List ℕ) (c : Chain) (id peer : ℕ)
    → get_block_hash sha512
        (record (c.valid_block).block { account_balance_merkle_root_hash = account_hash })
      ≡ ok id
    → lookup id c.ch ≡ none
    → IsIn {A = ℕ × Reference} (peer, past_end) c.validations
    → (r : Chain × List ℕ) → assign_account_hash sha512 account_hash sharers c ≢ ok r
unfolding assign_account_hash rename_valid
assign_account_hash-past_end sha512 account_hash sharers c id peer hashed new h r e =
    let header : BlockHeader = record (c.valid_block).block {
      account_balance_merkle_root_hash = account_hash;
    } in
    let absent = lookup-share_header header id sharers c.ch new in
    let renamed : rename_valid header id sharers c ≡ ok r = rw hashed at e in
    let (adopted, up, e1) =
      >>=-inverse (adopt (c.valid_block).id id _) _ r (rw (absent, rename_valid) at renamed) in
    let no : fault ≡ ok r =
      rw (move_validations-past_end (c.valid_block).id id peer adopted c.validations h) at e1 in
    cc
