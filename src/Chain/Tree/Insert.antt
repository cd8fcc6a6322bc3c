-- ===== src/Chain/Tree/Insert.antt =====
-- `Chain::insert` of src/Consensus/Chain.cpp keeps the nodes a tree, on which `getPreferredBlock` ends.
use pqblockchain.Prelude.{
  ℕ, suc, ◌+◌, ◌-◌, ◌%◌, ◌^◌, ◌≡◌, ◌≢◌, refl, subst, ◌∙◌, inl, inr, Bool, true, false, none, some,
  List, [], ◌∷◌, ◌++◌, length, if◌then◌else◌, Option-cases, Bool-cases, arith,
}
use pqblockchain.Prelude.Map.{Map, lookup, assign, lookup-assign_self, lookup-assign_ne}
use pqblockchain.Exceptions.{ok, fault, >>=-inverse, ok_subst}
use pqblockchain.Crypto.{Hash}
use pqblockchain.Block.{BlockHeader, get_block_hash}
use pqblockchain.Chain.{
  BlockNode, Chain, Reference, node, null, past_end, withdraw, leave, support_again, grow, insert,
  update_valid_block, check_quorum,
}
use pqblockchain.Chain.Preferred.{insert_all, get_preferred_block, get_preferred_block_enough}
use pqblockchain.Chain.Tree.{
  IsTree, same_childs-IsTree, apart_stored, leaf-IsTree, add_child-IsTree,
}

IsTree-deeper : (bound : ℕ) (ch : Map BlockNode) → IsTree bound ch → IsTree (bound + 1) ch
IsTree-deeper bound ch v = record {
  depth = v.depth;
  placed = λ k n e. let (shallow, deeper, stored) = v.placed k n e in (omega arith, deeper, stored);
}

withdraw-IsTree :
    (bound : ℕ) (r : Reference) (ch after : Map BlockNode)
    → withdraw r ch ≡ ok after
    → IsTree bound ch
    → IsTree bound after
unfolding withdraw
withdraw-IsTree bound null ch after e v = ok_subst (IsTree bound) ch after e v
withdraw-IsTree bound past_end ch after e v = absurd (let no : fault ≡ ok after = e in cc)
withdraw-IsTree bound (node id) ch after e v = elim (Option-cases (lookup id ch)) [
  | inl missing ↦ absurd (let no : fault ≡ ok after = rw (withdraw, missing) at e in cc)
  | inr (n, known) ↦ ok_subst (IsTree bound) _ after (rw (withdraw, known) at e) (
      same_childs-IsTree bound id n
        (record n { tip_support = (n.tip_support + 2 ^ 32 - 1) % 2 ^ 32 }) ch known refl v)
]

leave-IsTree :
    (bound issuer : ℕ) (is_local : Bool) (c : Chain) (after : Map BlockNode)
    → leave issuer is_local c ≡ ok after
    → IsTree bound c.ch
    → IsTree bound after
unfolding leave
leave-IsTree bound issuer true c after e v = ok_subst (IsTree bound) c.ch after e v
leave-IsTree bound issuer false c after e v = elim (Option-cases (lookup issuer c.validations)) [
  | inl first ↦ ok_subst (IsTree bound) c.ch after (rw (leave, first) at e) v
  | inr (r, again) ↦ withdraw-IsTree bound r c.ch after (rw (leave, again) at e) v
]

support_again-IsTree :
    (bound issuer id : ℕ) (is_local : Bool) (n : BlockNode) (c : Chain)
    → lookup id c.ch ≡ some n
    → IsTree bound c.ch
    → IsTree bound (support_again issuer id is_local n c).ch
unfolding support_again
support_again-IsTree bound issuer id true n c known v = v
support_again-IsTree bound issuer id false n c known v =
    same_childs-IsTree bound id n (record n { tip_support = (n.tip_support + 1) % 2 ^ 32 }) c.ch
      known refl v

grow-IsTree :
    (bound issuer id : ℕ) (block : BlockHeader) (is_local : Bool) (c : Chain)
    → lookup id c.ch ≡ none
    → IsTree bound c.ch
    → IsTree (bound + 1) (grow issuer id block is_local c).ch
unfolding grow
grow-IsTree bound issuer id block is_local c new v =
    elim (Option-cases (lookup block.previous_block_hash c.ch)) [
      | inl missing ↦ rw (grow, missing) (IsTree-deeper bound c.ch v)
      | inr (p, known) ↦
          let leaf : BlockNode = record {
            id = id;
            block = block;
            parent = some block.previous_block_hash;
            valid_child = none;
            childs = [];
            tip_support = if is_local then 0 else 1;
          } in
          let apart : id ≢ block.previous_block_hash =
            apart_stored id block.previous_block_hash c.ch new (rw known (λ e. cc)) in
          let (t, deeper) =
            leaf-IsTree bound id block.previous_block_hash p leaf c.ch new known refl v in
          rw (grow, known)
            (add_child-IsTree (bound + 1) id block.previous_block_hash p
              (record p { childs = p.childs ++ id ∷ [] }) (assign id leaf c.ch)
              (lookup-assign_ne id block.previous_block_hash leaf c.ch apart ∙ known)
              (rw (lookup-assign_self id leaf c.ch) (λ e. cc)) refl t deeper)
    ]

insert-IsTree :
    (sha512 : Hash) (bound issuer : ℕ) (block : BlockHeader) (is_local : Bool) (c c' : Chain)
    → insert sha512 issuer block is_local c ≡ ok c'
    → IsTree bound c.ch
    → IsTree (bound + 1) c'.ch
unfolding insert
insert-IsTree sha512 bound issuer block is_local c c' e v =
    let (ch, left, later) = >>=-inverse (leave issuer is_local c) _ c' e in
    let (id, _, last) = >>=-inverse (get_block_hash sha512 block) _ c' later in
    let w = leave-IsTree bound issuer is_local c ch left v in
    let between : Chain = record c { ch = ch } in
    elim (Option-cases (lookup id ch)) [
      | inl new ↦
          ok_subst (λ x. IsTree (bound + 1) x.ch) _ c' (rw new at last)
            (grow-IsTree bound issuer id block is_local between new w)
      | inr (n, known) ↦
          ok_subst (λ x. IsTree (bound + 1) x.ch) _ c' (rw known at last)
            (IsTree-deeper bound _
              (support_again-IsTree bound issuer id is_local n between known w))
    ]

update_valid_block-IsTree :
    (bound id : ℕ) (c : Chain) → IsTree bound c.ch → IsTree bound ((update_valid_block id c).0).ch
unfolding update_valid_block
update_valid_block-IsTree bound id c v = elim (Option-cases (lookup id c.ch)) [
  | inl missing ↦ rw (update_valid_block, missing) v
  | inr (n, known) ↦ elim (Bool-cases (check_quorum n c)) [
    | inl reached ↦ rw (update_valid_block, known, reached) v
    | inr missed ↦ rw (update_valid_block, known, missed) v
  ]
]

insert_all-IsTree :
    (sha512 : Hash) (votes : List (ℕ × BlockHeader × Bool × ℕ)) (bound : ℕ) (c c' : Chain)
    → insert_all sha512 votes c ≡ ok c'
    → IsTree bound c.ch
    → IsTree (bound + length votes) c'.ch
insert_all-IsTree sha512 [] bound c c' e v =
    ok_subst (λ x. IsTree (bound + 0) x.ch) c c' e (subst (λ b. IsTree b c.ch) (omega arith) v)
insert_all-IsTree sha512 ((issuer, block, is_local, curr) ∷ votes) bound c c' e v =
    let (next, inserted, later) = >>=-inverse (insert sha512 issuer block is_local c) _ c' e in
    subst (λ b. IsTree b c'.ch)
      (let same : (bound + 1) + length votes ≡ bound + suc (length votes) = omega arith in same)
      (insert_all-IsTree sha512 votes (bound + 1) (update_valid_block curr next).0 c' later (
        update_valid_block-IsTree (bound + 1) curr next
          (insert-IsTree sha512 bound issuer block is_local c next inserted v)))

-- `getPreferredBlock` comes to an end on every tree that `insert` builds: if the nodes were a tree of depth
-- `bound` at most, and any number of votes have been inserted since, each by a call of `insert` that returns
-- and one of `updateValidBlock`, then the nodes
-- are a tree whose depth has grown by one at most for each of these votes, and the recursion from any
-- node of it makes no more calls than that depth and one.
pub get_preferred_block-terminates :
    (sha512 : Hash) (votes : List (ℕ × BlockHeader × Bool × ℕ)) (bound k : ℕ) (n : BlockNode)
    (c c' : Chain)
    → IsTree bound c.ch
    → insert_all sha512 votes c ≡ ok c'
    → lookup k c'.ch ≡ some n
    → IsTree (bound + length votes) c'.ch
      × (get_preferred_block (bound + length votes + 1) n c' ≢ ok none)
get_preferred_block-terminates sha512 votes bound k n c c' v e stored =
    let t = insert_all-IsTree sha512 votes bound c c' e v in
    let (shallow, deeper, _) = t.placed k n stored in
    (
      t,
      get_preferred_block_enough t.depth (bound + length votes) (t.depth k) n c'
          (λ j m there. let p = t.placed j m there in (p.0, p.1)) shallow deeper,
    )
