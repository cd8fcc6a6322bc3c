-- ===== src/Chain/Laws.antt =====
-- What an insertion into the tree does, and when the valid block changes.
use pqblockchain.Prelude.{
  ◌≤◌, ℕ, ◌+◌, ◌-◌, ◌*◌, ◌%◌, ◌^◌, ◌<◌, ◌≡◌, ◌≢◌, ◌⊎◌, refl, sym, ap, ◌∙◌, inl, inr, true, false,
  none, some, [], ◌∷◌, ◌++◌, arith, Bool-cases, Option-cases,
}
use pqblockchain.Prelude.Map.{Map, lookup, assign, lookup-assign_self, lookup-assign_ne}
use pqblockchain.Exceptions.{ok, fault, ◌>>=◌}
use pqblockchain.Crypto.{Hash}
use pqblockchain.Block.{BlockHeader, get_block_hash}
use pqblockchain.Chain.{
  BlockNode, node, past_end, Chain, withdraw, leave, support_again, grow, insert, check_quorum,
  update_valid_block,
}

quorum :
    (n : BlockNode) (c : Chain)
    → check_quorum n c ≡ true
    → (4 * c.unl_count < 5 * n.tip_support)
      × (((c.valid_block).block).sequence < (n.block).sequence)
unfolding check_quorum
quorum n c q = ground arith

no_quorum :
    (n : BlockNode) (c : Chain)
    → check_quorum n c ≡ false
    → (5 * n.tip_support ≤ 4 * c.unl_count)
      ⊎ ((n.block).sequence ≤ ((c.valid_block).block).sequence)
unfolding check_quorum
no_quorum n c q = ground arith

-- `updateValidBlock` reports success exactly if the block is in the tree with more than four fifths
-- of the validators on it and a sequence number above that of the valid block; then its node is the
-- valid block and nothing else has changed. Otherwise nothing has changed at all.
pub update_valid_block-quorum :
    (id : ℕ) (c : Chain)
    → ((n : BlockNode) × (lookup id c.ch ≡ some n)
        × (4 * c.unl_count < 5 * n.tip_support)
        × (((c.valid_block).block).sequence < (n.block).sequence)
        × (update_valid_block id c ≡ (record c { valid_block = n }, true)))
      ⊎ (((n : BlockNode)
            → lookup id c.ch ≡ some n
            → (5 * n.tip_support ≤ 4 * c.unl_count)
              ⊎ ((n.block).sequence ≤ ((c.valid_block).block).sequence))
          × (update_valid_block id c ≡ (c, false)))
unfolding update_valid_block
update_valid_block-quorum id c = elim (Option-cases (lookup id c.ch)) [
  | inl e ↦ inr (λ n same. cc, rw (e, update_valid_block) refl)
  | inr (n, e) ↦ elim (Bool-cases (check_quorum n c)) [
    | inl q ↦
        let (most, later) = quorum n c q in
        inl (n, e, most, later, rw (e, update_valid_block) (rw (q, update_valid_block) refl))
    | inr q ↦ inr (
      λ m same. let found : m ≡ n = cc in no_quorum m c (rw found q),
      rw (e, update_valid_block) (rw (q, update_valid_block) refl),
    )
  ]
]

module _ (sha512 : Hash) where
  leave_first :
      (issuer : ℕ) (c : Chain) → lookup issuer c.validations ≡ none → leave issuer false c ≡ ok c.ch
  unfolding leave
  leave_first issuer c e = rw (e, leave) refl

  leave_past_end :
      (issuer : ℕ) (c : Chain)
      → lookup issuer c.validations ≡ some past_end
      → leave issuer false c ≡ fault
  unfolding leave withdraw
  leave_past_end issuer c e = rw (e, leave) refl

  leave_node :
      (issuer a : ℕ) (n : BlockNode) (c : Chain)
      → lookup issuer c.validations ≡ some (node a)
      → lookup a c.ch ≡ some n
      → leave issuer false c
        ≡ ok (assign a (record n { tip_support = (n.tip_support + 2 ^ 32 - 1) % 2 ^ 32 }) c.ch)
  unfolding leave withdraw
  leave_node issuer a n c e f = rw (e, leave) (rw (f, withdraw) refl)

  insert-leave_fault :
      (issuer : ℕ) (block : BlockHeader) (c : Chain)
      → leave issuer false c ≡ fault
      → insert sha512 issuer block false c ≡ fault
  unfolding insert
  insert-leave_fault issuer block c e = rw (e, insert) refl

  insert-grow :
      (issuer id : ℕ) (block : BlockHeader) (ch : Map BlockNode) (c : Chain)
      → leave issuer false c ≡ ok ch
      → get_block_hash sha512 block ≡ ok id
      → lookup id ch ≡ none
      → insert sha512 issuer block false c ≡ ok (grow issuer id block false (record c { ch = ch }))
  unfolding insert
  insert-grow issuer id block ch c e f g = rw (e, insert) (rw (f, ◌>>=◌) (rw (g, insert) refl))

  insert-support_again :
      (issuer id : ℕ) (block : BlockHeader) (ch : Map BlockNode) (n : BlockNode) (c : Chain)
      → leave issuer false c ≡ ok ch
      → get_block_hash sha512 block ≡ ok id
      → lookup id ch ≡ some n
      → insert sha512 issuer block false c
        ≡ ok (support_again issuer id false n (record c { ch = ch }))
  unfolding insert
  insert-support_again issuer id block ch n c e f g =
      rw (e, insert) (rw (f, ◌>>=◌) (rw (g, insert) refl))

  -- A first vote for a new block whose parent is in the tree puts the block below its parent, but
  -- leaves the issuer with a pointer to no node: whatever block the issuer votes for next, `insert`
  -- writes through that pointer, which is undefined.
  pub insert_new-past_end :
      (issuer id : ℕ) (block : BlockHeader) (p : BlockNode) (c : Chain)
      → lookup issuer c.validations ≡ none
      → get_block_hash sha512 block ≡ ok id
      → lookup id c.ch ≡ none
      → lookup block.previous_block_hash c.ch ≡ some p
      → (c' : Chain) × (insert sha512 issuer block false c ≡ ok c')
        × (lookup block.previous_block_hash c'.ch
            ≡ some (record p { childs = p.childs ++ id ∷ [] }))
        × ((next : BlockHeader) → insert sha512 issuer next false c' ≡ fault)
  unfolding grow
  insert_new-past_end issuer id block p c first hash new below = (
    grow issuer id block false c,
    insert-grow issuer id block c.ch c (leave_first issuer c first) hash new,
    rw (below, grow) (lookup-assign_self block.previous_block_hash _ _),
    λ next. insert-leave_fault issuer next (grow issuer id block false c) (
        leave_past_end issuer (grow issuer id block false c)
          (rw (below, grow) (lookup-assign_self issuer past_end c.validations))),
  )

  -- A vote of an issuer whose last vote was for the node `a`, now for another block of the tree, with
  -- no counter at the end of its range: the support of `a` falls by one, that of the block rises by
  -- one, every other node is as it was, and the issuer's vote is for the block.
  pub insert_known-support :
      (issuer id a : ℕ) (block : BlockHeader) (n m : BlockNode) (c : Chain)
      → lookup issuer c.validations ≡ some (node a)
      → lookup a c.ch ≡ some n
      → 0 < n.tip_support
      → n.tip_support < 2 ^ 32
      → get_block_hash sha512 block ≡ ok id
      → lookup id c.ch ≡ some m
      → m.tip_support + 1 < 2 ^ 32
      → a ≢ id
      → (c' : Chain) × (insert sha512 issuer block false c ≡ ok c')
        × (lookup a c'.ch ≡ some (record n { tip_support = n.tip_support - 1 }))
        × (lookup id c'.ch ≡ some (record m { tip_support = m.tip_support + 1 }))
        × ((j : ℕ) → a ≢ j → id ≢ j → lookup j c'.ch ≡ lookup j c.ch)
        × (lookup issuer c'.validations ≡ some (node id))
  unfolding support_again
  insert_known-support issuer id a block n m c was there pos fits hash known room apart =
      let ch : Map BlockNode =
        assign a (record n { tip_support = (n.tip_support + 2 ^ 32 - 1) % 2 ^ 32 }) c.ch in
      let still : lookup id ch ≡ some m = lookup-assign_ne a id _ c.ch apart ∙ known in
      let less : (n.tip_support + 2 ^ 32 - 1) % 2 ^ 32 ≡ n.tip_support - 1 = omega arith in
      let more : (m.tip_support + 1) % 2 ^ 32 ≡ m.tip_support + 1 = omega arith in
      (
        support_again issuer id false m (record c { ch = ch }),
        insert-support_again issuer id block ch m c (leave_node issuer a n c was there) hash still,
        lookup-assign_ne id a _ ch (λ e. apart (sym e))
            ∙ lookup-assign_self a _ c.ch
            ∙ ap (λ k. some (record n { tip_support = k })) less,
        lookup-assign_self id _ ch ∙ ap (λ k. some (record m { tip_support = k })) more,
        λ j aj ij. lookup-assign_ne id j _ ch ij ∙ lookup-assign_ne a j _ c.ch aj,
        lookup-assign_self issuer (node id) c.validations,
      )
