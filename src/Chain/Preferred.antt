-- ===== src/Chain/Preferred.antt =====
-- `Chain::getPreferredBlock` of src/Consensus/Chain.cpp.
use pqblockchain.Prelude.{
  ℕ, zero, suc, ◌+◌, ◌%◌, ◌^◌, ◌≤◌, ◌<◌, ◌≡◌, ◌≢◌, ap, inl, inr, Bool, true, false, Option, none,
  some, List, [], ◌∷◌, All, ltb, leb, ◌||◌, refl, ◌∙◌, Bool-cases, Option-cases, arith,
}
use pqblockchain.Prelude.Map.{Map, lookup}
use pqblockchain.Exceptions.{Result, ok, fault, ◌>>=◌, >>=-inverse, ok_subst}
use pqblockchain.Chain.{BlockNode, Chain, insert, update_valid_block, get_support, get_uncommitted}
use pqblockchain.Crypto.{Hash}
use pqblockchain.Block.{BlockHeader}

-- What a pointer to a node of the tree points to.
unfoldable pub node_at : ℕ → Chain → Result BlockNode
node_at k c = elim (lookup k c.ch) [ none ↦ fault | some n ↦ ok n ]

-- The loop over the children: the best one, its support and `secondBestSupport`, which changes only
-- with the best one.
unfoldable pub choose : List ℕ → ℕ × ℕ × ℕ → Chain → Result (ℕ × ℕ × ℕ)
choose [] best c = ok best
choose (k ∷ childs) best c = do
  n ← node_at k c
  support ← get_support n c
  elim (ltb best.1 support) [
    | true ↦ choose childs (k, support, best.1) c
    | false ↦ choose childs best c
  ]

-- The same from the first child on, or `none` for a leaf.
unfoldable pub best_child : List ℕ → Chain → Result (Option (ℕ × ℕ × ℕ))
unfolding node_at choose
best_child [] c = ok none
best_child (first ∷ childs) c = do
  n ← node_at first c
  support ← get_support n c
  best ← choose (first ∷ childs) (first, support, 0) c
  ok (some best)

-- `getPreferredBlock` of a node, with fuel, and `none` where it runs out.
unfoldable pub get_preferred_block : ℕ → BlockNode → Chain → Result (Option BlockNode)
unfolding node_at best_child
get_preferred_block zero n c = ok none
get_preferred_block (suc fuel) n c = do
  found ← best_child n.childs c
  elim found [
    | none ↦ ok (some n)
    | some best ↦ do
      child ← node_at best.0 c
      uncommitted ← get_uncommitted child c
      elim (leb best.1 uncommitted || leb best.1 ((best.2 + uncommitted) % 2 ^ 32)) [
        | true ↦ ok (some n)
        | false ↦ get_preferred_block fuel child c
      ]
  ]

choose-All :
    (P : ℕ → Type 0) (childs : List ℕ) (best r : ℕ × ℕ × ℕ) (c : Chain)
    → All P childs
    → P best.0
    → choose childs best c ≡ ok r
    → P r.0
unfolding choose
choose-All P [] best r c h b e = ok_subst (λ x. P x.0) best r e b
choose-All P (k ∷ childs) best r c h b e =
    let (n, _, later) = >>=-inverse (node_at k c) _ r e in
    let (support, _, last) = >>=-inverse (get_support n c) _ r later in
    elim (Bool-cases (ltb best.1 support)) [
      | inl better ↦ choose-All P childs (k, support, best.1) r c h.1 h.0 (rw better at last)
      | inr worse ↦ choose-All P childs best r c h.1 b (rw worse at last)
    ]

OfSome : (ℕ → Type 0) → Option (ℕ × ℕ × ℕ) → Type 0
OfSome P none = Unit {0}
OfSome P (some best) = P best.0

best_child-All :
    (P : ℕ → Type 0) (childs : List ℕ) (best : ℕ × ℕ × ℕ) (c : Chain)
    → All P childs
    → best_child childs c ≡ ok (some best)
    → P best.0
unfolding best_child OfSome
best_child-All P [] best c h e =
    absurd (let leaf : none ≡ some best = ok_subst (λ x. none ≡ x) none (some best) e refl in cc)
best_child-All P (first ∷ childs) best c h e =
    let (n, _, later) = >>=-inverse (node_at first c) _ (some best) e in
    let (support, _, last) = >>=-inverse (get_support n c) _ (some best) later in
    let (r, chosen, same) = >>=-inverse (choose (first ∷ childs) (first, support, 0) c) _ _ last in
    ok_subst (OfSome P) (some r) (some best) same
      (choose-All P (first ∷ childs) (first, support, 0) r c h h.0 chosen)

node_at-inverse : (k : ℕ) (c : Chain) (n : BlockNode) → node_at k c ≡ ok n → lookup k c.ch ≡ some n
unfolding node_at
node_at-inverse k c n e = elim (Option-cases (lookup k c.ch)) [
  | inl missing ↦ absurd (let no : fault ≡ ok n = rw (node_at, missing) at e in cc)
  | inr (m, there) ↦ ok_subst (λ x. lookup k c.ch ≡ some x) m n (rw (node_at, there) at e) there
]

-- Every node lies strictly deeper than its parent, and none deeper than `bound`.
abbrev pub HasDepth : (ℕ → ℕ) → ℕ → Map BlockNode → Type 0
HasDepth depth bound ch =
    (k : ℕ) (n : BlockNode)
    → lookup k ch ≡ some n
    → (depth k ≤ bound) × All (λ j. depth k < depth j) n.childs

stays : (n : BlockNode) → (let r : Result (Option BlockNode) = ok (some n) in r) ≢ ok none
stays n e = let never : some n ≡ none = ok_subst (λ x. some n ≡ x) (some n) none e refl in cc

get_preferred_block-enough :
    (depth : ℕ → ℕ) (bound fuel level : ℕ) (n : BlockNode) (c : Chain)
    → HasDepth depth bound c.ch
    → level ≤ bound
    → All (λ j. level < depth j) n.childs
    → bound < fuel + level
    → get_preferred_block fuel n c ≢ ok none
unfolding get_preferred_block
get_preferred_block-enough depth bound zero level n c h l a f e = absurd (omega arith)
get_preferred_block-enough depth bound (suc fuel) level n c h l a f e =
    let (found, chosen, later) = >>=-inverse (best_child n.childs c) _ none e in
    elim (Option-cases found) [
      | inl leaf ↦ stays n (rw leaf at later)
      | inr (best, some_best) ↦
          let (child, pointed, next) =
            >>=-inverse (node_at best.0 c) _ none (rw some_best at later) in
          let (uncommitted, _, last) = >>=-inverse (get_uncommitted child c) _ none next in
          let deeper : level < depth best.0 =
            best_child-All (λ j. level < depth j) n.childs best c a (chosen ∙ ap ok some_best) in
          let (shallow, below) = h best.0 child (node_at-inverse best.0 c child pointed) in
          elim (Bool-cases
            (leb best.1 uncommitted || leb best.1 ((best.2 + uncommitted) % 2 ^ 32))) [
              | inl here ↦ stays n (rw here at last)
              | inr down ↦
                  get_preferred_block-enough depth bound fuel (depth best.0) child c h shallow below
                    (omega arith) (rw down at last)
            ]
    ]

pub get_preferred_block_enough :
    (depth : ℕ → ℕ) (bound level : ℕ) (n : BlockNode) (c : Chain)
    → HasDepth depth bound c.ch
    → level ≤ bound
    → All (λ j. level < depth j) n.childs
    → get_preferred_block (bound + 1) n c ≢ ok none
get_preferred_block_enough depth bound level n c h l a =
    get_preferred_block-enough depth bound (bound + 1) level n c h l a (omega arith)

-- Votes as the wrapper passes them on, each by `insert` and then `updateValidBlock`: the issuer, the
-- block, whether it is the local node's, and the block of the round.
abbrev pub insert_all : Hash → List (ℕ × BlockHeader × Bool × ℕ) → Chain → Result Chain
insert_all sha512 [] c = ok c
insert_all sha512 ((issuer, block, is_local, curr_block_id) ∷ votes) c = do
  c ← insert sha512 issuer block is_local c
  insert_all sha512 votes (update_valid_block curr_block_id c).0
