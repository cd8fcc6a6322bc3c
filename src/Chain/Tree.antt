-- ===== src/Chain/Tree.antt =====
-- The nodes of src/Consensus/Chain.cpp as a tree, and what keeps them one.
pub mod Insert
use pqblockchain.Prelude.{
  ℕ, zero, suc, ◌+◌, ◌-◌, ◌%◌, ◌^◌, ◌≤◌, ◌<◌, ◌≡◌, ◌≢◌, refl, sym, subst, ap, ◌∙◌, inl, inr, Bool,
  true, false, Option, none, some, List, [], ◌∷◌, ◌++◌, length, All, All-append, ◌==◌,
  if◌then◌else◌, Bool-cases, Option-cases, ==→eq, eq→==, ne→==, ne→==_false, arith,
}
use pqblockchain.Prelude.Map.{
  Map, lookup, assign, lookup-assign, lookup-assign_self, lookup-assign_ne,
}
use pqblockchain.Exceptions.{Result, ok, fault, ◌>>=◌, >>=-inverse, ok_subst}
use pqblockchain.Crypto.{Hash}
use pqblockchain.Block.{BlockHeader, get_block_hash}
use pqblockchain.Chain.{
  BlockNode, Chain, Reference, node, null, past_end, withdraw, leave, support_again, grow, insert,
}
use pqblockchain.Chain.Preferred.{insert_all, get_preferred_block, get_preferred_block_enough}

-- Where a node is stored, its depth is below the bound and its children are stored, each one deeper.
abbrev pub IsPlaced : (ℕ → ℕ) → ℕ → Map BlockNode → ℕ → List ℕ → Type 0
IsPlaced depth bound ch k childs =
    (depth k ≤ bound) × All (λ j. depth k < depth j) childs × All (λ j. lookup j ch ≢ none) childs

pub record IsTree (bound : ℕ) (ch : Map BlockNode) : Type 0 where
  pub depth : ℕ → ℕ
  pub placed : (k : ℕ) (n : BlockNode) → lookup k ch ≡ some n → IsPlaced depth bound ch k n.childs

All-weaken : (P Q : ℕ → Type 0) (xs : List ℕ) → ((j : ℕ) → P j → Q j) → All P xs → All Q xs
All-weaken P Q [] f h = tt
All-weaken P Q (x ∷ xs) f h = (f x h.0, All-weaken P Q xs f h.1)

some_subst : {A : Type 0} (P : A → Type 0) (a b : A) → some a ≡ some b → P a → P b
some_subst P a b e h = let same : a ≡ b = cc in subst P same h

stored_assign :
    (id : ℕ) (n : BlockNode) (ch : Map BlockNode) (j : ℕ)
    → lookup j ch ≢ none
    → lookup j (assign id n ch) ≢ none
stored_assign id n ch j h = elim (Bool-cases (id == j)) [
  | inl e ↦ rw (sym (==→eq id j e), lookup-assign_self id n ch) (λ no_node. cc)
  | inr e ↦ rw (lookup-assign_ne id j n ch (ne→== id j e)) h
]

-- A node is written again with the children that it had.
same_childs-IsTree :
    (bound id : ℕ) (n m : BlockNode) (ch : Map BlockNode)
    → lookup id ch ≡ some n
    → m.childs ≡ n.childs
    → IsTree bound ch
    → IsTree bound (assign id m ch)
same_childs-IsTree bound id n m ch known same v =
    let depth = v.depth in
    let still : (k : ℕ) (childs : List ℕ)
        → IsPlaced depth bound ch k childs
        → IsPlaced depth bound (assign id m ch) k childs =
      λ k childs p.
        (p.0, p.1, All-weaken (λ j. lookup j ch ≢ none) _ childs (stored_assign id m ch) p.2) in
    record {
      depth = depth;
      placed = λ k x e. elim (Bool-cases (id == k)) [
        | inl own ↦
            let here = ==→eq id k own in
            let found : some m ≡ some x =
              sym (lookup-assign_self id m ch) ∙ ap (λ i. lookup i (assign id m ch)) here ∙ e in
            some_subst (λ y. IsPlaced depth bound (assign id m ch) k y.childs) m x found
              (subst (λ i. IsPlaced depth bound (assign id m ch) i m.childs) here
                (subst (IsPlaced depth bound (assign id m ch) id) (sym same)
                  (still id n.childs (v.placed id n known))))
        | inr other ↦
            still k x.childs
              (v.placed k x (sym (lookup-assign_ne id k m ch (ne→== id k other)) ∙ e))
      ];
    }

-- The depth of a new node below the node of depth `level`.
abbrev with_depth : ℕ → ℕ → (ℕ → ℕ) → ℕ → ℕ
with_depth id level depth j = if id == j then level + 1 else depth j

apart_stored : (id j : ℕ) (ch : Map BlockNode) → lookup id ch ≡ none → lookup j ch ≢ none → id ≢ j
apart_stored id j ch new stored e = stored (ap (λ i. lookup i ch) (sym e) ∙ new)

with_depth-All :
    (id level here : ℕ) (depth : ℕ → ℕ) (ch : Map BlockNode) (childs : List ℕ)
    → lookup id ch ≡ none
    → All (λ j. here < depth j) childs
    → All (λ j. lookup j ch ≢ none) childs
    → All (λ j. here < with_depth id level depth j) childs
with_depth-All id level here depth ch [] new h s = tt
with_depth-All id level here depth ch (j ∷ childs) new h s = (
  rw (ne→==_false id j (apart_stored id j ch new s.0)) h.0,
  with_depth-All id level here depth ch childs new h.1 s.1,
)

-- A leaf is stored under a new key, to become a child of `parent`.
leaf-IsTree :
    (bound id parent : ℕ) (p leaf : BlockNode) (ch : Map BlockNode)
    → lookup id ch ≡ none
    → lookup parent ch ≡ some p
    → leaf.childs ≡ []
    → IsTree bound ch
    → (t : IsTree (bound + 1) (assign id leaf ch)) × (t.depth parent < t.depth id)
leaf-IsTree bound id parent p leaf ch new known no_childs v =
    let depth' = with_depth id (v.depth parent) v.depth in
    let (parent_bound, _, _) = v.placed parent p known in
    let apart : id ≢ parent = apart_stored id parent ch new (rw known (λ e. cc)) in
    (
      record {
        depth = depth';
        placed = λ k x e. elim (Bool-cases (id == k)) [
          | inl own ↦
              let found : some leaf ≡ some x =
                sym (lookup-assign_self id leaf ch)
                ∙ ap (λ i. lookup i (assign id leaf ch)) (==→eq id k own)
                ∙ e in
              some_subst (λ y. IsPlaced depth' (bound + 1) (assign id leaf ch) k y.childs) leaf x
                found
                (subst (IsPlaced depth' (bound + 1) (assign id leaf ch) k) (sym no_childs)
                  (rw own (omega arith), tt, tt))
          | inr other ↦
              let (shallow, deeper, stored) =
                v.placed k x (sym (lookup-assign_ne id k leaf ch (ne→== id k other)) ∙ e) in
              rw other (
                omega arith,
                with_depth-All id (v.depth parent) (v.depth k) v.depth ch x.childs new deeper
                    stored,
                All-weaken (λ j. lookup j ch ≢ none) _ x.childs (stored_assign id leaf ch) stored,
              )
        ];
      },
      rw (eq→== id id refl, ne→==_false id parent apart) (omega arith),
    )

-- A node that is stored becomes a child of one that is less deep.
add_child-IsTree :
    (bound id parent : ℕ) (p m : BlockNode) (ch : Map BlockNode)
    → lookup parent ch ≡ some p
    → lookup id ch ≢ none
    → m.childs ≡ p.childs ++ id ∷ []
    → (t : IsTree bound ch) → t.depth parent < t.depth id
    → IsTree bound (assign parent m ch)
add_child-IsTree bound id parent p m ch known stored childs v deeper =
    let depth = v.depth in
    let still : (k : ℕ) (xs : List ℕ)
        → IsPlaced depth bound ch k xs
        → IsPlaced depth bound (assign parent m ch) k xs =
      λ k xs h.
        (h.0, h.1, All-weaken (λ j. lookup j ch ≢ none) _ xs (stored_assign parent m ch) h.2) in
    let (shallow, below, there) = v.placed parent p known in
    let grown : IsPlaced depth bound ch parent (p.childs ++ id ∷ []) = (
      shallow,
      All-append (λ j. depth parent < depth j) p.childs (id ∷ []) below (deeper, tt),
      All-append (λ j. lookup j ch ≢ none) p.childs (id ∷ []) there (stored, tt),
    ) in
    record {
      depth = depth;
      placed = λ k x e. elim (Bool-cases (parent == k)) [
        | inl own ↦
            let here = ==→eq parent k own in
            let found : some m ≡ some x =
              sym (lookup-assign_self parent m ch)
              ∙ ap (λ i. lookup i (assign parent m ch)) here
              ∙ e in
            some_subst (λ y. IsPlaced depth bound (assign parent m ch) k y.childs) m x found
              (subst (λ i. IsPlaced depth bound (assign parent m ch) i m.childs) here
                (subst (IsPlaced depth bound (assign parent m ch) parent) (sym childs)
                  (still parent (p.childs ++ id ∷ []) grown)))
        | inr other ↦
            still k x.childs
              (v.placed k x (sym (lookup-assign_ne parent k m ch (ne→== parent k other)) ∙ e))
      ];
    }
