-- ===== src/MessageProcessor/Announced.antt =====
-- Inventories of a block: `procInvBlock` of src/Network/MessageManagement.cpp.
use pqblockchain.Prelude.{
  ℕ, zero, suc, ◌+◌, ◌*◌, ◌%◌, ◌^◌, ◌≤◌, ◌<◌, ◌≡◌, ◌⊎◌, refl, inl, inr, true, false, none, some,
  length, leb, Bool-cases, leb-false, ne→==_false, lt→leb_false, if◌then◌else◌, arith,
}
use pqblockchain.Prelude.Map.{lookup, lookup-assign_self}
use pqblockchain.Exceptions.{Result, ok, ◌>>=◌}
use pqblockchain.Account.{BalanceStore}
use pqblockchain.Storage.{Database}
use pqblockchain.Storage.Blocks.{get_block}
use pqblockchain.MessageProcessor.State.{Processor}
use pqblockchain.MessageProcessor.Inventories.{set_quorum, count_inventory, proc_inv_block}

module _ (b : BalanceStore) (d : Database) (id : ℕ) where
  -- So many inventories of the block: the node afterwards, and how often the block is asked for.
  abbrev pub announced : ℕ → Processor b d → Result (Processor b d × ℕ)
  announced zero p = ok (p, 0)
  announced (suc n) p = do
    (p, asked) ← proc_inv_block b d id p
    (p, count) ← announced n p
    ok (p, if asked then count + 1 else count)

  abbrev pub unl_size : Processor b d → ℕ
  unl_size p = length ((p.wrapper).wallet).node_unl

  once_asked :
      (n : ℕ) (p : Processor b d)
      → lookup id p.block_inv_quorum ≡ some 0
      → announced n p ≡ ok (p, 0)
  unfolding proc_inv_block
  once_asked zero p h = refl
  once_asked (suc n) p h = rw (h, proc_inv_block) (rw (once_asked n p h) refl)

  first_count :
      (p : Processor b d)
      → lookup id p.block_inv_quorum ≡ none
      → get_block d id (p.wrapper).blocks ≡ ok none
      → proc_inv_block b d id p ≡ ok (set_quorum b d id 1 p, false)
  unfolding proc_inv_block
  first_count p new unknown = rw (new, proc_inv_block) (rw unknown refl)

  next_count :
      (seen : ℕ) (p : Processor b d)
      → lookup id p.block_inv_quorum ≡ some seen
      → 1 ≤ seen
      → seen + 1 < 2 ^ 32
      → proc_inv_block b d id p
        ≡ ok (
            if leb (4 * unl_size p) (5 * (seen + 1))
            then (set_quorum b d id 0 p, true)
            else (set_quorum b d id (seen + 1) p, false))
  unfolding proc_inv_block count_inventory
  next_count seen p h some_seen fits =
      let e : (seen + 1) % 2 ^ 32 ≡ seen + 1 = omega arith in
      rw (h, proc_inv_block)
        (rw (ne→==_false seen 0 (λ none_seen. absurd (omega arith))) (rw e refl))

  enough :
      (n seen : ℕ) (p : Processor b d)
      → lookup id p.block_inv_quorum ≡ some seen
      → 1 ≤ seen
      → 1 ≤ n
      → seen + n < 2 ^ 32
      → 4 * unl_size p ≤ 5 * (seen + n)
      → (q : Processor b d) × (announced n p ≡ ok (q, 1)) × (lookup id q.block_inv_quorum ≡ some 0)
  enough zero seen p h some_seen some_left fits reached = absurd (omega arith)
  enough (suc n) seen p h some_seen some_left fits reached =
      let count = next_count seen p h some_seen (omega arith) in
      elim (Bool-cases (leb (4 * unl_size p) (5 * (seen + 1)))) [
        | inl now ↦
            let after = lookup-assign_self id 0 p.block_inv_quorum in
            (
              set_quorum b d id 0 p,
              rw count (rw now (rw (once_asked n (set_quorum b d id 0 p) after) refl)),
              after,
            )
        | inr later ↦
            let below : 5 * (seen + 1) < 4 * unl_size p = leb-false _ _ later in
            let (q, e, f) =
              enough n (seen + 1) (set_quorum b d id (seen + 1) p)
                (lookup-assign_self id (seen + 1) p.block_inv_quorum) (omega arith) (omega arith)
                (omega arith) (omega arith) in
            (q, rw count (rw later (rw e refl)), f)
      ]

  too_few :
      (n seen : ℕ) (p : Processor b d)
      → lookup id p.block_inv_quorum ≡ some seen
      → 1 ≤ seen
      → seen + n < 2 ^ 32
      → 5 * (seen + n) < 4 * unl_size p
      → (q : Processor b d) × (announced n p ≡ ok (q, 0))
  too_few zero seen p h some_seen fits short = (p, refl)
  too_few (suc n) seen p h some_seen fits short =
      let later : leb (4 * unl_size p) (5 * (seen + 1)) ≡ false = lt→leb_false _ _ (omega arith) in
      let (q, e) =
        too_few n (seen + 1) (set_quorum b d id (seen + 1) p)
          (lookup-assign_self id (seen + 1) p.block_inv_quorum) (omega arith) (omega arith)
          (omega arith) in
      (q, rw (next_count seen p h some_seen (omega arith)) (rw later (rw e refl)))

  -- A block that is neither counted nor stored is announced n times, fewer than 2^32. From the second
  -- announcement on, and once 5 n reaches four times the size of the UNL, it has been asked for exactly
  -- once, and stays marked as asked for; before that it has not been asked for. The peers that announce
  -- it are not looked at: one peer that repeats its inventory is enough.
  pub proc_inv_block_announced :
      (n : ℕ) (p : Processor b d)
      → lookup id p.block_inv_quorum ≡ none
      → get_block d id (p.wrapper).blocks ≡ ok none
      → n < 2 ^ 32
      → (2 ≤ n
          → 4 * unl_size p ≤ 5 * n
          → (q : Processor b d) × (announced n p ≡ ok (q, 1))
            × (lookup id q.block_inv_quorum ≡ some 0))
        × ((n < 2) ⊎ (5 * n < 4 * unl_size p) → (q : Processor b d) × (announced n p ≡ ok (q, 0)))
  proc_inv_block_announced zero p new unknown fits = (λ two. absurd (omega arith), λ few. (p, refl))
  proc_inv_block_announced (suc n) p new unknown fits =
      let first = first_count p new unknown in
      let counted = lookup-assign_self id 1 p.block_inv_quorum in
      (
        λ two reached.
            let (q, e, f) =
              enough n 1 (set_quorum b d id 1 p) counted (omega arith) (omega arith) (omega arith)
                (omega arith) in
            (q, rw first (rw e refl), f),
        λ few. elim few [
          | inl one ↦
              let none_left : n ≡ 0 = omega arith in
              (set_quorum b d id 1 p, rw first (rw none_left refl))
          | inr short ↦
              let (q, e) =
                too_few n 1 (set_quorum b d id 1 p) counted (omega arith) (omega arith)
                  (omega arith) in
              (q, rw first (rw e refl))
        ],
      )
