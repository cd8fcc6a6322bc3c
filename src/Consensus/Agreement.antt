-- ===== src/Consensus/Agreement.antt =====
-- src/Consensus/Consensus.cpp: the pool of transactions (`ConsensusWrapper`) and the test of a round
-- for agreement (`Consensus::haveConsensus`). Peers and transaction sets are named by numbers in place
-- of their hexadecimal digits.
mod Tests
use native.Mathlib.Nat.{div-eq_of_lt, le-div_iff_mul-le}
use pqblockchain.Prelude.{
  ℕ, ◌+◌, ◌*◌, ◌/◌, ◌≤◌, ◌<◌, ◌≡◌, ◌≢◌, ◌↔◌, refl, ap, ◌∙◌, Bool, true, false, Option, none, some,
  List, [], ◌∷◌, ltb, ◌==◌, length, if◌then◌else◌, arith, Option-cases, inl, inr, Bool-cases,
  ltb-false, ltb→lt, lt→ltb,
}
use pqblockchain.Prelude.Map.{
  Map, lookup, assign, erase, HasKeys, lookup-assign_self, lookup-assign_ne, lookup-erase_self,
}
use pqblockchain.Transaction.{Transaction}

-- `TransactionPool`, by the hashes of the transactions.
abbrev pub TransactionPool : Type 0
TransactionPool = Map Transaction

-- `isTransactionInPool`.
unfoldable pub is_transaction_in_pool : ℕ → TransactionPool → Bool
is_transaction_in_pool id pool = elim (lookup id pool) [ none ↦ false | some _ ↦ true ]

-- `getTransactionFromPool`, with `none` for the null pointer.
abbrev pub get_transaction_from_pool : ℕ → TransactionPool → Option Transaction
get_transaction_from_pool id pool = lookup id pool

-- `addTransactionToPool`: whether the transaction is new.
unfoldable pub add_transaction_to_pool : Transaction → TransactionPool → TransactionPool × Bool
add_transaction_to_pool tx pool = elim (lookup tx.id_hash pool) [
  | none ↦ (assign tx.id_hash tx pool, true)
  | some _ ↦ (pool, false)
]

-- `removeTransactionFromPool`.
abbrev pub remove_transaction_from_pool : ℕ → TransactionPool → TransactionPool
remove_transaction_from_pool id pool = erase id pool

-- The peers whose last proposal is the set `id`; the values are the sets of `currPeerProposals_`.
unfoldable pub count_agree : ℕ → Map ℕ → ℕ
count_agree id [] = 0
count_agree id ((_, set) ∷ proposals) =
    let agree = count_agree id proposals in if set == id then agree + 1 else agree

-- `haveConsensus`: the quotient of two `size_t` has no fraction, and is compared with 0.8.
unfoldable pub have_consensus : ℕ → ℕ → Map ℕ → Bool
have_consensus unl_count id proposals =
    let quotient : ℕ = (count_agree id proposals + 1) / (unl_count + 1) in ltb 4 (5 * quotient)

-- `haveConsensus` asks for all of the list of trusted nodes, and not for four fifths of it: it holds
-- exactly if at least as many peers propose our set as the list has nodes.
pub have_consensus-unanimous :
    (unl_count id : ℕ) (proposals : Map ℕ)
    → (have_consensus unl_count id proposals ≡ true) ↔ (unl_count ≤ count_agree id proposals)
unfolding have_consensus
have_consensus-unanimous unl_count id proposals =
    (λ h. atleast (count_agree id proposals) h, λ h. enough (count_agree id proposals) h)
  where
    atleast : (agree : ℕ) → ltb 4 (5 * ((agree + 1) / (unl_count + 1))) ≡ true → unl_count ≤ agree
    atleast agree h = elim (Bool-cases (ltb agree unl_count)) [
      | inr e ↦ ltb-false _ _ e
      | inl e ↦
          let none_left : (agree + 1) / (unl_count + 1) ≡ 0 =
            div-eq_of_lt (let l : agree < unl_count = ltb→lt _ _ e in omega arith) in
          let no : false ≡ true = rw none_left at h in cc
    ]

    enough : (agree : ℕ) → unl_count ≤ agree → ltb 4 (5 * ((agree + 1) / (unl_count + 1))) ≡ true
    enough agree h =
        let one : 1 ≤ (agree + 1) / (unl_count + 1) =
          (le-div_iff_mul-le (omega arith)).1 (omega arith) in
        lt→ltb _ _ (omega arith)

add_present :
    (tx : Transaction) (pool : TransactionPool) (t : Transaction)
    → lookup tx.id_hash pool ≡ some t
    → add_transaction_to_pool tx pool ≡ (pool, false)
unfolding add_transaction_to_pool
add_present tx pool t e = rw (e, add_transaction_to_pool) refl

-- A transaction that `addTransactionToPool` takes is in the pool from then on and is taken once: the
-- second call with its hash refuses; other entries are as they were.
pub add_transaction_to_pool_once :
    (tx : Transaction) (pool : TransactionPool)
    → is_transaction_in_pool tx.id_hash pool ≡ false
    → (pool' : TransactionPool) × (add_transaction_to_pool tx pool ≡ (pool', true))
      × (get_transaction_from_pool tx.id_hash pool' ≡ some tx)
      × ((other : Transaction)
          → other.id_hash ≡ tx.id_hash
          → add_transaction_to_pool other pool' ≡ (pool', false))
      × ((id : ℕ)
          → tx.id_hash ≢ id
          → get_transaction_from_pool id pool' ≡ get_transaction_from_pool id pool)
unfolding is_transaction_in_pool add_transaction_to_pool
add_transaction_to_pool_once tx pool h = elim (Option-cases (lookup tx.id_hash pool)) [
  | inr (t, e) ↦ let no : true ≡ false = rw (e, is_transaction_in_pool) at h in cc
  | inl e ↦ (
    assign tx.id_hash tx pool,
    rw (e, add_transaction_to_pool) refl,
    lookup-assign_self tx.id_hash tx pool,
    λ other same. add_present other (assign tx.id_hash tx pool) tx (
        ap (λ id. lookup id (assign tx.id_hash tx pool)) same
        ∙ lookup-assign_self tx.id_hash tx pool),
    λ id apart. lookup-assign_ne tx.id_hash id tx pool apart,
  )
]
