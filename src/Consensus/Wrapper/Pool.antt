-- ===== src/Consensus/Wrapper/Pool.antt =====
-- The transactions of the pool of `ConsensusWrapper` (src/Consensus/Consensus.cpp).
use pqblockchain.Prelude.{
  ℕ, ◌≡◌, ◌≢◌, refl, sym, ◌∙◌, subst, inl, inr, Bool, true, false, Option, none, some, List, [],
  ◌∷◌, ◌==◌, All, length, Bool-cases, ==→eq, if_both,
}
use pqblockchain.Prelude.Map.{lookup, assign, erase}
use pqblockchain.Exceptions.{Ensures, >>=-inverse, ok_subst}
use pqblockchain.Crypto.{Hash, SignAlgorithm}
use pqblockchain.Transaction.{Transaction}
use pqblockchain.Transaction.Set.{
  find, find-insert_self, find-insert_kept, TransactionSet, insert, IsOrdered, insert-IsOrdered,
  insert-All,
}
use pqblockchain.Block.{Block, BlockHeader}
use pqblockchain.Account.{AccountBalance, BalanceStore}
use pqblockchain.Storage.{Database}
use pqblockchain.Storage.Blocks.{set_block}
use pqblockchain.Proposal.OfBlock
use pqblockchain.Proposal.OfTxSet
use pqblockchain.Chain
use pqblockchain.Chain.Assign.{assign_account_hash}
use pqblockchain.Message.Payloads.{serialize_tx_set_proposal, serialize_block_proposal}
use pqblockchain.Execution.{Run, count_account_differences, set_balances_by_acc_diffs}
use pqblockchain.Execution.Loop.{IsPayable}
use pqblockchain.Execution.Keys.{set_balances-keeps_accounts}
use pqblockchain.Consensus.Agreement.{TransactionPool}
use pqblockchain.Consensus.Round.Preserves.{IsKept}
use pqblockchain.Consensus.Wrapper.{
  ConsensusWrapper, current_transaction_set, erase_transactions, share_tx_set, share_block,
  put_into_chain, add_block_proposal_to_chain, add_block_header_to_chain, execute_block,
  consensus_wrapper, chain_header, recount, get_accounts_merkle_root_hash,
}

-- Each transaction of a pool is found under its own hash, can be paid and has the property `Q`.
abbrev pub IsPool : (Transaction → Type 0) → (ℕ → Option AccountBalance) → TransactionPool → Type 0
IsPool Q find [] = Unit {0}
IsPool Q find ((id, tx) ∷ pool) =
    ((tx.id_hash ≡ id) × (IsPayable find tx × Q tx)) × IsPool Q find pool

current_transaction_set-kept :
    (u : Transaction) (pool : TransactionPool) (set : TransactionSet)
    → IsOrdered set
    → find u set ≢ none
    → find u (current_transaction_set pool set) ≢ none
unfolding current_transaction_set
current_transaction_set-kept u [] set o known = known
current_transaction_set-kept u ((id, tx) ∷ pool) set o known =
    current_transaction_set-kept u pool (insert tx set) (insert-IsOrdered tx set o)
      (find-insert_kept u tx set o known)

-- For each transaction of the pool the set has one of the same sender and sequence number.
pub current_transaction_set-find :
    (pool : TransactionPool) (set : TransactionSet)
    → IsOrdered set
    → (id : ℕ) (tx : Transaction) → lookup id pool ≡ some tx
    → find tx (current_transaction_set pool set) ≢ none
unfolding current_transaction_set
current_transaction_set-find [] set o id tx e = absurd (cc)
current_transaction_set-find ((j, t) ∷ pool) set o id tx e = elim (Bool-cases (j == id)) [
  | inl same ↦
      let is : some t ≡ some tx = rw same at e in
      let back : t ≡ tx = cc in
      subst (λ x. find x (current_transaction_set pool (insert t set)) ≢ none) back
        (current_transaction_set-kept t pool (insert t set) (insert-IsOrdered t set o)
          (find-insert_self t set o))
  | inr apart ↦
      current_transaction_set-find pool (insert t set) (insert-IsOrdered t set o) id tx
        (rw apart at e)
]

-- No account is lost.
abbrev pub IsLater : (ℕ → Option AccountBalance) → (ℕ → Option AccountBalance) → Type 0
IsLater old new = (id : ℕ) → old id ≢ none → new id ≢ none

pub IsPool-IsLater :
    (Q : Transaction → Type 0) (old new : ℕ → Option AccountBalance) (pool : TransactionPool)
    → IsLater old new
    → IsPool Q old pool
    → IsPool Q new pool
IsPool-IsLater Q old new [] later p = tt
IsPool-IsLater Q old new ((id, tx) ∷ pool) later p = (
  (
    p.0.0,
    (
      record {
        sender_set = (p.0.1.0).sender_set;
        cash_fits = (p.0.1.0).cash_fits;
        receiver_known = later tx.receiver_wallet_address (p.0.1.0).receiver_known;
      },
      p.0.1.1,
    ),
  ),
  IsPool-IsLater Q old new pool later p.1,
)

module _ (Q : Transaction → Type 0) (find : ℕ → Option AccountBalance) where
  pub IsPool-assign :
      (tx : Transaction) (pool : TransactionPool)
      → IsPayable find tx × Q tx
      → IsPool Q find pool
      → IsPool Q find (assign tx.id_hash tx pool)
  IsPool-assign tx [] v p = ((refl, v), tt)
  IsPool-assign tx ((id, t) ∷ pool) v p = elim (Bool-cases (id == tx.id_hash)) [
    | inl same ↦ rw same ((sym (==→eq id tx.id_hash same), v), p.1)
    | inr apart ↦ rw apart (p.0, IsPool-assign tx pool v p.1)
  ]

  pub IsPool-lookup :
      (id : ℕ) (tx : Transaction) (pool : TransactionPool)
      → IsPool Q find pool
      → lookup id pool ≡ some tx
      → (tx.id_hash ≡ id) × (IsPayable find tx × Q tx)
  IsPool-lookup id tx [] p e = absurd (cc)
  IsPool-lookup id tx ((j, t) ∷ pool) p e = elim (Bool-cases (j == id)) [
    | inl same ↦
        let is : some t ≡ some tx = rw same at e in
        let back : t ≡ tx = cc in
        subst (λ r. (r.id_hash ≡ id) × (IsPayable find r × Q r)) back
          (p.0.0 ∙ ==→eq j id same, p.0.1)
    | inr apart ↦ IsPool-lookup id tx pool p.1 (rw apart at e)
  ]

  IsPool-erase :
      (id : ℕ) (pool : TransactionPool) → IsPool Q find pool → IsPool Q find (erase id pool)
  IsPool-erase id [] p = tt
  IsPool-erase id ((j, t) ∷ pool) p =
      if_both (IsPool Q find) (j == id) pool ((j, t) ∷ erase id pool) p.1
        (p.0, IsPool-erase id pool p.1)

  erase_transactions-IsPool :
      (set : TransactionSet) (pool : TransactionPool)
      → IsPool Q find pool
      → IsPool Q find (erase_transactions set pool)
  unfolding erase_transactions
  erase_transactions-IsPool [] pool p = p
  erase_transactions-IsPool (tx ∷ set) pool p =
      erase_transactions-IsPool set (erase tx.id_hash pool) (IsPool-erase tx.id_hash pool p)

  -- All of the pool, in order.
  pub current_transaction_set-IsPayable :
      (pool : TransactionPool) (set : TransactionSet)
      → IsPool Q find pool
      → IsOrdered set
      → All (IsPayable find) set
      → IsOrdered (current_transaction_set pool set)
        × All (IsPayable find) (current_transaction_set pool set)
  unfolding current_transaction_set
  current_transaction_set-IsPayable [] set p o a = (o, a)
  current_transaction_set-IsPayable ((id, tx) ∷ pool) set p o a =
      current_transaction_set-IsPayable pool (insert tx set) p.1 (insert-IsOrdered tx set o)
        (insert-All (IsPayable find) tx set p.0.1.0 a)

module _ (Q : Transaction → Type 0) (b : BalanceStore) (d : Database) where
  abbrev pub IsPoolOf : ConsensusWrapper b d → Type 0
  IsPoolOf w = IsPool Q (b.find w.balances) w.tx_pool

  module _ (sha512 : Hash) (s : SignAlgorithm)
      (stored_balances : BalanceStore.Db b → List (List ℕ)) where
    put_into_chain-IsPoolOf :
        (issuer : ℕ) (header : BlockHeader) (is_local : Bool) (id : ℕ) (w : ConsensusWrapper b d)
        → IsPoolOf w
        → Ensures
            (λ r. IsPoolOf r.0)
            (put_into_chain b d sha512 s stored_balances issuer header is_local id w)
    unfolding put_into_chain
    put_into_chain-IsPoolOf issuer header is_local id w p r e =
        let (c, _, last) =
          >>=-inverse (Chain.insert sha512 issuer (chain_header header) is_local w.chain) _ r e in
        ok_subst (λ x. IsPoolOf x.0) _ r last p

    execute_block-IsPoolOf :
        (block : Block) (w : ConsensusWrapper b d)
        → IsPoolOf w
        → Ensures IsPoolOf (execute_block b d sha512 s stored_balances block w)
    unfolding execute_block
    execute_block-IsPoolOf block w p r e =
        let run : Run = count_account_differences (b.find w.balances) w.wallet block.tx_set in
        let (db, paid, e1) =
          >>=-inverse (set_balances_by_acc_diffs b run.acc_diffs w.balances) _ r e in
        let (counted, _, e2) =
          >>=-inverse (recount b d sha512 s stored_balances (length block.tx_set) run.kept block) _
            r e1 in
        let root : ℕ = get_accounts_merkle_root_hash b d sha512 s stored_balances db in
        let (chain, _, e3) =
          >>=-inverse (assign_account_hash sha512 root w.sharers w.chain) _ r e2 in
        let (blocks, _, last) = >>=-inverse (set_block d sha512 _ w.blocks) _ r e3 in
        ok_subst IsPoolOf _ r last (
          erase_transactions-IsPool Q (b.find db) block.tx_set w.tx_pool (
            IsPool-IsLater Q (b.find w.balances) (b.find db) w.tx_pool
              (λ id. set_balances-keeps_accounts b w.wallet block.tx_set w.balances db id paid) p))

    -- No operation of the wrapper puts a transaction into the pool or loses an account.
    pub consensus_wrapper-IsKept : IsKept IsPoolOf (consensus_wrapper b d sha512 s stored_balances)
    unfolding consensus_wrapper share_tx_set share_block add_block_proposal_to_chain
        add_block_header_to_chain
    consensus_wrapper-IsKept = record {
      tx_set_shared = λ p w h r e.
          let (signed, _, e1) = >>=-inverse (OfTxSet.sign sha512 s (w.wallet).secret_key _) _ r e in
          let (size, _, e2) = >>=-inverse (OfTxSet.get_size signed) _ r e1 in
          let (m, _, last) = >>=-inverse (serialize_tx_set_proposal signed _) _ r e2 in
          ok_subst (λ x. IsPoolOf x.1) _ r last h;
      block_shared = λ p w h r e.
          let (signed, _, e1) = >>=-inverse (OfBlock.sign sha512 s (w.wallet).secret_key _) _ r e in
          let (size, _, e2) = >>=-inverse (OfBlock.get_size signed) _ r e1 in
          let (m, _, last) = >>=-inverse (serialize_block_proposal signed _) _ r e2 in
          ok_subst IsPoolOf _ r last h;
      proposal_added =
          λ p id w h. put_into_chain-IsPoolOf p.issuer p.proposed_block_header false id w h;
      header_added = λ block id w h.
          put_into_chain-IsPoolOf (w.wallet).wallet_id block.block_header true id w h;
      executed = λ block w h. execute_block-IsPoolOf block w h;
    }
