-- ===== src/Consensus/Wrapper/Executed.antt =====
-- `ConsensusWrapper::executeBlock` of src/Consensus/Consensus.cpp and the pool of transactions.
use pqblockchain.Prelude.{
  ℕ, ◌≡◌, refl, subst, inl, inr, Bool, true, false, none, List, [], ◌∷◌, ◌==◌, length, Bool-cases,
  ==→eq, ne→==, if◌then◌else◌, arith,
}
use pqblockchain.Prelude.Map.{
  lookup, erase, HasKeys, erase-HasKeys, lookup-erase_ne, lookup-erase_self,
}
use pqblockchain.Exceptions.{ok, >>=-inverse, ok_subst}
use pqblockchain.Crypto.{Hash, SignAlgorithm}
use pqblockchain.Transaction.Set.{TransactionSet}
use pqblockchain.Block.{Block}
use pqblockchain.Account.{BalanceStore}
use pqblockchain.Storage.{Database}
use pqblockchain.Storage.Blocks.{set_block}
use pqblockchain.Chain.Assign.{assign_account_hash}
use pqblockchain.Execution.{Run, count_account_differences, set_balances_by_acc_diffs}
use pqblockchain.Consensus.Agreement.{TransactionPool}
use pqblockchain.Consensus.Wrapper.{
  ConsensusWrapper, erase_transactions, recount, get_accounts_merkle_root_hash, execute_block,
}

-- Whether a set has a transaction of that hash.
abbrev pub has_hash : ℕ → TransactionSet → Bool
has_hash id [] = false
has_hash id (tx ∷ set) = if tx.id_hash == id then true else has_hash id set

erase_transactions-lookup :
    (id : ℕ) (set : TransactionSet) (pool : TransactionPool)
    → HasKeys pool
    → lookup id (erase_transactions set pool) ≡ (if has_hash id set then none else lookup id pool)
unfolding erase_transactions
erase_transactions-lookup id [] pool k = refl
erase_transactions-lookup id (tx ∷ set) pool k =
    let rest =
      erase_transactions-lookup id set (erase tx.id_hash pool) (erase-HasKeys tx.id_hash pool k) in
    elim (Bool-cases (tx.id_hash == id)) [
      | inl same ↦
          let gone : lookup id (erase tx.id_hash pool) ≡ none =
            subst (λ j. lookup j (erase tx.id_hash pool) ≡ none) (==→eq tx.id_hash id same)
              (lookup-erase_self tx.id_hash pool k) in
          rw same (ground (arith, rest, gone))
      | inr apart ↦
          let kept = lookup-erase_ne tx.id_hash id pool (ne→== tx.id_hash id apart) in
          rw apart (ground (arith, rest, kept))
    ]

module _ (b : BalanceStore) (d : Database) (sha512 : Hash) (s : SignAlgorithm)
    (stored_balances : BalanceStore.Db b → List (List ℕ)) where
  -- Where `executeBlock` returns, exactly the transactions of the block have left the pool, those too
  -- that the execution has refused, and the balances are those that `setBalancesByAccDiffs` has
  -- written for the set of the block.
  pub execute_block-pool :
      (block : Block) (w w' : ConsensusWrapper b d)
      → HasKeys w.tx_pool
      → execute_block b d sha512 s stored_balances block w ≡ ok w'
      → ((id : ℕ)
          → lookup id w'.tx_pool ≡ (if has_hash id block.tx_set then none else lookup id w.tx_pool))
        × (set_balances_by_acc_diffs b
              (count_account_differences (b.find w.balances) w.wallet block.tx_set).acc_diffs
              w.balances
            ≡ ok w'.balances)
  unfolding execute_block
  execute_block-pool block w w' k e =
      let run : Run = count_account_differences (b.find w.balances) w.wallet block.tx_set in
      let (db, paid, e1) =
        >>=-inverse (set_balances_by_acc_diffs b run.acc_diffs w.balances) _ w' e in
      let (counted, _, e2) =
        >>=-inverse (recount b d sha512 s stored_balances (length block.tx_set) run.kept block) _ w'
          e1 in
      let root : ℕ = get_accounts_merkle_root_hash b d sha512 s stored_balances db in
      let (chain, _, e3) =
        >>=-inverse (assign_account_hash sha512 root w.sharers w.chain) _ w' e2 in
      let (blocks, _, last) = >>=-inverse (set_block d sha512 _ w.blocks) _ w' e3 in
      ok_subst
        (λ r.
          ((id : ℕ)
            → lookup id r.tx_pool
              ≡ (if has_hash id block.tx_set then none else lookup id w.tx_pool))
          × (set_balances_by_acc_diffs b run.acc_diffs w.balances ≡ ok r.balances))
        _ w' last (λ id. erase_transactions-lookup id block.tx_set w.tx_pool k, paid)
