-- ===== src/Consensus/Thread.antt =====
-- `ConsensusWrapper::consensusThread` of src/Consensus/Consensus.cpp.
use pqblockchain.Prelude.{ℕ, ◌-◌, [], ◌∷◌, ltb, if◌then◌else◌}
use pqblockchain.Exceptions.{Result, ok}
use pqblockchain.Crypto.{Hash}
use pqblockchain.Transaction.Set.{TransactionSet}
use pqblockchain.Consensus.State.{Consensus, Wrapper, ms, begin_consensus}
use pqblockchain.Consensus.Agreement.{TransactionPool}
use pqblockchain.Consensus.Round.Timer.{timer_entry}

-- One turn of the loop of the thread at the time `now`, where the last turn was at `last`: it waits as
-- long as the pool is empty, and a round that nothing has moved for three seconds starts again.
unfoldable pub thread_turn :
    Hash
    → (TransactionSet → TransactionSet → TransactionSet)
    → {W : Type 0} → Wrapper W
    → TransactionPool
    → ℕ
    → ℕ
    → ℕ
    → Consensus
    → W
    → Result (Consensus × W)
thread_turn sha512 difference wrapper [] now seconds last s w = ok (s, w)
thread_turn sha512 difference wrapper (tx ∷ pool) now seconds last s w =
    timer_entry sha512 difference wrapper now seconds
      (if ltb (ms 3000) (now - last) then begin_consensus now s else s) w
