-- ===== src/Lib.antt =====
-- PQBlockchain: a ledger with post-quantum signatures, whose nodes agree on sets of transactions by
-- rounds of proposals and votes. The sources are those under src/ of the repository.
--
-- Parts and files.
--   Basis: Exceptions.antt has the exceptions of Basis/PQBExceptions.hpp as values of `Result`:
--     `ok`, `throw`, and `fault` for a call whose behaviour C++ leaves undefined.
--   Common: Serialize.antt and its children have `serializeField` and `deserializeField` of
--     Common/Serialize.hpp. A buffer is cut at the offset (`Cursor`); a write past its end is a
--     `fault`. A `byte64_t` of Common/Blob.hpp is the number below 2^512 that its bytes spell.
--   Crypto: Crypto.antt. SHA-512 and the chosen signature algorithm are parameters.
--   Ledger: Transaction.antt (Ledger/Transaction.cpp; Encoding and RoundTrip its serialization, Set
--     the `std::set` by sender and sequence number) and Block.antt (Ledger/Block.cpp).
--   Consensus: Consensus/Dispute.antt (`DisputeTransaction` of Consensus/ConsensusParams.cpp),
--     Proposal.antt (`BlockProposal` and `TxSetProposal` of Consensus/Proposal.cpp, in OfBlock and
--     OfTxSet), Chain.antt (the tree of headers, Consensus/Chain.cpp; the preferred
--     block in Chain/Preferred.antt, the shape of the tree in Chain/Tree.antt, the hash of the
--     accounts in Chain/Assign.antt and Chain/Assigned.antt), Merkle.antt
--     (Consensus/MerkleRootCompute.cpp) and Execution.antt
--     (`countAccountDifferencesByTxSet` of Consensus/Consensus.cpp).
--     Consensus/Agreement.antt has the pool of transactions and `haveConsensus` of
--     Consensus/Consensus.cpp. Consensus/State.antt and Consensus/Round.antt have `class Consensus`:
--     its state, `gotTxSet` with the disputes, and in Round/Timer the operations that use the
--     wrapper (`timerEntry`, `closeBlock`, `updateProposals`, `onAccept`, `peerProposal`). The
--     wrapper is the interface `Wrapper` over a state of its own. Round/Sequence is about the
--     positions of peers, Round/Votes about the votes (Stale and Updates about
--     those of old positions, Follow about those of a new one), Round/Kept, Accept and Phases about
--     the phases, Round/Preserves about what a round keeps of the wrapper. Consensus/Wrapper.antt has
--     `class ConsensusWrapper`, which fills that interface over the pool, the chain, the databases, the
--     wallet and the requests to the connections, and Consensus/Thread.antt a turn of its thread.
--   Network: Message.antt (Network/Message.cpp: headers, check sums, fragments; Payloads has the classes
--     of messages), Connection.antt (Network/Connection.cpp: the loops that send and receive, and the
--     filter), and the two classes of Network/MessageManagement.cpp. ConnectionManager.antt has the
--     pool of connections and the handshake, with ConnectionManager/Requests (the queues), Sending
--     (what becomes of the requests) and Polling (a round of `manageConnections`). Filtered is
--     about the messages that reach the message processor, Ports about clients that share a port.
--     MessageProcessor.antt has the checks of received transactions and proposals, with
--     MessageProcessor/State, Handlers and Inventories for the handlers of all messages.
--     MessageProcessor/Late is about any message of the queue, and MessageProcessor/Reachable about
--     the whole node over any messages and turns of its consensus; the modules named Bounded give
--     the widths of the numbers that are read from bytes.
--   Storage: Account.antt (the balance of an account and, in Addresses, its addresses and the
--     account itself, Storage/Account.cpp; the balance database as the interface `BalanceStore`),
--     the function `set_balances_by_acc_diffs` of Execution.antt and Storage/Accounts.antt
--     (Storage/AccountStorage.cpp; the bytes of a balance record are part of the interface), and
--     Storage/Blocks.antt (Storage/BlocksStorage.cpp). LevelDB is a parameter, `BalanceStore` and
--     `Database`: a batch is written whole, or fails, and a value that is put is read back. An
--     iterator over all balances is a parameter too.
--   Wallet: Wallet.antt (Wallet/Wallet.cpp): the records that the execution of a set updates.
-- A block is received as bytes, its transactions form the set in order, whose execution gives the
-- differences of the accounts, which are written to the balance database in one batch.
--
-- Numbers. Fields are natural numbers, and arithmetic on them wraps as that of `uint32_t`,
-- `uint64_t` and `signed long` (its 64-bit pattern) does. Bytes are little-endian, as on the machines
-- that the program is built for. The stages of a round are quotients in place of doubles.
--
-- Sockets. A socket is a stream of bytes with the number of bytes that each of the next calls moves at
-- most. The loops of a connection have the size of the message as fuel, since each call that succeeds
-- moves a byte.
--
-- The recursion of `getPreferredBlock` has fuel, and the depth of the tree and one is enough.
--
-- Rounds. The clocks are read by the caller. A call that throws leaves no state: what the program has
-- changed before an exception is not modelled. `std::set_symmetric_difference` compares the pointers of
-- transactions by address and is an arbitrary function.
--
-- Loops. The loop over a set of transactions and the loop over the levels of a Merkle tree have the
-- length of the list as fuel, since each round shortens it; the theorems speak of the functions with
-- this fuel.
--
-- Aliasing. Transactions are shared by pointers and not written after they are checked, so the models
-- copy them. The table of differences is keyed by address, also where the source keys an entry of the
-- null address by the empty string.
--
-- Pointers into the tree of headers are the keys of its nodes, which are never erased.
--
-- Texts. The names of peers are numbers: a text of n characters is 256^n and the number that its
-- characters spell. The digits that `getHex` writes are a parameter.
--
-- Connections. What `poll`, `accept` and `connectToPeer` give to a round is a parameter (`PollResult`).
-- The queues of requests and of messages are ordered by the types of the messages; the order of equals,
-- which `std::priority_queue` leaves open, is that of their arrival.
--
-- Shared headers. The nodes of the tree point to their headers, and `validBlock` is a copy of a node
-- with the same header. `sharers` are the keys of the nodes that share it.
--
-- Messages are handled one at a time: the locks of the two threads are not modelled. A step of
-- MessageProcessor/Reachable.antt is a message that `lateProcessing` handles, or a turn of the thread
-- of the consensus, with any clock.
--
-- Not modelled: the server, system calls, locks and threads, the command line, the log and other output,
-- the configuration file, hexadecimal text, and what PQClean, Crypto++, LevelDB, spdlog and json do.
pub mod Prelude
pub mod Exceptions
pub mod Serialize
pub mod Crypto
pub mod Transaction
pub mod Block
pub mod Consensus
pub mod Merkle
pub mod Account
pub mod Wallet
pub mod Storage
pub mod Execution
pub mod Proposal
pub mod Chain
pub mod Message
pub mod Connection
pub mod ConnectionManager
pub mod MessageProcessor
