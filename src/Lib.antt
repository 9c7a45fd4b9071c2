-- ===== src/Lib.antt =====
-- A verification library of astreum/lib-py, the node of the Astreum blockchain (src/astreum).
--
-- A node takes messages from a UDP socket through a proof of work and a bounded queue
-- (communication), builds and checks blocks of transactions (consensus), commits to lists of hashes
-- by Merkle trees (crypto), and keeps its state as hashed expressions (storage, expression,
-- machine).
--
-- - Base and its children: shared names, Boolean tests, lists, integers, bits and bytes.
-- - Crypto/Merkle: src/astreum/crypto/merkle.py. create_merkle_tree, generate_merkle_tree_proof and
--   verify_merkle_tree_proof have the functions' names; `_leaf` and `_node` are leaf and node.
-- - Consensus/Fees: src/astreum/consensus/transaction/fees.py, settle_fees.
-- - Consensus/RateWindow: src/astreum/consensus/block/rate_window.py, update_statistics. The tuples
--   of the statistics are the Entry; History is the chain of blocks that the statistics sum up.
-- - Communication/MessagePow: src/astreum/communication/message_pow.py and difficulty.py, and
--   count_leading_zero_bits of src/astreum/consensus/block/utils/bits.py.
-- - Communication/IncomingQueue: enqueue_incoming of src/astreum/communication/incoming_queue.py and
--   the accounting of process_incoming_messages in src/astreum/communication/processors/incoming.py.
--   A locked section is one step: a run is a sequence of arrivals, second tries after a wait, and
--   rounds of the processor.
-- - Consensus/Channel: src/astreum/consensus/transaction/channel. The handlers have the functions'
--   names. Store holds the accounts, whose channels are trees of Storage/Radix, and the pending
--   expressions; Apply is the match of the channel codes in consensus/transaction/apply.py, with its
--   rollback. An account object is shared with the cache of Accounts, so a change of it is a change of
--   the store. A Node has what the storage and the network hold, the hashes and the Ed25519
--   verification. A channel that is written is pending, and is read only if the storage has it.
-- - Crypto/Bloom: src/astreum/crypto/bloom_filter. `_ensure_tier` is tier_index and ensure_tier,
--   `_bloom_positions` is bloom_positions; a bytearray is a list of numbers, and `|=` of one bit is
--   set_bit.
-- - Consensus/Codes: src/astreum/consensus/transaction/code.py.
-- - Consensus/Difficulty: src/astreum/consensus/block/difficulty.py and
--   src/astreum/consensus/transaction/storage/difficulty.py, with `_matching_leading_bits` of
--   src/astreum/communication/models/route.py.
-- - Machine/Meter: src/astreum/machine/meter.py, a record for the Meter and a Charge for what
--   `charge` returns or raises.
-- - Consensus/Loan: `_paid_payment_count` and `_interest_paid_delta` of
--   src/astreum/consensus/transaction/treasury/utils.py, and the arithmetic of
--   `_apply_treasury_loan_payment` in loans.py as apply_loan_payment; the loop is advance, which
--   recurs on the payments that remain.
-- - Communication/Route: Route, add_peer and remove_peer of
--   src/astreum/communication/models/route.py. The dicts are functions: every bucket is there.
-- - Expression: src/astreum/expression/expr.py and helpers.py. NIL and a new link without parts are two
--   expressions; cells known by their hash alone and floats are left out.
-- - Machine/Vm: a handler that changes the machine, its stack and its environment is an Action, which
--   gives the state back after an exception as well. An Env is a list of dictionaries: only the
--   nearest is written, and what a call binds in it the caller does not see.
-- - Machine/Operators: the handlers of src/astreum/machine/operators, under their names. An operator
--   that evaluates takes the evaluation as an argument.
-- - Machine/Evaluator: `evaluation`, `apply_operator` and `Machine.run`, in both modes. The depth of
--   calls and the rounds of each `rec` are on fuel.
--   What the model leaves out ends in the error `outside`: operators on floats, accounts and
--   blocks, conversions, closures, index and split, and a None on the stack. RecursionError is not
--   modelled.
-- - Storage/Radix: put, get and exists of src/astreum/storage/radix/tree. A key is the list of its bits,
--   a value is its hash, and the nodes that storage and network hold are a function of the hash. A turn
--   of the loop of put takes at least one bit of the key, so that one more than its bits is the
--   fuel, for find as well.
-- - Consensus/Ledger: the cache of src/astreum/consensus/models/accounts.py, the records of
--   consensus/transaction/treasury/record.py, and what a snapshot of consensus/models/block.py holds. A
--   handler is a Step: what it has changed before it fails stays changed.
-- - Consensus/Treasury: repay.py, close.py, buy.py, claim.py, discount.py and utils.py of
--   src/astreum/consensus/transaction/treasury, with borrow.py and guarantees.py; the handlers have
--   the functions' names, and stand in Repay, Close, Trade, Guarantees and Borrow.
-- - Consensus/Apply: `_apply_tx_effects` of src/astreum/consensus/transaction/apply.py for a top-level
--   transaction. Codes has the guards and the match of the codes, Charges the fees in their order,
--   Finish the settlement, the balances and the whole. A Context holds the block's height, the
--   rates, the sizes of what is stored and the handlers of the channel, storage and call codes. A
--   History is any sequence of transactions of the codes that move what is there.
--
-- Exceptions are `none` or a constructor of a result type. The hash function blake3 is a parameter
-- wherever it is used; what the theorems need of it, the length of a digest, is a hypothesis.
-- Python's ints are ℕ where the code keeps them from being negative, and ℤ elsewhere.
--
-- Fuel: a loop of the Merkle tree runs on the length of its first level, which halves in each round;
-- the nonce search runs on any fuel, and one above 2 ^ 64 always gives a result; the search for a
-- bloom tier runs on one more than the count of the filter, which grows by at least 1 in each round;
-- the loops over the overdue payments of a loan run on one more than the block's height, of which each
-- round takes at least one interval; the window of a rate on the loan's duration; the fee of a receipt
-- takes 8 rounds, as in the code.
--
-- Not modelled: sockets, threads, clocks, files and third-party cryptography; floats, with the
-- blending of rates; the encoding and the hashes of expressions, and so of nodes, accounts, blocks and
-- transactions, with the checks of blocks and forks that read them; the source text of programs; the
-- verifiable delay function; and of the application of transactions the storage contracts and the
-- calls of account code, which are arguments, and nested transactions.
pub mod Base
pub mod Expression
pub mod Machine
pub mod Crypto
pub mod Communication
pub mod Storage
pub mod Consensus
