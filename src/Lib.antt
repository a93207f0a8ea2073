-- ===== src/Lib.antt =====
-- Verification of meow's proof-of-work consensus and of its execution of transactions: the block tree
-- with its fork choice, the object store, the transaction pool, the validation of transactions, the
-- miner, the executor and the virtual machine.
--
-- The program. A node of meow (crates/meow-node) owns a `Miner` (crates/meow-nakamoto/src/miner).
-- The miner owns a `ChainState` (src/chain) and a `Mempool` (src/mempool). The chain state keeps
-- every block of the last `snapshot_depth` heights with the object store that the block leads to
-- (src/store.rs). A transaction that a client submits is checked (crates/meow-types,
-- transaction/validator) and queued; a round of mining drains a batch, searches a nonce, executes
-- the batch and seals a block, which is committed; a block from a peer is checked, re-executed from
-- its parent's store and recorded, and becomes the head if it is higher than the head.
--
-- The files.
-- - Base, Base/*: names of the libraries, Boolean tests, results, lists.
-- - BTreeMap, BTreeMap/*: the standard library's ordered map, as its documentation describes it, a
--   list of entries in the order of their keys. Addresses and digests are the numbers that their 32
--   bytes spell.
-- - Types/*: crates/meow-types: objects, transactions, results, and `validator`; Validity says what
--   the validator accepts.
-- - Vm/*: crates/meow-vm-types and crates/meow-vm. Types, Bytecode and Module have the data, Ref the
--   references to names of other modules, Values the operations on values, Natives the native
--   functions and the configuration, Errors and Gas the machine's errors, meter and schedule.
-- - Vm/Machine/*: crates/meow-vm/src/lib.rs. Frame has frames and slots, Exec one instruction, Run the
--   loop of `call_inner` (`run`), `Vm::call` (`call_vm`) and `Vm::new` (`new_vm`). Metered is about the
--   gas meter; Steady, Progress, Follows, Paid and Ends show that runs end; Census, Conserved and
--   Moves count structs.
-- - Adapter/*: crates/meow-vm-adapter with the conversions that it uses. Defs has those, Context the
--   recorded side effects and the native functions, Resolvers, Effects and Execute the files of
--   executor/ (Effects has gas.rs and versioning.rs too), Layout the rules of bytecode_verifier on the
--   fields of structs. Coins, Versions, Spent and Placed prove what these do.
-- - Verifier/*: crates/meow-vm-bytecode-verifier/src/structural.rs, `check_module`. Errors has error.rs
--   and the compiler's configuration, Types the references to types and the search for cycles,
--   Instructions the checks of code, Structural the checks of structs and functions. Cycles and
--   Forward are proofs.
-- - External: what the program takes from other packages, as a record of functions: BCS with
--   Blake2b-256 (`Digest::compute`), Ed25519, and the BCS decoders.
-- - Executor: the interface of crates/meow-vm-adapter/src/executor, which the consensus code is a
--   client of, as a record of functions.
-- - Nakamoto/Header: crates/meow-nakamoto-types. Nakamoto/Roots: src/roots.rs, the hashes of
--   headers and the test of the difficulty. Nakamoto/SystemTransactions: src/system_transactions.rs.
--   Nakamoto/Inputs: crates/meow-vm-adapter/src/inputs_resolver.rs.
-- - Nakamoto/Store/*: src/store.rs. Defs has the operations, Lookup what they leave at an address,
--   Valid their invariant, Order what `with_objects` makes of a list in any order, Total when no
--   assertion fails.
-- - Nakamoto/Mempool/*: src/mempool. Defs has the operations; Valid, Retain and Drain prove what
--   each keeps.
-- - Nakamoto/Chain/*: src/chain/mod.rs. State has the record, its lookups and pruning, Structure
--   `validate_block_structure`, Replay the re-execution of a block and the check of its reward,
--   Apply `from_snapshot`, `commit` and `apply_block`. WellFormed, Valid, Prune, Record, Execution, Accept and
--   ForkChoice prove what these keep and do.
-- - Nakamoto/Miner/*: src/miner. Work is `MiningWork::grind`, State is `Miner`; `Miner::apply_block`
--   is `receive_block`. Execution, Reward, Mined, Grind, Loop and Fuel prove what `grind` returns
--   and that it ends, Accepted sets it against `apply_block`, Sync is about snapshots.
-- - Tests/*: a small world in which a block is mined and applied.
--
-- How it is modelled. A method that changes its object takes the state last and returns the new
-- one. A result is `Outcome`: a value, an error, or `panic` for `expect`, `assert!` and an index that
-- is not there. `u64` sums wrap around, as they do in a release build. The clock is an argument.
-- Log output, and the yielding of `grind` to the async runtime, are left out.
--
-- A native function of the machine is a closure that may change what it captures; here it takes the
-- captured state and returns it, and the state and the meter come back from a run that fails too. A
-- message of a failure is kept as its template and arguments, which `Platform.render` makes a text
-- of. A random generator is its seed with the count of the numbers drawn.
--
-- Fuel. `collect_dep_modules` takes fuel; its callers give one more than the number of the store's
-- objects, and each call of it marks an address that holds an object as seen. `walk`, behind
-- `canonical_chain`, takes fuel for the length of the chain. `grind_loop` takes one pass for each
-- transaction of the batch and one more, as each further pass has a shorter batch. The search for
-- cycles of structs takes fuel for each struct and one more. The nonce search recurs on the nonces that
-- are left. `run` takes fuel for each instruction; gas pays for every jump
-- and every call, so that fuel in proportion to the gas that remains and to the longest function is
-- enough. `resolve_dep_modules` takes fuel for each address of its queue; the executor takes one
-- number for both, and says `starved` when it is too low.
--
-- Not modelled: the abstract interpretations of the two bytecode verifiers (together they are an
-- argument of the executor), the compiler, the serializer behind `struct_from_rust`, key derivation
-- and key stores, gossip and RPC, the command line, and the framework's sources in meow's own
-- language.
pub mod Base
pub mod BTreeMap
pub mod Types
pub mod Vm
pub mod Adapter
pub mod Verifier
pub mod External
pub mod Executor
pub mod Nakamoto
pub mod Tests
