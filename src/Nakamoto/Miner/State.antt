-- ===== src/Nakamoto/Miner/State.antt =====
-- `Miner` (miner/mod.rs) and its error type (miner/error.rs). The clock is an argument.
use meow.Base.{
  ℕ, ◌+◌, ◌%◌, ◌^◌, Bool, true, false, Option, none, some, List, ltb, ◌==◌, length, Outcome, ok,
  ◌>>=◌, ◌>>◌, map_err,
}
use meow.Types.Primitives.{Address, zero_digest}
use meow.Types.Object.{Object}
use meow.Types.Transaction.{KeyPair, SignedTransaction, Transaction, ExecutionResult}
use meow.External.{External, key_address}
use meow.Executor.{Executor, ExecutorError, new_context}
use meow.Nakamoto.Header.{Block, StateSnapshot}
use meow.Nakamoto.Store.{Store, empty, with_objects, objects}
use meow.Nakamoto.Roots.{compute_transactions_root, mining_hash}
use meow.Nakamoto.Mempool.{
  MempoolError, Mempool, empty_pool, submit, retain_valid, drain_batch, validate_against_store,
}
use meow.Nakamoto.Chain.{
  ChainError, ChainState, new, head_block, head_height, head_store, from_snapshot, commit,
  apply_block, execute_on,
}
use meow.Nakamoto.Miner.Work.{MiningWork}

-- miner_config.rs
pub record MinerConfig : Type 0 where
  pub difficulty : ℕ
  pub keypair : KeyPair
  pub reward_address : Address
  pub batch_size : ℕ
  pub snapshot_depth : ℕ

pub record Miner : Type 0 where
  pub chain : ChainState
  pub mempool : Mempool
  pub keypair : KeyPair
  pub miner_address : Address
  pub reward_address : Address
  pub batch_size : ℕ

pub data MinerError : Type 0 where
  chain_error : ChainError → MinerError
  mempool_error : MempoolError → MinerError
  simulation_error : ExecutorError → MinerError

module _ (x : External) where
  -- the record that `Miner::empty` and `Miner::with_genesis` build
  unfoldable pub miner_over : Store → MinerConfig → Miner
  unfolding key_address
  miner_over s config = record {
    chain = new x s config.difficulty config.snapshot_depth;
    mempool = empty_pool;
    keypair = config.keypair;
    miner_address = key_address x config.keypair;
    reward_address = config.reward_address;
    batch_size = config.batch_size;
  }

  unfoldable pub empty_miner : MinerConfig → Miner
  unfolding miner_over
  empty_miner = miner_over empty

  unfoldable pub with_genesis : List Object → MinerConfig → Miner
  unfolding miner_over
  with_genesis genesis_objects = miner_over (with_objects genesis_objects)

  unfoldable pub get_state_snapshot : {E : Type 0} → Miner → Outcome E StateSnapshot
  unfolding head_block head_store objects
  get_state_snapshot m = do
    head ← head_block m.chain
    store ← head_store m.chain
    ok (record { head = head; objects = objects store })

  unfoldable pub submit_transaction : SignedTransaction → Miner → Outcome MinerError Miner
  unfolding head_store submit
  submit_transaction t m = do
    store ← head_store m.chain
    pool ← map_err mempool_error (submit x t store m.mempool)
    ok (record m { mempool = pool })

  unfoldable pub replace_from_snapshot : ℕ → StateSnapshot → Miner → Outcome MinerError Miner
  unfolding head_height from_snapshot with_objects
  replace_from_snapshot now snapshot m = do
    height ← head_height m.chain
    chain ← map_err chain_error (
        from_snapshot x now height snapshot.head (with_objects snapshot.objects) m.chain.difficulty
          m.chain.snapshot_depth)
    ok (record m { chain = chain; mempool = empty_pool })

  unfoldable pub prepare_round : {E : Type 0} → ℕ → Miner → Outcome E (Option MiningWork × Miner)
  unfolding drain_batch head_height head_store compute_transactions_root
  prepare_round now m =
      let (batch, pool) = drain_batch x m.batch_size m.mempool in
      elim (ltb (length m.mempool.pending) m.batch_size) [
        | true ↦ ok (none, m)
        | false ↦ do
          height ← head_height m.chain
          store ← head_store m.chain
          ok (
            some (record {
              header = record {
                height = (height + 1) % 2 ^ 64;
                parent_hash = m.chain.head;
                transactions_root = compute_transactions_root x batch;
                reward_root = none;
                state_root = zero_digest;
                timestamp = now;
                nonce = 0;
              };
              batch = batch;
              parent_store = store;
              difficulty = m.chain.difficulty;
              miner_keypair = m.keypair;
              miner_address = m.miner_address;
              reward_address = m.reward_address;
            }),
            record m { mempool = pool },
          )
      ]

  unfoldable pub commit_mined : {E : Type 0} → ℕ → Block → Store → Miner → Outcome E (Miner × Bool)
  unfolding commit
  commit_mined now block store m = elim (block.header.parent_hash == m.chain.head) [
    | true ↦ do chain ← commit x now block store m.chain; ok (record m { chain = chain }, true)
    | false ↦ ok (m, false)
  ]

  module _ (e : Executor) where
    unfoldable pub simulate_transaction : Transaction → Miner → Outcome MinerError ExecutionResult
    unfolding head_store head_block validate_against_store execute_on new_context mining_hash
    simulate_transaction t m = do
      store ← head_store m.chain
      head ← head_block m.chain
      map_err mempool_error (validate_against_store x t store)
      map_err simulation_error
          (execute_on x e (new_context (mining_hash x head.header) head.header.timestamp) t store)

    -- `Miner::apply_block`: the chain's, and on a change of head the pool is filtered
    unfoldable pub receive_block : ℕ → Block → Miner → Outcome MinerError (Miner × Bool)
    unfolding apply_block head_store retain_valid
    receive_block now block m = do
      (chain, reorged) ← map_err chain_error (apply_block x e now block m.chain)
      elim reorged [
        | true ↦ do
          store ← head_store chain
          ok (record m { chain = chain; mempool = retain_valid x store m.mempool }, true)
        | false ↦ ok (record m { chain = chain }, false)
      ]
