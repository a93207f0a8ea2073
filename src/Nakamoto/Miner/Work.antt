-- ===== src/Nakamoto/Miner/Work.antt =====
-- `MiningWork::grind` (miner/mining_work.rs). The nonce search recurs on the nonces that are left.
-- The loop over shrinking batches takes fuel: `discarded` is the source's `None`, and `out_of_fuel`
-- is an outcome that the source does not have.
use meow.Base.{
  ℕ, zero, suc, ◌+◌, ◌-◌, ◌^◌, true, false, Option, none, some, List, [], ◌∷◌, ltb, ◌==◌, is_empty,
  length, if◌then◌else◌, Outcome, ok, err, panic, ◌>>=◌, ◌>>◌, reject_if,
}
use meow.Types.Primitives.{Address}
use meow.Types.Transaction.{KeyPair, SignedTransaction, ExecutionResult}
use meow.External.{External, sign}
use meow.Executor.{Executor, ExternalContext, new_context}
use meow.Nakamoto.Header.{BlockHeader, Block}
use meow.Nakamoto.Store.{Store, apply_execution_result}
use meow.Nakamoto.Roots.{
  compute_state_root, compute_transactions_root, mining_hash, meets_difficulty,
}
use meow.Nakamoto.SystemTransactions.{make_reward_transaction, execute_reward_transaction}
use meow.Nakamoto.Chain.{reward_digest, execute_on, total_gas, unwrap}

pub record MiningWork : Type 0 where
  pub header : BlockHeader
  pub batch : List SignedTransaction
  pub parent_store : Store
  pub difficulty : ℕ
  pub miner_keypair : KeyPair
  pub miner_address : Address
  pub reward_address : Address

pub data GrindEnd : Type 0 where
  discarded out_of_fuel : GrindEnd

-- `u64::MAX`
unfoldable pub max_nonce : ℕ
max_nonce = 2 ^ 64 - 1

module _ (x : External) where
  -- `while !meets_difficulty { nonce = nonce.checked_add(1)? }`
  unfoldable pub search_nonce : ℕ → BlockHeader → ℕ → Option BlockHeader
  search_nonce zero h difficulty = if meets_difficulty x h difficulty then some h else none
  search_nonce (suc left) h difficulty =
      let rest = search_nonce left (record h { nonce = h.nonce + 1 }) difficulty in
      if meets_difficulty x h difficulty then some h else rest

  module _ (e : Executor) where
    -- the loop over the batch: the store, the transactions that ran, and their results
    unfoldable pub execute_batch :
        {E : Type 0}
        → ExternalContext
        → List SignedTransaction
        → Store
        → Outcome E (Store × List SignedTransaction × List ExecutionResult)
    execute_batch ctx [] s = ok (s, [], [])
    execute_batch ctx (t ∷ ts) s = elim (execute_on x e ctx t.transaction s) [
      | ok r ↦ do
        s' ← apply_execution_result r s
        (s'', executed, results) ← execute_batch ctx ts s'
        ok (s'', t ∷ executed, r ∷ results)
      | err f ↦ execute_batch ctx ts s
      | panic ↦ panic
    ]

    -- the reward transaction with its result, and the store after it
    unfoldable pub add_reward :
        {E : Type 0}
        → MiningWork
        → BlockHeader
        → ℕ
        → Store
        → Outcome E (Option SignedTransaction × Option ExecutionResult × Store)
    unfolding sign
    add_reward w h total s =
        let signed =
          (sign x
            (make_reward_transaction x w.miner_address w.reward_address total (mining_hash x h))
            w.miner_keypair).0 in
        elim (ltb 0 total) [
          | true ↦ do
            r ← unwrap x (execute_reward_transaction e signed.transaction s)
            s' ← apply_execution_result r s
            ok (some signed, some r, s')
          | false ↦ ok (none, none, s)
        ]

    -- the block for a header whose root matches what was executed
    unfoldable pub seal :
        {E : Type 0}
        → MiningWork
        → BlockHeader
        → List SignedTransaction
        → List ExecutionResult
        → Store
        → Outcome E (Block × Store)
    unfolding add_reward
    seal w h executed results s = do
      (reward, reward_result, s') ← add_reward w h (total_gas x e results) s
      ok (
        record {
          header = record h {
            reward_root = reward_digest x reward;
            state_root = compute_state_root x s';
          };
          transactions = executed;
          results = results;
          reward_transaction = reward;
          reward_transaction_result = reward_result;
        },
        s',
      )

    -- one pass of the outer loop for a solved header, with `again` for the next pass
    unfoldable pub grind_pass :
        MiningWork
        → (BlockHeader → List SignedTransaction → Outcome GrindEnd (Block × Store))
        → BlockHeader
        → List SignedTransaction
        → Outcome GrindEnd (Block × Store)
    unfolding execute_batch seal
    grind_pass w again h batch = do
      (s, executed, results) ←
          execute_batch (new_context (mining_hash x h) h.timestamp) batch w.parent_store
      reject_if (is_empty executed) discarded
      elim (compute_transactions_root x executed == h.transactions_root) [
        | true ↦ seal w h executed results s
        | false ↦
            again (record h { transactions_root = compute_transactions_root x executed }) executed
      ]

    unfoldable pub grind_loop :
        ℕ → MiningWork → BlockHeader → List SignedTransaction → Outcome GrindEnd (Block × Store)
    unfolding search_nonce grind_pass
    grind_loop zero w h batch = err out_of_fuel
    grind_loop (suc fuel) w h batch =
        elim (search_nonce max_nonce (record h { nonce = 0 }) w.difficulty) [
          | none ↦ err discarded
          | some solved ↦ grind_pass w (grind_loop fuel w) solved batch
        ]

    -- `MiningWork::grind`
    unfoldable pub grind : MiningWork → Outcome GrindEnd (Block × Store)
    unfolding grind_loop
    grind w = grind_loop (suc (length w.batch)) w w.header w.batch
