-- ===== src/Nakamoto/Chain/Replay.antt =====
-- The deterministic re-execution of a block inside `apply_block`, and the check of its reward
-- (chain/mod.rs). The total of the gas wraps around, as the sum of `u64` does in a release build.
use meow.Base.{
  ℕ, suc, Bool, true, false, Option, none, some, List, [], ◌∷◌, map, ◌==◌, eqb, sum_u64, length,
  if◌then◌else◌, Outcome, ok, err, panic, ◌>>=◌, ◌>>◌, expect, map_err,
}
use meow.Types.Primitives.{Digest}
use meow.Types.Object.{Object}
use meow.Types.Transaction.{
  SignedTransaction, Transaction, ExecutionResult, ExecutionResult-discrete,
}
use meow.Types.Validator.{ValidationError, validate_signed_transaction}
use meow.External.{External}
use meow.Executor.{Executor, ExecutorError, ExternalContext}
use meow.Nakamoto.Store.{Store, get_object, apply_execution_result}
use meow.Nakamoto.Inputs.{collect_inputs}
use meow.Nakamoto.SystemTransactions.{is_valid_reward_transaction, execute_reward_transaction}
use meow.Nakamoto.Chain.State.{ChainError, execution_failed, invalid_signature}

-- the loop that validates every signature
unfoldable pub validate_signatures :
    External → List SignedTransaction → Outcome ChainError (Unit {0})
validate_signatures x [] = ok tt
validate_signatures x (t ∷ ts) = do
  map_err (λ (e : ValidationError). invalid_signature) (validate_signed_transaction x t)
  validate_signatures x ts

-- `collect_inputs` over a store, with fuel beyond the number of its objects
unfoldable pub inputs_from : {E : Type 0} → External → Transaction → Store → Outcome E (List Object)
inputs_from x t s =
    expect (collect_inputs x.decode_module (get_object s) (suc (length s.objects)) t)

module _ (x : External) (e : Executor) where
  -- one transaction executed against a store
  unfoldable pub execute_on :
      ExternalContext → Transaction → Store → Outcome ExecutorError ExecutionResult
  unfolding inputs_from
  execute_on ctx t s = do inputs ← inputs_from x t s; e.execute t inputs ctx

  -- the loop over the transactions: the store at the end, and the recomputed results
  unfoldable pub replay :
      ExternalContext
      → List SignedTransaction
      → Store
      → Outcome ChainError (Store × List ExecutionResult)
  replay ctx [] s = ok (s, [])
  replay ctx (t ∷ ts) s = do
    r ← map_err (λ (e : ExecutorError). execution_failed) (execute_on ctx t.transaction s)
    s' ← apply_execution_result r s
    (s'', rs) ← replay ctx ts s'
    ok (s'', r ∷ rs)

  -- `recomputed_results.iter().map(|r| r.gas_used()).sum()`
  abbrev pub total_gas : List ExecutionResult → ℕ
  total_gas rs = sum_u64 (map (λ (r : ExecutionResult). r.gas_used) rs)

  -- `Err(..) => return false` in `apply_block_reward_transaction`, which leaves the store alone
  abbrev pub or_false :
      {F A : Type 0}
      → Store
      → Outcome F A
      → (A → Outcome ChainError (Bool × Store))
      → Outcome ChainError (Bool × Store)
  or_false s (ok a) k = k a
  or_false s (err f) k = ok (false, s)
  or_false s panic k = panic

  -- from the re-execution of the reward transaction on
  unfoldable pub apply_reward_result :
      ExecutionResult → ExecutionResult → Store → Outcome ChainError (Bool × Store)
  apply_reward_result r expected s =
      if eqb ExecutionResult-discrete r expected
      then (apply_execution_result r s >>= λ s'. ok (true, s'))
      else ok (false, s)

  unfoldable pub execute_reward :
      SignedTransaction → ExecutionResult → Store → Outcome ChainError (Bool × Store)
  unfolding apply_reward_result
  execute_reward t expected s =
      or_false s (execute_reward_transaction e t.transaction s)
        λ r. apply_reward_result r expected s

  unfoldable pub apply_block_reward_transaction :
      SignedTransaction → ExecutionResult → ℕ → Digest → Store → Outcome ChainError (Bool × Store)
  unfolding execute_reward
  apply_block_reward_transaction t expected amount hash s =
      or_false s (validate_signed_transaction x t) λ _.
        if is_valid_reward_transaction x t.transaction amount hash
        then execute_reward t expected s
        else ok (false, s)

  -- the `match` on the total, the reward transaction and its result
  unfoldable pub check_reward :
      ℕ
      → Option SignedTransaction
      → Option ExecutionResult
      → Digest
      → Store
      → Outcome ChainError (Bool × Store)
  unfolding apply_block_reward_transaction
  check_reward amount none none hash s = ok (amount == 0, s)
  check_reward amount none (some r) hash s = ok (false, s)
  check_reward amount (some t) none hash s = ok (false, s)
  check_reward amount (some t) (some r) hash s =
      if amount == 0 then ok (false, s) else apply_block_reward_transaction t r amount hash s
