-- ===== src/Nakamoto/Miner/Mined.antt =====
-- What a block that `seal` makes (miner/mining_work.rs) has, and that a validator's re-execution of
-- it succeeds.
use meow.Base.{ℕ, ◌≡◌, refl, true, Option, none, some, List, ==-refl, is_some, ok, arith, eqb_refl}
use meow.Types.Primitives.{Digest}
use meow.Types.Transaction.{SignedTransaction, ExecutionResult, results-discrete}
use meow.External.{External, BcsLaws}
use meow.Executor.{Executor, new_context}
use meow.Nakamoto.Header.{BlockHeader, Block, mining_header}
use meow.Nakamoto.Store.{Store}
use meow.Nakamoto.Roots.{mining_hash, compute_state_root}
use meow.Nakamoto.Chain.{
  replay, check_reward, total_gas, execute_block, reward_digest, same_bool, same_root,
}
use meow.Nakamoto.Miner.Work.{MiningWork, add_reward}
use meow.Nakamoto.Miner.Reward.{IsReady, Paid}

abbrev pub Mined : Type 0
Mined = Block × Store

same_root_refl : (r : Option Digest) → same_root r r ≡ true
same_root_refl none = refl
same_root_refl (some d) = ==-refl d

module _ (x : External) (e : Executor) (bcs : BcsLaws x) (w : MiningWork)
    (ready : IsReady x w) where
  -- The block, as a function of what was executed and of the reward.
  abbrev pub sealed : BlockHeader → List SignedTransaction → List ExecutionResult → Paid → Mined
  sealed h executed results paid = (
    record {
      header = record h {
        reward_root = reward_digest x paid.0;
        state_root = compute_state_root x paid.2;
      };
      transactions = executed;
      results = results;
      reward_transaction = paid.0;
      reward_transaction_result = paid.1;
    },
    paid.2,
  )

  -- Sealing changes no field of the header that the mining hash covers.
  mining_hash-sealed :
      (h : BlockHeader) (ts : List SignedTransaction) (rs : List ExecutionResult) (paid : Paid)
      → mining_hash x (sealed h ts rs paid).0.header ≡ mining_hash x h
  unfolding mining_hash mining_header
  mining_hash-sealed h ts rs paid = refl

  pub execute_sealed :
      (h : BlockHeader) (ts : List SignedTransaction) (rs : List ExecutionResult) (s : Store)
      (paid : Paid)
      → replay x e (new_context (mining_hash x h) h.timestamp) ts w.parent_store ≡ ok (s, rs)
      → check_reward x e (total_gas x e rs) paid.0 paid.1 (mining_hash x h) s ≡ ok (true, paid.2)
      → execute_block x e (sealed h ts rs paid).0 w.parent_store ≡ ok paid.2
  unfolding execute_block
  execute_sealed h ts rs s paid run pay =
      rw
        (
          mining_hash-sealed h ts rs paid,
          run,
          eqb_refl results-discrete rs,
          pay,
          ==-refl (compute_state_root x paid.2),
        )
        refl

  pub paid_both :
      {E : Type 0} (h : BlockHeader) (amount : ℕ) (s : Store) (out : Paid)
      → add_reward x e {E = E} w h amount s ≡ ok out
      → same_bool (is_some out.0) (is_some out.1) ≡ true
  unfolding add_reward
  paid_both h amount s out p = ground arith
