-- ===== src/Nakamoto/Chain/Apply.antt =====
-- The operations of `ChainState` that change it: `from_snapshot`, `commit` and `apply_block`
-- (chain/mod.rs). A result carries the new state, or the error with the state left as it was.
use meow.Base.{
  ℕ, ◌+◌, ◌%◌, ◌^◌, Bool, true, false, ltb, leb, ◌==◌, eqb, if◌then◌else◌, Outcome, ok, err, panic,
  ◌>>=◌, ◌>>◌, guard, reject_if, expect,
}
use meow.BTreeMap.{get, insert, contains_key}
use meow.Types.Transaction.{results-discrete}
use meow.External.{External}
use meow.Executor.{Executor, new_context}
use meow.Nakamoto.Header.{Block}
use meow.Nakamoto.Store.{Store}
use meow.Nakamoto.Roots.{block_hash, mining_hash, compute_state_root}
use meow.Nakamoto.Chain.State.{
  ChainError, already_known, invalid_height, invalid_reward, results_mismatch,
  snapshot_not_advancing, state_root_mismatch, timestamp_not_advancing, unknown_parent, ChainState,
  anchored, head_height, prune_finalized_blocks,
}
use meow.Nakamoto.Chain.Structure.{validate_block_structure}
use meow.Nakamoto.Chain.Replay.{validate_signatures, replay, total_gas, check_reward}

module _ (x : External) where
  unfoldable pub from_snapshot : ℕ → ℕ → Block → Store → ℕ → ℕ → Outcome ChainError ChainState
  unfolding anchored
  from_snapshot now current_head_height block store difficulty depth = do
    reject_if (leb block.header.height current_head_height)
        (snapshot_not_advancing block.header.height current_head_height)
    validate_block_structure x now block difficulty
    guard (compute_state_root x store == block.header.state_root) state_root_mismatch
    ok (anchored (block_hash x block) block store difficulty depth)

  -- `.expect(..)` on a result
  abbrev pub unwrap : {E F A : Type 0} → Outcome E A → Outcome F A
  unwrap (ok a) = ok a
  unwrap (err e) = panic
  unwrap panic = panic

  -- The block and its store become the head.
  abbrev pub with_head : Block → Store → ChainState → ChainState
  with_head block store c = record c {
    blocks = insert (block_hash x block) block c.blocks;
    snapshots = insert (block_hash x block) store c.snapshots;
    head = block_hash x block;
  }

  unfoldable pub commit : {E : Type 0} → ℕ → Block → Store → ChainState → Outcome E ChainState
  unfolding prune_finalized_blocks
  commit now block store c = do
    unwrap (validate_block_structure x now block c.difficulty)
    prune_finalized_blocks (with_head block store c)

  abbrev pub recorded : Block → Store → ChainState → ChainState
  recorded block store c = record c {
    blocks = insert (block_hash x block) block c.blocks;
    snapshots = insert (block_hash x block) store c.snapshots;
  }

  -- `self.head = block_hash; self.prune_finalized_blocks(); return Ok(true);`
  unfoldable pub switch_head : Block → Store → ChainState → Outcome ChainError (ChainState × Bool)
  unfolding prune_finalized_blocks
  switch_head block store c = do
    c' ← prune_finalized_blocks (with_head block store c)
    ok (c', true)

  -- the end of `apply_block`: record the block, and switch to it if it is higher than the head
  unfoldable pub record_block : Block → Store → ChainState → Outcome ChainError (ChainState × Bool)
  unfolding head_height switch_head
  record_block block store c = do
    height ← head_height (recorded block store c)
    if ltb height block.header.height
        then switch_head block store c
        else ok (recorded block store c, false)

  module _ (e : Executor) where
    -- the re-execution: the store that the block leads to, from its parent's
    unfoldable pub execute_block : Block → Store → Outcome ChainError Store
    unfolding replay check_reward
    execute_block block parent_store = do
      (executed, results) ←
          replay x e (new_context (mining_hash x block.header) block.header.timestamp)
            block.transactions parent_store
      guard (eqb results-discrete results block.results) results_mismatch
      (reward_valid, store) ←
          check_reward x e (total_gas x e results) block.reward_transaction
            block.reward_transaction_result (mining_hash x block.header) executed
      guard reward_valid invalid_reward
      guard (compute_state_root x store == block.header.state_root) state_root_mismatch
      ok store

    unfoldable pub apply_block : ℕ → Block → ChainState → Outcome ChainError (ChainState × Bool)
    unfolding execute_block record_block
    apply_block now block c = do
      reject_if (contains_key (block_hash x block) c.blocks) already_known
      guard (contains_key block.header.parent_hash c.blocks) unknown_parent
      validate_block_structure x now block c.difficulty
      parent ← expect (get block.header.parent_hash c.blocks)
      guard (block.header.height == (parent.header.height + 1) % 2 ^ 64)
          (invalid_height ((parent.header.height + 1) % 2 ^ 64) block.header.height)
      guard (ltb parent.header.timestamp block.header.timestamp) timestamp_not_advancing
      validate_signatures x block.transactions
      parent_store ← expect (get block.header.parent_hash c.snapshots)
      store ← execute_block block parent_store
      record_block block store c
