-- ===== src/Tests/Sync.antt =====
-- Catching up by a snapshot in the small world: a node at genesis takes over the node that mined.
use meow.BTreeMap.{get, insert}
use meow.Base.{sum_u64, eqb, ℕ_discrete, ◌≡◌, refl, ok}
use meow.Types.Validator.{validate_signed_transaction}
use meow.Types.Transaction.{results-discrete}
use meow.Nakamoto.Header.{mining_header, StateSnapshot}
use meow.Nakamoto.Inputs.{collect_inputs}
use meow.Nakamoto.SystemTransactions.{
  execute_reward_transaction, make_reward_transaction, is_valid_reward_transaction,
}
use meow.Nakamoto.Store.{get_object, apply_execution_result, objects, with_objects}
use meow.Nakamoto.Roots.{
  meets_difficulty, mining_hash, compute_state_root, compute_transactions_root, block_hash,
}
use meow.Nakamoto.Chain.{
  execute_on, validate_signatures, head_height, prune_finalized_blocks, validate_block_structure,
  new, ChainError, anchored, head_block, head_store,
}
use meow.Nakamoto.Chain.Valid.{IsValid}
use meow.Nakamoto.Mempool.{empty_pool}
use meow.Nakamoto.Miner.{max_nonce, Miner, get_state_snapshot, replace_from_snapshot, with_genesis}
use meow.Nakamoto.Miner.Sync.{replace_from_snapshot_lem}
use meow.Tests.World.{world, machine}
use meow.Tests.Mining.{block₁, store₁, chain₀, miner₀}
use meow.Tests.Chain.{chain₁, chain₁-IsValid}

abbrev ahead : Miner
ahead = record miner₀ { chain = chain₁ }

abbrev snapshot : StateSnapshot
snapshot = record { head = block₁; objects = objects store₁ }

abbrev caught_up : Miner
caught_up = record miner₀ {
  chain = anchored (block_hash world block₁) block₁ store₁ 3 4;
  mempool = empty_pool;
}

taken : get_state_snapshot world {E = ChainError} ahead ≡ ok snapshot
unfolding max_nonce block₁ chain₀ store₁ machine get new get_object with_objects meets_difficulty
    mining_hash mining_header execute_on collect_inputs apply_execution_result sum_u64
    execute_reward_transaction insert compute_state_root compute_transactions_root objects
    validate_signatures validate_signed_transaction results-discrete head_height
    prune_finalized_blocks validate_block_structure make_reward_transaction eqb ℕ_discrete
    is_valid_reward_transaction miner₀ get_state_snapshot with_genesis
taken = refl

replaced : replace_from_snapshot world 30 snapshot miner₀ ≡ ok caught_up
unfolding max_nonce block₁ chain₀ store₁ machine get new get_object with_objects meets_difficulty
    mining_hash mining_header execute_on collect_inputs apply_execution_result sum_u64
    execute_reward_transaction insert compute_state_root compute_transactions_root objects
    validate_signatures validate_signed_transaction results-discrete head_height
    prune_finalized_blocks validate_block_structure make_reward_transaction eqb ℕ_discrete
    is_valid_reward_transaction miner₀ replace_from_snapshot with_genesis
replaced = refl

replace_from_snapshot_lem_example :
    (head_block {E = ChainError} caught_up.chain ≡ head_block ahead.chain)
    × (head_store {E = ChainError} caught_up.chain ≡ head_store ahead.chain)
    × IsValid world caught_up.chain
    × (caught_up.mempool ≡ empty_pool)
replace_from_snapshot_lem_example =
    replace_from_snapshot_lem world {E = ChainError} 30 ahead miner₀ caught_up snapshot
      chain₁-IsValid taken replaced
