-- ===== src/Tests/Mining.antt =====
-- A mining round in the small world: two submissions, of which one fails when it is executed, and
-- the block that `grind` makes of them.
use meow.Base.{◌≡◌, refl, true, Outcome, ok, err, panic, ◌>>=◌, some, length}
use meow.Nakamoto.Header.{Block, genesis}
use meow.Nakamoto.Store.{Store, empty, with_objects}
use meow.Nakamoto.Roots.{block_hash}
use meow.Nakamoto.Chain.{ChainState, from_snapshot, anchored, with_head, apply_block, new}
use meow.Nakamoto.Miner.{
  max_nonce, GrindEnd, out_of_fuel, grind, Miner, with_genesis, submit_transaction, prepare_round,
}
use meow.BTreeMap.{get, insert}
use meow.Base.{sum_u64, eqb, ℕ_discrete}
use meow.Types.Validator.{validate_signed_transaction}
use meow.Types.Transaction.{results-discrete}
use meow.Nakamoto.Header.{mining_header}
use meow.Nakamoto.Inputs.{collect_inputs}
use meow.Nakamoto.SystemTransactions.{
  execute_reward_transaction, make_reward_transaction, is_valid_reward_transaction,
}
use meow.Nakamoto.Store.{get_object, apply_execution_result, objects}
use meow.Nakamoto.Roots.{
  meets_difficulty, mining_hash, compute_state_root, compute_transactions_root,
}
use meow.Nakamoto.Chain.{
  execute_on, validate_signatures, head_height, prune_finalized_blocks, validate_block_structure,
}
use meow.Tests.World.{world, machine, genesis_objects, payment, failing_payment, config}

abbrev pub value_or {ℓ} : {E : Type 0} {A : Type ℓ} → A → Outcome E A → A
value_or a (ok b) = b
value_or a (err e) = a
value_or a panic = a

unfoldable pub store₀ : Store
unfolding with_objects genesis_objects
store₀ = with_objects genesis_objects

unfoldable pub miner₀ : Miner
unfolding with_genesis genesis_objects
miner₀ = with_genesis world genesis_objects config

unfoldable pub miner₁ : Miner
unfolding submit_transaction miner₀ payment failing_payment
miner₁ =
    value_or miner₀
      (submit_transaction world payment miner₀ >>= submit_transaction world failing_payment)

submitted_two : length miner₁.mempool.pending ≡ 2
unfolding miner₁ get new get_object with_objects
submitted_two = refl

unfoldable mined : Outcome GrindEnd (Block × Store)
unfolding prepare_round grind miner₁ machine
mined = elim (prepare_round world {E = GrindEnd} 20 miner₁) [
  | ok (some w, m) ↦ grind world machine w
  | _ ↦ err out_of_fuel
]

unfoldable pub block₁ : Block
unfolding mined
block₁ = (value_or (genesis, empty) mined).0

unfoldable pub store₁ : Store
unfolding mined
store₁ = (value_or (genesis, empty) mined).1

-- One of the two transactions ran; the block pays for 5 units of gas; the nonce search stopped at
-- the first nonce whose hash has three leading zeros.
block₁_mined :
    (length block₁.transactions ≡ 1) × (block₁.header.nonce ≡ 4) × (block₁.header.height ≡ 1)
unfolding block₁ get new get_object with_objects max_nonce meets_difficulty mining_hash
    mining_header execute_on collect_inputs apply_execution_result sum_u64
    execute_reward_transaction
block₁_mined = (refl, refl, refl)

unfoldable pub chain₀ : ChainState
unfolding new store₀
chain₀ = new world store₀ 3 4

-- A peer at genesis accepts the block, and its head moves to it.
pub accepts₁ :
    apply_block world machine 30 block₁ chain₀ ≡ ok (with_head world block₁ store₁ chain₀, true)
unfolding max_nonce apply_block block₁ chain₀ store₁ machine get new get_object with_objects
    meets_difficulty mining_hash mining_header execute_on collect_inputs apply_execution_result
    sum_u64 execute_reward_transaction insert compute_state_root compute_transactions_root objects
    validate_signatures validate_signed_transaction results-discrete head_height
    prune_finalized_blocks validate_block_structure make_reward_transaction eqb ℕ_discrete
    is_valid_reward_transaction
accepts₁ = refl

pub structure₁ : validate_block_structure world 30 block₁ chain₀.difficulty ≡ ok tt
unfolding max_nonce block₁ chain₀ store₁ machine get new get_object with_objects meets_difficulty
    mining_hash mining_header execute_on collect_inputs apply_execution_result sum_u64
    execute_reward_transaction insert compute_state_root compute_transactions_root objects
    validate_signatures validate_signed_transaction results-discrete head_height
    prune_finalized_blocks validate_block_structure make_reward_transaction eqb ℕ_discrete
    is_valid_reward_transaction
structure₁ = refl

pub root₁ : compute_state_root world store₁ ≡ block₁.header.state_root
unfolding max_nonce block₁ chain₀ store₁ machine get new get_object with_objects meets_difficulty
    mining_hash mining_header execute_on collect_inputs apply_execution_result sum_u64
    execute_reward_transaction insert compute_state_root compute_transactions_root objects
    validate_signatures validate_signed_transaction results-discrete head_height
    prune_finalized_blocks validate_block_structure make_reward_transaction eqb ℕ_discrete
    is_valid_reward_transaction
root₁ = refl

pub height₁ : block₁.header.height ≡ 1
unfolding max_nonce block₁ chain₀ store₁ machine get new get_object with_objects meets_difficulty
    mining_hash mining_header execute_on collect_inputs apply_execution_result sum_u64
    execute_reward_transaction insert compute_state_root compute_transactions_root objects
    validate_signatures validate_signed_transaction results-discrete head_height
    prune_finalized_blocks validate_block_structure make_reward_transaction eqb ℕ_discrete
    is_valid_reward_transaction
height₁ = refl

pub held₁ :
    get (block_hash world block₁) (with_head world block₁ store₁ chain₀).snapshots ≡ some store₁
unfolding max_nonce block₁ chain₀ store₁ machine get new get_object with_objects meets_difficulty
    mining_hash mining_header execute_on collect_inputs apply_execution_result sum_u64
    execute_reward_transaction insert compute_state_root compute_transactions_root objects
    validate_signatures validate_signed_transaction results-discrete head_height
    prune_finalized_blocks validate_block_structure make_reward_transaction eqb ℕ_discrete
    is_valid_reward_transaction
held₁ = refl

pub head₁ :
    get (block_hash world block₁) (with_head world block₁ store₁ chain₀).blocks ≡ some block₁
unfolding max_nonce block₁ chain₀ store₁ machine get new get_object with_objects meets_difficulty
    mining_hash mining_header execute_on collect_inputs apply_execution_result sum_u64
    execute_reward_transaction insert compute_state_root compute_transactions_root objects
    validate_signatures validate_signed_transaction results-discrete head_height
    prune_finalized_blocks validate_block_structure make_reward_transaction eqb ℕ_discrete
    is_valid_reward_transaction
head₁ = refl

pub snapshot₁ :
    from_snapshot world 30 0 block₁ store₁ 3 4
    ≡ ok (anchored (block_hash world block₁) block₁ store₁ 3 4)
unfolding max_nonce block₁ chain₀ store₁ machine get new get_object with_objects meets_difficulty
    mining_hash mining_header execute_on collect_inputs apply_execution_result sum_u64
    execute_reward_transaction insert compute_state_root compute_transactions_root objects
    validate_signatures validate_signed_transaction results-discrete head_height
    prune_finalized_blocks validate_block_structure make_reward_transaction eqb ℕ_discrete
    is_valid_reward_transaction from_snapshot
snapshot₁ = refl
