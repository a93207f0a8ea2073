-- ===== src/Tests/Rounds.antt =====
-- The theorems on mining at two rounds of the small world: one in time, one with a stale clock.
use meow.Base.{
  ℕ, ◌≡◌, ◌↔◌, refl, Bool, true, false, [], ◌∷◌, ok, err, none, some, arith, sum_u64, eqb,
  ℕ_discrete,
}
use meow.BTreeMap.{get, insert, remove, contains_key}
use meow.Types.Validator.{validate_signed_transaction}
use meow.Types.Transaction.{results-discrete}
use meow.External.{BcsLaws, key_address}
use meow.Nakamoto.Header.{genesis, mining_header}
use meow.Nakamoto.Inputs.{collect_inputs}
use meow.Nakamoto.SystemTransactions.{
  execute_reward_transaction, make_reward_transaction, is_valid_reward_transaction,
}
use meow.Nakamoto.Store.{empty, get_object, with_objects, apply_execution_result, objects}
use meow.Nakamoto.Roots.{
  meets_difficulty, mining_hash, compute_state_root, compute_transactions_root, block_hash,
}
use meow.Nakamoto.Mempool.{empty_pool}
use meow.Nakamoto.Chain.{
  ChainError, ChainState, new, apply_block, execute_on, validate_signatures,
  validate_block_structure,
}
use meow.Nakamoto.Chain.Valid.{IsValid, new-IsValid}
use meow.Nakamoto.Chain.WellFormed.{IsWellFormed, validate_block_structure_iff}
use meow.Nakamoto.Store.Valid as StoreValid
use meow.Nakamoto.Miner.{
  max_nonce, MiningWork, out_of_fuel, grind, with_genesis, submit_transaction, prepare_round,
}
use meow.Nakamoto.Miner.Reward.{IsReady}
use meow.Nakamoto.Miner.Mined.{Mined}
use meow.Nakamoto.Miner.Grind.{IsMined}
use meow.Nakamoto.Miner.Loop.{grind_lem}
use meow.Nakamoto.Miner.Fuel.{grind_terminates}
use meow.Nakamoto.Miner.Accepted.{IsWorkOn, grind-apply_block, stale_clock}
use meow.Tests.World.{world, machine, genesis_objects, payment, failing_payment, keys}
use meow.Tests.Mining.{chain₀, store₀, miner₁, block₁, value_or}

unfoldable work_at : ℕ → MiningWork
unfolding payment failing_payment store₀ compute_transactions_root
work_at now = record {
  header = record {
    height = 1;
    parent_hash = block_hash world genesis;
    transactions_root = compute_transactions_root world (payment ∷ failing_payment ∷ []);
    reward_root = none;
    state_root = 0;
    timestamp = now;
    nonce = 0;
  };
  batch = payment ∷ failing_payment ∷ [];
  parent_store = store₀;
  difficulty = 3;
  miner_keypair = keys;
  miner_address = 2;
  reward_address = 40;
}

unfoldable mined_at : ℕ → Mined
unfolding grind work_at
mined_at now = value_or (genesis, empty) (grind world machine (work_at now))

laws : BcsLaws world
laws = record { decode-encode_u64 = λ n h. refl; decode-encode_address = λ a. refl }

work_at-IsReady : (now : ℕ) → IsReady world (work_at now)
unfolding work_at key_address
work_at-IsReady now = record {
  keys = λ d. refl;
  address = refl;
  small = λ amount hash. omega arith;
}

mined₁ : grind world machine (work_at 20) ≡ ok (mined_at 20)
unfolding max_nonce work_at mined_at chain₀ store₀ miner₁ payment failing_payment machine genesis
    get new get_object with_objects meets_difficulty mining_hash mining_header execute_on
    collect_inputs apply_execution_result sum_u64 execute_reward_transaction insert
    compute_state_root compute_transactions_root objects validate_signatures
    validate_signed_transaction results-discrete validate_block_structure make_reward_transaction
    eqb ℕ_discrete is_valid_reward_transaction prepare_round submit_transaction with_genesis remove
mined₁ = refl

mined₀ : grind world machine (work_at 0) ≡ ok (mined_at 0)
unfolding max_nonce work_at mined_at chain₀ store₀ miner₁ payment failing_payment machine genesis
    get new get_object with_objects meets_difficulty mining_hash mining_header execute_on
    collect_inputs apply_execution_result sum_u64 execute_reward_transaction insert
    compute_state_root compute_transactions_root objects validate_signatures
    validate_signed_transaction results-discrete validate_block_structure make_reward_transaction
    eqb ℕ_discrete is_valid_reward_transaction prepare_round submit_transaction with_genesis remove
mined₀ = refl

started₀ :
    prepare_round world {E = ChainError} 0 miner₁
    ≡ ok (some (work_at 0), record miner₁ { mempool = empty_pool })
unfolding max_nonce work_at mined_at chain₀ store₀ miner₁ payment failing_payment machine genesis
    get new get_object with_objects meets_difficulty mining_hash mining_header execute_on
    collect_inputs apply_execution_result sum_u64 execute_reward_transaction insert
    compute_state_root compute_transactions_root objects validate_signatures
    validate_signed_transaction results-discrete validate_block_structure make_reward_transaction
    eqb ℕ_discrete is_valid_reward_transaction prepare_round submit_transaction with_genesis remove
started₀ = refl

grind_lem_example :
    IsMined world machine (work_at 20) (work_at 20).header (work_at 20).batch (mined_at 20)
unfolding work_at
grind_lem_example =
    grind_lem world machine (work_at 20) laws (work_at-IsReady 20) (mined_at 20) refl mined₁

grind_terminates_example : ¬ (grind world machine (work_at 20) ≡ err out_of_fuel)
unfolding work_at
grind_terminates_example = grind_terminates world machine (work_at 20) refl

work_at-IsWorkOn : IsWorkOn world (work_at 20) 30 genesis chain₀
unfolding max_nonce work_at mined_at chain₀ store₀ miner₁ payment failing_payment machine genesis
    get new get_object with_objects meets_difficulty mining_hash mining_header execute_on
    collect_inputs apply_execution_result sum_u64 execute_reward_transaction insert
    compute_state_root compute_transactions_root objects validate_signatures
    validate_signed_transaction results-discrete validate_block_structure make_reward_transaction
    eqb ℕ_discrete is_valid_reward_transaction prepare_round submit_transaction with_genesis remove
work_at-IsWorkOn = record {
  parent_held = refl;
  snapshot = refl;
  difficulty = omega arith;
  height = refl;
  later = omega arith;
  timely = omega arith;
  root = refl;
  distinct = (refl, (refl, tt));
  signed = refl;
  bounded = omega arith;
}

fresh₁ : contains_key (block_hash world (mined_at 20).0) chain₀.blocks ≡ false
unfolding max_nonce work_at mined_at chain₀ store₀ miner₁ payment failing_payment machine genesis
    get new get_object with_objects meets_difficulty mining_hash mining_header execute_on
    collect_inputs apply_execution_result sum_u64 execute_reward_transaction insert
    compute_state_root compute_transactions_root objects validate_signatures
    validate_signed_transaction results-discrete validate_block_structure make_reward_transaction
    eqb ℕ_discrete is_valid_reward_transaction prepare_round submit_transaction with_genesis remove
fresh₁ = refl

chain₀-IsValid : IsValid world chain₀
unfolding chain₀ store₀
chain₀-IsValid = new-IsValid world store₀ 3 4 (StoreValid.with_objects-IsValid genesis_objects)

grind-apply_block_example :
    (after : ChainState × Bool) × (apply_block world machine 30 (mined_at 20).0 chain₀ ≡ ok after)
grind-apply_block_example =
    grind-apply_block world machine laws (work_at 20) 30 genesis chain₀ (mined_at 20)
      (work_at-IsReady 20) chain₀-IsValid work_at-IsWorkOn fresh₁ mined₁

head₀ : get miner₁.chain.head chain₀.blocks ≡ some genesis
unfolding max_nonce work_at mined_at chain₀ store₀ miner₁ payment failing_payment machine genesis
    get new get_object with_objects meets_difficulty mining_hash mining_header execute_on
    collect_inputs apply_execution_result sum_u64 execute_reward_transaction insert
    compute_state_root compute_transactions_root objects validate_signatures
    validate_signed_transaction results-discrete validate_block_structure make_reward_transaction
    eqb ℕ_discrete is_valid_reward_transaction prepare_round submit_transaction with_genesis remove
head₀ = refl

stale_clock_example : ¬ (apply_block world machine 30 (mined_at 0).0 chain₀ ≡ ok (chain₀, true))
unfolding genesis
stale_clock_example =
    stale_clock world {E = ChainError} machine laws 0 miner₁
      (record miner₁ { mempool = empty_pool }) (work_at 0) genesis (mined_at 0) (work_at-IsReady 0)
      started₀ (omega arith) mined₀ 30 chain₀ (chain₀, true) head₀

validate_block_structure_iff_example :
    (validate_block_structure world 30 block₁ 3 ≡ ok tt) ↔ IsWellFormed world 30 block₁ 3
validate_block_structure_iff_example = validate_block_structure_iff world 30 block₁ 3
