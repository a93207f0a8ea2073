-- ===== src/Nakamoto/SystemTransactions.antt =====
-- crates/meow-nakamoto/src/system_transactions.rs: the block reward.
use text.Mathlib.Text.{◌==◌ as text_eq}
use meow.Base.{
  ℕ, String, Bool, false, Option, none, some, List, [], ◌∷◌, ◌&&◌, is_some, length, get_elem?,
  Outcome, ok, ◌>>=◌, expect, ◌==◌,
}
use meow.Types.Primitives.{Address, Digest, Bytes, zero_address, suffixed}
use meow.Types.Object.{Object, ObjectRef, version_zero}
use meow.Types.Transaction.{
  Input, Call, TransactionType, meow_call, meow_module_publish, Transaction, ExecutionResult,
}
use meow.External.{External}
use meow.Executor.{Executor, ExecutorError}
use meow.Nakamoto.Store.{Store, get_object}

-- system_framework/meow_object.rs, meow_coin.rs
unfoldable pub meow_object_module_address : Address
unfolding suffixed
meow_object_module_address = suffixed 0x10

unfoldable pub meow_coin_module_address : Address
unfolding suffixed
meow_coin_module_address = suffixed 0x20

abbrev pub meow_coin_mint_function_name : String
meow_coin_mint_function_name = "mint"

-- `o == Some(n)`
abbrev pub is_number : Option ℕ → ℕ → Bool
is_number none n = false
is_number (some m) n = m == n

-- `let Some(Input::Raw(bytes)) = o else { return false; }`, and a test of the bytes
abbrev pub raw_passes : (Bytes → Bool) → Option Input → Bool
raw_passes p none = false
raw_passes p (some (Input.object r)) = false
raw_passes p (some (Input.raw b)) = p b

module _ (x : External) where
  unfoldable pub make_reward_transaction : Address → Address → ℕ → Digest → Transaction
  unfolding meow_coin_module_address
  make_reward_transaction signer reward_address amount mining_block_hash = record {
    sender = signer;
    gas_coin = record {
      address = zero_address;
      version = version_zero;
      digest = mining_block_hash;
    };
    type_ = meow_call (record {
      module_ = meow_coin_module_address;
      function = meow_coin_mint_function_name;
      arguments =
          Input.raw (x.encode_u64 amount) ∷ Input.raw (x.encode_address reward_address) ∷ [];
    });
  }

  -- the checks of the gas-coin placeholder and of the call, in the order of the early returns
  is_placeholder : ObjectRef → Digest → Bool
  is_placeholder r mining_block_hash =
      r.address == zero_address && r.version == version_zero && r.digest == mining_block_hash

  is_mint_call : Call → ℕ → Bool
  unfolding meow_coin_module_address
  is_mint_call call expected_amount =
      call.module_ == meow_coin_module_address
      && text_eq call.function meow_coin_mint_function_name
      && length call.arguments == 2
      && raw_passes (λ b. is_number (x.decode_u64 b) expected_amount) (get_elem? call.arguments 0)
      && raw_passes (λ b. is_some (x.decode_address b)) (get_elem? call.arguments 1)

  reward_call_as : TransactionType → ObjectRef → ℕ → Digest → Bool
  unfolding is_placeholder is_mint_call
  reward_call_as (meow_call call) gas_coin amount hash =
      is_placeholder gas_coin hash && is_mint_call call amount
  reward_call_as (meow_module_publish b) gas_coin amount hash = false

  unfoldable pub is_valid_reward_transaction : Transaction → ℕ → Digest → Bool
  unfolding reward_call_as
  is_valid_reward_transaction t amount hash = reward_call_as t.type_ t.gas_coin amount hash

unfoldable pub collect_inputs_for_reward_transaction :
    {E : Type 0} → Store → Outcome E (List Object)
unfolding meow_object_module_address meow_coin_module_address
collect_inputs_for_reward_transaction s = do
  object ← expect (get_object s meow_object_module_address)
  coin ← expect (get_object s meow_coin_module_address)
  ok (object ∷ coin ∷ [])

unfoldable pub execute_reward_transaction :
    Executor → Transaction → Store → Outcome ExecutorError ExecutionResult
unfolding collect_inputs_for_reward_transaction
execute_reward_transaction e t s = do
  inputs ← collect_inputs_for_reward_transaction s
  e.execute_system_transaction t inputs
