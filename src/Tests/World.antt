-- ===== src/Tests/World.antt =====
-- A small world to run the model in: concrete functions for the third-party code and the executor,
-- genesis objects, and a miner with two transactions.
use meow.Base.{
  ℕ, ◌+◌, ◌*◌, ◌/◌, ◌^◌, true, false, Option, none, some, List, [], ◌∷◌, ok, err, ◌==◌, length,
}
use meow.Types.Primitives.{Address, Digest, Bytes}
use meow.Types.Object.{Object, fresh_object, fresh_module}
use meow.Types.Transaction.{Input, meow_call, KeyPair, SignedTransaction, success, ExecutionResult}
use meow.External.{External, sign}
use meow.Executor.{Executor, ExecutorError}
use meow.Nakamoto.Miner.{MinerConfig}

abbrev pub sum_addresses : List Object → ℕ
sum_addresses [] = 0
sum_addresses (o ∷ os) = o.address + sum_addresses os

abbrev pub chain_digests : List Digest → Digest
chain_digests [] = 7
chain_digests (d ∷ ds) = d + 3 * chain_digests ds

abbrev pub first_byte : Bytes → Option ℕ
first_byte [] = none
first_byte (b ∷ bs) = some b

-- The mining hash falls as the nonce rises; the other hashes are small numbers.
abbrev pub world : External
world = record {
  compute_object = λ o. 100 + o.address;
  compute_objects = λ os. 1 + sum_addresses os;
  compute_digests = chain_digests;
  compute_transaction = λ t. 1000 + t.sender + t.gas_coin.address;
  compute_header = λ h. 50 + h.height + 10 * h.state_root;
  compute_mining_header = λ h. 2 ^ 255 / (h.nonce + 1);
  serialized_size = λ t. 100;
  verify_key = λ k s d. true;
  sign_key = λ k d. d ∷ k;
  hash_public_key = λ k. length k;
  decode_module = λ b. none;
  encode_u64 = λ n. n ∷ [];
  decode_u64 = first_byte;
  encode_address = λ a. a ∷ [];
  decode_address = first_byte;
}

unfoldable pub coin_at : Address → Object
unfolding fresh_object
coin_at a = fresh_object a 2 9 (record { module_ = 0x20; name = "Coin" }) []

unfoldable pub created_by : Digest → Address → ℕ → ExecutionResult
unfolding coin_at
created_by d a gas = record {
  status = success;
  transaction_digest = d;
  created_objects = coin_at a ∷ [];
  changed_objects = [];
  destroyed_objects = [];
  gas_used = gas;
}

-- A transaction with a gas coin at address 9 fails; the others create an object for 5 units of gas.
unfoldable pub machine : Executor
unfolding created_by
machine = record {
  execute = λ t inputs ctx. elim (t.gas_coin.address == 9) [
    | true ↦ err ExecutorError.gas_coin_not_found
    | false ↦ ok (created_by (1000 + t.sender + t.gas_coin.address) (300 + t.gas_coin.address) 5)
  ];
  execute_system_transaction = λ t inputs. ok (created_by 77 777 0);
}

unfoldable pub genesis_objects : List Object
unfolding fresh_module coin_at
genesis_objects =
    fresh_module 0x20 9 [] ∷ fresh_module 0x10 9 [] ∷ coin_at 5 ∷ coin_at 9 ∷ coin_at 6 ∷ []

abbrev pub keys : KeyPair
keys = record { public = 1 ∷ 2 ∷ []; private = 3 ∷ [] }

unfoldable pub paying_with : Address → SignedTransaction
unfolding sign
paying_with a =
    (sign world
      (record {
        sender = 2;
        gas_coin = record { address = a; version = 1; digest = 100 + a };
        type_ =
            meow_call
              (record { module_ = 0x20; function = "join"; arguments = Input.raw (1 ∷ []) ∷ [] });
      })
      keys).0

unfoldable pub payment : SignedTransaction
unfolding paying_with
payment = paying_with 5

unfoldable pub failing_payment : SignedTransaction
unfolding paying_with
failing_payment = paying_with 9

unfoldable pub second_payment : SignedTransaction
unfolding paying_with
second_payment = paying_with 6

abbrev pub config : MinerConfig
config = record {
  difficulty = 3;
  keypair = keys;
  reward_address = 40;
  batch_size = 2;
  snapshot_depth = 4;
}
