-- ===== src/Executor.antt =====
-- The interface of crates/meow-vm-adapter/src/executor (mod.rs, error.rs) and the block context
-- that it is handed (external_context.rs). The consensus code is a client of these operations.
use meow.Base.{ℕ, List, Outcome}
use meow.Types.Primitives.{Address, Digest}
use meow.Types.Object.{Object, ObjectVersion}
use meow.Types.Transaction.{Transaction, ExecutionResult}

pub record ExternalContext : Type 0 where
  pub rand_seed : Digest
  pub timestamp : ℕ

unfoldable pub new_context : Digest → ℕ → ExternalContext
new_context seed timestamp = record { rand_seed = seed; timestamp = timestamp }

pub data ExecutorError : Type 0 where
  gas_coin_not_found invalid_gas_coin invalid_gas_coin_owner : ExecutorError
  invalid_object_digest : Address → Digest → Digest → ExecutorError
  invalid_object_version : Address → ObjectVersion → ObjectVersion → ExecutorError
  object_at_max_version : Address → ExecutorError
  module_publish_not_allowed : ExecutorError

pub record Executor : Type 0 where
  pub execute : Transaction → List Object → ExternalContext → Outcome ExecutorError ExecutionResult
  pub execute_system_transaction : Transaction → List Object → Outcome ExecutorError ExecutionResult
