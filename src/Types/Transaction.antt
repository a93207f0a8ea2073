-- ===== src/Types/Transaction.antt =====
-- crates/meow-types/src/transaction: transactions, their inputs, signatures and results.
use meow.Base.{ℕ, String, List, [], ℕ_discrete, String-discrete}
use meow.Types.Primitives.{Address, Digest, Bytes}
use meow.Types.Object.{Object, ObjectRef}

pub data Input : Type 0 where
  object : ObjectRef → Input
  raw : Bytes → Input

pub record Call : Type 0 where
  pub module_ : Address
  pub function : String
  pub arguments : List Input

pub data TransactionType : Type 0 where
  meow_call : Call → TransactionType
  meow_module_publish : Bytes → TransactionType

pub record Transaction : Type 0 where
  pub sender : Address
  pub gas_coin : ObjectRef
  pub type_ : TransactionType

-- keypair/signature.rs: the bytes of the signature and of the key that verifies it.
pub record Signature : Type 0 where
  pub signature : Bytes
  pub public_key : Bytes

-- keypair/mod.rs: a signing key with its public key.
pub record KeyPair : Type 0 where
  pub public : Bytes
  pub private : Bytes

pub record SignedTransaction : Type 0 where
  pub transaction : Transaction
  pub signature : Signature

pub data ExecutionStatus : Type 0 where
  success : ExecutionStatus
  failure : String → ExecutionStatus

pub record ExecutionResult : Type 0 where
  pub status : ExecutionStatus
  pub transaction_digest : Digest
  pub created_objects : List Object
  pub changed_objects : List Object
  pub destroyed_objects : List Object
  pub gas_used : ℕ

-- `ExecutionResult::new`, `failure` and `with_gas_used`
unfoldable pub new_result :
    ExecutionStatus → Digest → List Object → List Object → List Object → ExecutionResult
new_result status digest created changed destroyed = record {
  status = status;
  transaction_digest = digest;
  created_objects = created;
  changed_objects = changed;
  destroyed_objects = destroyed;
  gas_used = 0;
}

unfoldable pub failure_result : String → Digest → ExecutionResult
unfolding new_result
failure_result message digest = new_result (failure message) digest [] [] []

unfoldable pub with_gas_used : ExecutionResult → ℕ → ExecutionResult
with_gas_used r gas = record r { gas_used = gas }

-- `derive(PartialEq)` of results and of lists of them
unfoldable pub ExecutionResult-discrete : Discrete ExecutionResult
unfolding String-discrete
ExecutionResult-discrete = hlevel (ℕ_discrete, String-discrete)

unfoldable pub results-discrete : Discrete (List ExecutionResult)
unfolding ExecutionResult-discrete
results-discrete = hlevel (ℕ_discrete, String-discrete)
