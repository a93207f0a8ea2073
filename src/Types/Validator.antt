-- ===== src/Types/Validator.antt =====
-- crates/meow-types/src/transaction/validator: structural and signature checks of transactions.
use meow.Base.{
  ℕ, ◌+◌, ◌*◌, Bool, false, List, [], ◌∷◌, ltb, ◌==◌, length, any, contains, Outcome, ok, ◌>>◌,
  guard, reject_if,
}
use meow.Types.Primitives.{Address, Bytes}
use meow.Types.Transaction.{
  Input, Call, TransactionType, meow_call, meow_module_publish, Transaction, SignedTransaction,
}
use meow.External.{External, signer, verify, digest_of}

pub data ValidationError : Type 0 where
  aliased_call_argument gas_coin_used_as_call_argument : Address → ValidationError
  key_pair_error : ValidationError
  module_too_large too_many_call_arguments transaction_too_large : ℕ → ℕ → ValidationError
  signer_mismatch : Address → Address → ValidationError

-- config/mod.rs: the limits, and `CompilerConfig::default().max_params()`
abbrev pub max_bcs_serialized_module_size : ℕ
max_bcs_serialized_module_size = 512 * 1024

abbrev pub meow_call_transaction_bcs_bytes_max_size : ℕ
meow_call_transaction_bcs_bytes_max_size = 32 * 1024

abbrev pub meow_publish_module_transaction_bcs_bytes_max_size : ℕ
meow_publish_module_transaction_bcs_bytes_max_size = max_bcs_serialized_module_size + 1024

abbrev pub max_params : ℕ
max_params = 16

unfoldable pub validate_call_args_count : Call → Outcome ValidationError (Unit {0})
validate_call_args_count call =
    reject_if (ltb max_params (length call.arguments))
      (too_many_call_arguments (length call.arguments) max_params)

-- `matches!(arg, Input::Object(object_ref) if object_ref.address() == address)`
abbrev pub refers_to : Address → Input → Bool
refers_to a (Input.object r) = r.address == a
refers_to a (Input.raw b) = false

unfoldable pub validate_gas_coin_not_in_args : Call → Address → Outcome ValidationError (Unit {0})
validate_gas_coin_not_in_args call a =
    reject_if (any (refers_to a) call.arguments) (gas_coin_used_as_call_argument a)

-- The loop, with the set of the addresses seen so far.
unfoldable pub check_aliases : List Input → List Address → Outcome ValidationError (Unit {0})
check_aliases [] seen = ok tt
check_aliases (Input.raw b ∷ args) seen = check_aliases args seen
check_aliases (Input.object r ∷ args) seen = do
  reject_if (contains seen r.address) (aliased_call_argument r.address)
  check_aliases args (r.address ∷ seen)

unfoldable pub validate_no_aliased_args : Call → Outcome ValidationError (Unit {0})
unfolding check_aliases
validate_no_aliased_args call = check_aliases call.arguments []

unfoldable pub validate_module_size : Bytes → Outcome ValidationError (Unit {0})
validate_module_size m =
    reject_if (ltb max_bcs_serialized_module_size (length m))
      (module_too_large (length m) max_bcs_serialized_module_size)

unfoldable pub validate_signed_transaction_sender :
    Address → Address → Outcome ValidationError (Unit {0})
validate_signed_transaction_sender sender s = guard (s == sender) (signer_mismatch sender s)

module _ (x : External) where
  open x use {serialized_size, compute_transaction}

  unfoldable pub validate_transaction_size : Transaction → ℕ → Outcome ValidationError (Unit {0})
  validate_transaction_size t limit =
      reject_if (ltb limit (serialized_size t)) (transaction_too_large (serialized_size t) limit)

  -- the arms of the `match` of `validate_transaction`
  unfoldable pub validate_as : Transaction → TransactionType → Outcome ValidationError (Unit {0})
  unfolding validate_transaction_size validate_call_args_count validate_gas_coin_not_in_args
      validate_no_aliased_args validate_module_size
  validate_as t (meow_call call) = do
    validate_transaction_size t meow_call_transaction_bcs_bytes_max_size
    validate_call_args_count call
    validate_gas_coin_not_in_args call t.gas_coin.address
    validate_no_aliased_args call
  validate_as t (meow_module_publish m) = do
    validate_transaction_size t meow_publish_module_transaction_bcs_bytes_max_size
    validate_module_size m

  unfoldable pub validate_transaction : Transaction → Outcome ValidationError (Unit {0})
  unfolding validate_as
  validate_transaction t = validate_as t t.type_

  unfoldable pub verify_signed_transaction_signature :
      SignedTransaction → Outcome ValidationError (Unit {0})
  unfolding verify
  verify_signed_transaction_signature s =
      guard (verify x s.signature (digest_of x s)) key_pair_error

  unfoldable pub validate_signed_transaction :
      SignedTransaction → Outcome ValidationError (Unit {0})
  unfolding validate_transaction validate_signed_transaction_sender
      verify_signed_transaction_signature signer
  validate_signed_transaction s = do
    validate_transaction s.transaction
    validate_signed_transaction_sender s.transaction.sender (signer x s.signature)
    verify_signed_transaction_signature s
