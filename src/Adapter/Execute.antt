-- ===== src/Adapter/Execute.antt =====
-- crates/meow-vm-adapter/src/executor/mod.rs: the execution of a transaction. The bytecode verifiers of a
-- published module are an argument, and so is the fuel of the dependency search and of the machine.
use meow.Base.{
  ℕ, ◌*◌, ◌%◌, ◌^◌, String, Bool, true, false, ◌||◌, Option, none, some, List, [], ◌∷◌, leb,
  Outcome, ok, err, panic, ◌>>=◌, ◌>>◌, guard, reject_if, ok_or, expect, map_err, length,
}
use meow.Types.Primitives.{Address, Digest, Bytes, zero_digest}
use meow.Types.Object.{Object, fresh_module}
use meow.Types.Validator.{max_bcs_serialized_module_size}
use meow.Types.Transaction.{
  Transaction, TransactionType, meow_call, meow_module_publish, Call, ExecutionResult, success,
  new_result, failure_result,
}
use meow.External.{External}
use meow.Executor.{ExecutorError, ExternalContext, new_context, module_publish_not_allowed}
use meow.Vm.Types.{VmType, VmTypes, Value}
use meow.Vm.Module.{Module, get_function}
use meow.Vm.Errors.{VmError, aborted}
use meow.Vm.Gas.{GasMeter, new_meter, unlimited, charge, default_schedule}
use meow.Vm.Natives.{VmConfig, default_config}
use meow.Vm.Machine.Exec.{Vm}
use meow.Vm.Machine.Run.{Stop, Left, new_vm, call_vm}
use meow.Adapter.Defs.{
  Platform, Failure, function_not_found, returns_struct, module_size, published_undecodable,
  dep_resolution, of_vm, derive, balance_from_object,
}
use meow.Adapter.Context.{Context, new_execution, build_natives}
use meow.Adapter.Resolvers.{
  Halt, failed, out_of_fuel, resolve_gas_coin_object, resolve_args, resolve_module,
  resolve_dep_modules,
}
use meow.Adapter.Effects.{collect_object_effects, apply_gas_spending}

abbrev pub gas_per_module_byte : ℕ
gas_per_module_byte = 10

abbrev pub base_transaction_gas_cost : ℕ
base_transaction_gas_cost = 1000

-- `vm_config` and `vm_config_privileged`
unfoldable pub vm_config : VmConfig
vm_config = default_config

unfoldable pub vm_config_privileged : VmConfig
unfolding vm_config
vm_config_privileged = record vm_config { enable_call_private_functions = true }

unfoldable mutual
  pub return_type_contains_struct : VmType → Bool
  return_type_contains_struct (VmType.struct name) = true
  return_type_contains_struct (VmType.tuple types) = any_contains_struct types
  return_type_contains_struct t = false

  pub any_contains_struct : VmTypes → Bool
  any_contains_struct VmTypes.nil = false
  any_contains_struct (VmTypes.cons t ts) = return_type_contains_struct t || any_contains_struct ts

-- Why an execution has no result.
pub data End : Type 0 where
  refused : ExecutorError → End
  starved : End

-- The verifiers: `meow_vm_bytecode_verifier::verify` and then the adapter's `bytecode_verifier::verify`.
abbrev pub Verifier : Type 0
Verifier = Module → List (Address × Module) → Outcome Failure (Unit {0})

module _ (x : External) (y : Platform) (verify : Verifier) (fuel : ℕ) where
  abbrev pub contains_struct : Option VmType → Bool
  contains_struct none = false
  contains_struct (some t) = return_type_contains_struct t

  -- What a call is run with: the machine, the arguments and the objects among them.
  pub record Prepared : Type 0 where
    pub vm : Vm Context
    pub values : List Value
    pub objects : List Object

  abbrev pub running : VmError → Halt
  running e = failed (of_vm e)

  unfoldable pub prepare : Address → Call → List Object → VmConfig → Outcome Halt Prepared
  prepare sender call inputs config = do
    m ← map_err failed (resolve_module x y inputs call.module_)
    deps ← resolve_dep_modules x y fuel inputs m.imports
    func ← ok_or (get_function m call.function) (failed (function_not_found call.function))
    reject_if (contains_struct func.return_type) (failed (returns_struct call.function))
    (values, objects) ← map_err failed (resolve_args x y call func sender inputs)
    vm ← map_err running (new_vm (call.module_, m) (build_natives x y) default_schedule deps config)
    ok (record { vm = vm; values = values; objects = objects })

  -- The message of an abort is the message that the contract gave.
  unfoldable pub message_of : Failure → String
  message_of (of_vm (aborted code message)) = message
  message_of f = y.render f

  -- A failure is a result without objects.
  unfoldable pub settle : Digest → Outcome Halt ExecutionResult → Outcome End ExecutionResult
  unfolding message_of
  settle digest (ok r) = ok r
  settle digest (err (failed f)) = ok (failure_result (message_of f) digest)
  settle digest (err out_of_fuel) = err starved
  settle digest panic = panic

  -- The effects of a run that returned.
  unfoldable pub conclude : Digest → List Object → Context → Outcome Halt ExecutionResult
  conclude digest objects ctx =
      map_err failed (collect_object_effects x y ctx objects digest) >>= λ effects.
      ok (new_result success digest effects.0 effects.1.0 effects.1.1)

  unfoldable pub after_run :
      Digest → List Object → Left (Option Value) Context → Outcome Halt ExecutionResult
  unfolding conclude
  after_run digest objects (ok v, w) = conclude digest objects w.state
  after_run digest objects (err (Stop.failed e), w) = err (failed (of_vm e))
  after_run digest objects (err Stop.out_of_fuel, w) = err out_of_fuel
  after_run digest objects (panic, w) = panic

  unfoldable pub run_prepared :
      Digest
      → String
      → Context
      → GasMeter
      → Outcome Halt Prepared
      → Outcome Halt ExecutionResult × GasMeter
  unfolding after_run
  run_prepared digest name ctx g (err h) = (err h, g)
  run_prepared digest name ctx g panic = (panic, g)
  run_prepared digest name ctx g (ok p) =
      let left = call_vm y.hex p.vm fuel name p.values (record { gas = g; state = ctx }) in
      (after_run digest p.objects left, left.1.gas)

  unfoldable pub execute_meow_call :
      Address
      → Digest
      → Call
      → List Object
      → GasMeter
      → VmConfig
      → ExternalContext
      → Outcome Halt ExecutionResult × GasMeter
  unfolding run_prepared prepare
  execute_meow_call sender digest call inputs g config block =
      run_prepared digest call.function
        (new_execution x y sender digest block.rand_seed block.timestamp) g
        (prepare sender call inputs config)

  -- `format!("dep resolution: {e}")`
  abbrev pub in_dep : Halt → Halt
  in_dep (failed f) = failed (dep_resolution f)
  in_dep out_of_fuel = out_of_fuel

  -- The module's checks before its bytes are charged for.
  unfoldable pub check_module : Bytes → List Object → Outcome Halt (Unit {0})
  check_module bytes inputs = do
    guard (leb (length bytes) max_bcs_serialized_module_size)
        (failed (module_size (length bytes) max_bcs_serialized_module_size))
    m ← ok_or (x.decode_module bytes) (failed published_undecodable)
    deps ← map_err in_dep (resolve_dep_modules x y fuel inputs m.imports)
    map_err failed (verify m deps)

  unfoldable pub publish_charged :
      Digest
      → Bytes
      → Outcome VmError (Unit {0}) × GasMeter
      → Outcome Halt ExecutionResult × GasMeter
  publish_charged digest bytes (ok u, g) = (
    ok (new_result success digest (fresh_module (derive x y digest 0 0) digest bytes ∷ []) [] []),
    g,
  )
  publish_charged digest bytes (err e, g) = (err (failed (of_vm e)), g)
  publish_charged digest bytes (panic, g) = (panic, g)

  unfoldable pub publish_checked :
      Digest → Bytes → GasMeter → Outcome Halt (Unit {0}) → Outcome Halt ExecutionResult × GasMeter
  unfolding publish_charged
  publish_checked digest bytes g (ok u) =
      publish_charged digest bytes (charge (length bytes * gas_per_module_byte % 2 ^ 64) g)
  publish_checked digest bytes g (err h) = (err h, g)
  publish_checked digest bytes g panic = (panic, g)

  unfoldable pub execute_meow_module_publish :
      Digest → Bytes → List Object → GasMeter → Outcome Halt ExecutionResult × GasMeter
  unfolding publish_checked check_module
  execute_meow_module_publish digest bytes inputs g =
      publish_checked digest bytes g (check_module bytes inputs)

  unfoldable pub execute_type :
      TransactionType
      → Address
      → Digest
      → List Object
      → GasMeter
      → VmConfig
      → ExternalContext
      → Outcome Halt ExecutionResult × GasMeter
  unfolding execute_meow_call execute_meow_module_publish
  execute_type (meow_call call) sender digest inputs g config block =
      execute_meow_call sender digest call inputs g config block
  execute_type (meow_module_publish bytes) sender digest inputs g config block =
      execute_meow_module_publish digest bytes inputs g

  -- `execute` after the base charge
  unfoldable pub execute_charged :
      Transaction
      → Digest
      → List Object
      → ExternalContext
      → Outcome VmError (Unit {0}) × GasMeter
      → Outcome Halt ExecutionResult × GasMeter
  unfolding execute_type
  execute_charged t digest inputs block (ok u, g) =
      execute_type t.type_ t.sender digest inputs g vm_config block
  execute_charged t digest inputs block (err e, g) = (err (failed (of_vm e)), g)
  execute_charged t digest inputs block (panic, g) = (panic, g)

  unfoldable pub execute : Transaction → List Object → ExternalContext → Outcome End ExecutionResult
  unfolding execute_charged settle
  execute t inputs block = do
    coin ← map_err refused (resolve_gas_coin_object x y t.gas_coin t.sender inputs)
    budget ← expect (balance_from_object x y coin)
    let digest = x.compute_transaction t
    let left =
        execute_charged t digest inputs block (charge base_transaction_gas_cost (new_meter budget))
    r ← settle digest left.0
    apply_gas_spending x y r coin left.1.spent digest

  -- `ExternalContext::default()`
  abbrev pub no_block : ExternalContext
  no_block = new_context zero_digest 0

  execute_system_as : Transaction → TransactionType → List Object → Outcome End ExecutionResult
  unfolding execute_meow_call settle
  execute_system_as t (meow_call call) inputs =
      let digest = x.compute_transaction t in
      settle digest
        (execute_meow_call t.sender digest call inputs unlimited vm_config_privileged no_block).0
  execute_system_as t (meow_module_publish bytes) inputs = err (refused module_publish_not_allowed)

  unfoldable pub execute_system_transaction :
      Transaction → List Object → Outcome End ExecutionResult
  unfolding execute_system_as
  execute_system_transaction t inputs = execute_system_as t t.type_ inputs

  unfoldable pub execute_genesis_transaction :
      Transaction → List Object → Outcome End ExecutionResult
  unfolding execute_type settle
  execute_genesis_transaction t inputs =
      let digest = x.compute_transaction t in
      settle digest
        (execute_type t.type_ t.sender digest inputs unlimited vm_config_privileged no_block).0
