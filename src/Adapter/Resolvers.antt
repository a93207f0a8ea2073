-- ===== src/Adapter/Resolvers.antt =====
-- crates/meow-vm-adapter/src/executor/resolvers.rs: the inputs of an execution, checked and decoded.
use meow.Base.{
  ℕ, zero, suc, ◌+◌, String, Bool, false, ◌&&◌, Option, none, some, List, [], ◌∷◌, ◌==◌,
  if◌then◌else◌, is_some, Outcome, ok, err, ◌>>=◌, ◌>>◌, guard, reject_if, ok_or, map_err, find,
  length,
}
use meow.Types.Primitives.{Address, Bytes}
use meow.Types.Object.{Object, ObjectRef, owner_address, version_max}
use meow.Types.Transaction.{Input, Call, raw}
use meow.External.{External}
use meow.Executor.{
  ExecutorError, gas_coin_not_found, invalid_gas_coin, invalid_gas_coin_owner,
  invalid_object_digest, invalid_object_version, object_at_max_version,
}
use meow.Vm.Types.{VmType, Value}
use meow.Vm.Module.{Module, Function}
use meow.Vm.Machine.Exec.{find_dep}
use meow.Adapter.Defs.{
  Platform, Failure, module_not_found, module_undecodable, missing_dependency,
  dependency_undecodable, argument_count, argument, input_not_found, module_argument, not_owned,
  at_max_version, argument_version, argument_digest, object_undecodable, raw_undecodable,
  raw_of_type, is_module, is_meow_coin_object, object_to_vm_object_value,
}

-- `inputs.iter().find(|o| o.address() == a)`
unfoldable pub input_at : Address → List Object → Option Object
input_at a inputs = find (λ o. o.address == a) inputs

abbrev pub is_owned_by : Address → Option Address → Bool
is_owned_by sender none = false
is_owned_by sender (some a) = a == sender

-- Why a dependency search stops.
pub data Halt : Type 0 where
  failed : Failure → Halt
  out_of_fuel : Halt

module _ (x : External) (y : Platform) where
  unfoldable pub resolve_gas_coin_object :
      ObjectRef → Address → List Object → Outcome ExecutorError Object
  unfolding input_at is_meow_coin_object
  resolve_gas_coin_object ref sender inputs = do
    coin ← ok_or (input_at ref.address inputs) gas_coin_not_found
    guard (is_meow_coin_object coin) invalid_gas_coin
    guard (is_owned_by sender (owner_address coin.owner)) invalid_gas_coin_owner
    reject_if (coin.version == version_max) (object_at_max_version ref.address)
    guard (coin.version == ref.version)
        (invalid_object_version ref.address ref.version coin.version)
    guard (x.compute_object coin == ref.digest)
        (invalid_object_digest ref.address ref.digest (x.compute_object coin))
    ok coin

  -- `bcs::from_bytes` at the parameter's type
  unfoldable pub resolve_raw : Bytes → VmType → Outcome Failure Value
  resolve_raw bytes VmType.u64 =
      ok_or (x.decode_u64 bytes) (raw_undecodable VmType.u64) >>= λ n. ok (Value.u64 n)
  resolve_raw bytes VmType.bool =
      ok_or (y.decode_bool bytes) (raw_undecodable VmType.bool) >>= λ b. ok (Value.bool b)
  resolve_raw bytes VmType.address =
      ok_or (x.decode_address bytes) (raw_undecodable VmType.address) >>= λ a. ok (Value.address a)
  resolve_raw bytes VmType.str =
      ok_or (y.decode_str bytes) (raw_undecodable VmType.str) >>= λ s. ok (Value.str s)
  resolve_raw bytes t = err (raw_of_type t)

  unfoldable pub resolve_object : ObjectRef → Address → List Object → Outcome Failure Value
  unfolding input_at object_to_vm_object_value
  resolve_object ref sender inputs = do
    o ← ok_or (input_at ref.address inputs) (input_not_found ref.address)
    reject_if (is_module o.type_) (module_argument o.address)
    guard (is_owned_by sender (owner_address o.owner)) (not_owned o.address)
    reject_if (o.version == version_max) (at_max_version o.address)
    guard (o.version == ref.version) (argument_version o.address ref.version o.version)
    guard (x.compute_object o == ref.digest)
        (argument_digest o.address ref.digest (x.compute_object o))
    ok_or (object_to_vm_object_value x y o) object_undecodable

  unfoldable pub resolve_arg : Input → VmType → Address → List Object → Outcome Failure Value
  unfolding resolve_object resolve_raw
  resolve_arg (Input.object ref) t sender inputs = resolve_object ref sender inputs
  resolve_arg (raw bytes) t sender inputs = resolve_raw bytes t

  -- The object that an argument stands for.
  abbrev pub object_arg : Input → List Object → List Object → List Object
  object_arg (raw bytes) inputs rest = rest
  object_arg (Input.object ref) inputs rest = elim (input_at ref.address inputs) [
    | none ↦ rest
    | some o ↦ o ∷ rest
  ]

  -- The loop of `resolve_args`, from argument `i` on.
  unfoldable pub resolve_each :
      ℕ
      → List Input
      → List (String × VmType)
      → Address
      → List Object
      → Outcome Failure (List Value × List Object)
  unfolding resolve_arg
  resolve_each i (input ∷ args) ((name, t) ∷ params) sender inputs = do
    v ← map_err (argument i) (resolve_arg input t sender inputs)
    (values, objects) ← resolve_each (i + 1) args params sender inputs
    ok (v ∷ values, object_arg input inputs objects)
  resolve_each i args params sender inputs = ok ([], [])

  unfoldable pub resolve_args :
      Call → Function → Address → List Object → Outcome Failure (List Value × List Object)
  unfolding resolve_each
  resolve_args call func sender inputs =
      guard (length call.arguments == length func.params)
        (argument_count (length func.params) (length call.arguments))
      >> resolve_each 0 call.arguments func.params sender inputs

  unfoldable pub resolve_module : List Object → Address → Outcome Failure Module
  resolve_module inputs a = do
    o ← ok_or (find (λ o. is_module o.type_ && (o.address == a)) inputs) (module_not_found a)
    ok_or (x.decode_module o.content) (module_undecodable a)

  -- The index of the modules in the inputs: of an address that stands twice the last stays.
  unfoldable pub indexed : Address → List Object → Option Object
  indexed a [] = none
  indexed a (o ∷ os) = elim (indexed a os) [
    | some p ↦ some p
    | none ↦ if is_module o.type_ && (o.address == a) then some o else none
  ]

  -- The queue, the next address first, after a module's imports.
  unfoldable pub enqueue : List (Address × Module) → List Address → List Address → List Address
  enqueue deps [] queue = queue
  enqueue deps (a ∷ imports) queue =
      enqueue deps imports (if is_some (find_dep a deps) then queue else a ∷ queue)

  -- The loop of `resolve_dep_modules`.
  unfoldable pub resolve_queue :
      ℕ
      → List Object
      → List Address
      → List (Address × Module)
      → Outcome Halt (List (Address × Module))
  unfolding indexed enqueue
  resolve_queue fuel inputs [] deps = ok deps
  resolve_queue zero inputs (a ∷ queue) deps = err out_of_fuel
  resolve_queue (suc fuel) inputs (a ∷ queue) deps = elim (find_dep a deps) [
    | some m ↦ resolve_queue fuel inputs queue deps
    | none ↦ ok_or (indexed a inputs) (failed (missing_dependency a)) >>= λ o.
        ok_or (x.decode_module o.content) (failed (dependency_undecodable a)) >>= λ m.
        resolve_queue fuel inputs (enqueue deps m.imports queue) ((a, m) ∷ deps)
  ]

  unfoldable pub resolve_dep_modules :
      ℕ → List Object → List Address → Outcome Halt (List (Address × Module))
  unfolding resolve_queue enqueue
  resolve_dep_modules fuel inputs imports = resolve_queue fuel inputs (enqueue [] imports []) []
