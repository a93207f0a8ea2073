-- ===== src/Vm/Machine/Run.antt =====
-- crates/meow-vm/src/lib.rs: `Vm::new`, `Vm::call` and the loop of `call_inner`, which ends early when
-- its fuel is out. The meter and the state that natives share come back with an error too.
use text.Mathlib.Text.{◌==◌ as text_eq}
use meow.Base.{
  ℕ, zero, suc, String, Bool, true, not, ◌&&◌, Option, none, some, List, [], ◌∷◌, ltb, leb, is_some,
  Outcome, ok, err, panic, ◌>>=◌, ◌>>◌, reject_if, require, ok_or, find, length, any, get_elem?,
}
use meow.Types.Primitives.{Address}
use meow.Vm.Types.{Value, void}
use meow.Vm.Bytecode.{Instruction}
use meow.Vm.Module.{Module, Function, get_function}
use meow.Vm.Ref.{HexCodec}
use meow.Vm.Errors.{
  VmError, aborted, arity_mismatch, call_stack_overflow, native_error, native_function_call_direct,
  private_function, too_many_dep_modules, undefined_function,
}
use meow.Vm.Gas.{GasMeter, GasSchedule, charge, cost_of}
use meow.Vm.Natives.{
  NativeFnEntry, NativeResult, returned, abort, error, VmConfig, meow_vm_abort_name, abort_params,
  meow_vm_abort_entry, params_eq,
}
use meow.Vm.Values.{check_struct_qualified}
use meow.Vm.Machine.Frame.{Frame, new_frame, push, top, pop_args}
use meow.Vm.Machine.Exec.{
  Vm, Next, goes_on, returns, calls_function, calls_native, find_native, exec,
}

-- Why a run stops without a value.
pub data Stop : Type 0 where
  failed : VmError → Stop
  out_of_fuel : Stop

pub record Machine {ℓ} (S : Type ℓ) : Type ℓ where
  pub gas : GasMeter
  pub state : S

-- A result with the machine it leaves.
abbrev pub Left {ℓ} : Type 0 → Type ℓ → Type ℓ
Left A S = Outcome Stop A × Machine S

abbrev pub stop {ℓ} : {S : Type ℓ} {A : Type 0} → VmError → Machine S → Left A S
stop e w = (err (failed e), w)

abbrev pub void_or : Option Value → Value
void_or none = void
void_or (some v) = v

module _ {ℓ} {S : Type ℓ} where
  abbrev pub spend_as :
      {B : Type 0} → (Machine S → Left B S) → S → Outcome VmError (Unit {0}) × GasMeter → Left B S
  spend_as next s (ok _, g) = next (record { gas = g; state = s })
  spend_as next s (err e, g) = stop e (record { gas = g; state = s })
  spend_as next s (panic, g) = (panic, record { gas = g; state = s })

  -- `gas.charge(cost)?`
  unfoldable pub spend : {B : Type 0} → ℕ → Machine S → (Machine S → Left B S) → Left B S
  spend cost w next = spend_as next w.state (charge cost w.gas)

  -- `m?` where `m` does not touch the machine
  unfoldable pub attempt {κ} :
      {A : Type κ} {B : Type 0} → Outcome VmError A → Machine S → (A → Left B S) → Left B S
  attempt (ok a) w next = next a
  attempt (err e) w next = stop e w
  attempt panic w next = (panic, w)

  unfoldable pub and_then : {A B : Type 0} → Left A S → (A → Machine S → Left B S) → Left B S
  and_then (ok a, w) next = next a w
  and_then (err e, w) next = (err e, w)
  and_then (panic, w) next = (panic, w)

-- The loop: the depth, the module whose code runs, its address, the frame and the machine.
abbrev pub Loop {ℓ} : Type ℓ → Type ℓ
Loop S = ℕ → Module → Address → Frame → Machine S → Left (Option Value) S

module _ {ℓ} {S : Type ℓ} (hex : HexCodec) (vm : Vm S) where
  check_arity : String → Function → List Value → Outcome VmError Frame
  unfolding new_frame
  check_arity name func args =
      reject_if (ltb func.local_count (length args))
        (arity_mismatch name (length args) func.local_count)
      >> new_frame func.code args func.local_count

  -- What `call_inner` does before its loop.
  unfoldable pub enter : String → Module → List Value → ℕ → Outcome VmError Frame
  unfolding check_arity
  enter name m args depth = do
    reject_if (leb vm.config.max_call_depth depth) (call_stack_overflow vm.config.max_call_depth)
    func ← ok_or (get_function m name) (undefined_function name)
    check_arity name func args

  -- What a native function returned.
  abbrev pub qualified_value : Option Value → Bool
  qualified_value none = true
  qualified_value (some v) = check_struct_qualified hex v

  unfoldable pub native_end : Option NativeResult → Outcome VmError Value
  native_end none = panic
  native_end (some (returned v)) = require (qualified_value v) >> ok (void_or v)
  native_end (some (abort code message)) = err (aborted code message)
  native_end (some (error message)) = err (native_error message)

  module _ (loop : Loop S) (depth : ℕ) (m : Module) (a : Address) where
    -- The natives' state is the one that the function leaves.
    abbrev pub after_native : Machine S → Frame → Option NativeResult × S → Left (Option Value) S
    after_native w f (result, s) =
        let w' = record w { state = s } in
        attempt (native_end result) w' (λ v. loop depth m a (push v f) w')

    unfoldable pub run_native : NativeFnEntry S → Frame → Machine S → Left (Option Value) S
    unfolding spend
    run_native entry f w = spend entry.gas_cost w (λ w'.
        attempt (pop_args (length entry.params) f) w'
          (λ p. after_native w' p.1 (entry.func p.0 w'.state)))

    unfoldable pub run_function :
        String → Module → Address → List Value → Frame → Machine S → Left (Option Value) S
    unfolding and_then
    run_function name m' a' args f w =
        and_then (attempt (enter name m' args (suc depth)) w (λ g. loop (suc depth) m' a' g w))
          (λ ret w'. loop depth m a (push (void_or ret) f) w')

    unfoldable pub next_of : Next S → Machine S → Left (Option Value) S
    unfolding run_native run_function
    next_of (goes_on f) w = loop depth m a f w
    next_of (returns v) w = (ok v, w)
    next_of (calls_function name m' a' args f) w = run_function name m' a' args f w
    next_of (calls_native entry f) w = run_native entry f w

    -- One round of the loop: the charge, the program counter, the instruction.
    unfoldable pub round : Instruction → Frame → Machine S → Left (Option Value) S
    unfolding spend next_of
    round i f w =
        spend (cost_of vm.gas_schedule i) w
          (λ w'. attempt (exec hex vm m a i (record f { pc = suc f.pc })) w' (λ n. next_of n w'))

    unfoldable pub fetched : Frame → Machine S → Option Instruction → Left (Option Value) S
    unfolding round
    fetched f w none = (ok (top f.stack), w)
    fetched f w (some i) = round i f w

    unfoldable pub turn : Frame → Machine S → Left (Option Value) S
    unfolding fetched
    turn f w = fetched f w (get_elem? f.code f.pc)

  unfoldable pub run : ℕ → Loop S
  unfolding turn
  run zero depth m a f w = (err out_of_fuel, w)
  run (suc fuel) depth m a f w = turn (run fuel) depth m a f w

  unfoldable pub call_inner :
      ℕ → String → Module → Address → List Value → ℕ → Machine S → Left (Option Value) S
  unfolding attempt run
  call_inner fuel name m a args depth w =
      attempt (enter name m args depth) w (λ f. run fuel depth m a f w)

  -- The checks of `call`.
  unfoldable pub admit : String → List Value → Outcome VmError (Unit {0})
  admit name args = do
    reject_if (ltb vm.config.max_dep_modules (length vm.deps))
        (too_many_dep_modules vm.config.max_dep_modules)
    reject_if (is_some (find_native hex vm name)) (native_function_call_direct name)
    func ← ok_or (get_function vm.module_ name) (undefined_function name)
    reject_if (not func.is_public && not vm.config.enable_call_private_functions)
        (private_function name)
    require (not (any (λ v. not (check_struct_qualified hex v)) args))

  unfoldable pub call_vm : ℕ → String → List Value → Machine S → Left (Option Value) S
  unfolding attempt call_inner
  call_vm fuel name args w =
      attempt (admit name args) w (λ _. call_inner fuel name vm.module_ vm.module_addr args 0 w)

module _ {ℓ} {S : Type ℓ} where
  find_entry : String → List (NativeFnEntry S) → Option (NativeFnEntry S)
  find_entry name = find (λ entry. text_eq entry.name name)

  -- The map of the natives, which panics on a name that stands twice.
  collect_natives :
      List (NativeFnEntry S) → List (NativeFnEntry S) → Outcome VmError (List (NativeFnEntry S))
  collect_natives seen [] = ok seen
  collect_natives seen (e ∷ es) =
      require (not (is_some (find_entry e.name seen))) >> collect_natives (e ∷ seen) es

  with_abort :
      List (NativeFnEntry S) → Option (NativeFnEntry S) → Outcome VmError (List (NativeFnEntry S))
  with_abort natives none = ok (meow_vm_abort_entry ∷ natives)
  with_abort natives (some e) =
      require (params_eq e.params abort_params)
      >> require (not (is_some e.return_type))
      >> ok natives

  unfoldable pub new_vm :
      Address × Module
      → List (NativeFnEntry S)
      → GasSchedule
      → List (Address × Module)
      → VmConfig
      → Outcome VmError (Vm S)
  unfolding collect_natives with_abort find_entry
  new_vm (a, m) natives schedule deps config = do
    collected ← collect_natives [] natives
    map ← with_abort collected (find_entry meow_vm_abort_name collected)
    ok (record {
      module_ = m;
      module_addr = a;
      deps = deps;
      natives = map;
      gas_schedule = schedule;
      config = config;
    })
