-- ===== src/Vm/Machine/Metered.antt =====
-- What a run leaves on the gas meter (gas_meter.rs), whatever the code and however the run ends.
use meow.Base.{
  ℕ, String, Option-cases, zero, suc, ◌≤◌, ◌≡◌, refl, Option, List, Outcome, ok, err, panic,
  get_elem?, length, arith, inl, inr, ◌∙◌,
}
use meow.Types.Primitives.{Address}
use meow.Vm.Types.{Value}
use meow.Vm.Bytecode.{Instruction}
use meow.Vm.Module.{Module}
use meow.Vm.Ref.{HexCodec}
use meow.Vm.Errors.{VmError}
use meow.Vm.Gas.{GasMeter, charge, saturating_add, max_u64, cost_of}
use meow.Vm.Natives.{NativeFnEntry, NativeResult}
use meow.Vm.Machine.Frame.{Frame, pop_args, push}
use meow.Vm.Machine.Exec.{Vm, Next, goes_on, returns, calls_function, calls_native, exec}
use meow.Vm.Machine.Run.{
  Machine, Left, Loop, void_or, spend, spend_as, attempt, and_then, enter, native_end, after_native,
  run_native, run_function, next_of, round, turn, fetched, run, call_inner, call_vm, admit,
}

-- The limit is a `u64` and has not been passed.
abbrev pub InLimit : GasMeter → Type 0
InLimit g = (g.spent ≤ g.limit) × (g.limit ≤ max_u64)

-- A meter after some charges: the same limit, no less spent, no more than the limit.
abbrev pub Spends : GasMeter → GasMeter → Type 0
Spends g h = (h.limit ≡ g.limit) × (g.spent ≤ h.spent) × (h.spent ≤ g.limit)

pub Spends-refl : (g : GasMeter) → InLimit g → Spends g g
Spends-refl g (h, _) = (refl, omega arith, h)

pub Spends-trans : (g h k : GasMeter) → Spends g h → Spends h k → Spends g k
Spends-trans g h k (e, p, q) (e', p', q') = (e' ∙ e, omega arith, omega arith)

pub Spends-InLimit : (g h : GasMeter) → InLimit g → Spends g h → InLimit h
Spends-InLimit g h (p, q) (e, p', q') = (omega arith, omega arith)

pub charge_lem : (c : ℕ) (g : GasMeter) → InLimit g → Spends g (charge c g).1
unfolding charge saturating_add
charge_lem c g (p, q) = ground arith

-- The meter that a result leaves, against an earlier one.
pub record Bounded {ℓ} {S : Type ℓ} {B : Type 0} (g : GasMeter) (r : Left B S) : Type 0 where
  pub spends : Spends g r.1.gas

pub Bounded-trans {ℓ} :
    {S : Type ℓ} {B : Type 0} (g h : GasMeter) (r : Left B S)
    → Spends g h
    → Bounded h r
    → Bounded g r
Bounded-trans g h r s b = record { spends = Spends-trans g h r.1.gas s b.spends }

module _ {ℓ} {S : Type ℓ} {B : Type 0} where
  spend_as-Spends :
      (r : Outcome VmError (Unit {0}) × GasMeter) (w : Machine S) (next : Machine S → Left B S)
      → Spends w.gas r.1
      → ((v : Machine S) → Spends w.gas v.gas → Bounded w.gas (next v))
      → Bounded w.gas (spend_as next w.state r)
  spend_as-Spends (ok _, g) w next s h = h (record { gas = g; state = w.state }) s
  spend_as-Spends (err e, g) w next s h = record { spends = s }
  spend_as-Spends (panic, g) w next s h = record { spends = s }

  pub spend-Spends :
      (c : ℕ) (w : Machine S) (next : Machine S → Left B S)
      → InLimit w.gas
      → ((v : Machine S) → Spends w.gas v.gas → Bounded w.gas (next v))
      → Bounded w.gas (spend c w next)
  unfolding spend
  spend-Spends c w next good h = spend_as-Spends (charge c w.gas) w next (charge_lem c w.gas good) h

  pub attempt-Spends {κ} :
      {A : Type κ} (m : Outcome VmError A) (g : GasMeter) (w : Machine S) (next : A → Left B S)
      → Spends g w.gas
      → ((x : A) → m ≡ ok x → Bounded g (next x))
      → Bounded g (attempt m w next)
  unfolding attempt
  attempt-Spends (ok x) g w next s h = h x refl
  attempt-Spends (err e) g w next s h = record { spends = s }
  attempt-Spends panic g w next s h = record { spends = s }

  pub and_then-Spends :
      {A : Type 0} (r : Left A S) (g : GasMeter) (next : A → Machine S → Left B S)
      → Bounded g r
      → ((x : A) → Bounded g (next x r.1))
      → Bounded g (and_then r next)
  unfolding and_then
  and_then-Spends (ok x, w) g next s h = h x
  and_then-Spends (err e, w) g next s h = record { spends = s.spends }
  and_then-Spends (panic, w) g next s h = record { spends = s.spends }

-- A loop that never leaves more gas spent than its limit, nor less than it found.
abbrev pub Metered {ℓ} : {S : Type ℓ} → Loop S → Type ℓ
Metered {S = S} loop =
    (depth : ℕ) (m : Module) (a : Address) (f : Frame) (w : Machine S)
    → InLimit w.gas
    → Bounded w.gas (loop depth m a f w)

module _ {ℓ} {S : Type ℓ} (hex : HexCodec) (vm : Vm S) where
  module _ (loop : Loop S) (keep : Metered loop) (depth : ℕ) (m : Module) (a : Address) where
    after :
        (g : GasMeter) (f : Frame) (w : Machine S)
        → InLimit g
        → Spends g w.gas
        → Bounded g (loop depth m a f w)
    after g f w good s =
        Bounded-trans g w.gas _ s (keep depth m a f w (Spends-InLimit g w.gas good s))

    native_end-Spends :
        (g : GasMeter) (w : Machine S) (f : Frame) (r : Option NativeResult × S)
        → InLimit g
        → Spends g w.gas
        → Bounded g (after_native hex vm loop depth m a w f r)
    native_end-Spends g w f (result, s) good p =
        attempt-Spends (native_end hex vm result) g (record w { state = s }) _ p
          (λ v _. after g (push v f) (record w { state = s }) good p)

    run_native-Spends :
        (e : NativeFnEntry S) (f : Frame) (w : Machine S)
        → InLimit w.gas
        → Bounded w.gas (run_native hex vm loop depth m a e f w)
    unfolding run_native
    run_native-Spends e f w good = spend-Spends e.gas_cost w _ good (λ v s.
        attempt-Spends (pop_args (length e.params) f) w.gas v _ s
          (λ p _. native_end-Spends w.gas v p.1 (e.func p.0 v.state) good s))

    run_function-Spends :
        (name : String) (m' : Module) (a' : Address) (args : List Value) (f : Frame) (w : Machine S)
        → InLimit w.gas
        → Bounded w.gas (run_function hex vm loop depth m a name m' a' args f w)
    unfolding run_function
    run_function-Spends name m' a' args f w good =
        let start =
          attempt (enter hex vm name m' args (suc depth)) w (λ g. loop (suc depth) m' a' g w) in
        let entered : Bounded w.gas start =
          attempt-Spends (enter hex vm name m' args (suc depth)) w.gas w _ (Spends-refl w.gas good)
            (λ g _. keep (suc depth) m' a' g w good) in
        and_then-Spends start w.gas _ entered
          (λ ret. after w.gas (push (void_or ret) f) start.1 good entered.spends)

    next_of-Spends :
        (n : Next S) (w : Machine S)
        → InLimit w.gas
        → Bounded w.gas (next_of hex vm loop depth m a n w)
    unfolding next_of
    next_of-Spends (goes_on f) w good = keep depth m a f w good
    next_of-Spends (returns v) w good = record { spends = Spends-refl w.gas good }
    next_of-Spends (calls_function name m' a' args f) w good =
        run_function-Spends name m' a' args f w good
    next_of-Spends (calls_native e f) w good = run_native-Spends e f w good

    round-Spends :
        (i : Instruction) (f : Frame) (w : Machine S)
        → InLimit w.gas
        → Bounded w.gas (round hex vm loop depth m a i f w)
    unfolding round
    round-Spends i f w good = spend-Spends (cost_of vm.gas_schedule i) w _ good (λ v s.
        attempt-Spends (exec hex vm m a i (record f { pc = suc f.pc })) w.gas v _ s (λ n _.
          Bounded-trans w.gas v.gas _ s (next_of-Spends n v (Spends-InLimit w.gas v.gas good s))))

    turn-Spends :
        (f : Frame) (w : Machine S) → InLimit w.gas → Bounded w.gas (turn hex vm loop depth m a f w)
    unfolding turn fetched
    turn-Spends f w good = elim (Option-cases (get_elem? f.code f.pc)) [
      | inl h ↦ rw h (record { spends = Spends-refl w.gas good })
      | inr (i, h) ↦ rw h (round-Spends i f w good)
    ]

  pub run-Metered : (fuel : ℕ) → Metered (run hex vm fuel)
  unfolding run
  run-Metered zero depth m a f w good = record { spends = Spends-refl w.gas good }
  run-Metered (suc fuel) depth m a f w good =
      turn-Spends (run hex vm fuel) (run-Metered fuel) depth m a f w good

  -- Whatever a call does and however it ends, with a value, an error of the machine, a panic or out of
  -- fuel, the meter keeps its limit, has no less spent than before, and no more than the limit. The
  -- limit is a `u64` that was not passed before.
  pub call_vm-Spends :
      (fuel : ℕ) (name : String) (args : List Value) (w : Machine S)
      → InLimit w.gas
      → Bounded w.gas (call_vm hex vm fuel name args w)
  unfolding call_vm call_inner
  call_vm-Spends fuel name args w good =
      attempt-Spends (admit hex vm name args) w.gas w _ (Spends-refl w.gas good) (λ _ _.
        attempt-Spends (enter hex vm name vm.module_ args 0) w.gas w _ (Spends-refl w.gas good)
          (λ f _. run-Metered fuel 0 vm.module_ vm.module_addr f w good))
