-- ===== src/Vm/Machine/Ends.antt =====
-- The loop of `call_inner` ends: gas pays for every jump and every call, and between two of them the
-- program counter moves forward through the code.
use meow.Base.{
  ℕ, zero, suc, ◌+◌, ◌*◌, ◌-◌, ◌≤◌, ◌<◌, ◌≡◌, ◌∙◌, ap, String, true, List, Every, Every-ok,
  Every-then, Every-eq-ok, inl, inr, Option-cases, All, length, get_elem?, arith, leb, ltb,
  reject_if, ok_or, ok_or-eq-ok,
}
use meow.Types.Primitives.{Address}
use meow.Vm.Types.{Value}
use meow.Vm.Bytecode.{Instruction, jump, jump_if, jump_if_not, call}
use meow.Vm.Module.{Module, get_function}
use meow.Vm.Ref.{HexCodec}
use meow.Vm.Errors.{undefined_function, arity_mismatch, call_stack_overflow}
use meow.Vm.Gas.{GasMeter, remaining, max_u64, cost_of}
use meow.Vm.Natives.{NativeFnEntry}
use meow.Vm.Machine.Frame.{Frame, new_frame, slots_with, pop_args, push}
use meow.Vm.Machine.Exec.{Vm, Next, goes_on, returns, calls_function, calls_native, exec}
use meow.Vm.Machine.Run.{
  Machine, Loop, void_or, attempt, enter, native_end, run_native, run_function, next_of, round,
  turn, fetched, run, call_inner, call_vm, admit,
}
use meow.Vm.Machine.Steady.{pop_args-Steady}
use meow.Vm.Machine.Progress.{is_jump}
use meow.Vm.Machine.Metered.{
  Spends, Spends-refl, Spends-trans, Bounded, Metered, attempt-Spends, run-Metered,
}
use meow.Vm.Machine.Paid.{
  get_elem?-lt, budget, paid, kept, Spends-remaining, Ended, Bounds, Bounds-InLimit, Spends-Bounds,
  spend-Ended, attempt-Ended, and_then-Ended,
}
use meow.Vm.Machine.Follows.{Short, find-All, Follows, is_call, exec-Follows}

step_budget :
    (l : ℕ) (g h : GasMeter) (f f' : Frame)
    → remaining h ≤ remaining g
    → f'.code ≡ f.code
    → f'.pc ≡ suc f.pc
    → f.pc < length f.code
    → budget l h f' < budget l g f
unfolding budget
step_budget l g h f f' r c p q =
    let pays : remaining h * suc l ≤ remaining g * suc l = kept (remaining g) (remaining h) l r in
    let same : length f'.code ≡ length f.code = ap length c in omega (arith, pays, same)

jump_budget :
    (l : ℕ) (g h : GasMeter) (f f' : Frame)
    → remaining h < remaining g
    → length f'.code ≤ l
    → budget l h f' < budget l g f
unfolding budget
jump_budget l g h f f' r c =
    let pays : remaining h * suc l + (length f'.code - f'.pc) < remaining g * suc l =
      paid (remaining g) (remaining h) l (length f'.code - f'.pc) r (omega arith) in
    omega (arith, pays)

enough_fuel :
    (l : ℕ) (g : GasMeter) (f : Frame)
    → length f.code ≤ l
    → budget l g f < suc (remaining g) * suc l
unfolding budget
enough_fuel l g f h =
    paid (suc (remaining g)) (remaining g) l (length f.code - f.pc) (omega arith) (omega arith)

module _ {ℓ} {S : Type ℓ} (hex : HexCodec) (vm : Vm S) (l : ℕ) where
  enter-Short :
      (name : String) (m : Module) (args : List Value) (depth : ℕ)
      → Short l m
      → Every (λ f. length f.code ≤ l) (enter hex vm name m args depth)
  unfolding enter get_function new_frame
  enter-Short name m args depth s =
      Every-then
        (reject_if (leb vm.config.max_call_depth depth)
          (call_stack_overflow vm.config.max_call_depth))
        _
        (λ _ _. Every-then (ok_or (get_function m name) (undefined_function name)) _ (λ func h.
          Every-then
            (reject_if (ltb func.local_count (length args))
              (arity_mismatch name (length args) func.local_count))
            _
            (λ _ _. Every-then (slots_with args func.local_count) _ (λ slots _.
              Every-ok
                (find-All (λ f. length f.code ≤ l) _ m.functions func s (ok_or-eq-ok _ _ h))))))

-- A loop that ends within its fuel `n`.
abbrev LoopEnds {ℓ} : {S : Type ℓ} → ℕ → Loop S → ℕ → Type ℓ
LoopEnds {S = S} l loop n =
    (depth : ℕ) (m : Module) (a : Address) (f : Frame) (w : Machine S)
    → Bounds w.gas
    → Short l m
    → length f.code ≤ l
    → budget l w.gas f < n
    → Ended (loop depth m a f w)

module _ {ℓ} {S : Type ℓ} (hex : HexCodec) (vm : Vm S) (l : ℕ)
    (deps : All (λ d. Short l d.1) vm.deps) (jumps_cost : 1 ≤ vm.gas_schedule.jump)
    (calls_cost : 1 ≤ vm.gas_schedule.call) where
  jump_costs : (i : Instruction) → is_jump i ≡ true → 1 ≤ cost_of vm.gas_schedule i
  unfolding cost_of
  jump_costs (jump z) h = jumps_cost
  jump_costs (jump_if z) h = jumps_cost
  jump_costs (jump_if_not z) h = jumps_cost
  jump_costs i h = cc h

  call_costs : (i : Instruction) → is_call i ≡ true → 1 ≤ cost_of vm.gas_schedule i
  unfolding cost_of
  call_costs (call name) h = calls_cost
  call_costs i h = cc h

  module _ (loop : Loop S) (n : ℕ) (ends : LoopEnds l loop n) (keep : Metered loop) (depth : ℕ)
      (m : Module) (a : Address) (short : Short l m) where
    -- Going on with the next instruction, after charges.
    goes-Ended :
        (f g : Frame) (w : Machine S) (v : Machine S)
        → Bounds w.gas
        → Spends w.gas v.gas
        → length f.code ≤ l
        → f.pc < length f.code
        → budget l w.gas f < suc n
        → g.code ≡ f.code
        → g.pc ≡ suc f.pc
        → Ended (loop depth m a g v)
    goes-Ended f g w v good s fits inside b c p =
        let less = step_budget l w.gas v.gas f g (Spends-remaining w.gas v.gas s) c p inside in
        let same : length g.code ≡ length f.code = ap length c in
        ends depth m a g v (Spends-Bounds w.gas v.gas good s) short (omega arith) (omega arith)

    native-Ended :
        (e : NativeFnEntry S) (f g : Frame) (w : Machine S) (v : Machine S)
        → Bounds w.gas
        → Spends w.gas v.gas
        → length f.code ≤ l
        → f.pc < length f.code
        → budget l w.gas f < suc n
        → g.code ≡ f.code
        → g.pc ≡ suc f.pc
        → Ended (run_native hex vm loop depth m a e g v)
    unfolding run_native push
    native-Ended e f g w v good s fits inside b c p =
        spend-Ended e.gas_cost v _ (Spends-Bounds w.gas v.gas good s) (λ u t _.
          attempt-Ended (pop_args (length e.params) g) u _ (λ r h.
            let kept_place = Every-eq-ok _ _ (pop_args-Steady (length e.params) g) h in
            let result = e.func r.0 u.state in
            attempt-Ended (native_end hex vm result.0) (record u { state = result.1 }) _
              (λ x _.
                goes-Ended f (push x r.1) w (record u { state = result.1 }) good
                  (Spends-trans w.gas v.gas u.gas s t) fits inside b (kept_place.0 ∙ c)
                  (kept_place.1 ∙ p))))

    function-Ended :
        (name : String) (m' : Module) (a' : Address) (args : List Value) (f g : Frame)
        (w : Machine S) (v : Machine S)
        → Short l m'
        → remaining v.gas < remaining w.gas
        → Bounds w.gas
        → Spends w.gas v.gas
        → length f.code ≤ l
        → f.pc < length f.code
        → budget l w.gas f < suc n
        → g.code ≡ f.code
        → g.pc ≡ suc f.pc
        → Ended (run_function hex vm loop depth m a name m' a' args g v)
    unfolding run_function push
    function-Ended name m' a' args f g w v short' less good s fits inside b c p =
        let good' = Spends-Bounds w.gas v.gas good s in
        let inner =
          attempt (enter hex vm name m' args (suc depth)) v (λ k. loop (suc depth) m' a' k v) in
        let bounded : Bounded v.gas inner =
          attempt-Spends (enter hex vm name m' args (suc depth)) v.gas v _
            (Spends-refl v.gas (Bounds-InLimit v.gas good'))
            (λ k _. keep (suc depth) m' a' k v (Bounds-InLimit v.gas good')) in
        and_then-Ended inner _
          (attempt-Ended (enter hex vm name m' args (suc depth)) v _ (λ k h.
            let fits' = Every-eq-ok _ _ (enter-Short hex vm l name m' args (suc depth) short') h in
            let enough = jump_budget l w.gas v.gas f k less fits' in
            ends (suc depth) m' a' k v good' short' fits' (omega arith)))
          (λ x.
            goes-Ended f (push (void_or x) g) w inner.1 good
              (Spends-trans w.gas v.gas inner.1.gas s bounded.spends) fits inside b c p)

    next-Ended :
        (i : Instruction) (x : Next S) (f : Frame) (w : Machine S) (v : Machine S)
        → Follows l i (record f { pc = suc f.pc }) x
        → (1 ≤ cost_of vm.gas_schedule i → remaining v.gas < remaining w.gas)
        → Bounds w.gas
        → Spends w.gas v.gas
        → length f.code ≤ l
        → f.pc < length f.code
        → budget l w.gas f < suc n
        → Ended (next_of hex vm loop depth m a x v)
    unfolding next_of
    next-Ended i (goes_on g) f w v (c, inl p) less good s fits inside b =
        goes-Ended f g w v good s fits inside b c p
    next-Ended i (goes_on g) f w v (c, inr j) less good s fits inside b =
        let fits' : length g.code ≤ l = rw c fits in
        let enough = jump_budget l w.gas v.gas f g (less (jump_costs i j)) fits' in
        ends depth m a g v (Spends-Bounds w.gas v.gas good s) short fits' (omega arith)
    next-Ended i (returns x) f w v h less good s fits inside b = record { ended = λ p. cc p }
    next-Ended i (calls_function name m' a' args g) f w v ((k, short'), j) less good s fits inside
          b =
        function-Ended name m' a' args f g w v short' (less (call_costs i j)) good s fits inside b
          k.0 k.1
    next-Ended i (calls_native e g) f w v k less good s fits inside b =
        native-Ended e f g w v good s fits inside b k.0 k.1

    turn-Ended :
        (f : Frame) (w : Machine S)
        → Bounds w.gas
        → length f.code ≤ l
        → budget l w.gas f < suc n
        → Ended (turn hex vm loop depth m a f w)
    unfolding turn fetched round
    turn-Ended f w good fits b = elim (Option-cases (get_elem? f.code f.pc)) [
      | inl h ↦ rw h (record { ended = λ p. cc p })
      | inr (i, h) ↦ rw h (
          spend-Ended (cost_of vm.gas_schedule i) w _ good (λ v s less.
            attempt-Ended (exec hex vm m a i (record f { pc = suc f.pc })) v _ (λ x e.
              next-Ended i x f w v
                (Every-eq-ok _ _
                  (exec-Follows hex vm l deps m a i (record f { pc = suc f.pc }) short) e)
                less good s fits (get_elem?-lt f.code f.pc i h) b)))
    ]

  run-Ended : (fuel : ℕ) → LoopEnds l (run hex vm fuel) fuel
  unfolding run
  run-Ended zero depth m a f w good short fits b = absurd (omega arith)
  run-Ended (suc fuel) depth m a f w good short fits b =
      turn-Ended (run hex vm fuel) fuel (run-Ended fuel) (run-Metered hex vm fuel) depth m a short f
        w good fits b

  -- A call ends, with a value, an error of the machine or a panic, for a meter with a limit below the
  -- largest `u64`, a schedule in which jumps and calls cost something, and modules none of whose
  -- functions has more than `l` instructions: it is given fuel for `l` + 1 rounds for each unit of gas
  -- that remains, and for `l` + 1 more.
  pub call_vm-Ended :
      (name : String) (args : List Value) (w : Machine S)
      → w.gas.spent ≤ w.gas.limit
      → w.gas.limit < max_u64
      → Short l vm.module_
      → Ended (call_vm hex vm (suc (remaining w.gas) * suc l) name args w)
  unfolding call_vm call_inner
  call_vm-Ended name args w p q short = attempt-Ended (admit hex vm name args) w _ (λ _ _.
      attempt-Ended (enter hex vm name vm.module_ args 0) w _ (λ f h.
        let fits = Every-eq-ok _ _ (enter-Short hex vm l name vm.module_ args 0 short) h in
        run-Ended (suc (remaining w.gas) * suc l) 0 vm.module_ vm.module_addr f w (p, q) short fits
          (enough_fuel l w.gas f fits)))
