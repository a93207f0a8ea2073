-- ===== src/Vm/Machine/Frame.antt =====
-- crates/meow-vm/src/lib.rs: the execution frame, its operand stack (the top first here) and its local
-- slots, and the target of a jump.
use meow.Base.{
  ℕ, zero, suc, ◌+◌, ◌-◌, String, Bool, false, Option, none, some, List, [], ◌∷◌, Outcome, ok, err,
  panic, ◌>>=◌, ◌>>◌, reject_if, get_elem?, if◌then◌else◌, leb,
}
use meow.Base.Int.{ℤ, pos, negsuc}
use meow.Vm.Types.{Value, Values, nil, cons}
use meow.Vm.Bytecode.{Instruction}
use meow.Vm.Errors.{
  VmError, stack_underflow, invalid_jump_target, undefined_variable, use_after_move, slot_overwrite,
}
use meow.Vm.Values.{is_linear, read_field_path, write_field_path}

pub record Frame : Type 0 where
  pub locals : List (Option Value)
  pub stack : List Value
  pub pc : ℕ
  pub code : List Instruction

-- `(0..n).map(|_| None)`
unfoldable pub empty_slots : ℕ → List (Option Value)
empty_slots zero = []
empty_slots (suc n) = none ∷ empty_slots n

-- The slots with the arguments in front; with more arguments than slots the source panics, and its
-- caller has checked that there are not.
unfoldable pub slots_with : List Value → ℕ → Outcome VmError (List (Option Value))
unfolding empty_slots
slots_with [] n = ok (empty_slots n)
slots_with (v ∷ vs) zero = panic
slots_with (v ∷ vs) (suc n) = slots_with vs n >>= λ rest. ok (some v ∷ rest)

unfoldable pub new_frame : List Instruction → List Value → ℕ → Outcome VmError Frame
unfolding slots_with
new_frame code args local_count = slots_with args local_count >>= λ slots.
    ok (record { locals = slots; stack = []; pc = 0; code = code })

unfoldable pub push : Value → Frame → Frame
push v f = record f { stack = v ∷ f.stack }

-- `frame.stack.pop()`
abbrev pub top : List Value → Option Value
top [] = none
top (v ∷ vs) = some v

abbrev pub pop_from : Frame → List Value → Outcome VmError (Value × Frame)
pop_from f [] = err stack_underflow
pop_from f (v ∷ vs) = ok (v, record f { stack = vs })

unfoldable pub pop : Frame → Outcome VmError (Value × Frame)
pop f = pop_from f f.stack

unfoldable pub peek : Frame → Outcome VmError Value
peek f = pop_from f f.stack >>= λ p. ok p.0

-- `n` values popped and reversed, in front of those that were popped before.
unfoldable pub pop_onto : ℕ → List Value → Frame → Outcome VmError (List Value × Frame)
pop_onto zero acc f = ok (acc, f)
pop_onto (suc n) acc f = pop f >>= λ p. pop_onto n (p.0 ∷ acc) p.1

unfoldable pub pop_args : ℕ → Frame → Outcome VmError (List Value × Frame)
unfolding pop_onto
pop_args n f = pop_onto n [] f

-- The slot with a number past the slots is not there; `some none` is a slot that is empty.
unfoldable pub set_slot : ℕ → Option Value → List (Option Value) → List (Option Value)
unfolding empty_slots
set_slot zero o [] = o ∷ []
set_slot zero o (x ∷ xs) = o ∷ xs
set_slot (suc i) o [] = none ∷ set_slot i o []
set_slot (suc i) o (x ∷ xs) = x ∷ set_slot i o xs

-- `Load`: a linear value leaves its slot.
abbrev pub loaded : ℕ → Frame → Option (Option Value) → Outcome VmError Frame
loaded slot f none = err (undefined_variable slot)
loaded slot f (some none) = err (use_after_move slot)
loaded slot f (some (some v)) =
    ok (push v (if is_linear v then record f { locals = set_slot slot none f.locals } else f))

unfoldable pub load_slot : ℕ → Frame → Outcome VmError Frame
unfolding push set_slot
load_slot slot f = loaded slot f (get_elem? f.locals slot)

abbrev pub holds_linear : Option (Option Value) → Bool
holds_linear (some (some v)) = is_linear v
holds_linear _ = false

-- `Store`: the slots are filled up to the slot that is stored to.
unfoldable pub store_slot : ℕ → Frame → Outcome VmError Frame
unfolding pop set_slot
store_slot slot f = pop f >>= λ p.
    reject_if (holds_linear (get_elem? p.1.locals slot)) (slot_overwrite slot)
    >> ok (record p.1 { locals = set_slot slot (some p.0) p.1.locals })

-- `frame.locals.get(idx).and_then(|o| o.as_ref()).ok_or_else(..)`
abbrev pub live : ℕ → Option (Option Value) → Outcome VmError Value
live slot (some (some v)) = ok v
live slot _ = err (use_after_move slot)

unfoldable pub load_field_path : ℕ → List String → Frame → Outcome VmError Frame
unfolding push
load_field_path slot path f = do
  root ← live slot (get_elem? f.locals slot)
  v ← read_field_path root path
  ok (push v f)

unfoldable pub store_field_path : ℕ → List String → Frame → Outcome VmError Frame
unfolding pop set_slot
store_field_path slot path f = do
  (w, f') ← pop f
  root ← live slot (get_elem? f'.locals slot)
  root' ← write_field_path root path w
  ok (record f' { locals = set_slot slot (some root') f'.locals })

-- `jump_target`: `pc` has moved past the instruction.
unfoldable pub jump_target : ℕ → ℤ → Outcome VmError ℕ
jump_target pc (pos n) =
    if leb 1 (pc + n) then ok (pc + n - 1) else err (invalid_jump_target pc (pos n))
jump_target pc (negsuc n) =
    if leb (n + 2) pc then ok (pc - (n + 2)) else err (invalid_jump_target pc (negsuc n))

unfoldable pub jump_by : ℤ → Frame → Outcome VmError Frame
unfolding jump_target
jump_by offset f = jump_target f.pc offset >>= λ target. ok (record f { pc = target })

-- Lists of values as the elements of a tuple and back.
unfoldable pub to_values : List Value → Values
to_values [] = nil
to_values (v ∷ vs) = cons v (to_values vs)

unfoldable pub values_count : Values → ℕ
values_count nil = 0
values_count (cons v vs) = suc (values_count vs)

-- The elements pushed in reverse, the first on top.
unfoldable pub push_values : Values → Frame → Frame
unfolding push
push_values nil f = f
push_values (cons v vs) f = push v (push_values vs f)
