-- ===== src/Vm/Machine/Progress.antt =====
-- What one instruction does to the program counter: an instruction that stays in the frame leaves the
-- counter where it is unless it is a jump, and no instruction changes the code.
use meow.Base.{
  ◌≡◌, refl, Bool, String, List, Outcome, ok, err, panic, Every, Every-ok, Every-err, Every-panic,
  Every-bind, Every-then, true, false, ◌&&◌, ◌||◌, inl, inr, Bool-cases, ◌⊎◌, get_elem?,
}
use mathlib.Core.Bool.{not as negate}
use meow.Base.Int.{ℤ}
use meow.Types.Primitives.{Address}
use meow.Vm.Bytecode.{
  Instruction, push_bool, push_u64, push_address, push_str, load, store, load_field, store_field,
  add, sub, mul, div, mod_, eq, ne, lt, le, gt, ge, not, and, or, new_struct, get_field,
  unpack_struct, dup, jump, jump_if, jump_if_not, call, return_, make_tuple, unpack_tuple,
}
use meow.Vm.Module.{Module}
use meow.Vm.Ref.{HexCodec}
use meow.Vm.Errors.{VmError}
use meow.Vm.Values.{boolean}
use meow.Vm.Machine.Frame.{Frame, push, peek, pop_args, load_slot, jump_target, jump_by}
use meow.Vm.Machine.Exec.{
  Vm, pop_fields, field_value, jump_when, make_struct, struct_name, exec_frame,
}
use meow.Vm.Machine.Steady.{
  Steady, popped, pop_args-Steady, pop_fields-Steady, unpack_tuple-Steady, unpack_struct-Steady,
  loaded-Steady, store-Steady, load_field-Steady, store_field-Steady, binary-Steady, from-Steady,
}

-- The instructions that set the program counter.
abbrev pub is_jump : Instruction → Bool
is_jump (jump offset) = true
is_jump (jump_if offset) = true
is_jump (jump_if_not offset) = true
is_jump _ = false

-- A frame after an instruction: the same code, and the same counter unless it was a jump.
abbrev pub Advances : Instruction → Frame → Frame → Type 0
Advances i f g = (g.code ≡ f.code) × ((g.pc ≡ f.pc) ⊎ (is_jump i ≡ true))

Steady-Advances :
    (i : Instruction) (f : Frame) (m : Outcome VmError Frame)
    → Every (λ g. Steady f g) m
    → Every (λ g. Advances i f g) m
Steady-Advances i f (ok g) h = Every-ok (h.holds.0, inl h.holds.1)
Steady-Advances i f (err e) h = Every-err
Steady-Advances i f panic h = Every-panic

jump_by-code : (z : ℤ) (f g : Frame) → g.code ≡ f.code → Every (λ h. h.code ≡ f.code) (jump_by z g)
unfolding jump_by
jump_by-code z f g e = Every-then (jump_target g.pc z) _ (λ target _. Every-ok e)

jump_when-code : (b : Bool) (z : ℤ) (f : Frame) → Every (λ g. g.code ≡ f.code) (jump_when b z f)
unfolding jump_when
jump_when-code b z f =
    popped f f _ (refl, refl)
      (λ p s. Every-then (boolean p.0) _ (λ c _.
        elim (Bool-cases ((c && b) || (negate c && negate b))) [
          | inl h ↦ rw h (jump_by-code z f p.1 s.0)
          | inr h ↦ rw h (Every-ok s.0)
        ]))

jump-Advances :
    (i : Instruction) (f : Frame) (m : Outcome VmError Frame)
    → is_jump i ≡ true
    → Every (λ g. g.code ≡ f.code) m
    → Every (λ g. Advances i f g) m
jump-Advances i f (ok g) j h = Every-ok (h.holds, inr j)
jump-Advances i f (err e) j h = Every-err
jump-Advances i f panic j h = Every-panic

module _ {ℓ} {S : Type ℓ} (hex : HexCodec) (vm : Vm S) (m : Module) (a : Address) where
  make_struct-Steady :
      (name : String) (names : List String) (f : Frame)
      → Every (λ g. Steady f g) (make_struct hex vm m a name names f)
  unfolding make_struct push
  make_struct-Steady name names f =
      Every-then (struct_name hex vm m a name) _
        (λ q _. Every-bind (pop_fields names f) _ (pop_fields-Steady names f) (λ p s. Every-ok s))

  pub exec_frame-Advances :
      (i : Instruction) (f : Frame) → Every (λ g. Advances i f g) (exec_frame hex vm m a i f)
  unfolding exec_frame push load_slot peek
  exec_frame-Advances (push_bool b) f = Every-ok (refl, inl refl)
  exec_frame-Advances (push_u64 n) f = Every-ok (refl, inl refl)
  exec_frame-Advances (push_address d) f = Every-ok (refl, inl refl)
  exec_frame-Advances (push_str s) f = Every-ok (refl, inl refl)
  exec_frame-Advances (load slot) f =
      Steady-Advances (load slot) f _ (loaded-Steady slot f (get_elem? f.locals slot))
  exec_frame-Advances (store slot) f = Steady-Advances (store slot) f _ (store-Steady slot f)
  exec_frame-Advances (load_field slot path) f =
      Steady-Advances (load_field slot path) f _ (load_field-Steady slot path f)
  exec_frame-Advances (store_field slot path) f =
      Steady-Advances (store_field slot path) f _ (store_field-Steady slot path f)
  exec_frame-Advances add f = Steady-Advances add f _ (binary-Steady _ f)
  exec_frame-Advances sub f = Steady-Advances sub f _ (binary-Steady _ f)
  exec_frame-Advances mul f = Steady-Advances mul f _ (binary-Steady _ f)
  exec_frame-Advances div f = Steady-Advances div f _ (binary-Steady _ f)
  exec_frame-Advances mod_ f = Steady-Advances mod_ f _ (binary-Steady _ f)
  exec_frame-Advances eq f = Steady-Advances eq f _ (binary-Steady _ f)
  exec_frame-Advances ne f = Steady-Advances ne f _ (binary-Steady _ f)
  exec_frame-Advances lt f = Steady-Advances lt f _ (binary-Steady _ f)
  exec_frame-Advances le f = Steady-Advances le f _ (binary-Steady _ f)
  exec_frame-Advances gt f = Steady-Advances gt f _ (binary-Steady _ f)
  exec_frame-Advances ge f = Steady-Advances ge f _ (binary-Steady _ f)
  exec_frame-Advances not f =
      popped f f _ (refl, refl) (λ p s. Every-then (boolean p.0) _ (λ b _. Every-ok (s.0, inl s.1)))
  exec_frame-Advances and f = Steady-Advances and f _ (binary-Steady _ f)
  exec_frame-Advances or f = Steady-Advances or f _ (binary-Steady _ f)
  exec_frame-Advances (new_struct name names) f =
      Steady-Advances (new_struct name names) f _ (make_struct-Steady name names f)
  exec_frame-Advances (get_field name) f =
      popped f f _ (refl, refl)
        (λ p s. Every-then (field_value name p.0) _ (λ v _. Every-ok (s.0, inl s.1)))
  exec_frame-Advances (unpack_struct name names) f =
      popped f f _ (refl, refl)
        (λ p s.
          Steady-Advances (unpack_struct name names) f _
            (from-Steady f p.1 _ s (unpack_struct-Steady names p.0 p.1)))
  exec_frame-Advances Instruction.pop f = popped f f _ (refl, refl) (λ p s. Every-ok (s.0, inl s.1))
  exec_frame-Advances dup f = Every-then (peek f) _ (λ v _. Every-ok (refl, inl refl))
  exec_frame-Advances (jump z) f = jump-Advances (jump z) f _ refl (jump_by-code z f f refl)
  exec_frame-Advances (jump_if z) f = jump-Advances (jump_if z) f _ refl (jump_when-code true z f)
  exec_frame-Advances (jump_if_not z) f =
      jump-Advances (jump_if_not z) f _ refl (jump_when-code false z f)
  exec_frame-Advances (make_tuple n) f =
      Every-bind (pop_args n f) _ (pop_args-Steady n f) (λ p s. Every-ok (s.0, inl s.1))
  exec_frame-Advances (unpack_tuple n) f =
      popped f f _ (refl, refl)
        (λ p s.
          Steady-Advances (unpack_tuple n) f _
            (from-Steady f p.1 _ s (unpack_tuple-Steady n p.0 p.1)))
  exec_frame-Advances (call name) f = Every-ok (refl, inl refl)
  exec_frame-Advances return_ f = Every-ok (refl, inl refl)
