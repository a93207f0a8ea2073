-- ===== src/Vm/Machine/Moves.antt =====
-- What one instruction does to the structs of a frame: see `exec_frame-census`.
use meow.Base.{
  ℕ, ◌+◌, ◌≤◌, ◌≡◌, refl, Bool, String, true, false, List, [], Outcome, ok, err, panic, ◌>>=◌,
  Every, Every-ok, Every-err, Every-panic, Every-bind, Every-then, get_elem?, arith,
}
use mathlib.Core.Bool.{not as negate}
use meow.Types.Primitives.{Address}
use meow.Vm.Types.{Value, struct, tuple, bool, u64, address, str}
use meow.Vm.Bytecode.{
  Instruction, push_bool, push_u64, push_address, push_str, load, store, load_field, store_field,
  add, sub, mul, div, mod_, eq, ne, lt, le, gt, ge, not, new_struct, get_field, unpack_struct, dup,
  jump, jump_if, jump_if_not, call, return_, make_tuple, unpack_tuple,
}
use meow.Vm.Module.{Module}
use meow.Vm.Ref.{HexCodec}
use meow.Vm.Errors.{VmError}
use meow.Vm.Values.{is_linear, boolean, read_field_path}
use meow.Vm.Machine.Frame.{
  Frame, push, peek, pop_onto, pop_args, load_slot, live, load_field_path, to_values,
}
use meow.Vm.Machine.Exec.{Vm, pop_fields, field_value, make_struct, struct_name, exec_frame}
use meow.Vm.Machine.Census.{census, linear-census, struct-census, tuple-census}
use meow.Vm.Machine.Conserved.{
  frame_census, Holds, popped, push-census, pop_onto-census, pop_fields-census, arith_op-plain,
  divide_with-plain, compare_with-plain, order_with-plain, logic_with-plain, binary-census,
  loaded-census, store-census, store_field-census, unpack_struct-census, unpack_tuple-census,
  field_value-census, jump_by-census, jump_when-census,
}

-- The value that an instruction copies, if that is linear.
abbrev pub is_linear_ok : Outcome VmError Value → Bool
is_linear_ok (ok v) = is_linear v
is_linear_ok (err e) = false
is_linear_ok panic = false

unfoldable pub copies_linear : Instruction → Frame → Bool
unfolding peek read_field_path
copies_linear dup f = is_linear_ok (peek f)
copies_linear (load_field slot path) f =
    is_linear_ok (live slot (get_elem? f.locals slot) >>= λ root. read_field_path root path)
copies_linear i f = false

-- How many structs an instruction makes.
abbrev pub made : Instruction → ℕ
made (new_struct name names) = 1
made i = 0

module _ {ℓ} {S : Type ℓ} (p : String → Bool) (hex : HexCodec) (vm : Vm S) (m : Module)
    (a : Address) where
  within :
      (n k : ℕ) (r : Outcome VmError Frame)
      → n ≤ k
      → Every (λ g. Holds p n g) r
      → Every (λ g. Holds p k g) r
  within n k (ok g) h e = Every-ok (omega (arith, h, e.holds))
  within n k (err x) h e = Every-err
  within n k panic h e = Every-panic

  pushed :
      (v : Value) (f : Frame)
      → census p v ≡ 0
      → Every {E = VmError} (λ g. Holds p (frame_census p f + 0) g) (ok (push v f))
  pushed v f h = Every-ok (omega (arith, h, push-census p v f))

  make_struct-census :
      (name : String) (names : List String) (f : Frame)
      → Every (λ g. Holds p (frame_census p f + 1) g) (make_struct hex vm m a name names f)
  unfolding make_struct
  make_struct-census name names f = Every-then (struct_name hex vm m a name) _ (λ q _.
      Every-bind (pop_fields names f) _ (pop_fields-census p names f) (λ x s.
        Every-ok (omega (arith, s, push-census p (struct q x.0) x.1, struct-census p q x.0))))

  dup-census :
      (f : Frame)
      → is_linear_ok (peek f) ≡ false
      → Every (λ g. Holds p (frame_census p f + 0) g) (peek f >>= λ v. ok (push v f))
  dup-census f h = Every-then (peek f) _ (λ v e.
      let plain : is_linear v ≡ false = rw e at h in
      Every-ok (omega (arith, linear-census p v plain, push-census p v f)))

  load_field-census :
      (slot : ℕ) (path : List String) (f : Frame)
      → is_linear_ok (live slot (get_elem? f.locals slot) >>= λ root. read_field_path root path)
        ≡ false
      → Every (λ g. Holds p (frame_census p f + 0) g) (load_field_path slot path f)
  unfolding load_field_path
  load_field-census slot path f h = Every-then (live slot (get_elem? f.locals slot)) _ (λ root e.
      Every-then (read_field_path root path) _ (λ v e'.
        let plain : is_linear v ≡ false = rw (e, e') at h in
        Every-ok (omega (arith, linear-census p v plain, push-census p v f))))

  -- Whatever types of structs are counted, an instruction that stays in the frame and copies no linear
  -- value leaves at most as many of them in the slots and on the stack as there were, one more where it
  -- is `NewStruct`.
  pub exec_frame-census :
      (i : Instruction) (f : Frame)
      → copies_linear i f ≡ false
      → Every (λ g. Holds p (frame_census p f + made i) g) (exec_frame hex vm m a i f)
  unfolding exec_frame copies_linear load_slot census pop_args
  exec_frame-census (push_bool b) f h = pushed (bool b) f refl
  exec_frame-census (push_u64 n) f h = pushed (u64 n) f refl
  exec_frame-census (push_address d) f h = pushed (address d) f refl
  exec_frame-census (push_str s) f h = pushed (str s) f refl
  exec_frame-census (load slot) f h = loaded-census p slot f (get_elem? f.locals slot) refl
  exec_frame-census (store slot) f h = store-census p slot f
  exec_frame-census (load_field slot path) f h = load_field-census slot path f h
  exec_frame-census (store_field slot path) f h = store_field-census p slot path f
  exec_frame-census add f h = binary-census p _ f (λ l r. arith_op-plain p l r _)
  exec_frame-census sub f h = binary-census p _ f (λ l r. arith_op-plain p l r _)
  exec_frame-census mul f h = binary-census p _ f (λ l r. arith_op-plain p l r _)
  exec_frame-census div f h = binary-census p _ f (λ l r. divide_with-plain p _ l r)
  exec_frame-census mod_ f h = binary-census p _ f (λ l r. divide_with-plain p _ l r)
  exec_frame-census eq f h = binary-census p _ f (λ l r. compare_with-plain p _ l r)
  exec_frame-census ne f h = binary-census p _ f (λ l r. compare_with-plain p _ l r)
  exec_frame-census lt f h = binary-census p _ f (λ l r. order_with-plain p _ l r)
  exec_frame-census le f h = binary-census p _ f (λ l r. order_with-plain p _ r l)
  exec_frame-census gt f h = binary-census p _ f (λ l r. order_with-plain p _ r l)
  exec_frame-census ge f h = binary-census p _ f (λ l r. order_with-plain p _ l r)
  exec_frame-census Instruction.and f h = binary-census p _ f (λ l r. logic_with-plain p _ l r)
  exec_frame-census Instruction.or f h = binary-census p _ f (λ l r. logic_with-plain p _ l r)
  exec_frame-census not f h = popped p f (frame_census p f) _ (omega arith) (λ q s.
      Every-then (boolean q.0) _
        (λ b _. Every-ok (omega (arith, s, push-census p (bool (negate b)) q.1))))
  exec_frame-census (new_struct name names) f h = make_struct-census name names f
  exec_frame-census (get_field name) f h = popped p f (frame_census p f) _ (omega arith) (λ q s.
      Every-bind (field_value name q.0) _ (field_value-census p name q.0)
        (λ v u. Every-ok (omega (arith, s, u, push-census p v q.1))))
  exec_frame-census (unpack_struct name names) f h =
      popped p f (frame_census p f) _ (omega arith)
        (λ q s. within _ _ _ (omega (arith, s)) (unpack_struct-census p names q.0 q.1))
  exec_frame-census Instruction.pop f h =
      popped p f (frame_census p f) _ (omega arith) (λ q s. Every-ok (omega (arith, s)))
  exec_frame-census dup f h = dup-census f h
  exec_frame-census (jump z) f h = jump_by-census p z f _ (omega arith)
  exec_frame-census (jump_if z) f h = jump_when-census p true z f
  exec_frame-census (jump_if_not z) f h = jump_when-census p false z f
  exec_frame-census (make_tuple n) f h =
      Every-bind (pop_onto n [] f) _ (pop_onto-census p n [] f (frame_census p f) (omega arith))
        (λ q s.
          Every-ok
            (omega (arith, s, push-census p (tuple (to_values q.0)) q.1, tuple-census p q.0)))
  exec_frame-census (unpack_tuple n) f h =
      popped p f (frame_census p f) _ (omega arith)
        (λ q s. within _ _ _ (omega (arith, s)) (unpack_tuple-census p n q.0 q.1))
  exec_frame-census (call name) f h = Every-ok (omega arith)
  exec_frame-census return_ f h = Every-ok (omega arith)
