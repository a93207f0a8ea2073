-- ===== src/Vm/Machine/Conserved.antt =====
-- No instruction of crates/meow-vm/src/lib.rs makes a struct out of nothing: what a frame holds after
-- it, the frame held before it, but for the struct that `NewStruct` makes and for a linear value that
-- `Dup` or `LoadField` copies, which the bytecode verifier rules out.
use meow.Base.{
  ℕ, zero, suc, ◌+◌, ◌≤◌, ◌≡◌, refl, Bool, String, false, ◌&&◌, ◌||◌, List, [], ◌∷◌, Option, none,
  some, Outcome, ◌>>=◌, Every, Every-ok, Every-err, Every-bind, Every-then, inl, inr, Bool-cases,
  Option-cases, get_elem?, arith, reject_if, guard, ok_or, ok_or-eq-ok, ◌==◌,
}
use mathlib.Core.Bool.{not as negate}
use meow.Base.Int.{ℤ}
use meow.Vm.Types.{Value, Values, Fields, struct, tuple, nil, cons, bool, u64, address, str, void}
use meow.Vm.Errors.{
  VmError, undefined_field, type_error, unpack_tuple_size, arithmetic_overflow, division_by_zero,
}
use meow.Vm.Values.{
  is_linear, as_u64, boolean, integer, find_field, write_field_path, arith_op, cmp_values,
  linear_type_name,
}
use meow.Vm.Machine.Frame.{
  Frame, push, pop, pop_from, pop_onto, set_slot, loaded, live, holds_linear, store_slot,
  store_field_path, jump_target, jump_by, push_values, values_count,
}
use meow.Vm.Machine.Exec.{
  binary, pop_fields, unpack_fields, unpack_struct_value, unpack_tuple_value, field_value,
  jump_when, find_last, divide_with, compare_with, order_with, logic_with, is_zero,
}
use meow.Vm.Machine.Census.{
  census, values_census, fields_census, list_census, slots_census, slot_census, linear-census,
  set_slot-census, find_field-census, remove_name-census, write_field_path-census,
}

module _ (p : String → Bool) where
  abbrev pub frame_census : Frame → ℕ
  frame_census f = slots_census p f.locals + list_census p f.stack

  -- A value and a frame with no more structs than a frame.
  abbrev pub Split : ℕ → Value × Frame → Type 0
  Split n q = census p q.0 + frame_census q.1 ≤ n

  pop_from-census :
      (f : Frame) (vs : List Value) (n : ℕ)
      → slots_census p f.locals + list_census p vs ≤ n
      → Every (Split n) (pop_from f vs)
  pop_from-census f [] n h = Every-err
  pop_from-census f (v ∷ vs) n h = Every-ok (omega (arith, h))

  pub popped :
      (f : Frame) (n : ℕ) {A : Type 0} {Q : A → Type 0} (next : Value × Frame → Outcome VmError A)
      → frame_census f ≤ n
      → ((q : Value × Frame) → Split n q → Every Q (next q))
      → Every Q (pop f >>= next)
  unfolding pop
  popped f n next h k = Every-bind (pop_from f f.stack) next (pop_from-census f f.stack n h) k

  pub push-census : (v : Value) (f : Frame) → frame_census (push v f) ≡ census p v + frame_census f
  unfolding push
  push-census v f = omega arith

  pub pop_onto-census :
      (k : ℕ) (acc : List Value) (f : Frame) (n : ℕ)
      → list_census p acc + frame_census f ≤ n
      → Every (λ q. list_census p q.0 + frame_census q.1 ≤ n) (pop_onto k acc f)
  unfolding pop_onto
  pop_onto-census zero acc f n h = Every-ok h
  pop_onto-census (suc k) acc f n h =
      popped f (frame_census f) _ (omega arith)
        (λ q s. pop_onto-census k (q.0 ∷ acc) q.1 n (omega (arith, s, h)))

  pub pop_fields-census :
      (ns : List String) (f : Frame)
      → Every (λ q. fields_census p q.0 + frame_census q.1 ≤ frame_census f) (pop_fields ns f)
  unfolding pop_fields fields_census
  pop_fields-census [] f = Every-ok (omega arith)
  pop_fields-census (n ∷ ns) f =
      Every-bind (pop_fields ns f) _ (pop_fields-census ns f) (λ q s.
        popped q.1 (frame_census q.1) _ (omega arith) (λ r t. Every-ok (omega (arith, s, t))))

  unpack_fields-census :
      (t : String) (ns : List String) (fs : Fields) (f : Frame)
      → Every
          (λ q. fields_census p q.0 + frame_census q.1 ≤ fields_census p fs + frame_census f)
          (unpack_fields t ns fs f)
  unfolding unpack_fields
  unpack_fields-census t [] fs f = Every-ok (omega arith)
  unpack_fields-census t (n ∷ ns) fs f =
      Every-bind (unpack_fields t ns fs f) _ (unpack_fields-census t ns fs f) (λ q s.
        Every-then (ok_or (find_last n q.0) (undefined_field t n)) _ (λ v e.
          Every-ok (
            omega (arith, s, push-census v q.1, remove_name-census p n q.0 v (ok_or-eq-ok _ _ e)))))

  push_values-census :
      (vs : Values) (f : Frame)
      → frame_census (push_values vs f) ≡ values_census p vs + frame_census f
  unfolding push_values values_census
  push_values-census nil f = omega arith
  push_values-census (cons v vs) f =
      omega (arith, push-census v (push_values vs f), push_values-census vs f)

  -- What arithmetic, comparison and logic yield.
  pub arith_op-plain :
      (l r : Value) (op : ℕ → ℕ → Option ℕ) → Every (λ v. census p v ≡ 0) (arith_op l r op)
  unfolding arith_op census
  arith_op-plain l r op = Every-then (integer l) _ (λ a _.
      Every-then (integer r) _
        (λ b _. Every-then (ok_or (op a b) arithmetic_overflow) _ (λ c _. Every-ok refl)))

  pub divide_with-plain :
      (op : ℕ → ℕ → Option ℕ) (l r : Value) → Every (λ v. census p v ≡ 0) (divide_with op l r)
  unfolding divide_with
  divide_with-plain op l r =
      Every-then (reject_if (is_zero (as_u64 r)) division_by_zero) _ (λ _ _. arith_op-plain l r op)

  pub compare_with-plain :
      (answer : Bool → Bool) (l r : Value) → Every (λ v. census p v ≡ 0) (compare_with answer l r)
  unfolding compare_with census
  compare_with-plain answer l r = elim (Bool-cases (is_linear l || is_linear r)) [
    | inl h ↦ rw h (Every-then (linear_type_name l r) _ (λ name _. Every-err))
    | inr h ↦ rw h (Every-ok refl)
  ]

  pub order_with-plain :
      (answer : Bool → Bool) (l r : Value) → Every (λ v. census p v ≡ 0) (order_with answer l r)
  unfolding order_with census
  order_with-plain answer l r = Every-then (cmp_values l r) _ (λ b _. Every-ok refl)

  pub logic_with-plain :
      (op : Bool → Bool → Bool) (l r : Value) → Every (λ v. census p v ≡ 0) (logic_with op l r)
  unfolding logic_with census
  logic_with-plain op l r =
      Every-then (boolean l) _ (λ a _. Every-then (boolean r) _ (λ b _. Every-ok refl))

  -- A frame with no more structs than `n`.
  abbrev pub Holds : ℕ → Frame → Type 0
  Holds n g = frame_census g ≤ n

  pub binary-census :
      (op : Value → Value → Outcome VmError Value) (f : Frame)
      → ((l r : Value) → Every (λ v. census p v ≡ 0) (op l r))
      → Every (λ g. Holds (frame_census f + 0) g) (binary op f)
  unfolding binary
  binary-census op f plain = popped f (frame_census f) _ (omega arith) (λ r s.
      popped r.1 (frame_census r.1) _ (omega arith) (λ l t.
        Every-bind (op l.0 r.0) _ (plain l.0 r.0)
          (λ v z. Every-ok (omega (arith, s, t, z, push-census v l.1)))))

  pub loaded-census :
      (slot : ℕ) (f : Frame) (o : Option (Option Value))
      → get_elem? f.locals slot ≡ o
      → Every (λ g. Holds (frame_census f + 0) g) (loaded slot f o)
  loaded-census slot f none e = Every-err
  loaded-census slot f (some none) e = Every-err
  loaded-census slot f (some (some v)) e = elim (Bool-cases (is_linear v)) [
    | inl h ↦ rw h (
        Every-ok (
          let moved : slots_census p (set_slot slot none f.locals) + census p v
              ≡ slots_census p f.locals + 0 =
            rw e at (set_slot-census p slot none f.locals) in
          omega (arith, moved, push-census v (record f { locals = set_slot slot none f.locals }))))
    | inr h ↦ rw h (Every-ok (omega (arith, linear-census p v h, push-census v f)))
  ]

  holds-census : (o : Option (Option Value)) → holds_linear o ≡ false → slot_census p o ≡ 0
  holds-census none h = refl
  holds-census (some none) h = refl
  holds-census (some (some v)) h = linear-census p v h

  pub store-census :
      (slot : ℕ) (f : Frame) → Every (λ g. Holds (frame_census f + 0) g) (store_slot slot f)
  unfolding store_slot
  store-census slot f = popped f (frame_census f) _ (omega arith) (λ q s.
      elim (Bool-cases (holds_linear (get_elem? q.1.locals slot))) [
        | inl h ↦ rw h Every-err
        | inr h ↦ rw h (
            Every-ok
              (omega (arith, s, set_slot-census p slot (some q.0) q.1.locals, holds-census _ h)))
      ])

  pub live-census :
      (slot : ℕ) (o : Option (Option Value)) → Every (λ v. o ≡ some (some v)) (live slot o)
  live-census slot none = Every-err
  live-census slot (some none) = Every-err
  live-census slot (some (some v)) = Every-ok refl

  pub store_field-census :
      (slot : ℕ) (path : List String) (f : Frame)
      → Every (λ g. Holds (frame_census f + 0) g) (store_field_path slot path f)
  unfolding store_field_path
  store_field-census slot path f = popped f (frame_census f) _ (omega arith) (λ q s.
      Every-bind (live slot (get_elem? q.1.locals slot)) _
        (live-census slot (get_elem? q.1.locals slot))
        (λ root e.
          Every-bind (write_field_path root path q.0) _ (write_field_path-census p root path q.0)
            (λ u h. Every-ok (
              let moved : slots_census p (set_slot slot (some u) q.1.locals) + census p root
                  ≡ slots_census p q.1.locals + census p u =
                rw e at (set_slot-census p slot (some u) q.1.locals) in
              omega (arith, moved, s, h)))))

  pub unpack_struct-census :
      (ns : List String) (v : Value) (f : Frame)
      → Every (λ g. Holds (census p v + frame_census f) g) (unpack_struct_value ns v f)
  unfolding unpack_struct_value census
  unpack_struct-census ns (struct t fs) f =
      Every-bind (unpack_fields t ns fs f) _ (unpack_fields-census t ns fs f)
        (λ q s. Every-ok (omega (arith, s)))
  unpack_struct-census ns (bool b) f = Every-err
  unpack_struct-census ns (u64 k) f = Every-err
  unpack_struct-census ns (address a) f = Every-err
  unpack_struct-census ns (str s) f = Every-err
  unpack_struct-census ns void f = Every-err
  unpack_struct-census ns (tuple vs) f = Every-err

  pub unpack_tuple-census :
      (n : ℕ) (v : Value) (f : Frame)
      → Every (λ g. Holds (census p v + frame_census f) g) (unpack_tuple_value n v f)
  unfolding unpack_tuple_value census
  unpack_tuple-census n (tuple vs) f =
      Every-then (guard (values_count vs == n) (type_error (unpack_tuple_size n (values_count vs))))
        _ (λ _ _. Every-ok (omega (arith, push_values-census vs f)))
  unpack_tuple-census n (bool b) f = Every-err
  unpack_tuple-census n (u64 k) f = Every-err
  unpack_tuple-census n (address a) f = Every-err
  unpack_tuple-census n (str s) f = Every-err
  unpack_tuple-census n void f = Every-err
  unpack_tuple-census n (struct t fs) f = Every-err

  pub field_value-census :
      (name : String) (v : Value) → Every (λ u. census p u ≤ census p v) (field_value name v)
  unfolding field_value census
  field_value-census name (struct t fs) = elim (Option-cases (find_field name fs)) [
    | inl e ↦ rw e Every-err
    | inr (u, e) ↦ rw e (Every-ok (omega (arith, find_field-census p name fs u e)))
  ]
  field_value-census name (bool b) = Every-err
  field_value-census name (u64 k) = Every-err
  field_value-census name (address a) = Every-err
  field_value-census name (str s) = Every-err
  field_value-census name void = Every-err
  field_value-census name (tuple vs) = Every-err

  pub jump_by-census :
      (z : ℤ) (f : Frame) (n : ℕ) → frame_census f ≤ n → Every (λ g. Holds n g) (jump_by z f)
  unfolding jump_by
  jump_by-census z f n h = Every-then (jump_target f.pc z) _ (λ target _. Every-ok h)

  pub jump_when-census :
      (b : Bool) (z : ℤ) (f : Frame) → Every (λ g. Holds (frame_census f + 0) g) (jump_when b z f)
  unfolding jump_when
  jump_when-census b z f = popped f (frame_census f) _ (omega arith) (λ q s.
      Every-then (boolean q.0) _ (λ c _. elim (Bool-cases ((c && b) || (negate c && negate b))) [
        | inl h ↦ rw h (jump_by-census z q.1 _ (omega (arith, s)))
        | inr h ↦ rw h (Every-ok (omega (arith, s)))
      ]))
