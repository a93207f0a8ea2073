-- ===== src/Vm/Machine/Steady.antt =====
-- The instructions that leave the program counter and the code of a frame as they are.
use meow.Base.{
  ℕ, zero, suc, ◌≡◌, refl, String, List, [], ◌∷◌, Option, none, some, Outcome, ok, err, panic,
  ◌>>=◌, Every, Every-ok, Every-err, Every-panic, Every-bind, Every-then, ok_or, guard, ◌==◌, inl,
  inr, Bool-cases, ◌∙◌, reject_if, get_elem?,
}
use meow.Vm.Types.{Value, Values, Fields, struct, tuple, nil, cons, bool, u64, address, str, void}
use meow.Vm.Errors.{VmError, undefined_field, type_error, unpack_tuple_size, slot_overwrite}
use meow.Vm.Values.{is_linear, read_field_path, write_field_path}
use meow.Vm.Machine.Frame.{
  Frame, push, pop, pop_from, pop_onto, pop_args, loaded, live, holds_linear, store_slot,
  load_field_path, store_field_path, push_values, values_count,
}
use meow.Vm.Machine.Exec.{
  binary, pop_fields, unpack_fields, unpack_struct_value, unpack_tuple_value, find_last,
}

abbrev pub Steady : Frame → Frame → Type 0
Steady f g = (g.code ≡ f.code) × (g.pc ≡ f.pc)

pub Steady-trans : (f g h : Frame) → Steady f g → Steady g h → Steady f h
Steady-trans f g h (p, q) (p', q') = (p' ∙ p, q' ∙ q)

pub pop_from-Steady : (f : Frame) (vs : List Value) → Every (λ p. Steady f p.1) (pop_from f vs)
pop_from-Steady f [] = Every-err
pop_from-Steady f (v ∷ vs) = Every-ok (refl, refl)

pub pop-Steady : (f : Frame) → Every (λ p. Steady f p.1) (pop f)
unfolding pop
pop-Steady f = pop_from-Steady f f.stack

pub push-Steady : (f g : Frame) (v : Value) → Steady f g → Steady f (push v g)
unfolding push
push-Steady f g v s = s

-- After a pop.
pub popped :
    (f g : Frame) {A : Type 0} {Q : A → Type 0} (next : Value × Frame → Outcome VmError A)
    → Steady f g
    → ((p : Value × Frame) → Steady f p.1 → Every Q (next p))
    → Every Q (pop g >>= next)
popped f g next s h = Every-bind (pop g) next (pop-Steady g) (λ p t. h p (Steady-trans f g p.1 s t))

pub pop_onto-Steady :
    (n : ℕ) (acc : List Value) (f g : Frame)
    → Steady f g
    → Every (λ p. Steady f p.1) (pop_onto n acc g)
unfolding pop_onto
pop_onto-Steady zero acc f g s = Every-ok s
pop_onto-Steady (suc n) acc f g s = popped f g _ s (λ p t. pop_onto-Steady n (p.0 ∷ acc) f p.1 t)

pub pop_args-Steady : (n : ℕ) (f : Frame) → Every (λ p. Steady f p.1) (pop_args n f)
unfolding pop_args
pop_args-Steady n f = pop_onto-Steady n [] f f (refl, refl)

pub pop_fields-Steady : (ns : List String) (f : Frame) → Every (λ p. Steady f p.1) (pop_fields ns f)
unfolding pop_fields
pop_fields-Steady [] f = Every-ok (refl, refl)
pop_fields-Steady (n ∷ ns) f =
    Every-bind (pop_fields ns f) _ (pop_fields-Steady ns f)
      (λ p s. popped f p.1 _ s (λ q t. Every-ok t))

pub unpack_fields-Steady :
    (t : String) (ns : List String) (fs : Fields) (f : Frame)
    → Every (λ p. Steady f p.1) (unpack_fields t ns fs f)
unfolding unpack_fields
unpack_fields-Steady t [] fs f = Every-ok (refl, refl)
unpack_fields-Steady t (n ∷ ns) fs f =
    Every-bind (unpack_fields t ns fs f) _ (unpack_fields-Steady t ns fs f) (λ p s.
      Every-then (ok_or (find_last n p.0) (undefined_field t n)) _
        (λ v _. Every-ok (push-Steady f p.1 v s)))

pub push_values-Steady : (vs : Values) (f : Frame) → Steady f (push_values vs f)
unfolding push_values
push_values-Steady nil f = (refl, refl)
push_values-Steady (cons v vs) f = push-Steady f (push_values vs f) v (push_values-Steady vs f)

pub unpack_tuple-Steady :
    (n : ℕ) (v : Value) (f : Frame) → Every (λ g. Steady f g) (unpack_tuple_value n v f)
unfolding unpack_tuple_value
unpack_tuple-Steady n (tuple vs) f =
    Every-then (guard (values_count vs == n) (type_error (unpack_tuple_size n (values_count vs)))) _
      (λ _ _. Every-ok (push_values-Steady vs f))
unpack_tuple-Steady n (bool b) f = Every-err
unpack_tuple-Steady n (u64 k) f = Every-err
unpack_tuple-Steady n (address a) f = Every-err
unpack_tuple-Steady n (str s) f = Every-err
unpack_tuple-Steady n void f = Every-err
unpack_tuple-Steady n (struct t fs) f = Every-err

pub unpack_struct-Steady :
    (ns : List String) (v : Value) (f : Frame)
    → Every (λ g. Steady f g) (unpack_struct_value ns v f)
unfolding unpack_struct_value
unpack_struct-Steady ns (struct t fs) f =
    Every-bind (unpack_fields t ns fs f) _ (unpack_fields-Steady t ns fs f) (λ p s. Every-ok s)
unpack_struct-Steady ns (bool b) f = Every-err
unpack_struct-Steady ns (u64 k) f = Every-err
unpack_struct-Steady ns (address a) f = Every-err
unpack_struct-Steady ns (str s) f = Every-err
unpack_struct-Steady ns void f = Every-err
unpack_struct-Steady ns (tuple vs) f = Every-err

pub loaded-Steady :
    (slot : ℕ) (f : Frame) (o : Option (Option Value)) → Every (λ g. Steady f g) (loaded slot f o)
unfolding push
loaded-Steady slot f none = Every-err
loaded-Steady slot f (some none) = Every-err
loaded-Steady slot f (some (some v)) = elim (Bool-cases (is_linear v)) [
  | inl h ↦ rw h (Every-ok (refl, refl))
  | inr h ↦ rw h (Every-ok (refl, refl))
]

pub store-Steady : (slot : ℕ) (f : Frame) → Every (λ g. Steady f g) (store_slot slot f)
unfolding store_slot
store-Steady slot f =
    popped f f _ (refl, refl)
      (λ p s.
        Every-then (reject_if (holds_linear (get_elem? p.1.locals slot)) (slot_overwrite slot)) _
          (λ _ _. Every-ok s))

pub load_field-Steady :
    (slot : ℕ) (path : List String) (f : Frame)
    → Every (λ g. Steady f g) (load_field_path slot path f)
unfolding load_field_path push
load_field-Steady slot path f =
    Every-then (live slot (get_elem? f.locals slot)) _
      (λ root _. Every-then (read_field_path root path) _ (λ v _. Every-ok (refl, refl)))

pub store_field-Steady :
    (slot : ℕ) (path : List String) (f : Frame)
    → Every (λ g. Steady f g) (store_field_path slot path f)
unfolding store_field_path
store_field-Steady slot path f =
    popped f f _ (refl, refl)
      (λ p s.
        Every-then (live slot (get_elem? p.1.locals slot)) _
          (λ root _. Every-then (write_field_path root path p.0) _ (λ v _. Every-ok s)))

pub binary-Steady :
    (op : Value → Value → Outcome VmError Value) (f : Frame) → Every (λ g. Steady f g) (binary op f)
unfolding binary push
binary-Steady op f =
    popped f f _ (refl, refl)
      (λ r s. popped f r.1 _ s (λ l t. Every-then (op l.0 r.0) _ (λ v _. Every-ok t)))

pub from-Steady :
    (f g : Frame) (m : Outcome VmError Frame)
    → Steady f g
    → Every (λ h. Steady g h) m
    → Every (λ h. Steady f h) m
from-Steady f g (ok h) s e = Every-ok (Steady-trans f g h s e.holds)
from-Steady f g (err e) s _ = Every-err
from-Steady f g panic s _ = Every-panic
