-- ===== src/Vm/Machine/Follows.antt =====
-- What the loop of `call_inner` is left to do after an instruction, for modules whose functions have
-- bounded code.
use mathlib.Core.Path.{subst}
use meow.Base.{
  ℕ, ◌≤◌, ◌≡◌, refl, Bool, String, true, false, List, [], ◌∷◌, Option, none, some, Outcome, ok, err,
  panic, Every, Every-ok, Every-err, Every-panic, Every-bind, Every-then, inl, inr, Bool-cases,
  Option-cases, All, find, length, ok_or, ok_or-eq-ok, guard, ◌==◌,
}
use meow.Types.Primitives.{Address}
use meow.Vm.Bytecode.{
  Instruction, push_bool, push_u64, push_address, push_str, load, store, load_field, store_field,
  add, sub, mul, div, mod_, eq, ne, lt, le, gt, ge, new_struct, get_field, unpack_struct, dup, jump,
  jump_if, jump_if_not, call, return_, make_tuple, unpack_tuple,
}
use meow.Vm.Module.{Module, Function, get_function}
use meow.Vm.Ref.{HexCodec, parse_module_ref}
use meow.Vm.Errors.{VmError, undefined_function, private_function}
use meow.Vm.Natives.{NativeFnEntry}
use meow.Vm.Machine.Frame.{Frame, pop_args}
use meow.Vm.Machine.Exec.{
  Vm, Next, goes_on, returns, calls_function, calls_native, continue, exec, exec_frame, find_dep,
  find_native, call_by_name, request, call_local, call_native,
}
use meow.Vm.Machine.Steady.{Steady, pop_args-Steady}
use meow.Vm.Machine.Progress.{Advances, exec_frame-Advances}

pub find-All {ℓ κ} :
    {A : Type ℓ} (P : A → Type κ) (p : A → Bool) (xs : List A) (x : A)
    → All P xs
    → find p xs ≡ some x
    → P x
find-All P p [] x all h = cc
find-All P p (y ∷ ys) x (q, all) h = elim (Bool-cases (p y)) [
  | inl e ↦ let same : y ≡ x = cc (h, e) in subst P same q
  | inr e ↦ let later : find p ys ≡ some x = rw e at h in find-All P p ys x all later
]

-- No function of a module has more than `l` instructions.
abbrev pub Short : ℕ → Module → Type 0
Short l m = All (λ f. length f.code ≤ l) m.functions

abbrev pub is_call : Instruction → Bool
is_call (call name) = true
is_call _ = false

-- What the loop is left to do after an instruction.
abbrev pub Follows {ℓ} : {S : Type ℓ} → ℕ → Instruction → Frame → Next S → Type 0
Follows l i f (goes_on g) = Advances i f g
Follows l i f (returns v) = Unit
Follows l i f (calls_function name m a args g) = (Steady f g × Short l m) × (is_call i ≡ true)
Follows l i f (calls_native e g) = Steady f g

module _ {ℓ} {S : Type ℓ} (hex : HexCodec) (vm : Vm S) (l : ℕ)
    (deps : All (λ d. Short l d.1) vm.deps) where
  find_dep-Short :
      (ds : List (Address × Module)) (a : Address) (m : Module)
      → All (λ d. Short l d.1) ds
      → find_dep a ds ≡ some m
      → Short l m
  unfolding find_dep
  find_dep-Short [] a m all h = cc
  find_dep-Short ((b, n) ∷ ds) a m (p, all) h = elim (Bool-cases (b == a)) [
    | inl e ↦ let same : n ≡ m = cc (h, e) in subst (Short l) same p
    | inr e ↦ let later : find_dep a ds ≡ some m = rw e at h in find_dep-Short ds a m all later
  ]

  request-Follows :
      (name short : String) (m : Module) (a : Address) (func : Function) (f : Frame)
      → Short l m
      → Every (Follows {S = S} l (call name) f) (request hex vm short m a func f)
  request-Follows name short m a func f s =
      Every-bind (pop_args (length func.params) f) _ (pop_args-Steady _ f)
        (λ p t. Every-ok ((t, s), refl))

  native-Follows :
      (name : String) (f : Frame) (o : Option (NativeFnEntry S))
      → Every (Follows {S = S} l (call name) f) (call_native hex vm name f o)
  native-Follows name f none = Every-err
  native-Follows name f (some e) = Every-ok (refl, refl)

  local-Follows :
      (name : String) (m : Module) (a : Address) (f : Frame)
      → Short l m
      → Every (Follows {S = S} l (call name) f) (call_local hex vm name m a f (get_function m name))
  local-Follows name m a f s = elim (Option-cases (get_function m name)) [
    | inr (func, h) ↦ rw h (request-Follows name name m a func f s)
    | inl h ↦ rw h (native-Follows name f (find_native hex vm name))
  ]

  call-Follows :
      (name : String) (m : Module) (a : Address) (f : Frame)
      → Short l m
      → Every (Follows {S = S} l (call name) f) (call_by_name hex vm name m a f)
  unfolding call_by_name
  call-Follows name m a f s = elim (Option-cases (parse_module_ref hex name)) [
    | inr ((dep, short), h) ↦ rw h (
        Every-then (ok_or (find_dep dep vm.deps) (undefined_function name)) _ (λ d e.
          Every-then (ok_or (get_function d short) (undefined_function name)) _ (λ func _.
            Every-then (guard func.is_public (private_function name)) _ (λ _ _.
              request-Follows name short d dep func f
                (find_dep-Short vm.deps dep d deps (ok_or-eq-ok _ _ e))))))
    | inl h ↦ rw h (local-Follows name m a f s)
  ]

  continue-Follows :
      (i : Instruction) (f : Frame) (r : Outcome VmError Frame)
      → Every (λ g. Advances i f g) r
      → Every (Follows {S = S} l i f) (continue r)
  continue-Follows i f (ok g) h = Every-ok h.holds
  continue-Follows i f (err e) h = Every-err
  continue-Follows i f panic h = Every-panic

  pub exec-Follows :
      (m : Module) (a : Address) (i : Instruction) (f : Frame)
      → Short l m
      → Every (Follows {S = S} l i f) (exec hex vm m a i f)
  unfolding exec
  exec-Follows m a (call name) f s = call-Follows name m a f s
  exec-Follows m a return_ f s = Every-ok tt
  exec-Follows m a (push_bool b) f s =
      continue-Follows (push_bool b) f (exec_frame hex vm m a (push_bool b) f)
        (exec_frame-Advances hex vm m a (push_bool b) f)
  exec-Follows m a (push_u64 n) f s =
      continue-Follows (push_u64 n) f (exec_frame hex vm m a (push_u64 n) f)
        (exec_frame-Advances hex vm m a (push_u64 n) f)
  exec-Follows m a (push_address d) f s =
      continue-Follows (push_address d) f (exec_frame hex vm m a (push_address d) f)
        (exec_frame-Advances hex vm m a (push_address d) f)
  exec-Follows m a (push_str t) f s =
      continue-Follows (push_str t) f (exec_frame hex vm m a (push_str t) f)
        (exec_frame-Advances hex vm m a (push_str t) f)
  exec-Follows m a (load k) f s =
      continue-Follows (load k) f (exec_frame hex vm m a (load k) f)
        (exec_frame-Advances hex vm m a (load k) f)
  exec-Follows m a (store k) f s =
      continue-Follows (store k) f (exec_frame hex vm m a (store k) f)
        (exec_frame-Advances hex vm m a (store k) f)
  exec-Follows m a (load_field k p) f s =
      continue-Follows (load_field k p) f (exec_frame hex vm m a (load_field k p) f)
        (exec_frame-Advances hex vm m a (load_field k p) f)
  exec-Follows m a (store_field k p) f s =
      continue-Follows (store_field k p) f (exec_frame hex vm m a (store_field k p) f)
        (exec_frame-Advances hex vm m a (store_field k p) f)
  exec-Follows m a add f s =
      continue-Follows add f (exec_frame hex vm m a add f) (exec_frame-Advances hex vm m a add f)
  exec-Follows m a sub f s =
      continue-Follows sub f (exec_frame hex vm m a sub f) (exec_frame-Advances hex vm m a sub f)
  exec-Follows m a mul f s =
      continue-Follows mul f (exec_frame hex vm m a mul f) (exec_frame-Advances hex vm m a mul f)
  exec-Follows m a div f s =
      continue-Follows div f (exec_frame hex vm m a div f) (exec_frame-Advances hex vm m a div f)
  exec-Follows m a mod_ f s =
      continue-Follows mod_ f (exec_frame hex vm m a mod_ f) (exec_frame-Advances hex vm m a mod_ f)
  exec-Follows m a eq f s =
      continue-Follows eq f (exec_frame hex vm m a eq f) (exec_frame-Advances hex vm m a eq f)
  exec-Follows m a ne f s =
      continue-Follows ne f (exec_frame hex vm m a ne f) (exec_frame-Advances hex vm m a ne f)
  exec-Follows m a lt f s =
      continue-Follows lt f (exec_frame hex vm m a lt f) (exec_frame-Advances hex vm m a lt f)
  exec-Follows m a le f s =
      continue-Follows le f (exec_frame hex vm m a le f) (exec_frame-Advances hex vm m a le f)
  exec-Follows m a gt f s =
      continue-Follows gt f (exec_frame hex vm m a gt f) (exec_frame-Advances hex vm m a gt f)
  exec-Follows m a ge f s =
      continue-Follows ge f (exec_frame hex vm m a ge f) (exec_frame-Advances hex vm m a ge f)
  exec-Follows m a Instruction.not f s =
      continue-Follows Instruction.not f (exec_frame hex vm m a Instruction.not f)
        (exec_frame-Advances hex vm m a Instruction.not f)
  exec-Follows m a Instruction.and f s =
      continue-Follows Instruction.and f (exec_frame hex vm m a Instruction.and f)
        (exec_frame-Advances hex vm m a Instruction.and f)
  exec-Follows m a Instruction.or f s =
      continue-Follows Instruction.or f (exec_frame hex vm m a Instruction.or f)
        (exec_frame-Advances hex vm m a Instruction.or f)
  exec-Follows m a (new_struct n ns) f s =
      continue-Follows (new_struct n ns) f (exec_frame hex vm m a (new_struct n ns) f)
        (exec_frame-Advances hex vm m a (new_struct n ns) f)
  exec-Follows m a (get_field n) f s =
      continue-Follows (get_field n) f (exec_frame hex vm m a (get_field n) f)
        (exec_frame-Advances hex vm m a (get_field n) f)
  exec-Follows m a (unpack_struct n ns) f s =
      continue-Follows (unpack_struct n ns) f (exec_frame hex vm m a (unpack_struct n ns) f)
        (exec_frame-Advances hex vm m a (unpack_struct n ns) f)
  exec-Follows m a Instruction.pop f s =
      continue-Follows Instruction.pop f (exec_frame hex vm m a Instruction.pop f)
        (exec_frame-Advances hex vm m a Instruction.pop f)
  exec-Follows m a dup f s =
      continue-Follows dup f (exec_frame hex vm m a dup f) (exec_frame-Advances hex vm m a dup f)
  exec-Follows m a (jump z) f s =
      continue-Follows (jump z) f (exec_frame hex vm m a (jump z) f)
        (exec_frame-Advances hex vm m a (jump z) f)
  exec-Follows m a (jump_if z) f s =
      continue-Follows (jump_if z) f (exec_frame hex vm m a (jump_if z) f)
        (exec_frame-Advances hex vm m a (jump_if z) f)
  exec-Follows m a (jump_if_not z) f s =
      continue-Follows (jump_if_not z) f (exec_frame hex vm m a (jump_if_not z) f)
        (exec_frame-Advances hex vm m a (jump_if_not z) f)
  exec-Follows m a (make_tuple n) f s =
      continue-Follows (make_tuple n) f (exec_frame hex vm m a (make_tuple n) f)
        (exec_frame-Advances hex vm m a (make_tuple n) f)
  exec-Follows m a (unpack_tuple n) f s =
      continue-Follows (unpack_tuple n) f (exec_frame hex vm m a (unpack_tuple n) f)
        (exec_frame-Advances hex vm m a (unpack_tuple n) f)
