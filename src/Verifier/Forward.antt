-- ===== src/Verifier/Forward.antt =====
-- Code that `check_module` finds no errors in runs forward.
use meow.Base.{
  ℕ, zero, suc, ◌+◌, ◌≤◌, ◌≡◌, refl, String, Bool, true, false, not, ◌&&◌, ◌||◌, some, List, [],
  ◌∷◌, ◌++◌, leb, ltb, Outcome, ok, err, panic, Every, Every-ok, Every-err, Every-panic, Every-bind,
  Every-then, ◌∙◌, sym, inl, inr, Bool-cases, Option-cases, get_elem?, All, append_empty,
  rest_empty, length, arith,
}
use meow.Base.Int.{ℤ, pos, negsuc}
use meow.Types.Primitives.{Address}
use meow.Vm.Bytecode.{Instruction, jump, jump_if, jump_if_not}
use meow.Vm.Module.{Module, Function, get_function}
use meow.Vm.Ref.{HexCodec}
use meow.Vm.Errors.{VmError}
use meow.Vm.Values.{boolean}
use meow.Vm.Machine.Frame.{Frame, jump_target, jump_by}
use meow.Vm.Machine.Exec.{Vm, jump_when, exec_frame}
use meow.Vm.Machine.Steady.{popped}
use meow.Vm.Machine.Progress.{Advances, is_jump, exec_frame-Advances}
use meow.Vm.Machine.Follows.{find-All}
use meow.Verifier.Errors.{VerificationError, CompilerConfig, jump_out_of_bounds}
use meow.Verifier.Types.{check_struct_cycles}
use meow.Verifier.Instructions.{report_if, check_jump, check_instruction, check_code}
use meow.Verifier.Structural.{
  check_module_structure, check_definitions, check_signature, check_functions, check_function,
}

report-empty : (b : Bool) (e : VerificationError) → report_if b e ≡ [] → b ≡ false
report-empty true e h = cc
report-empty false e h = refl

-- A frame in the code, past a position of it.
abbrev pub Ahead : ℕ → List Instruction → Frame → Type 0
Ahead pc code g = (g.code ≡ code) × ((suc pc ≤ g.pc) × (g.pc ≤ length code))

get-length :
    {A : Type 0} (xs : List A) (i : ℕ) (x : A) → get_elem? xs i ≡ some x → suc i ≤ length xs
get-length [] i x h = cc
get-length (y ∷ ys) zero x h = omega arith
get-length (y ∷ ys) (suc i) x h = let p = get-length ys i x h in omega arith

jump_target-Ahead :
    (fn : Function) (pc : ℕ) (z : ℤ)
    → check_jump fn pc z ≡ []
    → Every (λ t. (suc pc ≤ t) × (t ≤ length fn.code)) (jump_target (suc pc) z)
unfolding jump_target check_jump
jump_target-Ahead fn pc (pos zero) h = cc
jump_target-Ahead fn pc (pos (suc n)) h =
    let e =
      report-empty (ltb (length fn.code) (pc + suc n))
        (jump_out_of_bounds fn.name pc (pc + suc n) (length fn.code)) h in
    let inside : pc + suc n ≤ length fn.code = ground arith in
    elim (Bool-cases (leb 1 (suc pc + suc n))) [
      | inl t ↦ rw t (Every-ok (omega arith, omega arith))
      | inr t ↦ rw t Every-err
    ]
jump_target-Ahead fn pc (negsuc n) h = cc

module _ (fn : Function) (pc : ℕ) where
  jump_by-Ahead :
      (z : ℤ) (f : Frame)
      → check_jump fn pc z ≡ []
      → f.code ≡ fn.code
      → f.pc ≡ suc pc
      → Every (λ g. Ahead pc fn.code g) (jump_by z f)
  unfolding jump_by
  jump_by-Ahead z f h c e =
      rw e (
        Every-bind (jump_target (suc pc) z) _ (jump_target-Ahead fn pc z h)
          (λ t p. Every-ok (c, p)))

  jump_when-Ahead :
      (b : Bool) (z : ℤ) (f : Frame)
      → check_jump fn pc z ≡ []
      → f.code ≡ fn.code
      → f.pc ≡ suc pc
      → suc pc ≤ length fn.code
      → Every (λ g. Ahead pc fn.code g) (jump_when b z f)
  unfolding jump_when
  jump_when-Ahead b z f h c e l =
      popped f f _ (refl, refl)
        (λ p s. Every-then (boolean p.0) _ (λ d _.
          let c' : p.1.code ≡ fn.code = s.0 ∙ c in
          let e' : p.1.pc ≡ suc pc = s.1 ∙ e in
          elim (Bool-cases ((d && b) || (not d && not b))) [
            | inl t ↦ rw t (jump_by-Ahead z p.1 h c' e')
            | inr t ↦ rw t (Every-ok (c', (rw e' (omega arith), rw e' l)))
          ]))

-- What stays in the frame and is no jump.
stay-Ahead :
    (code : List Instruction) (pc : ℕ) (i : Instruction) (f : Frame) (r : Outcome VmError Frame)
    → is_jump i ≡ false
    → f.code ≡ code
    → f.pc ≡ suc pc
    → suc pc ≤ length code
    → Every (λ g. Advances i f g) r
    → Every (λ g. Ahead pc code g) r
stay-Ahead code pc i f (ok g) j c e l h = elim h.holds.1 [
  | inl same ↦
      let e' : g.pc ≡ suc pc = same ∙ e in Every-ok (h.holds.0 ∙ c, (rw e' (omega arith), rw e' l))
  | inr jumps ↦ cc
]
stay-Ahead code pc i f (err x) j c e l h = Every-err
stay-Ahead code pc i f panic j c e l h = Every-panic

module _ {ℓ} {S : Type ℓ} (hex : HexCodec) (vm : Vm S) (deps : List (Address × Module))
    (cfg : CompilerConfig) (m : Module) (a : Address) (fn : Function) (pc : ℕ) where
  stays-Ahead :
      (i : Instruction) (f : Frame)
      → is_jump i ≡ false
      → f.code ≡ fn.code
      → f.pc ≡ suc pc
      → suc pc ≤ length fn.code
      → Every (λ g. Ahead pc fn.code g) (exec_frame hex vm m a i f)
  stays-Ahead i f j c e l =
      stay-Ahead fn.code pc i f (exec_frame hex vm m a i f) j c e l
        (exec_frame-Advances hex vm m a i f)

  instruction-Ahead :
      (i : Instruction) (f : Frame)
      → check_instruction hex m deps cfg fn pc i ≡ []
      → f.code ≡ fn.code
      → f.pc ≡ suc pc
      → suc pc ≤ length fn.code
      → Every (λ g. Ahead pc fn.code g) (exec_frame hex vm m a i f)
  unfolding check_instruction exec_frame
  instruction-Ahead (jump z) f h c e l = jump_by-Ahead fn pc z f h c e
  instruction-Ahead (jump_if z) f h c e l = jump_when-Ahead fn pc true z f h c e l
  instruction-Ahead (jump_if_not z) f h c e l = jump_when-Ahead fn pc false z f h c e l
  instruction-Ahead i f h c e l = stays-Ahead i f refl c e l

module _ (hex : HexCodec) (m : Module) (deps : List (Address × Module)) (cfg : CompilerConfig) where
  check_code-at :
      (fn : Function) (is : List Instruction) (pc k n : ℕ) (i : Instruction)
      → pc + k ≡ n
      → check_code hex m deps cfg fn pc is ≡ []
      → get_elem? is k ≡ some i
      → check_instruction hex m deps cfg fn n i ≡ []
  unfolding check_code
  check_code-at fn [] pc k n i e h g = cc
  check_code-at fn (j ∷ is) pc zero n i e h g =
      let same : j ≡ i = cc in
      let here : pc ≡ n = omega arith in
      let (first, _) = append_empty (check_instruction hex m deps cfg fn pc j) _ h in
      rw (sym same, sym here) first
  check_code-at fn (j ∷ is) pc (suc k) n i e h g =
      let (_, rest) = append_empty (check_instruction hex m deps cfg fn pc j) _ h in
      check_code-at fn is (suc pc) k n i (omega arith) rest g

  -- A function whose code has no errors.
  abbrev Checked : Function → Type 0
  Checked f = check_code hex m deps cfg f 0 f.code ≡ []

  function-Checked :
      (seen : List String) (f : Function) → check_function hex m deps cfg seen f ≡ [] → Checked f
  unfolding check_function
  function-Checked seen f h = rest_empty (check_signature hex m deps cfg seen f) _ h

  functions-Checked :
      (seen : List String) (fs : List Function)
      → check_functions hex m deps cfg seen fs ≡ []
      → All Checked fs
  unfolding check_functions
  functions-Checked seen [] h = tt
  functions-Checked seen (f ∷ fs) h =
      let (first, rest) = append_empty (check_function hex m deps cfg seen f) _ h in
      (function-Checked seen f first, functions-Checked (f.name ∷ seen) fs rest)

  module-Checked : check_module_structure hex m deps cfg ≡ some [] → All Checked m.functions
  unfolding check_module_structure
  module-Checked h = elim (Option-cases (check_struct_cycles hex m deps)) [
    | inl e ↦ let h' = rw (check_module_structure, e) at h in cc
    | inr (cycles, e) ↦
        let h' = rw (check_module_structure, e) at h in
        let none_left : check_definitions hex m deps cfg cycles
              ++ check_functions hex m deps cfg [] m.functions
            ≡ [] =
          cc in
        functions-Checked [] m.functions
          (rest_empty (check_definitions hex m deps cfg cycles) _ none_left)
  ]

module _ {ℓ} {S : Type ℓ} (hex : HexCodec) (vm : Vm S) (m : Module) (deps : List (Address × Module))
    (cfg : CompilerConfig) where
  -- In a module that is found to have no errors, an instruction of a function that stays in the frame
  -- leads to a later position of the function's code or to its end, with the same code.
  pub exec_frame-Ahead :
      (a : Address) (name : String) (fn : Function) (i : Instruction) (f : Frame) (pc : ℕ)
      → check_module_structure hex m deps cfg ≡ some []
      → get_function m name ≡ some fn
      → get_elem? fn.code pc ≡ some i
      → f.code ≡ fn.code
      → f.pc ≡ suc pc
      → Every (λ g. Ahead pc fn.code g) (exec_frame hex vm m a i f)
  unfolding get_function
  exec_frame-Ahead a name fn i f pc h found at c e =
      let code =
        find-All (Checked hex m deps cfg) _ m.functions fn (module-Checked hex m deps cfg h)
          found in
      instruction-Ahead hex vm deps cfg m a fn pc i f
        (check_code-at hex m deps cfg fn fn.code 0 pc pc i (omega arith) code at) c e
        (get-length fn.code pc i at)
