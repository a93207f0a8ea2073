-- ===== src/Nakamoto/Inputs/Defs.antt =====
-- `collect_inputs` and its traversal of module imports. The recursion of `collect_dep_modules` takes
-- fuel; `none` means that it ran out.
use meow.Base.{ℕ, zero, suc, Option, none, some, List, [], ◌∷◌, ◌++◌, contains, if◌then◌else◌}
use meow.Types.Primitives.{Address, Bytes}
use meow.Types.Object.{Object}
use meow.Types.Transaction.{Input, TransactionType, meow_call, meow_module_publish, Transaction}
use meow.Vm.Module.{Module}

-- The objects gathered so far, in order, and the addresses seen.
abbrev pub Gathered : Type 0
Gathered = List Object × List Address

-- `if let Some(obj) = o { inputs.push(obj); }`
abbrev pub push_some : Option Object → List Object → List Object
push_some none inputs = inputs
push_some (some o) inputs = inputs ++ o ∷ []

module _ (decode_module : Bytes → Option Module) (get_object : Address → Option Object) where
  -- one import: skip it if its address was seen or has no object; else its dependencies, then it
  unfoldable pub visit_import :
      (Object → Gathered → Option Gathered) → Address → List Object → List Address → Option Gathered
  visit_import visit a inputs seen =
      if contains seen a then some (inputs, seen) else elim (get_object a) [
        | none ↦ some (inputs, a ∷ seen)
        | some dep ↦ elim (visit dep (inputs, a ∷ seen)) [
          | none ↦ none
          | some (inputs', seen') ↦ some (inputs' ++ dep ∷ [], seen')
        ]
      ]

  -- the loop over `module.imports`
  unfoldable pub visit_imports :
      (Object → Gathered → Option Gathered) → List Address → Gathered → Option Gathered
  unfolding visit_import
  visit_imports visit [] g = some g
  visit_imports visit (a ∷ as') g = elim (visit_import visit a g.0 g.1) [
    | none ↦ none
    | some g' ↦ visit_imports visit as' g'
  ]

  unfoldable pub collect_dep_modules : ℕ → Object → Gathered → Option Gathered
  unfolding visit_imports
  collect_dep_modules zero root g = none
  collect_dep_modules (suc fuel) root g = elim (decode_module root.content) [
    | none ↦ some g
    | some m ↦ visit_imports (collect_dep_modules fuel) m.imports g
  ]

  -- the loop over `call.arguments()`
  unfoldable pub push_arguments : List Input → List Object → List Object
  push_arguments [] inputs = inputs
  push_arguments (Input.raw b ∷ args) inputs = push_arguments args inputs
  push_arguments (Input.object r ∷ args) inputs =
      push_arguments args (push_some (get_object r.address) inputs)

  -- the arms of the `match` on the transaction's type
  unfoldable pub collect_as : ℕ → TransactionType → List Object → Option (List Object)
  unfolding collect_dep_modules push_arguments
  collect_as fuel (meow_call call) inputs = elim (get_object call.module_) [
    | none ↦ some (push_arguments call.arguments inputs)
    | some root ↦ elim (collect_dep_modules fuel root (inputs, call.module_ ∷ [])) [
      | none ↦ none
      | some (inputs', seen) ↦ some (push_arguments call.arguments (inputs' ++ root ∷ []))
    ]
  ]
  collect_as fuel (meow_module_publish bytes) inputs = elim (decode_module bytes) [
    | none ↦ some inputs
    | some m ↦ elim (visit_imports (collect_dep_modules fuel) m.imports (inputs, [])) [
      | none ↦ none
      | some (inputs', seen) ↦ some inputs'
    ]
  ]

  unfoldable pub collect_inputs : ℕ → Transaction → Option (List Object)
  unfolding collect_as
  collect_inputs fuel t = collect_as fuel t.type_ (push_some (get_object t.gas_coin.address) [])
