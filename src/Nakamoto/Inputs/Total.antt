-- ===== src/Nakamoto/Inputs/Total.antt =====
-- The fuel of `collect_inputs` suffices: a nested call of `collect_dep_modules` follows an import
-- whose address is newly seen and holds an object of the store.
use meow.Base.{
  ℕ, zero, suc, ◌≤◌, ◌<◌, ◌≡◌, refl, false, Option, some, List, [], ◌∷◌, ◌++◌, contains, length,
  if◌then◌else◌, arith, Bool-cases, Option-cases, inl, inr,
}
use meow.BTreeMap.{BTreeMap, get}
use meow.Types.Primitives.{Address, Bytes}
use meow.Types.Object.{Object}
use meow.Types.Transaction.{TransactionType, meow_call, meow_module_publish, Transaction}
use meow.Vm.Module.{Module}
use meow.Nakamoto.Inputs.Defs.{
  Gathered, push_some, visit_import, visit_imports, collect_dep_modules, push_arguments, collect_as,
  collect_inputs,
}

-- how many entries are not seen yet
unfoldable unseen : BTreeMap Object → List Address → ℕ
unseen [] seen = 0
unseen ((k, o) ∷ m) seen = if contains seen k then unseen m seen else suc (unseen m seen)

unseen-le-length : (m : BTreeMap Object) (seen : List Address) → unseen m seen ≤ length m
unfolding unseen
unseen-le-length [] seen = omega arith
unseen-le-length ((k, o) ∷ m) seen = ground (arith, unseen-le-length m seen)

unseen_falls :
    (m : BTreeMap Object) (a : Address) (seen : List Address) → unseen m (a ∷ seen) ≤ unseen m seen
unfolding unseen
unseen_falls [] a seen = omega arith
unseen_falls ((k, o) ∷ m) a seen = ground (arith, unseen_falls m a seen)

unseen_drops :
    (m : BTreeMap Object) (a : Address) (o : Object) (seen : List Address)
    → get a m ≡ some o
    → contains seen a ≡ false
    → unseen m (a ∷ seen) < unseen m seen
unfolding unseen get
unseen_drops [] a o seen h n = cc
unseen_drops ((k, p) ∷ m) a o seen h n =
    ground (arith, unseen_drops m a o seen, unseen_falls m a seen)

module _ (decode_module : Bytes → Option Module) (m : BTreeMap Object) where
  abbrev lookup : Address → Option Object
  lookup a = get a m

  -- A traversal ends, and has forgotten nothing that was seen.
  abbrev Ends : Gathered → Option Gathered → Type 0
  Ends g o = (g' : Gathered) × (o ≡ some g') × (unseen m g'.1 ≤ unseen m g.1)

  abbrev EndsWithin : ℕ → (Object → Gathered → Option Gathered) → Type 0
  EndsWithin fuel visit =
      (root : Object) (g : Gathered) → unseen m g.1 < fuel → Ends g (visit root g)

  visit_import_total :
      (fuel : ℕ) (visit : Object → Gathered → Option Gathered)
      → EndsWithin fuel visit
      → (a : Address) (g : Gathered) → unseen m g.1 < suc fuel
      → Ends g (visit_import decode_module lookup visit a g.0 g.1)
  unfolding visit_import
  visit_import_total fuel visit total a (inputs, seen) h = elim (Bool-cases (contains seen a)) [
    | inl old ↦ ((inputs, seen), rw old refl, omega arith)
    | inr new ↦ elim (Option-cases (get a m)) [
      | inl missing ↦ ((inputs, a ∷ seen), rw (new, missing) refl, unseen_falls m a seen)
      | inr (dep, found) ↦
          let drop = unseen_drops m a dep seen found new in
          let ((inputs', seen'), done, kept) =
            total dep (inputs, a ∷ seen) (omega (arith, drop, h)) in
          ((inputs' ++ dep ∷ [], seen'), rw (new, found, done) refl, omega (arith, kept, drop))
    ]
  ]

  visit_imports_total :
      (fuel : ℕ) (visit : Object → Gathered → Option Gathered)
      → EndsWithin fuel visit
      → (imports : List Address) (g : Gathered) → unseen m g.1 < suc fuel
      → Ends g (visit_imports decode_module lookup visit imports g)
  unfolding visit_imports
  visit_imports_total fuel visit total [] g h = (g, refl, omega arith)
  visit_imports_total fuel visit total (a ∷ imports) g h =
      let (g', done, kept) = visit_import_total fuel visit total a g h in
      let (g'', rest, kept') =
        visit_imports_total fuel visit total imports g' (omega (arith, kept, h)) in
      (g'', rw (done, visit_imports) rest, omega (arith, kept, kept'))

  collect_dep_modules_total :
      (fuel : ℕ) → EndsWithin fuel (collect_dep_modules decode_module lookup fuel)
  unfolding collect_dep_modules
  collect_dep_modules_total zero root g h = absurd (omega (arith, h))
  collect_dep_modules_total (suc fuel) root g h = elim (Option-cases (decode_module root.content)) [
    | inl bad ↦ (g, rw (bad, collect_dep_modules) refl, omega arith)
    | inr (mdl, good) ↦
        let (g', done, kept) =
          visit_imports_total fuel (collect_dep_modules decode_module lookup fuel)
            (collect_dep_modules_total fuel) mdl.imports g h in
        (g', rw (good, collect_dep_modules) done, kept)
  ]

  collect_as_total :
      (t : TransactionType) (inputs : List Object)
      → (os : List Object) × (collect_as decode_module lookup (suc (length m)) t inputs ≡ some os)
  unfolding collect_as
  collect_as_total (meow_call call) inputs = elim (Option-cases (get call.module_ m)) [
    | inl missing ↦
        (push_arguments decode_module lookup call.arguments inputs, rw (missing, collect_as) refl)
    | inr (root, found) ↦
        let ((inputs', seen), done, _) =
          collect_dep_modules_total (suc (length m)) root (inputs, call.module_ ∷ [])
            (omega (arith, unseen-le-length m (call.module_ ∷ []))) in
        (
          push_arguments decode_module lookup call.arguments (inputs' ++ root ∷ []),
          rw (found, done, collect_as) refl,
        )
  ]
  collect_as_total (meow_module_publish bytes) inputs = elim (Option-cases (decode_module bytes)) [
    | inl bad ↦ (inputs, rw (bad, collect_as) refl)
    | inr (mdl, good) ↦
        let ((inputs', seen), done, _) =
          visit_imports_total (suc (length m))
            (collect_dep_modules decode_module lookup (suc (length m)))
            (collect_dep_modules_total (suc (length m))) mdl.imports (inputs, [])
            (omega (arith, unseen-le-length m [])) in
        (inputs', rw (good, done, collect_as) refl)
  ]

  -- With one more unit of fuel than the store has objects, the collection of a transaction's inputs
  -- ends, whatever the modules in the store import, themselves in a cycle included.
  pub collect_inputs_total :
      (t : Transaction)
      → (os : List Object) × (collect_inputs decode_module (λ a. get a m) (suc (length m)) t
          ≡ some os)
  unfolding collect_inputs
  collect_inputs_total t = collect_as_total t.type_ (push_some (get t.gas_coin.address m) [])
