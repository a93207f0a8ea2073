-- ===== src/Adapter/Effects.antt =====
-- crates/meow-vm-adapter/src/executor: versioning.rs, effects.rs and gas.rs, which turn the recorded side
-- effects into the objects of a result.
use meow.Base.{
  ℕ, Bool, not, ◌&&◌, Option, none, some, List, [], ◌∷◌, ◌++◌, ◌==◌, if◌then◌else◌, Outcome, ok,
  err, panic, ◌>>=◌, ◌>>◌, guard, require, expect, contains, any,
}
use meow.Types.Primitives.{Address, Digest}
use meow.Types.Object.{
  Object, ObjectOwner, ObjectVersion, next, is_address_owned, version_one, version_max,
}
use meow.Types.Transaction.{ExecutionResult, new_result, with_gas_used}
use meow.External.{External}
use meow.Vm.Types.{Value}
use meow.Adapter.Defs.{
  Platform, Failure, not_consumed, not_accounted, is_module, object_address,
  vm_object_value_to_object, deduct_gas,
}
use meow.Adapter.Context.{Context}

-- The entry of a map from addresses to objects, of which the last stays.
unfoldable pub last_input : Address → List Object → Option Object
last_input a [] = none
last_input a (o ∷ os) = elim (last_input a os) [
  | some p ↦ some p
  | none ↦ if o.address == a then some o else none
]

-- What is asserted of the object arguments.
unfoldable pub usable : Object → Bool
usable o = is_address_owned o.owner && (not (is_module o.type_) && not (o.version == version_max))

module _ {E : Type 0} where
  unfoldable pub bump_version : Object → Outcome E ObjectVersion
  bump_version o = expect (next o.version)

  -- An input object with the next version.
  unfoldable pub bumped : Digest → Object → Outcome E Object
  unfolding bump_version
  bumped digest o = bump_version o >>= λ v. ok (record o { transaction = digest; version = v })

-- The first of some addresses that is not accounted for.
unfoldable pub check_ids :
    (Address → Failure) → List Address → List Address → Outcome Failure (Unit {0})
check_ids f accounted [] = ok tt
check_ids f accounted (a ∷ ids) = guard (contains accounted a) (f a) >> check_ids f accounted ids

abbrev pub addresses : List Object → List Address
addresses [] = []
addresses (o ∷ os) = o.address ∷ addresses os

module _ (x : External) (y : Platform) where
  unfoldable pub transferred_ids : List (Value × Address) → List Address
  transferred_ids [] = []
  transferred_ids ((v, owner) ∷ ts) =
      let rest = transferred_ids ts in
      elim (object_address x y v) [ some a ↦ a ∷ rest | none ↦ rest ]

  -- The version of a transferred object: the first one if it is fresh.
  unfoldable pub transferred_version :
      List Address → List Object → Address → Outcome Failure ObjectVersion
  unfolding bump_version last_input
  transferred_version fresh args id =
      if contains fresh id
      then ok version_one
      else (expect (last_input id args) >>= λ o. bump_version o)

  -- `.expect("failed to convert VM object value to object")`
  abbrev pub unwrapped : Outcome (Unit {0}) Object → Outcome Failure Object
  unwrapped (ok o) = ok o
  unwrapped (err e) = panic
  unwrapped panic = panic

  unfoldable pub transferred_object :
      Digest → List Address → List Object → Address → Value → Address → Outcome Failure Object
  unfolding transferred_version
  transferred_object digest fresh args id v owner = do
    version ← transferred_version fresh args id
    unwrapped (vm_object_value_to_object x y v (ObjectOwner.address owner) digest version)

  -- The loop over the transfers: the created and the changed objects.
  unfoldable pub collect_transfers :
      Digest
      → List Address
      → List Object
      → List (Value × Address)
      → Outcome Failure (List Object × List Object)
  unfolding transferred_object
  collect_transfers digest fresh args [] = ok ([], [])
  collect_transfers digest fresh args ((v, owner) ∷ ts) = do
    id ← expect (object_address x y v)
    o ← transferred_object digest fresh args id v owner
    (created, changed) ← collect_transfers digest fresh args ts
    ok (if contains fresh id then (o ∷ created, changed) else (created, o ∷ changed))

  -- The loop over the destroyed identifiers: those that are not fresh.
  unfoldable pub collect_destroyed :
      Digest → List Address → List Object → List Address → Outcome Failure (List Object)
  unfolding last_input bumped
  collect_destroyed digest fresh args [] = ok []
  collect_destroyed digest fresh args (id ∷ ids) =
      let rest = collect_destroyed digest fresh args ids in
      if contains fresh id
      then rest
      else (expect (last_input id args) >>= λ o.
          bumped digest o >>= λ d. rest >>= λ ds. ok (d ∷ ds))

  unfoldable pub collect_object_effects :
      Context → List Object → Digest → Outcome Failure (List Object × (List Object × List Object))
  unfolding transferred_ids check_ids collect_transfers collect_destroyed
  collect_object_effects ctx args digest = do
    require (not (any (λ o. not (usable o)) args))
    check_ids not_consumed (transferred_ids ctx.transfers ++ ctx.destroyed) ctx.fresh_ids
    check_ids not_accounted (transferred_ids ctx.transfers ++ ctx.destroyed) (addresses args)
    (created, changed) ← collect_transfers digest ctx.fresh_ids args ctx.transfers
    destroyed ← collect_destroyed digest ctx.fresh_ids args ctx.destroyed
    ok (created, (changed, destroyed))

  -- The gas coin after the gas is spent.
  unfoldable pub spent_coin : {E : Type 0} → Object → ℕ → Digest → Outcome E Object
  unfolding bump_version
  spent_coin coin spent digest = do
    content ← expect (deduct_gas x y coin spent)
    version ← bump_version coin
    ok (record coin { transaction = digest; version = version; content = content })

  unfoldable pub apply_gas_spending :
      {E : Type 0} → ExecutionResult → Object → ℕ → Digest → Outcome E ExecutionResult
  unfolding spent_coin
  apply_gas_spending r coin spent digest = spent_coin coin spent digest >>= λ coin'. ok (
      with_gas_used
        (new_result r.status r.transaction_digest r.created_objects
          (r.changed_objects ++ (coin' ∷ [])) r.destroyed_objects)
        spent)
