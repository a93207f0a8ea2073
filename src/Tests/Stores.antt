-- ===== src/Tests/Stores.antt =====
-- The theorems on the object store at the genesis store of the small world.
use mathlib.Core.List.Perm
use meow.Base.{
  NoRepeats, some, Option, List, suc, length, ◌≡◌, refl, [], ◌∷◌, ok, none, if◌then◌else◌,
}
use meow.BTreeMap.{BTreeMap, get, insert, remove}
use meow.Types.Object.{Object, fresh_object, fresh_module}
use meow.Types.Primitives.{Address, Bytes}
use meow.Vm.Module.{Module}
use meow.Types.Transaction.{Transaction, meow_call, ExecutionResult, success}
use meow.Nakamoto.Store.{
  Store, with_objects, objects, get_object, contains_object, apply_execution_result,
}
use meow.Nakamoto.Store.Valid.{
  IsValid, with_objects-IsValid, apply_execution_result-IsValid, with_objects-objects,
}
use meow.Nakamoto.Store.Order.{filed_at, listed_at, with_objects_lem}
use meow.Nakamoto.Store.Lookup.{get-apply_execution_result, mentions, last_at}
use meow.Nakamoto.Store.Total.{IsApplicable, apply_execution_result_total}
use meow.Nakamoto.Chain.{ChainError}
use meow.Nakamoto.Inputs.{collect_inputs}
use meow.Nakamoto.Inputs.Total.{collect_inputs_total}
use meow.Tests.World.{genesis_objects, coin_at}
use meow.Tests.Mining.{store₀}

-- A result that creates one object, changes one and destroys one.
abbrev result : ExecutionResult
unfolding coin_at
result = record {
  status = success;
  transaction_digest = 1;
  created_objects = coin_at 30 ∷ [];
  changed_objects = coin_at 5 ∷ [];
  destroyed_objects = coin_at 6 ∷ [];
  gas_used = 0;
}

abbrev after : Store
unfolding with_objects genesis_objects coin_at
after =
    with_objects
      (fresh_module 0x20 9 [] ∷ fresh_module 0x10 9 [] ∷ coin_at 30 ∷ coin_at 5 ∷ coin_at 9 ∷ [])

store₀-IsValid : IsValid store₀
unfolding store₀
store₀-IsValid = with_objects-IsValid genesis_objects

after-IsValid : IsValid after
unfolding after
after-IsValid =
    with_objects-IsValid
      (fresh_module 0x20 9 [] ∷ fresh_module 0x10 9 [] ∷ coin_at 30 ∷ coin_at 5 ∷ coin_at 9 ∷ [])

applied : apply_execution_result {E = ChainError} result store₀ ≡ ok after
unfolding apply_execution_result result after store₀ insert remove get with_objects fresh_object
    fresh_module
applied = refl

get-apply_execution_result_example : get_object after 6 ≡ (
    if mentions 6 result.destroyed_objects
    then none
    else last_at 6 result.changed_objects (last_at 6 result.created_objects (get_object store₀ 6)))
get-apply_execution_result_example =
    get-apply_execution_result {E = ChainError} result store₀ after 6 store₀-IsValid.sorted applied

apply_execution_result-IsValid_example : IsValid after
apply_execution_result-IsValid_example =
    apply_execution_result-IsValid {E = ChainError} result store₀ after store₀-IsValid applied

with_objects-objects_example : with_objects (objects store₀) ≡ store₀
with_objects-objects_example = with_objects-objects store₀ store₀-IsValid

applicable : IsApplicable result store₀
unfolding result store₀ insert get with_objects fresh_object fresh_module contains_object coin_at
    genesis_objects
applicable = record {
  created_distinct = (refl, tt);
  created_absent = (refl, tt);
  changed_present = (refl, tt);
  destroyed_distinct = (refl, tt);
  destroyed_present = (refl, tt);
}

apply_execution_result_total_example :
    (t : Store) × (apply_execution_result {E = ChainError} result store₀ ≡ ok t)
apply_execution_result_total_example =
    apply_execution_result_total result store₀ store₀-IsValid.sorted applicable

-- three objects, and the same with the first two swapped
abbrev listed : List Object
listed = coin_at 9 ∷ fresh_module 0x10 9 [] ∷ coin_at 5 ∷ []

abbrev swapped : List Object
swapped = fresh_module 0x10 9 [] ∷ coin_at 9 ∷ coin_at 5 ∷ []

listed-NoRepeats : NoRepeats (filed_at listed)
unfolding coin_at fresh_module
listed-NoRepeats = (refl, (refl, (refl, tt)))

with_objects_lem_example :
    ((a : Address) → get_object (with_objects listed) a ≡ listed_at a listed)
    × (with_objects listed ≡ with_objects swapped)
with_objects_lem_example =
    with_objects_lem listed swapped listed-NoRepeats
      (Perm.swap (fresh_module 0x10 9 []) (coin_at 9) (coin_at 5 ∷ []))

-- Two modules that import each other: the content of each is the address of the other.
abbrev decode_import : Bytes → Option Module
decode_import [] = none
decode_import (b ∷ bs) =
    some (record { name = "m"; imports = b ∷ []; structs = []; functions = [] })

abbrev cycle : BTreeMap Object
unfolding fresh_module
cycle = (1, fresh_module 1 9 (2 ∷ [])) ∷ (2, fresh_module 2 9 (1 ∷ [])) ∷ []

abbrev call_of : Address → Transaction
call_of a = record {
  sender = 2;
  gas_coin = record { address = 7; version = 1; digest = 0 };
  type_ = meow_call (record { module_ = a; function = "f"; arguments = [] });
}

collect_inputs-cycle :
    collect_inputs decode_import (λ a. get a cycle) 3 (call_of 1)
    ≡ some (fresh_module 2 9 (1 ∷ []) ∷ fresh_module 1 9 (2 ∷ []) ∷ [])
unfolding collect_inputs cycle get fresh_module
collect_inputs-cycle = refl

collect_inputs_total_example :
    (os : List Object) × (collect_inputs decode_import
        (λ a. get a cycle)
        (suc (length cycle))
        (call_of 1)
      ≡ some os)
collect_inputs_total_example = collect_inputs_total decode_import cycle (call_of 1)
