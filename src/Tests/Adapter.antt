-- ===== src/Tests/Adapter.antt =====
-- A module published by the executor, and the theorems on the adapter applied at that run.
use text.Mathlib.Text.{◌==◌ as text_eq}
use text.Mathlib.TextEquality.{eq_iff}
use mathlib.Core.Path.{subst}
use meow.Base.{
  ℕ, ◌+◌, ◌≤◌, ◌≡◌, refl, ap, sym, ◌↔◌, Bool, true, false, Option, none, some, List, [], ◌∷◌, ok,
  if◌then◌else◌, leb, leb→le, Bool-cases, inl, inr,
}
use meow.Types.Primitives.{Address, Bytes}
use meow.Types.Object.{
  Object, ObjectRef, ObjectOwner, ObjectType, fresh_module, owner_address, is_address_owned, next,
}
use meow.Types.Transaction.{
  Transaction, meow_module_publish, ExecutionResult, success, new_result, with_gas_used,
}
use meow.External.{External}
use meow.Executor.{ExternalContext}
use meow.Vm.Types.{Value, u64, struct, address, Fields, field, end}
use meow.Vm.Values.{as_u64, field_of, find_field}
use meow.Vm.Module.{Module}
use meow.Vm.Ref.{parse_module_ref, strip_at, split_once, from_str, of_bytes}
use meow.Vm.Gas.{charge, saturating_add, max_u64, new_meter}
use meow.Adapter.Defs.{
  Platform, and_then, balance_from_object, is_meow_coin_object, balance_in, derive, deduct_gas,
  object_address, vm_object_value_to_object, is_module, is_valid_identifier, without_id,
}
use meow.Adapter.Context.{Context}
use meow.Adapter.Resolvers.{resolve_gas_coin_object, resolve_dep_modules}
use meow.Adapter.Effects.{apply_gas_spending, usable, collect_object_effects}
use meow.Adapter.Coins.{IsGasCoin, resolve_gas_coin_object_iff, FieldsLaw, BalancesLaw}
use meow.Adapter.Versions.{IsEffects, collect_object_effects_lem}
use meow.Adapter.Spent.{IsCharged, execute_lem}
use meow.Adapter.Execute.{Verifier, execute}
use meow.Tests.World.{world}
use meow.Tests.Machine.{codec}

-- A codec for contents that are one balance.
abbrev encode_balance : Bool → ℕ → Option Bytes
encode_balance true n = if leb n max_u64 then some (n ∷ []) else none
encode_balance false n = none

abbrev encode_one : Fields → Option Bytes
encode_one (field name (u64 n) end) = encode_balance (text_eq name "balance") n
encode_one fs = none

abbrev decode_one : Bytes → Option Fields
decode_one (n ∷ []) = if leb n max_u64 then some (field "balance" (u64 n) end) else none
decode_one bytes = none

abbrev platform : Platform
platform = record {
  hex = codec;
  decode_fields = decode_one;
  encode_fields = encode_one;
  encode_bool = λ b. if b then 1 ∷ [] else 0 ∷ [];
  decode_bool = λ b. none;
  encode_str = λ s. [];
  decode_str = λ b. none;
  hash_bytes = λ b. 77;
  compute_seed = λ b. 5;
  rand_at = λ seed k. seed + k;
  render = λ f. "failed";
}

abbrev empty_module : Module
empty_module = record { name = "m"; imports = []; structs = []; functions = [] }

abbrev chain : External
chain = record world { decode_module = λ b. some empty_module }

abbrev accept : Verifier
accept = λ m deps. ok tt

abbrev purse : Object
purse = record {
  address = 9;
  owner = ObjectOwner.address 2;
  transaction = 1;
  version = 4;
  type_ = ObjectType.object (record { module_ = 0x20; name = "MeowCoin" });
  content = 5000 ∷ [];
}

abbrev purse_ref : ObjectRef
purse_ref = record { address = 9; version = 4; digest = 109 }

abbrev publish : Transaction
publish = record { sender = 2; gas_coin = purse_ref; type_ = meow_module_publish (1 ∷ 2 ∷ 3 ∷ []) }

abbrev block : ExternalContext
block = record { rand_seed = 3; timestamp = 8 }

abbrev published : ExecutionResult
published = record {
  status = success;
  transaction_digest = 1011;
  created_objects =
      record {
        address = 77;
        owner = ObjectOwner.immutable;
        transaction = 1011;
        version = 1;
        type_ = ObjectType.module_;
        content = 1 ∷ 2 ∷ 3 ∷ [];
      }
      ∷ [];
  changed_objects = record purse { transaction = 1011; version = 5; content = 3970 ∷ [] } ∷ [];
  destroyed_objects = [];
  gas_used = 1030;
}

publishes : execute chain platform accept 5 publish (purse ∷ []) block ≡ ok published
unfolding execute resolve_gas_coin_object owner_address balance_from_object max_u64 as_u64 charge
    new_meter saturating_add resolve_dep_modules apply_gas_spending deduct_gas next with_gas_used
    new_result fresh_module derive
publishes = refl

fields_law : FieldsLaw chain platform
fields_law (field name (u64 n) end) bytes h = elim (Bool-cases (text_eq name "balance")) [
  | inr f ↦ let gone : none ≡ some bytes = rw f at h in cc gone
  | inl t ↦ elim (Bool-cases (leb n max_u64)) [
    | inr f ↦ let gone : none ≡ some bytes = rw (t, f) at h in cc gone
    | inl l ↦
        let same : some (n ∷ []) ≡ some bytes = rw (t, l) at h in
        let same' : n ∷ [] ≡ bytes = cc same in
        let name' : name ≡ "balance" = (eq_iff name "balance").0 t in
        subst (λ b. decode_one b ≡ some (field name (u64 n) end)) same'
          (rw l (ap (λ m. some (field m (u64 n) end)) (sym name')))
  ]
]
fields_law fs bytes h = cc h

small_content :
    (bytes : Bytes) (b : ℕ) → and_then (decode_one bytes) balance_in ≡ some b → b ≤ max_u64
unfolding balance_in as_u64
small_content [] b h = cc h
small_content (n ∷ []) b h = elim (Bool-cases (leb n max_u64)) [
  | inr f ↦ let gone : none ≡ some b = rw f at h in cc gone
  | inl l ↦
      let same : some n ≡ some b = rw l at h in
      let same' : n ≡ b = cc same in subst (λ b. b ≤ max_u64) same' (leb→le n max_u64 l)
]
small_content (m ∷ n ∷ bytes) b h = cc h

balances_law : BalancesLaw chain platform
unfolding balance_from_object
balances_law o b h = elim (Bool-cases (is_meow_coin_object o)) [
  | inr f ↦ let gone : none ≡ some b = rw f at h in cc gone
  | inl t ↦
      let content : and_then (decode_one o.content) balance_in ≡ some b = rw t at h in
      small_content o.content b content
]

execute_lem_example : IsCharged chain platform accept 5 publish (purse ∷ []) published
execute_lem_example =
    execute_lem chain platform accept 5 publish (purse ∷ []) block published fields_law balances_law
      publishes

resolve_gas_coin_object_iff_example :
    (resolve_gas_coin_object chain platform purse_ref 2 (purse ∷ []) ≡ ok purse)
    ↔ IsGasCoin chain platform purse_ref 2 (purse ∷ []) purse
resolve_gas_coin_object_iff_example =
    resolve_gas_coin_object_iff chain platform purse_ref 2 (purse ∷ []) purse

-- An input that changes its owner, and a fresh object.
abbrev purse_value : Address → ℕ → Value
purse_value a n = struct "@0x01::C" (
    field "id"
      (struct "@0x0000000000000000000000000000000000000000000000000000000000000010::Id"
        (field "inner" (address a) end))
      (field "balance" (u64 n) end))

abbrev effects_context : Context
effects_context = record {
  sender = 2;
  tx_digest = 6;
  id_counter = 1;
  fresh_ids = 77 ∷ [];
  transfers = (purse_value 9 10, 3) ∷ (purse_value 77 20, 4) ∷ [];
  destroyed = [];
  seed = 0;
  draws = 0;
  timestamp = 0;
}

abbrev object_after : Address → Address → ℕ → ℕ → Object
object_after a owner version n = record {
  address = a;
  owner = ObjectOwner.address owner;
  transaction = 6;
  version = version;
  type_ = ObjectType.object (record { module_ = 1; name = "C" });
  content = n ∷ [];
}

abbrev effects : List Object × (List Object × List Object)
effects = (object_after 77 4 1 20 ∷ [], (object_after 9 3 5 10 ∷ [], []))

collects : collect_object_effects chain platform effects_context (purse ∷ []) 6 ≡ ok effects
unfolding collect_object_effects usable is_address_owned is_module object_address field_of
    find_field next vm_object_value_to_object parse_module_ref strip_at split_once from_str
    is_valid_identifier without_id max_u64 of_bytes
collects = refl

collect_object_effects_lem_example : IsEffects chain platform effects_context (purse ∷ []) 6 effects
collect_object_effects_lem_example =
    collect_object_effects_lem chain platform effects_context (purse ∷ []) 6 effects collects
