-- ===== src/Adapter/Context.antt =====
-- crates/meow-vm-adapter/src/context.rs and natives.rs: the side effects of one execution, and the
-- native functions that record them. A random generator is its seed and the count of the numbers drawn.
use Prim.Native.String.{◌++◌ as join}
use meow.Base.{ℕ, ◌+◌, ◌%◌, ◌^◌, String, Option, none, some, List, [], ◌∷◌, ◌++◌}
use meow.Types.Primitives.{Address, Digest, digest_bytes}
use meow.External.{External}
use meow.Vm.Types.{VmType, Value, u64, address}
use meow.Vm.Natives.{
  NativeFnEntry, NativeParam, NativeResult, NativeSig, concrete, local_struct, returned, error,
}
use meow.Vm.Values.{as_address, type_name}
use meow.Adapter.Defs.{Platform, id_type_name, id_value, derive, object_address, value_to_id}

pub record Context : Type 0 where
  pub sender : Address
  pub tx_digest : Digest
  pub id_counter : ℕ
  pub fresh_ids : List Address
  pub transfers : List (Value × Address)
  pub destroyed : List Address
  pub seed : Digest
  pub draws : ℕ
  pub timestamp : ℕ

abbrev pub id_type : VmType
id_type = VmType.struct id_type_name

module _ (x : External) (y : Platform) where
  unfoldable pub new_execution : Address → Digest → Digest → ℕ → Context
  new_execution sender digest rand_seed timestamp = record {
    sender = sender;
    tx_digest = digest;
    id_counter = 0;
    fresh_ids = [];
    transfers = [];
    destroyed = [];
    seed = y.compute_seed (digest_bytes digest ++ digest_bytes rand_seed);
    draws = 0;
    timestamp = timestamp;
  }

  unfoldable pub next_fresh_id : Context → Address × Context
  next_fresh_id c =
      let a = derive x y c.tx_digest 0 c.id_counter in
      (
        a,
        record c { fresh_ids = c.fresh_ids ++ (a ∷ []); id_counter = (c.id_counter + 1) % 2 ^ 64 },
      )

  unfoldable pub transfer : Value → Address → Context → Context
  transfer v owner c = record c { transfers = c.transfers ++ ((v, owner) ∷ []) }

  unfoldable pub destroy : Address → Context → Context
  destroy id c = record c { destroyed = c.destroyed ++ (id ∷ []) }

  unfoldable pub next_rand : Context → ℕ × Context
  next_rand c = (y.rand_at c.seed c.draws, record c { draws = c.draws + 1 })

  -- The closures of `build_natives`. An `unwrap` of an argument that is not there is `none`.
  unfoldable pub fresh_id_native : List Value → Context → Option NativeResult × Context
  unfolding next_fresh_id id_value
  fresh_id_native args c = let (a, d) = next_fresh_id c in (some (returned (some (id_value a))), d)

  abbrev transfer_to :
      Value → Value → Option Address → Option Address → Context → Option NativeResult × Context
  transfer_to v w none o c =
      (some (error (join "meow_vm_transfer: expected address for owner, got " (type_name w))), c)
  transfer_to v w (some owner) none c = (
    some (
        error (
          join "meow_vm_transfer: expected struct with id: meow_object::Id as first field, got "
            (type_name v))),
    c,
  )
  transfer_to v w (some owner) (some a) c = (some (returned none), transfer v owner c)

  -- Called with its two arguments, the object and the owner.
  unfoldable pub transfer_native : List Value → Context → Option NativeResult × Context
  transfer_native (v ∷ owner ∷ []) c =
      transfer_to v owner (as_address owner) (object_address x y v) c
  transfer_native args c = (none, c)

  abbrev destroy_id : Value → Option Address → Context → Option NativeResult × Context
  destroy_id v none c = (
    some (
        error (
          join "meow_vm_destroy: expected meow_object::Id struct with inner: address, got "
            (type_name v))),
    c,
  )
  destroy_id v (some id) c = (some (returned none), destroy id c)

  unfoldable pub destroy_native : List Value → Context → Option NativeResult × Context
  destroy_native [] c = (none, c)
  destroy_native (v ∷ args) c = destroy_id v (value_to_id x y v) c

  unfoldable pub sender_native : List Value → Context → Option NativeResult × Context
  sender_native args c = (some (returned (some (address c.sender))), c)

  unfoldable pub rand_native : List Value → Context → Option NativeResult × Context
  unfolding next_rand
  rand_native args c = let (n, d) = next_rand c in (some (returned (some (u64 n))), d)

  unfoldable pub timestamp_native : List Value → Context → Option NativeResult × Context
  timestamp_native args c = (some (returned (some (u64 c.timestamp))), c)

  unfoldable pub entry :
      String
      → List NativeParam
      → Option VmType
      → ℕ
      → (List Value → Context → Option NativeResult × Context)
      → NativeFnEntry Context
  entry name params ret cost func = record {
    name = name;
    params = params;
    return_type = ret;
    gas_cost = cost;
    func = func;
  }

  unfoldable pub build_natives : List (NativeFnEntry Context)
  unfolding entry
  build_natives =
      entry "meow_vm_fresh_id" [] (some id_type) 10 fresh_id_native
      ∷ entry "meow_vm_transfer" (local_struct ∷ concrete VmType.address ∷ []) none 20
          transfer_native
      ∷ entry "meow_vm_destroy" (concrete id_type ∷ []) none 10 destroy_native
      ∷ entry "meow_vm_sender" [] (some VmType.address) 1 sender_native
      ∷ entry "meow_vm_rand" [] (some VmType.u64) 10 rand_native
      ∷ entry "meow_vm_timestamp" [] (some VmType.u64) 1 timestamp_native
      ∷ []

-- `native_sigs_with_id_type`, for the verifier and for the compiler
unfoldable pub native_sigs_with_id_type : String → List NativeSig
native_sigs_with_id_type name =
    record { name = "meow_vm_fresh_id"; params = []; return_type = some (VmType.struct name) }
    ∷ record {
      name = "meow_vm_transfer";
      params = local_struct ∷ concrete VmType.address ∷ [];
      return_type = none;
    }
    ∷ record {
      name = "meow_vm_destroy";
      params = concrete (VmType.struct name) ∷ [];
      return_type = none;
    }
    ∷ record { name = "meow_vm_sender"; params = []; return_type = some VmType.address }
    ∷ record { name = "meow_vm_rand"; params = []; return_type = some VmType.u64 }
    ∷ record { name = "meow_vm_timestamp"; params = []; return_type = some VmType.u64 }
    ∷ []

unfoldable pub adapter_native_sigs : List NativeSig
unfolding native_sigs_with_id_type
adapter_native_sigs = native_sigs_with_id_type id_type_name

unfoldable pub adapter_native_sigs_for_compiler : List NativeSig
unfolding native_sigs_with_id_type
adapter_native_sigs_for_compiler = native_sigs_with_id_type "meow_object::Id"
