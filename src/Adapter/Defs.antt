-- ===== src/Adapter/Defs.antt =====
-- What the adapter takes from other packages, its failures, and the conversions between objects and
-- values: crates/meow-vm-types/src/convert/mod.rs, crates/meow-types/src/object/object_conversion and
-- src/system_framework.
use Prim.Native.Char.{Char, code}
use Prim.Native.String.{String, len, [] as nothing, ◌∷◌ as cons_char}
use text.Mathlib.Text.{◌==◌ as text_eq}
use meow.Base.{
  ℕ, zero, suc, ◌-◌, ◌/◌, ◌%◌, Bool, true, false, ◌&&◌, ◌||◌, Option, none, some, [], ◌∷◌, ◌++◌,
  ◌==◌, leb, if◌then◌else◌, Outcome, ok, err, ◌>>=◌, ok_or, guard, ◌>>◌, expect,
}
use meow.Types.Primitives.{Address, Digest, Bytes, digest_bytes}
use meow.Types.Object.{Object, ObjectOwner, ObjectVersion, ObjectType}
use meow.External.{External}
use meow.Vm.Types.{VmType, Value, Fields, bool, u64, address, str, void, struct, tuple, end, field}
use meow.Vm.Ref.{HexCodec, parse_module_ref, qualify}
use meow.Vm.Errors.{VmError}
use meow.Vm.Values.{field_of, as_u64}

-- The messages of failed executions, as templates and arguments.
pub data Failure : Type 0 where
  module_not_found module_undecodable missing_dependency dependency_undecodable : Address → Failure
  function_not_found returns_struct : String → Failure
  argument_count : ℕ → ℕ → Failure
  argument : ℕ → Failure → Failure
  input_not_found module_argument not_owned at_max_version : Address → Failure
  argument_version : Address → ObjectVersion → ObjectVersion → Failure
  argument_digest : Address → Digest → Digest → Failure
  object_undecodable : Failure
  raw_undecodable raw_of_type : VmType → Failure
  not_consumed not_accounted : Address → Failure
  module_size : ℕ → ℕ → Failure
  published_undecodable : Failure
  dep_resolution : Failure → Failure
  bytecode_verification adapter_verification : Failure
  of_vm : VmError → Failure

-- BCS at the types that the adapter decodes and encodes, Blake2b-256 of some bytes, the numbers that the
-- random generator yields after a seed, and the text of a message.
pub record Platform : Type 0 where
  pub hex : HexCodec
  pub decode_fields : Bytes → Option Fields
  pub encode_fields : Fields → Option Bytes
  pub encode_bool : Bool → Bytes
  pub decode_bool : Bytes → Option Bool
  pub encode_str : String → Bytes
  pub decode_str : Bytes → Option String
  pub hash_bytes : Bytes → Digest
  pub compute_seed : Bytes → Digest
  pub rand_at : Digest → ℕ → ℕ
  pub render : Failure → String

abbrev pub id_type_name : String
id_type_name = "@0x0000000000000000000000000000000000000000000000000000000000000010::Id"

abbrev pub id_field_name : String
id_field_name = "id"

abbrev pub balance_field_name : String
balance_field_name = "balance"

abbrev pub coin_object_name : String
coin_object_name = "MeowCoin"

-- `Identifier::new` accepts a text: a letter or `_` and then letters, digits and `_`.
unfoldable pub is_letter : Char → Bool
is_letter c =
    (leb 65 (code c) && leb (code c) 90) || (leb 97 (code c) && leb (code c) 122) || (code c == 95)

unfoldable pub is_letter_or_digit : Char → Bool
unfolding is_letter
is_letter_or_digit c = is_letter c || (leb 48 (code c) && leb (code c) 57)

unfoldable pub all_letters_or_digits : String → Bool
all_letters_or_digits nothing = true
all_letters_or_digits (cons_char c s) = is_letter_or_digit c && all_letters_or_digits s

-- `MeowObjectId` as a value
unfoldable pub id_value : Address → Value
id_value a = struct id_type_name (field "inner" (address a) end)

-- The little-endian bytes of a number, `n` of them.
unfoldable pub le_bytes : ℕ → ℕ → Bytes
le_bytes zero k = []
le_bytes (suc n) k = k % 256 ∷ le_bytes n (k / 256)

-- `is_meow_coin_object`
unfoldable pub is_coin_type : ObjectType → Bool
is_coin_type ObjectType.module_ = false
is_coin_type (ObjectType.object decl) = (decl.module_ == 0x20) && text_eq decl.name coin_object_name

unfoldable pub is_meow_coin_object : Object → Bool
unfolding is_coin_type
is_meow_coin_object o = is_coin_type o.type_

-- `find` on the fields of an object's content
unfoldable pub balance_in : Fields → Option ℕ
balance_in end = none
balance_in (field n v fs) = if text_eq n balance_field_name then as_u64 v else balance_in fs

-- The first balance, less what was spent; a balance that is no number is refused.
unfoldable pub deducted : ℕ → Fields → Option Fields
deducted spent end = some end
deducted spent (field n v fs) =
    let rest = deducted spent fs in
    if text_eq n balance_field_name
    then elim (as_u64 v) [ some b ↦ some (field n (u64 (b - spent)) fs) | none ↦ none ]
    else elim rest [ some gs ↦ some (field n v gs) | none ↦ none ]

-- `filter(|(n, _)| n != "id")`
unfoldable pub without_id : Fields → Fields
without_id end = end
without_id (field n v fs) =
    let rest = without_id fs in if text_eq n id_field_name then rest else field n v rest

unfoldable pub is_module : ObjectType → Bool
is_module ObjectType.module_ = true
is_module (ObjectType.object decl) = false

abbrev pub and_then {ℓ κ} : {A : Type ℓ} {B : Type κ} → Option A → (A → Option B) → Option B
and_then none f = none
and_then (some a) f = f a

module _ (x : External) (y : Platform) where
  -- `Address::derive`
  unfoldable pub derive : Digest → ℕ → ℕ → Address
  unfolding le_bytes
  derive digest tag number = y.hash_bytes (tag ∷ (digest_bytes digest ++ le_bytes 8 number))

  -- `bcs::to_bytes(&ValueToRust(value))`
  unfoldable mutual
    pub value_bytes : Value → Option Bytes
    value_bytes (bool b) = some (y.encode_bool b)
    value_bytes (u64 n) = some (x.encode_u64 n)
    value_bytes (address a) = some (x.encode_address a)
    value_bytes (str s) = some (y.encode_str s)
    value_bytes void = none
    value_bytes (tuple vs) = none
    value_bytes (struct name fields) = fields_bytes fields

    pub fields_bytes : Fields → Option Bytes
    fields_bytes end = some []
    fields_bytes (field n v fs) =
        and_then (value_bytes v) (λ b. and_then (fields_bytes fs) (λ c. some (b ++ c)))

  -- `value_to_rust::<MeowObjectId>`
  unfoldable pub value_to_id : Value → Option Address
  unfolding value_bytes
  value_to_id v = and_then (value_bytes v) x.decode_address

  -- `object_address`
  unfoldable pub object_address : Value → Option Address
  unfolding value_to_id
  object_address v = and_then (field_of id_field_name v) value_to_id

  -- `balance_from_object`
  unfoldable pub balance_from_object : Object → Option ℕ
  unfolding balance_in
  balance_from_object o =
      if is_meow_coin_object o then and_then (y.decode_fields o.content) balance_in else none

  unfoldable pub deduct_gas : Object → ℕ → Option Bytes
  unfolding deducted
  deduct_gas o spent =
      if is_meow_coin_object o
      then and_then (y.decode_fields o.content) (λ fs. and_then (deducted spent fs) y.encode_fields)
      else none

  -- `object_to_vm_object_value`, whose failures carry the text of a decoder
  object_value_as : Object → ObjectType → Option Value
  object_value_as o ObjectType.module_ = none
  object_value_as o (ObjectType.object decl) = and_then (y.decode_fields o.content) (λ fs.
      some (
        struct (qualify y.hex decl.module_ decl.name)
          (field id_field_name (id_value o.address) fs)))

  unfoldable pub object_to_vm_object_value : Object → Option Value
  unfolding object_value_as
  object_to_vm_object_value o = object_value_as o o.type_

-- `is_valid_identifier`, with the compiler's limit of 128 bytes
abbrev pub max_identifier_len : ℕ
max_identifier_len = 128

unfoldable pub is_valid_identifier : String → Bool
unfolding is_letter all_letters_or_digits
is_valid_identifier nothing = false
is_valid_identifier (cons_char c s) =
    leb (len (cons_char c s)) max_identifier_len && (is_letter c && all_letters_or_digits s)

module _ (x : External) (y : Platform) where
  -- `vm_object_value_to_object`: `none` where it returns an error, and a panic where the fields cannot
  -- be encoded.
  abbrev pub object_of :
      Value
      → Fields
      → ObjectOwner
      → Digest
      → ObjectVersion
      → Option (Address × String)
      → Outcome (Unit {0}) Object
  object_of v fields owner digest version none = err tt
  object_of v fields owner digest version (some (module_addr, name)) = do
    guard (is_valid_identifier name) tt
    a ← ok_or (object_address x y v) tt
    content ← expect (y.encode_fields (without_id fields))
    ok (record {
      address = a;
      owner = owner;
      transaction = digest;
      version = version;
      type_ = ObjectType.object (record { module_ = module_addr; name = name });
      content = content;
    })

  unfoldable pub vm_object_value_to_object :
      Value → ObjectOwner → Digest → ObjectVersion → Outcome (Unit {0}) Object
  vm_object_value_to_object (struct name fields) owner digest version =
      object_of (struct name fields) fields owner digest version (parse_module_ref y.hex name)
  vm_object_value_to_object v owner digest version = err tt
