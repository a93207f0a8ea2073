-- ===== src/Types/Object.antt =====
-- crates/meow-types/src/object: on-chain objects, their owner, version, type and reference.
use meow.Base.{ℕ, ◌+◌, ◌-◌, ◌^◌, String, Bool, true, false, Option, none, some, ◌==◌, if◌then◌else◌}
use meow.Types.Primitives.{Address, Digest, Bytes}

abbrev pub ObjectVersion : Type 0
ObjectVersion = ℕ

-- `ObjectVersion::ZERO`, `ONE` and `MAX`
abbrev pub version_zero : ObjectVersion
version_zero = 0

abbrev pub version_one : ObjectVersion
version_one = 1

abbrev pub version_max : ObjectVersion
version_max = 2 ^ 64 - 1

-- `ObjectVersion::next`
unfoldable pub next : ObjectVersion → Option ObjectVersion
next v = if v == version_max then none else some (v + 1)

pub data ObjectOwner : Type 0 where
  address : Address → ObjectOwner
  immutable : ObjectOwner

-- `ObjectOwner::address`
unfoldable pub owner_address : ObjectOwner → Option Address
owner_address (ObjectOwner.address a) = some a
owner_address immutable = none

unfoldable pub is_address_owned : ObjectOwner → Bool
is_address_owned (ObjectOwner.address a) = true
is_address_owned immutable = false

unfoldable pub is_immutable : ObjectOwner → Bool
is_immutable (ObjectOwner.address a) = false
is_immutable immutable = true

pub record ObjectDeclRef : Type 0 where
  pub module_ : Address
  pub name : String

pub data ObjectType : Type 0 where
  module_ : ObjectType
  object : ObjectDeclRef → ObjectType

pub record Object : Type 0 where
  pub address : Address
  pub owner : ObjectOwner
  pub transaction : Digest
  pub version : ObjectVersion
  pub type_ : ObjectType
  pub content : Bytes

pub record ObjectRef : Type 0 where
  pub address : Address
  pub version : ObjectVersion
  pub digest : Digest

-- `Object::fresh_object`, `Object::fresh_module`
unfoldable pub fresh_object : Address → Address → Digest → ObjectDeclRef → Bytes → Object
fresh_object a o t decl c = record {
  address = a;
  owner = ObjectOwner.address o;
  transaction = t;
  version = version_one;
  type_ = object decl;
  content = c;
}

unfoldable pub fresh_module : Address → Digest → Bytes → Object
fresh_module a t c = record {
  address = a;
  owner = immutable;
  transaction = t;
  version = version_one;
  type_ = ObjectType.module_;
  content = c;
}
