-- ===== src/Vm/Ref.antt =====
-- crates/meow-vm-types/src/module_ref.rs and address/mod.rs: references `@0xHEX::name` to a name of
-- another module. Hexadecimal text is read and written by the package prefix_hex, whose two functions
-- are the record `HexCodec`.
use Prim.Native.String.{◌++◌ as join, slice, len}
use text.Mathlib.Text.{starts_with, find?}
use meow.Base.{ℕ, ◌+◌, ◌*◌, String, Option, none, some, [], ◌∷◌, leb, length, if◌then◌else◌}
use meow.Types.Primitives.{Address, Bytes, bytes_of}

pub record HexCodec : Type 0 where
  pub decode_hex : String → Option Bytes
  pub encode_hex : Bytes → String

abbrev pub address_length : ℕ
address_length = 32

-- The big-endian number of some bytes; padding bytes on the left with zeros does not change it.
unfoldable pub of_bytes : ℕ → Bytes → Address
of_bytes acc [] = acc
of_bytes acc (b ∷ bs) = of_bytes (acc * 256 + b) bs

-- `strip_prefix('@')` and `split_once("::")`
unfoldable pub strip_at : String → Option String
strip_at s = if starts_with s "@" then some (slice s 1 (len s)) else none

split_at : String → Option ℕ → Option (String × String)
split_at s none = none
split_at s (some i) = some (slice s 0 i, slice s (i + 2) (len s))

unfoldable pub split_once : String → Option (String × String)
unfolding split_at
split_once s = split_at s (find? s "::")

module _ (hex : HexCodec) where
  -- `Address::from_str`
  address_of : Option Bytes → Option Address
  address_of none = none
  address_of (some bytes) =
      if leb (length bytes) address_length then some (of_bytes 0 bytes) else none

  unfoldable pub from_str : String → Option Address
  unfolding address_of
  from_str s = address_of (hex.decode_hex s)

  -- `parse_module_ref`, after `strip_prefix` and after `split_once`
  named : String → Option Address → Option (Address × String)
  named name none = none
  named name (some address) = some (address, name)

  resolved : Option (String × String) → Option (Address × String)
  resolved none = none
  resolved (some (hex_part, name)) = named name (from_str hex_part)

  stripped : Option String → Option (Address × String)
  stripped none = none
  stripped (some rest) = resolved (split_once rest)

  unfoldable pub parse_module_ref : String → Option (Address × String)
  unfolding stripped resolved named
  parse_module_ref s = stripped (strip_at s)

  -- `Display` of an address, and `qualify`
  unfoldable pub display : Address → String
  display a = hex.encode_hex (bytes_of address_length a)

  unfoldable pub qualify : Address → String → String
  qualify a name = join "@" (join (display a) (join "::" name))
