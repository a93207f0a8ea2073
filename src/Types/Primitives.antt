-- ===== src/Types/Primitives.antt =====
-- crates/meow-types: addresses and digests (address/mod.rs, digest/mod.rs), which are 32 bytes read
-- as a big-endian number, so that the derived order on byte arrays is the order of numbers.
use meow.Base.{ℕ, zero, suc, ◌/◌, ◌%◌, ◌*◌, ◌+◌, ◌^◌, List, [], ◌∷◌}

abbrev pub Address : Type 0
Address = ℕ

abbrev pub Digest : Type 0
Digest = ℕ

abbrev pub Bytes : Type 0
Bytes = List ℕ

abbrev pub digest_length : ℕ
digest_length = 32

-- `Address::ZERO`, `Digest::ZERO`
abbrev pub zero_address : Address
zero_address = 0

abbrev pub zero_digest : Digest
zero_digest = 0

-- `Address::suffixed`: the suffix in the last two bytes.
unfoldable pub suffixed : ℕ → Address
suffixed suffix = suffix / 256 * 256 + suffix % 256

-- The low `n` bytes of a number, the most significant first.
unfoldable pub bytes_of : ℕ → ℕ → Bytes
bytes_of zero d = []
bytes_of (suc n) d = d / 256 ^ n % 256 ∷ bytes_of n d

-- `digest.as_ref()`
unfoldable pub digest_bytes : Digest → Bytes
unfolding bytes_of
digest_bytes d = bytes_of digest_length d
