-- ===== src/Nakamoto/Roots.antt =====
-- crates/meow-nakamoto/src/roots.rs and the hashes of crates/meow-nakamoto-types/src: the hashes
-- that a block header commits to, the block and mining hashes, and the proof-of-work test.
use meow.Base.{ℕ, ◌+◌, Bool, List, [], ◌∷◌, map, ltb, leb, if◌then◌else◌}
use meow.Types.Primitives.{Digest, Bytes, digest_bytes}
use meow.Types.Transaction.{SignedTransaction}
use meow.External.{External, digest_of}
use meow.Nakamoto.Header.{BlockHeader, Block, mining_header}
use meow.Nakamoto.Store.{Store, objects}

module _ (x : External) where
  open x use {compute_objects, compute_digests, compute_header, compute_mining_header}

  unfoldable pub compute_state_root : Store → Digest
  compute_state_root s = compute_objects (objects s)

  abbrev pub digests : List SignedTransaction → List Digest
  digests = map (digest_of x)

  unfoldable pub compute_transactions_root : List SignedTransaction → Digest
  compute_transactions_root ts = compute_digests (digests ts)

  -- `BlockHeader::hash`, `Block::hash`
  abbrev pub header_hash : BlockHeader → Digest
  header_hash = compute_header

  abbrev pub block_hash : Block → Digest
  block_hash b = header_hash b.header

  -- `BlockHeader::mining_hash`
  unfoldable pub mining_hash : BlockHeader → Digest
  mining_hash h = compute_mining_header (mining_header h)

-- `u8::leading_zeros`
unfoldable pub byte_leading_zeros : ℕ → ℕ
byte_leading_zeros b =
    if ltb b 1
    then 8
    else if ltb b 2
    then 7
    else if ltb b 4
    then 6
    else if ltb b 8
    then 5
    else if ltb b 16
    then 4
    else if ltb b 32
    then 3
    else if ltb b 64
    then 2
    else if ltb b 128
    then 1
    else 0

-- the loop of `leading_zeros`, which stops at the first byte that is not zero
unfoldable pub count_zeros : Bytes → ℕ
unfolding byte_leading_zeros
count_zeros [] = 0
count_zeros (b ∷ bs) =
    let rest = count_zeros bs in
    if ltb (byte_leading_zeros b) 8 then byte_leading_zeros b else byte_leading_zeros b + rest

unfoldable pub leading_zeros : Digest → ℕ
unfolding count_zeros digest_bytes
leading_zeros d = count_zeros (digest_bytes d)

-- `BlockHeader::meets_difficulty`
unfoldable pub meets_difficulty : External → BlockHeader → ℕ → Bool
unfolding leading_zeros
meets_difficulty x h difficulty = leb difficulty (leading_zeros (mining_hash x h))
