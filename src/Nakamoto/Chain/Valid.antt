-- ===== src/Nakamoto/Chain/Valid.antt =====
-- The invariant of the chain state, and that a chain anchored at one block has it.
use meow.Base.{
  ℕ, ◌≤◌, ◌<◌, ◌≡◌, refl, sym, ◌∙◌, ap, true, none, some, [], ◌==◌, ==-refl, if◌then◌else◌, ok,
  arith,
}
use mathlib.Core.Path.{subst, subst₂}
use meow.BTreeMap.{get, insert, contains_key, IsSorted}
use meow.BTreeMap.Laws.{insert-IsSorted}
use meow.Types.Primitives.{Digest}
use meow.External.{External}
use meow.Nakamoto.Header.{Block, genesis}
use meow.Nakamoto.Store.{Store}
use meow.Nakamoto.Store.Valid
use meow.Nakamoto.Roots.{block_hash, compute_state_root}
use meow.Nakamoto.Chain.State.{ChainError, ChainState, anchored, new, head_block}
use meow.Nakamoto.Chain.Apply.{from_snapshot}

get_single :
    {V : Type 0} (d k : Digest) (v : V) → get d (insert k v []) ≡ (if d == k then some v else none)
unfolding get insert
get_single d k v = refl

get_single-eq :
    {V : Type 0} (d k : Digest) (v w : V) → get d (insert k v []) ≡ some w → (d ≡ k) × (w ≡ v)
get_single-eq d k v w h = ground (arith, get_single d k v)

module _ (x : External) where
  -- Blocks and snapshots are held for the same hashes; each block is filed under its own hash; each
  -- snapshot is a valid store, and the one that its block's state root commits to, but at height 0;
  -- the head is held, and no block is higher.
  pub record IsValid (c : ChainState) : Type 0 where
    pub blocks_sorted : IsSorted c.blocks
    pub snapshots_sorted : IsSorted c.snapshots
    pub same_keys : (d : Digest) → contains_key d c.snapshots ≡ contains_key d c.blocks
    pub filed : (d : Digest) (b : Block) → get d c.blocks ≡ some b → block_hash x b ≡ d
    pub stores_valid : (d : Digest) (s : Store) → get d c.snapshots ≡ some s → Valid.IsValid s
    pub committed :
        (d : Digest) (b : Block) (s : Store)
        → get d c.blocks ≡ some b
        → get d c.snapshots ≡ some s
        → 0 < b.header.height
        → compute_state_root x s ≡ b.header.state_root
    pub head_held : contains_key c.head c.blocks ≡ true
    pub head_highest :
        (d : Digest) (b h : Block)
        → get d c.blocks ≡ some b
        → get c.head c.blocks ≡ some h
        → b.header.height ≤ h.header.height

  anchored-IsValid :
      (b : Block) (s : Store) (difficulty depth : ℕ)
      → Valid.IsValid s
      → (0 < b.header.height → compute_state_root x s ≡ b.header.state_root)
      → IsValid (anchored (block_hash x b) b s difficulty depth)
  unfolding anchored
  anchored-IsValid b s difficulty depth v r =
      let k = block_hash x b in
      record {
        blocks_sorted = insert-IsSorted k b [] tt;
        snapshots_sorted = insert-IsSorted k s [] tt;
        same_keys = λ d. ground (arith, get_single d k b, get_single d k s);
        filed = λ d a h. ground (arith, get_single d k b);
        stores_valid = λ d t h. subst Valid.IsValid (sym (get_single-eq d k s t h).1) v;
        committed = λ d a t h p q.
            let (e, same_block) = get_single-eq d k b a h in
            let (f, same_store) = get_single-eq d k s t p in
            let root = r (subst (λ (a : Block). 0 < a.header.height) same_block q) in
            ap (compute_state_root x) same_store
            ∙ root
            ∙ ap (λ (a : Block). a.header.state_root) (sym same_block);
        head_held = ground (arith, get_single k k b);
        head_highest = λ d a h p q.
            let (e, same_block) = get_single-eq d k b a p in
            let (f, same_head) = get_single-eq k k b h q in
            subst₂ (λ (a h : Block). a.header.height ≤ h.header.height) (sym same_block)
              (sym same_head) (omega arith);
      }

  -- A new chain over a valid store is valid.
  pub new-IsValid :
      (s : Store) (difficulty depth : ℕ) → Valid.IsValid s → IsValid (new x s difficulty depth)
  unfolding new genesis
  new-IsValid s difficulty depth v =
      anchored-IsValid genesis s difficulty depth v (λ h. absurd (omega arith))

  pub from_snapshot_accepted :
      (now current : ℕ) (b : Block) (s : Store) (difficulty depth : ℕ) (c : ChainState)
      → from_snapshot x now current b s difficulty depth ≡ ok c
      → (current < b.header.height)
        × (compute_state_root x s ≡ b.header.state_root)
        × (c ≡ anchored (block_hash x b) b s difficulty depth)
  unfolding from_snapshot
  from_snapshot_accepted now current b s difficulty depth c h = ground arith

  anchored-head_block :
      (b : Block) (s : Store) (difficulty depth : ℕ)
      → head_block {E = ChainError} (anchored (block_hash x b) b s difficulty depth) ≡ ok b
  unfolding head_block anchored
  anchored-head_block b s difficulty depth =
      rw (get_single (block_hash x b) (block_hash x b) b, ==-refl)

  -- A chain built from a snapshot over a valid store is valid; its head is the snapshot's block,
  -- which is higher than the head before, and the state root of the store is the block's.
  pub from_snapshot-IsValid :
      (now current : ℕ) (b : Block) (s : Store) (difficulty depth : ℕ) (c : ChainState)
      → Valid.IsValid s
      → from_snapshot x now current b s difficulty depth ≡ ok c
      → IsValid c
        × (head_block {E = ChainError} c ≡ ok b)
        × (current < b.header.height)
        × (compute_state_root x s ≡ b.header.state_root)
  from_snapshot-IsValid now current b s difficulty depth c v h =
      let (higher, root, e) = from_snapshot_accepted now current b s difficulty depth c h in
      (
        rw e (anchored-IsValid b s difficulty depth v (λ _. root)),
        rw e (anchored-head_block b s difficulty depth),
        higher,
        root,
      )
