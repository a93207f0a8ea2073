-- ===== src/Tests/Chain.antt =====
-- The theorems on the chain at the block that the small world mines.
use meow.Base.{◌<◌, ◌≤◌, ◌≡◌, ◌↔◌, Bool, true, ok, none, some, ◌==◌, if◌then◌else◌, arith}
use mathlib.Core.Path.{subst}
use meow.BTreeMap.{get, insert, contains_key}
use meow.Types.Primitives.{Digest}
use meow.Nakamoto.Header.{Block, genesis}
use meow.Nakamoto.Store.Valid as StoreValid
use meow.Nakamoto.Roots.{block_hash, compute_state_root}
use meow.Nakamoto.Chain.{
  ChainError, ChainState, with_head, apply_block, new, commit, from_snapshot, anchored, head_block,
  prune_finalized_blocks,
}
use meow.Nakamoto.Chain.Valid.{IsValid, new-IsValid, from_snapshot-IsValid}
use meow.Nakamoto.Chain.Accept.{IsAcceptable}
use meow.Nakamoto.Chain.Prune.{prune_finalized_blocks_lem, keep_if, is_within}
use meow.Nakamoto.Chain.ForkChoice.{
  IsForkChoice, held_after, apply_block_lem, apply_block_accepts_iff, commit_lem,
}
use meow.Tests.World.{world, machine, genesis_objects}
use meow.Tests.Mining.{
  block₁, store₁, store₀, chain₀, accepts₁, structure₁, root₁, held₁, head₁, snapshot₁,
}

chain₀-IsValid : IsValid world chain₀
unfolding chain₀ store₀
chain₀-IsValid = new-IsValid world store₀ 3 4 (StoreValid.with_objects-IsValid genesis_objects)

abbrev pub chain₁ : ChainState
chain₁ = with_head world block₁ store₁ chain₀

apply_block_lem_example :
    (h : Block) × (get chain₀.head chain₀.blocks ≡ some h)
    × IsForkChoice world block₁ h chain₀ (chain₁, true)
apply_block_lem_example =
    apply_block_lem world machine 30 block₁ chain₀ chain₀-IsValid (chain₁, true) accepts₁

pub chain₁-IsValid : IsValid world chain₁
chain₁-IsValid =
    let (h, held, f) =
      apply_block_lem world machine 30 block₁ chain₀ chain₀-IsValid (chain₁, true) accepts₁ in
    f.valid

apply_block_accepts_iff_example :
    ((out : ChainState × Bool) × (apply_block world machine 30 block₁ chain₀ ≡ ok out))
    ↔ IsAcceptable world machine 30 block₁ chain₀
apply_block_accepts_iff_example =
    apply_block_accepts_iff world machine 30 block₁ chain₀ chain₀-IsValid

head₀ : get chain₀.head chain₀.blocks ≡ some genesis
unfolding get insert new chain₀
head₀ = ground arith

low₀ : (h : Block) → get chain₀.head chain₀.blocks ≡ some h → h.header.height ≤ block₁.header.height
unfolding genesis
low₀ h e =
    let same : genesis ≡ h = cc (e, head₀) in
    subst (λ (b : Block). b.header.height ≤ block₁.header.height) same (omega arith)

store₁-IsValid : StoreValid.IsValid store₁
store₁-IsValid = chain₁-IsValid.stores_valid (block_hash world block₁) store₁ held₁

new-IsValid_example : IsValid world (new world store₀ 3 4)
unfolding store₀
new-IsValid_example = new-IsValid world store₀ 3 4 (StoreValid.with_objects-IsValid genesis_objects)

prune_finalized_blocks_lem_example :
    (c' : ChainState) × (prune_finalized_blocks {E = ChainError} chain₁ ≡ ok c')
    × IsValid world c'
    × (c'.head ≡ chain₁.head)
    × ((d : Digest)
        → (get d c'.blocks
            ≡ keep_if (is_within block₁.header.height chain₁.snapshot_depth) (get d chain₁.blocks))
          × (get d c'.snapshots
              ≡ (if contains_key d c'.blocks then get d chain₁.snapshots else none)))
prune_finalized_blocks_lem_example =
    prune_finalized_blocks_lem world chain₁ block₁ chain₁-IsValid head₁

from_snapshot-IsValid_example :
    IsValid world (anchored (block_hash world block₁) block₁ store₁ 3 4)
    × (head_block {E = ChainError} (anchored (block_hash world block₁) block₁ store₁ 3 4)
        ≡ ok block₁)
    × (0 < block₁.header.height)
    × (compute_state_root world store₁ ≡ block₁.header.state_root)
unfolding from_snapshot
from_snapshot-IsValid_example =
    from_snapshot-IsValid world 30 0 block₁ store₁ 3 4
      (anchored (block_hash world block₁) block₁ store₁ 3 4) store₁-IsValid snapshot₁

commit_lem_example :
    (c' : ChainState) × (commit world {E = ChainError} 30 block₁ store₁ chain₀ ≡ ok c')
    × IsValid world c'
    × (c'.head ≡ block_hash world block₁)
    × ((d : Digest)
        → get d c'.blocks
          ≡ held_after true block₁.header.height chain₀.snapshot_depth
              (if d == block_hash world block₁ then some block₁ else get d chain₀.blocks))
commit_lem_example =
    commit_lem world 30 block₁ store₁ chain₀ chain₀-IsValid store₁-IsValid root₁ structure₁ low₀
