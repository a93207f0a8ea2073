-- ===== src/Nakamoto/Chain/State.antt =====
-- `ChainState`, its lookups and pruning (chain/mod.rs), and `ChainError` (chain/error.rs).
use meow.Base.{
  ℕ, zero, suc, ◌-◌, Option, none, some, List, [], ◌∷◌, ◌++◌, ltb, leb, ◌==◌, if◌then◌else◌, find,
  Outcome, ok, ◌>>=◌, expect,
}
use meow.BTreeMap.{BTreeMap, get, insert, remove_all, keys_where, values}
use meow.Types.Primitives.{Digest}
use meow.Types.Transaction.{SignedTransaction, ExecutionResult}
use meow.External.{External, digest_of}
use meow.Nakamoto.Header.{Block, StateSnapshot, genesis}
use meow.Nakamoto.Store.{Store, objects}
use meow.Nakamoto.Roots.{block_hash}

pub data ChainError : Type 0 where
  already_known empty_block duplicate_transaction execution_failed : ChainError
  invalid_height : ℕ → ℕ → ChainError
  inconsistent_reward invalid_reward invalid_signature pow_check_failed : ChainError
  results_count_mismatch results_mismatch reward_root_mismatch : ChainError
  snapshot_not_advancing : ℕ → ℕ → ChainError
  state_root_mismatch timestamp_not_advancing timestamp_too_far_in_future : ChainError
  too_many_transactions : ℕ → ℕ → ChainError
  transactions_root_mismatch unknown_parent : ChainError

pub record ChainState : Type 0 where
  pub blocks : BTreeMap Block
  pub snapshots : BTreeMap Store
  pub head : Digest
  pub difficulty : ℕ
  pub snapshot_depth : ℕ

-- A chain anchored at one block: the record that `new` and `from_snapshot` build.
unfoldable pub anchored : Digest → Block → Store → ℕ → ℕ → ChainState
anchored hash block store difficulty depth = record {
  blocks = insert hash block [];
  snapshots = insert hash store [];
  head = hash;
  difficulty = difficulty;
  snapshot_depth = depth;
}

-- `ChainState::new`
unfoldable pub new : External → Store → ℕ → ℕ → ChainState
unfolding anchored genesis
new x store difficulty depth = anchored (block_hash x genesis) genesis store difficulty depth

-- what `prune_finalized_blocks` drops below the cutoff, from both maps
unfoldable pub drop_below : ℕ → ChainState → ChainState
drop_below cutoff c =
    let to_remove = keys_where (λ (b : Block). ltb b.header.height cutoff) c.blocks in
    record c {
      blocks = remove_all to_remove c.blocks;
      snapshots = remove_all to_remove c.snapshots;
    }

module _ {E : Type 0} where
  unfoldable pub head_block : ChainState → Outcome E Block
  head_block c = expect (get c.head c.blocks)

  unfoldable pub head_height : ChainState → Outcome E ℕ
  unfolding head_block
  head_height c = do b ← head_block c; ok b.header.height

  unfoldable pub sync_from_height : ChainState → Outcome E ℕ
  unfolding head_height
  sync_from_height c = do height ← head_height c; ok (height - c.snapshot_depth)

  unfoldable pub head_store : ChainState → Outcome E Store
  head_store c = expect (get c.head c.snapshots)

  unfoldable pub prune_finalized_blocks : ChainState → Outcome E ChainState
  unfolding head_height drop_below
  prune_finalized_blocks c = do
    height ← head_height c
    ok (if leb height c.snapshot_depth then c else drop_below (height - c.snapshot_depth) c)

unfoldable pub get_block : Digest → ChainState → Option Block
get_block d c = get d c.blocks

unfoldable pub get_block_snapshot : Digest → ChainState → Option StateSnapshot
unfolding objects
get_block_snapshot d c = elim (get d c.blocks) [
  | none ↦ none
  | some b ↦ elim (get d c.snapshots) [
    | none ↦ none
    | some s ↦ some (record { head = b; objects = objects s })
  ]
]

-- `self.blocks.values().filter(|b| b.header.height >= height)`
blocks_from : ℕ → List Block → List Block
blocks_from height [] = []
blocks_from height (b ∷ bs) =
    if leb height b.header.height then b ∷ blocks_from height bs else blocks_from height bs

unfoldable pub get_blocks_since : ℕ → ChainState → List Block
unfolding blocks_from
get_blocks_since height c = blocks_from height (values c.blocks)

-- `canonical_chain`: from the head along the parents, up to a block that is not held. `none` means
-- that the fuel ran out before.
unfoldable pub walk : ℕ → Digest → BTreeMap Block → Option (List Block)
walk zero current blocks = none
walk (suc fuel) current blocks = elim (get current blocks) [
  | none ↦ some []
  | some b ↦ elim (walk fuel b.header.parent_hash blocks) [
    | none ↦ none
    | some rest ↦ some (b ∷ rest)
  ]
]

unfoldable pub canonical_chain : ℕ → ChainState → Option (List Block)
unfolding walk
canonical_chain fuel c = walk fuel c.head c.blocks

-- `.flat_map(|block| block.results.iter())`, and the transactions likewise
unfoldable pub all_results : List Block → List ExecutionResult
all_results [] = []
all_results (b ∷ bs) = b.results ++ all_results bs

unfoldable pub all_transactions : List Block → List SignedTransaction
all_transactions [] = []
all_transactions (b ∷ bs) = b.transactions ++ all_transactions bs

unfoldable pub get_transaction_result : ℕ → Digest → ChainState → Option (Option ExecutionResult)
unfolding canonical_chain all_results
get_transaction_result fuel d c = elim (canonical_chain fuel c) [
  | none ↦ none
  | some bs ↦ some (find (λ (r : ExecutionResult). r.transaction_digest == d) (all_results bs))
]

unfoldable pub get_transaction :
    External → ℕ → Digest → ChainState → Option (Option SignedTransaction)
unfolding canonical_chain all_transactions
get_transaction x fuel d c = elim (canonical_chain fuel c) [
  | none ↦ none
  | some bs ↦ some (find (λ t. digest_of x t == d) (all_transactions bs))
]
