-- ===== src/Nakamoto/Chain/Structure.antt =====
-- `validate_block_structure` (chain/mod.rs). The local clock is an argument; its sum with the drift
-- wraps around, as `u64` addition does in a release build.
use meow.Base.{
  ℕ, ◌+◌, ◌%◌, ◌^◌, Bool, true, false, not, ◌&&◌, Option, none, some, List, [], ◌∷◌, ltb, ◌==◌,
  is_some, is_empty, length, contains, Outcome, ok, ◌>>◌, guard, reject_if,
}
use meow.Types.Primitives.{Digest}
use meow.Types.Transaction.{SignedTransaction}
use meow.External.{External, digest_of}
use meow.Nakamoto.Header.{Block, max_transactions_per_block}
use meow.Nakamoto.Roots.{compute_transactions_root, meets_difficulty}
use meow.Nakamoto.Chain.State.{
  ChainError, empty_block, duplicate_transaction, inconsistent_reward, pow_check_failed,
  results_count_mismatch, reward_root_mismatch, timestamp_too_far_in_future, too_many_transactions,
  transactions_root_mismatch,
}

abbrev pub max_block_future_drift_ms : ℕ
max_block_future_drift_ms = 120000

abbrev pub same_bool : Bool → Bool → Bool
same_bool true b = b
same_bool false b = not b

-- equality of `Option<Digest>`
abbrev pub same_root : Option Digest → Option Digest → Bool
same_root none none = true
same_root none (some e) = false
same_root (some d) none = false
same_root (some d) (some e) = d == e

module _ (x : External) where
  -- the loop over the transactions, with the digests seen so far
  unfoldable pub check_duplicates :
      List SignedTransaction → List Digest → Outcome ChainError (Unit {0})
  check_duplicates [] seen = ok tt
  check_duplicates (t ∷ ts) seen = do
    reject_if (contains seen (digest_of x t)) duplicate_transaction
    check_duplicates ts (digest_of x t ∷ seen)

  -- `block.reward_transaction.as_ref().map(|tx| tx.transaction().digest())`
  abbrev pub reward_digest : Option SignedTransaction → Option Digest
  reward_digest none = none
  reward_digest (some t) = some (digest_of x t)

  unfoldable pub validate_block_structure : ℕ → Block → ℕ → Outcome ChainError (Unit {0})
  unfolding check_duplicates
  validate_block_structure now block difficulty = do
    reject_if (is_empty block.transactions) empty_block
    reject_if (ltb max_transactions_per_block (length block.transactions))
        (too_many_transactions max_transactions_per_block (length block.transactions))
    check_duplicates block.transactions []
    reject_if (ltb ((now + max_block_future_drift_ms) % 2 ^ 64) block.header.timestamp)
        timestamp_too_far_in_future
    guard (length block.results == length block.transactions) results_count_mismatch
    guard (same_bool (is_some block.reward_transaction) (is_some block.reward_transaction_result))
        inconsistent_reward
    reject_if (ltb 0 block.header.height && not (meets_difficulty x block.header difficulty))
        pow_check_failed
    guard (compute_transactions_root x block.transactions == block.header.transactions_root)
        transactions_root_mismatch
    guard (same_root (reward_digest block.reward_transaction) block.header.reward_root)
        reward_root_mismatch
