-- ===== src/Nakamoto/Header.antt =====
-- crates/meow-nakamoto-types: block headers, mining headers and blocks (block_header.rs,
-- mining_block_header.rs, block.rs, state_snapshot.rs).
use meow.Base.{ℕ, List, [], Option, none}
use meow.Types.Primitives.{Digest, zero_digest}
use meow.Types.Object.{Object}
use meow.Types.Transaction.{SignedTransaction, ExecutionResult}

pub record BlockHeader : Type 0 where
  pub height : ℕ
  pub parent_hash : Digest
  pub transactions_root : Digest
  pub reward_root : Option Digest
  pub state_root : Digest
  pub timestamp : ℕ
  pub nonce : ℕ

pub record MiningBlockHeader : Type 0 where
  pub height : ℕ
  pub parent_hash : Digest
  pub transactions_root : Digest
  pub timestamp : ℕ
  pub nonce : ℕ

-- `impl From<&BlockHeader> for MiningBlockHeader`
unfoldable pub mining_header : BlockHeader → MiningBlockHeader
mining_header h = record {
  height = h.height;
  parent_hash = h.parent_hash;
  transactions_root = h.transactions_root;
  timestamp = h.timestamp;
  nonce = h.nonce;
}

pub record Block : Type 0 where
  pub header : BlockHeader
  pub transactions : List SignedTransaction
  pub results : List ExecutionResult
  pub reward_transaction : Option SignedTransaction
  pub reward_transaction_result : Option ExecutionResult

-- `Block::genesis`
unfoldable pub genesis : Block
genesis = record {
  header = record {
    height = 0;
    parent_hash = zero_digest;
    transactions_root = zero_digest;
    reward_root = none;
    state_root = zero_digest;
    timestamp = 0;
    nonce = 0;
  };
  transactions = [];
  results = [];
  reward_transaction = none;
  reward_transaction_result = none;
}

pub record StateSnapshot : Type 0 where
  pub head : Block
  pub objects : List Object

abbrev pub max_transactions_per_block : ℕ
max_transactions_per_block = 256
