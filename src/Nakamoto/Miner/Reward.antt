-- ===== src/Nakamoto/Miner/Reward.antt =====
-- The reward that `grind` adds to a block (miner/mining_work.rs, system_transactions.rs) passes the
-- check that a validator makes of it.
use mathlib.Core.Path.{subst}
use meow.Base.{
  ℕ, ◌+◌, ◌%◌, ◌^◌, ◌≤◌, ◌<◌, ◌≡◌, refl, true, false, Option, none, some, List, [], ◌∷◌, ltb, ◌==◌,
  ==-refl, Outcome, ok, err, panic, arith, >>=-eq-ok, inl, inr, Bool-cases, sum_from, sum_u64,
  eqb_refl,
}
use meow.Types.Primitives.{Address, Digest}
use meow.Types.Transaction.{
  Transaction, SignedTransaction, ExecutionResult, ExecutionResult-discrete,
}
use meow.Types.Validator.{validate_signed_transaction, meow_call_transaction_bcs_bytes_max_size}
use meow.External.{External, IsKeyPair, BcsLaws, key_address, sign}
use meow.Executor.{Executor}
use meow.Nakamoto.Header.{BlockHeader}
use meow.Nakamoto.Store.{Store, apply_execution_result}
use meow.Nakamoto.Roots.{mining_hash}
use meow.Nakamoto.SystemTransactions.{
  make_reward_transaction, is_valid_reward_transaction, execute_reward_transaction,
}
use meow.Nakamoto.Chain.{ChainError, check_reward, unwrap}
use meow.Nakamoto.Miner.Work.{MiningWork, add_reward}
use meow.Nakamoto.Miner.Execution.{apply_execution_result_any}

sum_from-lt : (acc : ℕ) (ns : List ℕ) → acc < 2 ^ 64 → sum_from acc ns < 2 ^ 64
unfolding sum_from
sum_from-lt acc [] h = h
sum_from-lt acc (n ∷ ns) h = sum_from-lt ((acc + n) % 2 ^ 64) ns (omega arith)

pub sum_u64-lt : (ns : List ℕ) → sum_u64 ns < 2 ^ 64
unfolding sum_u64
sum_u64-lt ns = sum_from-lt 0 ns (omega arith)

-- the reward transaction, its result and the store after it
abbrev pub Paid : Type 0
Paid = Option SignedTransaction × Option ExecutionResult × Store

module _ (x : External) (bcs : BcsLaws x) where
  pub make_reward_transaction_lem :
      (signer reward_address : Address) (amount : ℕ) (hash : Digest)
      → amount < 2 ^ 64
      → is_valid_reward_transaction x
          (make_reward_transaction x signer reward_address amount hash)
          amount
          hash
        ≡ true
  unfolding is_valid_reward_transaction make_reward_transaction
  make_reward_transaction_lem signer reward_address amount hash h =
      rw
        (
          bcs.decode-encode_u64 amount h,
          bcs.decode-encode_address reward_address,
          ==-refl amount,
          ==-refl hash,
        )
        refl

-- The miner signs with its own key pair, and its reward transactions are within the size limit.
pub record IsReady (x : External) (w : MiningWork) : Type 0 where
  pub keys : IsKeyPair x w.miner_keypair
  pub address : w.miner_address ≡ key_address x w.miner_keypair
  pub small :
      (amount : ℕ) (hash : Digest)
      → x.serialized_size (make_reward_transaction x w.miner_address w.reward_address amount hash)
        ≤ meow_call_transaction_bcs_bytes_max_size

module _ (x : External) (e : Executor) (bcs : BcsLaws x) (w : MiningWork)
    (ready : IsReady x w) where
  abbrev reward : ℕ → Digest → Transaction
  reward amount hash = make_reward_transaction x w.miner_address w.reward_address amount hash

  signed_reward_valid :
      (amount : ℕ) (hash : Digest)
      → validate_signed_transaction x (sign x (reward amount hash) w.miner_keypair).0 ≡ ok tt
  unfolding validate_signed_transaction sign make_reward_transaction key_address
  signed_reward_valid amount hash =
      let small : ltb meow_call_transaction_bcs_bytes_max_size
            (x.serialized_size (reward amount hash))
          ≡ false =
        ground (arith, ready.small amount hash) in
      let own : (x.hash_public_key w.miner_keypair.public == w.miner_address) ≡ true =
        rw ready.address (==-refl (x.hash_public_key w.miner_keypair.public)) in
      let verified = ready.keys (x.compute_transaction (reward amount hash)) in
      rw (small, own, verified) refl

  reward_applied :
      {E : Type 0} (amount : ℕ) (hash : Digest) (s s' : Store) (r : ExecutionResult)
      → 0 < amount
      → amount < 2 ^ 64
      → execute_reward_transaction e (reward amount hash) s ≡ ok r
      → apply_execution_result {E = E} r s ≡ ok s'
      → check_reward x e amount
          (some (sign x (reward amount hash) w.miner_keypair).0)
          (some r)
          hash
          s
        ≡ ok (true, s')
  unfolding check_reward sign
  reward_applied {E} amount hash s s' r positive small run done =
      let paid : (amount == 0) ≡ false = ground arith in
      rw
        (
          paid,
          signed_reward_valid amount hash,
          make_reward_transaction_lem x bcs w.miner_address w.reward_address amount hash small,
          run,
          eqb_refl ExecutionResult-discrete r,
          apply_execution_result_any {E = E} {F = ChainError} r s s' done,
        )
        refl

  unwrap-eq-ok :
      {E F A : Type 0} (m : Outcome E A) (a : A) → unwrap x {E = E} {F = F} m ≡ ok a → m ≡ ok a
  unwrap-eq-ok (ok b) a h = ground arith
  unwrap-eq-ok (err f) a h = cc
  unwrap-eq-ok panic a h = cc

  -- What `add_reward` adds passes `check_reward`, with the same store after it.
  pub add_reward_lem :
      {E : Type 0} (h : BlockHeader) (amount : ℕ) (s : Store) (out : Paid)
      → amount < 2 ^ 64
      → add_reward x e {E = E} w h amount s ≡ ok out
      → check_reward x e amount out.0 out.1 (mining_hash x h) s ≡ ok (true, out.2)
  unfolding add_reward check_reward sign
  add_reward_lem {E} h amount s out small p = elim (Bool-cases (ltb 0 amount)) [
    | inl some_gas ↦
        let (r, q, p₁) =
          >>=-eq-ok
            (unwrap x {F = E} (execute_reward_transaction e (reward amount (mining_hash x h)) s)) _
            (rw (some_gas, add_reward) at p) in
        let (s', done, p₂) = >>=-eq-ok (apply_execution_result {E = E} r s) _ p₁ in
        let same : (some (sign x (reward amount (mining_hash x h)) w.miner_keypair).0, some r, s')
            ≡ out =
          cc p₂ in
        subst (λ (o : Paid). check_reward x e amount o.0 o.1 (mining_hash x h) s ≡ ok (true, o.2))
          same
          (reward_applied {E = E} amount (mining_hash x h) s s' r (ground arith) small
            (unwrap-eq-ok _ r q) done)
    | inr no_gas ↦
        let zero_gas : (amount == 0) ≡ true = ground arith in
        let same : (none, none, s) ≡ out = cc (rw (no_gas, add_reward) at p) in
        subst (λ (o : Paid). check_reward x e amount o.0 o.1 (mining_hash x h) s ≡ ok (true, o.2))
          same (rw zero_gas refl)
  ]
