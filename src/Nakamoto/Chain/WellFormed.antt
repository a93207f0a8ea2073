-- ===== src/Nakamoto/Chain/WellFormed.antt =====
-- What `validate_block_structure` (chain/mod.rs) accepts, said without its order of checks.
use meow.Base.{
  guard_passed, ℕ, ◌+◌, ◌%◌, ◌^◌, ◌≤◌, ◌<◌, ◌≡◌, ◌↔◌, refl, Bool, true, false, not, ◌&&◌, Option,
  none, some, List, [], ◌∷◌, ltb, ◌==◌, ==_iff, is_some, is_empty, length, contains, ok, arith,
  guard-eq-ok, reject_if-eq-ok, >>=-eq-ok,
}
use meow.Types.Primitives.{Digest}
use meow.Types.Transaction.{SignedTransaction}
use meow.External.{External, digest_of}
use meow.Nakamoto.Header.{Block, max_transactions_per_block}
use meow.Nakamoto.Roots.{compute_transactions_root, meets_difficulty, digests}
use meow.Base.{NoRepeats}
use meow.Nakamoto.Chain.Structure.{
  check_duplicates, reward_digest, same_bool, same_root, validate_block_structure,
  max_block_future_drift_ms,
}

same_root_iff : (r s : Option Digest) → (same_root r s ≡ true) ↔ (r ≡ s)
same_root_iff none none = ground arith
same_root_iff none (some e) = ground arith
same_root_iff (some d) none = ground arith
same_root_iff (some d) (some e) = ground arith

pub same_bool_iff : (a b : Bool) → (same_bool a b ≡ true) ↔ (a ≡ b)
same_bool_iff true b = ground arith
same_bool_iff false b = ground arith

module _ (x : External) where
  -- no digest of the transactions is in the list
  abbrev Avoids : List SignedTransaction → List Digest → Type 0
  Avoids ts seen = (d : Digest) → contains (digests x ts) d ≡ true → contains seen d ≡ false

  check_duplicates_iff :
      (ts : List SignedTransaction) (seen : List Digest)
      → (check_duplicates x ts seen ≡ ok tt) ↔ (NoRepeats (digests x ts) × Avoids ts seen)
  unfolding check_duplicates
  check_duplicates_iff [] seen = (λ h. (tt, λ d k. cc), λ h. refl)
  check_duplicates_iff (t ∷ ts) seen = (
    λ h.
        let (fresh, h₁) = reject_if-eq-ok (contains seen (digest_of x t)) _ _ h in
        let (n, av) = (check_duplicates_iff ts (digest_of x t ∷ seen)).0 h₁ in
        ((ground (arith, av (digest_of x t)), n), λ d k. ground (arith, av d, fresh)),
    λ ((new, n), av).
        let fresh : contains seen (digest_of x t) ≡ false = ground (arith, av (digest_of x t)) in
        rw fresh (
          (check_duplicates_iff ts (digest_of x t ∷ seen)).1 (n, λ d k. ground (arith, av d, new))),
  )

  -- A block with at least one and at most 256 transactions, none twice, with a result for each, a
  -- time not too far ahead, a reward with its result or neither, enough work unless it is at height
  -- 0, and roots that match.
  pub record IsWellFormed (now : ℕ) (block : Block) (difficulty : ℕ) : Type 0 where
    pub nonempty : is_empty block.transactions ≡ false
    pub bounded : length block.transactions ≤ max_transactions_per_block
    pub distinct : NoRepeats (digests x block.transactions)
    pub timely : block.header.timestamp ≤ (now + max_block_future_drift_ms) % 2 ^ 64
    pub counted : length block.results ≡ length block.transactions
    pub rewards : is_some block.reward_transaction ≡ is_some block.reward_transaction_result
    pub solved : 0 < block.header.height → meets_difficulty x block.header difficulty ≡ true
    pub root : compute_transactions_root x block.transactions ≡ block.header.transactions_root
    pub reward_root : reward_digest x block.reward_transaction ≡ block.header.reward_root

  validate_block_structure-IsWellFormed :
      (now : ℕ) (block : Block) (difficulty : ℕ)
      → validate_block_structure x now block difficulty ≡ ok tt
      → IsWellFormed now block difficulty
  unfolding validate_block_structure
  validate_block_structure-IsWellFormed now block difficulty h =
      let (nonempty, h₁) = reject_if-eq-ok (is_empty block.transactions) _ _ h in
      let (few, h₂) =
        reject_if-eq-ok (ltb max_transactions_per_block (length block.transactions)) _ _ h₁ in
      let (u, dups, h₃) = >>=-eq-ok (check_duplicates x block.transactions []) _ h₂ in
      let (timely, h₄) =
        reject_if-eq-ok (ltb ((now + max_block_future_drift_ms) % 2 ^ 64) block.header.timestamp) _
          _ h₃ in
      let (counted, h₅) = guard-eq-ok (length block.results == length block.transactions) _ _ h₄ in
      let (rewards, h₆) =
        guard-eq-ok
          (same_bool (is_some block.reward_transaction) (is_some block.reward_transaction_result)) _
          _ h₅ in
      let (solved, h₇) =
        reject_if-eq-ok
          (ltb 0 block.header.height && not (meets_difficulty x block.header difficulty)) _ _ h₆ in
      let (root, h₈) =
        guard-eq-ok
          (compute_transactions_root x block.transactions == block.header.transactions_root) _ _
          h₇ in
      record {
        nonempty = nonempty;
        bounded = ground arith;
        distinct = ((check_duplicates_iff block.transactions []).0 dups).0;
        timely = ground arith;
        counted = (==_iff _ _).0 counted;
        rewards = (same_bool_iff _ _).0 rewards;
        solved = λ p. ground arith;
        root = (==_iff _ _).0 root;
        reward_root = (same_root_iff _ _).0 (guard_passed _ _ h₈);
      }

  from_IsWellFormed :
      (now : ℕ) (block : Block) (difficulty : ℕ)
      → IsWellFormed now block difficulty
      → validate_block_structure x now block difficulty ≡ ok tt
  unfolding validate_block_structure
  from_IsWellFormed now block difficulty v =
      let roots : same_root (reward_digest x block.reward_transaction) block.header.reward_root
          ≡ true =
        (same_root_iff _ _).1 v.reward_root in
      let dups = (check_duplicates_iff block.transactions []).1 (v.distinct, λ d k. refl) in
      let few : ltb max_transactions_per_block (length block.transactions) ≡ false =
        ground (arith, v.bounded) in
      let timely : ltb ((now + max_block_future_drift_ms) % 2 ^ 64) block.header.timestamp ≡ false =
        ground (arith, v.timely) in
      let counted : (length block.results == length block.transactions) ≡ true =
        (==_iff _ _).1 v.counted in
      let rewards : same_bool (is_some block.reward_transaction)
            (is_some block.reward_transaction_result)
          ≡ true =
        (same_bool_iff _ _).1 v.rewards in
      let solved : (ltb 0 block.header.height && not (meets_difficulty x block.header difficulty))
          ≡ false =
        ground (arith, v.solved) in
      let root : (compute_transactions_root x block.transactions == block.header.transactions_root)
          ≡ true =
        (==_iff _ _).1 v.root in
      rw (v.nonempty, few, dups, timely, counted, rewards, solved, root, roots) refl

  -- The structure check passes exactly for the blocks that are well-formed at the local time.
  pub validate_block_structure_iff :
      (now : ℕ) (block : Block) (difficulty : ℕ)
      → (validate_block_structure x now block difficulty ≡ ok tt)
        ↔ IsWellFormed now block difficulty
  validate_block_structure_iff now block difficulty = (
    validate_block_structure-IsWellFormed now block difficulty,
    from_IsWellFormed now block difficulty,
  )
