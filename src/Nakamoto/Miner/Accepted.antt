-- ===== src/Nakamoto/Miner/Accepted.antt =====
-- Mining against validation (miner/mod.rs, miner/mining_work.rs, chain/mod.rs): when a block that
-- `grind` returns is accepted by a node that holds its parent, and when it never is.
use mathlib.Core.Path.{subst}
use meow.Base.{
  Outcome, ℕ, ◌+◌, ◌%◌, ◌^◌, ◌≤◌, ◌<◌, ◌≡◌, refl, sym, ◌∙◌, ap, Bool, true, false, Option, some,
  length, ok, arith, ltb, leb, >>=-eq-ok, Bool-cases, inl, inr,
}
use meow.BTreeMap.{get, contains_key}
use meow.External.{External, BcsLaws}
use meow.Executor.{Executor}
use meow.Nakamoto.Header.{Block, BlockHeader, max_transactions_per_block}
use meow.Nakamoto.Roots.{block_hash, compute_transactions_root, digests, meets_difficulty}
use meow.Base.{NoRepeats}
use meow.Nakamoto.Chain.{
  ChainState, apply_block, validate_signatures, max_block_future_drift_ms, head_height, head_store,
}
use meow.Nakamoto.Chain.Valid.{IsValid}
use meow.Nakamoto.Chain.WellFormed.{validate_block_structure_iff, IsWellFormed, same_bool_iff}
use meow.Nakamoto.Chain.Accept.{apply_block_accepted}
use meow.Nakamoto.Chain.ForkChoice.{apply_block_accepts_iff}
use meow.Nakamoto.Miner.Work.{MiningWork, grind}
use meow.Nakamoto.Miner.State.{Miner, prepare_round}
use meow.Nakamoto.Miner.Reward.{IsReady}
use meow.Nakamoto.Miner.Mined.{Mined}
use meow.Nakamoto.Miner.Grind.{IsMined}
use meow.Nakamoto.Miner.Loop.{grind_lem}

work-eq :
    {E : Type 0} (w w' : MiningWork) (m m' : Miner) (r : Outcome E (Option MiningWork × Miner))
    → r ≡ ok (some w, m)
    → r ≡ ok (some w', m')
    → w ≡ w'
work-eq w w' m m' r h k = ground arith

some-eq : {A : Type 0} (a b : A) → some a ≡ some b → a ≡ b
some-eq a b h = ground arith

leb_lower : (a b n : ℕ) → a ≤ b → leb b n ≡ true → leb a n ≡ true
leb_lower a b n l p = ground arith

module _ (x : External) where
  -- Work on a block that a chain holds, with the chain's snapshot of its store, at the next height,
  -- at a time between the block's and what the local time allows, of a difficulty no lower than the
  -- chain's, with a batch of at most 256 signed transactions, none twice, that the header commits to.
  pub record IsWorkOn (w : MiningWork) (now : ℕ) (parent : Block) (c : ChainState) : Type 0 where
    pub parent_held : get w.header.parent_hash c.blocks ≡ some parent
    pub snapshot : get w.header.parent_hash c.snapshots ≡ some w.parent_store
    pub difficulty : c.difficulty ≤ w.difficulty
    pub height : w.header.height ≡ (parent.header.height + 1) % 2 ^ 64
    pub later : parent.header.timestamp < w.header.timestamp
    pub timely : w.header.timestamp ≤ (now + max_block_future_drift_ms) % 2 ^ 64
    pub root : compute_transactions_root x w.batch ≡ w.header.transactions_root
    pub distinct : NoRepeats (digests x w.batch)
    pub signed : validate_signatures x w.batch ≡ ok tt
    pub bounded : length w.batch ≤ max_transactions_per_block

  -- A header that meets a difficulty meets a lower one.
  easier :
      (h : BlockHeader) (low high : ℕ)
      → low ≤ high
      → meets_difficulty x h high ≡ true
      → meets_difficulty x h low ≡ true
  unfolding meets_difficulty
  easier h low high l p = leb_lower low high _ l p

  mined-IsWellFormed :
      (e : Executor) (w : MiningWork) (now : ℕ) (parent : Block) (c : ChainState) (out : Mined)
      → IsWorkOn w now parent c
      → IsMined x e w w.header w.batch out
      → IsWellFormed x now out.0 c.difficulty
  mined-IsWellFormed e w now parent c out k m = record {
    nonempty = m.nonempty;
    bounded = omega (arith, m.shorter, k.bounded);
    distinct = m.distinct k.distinct;
    timely = omega (arith, m.timestamp, k.timely);
    counted = m.counted;
    rewards = (same_bool_iff _ _).0 m.rewards;
    solved = λ _. easier out.0.header c.difficulty w.difficulty k.difficulty m.solved;
    root = m.root;
    reward_root = sym m.reward_root;
  }

  -- A node with a valid chain that holds the parent of a block that `grind` returned, and not yet
  -- the block, accepts it. The work is on that parent, over the store that the node has for it, at
  -- the next height, at a time after the parent's and within the drift; its difficulty is no lower
  -- than the node's; its batch has at most 256 transactions, validly signed, none twice, and its
  -- header commits to them. It is assumed that the miner's key pair verifies what it signs, that the
  -- miner's address is the one of that key pair, that its reward transactions are within the size
  -- limit, and that BCS decodes what it encodes.
  pub grind-apply_block :
      (e : Executor) (bcs : BcsLaws x) (w : MiningWork) (now : ℕ) (parent : Block) (c : ChainState)
      (out : Mined)
      → IsReady x w
      → IsValid x c
      → IsWorkOn w now parent c
      → contains_key (block_hash x out.0) c.blocks ≡ false
      → grind x e w ≡ ok out
      → (after : ChainState × Bool) × (apply_block x e now out.0 c ≡ ok after)
  grind-apply_block e bcs w now parent c out ready v k fresh mined =
      let m = grind_lem x e w bcs ready out k.root mined in
      (apply_block_accepts_iff x e now out.0 c v).1 (record {
        parent = parent;
        parent_store = w.parent_store;
        store = out.1;
        fresh = fresh;
        parent_held = ap (λ d. get d c.blocks) m.parent ∙ k.parent_held;
        structure =
            (validate_block_structure_iff x now out.0 c.difficulty).1
              (mined-IsWellFormed e w now parent c out k m);
        height = m.height ∙ k.height;
        later = omega (arith, m.timestamp, k.later);
        signed = m.signed k.signed;
        parent_snapshot = ap (λ d. get d c.snapshots) m.parent ∙ k.snapshot;
        executed = m.executes;
      })

  -- the header of the work that `prepare_round` returns
  abbrev IsRound : ℕ → Miner → MiningWork → Type 0
  IsRound now m w =
      (compute_transactions_root x w.batch ≡ w.header.transactions_root)
      × (w.header.parent_hash ≡ m.chain.head)
      × (w.header.timestamp ≡ now)

  prepare_round_lem :
      {E : Type 0} (now : ℕ) (m m' : Miner) (w : MiningWork)
      → prepare_round x {E = E} now m ≡ ok (some w, m')
      → IsRound now m w
  unfolding prepare_round
  prepare_round_lem {E} now m m' w h =
      elim (Bool-cases (ltb (length m.mempool.pending) m.batch_size)) [
        | inl few ↦ cc (rw (few, prepare_round) at h)
        | inr full ↦
            let (height, p, h₁) =
              >>=-eq-ok (head_height {E = E} m.chain) _ (rw (full, prepare_round) at h) in
            let (store, q, h₂) = >>=-eq-ok (head_store {E = E} m.chain) _ h₁ in
            subst (IsRound now m) (work-eq {E = E} _ w _ m' _ refl h₂) (refl, refl, refl)
      ]

  -- A round that `prepare_round` starts while the clock is not past the timestamp of the head is
  -- lost: whatever block `grind` returns for it, no node that holds that head accepts the block,
  -- at any time. It is assumed that the miner's key pair verifies what it signs, that the miner's
  -- address is the one of that key pair, that its reward transactions are within the size limit, and
  -- that BCS decodes what it encodes.
  pub stale_clock :
      {E : Type 0} (e : Executor) (bcs : BcsLaws x) (now : ℕ) (m m' : Miner) (w : MiningWork)
      (head : Block) (out : Mined)
      → IsReady x w
      → prepare_round x {E = E} now m ≡ ok (some w, m')
      → now ≤ head.header.timestamp
      → grind x e w ≡ ok out
      → (later : ℕ) (c : ChainState) (after : ChainState × Bool)
      → get m.chain.head c.blocks ≡ some head
      → ¬ (apply_block x e later out.0 c ≡ ok after)
  stale_clock {E} e bcs now m m' w head out ready started early mined later c after held accepted =
      let (root, parent, time) = prepare_round_lem {E = E} now m m' w started in
      let b = grind_lem x e w bcs ready out root mined in
      let a = (apply_block_accepted x e later out.0 c after accepted).0 in
      let same_hash : out.0.header.parent_hash ≡ m.chain.head = b.parent ∙ parent in
      let same : a.parent ≡ head =
        some-eq _ _ (sym a.parent_held ∙ ap (λ d. get d c.blocks) same_hash ∙ held) in
      let same_time : a.parent.header.timestamp ≡ head.header.timestamp =
        ap (λ (k : Block). k.header.timestamp) same in
      omega (arith, a.later, same_time, b.timestamp, time, early)
