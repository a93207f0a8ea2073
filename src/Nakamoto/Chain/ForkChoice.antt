-- ===== src/Nakamoto/Chain/ForkChoice.antt =====
-- The fork choice of `apply_block` and `commit` (chain/mod.rs): when the head moves, what is held
-- afterwards, and that the chain stays valid.
use mathlib.Core.Path.{subst}
use meow.Base.{
  ℕ, ◌≤◌, ◌<◌, ◌≡◌, ◌↔◌, refl, sym, ◌∙◌, ap, Bool, true, false, Option, some, ltb, ◌==◌, ==_iff,
  if◌then◌else◌, ok, arith, Bool-cases, inl, inr, Option-cases,
}
use meow.BTreeMap.{get, insert, contains_key}
use meow.BTreeMap.Laws.{get-insert}
use meow.Types.Primitives.{Digest}
use meow.External.{External}
use meow.Executor.{Executor}
use meow.Nakamoto.Header.{Block}
use meow.Nakamoto.Store.{Store}
use meow.Nakamoto.Store.Valid
use meow.Nakamoto.Roots.{block_hash, compute_state_root}
use meow.Nakamoto.Chain.State.{
  ChainError, ChainState, head_block, head_height, prune_finalized_blocks,
}
use meow.Nakamoto.Chain.Structure.{validate_block_structure}
use meow.Nakamoto.Chain.Apply.{with_head, recorded, switch_head, record_block, apply_block, commit}
use meow.Nakamoto.Chain.Valid.{IsValid}
use meow.Nakamoto.Chain.Prune.{prune_finalized_blocks_lem, keep_if, is_within}
use meow.Nakamoto.Chain.Record.{with_head-IsValid, recorded-IsValid}
use meow.Nakamoto.Chain.Execution.{execute_block_lem, execute_block-IsValid}
use meow.Nakamoto.Chain.Accept.{IsAcceptable, apply_block_accepted, accepts}

-- the blocks held after a block was added: all of them, or those within the pruning depth of the
-- new head
abbrev pub held_after : Bool → ℕ → ℕ → Option Block → Option Block
held_after true height depth o = keep_if (is_within height depth) o
held_after false height depth o = o

module _ (x : External) where
  -- The chain after a block was recorded: still valid; moved to the block exactly when that is
  -- higher than the old head; holding what it held and the block, less what is then too deep.
  pub record IsForkChoice (block : Block) (h : Block) (c : ChainState) (out : ChainState × Bool)
      : Type 0 where
    pub valid : IsValid x out.0
    pub switched : out.1 ≡ ltb h.header.height block.header.height
    pub head : out.0.head ≡ (if out.1 then block_hash x block else c.head)
    pub blocks :
        (d : Digest)
        → get d out.0.blocks
          ≡ held_after out.1 block.header.height c.snapshot_depth
              (if d == block_hash x block then some block else get d c.blocks)

  module _ (block : Block) (store : Store) (c : ChainState) (v : IsValid x c)
      (sv : Valid.IsValid store)
      (root : 0 < block.header.height → compute_state_root x store ≡ block.header.state_root) where
    get-with_head : get (block_hash x block) (with_head x block store c).blocks ≡ some block
    get-with_head =
        ground (arith, get-insert (block_hash x block) (block_hash x block) block c.blocks)

    -- Making a block that is no lower than the head the new head never fails; the chain stays
    -- valid, with the block as its head.
    pub commit_head_lem :
        {E : Type 0}
        → ((h : Block) → get c.head c.blocks ≡ some h → h.header.height ≤ block.header.height)
        → (c' : ChainState) × (prune_finalized_blocks {E = E} (with_head x block store c) ≡ ok c')
          × IsValid x c'
          × (c'.head ≡ block_hash x block)
          × ((d : Digest)
              → get d c'.blocks
                ≡ held_after true block.header.height c.snapshot_depth
                    (if d == block_hash x block then some block else get d c.blocks))
    commit_head_lem top =
        let (c', p, v', same, held) =
          prune_finalized_blocks_lem x (with_head x block store c) block
            (with_head-IsValid x block store c v sv root top) get-with_head in
        (
          c',
          p,
          v',
          same,
          λ d.
              (held d).0
              ∙ ap (keep_if (is_within block.header.height c.snapshot_depth))
                  (get-insert d (block_hash x block) block c.blocks),
        )

    module _ (h : Block) (held : get c.head c.blocks ≡ some h)
        (fresh : contains_key (block_hash x block) c.blocks ≡ false) where
      head_is_other : (c.head == block_hash x block) ≡ false
      head_is_other = elim (Bool-cases (c.head == block_hash x block)) [
        | inl same ↦
            let e : c.head ≡ block_hash x block = (==_iff c.head (block_hash x block)).0 same in
            cc (ap (λ d. contains_key d c.blocks) e, v.head_held)
        | inr other ↦ other
      ]

      recorded_height : head_height {E = ChainError} (recorded x block store c) ≡ ok h.header.height
      unfolding head_height head_block
      recorded_height =
          let e : get c.head (insert (block_hash x block) block c.blocks) ≡ some h =
            ground (arith, get-insert c.head (block_hash x block) block c.blocks, head_is_other) in
          rw e refl

      same_head : (g : Block) → get c.head c.blocks ≡ some g → h ≡ g
      same_head g e = cc (e, held)

      when_higher :
          ltb h.header.height block.header.height ≡ true
          → (c' : ChainState)
          → prune_finalized_blocks {E = ChainError} (with_head x block store c) ≡ ok c'
          → record_block x block store c ≡ ok (c', true)
      unfolding record_block switch_head
      when_higher higher c' p = rw (recorded_height, higher, p) refl

      when_lower :
          ltb h.header.height block.header.height ≡ false
          → record_block x block store c ≡ ok (recorded x block store c, false)
      unfolding record_block
      when_lower lower = rw (recorded_height, lower) refl

      pub record_block_lem :
          (out : ChainState × Bool) × (record_block x block store c ≡ ok out)
          × IsForkChoice block h c out
      record_block_lem = elim (Bool-cases (ltb h.header.height block.header.height)) [
        | inl higher ↦
            let (c', p, v', same, after) = commit_head_lem (λ g e.
              subst (λ (b : Block). b.header.height ≤ block.header.height) (same_head g e)
                (ground arith)) in
            (
              (c', true),
              when_higher higher c' p,
              record { valid = v'; switched = sym higher; head = same; blocks = after },
            )
        | inr lower ↦ (
          (recorded x block store c, false),
          when_lower lower,
          record {
            valid = recorded-IsValid x block store c v sv root fresh (λ g e.
                subst (λ (b : Block). block.header.height ≤ b.header.height) (same_head g e)
                  (ground arith));
            switched = sym lower;
            head = refl;
            blocks = λ d. get-insert d (block_hash x block) block c.blocks;
          },
        )
      ]

  held_head : (c : ChainState) → IsValid x c → (h : Block) × (get c.head c.blocks ≡ some h)
  held_head c v = elim (Option-cases (get c.head c.blocks)) [
    | inl e ↦ absurd (ground (arith, e, v.head_held))
    | inr held ↦ held
  ]

  module _ (e : Executor) (now : ℕ) (block : Block) (c : ChainState) (v : IsValid x c) where
    parent-IsValid :
        (store : Store)
        → get block.header.parent_hash c.snapshots ≡ some store
        → Valid.IsValid store
    parent-IsValid store h = v.stores_valid block.header.parent_hash store h

    accepted_lem :
        (a : IsAcceptable x e now block c)
        → (h : Block) × (get c.head c.blocks ≡ some h)
          × (out : ChainState × Bool) × (record_block x block a.store c ≡ ok out)
          × IsForkChoice block h c out
    accepted_lem a =
        let (h, held) = held_head c v in
        let sv =
          execute_block-IsValid x e block a.parent_store a.store
            (parent-IsValid a.parent_store a.parent_snapshot) a.executed in
        let run = execute_block_lem x e block a.parent_store a.store a.executed in
        let (out, p, f) = record_block_lem block a.store c v sv (λ _. run.root) h held a.fresh in
        (h, held, out, p, f)

    -- On a valid chain, `apply_block` accepts a block exactly when it is acceptable: new, with a
    -- parent that is held, past every check, and with a re-execution that leads to a store.
    pub apply_block_accepts_iff :
        ((out : ChainState × Bool) × (apply_block x e now block c ≡ ok out))
        ↔ IsAcceptable x e now block c
    apply_block_accepts_iff = (
      λ (out, h). (apply_block_accepted x e now block c out h).0,
      λ a. let (h, held, out, p, f) = accepted_lem a in (out, accepts x e now block c a ∙ p),
    )

    -- An accepted block leaves a valid chain valid. The head moves to it exactly when it is higher
    -- than the head was, and the call says so; the chain then holds what it held and the block,
    -- less what is more than `snapshot_depth` below a head that moved.
    pub apply_block_lem :
        (out : ChainState × Bool)
        → apply_block x e now block c ≡ ok out
        → (h : Block) × (get c.head c.blocks ≡ some h) × IsForkChoice block h c out
    apply_block_lem out accepted =
        let (a, result) = apply_block_accepted x e now block c out accepted in
        let (h, held, out', p, f) = accepted_lem a in
        (h, held, subst (IsForkChoice block h c) (cc (p, result)) f)

  -- Committing a block that passes the structure check, no lower than the head, with the store that
  -- its state root commits to, never fails and keeps the chain valid. The block is the head; the
  -- chain holds what it held and the block, less what is more than `snapshot_depth` below it.
  pub commit_lem :
      {E : Type 0} (now : ℕ) (block : Block) (store : Store) (c : ChainState)
      → IsValid x c
      → Valid.IsValid store
      → compute_state_root x store ≡ block.header.state_root
      → validate_block_structure x now block c.difficulty ≡ ok tt
      → ((h : Block) → get c.head c.blocks ≡ some h → h.header.height ≤ block.header.height)
      → (c' : ChainState) × (commit x {E = E} now block store c ≡ ok c')
        × IsValid x c'
        × (c'.head ≡ block_hash x block)
        × ((d : Digest)
            → get d c'.blocks
              ≡ held_after true block.header.height c.snapshot_depth
                  (if d == block_hash x block then some block else get d c.blocks))
  unfolding commit
  commit_lem now block store c v sv root good top =
      rw good (commit_head_lem block store c v sv (λ _. root) top)
