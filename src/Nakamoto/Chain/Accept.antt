-- ===== src/Nakamoto/Chain/Accept.antt =====
-- The conditions under which `apply_block` (chain/mod.rs) accepts a block.
use meow.Base.{
  ℕ, ◌+◌, ◌<◌, ◌≡◌, ◌%◌, ◌^◌, refl, Bool, true, false, some, ltb, ◌==◌, ==_iff, ok, expect,
  >>=-eq-ok, expect-eq-ok, guard-eq-ok, reject_if-eq-ok, ltb→lt, lt→ltb,
}
use meow.BTreeMap.{get, contains_key}
use meow.External.{External}
use meow.Executor.{Executor}
use meow.Nakamoto.Header.{Block}
use meow.Nakamoto.Store.{Store}
use meow.Nakamoto.Roots.{block_hash}
use meow.Nakamoto.Chain.State.{ChainState}
use meow.Nakamoto.Chain.Structure.{validate_block_structure}
use meow.Nakamoto.Chain.Replay.{validate_signatures}
use meow.Nakamoto.Chain.Apply.{record_block, execute_block, apply_block}

module _ (x : External) (e : Executor) where
  -- A block that is new, whose parent is held, that passes every check against the parent and
  -- whose re-execution over the parent's store leads to a store.
  pub record IsAcceptable (now : ℕ) (block : Block) (c : ChainState) : Type 0 where
    pub parent : Block
    pub parent_store : Store
    pub store : Store
    pub fresh : contains_key (block_hash x block) c.blocks ≡ false
    pub parent_held : get block.header.parent_hash c.blocks ≡ some parent
    pub structure : validate_block_structure x now block c.difficulty ≡ ok tt
    pub height : block.header.height ≡ (parent.header.height + 1) % 2 ^ 64
    pub later : parent.header.timestamp < block.header.timestamp
    pub signed : validate_signatures x block.transactions ≡ ok tt
    pub parent_snapshot : get block.header.parent_hash c.snapshots ≡ some parent_store
    pub executed : execute_block x e block parent_store ≡ ok store

  pub apply_block_accepted :
      (now : ℕ) (block : Block) (c : ChainState) (out : ChainState × Bool)
      → apply_block x e now block c ≡ ok out
      → (a : IsAcceptable now block c) × (record_block x block a.store c ≡ ok out)
  unfolding apply_block
  apply_block_accepted now block c out h =
      let (fresh, h₁) = reject_if-eq-ok (contains_key (block_hash x block) c.blocks) _ _ h in
      let (known, h₂) = guard-eq-ok (contains_key block.header.parent_hash c.blocks) _ _ h₁ in
      let (u, structure, h₃) = >>=-eq-ok (validate_block_structure x now block c.difficulty) _ h₂ in
      let (parent, p, h₄) = >>=-eq-ok (expect (get block.header.parent_hash c.blocks)) _ h₃ in
      let (height, h₅) =
        guard-eq-ok (block.header.height == (parent.header.height + 1) % 2 ^ 64) _ _ h₄ in
      let (later, h₆) = guard-eq-ok (ltb parent.header.timestamp block.header.timestamp) _ _ h₅ in
      let (w, signed, h₇) = >>=-eq-ok (validate_signatures x block.transactions) _ h₆ in
      let (parent_store, q, h₈) =
        >>=-eq-ok (expect (get block.header.parent_hash c.snapshots)) _ h₇ in
      let (store, executed, h₉) = >>=-eq-ok (execute_block x e block parent_store) _ h₈ in
      (
        record {
          parent = parent;
          parent_store = parent_store;
          store = store;
          fresh = fresh;
          parent_held = expect-eq-ok _ p;
          structure = structure;
          height = (==_iff _ _).0 height;
          later = ltb→lt _ _ later;
          signed = signed;
          parent_snapshot = expect-eq-ok _ q;
          executed = executed;
        },
        h₉,
      )

  pub accepts :
      (now : ℕ) (block : Block) (c : ChainState)
      → (a : IsAcceptable now block c)
      → apply_block x e now block c ≡ record_block x block a.store c
  unfolding apply_block
  accepts now block c a =
      let known : contains_key block.header.parent_hash c.blocks ≡ true = rw a.parent_held refl in
      let height : (block.header.height == (a.parent.header.height + 1) % 2 ^ 64) ≡ true =
        (==_iff _ _).1 a.height in
      let later : ltb a.parent.header.timestamp block.header.timestamp ≡ true =
        lt→ltb _ _ a.later in
      rw
        (
          a.fresh, known, a.structure, a.parent_held, height, later, a.signed, a.parent_snapshot,
          a.executed,
        )
        refl
