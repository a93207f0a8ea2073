-- ===== src/Nakamoto/Miner/Sync.antt =====
-- Catching up by a snapshot (miner/mod.rs): `get_state_snapshot` at one node and
-- `replace_from_snapshot` at another.
use mathlib.Core.Path.{subst}
use meow.Base.{
  ℕ, ◌≡◌, refl, sym, ◌∙◌, ap, some, Outcome, ok, >>=-eq-ok, expect-eq-ok, map_err, arith, ==-refl,
}
use meow.BTreeMap.{get, insert}
use meow.External.{External}
use meow.Nakamoto.Header.{Block, StateSnapshot}
use meow.Nakamoto.Store.{Store, with_objects, objects}
use meow.Nakamoto.Store.Valid as StoreValid
use meow.Nakamoto.Roots.{block_hash}
use meow.Nakamoto.Mempool.{empty_pool}
use meow.Nakamoto.Chain.{anchored, head_block, head_height, head_store, from_snapshot}
use meow.Nakamoto.Chain.Valid.{IsValid, from_snapshot_accepted, from_snapshot-IsValid}
use meow.Nakamoto.Miner.State.{
  Miner, MinerError, chain_error, get_state_snapshot, replace_from_snapshot,
}

module _ (x : External) where
  map_err-eq-ok :
      {E F A : Type 0} (f : E → F) (m : Outcome E A) (a : A) → map_err f m ≡ ok a → m ≡ ok a
  map_err-eq-ok f m a h = ground arith

  anchored-head_store :
      {E : Type 0} (b : Block) (s : Store) (difficulty depth : ℕ)
      → head_store {E = E} (anchored (block_hash x b) b s difficulty depth) ≡ ok s
  unfolding head_store anchored get insert
  anchored-head_store b s difficulty depth = rw (==-refl (block_hash x b)) refl

  anchored-head :
      {E : Type 0} (b : Block) (s : Store) (difficulty depth : ℕ)
      → head_block {E = E} (anchored (block_hash x b) b s difficulty depth) ≡ ok b
  unfolding head_block anchored get insert
  anchored-head b s difficulty depth = rw (==-refl (block_hash x b)) refl

  -- what a snapshot of a valid chain carries: the head's block, and objects that rebuild its store
  snapshot_lem :
      {E : Type 0} (m : Miner) (snapshot : StateSnapshot)
      → IsValid x m.chain
      → get_state_snapshot x {E = E} m ≡ ok snapshot
      → (head_block {E = E} m.chain ≡ ok snapshot.head)
        × (head_store {E = E} m.chain ≡ ok (with_objects snapshot.objects))
  unfolding get_state_snapshot head_store
  snapshot_lem {E} m snapshot v h =
      let (head, p, h₁) = >>=-eq-ok (head_block {E = E} m.chain) _ h in
      let (store, q, h₂) = >>=-eq-ok (head_store {E = E} m.chain) _ h₁ in
      let held : get m.chain.head m.chain.snapshots ≡ some store = expect-eq-ok _ q in
      let rebuilt : with_objects (objects store) ≡ store =
        StoreValid.with_objects-objects store (v.stores_valid m.chain.head store held) in
      let same_head : head ≡ snapshot.head = ground (arith, h₂) in
      let same_objects : objects store ≡ snapshot.objects = ground (arith, h₂) in
      (
        p ∙ ap (λ (b : Block). ok b) same_head,
        q ∙ ap (λ (s : Store). ok s) (sym rebuilt ∙ ap with_objects same_objects),
      )

  -- A node that takes over the snapshot of another, which has a valid chain, ends with the other's
  -- head block and the very store of that head, a valid chain, and an empty pool.
  pub replace_from_snapshot_lem :
      {E : Type 0} (now : ℕ) (m n n' : Miner) (snapshot : StateSnapshot)
      → IsValid x m.chain
      → get_state_snapshot x {E = E} m ≡ ok snapshot
      → replace_from_snapshot x now snapshot n ≡ ok n'
      → (head_block {E = E} n'.chain ≡ head_block m.chain)
        × (head_store {E = E} n'.chain ≡ head_store m.chain)
        × IsValid x n'.chain
        × (n'.mempool ≡ empty_pool)
  unfolding replace_from_snapshot
  replace_from_snapshot_lem {E} now m n n' snapshot v taken h =
      let (same_head, same_store) = snapshot_lem {E = E} m snapshot v taken in
      let (height, p, h₁) = >>=-eq-ok (head_height {E = MinerError} n.chain) _ h in
      let (chain, q, h₂) =
        >>=-eq-ok
          (map_err chain_error (
            from_snapshot x now height snapshot.head (with_objects snapshot.objects)
              n.chain.difficulty n.chain.snapshot_depth))
          _ h₁ in
      let built = map_err-eq-ok chain_error _ chain q in
      let (higher, root, shape) =
        from_snapshot_accepted x now height snapshot.head (with_objects snapshot.objects)
          n.chain.difficulty n.chain.snapshot_depth chain built in
      let same_chain : chain ≡ n'.chain = ground (arith, h₂) in
      let anchor = sym same_chain ∙ shape in
      (
        ap head_block anchor
            ∙ anchored-head snapshot.head (with_objects snapshot.objects) n.chain.difficulty
                n.chain.snapshot_depth
            ∙ sym same_head,
        ap head_store anchor
            ∙ anchored-head_store snapshot.head (with_objects snapshot.objects) n.chain.difficulty
                n.chain.snapshot_depth
            ∙ sym same_store,
        subst (IsValid x) same_chain
            (from_snapshot-IsValid x now height snapshot.head (with_objects snapshot.objects)
              n.chain.difficulty n.chain.snapshot_depth chain
              (StoreValid.with_objects-IsValid snapshot.objects) built).0,
        ground (arith, h₂),
      )
