-- ===== src/Nakamoto/Chain/Prune.antt =====
-- What pruning keeps: exactly the blocks and snapshots that are not below the cutoff.
use meow.Base.{
  ℕ, ◌+◌, ◌-◌, ◌≤◌, ◌≡◌, ◌∙◌, Bool, true, Option, none, some, ltb, leb, if◌then◌else◌, ok, arith,
  Bool-cases, inl, inr, Option-cases,
}
use meow.BTreeMap.{get, contains_key, IsSorted, keys_where}
use meow.BTreeMap.Laws.{get-remove_all, contains-keys_where, remove_all-IsSorted, passes}
use meow.Types.Primitives.{Digest}
use meow.External.{External}
use meow.Nakamoto.Header.{Block}
use meow.Nakamoto.Store.{Store}
use meow.Nakamoto.Chain.State.{ChainState, drop_below, prune_finalized_blocks}
use meow.Nakamoto.Chain.Valid.{IsValid}

abbrev pub is_below : ℕ → Block → Bool
is_below cutoff b = ltb b.header.height cutoff

module _ (cutoff : ℕ) (c : ChainState) where
  -- is the block of this hash held, and below the cutoff?
  abbrev dropped : Digest → Bool
  dropped d = passes (is_below cutoff) (get d c.blocks)

  get-drop_below_blocks :
      (d : Digest)
      → IsSorted c.blocks
      → get d (drop_below cutoff c).blocks ≡ (if dropped d then none else get d c.blocks)
  unfolding drop_below
  get-drop_below_blocks d v =
      get-remove_all d (keys_where (is_below cutoff) c.blocks) c.blocks v
      ∙ rw (contains-keys_where (is_below cutoff) d c.blocks v)

  get-drop_below_snapshots :
      (d : Digest)
      → IsSorted c.blocks
      → IsSorted c.snapshots
      → get d (drop_below cutoff c).snapshots ≡ (if dropped d then none else get d c.snapshots)
  unfolding drop_below
  get-drop_below_snapshots d v w =
      get-remove_all d (keys_where (is_below cutoff) c.blocks) c.snapshots w
      ∙ rw (contains-keys_where (is_below cutoff) d c.blocks v)

  kept_block :
      (d : Digest) (b : Block)
      → IsSorted c.blocks
      → get d (drop_below cutoff c).blocks ≡ some b
      → (get d c.blocks ≡ some b) × (cutoff ≤ b.header.height)
  kept_block d b v h = ground (arith, get-drop_below_blocks d v)

  kept_snapshot :
      (d : Digest) (s : Store)
      → IsSorted c.blocks
      → IsSorted c.snapshots
      → get d (drop_below cutoff c).snapshots ≡ some s
      → get d c.snapshots ≡ some s
  kept_snapshot d s v w h = ground (arith, get-drop_below_snapshots d v w)

  head_kept :
      IsSorted c.blocks
      → ((h : Block) → get c.head c.blocks ≡ some h → cutoff ≤ h.header.height)
      → contains_key c.head c.blocks ≡ true
      → contains_key c.head (drop_below cutoff c).blocks ≡ true
  head_kept v high held = elim (Option-cases (get c.head c.blocks)) [
    | inl e ↦ cc (rw e at held)
    | inr (h, e) ↦ ground (arith, get-drop_below_blocks c.head v, high h e)
  ]

  pub drop_below-IsValid :
      (x : External)
      → ((h : Block) → get c.head c.blocks ≡ some h → cutoff ≤ h.header.height)
      → IsValid x c
      → IsValid x (drop_below cutoff c)
  unfolding drop_below
  drop_below-IsValid x high v = record {
    blocks_sorted = remove_all-IsSorted _ c.blocks v.blocks_sorted;
    snapshots_sorted = remove_all-IsSorted _ c.snapshots v.snapshots_sorted;
    same_keys = λ d. ground (
      arith,
      get-drop_below_blocks d v.blocks_sorted,
      get-drop_below_snapshots d v.blocks_sorted v.snapshots_sorted,
      v.same_keys d,
    );
    filed = λ d b h. v.filed d b (kept_block d b v.blocks_sorted h).0;
    stores_valid =
        λ d s h. v.stores_valid d s (kept_snapshot d s v.blocks_sorted v.snapshots_sorted h);
    committed = λ d b s h k.
        v.committed d b s (kept_block d b v.blocks_sorted h).0
          (kept_snapshot d s v.blocks_sorted v.snapshots_sorted k);
    head_held = head_kept v.blocks_sorted high v.head_held;
    head_highest = λ d b h p q.
        v.head_highest d b h (kept_block d b v.blocks_sorted p).0
          (kept_block c.head h v.blocks_sorted q).0;
  }

-- the entry, if it passes a test
abbrev pub keep_if {ℓ} : {A : Type ℓ} → (A → Bool) → Option A → Option A
keep_if p none = none
keep_if p (some a) = if p a then some a else none

-- Is a block within `snapshot_depth` of a head of this height?
abbrev pub is_within : ℕ → ℕ → Block → Bool
is_within height depth b = leb height (b.header.height + depth)

module _ (x : External) (c : ChainState) (h : Block) (v : IsValid x c)
    (held : get c.head c.blocks ≡ some h) where
  -- what is left of a chain after pruning
  abbrev pruned : ChainState
  pruned =
      if leb h.header.height c.snapshot_depth
      then c
      else drop_below (h.header.height - c.snapshot_depth) c

  prune-eq : {E : Type 0} → prune_finalized_blocks {E = E} c ≡ ok pruned
  unfolding prune_finalized_blocks
  prune-eq = rw held

  pruned-IsValid : IsValid x pruned
  pruned-IsValid = elim (Bool-cases (leb h.header.height c.snapshot_depth)) [
    | inl short ↦ rw short v
    | inr long ↦
        rw long
          (drop_below-IsValid (h.header.height - c.snapshot_depth) c x (λ g e. ground arith) v)
  ]

  get-pruned_blocks :
      (d : Digest)
      → get d pruned.blocks ≡ keep_if (is_within h.header.height c.snapshot_depth) (get d c.blocks)
  get-pruned_blocks d = elim (Bool-cases (leb h.header.height c.snapshot_depth)) [
    | inl short ↦ rw short (ground arith)
    | inr long ↦ rw long (
        ground
          (arith, get-drop_below_blocks (h.header.height - c.snapshot_depth) c d v.blocks_sorted))
  ]

  get-pruned_snapshots :
      (d : Digest)
      → get d pruned.snapshots ≡ (if contains_key d pruned.blocks then get d c.snapshots else none)
  get-pruned_snapshots d = elim (Bool-cases (leb h.header.height c.snapshot_depth)) [
    | inl short ↦ rw short (ground (arith, v.same_keys d))
    | inr long ↦ rw long (
        ground (
          arith,
          v.same_keys d,
          get-drop_below_blocks (h.header.height - c.snapshot_depth) c d v.blocks_sorted,
          get-drop_below_snapshots (h.header.height - c.snapshot_depth) c d v.blocks_sorted
              v.snapshots_sorted,
        ))
  ]

  -- Pruning a valid chain never fails and keeps it valid, with the same head. It keeps exactly the
  -- blocks that are at most `snapshot_depth` below the head, and exactly their snapshots.
  pub prune_finalized_blocks_lem :
      {E : Type 0}
      → (c' : ChainState) × (prune_finalized_blocks {E = E} c ≡ ok c')
        × IsValid x c'
        × (c'.head ≡ c.head)
        × ((d : Digest)
            → (get d c'.blocks
                ≡ keep_if (is_within h.header.height c.snapshot_depth) (get d c.blocks))
              × (get d c'.snapshots
                  ≡ (if contains_key d c'.blocks then get d c.snapshots else none)))
  unfolding drop_below
  prune_finalized_blocks_lem = (
    pruned,
    prune-eq,
    pruned-IsValid,
    ground arith,
    λ d. (get-pruned_blocks d, get-pruned_snapshots d),
  )
