-- ===== src/Nakamoto/Chain/Record.antt =====
-- Recording a block with its store, at the head or beside it, keeps the chain valid.
use mathlib.Core.Path.{subst, subst₂}
use meow.Base.{
  ◌≤◌, ◌<◌, ◌≡◌, refl, sym, ◌∙◌, ap, false, some, ◌==◌, ==_iff, arith, Bool-cases, inl, inr, ◌⊎◌,
  Option-cases,
}
use meow.BTreeMap.{BTreeMap, get, insert, contains_key}
use meow.BTreeMap.Laws.{get-insert, insert-IsSorted}
use meow.Types.Primitives.{Digest}
use meow.External.{External}
use meow.Nakamoto.Header.{Block}
use meow.Nakamoto.Store.{Store}
use meow.Nakamoto.Store.Valid
use meow.Nakamoto.Roots.{block_hash, compute_state_root}
use meow.Nakamoto.Chain.State.{ChainState}
use meow.Nakamoto.Chain.Apply.{with_head, recorded}
use meow.Nakamoto.Chain.Valid.{IsValid}

-- An entry of a map after an insertion is the new one, or one from before.
pub get-insert_cases :
    {V : Type 0} (d k : Digest) (v w : V) (m : BTreeMap V)
    → get d (insert k v m) ≡ some w
    → ((d ≡ k) × (w ≡ v)) ⊎ (((d == k) ≡ false) × (get d m ≡ some w))
get-insert_cases d k v w m h = elim (Bool-cases (d == k)) [
  | inl same ↦ inl (ground (arith, get-insert d k v m))
  | inr other ↦ inr (ground (arith, get-insert d k v m))
]

module _ (x : External) (block : Block) (store : Store) (c : ChainState) (v : IsValid x c)
    (sv : Valid.IsValid store)
    (root : 0 < block.header.height → compute_state_root x store ≡ block.header.state_root) where
  abbrev hash : Digest
  hash = block_hash x block

  abbrev blocks : BTreeMap Block
  blocks = insert hash block c.blocks

  abbrev snapshots : BTreeMap Store
  snapshots = insert hash store c.snapshots

  same_keys' : (d : Digest) → contains_key d snapshots ≡ contains_key d blocks
  same_keys' d =
      ground (
        arith,
        get-insert d hash block c.blocks,
        get-insert d hash store c.snapshots,
        v.same_keys d,
      )

  filed' : (d : Digest) (b : Block) → get d blocks ≡ some b → block_hash x b ≡ d
  filed' d b h = elim (get-insert_cases d hash block b c.blocks h) [
    | inl new ↦ ap (block_hash x) new.1 ∙ sym new.0
    | inr old ↦ v.filed d b old.1
  ]

  stores-IsValid' : (d : Digest) (s : Store) → get d snapshots ≡ some s → Valid.IsValid s
  stores-IsValid' d s h = elim (get-insert_cases d hash store s c.snapshots h) [
    | inl new ↦ subst Valid.IsValid (sym new.1) sv
    | inr old ↦ v.stores_valid d s old.1
  ]

  committed_new :
      (b : Block) (s : Store)
      → b ≡ block
      → s ≡ store
      → 0 < b.header.height
      → compute_state_root x s ≡ b.header.state_root
  committed_new b s p q h =
      subst₂
        (λ (b' : Block) (s' : Store).
          0 < b'.header.height → compute_state_root x s' ≡ b'.header.state_root)
        (sym p) (sym q) root h

  committed' :
      (d : Digest) (b : Block) (s : Store)
      → get d blocks ≡ some b
      → get d snapshots ≡ some s
      → 0 < b.header.height
      → compute_state_root x s ≡ b.header.state_root
  committed' d b s h k p = elim (get-insert_cases d hash block b c.blocks h) [
    | inl new ↦ elim (get-insert_cases d hash store s c.snapshots k) [
      | inl new' ↦ committed_new b s new.1 new'.1 p
      | inr old' ↦ absurd (ground (arith, new.0, old'.0))
    ]
    | inr old ↦ elim (get-insert_cases d hash store s c.snapshots k) [
      | inl new' ↦ absurd (ground (arith, new'.0, old.0))
      | inr old' ↦ v.committed d b s old.1 old'.1 p
    ]
  ]

  -- the block that the head names
  old_head : (h : Block) × (get c.head c.blocks ≡ some h)
  old_head = elim (Option-cases (get c.head c.blocks)) [
    | inl e ↦ absurd (ground (arith, e, v.head_held))
    | inr held ↦ held
  ]

  not_higher :
      (d : Digest) (b : Block)
      → ((h : Block) → get c.head c.blocks ≡ some h → h.header.height ≤ block.header.height)
      → get d blocks ≡ some b
      → b.header.height ≤ block.header.height
  not_higher d b top p =
      let (h, held) = old_head in
      elim (get-insert_cases d hash block b c.blocks p) [
        | inl new ↦
            subst (λ (a : Block). a.header.height ≤ block.header.height) (sym new.1) (omega arith)
        | inr old ↦ omega (arith, v.head_highest d b h old.1 held, top h held)
      ]

  get_new : get hash blocks ≡ some block
  get_new = ground (arith, get-insert hash hash block c.blocks)

  -- As the new head, where it is no lower than the old one.
  pub with_head-IsValid :
      ((h : Block) → get c.head c.blocks ≡ some h → h.header.height ≤ block.header.height)
      → IsValid x (with_head x block store c)
  with_head-IsValid top = record {
    blocks_sorted = insert-IsSorted hash block c.blocks v.blocks_sorted;
    snapshots_sorted = insert-IsSorted hash store c.snapshots v.snapshots_sorted;
    same_keys = same_keys';
    filed = filed';
    stores_valid = stores-IsValid';
    committed = committed';
    head_held = rw get_new refl;
    head_highest = λ d b h p q.
        let same : block ≡ h = cc (get_new, q) in
        subst (λ (a : Block). b.header.height ≤ a.header.height) same (not_higher d b top p);
  }

  get_other : (d : Digest) → (d == hash) ≡ false → get d blocks ≡ get d c.blocks
  get_other d n = ground (arith, get-insert d hash block c.blocks)

  head_is_other : contains_key hash c.blocks ≡ false → (c.head == hash) ≡ false
  head_is_other fresh = elim (Bool-cases (c.head == hash)) [
    | inl same ↦
        let e : c.head ≡ hash = (==_iff c.head hash).0 same in
        cc (ap (λ d. contains_key d c.blocks) e, v.head_held)
    | inr other ↦ other
  ]

  -- Beside the head, where it is new and no higher.
  pub recorded-IsValid :
      contains_key hash c.blocks ≡ false
      → ((h : Block) → get c.head c.blocks ≡ some h → block.header.height ≤ h.header.height)
      → IsValid x (recorded x block store c)
  recorded-IsValid fresh low =
      let other : (c.head == hash) ≡ false = head_is_other fresh in
      record {
        blocks_sorted = insert-IsSorted hash block c.blocks v.blocks_sorted;
        snapshots_sorted = insert-IsSorted hash store c.snapshots v.snapshots_sorted;
        same_keys = same_keys';
        filed = filed';
        stores_valid = stores-IsValid';
        committed = committed';
        head_held = rw (get_other c.head other) v.head_held;
        head_highest = λ d b h p q.
            let q' : get c.head c.blocks ≡ some h = sym (get_other c.head other) ∙ q in
            elim (get-insert_cases d hash block b c.blocks p) [
              | inl new ↦
                  subst (λ (a : Block). a.header.height ≤ h.header.height) (sym new.1) (low h q')
              | inr old ↦ v.head_highest d b h old.1 q'
            ];
      }
