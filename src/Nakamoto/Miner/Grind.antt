-- ===== src/Nakamoto/Miner/Grind.antt =====
-- `MiningWork::grind` (miner/mining_work.rs): every block that it returns is one that a validator
-- re-executes to the same store, with the fields that the validator checks.
use mathlib.Core.Path.{subst}
use mathlib.Core.List.{Sublist}
use meow.Base.{
  ℕ, zero, suc, ◌+◌, ◌≤◌, ◌<◌, ◌≡◌, refl, ◌∙◌, ap, true, false, some, List, ◌==◌, ==_iff, length,
  is_empty, is_some, Outcome, ok, arith, >>=-eq-ok, inl, inr, ◌⊎◌, Bool-cases, reject_if-eq-ok,
}
use meow.Types.Transaction.{SignedTransaction, ExecutionResult}
use meow.External.{External, BcsLaws}
use meow.Executor.{Executor, new_context}
use meow.Nakamoto.Header.{BlockHeader, mining_header}
use meow.Nakamoto.Store.{Store}
use meow.Nakamoto.Roots.{mining_hash, compute_transactions_root, meets_difficulty, digests}
use meow.Base.{NoRepeats}
use meow.Nakamoto.Chain.{total_gas, execute_block, reward_digest, same_bool, validate_signatures}
use meow.Nakamoto.Miner.Work.{
  MiningWork, GrindEnd, search_nonce, execute_batch, add_reward, seal, grind_pass,
}
use meow.Nakamoto.Miner.Execution.{IsPart, execute_batch_lem}
use meow.Nakamoto.Miner.Reward.{IsReady, add_reward_lem, sum_u64-lt, Paid}
use meow.Nakamoto.Miner.Mined.{Mined, sealed, execute_sealed, paid_both}

module _ (x : External) (e : Executor) (w : MiningWork) where
  -- A block for a header and a batch, as a validator wants it: its proof of work, roots and counts
  -- are right, its transactions are those of a part of the batch, in its order, and executing it over the parent's store
  -- succeeds and gives the store that came with it.
  pub record IsMined (h : BlockHeader) (batch : List SignedTransaction) (out : Mined) : Type 0 where
    pub executes : execute_block x e out.0 w.parent_store ≡ ok out.1
    pub height : out.0.header.height ≡ h.height
    pub parent : out.0.header.parent_hash ≡ h.parent_hash
    pub timestamp : out.0.header.timestamp ≡ h.timestamp
    pub solved : meets_difficulty x out.0.header w.difficulty ≡ true
    pub root : compute_transactions_root x out.0.transactions ≡ out.0.header.transactions_root
    pub reward_root : out.0.header.reward_root ≡ reward_digest x out.0.reward_transaction
    pub rewards :
        same_bool (is_some out.0.reward_transaction) (is_some out.0.reward_transaction_result)
        ≡ true
    pub counted : length out.0.results ≡ length out.0.transactions
    pub among : Sublist out.0.transactions batch
    pub nonempty : is_empty out.0.transactions ≡ false
    pub shorter : length out.0.transactions ≤ length batch
    pub distinct : NoRepeats (digests x batch) → NoRepeats (digests x out.0.transactions)
    pub signed :
        validate_signatures x batch ≡ ok tt → validate_signatures x out.0.transactions ≡ ok tt

  -- The nonce search returns a header that meets the difficulty and differs in the nonce alone.
  pub search_nonce_lem :
      (left : ℕ) (h solved : BlockHeader) (difficulty : ℕ)
      → search_nonce x left h difficulty ≡ some solved
      → (meets_difficulty x solved difficulty ≡ true) × (solved ≡ record h { nonce = solved.nonce })
  unfolding search_nonce
  search_nonce_lem zero h solved difficulty p = ground arith
  search_nonce_lem (suc left) h solved difficulty p =
      elim (Bool-cases (meets_difficulty x h difficulty)) [
        | inl good ↦
            let same : h ≡ solved = cc (rw (good, search_nonce) at p) in
            subst
              (λ (g : BlockHeader).
                (meets_difficulty x g difficulty ≡ true) × (g ≡ record h { nonce = g.nonce }))
              same (good, refl)
        | inr bad ↦
            search_nonce_lem left (record h { nonce = h.nonce + 1 }) solved difficulty
              (rw (bad, search_nonce) at p)
      ]

  pub shrinks :
      (h : BlockHeader) (batch : List SignedTransaction) (s : Store) (us : List SignedTransaction)
      (rs : List ExecutionResult)
      → compute_transactions_root x batch ≡ h.transactions_root
      → IsPart x e (new_context (mining_hash x h) h.timestamp) batch w.parent_store (s, us, rs)
      → (compute_transactions_root x us == h.transactions_root) ≡ false
      → length us < length batch
  shrinks h batch s us rs root part differs = elim (Bool-cases (length us == length batch)) [
    | inl same ↦
        let whole : us ≡ batch = part.whole ((==_iff (length us) (length batch)).0 same) in
        let equal : compute_transactions_root x us ≡ h.transactions_root =
          ap (compute_transactions_root x) whole ∙ root in
        cc ((==_iff _ _).1 equal, differs)
    | inr other ↦ ground (arith, part.shorter)
  ]

  module _ (bcs : BcsLaws x) (ready : IsReady x w) where
    sealed-IsMined :
        (h : BlockHeader) (batch : List SignedTransaction) (s : Store) (ts : List SignedTransaction)
        (rs : List ExecutionResult) (paid : Paid)
        → IsPart x e (new_context (mining_hash x h) h.timestamp) batch w.parent_store (s, ts, rs)
        → is_empty ts ≡ false
        → compute_transactions_root x ts ≡ h.transactions_root
        → meets_difficulty x h w.difficulty ≡ true
        → add_reward x e {E = GrindEnd} w h (total_gas x e rs) s ≡ ok paid
        → IsMined h batch (sealed x e bcs w ready h ts rs paid)
    unfolding meets_difficulty mining_hash mining_header
    sealed-IsMined h batch s ts rs paid part some_left root solved pay = record {
      executes =
          execute_sealed x e bcs w ready h ts rs s paid part.replays
            (add_reward_lem x e bcs w ready h (total_gas x e rs) s paid (sum_u64-lt _) pay);
      height = refl;
      parent = refl;
      timestamp = refl;
      solved = solved;
      root = root;
      reward_root = refl;
      rewards = paid_both x e bcs w ready h (total_gas x e rs) s paid pay;
      counted = part.counted;
      among = part.among;
      nonempty = some_left;
      shorter = part.shorter;
      distinct = part.distinct;
      signed = part.signed;
    }

    -- a pass ends with a block, or goes on with a shorter batch and its root
    abbrev pub GoesOn :
        (BlockHeader → List SignedTransaction → Outcome GrindEnd Mined)
        → BlockHeader
        → List SignedTransaction
        → Outcome GrindEnd Mined
        → Type 0
    GoesOn again h batch end =
        (us : List SignedTransaction) × (length us < length batch)
        × Sublist us batch
        × (NoRepeats (digests x batch) → NoRepeats (digests x us))
        × (validate_signatures x batch ≡ ok tt → validate_signatures x us ≡ ok tt)
        × (again (record h { transactions_root = compute_transactions_root x us }) us ≡ end)

    seal_lem :
        (h : BlockHeader) (ts : List SignedTransaction) (rs : List ExecutionResult) (s : Store)
        (out : Mined)
        → seal x e {E = GrindEnd} w h ts rs s ≡ ok out
        → (paid : Paid) × (add_reward x e {E = GrindEnd} w h (total_gas x e rs) s ≡ ok paid)
          × (sealed x e bcs w ready h ts rs paid ≡ out)
    unfolding seal
    seal_lem h ts rs s out p =
        let (paid, pay, q) =
          >>=-eq-ok (add_reward x e {E = GrindEnd} w h (total_gas x e rs) s) _ p in
        (paid, pay, cc q)

    pub grind_pass_lem :
        (again : BlockHeader → List SignedTransaction → Outcome GrindEnd Mined) (h : BlockHeader)
        (batch : List SignedTransaction) (out : Mined)
        → compute_transactions_root x batch ≡ h.transactions_root
        → meets_difficulty x h w.difficulty ≡ true
        → grind_pass x e w again h batch ≡ ok out
        → IsMined h batch out ⊎ GoesOn again h batch (ok out)
    unfolding grind_pass
    grind_pass_lem again h batch out root solved p =
        let ctx = new_context (mining_hash x h) h.timestamp in
        let ((s, ts, rs), run, p₁) =
          >>=-eq-ok (execute_batch x e {E = GrindEnd} ctx batch w.parent_store) _ p in
        let part = execute_batch_lem x e ctx {E = GrindEnd} batch w.parent_store (s, ts, rs) run in
        let (some_left, p₂) = reject_if-eq-ok (is_empty ts) _ _ p₁ in
        elim (Bool-cases (compute_transactions_root x ts == h.transactions_root)) [
          | inl same ↦
              let (paid, pay, q) = seal_lem h ts rs s out (rw same at p₂) in
              inl (
                subst (IsMined h batch) q (
                  sealed-IsMined h batch s ts rs paid part some_left ((==_iff _ _).0 same) solved
                    pay))
          | inr differs ↦ inr (
            ts,
            shrinks h batch s ts rs root part differs,
            part.among,
            part.distinct,
            part.signed,
            rw differs at p₂,
          )
        ]
