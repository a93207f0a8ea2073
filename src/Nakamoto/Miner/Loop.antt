-- ===== src/Nakamoto/Miner/Loop.antt =====
-- The loop of `grind` (miner/mining_work.rs) over shrinking batches: what it returns.
use mathlib.Core.List.Sublist
use meow.Base.{
  ℕ, zero, suc, ◌≡◌, refl, sym, ◌∙◌, ap, List, length, ok, arith, inl, inr, Option-cases,
}
use meow.Types.Transaction.{SignedTransaction}
use meow.External.{External, BcsLaws}
use meow.Executor.{Executor}
use meow.Nakamoto.Header.{BlockHeader}
use meow.Nakamoto.Roots.{compute_transactions_root}
use meow.Nakamoto.Miner.Work.{MiningWork, search_nonce, max_nonce, grind_loop, grind}
use meow.Nakamoto.Miner.Reward.{IsReady}
use meow.Nakamoto.Miner.Mined.{Mined}
use meow.Nakamoto.Miner.Grind.{IsMined, search_nonce_lem, grind_pass_lem}

module _ (x : External) (e : Executor) (w : MiningWork) where
  of_nonce :
      (h g : BlockHeader) (batch : List SignedTransaction) (out : Mined)
      → g ≡ record h { nonce = g.nonce }
      → IsMined x e w g batch out
      → IsMined x e w h batch out
  of_nonce h g batch out same m = record {
    executes = m.executes;
    height = m.height ∙ ap (λ (k : BlockHeader). k.height) same;
    parent = m.parent ∙ ap (λ (k : BlockHeader). k.parent_hash) same;
    timestamp = m.timestamp ∙ ap (λ (k : BlockHeader). k.timestamp) same;
    solved = m.solved;
    root = m.root;
    reward_root = m.reward_root;
    rewards = m.rewards;
    counted = m.counted;
    among = m.among;
    nonempty = m.nonempty;
    shorter = m.shorter;
    distinct = m.distinct;
    signed = m.signed;
  }

  module _ (bcs : BcsLaws x) (ready : IsReady x w) where
    grind_loop_lem :
        (fuel : ℕ) (h : BlockHeader) (batch : List SignedTransaction) (out : Mined)
        → compute_transactions_root x batch ≡ h.transactions_root
        → grind_loop x e fuel w h batch ≡ ok out
        → IsMined x e w h batch out
    unfolding grind_loop
    grind_loop_lem zero h batch out root p = cc
    grind_loop_lem (suc fuel) h batch out root p =
        elim (Option-cases (search_nonce x max_nonce (record h { nonce = 0 }) w.difficulty)) [
          | inl none_left ↦ cc (rw (none_left, grind_loop) at p)
          | inr (solved, found) ↦
              let (good, same) =
                search_nonce_lem x e w max_nonce (record h { nonce = 0 }) solved w.difficulty
                  found in
              let root' : compute_transactions_root x batch ≡ solved.transactions_root =
                root ∙ sym (ap (λ (k : BlockHeader). k.transactions_root) same) in
              elim (grind_pass_lem x e w bcs ready (grind_loop x e fuel w) solved batch out root'
                good (rw (found, grind_loop) at p)) [
                  | inl mined ↦ of_nonce h solved batch out same mined
                  | inr (us, shorter, among, distinct, signed, q) ↦
                      let m =
                        grind_loop_lem fuel
                          (record solved { transactions_root = compute_transactions_root x us }) us
                          out refl q in
                      of_nonce h solved batch out same (record {
                        executes = m.executes;
                        height = m.height;
                        parent = m.parent;
                        timestamp = m.timestamp;
                        solved = m.solved;
                        root = m.root;
                        reward_root = m.reward_root;
                        rewards = m.rewards;
                        counted = m.counted;
                        among = Sublist.trans m.among among;
                        nonempty = m.nonempty;
                        shorter = omega (arith, m.shorter, shorter);
                        distinct = λ n. m.distinct (distinct n);
                        signed = λ k. m.signed (signed k);
                      })
                ]
        ]

    -- Every block that `grind` returns, for work whose header commits to its batch, has the work's
    -- parent, height and timestamp and meets its difficulty. Its transactions, of which there is at
    -- least one, are some of the batch, in its order, without repeats if the batch has none and well
    -- signed if the batch is, with a result for each; its header commits to them and to the reward.
    -- `execute_block` over the parent's store succeeds with the very store that came with the block.
    -- It is assumed that the miner's key pair verifies what it signs, that the miner's address is the
    -- one of that key pair, that its reward transactions are within the size limit, and that BCS
    -- decodes what it encodes.
    pub grind_lem :
        (out : Mined)
        → compute_transactions_root x w.batch ≡ w.header.transactions_root
        → grind x e w ≡ ok out
        → IsMined x e w w.header w.batch out
    unfolding grind
    grind_lem out root p = grind_loop_lem (suc (length w.batch)) w.header w.batch out root p
