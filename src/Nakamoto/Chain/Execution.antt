-- ===== src/Nakamoto/Chain/Execution.antt =====
-- The re-execution of a block (chain/mod.rs): what it has established when it succeeds, and that
-- it keeps a valid store valid.
use mathlib.Core.Path.{subst}
use meow.Base.{
  ℕ, ◌≡◌, ◌∙◌, ap, Bool, true, false, Option, none, some, List, [], ◌∷◌, ◌==◌, ==_iff, Outcome, ok,
  err, panic, Bool-cases, inl, inr, >>=-eq-ok, map_err, eqb, eq_of_eqb, guard-eq-ok,
}
use meow.Types.Primitives.{Digest}
use meow.Types.Transaction.{SignedTransaction, ExecutionResult, results-discrete}
use meow.Types.Transaction.{ExecutionResult-discrete}
use meow.Types.Validator.{validate_signed_transaction}
use meow.Nakamoto.SystemTransactions.{is_valid_reward_transaction, execute_reward_transaction}
use meow.External.{External}
use meow.Executor.{Executor, ExternalContext, new_context}
use meow.Nakamoto.Header.{Block}
use meow.Nakamoto.Store.{Store, apply_execution_result}
use meow.Nakamoto.Store.Valid
use meow.Nakamoto.Store.Valid.{apply_execution_result-IsValid}
use meow.Nakamoto.Roots.{compute_state_root, mining_hash}
use meow.Nakamoto.Chain.State.{ChainError}
use meow.Nakamoto.Chain.Replay.{
  replay, total_gas, check_reward, execute_on, or_false, apply_block_reward_transaction,
  execute_reward, apply_reward_result,
}
use meow.Nakamoto.Chain.Apply.{execute_block}

-- Whatever store the call returns is valid.
abbrev GivesValid : Outcome ChainError (Bool × Store) → Type 0
GivesValid m = (b : Bool) (s : Store) → m ≡ ok (b, s) → Valid.IsValid s

unchanged-GivesValid : (c : Bool) (s : Store) → Valid.IsValid s → GivesValid (ok (c, s))
unchanged-GivesValid c s v b t h = subst Valid.IsValid (cc h) v

module _ (x : External) (e : Executor) where
  -- Re-execution keeps a valid store valid.
  replay-IsValid :
      (ctx : ExternalContext) (ts : List SignedTransaction) (s : Store)
      (out : Store × List ExecutionResult)
      → Valid.IsValid s
      → replay x e ctx ts s ≡ ok out
      → Valid.IsValid out.0
  unfolding replay
  replay-IsValid ctx [] s out v h =
      let same : (s, []) ≡ out = cc h in
      subst (λ (o : Store × List ExecutionResult). Valid.IsValid o.0) same v
  replay-IsValid ctx (u ∷ ts) s out v h =
      let (r, p, h₁) = >>=-eq-ok (map_err _ (execute_on x e ctx u.transaction s)) _ h in
      let (s', q, h₂) = >>=-eq-ok (apply_execution_result r s) _ h₁ in
      let (rest, k, h₃) = >>=-eq-ok (replay x e ctx ts s') _ h₂ in
      let same : (rest.0, r ∷ rest.1) ≡ out = cc h₃ in
      subst (λ (o : Store × List ExecutionResult). Valid.IsValid o.0) same
        (replay-IsValid ctx ts s' rest (apply_execution_result-IsValid r s s' v q) k)

  or_false-GivesValid :
      {F A : Type 0} (s : Store) (m : Outcome F A) (k : A → Outcome ChainError (Bool × Store))
      → Valid.IsValid s
      → ((a : A) → GivesValid (k a))
      → GivesValid (or_false x e s m k)
  or_false-GivesValid s (ok a) k v f = f a
  or_false-GivesValid s (err g) k v f = unchanged-GivesValid false s v
  or_false-GivesValid s panic k v f = λ b t h. cc

  apply_reward_result-GivesValid :
      (r expected : ExecutionResult) (s : Store)
      → Valid.IsValid s
      → GivesValid (apply_reward_result x e r expected s)
  unfolding apply_reward_result
  apply_reward_result-GivesValid r expected s v =
      elim (Bool-cases (eqb ExecutionResult-discrete r expected)) [
        | inl same ↦ rw same (λ b t h.
            let (s', p, q) = >>=-eq-ok (apply_execution_result r s) _ h in
            subst Valid.IsValid (cc q) (apply_execution_result-IsValid r s s' v p))
        | inr other ↦ rw other (unchanged-GivesValid false s v)
      ]

  check_reward-GivesValid :
      (amount : ℕ) (t : Option SignedTransaction) (r : Option ExecutionResult) (hash : Digest)
      (s : Store)
      → Valid.IsValid s
      → GivesValid (check_reward x e amount t r hash s)
  unfolding check_reward apply_block_reward_transaction execute_reward
  check_reward-GivesValid amount none none hash s v = unchanged-GivesValid _ s v
  check_reward-GivesValid amount none (some r) hash s v = unchanged-GivesValid _ s v
  check_reward-GivesValid amount (some t) none hash s v = unchanged-GivesValid _ s v
  check_reward-GivesValid amount (some t) (some r) hash s v = elim (Bool-cases (amount == 0)) [
    | inl zero_gas ↦ rw zero_gas (unchanged-GivesValid false s v)
    | inr some_gas ↦ rw some_gas (
        or_false-GivesValid s (validate_signed_transaction x t) _ v λ u.
          elim (Bool-cases (is_valid_reward_transaction x t.transaction amount hash)) [
            | inl good ↦ rw good (
                or_false-GivesValid s (execute_reward_transaction e t.transaction s) _ v
                  (λ q. apply_reward_result-GivesValid q r s v))
            | inr bad ↦ rw bad (unchanged-GivesValid false s v)
          ])
  ]

  -- What the execution of a block has established when it succeeds.
  pub record IsExecuted (block : Block) (parent_store store : Store) : Type 0 where
    pub executed : Store
    pub replayed :
        replay x e
          (new_context (mining_hash x block.header) block.header.timestamp)
          block.transactions
          parent_store
        ≡ ok (executed, block.results)
    pub rewarded :
        check_reward x e
          (total_gas x e block.results)
          block.reward_transaction
          block.reward_transaction_result
          (mining_hash x block.header)
          executed
        ≡ ok (true, store)
    pub root : compute_state_root x store ≡ block.header.state_root

  replay_results :
      (block : Block) (parent_store : Store) (out : Store × List ExecutionResult)
      (rs : List ExecutionResult)
      → out.1 ≡ rs
      → replay x e
          (new_context (mining_hash x block.header) block.header.timestamp)
          block.transactions
          parent_store
        ≡ ok out
      → replay x e
          (new_context (mining_hash x block.header) block.header.timestamp)
          block.transactions
          parent_store
        ≡ ok (out.0, rs)
  replay_results block parent_store (s, rs') rs same h =
      h ∙ ap (λ (r : List ExecutionResult). ok (s, r)) same

  reward_passed :
      (block : Block) (executed store : Store) (rs rs' : List ExecutionResult) (paid : Bool × Store)
      → rs ≡ rs'
      → paid.1 ≡ store
      → paid.0 ≡ true
      → check_reward x e
          (total_gas x e rs)
          block.reward_transaction
          block.reward_transaction_result
          (mining_hash x block.header)
          executed
        ≡ ok paid
      → check_reward x e
          (total_gas x e rs')
          block.reward_transaction
          block.reward_transaction_result
          (mining_hash x block.header)
          executed
        ≡ ok (true, store)
  reward_passed block executed store rs rs' (b, s) same last reward h =
      subst
        (λ (r : List ExecutionResult).
          check_reward x e (total_gas x e r) block.reward_transaction
            block.reward_transaction_result (mining_hash x block.header) executed
          ≡ ok (true, store))
        same (h ∙ cc (last, reward))

  pub execute_block_lem :
      (block : Block) (parent_store store : Store)
      → execute_block x e block parent_store ≡ ok store
      → IsExecuted block parent_store store
  unfolding execute_block
  execute_block_lem block parent_store store h =
      let (out, p, h₁) =
        >>=-eq-ok
          (replay x e (new_context (mining_hash x block.header) block.header.timestamp)
            block.transactions parent_store)
          _ h in
      let (same, h₂) = guard-eq-ok (eqb results-discrete out.1 block.results) _ _ h₁ in
      let results : out.1 ≡ block.results = eq_of_eqb results-discrete out.1 block.results same in
      let (paid, q, h₃) =
        >>=-eq-ok
          (check_reward x e (total_gas x e out.1) block.reward_transaction
            block.reward_transaction_result (mining_hash x block.header) out.0)
          _ h₂ in
      let (reward, h₄) = guard-eq-ok paid.0 _ _ h₃ in
      let (rooted, h₅) =
        guard-eq-ok (compute_state_root x paid.1 == block.header.state_root) _ _ h₄ in
      let last : paid.1 ≡ store = cc h₅ in
      record {
        executed = out.0;
        replayed = replay_results block parent_store out block.results results p;
        rewarded = reward_passed block out.0 store out.1 block.results paid results last reward q;
        root =
            subst (λ (s : Store). compute_state_root x s ≡ block.header.state_root) last
              ((==_iff _ _).0 rooted);
      }

  pub execute_block-IsValid :
      (block : Block) (parent_store store : Store)
      → Valid.IsValid parent_store
      → execute_block x e block parent_store ≡ ok store
      → Valid.IsValid store
  execute_block-IsValid block parent_store store v h =
      let r = execute_block_lem block parent_store store h in
      check_reward-GivesValid (total_gas x e block.results) block.reward_transaction
        block.reward_transaction_result (mining_hash x block.header) r.executed
        (replay-IsValid _ block.transactions parent_store (r.executed, block.results) v r.replayed)
        true store r.rewarded
