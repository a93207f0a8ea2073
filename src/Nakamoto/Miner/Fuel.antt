-- ===== src/Nakamoto/Miner/Fuel.antt =====
-- The loop of `grind` (miner/mining_work.rs) ends within its fuel: a pass that goes on does so with a
-- shorter batch.
use meow.Base.{
  ℕ, zero, suc, ◌<◌, ◌≡◌, refl, sym, ◌∙◌, ap, Bool, true, false, List, [], ◌∷◌, ◌==◌, ltb, length,
  is_empty, Outcome, ok, err, panic, ◌>>=◌, ◌>>◌, reject_if, arith, Outcome-cases, inl, inr,
  Bool-cases, Option-cases,
}
use meow.BTreeMap.{remove}
use meow.Types.Object.{Object}
use meow.Types.Transaction.{SignedTransaction, ExecutionResult}
use meow.External.{External}
use meow.Executor.{Executor, ExternalContext, new_context}
use meow.Nakamoto.Header.{BlockHeader}
use meow.Nakamoto.Store.{
  Store, insert_object, apply_created, apply_changed, apply_destroyed, apply_execution_result,
}
use meow.Nakamoto.Roots.{mining_hash, compute_transactions_root}
use meow.Nakamoto.Chain.{execute_on, total_gas, unwrap}
use meow.Nakamoto.Miner.Work.{
  MiningWork, GrindEnd, discarded, out_of_fuel, search_nonce, max_nonce, execute_batch, add_reward,
  seal, grind_pass, grind_loop, grind,
}
use meow.Nakamoto.Miner.Execution.{execute_batch_lem}
use meow.Nakamoto.Miner.Mined.{Mined}
use meow.Nakamoto.Miner.Grind.{search_nonce_lem, shrinks}

abbrev is_err {ℓ} : {E : Type 0} {A : Type ℓ} → Outcome E A → Bool
is_err (ok a) = false
is_err (err f) = true
is_err panic = false

bind_no_err {ℓ κ} :
    {E : Type 0} {A : Type ℓ} {B : Type κ} (m : Outcome E A) (f : A → Outcome E B)
    → is_err m ≡ false
    → ((a : A) → is_err (f a) ≡ false)
    → is_err (m >>= f) ≡ false
bind_no_err (ok a) f h k = k a
bind_no_err (err g) f h k = cc
bind_no_err panic f h k = refl

created_no_err : (os : List Object) (s : Store) → is_err (apply_created {E = GrindEnd} os s) ≡ false
unfolding apply_created
created_no_err [] s = refl
created_no_err (o ∷ os) s = ground (arith, created_no_err os (insert_object o s))

changed_no_err : (os : List Object) (s : Store) → is_err (apply_changed {E = GrindEnd} os s) ≡ false
unfolding apply_changed
changed_no_err [] s = refl
changed_no_err (o ∷ os) s = ground (arith, changed_no_err os (insert_object o s))

destroyed_no_err :
    (os : List Object) (s : Store) → is_err (apply_destroyed {E = GrindEnd} os s) ≡ false
unfolding apply_destroyed
destroyed_no_err [] s = refl
destroyed_no_err (o ∷ os) s =
    ground (arith, destroyed_no_err os (record s { objects = remove o.address s.objects }))

result_no_err :
    (r : ExecutionResult) (s : Store) → is_err (apply_execution_result {E = GrindEnd} r s) ≡ false
unfolding apply_execution_result
result_no_err r s = bind_no_err _ _ (created_no_err r.created_objects s) λ t.
    bind_no_err _ _ (changed_no_err r.changed_objects t) λ u. destroyed_no_err r.destroyed_objects u

unwrap_no_err :
    {F A : Type 0} (x : External) (m : Outcome F A) → is_err (unwrap x {F = GrindEnd} m) ≡ false
unwrap_no_err x (ok a) = refl
unwrap_no_err x (err f) = refl
unwrap_no_err x panic = refl

module _ (x : External) (e : Executor) where
  batch_no_err :
      (ctx : ExternalContext) (ts : List SignedTransaction) (s : Store)
      → is_err (execute_batch x e {E = GrindEnd} ctx ts s) ≡ false
  unfolding execute_batch
  batch_no_err ctx [] s = refl
  batch_no_err ctx (t ∷ ts) s = elim (Outcome-cases (execute_on x e ctx t.transaction s)) [
    | inl (r, run) ↦
        rw (run, is_err, execute_batch)
          (bind_no_err _ _ (result_no_err r s)
            λ s'. bind_no_err _ _ (batch_no_err ctx ts s') λ rest. refl)
    | inr (inl (f, run)) ↦ rw (run, is_err, execute_batch) (batch_no_err ctx ts s)
    | inr (inr run) ↦ rw (run, is_err, execute_batch) refl
  ]

  add_reward_no_err :
      (w : MiningWork) (h : BlockHeader) (total : ℕ) (s : Store)
      → is_err (add_reward x e {E = GrindEnd} w h total s) ≡ false
  unfolding add_reward
  add_reward_no_err w h total s = elim (Bool-cases (ltb 0 total)) [
    | inl some_gas ↦
        rw (some_gas, is_err, add_reward)
          (bind_no_err _ _ (unwrap_no_err x _) λ r. bind_no_err _ _ (result_no_err r s) λ s'. refl)
    | inr no_gas ↦ rw (no_gas, is_err, add_reward) refl
  ]

  seal_no_err :
      (w : MiningWork) (h : BlockHeader) (ts : List SignedTransaction) (rs : List ExecutionResult)
      (s : Store)
      → is_err (seal x e {E = GrindEnd} w h ts rs s) ≡ false
  unfolding seal
  seal_no_err w h ts rs s =
      bind_no_err _ _ (add_reward_no_err w h (total_gas x e rs) s) λ paid. refl

  -- running out of fuel, as a test
  abbrev out_of_time : Outcome GrindEnd Mined → Bool
  out_of_time (err out_of_fuel) = true
  out_of_time (err discarded) = false
  out_of_time (ok m) = false
  out_of_time panic = false

  in_time : (m : Outcome GrindEnd Mined) → is_err m ≡ false → out_of_time m ≡ false
  in_time (ok m) h = refl
  in_time panic h = refl
  in_time (err f) h = cc

  bind_in_time :
      {A : Type 0} (m : Outcome GrindEnd A) (f : A → Outcome GrindEnd Mined)
      → is_err m ≡ false
      → ((a : A) → m ≡ ok a → out_of_time (f a) ≡ false)
      → out_of_time (m >>= f) ≡ false
  bind_in_time (ok a) f h k = k a refl
  bind_in_time (err g) f h k = cc
  bind_in_time panic f h k = refl

  pass_end :
      (w : MiningWork) (again : BlockHeader → List SignedTransaction → Outcome GrindEnd Mined)
      (h : BlockHeader) (batch : List SignedTransaction)
      → ((us : List SignedTransaction)
          → length us < length batch
          → out_of_time (again (record h { transactions_root = compute_transactions_root x us }) us)
            ≡ false)
      → (s : Store) (us : List SignedTransaction) (rs : List ExecutionResult)
      → ((compute_transactions_root x us == h.transactions_root) ≡ false → length us < length batch)
      → out_of_time (
          reject_if (is_empty us) discarded
          >> elim (compute_transactions_root x us == h.transactions_root) [
            | true ↦ seal x e w h us rs s
            | false ↦ again (record h { transactions_root = compute_transactions_root x us }) us
          ])
        ≡ false
  pass_end w again h batch more s us rs shorter = elim (Bool-cases (is_empty us)) [
    | inl nothing ↦ rw nothing refl
    | inr some_left ↦ elim (Bool-cases (compute_transactions_root x us == h.transactions_root)) [
      | inl same ↦ rw (some_left, same) (in_time _ (seal_no_err w h us rs s))
      | inr differs ↦ rw (some_left, differs) (more us (shorter differs))
    ]
  ]

  grind_pass_in_time :
      (w : MiningWork) (again : BlockHeader → List SignedTransaction → Outcome GrindEnd Mined)
      (h : BlockHeader) (batch : List SignedTransaction)
      → compute_transactions_root x batch ≡ h.transactions_root
      → ((us : List SignedTransaction)
          → length us < length batch
          → out_of_time (again (record h { transactions_root = compute_transactions_root x us }) us)
            ≡ false)
      → out_of_time (grind_pass x e w again h batch) ≡ false
  unfolding grind_pass
  grind_pass_in_time w again h batch root more =
      let ctx = new_context (mining_hash x h) h.timestamp in
      bind_in_time _ _ (batch_no_err ctx batch w.parent_store) λ (s, us, rs) run.
        let part = execute_batch_lem x e ctx {E = GrindEnd} batch w.parent_store (s, us, rs) run in
        pass_end w again h batch more s us rs (shrinks x e w h batch s us rs root part)

  grind_loop_in_time :
      (w : MiningWork) (fuel : ℕ) (h : BlockHeader) (batch : List SignedTransaction)
      → compute_transactions_root x batch ≡ h.transactions_root
      → length batch < fuel
      → out_of_time (grind_loop x e fuel w h batch) ≡ false
  unfolding grind_loop
  grind_loop_in_time w zero h batch root enough = absurd (omega (arith, enough))
  grind_loop_in_time w (suc fuel) h batch root enough =
      elim (Option-cases (search_nonce x max_nonce (record h { nonce = 0 }) w.difficulty)) [
        | inl none_left ↦ rw (none_left, out_of_time, grind_loop) refl
        | inr (solved, found) ↦
            let (good, same) =
              search_nonce_lem x e w max_nonce (record h { nonce = 0 }) solved w.difficulty found in
            let root' : compute_transactions_root x batch ≡ solved.transactions_root =
              root ∙ sym (ap (λ (k : BlockHeader). k.transactions_root) same) in
            rw (found, out_of_time, grind_loop)
              (grind_pass_in_time w (grind_loop x e fuel w) solved batch root' λ us shorter.
                grind_loop_in_time w fuel
                  (record solved { transactions_root = compute_transactions_root x us }) us refl
                  (omega (arith, shorter, enough)))
      ]

  -- For work whose header commits to its batch, `grind` never runs out of fuel: the source's loop
  -- ends, with a block, with the round discarded, or with a panic of the store or the reward.
  pub grind_terminates :
      (w : MiningWork)
      → compute_transactions_root x w.batch ≡ w.header.transactions_root
      → ¬ (grind x e w ≡ err out_of_fuel)
  unfolding grind
  grind_terminates w root p =
      let in_fuel =
        grind_loop_in_time w (suc (length w.batch)) w.header w.batch root (omega arith) in
      cc (ap out_of_time p, in_fuel)
