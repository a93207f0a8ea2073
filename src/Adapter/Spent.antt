-- ===== src/Adapter/Spent.antt =====
-- What crates/meow-vm-adapter/src/executor/mod.rs charges for an execution, however it ends.
use mathlib.Core.Path.{subst}
use meow.Base.{
  ℕ, ◌*◌, ◌%◌, ◌^◌, ◌≤◌, ◌≡◌, refl, ◌⊎◌, String, Option, some, List, [], ◌∷◌, ◌++◌, Outcome, ok,
  err, panic, expect, map_err, >>=-eq-ok, expect-eq-ok, map_err-eq-ok, Every, Every-ok, Every-err,
  Every-panic, Every-then, inl, inr, arith, length, min,
}
use meow.Types.Primitives.{Address, Digest, Bytes}
use meow.Types.Object.{Object}
use meow.Types.Transaction.{
  Transaction, TransactionType, meow_call, meow_module_publish, ExecutionResult, success,
  new_result, failure_result, with_gas_used,
}
use meow.External.{External}
use meow.Executor.{ExternalContext}
use meow.Vm.Errors.{VmError}
use meow.Vm.Gas.{GasMeter, new_meter, charge, saturating_add, max_u64}
use meow.Vm.Natives.{VmConfig}
use meow.Vm.Types.{Value}
use meow.Vm.Machine.Run.{Stop, Machine, Left, call_vm}
use meow.Vm.Machine.Metered.{
  InLimit, Spends, Spends-refl, Spends-trans, Spends-InLimit, charge_lem, call_vm-Spends,
}
use meow.Adapter.Defs.{Platform, balance_from_object}
use meow.Adapter.Context.{Context}
use meow.Adapter.Resolvers.{Halt, resolve_gas_coin_object}
use meow.Adapter.Effects.{collect_object_effects, apply_gas_spending, spent_coin}
use meow.Adapter.Coins.{IsGasCoin, resolved, FieldsLaw, BalancesLaw, IsSpent, spent_coin_lem}
use meow.Adapter.Execute.{
  Verifier, message_of, End, refused, settle, conclude, after_run, run_prepared, Prepared, prepare,
  execute_meow_call, execute_meow_module_publish, publish_charged, publish_checked, check_module,
  execute_type, execute_charged, execute, base_transaction_gas_cost, gas_per_module_byte, vm_config,
}

module _ (x : External) (y : Platform) (verify : Verifier) (fuel : ℕ) where
  -- A meter after some spending, and a result that is a success if there is one.
  record Fair (g : GasMeter) (r : Outcome Halt ExecutionResult × GasMeter) : Type 0 where
    spends : Spends g r.1
    succeeds : Every (λ a. a.status ≡ success) r.0

  conclude_succeeds :
      (digest : Digest) (objects : List Object) (ctx : Context)
      → Every (λ a. a.status ≡ success) (conclude x y verify fuel digest objects ctx)
  unfolding conclude new_result
  conclude_succeeds digest objects ctx =
      Every-then (map_err Halt.failed (collect_object_effects x y ctx objects digest)) _
        (λ e _. Every-ok refl)

  after_run_succeeds :
      (digest : Digest) (objects : List Object) (left : Left (Option Value) Context)
      → Every (λ a. a.status ≡ success) (after_run x y verify fuel digest objects left)
  unfolding after_run
  after_run_succeeds digest objects (ok v, w) = conclude_succeeds digest objects w.state
  after_run_succeeds digest objects (err (Stop.failed e), w) = Every-err
  after_run_succeeds digest objects (err Stop.out_of_fuel, w) = Every-err
  after_run_succeeds digest objects (panic, w) = Every-panic

  run_prepared-Fair :
      (digest : Digest) (name : String) (ctx : Context) (g : GasMeter)
      (p : Outcome Halt (Prepared x y verify fuel))
      → InLimit g
      → Fair g (run_prepared x y verify fuel digest name ctx g p)
  unfolding run_prepared
  run_prepared-Fair digest name ctx g (err h) good = record {
    spends = Spends-refl g good;
    succeeds = Every-err;
  }
  run_prepared-Fair digest name ctx g panic good = record {
    spends = Spends-refl g good;
    succeeds = Every-panic;
  }
  run_prepared-Fair digest name ctx g (ok p) good =
      let start : Machine Context = record { gas = g; state = ctx } in
      record {
        spends = (call_vm-Spends y.hex p.vm fuel name p.values start good).spends;
        succeeds =
            after_run_succeeds digest p.objects (call_vm y.hex p.vm fuel name p.values start);
      }

  publish_charged-Fair :
      (digest : Digest) (bytes : Bytes) (g : GasMeter) (r : Outcome VmError (Unit {0}) × GasMeter)
      → Spends g r.1
      → Fair g (publish_charged x y verify fuel digest bytes r)
  unfolding publish_charged new_result
  publish_charged-Fair digest bytes g (ok u, h) s = record { spends = s; succeeds = Every-ok refl }
  publish_charged-Fair digest bytes g (err e, h) s = record { spends = s; succeeds = Every-err }
  publish_charged-Fair digest bytes g (panic, h) s = record { spends = s; succeeds = Every-panic }

  publish_checked-Fair :
      (digest : Digest) (bytes : Bytes) (g : GasMeter) (m : Outcome Halt (Unit {0}))
      → InLimit g
      → Fair g (publish_checked x y verify fuel digest bytes g m)
  unfolding publish_checked
  publish_checked-Fair digest bytes g (ok u) good =
      publish_charged-Fair digest bytes g _
        (charge_lem (length bytes * gas_per_module_byte % 2 ^ 64) g good)
  publish_checked-Fair digest bytes g (err h) good = record {
    spends = Spends-refl g good;
    succeeds = Every-err;
  }
  publish_checked-Fair digest bytes g panic good = record {
    spends = Spends-refl g good;
    succeeds = Every-panic;
  }

  execute_type-Fair :
      (type_ : TransactionType) (sender : Address) (digest : Digest) (inputs : List Object)
      (g : GasMeter) (config : VmConfig) (block : ExternalContext)
      → InLimit g
      → Fair g (execute_type x y verify fuel type_ sender digest inputs g config block)
  unfolding execute_type execute_meow_call execute_meow_module_publish
  execute_type-Fair (meow_call call) sender digest inputs g config block good =
      run_prepared-Fair digest call.function _ g (prepare x y verify fuel sender call inputs config)
        good
  execute_type-Fair (meow_module_publish bytes) sender digest inputs g config block good =
      publish_checked-Fair digest bytes g (check_module x y verify fuel bytes inputs) good

  execute_charged-Fair :
      (t : Transaction) (digest : Digest) (inputs : List Object) (block : ExternalContext)
      (r : Outcome VmError (Unit {0}) × GasMeter)
      → InLimit r.1
      → Fair r.1 (execute_charged x y verify fuel t digest inputs block r)
  unfolding execute_charged
  execute_charged-Fair t digest inputs block (ok u, g) good =
      execute_type-Fair t.type_ t.sender digest inputs g vm_config block good
  execute_charged-Fair t digest inputs block (err e, g) good = record {
    spends = Spends-refl g good;
    succeeds = Every-err;
  }
  execute_charged-Fair t digest inputs block (panic, g) good = record {
    spends = Spends-refl g good;
    succeeds = Every-panic;
  }

  -- No objects come with a failure.
  settle_lem :
      (digest : Digest) (m : Outcome Halt ExecutionResult) (r : ExecutionResult)
      → Every (λ a. a.status ≡ success) m
      → settle x y verify fuel digest m ≡ ok r
      → (r.status ≡ success)
        ⊎ ((r.created_objects ≡ []) × (r.changed_objects ≡ []) × (r.destroyed_objects ≡ []))
  unfolding settle failure_result new_result
  settle_lem digest (ok a) r s h =
      let same : a ≡ r = cc h in inl (subst (λ a. a.status ≡ success) same s.holds)
  settle_lem digest (err (Halt.failed f)) r s h =
      let same : failure_result (message_of x y verify fuel f) digest ≡ r = cc h in
      inr (
        subst
          (λ r. (r.created_objects ≡ []) × (r.changed_objects ≡ []) × (r.destroyed_objects ≡ []))
          same (refl, refl, refl))
  settle_lem digest (err Halt.out_of_fuel) r s h = cc h
  settle_lem digest panic r s h = cc h

  base_charge :
      (budget : ℕ)
      → budget ≤ max_u64
      → base_transaction_gas_cost ≤ max_u64
      → min base_transaction_gas_cost budget
        ≤ (charge base_transaction_gas_cost (new_meter budget)).1.spent
  unfolding charge saturating_add new_meter
  base_charge budget h k = ground arith

  -- What an execution takes from its gas coin.
  pub record IsCharged (t : Transaction) (inputs : List Object) (r : ExecutionResult) : Type 0 where
    pub coin : Object
    pub is_gas_coin : IsGasCoin x y t.gas_coin t.sender inputs coin
    pub budget : ℕ
    pub has_budget : balance_from_object x y coin ≡ some budget
    pub at_least : min base_transaction_gas_cost budget ≤ r.gas_used
    pub at_most : r.gas_used ≤ budget
    pub others : List Object
    pub coin' : Object
    pub changed : r.changed_objects ≡ others ++ (coin' ∷ [])
    pub is_spent : IsSpent x y coin budget r.gas_used (x.compute_transaction t) coin'
    pub failed_alone :
        (r.status ≡ success)
        ⊎ ((r.created_objects ≡ []) × (others ≡ []) × (r.destroyed_objects ≡ []))

  applied :
      (t : Transaction) (inputs : List Object) (coin : Object) (budget : ℕ) (s : ExecutionResult)
      (g : GasMeter) (r : ExecutionResult)
      → FieldsLaw x y
      → IsGasCoin x y t.gas_coin t.sender inputs coin
      → balance_from_object x y coin ≡ some budget
      → (min base_transaction_gas_cost budget ≤ g.spent) × (g.spent ≤ budget)
      → (s.status ≡ success)
        ⊎ ((s.created_objects ≡ []) × (s.changed_objects ≡ []) × (s.destroyed_objects ≡ []))
      → apply_gas_spending x y {E = End} s coin g.spent (x.compute_transaction t) ≡ ok r
      → IsCharged t inputs r
  unfolding apply_gas_spending with_gas_used new_result
  applied t inputs coin budget s g r law is b within alone h =
      let (coin', e, h₁) = >>=-eq-ok (spent_coin x y coin g.spent (x.compute_transaction t)) _ h in
      let after =
        with_gas_used
          (new_result s.status s.transaction_digest s.created_objects
            (s.changed_objects ++ (coin' ∷ [])) s.destroyed_objects)
          g.spent in
      let same : after ≡ r = cc h₁ in
      subst (IsCharged t inputs) same (record {
        coin = coin;
        is_gas_coin = is;
        budget = budget;
        has_budget = b;
        at_least = within.0;
        at_most = within.1;
        others = s.changed_objects;
        coin' = coin';
        changed = refl;
        is_spent = spent_coin_lem x y law coin budget g.spent (x.compute_transaction t) coin' b e;
        failed_alone = alone;
      })

  base_fits : base_transaction_gas_cost ≤ max_u64
  unfolding max_u64
  base_fits = omega arith

  fresh-InLimit : (budget : ℕ) → budget ≤ max_u64 → InLimit (new_meter budget)
  unfolding new_meter
  fresh-InLimit budget h = (omega arith, h)

  -- The gas of an execution after its base charge.
  within_budget :
      (budget : ℕ) (g : GasMeter)
      → budget ≤ max_u64
      → Spends (charge base_transaction_gas_cost (new_meter budget)).1 g
      → (min base_transaction_gas_cost budget ≤ g.spent) × (g.spent ≤ budget)
  unfolding new_meter
  within_budget budget g h s =
      let base = charge_lem base_transaction_gas_cost (new_meter budget) (fresh-InLimit budget h) in
      let all =
        Spends-trans (new_meter budget) (charge base_transaction_gas_cost (new_meter budget)).1 g
          base s in
      (omega (arith, base_charge budget h base_fits, s.1), all.2)

  -- Every result of `execute`, a success or a failure, lists last among the changed objects the gas coin
  -- that the transaction refers to, with the next version and a balance less by the gas used, which is
  -- at most the old balance and at least the base cost or all of the balance; a failure has no other
  -- object. BCS decodes the fields that it encodes, and balances below 2^64.
  pub execute_lem :
      (t : Transaction) (inputs : List Object) (block : ExternalContext) (r : ExecutionResult)
      → FieldsLaw x y
      → BalancesLaw x y
      → execute x y verify fuel t inputs block ≡ ok r
      → IsCharged t inputs r
  unfolding execute
  execute_lem t inputs block r law small h =
      let digest = x.compute_transaction t in
      let (coin, e, h₁) =
        >>=-eq-ok (map_err refused (resolve_gas_coin_object x y t.gas_coin t.sender inputs)) _ h in
      let (budget, b, h₂) = >>=-eq-ok (expect (balance_from_object x y coin)) _ h₁ in
      let balance = expect-eq-ok (balance_from_object x y coin) b in
      let fits = small coin budget balance in
      let base = charge base_transaction_gas_cost (new_meter budget) in
      let left = execute_charged x y verify fuel t digest inputs block base in
      let (s, e₃, h₃) = >>=-eq-ok (settle x y verify fuel digest left.0) _ h₂ in
      let good = fresh-InLimit budget fits in
      let fair = execute_charged-Fair t digest inputs block base (
        Spends-InLimit (new_meter budget) base.1 good
          (charge_lem base_transaction_gas_cost (new_meter budget) good)) in
      applied t inputs coin budget s left.1 r law
        (resolved x y t.gas_coin t.sender inputs coin (map_err-eq-ok refused _ e)) balance
        (within_budget budget left.1 fits fair.spends) (settle_lem digest left.0 s fair.succeeds e₃)
        h₃
