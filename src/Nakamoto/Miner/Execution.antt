-- ===== src/Nakamoto/Miner/Execution.antt =====
-- The execution of a batch in `grind` (miner/mining_work.rs): it runs a part of the batch, and a
-- validator that replays that part gets the same store and results.
use mathlib.Core.Path.{subst}
use mathlib.Core.List.Sublist
use mathlib.Core.List.{Sublist}
use meow.Base.{
  contains, ◌≤◌, ◌≡◌, refl, ap, true, List, [], ◌∷◌, length, ok, arith, >>=-eq-ok, Outcome-cases,
  inl, inr,
}
use meow.BTreeMap.{remove}
use meow.Types.Object.{Object}
use meow.Types.Transaction.{SignedTransaction, ExecutionResult}
use meow.External.{External, digest_of}
use meow.Types.Primitives.{Digest}
use meow.Nakamoto.Roots.{digests}
use meow.Base.{NoRepeats}
use meow.Executor.{Executor, ExternalContext}
use meow.Nakamoto.Store.{
  Store, insert_object, apply_created, apply_changed, apply_destroyed, apply_execution_result,
}
use meow.Nakamoto.Chain.{ChainError, execute_on, replay, validate_signatures}
use meow.Nakamoto.Miner.Work.{execute_batch}

-- The store's loops do not depend on the type of errors that they are used at.
module _ {E F : Type 0} where
  apply_created_any :
      (os : List Object) (s t : Store)
      → apply_created {E = E} os s ≡ ok t
      → apply_created {E = F} os s ≡ ok t
  unfolding apply_created
  apply_created_any [] s t h = ground arith
  apply_created_any (o ∷ os) s t h = ground (arith, apply_created_any os (insert_object o s) t)

  apply_changed_any :
      (os : List Object) (s t : Store)
      → apply_changed {E = E} os s ≡ ok t
      → apply_changed {E = F} os s ≡ ok t
  unfolding apply_changed
  apply_changed_any [] s t h = ground arith
  apply_changed_any (o ∷ os) s t h = ground (arith, apply_changed_any os (insert_object o s) t)

  apply_destroyed_any :
      (os : List Object) (s t : Store)
      → apply_destroyed {E = E} os s ≡ ok t
      → apply_destroyed {E = F} os s ≡ ok t
  unfolding apply_destroyed
  apply_destroyed_any [] s t h = ground arith
  apply_destroyed_any (o ∷ os) s t h =
      ground (arith, apply_destroyed_any os (record s { objects = remove o.address s.objects }) t)

  pub apply_execution_result_any :
      (r : ExecutionResult) (s t : Store)
      → apply_execution_result {E = E} r s ≡ ok t
      → apply_execution_result {E = F} r s ≡ ok t
  unfolding apply_execution_result
  apply_execution_result_any r s t h =
      let (s₁, p₁, h₁) = >>=-eq-ok (apply_created {E = E} r.created_objects s) _ h in
      let (s₂, p₂, h₂) = >>=-eq-ok (apply_changed {E = E} r.changed_objects s₁) _ h₁ in
      rw (apply_created_any _ s s₁ p₁, apply_changed_any _ s₁ s₂ p₂)
        (apply_destroyed_any r.destroyed_objects s₂ t h₂)

abbrev Batch : Type 0
Batch = Store × List SignedTransaction × List ExecutionResult

module _ (x : External) (e : Executor) (ctx : ExternalContext) where
  -- A validator that replays what was executed ends with the same store and results.
  abbrev Replays : Store → Batch → Type 0
  Replays s out = replay x e ctx out.1 s ≡ ok (out.0, out.2)

  replay-step :
      {E : Type 0} (t : SignedTransaction) (s s' : Store) (r : ExecutionResult) (rest : Batch)
      → execute_on x e ctx t.transaction s ≡ ok r
      → apply_execution_result {E = E} r s ≡ ok s'
      → Replays s' rest
      → Replays s (rest.0, t ∷ rest.1, r ∷ rest.2)
  unfolding replay
  replay-step {E} t s s' r rest run done more =
      rw (run, apply_execution_result_any {E = E} {F = ChainError} r s s' done, more) refl

  -- What the execution of a batch leaves: a part of the batch in order, shorter unless it is all of
  -- it, that a validator can replay.
  pub record IsPart (ts : List SignedTransaction) (s : Store) (out : Batch) : Type 0 where
    pub replays : Replays s out
    pub among : Sublist out.1 ts
    pub shorter : length out.1 ≤ length ts
    pub whole : length out.1 ≡ length ts → out.1 ≡ ts
    pub counted : length out.2 ≡ length out.1
    pub within :
        (d : Digest) → contains (digests x out.1) d ≡ true → contains (digests x ts) d ≡ true
    pub distinct : NoRepeats (digests x ts) → NoRepeats (digests x out.1)
    pub signed : validate_signatures x ts ≡ ok tt → validate_signatures x out.1 ≡ ok tt

  grow :
      {E : Type 0} (t : SignedTransaction) (ts : List SignedTransaction) (s s' : Store)
      (r : ExecutionResult) (rest : Batch)
      → execute_on x e ctx t.transaction s ≡ ok r
      → apply_execution_result {E = E} r s ≡ ok s'
      → IsPart ts s' rest
      → IsPart (t ∷ ts) s (rest.0, t ∷ rest.1, r ∷ rest.2)
  unfolding validate_signatures
  grow {E} t ts s s' r rest run done more = record {
    replays = replay-step {E = E} t s s' r rest run done more.replays;
    among = Sublist.cons-cons t more.among;
    shorter = omega (arith, more.shorter);
    whole = λ h. ap (λ us. t ∷ us) (more.whole (omega (arith, h)));
    counted = omega (arith, more.counted);
    within = λ d. ground (arith, more.within d);
    distinct = λ n. (ground (arith, more.within (digest_of x t)), more.distinct n.1);
    signed = λ h. ground (arith, more.signed);
  }

  pub execute_batch_lem :
      {E : Type 0} (ts : List SignedTransaction) (s : Store) (out : Batch)
      → execute_batch x e {E = E} ctx ts s ≡ ok out
      → IsPart ts s out
  unfolding execute_batch replay validate_signatures
  execute_batch_lem [] s out h = subst (IsPart [] s) (cc h) (record {
    replays = refl;
    among = Sublist.refl [];
    shorter = omega arith;
    whole = λ _. refl;
    counted = refl;
    within = λ d k. k;
    distinct = λ n. n;
    signed = λ k. k;
  })
  execute_batch_lem {E} (t ∷ ts) s out h =
      elim (Outcome-cases (execute_on x e ctx t.transaction s)) [
        | inl (r, run) ↦
            let (s', done, h₁) =
              >>=-eq-ok (apply_execution_result {E = E} r s) _ (rw (run, execute_batch) at h) in
            let (rest, more, h₂) = >>=-eq-ok (execute_batch x e {E = E} ctx ts s') _ h₁ in
            subst (IsPart (t ∷ ts) s) (cc h₂)
              (grow {E = E} t ts s s' r rest run done (execute_batch_lem ts s' rest more))
        | inr (inl (f, run)) ↦
            let rest = execute_batch_lem ts s out (rw (run, execute_batch) at h) in
            record {
              replays = rest.replays;
              among = Sublist.cons t rest.among;
              shorter = omega (arith, rest.shorter);
              whole = λ k. absurd (omega (arith, rest.shorter, k));
              counted = rest.counted;
              within = λ d k. ground (arith, rest.within d k);
              distinct = λ n. rest.distinct n.1;
              signed = λ k. ground (arith, rest.signed);
            }
        | inr (inr run) ↦ cc (rw (run, execute_batch) at h)
      ]
