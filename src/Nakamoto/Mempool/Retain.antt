-- ===== src/Nakamoto/Mempool/Retain.antt =====
-- What `Mempool::retain_valid` keeps.
use meow.Base.{
  NoRepeats, ◌+◌, ◌≤◌, ◌≡◌, refl, sym, ◌∙◌, false, List, [], ◌∷◌, ◌++◌, ◌==◌, length, if◌then◌else◌,
  is_ok, contains, arith, ◌||◌, Bool-cases, inl, inr, length-append,
}
use mathlib.Core.List.{append_assoc, append-nil}
use meow.Types.Primitives.{Digest}
use meow.Types.Transaction.{SignedTransaction}
use meow.External.{External, digest_of}
use meow.Nakamoto.Store.{Store}
use meow.Nakamoto.Roots.{digests}
use meow.Nakamoto.Mempool.Defs.{
  Mempool, empty_pool, max_mempool_size, validate_against_store, retain_loop, retain_valid,
}
use meow.Nakamoto.Mempool.Valid.{IsValid, push, push-IsValid, empty_pool-IsValid}

module _ (x : External) where
  -- the transactions that a test keeps, in order
  unfoldable pub keep_valid : Store → List SignedTransaction → List SignedTransaction
  keep_valid s [] = []
  keep_valid s (t ∷ ts) =
      if is_ok (validate_against_store x t.transaction s)
      then t ∷ keep_valid s ts
      else keep_valid s ts

  retain_loop-pending :
      (ts : List SignedTransaction) (s : Store) (kept : Mempool)
      → (retain_loop x ts s kept).pending ≡ kept.pending ++ keep_valid s ts
  unfolding retain_loop keep_valid
  retain_loop-pending [] s kept = sym (append-nil kept.pending)
  retain_loop-pending (t ∷ ts) s kept =
      elim (Bool-cases (is_ok (validate_against_store x t.transaction s))) [
        | inl good ↦
            rw (good, retain_loop)
              (retain_loop-pending ts s (push x t kept)
                ∙ append_assoc kept.pending (t ∷ []) (keep_valid s ts))
        | inr bad ↦ rw (bad, retain_loop) (retain_loop-pending ts s kept)
      ]

  contains-middle :
      (ks : List SignedTransaction) (t : SignedTransaction) (ts : List SignedTransaction)
      (d : Digest)
      → contains (digests x (ks ++ t ∷ ts)) d
        ≡ (d == digest_of x t || contains (digests x (ks ++ ts)) d)
  contains-middle [] t ts d = ground arith
  contains-middle (u ∷ ks) t ts d = ground (arith, contains-middle ks t ts d)

  NoRepeats-drop_middle :
      (ks : List SignedTransaction) (t : SignedTransaction) (ts : List SignedTransaction)
      → NoRepeats (digests x (ks ++ t ∷ ts))
      → NoRepeats (digests x (ks ++ ts)) × (contains (digests x (ks ++ ts)) (digest_of x t) ≡ false)
  NoRepeats-drop_middle [] t ts n = (n.1, n.0)
  NoRepeats-drop_middle (u ∷ ks) t ts n =
      ground (arith, NoRepeats-drop_middle ks t ts n.1, contains-middle ks t ts (digest_of x u))

  pub contains-append :
      (xs ys : List SignedTransaction) (d : Digest)
      → contains (digests x (xs ++ ys)) d ≡ (contains (digests x xs) d || contains (digests x ys) d)
  contains-append [] ys d = refl
  contains-append (u ∷ xs) ys d = ground (arith, contains-append xs ys d)

  retain_loop-IsValid :
      (ts : List SignedTransaction) (s : Store) (kept : Mempool)
      → IsValid x kept
      → NoRepeats (digests x (kept.pending ++ ts))
      → length kept.pending + length ts ≤ max_mempool_size
      → IsValid x (retain_loop x ts s kept)
  unfolding retain_loop
  retain_loop-IsValid [] s kept v n b = v
  retain_loop-IsValid (t ∷ ts) s kept v n b =
      let (dropped, fresh) = NoRepeats-drop_middle kept.pending t ts n in
      elim (Bool-cases (is_ok (validate_against_store x t.transaction s))) [
        | inl good ↦ rw good (
            retain_loop-IsValid ts s (push x t kept)
              (push-IsValid x t kept v
                (ground (arith, contains-append kept.pending ts (digest_of x t))) (omega arith))
              (rw append_assoc n) (omega (arith, length-append kept.pending (t ∷ []))))
        | inr bad ↦ rw bad (retain_loop-IsValid ts s kept v dropped (omega arith))
      ]

  -- After a change of head the pool keeps, in order, exactly the transactions whose references hold
  -- in the new store, and stays valid.
  pub retain_valid-IsValid :
      (s : Store) (pool : Mempool)
      → IsValid x pool
      → IsValid x (retain_valid x s pool)
        × ((retain_valid x s pool).pending ≡ keep_valid s pool.pending)
  unfolding retain_valid
  retain_valid-IsValid s pool v = (
    retain_loop-IsValid pool.pending s empty_pool (empty_pool-IsValid x) v.distinct (omega arith),
    retain_loop-pending pool.pending s empty_pool,
  )
