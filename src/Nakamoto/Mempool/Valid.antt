-- ===== src/Nakamoto/Mempool/Valid.antt =====
-- The invariant of the pool, kept by every operation.
use meow.Base.{
  NoRepeats, ◌+◌, ◌≤◌, ◌≡◌, refl, sym, ◌∙◌, false, not, List, [], ◌∷◌, ◌++◌, ltb, ◌==◌, length, ok,
  is_ok, contains, arith, ◌||◌, ◌&&◌, length-append,
}
use meow.Types.Validator.{validate_signed_transaction}
use meow.BTreeMap.{get, insert, contains_key, IsSorted}
use meow.BTreeMap.Laws.{get-insert, insert-IsSorted}
use meow.Types.Primitives.{Digest}
use meow.Types.Transaction.{SignedTransaction}
use meow.External.{External, digest_of}
use meow.Nakamoto.Store.{Store}
use meow.Nakamoto.Roots.{digests}
use meow.Nakamoto.Mempool.Defs.{
  Mempool, empty_pool, max_mempool_size, validate_against_store, submit,
}

module _ (x : External) where
  -- The set holds the digests of the queue and no others, each transaction is queued once, and the
  -- queue is within its capacity.
  pub record IsValid (pool : Mempool) : Type 0 where
    pub sorted : IsSorted pool.seen
    pub seen_iff : (d : Digest) → contains_key d pool.seen ≡ contains (digests x pool.pending) d
    pub distinct : NoRepeats (digests x pool.pending)
    pub bounded : length pool.pending ≤ max_mempool_size

  contains-push :
      (ts : List SignedTransaction) (t : SignedTransaction) (d : Digest)
      → contains (digests x (ts ++ t ∷ [])) d ≡ (d == digest_of x t || contains (digests x ts) d)
  contains-push [] t d = ground arith
  contains-push (u ∷ ts) t d = ground (arith, contains-push ts t d)

  NoRepeats-push :
      (ts : List SignedTransaction) (t : SignedTransaction)
      → NoRepeats (digests x ts)
      → contains (digests x ts) (digest_of x t) ≡ false
      → NoRepeats (digests x (ts ++ t ∷ []))
  NoRepeats-push [] t n f = (refl, tt)
  NoRepeats-push (u ∷ ts) t n f =
      ground (arith, NoRepeats-push ts t n.1, contains-push ts t (digest_of x u))

  abbrev pub push : SignedTransaction → Mempool → Mempool
  push t pool = record {
    pending = pool.pending ++ t ∷ [];
    seen = insert (digest_of x t) tt pool.seen;
  }

  pub push-IsValid :
      (t : SignedTransaction) (pool : Mempool)
      → IsValid pool
      → contains (digests x pool.pending) (digest_of x t) ≡ false
      → length pool.pending + 1 ≤ max_mempool_size
      → IsValid (push t pool)
  push-IsValid t pool v f b = record {
    sorted = insert-IsSorted (digest_of x t) tt pool.seen v.sorted;
    seen_iff = λ d. ground (
      arith,
      get-insert d (digest_of x t) tt pool.seen,
      v.seen_iff d,
      contains-push pool.pending t d,
    );
    distinct = NoRepeats-push pool.pending t v.distinct f;
    bounded = omega (arith, length-append pool.pending (t ∷ []));
  }

  pub empty_pool-IsValid : IsValid empty_pool
  unfolding get
  empty_pool-IsValid = record {
    sorted = tt;
    seen_iff = λ d. refl;
    distinct = tt;
    bounded = omega arith;
  }

  -- What an accepted submission has passed, and the pool that it leaves.
  submit_accepted :
      (t : SignedTransaction) (s : Store) (pool pool' : Mempool)
      → submit x t s pool ≡ ok pool'
      → (contains_key (digest_of x t) pool.seen ≡ false)
        × (length pool.pending + 1 ≤ max_mempool_size)
        × (pool' ≡ push t pool)
  unfolding submit
  submit_accepted t s pool pool' h = ground arith

  -- A submission that is accepted puts the transaction at the back of the queue, and keeps the pool
  -- valid.
  pub submit-IsValid :
      (t : SignedTransaction) (s : Store) (pool pool' : Mempool)
      → IsValid pool
      → submit x t s pool ≡ ok pool'
      → IsValid pool' × (pool'.pending ≡ pool.pending ++ t ∷ [])
  submit-IsValid t s pool pool' v h =
      let (fresh, room, e) = submit_accepted t s pool pool' h in
      rw e (push-IsValid t pool v (sym (v.seen_iff (digest_of x t)) ∙ fresh) room, refl)

  -- Over a valid pool a submission is accepted exactly when its structure and signature are valid,
  -- it is not queued already, the queue has room, and its object references match the store.
  pub submit_accepts :
      (t : SignedTransaction) (s : Store) (pool : Mempool)
      → IsValid pool
      → is_ok (submit x t s pool) ≡ (
          is_ok (validate_signed_transaction x t)
          && (not (contains (digests x pool.pending) (digest_of x t))
              && (ltb (length pool.pending) max_mempool_size
                  && is_ok (validate_against_store x t.transaction s))))
  unfolding submit
  submit_accepts t s pool v = ground (arith, v.seen_iff (digest_of x t))
