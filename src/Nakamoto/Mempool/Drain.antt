-- ===== src/Nakamoto/Mempool/Drain.antt =====
-- What `Mempool::drain_batch` takes and leaves.
use meow.Base.{
  NoRepeats, ℕ, ◌≡◌, true, false, List, [], ◌∷◌, ◌++◌, length, take, drop, min, contains, arith,
  length-drop, length-take, take-append-drop,
}
use meow.BTreeMap.{remove_all, contains_key}
use meow.BTreeMap.Laws.{remove_all-IsSorted, get-remove_all}
use meow.Types.Primitives.{Digest}
use meow.Types.Transaction.{SignedTransaction}
use meow.External.{External, digest_of}
use meow.Nakamoto.Roots.{digests}
use meow.Nakamoto.Mempool.Defs.{Mempool, drain_batch}
use meow.Nakamoto.Mempool.Valid.{IsValid}
use meow.Nakamoto.Mempool.Retain.{contains-append}

module _ (x : External) where
  NoRepeats-split :
      (xs ys : List SignedTransaction)
      → NoRepeats (digests x (xs ++ ys))
      → NoRepeats (digests x xs) × NoRepeats (digests x ys)
  NoRepeats-split [] ys n = (tt, n)
  NoRepeats-split (u ∷ xs) ys n =
      ground (arith, NoRepeats-split xs ys n.1, contains-append x xs ys (digest_of x u))

  NoRepeats-apart :
      (xs ys : List SignedTransaction) (d : Digest)
      → NoRepeats (digests x (xs ++ ys))
      → contains (digests x xs) d ≡ true
      → contains (digests x ys) d ≡ false
  NoRepeats-apart [] ys d n h = cc
  NoRepeats-apart (u ∷ xs) ys d n h =
      ground (arith, NoRepeats-apart xs ys d n.1, contains-append x xs ys d)

  drained_seen :
      (d : Digest) (xs ys : List SignedTransaction) (pool : Mempool)
      → IsValid x pool
      → xs ++ ys ≡ pool.pending
      → contains_key d (remove_all (digests x xs) pool.seen) ≡ contains (digests x ys) d
  drained_seen d xs ys pool v e =
      let n : NoRepeats (digests x (xs ++ ys)) = rw e v.distinct in
      let seen : contains_key d pool.seen ≡ contains (digests x (xs ++ ys)) d =
        rw e (v.seen_iff d) in
      ground (
        arith,
        get-remove_all d (digests x xs) pool.seen v.sorted,
        contains-append x xs ys d,
        NoRepeats-apart xs ys d n,
      )

  -- `drain_batch` takes the oldest transactions, as many as asked for or as there are, leaves the
  -- others in order, keeps the pool valid, and returns no transaction twice.
  pub drain_batch-IsValid :
      (limit : ℕ) (pool : Mempool)
      → IsValid x pool
      → let (batch, pool') = drain_batch x limit pool in
        IsValid x pool'
        × (batch ++ pool'.pending ≡ pool.pending)
        × (length batch ≡ min limit (length pool.pending))
        × NoRepeats (digests x batch)
  unfolding drain_batch
  drain_batch-IsValid limit pool v =
      let count = min limit (length pool.pending) in
      let whole : take count pool.pending ++ drop count pool.pending ≡ pool.pending =
        take-append-drop count pool.pending in
      let distinct : NoRepeats (digests x (take count pool.pending ++ drop count pool.pending)) =
        rw whole v.distinct in
      let (batch_distinct, rest_distinct) =
        NoRepeats-split (take count pool.pending) (drop count pool.pending) distinct in
      (
        record {
          sorted = remove_all-IsSorted (digests x (take count pool.pending)) pool.seen v.sorted;
          seen_iff =
              λ d. drained_seen d (take count pool.pending) (drop count pool.pending) pool v whole;
          distinct = rest_distinct;
          bounded = omega (arith, v.bounded, length-drop count pool.pending);
        },
        whole,
        omega (arith, length-take count pool.pending),
        batch_distinct,
      )
