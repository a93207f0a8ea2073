-- ===== src/Nakamoto/Mempool/Defs.antt =====
-- The operations of `Mempool` and its error type (mempool/mod.rs, mempool/error.rs). The queue is a
-- list, its front first; the set of digests is a map to the unit type.
use meow.Base.{
  ℕ, List, [], ◌∷◌, ◌++◌, leb, ◌==◌, length, take, drop, min, if◌then◌else◌, Outcome, ok, ◌>>=◌,
  ◌>>◌, guard, reject_if, ok_or, map_err, is_ok,
}
use meow.BTreeMap.{BTreeMap, insert, remove_all, contains_key}
use meow.Types.Primitives.{Address, Digest}
use meow.Types.Object.{ObjectRef, ObjectVersion}
use meow.Types.Transaction.{
  Input, TransactionType, meow_call, meow_module_publish, Transaction, SignedTransaction,
}
use meow.Types.Validator.{ValidationError, validate_signed_transaction}
use meow.External.{External, digest_of}
use meow.Nakamoto.Store.{Store, get_object}
use meow.Nakamoto.Roots.{digests}

pub data MempoolError : Type 0 where
  duplicate_transaction : Digest → MempoolError
  invalid_object_digest : Address → Digest → Digest → MempoolError
  invalid_object_version : Address → ObjectVersion → ObjectVersion → MempoolError
  mempool_full : ℕ → MempoolError
  object_not_found : Address → MempoolError
  transaction_validation_error : ValidationError → MempoolError

abbrev pub max_mempool_size : ℕ
max_mempool_size = 4096

pub record Mempool : Type 0 where
  pub pending : List SignedTransaction
  pub seen : BTreeMap (Unit {0})

-- `Mempool::empty`
abbrev pub empty_pool : Mempool
empty_pool = record { pending = []; seen = [] }

module _ (x : External) where
  open x use {compute_object, compute_transaction}

  unfoldable pub validate_object_ref : ObjectRef → Store → Outcome MempoolError (Unit {0})
  validate_object_ref r s = do
    o ← ok_or (get_object s r.address) (object_not_found r.address)
    guard (o.version == r.version) (invalid_object_version r.address r.version o.version)
    guard (compute_object o == r.digest)
        (invalid_object_digest r.address r.digest (compute_object o))

  -- the loop over `call.arguments()`
  unfoldable pub validate_arguments : List Input → Store → Outcome MempoolError (Unit {0})
  unfolding validate_object_ref
  validate_arguments [] s = ok tt
  validate_arguments (Input.raw b ∷ args) s = validate_arguments args s
  validate_arguments (Input.object r ∷ args) s = do
    validate_object_ref r s
    validate_arguments args s

  unfoldable pub validate_type : TransactionType → Store → Outcome MempoolError (Unit {0})
  unfolding validate_arguments
  validate_type (meow_call call) s = validate_arguments call.arguments s
  validate_type (meow_module_publish b) s = ok tt

  unfoldable pub validate_against_store : Transaction → Store → Outcome MempoolError (Unit {0})
  unfolding validate_object_ref validate_type
  validate_against_store t s = do validate_object_ref t.gas_coin s; validate_type t.type_ s

  unfoldable pub submit : SignedTransaction → Store → Mempool → Outcome MempoolError Mempool
  unfolding validate_signed_transaction validate_against_store insert
  submit t s pool = do
    map_err transaction_validation_error (validate_signed_transaction x t)
    reject_if (contains_key (digest_of x t) pool.seen) (duplicate_transaction (digest_of x t))
    reject_if (leb max_mempool_size (length pool.pending)) (mempool_full max_mempool_size)
    validate_against_store t.transaction s
    ok (record { pending = pool.pending ++ t ∷ []; seen = insert (digest_of x t) tt pool.seen })

  -- the loop of `Mempool::retain_valid`, over what is drained, into the new queue and set
  unfoldable pub retain_loop : List SignedTransaction → Store → Mempool → Mempool
  retain_loop [] s kept = kept
  retain_loop (t ∷ ts) s kept = retain_loop ts s (
      if is_ok (validate_against_store t.transaction s)
      then record { pending = kept.pending ++ t ∷ []; seen = insert (digest_of x t) tt kept.seen }
      else kept)

  unfoldable pub retain_valid : Store → Mempool → Mempool
  unfolding retain_loop
  retain_valid s pool = retain_loop pool.pending s empty_pool

  unfoldable pub drain_batch : ℕ → Mempool → List SignedTransaction × Mempool
  unfolding remove_all
  drain_batch limit pool =
      let count = min limit (length pool.pending) in
      let batch = take count pool.pending in
      (
        batch,
        record { pending = drop count pool.pending; seen = remove_all (digests x batch) pool.seen },
      )
