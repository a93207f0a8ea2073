-- ===== src/Tests/Pool.antt =====
-- The theorems on the mempool at the small world's pools.
use meow.Base.{
  true, ◌↔◌, NoRepeats, ◌≡◌, refl, not, ◌&&◌, [], ◌∷◌, ◌++◌, ok, is_ok, ltb, length, min, contains,
}
use meow.External.{signer, verify, digest_of}
use meow.BTreeMap.{get, insert}
use meow.Types.Validator.{validate_signed_transaction}
use meow.Nakamoto.Roots.{digests}
use meow.Nakamoto.Store.{get_object}
use meow.Nakamoto.Mempool.{
  Mempool, empty_pool, submit, retain_valid, drain_batch, validate_against_store, max_mempool_size,
}
use meow.Nakamoto.Mempool.Valid.{IsValid, empty_pool-IsValid, submit-IsValid, submit_accepts}
use meow.Nakamoto.Mempool.Retain.{retain_valid-IsValid, keep_valid}
use meow.Nakamoto.Mempool.Drain.{drain_batch-IsValid}
use meow.Types.Validity.{IsWithinLimits, validate_signed_transaction_iff}
use meow.Tests.World.{world, payment, second_payment}
use meow.Tests.Mining.{store₀}

abbrev one : Mempool
one = record { pending = payment ∷ []; seen = insert (digest_of world payment) tt [] }

submitted : submit world payment store₀ empty_pool ≡ ok one
unfolding submit payment store₀ get_object get insert
submitted = refl

one-IsValid : IsValid world one
one-IsValid =
    (submit-IsValid world payment store₀ empty_pool one (empty_pool-IsValid world) submitted).0

submit-IsValid_example : IsValid world one × (one.pending ≡ [] ++ payment ∷ [])
submit-IsValid_example =
    submit-IsValid world payment store₀ empty_pool one (empty_pool-IsValid world) submitted

submit_accepts_example : is_ok (submit world second_payment store₀ one) ≡ (
    is_ok (validate_signed_transaction world second_payment)
    && (not (contains (digests world one.pending) (digest_of world second_payment))
        && (ltb (length one.pending) max_mempool_size
            && is_ok (validate_against_store world second_payment.transaction store₀))))
submit_accepts_example = submit_accepts world second_payment store₀ one one-IsValid

retain_valid-IsValid_example :
    IsValid world (retain_valid world store₀ one)
    × ((retain_valid world store₀ one).pending ≡ keep_valid world store₀ one.pending)
retain_valid-IsValid_example = retain_valid-IsValid world store₀ one one-IsValid

drain_batch-IsValid_example :
    let (batch, pool') = drain_batch world 2 one in
    IsValid world pool'
    × (batch ++ pool'.pending ≡ one.pending)
    × (length batch ≡ min 2 (length one.pending))
    × NoRepeats (digests world batch)
drain_batch-IsValid_example = drain_batch-IsValid world 2 one one-IsValid

-- a submission has the validator's conditions
validate_signed_transaction_iff_example : (validate_signed_transaction world payment ≡ ok tt) ↔ (
    IsWithinLimits world payment.transaction payment.transaction.type_
    × (signer world payment.signature ≡ payment.transaction.sender)
    × (verify world payment.signature (digest_of world payment) ≡ true))
validate_signed_transaction_iff_example = validate_signed_transaction_iff world payment
