-- ===== src/Types/Validity.antt =====
-- What the validator (crates/meow-types/src/transaction/validator) accepts, said without its order
-- of checks.
use meow.Base.{
  guard_passed, ◌≤◌, ◌≡◌, ◌↔◌, refl, true, false, List, [], ◌∷◌, ◌==◌, ==_iff, length, any,
  contains, NoRepeats, ok, arith, >>=-eq-ok, guard-eq-ok, reject_if-eq-ok,
}
use meow.Types.Primitives.{Address}
use meow.Types.Transaction.{
  Input, TransactionType, meow_call, meow_module_publish, Transaction, SignedTransaction,
}
use meow.Types.Validator.{
  max_params, max_bcs_serialized_module_size, meow_call_transaction_bcs_bytes_max_size,
  meow_publish_module_transaction_bcs_bytes_max_size, refers_to, check_aliases, validate_as,
  validate_transaction, validate_signed_transaction, validate_signed_transaction_sender,
  verify_signed_transaction_signature,
}
use meow.External.{External, signer, verify, digest_of}

-- the addresses of the objects among a call's arguments
unfoldable pub object_addresses : List Input → List Address
object_addresses [] = []
object_addresses (Input.raw b ∷ args) = object_addresses args
object_addresses (Input.object r ∷ args) = r.address ∷ object_addresses args

any-refers_to :
    (a : Address) (args : List Input) → any (refers_to a) args ≡ contains (object_addresses args) a
unfolding object_addresses
any-refers_to a [] = refl
any-refers_to a (Input.raw b ∷ args) = any-refers_to a args
any-refers_to a (Input.object r ∷ args) = ground (arith, any-refers_to a args)

abbrev Avoids : List Address → List Address → Type 0
Avoids as' seen = (a : Address) → contains as' a ≡ true → contains seen a ≡ false

check_aliases_iff :
    (args : List Input) (seen : List Address)
    → (check_aliases args seen ≡ ok tt)
      ↔ (NoRepeats (object_addresses args) × Avoids (object_addresses args) seen)
unfolding check_aliases object_addresses
check_aliases_iff [] seen = (λ h. (tt, λ d k. cc), λ h. refl)
check_aliases_iff (Input.raw b ∷ args) seen = check_aliases_iff args seen
check_aliases_iff (Input.object r ∷ args) seen = (
  λ h.
      let (fresh, h₁) = reject_if-eq-ok (contains seen r.address) _ _ h in
      let (n, av) = (check_aliases_iff args (r.address ∷ seen)).0 h₁ in
      ((ground (arith, av r.address), n), λ d k. ground (arith, av d, fresh)),
  λ ((new, n), av).
      let fresh : contains seen r.address ≡ false = ground (arith, av r.address) in
      rw fresh
        ((check_aliases_iff args (r.address ∷ seen)).1 (n, λ d k. ground (arith, av d, new))),
)

module _ (x : External) where
  -- A call within its size limit with at most 16 arguments, whose object arguments are distinct and
  -- none of them the gas coin; or a module within both size limits.
  abbrev pub IsWithinLimits : Transaction → TransactionType → Type 0
  IsWithinLimits t (meow_call call) =
      (x.serialized_size t ≤ meow_call_transaction_bcs_bytes_max_size)
      × (length call.arguments ≤ max_params)
      × (contains (object_addresses call.arguments) t.gas_coin.address ≡ false)
      × NoRepeats (object_addresses call.arguments)
  IsWithinLimits t (meow_module_publish m) =
      (x.serialized_size t ≤ meow_publish_module_transaction_bcs_bytes_max_size)
      × (length m ≤ max_bcs_serialized_module_size)

  validate_as_iff :
      (t : Transaction) (k : TransactionType) → (validate_as x t k ≡ ok tt) ↔ IsWithinLimits t k
  unfolding validate_as
  validate_as_iff t (meow_call call) =
      ground (
        arith,
        any-refers_to t.gas_coin.address call.arguments,
        check_aliases_iff call.arguments [],
      )
  validate_as_iff t (meow_module_publish m) = ground arith

  -- The validator accepts exactly the transactions within the limits of their type that are signed
  -- by their sender's key, with a signature of their digest.
  pub validate_signed_transaction_iff :
      (s : SignedTransaction)
      → (validate_signed_transaction x s ≡ ok tt) ↔ (
          IsWithinLimits s.transaction s.transaction.type_
          × (signer x s.signature ≡ s.transaction.sender)
          × (verify x s.signature (digest_of x s) ≡ true))
  unfolding validate_signed_transaction validate_transaction validate_signed_transaction_sender
      verify_signed_transaction_signature
  validate_signed_transaction_iff s = (
    λ h.
        let (_, p, h₁) = >>=-eq-ok (validate_as x s.transaction s.transaction.type_) _ h in
        let (sent, h₂) = guard-eq-ok (signer x s.signature == s.transaction.sender) _ _ h₁ in
        (
          (validate_as_iff s.transaction s.transaction.type_).0 p,
          (==_iff _ _).0 sent,
          guard_passed _ _ h₂,
        ),
    λ (limits, sent, verified).
        let own : (signer x s.signature == s.transaction.sender) ≡ true = (==_iff _ _).1 sent in
        rw ((validate_as_iff s.transaction s.transaction.type_).1 limits, own, verified) refl,
  )
