-- ===== src/External.antt =====
-- What the program takes from other packages: BCS serialization composed with Blake2b-256
-- (`Digest::compute` at each type that it is called at), Ed25519, and the BCS codecs. The laws that
-- some theorems need of these are the records at the end.
use meow.Base.{ℕ, ◌<◌, ◌^◌, ◌≡◌, Bool, true, Option, some, List}
use meow.Types.Primitives.{Address, Digest, Bytes}
use meow.Types.Object.{Object}
use meow.Types.Transaction.{Transaction, Signature, KeyPair, SignedTransaction}
use meow.Nakamoto.Header.{BlockHeader, MiningBlockHeader}
use meow.Vm.Module.{Module}

pub record External : Type 0 where
  pub compute_object : Object → Digest
  pub compute_objects : List Object → Digest
  pub compute_digests : List Digest → Digest
  pub compute_transaction : Transaction → Digest
  pub compute_header : BlockHeader → Digest
  pub compute_mining_header : MiningBlockHeader → Digest
  pub serialized_size : Transaction → ℕ
  pub verify_key : Bytes → Bytes → Digest → Bool
  pub sign_key : Bytes → Digest → Bytes
  pub hash_public_key : Bytes → Address
  pub decode_module : Bytes → Option Module
  pub encode_u64 : ℕ → Bytes
  pub decode_u64 : Bytes → Option ℕ
  pub encode_address : Address → Bytes
  pub decode_address : Bytes → Option Address

module _ (x : External) where
  open x use {verify_key, sign_key, hash_public_key, compute_transaction}

  -- `Signature::signer`, `Signature::verify` and `Address::from(&keypair)`
  unfoldable pub signer : Signature → Address
  signer s = hash_public_key s.public_key

  unfoldable pub verify : Signature → Digest → Bool
  verify s d = verify_key s.public_key s.signature d

  unfoldable pub key_address : KeyPair → Address
  key_address k = hash_public_key k.public

  -- `Transaction::digest` and `Transaction::sign`
  abbrev pub digest_of : SignedTransaction → Digest
  digest_of t = compute_transaction t.transaction

  unfoldable pub sign : Transaction → KeyPair → SignedTransaction × Digest
  sign t k =
      let digest = compute_transaction t in
      (
        record {
          transaction = t;
          signature = record { signature = sign_key k.private digest; public_key = k.public };
        },
        digest,
      )

  -- A key pair whose public key verifies what its private key signs, as every `Ed25519KeyPair` that
  -- the program builds does.
  abbrev pub IsKeyPair : KeyPair → Type 0
  IsKeyPair k = (d : Digest) → verify_key k.public (sign_key k.private d) d ≡ true

  -- BCS decodes what it encodes.
  pub record BcsLaws : Type 0 where
    pub decode-encode_u64 : (n : ℕ) → n < 2 ^ 64 → x.decode_u64 (x.encode_u64 n) ≡ some n
    pub decode-encode_address : (a : Address) → x.decode_address (x.encode_address a) ≡ some a
