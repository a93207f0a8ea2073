-- ===== src/Adapter/Coins.antt =====
-- The gas coin of crates/meow-vm-adapter/src/executor: which coin is accepted, and what is left of it.
use meow.Base.{
  ℕ, ◌-◌, ◌≤◌, ◌≡◌, refl, ◌↔◌, true, false, Option, none, some, List, ◌==◌, ok, expect, ok_or,
  >>=-eq-ok, guard-eq-ok, reject_if-eq-ok, expect-eq-ok, ok_or-eq-ok, Bool-cases, Option-cases, inl,
  inr,
}
use mathlib.Core.Path.{subst}
use text.Mathlib.Text.{◌==◌ as text_eq}
use meow.Types.Primitives.{Address, Digest, Bytes}
use meow.Types.Object.{Object, ObjectRef, owner_address, version_max, next}
use meow.External.{External}
use meow.Executor.{gas_coin_not_found}
use meow.Vm.Gas.{max_u64}
use meow.Vm.Types.{Fields, u64, end, field}
use meow.Vm.Values.{as_u64}
use meow.Adapter.Defs.{
  Platform, and_then, balance_field_name, balance_in, deducted, balance_from_object, deduct_gas,
  is_coin_type, is_meow_coin_object,
}
use meow.Adapter.Resolvers.{input_at, is_owned_by, resolve_gas_coin_object}
use meow.Adapter.Effects.{bump_version, spent_coin}

module _ (x : External) (y : Platform) where
  -- What makes an object the gas coin that a reference of a sender stands for.
  pub record IsGasCoin (ref : ObjectRef) (sender : Address) (inputs : List Object) (coin : Object)
      : Type 0 where
    pub found : input_at ref.address inputs ≡ some coin
    pub is_coin : is_meow_coin_object coin ≡ true
    pub owned : is_owned_by sender (owner_address coin.owner) ≡ true
    pub below_max : (coin.version == version_max) ≡ false
    pub same_version : (coin.version == ref.version) ≡ true
    pub same_digest : (x.compute_object coin == ref.digest) ≡ true

  resolves :
      (ref : ObjectRef) (sender : Address) (inputs : List Object) (coin : Object)
      → IsGasCoin ref sender inputs coin
      → resolve_gas_coin_object x y ref sender inputs ≡ ok coin
  unfolding resolve_gas_coin_object
  resolves ref sender inputs coin g =
      rw (g.found, g.is_coin, g.owned, g.below_max, g.same_version, g.same_digest) refl

  pub resolved :
      (ref : ObjectRef) (sender : Address) (inputs : List Object) (coin : Object)
      → resolve_gas_coin_object x y ref sender inputs ≡ ok coin
      → IsGasCoin ref sender inputs coin
  unfolding resolve_gas_coin_object
  resolved ref sender inputs coin h =
      let (c, e, h₁) = >>=-eq-ok (ok_or (input_at ref.address inputs) gas_coin_not_found) _ h in
      let (a, h₂) = guard-eq-ok (is_meow_coin_object c) _ _ h₁ in
      let (b, h₃) = guard-eq-ok (is_owned_by sender (owner_address c.owner)) _ _ h₂ in
      let (d, h₄) = reject_if-eq-ok (c.version == version_max) _ _ h₃ in
      let (v, h₅) = guard-eq-ok (c.version == ref.version) _ _ h₄ in
      let (w, h₆) = guard-eq-ok (x.compute_object c == ref.digest) _ _ h₅ in
      let same : c ≡ coin = cc h₆ in
      subst (IsGasCoin ref sender inputs) same (record {
        found = ok_or-eq-ok (input_at ref.address inputs) _ e;
        is_coin = a;
        owned = b;
        below_max = d;
        same_version = v;
        same_digest = w;
      })

  -- An object is resolved as the gas coin exactly if it is the first input at the address of the
  -- reference, a `MeowCoin`, owned by the sender, below the last version, and of the version and the
  -- digest of the reference.
  pub resolve_gas_coin_object_iff :
      (ref : ObjectRef) (sender : Address) (inputs : List Object) (coin : Object)
      → (resolve_gas_coin_object x y ref sender inputs ≡ ok coin) ↔ IsGasCoin ref sender inputs coin
  resolve_gas_coin_object_iff ref sender inputs coin =
      (resolved ref sender inputs coin, resolves ref sender inputs coin)

  -- What is deducted is gone from the balance.
  deducted-balance :
      (s b : ℕ) (fs gs : Fields)
      → balance_in fs ≡ some b
      → deducted s fs ≡ some gs
      → balance_in gs ≡ some (b - s)
  unfolding balance_in deducted as_u64
  deducted-balance s b end gs h e = cc h
  deducted-balance s b (field n v fs) gs h e = elim (Bool-cases (text_eq n balance_field_name)) [
    | inl t ↦
        let held : as_u64 v ≡ some b = rw t at h in
        let same : some (field n (u64 (b - s)) fs) ≡ some gs = rw (t, held) at e in
        let same' : field n (u64 (b - s)) fs ≡ gs = cc same in
        subst (λ gs. balance_in gs ≡ some (b - s)) same' (rw t refl)
    | inr t ↦
        let later : balance_in fs ≡ some b = rw t at h in
        elim (Option-cases (deducted s fs)) [
          | inl gone ↦ let bad : none ≡ some gs = rw (t, gone) at e in cc bad
          | inr (rest, held) ↦
              let same : some (field n v rest) ≡ some gs = rw (t, held) at e in
              let same' : field n v rest ≡ gs = cc same in
              subst (λ gs. balance_in gs ≡ some (b - s)) same'
                (rw t (deducted-balance s b fs rest later held))
        ]
  ]

  -- BCS decodes the fields that it encodes.
  abbrev pub FieldsLaw : Type 0
  FieldsLaw =
      (fs : Fields) (bytes : Bytes)
      → y.encode_fields fs ≡ some bytes
      → y.decode_fields bytes ≡ some fs

  -- A balance that is decoded is a `u64`.
  abbrev pub BalancesLaw : Type 0
  BalancesLaw = (o : Object) (b : ℕ) → balance_from_object x y o ≡ some b → b ≤ max_u64

  -- A gas coin after gas was spent from it.
  pub record IsSpent (coin : Object) (budget spent : ℕ) (digest : Digest) (coin' : Object)
      : Type 0 where
    pub address : coin'.address ≡ coin.address
    pub owner : coin'.owner ≡ coin.owner
    pub type_ : coin'.type_ ≡ coin.type_
    pub transaction : coin'.transaction ≡ digest
    pub version : next coin.version ≡ some coin'.version
    pub balance : balance_from_object x y coin' ≡ some (budget - spent)

  and_then-eq-some {ℓ κ} :
      {A : Type ℓ} {B : Type κ} (o : Option A) (f : A → Option B) {b : B}
      → and_then o f ≡ some b
      → (a : A) × (o ≡ some a) × (f a ≡ some b)
  and_then-eq-some none f h = cc h
  and_then-eq-some (some a) f h = (a, refl, h)

  deduct_gas-balance :
      (law : FieldsLaw) (coin : Object) (budget spent : ℕ) (bytes : Bytes) (coin' : Object)
      → balance_from_object x y coin ≡ some budget
      → deduct_gas x y coin spent ≡ some bytes
      → coin'.type_ ≡ coin.type_
      → coin'.content ≡ bytes
      → balance_from_object x y coin' ≡ some (budget - spent)
  unfolding balance_from_object deduct_gas is_meow_coin_object
  deduct_gas-balance law coin budget spent bytes coin' h e t c =
      elim (Bool-cases (is_coin_type coin.type_)) [
        | inr gone ↦ let bad : none ≡ some budget = rw gone at h in cc bad
        | inl is ↦
            let h' : and_then (y.decode_fields coin.content) balance_in ≡ some budget =
              rw is at h in
            let e' : and_then (y.decode_fields coin.content)
                  (λ fs. and_then (deducted spent fs) y.encode_fields)
                ≡ some bytes =
              rw is at e in
            let (fs, p, q) = and_then-eq-some (y.decode_fields coin.content) _ h' in
            let (fs', p', q') = and_then-eq-some (y.decode_fields coin.content) _ e' in
            let (gs, r, r') = and_then-eq-some (deducted spent fs') _ q' in
            let same : fs' ≡ fs = cc (p, p') in
            let kept : balance_in gs ≡ some (budget - spent) =
              deducted-balance spent budget fs gs q
                (subst (λ f. deducted spent f ≡ some gs) same r) in
            rw (t, is, c, law gs bytes r') kept
      ]

  pub spent_coin_lem :
      {E : Type 0} (law : FieldsLaw) (coin : Object) (budget spent : ℕ) (digest : Digest)
      (coin' : Object)
      → balance_from_object x y coin ≡ some budget
      → spent_coin x y {E = E} coin spent digest ≡ ok coin'
      → IsSpent coin budget spent digest coin'
  unfolding spent_coin bump_version
  spent_coin_lem law coin budget spent digest coin' b h =
      let (bytes, e, h₁) = >>=-eq-ok (expect (deduct_gas x y coin spent)) _ h in
      let (v, e', h₂) = >>=-eq-ok (expect (next coin.version)) _ h₁ in
      let after = record coin { transaction = digest; version = v; content = bytes } in
      let same : after ≡ coin' = cc h₂ in
      subst (IsSpent coin budget spent digest) same (record {
        address = refl;
        owner = refl;
        type_ = refl;
        transaction = refl;
        version = expect-eq-ok (next coin.version) e';
        balance =
            deduct_gas-balance law coin budget spent bytes after b
              (expect-eq-ok (deduct_gas x y coin spent) e) refl refl;
      })
