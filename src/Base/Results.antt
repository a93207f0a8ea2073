-- ===== src/Base/Results.antt =====
-- The result of fallible code: a value, an error value, or a panic (`expect`, `assert!`, an index
-- out of range).
use mathlib.Core.Path.{◌≡◌, refl, ap, subst}
use mathlib.Core.Logic.{◌⊎◌, inl, inr}
use mathlib.Core.Bool.{Bool, true, false}
use mathlib.Core.Option.{Option, none, some}

pub data Outcome {ℓ} (E : Type 0) (A : Type ℓ) : Type ℓ where
  ok : A → Outcome E A
  err : E → Outcome E A
  panic : Outcome E A

infixl 5 ◌>>=◌ ◌>>◌
abbrev pub ◌>>=◌ {ℓ κ} :
    {E : Type 0} {A : Type ℓ} {B : Type κ} → Outcome E A → (A → Outcome E B) → Outcome E B
panic >>= next = panic
err failure >>= next = err failure
ok value >>= next = next value

abbrev pub ◌>>◌ {ℓ} : {E : Type 0} {B : Type ℓ} → Outcome E (Unit {0}) → Outcome E B → Outcome E B
check >> rest = check >>= λ passed. rest

module _ {E : Type 0} where
  -- `if !b { return Err(e); }`
  abbrev pub guard : Bool → E → Outcome E (Unit {0})
  guard false otherwise = err otherwise
  guard true otherwise = ok tt

  -- `if b { return Err(e); }`
  abbrev pub reject_if : Bool → E → Outcome E (Unit {0})
  reject_if true e = err e
  reject_if false e = ok tt

  -- `assert!(b)`
  abbrev pub require : Bool → Outcome E (Unit {0})
  require true = ok tt
  require false = panic

  -- `o.expect(..)`
  abbrev pub expect {ℓ} : {A : Type ℓ} → Option A → Outcome E A
  expect none = panic
  expect (some a) = ok a

  -- `o.ok_or(e)`
  abbrev pub ok_or {ℓ} : {A : Type ℓ} → Option A → E → Outcome E A
  ok_or none e = err e
  ok_or (some a) e = ok a

-- `r.map_err(f)`
abbrev pub map_err {ℓ} : {E F : Type 0} {A : Type ℓ} → (E → F) → Outcome E A → Outcome F A
map_err f (ok a) = ok a
map_err f (err e) = err (f e)
map_err f panic = panic

abbrev pub is_ok {ℓ} : {E : Type 0} {A : Type ℓ} → Outcome E A → Bool
is_ok (ok a) = true
is_ok (err e) = false
is_ok panic = false

-- Inversion of a successful bind and of a passed guard.
pub >>=-eq-ok {ℓ κ} :
    {E : Type 0} {A : Type ℓ} {B : Type κ} (first : Outcome E A) (next : A → Outcome E B) {last : B}
    → (first >>= next) ≡ ok last
    → (value : A) × (first ≡ ok value) × (next value ≡ ok last)
>>=-eq-ok panic next h = cc
>>=-eq-ok (err failure) next h = cc
>>=-eq-ok (ok value) next h = (value, refl, h)

pub expect-eq-ok {ℓ} :
    {E : Type 0} {A : Type ℓ} (o : Option A) {a : A} → expect {E = E} o ≡ ok a → o ≡ some a
expect-eq-ok none h = cc
expect-eq-ok (some a) h = cc

pub map_err-eq-ok {ℓ} :
    {E F : Type 0} {A : Type ℓ} (f : E → F) (m : Outcome E A) {a : A}
    → map_err f m ≡ ok a
    → m ≡ ok a
map_err-eq-ok f (ok b) {a = a} h = let same : b ≡ a = cc h in ap ok same
map_err-eq-ok f (err e) h = cc h
map_err-eq-ok f panic h = cc h

pub ok_or-eq-ok {ℓ} :
    {E : Type 0} {A : Type ℓ} (o : Option A) (e : E) {a : A} → ok_or o e ≡ ok a → o ≡ some a
ok_or-eq-ok none e h = cc
ok_or-eq-ok (some a) e h = cc

module _ {ℓ} {E : Type 0} {A : Type ℓ} where
  pub guard-eq-ok :
      (b : Bool) (e : E) (k : Outcome E A) {a : A}
      → (guard b e >> k) ≡ ok a
      → (b ≡ true) × (k ≡ ok a)
  guard-eq-ok true e k h = (refl, h)
  guard-eq-ok false e k h = cc

  pub reject_if-eq-ok :
      (b : Bool) (e : E) (k : Outcome E A) {a : A}
      → (reject_if b e >> k) ≡ ok a
      → (b ≡ false) × (k ≡ ok a)
  reject_if-eq-ok true e k h = cc
  reject_if-eq-ok false e k h = (refl, h)

-- To split on a result and keep the equation.
pub Outcome-cases {ℓ} :
    {E : Type 0} {A : Type ℓ} (m : Outcome E A)
    → ((a : A) × (m ≡ ok a)) ⊎ (((e : E) × (m ≡ err e)) ⊎ (m ≡ panic))
Outcome-cases (ok a) = inl (a, refl)
Outcome-cases (err e) = inr (inl (e, refl))
Outcome-cases panic = inr (inr refl)

pub guard_passed : {E : Type 0} (b : Bool) (e : E) → guard b e ≡ ok tt → b ≡ true
guard_passed true e h = refl
guard_passed false e h = cc

-- Every value that a result may hold has a property.
abbrev pub EveryOf {ℓ κ} : {E : Type 0} {A : Type ℓ} → (A → Type κ) → Outcome E A → Type κ
EveryOf P (ok a) = P a
EveryOf P (err e) = Unit
EveryOf P panic = Unit

pub record Every {ℓ κ} {E : Type 0} {A : Type ℓ} (P : A → Type κ) (m : Outcome E A) : Type κ where
  pub holds : EveryOf P m

module _ {ℓ} {E : Type 0} {A : Type ℓ} where
  pub Every-ok {κ} : {P : A → Type κ} {a : A} → P a → Every {E = E} P (ok a)
  Every-ok p = record { holds = p }

  pub Every-err {κ} : {P : A → Type κ} {e : E} → Every P (err e)
  Every-err = record { holds = tt }

  pub Every-panic {κ} : {P : A → Type κ} → Every {E = E} P panic
  Every-panic = record { holds = tt }

  pub Every-bind {κ ρ σ} :
      {B : Type κ} {P : A → Type σ} {Q : B → Type ρ} (m : Outcome E A) (next : A → Outcome E B)
      → Every P m
      → ((a : A) → P a → Every Q (next a))
      → Every Q (m >>= next)
  Every-bind (ok a) next p h = h a p.holds
  Every-bind (err e) next p h = record { holds = tt }
  Every-bind panic next p h = record { holds = tt }

  -- A first result of which nothing more is known.
  pub Every-then {κ ρ} :
      {B : Type κ} {Q : B → Type ρ} (m : Outcome E A) (next : A → Outcome E B)
      → ((a : A) → m ≡ ok a → Every Q (next a))
      → Every Q (m >>= next)
  Every-then (ok a) next h = h a refl
  Every-then (err e) next h = record { holds = tt }
  Every-then panic next h = record { holds = tt }

  pub Every-eq-ok {κ} : {P : A → Type κ} (m : Outcome E A) (a : A) → Every P m → m ≡ ok a → P a
  Every-eq-ok {P = P} (ok b) a p h = let same : b ≡ a = cc h in subst P same p.holds
  Every-eq-ok (err e) a p h = cc
  Every-eq-ok panic a p h = cc
