-- ===== src/Vm/Machine/Paid.antt =====
-- Gas pays for going back: what a charge leaves, the budget of a run, and results that are not out of
-- fuel.
use native.Mathlib.Nat.{mul-le-mul_right}
use mathlib.Core.Path.{subst}
use meow.Base.{
  min, ℕ, zero, suc, ◌+◌, ◌*◌, ◌-◌, ◌≤◌, ◌<◌, ◌≡◌, refl, ap, ◌≢◌, List, [], ◌∷◌, some, Outcome, ok,
  err, panic, inl, inr, Bool-cases, length, get_elem?, arith, ltb,
}
use meow.Vm.Errors.{VmError}
use meow.Vm.Gas.{GasMeter, charge, saturating_add, remaining, max_u64}
use meow.Vm.Machine.Frame.{Frame}
use meow.Vm.Machine.Run.{Machine, Left, out_of_fuel, spend, spend_as, attempt, and_then}
use meow.Vm.Machine.Metered.{InLimit, Spends, charge_lem}

pub get_elem?-lt {ℓ} :
    {A : Type ℓ} (xs : List A) (i : ℕ) (x : A) → get_elem? xs i ≡ some x → i < length xs
get_elem?-lt [] i x h = cc
get_elem?-lt (y ∷ ys) zero x h = omega arith
get_elem?-lt (y ∷ ys) (suc i) x h = omega (arith, get_elem?-lt ys i x h)

-- The fuel that is enough: a code's length for each unit of gas, and what is left of this code.
unfoldable pub budget : ℕ → GasMeter → Frame → ℕ
budget l g f = remaining g * suc l + (length f.code - f.pc)

-- One unit of gas less pays for a whole code.
pub paid : (r s l k : ℕ) → s < r → k ≤ l → s * suc l + k < r * suc l
paid r s l k h p =
    let pays : suc s * suc l ≤ r * suc l = mul-le-mul_right (suc l) h in omega (arith, pays)

pub kept : (r s l : ℕ) → s ≤ r → s * suc l ≤ r * suc l
kept r s l h = mul-le-mul_right (suc l) h

-- A charge that costs something leaves less gas, below the largest limit.
pub charge-remaining :
    (c : ℕ) (g : GasMeter) (u : Unit)
    → g.limit < max_u64
    → 1 ≤ c
    → (charge c g).0 ≡ ok u
    → remaining (charge c g).1 < remaining g
unfolding charge saturating_add remaining
charge-remaining c g u small p e = elim (Bool-cases (ltb g.limit (min (g.spent + c) max_u64))) [
  | inl h ↦ let no : err _ ≡ ok u = rw h at e in cc no
  | inr h ↦ rw h (ground arith)
]

pub Spends-remaining : (g h : GasMeter) → Spends g h → remaining h ≤ remaining g
unfolding remaining
Spends-remaining g h (e, p, q) = omega arith

-- The result is not that the fuel is out.
pub record Ended {ℓ} {S : Type ℓ} {B : Type 0} (r : Left B S) : Type 0 where
  pub ended : r.0 ≢ err out_of_fuel

-- A meter that has room below the largest number.
abbrev pub Bounds : GasMeter → Type 0
Bounds g = (g.spent ≤ g.limit) × (g.limit < max_u64)

pub Bounds-InLimit : (g : GasMeter) → Bounds g → InLimit g
Bounds-InLimit g (p, q) = (p, omega arith)

pub Spends-Bounds : (g h : GasMeter) → Bounds g → Spends g h → Bounds h
Spends-Bounds g h (p, q) (e, p', q') = (omega arith, omega arith)

module _ {ℓ} {S : Type ℓ} {B : Type 0} where
  spend_as-Ended :
      (c : ℕ) (w : Machine S) (next : Machine S → Left B S)
      (r : Outcome VmError (Unit {0}) × GasMeter)
      → charge c w.gas ≡ r
      → Bounds w.gas
      → ((v : Machine S)
          → Spends w.gas v.gas
          → (1 ≤ c → remaining v.gas < remaining w.gas)
          → Ended (next v))
      → Ended (spend_as next w.state r)
  spend_as-Ended c w next (ok u, g) e good h =
      h (record { gas = g; state = w.state })
        (subst (λ r. Spends w.gas r.1) e (charge_lem c w.gas (Bounds-InLimit w.gas good)))
        (λ p.
          subst (λ r. remaining r.1 < remaining w.gas) e
            (charge-remaining c w.gas u good.1 p (ap (λ r. r.0) e)))
  spend_as-Ended c w next (err e, g) q good h = record { ended = λ x. cc x }
  spend_as-Ended c w next (panic, g) q good h = record { ended = λ x. cc x }

  pub spend-Ended :
      (c : ℕ) (w : Machine S) (next : Machine S → Left B S)
      → Bounds w.gas
      → ((v : Machine S)
          → Spends w.gas v.gas
          → (1 ≤ c → remaining v.gas < remaining w.gas)
          → Ended (next v))
      → Ended (spend c w next)
  unfolding spend
  spend-Ended c w next good h = spend_as-Ended c w next (charge c w.gas) refl good h

  pub attempt-Ended {κ} :
      {A : Type κ} (m : Outcome VmError A) (w : Machine S) (next : A → Left B S)
      → ((x : A) → m ≡ ok x → Ended (next x))
      → Ended (attempt m w next)
  unfolding attempt
  attempt-Ended (ok x) w next h = h x refl
  attempt-Ended (err e) w next h = record { ended = λ x. cc x }
  attempt-Ended panic w next h = record { ended = λ x. cc x }

  pub and_then-Ended :
      {A : Type 0} (r : Left A S) (next : A → Machine S → Left B S)
      → Ended r
      → ((x : A) → Ended (next x r.1))
      → Ended (and_then r next)
  unfolding and_then
  and_then-Ended (ok x, w) next e h = h x
  and_then-Ended (err f, w) next e h = record {
    ended = λ p. let same : f ≡ out_of_fuel = cc p in e.ended (ap err same);
  }
  and_then-Ended (panic, w) next e h = record { ended = λ x. cc x }
