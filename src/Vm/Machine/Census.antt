-- ===== src/Vm/Machine/Census.antt =====
-- How many structs of some types there are in a value and in a frame, nested ones included. Structs
-- have move semantics: what is not linear holds none, and a write into a field loses none but the
-- field's old value.
use meow.Base.{
  ℕ, zero, suc, ◌+◌, ◌≤◌, ◌≡◌, refl, ap, ◌∙◌, Bool, String, true, false, List, [], ◌∷◌, Option,
  none, some, Every, Every-ok, Every-err, Every-bind, inl, inr, Bool-cases, Option-cases,
  if◌then◌else◌, get_elem?, arith,
}
use text.Mathlib.Text.{◌==◌ as text_eq}
use meow.Vm.Types.{
  Value, Values, Fields, struct, tuple, nil, cons, end, field, bool, u64, address, str, void,
}
use meow.Vm.Values.{
  is_linear, any_linear, find_field, set_field, write_terminal, write_path, write_field_path,
}
use meow.Vm.Machine.Frame.{set_slot, to_values}
use meow.Vm.Machine.Exec.{find_last, remove_name}

module _ (p : String → Bool) where
  unfoldable mutual
    pub census : Value → ℕ
    census (struct name fields) = (if p name then 1 else 0) + fields_census fields
    census (tuple vs) = values_census vs
    census (bool b) = 0
    census (u64 n) = 0
    census (address a) = 0
    census (str s) = 0
    census void = 0

    pub values_census : Values → ℕ
    values_census nil = 0
    values_census (cons v vs) = census v + values_census vs

    pub fields_census : Fields → ℕ
    fields_census end = 0
    fields_census (field n v fs) = census v + fields_census fs

  mutual
    unfolding census is_linear

    pub linear-census : (v : Value) → is_linear v ≡ false → census v ≡ 0
    linear-census (struct name fields) h = cc h
    linear-census (tuple vs) h = linear-values_census vs h
    linear-census (bool b) h = refl
    linear-census (u64 n) h = refl
    linear-census (address a) h = refl
    linear-census (str s) h = refl
    linear-census void h = refl

    linear-values_census : (vs : Values) → any_linear vs ≡ false → values_census vs ≡ 0
    linear-values_census nil h = refl
    linear-values_census (cons v vs) h = elim (Bool-cases (is_linear v)) [
      | inl e ↦ let no : true ≡ false = rw e at h in cc no
      | inr e ↦
          let later : any_linear vs ≡ false = rw e at h in
          omega (arith, linear-census v e, linear-values_census vs later)
    ]

  abbrev pub list_census : List Value → ℕ
  list_census [] = 0
  list_census (v ∷ vs) = census v + list_census vs

  abbrev pub option_census : Option Value → ℕ
  option_census none = 0
  option_census (some v) = census v

  abbrev pub slots_census : List (Option Value) → ℕ
  slots_census [] = 0
  slots_census (o ∷ os) = option_census o + slots_census os

  -- The census of a slot, of one past the slots too.
  abbrev pub slot_census : Option (Option Value) → ℕ
  slot_census none = 0
  slot_census (some o) = option_census o

  pub set_slot-census :
      (i : ℕ) (o : Option Value) (xs : List (Option Value))
      → slots_census (set_slot i o xs) + slot_census (get_elem? xs i)
        ≡ slots_census xs + option_census o
  unfolding set_slot
  set_slot-census zero o [] = omega arith
  set_slot-census zero o (x ∷ xs) = omega arith
  set_slot-census (suc i) o [] = omega (arith, set_slot-census i o [])
  set_slot-census (suc i) o (x ∷ xs) = omega (arith, set_slot-census i o xs)

  pub to_values-census : (vs : List Value) → values_census (to_values vs) ≡ list_census vs
  unfolding to_values values_census
  to_values-census [] = refl
  to_values-census (v ∷ vs) = rw (to_values-census vs)

  pub find_field-census :
      (n : String) (fs : Fields) (v : Value)
      → find_field n fs ≡ some v
      → census v ≤ fields_census fs
  unfolding find_field fields_census
  find_field-census n end v h = cc h
  find_field-census n (field m w fs) v h = elim (Bool-cases (text_eq m n)) [
    | inl e ↦
        let same : some w ≡ some v = rw e at h in
        let same' : w ≡ v = cc same in
        let counts : census w ≡ census v = ap census same' in omega (arith, counts)
    | inr e ↦
        let later : find_field n fs ≡ some v = rw e at h in
        omega (arith, find_field-census n fs v later)
  ]

  pub set_field-census :
      (n : String) (w : Value) (fs : Fields) (old : Value)
      → find_field n fs ≡ some old
      → fields_census (set_field n w fs) + census old ≡ fields_census fs + census w
  unfolding find_field set_field fields_census
  set_field-census n w end old h = cc h
  set_field-census n w (field m v fs) old h = elim (Bool-cases (text_eq m n)) [
    | inl e ↦
        let same : some v ≡ some old = rw e at h in
        let same' : v ≡ old = cc same in
        let counts : census v ≡ census old = ap census same' in rw e (omega (arith, counts))
    | inr e ↦
        let later : find_field n fs ≡ some old = rw e at h in
        rw e (omega (arith, set_field-census n w fs old later))
  ]

  remove_name-le : (n : String) (fs : Fields) → fields_census (remove_name n fs) ≤ fields_census fs
  unfolding remove_name fields_census
  remove_name-le n end = omega arith
  remove_name-le n (field m v fs) = elim (Bool-cases (text_eq m n)) [
    | inl e ↦ rw e (omega (arith, remove_name-le n fs))
    | inr e ↦ rw e (omega (arith, remove_name-le n fs))
  ]

  pub remove_name-census :
      (n : String) (fs : Fields) (v : Value)
      → find_last n fs ≡ some v
      → fields_census (remove_name n fs) + census v ≤ fields_census fs
  unfolding remove_name find_last fields_census
  remove_name-census n end v h = cc h
  remove_name-census n (field m w fs) v h = elim (Option-cases (find_last n fs)) [
    | inr (u, e) ↦
        let same : some u ≡ some v = rw e at h in
        let here : find_last n fs ≡ some v = e ∙ same in
        elim (Bool-cases (text_eq m n)) [
          | inl t ↦ rw t (omega (arith, remove_name-census n fs v here))
          | inr t ↦ rw t (omega (arith, remove_name-census n fs v here))
        ]
    | inl e ↦ elim (Bool-cases (text_eq m n)) [
      | inl t ↦
          let same : some w ≡ some v = rw (e, t) at h in
          let same' : w ≡ v = cc same in
          let counts : census w ≡ census v = ap census same' in
          rw t (omega (arith, counts, remove_name-le n fs))
      | inr t ↦ let no : none ≡ some v = rw (e, t) at h in cc no
    ]
  ]

  write_terminal-census :
      (f : String) (w v : Value)
      → Every (λ u. census u ≤ census v + census w) (write_terminal f w v)
  unfolding write_terminal census
  write_terminal-census f w (struct name fields) = elim (Option-cases (find_field f fields)) [
    | inl e ↦ rw (e, write_terminal) Every-err
    | inr (old, e) ↦ elim (Bool-cases (is_linear old)) [
      | inl l ↦ rw (e, l, write_terminal) Every-err
      | inr l ↦
          rw (e, l, write_terminal)
            (Every-ok (omega (arith, set_field-census f w fields old e, linear-census old l)))
    ]
  ]
  write_terminal-census f w (tuple vs) = Every-err
  write_terminal-census f w (bool b) = Every-err
  write_terminal-census f w (u64 n) = Every-err
  write_terminal-census f w (address a) = Every-err
  write_terminal-census f w (str s) = Every-err
  write_terminal-census f w void = Every-err

  write_path-census :
      (i : ℕ) (v : Value) (f : String) (path : List String) (w : Value)
      → Every (λ u. census u ≤ census v + census w) (write_path i v f path w)
  unfolding write_path census
  write_path-census i v f [] w = write_terminal-census f w v
  write_path-census i (struct name fields) f (g ∷ gs) w =
      elim (Option-cases (find_field f fields)) [
        | inl e ↦ rw (e, write_path) Every-err
        | inr (old, e) ↦
            rw (e, write_path)
              (Every-bind (write_path (i + 1) old g gs w) _ (write_path-census (i + 1) old g gs w)
                (λ u h. Every-ok (omega (arith, set_field-census f u fields old e, h))))
      ]
  write_path-census i (tuple vs) f (g ∷ gs) w = Every-err
  write_path-census i (bool b) f (g ∷ gs) w = Every-err
  write_path-census i (u64 n) f (g ∷ gs) w = Every-err
  write_path-census i (address a) f (g ∷ gs) w = Every-err
  write_path-census i (str s) f (g ∷ gs) w = Every-err
  write_path-census i void f (g ∷ gs) w = Every-err

  pub write_field_path-census :
      (v : Value) (path : List String) (w : Value)
      → Every (λ u. census u ≤ census v + census w) (write_field_path v path w)
  unfolding write_field_path
  write_field_path-census v [] w = Every-err
  write_field_path-census v (f ∷ fs) w = write_path-census 0 v f fs w

  pub struct-census : (name : String) (fs : Fields) → census (struct name fs) ≤ fields_census fs + 1
  unfolding census
  struct-census name fs = elim (Bool-cases (p name)) [
    | inl h ↦ rw h (omega arith)
    | inr h ↦ rw h (omega arith)
  ]

  pub tuple-census : (vs : List Value) → census (tuple (to_values vs)) ≡ list_census vs
  unfolding census
  tuple-census vs = to_values-census vs
