-- ===== src/Verifier/Cycles.antt =====
-- The search of `check_struct_cycles` for cycles ends: each level of it visits another struct.
use text.Mathlib.Text.{◌==◌ as text_eq}
use text.Mathlib.TextEquality.{eq_iff}
use meow.Base.{
  ℕ, zero, suc, ◌≤◌, ◌≡◌, refl, sym, String, Bool, true, false, not, ◌&&◌, Option, none, some, List,
  [], ◌∷◌, inl, inr, Bool-cases, All, find, is_some, length, if◌then◌else◌, arith,
}
use meow.Types.Primitives.{Address}
use meow.Vm.Types.{VmType, FieldDef, StructDef}
use meow.Vm.Module.{Module, get_struct}
use meow.Vm.Ref.{HexCodec, parse_module_ref}
use meow.Verifier.Errors.{VerificationError}
use meow.Verifier.Types.{
  has_name, without_name, Search, local_struct_of, search_field, search_fields, fields_of,
  struct_dfs, search_structs, check_struct_cycles,
}

text_eq-same : (a b : String) → text_eq a b ≡ true → a ≡ b
text_eq-same a b h = (eq_iff a b).0 h

text_eq_refl : (a : String) → text_eq a a ≡ true
text_eq_refl a = (eq_iff a a).1 refl

and-second : (a b : Bool) → (a && b) ≡ true → b ≡ true
and-second true b h = h
and-second false b h = cc

-- The number of structs that are not being visited
free : List String → List StructDef → ℕ
free vs [] = 0
free vs (d ∷ ds) = let rest = free vs ds in if has_name vs d.name then rest else suc rest

free-length : (vs : List String) (ds : List StructDef) → free vs ds ≤ length ds
unfolding free
free-length vs [] = omega arith
free-length vs (d ∷ ds) = elim (Bool-cases (has_name vs d.name)) [
  | inl e ↦ rw e (omega (arith, free-length vs ds))
  | inr e ↦ rw e (omega (arith, free-length vs ds))
]

free-visit : (n : String) (vs : List String) (ds : List StructDef) → free (n ∷ vs) ds ≤ free vs ds
unfolding free
free-visit n vs [] = omega arith
free-visit n vs (d ∷ ds) =
    let ih = free-visit n vs ds in
    elim (Bool-cases (has_name vs d.name)) [
      | inl e ↦ elim (Bool-cases (text_eq n d.name)) [ inl t ↦ rw (e, t) ih | inr t ↦ rw (e, t) ih ]
      | inr e ↦ elim (Bool-cases (text_eq n d.name)) [
        | inl t ↦ rw (e, t) (omega (arith, ih))
        | inr t ↦ rw (e, t) (omega (arith, ih))
      ]
    ]

-- Visiting a struct of the list takes one away.
free-fresh :
    (n : String) (vs : List String) (ds : List StructDef)
    → has_name vs n ≡ false
    → is_some (find (λ s. text_eq s.name n) ds) ≡ true
    → suc (free (n ∷ vs) ds) ≤ free vs ds
unfolding free
free-fresh n vs [] f h = cc
free-fresh n vs (d ∷ ds) f h = elim (Bool-cases (text_eq d.name n)) [
  | inl t ↦
      let same : d.name ≡ n = text_eq-same d.name n t in
      rw (same, f, text_eq_refl n) (omega (arith, free-visit n vs ds))
  | inr t ↦
      let later : is_some (find (λ s. text_eq s.name n) ds) ≡ true = rw t at h in
      let ih = free-fresh n vs ds f later in
      elim (Bool-cases (has_name vs d.name)) [
        | inl e ↦ elim (Bool-cases (text_eq n d.name)) [
          | inl u ↦ rw (e, u) ih
          | inr u ↦ rw (e, u) ih
        ]
        | inr e ↦ elim (Bool-cases (text_eq n d.name)) [
          | inl u ↦ rw (e, u) (omega (arith, ih))
          | inr u ↦ rw (e, u) (omega (arith, ih))
        ]
      ]
]

without-fresh : (n : String) (vs : List String) → has_name vs n ≡ false → without_name n vs ≡ vs
unfolding without_name
without-fresh n [] h = refl
without-fresh n (v ∷ vs) h = elim (Bool-cases (text_eq v n)) [
  | inl t ↦ let h' = rw t at h in cc
  | inr t ↦ let later : has_name vs n ≡ false = rw t at h in rw t (rw (without-fresh n vs later))
]

without-first :
    (n : String) (vs : List String) → has_name vs n ≡ false → without_name n (n ∷ vs) ≡ vs
unfolding without_name
without-first n vs h = rw (text_eq_refl n) (without-fresh n vs h)

-- Each struct of a list is found there by its name.
AllFound : List StructDef → List StructDef → Type 0
AllFound ss ds = All (λ d. is_some (find (λ s. text_eq s.name d.name) ss) ≡ true) ds

found-cons : (s : StructDef) (ss ds : List StructDef) → AllFound ss ds → AllFound (s ∷ ss) ds
unfolding AllFound
found-cons s ss [] h = tt
found-cons s ss (d ∷ ds) (h, hs) = elim (Bool-cases (text_eq s.name d.name)) [
  | inl e ↦ (rw e refl, found-cons s ss ds hs)
  | inr e ↦ (rw e h, found-cons s ss ds hs)
]

found_self : (ss : List StructDef) → AllFound ss ss
unfolding AllFound
found_self [] = tt
found_self (s ∷ ss) = (rw (text_eq_refl s.name) refl, found-cons s ss ss (found_self ss))

-- A search that ends with the same structs visited as it began with.
abbrev Kept : List String → Option Search → Type 0
Kept v o = (t : Search) × ((o ≡ some t) × (t.visiting ≡ v))

module _ (hex : HexCodec) (m : Module) (deps : List (Address × Module)) where
  -- What is descended into: a struct of the module that is not being visited.
  Descends : List String → (String → Search → Option Search) → Type 0
  Descends v descend =
      (n : String) (s : Search)
      → is_some (get_struct m n) ≡ true
      → has_name v n ≡ false
      → s.visiting ≡ v
      → Kept v (descend n s)

  local-found :
      (t : VmType) (n : String)
      → local_struct_of hex m deps t ≡ some n
      → is_some (get_struct m n) ≡ true
  local-found (VmType.struct name) n h =
      elim (Bool-cases (not (is_some (parse_module_ref hex name)) && is_some (get_struct m name))) [
        | inl e ↦ let h' = rw e at h in let same : name ≡ n = cc in rw (sym same) (and-second _ _ e)
        | inr e ↦ let h' = rw e at h in cc
      ]
  local-found t n h = cc

  option-Kept :
      (v : List String) (descend : String → Search → Option Search) (o : Option String) (s : Search)
      → ((n : String) → o ≡ some n → is_some (get_struct m n) ≡ true)
      → Descends v descend
      → s.visiting ≡ v
      → Kept v (search_field hex m deps descend o s)
  unfolding Descends
  option-Kept v descend none s found d e = (s, (refl, e))
  option-Kept v descend (some n) s found d e = elim (Bool-cases (has_name s.visiting n)) [
    | inl h ↦ rw h (_, (refl, e))
    | inr h ↦ elim (Bool-cases (has_name s.visited n)) [
      | inl w ↦ rw (h, w) (s, (refl, e))
      | inr w ↦ rw (h, w) (d n s (found n refl) (rw (sym e) h) e)
    ]
  ]

  field-Kept :
      (v : List String) (descend : String → Search → Option Search) (t : VmType) (s : Search)
      → Descends v descend
      → s.visiting ≡ v
      → Kept v (search_field hex m deps descend (local_struct_of hex m deps t) s)
  field-Kept v descend t s d e =
      option-Kept v descend (local_struct_of hex m deps t) s (local-found t) d e

  fields-Kept :
      (v : List String) (descend : String → Search → Option Search) (fs : List FieldDef)
      (s : Search)
      → Descends v descend
      → s.visiting ≡ v
      → Kept v (search_fields hex m deps descend fs s)
  unfolding search_fields
  fields-Kept v descend [] s d e = (s, (refl, e))
  fields-Kept v descend (f ∷ fs) s d e =
      let (t, (h, k)) = field-Kept v descend f.ty s d e in
      rw (search_fields, h) (fields-Kept v descend fs t d k)

  dfs-Descends :
      (fuel : ℕ) (v : List String)
      → free v m.structs ≤ fuel
      → Descends v (struct_dfs hex m deps fuel)
  unfolding struct_dfs get_struct Descends
  dfs-Descends zero v l n s found fresh e =
      let p = free-fresh n v m.structs fresh found in absurd (omega (arith, p, l))
  dfs-Descends (suc fuel) v l n s found fresh e =
      let p = free-fresh n v m.structs fresh found in
      let l' : free (n ∷ v) m.structs ≤ fuel = omega arith in
      let (t, (h, k)) =
        fields-Kept (n ∷ v) (struct_dfs hex m deps fuel) (fields_of (get_struct m n))
          (record s { visiting = n ∷ s.visiting }) (dfs-Descends fuel (n ∷ v) l') (rw e refl) in
      rw (struct_dfs, h) (_, (refl, (rw k (without-first n v fresh))))

  structs-some :
      (fuel : ℕ) (ds : List StructDef) (s : Search)
      → free [] m.structs ≤ fuel
      → AllFound m.structs ds
      → s.visiting ≡ []
      → Kept [] (search_structs hex m deps fuel ds s)
  unfolding search_structs AllFound Descends get_struct
  structs-some fuel [] s l h e = (s, (refl, e))
  structs-some fuel (d ∷ ds) s l (h, hs) e = elim (Bool-cases (has_name s.visited d.name)) [
    | inl w ↦ rw (search_structs, w) (structs-some fuel ds s l hs e)
    | inr w ↦
        let (t, (g, k)) = dfs-Descends fuel [] l d.name s h refl e in
        rw (search_structs, w, g) (structs-some fuel ds t l hs k)
  ]

  -- `check_struct_cycles` ends with a list of errors, for every module.
  pub check_struct_cycles-ends :
      (es : List VerificationError) × (check_struct_cycles hex m deps ≡ some es)
  unfolding check_struct_cycles
  check_struct_cycles-ends =
      let l = free-length [] m.structs in
      let l' : free [] m.structs ≤ suc (length m.structs) = omega arith in
      let (t, (h, k)) =
        structs-some (suc (length m.structs)) m.structs
          (record { visiting = []; visited = []; errors = [] }) l' (found_self m.structs) refl in
      (t.errors, (rw (check_struct_cycles, h) refl))
