-- ===== src/Adapter/Placed.antt =====
-- What it means that `check_object_layouts` finds no errors.
use text.Mathlib.Text.{◌==◌ as text_eq}
use text.Mathlib.TextEquality.{eq_iff}
use meow.Base.{
  ℕ, zero, suc, ◌+◌, ◌≡◌, refl, sym, String, Bool, true, false, not, ◌&&◌, none, some, List, [],
  ◌∷◌, ◌==◌, inl, inr, Bool-cases, get_elem?, append_empty, rest_empty, arith,
}
use meow.Types.Primitives.{Address}
use meow.Vm.Types.{VmType, FieldDef, StructDef}
use meow.Vm.Module.{Module, get_struct}
use meow.Vm.Ref.{HexCodec, parse_module_ref}
use meow.Vm.Values.{vm_type_eq}
use meow.Vm.Machine.Exec.{find_dep}
use meow.Adapter.Context.{id_type}
use meow.Adapter.Layout.{
  BytecodeVerifierError, reported, id_field_not_first, object_as_field_type, is_object_struct,
  is_object_type, has_object_type, type_name_of, check_layout_field, check_layout_fields,
  check_layouts, check_object_layouts,
}

reported_empty : (b : Bool) (e : BytecodeVerifierError) → reported b e ≡ [] → b ≡ false
reported_empty true e h = cc
reported_empty false e h = refl

-- A local struct of a name that no object has.
is_object_type-at :
    (ss : List StructDef) (name : String) (k : ℕ) (def : StructDef)
    → is_object_type ss name ≡ false
    → get_elem? ss k ≡ some def
    → def.name ≡ name
    → is_object_struct def ≡ false
unfolding is_object_type
is_object_type-at [] name k def h g e = cc
is_object_type-at (s ∷ ss) name zero def h g e =
    let same : s ≡ def = cc in
    let named : text_eq s.name name ≡ true = (eq_iff s.name name).1 (rw same e) in
    elim (Bool-cases (is_object_struct s)) [
      | inl o ↦ let h' = rw (o, named) at h in cc
      | inr o ↦ rw (sym same) o
    ]
is_object_type-at (s ∷ ss) name (suc k) def h g e =
    elim (Bool-cases (is_object_struct s && text_eq s.name name)) [
      | inl o ↦ let h' = rw o at h in cc
      | inr o ↦
          let later : is_object_type ss name ≡ false = rw o at h in
          is_object_type-at ss name k def later g e
    ]

module _ (hex : HexCodec) (m : Module) (deps : List (Address × Module)) where
  -- The struct that a name in the module refers to: one of a dependency, or a local one.
  pub data Refers : String → StructDef → Type 0 where
    to_dep :
        (name short : String) (a : Address) (d : Module) (def : StructDef)
        → parse_module_ref hex name ≡ some (a, short)
        → find_dep a deps ≡ some d
        → get_struct d short ≡ some def
        → Refers name def
    to_local :
        (name : String) (k : ℕ) (def : StructDef)
        → parse_module_ref hex name ≡ none
        → get_elem? m.structs k ≡ some def
        → def.name ≡ name
        → Refers name def

  fields-at :
      (s : String) (fs : List FieldDef) (i k n : ℕ) (f : FieldDef)
      → i + k ≡ n
      → check_layout_fields hex m deps s i fs ≡ []
      → get_elem? fs k ≡ some f
      → check_layout_field hex m deps s n f ≡ []
  unfolding check_layout_fields
  fields-at s [] i k n f e h g = cc
  fields-at s (x ∷ fs) i zero n f e h g =
      let same : x ≡ f = cc in
      let here : i ≡ n = omega arith in
      let (first, _) = append_empty (check_layout_field hex m deps s i x) _ h in
      rw (sym same, sym here) first
  fields-at s (x ∷ fs) i (suc k) n f e h g =
      fields-at s fs (suc i) k n f (omega arith)
        (rest_empty (check_layout_field hex m deps s i x) _ h) g

  structs-at :
      (ss : List StructDef) (j : ℕ) (s : StructDef)
      → check_layouts hex m deps ss ≡ []
      → get_elem? ss j ≡ some s
      → check_layout_fields hex m deps s.name 0 s.fields ≡ []
  unfolding check_layouts
  structs-at [] j s h g = cc
  structs-at (x ∷ ss) zero s h g =
      let same : x ≡ s = cc in
      let (first, _) = append_empty (check_layout_fields hex m deps x.name 0 x.fields) _ h in
      rw (sym same) first
  structs-at (x ∷ ss) (suc j) s h g =
      structs-at ss j s (rest_empty (check_layout_fields hex m deps x.name 0 x.fields) _ h) g

  field-at :
      (j i : ℕ) (s : StructDef) (f : FieldDef)
      → check_object_layouts hex m deps ≡ []
      → get_elem? m.structs j ≡ some s
      → get_elem? s.fields i ≡ some f
      → check_layout_field hex m deps s.name i f ≡ []
  unfolding check_object_layouts
  field-at j i s f h p q =
      fields-at s.name s.fields 0 i i f (omega arith) (structs-at m.structs j s h p) q

  no_object-at :
      (name : String) (def : StructDef)
      → has_object_type hex m deps (VmType.struct name) ≡ false
      → Refers name def
      → is_object_struct def ≡ false
  no_object-at name def h (to_dep _ short a d _ p q r) = rw (p, q, r) at h
  no_object-at name def h (to_local _ k _ p g e) =
      is_object_type-at m.structs name k def (rw p at h) g e

  -- Where no errors are found, a field of a struct whose type is a struct does not refer to an object.
  pub check_object_layouts-no_nested :
      (j i : ℕ) (s def : StructDef) (f : FieldDef) (name : String)
      → check_object_layouts hex m deps ≡ []
      → get_elem? m.structs j ≡ some s
      → get_elem? s.fields i ≡ some f
      → f.ty ≡ VmType.struct name
      → Refers name def
      → is_object_struct def ≡ false
  unfolding check_layout_field
  check_object_layouts-no_nested j i s def f name h p q t r =
      let e = field-at j i s f h p q in
      let clear =
        reported_empty (has_object_type hex m deps f.ty)
          (object_as_field_type s.name f.name (type_name_of hex m deps f.ty))
          (rest_empty
            (reported (vm_type_eq f.ty id_type && not (i == 0)) (id_field_not_first s.name f.name))
            _ e) in
      no_object-at name def (rw t at clear) r

  -- Where no errors are found, only the first field of a struct has the type of identifiers.
  pub check_object_layouts-first :
      (j i : ℕ) (s : StructDef) (f : FieldDef)
      → check_object_layouts hex m deps ≡ []
      → get_elem? m.structs j ≡ some s
      → get_elem? s.fields i ≡ some f
      → f.ty ≡ id_type
      → i ≡ 0
  unfolding check_layout_field vm_type_eq
  check_object_layouts-first j i s f h p q t =
      let e = field-at j i s f h p q in
      let (first, _) =
        append_empty
          (reported (vm_type_eq f.ty id_type && not (i == 0)) (id_field_not_first s.name f.name)) _
          e in
      let clear =
        reported_empty (vm_type_eq f.ty id_type && not (i == 0)) (id_field_not_first s.name f.name)
          first in
      let clear' : not (i == 0) ≡ false = rw t at clear in ground arith
