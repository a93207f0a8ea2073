-- ===== src/Adapter/Versions.antt =====
-- What `collect_object_effects` (crates/meow-vm-adapter/src/executor/effects.rs) makes of the recorded
-- side effects.
use mathlib.Core.Path.{subst}
use meow.Base.{
  ◌≡◌, refl, sym, ◌∙◌, ap, String, Bool, true, false, not, Option, none, some, List, [], ◌∷◌, ◌++◌,
  ◌==◌, Outcome, ok, err, panic, ◌>>=◌, expect, require, ok_or, >>=-eq-ok, expect-eq-ok,
  guard-eq-ok, ok_or-eq-ok, Bool-cases, Option-cases, inl, inr, All, contains, if◌then◌else◌,
  ==_iff, any,
}
use meow.Types.Primitives.{Address, Digest}
use meow.Types.Object.{Object, ObjectOwner, ObjectVersion, ObjectType, next, version_one}
use meow.External.{External}
use meow.Vm.Types.{Value, Fields, struct, tuple, bool, u64, address, str, void}
use meow.Vm.Ref.{parse_module_ref}
use meow.Adapter.Defs.{
  Platform, Failure, not_consumed, not_accounted, object_address, object_of,
  vm_object_value_to_object, is_valid_identifier, without_id,
}
use meow.Adapter.Context.{Context}
use meow.Adapter.Effects.{
  last_input, bump_version, usable, bumped, check_ids, addresses, transferred_ids,
  transferred_version, unwrapped, transferred_object, collect_transfers, collect_destroyed,
  collect_object_effects,
}

last_input-address :
    (a : Address) (os : List Object) (o : Object) → last_input a os ≡ some o → o.address ≡ a
unfolding last_input
last_input-address a [] o h = cc h
last_input-address a (p ∷ os) o h = elim (Option-cases (last_input a os)) [
  | inr (q, e) ↦ let same : some q ≡ some o = rw e at h in last_input-address a os o (e ∙ same)
  | inl e ↦ elim (Bool-cases (p.address == a)) [
    | inl t ↦
        let same : some p ≡ some o = rw (e, t) at h in
        let same' : p ≡ o = cc same in
        subst (λ (o : Object). o.address ≡ a) same' ((==_iff p.address a).0 t)
    | inr t ↦ let bad : none ≡ some o = rw (e, t) at h in cc bad
  ]
]

-- An object that the execution made: a fresh identifier and the first version.
abbrev pub Created : Digest → List Address → Object → Type 0
Created digest fresh o =
    (contains fresh o.address ≡ true) × (o.version ≡ version_one) × (o.transaction ≡ digest)

-- An object that stands for an input with the version before.
abbrev pub Succeeds : Digest → List Address → List Object → Object → Type 0
Succeeds digest fresh args o =
    (contains fresh o.address ≡ false)
    × (o.transaction ≡ digest)
    × ((i : Object) × (last_input o.address args ≡ some i) × (next i.version ≡ some o.version))

check_ids_lem :
    (f : Address → Failure) (accounted ids : List Address)
    → check_ids f accounted ids ≡ ok tt
    → All (λ a. contains accounted a ≡ true) ids
unfolding check_ids
check_ids_lem f accounted [] h = tt
check_ids_lem f accounted (a ∷ ids) h =
    let (e, h₁) = guard-eq-ok (contains accounted a) _ _ h in (e, check_ids_lem f accounted ids h₁)

bumped_lem :
    (digest : Digest) (i o : Object)
    → bumped {E = Failure} digest i ≡ ok o
    → (o.address ≡ i.address) × (o.transaction ≡ digest) × (next i.version ≡ some o.version)
unfolding bumped bump_version
bumped_lem digest i o h =
    let (v, e, h₁) = >>=-eq-ok (expect (next i.version)) _ h in
    let after = record i { transaction = digest; version = v } in
    let same : after ≡ o = cc h₁ in
    subst
      (λ (o : Object).
        (o.address ≡ i.address) × (o.transaction ≡ digest) × (next i.version ≡ some o.version))
      same (refl, refl, expect-eq-ok (next i.version) e)

module _ (x : External) (y : Platform) where
  -- The object that a value becomes.
  abbrev Becomes : Value → Digest → ObjectVersion → Object → Type 0
  Becomes v digest version o =
      (object_address x y v ≡ some o.address) × (o.version ≡ version) × (o.transaction ≡ digest)

  object_of_lem :
      (v : Value) (fields : Fields) (owner : ObjectOwner) (digest : Digest)
      (version : ObjectVersion) (r : Option (Address × String)) (o : Object)
      → object_of x y v fields owner digest version r ≡ ok o
      → Becomes v digest version o
  object_of_lem v fields owner digest version none o h = cc h
  object_of_lem v fields owner digest version (some (m, name)) o h =
      let (valid, h₁) = guard-eq-ok (is_valid_identifier name) _ _ h in
      let (a, e, h₂) = >>=-eq-ok (ok_or (object_address x y v) tt) _ h₁ in
      let (content, e', h₃) = >>=-eq-ok (expect (y.encode_fields (without_id fields))) _ h₂ in
      let after : Object = record {
        address = a;
        owner = owner;
        transaction = digest;
        version = version;
        type_ = ObjectType.object (record { module_ = m; name = name });
        content = content;
      } in
      let same : after ≡ o = cc h₃ in
      subst (Becomes v digest version) same (ok_or-eq-ok (object_address x y v) tt e, refl, refl)

  becomes_lem :
      (v : Value) (owner : ObjectOwner) (digest : Digest) (version : ObjectVersion) (o : Object)
      → vm_object_value_to_object x y v owner digest version ≡ ok o
      → Becomes v digest version o
  unfolding vm_object_value_to_object
  becomes_lem (struct name fields) owner digest version o h =
      object_of_lem (struct name fields) fields owner digest version (parse_module_ref y.hex name) o
        h
  becomes_lem (tuple vs) owner digest version o h = cc h
  becomes_lem (bool b) owner digest version o h = cc h
  becomes_lem (u64 n) owner digest version o h = cc h
  becomes_lem (address a) owner digest version o h = cc h
  becomes_lem (str s) owner digest version o h = cc h
  becomes_lem void owner digest version o h = cc h

  unwrapped-eq-ok : (m : Outcome (Unit {0}) Object) (o : Object) → unwrapped x y m ≡ ok o → m ≡ ok o
  unwrapped-eq-ok (ok p) o h = let same : p ≡ o = cc h in ap ok same
  unwrapped-eq-ok (err e) o h = cc h
  unwrapped-eq-ok panic o h = cc h

  module _ (digest : Digest) (fresh : List Address) (args : List Object) where
    transferred_lem :
        (id : Address) (v : Value) (owner : Address) (o : Object)
        → object_address x y v ≡ some id
        → transferred_object x y digest fresh args id v owner ≡ ok o
        → (version : ObjectVersion) × (transferred_version x y fresh args id ≡ ok version)
          × (o.address ≡ id)
          × (o.version ≡ version)
          × (o.transaction ≡ digest)
    unfolding transferred_object
    transferred_lem id v owner o e h =
        let (version, p, h₁) = >>=-eq-ok (transferred_version x y fresh args id) _ h in
        let (a, w, d) =
          becomes_lem v (ObjectOwner.address owner) digest version o (unwrapped-eq-ok _ o h₁) in
        let same : o.address ≡ id = cc (a, e) in (version, p, same, w, d)

    fresh-Created :
        (id : Address) (v : Value) (owner : Address) (o : Object)
        → contains fresh id ≡ true
        → object_address x y v ≡ some id
        → transferred_object x y digest fresh args id v owner ≡ ok o
        → Created digest fresh o
    unfolding transferred_version
    fresh-Created id v owner o f e h =
        let (version, p, a, w, d) = transferred_lem id v owner o e h in
        let first : ok version_one ≡ ok version = rw f at p in
        let one : version_one ≡ version = cc first in
        (subst (λ b. contains fresh b ≡ true) (sym a) f, w ∙ sym one, d)

    input_changed :
        (id : Address) (v : Value) (owner : Address) (o : Object)
        → contains fresh id ≡ false
        → object_address x y v ≡ some id
        → transferred_object x y digest fresh args id v owner ≡ ok o
        → Succeeds digest fresh args o
    unfolding transferred_version bump_version
    input_changed id v owner o f e h =
        let (version, p, a, w, d) = transferred_lem id v owner o e h in
        let p' : (expect (last_input id args) >>= λ i. expect (next i.version)) ≡ ok version =
          rw f at p in
        let (i, q, q') = >>=-eq-ok (expect (last_input id args)) _ p' in
        (
          subst (λ b. contains fresh b ≡ false) (sym a) f,
          d,
          (
            i,
            subst (λ b. last_input b args ≡ some i) (sym a) (expect-eq-ok (last_input id args) q),
            expect-eq-ok (next i.version) q' ∙ ap some (sym w),
          ),
        )

    abbrev Sorted : List Object × List Object → Type 0
    Sorted q = All (Created digest fresh) q.0 × All (Succeeds digest fresh args) q.1

    abbrev placed :
        Bool → Object → List Object × List Object → Outcome Failure (List Object × List Object)
    placed is_fresh o rest = ok (if is_fresh then (o ∷ rest.0, rest.1) else (rest.0, o ∷ rest.1))

    Sorted-step :
        (id : Address) (v : Value) (owner : Address) (o : Object)
        (rest q : List Object × List Object)
        → object_address x y v ≡ some id
        → transferred_object x y digest fresh args id v owner ≡ ok o
        → Sorted rest
        → placed (contains fresh id) o rest ≡ ok q
        → Sorted q
    Sorted-step id v owner o rest q known e (created, changed) h =
        elim (Bool-cases (contains fresh id)) [
          | inl f ↦
              let same' : placed true o rest ≡ ok q = rw f at h in
              let same : (o ∷ rest.0, rest.1) ≡ q = cc same' in
              subst Sorted same ((fresh-Created id v owner o f known e, created), changed)
          | inr f ↦
              let same' : placed false o rest ≡ ok q = rw f at h in
              let same : (rest.0, o ∷ rest.1) ≡ q = cc same' in
              subst Sorted same (created, (input_changed id v owner o f known e, changed))
        ]

    collect_transfers_lem :
        (ts : List (Value × Address)) (q : List Object × List Object)
        → collect_transfers x y digest fresh args ts ≡ ok q
        → Sorted q
    unfolding collect_transfers
    collect_transfers_lem [] q h = let same : ([], []) ≡ q = cc h in subst Sorted same (tt, tt)
    collect_transfers_lem ((v, owner) ∷ ts) q h =
        let (id, e, h₁) = >>=-eq-ok (expect (object_address x y v)) _ h in
        let (o, e', h₂) = >>=-eq-ok (transferred_object x y digest fresh args id v owner) _ h₁ in
        let (rest, e₃, h₃) = >>=-eq-ok (collect_transfers x y digest fresh args ts) _ h₂ in
        Sorted-step id v owner o rest q (expect-eq-ok (object_address x y v) e) e'
          (collect_transfers_lem ts rest e₃) h₃

    collect_destroyed_lem :
        (ids : List Address) (ds : List Object)
        → collect_destroyed x y digest fresh args ids ≡ ok ds
        → All (Succeeds digest fresh args) ds
    unfolding collect_destroyed
    collect_destroyed_lem [] ds h =
        let same : [] ≡ ds = cc h in subst (All (Succeeds digest fresh args)) same tt
    collect_destroyed_lem (id ∷ ids) ds h = elim (Bool-cases (contains fresh id)) [
      | inl f ↦
          let rest : collect_destroyed x y digest fresh args ids ≡ ok ds = rw f at h in
          collect_destroyed_lem ids ds rest
      | inr f ↦
          let h₀ : (expect (last_input id args) >>= λ i. bumped digest i >>= λ d.
          collect_destroyed x y digest fresh args ids >>= λ ds. ok (d ∷ ds))
              ≡ ok ds =
            rw f at h in
          let (i, e, h₁) = >>=-eq-ok (expect (last_input id args)) _ h₀ in
          let (d, e', h₂) = >>=-eq-ok (bumped digest i) _ h₁ in
          let (rest, e₃, h₃) = >>=-eq-ok (collect_destroyed x y digest fresh args ids) _ h₂ in
          let (a, t, v) = bumped_lem digest i d e' in
          let held = expect-eq-ok (last_input id args) e in
          let at : d.address ≡ id = a ∙ last_input-address id args i held in
          let same : d ∷ rest ≡ ds = cc h₃ in
          subst (All (Succeeds digest fresh args)) same (
            (
              subst (λ b. contains fresh b ≡ false) (sym at) f,
              t,
              (i, subst (λ b. last_input b args ≡ some i) (sym at) held, v),
            ),
            collect_destroyed_lem ids rest e₃,
          )
    ]

  -- The effects of an execution: what each list holds, and that everything is accounted for.
  pub record IsEffects (ctx : Context) (args : List Object) (digest : Digest)
      (e : List Object × (List Object × List Object)) : Type 0 where
    pub created : All (Created digest ctx.fresh_ids) e.0
    pub changed : All (Succeeds digest ctx.fresh_ids args) e.1.0
    pub destroyed : All (Succeeds digest ctx.fresh_ids args) e.1.1
    pub fresh_used :
        All
          (λ a. contains (transferred_ids x y ctx.transfers ++ ctx.destroyed) a ≡ true)
          ctx.fresh_ids
    pub inputs_used :
        All
          (λ a. contains (transferred_ids x y ctx.transfers ++ ctx.destroyed) a ≡ true)
          (addresses args)

  -- Where the effects are collected, each created object has a fresh identifier and version 1, each
  -- changed or destroyed object has the address of an object argument and the version after it, none of
  -- them being fresh, and every fresh identifier and every object argument was transferred or destroyed.
  pub collect_object_effects_lem :
      (ctx : Context) (args : List Object) (digest : Digest)
      (e : List Object × (List Object × List Object))
      → collect_object_effects x y ctx args digest ≡ ok e
      → IsEffects ctx args digest e
  unfolding collect_object_effects
  collect_object_effects_lem ctx args digest e h =
      let used = transferred_ids x y ctx.transfers ++ ctx.destroyed in
      let (_, _, h₁) = >>=-eq-ok (require (not (any (λ o. not (usable o)) args))) _ h in
      let (u, c, h₂) = >>=-eq-ok (check_ids not_consumed used ctx.fresh_ids) _ h₁ in
      let (u', c', h₃) = >>=-eq-ok (check_ids not_accounted used (addresses args)) _ h₂ in
      let (q, p, h₄) =
        >>=-eq-ok (collect_transfers x y digest ctx.fresh_ids args ctx.transfers) _ h₃ in
      let (ds, p', h₅) =
        >>=-eq-ok (collect_destroyed x y digest ctx.fresh_ids args ctx.destroyed) _ h₄ in
      let (created, changed) = collect_transfers_lem digest ctx.fresh_ids args ctx.transfers q p in
      let same : (q.0, (q.1, ds)) ≡ e = cc h₅ in
      subst (IsEffects ctx args digest) same (record {
        created = created;
        changed = changed;
        destroyed = collect_destroyed_lem digest ctx.fresh_ids args ctx.destroyed ds p';
        fresh_used = check_ids_lem not_consumed used ctx.fresh_ids c;
        inputs_used = check_ids_lem not_accounted used (addresses args) c';
      })
