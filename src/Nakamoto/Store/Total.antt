-- ===== src/Nakamoto/Store/Total.antt =====
-- When `Store::apply_execution_result` passes all its assertions.
use meow.Base.{
  ◌≡◌, refl, true, false, List, [], ◌∷◌, ◌==◌, if◌then◌else◌, arith, ok, All, ◌||◌, ◌++◌,
}
use meow.BTreeMap.{remove, IsSorted}
use meow.BTreeMap.Laws.{get-insert, get-remove, remove-IsSorted}
use meow.Types.Primitives.{Address}
use meow.Types.Object.{Object}
use meow.Types.Transaction.{ExecutionResult}
use meow.Nakamoto.Store.Defs.{
  Store, contains_object, insert_object, apply_created, apply_changed, apply_destroyed,
  apply_execution_result,
}
use meow.Nakamoto.Store.Lookup.{mentions, apply_created-IsSorted, apply_changed-IsSorted}

-- No two objects of a list have one address.
abbrev pub AreDistinct : List Object → Type 0
AreDistinct [] = Unit
AreDistinct (o ∷ os) = (mentions o.address os ≡ false) × AreDistinct os

abbrev pub AreAbsent : Store → List Object → Type 0
AreAbsent s = All (λ o. contains_object s o.address ≡ false)

abbrev pub ArePresent : Store → List Object → Type 0
ArePresent s = All (λ o. contains_object s o.address ≡ true)

contains-insert_object :
    (a : Address) (o : Object) (s : Store)
    → contains_object (insert_object o s) a ≡ (a == o.address || contains_object s a)
unfolding contains_object
contains-insert_object a o s = ground (arith, get-insert a o.address o s.objects)

absent_after_insert :
    (o : Object) (os : List Object) (s : Store)
    → mentions o.address os ≡ false
    → AreAbsent s os
    → AreAbsent (insert_object o s) os
absent_after_insert o [] s n a = tt
absent_after_insert o (p ∷ os) s n a =
    ground (arith, contains-insert_object p.address o s, absent_after_insert o os s)

present_after_insert :
    (o : Object) (os : List Object) (s : Store)
    → ArePresent s os
    → ArePresent (insert_object o s) os
present_after_insert o [] s a = tt
present_after_insert o (p ∷ os) s a =
    ground (arith, contains-insert_object p.address o s, present_after_insert o os s)

abbrev remove_object : Object → Store → Store
remove_object o s = record s { objects = remove o.address s.objects }

contains-remove_object :
    (a : Address) (o : Object) (s : Store)
    → IsSorted s.objects
    → contains_object (remove_object o s) a
      ≡ (if a == o.address then false else contains_object s a)
unfolding contains_object
contains-remove_object a o s v = ground (arith, get-remove a o.address s.objects v)

present_after_remove :
    (o : Object) (os : List Object) (s : Store)
    → IsSorted s.objects
    → mentions o.address os ≡ false
    → ArePresent s os
    → ArePresent (remove_object o s) os
present_after_remove o [] s v n a = tt
present_after_remove o (p ∷ os) s v n a =
    ground (arith, contains-remove_object p.address o s v, present_after_remove o os s v)

module _ {E : Type 0} where
  -- The created objects go in, and what was present stays so.
  apply_created_total :
      (os rest : List Object) (s : Store)
      → AreDistinct os
      → AreAbsent s os
      → ArePresent s rest
      → (t : Store) × (apply_created {E = E} os s ≡ ok t) × ArePresent t rest
  unfolding apply_created contains_object
  apply_created_total [] rest s d a r = (s, refl, r)
  apply_created_total (o ∷ os) rest s d a r =
      let (t, h, k) =
        apply_created_total os rest (insert_object o s) d.1 (absent_after_insert o os s d.0 a.1)
          (present_after_insert o rest s r) in
      (t, rw (a.0) h, k)

  apply_changed_total :
      (os rest : List Object) (s : Store)
      → ArePresent s os
      → ArePresent s rest
      → (t : Store) × (apply_changed {E = E} os s ≡ ok t) × ArePresent t rest
  unfolding apply_changed contains_object
  apply_changed_total [] rest s a r = (s, refl, r)
  apply_changed_total (o ∷ os) rest s a r =
      let (t, h, k) =
        apply_changed_total os rest (insert_object o s) (present_after_insert o os s a.1)
          (present_after_insert o rest s r) in
      (t, rw (a.0) h, k)

  apply_destroyed_total :
      (os : List Object) (s : Store)
      → IsSorted s.objects
      → AreDistinct os
      → ArePresent s os
      → (t : Store) × (apply_destroyed {E = E} os s ≡ ok t)
  unfolding apply_destroyed contains_object
  apply_destroyed_total [] s v d a = (s, refl)
  apply_destroyed_total (o ∷ os) s v d a =
      let (t, h) =
        apply_destroyed_total os (remove_object o s) (remove-IsSorted o.address s.objects v) d.1
          (present_after_remove o os s v d.0 a.1) in
      (t, rw (a.0) h)

present_append :
    (s : Store) (xs ys : List Object) → ArePresent s xs → ArePresent s ys → ArePresent s (xs ++ ys)
present_append s [] ys a b = b
present_append s (o ∷ xs) ys a b = (a.0, present_append s xs ys a.1 b)

present_split :
    (s : Store) (xs ys : List Object) → ArePresent s (xs ++ ys) → ArePresent s xs × ArePresent s ys
present_split s [] ys a = (tt, a)
present_split s (o ∷ xs) ys a = let (b, c) = present_split s xs ys a.1 in ((a.0, b), c)

-- Created objects that are new and distinct, changed objects that are there, and destroyed objects
-- that are there and distinct: what `apply_execution_result` asserts of a result.
pub record IsApplicable (r : ExecutionResult) (s : Store) : Type 0 where
  pub created_distinct : AreDistinct r.created_objects
  pub created_absent : AreAbsent s r.created_objects
  pub changed_present : ArePresent s r.changed_objects
  pub destroyed_distinct : AreDistinct r.destroyed_objects
  pub destroyed_present : ArePresent s r.destroyed_objects

-- Such a result is applied to a sorted store with no assertion failing.
pub apply_execution_result_total :
    {E : Type 0} (r : ExecutionResult) (s : Store)
    → IsSorted s.objects
    → IsApplicable r s
    → (t : Store) × (apply_execution_result {E = E} r s ≡ ok t)
unfolding apply_execution_result
apply_execution_result_total {E} r s v a =
    let (s₁, p₁, k₁) =
      apply_created_total {E = E} r.created_objects (r.changed_objects ++ r.destroyed_objects) s
        a.created_distinct a.created_absent
        (present_append s r.changed_objects r.destroyed_objects a.changed_present
          a.destroyed_present) in
    let (c, d) = present_split s₁ r.changed_objects r.destroyed_objects k₁ in
    let (s₂, p₂, k₂) = apply_changed_total {E = E} r.changed_objects r.destroyed_objects s₁ c d in
    let v₂ =
      apply_changed-IsSorted r.changed_objects s₁ s₂
        (apply_created-IsSorted r.created_objects s s₁ v p₁) p₂ in
    let (t, p₃) = apply_destroyed_total {E = E} r.destroyed_objects s₂ v₂ a.destroyed_distinct k₂ in
    (t, rw (p₁, p₂) p₃)
