-- ===== src/Nakamoto/Store/Lookup.antt =====
-- What `get_object` sees after an execution result has been applied.
use meow.Base.{
  ◌≡◌, Bool, Option, none, some, List, [], ◌∷◌, ◌==◌, if◌then◌else◌, arith, ok, >>=-eq-ok, any,
}
use meow.BTreeMap.{remove, IsSorted}
use meow.BTreeMap.Laws.{get-insert, get-remove, insert-IsSorted, remove-IsSorted}
use meow.Types.Primitives.{Address}
use meow.Types.Object.{Object}
use meow.Types.Transaction.{ExecutionResult}
use meow.Nakamoto.Store.Defs.{
  Store, get_object, insert_object, apply_created, apply_changed, apply_destroyed,
  apply_execution_result,
}

-- The last object of a list that has an address, or else a given one.
unfoldable pub last_at : Address → List Object → Option Object → Option Object
last_at a [] before = before
last_at a (o ∷ os) before = last_at a os (if a == o.address then some o else before)

abbrev pub mentions : Address → List Object → Bool
mentions a os = any (λ o. a == o.address) os

module _ {E : Type 0} where
  pub get-apply_created :
      (os : List Object) (s t : Store) (a : Address)
      → apply_created {E = E} os s ≡ ok t
      → get_object t a ≡ last_at a os (get_object s a)
  unfolding apply_created get_object last_at
  get-apply_created [] s t a h = cc
  get-apply_created (o ∷ os) s t a h =
      ground
        (arith, get-apply_created os (insert_object o s) t a, get-insert a o.address o s.objects)

  pub get-apply_changed :
      (os : List Object) (s t : Store) (a : Address)
      → apply_changed {E = E} os s ≡ ok t
      → get_object t a ≡ last_at a os (get_object s a)
  unfolding apply_changed get_object last_at
  get-apply_changed [] s t a h = cc
  get-apply_changed (o ∷ os) s t a h =
      ground
        (arith, get-apply_changed os (insert_object o s) t a, get-insert a o.address o s.objects)

  pub apply_created-IsSorted :
      (os : List Object) (s t : Store)
      → IsSorted s.objects
      → apply_created {E = E} os s ≡ ok t
      → IsSorted t.objects
  unfolding apply_created
  apply_created-IsSorted [] s t v h = ground arith
  apply_created-IsSorted (o ∷ os) s t v h = ground (
    arith,
    apply_created-IsSorted os (insert_object o s) t (insert-IsSorted o.address o s.objects v),
  )

  pub apply_changed-IsSorted :
      (os : List Object) (s t : Store)
      → IsSorted s.objects
      → apply_changed {E = E} os s ≡ ok t
      → IsSorted t.objects
  unfolding apply_changed
  apply_changed-IsSorted [] s t v h = ground arith
  apply_changed-IsSorted (o ∷ os) s t v h = ground (
    arith,
    apply_changed-IsSorted os (insert_object o s) t (insert-IsSorted o.address o s.objects v),
  )

  pub apply_destroyed-IsSorted :
      (os : List Object) (s t : Store)
      → IsSorted s.objects
      → apply_destroyed {E = E} os s ≡ ok t
      → IsSorted t.objects
  unfolding apply_destroyed
  apply_destroyed-IsSorted [] s t v h = ground arith
  apply_destroyed-IsSorted (o ∷ os) s t v h = ground (
    arith,
    apply_destroyed-IsSorted os (record s { objects = remove o.address s.objects }) t
        (remove-IsSorted o.address s.objects v),
  )

  get-apply_destroyed :
      (os : List Object) (s t : Store) (a : Address)
      → IsSorted s.objects
      → apply_destroyed {E = E} os s ≡ ok t
      → get_object t a ≡ (if mentions a os then none else get_object s a)
  unfolding apply_destroyed get_object
  get-apply_destroyed [] s t a v h = ground arith
  get-apply_destroyed (o ∷ os) s t a v h = ground (
    arith,
    get-apply_destroyed os (record s { objects = remove o.address s.objects }) t a
        (remove-IsSorted o.address s.objects v),
    get-remove a o.address s.objects v,
  )

  -- What applying a result leaves at an address: nothing where it lists the address as destroyed;
  -- otherwise its last changed object there, or else its last created one, or else what the store
  -- held before.
  pub get-apply_execution_result :
      (r : ExecutionResult) (s t : Store) (a : Address)
      → IsSorted s.objects
      → apply_execution_result {E = E} r s ≡ ok t
      → get_object t a ≡ (
          if mentions a r.destroyed_objects
          then none
          else last_at a r.changed_objects (last_at a r.created_objects (get_object s a)))
  unfolding apply_execution_result
  get-apply_execution_result r s t a v h =
      let (s₁, p₁, h₁) = >>=-eq-ok (apply_created r.created_objects s) _ h in
      let (s₂, p₂, h₂) = >>=-eq-ok (apply_changed r.changed_objects s₁) _ h₁ in
      let v₂ =
        apply_changed-IsSorted r.changed_objects s₁ s₂
          (apply_created-IsSorted r.created_objects s s₁ v p₁) p₂ in
      rw (
        get-apply_destroyed r.destroyed_objects s₂ t a v₂ h₂,
        get-apply_changed r.changed_objects s₁ s₂ a p₂,
        get-apply_created r.created_objects s s₁ a p₁,
      )

  pub apply_execution_result-IsSorted :
      (r : ExecutionResult) (s t : Store)
      → IsSorted s.objects
      → apply_execution_result {E = E} r s ≡ ok t
      → IsSorted t.objects
  unfolding apply_execution_result
  apply_execution_result-IsSorted r s t v h =
      let (s₁, p₁, h₁) = >>=-eq-ok (apply_created r.created_objects s) _ h in
      let (s₂, p₂, h₂) = >>=-eq-ok (apply_changed r.changed_objects s₁) _ h₁ in
      apply_destroyed-IsSorted r.destroyed_objects s₂ t
        (apply_changed-IsSorted r.changed_objects s₁ s₂
          (apply_created-IsSorted r.created_objects s s₁ v p₁) p₂)
        h₂
