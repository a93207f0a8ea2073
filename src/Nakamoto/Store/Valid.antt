-- ===== src/Nakamoto/Store/Valid.antt =====
-- The invariant of a store, kept by every operation, and the round trip through a snapshot.
use meow.Base.{
  ◌≡◌, refl, sym, ◌∙◌, ap, Option, none, some, List, [], ◌∷◌, if◌then◌else◌, arith, ok, Bool-cases,
  inl, inr,
}
use meow.BTreeMap.{BTreeMap, get, values, IsSorted, IsAbove}
use meow.BTreeMap.Laws.{get-insert, insert-IsSorted, get_above}
use meow.BTreeMap.Canonical.{eq_of_lookups}
use meow.Types.Primitives.{Address}
use meow.Types.Object.{Object}
use meow.Types.Transaction.{ExecutionResult}
use meow.Nakamoto.Store.Defs.{
  Store, get_object, insert_object, insert_objects, with_objects, objects, apply_execution_result,
  empty,
}
use meow.Nakamoto.Store.Lookup.{
  last_at, mentions, get-apply_execution_result, apply_execution_result-IsSorted,
}

-- The entries are sorted, and each object is filed under its own address.
pub record IsValid (s : Store) : Type 0 where
  pub sorted : IsSorted s.objects
  pub filed : (a : Address) (o : Object) → get_object s a ≡ some o → o.address ≡ a

pub empty-IsValid : IsValid empty
unfolding get_object get
empty-IsValid = record { sorted = tt; filed = λ a o h. cc }

pub insert_object-IsValid : (o : Object) (s : Store) → IsValid s → IsValid (insert_object o s)
unfolding get_object
insert_object-IsValid o s v = record {
  sorted = insert-IsSorted o.address o s.objects v.sorted;
  filed = λ a p h. ground (arith, get-insert a o.address o s.objects, v.filed a p);
}

insert_objects-IsValid : (os : List Object) (s : Store) → IsValid s → IsValid (insert_objects os s)
unfolding insert_objects
insert_objects-IsValid [] s v = v
insert_objects-IsValid (o ∷ os) s v =
    insert_objects-IsValid os (insert_object o s) (insert_object-IsValid o s v)

-- A store built from any list of objects is valid.
pub with_objects-IsValid : (os : List Object) → IsValid (with_objects os)
unfolding with_objects
with_objects-IsValid os = insert_objects-IsValid os empty empty-IsValid

last_at-filed :
    (a : Address) (os : List Object) (before : Option Object) (p : Object)
    → ((q : Object) → before ≡ some q → q.address ≡ a)
    → last_at a os before ≡ some p
    → p.address ≡ a
unfolding last_at
last_at-filed a [] before p f h = f p h
last_at-filed a (o ∷ os) before p f h = last_at-filed a os _ p (λ q e. ground (arith, f q)) h

result_filed :
    (a : Address) (r : ExecutionResult) (s : Store) (p : Object)
    → IsValid s
    → (if mentions a r.destroyed_objects
        then none
        else last_at a r.changed_objects (last_at a r.created_objects (get_object s a)))
      ≡ some p
    → p.address ≡ a
result_filed a r s p v h = elim (Bool-cases (mentions a r.destroyed_objects)) [
  | inl gone ↦ cc (rw gone at h)
  | inr kept ↦
      last_at-filed a r.changed_objects _ p (λ q. last_at-filed a r.created_objects _ q (v.filed a))
        (rw kept at h)
]

abbrev pub or_else {ℓ} : {A : Type ℓ} → Option A → Option A → Option A
or_else none o = o
or_else (some a) o = some a

tail_filed :
    (k : Address) (o : Object) (m : BTreeMap Object)
    → IsAbove k m
    → ((j : Address) (p : Object) → get j ((k, o) ∷ m) ≡ some p → p.address ≡ j)
    → (j : Address) (p : Object) → get j m ≡ some p
    → p.address ≡ j
unfolding get
tail_filed k o m a f j p h = ground (arith, f j p, get_above k m a)

-- Applying an execution result keeps a valid store valid.
pub apply_execution_result-IsValid :
    {E : Type 0} (r : ExecutionResult) (s t : Store)
    → IsValid s
    → apply_execution_result {E = E} r s ≡ ok t
    → IsValid t
unfolding apply_execution_result
apply_execution_result-IsValid r s t v h = record {
  sorted = apply_execution_result-IsSorted r s t v.sorted h;
  filed = λ a o e. result_filed a r s o v (sym (get-apply_execution_result r s t a v.sorted h) ∙ e);
}

-- Inserting what a sorted map holds over any store shows the map first, then the store.
get-insert_values :
    (m : BTreeMap Object) (s : Store) (a : Address)
    → IsSorted m
    → ((k : Address) (o : Object) → get k m ≡ some o → o.address ≡ k)
    → get_object (insert_objects (values m) s) a ≡ or_else (get a m) (get_object s a)
unfolding insert_objects get_object get
get-insert_values [] s a v f = refl
get-insert_values ((k, o) ∷ m) s a v f = ground (
  arith,
  get-insert_values m (insert_object o s) a v.1 (tail_filed k o m v.0 f),
  get-insert a o.address o s.objects,
  f k o,
  get_above k m v.0,
)

pub get_empty : (a : Address) → get_object empty a ≡ none
unfolding get_object get
get_empty a = refl

-- Valid stores with the same lookups are equal.
pub eq_of_get_object :
    (s t : Store)
    → IsValid s
    → IsValid t
    → ((a : Address) → get_object s a ≡ get_object t a)
    → s ≡ t
unfolding get_object
eq_of_get_object s t v w h =
    ap (λ (m : BTreeMap Object). let r : Store = record { objects = m } in r)
      (eq_of_lookups s.objects t.objects v.sorted w.sorted h)

pub or_else-none : (o : Option Object) → or_else o none ≡ o
or_else-none none = refl
or_else-none (some o) = refl

lookups_survive :
    (s : Store)
    → IsValid s
    → (a : Address) → get_object (with_objects (objects s)) a ≡ get_object s a
unfolding with_objects objects get_object
lookups_survive s v a =
    get-insert_values s.objects empty a v.sorted v.filed
    ∙ ap (or_else (get a s.objects)) (get_empty a)
    ∙ or_else-none (get a s.objects)

-- A store survives the trip through a snapshot's list of objects: rebuilding from the objects that
-- a valid store iterates over gives that very store.
pub with_objects-objects : (s : Store) → IsValid s → with_objects (objects s) ≡ s
with_objects-objects s v =
    eq_of_get_object (with_objects (objects s)) s (with_objects-IsValid (objects s)) v
      (lookups_survive s v)
