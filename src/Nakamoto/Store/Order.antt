-- ===== src/Nakamoto/Store/Order.antt =====
-- `Store::with_objects` (store.rs) on the same objects in another order.
use mathlib.Core.HLevel.{hedberg}
use mathlib.Core.Logic.{∥∥₁_elim}
use mathlib.Core.List.{Perm, Permᴰ}
use meow.Base.{
  ◌≡◌, refl, sym, ◌∙◌, ap, false, Option, none, List, [], ◌∷◌, map, find, ℕ_discrete,
  String-discrete, contains, NoRepeats, arith, ◌==◌,
}
use meow.BTreeMap.Laws.{get-insert}
use meow.Types.Primitives.{Address}
use meow.Types.Object.{Object}
use meow.Nakamoto.Store.Defs.{Store, empty, get_object, insert_object, insert_objects, with_objects}
use meow.Nakamoto.Store.Valid.{
  IsValid, empty-IsValid, insert_object-IsValid, eq_of_get_object, or_else, or_else-none, get_empty,
}

-- Where the objects of a list are filed
abbrev pub filed_at : List Object → List Address
filed_at = map (λ (o : Object). o.address)

contains-perm :
    {os ps : List Object} (a : Address)
    → Permᴰ os ps
    → contains (filed_at os) a ≡ contains (filed_at ps) a
contains-perm a Permᴰ.nil = refl
contains-perm a (Permᴰ.cons e p) = ground (arith, contains-perm a p, e)
contains-perm a (Permᴰ.swap e f) = ground (arith, e, f)
contains-perm a (Permᴰ.trans p q) = contains-perm a p ∙ contains-perm a q

NoRepeats-perm :
    {os ps : List Object} → Permᴰ os ps → NoRepeats (filed_at os) → NoRepeats (filed_at ps)
NoRepeats-perm Permᴰ.nil n = tt
NoRepeats-perm (Permᴰ.cons {b = b} e p) n =
    ground (arith, e, contains-perm b.address p, NoRepeats-perm p)
NoRepeats-perm (Permᴰ.swap e f) n = ground (arith, e, f)
NoRepeats-perm (Permᴰ.trans p q) n = NoRepeats-perm q (NoRepeats-perm p n)

insert_object-swap :
    (o p : Object) (s : Store)
    → IsValid s
    → (o.address == p.address) ≡ false
    → insert_object p (insert_object o s) ≡ insert_object o (insert_object p s)
unfolding get_object
insert_object-swap o p s v h =
    eq_of_get_object _ _ (insert_object-IsValid p _ (insert_object-IsValid o s v))
      (insert_object-IsValid o _ (insert_object-IsValid p s v))
      (λ a. ground (
        arith,
        get-insert a p.address p (insert_object o s).objects,
        get-insert a o.address o (insert_object p s).objects,
        get-insert a o.address o s.objects,
        get-insert a p.address p s.objects,
      ))

insert_objects-perm :
    {os ps : List Object} (s : Store)
    → Permᴰ os ps
    → IsValid s
    → NoRepeats (filed_at os)
    → insert_objects os s ≡ insert_objects ps s
unfolding insert_objects
insert_objects-perm s Permᴰ.nil v n = refl
insert_objects-perm s (Permᴰ.cons {b = b} {l₁ = l} e p) v n =
    ap (λ o. insert_objects l (insert_object o s)) e
    ∙ insert_objects-perm (insert_object b s) p (insert_object-IsValid b s v) n.1
insert_objects-perm s (Permᴰ.swap {a = a} {b = b} {l = l} e f) v n =
    rw (sym e, sym f) (ap (insert_objects l) (insert_object-swap a b s v (ground (arith, n.0))))
insert_objects-perm s (Permᴰ.trans p q) v n =
    insert_objects-perm s p v n ∙ insert_objects-perm s q v (NoRepeats-perm p n)

Store-set : IsSet Store
Store-set = hedberg (hlevel (ℕ_discrete, String-discrete))

with_objects-Perm :
    (os ps : List Object) → NoRepeats (filed_at os) → Perm os ps → with_objects os ≡ with_objects ps
unfolding with_objects
with_objects-Perm os ps n p =
    ∥∥₁_elim p (Store-set (with_objects os) (with_objects ps))
      (λ d. insert_objects-perm empty d empty-IsValid n)

-- The object of a list that has an address
abbrev pub listed_at : Address → List Object → Option Object
listed_at a = find (λ (o : Object). o.address == a)

absent : (a : Address) (os : List Object) → contains (filed_at os) a ≡ false → listed_at a os ≡ none
absent a [] h = refl
absent a (o ∷ os) h = ground (arith, absent a os)

get_object-insert_objects :
    (a : Address) (os : List Object) (s : Store)
    → NoRepeats (filed_at os)
    → get_object (insert_objects os s) a ≡ or_else (listed_at a os) (get_object s a)
unfolding insert_objects get_object
get_object-insert_objects a [] s n = refl
get_object-insert_objects a (o ∷ os) s n = ground (
  arith,
  get_object-insert_objects a os (insert_object o s) n.1,
  get-insert a o.address o s.objects,
  absent o.address os n.0,
)

-- Where no two objects of a list have the same address, the store that `with_objects` makes of the
-- list holds at each address the object of the list with that address and nothing else, and every
-- other order of the list makes the same store.
pub with_objects_lem :
    (os ps : List Object)
    → NoRepeats (filed_at os)
    → Perm os ps
    → ((a : Address) → get_object (with_objects os) a ≡ listed_at a os)
      × (with_objects os ≡ with_objects ps)
unfolding with_objects
with_objects_lem os ps n p = (
  λ a.
      get_object-insert_objects a os empty n
      ∙ ap (or_else (listed_at a os)) (get_empty a)
      ∙ or_else-none (listed_at a os),
  with_objects-Perm os ps n p,
)
