-- ===== src/Nakamoto/Store/Defs.antt =====
-- The operations of `Store`.
use meow.Base.{
  Bool, not, Option, some, List, [], ◌∷◌, Outcome, ok, ◌>>=◌, ◌>>◌, require, ◌==◌, if◌then◌else◌,
  none, false,
}
use meow.BTreeMap.{BTreeMap, get, insert, remove, contains_key, values}
use meow.Types.Primitives.{Address}
use meow.Types.Object.{Object, owner_address}
use meow.Types.Transaction.{ExecutionResult}

pub record Store : Type 0 where
  pub objects : BTreeMap Object

-- `Store::default`
abbrev pub empty : Store
empty = record { objects = [] }

-- `store.objects.insert(*obj.address(), obj)`
abbrev pub insert_object : Object → Store → Store
insert_object o s = record s { objects = insert o.address o s.objects }

-- the loop of `Store::with_objects`
unfoldable pub insert_objects : List Object → Store → Store
insert_objects [] s = s
insert_objects (o ∷ os) s = insert_objects os (insert_object o s)

unfoldable pub with_objects : List Object → Store
unfolding insert_objects
with_objects os = insert_objects os empty

unfoldable pub get_object : Store → Address → Option Object
get_object s a = get a s.objects

unfoldable pub contains_object : Store → Address → Bool
contains_object s a = contains_key a s.objects

-- `Store::objects`, in the order of the addresses
unfoldable pub objects : Store → List Object
objects s = values s.objects

-- `obj.owner().address() == Some(owner)`
unfoldable pub owned_by : Address → Object → Bool
unfolding owner_address
owned_by a o = elim (owner_address o.owner) [ none ↦ false | some b ↦ b == a ]

-- `Store::get_objects`
filter_owned : Address → List Object → List Object
filter_owned a [] = []
filter_owned a (o ∷ os) = if owned_by a o then o ∷ filter_owned a os else filter_owned a os

unfoldable pub get_objects : Store → Address → List Object
unfolding filter_owned objects
get_objects s a = filter_owned a (objects s)

-- the three loops of `Store::apply_execution_result`, each under its assertion
module _ {E : Type 0} where
  unfoldable pub apply_created : List Object → Store → Outcome E Store
  apply_created [] s = ok s
  apply_created (o ∷ os) s = do
    require (not (contains_key o.address s.objects))
    apply_created os (insert_object o s)

  unfoldable pub apply_changed : List Object → Store → Outcome E Store
  apply_changed [] s = ok s
  apply_changed (o ∷ os) s = do
    require (contains_key o.address s.objects)
    apply_changed os (insert_object o s)

  unfoldable pub apply_destroyed : List Object → Store → Outcome E Store
  apply_destroyed [] s = ok s
  apply_destroyed (o ∷ os) s = do
    require (contains_key o.address s.objects)
    apply_destroyed os (record s { objects = remove o.address s.objects })

  unfoldable pub apply_execution_result : ExecutionResult → Store → Outcome E Store
  unfolding apply_created apply_changed apply_destroyed
  apply_execution_result r s = do
    created ← apply_created r.created_objects s
    changed ← apply_changed r.changed_objects created
    apply_destroyed r.destroyed_objects changed
