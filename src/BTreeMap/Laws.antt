-- ===== src/BTreeMap/Laws.antt =====
-- What a lookup sees after each operation, and that the keys stay sorted.
use meow.Base.{
  ℕ, ◌<◌, ◌≡◌, refl, Bool, false, Option, none, some, List, [], ◌∷◌, arith, ◌==◌, if◌then◌else◌,
  contains,
}
use meow.BTreeMap.Defs.{BTreeMap, get, insert, remove, remove_all, keys_where, IsAbove, IsSorted}

module _ {ℓ} {V : Type ℓ} where
  pub get-insert :
      (j k : ℕ) (v : V) (m : BTreeMap V)
      → get j (insert k v m) ≡ (if j == k then some v else get j m)
  unfolding get insert
  get-insert j k v [] = refl
  get-insert j k v ((i, w) ∷ m) = ground (arith, get-insert j k v m)

  IsAbove-trans : (j k : ℕ) (m : BTreeMap V) → j < k → IsAbove k m → IsAbove j m
  IsAbove-trans j k [] h a = tt
  IsAbove-trans j k (e ∷ m) h a = (omega arith, IsAbove-trans j k m h a.1)

  pub get_above : (k : ℕ) (m : BTreeMap V) → IsAbove k m → get k m ≡ none
  unfolding get
  get_above k [] a = refl
  get_above k (e ∷ m) a = ground (arith, get_above k m a.1)

  pub get_above_lt : (k j : ℕ) (m : BTreeMap V) → k < j → IsAbove j m → get k m ≡ none
  get_above_lt k j m h a = get_above k m (IsAbove-trans k j m h a)

  IsAbove-insert :
      (j k : ℕ) (v : V) (m : BTreeMap V) → j < k → IsAbove j m → IsAbove j (insert k v m)
  unfolding insert
  IsAbove-insert j k v [] h a = (h, tt)
  IsAbove-insert j k v (e ∷ m) h a = ground (arith, IsAbove-insert j k v m h a.1)

  pub insert-IsSorted : (k : ℕ) (v : V) (m : BTreeMap V) → IsSorted m → IsSorted (insert k v m)
  unfolding insert
  insert-IsSorted k v [] s = (tt, tt)
  insert-IsSorted k v ((j, w) ∷ m) s =
      ground (arith, insert-IsSorted k v m s.1, IsAbove-insert j k v m, IsAbove-trans k j m)

  IsAbove-remove : (j k : ℕ) (m : BTreeMap V) → IsAbove j m → IsAbove j (remove k m)
  unfolding remove
  IsAbove-remove j k [] a = tt
  IsAbove-remove j k (e ∷ m) a = ground (arith, IsAbove-remove j k m a.1)

  pub remove-IsSorted : (k : ℕ) (m : BTreeMap V) → IsSorted m → IsSorted (remove k m)
  unfolding remove
  remove-IsSorted k [] s = tt
  remove-IsSorted k (e ∷ m) s = ground (arith, remove-IsSorted k m s.1, IsAbove-remove e.0 k m s.0)

  pub get-remove :
      (j k : ℕ) (m : BTreeMap V)
      → IsSorted m
      → get j (remove k m) ≡ (if j == k then none else get j m)
  unfolding get remove
  get-remove j k [] s = ground arith
  get-remove j k (e ∷ m) s = ground (arith, get-remove j k m s.1, get_above e.0 m s.0)

  pub remove_all-IsSorted : (ks : List ℕ) (m : BTreeMap V) → IsSorted m → IsSorted (remove_all ks m)
  unfolding remove_all
  remove_all-IsSorted [] m s = s
  remove_all-IsSorted (k ∷ ks) m s = remove_all-IsSorted ks (remove k m) (remove-IsSorted k m s)

  pub get-remove_all :
      (j : ℕ) (ks : List ℕ) (m : BTreeMap V)
      → IsSorted m
      → get j (remove_all ks m) ≡ (if contains ks j then none else get j m)
  unfolding remove_all
  get-remove_all j [] m s = refl
  get-remove_all j (k ∷ ks) m s =
      ground (arith, get-remove_all j ks (remove k m) (remove-IsSorted k m s), get-remove j k m s)

  contains-keys_where_above :
      (p : V → Bool) (k : ℕ) (m : BTreeMap V) → IsAbove k m → contains (keys_where p m) k ≡ false
  unfolding keys_where
  contains-keys_where_above p k [] a = refl
  contains-keys_where_above p k (e ∷ m) a = ground (arith, contains-keys_where_above p k m a.1)

  -- Does the entry of a key pass the test?
  abbrev pub passes : (V → Bool) → Option V → Bool
  passes p none = false
  passes p (some v) = p v

  pub contains-keys_where :
      (p : V → Bool) (k : ℕ) (m : BTreeMap V)
      → IsSorted m
      → contains (keys_where p m) k ≡ passes p (get k m)
  unfolding keys_where get
  contains-keys_where p k [] s = refl
  contains-keys_where p k ((j, v) ∷ m) s =
      ground (arith, contains-keys_where p k m s.1, contains-keys_where_above p j m s.0)
