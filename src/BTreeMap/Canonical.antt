-- ===== src/BTreeMap/Canonical.antt =====
-- A sorted map is determined by its lookups.
use meow.Base.{ℕ, ◌<◌, ◌≡◌, refl, sym, ◌∙◌, none, some, [], ◌∷◌, arith}
use meow.BTreeMap.Defs.{BTreeMap, get, IsAbove, IsSorted}
use meow.BTreeMap.Laws.{get_above, get_above_lt}

module _ {ℓ} {V : Type ℓ} where
  get_head : (j : ℕ) (v : V) (m : BTreeMap V) → get j ((j, v) ∷ m) ≡ some v
  unfolding get
  get_head j v m = ground arith

  get_below : (k j : ℕ) (v : V) (m : BTreeMap V) → k < j → IsAbove j m → get k ((j, v) ∷ m) ≡ none
  unfolding get
  get_below k j v m h a = ground (arith, get_above_lt k j m h a)

  tails_agree :
      (j i : ℕ) (v w : V) (m n : BTreeMap V)
      → j ≡ i
      → IsAbove j m
      → IsAbove i n
      → ((k : ℕ) → get k ((j, v) ∷ m) ≡ get k ((i, w) ∷ n))
      → (k : ℕ) → get k m ≡ get k n
  unfolding get
  tails_agree j i v w m n e a b h k = ground (arith, h k, get_above j m a, get_above i n b)

  same_first_key :
      (j i : ℕ) (v w : V) (m n : BTreeMap V)
      → IsAbove j m
      → IsAbove i n
      → ((k : ℕ) → get k ((j, v) ∷ m) ≡ get k ((i, w) ∷ n))
      → j ≡ i
  same_first_key j i v w m n a b h =
      ground (arith, h j, h i, get_head j v m, get_head i w n, get_below j i w n, get_below i j v m)

  same_first_value :
      (j i : ℕ) (v w : V) (m n : BTreeMap V)
      → j ≡ i
      → get j ((j, v) ∷ m) ≡ get j ((i, w) ∷ n)
      → v ≡ w
  same_first_value j i v w m n e h = cc (get_head j v m, get_head i w n)

  -- Two sorted maps with the same lookups are the same list of entries: iteration order, and all
  -- that is computed from it, depends on the contents alone.
  pub eq_of_lookups :
      (m n : BTreeMap V) → IsSorted m → IsSorted n → ((k : ℕ) → get k m ≡ get k n) → m ≡ n
  unfolding get
  eq_of_lookups [] [] s t h = refl
  eq_of_lookups [] ((i, w) ∷ n) s t h = cc (h i ∙ get_head i w n)
  eq_of_lookups ((j, v) ∷ m) [] s t h = cc (sym (h j) ∙ get_head j v m)
  eq_of_lookups ((j, v) ∷ m) ((i, w) ∷ n) s t h =
      let same_key : j ≡ i = same_first_key j i v w m n s.0 t.0 h in
      let same_value : v ≡ w = same_first_value j i v w m n same_key (h j) in
      let rest : m ≡ n = eq_of_lookups m n s.1 t.1 (tails_agree j i v w m n same_key s.0 t.0 h) in
      cc
