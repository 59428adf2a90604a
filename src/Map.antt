-- ===== src/Map.antt =====
-- A Go map with string keys, as an association list. Go leaves the order of iteration open, so
-- the program sorts what it collects from a map; a loop here meets the entries in list order.
pub mod Size
use relaybox.Prelude.{
  Text, Bool, true, false, ◌==◌, text_eq_iff, Option, none, some, List, [], ◌∷◌, map, ◌≡◌, ◌≢◌,
  refl, arith, if◌then◌else◌,
}

abbrev pub Map {ℓ} : Type ℓ → Type ℓ
Map V = List (Text × V)

-- `map[string]struct{}`
abbrev pub TextSet : Type 0
TextSet = Map (Unit {0})

module _ {ℓ} {V : Type ℓ} where
  unfoldable pub get : Text → Map V → Option V
  get k [] = none
  get k ((j, v) ∷ m) = if j == k then some v else get k m

  unfoldable pub delete : Text → Map V → Map V
  delete k [] = []
  delete k ((j, v) ∷ m) = let rest = delete k m in if j == k then rest else (j, v) ∷ rest

  unfoldable pub put : Text → V → Map V → Map V
  put k v m = (k, v) ∷ delete k m

  abbrev pub keys : Map V → List Text
  keys = map (λ e. e.0)

  abbrev pub values : Map V → List V
  values = map (λ e. e.1)

  -- `_, ok := m[k]`
  abbrev pub has : Text → Map V → Bool
  has k m = elim (get k m) [ none ↦ false | some v ↦ true ]

  pub get-delete :
      (k j : Text) (m : Map V) → get j (delete k m) ≡ (if k == j then none else get j m)
  unfolding get delete
  get-delete k j [] = ground arith
  get-delete k j ((i, v) ∷ m) =
      ground (arith, get-delete k j m, text_eq_iff i k, text_eq_iff i j, text_eq_iff k j)

  pub get-put :
      (k j : Text) (v : V) (m : Map V) → get j (put k v m) ≡ (if k == j then some v else get j m)
  unfolding get put
  get-put k j v m = ground (arith, get-delete k j m)

  pub get-nil : (k : Text) → get k [] ≡ none
  unfolding get
  get-nil k = refl

  pub get-put_self : (k : Text) (v : V) (m : Map V) → get k (put k v m) ≡ some v
  get-put_self k v m = ground (arith, get-put k k v m, text_eq_iff k k)

  pub get-put_ne : (k j : Text) (v : V) (m : Map V) → k ≢ j → get j (put k v m) ≡ get j m
  get-put_ne k j v m h = ground (arith, get-put k j v m, text_eq_iff k j)

pub ruleset map_laws = (get-delete, get-put, get-nil)
