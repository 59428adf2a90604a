-- ===== src/Map/Size.antt =====
-- The number of entries of a map whose keys are distinct.
use relaybox.Prelude.{
  ◌+◌, ◌≤◌, Text, text_eq_iff, none, some, [], ◌∷◌, ◌≡◌, ap, ◌∙◌, arith, length, All, All-imp,
  All-map_of,
}
use relaybox.Map.{Map, get, delete, put, get-delete, values}

module _ {ℓ} {V : Type ℓ} where
  -- No key stands twice.
  abbrev pub IsUnique : Map V → Type ℓ
  IsUnique [] = Unit
  IsUnique ((k, v) ∷ m) = (get k m ≡ none) × IsUnique m

  pub length-delete-le : (k : Text) (m : Map V) → length (delete k m) ≤ length m
  unfolding delete
  length-delete-le k [] = omega arith
  length-delete-le k ((j, v) ∷ m) = ground (arith, length-delete-le k m)

  pub length-put-le : (k : Text) (v : V) (m : Map V) → length (put k v m) ≤ length m + 1
  unfolding put
  length-put-le k v m = omega (arith, length-delete-le k m)

  pub length-delete-lt :
      (k : Text) (v : V) (m : Map V) → get k m ≡ some v → length (delete k m) + 1 ≤ length m
  unfolding get delete
  length-delete-lt k v [] h = cc
  length-delete-lt k v ((j, w) ∷ m) h = ground (arith, length-delete-le k m, length-delete-lt k v m)

  pub delete-IsUnique : (k : Text) (m : Map V) → IsUnique m → IsUnique (delete k m)
  unfolding delete
  delete-IsUnique k [] h = tt
  delete-IsUnique k ((j, v) ∷ m) h = ground (arith, get-delete k j m, delete-IsUnique k m h.1)

  pub put-IsUnique : (k : Text) (v : V) (m : Map V) → IsUnique m → IsUnique (put k v m)
  unfolding put
  put-IsUnique k v m h = ground (arith, get-delete k k m, text_eq_iff k k, delete-IsUnique k m h)

  get-cons :
      (k : Text) (v : V) (m : Map V)
      → get k m ≡ none
      → (e : Text × V) → get e.0 m ≡ some e.1
      → get e.0 ((k, v) ∷ m) ≡ some e.1
  unfolding get
  get-cons k v m fresh e h = ground (arith, text_eq_iff k e.0)

  -- An entry of a map with distinct keys is what a lookup of its key finds.
  pub All-get : (m : Map V) → IsUnique m → All (λ e. get e.0 m ≡ some e.1) m
  unfolding get
  All-get [] h = tt
  All-get ((k, v) ∷ m) h =
      (ground (arith, text_eq_iff k k), All-imp (get-cons k v m h.0) m (All-get m h.1))

  keyed-get :
      (key : V → Text) (m : Map V) (e : Text × V)
      → key e.1 ≡ e.0
      → get e.0 m ≡ some e.1
      → get (key e.1) m ≡ some e.1
  keyed-get key m e same h = ap (λ k. get k m) same ∙ h

  -- So each value is what a lookup of its key finds, where a value shows its key.
  pub All-values :
      (key : V → Text) (m : Map V)
      → IsUnique m
      → ((k : Text) (v : V) → get k m ≡ some v → key v ≡ k)
      → All (λ v. get (key v) m ≡ some v) (values m)
  All-values key m u keyed =
      All-map_of (λ v. get (key v) m ≡ some v) (λ e. e.1) m
        (All-imp (λ (e : Text × V) h. keyed-get key m e (keyed e.0 e.1 h) h) m (All-get m u))
