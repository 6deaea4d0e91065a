-- ===== src/Base/Dict.antt =====
-- JavaScript's `Map` with string keys: entries in insertion order, a key at most once.
use mathlib.Core.Path.{◌≡◌, refl}
use mathlib.Core.Option.{Option, none, some}
use mathlib.Core.Logic.{inl, inr}
use mathlib.Core.List.{List, [], ◌∷◌, Memᴰ}
use native.Mathlib.Omega.{arith}
use dash_ota.Base.Tests.{Bool-cases, if◌then◌else◌}
use dash_ota.Base.Strings.{Text, ◌===◌, eq_iff, eq_refl}

abbrev pub Dict {ℓ} : Type ℓ → Type ℓ
Dict V = List (Text × V)

module _ {ℓ} {V : Type ℓ} where
  -- `map.get(k)`
  unfoldable pub get : Dict V → Text → Option V
  get [] k = none
  get ((j, v) ∷ m) k = if j === k then some v else get m k

  -- `map.set(k, v)`: a known key keeps its place.
  unfoldable pub set : Dict V → Text → V → Dict V
  set [] k v = (k, v) ∷ []
  set ((j, w) ∷ m) k v = if j === k then (j, v) ∷ m else (j, w) ∷ set m k v

  -- `map.delete(k)`
  unfoldable pub delete : Dict V → Text → Dict V
  delete [] k = []
  delete ((j, w) ∷ m) k = let rest = delete m k in if j === k then rest else (j, w) ∷ rest

  -- `map.values()`
  abbrev pub values : Dict V → List V
  values [] = []
  values ((k, v) ∷ m) = v ∷ values m

  pub get-set :
      (m : Dict V) (k j : Text) (v : V) → get (set m k v) j ≡ (if k === j then some v else get m j)
  unfolding get set
  get-set [] k j v = refl
  get-set ((i, w) ∷ m) k j v = ground (arith, eq_iff k j, eq_iff i k, eq_iff i j, get-set m k j v)

  pub get-delete :
      (m : Dict V) (k j : Text) → get (delete m k) j ≡ (if k === j then none else get m j)
  unfolding get delete
  get-delete [] k j = ground arith
  get-delete ((i, w) ∷ m) k j = ground (arith, eq_iff k j, eq_iff i k, eq_iff i j, get-delete m k j)

  -- Every key stands once, as in a JavaScript map.
  abbrev pub HasDistinctKeys : Dict V → Type ℓ
  HasDistinctKeys [] = Unit
  HasDistinctKeys ((k, v) ∷ m) = (get m k ≡ none) × HasDistinctKeys m

  pub set-HasDistinctKeys :
      (m : Dict V) (k : Text) (v : V) → HasDistinctKeys m → HasDistinctKeys (set m k v)
  unfolding set get
  set-HasDistinctKeys [] k v d = (refl, tt)
  set-HasDistinctKeys ((j, w) ∷ m) k v (absent, d) = elim (Bool-cases (j === k)) [
    | inl here ↦ rw here (absent, d)
    | inr there ↦
        rw there
          (ground (arith, get-set m k j v, eq_iff k j, eq_iff j k), set-HasDistinctKeys m k v d)
  ]

  -- Every value is found under its key.
  pub get-of_values :
      (m : Dict V) {v : V} → HasDistinctKeys m → Memᴰ v (values m) → (k : Text) × (get m k ≡ some v)
  unfolding get
  get-of_values [] d h = elim h [ ]
  get-of_values ((k, w) ∷ m) {v} (absent, d) (Memᴰ.head e) = (k, ground (arith, eq_refl k))
  get-of_values ((k, w) ∷ m) {v} (absent, d) (Memᴰ.tail later) =
      let (j, found) = get-of_values m {v = v} d later in
      (j, ground (arith, found, absent, eq_iff k j))
