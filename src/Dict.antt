-- ===== src/Dict.antt =====
-- Python's `dict` as a list of entries in insertion order; a database table keyed by its unique
-- index is the same data. `insert` keeps the place of a key that is there and appends a new one.
pub mod Laws
pub mod Middle
use tag_pulse.Prelude.{
  Bool, true, false, ◌||◌, Option, none, some, ◌≡◌, List, [], ◌∷◌, Eq, ◌==◌, if◌then◌else◌,
}

abbrev pub Dict {ℓ} : Type ℓ → Type ℓ → Type ℓ
Dict K V = List (K × V)

module _ {ℓ} {K V : Type ℓ} ⦃e : Eq K⦄ where
  -- d.get(k)
  unfoldable pub lookup : K → Dict K V → Option V
  lookup k [] = none
  lookup k ((j, v) ∷ d) = if j == k then some v else lookup k d

  -- `k in d`
  unfoldable pub has_key : K → Dict K V → Bool
  has_key k [] = false
  has_key k ((j, v) ∷ d) = j == k || has_key k d

  -- d[k] = v
  unfoldable pub insert : K → V → Dict K V → Dict K V
  insert k v [] = (k, v) ∷ []
  insert k v ((j, w) ∷ d) = if j == k then (j, v) ∷ d else (j, w) ∷ insert k v d

  -- d.pop(k, None), del d[k]
  unfoldable pub erase : K → Dict K V → Dict K V
  erase k [] = []
  erase k ((j, w) ∷ d) = if j == k then d else (j, w) ∷ erase k d

module _ {ℓ} {K V : Type ℓ} where
  -- list(d)
  abbrev pub keys : Dict K V → List K
  keys [] = []
  keys ((k, v) ∷ d) = k ∷ keys d

  -- list(d.values())
  abbrev pub values : Dict K V → List V
  values [] = []
  values ((k, v) ∷ d) = v ∷ values d

  -- The entries that pass a test, as in `DELETE … WHERE NOT` and in a comprehension over items().
  unfoldable pub keep_entries : (K → V → Bool) → Dict K V → Dict K V
  keep_entries p [] = []
  keep_entries p ((k, v) ∷ d) = let rest = keep_entries p d in if p k v then (k, v) ∷ rest else rest

  -- `UPDATE … SET`, on every entry.
  unfoldable pub map_values : (K → V → V) → Dict K V → Dict K V
  map_values f [] = []
  map_values f ((k, v) ∷ d) = (k, f k v) ∷ map_values f d

module _ {ℓ} {K V : Type ℓ} ⦃e : Eq K⦄ where
  -- No key stands twice: what a dict and a unique index guarantee.
  abbrev pub Distinct : Dict K V → Type 0
  Distinct [] = Unit
  Distinct ((k, v) ∷ d) = (has_key k d ≡ false) × Distinct d
