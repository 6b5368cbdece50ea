-- ===== src/Dict/Laws.antt =====
-- What a lookup sees after each operation on a dict, in `if` form.
use mathlib.Core.Option
use tag_pulse.Prelude.{
  ◌+◌, ◌≤◌, ◌≡◌, refl, Bool, false, ◌||◌, Option, none, some, [], ◌∷◌, arith, Eq, ◌==◌,
  if◌then◌else◌, is_some, length, contains, Unique,
}
use tag_pulse.Dict.{Dict, lookup, has_key, insert, erase, keys, keep_entries, map_values, Distinct}

-- What passes the test of an optional value.
abbrev pub only_if {ℓ} : {V : Type ℓ} → (V → Bool) → Option V → Option V
only_if p none = none
only_if p (some v) = if p v then some v else none

module _ {ℓ} {K V : Type ℓ} ⦃e : Eq K⦄ where
  pub lookup-insert :
      (j k : K) (v : V) (d : Dict K V)
      → lookup j (insert k v d) ≡ (if k == j then some v else lookup j d)
  unfolding lookup insert
  lookup-insert j k v [] = ground arith
  lookup-insert j k v ((i, w) ∷ d) =
      ground (arith, e.beq_iff i k, e.beq_iff i j, e.beq_iff k j, lookup-insert j k v d)

  pub has_key-insert :
      (j k : K) (v : V) (d : Dict K V) → has_key j (insert k v d) ≡ k == j || has_key j d
  unfolding has_key insert
  has_key-insert j k v [] = ground arith
  has_key-insert j k v ((i, w) ∷ d) =
      ground (arith, e.beq_iff i k, e.beq_iff i j, e.beq_iff k j, has_key-insert j k v d)

  pub has_key-lookup : (k : K) (d : Dict K V) → has_key k d ≡ is_some (lookup k d)
  unfolding has_key lookup
  has_key-lookup k [] = refl
  has_key-lookup k ((i, w) ∷ d) = ground (arith, has_key-lookup k d)

  pub insert-Distinct : (k : K) (v : V) (d : Dict K V) → Distinct d → Distinct (insert k v d)
  unfolding insert has_key
  insert-Distinct k v [] h = ground arith
  insert-Distinct k v ((i, w) ∷ d) h =
      ground (arith, e.beq_iff k i, e.beq_iff i k, has_key-insert i k v d, insert-Distinct k v d)

  pub has_key-erase-le :
      (j k : K) (d : Dict K V) → has_key j d ≡ false → has_key j (erase k d) ≡ false
  unfolding has_key erase
  has_key-erase-le j k [] h = refl
  has_key-erase-le j k ((i, w) ∷ d) h = ground (arith, has_key-erase-le j k d)

  pub erase-Distinct : (k : K) (d : Dict K V) → Distinct d → Distinct (erase k d)
  unfolding erase
  erase-Distinct k [] h = h
  erase-Distinct k ((i, w) ∷ d) h = ground (arith, has_key-erase-le i k d, erase-Distinct k d)

  lookup_absent : (k : K) (d : Dict K V) → has_key k d ≡ false → lookup k d ≡ none
  lookup_absent k d h = ground (arith, has_key-lookup k d)

  pub lookup-erase :
      (j k : K) (d : Dict K V)
      → Distinct d
      → lookup j (erase k d) ≡ (if k == j then none else lookup j d)
  unfolding lookup erase has_key
  lookup-erase j k [] h = ground arith
  lookup-erase j k ((i, w) ∷ d) h =
      ground
        (arith, e.beq_iff i k, e.beq_iff i j, e.beq_iff k j, lookup_absent i d, lookup-erase j k d)

  pub length-insert :
      (k : K) (v : V) (d : Dict K V)
      → length (insert k v d) ≡ (if has_key k d then length d else length d + 1)
  unfolding insert has_key
  length-insert k v [] = ground arith
  length-insert k v ((i, w) ∷ d) = ground (arith, length-insert k v d)

  pub length-erase :
      (k : K) (d : Dict K V) → length (erase k d) + (if has_key k d then 1 else 0) ≡ length d
  unfolding erase has_key
  length-erase k [] = ground arith
  length-erase k ((i, w) ∷ d) = ground (arith, length-erase k d)

  pub contains-keys : (k : K) (d : Dict K V) → contains k (keys d) ≡ has_key k d
  unfolding has_key
  contains-keys k [] = refl
  contains-keys k ((i, w) ∷ d) = ground (arith, e.beq_iff i k, e.beq_iff k i, contains-keys k d)

  pub lookup-map_values :
      (f : K → V → V) (k : K) (d : Dict K V)
      → lookup k (map_values f d) ≡ Option.map (f k) (lookup k d)
  unfolding lookup map_values
  lookup-map_values f k [] = refl
  lookup-map_values f k ((i, w) ∷ d) = ground (arith, e.beq_iff i k, lookup-map_values f k d)

  pub has_key-map_values :
      (f : K → V → V) (k : K) (d : Dict K V) → has_key k (map_values f d) ≡ has_key k d
  unfolding has_key map_values
  has_key-map_values f k [] = refl
  has_key-map_values f k ((i, w) ∷ d) = ground (arith, has_key-map_values f k d)

  pub map_values-Distinct : (f : K → V → V) (d : Dict K V) → Distinct d → Distinct (map_values f d)
  unfolding map_values
  map_values-Distinct f [] h = h
  map_values-Distinct f ((i, w) ∷ d) h =
      ground (arith, has_key-map_values f i d, map_values-Distinct f d)

  has_key-keep_entries :
      (p : K → V → Bool) (k : K) (d : Dict K V)
      → has_key k d ≡ false
      → has_key k (keep_entries p d) ≡ false
  unfolding has_key keep_entries
  has_key-keep_entries p k [] h = refl
  has_key-keep_entries p k ((i, w) ∷ d) h = ground (arith, has_key-keep_entries p k d)

  pub keep_entries-Distinct :
      (p : K → V → Bool) (d : Dict K V) → Distinct d → Distinct (keep_entries p d)
  unfolding keep_entries
  keep_entries-Distinct p [] h = h
  keep_entries-Distinct p ((i, w) ∷ d) h =
      ground (arith, has_key-keep_entries p i d, keep_entries-Distinct p d)

  pub lookup-keep_entries :
      (p : K → V → Bool) (k : K) (d : Dict K V)
      → Distinct d
      → lookup k (keep_entries p d) ≡ only_if (p k) (lookup k d)
  unfolding lookup keep_entries
  lookup-keep_entries p k [] h = refl
  lookup-keep_entries p k ((i, w) ∷ d) h =
      ground (arith, e.beq_iff i k, lookup_absent i d, lookup-keep_entries p k d)

  pub length-keep_entries-le :
      (p : K → V → Bool) (d : Dict K V) → length (keep_entries p d) ≤ length d
  unfolding keep_entries
  length-keep_entries-le p [] = ground arith
  length-keep_entries-le p ((i, w) ∷ d) = ground (arith, length-keep_entries-le p d)

module _ {ℓ} {K V : Type ℓ} ⦃e : Eq K⦄ where
  pub keys-Unique : (d : Dict K V) → Distinct d → Unique (keys d)
  keys-Unique [] h = h
  keys-Unique ((k, v) ∷ d) h = ground (arith, contains-keys k d, keys-Unique d)
