-- ===== src/Dict/Middle.antt =====
-- A dict at one of its keys, with what stands before it and after it.
use tag_pulse.Prelude.{false, ◌||◌, some, [], ◌∷◌, ◌++◌, Eq, ==_refl, ==_iff, ◌≡◌, refl, arith}
use tag_pulse.Dict.{Dict, lookup, insert, has_key, Distinct}

module _ {T V : Type 0} ⦃e : Eq T⦄ where
  has_key-append : (k : T) (d c : Dict T V) → has_key k (d ++ c) ≡ (has_key k d || has_key k c)
  unfolding has_key
  has_key-append k [] c = refl
  has_key-append k ((j, v) ∷ d) c = ground (arith, has_key-append k d c)

  pub fresh_before :
      (before : Dict T V) (k : T) (v : V) (after : Dict T V)
      → Distinct (before ++ (k, v) ∷ after)
      → has_key k before ≡ false
  unfolding has_key
  fresh_before [] k v after d = refl
  fresh_before ((j, w) ∷ before) k v after d = ground (
    arith,
    d.0,
    has_key-append j before ((k, v) ∷ after),
    fresh_before before k v after d.1,
    ==_iff j k,
    ==_refl k,
  )

  pub lookup-middle :
      (before : Dict T V) (k : T) (v : V) (after : Dict T V)
      → has_key k before ≡ false
      → lookup k (before ++ (k, v) ∷ after) ≡ some v
  unfolding has_key lookup
  lookup-middle [] k v after h = ground (arith, ==_refl k)
  lookup-middle ((j, w) ∷ before) k v after h = ground (arith, lookup-middle before k v after)

  pub insert-middle :
      (before : Dict T V) (k : T) (v w : V) (after : Dict T V)
      → has_key k before ≡ false
      → insert k w (before ++ (k, v) ∷ after) ≡ before ++ (k, w) ∷ after
  unfolding has_key insert
  insert-middle [] k v w after h = ground (arith, ==_refl k)
  insert-middle ((j, u) ∷ before) k v w after h = ground (arith, insert-middle before k v w after)

  pub Distinct-middle :
      (before : Dict T V) (k : T) (v w : V) (after : Dict T V)
      → Distinct (before ++ (k, v) ∷ after)
      → Distinct (before ++ (k, w) ∷ after)
  unfolding has_key
  Distinct-middle [] k v w after d = d
  Distinct-middle ((j, u) ∷ before) k v w after d = (
    ground (
      arith,
      d.0,
      has_key-append j before ((k, v) ∷ after),
      has_key-append j before ((k, w) ∷ after),
    ),
    Distinct-middle before k v w after d.1,
  )
