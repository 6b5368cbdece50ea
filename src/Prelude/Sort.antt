-- ===== src/Prelude/Sort.antt =====
-- `sorted`, over an order given as a test.
use Prim.Native.Nat.{ℕ, suc}
use mathlib.Core.Path.{◌≡◌, refl}
use mathlib.Core.Bool.{Bool, true, false, ◌||◌}
use mathlib.Core.List.{List, [], ◌∷◌}
use native.Mathlib.Omega.{arith}
use tag_pulse.Prelude.Tests.{leb, if◌then◌else◌}
use tag_pulse.Prelude.Lists.{length, All, any}
use tag_pulse.Prelude.Int.{ℤ, leb_ℤ}
use tag_pulse.Prelude.Keys.{Eq, contains, Unique, ◌==◌}

pub record Ord {ℓ} (A : Type ℓ) : Type ℓ where
  pub le : A → A → Bool

instance abbrev pub nat_ord : Ord ℕ
nat_ord = record { le = leb }

instance abbrev pub int_ord : Ord ℤ
int_ord = record { le = leb_ℤ }

-- Sequences compare lexicographically.
module _ {ℓ} {A : Type ℓ} ⦃o : Ord A⦄ where
  abbrev pub list_le : List A → List A → Bool
  list_le [] ys = true
  list_le (x ∷ xs) [] = false
  list_le (x ∷ xs) (y ∷ ys) =
      let rest = list_le xs ys in if o.le x y then (if o.le y x then rest else true) else false

  instance abbrev pub list_ord : Ord (List A)
  list_ord = record { le = list_le }

-- Tuples too.
module _ {ℓ} {A B : Type ℓ} ⦃o : Ord A⦄ ⦃p : Ord B⦄ where
  instance abbrev pub pair_ord : Ord (A × B)
  pair_ord = record {
    le = λ x y. if o.le x.0 y.0 then (if o.le y.0 x.0 then p.le x.1 y.1 else true) else false;
  }

module _ {ℓ} {A : Type ℓ} ⦃o : Ord A⦄ where
  unfoldable pub insert_sorted : A → List A → List A
  insert_sorted x [] = x ∷ []
  insert_sorted x (y ∷ ys) = if o.le x y then x ∷ y ∷ ys else y ∷ insert_sorted x ys

  -- Stable, as Python's is.
  unfoldable pub sorted : List A → List A
  unfolding insert_sorted
  sorted [] = []
  sorted (x ∷ xs) = insert_sorted x (sorted xs)

  length-insert_sorted : (x : A) (xs : List A) → length (insert_sorted x xs) ≡ suc (length xs)
  unfolding insert_sorted
  length-insert_sorted x [] = refl
  length-insert_sorted x (y ∷ ys) = ground (arith, length-insert_sorted x ys)

  pub length-sorted : (xs : List A) → length (sorted xs) ≡ length xs
  unfolding sorted
  length-sorted [] = refl
  length-sorted (x ∷ xs) = ground (arith, length-insert_sorted x (sorted xs), length-sorted xs)

  any-insert_sorted :
      (f : A → Bool) (x : A) (xs : List A) → any f (insert_sorted x xs) ≡ (f x || any f xs)
  unfolding insert_sorted
  any-insert_sorted f x [] = refl
  any-insert_sorted f x (y ∷ ys) = ground (arith, any-insert_sorted f x ys)

  pub any-sorted : (f : A → Bool) (xs : List A) → any f (sorted xs) ≡ any f xs
  unfolding sorted
  any-sorted f [] = refl
  any-sorted f (x ∷ xs) = ground (arith, any-insert_sorted f x (sorted xs), any-sorted f xs)

  pub insert_sorted-All {κ} :
      (P : A → Type κ) (x : A) (xs : List A) → P x → All P xs → All P (insert_sorted x xs)
  unfolding insert_sorted
  insert_sorted-All P x [] h k = (h, tt)
  insert_sorted-All P x (y ∷ ys) h k = ground (arith, insert_sorted-All P x ys h)

module _ {ℓ} {A : Type ℓ} ⦃o : Ord A⦄ ⦃e : Eq A⦄ where
  contains-insert_sorted :
      (a x : A) (xs : List A) → contains a (insert_sorted x xs) ≡ a == x || contains a xs
  unfolding insert_sorted
  contains-insert_sorted a x [] = refl
  contains-insert_sorted a x (y ∷ ys) = ground (arith, contains-insert_sorted a x ys)

  pub contains-sorted : (a : A) (xs : List A) → contains a (sorted xs) ≡ contains a xs
  unfolding sorted
  contains-sorted a [] = refl
  contains-sorted a (x ∷ xs) =
      ground (arith, contains-insert_sorted a x (sorted xs), contains-sorted a xs)

  insert_sorted-Unique :
      (x : A) (xs : List A) → contains x xs ≡ false → Unique xs → Unique (insert_sorted x xs)
  unfolding insert_sorted
  insert_sorted-Unique x [] h u = ground arith
  insert_sorted-Unique x (y ∷ ys) h u = ground (
    arith,
    insert_sorted-Unique x ys,
    contains-insert_sorted y x ys,
    e.beq_iff x y,
    e.beq_iff y x,
  )

  pub sorted-Unique : (xs : List A) → Unique xs → Unique (sorted xs)
  unfolding sorted
  sorted-Unique [] u = u
  sorted-Unique (x ∷ xs) u =
      ground (arith, insert_sorted-Unique x (sorted xs), contains-sorted x xs, sorted-Unique xs)
