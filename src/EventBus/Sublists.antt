-- ===== src/EventBus/Sublists.antt =====
-- Lists without some of their elements.

use tag_pulse.Prelude.{List, [], ◌∷◌, ◌++◌, ◌≡◌, refl, inl, inr, ◌⊎◌}

-- The first list is the second one without some of its elements.
pub data Sublist {A : Type 0} : List A → List A → Type 0 where
  done : Sublist [] []
  kept : (x : A) {xs ys : List A} → Sublist xs ys → Sublist (x ∷ xs) (x ∷ ys)
  left_out : (x : A) {xs ys : List A} → Sublist xs ys → Sublist xs (x ∷ ys)

module _ {A : Type 0} where
  pub split : (q : List A) → (q ≡ []) ⊎ ((x : A) × (rest : List A) × (q ≡ x ∷ rest))
  split [] = inl refl
  split (x ∷ rest) = inr (x, rest, refl)

  pub Sublist_snoc :
      (x : A) {xs ys : List A} → Sublist xs ys → Sublist (xs ++ x ∷ []) (ys ++ x ∷ [])
  Sublist_snoc x done = kept x done
  Sublist_snoc x (kept y s) = kept y (Sublist_snoc x s)
  Sublist_snoc x (left_out y s) = left_out y (Sublist_snoc x s)

  pub Sublist_later : (x : A) {xs ys : List A} → Sublist xs ys → Sublist xs (ys ++ x ∷ [])
  Sublist_later x done = left_out x done
  Sublist_later x (kept y s) = kept y (Sublist_later x s)
  Sublist_later x (left_out y s) = left_out y (Sublist_later x s)

  pub Sublist_refl : (xs : List A) → Sublist xs xs
  Sublist_refl [] = done
  Sublist_refl (x ∷ xs) = kept x (Sublist_refl xs)

  pub Sublist_trans :
      {ys zs : List A} → Sublist ys zs → {xs : List A} → Sublist xs ys → Sublist xs zs
  Sublist_trans done t = t
  Sublist_trans (kept x s) (kept _ t) = kept x (Sublist_trans s t)
  Sublist_trans (kept x s) (left_out _ t) = left_out x (Sublist_trans s t)
  Sublist_trans (left_out x s) t = left_out x (Sublist_trans s t)

  -- An element in the middle may be left out.
  pub Sublist_middle :
      (front : List A) (x : A) (xs : List A) → Sublist (front ++ xs) (front ++ x ∷ xs)
  Sublist_middle [] x xs = left_out x (Sublist_refl xs)
  Sublist_middle (y ∷ front) x xs = kept y (Sublist_middle front x xs)
