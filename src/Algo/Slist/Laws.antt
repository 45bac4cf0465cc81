-- ===== src/Algo/Slist/Laws.antt =====
-- Copying and assigning lists.
use mmkvc.Prelude.{◌≡◌, if◌then◌else◌, refl, ap, List, [], ◌∷◌, none, some}
use mmkvc.Algo.Slist.{is_empty, copy, overwrite, assign}

module _ {ℓ} {T : Type ℓ} where
  pub copy_lem : (s : List T) → copy s ≡ s
  unfolding copy
  copy_lem [] = refl
  copy_lem (x ∷ xs) = ap (◌∷◌ x) (copy_lem xs)

  overwrite_lem : (x : T) (xs : List T) (y : T) (ys : List T) → overwrite x xs y ys ≡ y ∷ ys
  unfolding overwrite
  overwrite_lem x [] y ys = ap (◌∷◌ y) (copy_lem ys)
  overwrite_lem x (x' ∷ xs) y [] = refl
  overwrite_lem x (x' ∷ xs) y (y' ∷ ys) = ap (◌∷◌ y) (overwrite_lem x' xs y' ys)

  -- Copy assignment from another list object makes the list equal to it, whatever it held, if the
  -- other list is not empty; from an empty list it dereferences a null pointer.
  pub assign_lem : (s t : List T) → assign s t ≡ (if is_empty t then none else some t)
  unfolding assign is_empty
  assign_lem [] [] = refl
  assign_lem [] (y ∷ ys) = ap some (overwrite_lem y ys y ys)
  assign_lem (x ∷ xs) [] = refl
  assign_lem (x ∷ xs) (y ∷ ys) = ap some (overwrite_lem x xs y ys)
