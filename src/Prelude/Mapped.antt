-- ===== src/Prelude/Mapped.antt =====
-- Lists through a function: reading, writing and the length.
use Prim.Native.Nat.{ℕ, zero, suc}
use mathlib.Core.Path.{◌≡◌, refl, ap}
use mathlib.Core.List.{List, [], ◌∷◌, map}
use mmkvc.Prelude.Lists.{length, get_or, set, replicate}

module _ {A B : Type 0} (f : A → B) where
  pub length-map : (xs : List A) → length (map f xs) ≡ length xs
  length-map [] = refl
  length-map (x ∷ xs) = ap suc (length-map xs)

  pub get_or-map : (xs : List A) (i : ℕ) (d : A) → get_or (map f xs) i (f d) ≡ f (get_or xs i d)
  get_or-map [] i d = refl
  get_or-map (x ∷ xs) zero d = refl
  get_or-map (x ∷ xs) (suc i) d = get_or-map xs i d

  pub map-set : (xs : List A) (i : ℕ) (v : A) → map f (set xs i v) ≡ set (map f xs) i (f v)
  map-set [] i v = refl
  map-set (x ∷ xs) zero v = refl
  map-set (x ∷ xs) (suc i) v = ap (◌∷◌ (f x)) (map-set xs i v)

  pub map-replicate : (n : ℕ) (a : A) → map f (replicate n a) ≡ replicate n (f a)
  map-replicate zero a = refl
  map-replicate (suc n) a = ap (◌∷◌ (f a)) (map-replicate n a)

module _ {A : Type 0} where
  -- What was read may be written back.
  pub set-get_or : (xs : List A) (i : ℕ) (d : A) → set xs i (get_or xs i d) ≡ xs
  set-get_or [] i d = refl
  set-get_or (x ∷ xs) zero d = refl
  set-get_or (x ∷ xs) (suc i) d = ap (◌∷◌ x) (set-get_or xs i d)
