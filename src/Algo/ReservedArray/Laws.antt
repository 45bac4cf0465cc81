-- ===== src/Algo/ReservedArray/Laws.antt =====
-- Growing, shrinking and assigning arrays.
use mmkvc.Prelude.{
  if◌then◌else◌, ℕ, zero, suc, ◌-◌, ◌≤◌, ◌≡◌, refl, sym, ap, ◌∙◌, Bool-cases, inl, inr, true, false,
  Bool, not, ◌&&◌, none, some, leb, ltb, ◌==◌, List, [], ◌∷◌, ◌++◌, length, take, drop, replicate,
  get_or, length-append, length-replicate, length-take, get_or-replicate, arith, take-append-drop,
}
use mmkvc.Algo.ReservedArray.{new_array, grow_array, shrink_array, copy_over, assign_array}
use Prim.Native.Nat.{max}

module _ {ℓ} {A : Type ℓ} where
  get_or-padded : (d : A) (n i : ℕ) (xs : List A) → get_or (xs ++ replicate n d) i d ≡ get_or xs i d
  get_or-padded d n i [] = get_or-replicate n i d
  get_or-padded d n zero (x ∷ xs) = refl
  get_or-padded d n (suc i) (x ∷ xs) = get_or-padded d n i xs

  -- After `Grow(n)` the array has the larger of both sizes, every element that it had, and default
  -- elements behind.
  pub grow_array_lem :
      (d : A) (n : ℕ) (xs : List A)
      → (length (grow_array d n xs) ≡ max n (length xs))
        × ((i : ℕ) → get_or (grow_array d n xs) i d ≡ get_or xs i d)
  grow_array_lem d n xs = elim (Bool-cases (leb n (length xs))) [
    | inl small ↦ rw small (ground arith, λ i. refl)
    | inr large ↦ rw large (
      ground (
        arith,
        length-append xs (new_array d (n - length xs)),
        length-replicate (n - length xs) d,
      ),
      λ i. get_or-padded d (n - length xs) i xs,
    )
  ]

  take-all : (n : ℕ) (xs : List A) → length xs ≤ n → take n xs ≡ xs
  take-all zero [] h = refl
  take-all zero (x ∷ xs) h = absurd (omega arith)
  take-all (suc n) [] h = refl
  take-all (suc n) (x ∷ xs) h = ap (◌∷◌ x) (take-all n xs (omega arith))

  -- `Shrink(n)` leaves the first `n` elements, or the whole array if it has no more.
  pub shrink_array_lem : (n : ℕ) (xs : List A) → shrink_array n xs ≡ take n xs
  shrink_array_lem n xs = elim (Bool-cases (leb (length xs) n)) [
    | inl small ↦ rw small (sym (take-all n xs (ground arith)))
    | inr large ↦ rw large refl
  ]

  copy_over-longer :
      (xs ys : List A) → length ys ≤ length xs → take (length ys) (copy_over xs ys) ≡ ys
  copy_over-longer xs [] h = refl
  copy_over-longer [] (y ∷ ys) h = absurd (omega arith)
  copy_over-longer (x ∷ xs) (y ∷ ys) h = ap (◌∷◌ y) (copy_over-longer xs ys (omega arith))

  copy_over-same : (xs ys : List A) → length xs ≡ length ys → copy_over xs ys ≡ ys
  copy_over-same [] [] h = refl
  copy_over-same [] (y ∷ ys) h = absurd (omega arith)
  copy_over-same (x ∷ xs) [] h = absurd (omega arith)
  copy_over-same (x ∷ xs) (y ∷ ys) h = ap (◌∷◌ y) (copy_over-same xs ys (omega arith))

  copy_reallocated :
      (xs other : List A)
      → (if ltb (length xs) (length other)
          then some (copy_over xs (take (length xs) other) ++ drop (length xs) other)
          else some (take (length other) (copy_over xs other)))
        ≡ some other
  copy_reallocated xs other = elim (Bool-cases (ltb (length xs) (length other))) [
    | inl less ↦ rw less (
        ap some (
          ap (λ l. l ++ drop (length xs) other)
            (copy_over-same xs (take (length xs) other) (taken_length less))
          ∙ take-append-drop (length xs) other))
    | inr more ↦ rw more (ap some (copy_over-longer xs other (ground arith)))
  ]
    where
      taken_length :
          ltb (length xs) (length other) ≡ true → length xs ≡ length (take (length xs) other)
      taken_length less = ground (arith, length-take (length xs) other)

  -- Copy assignment makes the array equal to the other one, whatever sizes they have, but for one
  -- case: a non-empty array of elements that may be reallocated is assigned an empty one, where
  -- `realloc` to no bytes returns a null pointer; then it throws.
  pub assign_array_lem :
      (reallocates null_at_zero : Bool) (xs other : List A)
      → assign_array reallocates null_at_zero xs other ≡ (
          if not (length xs == length other)
            && (reallocates && (null_at_zero && (length other == 0)))
          then none
          else some other)
  assign_array_lem reallocates null_at_zero xs other =
      elim (Bool-cases (length xs == length other)) [
        | inl same ↦ rw same (ap some (copy_over-same xs other (ground arith)))
        | inr differ ↦ rw differ (resized reallocates (null_at_zero && (length other == 0)))
      ]
    where
      resized :
          (can stops : Bool)
          → (if can
              then (if stops
                  then none
                  else if ltb (length xs) (length other)
                  then some (copy_over xs (take (length xs) other) ++ drop (length xs) other)
                  else some (take (length other) (copy_over xs other)))
              else some other)
            ≡ (if can && stops then none else some other)
      resized true true = refl
      resized true false = copy_reallocated xs other
      resized false stops = refl
