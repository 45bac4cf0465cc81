-- ===== src/Algo/ReservedArray.antt =====
-- `ReservedArray` of mmkv/algo/reserved_array.h, by its elements: an array that only grows and shrinks
-- as a whole. `d` is the value of the default constructor.
pub mod Laws
use mmkvc.Prelude.{
  ℕ, ◌-◌, if◌then◌else◌, leb, ltb, ◌==◌, List, [], ◌∷◌, ◌++◌, length, take, drop, replicate, Bool,
  ◌&&◌, Option, none, some,
}

module _ {ℓ} {A : Type ℓ} where
  -- `ReservedArray(n)`
  abbrev pub new_array : A → ℕ → List A
  new_array d n = replicate n d

  -- `Reallocate(n)`: the elements move, the new ones are constructed
  abbrev pub reallocate : A → ℕ → List A → List A
  reallocate d n xs = xs ++ new_array d (n - length xs)

  -- `Grow(n)`
  abbrev pub grow_array : A → ℕ → List A → List A
  grow_array d n xs = if leb n (length xs) then xs else reallocate d n xs

  -- `Shrink_impl(n)`
  abbrev pub shrink_impl : ℕ → List A → List A
  shrink_impl n xs = take n xs

  -- `Shrink(n)`
  abbrev pub shrink_array : ℕ → List A → List A
  shrink_array n xs = if leb (length xs) n then xs else shrink_impl n xs

  -- `std::copy(ys.begin(), ys.end(), xs.begin())`: the elements behind stay
  abbrev pub copy_over : List A → List A → List A
  copy_over xs [] = xs
  copy_over [] (y ∷ ys) = []
  copy_over (x ∷ xs) (y ∷ ys) = y ∷ copy_over xs ys

  -- `CopyAssignmentForSizeNotEqual(other)`; `none` where it throws `bad_alloc`. `reallocates` is the
  -- condition on the element type, `null_at_zero` whether `realloc` to no bytes returns a null pointer.
  abbrev pub copy_not_equal : (reallocates null_at_zero : Bool) → List A → List A → Option (List A)
  copy_not_equal reallocates null_at_zero xs other =
      if reallocates
      then (if null_at_zero && (length other == 0)
          then none
          else if ltb (length xs) (length other)
          then some (copy_over xs (take (length xs) other) ++ drop (length xs) other)
          else some (take (length other) (copy_over xs other)))
      else some other

  -- `operator=` from another object
  abbrev pub assign_array : (reallocates null_at_zero : Bool) → List A → List A → Option (List A)
  assign_array reallocates null_at_zero xs other =
      if length xs == length other
      then some (copy_over xs other)
      else copy_not_equal reallocates null_at_zero xs other
