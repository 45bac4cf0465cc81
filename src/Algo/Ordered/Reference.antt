-- ===== src/Algo/Ordered/Reference.antt =====
-- Sorted lists as the reference for ordered containers: insertion, erasure and bounds by key.
use mmkvc.Prelude.{◌≡◌, refl, ap, if◌then◌else◌, List, [], ◌∷◌, ◌++◌, Option, none, some, arith}
use Prim.Native.Nat.Ordering.{lt, eq, gt}
use mmkvc.Algo.Ordered.{Ordered}
use mmkvc.Algo.Ordered.Sorted.{All, Below, Above, find_in, is_eq}

module _ {V : Type 0} ⦃o : Ordered V⦄ where
  open o use {Key, get_key, cmp, cmp_flip}

  -- an entry put in at its place, unless its key is there
  abbrev pub insert_in : V → List V → List V
  insert_in e [] = e ∷ []
  insert_in e (x ∷ xs) = elim (cmp (get_key x) (get_key e)) [
    | lt ↦ x ∷ insert_in e xs
    | eq ↦ x ∷ xs
    | gt ↦ e ∷ x ∷ xs
  ]

  abbrev pub erase_in : Key → List V → List V
  erase_in k [] = []
  erase_in k (x ∷ xs) = if is_eq (cmp (get_key x) k) then xs else x ∷ erase_in k xs

  -- the first entry that is not below the key, and the first above it
  abbrev pub first_from : Key → List V → Option V
  first_from k [] = none
  first_from k (x ∷ xs) = elim (cmp (get_key x) k) [
    | lt ↦ first_from k xs
    | eq ↦ some x
    | gt ↦ some x
  ]

  abbrev pub first_above : Key → List V → Option V
  first_above k [] = none
  first_above k (x ∷ xs) = elim (cmp (get_key x) k) [
    | lt ↦ first_above k xs
    | eq ↦ first_above k xs
    | gt ↦ some x
  ]

  pub insert_in-cut :
      (e : V) (xs ys : List V)
      → All (Below (get_key e)) xs
      → All (Above (get_key e)) ys
      → insert_in e (xs ++ ys) ≡ xs ++ e ∷ ys
  insert_in-cut e [] [] low high = refl
  insert_in-cut e [] (y ∷ ys) low (h, high) = rw h refl
  insert_in-cut e (x ∷ xs) ys (b, low) high = rw b (ap (◌∷◌ x) (insert_in-cut e xs ys low high))

  pub insert_in-hit :
      (e : V) (xs : List V) (v : V) (ys : List V)
      → All (Below (get_key e)) xs
      → cmp (get_key v) (get_key e) ≡ eq
      → insert_in e (xs ++ v ∷ ys) ≡ xs ++ v ∷ ys
  insert_in-hit e [] v ys low h = rw h refl
  insert_in-hit e (x ∷ xs) v ys (b, low) h = rw b (ap (◌∷◌ x) (insert_in-hit e xs v ys low h))

  pub erase_in-hit :
      (k : Key) (xs : List V) (v : V) (ys : List V)
      → All (Below k) xs
      → cmp (get_key v) k ≡ eq
      → erase_in k (xs ++ v ∷ ys) ≡ xs ++ ys
  erase_in-hit k [] v ys low h = rw h refl
  erase_in-hit k (x ∷ xs) v ys (b, low) h = rw b (ap (◌∷◌ x) (erase_in-hit k xs v ys low h))

  pub erase_in-miss : (k : Key) (xs : List V) → find_in k xs ≡ none → erase_in k xs ≡ xs
  erase_in-miss k [] h = refl
  erase_in-miss k (x ∷ xs) h = ground (arith, erase_in-miss k xs)

  pub first_from-Below :
      (k : Key) (xs ys : List V) → All (Below k) xs → first_from k (xs ++ ys) ≡ first_from k ys
  first_from-Below k [] ys h = refl
  first_from-Below k (x ∷ xs) ys (b, h) = rw b (first_from-Below k xs ys h)

  pub first_above-Below :
      (k : Key) (xs ys : List V) → All (Below k) xs → first_above k (xs ++ ys) ≡ first_above k ys
  first_above-Below k [] ys h = refl
  first_above-Below k (x ∷ xs) ys (b, h) = rw b (first_above-Below k xs ys h)

  pub first_from-append :
      (k : Key) (xs ys : List V)
      → first_from k (xs ++ ys)
        ≡ (elim (first_from k xs) [ some x ↦ some x | none ↦ first_from k ys ])
  first_from-append k [] ys = refl
  first_from-append k (x ∷ xs) ys = ground (arith, first_from-append k xs ys)

  pub first_above-append :
      (k : Key) (xs ys : List V)
      → first_above k (xs ++ ys)
        ≡ (elim (first_above k xs) [ some x ↦ some x | none ↦ first_above k ys ])
  first_above-append k [] ys = refl
  first_above-append k (x ∷ xs) ys = ground (arith, first_above-append k xs ys)

  -- What can be found after an insertion and after an erasure.
  pub find_in-insert_in :
      (q : Key) (e : V) (xs : List V)
      → find_in (get_key e) xs ≡ none
      → find_in q (insert_in e xs) ≡ (if is_eq (cmp (get_key e) q) then some e else find_in q xs)
  find_in-insert_in q e [] h = refl
  find_in-insert_in q e (x ∷ xs) h = ground (
    arith,
    find_in-insert_in q e xs,
    o.cmp_congr (get_key e) q (get_key x),
    o.cmp_flip (get_key x) (get_key e),
    o.cmp_flip (get_key x) q,
  )
