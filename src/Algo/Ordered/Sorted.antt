-- ===== src/Algo/Ordered/Sorted.antt =====
-- Sorted lists: cutting them at a key, putting an entry in, taking one out, and searching.
use mmkvc.Prelude.{
  ◌≡◌, refl, if◌then◌else◌, Bool, true, false, List, [], ◌∷◌, ◌++◌, Option, none, some,
}
use Prim.Native.Nat.{Ordering}
use Prim.Native.Nat.Ordering.{lt, eq, gt}
use mmkvc.Algo.Ordered.{Ordered}

abbrev pub All {ℓ κ} : {A : Type ℓ} → (A → Type κ) → List A → Type κ
All P [] = Unit
All P (x ∷ xs) = P x × All P xs

pub All-append {ℓ κ} :
    {A : Type ℓ} (P : A → Type κ) (xs ys : List A) → All P xs → All P ys → All P (xs ++ ys)
All-append P [] ys p q = q
All-append P (x ∷ xs) ys (h, p) q = (h, All-append P xs ys p q)

pub All-split {ℓ κ} :
    {A : Type ℓ} (P : A → Type κ) (xs ys : List A) → All P (xs ++ ys) → All P xs × All P ys
All-split P [] ys p = (tt, p)
All-split P (x ∷ xs) ys (h, p) = let (a, b) = All-split P xs ys p in ((h, a), b)

pub All-imp {ℓ κ μ} :
    {A : Type ℓ} (P : A → Type κ) (Q : A → Type μ)
    → ((x : A) → P x → Q x)
    → (xs : List A) → All P xs
    → All Q xs
All-imp P Q f [] p = tt
All-imp P Q f (x ∷ xs) (h, p) = (f x h, All-imp P Q f xs p)

abbrev pub is_eq : Ordering → Bool
is_eq eq = true
is_eq _ = false

module _ {V : Type 0} ⦃o : Ordered V⦄ where
  open o use {Key, get_key, cmp, cmp_refl, cmp_flip, cmp_trans, cmp_congr}

  -- below, at and above a key
  abbrev pub Below : Key → V → Type 0
  Below k x = cmp (get_key x) k ≡ lt

  abbrev pub Above : Key → V → Type 0
  Above k x = cmp (get_key x) k ≡ gt

  abbrev pub IsSorted : List V → Type 0
  IsSorted [] = Unit
  IsSorted (x ∷ xs) = All (Above (get_key x)) xs × IsSorted xs

  -- the entry of a key
  abbrev pub find_in : Key → List V → Option V
  find_in k [] = none
  find_in k (x ∷ xs) = if is_eq (cmp (get_key x) k) then some x else find_in k xs

  pub Above-trans : (k : Key) (x y : V) → Above k x → Above (get_key x) y → Above k y
  Above-trans k x y h g =
      let a : cmp k (get_key x) ≡ lt = rw (cmp_flip (get_key x) k) (rw h refl) in
      let b : cmp (get_key x) (get_key y) ≡ lt =
        rw (cmp_flip (get_key y) (get_key x)) (rw g refl) in
      rw (cmp_flip k (get_key y)) (rw (cmp_trans k (get_key x) (get_key y) a b) refl)

  Below-Above : (x y : V) → Above (get_key x) y → Below (get_key y) x
  Below-Above x y h = rw (cmp_flip (get_key y) (get_key x)) (rw h refl)

  pub Below-congr : (a b : Key) (x : V) → cmp a b ≡ eq → Below a x → Below b x
  Below-congr a b x e h =
      rw (cmp_flip b (get_key x))
        (rw (← cmp_congr a b (get_key x) e) (rw (cmp_flip (get_key x) a) (rw h refl)))

  -- Around an entry of a sorted list stand the lesser and the greater ones.
  pub IsSorted-split :
      (xs : List V) (y : V) (ys : List V)
      → IsSorted (xs ++ y ∷ ys)
      → All (Below (get_key y)) xs × All (Above (get_key y)) ys
  IsSorted-split [] y ys (h, s) = (tt, h)
  IsSorted-split (x ∷ xs) y ys (h, s) =
      let (low, high) = IsSorted-split xs y ys s in
      ((Below-Above x y (All-split _ xs (y ∷ ys) h).1.0, low), high)

  pub IsSorted-parts :
      (xs : List V) (y : V) (ys : List V) → IsSorted (xs ++ y ∷ ys) → IsSorted xs × IsSorted ys
  IsSorted-parts [] y ys (h, s) = (tt, s)
  IsSorted-parts (x ∷ xs) y ys (h, s) =
      let (left, right) = IsSorted-parts xs y ys s in (((All-split _ xs (y ∷ ys) h).0, left), right)

  -- An entry out of a sorted list.
  pub IsSorted-without :
      (xs : List V) (y : V) (ys : List V) → IsSorted (xs ++ y ∷ ys) → IsSorted (xs ++ ys)
  IsSorted-without [] y ys (h, s) = s
  IsSorted-without (x ∷ xs) y ys (h, s) =
      let (a, b) = All-split _ xs (y ∷ ys) h in
      (All-append _ xs ys a b.1, IsSorted-without xs y ys s)

  -- An entry into a sorted list, at its place.
  pub IsSorted-with :
      (xs : List V) (y : V) (ys : List V)
      → IsSorted (xs ++ ys)
      → All (Below (get_key y)) xs
      → All (Above (get_key y)) ys
      → IsSorted (xs ++ y ∷ ys)
  IsSorted-with [] y ys s low high = (high, s)
  IsSorted-with (x ∷ xs) y ys (h, s) (b, low) high =
      let (p, q) = All-split _ xs ys h in
      (
        All-append _ xs (y ∷ ys) p (rw (cmp_flip (get_key x) (get_key y)) (rw b refl), q),
        IsSorted-with xs y ys s low high,
      )

  pub find_in-Below :
      (k : Key) (xs ys : List V) → All (Below k) xs → find_in k (xs ++ ys) ≡ find_in k ys
  find_in-Below k [] ys h = refl
  find_in-Below k (x ∷ xs) ys (b, h) = rw b (find_in-Below k xs ys h)

  pub find_in-Above : (k : Key) (xs : List V) → All (Above k) xs → find_in k xs ≡ none
  find_in-Above k [] h = refl
  find_in-Above k (x ∷ xs) (a, h) = rw a (find_in-Above k xs h)
