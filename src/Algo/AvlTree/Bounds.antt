-- ===== src/Algo/AvlTree/Bounds.antt =====
-- How high a tree can get, and how far a walk down goes.
use mmkvc.Prelude.{
  ℕ, zero, suc, ◌+◌, ◌*◌, ◌^◌, ◌≤◌, ◌<◌, ◌≡◌, inl, inr, Bool-cases, List, [], ◌∷◌, arith, length,
  ltb, ltb→lt,
}
use mmkvc.Algo.Ordered.{Ordered}
use mmkvc.Algo.AvlTree.Node.{Tree, leaf, node, Step, left_of, right_of, height}
use mmkvc.Algo.AvlTree.Balance.{IsAvl, size, ltb-false}
use mmkvc.Algo.AvlTree.Balanced.{IsBalanced, IsYoung, young_left, young_right}
use mmkvc.Algo.AvlTree.Inorder.{inorder}
use mmkvc.Algo.Ordered.Sorted.{IsSorted, find_in}
use mmkvc.Algo.AvlTree.Locate.{Ordering-cases, find-eq-find_in}
use mmkvc.Algo.AvlTree.Ops.{AvlTree, find, locate}

pow_double : (j : ℕ) → 2 ^ suc j ≡ 2 ^ j + 2 ^ j
pow_double j = omega arith

module _ {V : Type 0} where
  -- A tree that is `2 * j` high has `2 ^ j - 1` nodes at least.
  crowd : (j : ℕ) (t : Tree V) → IsAvl t → 2 * j ≤ height t → 2 ^ j ≤ size t + 1
  crowd zero t a tall = omega arith
  crowd (suc j) leaf a tall = absurd (omega arith)
  crowd (suc j) (node h l v r) (al, ar, e, d, d') tall =
      let left = crowd j l al (omega arith) in
      let right = crowd j r ar (omega arith) in omega (arith, pow_double j, left, right)

  size-height : (j : ℕ) (t : Tree V) → IsBalanced t → size t < 2 ^ j → height t < 2 * j + 2
  size-height j t (inl a) few = elim (Bool-cases (ltb (height t) (2 * suc j))) [
    | inl low ↦ omega (arith, ltb→lt (height t) (2 * suc j) low)
    | inr high ↦
        let many = crowd (suc j) t a (ltb-false (height t) (2 * suc j) high) in
        absurd (omega (arith, pow_double j, many, few))
  ]
  size-height j _ (inr (young_left w v)) few = omega arith
  size-height j _ (inr (young_right v w)) few = omega arith

module _ {V : Type 0} ⦃o : Ordered V⦄ where
  open o use {Key, get_key, cmp}

  length-locate :
      (k : Key) (t : Tree V) (p : List (Step V))
      → IsAvl t
      → length (locate k t p).1 ≤ length p + height t
  unfolding locate
  length-locate k leaf p a = omega arith
  length-locate k (node h l v r) p (al, ar, e, d, d') = elim (Ordering-cases (cmp (get_key v) k)) [
    | inl below ↦ rw (below, locate) (omega (arith, length-locate k r (right_of l h v ∷ p) ar))
    | inr (inl equal) ↦ rw (equal, locate) (omega arith)
    | inr (inr above) ↦ rw (above, locate) (omega (arith, length-locate k l (left_of h v r ∷ p) al))
  ]

  young-locate : (k : Key) (t : Tree V) → IsYoung t → length (locate k t []).1 ≤ 2
  unfolding locate
  young-locate k _ (young_left w v) = ground arith
  young-locate k _ (young_right v w) = ground arith

  length-locate_log :
      (k : Key) (j : ℕ) (t : Tree V)
      → IsBalanced t
      → size t < 2 ^ j
      → length (locate k t []).1 ≤ 2 * j + 2
  length-locate_log k j t (inl a) few =
      omega (arith, length-locate k t [] a, size-height j t (inl a) few)
  length-locate_log k j t (inr y) few = omega (arith, young-locate k t y)

  -- In a tree with sorted values, of the shape that insertions and extractions keep and with fewer
  -- than 2 ^ j nodes, `find` answers with the entry that a search in the sorted list of the values
  -- finds, or with none, and its walk goes down at most 2 * j + 2 times.
  pub find-locate_log :
      (k : Key) (j : ℕ) (a : AvlTree V)
      → IsSorted (inorder a.root)
      → IsBalanced a.root
      → size a.root < 2 ^ j
      → (find k a ≡ find_in k (inorder a.root)) × (length (locate k a.root []).1 ≤ 2 * j + 2)
  find-locate_log k j a sorted balanced few =
      (find-eq-find_in k a sorted, length-locate_log k j a.root balanced few)
