-- ===== src/Algo/AvlTree/Retrace.antt =====
-- Retracing the path from a changed subtree to the root, with `_InsertFixup` and `_EraseFixup`.
use mmkvc.Prelude.{
  ℕ, ◌+◌, ◌≤◌, ◌≡◌, ◌≢◌, refl, ap, inl, inr, Bool, true, false, Bool-cases, List, [], ◌∷◌, arith,
  leb, ◌==◌, ◌&&◌, ==_iff, leb→le,
}
use Prim.Native.Nat.{max}
use mmkvc.Algo.AvlTree.Node.{
  Tree, node, Step, left_of, right_of, height, rebuild, fixup, insert_fixup, erase_fixup, is_level,
}
use mmkvc.Algo.AvlTree.Balance.{IsAvl, Fits, joined, refit-IsAvl, refit_level, leb-false}

neq : (a b : ℕ) → (a == b) ≡ false → a ≢ b
neq a b h e = ground arith

both : (x y : Bool) → (x && y) ≡ true → (x ≡ true) × (y ≡ true)
both true y h = (refl, h)
both false y h = ground arith

module _ {V : Type 0} where
  rebuild-IsAvl :
      (t : Tree V) (p : List (Step V)) → IsAvl t → Fits (height t) p → IsAvl (rebuild t p)
  unfolding rebuild
  rebuild-IsAvl t [] a fits = a
  rebuild-IsAvl t (left_of h v r ∷ p) a (ar, e, d, d', fits) =
      rebuild-IsAvl (node h t v r) p (a, ar, e, d, d') fits
  rebuild-IsAvl t (right_of l h v ∷ p) a (al, e, d, d', fits) =
      rebuild-IsAvl (node h l v t) p (al, a, e, d, d') fits

  -- A subtree that was `k` high and has grown by one at most: retracing for insertion gives an AVL tree.
  pub insert_fixup-IsAvl :
      (k : ℕ) (t : Tree V) (p : List (Step V))
      → IsAvl t
      → Fits k p
      → k ≤ height t
      → height t ≤ k + 1
      → IsAvl (insert_fixup t p)
  unfolding insert_fixup
  insert_fixup-IsAvl k t [] a fits low high = a
  insert_fixup-IsAvl k t (left_of h v r ∷ p) a (ar, e, d, d', fits) low high =
      elim (Bool-cases (h == max (height t) (height r) + 1)) [
        | inl settled ↦
            let same : h ≡ max (height t) (height r) + 1 = ground arith in
            rw settled (rebuild-IsAvl (node h t v r) p (a, ar, same, omega arith, omega arith) fits)
        | inr changed ↦
            let other = neq h (max (height t) (height r) + 1) changed in
            let (done, below, above) = refit-IsAvl t v r a ar (omega arith) (omega arith) in
            rw changed
              (insert_fixup-IsAvl h (fixup (joined t v r)) p done fits (omega arith) (omega arith))
      ]
  insert_fixup-IsAvl k t (right_of l h v ∷ p) a (al, e, d, d', fits) low high =
      elim (Bool-cases (h == max (height l) (height t) + 1)) [
        | inl settled ↦
            let same : h ≡ max (height l) (height t) + 1 = ground arith in
            rw settled (rebuild-IsAvl (node h l v t) p (al, a, same, omega arith, omega arith) fits)
        | inr changed ↦
            let other = neq h (max (height l) (height t) + 1) changed in
            let (done, below, above) = refit-IsAvl l v t al a (omega arith) (omega arith) in
            rw changed
              (insert_fixup-IsAvl h (fixup (joined l v t)) p done fits (omega arith) (omega arith))
      ]

  -- A node whose children were `kl` and `kr` high, one of which may have shrunk by one, is rebalanced to
  -- the height it had or to one less.
  shrunk-IsAvl :
      (kl kr : ℕ) (l : Tree V) (v : V) (r : Tree V)
      → IsAvl l
      → IsAvl r
      → kl ≤ kr + 1
      → kr ≤ kl + 1
      → height l ≤ kl
      → height r ≤ kr
      → kl + kr ≤ height l + height r + 1
      → let t = fixup (joined l v r) in
        IsAvl t × (height t ≤ max kl kr + 1) × (max kl kr ≤ height t)
  shrunk-IsAvl kl kr l v r al ar d d' low low' few =
      let (done, below, above) = refit-IsAvl l v r al ar (omega arith) (omega arith) in
      elim (Bool-cases (leb (height l) (height r + 1))) [
        | inl not_left ↦
            let a = leb→le (height l) (height r + 1) not_left in
            elim (Bool-cases (leb (height r) (height l + 1))) [
              | inl not_right ↦
                  let b = leb→le (height r) (height l + 1) not_right in
                  let same = ap height (refit_level l v r a b) in (done, omega arith, omega arith)
              | inr right ↦
                  let b = leb-false (height r) (height l + 1) right in
                  (done, omega arith, omega arith)
            ]
        | inr left ↦
            let a = leb-false (height l) (height r + 1) left in (done, omega arith, omega arith)
      ]

  -- A subtree that was `k` high and has shrunk by one at most: retracing for erasure gives an AVL tree.
  pub erase_fixup-IsAvl :
      (k : ℕ) (t : Tree V) (p : List (Step V))
      → IsAvl t
      → Fits k p
      → height t ≤ k
      → k ≤ height t + 1
      → IsAvl (erase_fixup t p)
  unfolding erase_fixup
  erase_fixup-IsAvl k t [] a fits low high = a
  erase_fixup-IsAvl k t (left_of h v r ∷ p) a (ar, e, d, d', fits) low high =
      elim (Bool-cases ((h == max (height t) (height r) + 1) && is_level (node h t v r))) [
        | inl settled ↦
            let (same, level) =
              both (h == max (height t) (height r) + 1) (is_level (node h t v r)) settled in
            let (b, b') =
              both (leb (height t) (height r + 1)) (leb (height r) (height t + 1)) level in
            rw settled (
              rebuild-IsAvl (node h t v r) p
                (
                  a,
                  ar,
                  (==_iff h (max (height t) (height r) + 1)).0 same,
                  leb→le (height t) (height r + 1) b,
                  leb→le (height r) (height t + 1) b',
                )
                fits)
        | inr changed ↦
            let (done, below, above) =
              shrunk-IsAvl k (height r) t v r a ar d d' low (omega arith) (omega arith) in
            rw changed
              (erase_fixup-IsAvl h (fixup (joined t v r)) p done fits (omega arith) (omega arith))
      ]
  erase_fixup-IsAvl k t (right_of l h v ∷ p) a (al, e, d, d', fits) low high =
      elim (Bool-cases ((h == max (height l) (height t) + 1) && is_level (node h l v t))) [
        | inl settled ↦
            let (same, level) =
              both (h == max (height l) (height t) + 1) (is_level (node h l v t)) settled in
            let (b, b') =
              both (leb (height l) (height t + 1)) (leb (height t) (height l + 1)) level in
            rw settled (
              rebuild-IsAvl (node h l v t) p
                (
                  al,
                  a,
                  (==_iff h (max (height l) (height t) + 1)).0 same,
                  leb→le (height l) (height t + 1) b,
                  leb→le (height t) (height l + 1) b',
                )
                fits)
        | inr changed ↦
            let (done, below, above) =
              shrunk-IsAvl (height l) k l v t al a d d' (omega arith) low (omega arith) in
            rw changed
              (erase_fixup-IsAvl h (fixup (joined l v t)) p done fits (omega arith) (omega arith))
      ]
