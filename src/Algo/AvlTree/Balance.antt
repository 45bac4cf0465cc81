-- ===== src/Algo/AvlTree/Balance.antt =====
-- The AVL property, and that rebalancing restores it.
use mmkvc.Prelude.{
  ℕ, ◌+◌, ◌≤◌, ◌≡◌, refl, inl, inr, true, false, Bool-cases, List, [], ◌∷◌, arith, ltb, leb, ltb→lt,
  leb→le,
}
use Prim.Native.Nat.{max}
use mmkvc.Algo.AvlTree.Node.{
  Tree, leaf, node, Step, left_of, right_of, height, fixup_left_heavy, fixup_right_heavy, fixup,
}

pub ltb-false : (a b : ℕ) → ltb a b ≡ false → b ≤ a
ltb-false a b h = ground arith

pub leb-false : (a b : ℕ) → leb a b ≡ false → b + 1 ≤ a
leb-false a b h = ground arith

module _ {V : Type 0} where
  abbrev pub size : Tree V → ℕ
  size leaf = 0
  size (node h l v r) = size l + size r + 1

  -- Every height is right, and no two brothers differ by more than one.
  abbrev pub IsAvl : Tree V → Type 0
  IsAvl leaf = Unit
  IsAvl (node h l v r) =
      IsAvl l
      × IsAvl r
      × (h ≡ max (height l) (height r) + 1)
      × (height l ≤ height r + 1)
      × (height r ≤ height l + 1)

  -- The path fits around a tree of height `k`.
  abbrev pub Fits : ℕ → List (Step V) → Type 0
  Fits k [] = Unit
  Fits k (left_of h v r ∷ p) =
      IsAvl r × (h ≡ max k (height r) + 1) × (k ≤ height r + 1) × (height r ≤ k + 1) × Fits h p
  Fits k (right_of l h v ∷ p) =
      IsAvl l × (h ≡ max (height l) k + 1) × (height l ≤ k + 1) × (k ≤ height l + 1) × Fits h p

  -- What rebalancing at a node makes of it: `top` is the height that the node was given.
  abbrev Rebalanced : ℕ → Tree V → Type 0
  Rebalanced top t = IsAvl t × (height t ≤ top) × (top ≤ height t + 1)

  -- a node with its height computed
  abbrev pub joined : Tree V → V → Tree V → Tree V
  joined l v r = node (max (height l) (height r) + 1) l v r

  fixup_left_heavy-straight :
      (h lh : ℕ) (ll lr : Tree V) (lv v : V) (r : Tree V)
      → ltb (height ll) (height lr) ≡ false
      → fixup_left_heavy (node h (node lh ll lv lr) v r) ≡ joined ll lv (joined lr v r)
  unfolding fixup_left_heavy
  fixup_left_heavy-straight h lh ll lr lv v r e = rw (e, fixup_left_heavy) refl

  fixup_left_heavy-bent :
      (h lh mh : ℕ) (ll ml mr : Tree V) (lv mv v : V) (r : Tree V)
      → ltb (height ll) mh ≡ true
      → fixup_left_heavy (node h (node lh ll lv (node mh ml mv mr)) v r)
        ≡ joined (joined ll lv ml) mv (joined mr v r)
  unfolding fixup_left_heavy
  fixup_left_heavy-bent h lh mh ll ml mr lv mv v r e = rw (e, fixup_left_heavy) refl

  fixup_right_heavy-straight :
      (h rh : ℕ) (l rl rr : Tree V) (v rv : V)
      → ltb (height rr) (height rl) ≡ false
      → fixup_right_heavy (node h l v (node rh rl rv rr)) ≡ joined (joined l v rl) rv rr
  unfolding fixup_right_heavy
  fixup_right_heavy-straight h rh l rl rr v rv e = rw (e, fixup_right_heavy) refl

  fixup_right_heavy-bent :
      (h rh mh : ℕ) (l ml mr rr : Tree V) (v mv rv : V)
      → ltb (height rr) mh ≡ true
      → fixup_right_heavy (node h l v (node rh (node mh ml mv mr) rv rr))
        ≡ joined (joined l v ml) mv (joined mr rv rr)
  unfolding fixup_right_heavy
  fixup_right_heavy-bent h rh mh l ml mr rr v mv rv e = rw (e, fixup_right_heavy) refl

  joined-IsAvl :
      (l : Tree V) (v : V) (r : Tree V)
      → IsAvl l
      → IsAvl r
      → height l ≤ height r + 1
      → height r ≤ height l + 1
      → IsAvl (joined l v r)
  joined-IsAvl l v r al ar dl dr = (al, ar, refl, dl, dr)

  fixup_left_heavy-IsAvl :
      (h : ℕ) (l : Tree V) (v : V) (r : Tree V)
      → IsAvl l
      → IsAvl r
      → height l ≡ height r + 2
      → Rebalanced (height l + 1) (fixup_left_heavy (node h l v r))
  fixup_left_heavy-IsAvl h leaf v r al ar e = absurd (omega arith)
  fixup_left_heavy-IsAvl h (node lh ll lv leaf) v r (all, alr, eh, d, d') ar e =
      let right = joined-IsAvl leaf v r tt ar (omega arith) (omega arith) in
      rw (fixup_left_heavy-straight h lh ll leaf lv v r (ground arith)) (
        (joined-IsAvl ll lv (joined leaf v r) all right (omega arith) (omega arith)),
        omega arith,
        omega arith,
      )
  fixup_left_heavy-IsAvl h (node lh ll lv (node mh ml mv mr)) v r
        (all, (aml, amr, em, c, c'), eh, d, d') ar e =
      elim (Bool-cases (ltb (height ll) mh)) [
        | inl bent ↦
            let deep = ltb→lt (height ll) mh bent in
            let left = joined-IsAvl ll lv ml all aml (omega arith) (omega arith) in
            let right = joined-IsAvl mr v r amr ar (omega arith) (omega arith) in
            rw (fixup_left_heavy-bent h lh mh ll ml mr lv mv v r bent) (
              joined-IsAvl (joined ll lv ml) mv (joined mr v r) left right (omega arith)
                  (omega arith),
              omega arith,
              omega arith,
            )
        | inr straight ↦
            let flat = ltb-false (height ll) mh straight in
            let middle = node mh ml mv mr in
            let right =
              joined-IsAvl middle v r (aml, amr, em, c, c') ar (omega arith) (omega arith) in
            rw (fixup_left_heavy-straight h lh ll middle lv v r straight) (
              joined-IsAvl ll lv (joined middle v r) all right (omega arith) (omega arith),
              omega arith,
              omega arith,
            )
      ]

  fixup_right_heavy-IsAvl :
      (h : ℕ) (l : Tree V) (v : V) (r : Tree V)
      → IsAvl l
      → IsAvl r
      → height r ≡ height l + 2
      → Rebalanced (height r + 1) (fixup_right_heavy (node h l v r))
  fixup_right_heavy-IsAvl h l v leaf al ar e = absurd (omega arith)
  fixup_right_heavy-IsAvl h l v (node rh leaf rv rr) al (arl, arr, eh, d, d') e =
      let left = joined-IsAvl l v leaf al tt (omega arith) (omega arith) in
      rw (fixup_right_heavy-straight h rh l leaf rr v rv (ground arith)) (
        (joined-IsAvl (joined l v leaf) rv rr left arr (omega arith) (omega arith)),
        omega arith,
        omega arith,
      )
  fixup_right_heavy-IsAvl h l v (node rh (node mh ml mv mr) rv rr) al
        ((aml, amr, em, c, c'), arr, eh, d, d') e =
      elim (Bool-cases (ltb (height rr) mh)) [
        | inl bent ↦
            let deep = ltb→lt (height rr) mh bent in
            let left = joined-IsAvl l v ml al aml (omega arith) (omega arith) in
            let right = joined-IsAvl mr rv rr amr arr (omega arith) (omega arith) in
            rw (fixup_right_heavy-bent h rh mh l ml mr rr v mv rv bent) (
              joined-IsAvl (joined l v ml) mv (joined mr rv rr) left right (omega arith)
                  (omega arith),
              omega arith,
              omega arith,
            )
        | inr straight ↦
            let flat = ltb-false (height rr) mh straight in
            let middle = node mh ml mv mr in
            let left =
              joined-IsAvl l v middle al (aml, amr, em, c, c') (omega arith) (omega arith) in
            rw (fixup_right_heavy-straight h rh l middle rr v rv straight) (
              joined-IsAvl (joined l v middle) rv rr left arr (omega arith) (omega arith),
              omega arith,
              omega arith,
            )
      ]

  -- Rebalancing a node whose children are right and differ by at most two.
  pub refit-IsAvl :
      (l : Tree V) (v : V) (r : Tree V)
      → IsAvl l
      → IsAvl r
      → height l ≤ height r + 2
      → height r ≤ height l + 2
      → Rebalanced (max (height l) (height r) + 1) (fixup (joined l v r))
  unfolding fixup
  refit-IsAvl l v r al ar dl dr = elim (Bool-cases (leb (height r + 2) (height l))) [
    | inl heavy ↦
        let e : height l ≡ height r + 2 = omega (arith, leb→le (height r + 2) (height l) heavy) in
        let (done, a, b) = fixup_left_heavy-IsAvl (max (height l) (height r) + 1) l v r al ar e in
        rw (heavy, fixup) (done, omega arith, omega arith)
    | inr light ↦ elim (Bool-cases (leb (height l + 2) (height r))) [
      | inl heavy ↦
          let e : height r ≡ height l + 2 = omega (arith, leb→le (height l + 2) (height r) heavy) in
          let (done, a, b) =
            fixup_right_heavy-IsAvl (max (height l) (height r) + 1) l v r al ar e in
          rw (light, fixup) (rw (heavy, fixup) (done, omega arith, omega arith))
      | inr level ↦
          let a = leb-false (height r + 2) (height l) light in
          let b = leb-false (height l + 2) (height r) level in
          rw (light, fixup)
            (rw (level, fixup)
              (joined-IsAvl l v r al ar (omega arith) (omega arith), omega arith, omega arith))
    ]
  ]

  -- Nothing is done at a node whose children differ by one at most.
  pub refit_level :
      (l : Tree V) (v : V) (r : Tree V)
      → height l ≤ height r + 1
      → height r ≤ height l + 1
      → fixup (joined l v r) ≡ joined l v r
  unfolding fixup
  refit_level l v r dl dr =
      let light : leb (height r + 2) (height l) ≡ false = ground arith in
      let level : leb (height l + 2) (height r) ≡ false = ground arith in
      rw (light, fixup) (rw (level, fixup) refl)
