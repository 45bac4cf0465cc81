-- ===== src/Algo/AvlTree/Unlink.antt =====
-- That taking a node out of an AVL tree, `_Erase` of mmkv/algo/internal/avl_util.h, leaves an AVL tree.
use mmkvc.Prelude.{ℕ, ◌+◌, ◌≤◌, ◌≡◌, refl, sym, subst, List, [], ◌∷◌, ◌++◌, arith}
use Prim.Native.Nat.{max}
use mmkvc.Algo.AvlTree.Node.{
  Tree, leaf, node, Step, left_of, right_of, height, take_min, erase_node,
}
use mmkvc.Algo.AvlTree.Balance.{IsAvl, Fits}
use mmkvc.Algo.AvlTree.Retrace.{erase_fixup-IsAvl}

module _ {V : Type 0} where
  -- The path fits around a tree of height `k`, and is `top` high at its end.
  abbrev Reaches : ℕ → List (Step V) → ℕ → Type 0
  Reaches k [] top = k ≡ top
  Reaches k (left_of h v r ∷ p) top =
      IsAvl r
      × (h ≡ max k (height r) + 1)
      × (k ≤ height r + 1)
      × (height r ≤ k + 1)
      × Reaches h p top
  Reaches k (right_of l h v ∷ p) top =
      IsAvl l
      × (h ≡ max (height l) k + 1)
      × (height l ≤ k + 1)
      × (k ≤ height l + 1)
      × Reaches h p top

  Fits-append : (k top : ℕ) (p q : List (Step V)) → Reaches k p top → Fits top q → Fits k (p ++ q)
  Fits-append k top [] q e fits = subst (λ i. Fits i q) (sym e) fits
  Fits-append k top (left_of h v r ∷ p) q (a, e, d, d', up) fits =
      (a, e, d, d', Fits-append h top p q up fits)
  Fits-append k top (right_of l h v ∷ p) q (a, e, d, d', up) fits =
      (a, e, d, d', Fits-append h top p q up fits)

  -- The minimum has no left child, so its height is one more than that of the right one.
  take_min-Reaches :
      (top h : ℕ) (l : Tree V) (v : V) (r : Tree V) (p : List (Step V))
      → IsAvl (node h l v r)
      → Reaches h p top
      → let (least, child, q) = take_min l v r h p in IsAvl child × Reaches (height child + 1) q top
  unfolding take_min
  take_min-Reaches top h leaf v r p (al, ar, e, d, d') up =
      let tight : h ≡ height r + 1 = omega arith in (ar, subst (λ k. Reaches k p top) tight up)
  take_min-Reaches top h (node lh ll lv lr) v r p (al, ar, e, d, d') up =
      take_min-Reaches top lh ll lv lr (left_of h v r ∷ p) al (ar, e, d, d', up)

  pub erase_node-IsAvl :
      (h : ℕ) (l : Tree V) (v : V) (r : Tree V) (p : List (Step V))
      → IsAvl (node h l v r)
      → Fits h p
      → IsAvl (erase_node (node h l v r) p)
  unfolding erase_node
  erase_node-IsAvl h (node lh ll lv lr) v (node rh rl rv rr) p (al, ar, e, d, d') fits =
      let (least, child, inner) = take_min rl rv rr rh [] in
      let (ac, up) = take_min-Reaches rh rh rl rv rr [] ar refl in
      let path = inner ++ right_of (node lh ll lv lr) h least ∷ p in
      let around_child : Fits (height child + 1) path =
        Fits-append (height child + 1) rh inner (right_of (node lh ll lv lr) h least ∷ p) up
          (al, e, d, d', fits) in
      erase_fixup-IsAvl (height child + 1) child path ac around_child (omega arith) (omega arith)
  erase_node-IsAvl h (node lh ll lv lr) v leaf p (al, ar, e, d, d') fits =
      erase_fixup-IsAvl h (node lh ll lv lr) p al fits (omega arith) (omega arith)
  erase_node-IsAvl h leaf v r p (al, ar, e, d, d') fits =
      erase_fixup-IsAvl h r p ar fits (omega arith) (omega arith)
