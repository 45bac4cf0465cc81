-- ===== src/Algo/AvlTree/Balanced.antt =====
-- The shape that every insertion and extraction keeps: an AVL tree, or a root whose height has not been
-- brought up to date since it got its first child.
use mmkvc.Prelude.{ℕ, ◌≡◌, ◌≢◌, refl, ◌⊎◌, inl, inr, List, [], ◌∷◌, arith}
use Prim.Native.Nat.Ordering.{eq}
use mmkvc.Algo.Ordered.{Ordered}
use mmkvc.Algo.AvlTree.Node.{
  Tree, leaf, node, Step, left_of, right_of, height, insert_fixup, erase_node, erase_fixup,
  take_min, fixup, rebuild, set_height, fixup_left_heavy, fixup_right_heavy, straighten_left,
  straighten_right, rotate_left, rotate_right, on_left, on_right, update_height,
}
use mmkvc.Algo.AvlTree.Balance.{IsAvl, Fits, size}
use mmkvc.Algo.AvlTree.Retrace.{insert_fixup-IsAvl}
use mmkvc.Algo.AvlTree.Unlink.{erase_node-IsAvl}
use mmkvc.Algo.AvlTree.Locate.{Ordering-cases}
use mmkvc.Algo.AvlTree.Ops.{
  AvlTree, Pushed, pushed, duplicate, locate, attach, attach_at, extract_at, insert_at, insert,
  extract,
}

-- A root that is said to be one high and has one child.
pub data IsYoung {V : Type 0} : Tree V → Type 0 where
  young_left : (w v : V) → IsYoung (node 1 (node 1 leaf w leaf) v leaf)
  young_right : (v w : V) → IsYoung (node 1 leaf v (node 1 leaf w leaf))

abbrev pub IsBalanced : {V : Type 0} → Tree V → Type 0
IsBalanced t = IsAvl t ⊎ IsYoung t

module _ {V : Type 0} ⦃o : Ordered V⦄ where
  open o use {Key, get_key, cmp}

  locate-Fits :
      (k : Key) (t : Tree V) (p : List (Step V))
      → IsAvl t
      → Fits (height t) p
      → IsAvl (locate k t p).0 × Fits (height (locate k t p).0) (locate k t p).1
  unfolding locate
  locate-Fits k leaf p a fits = (a, fits)
  locate-Fits k (node h l v r) p (al, ar, e, d, d') fits =
      elim (Ordering-cases (cmp (get_key v) k)) [
        | inl below ↦
            rw (below, locate) (locate-Fits k r (right_of l h v ∷ p) ar (al, e, d, d', fits))
        | inr (inl equal) ↦ rw (equal, locate) ((al, ar, e, d, d'), fits)
        | inr (inr above) ↦
            rw (above, locate) (locate-Fits k l (left_of h v r ∷ p) al (ar, e, d, d', fits))
      ]

  attach_at-IsAvl :
      (e : V) (a : AvlTree V) (place : Tree V) (p : List (Step V))
      → IsAvl a.root
      → Fits (height place) p
      → IsAvl (attach_at 1 e a place p).1.root
  unfolding attach_at
  attach_at-IsAvl e a leaf p whole fits =
      insert_fixup-IsAvl 0 (node 1 leaf e leaf) p (tt, tt, refl, omega arith, omega arith) fits
        (omega arith) (omega arith)
  attach_at-IsAvl e a (node oh ol old or) p whole fits = whole

  attach-IsAvl : (e : V) (a : AvlTree V) → IsAvl a.root → IsAvl (attach 1 e a).1.root
  unfolding attach
  attach-IsAvl e a whole =
      let (place, p) = locate (get_key e) a.root [] in
      attach_at-IsAvl e a place p whole (locate-Fits (get_key e) a.root [] whole tt).1

  small : (v : V) → IsAvl (node 1 leaf v leaf)
  small v = (tt, tt, refl, omega arith, omega arith)

  three : (a v b : V) → IsAvl (node 2 (node 1 leaf a leaf) v (node 1 leaf b leaf))
  three a v b = (small a, small b, refl, omega arith, omega arith)

  -- An insertion below a young root brings its height up to date.
  attach_young :
      (e : V) (root : Tree V) (count : ℕ)
      → IsYoung root
      → IsBalanced (attach 1 e (record { root = root; count = count })).1.root
  unfolding attach attach_at locate insert_fixup rebuild fixup set_height fixup_left_heavy
      fixup_right_heavy straighten_left straighten_right rotate_left rotate_right on_left on_right
      update_height
  attach_young e _ count (young_left w v) = elim (Ordering-cases (cmp (get_key v) (get_key e))) [
    | inl below ↦ rw (below, locate) (inl (three w v e))
    | inr (inl equal) ↦ rw (equal, locate) (inr (young_left w v))
    | inr (inr above) ↦ elim (Ordering-cases (cmp (get_key w) (get_key e))) [
      | inl below ↦ rw (above, locate) (rw (below, locate) (inl (three w e v)))
      | inr (inl equal) ↦ rw (above, locate) (rw (equal, locate) (inr (young_left w v)))
      | inr (inr above') ↦ rw (above, locate) (rw (above', locate) (inl (three e w v)))
    ]
  ]
  attach_young e _ count (young_right v w) = elim (Ordering-cases (cmp (get_key v) (get_key e))) [
    | inl below ↦ elim (Ordering-cases (cmp (get_key w) (get_key e))) [
      | inl below' ↦ rw (below, locate) (rw (below', locate) (inl (three v w e)))
      | inr (inl equal) ↦ rw (below, locate) (rw (equal, locate) (inr (young_right v w)))
      | inr (inr above) ↦ rw (below, locate) (rw (above, locate) (inl (three v e w)))
    ]
    | inr (inl equal) ↦ rw (equal, locate) (inr (young_right v w))
    | inr (inr above) ↦ rw (above, locate) (inl (three e v w))
  ]

  attach-IsBalanced :
      (e : V) (root : Tree V) (count : ℕ)
      → IsBalanced root
      → IsBalanced (attach 1 e (record { root = root; count = count })).1.root
  attach-IsBalanced e root count (inl whole) =
      inl (attach-IsAvl e (record { root = root; count = count }) whole)
  attach-IsBalanced e root count (inr young) = attach_young e root count young

  lone_height : (h : ℕ) (v : V) → IsBalanced (node h leaf v leaf) → h ≡ 1
  lone_height h v (inl (al, ar, e, low, high)) = e
  lone_height h v (inr y) = elim y [ ]

  insert_at-IsBalanced :
      (f : V → Pushed V) (e : V) (root : Tree V) (count : ℕ)
      → IsBalanced root
      → IsBalanced (insert_at f 1 e root count).1.root
  unfolding insert_at
  insert_at-IsBalanced f e leaf count b = inl (small e)
  insert_at-IsBalanced f e (node h leaf v leaf) count b =
      let one : h ≡ 1 = lone_height h v b in
      elim (Ordering-cases (cmp (get_key e) (get_key v))) [
        | inl less ↦ rw (less, insert_at) (rw one (inr (young_left e v)))
        | inr (inl equal) ↦ rw (equal, insert_at) b
        | inr (inr more) ↦ rw (more, insert_at) (rw one (inr (young_right v e)))
      ]
  insert_at-IsBalanced f e (node h (node lh ll lv lr) v r) count b =
      attach-IsBalanced e (node h (node lh ll lv lr) v r) count b
  insert_at-IsBalanced f e (node h leaf v (node h' l' v' r')) count b =
      attach-IsBalanced e (node h leaf v (node h' l' v' r')) count b

  -- `insert` keeps the shape of a tree: an AVL tree (every height is right, and brothers differ by
  -- one at most), or a root whose height still says one after it got its first child.
  pub insert-IsBalanced :
      (e : V) (a : AvlTree V) → IsBalanced a.root → IsBalanced (insert e a).1.root
  unfolding insert
  insert-IsBalanced e a b = insert_at-IsBalanced duplicate e a.root a.count b

  extract_at-IsAvl :
      (a : AvlTree V) (place : Tree V) (p : List (Step V))
      → IsAvl a.root
      → IsAvl place
      → Fits (height place) p
      → IsAvl (extract_at a place p).1.root
  unfolding extract_at
  extract_at-IsAvl a leaf p whole part fits = whole
  extract_at-IsAvl a (node h l v r) p whole part fits = erase_node-IsAvl h l v r p part fits

  extract_young :
      (k : Key) (root : Tree V) (count : ℕ)
      → IsYoung root
      → IsBalanced (extract k (record { root = root; count = count })).1.root
  unfolding extract extract_at locate erase_node take_min erase_fixup rebuild
  extract_young k _ count (young_left w v) = elim (Ordering-cases (cmp (get_key v) k)) [
    | inl below ↦ rw (below, locate) (inr (young_left w v))
    | inr (inl equal) ↦ rw (equal, locate) (inl (small w))
    | inr (inr above) ↦ elim (Ordering-cases (cmp (get_key w) k)) [
      | inl below ↦ rw (above, locate) (rw (below, locate) (inr (young_left w v)))
      | inr (inl equal) ↦ rw (above, locate) (rw (equal, locate) (inl (small v)))
      | inr (inr above') ↦ rw (above, locate) (rw (above', locate) (inr (young_left w v)))
    ]
  ]
  extract_young k _ count (young_right v w) = elim (Ordering-cases (cmp (get_key v) k)) [
    | inl below ↦ elim (Ordering-cases (cmp (get_key w) k)) [
      | inl below' ↦ rw (below, locate) (rw (below', locate) (inr (young_right v w)))
      | inr (inl equal) ↦ rw (below, locate) (rw (equal, locate) (inl (small v)))
      | inr (inr above) ↦ rw (below, locate) (rw (above, locate) (inr (young_right v w)))
    ]
    | inr (inl equal) ↦ rw (equal, locate) (inl (small w))
    | inr (inr above) ↦ rw (above, locate) (inr (young_right v w))
  ]

  extract-IsBalanced_from :
      (k : Key) (root : Tree V) (count : ℕ)
      → IsBalanced root
      → IsBalanced (extract k (record { root = root; count = count })).1.root
  unfolding extract
  extract-IsBalanced_from k root count (inl whole) =
      let (place, p) = locate k root [] in
      let (part, fits) = locate-Fits k root [] whole tt in
      inl (extract_at-IsAvl (record { root = root; count = count }) place p whole part fits)
  extract-IsBalanced_from k root count (inr young) = extract_young k root count young

  -- `extract` keeps the same shape of a tree, whichever node it takes out.
  pub extract-IsBalanced :
      (k : Key) (a : AvlTree V) → IsBalanced a.root → IsBalanced (extract k a).1.root
  extract-IsBalanced k a b = extract-IsBalanced_from k a.root a.count b

  -- Inserting an entry with another key into a tree of a single node succeeds and does not count
  -- it: the tree has two nodes and the count that it had.
  pub insert_second :
      (e : V) (h : ℕ) (v : V) (count : ℕ)
      → cmp (get_key e) (get_key v) ≢ eq
      → let out = insert e (record { root = node h leaf v leaf; count = count }) in
        (out.0 ≡ pushed) × (size out.1.root ≡ 2) × (out.1.count ≡ count)
  unfolding insert insert_at
  insert_second e h v count other = elim (Ordering-cases (cmp (get_key e) (get_key v))) [
    | inl less ↦ rw (less, insert_at) (refl, refl, refl)
    | inr (inl equal) ↦ absurd (other equal)
    | inr (inr more) ↦ rw (more, insert_at) (refl, refl, refl)
  ]
