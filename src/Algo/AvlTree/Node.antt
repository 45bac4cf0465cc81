-- ===== src/Algo/AvlTree/Node.antt =====
-- Nodes and rebalancing, of mmkv/algo/internal/avl_node.h and avl_util.h. The parent pointers from a
-- node up to the root are the path to it: a list of steps, the nearest first, each with what hangs
-- on the other side. Heights are the `height` fields, which need not be right.
use mmkvc.Prelude.{ℕ, ◌+◌, Bool, if◌then◌else◌, ltb, leb, ◌==◌, ◌&&◌, List, [], ◌∷◌, ◌++◌}
use Prim.Native.Nat.{max}

-- `AvlNode<T>`, a null pointer being a `leaf`
pub data Tree (V : Type 0) : Type 0 where
  leaf : Tree V
  node : ℕ → Tree V → V → Tree V → Tree V

-- a node above the focus, with its height, its value and its other child
pub data Step (V : Type 0) : Type 0 where
  left_of : ℕ → V → Tree V → Step V
  right_of : Tree V → ℕ → V → Step V

module _ {V : Type 0} where
  abbrev pub height : Tree V → ℕ
  height leaf = 0
  height (node h l v r) = h

  -- `LEFT_HEIGHT(node)` and `RIGHT_HEIGHT(node)`
  abbrev pub left_height : Tree V → ℕ
  left_height leaf = 0
  left_height (node h l v r) = height l

  abbrev pub right_height : Tree V → ℕ
  right_height leaf = 0
  right_height (node h l v r) = height r

  -- a child put back under its parent, and under all nodes up to the root
  abbrev pub plug : Step V → Tree V → Tree V
  plug (left_of h v r) t = node h t v r
  plug (right_of l h v) t = node h l v t

  unfoldable pub rebuild : Tree V → List (Step V) → Tree V
  rebuild t [] = t
  rebuild t (s ∷ p) = rebuild (plug s t) p

  -- `_RotateLeft(node)`; its assertion is that there is a right child
  unfoldable pub rotate_left : Tree V → Tree V
  rotate_left (node h l v (node rh rl rv rr)) = node rh (node h l v rl) rv rr
  rotate_left t = t

  -- `_RotateRight(node)`; its assertion is that there is a left child
  unfoldable pub rotate_right : Tree V → Tree V
  rotate_right (node h (node lh ll lv lr) v r) = node lh ll lv (node h lr v r)
  rotate_right t = t

  abbrev pub computed_height : Tree V → ℕ
  computed_height t = max (left_height t) (right_height t) + 1

  unfoldable pub set_height : ℕ → Tree V → Tree V
  set_height k leaf = leaf
  set_height k (node h l v r) = node k l v r

  -- `_UpdateHeight(node)`
  unfoldable pub update_height : Tree V → Tree V
  unfolding set_height
  update_height t = set_height (computed_height t) t

  -- what is done to one child
  unfoldable pub on_left : (Tree V → Tree V) → Tree V → Tree V
  on_left f leaf = leaf
  on_left f (node h l v r) = node h (f l) v r

  unfoldable pub on_right : (Tree V → Tree V) → Tree V → Tree V
  on_right f leaf = leaf
  on_right f (node h l v r) = node h l v (f r)

  -- the inner rotation of `_FixupLeftHeavy`
  unfoldable pub straighten_left : Tree V → Tree V
  unfolding rotate_left update_height on_left
  straighten_left t =
      if ltb (left_height t) (right_height t)
      then update_height (on_left update_height (rotate_left t))
      else t

  unfoldable pub straighten_right : Tree V → Tree V
  unfolding rotate_right update_height on_right
  straighten_right t =
      if ltb (right_height t) (left_height t)
      then update_height (on_right update_height (rotate_right t))
      else t

  -- `_FixupLeftHeavy(node)` and `_FixupRigtHeavy(node)`
  unfoldable pub fixup_left_heavy : Tree V → Tree V
  unfolding straighten_left rotate_right update_height on_left on_right
  fixup_left_heavy t =
      update_height (on_right update_height (rotate_right (on_left straighten_left t)))

  unfoldable pub fixup_right_heavy : Tree V → Tree V
  unfolding straighten_right rotate_left update_height on_left on_right
  fixup_right_heavy t =
      update_height (on_left update_height (rotate_left (on_right straighten_right t)))

  -- the two branches on `bf`, once the height is set
  unfoldable pub fixup : Tree V → Tree V
  unfolding fixup_left_heavy fixup_right_heavy
  fixup t =
      if leb (right_height t + 2) (left_height t)
      then fixup_left_heavy t
      else if leb (left_height t + 2) (right_height t)
      then fixup_right_heavy t
      else t

  -- `_InsertFixup(parent)`, for the parent of the child `t`
  unfoldable pub insert_fixup : Tree V → List (Step V) → Tree V
  unfolding rebuild fixup set_height
  insert_fixup t [] = t
  insert_fixup t (s ∷ p) =
      let n = plug s t in
      if height n == computed_height n
      then rebuild n p
      else insert_fixup (fixup (set_height (computed_height n) n)) p

  -- `|bf| <= 1`
  abbrev pub is_level : Tree V → Bool
  is_level t = leb (left_height t) (right_height t + 1) && leb (right_height t) (left_height t + 1)

  -- `_EraseFixup(parent)`, for the parent of the child `t`
  unfoldable pub erase_fixup : Tree V → List (Step V) → Tree V
  unfolding rebuild fixup set_height
  erase_fixup t [] = t
  erase_fixup t (s ∷ p) =
      let n = plug s t in
      if (height n == computed_height n) && is_level n
      then rebuild n p
      else erase_fixup (fixup (set_height (computed_height n) n)) p

  -- the minimum of a tree that is given by its root: its value, its right child, and the steps down
  unfoldable pub take_min : Tree V → V → Tree V → ℕ → List (Step V) → V × Tree V × List (Step V)
  take_min leaf v r h p = (v, r, p)
  take_min (node lh ll lv lr) v r h p = take_min ll lv lr lh (left_of h v r ∷ p)

  -- `_Erase(node)` at the end of a path. The minimum of the right subtree takes the node's place and
  -- height; the fixup starts at what was the parent of the minimum, or at the minimum itself.
  unfoldable pub erase_node : Tree V → List (Step V) → Tree V
  unfolding take_min erase_fixup
  erase_node leaf p = rebuild leaf p
  erase_node (node h (node lh ll lv lr) v (node rh rl rv rr)) p =
      let (least, child, inner) = take_min rl rv rr rh [] in
      erase_fixup child (inner ++ right_of (node lh ll lv lr) h least ∷ p)
  erase_node (node h (node lh ll lv lr) v leaf) p = erase_fixup (node lh ll lv lr) p
  erase_node (node h leaf v r) p = erase_fixup r p
