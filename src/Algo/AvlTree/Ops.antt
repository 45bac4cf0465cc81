-- ===== src/Algo/AvlTree/Ops.antt =====
-- `AvlTreeBase` and `AvlTree` of mmkv/algo/internal/avl_tree_base.h, avl_tree_base_impl.h and
-- avl_tree.h: searching, inserting, pushing and taking out. A node outside a tree is its height and
-- its value.
use mmkvc.Prelude.{
  ℕ, ◌+◌, ◌-◌, ◌%◌, ◌^◌, Bool, true, false, if◌then◌else◌, ltb, List, [], ◌∷◌, Option, none, some,
}
use Prim.Native.Nat.Ordering.{lt, eq, gt}
use mmkvc.Algo.Ordered.{Ordered}
use mmkvc.Algo.AvlTree.Node.{
  Tree, leaf, node, Step, left_of, right_of, insert_fixup, erase_node, left_height, right_height,
}

pub record AvlTree (V : Type 0) : Type 0 where
  pub root : Tree V
  pub count : ℕ

-- The outcome of an insertion: the entry is in, an entry with its key is there, or a null pointer is
-- dereferenced.
pub data Pushed (V : Type 0) : Type 0 where
  pushed null_dereference : Pushed V
  duplicate : V → Pushed V

-- `_IncreaseCount()` and `_DecreaseCount()` on a `size_t`
abbrev pub increase_count : ℕ → ℕ
increase_count n = (n + 1) % 2 ^ 64

abbrev pub decrease_count : ℕ → ℕ
decrease_count n = (n + 2 ^ 64 - 1) % 2 ^ 64

module _ {V : Type 0} ⦃o : Ordered V⦄ where
  open o use {Key, get_key, cmp}

  -- the walk of `FindNode` and of the insertions: to the node of a key, or to the empty slot
  unfoldable pub locate : Key → Tree V → List (Step V) → Tree V × List (Step V)
  locate k leaf p = (leaf, p)
  locate k (node h l v r) p = elim (cmp (get_key v) k) [
    | gt ↦ locate k l (left_of h v r ∷ p)
    | lt ↦ locate k r (right_of l h v ∷ p)
    | eq ↦ (node h l v r, p)
  ]

  abbrev pub value_of : Tree V → Option V
  value_of leaf = none
  value_of (node h l v r) = some v

  -- `Find(key)`
  unfoldable pub find : Key → AvlTree V → Option V
  unfolding locate
  find k a = value_of (locate k a.root []).0

  -- the loops of `LowerBound(key)` and `UpperBound(key)`, with `track`
  unfoldable pub lower_bound_from : Key → Tree V → Option V → Option V
  lower_bound_from k leaf track = track
  lower_bound_from k (node h l v r) track = elim (cmp (get_key v) k) [
    | lt ↦ lower_bound_from k r track
    | eq ↦ lower_bound_from k l (some v)
    | gt ↦ lower_bound_from k l (some v)
  ]

  unfoldable pub lower_bound : Key → AvlTree V → Option V
  unfolding lower_bound_from
  lower_bound k a = lower_bound_from k a.root none

  unfoldable pub upper_bound_from : Key → Tree V → Option V → Option V
  upper_bound_from k leaf track = track
  upper_bound_from k (node h l v r) track = elim (cmp (get_key v) k) [
    | lt ↦ upper_bound_from k r track
    | eq ↦ upper_bound_from k r track
    | gt ↦ upper_bound_from k l (some v)
  ]

  unfoldable pub upper_bound : Key → AvlTree V → Option V
  unfolding upper_bound_from
  upper_bound k a = upper_bound_from k a.root none

  -- a new node at the slot that the walk ended at: `_LinkSlot`, `_InsertFixup` and the count
  unfoldable pub attach_at : ℕ → V → AvlTree V → Tree V → List (Step V) → Pushed V × AvlTree V
  unfolding insert_fixup
  attach_at h v a leaf p = (
    pushed,
    record { root = insert_fixup (node h leaf v leaf) p; count = increase_count a.count },
  )
  attach_at h v a (node oh ol old or) p = (duplicate old, a)

  -- the walk to a slot, and what follows it
  unfoldable pub attach : ℕ → V → AvlTree V → Pushed V × AvlTree V
  unfolding locate attach_at
  attach h v a = let (place, p) = locate (get_key v) a.root [] in attach_at h v a place p

  -- the branches of an insertion on the root; `alone` is what a duplicate of a root without children
  -- comes to. Below such a root neither its height nor the count changes.
  unfoldable pub insert_at : (V → Pushed V) → ℕ → V → Tree V → ℕ → Pushed V × AvlTree V
  unfolding attach
  insert_at alone h v leaf count =
      (pushed, record { root = node h leaf v leaf; count = increase_count count })
  insert_at alone h v (node rh leaf rv leaf) count = elim (cmp (get_key v) (get_key rv)) [
    | gt ↦ (pushed, record { root = node rh leaf rv (node h leaf v leaf); count = count })
    | lt ↦ (pushed, record { root = node rh (node h leaf v leaf) rv leaf; count = count })
    | eq ↦ (alone rv, record { root = node rh leaf rv leaf; count = count })
  ]
  insert_at alone h v (node rh (node lh ll lv lr) rv r) count =
      attach h v (record { root = node rh (node lh ll lv lr) rv r; count = count })
  insert_at alone h v (node rh leaf rv (node h' l' v' r')) count =
      attach h v (record { root = node rh leaf rv (node h' l' v' r'); count = count })

  -- `_InsertWithDuplicate(value, dup)`: a new node has height 1
  unfoldable pub insert : V → AvlTree V → Pushed V × AvlTree V
  unfolding insert_at
  insert v a = insert_at duplicate 1 v a.root a.count

  -- `PushWithDuplicate(node, duplicate)`; `wanted` says whether `duplicate` is not null
  unfoldable pub push_with_duplicate : Bool → ℕ → V → AvlTree V → Pushed V × AvlTree V
  unfolding insert_at
  push_with_duplicate wanted h v a =
      insert_at (λ old. if wanted then null_dereference else duplicate old) h v a.root a.count

  -- the walk of `PushEq`: past an equal key to the side that is less high
  unfoldable pub slot_eq : Key → Tree V → List (Step V) → List (Step V)
  slot_eq k leaf p = p
  slot_eq k (node h l v r) p =
      let to_left = slot_eq k l (left_of h v r ∷ p) in
      let to_right = slot_eq k r (right_of l h v ∷ p) in
      elim (cmp (get_key v) k) [
        | gt ↦ to_left
        | lt ↦ to_right
        | eq ↦
            if ltb (left_height (node h l v r)) (right_height (node h l v r))
            then to_left
            else to_right
      ]

  -- `PushEq(node)`
  unfoldable pub push_eq : ℕ → V → AvlTree V → AvlTree V
  unfolding slot_eq insert_fixup
  push_eq h v a = record {
    root = insert_fixup (node h leaf v leaf) (slot_eq (get_key v) a.root []);
    count = increase_count a.count;
  }

  -- `Extract(key)`: the node, which keeps its height
  unfoldable pub extract_at : AvlTree V → Tree V → List (Step V) → Option (ℕ × V) × AvlTree V
  unfolding erase_node
  extract_at a leaf p = (none, a)
  extract_at a (node h l v r) p =
      (some (h, v), record { root = erase_node (node h l v r) p; count = decrease_count a.count })

  unfoldable pub extract : Key → AvlTree V → Option (ℕ × V) × AvlTree V
  unfolding locate extract_at
  extract k a = let (place, p) = locate k a.root [] in extract_at a place p

  -- `Erase(key)`
  unfoldable pub erase : Key → AvlTree V → Bool × AvlTree V
  unfolding extract
  erase k a = let (found, left) = extract k a in (elim found [ none ↦ false | some x ↦ true ], left)
