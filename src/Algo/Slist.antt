-- ===== src/Algo/Slist.antt =====
-- `Slist` of mmkv/algo/slist.h: the values of the nodes, from the header on. A node that is taken off
-- the list has no successor, which `ConstructNode` and every extraction see to.
pub mod Laws
use mmkvc.Prelude.{ℕ, zero, suc, Bool, if◌then◌else◌, List, [], ◌∷◌, Option, none, some}

module _ {ℓ} {T : Type ℓ} where
  -- `GetSize()`
  unfoldable pub get_size : List T → ℕ
  get_size [] = 0
  get_size (x ∷ xs) = suc (get_size xs)

  -- `empty()`
  unfoldable pub is_empty : List T → Bool
  is_empty [] = Bool.true
  is_empty (x ∷ xs) = Bool.false

  -- `EmplaceFrontNode(node)`, and `EmplaceFront` with a new node
  abbrev pub emplace_front_node : T → List T → List T
  emplace_front_node node s = node ∷ s

  -- `SearchIf(pred)`: the node, or the end
  unfoldable pub search_if : (T → Bool) → List T → Option T
  search_if pred [] = none
  search_if pred (x ∷ xs) = if pred x then some x else search_if pred xs

  -- `ExtractFront()`; `none` where the assertion fails
  unfoldable pub extract_front : List T → Option (T × List T)
  extract_front [] = none
  extract_front (x ∷ xs) = some (x, xs)

  unfoldable pub keep_front : T → Option T × List T → Option T × List T
  keep_front x (found, rest) = (found, x ∷ rest)

  -- `ExtractNodeIf(pred)`: the first node that passes, and the list without it
  unfoldable pub extract_node_if : (T → Bool) → List T → Option T × List T
  unfolding keep_front
  extract_node_if pred [] = (none, [])
  extract_node_if pred (x ∷ xs) =
      if pred x then (some x, xs) else keep_front x (extract_node_if pred xs)

  -- `EraseIf(pred)`: how many were erased
  unfoldable pub erase_if : (T → Bool) → List T → ℕ × List T
  unfolding extract_node_if
  erase_if pred s =
      let (found, rest) = extract_node_if pred s in (elim found [ none ↦ 0 | some x ↦ 1 ], rest)

  -- the loop of the copy constructor, and its test
  unfoldable pub copy : List T → List T
  copy [] = []
  copy (x ∷ xs) = x ∷ copy xs

  -- the loops of the copy assignment, from a node of this list and a node of the other one: values
  -- are overwritten, then nodes are inserted or erased
  unfoldable pub overwrite : T → List T → T → List T → List T
  unfolding copy
  overwrite x [] y ys = y ∷ copy ys
  overwrite x (x' ∷ xs) y [] = y ∷ []
  overwrite x (x' ∷ xs) y (y' ∷ ys) = y ∷ overwrite x' xs y' ys

  -- `operator=` from another object; `none` where a null pointer is dereferenced
  unfoldable pub assign : List T → List T → Option (List T)
  unfolding overwrite
  assign [] [] = none
  assign [] (y ∷ ys) = some (overwrite y ys y ys)
  assign (x ∷ xs) [] = none
  assign (x ∷ xs) (y ∷ ys) = some (overwrite x xs y ys)
