-- ===== src/Algo/Blist/Pushing.antt =====
-- `PushFront` and `PushBack`.
use mmkvc.Prelude.{ℕ, ◌+◌, ◌<◌, ◌≡◌, [], ◌∷◌, ◌++◌, length, none, some}
use mmkvc.Algo.HashTable.{size_mod}
use mmkvc.Algo.Blist.{Blist, push_front, push_back}
use mmkvc.Algo.Blist.Linked.{Nodes, Fresh, Represents, Leaves}
use mmkvc.Algo.Blist.Front.{push_front-Leaves}
use mmkvc.Algo.Blist.Back.{push_back-Leaves}

module _ {T : Type 0} where
  -- `push_front` and `push_back` of a new node, whose address none of the list's nodes has, to a
  -- well linked list of fewer than 2 ^ 64 - 1 nodes, answer 1 and leave a well linked list with
  -- the node in front of the others, and behind them.
  pub push_ends-Leaves :
      (p : ℕ) (v : T) (b : Blist T) (es : Nodes T)
      → Represents b es
      → b.store p ≡ some (record { value = v; prev = none; next = none })
      → Fresh p es
      → length es + 1 < size_mod
      → Leaves ((p, v) ∷ es) (push_front p b) × Leaves (es ++ (p, v) ∷ []) (push_back p b)
  push_ends-Leaves p v b es r created fresh room = (
    push_front-Leaves p v b es r created fresh room,
    push_back-Leaves p v b es r created fresh room,
  )
