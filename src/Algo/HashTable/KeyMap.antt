-- ===== src/Algo/HashTable/KeyMap.antt =====
-- What a hash table stands for: a map from keys to entries, with one clause for each operation.
use mmkvc.Prelude.{if◌then◌else◌, Option, none, some}
use mmkvc.Algo.Keyed.{Keyed}
use mmkvc.Algo.HashTable.{Inserted, inserted, duplicate, has_key}

module _ {T : Type 0} ⦃key : Keyed T⦄ where
  open key use {Key, get_key, equal_key}

  unfoldable pub add : T → (Key → Option T) → Key → Option T
  add e m q = if has_key q e then some e else m q

  unfoldable pub remove : Key → (Key → Option T) → Key → Option T
  remove k m q = if equal_key q k then none else m q

  -- An entry is added if its key has none.
  unfoldable pub map_insert : T → (Key → Option T) → Inserted T × (Key → Option T)
  unfolding add
  map_insert e m = elim (m (get_key e)) [
    | some old ↦ (duplicate old, m)
    | none ↦ (inserted e, add e m)
  ]
