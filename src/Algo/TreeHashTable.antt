-- ===== src/Algo/TreeHashTable.antt =====
-- `TreeHashTable` of mmkv/algo/internal/tree_hashtable.h and tree_hashtable_impl.h: two arrays of AVL trees, of
-- which the second takes the entries over, one tree at each operation. A `size_t` wraps at 2 ^ 64.
pub mod Sorted
pub mod Keeps
pub mod Cleared
pub mod Chains
pub mod Bag
pub mod Moving
pub mod Settling
pub mod Extracting
pub mod Planting
pub mod Outcome
pub mod Inserting
pub mod Emptying
use mmkvc.Prelude.{
  ℕ, zero, suc, ◌+◌, ◌-◌, ◌*◌, ◌%◌, ◌^◌, Bool, true, false, if◌then◌else◌, not, ltb, leb, ◌==◌,
  ◌&&◌, List, [], ◌∷◌, ◌++◌, length, get_or, set, take, drop, replicate, Option, none, some,
  bit_and,
}
use mmkvc.Algo.ReservedArray.{grow_array, shrink_array}
use mmkvc.Algo.Ordered.{Ordered}
use mmkvc.Algo.AvlTree.Node.{leaf}
use mmkvc.Algo.AvlTree.Balance.{size}
use mmkvc.Algo.AvlTree.Ops.{
  AvlTree, Pushed, pushed, null_dereference, duplicate, insert, find, extract, push_with_duplicate,
}
use mmkvc.Algo.AvlTree.Visit.{reuse_all_nodes}

abbrev pub size_mod : ℕ
size_mod = 2 ^ 64

-- `(size_type)-1`
abbrev pub no_index : ℕ
no_index = size_mod - 1

pub record Table (V : Type 0) : Type 0 where
  pub buckets : List (AvlTree V)
  pub used : ℕ
  pub size_mask : ℕ

pub record TreeHashTable (V : Type 0) : Type 0 where
  pub table1 : Table V
  pub table2 : Table V
  pub rehash_move_bucket_index : ℕ

module _ {V : Type 0} where
  -- a bucket by its default constructor; nothing here reads its count
  abbrev pub no_nodes : AvlTree V
  no_nodes = record { root = leaf; count = 0 }

  -- `Table()`, `Table::Grow(n)`, `Table::Shrink(n)` and `Table::Reset()`, which leaves the mask
  abbrev pub new_table : Table V
  new_table = record { buckets = []; used = 0; size_mask = no_index }

  unfoldable pub grow : ℕ → Table V → Table V
  grow n t =
      let buckets = grow_array no_nodes n t.buckets in
      record t { buckets = buckets; size_mask = (length buckets + size_mod - 1) % size_mod }

  unfoldable pub shrink : ℕ → Table V → Table V
  shrink n t =
      let buckets = shrink_array n t.buckets in
      record t { buckets = buckets; size_mask = (length buckets + size_mod - 1) % size_mod }

  unfoldable pub reset_table : Table V → Table V
  reset_table t = record t { buckets = shrink_array 0 t.buckets }

  -- `TreeHashTable()`
  unfoldable pub new_tree_hash_table : TreeHashTable V
  unfolding grow
  new_tree_hash_table = record {
    table1 = grow 4 new_table;
    table2 = new_table;
    rehash_move_bucket_index = no_index;
  }

  abbrev pub in_rehashing : TreeHashTable V → Bool
  in_rehashing h = not (h.rehash_move_bucket_index == no_index)

  -- a write to one bucket
  abbrev pub set_bucket : ℕ → AvlTree V → Table V → Table V
  set_bucket i b t = record t { buckets = set t.buckets i b }

  -- `Rehash()`
  unfoldable pub rehash : TreeHashTable V → TreeHashTable V
  unfolding grow
  rehash h =
      if not (in_rehashing h) && leb (length h.table1.buckets) h.table1.used
      then record h {
        table2 = grow (length h.table1.buckets * 2 % size_mod) h.table2;
        rehash_move_bucket_index = 0;
      }
      else h

  -- the end of `IncrementalRehash()`: `table1().swap(table2())` leaves `used` where it is
  unfoldable pub finish_rehash : TreeHashTable V → TreeHashTable V
  unfolding reset_table
  finish_rehash h =
      if leb (length h.table2.buckets) 0
      then record h { rehash_move_bucket_index = no_index }
      else record {
        table1 = record h.table1 { buckets = h.table2.buckets; size_mask = h.table2.size_mask };
        table2 =
            reset_table
              (record h.table2 { buckets = h.table1.buckets; size_mask = h.table1.size_mask });
        rehash_move_bucket_index = no_index;
      }

  -- `++table1().used` and `table1().used--`
  unfoldable pub increase_used : TreeHashTable V → TreeHashTable V
  increase_used h = record h { table1 = record h.table1 { used = (h.table1.used + 1) % size_mod } }

  unfoldable pub decrease_used : TreeHashTable V → TreeHashTable V
  decrease_used h = record h {
    table1 = record h.table1 { used = (h.table1.used + size_mod - 1) % size_mod };
  }

  -- `Clear()`
  unfoldable pub clear : TreeHashTable V → TreeHashTable V
  unfolding shrink
  clear h =
      let shrunk = shrink 4 h.table1 in
      let emptied =
        set_bucket 3 no_nodes
          (set_bucket 2 no_nodes (set_bucket 1 no_nodes (set_bucket 0 no_nodes shrunk))) in
      record {
        table1 = record emptied { used = 0 };
        table2 = if in_rehashing h then shrink 0 h.table2 else h.table2;
        rehash_move_bucket_index = no_index;
      }

  -- `ClearApply(cb)` of one tree, and the tree that it leaves; the fuel is enough
  unfoldable pub apply_tree : {S : Type 0} → (S → V → S) → S → AvlTree V → S × AvlTree V
  unfolding reuse_all_nodes
  apply_tree f s b = elim (reuse_all_nodes (λ s' h v. f s' v) (2 * size b.root + 1) s b) [
    | none ↦ (s, b)
    | some (s', left) ↦ (s', left)
  ]

  -- a loop of `ClearApply(cb)` over some of the trees
  unfoldable pub apply_each :
      {S : Type 0} → (S → V → S) → S → List (AvlTree V) → S × List (AvlTree V)
  unfolding apply_tree
  apply_each f s [] = (s, [])
  apply_each f s (b ∷ bs) =
      let (s', left) = apply_tree f s b in
      let (s'', lefts) = apply_each f s' bs in (s'', left ∷ lefts)

  -- `ClearApply(cb)`: the trees from the fifth on, the first four, and those of the second table
  unfoldable pub clear_apply :
      {S : Type 0} → (S → V → S) → S → TreeHashTable V → S × TreeHashTable V
  unfolding apply_each shrink
  clear_apply f s h =
      let (s1, behind) = apply_each f s (drop 4 h.table1.buckets) in
      let shrunk = shrink 4 (record h.table1 { buckets = take 4 h.table1.buckets ++ behind }) in
      let (s2, first) = apply_each f s1 shrunk.buckets in
      let (s3, moved) = apply_each f s2 h.table2.buckets in
      let table1 = record shrunk { buckets = first; used = 0 } in
      if in_rehashing h
      then (
        s3,
        record {
          table1 = table1;
          table2 = shrink 0 (record h.table2 { buckets = moved });
          rehash_move_bucket_index = no_index;
        },
      )
      else (s2, record { table1 = table1; table2 = h.table2; rehash_move_bucket_index = no_index })

-- `hash` is the hash function.
module _ {V : Type 0} ⦃o : Ordered V⦄ (hash : o.Key → ℕ) where
  open o use {Key, get_key}

  -- `bucket_index(table, hash_val)` for the hash value of `k`
  unfoldable pub home : Table V → Key → ℕ
  home t k = bit_and (hash k) t.size_mask

  abbrev pub bucket_of : Table V → Key → AvlTree V
  bucket_of t k = get_or t.buckets (home t k) no_nodes

  -- the callback of `IncrementalRehash()`: the node is pushed into the second table
  unfoldable pub move_node : Table V → ℕ → V → Table V
  unfolding home push_with_duplicate
  move_node t h v =
      set_bucket (home t (get_key v)) (push_with_duplicate false h v (bucket_of t (get_key v))).1 t

  -- the part of `IncrementalRehash()` that moves one bucket and the index; the fuel is enough
  unfoldable pub move_next_bucket : TreeHashTable V → TreeHashTable V
  unfolding move_node reuse_all_nodes
  move_next_bucket h =
      let i = h.rehash_move_bucket_index in
      let bucket = get_or h.table1.buckets i no_nodes in
      elim (reuse_all_nodes move_node (2 * size bucket.root + 1) h.table2 bucket) [
        | none ↦ h
        | some (table2, left) ↦ record {
          table1 = set_bucket i left h.table1;
          table2 = table2;
          rehash_move_bucket_index = suc i;
        }
      ]

  -- `IncrementalRehash()`
  unfoldable pub incremental_rehash : TreeHashTable V → TreeHashTable V
  unfolding move_next_bucket finish_rehash
  incremental_rehash h =
      if in_rehashing h
      then (let moved = move_next_bucket h in
          if moved.rehash_move_bucket_index == length h.table1.buckets
          then finish_rehash moved
          else moved)
      else h

  -- what becomes of a bucket into which an entry was put: a failure ends the function before the count
  unfoldable pub settle :
      Pushed V × AvlTree V → (AvlTree V → TreeHashTable V) → Pushed V × TreeHashTable V
  unfolding increase_used
  settle (pushed, b) put = (pushed, increase_used (put b))
  settle (null_dereference, b) put = (null_dereference, put b)
  settle (duplicate old, b) put = (duplicate old, put b)

  abbrev pub put1 : Key → TreeHashTable V → AvlTree V → TreeHashTable V
  put1 k h b = record h { table1 = set_bucket (home h.table1 k) b h.table1 }

  abbrev pub put2 : Key → TreeHashTable V → AvlTree V → TreeHashTable V
  put2 k h b = record h { table2 = set_bucket (home h.table2 k) b h.table2 }

  -- `InsertWithDuplicate_impl(elem, duplicate)`
  unfoldable pub insert_with_duplicate : V → TreeHashTable V → Pushed V × TreeHashTable V
  unfolding rehash incremental_rehash settle home insert find
  insert_with_duplicate e h =
      let ready = incremental_rehash (rehash h) in
      let k = get_key e in
      let in1 = settle (insert e (bucket_of ready.table1 k)) (put1 k ready) in
      let in2 = settle (insert e (bucket_of ready.table2 k)) (put2 k ready) in
      if not (in_rehashing ready)
      then in1
      else if ltb (home ready.table1 k) ready.rehash_move_bucket_index
      then in2
      else elim (find k (bucket_of ready.table2 k)) [
        | some old ↦ (duplicate old, ready)
        | none ↦ in1
      ]

  -- `PushWithDuplicate(node, duplicate)` with tables that are ready: with a tree left behind, the first
  -- table gets the node before the second one is searched
  unfoldable pub push_ready : Bool → ℕ → V → TreeHashTable V → Pushed V × TreeHashTable V
  unfolding settle home push_with_duplicate find
  push_ready wanted height e ready =
      let k = get_key e in
      let push1 = push_with_duplicate wanted height e (bucket_of ready.table1 k) in
      let in1 = settle push1 (put1 k ready) in
      let in2 =
        settle (push_with_duplicate wanted height e (bucket_of ready.table2 k)) (put2 k ready) in
      if not (in_rehashing ready)
      then in1
      else if ltb (home ready.table1 k) ready.rehash_move_bucket_index
      then in2
      else elim (push1.0) [
        | pushed ↦ elim (find k (bucket_of ready.table2 k)) [
          | some old ↦ (duplicate old, put1 k ready push1.1)
          | none ↦ in1
        ]
        | _ ↦ in1
      ]

  unfoldable pub push_node : Bool → ℕ → V → TreeHashTable V → Pushed V × TreeHashTable V
  unfolding rehash incremental_rehash push_ready
  push_node wanted height e h = push_ready wanted height e (incremental_rehash (rehash h))

  -- `FindNode(key, bucket)` and `Find(key)`: the value of the node
  unfoldable pub find_node : Key → TreeHashTable V → Option V × TreeHashTable V
  unfolding incremental_rehash home find
  find_node k h =
      let ready = incremental_rehash h in
      let in2 = find k (bucket_of ready.table2 k) in
      (
        elim (find k (bucket_of ready.table1 k)) [
          | some v ↦ some v
          | none ↦ if in_rehashing ready then in2 else none
        ],
        ready,
      )

  -- `Extract(key)`
  unfoldable pub extract_node : Key → TreeHashTable V → Option (ℕ × V) × TreeHashTable V
  unfolding incremental_rehash home extract decrease_used
  extract_node k h =
      let ready = incremental_rehash h in
      let (found1, left1) = extract k (bucket_of ready.table1 k) in
      let (found2, left2) = extract k (bucket_of ready.table2 k) in
      let out1 = put1 k ready left1 in
      elim found1 [
        | some n ↦ (some n, decrease_used out1)
        | none ↦
            if in_rehashing ready
            then elim found2 [
              | some n ↦ (some n, decrease_used (put2 k out1 left2))
              | none ↦ (none, put2 k out1 left2)
            ]
            else (none, out1)
      ]

  -- `Erase(key)`: the number of erased entries
  unfoldable pub erase_key : Key → TreeHashTable V → ℕ × TreeHashTable V
  unfolding extract_node
  erase_key k h =
      let (found, left) = extract_node k h in (elim found [ none ↦ 0 | some n ↦ 1 ], left)
