-- ===== src/Algo/HashTable.antt =====
-- `HashTable` of mmkv/algo/hash_table.h and internal/hash_table_impl.h: two arrays of chains, of which
-- the second takes the entries over, one bucket at each operation. A `size_t` wraps at 2 ^ 64.
pub mod Chain
pub mod Bucket
pub mod Move
pub mod Valid
pub mod Rehash
pub mod Settle
pub mod KeyMap
pub mod Emplace
pub mod Insert
pub mod Replace
pub mod Search
pub mod Extract
pub mod Clear
pub mod Clone
use mmkvc.Prelude.{
  ℕ, zero, suc, ◌+◌, ◌-◌, ◌*◌, ◌%◌, ◌^◌, Bool, true, false, if◌then◌else◌, not, ltb, leb, ◌==◌,
  ◌&&◌, List, [], ◌∷◌, ◌++◌, length, get_or, set, take, replicate, Option, none, some, bit_and,
}
use mmkvc.Algo.Slist.{search_if, extract_node_if, emplace_front_node}
use mmkvc.Algo.ReservedArray.{grow_array, shrink_array}
use mmkvc.Algo.Keyed.{Keyed}

abbrev pub size_mod : ℕ
size_mod = 2 ^ 64

-- `(size_type)-1`
abbrev pub no_index : ℕ
no_index = size_mod - 1

pub record Table (T : Type 0) : Type 0 where
  pub buckets : List (List T)
  pub used : ℕ
  pub size_mask : ℕ

pub record HashTable (T : Type 0) : Type 0 where
  pub table1 : Table T
  pub table2 : Table T
  pub rehash_move_bucket_index : ℕ

-- the outcome of an insertion: the new entry, or the one that is there
pub data Inserted (T : Type 0) : Type 0 where
  inserted : T → Inserted T
  duplicate : T → Inserted T

module _ {T : Type 0} where
  -- `Table()`
  unfoldable pub new_table : Table T
  new_table = record { buckets = []; used = 0; size_mask = no_index }

  -- `Table::Grow(n)`, with `ReservedArray::Grow`
  unfoldable pub grow : ℕ → Table T → Table T
  grow n t =
      let buckets = grow_array [] n t.buckets in
      record t { buckets = buckets; size_mask = (length buckets + size_mod - 1) % size_mod }

  -- `Table::Shrink(n)`, with `ReservedArray::Shrink`
  unfoldable pub shrink : ℕ → Table T → Table T
  shrink n t =
      let buckets = shrink_array n t.buckets in
      record t { buckets = buckets; size_mask = (length buckets + size_mod - 1) % size_mod }

  -- `HashTable()`
  unfoldable pub new_hash_table : HashTable T
  unfolding grow new_table
  new_hash_table = record {
    table1 = grow 4 new_table;
    table2 = new_table;
    rehash_move_bucket_index = no_index;
  }

  abbrev pub in_rehashing : HashTable T → Bool
  in_rehashing h = not (h.rehash_move_bucket_index == no_index)

  -- `size()`
  abbrev pub size : HashTable T → ℕ
  size h = h.table1.used

  -- a write to one bucket
  abbrev pub set_bucket : ℕ → List T → Table T → Table T
  set_bucket i c t = record t { buckets = set t.buckets i c }

  -- `Rehash()`
  unfoldable pub rehash : HashTable T → HashTable T
  unfolding grow
  rehash h =
      if not (in_rehashing h) && leb (length h.table1.buckets) h.table1.used
      then record h {
        table2 = grow (length h.table1.buckets * 2 % size_mod) h.table2;
        rehash_move_bucket_index = 0;
      }
      else h

  -- the end of `IncrementalRehash()`: `table1().swap(table2())` leaves `used` where it is
  unfoldable pub finish_rehash : HashTable T → HashTable T
  unfolding shrink
  finish_rehash h =
      if leb (length h.table2.buckets) 0
      then record h { rehash_move_bucket_index = no_index }
      else record {
        table1 = record h.table1 { buckets = h.table2.buckets; size_mask = h.table2.size_mask };
        table2 =
            shrink 0
              (record h.table2 { buckets = h.table1.buckets; size_mask = h.table1.size_mask });
        rehash_move_bucket_index = no_index;
      }

  -- `table1().used--`
  unfoldable pub decrease_used : HashTable T → HashTable T
  decrease_used h = record h {
    table1 = record h.table1 { used = (h.table1.used + size_mod - 1) % size_mod };
  }

  -- `Clear()`
  unfoldable pub clear : HashTable T → HashTable T
  unfolding shrink
  clear h =
      let shrunk = shrink 4 h.table1 in
      let emptied = set_bucket 3 [] (set_bucket 2 [] (set_bucket 1 [] (set_bucket 0 [] shrunk))) in
      record {
        table1 = record emptied { used = 0 };
        table2 = if in_rehashing h then shrink 0 h.table2 else h.table2;
        rehash_move_bucket_index = no_index;
      }

module _ {T : Type 0} ⦃key : Keyed T⦄ where
  open key use {Key, get_key, equal_key, hash}

  -- `bucket_index(table, hash_val)` for the hash value of `k`
  unfoldable pub home : Table T → Key → ℕ
  home t k = bit_and (hash k) t.size_mask

  abbrev pub bucket_of : Table T → Key → List T
  bucket_of t k = get_or t.buckets (home t k) []

  -- the predicate of `FindSlot` and `Extract`
  abbrev pub has_key : Key → T → Bool
  has_key k v = equal_key (get_key v) k

  -- the predicate of `GetDuplicate`
  abbrev pub same_key : T → T → Bool
  same_key elem v = equal_key (get_key elem) (get_key v)

  -- `bucket->EmplaceFront(elem)` at the home bucket
  unfoldable pub push : T → Table T → Table T
  push e t = set_bucket (home t (get_key e)) (emplace_front_node e (bucket_of t (get_key e))) t

  -- the loop of `IncrementalRehash()` over one bucket
  unfoldable pub move_bucket : List T → Table T → Table T
  unfolding push
  move_bucket [] t = t
  move_bucket (e ∷ c) t = move_bucket c (push e t)

  -- the part of `IncrementalRehash()` that moves one bucket and the index
  unfoldable pub move_next_bucket : HashTable T → HashTable T
  unfolding move_bucket
  move_next_bucket h =
      let i = h.rehash_move_bucket_index in
      record {
        table1 = set_bucket i [] h.table1;
        table2 = move_bucket (get_or h.table1.buckets i []) h.table2;
        rehash_move_bucket_index = suc i;
      }

  -- `IncrementalRehash()`
  unfoldable pub incremental_rehash : HashTable T → HashTable T
  unfolding move_next_bucket finish_rehash
  incremental_rehash h =
      if in_rehashing h
      then (let moved = move_next_bucket h in
          if moved.rehash_move_bucket_index == length h.table1.buckets
          then finish_rehash moved
          else moved)
      else h

  -- the search for a duplicate, in the order of the source
  unfoldable pub get_duplicate : T → HashTable T → Option T
  get_duplicate elem h =
      let k = get_key elem in
      let in1 = search_if (same_key elem) (bucket_of h.table1 k) in
      let in2 = search_if (same_key elem) (bucket_of h.table2 k) in
      if not (in_rehashing h)
      then in1
      else if ltb (home h.table1 k) h.rehash_move_bucket_index
      then in2
      else elim in1 [ some old ↦ some old | none ↦ in2 ]

  -- the insertion, into the bucket that was searched last
  unfoldable pub emplace : T → HashTable T → HashTable T
  unfolding push
  emplace elem h =
      let pushed =
        if in_rehashing h
        then record h { table2 = push elem h.table2 }
        else record h { table1 = push elem h.table1 } in
      record pushed { table1 = record pushed.table1 { used = (h.table1.used + 1) % size_mod } }

  -- `InsertWithDuplicate_impl(elem, duplicate)`
  unfoldable pub insert : T → HashTable T → Inserted T × HashTable T
  unfolding rehash incremental_rehash get_duplicate emplace
  insert elem h =
      let ready = incremental_rehash (rehash h) in
      elim (get_duplicate elem ready) [
        | some old ↦ (duplicate old, ready)
        | none ↦ (inserted elem, emplace elem ready)
      ]

  -- the search of `FindSlot`: the second table only if the first has nothing; the node that was found
  -- goes to the front of its bucket
  unfoldable pub find_slot : Key → HashTable T → Option T × HashTable T
  unfolding incremental_rehash
  find_slot k h =
      let ready = incremental_rehash h in
      let i1 = home ready.table1 k in
      let i2 = home ready.table2 k in
      let (found1, rest1) = extract_node_if (has_key k) (get_or ready.table1.buckets i1 []) in
      let (found2, rest2) = extract_node_if (has_key k) (get_or ready.table2.buckets i2 []) in
      elim found1 [
        | some node ↦ (
          some node,
          record ready { table1 = set_bucket i1 (emplace_front_node node rest1) ready.table1 },
        )
        | none ↦
            if in_rehashing ready
            then elim found2 [
              | some node ↦ (
                some node,
                record ready {
                  table2 = set_bucket i2 (emplace_front_node node rest2) ready.table2;
                },
              )
              | none ↦ (none, ready)
            ]
            else (none, ready)
      ]

  -- `Find(key)`: the value in the slot
  unfoldable pub find : Key → HashTable T → Option T × HashTable T
  unfolding find_slot
  find k h = find_slot k h

  -- `Extract(key)`
  unfoldable pub extract : Key → HashTable T → Option T × HashTable T
  unfolding incremental_rehash decrease_used
  extract k h =
      let ready = incremental_rehash h in
      let i1 = home ready.table1 k in
      let i2 = home ready.table2 k in
      let (found1, rest1) = extract_node_if (has_key k) (get_or ready.table1.buckets i1 []) in
      let (found2, rest2) = extract_node_if (has_key k) (get_or ready.table2.buckets i2 []) in
      elim found1 [
        | some node ↦
            (some node, decrease_used (record ready { table1 = set_bucket i1 rest1 ready.table1 }))
        | none ↦
            if in_rehashing ready
            then elim found2 [
              | some node ↦ (
                some node,
                decrease_used (record ready { table2 = set_bucket i2 rest2 ready.table2 }),
              )
              | none ↦ (none, ready)
            ]
            else (none, ready)
      ]

  -- `Erase(key)`: the number of erased entries
  unfoldable pub erase : Key → HashTable T → ℕ × HashTable T
  unfolding extract
  erase k h = let (node, left) = extract k h in (elim node [ none ↦ 0 | some v ↦ 1 ], left)
