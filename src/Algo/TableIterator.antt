-- ===== src/Algo/TableIterator.antt =====
-- The iterators of both hash tables, of mmkv/algo/internal/hash_table_iterator.h and
-- tree_hash_table_iterator.h, which differ in their buckets alone: chains there, AVL trees here.
pub mod Visited
pub mod Cursors
pub mod Entries
use mmkvc.Prelude.{
  ℕ, zero, suc, ◌+◌, ◌-◌, ◌%◌, ◌≡◌, Bool, true, false, if◌then◌else◌, ◌==◌, List, [], ◌∷◌, length,
  drop, Option, none, some,
}
use mmkvc.Algo.HashTable.{size_mod, no_index}

-- What an iterator asks of a bucket: `empty()`, the first node (`FrontNode()`, `FirstNode()`), the
-- node after one (`slot->next`, `_GetNextNode(slot)`), and the value in a node. The other fields say
-- which values these operations go through.
pub record BucketWalk (B T : Type 0) : Type 1 where
  pub Slot : Type 0
  pub is_empty : B → Bool
  pub first : B → Option Slot
  pub next : Slot → Option Slot
  pub value : Slot → T
  pub listed : B → List T
  pub behind : Option Slot → List T
  pub empty-listed : (b : B) → is_empty b ≡ true → listed b ≡ []
  pub first-behind : (b : B) → is_empty b ≡ false → behind (first b) ≡ listed b
  pub first-some : (b : B) → is_empty b ≡ false → (x : Slot) × (first b ≡ some x)
  pub none-behind : behind none ≡ []
  pub next-behind : (x : Slot) → behind (some x) ≡ value x ∷ behind (next x)

-- `HashTableConstIterator` without the table; a null slot is `none`
pub record Iterator (Slot : Type 0) : Type 0 where
  pub table_index : ℕ
  pub bucket_index : ℕ
  pub slot : Option Slot

module _ {B T : Type 0} (w : BucketWalk B T) where
  open w use {Slot, is_empty, first}

  -- the inner loops, from the bucket `j` on: the first bucket that is not empty, and its first node
  unfoldable pub first_used : ℕ → List B → Option (ℕ × Option Slot)
  first_used j [] = none
  first_used j (b ∷ bs) = if is_empty b then first_used (suc j) bs else some (j, first b)

-- `buckets1` and `buckets2` are the arrays of the two tables.
module _ {B T : Type 0} (w : BucketWalk B T) (buckets1 buckets2 : List B) where
  open w use {Slot, next, value}

  -- `ht_->table(i)`
  abbrev pub table : ℕ → List B
  table i = if i == 0 then buckets1 else buckets2

  -- the outer loop of the constructor, for the rounds that are left; every table is searched from the
  -- same bucket index on
  unfoldable pub begin_loop : ℕ → ℕ → Iterator Slot → Iterator Slot
  unfolding first_used
  begin_loop zero i it = it
  begin_loop (suc rounds) i it =
      let next_table = begin_loop rounds (suc i) it in
      elim (first_used w it.bucket_index (drop it.bucket_index (table i))) [
        | some (j, x) ↦ record { table_index = i; bucket_index = j; slot = x }
        | none ↦ next_table
      ]

  -- the constructor: `begin()` is at (0, 0) and `end()` at (1, table2().size())
  unfoldable pub iterator_at : ℕ → ℕ → Iterator Slot
  unfolding begin_loop
  iterator_at table_index bucket_index =
      begin_loop (2 - table_index) table_index
        (record { table_index = table_index; bucket_index = bucket_index; slot = none })

  -- the outer loop of `Increment()`: the table is that of `table_index_`, and a table without a node
  -- sets the indices to (1, -1)
  unfoldable pub increment_loop : ℕ → ℕ → Iterator Slot → Iterator Slot
  unfolding first_used
  increment_loop zero i it = it
  increment_loop (suc rounds) i it =
      let j = (it.bucket_index + 1) % size_mod in
      let next_table =
        increment_loop rounds (suc i)
          (record { table_index = 1; bucket_index = no_index; slot = none }) in
      elim (first_used w j (drop j (table it.table_index))) [
        | some (k, x) ↦ record { table_index = i; bucket_index = k; slot = x }
        | none ↦ next_table
      ]

  -- `Increment()`; nothing is asked of a null slot, at which it asserts
  unfoldable pub increment : Iterator Slot → Iterator Slot
  unfolding increment_loop
  increment it = elim it.slot [
    | none ↦ it
    | some x ↦ elim (next x) [
      | some y ↦ record it { slot = some y }
      | none ↦ increment_loop (2 - it.table_index) it.table_index it
    ]
  ]

  -- `for (auto const& e : table)`: `!=` compares the slots, and that of `end()` is null
  unfoldable pub visit : {S : Type 0} → (S → T → S) → ℕ → S → Iterator Slot → Option S
  unfolding increment
  visit f zero s it = elim it.slot [ none ↦ some s | some x ↦ none ]
  visit f (suc n) s it = elim it.slot [
    | none ↦ some s
    | some x ↦ visit f n (f s (value x)) (increment it)
  ]
