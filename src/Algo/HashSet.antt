-- ===== src/Algo/HashSet.antt =====
-- `HashSet` of mmkv/algo/hash_set.h and internal/hash_set_impl.h: the set operations, which call a
-- callback on entries, and `EraseRandom`. The entries of a set are its keys.
pub mod Operations
pub mod Random
use mmkvc.Prelude.{
  ℕ, zero, suc, ◌+◌, Bool, true, false, if◌then◌else◌, ltb, List, [], ◌∷◌, length, get_or, drop,
  Option, none, some,
}
use mmkvc.Algo.Keyed.{Keyed}
use mmkvc.Algo.HashTable.{HashTable, size, in_rehashing, set_bucket, incremental_rehash, find}
use mmkvc.Algo.TableIterator.{iterator_at, visit, first_used}
use mmkvc.Algo.TableIterator.Cursors.{chain_walk}

module _ {T : Type 0} where
  -- `PopFront()` of a chain that is not empty
  abbrev pub pop_front : List T → List T
  pop_front [] = []
  pop_front (x ∷ xs) = xs

  -- the bucket that the loops of `EraseRandom()` end at: in the first table from the rehash index on,
  -- and in the second one
  abbrev pub victim1 : HashTable T → Option (ℕ × Option (T × List T))
  victim1 h =
      let j = if in_rehashing h then h.rehash_move_bucket_index else 0 in
      first_used chain_walk j (drop j h.table1.buckets)

  abbrev pub victim2 : HashTable T → Option (ℕ × Option (T × List T))
  victim2 h = if in_rehashing h then first_used chain_walk 0 h.table2.buckets else none

module _ {T : Type 0} ⦃key : Keyed T⦄ where
  open key use {get_key}

  -- `for (auto const& m : set)`; a table that counts its entries ends the loop within `size()` rounds
  abbrev pub for_each : {S : Type 0} → (S → T → S) → S → HashTable T → Option S
  for_each f s h =
      visit chain_walk h.table1.buckets h.table2.buckets f (size h) s
        (iterator_at chain_walk h.table1.buckets h.table2.buckets 0 0)

  -- one round of the loops with `Find`, which rehashes and reorders the set that it searches, although
  -- that set is const: `wanted` says whether the callback is for entries that are found
  unfoldable pub search_round :
      {S : Type 0} → Bool → (S → T → S) → HashTable T × S → T → HashTable T × S
  unfolding find
  search_round wanted cb (searched, s) m =
      let (found, left) = find (get_key m) searched in
      elim found [
        | some v ↦ (left, if wanted then cb s m else s)
        | none ↦ (left, if wanted then s else cb s m)
      ]

  -- the set with fewer entries and the one with more, by their sizes
  abbrev pub less_set : HashTable T → HashTable T → HashTable T
  less_set this hs = if ltb (size this) (size hs) then this else hs

  abbrev pub more_set : HashTable T → HashTable T → HashTable T
  more_set this hs = if ltb (size this) (size hs) then hs else this

  -- `Union(hs, cb)`, from the callback's state `s`; the result has the set that was searched
  unfoldable pub union_sets :
      {S : Type 0} → (S → T → S) → S → HashTable T → HashTable T → Option (HashTable T × S)
  unfolding search_round visit
  union_sets cb s this hs = elim (for_each cb s (more_set this hs)) [
    | none ↦ none
    | some s' ↦ for_each (search_round false cb) (more_set this hs, s') (less_set this hs)
  ]

  -- `Intersection(hs, cb)`
  unfoldable pub intersection :
      {S : Type 0} → (S → T → S) → S → HashTable T → HashTable T → Option (HashTable T × S)
  unfolding search_round visit
  intersection cb s this hs =
      for_each (search_round true cb) (more_set this hs, s) (less_set this hs)

  -- `Difference(hs, cb)`
  unfoldable pub difference :
      {S : Type 0} → (S → T → S) → S → HashTable T → HashTable T → Option (HashTable T × S)
  unfolding search_round visit
  difference cb s this hs = for_each (search_round false cb) (hs, s) this

  -- `EraseRandom()`
  unfoldable pub erase_random : HashTable T → ℕ × HashTable T
  unfolding incremental_rehash first_used
  erase_random h =
      let ready = incremental_rehash h in
      elim (victim1 ready) [
        | some (j, x) ↦ (
          1,
          record ready {
            table1 = set_bucket j (pop_front (get_or ready.table1.buckets j [])) ready.table1;
          },
        )
        | none ↦ elim (victim2 ready) [
          | some (j, x) ↦ (
            1,
            record ready {
              table2 = set_bucket j (pop_front (get_or ready.table2.buckets j [])) ready.table2;
            },
          )
          | none ↦ (0, ready)
        ]
      ]
