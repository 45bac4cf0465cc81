-- ===== src/Tests/TreeMaps.antt =====
-- Tables of trees as maps: one that starts to rehash, and what happens to it then.
use mmkvc.Prelude.{foldl, some, ◌+◌, none, ℕ, ◌≡◌, refl, arith, ◌<◌, ◌^◌, length}
use mmkvc.Algo.Ordered.Hashed.{Hashed, hashed_order, hashed_keyed}
use mmkvc.Algo.Comparator.{
  compare_unsigned, compare_unsigned_refl, compare_unsigned-flip, compare_unsigned_trans,
  compare_unsigned-congr, compare_unsigned_same,
}
use mmkvc.Algo.AvlTree.Ops.{find, insert}
use mmkvc.Algo.TreeHashTable.{
  TreeHashTable, size_mod, grow, new_tree_hash_table, insert_with_duplicate, incremental_rehash,
  find_node, extract_node, clear,
}
use mmkvc.Algo.HashTable.Valid.{view}
use mmkvc.Algo.TableIterator.{visit, iterator_at}
use mmkvc.Algo.TableIterator.Cursors.{tree_walk}
use mmkvc.Algo.TableIterator.Entries.{entries_of, Enumerates, visit-tree_walk}
use mmkvc.Algo.TreeHashTable.Chains.{IsSound, chained}
use mmkvc.Algo.TreeHashTable.Settling.{Kept, incremental_rehash-Kept}
use mmkvc.Algo.TreeHashTable.Inserting.{Stored, insert_with_duplicate-Stored}
use mmkvc.Algo.TreeHashTable.Extracting.{Extracted, extract_node-Extracted, Found, find_node-Found}
use mmkvc.Algo.TreeHashTable.Emptying.{new_tree_hash_table-IsSound, clear-IsSound}

-- pairs of an unsigned key and a value; the key is its hash value
instance abbrev by_hashed_key : Hashed (ℕ × ℕ)
by_hashed_key = record {
  order = record {
    Key = ℕ;
    get_key = λ e. e.0;
    cmp = compare_unsigned;
    cmp_refl = compare_unsigned_refl;
    cmp_flip = compare_unsigned-flip;
    cmp_trans = compare_unsigned_trans;
    cmp_congr = compare_unsigned-congr;
  };
  hash = λ k. k;
  hash-cmp = compare_unsigned_same (λ k. k);
}

abbrev add_entry : ℕ × ℕ → TreeHashTable (ℕ × ℕ) → TreeHashTable (ℕ × ℕ)
add_entry e h = (insert_with_duplicate (λ k. k) e h).1

abbrev new : TreeHashTable (ℕ × ℕ)
new = new_tree_hash_table

abbrev first : TreeHashTable (ℕ × ℕ)
first = add_entry (1, 10) new

abbrev second : TreeHashTable (ℕ × ℕ)
second = add_entry (5, 50) first

abbrev third : TreeHashTable (ℕ × ℕ)
third = add_entry (2, 20) second

abbrev fourth : TreeHashTable (ℕ × ℕ)
fourth = add_entry (7, 70) third

-- the fifth insertion starts to rehash
abbrev fifth : TreeHashTable (ℕ × ℕ)
fifth = add_entry (9, 90) fourth

add_entry-IsSound :
    (e : ℕ × ℕ) (h : TreeHashTable (ℕ × ℕ))
    → IsSound h
    → length h.table1.buckets < 2 ^ 63
    → h.table1.used + 1 < size_mod
    → IsSound (add_entry e h)
add_entry-IsSound e h v wide room = (insert_with_duplicate-Stored e h v wide room).sound

first-IsSound : IsSound first
unfolding insert_with_duplicate new_tree_hash_table grow insert find compare_unsigned
first-IsSound =
    add_entry-IsSound (1, 10) new new_tree_hash_table-IsSound.0 (omega arith) (omega arith)

second-IsSound : IsSound second
unfolding insert_with_duplicate new_tree_hash_table grow insert find compare_unsigned
second-IsSound = add_entry-IsSound (5, 50) first first-IsSound (omega arith) (omega arith)

third-IsSound : IsSound third
unfolding insert_with_duplicate new_tree_hash_table grow insert find compare_unsigned
third-IsSound = add_entry-IsSound (2, 20) second second-IsSound (omega arith) (omega arith)

fourth-IsSound : IsSound fourth
unfolding insert_with_duplicate new_tree_hash_table grow insert find compare_unsigned
fourth-IsSound = add_entry-IsSound (7, 70) third third-IsSound (omega arith) (omega arith)

fifth-IsSound : IsSound fifth
unfolding insert_with_duplicate new_tree_hash_table grow insert find compare_unsigned
fifth-IsSound = add_entry-IsSound (9, 90) fourth fourth-IsSound (omega arith) (omega arith)

incremental_rehash-Kept_example : Kept fifth (incremental_rehash (λ k. k) fifth)
incremental_rehash-Kept_example = incremental_rehash-Kept fifth fifth-IsSound

insert_with_duplicate-Stored_example :
    Stored (9, 90) fourth (insert_with_duplicate (λ k. k) (9, 90) fourth)
unfolding insert_with_duplicate new_tree_hash_table grow insert find compare_unsigned
insert_with_duplicate-Stored_example =
    insert_with_duplicate-Stored (9, 90) fourth fourth-IsSound (omega arith) (omega arith)

extract_node-Extracted_example : Extracted 5 fifth (extract_node (λ k. k) 5 fifth)
extract_node-Extracted_example = extract_node-Extracted 5 fifth fifth-IsSound

find_node-Found_example : Found 5 fifth (find_node (λ k. k) 5 fifth)
find_node-Found_example = find_node-Found 5 fifth fifth-IsSound

clear-IsSound_example :
    IsSound (clear fifth)
    × ((q : ℕ) → view (chained (clear fifth)) q ≡ none)
    × ((clear fifth).table1.used ≡ 0)
clear-IsSound_example = clear-IsSound fifth fifth-IsSound

-- the fifth insertion moved the first tree
fifth_index : fifth.rehash_move_bucket_index ≡ 1
unfolding insert_with_duplicate new_tree_hash_table grow insert find compare_unsigned
fifth_index = refl

abbrev add_value : ℕ → ℕ × ℕ → ℕ
add_value s e = s + e.1

visit-tree_walk_example :
    (visit tree_walk fifth.table1.buckets fifth.table2.buckets add_value fifth.table1.used 0
        (iterator_at tree_walk fifth.table1.buckets fifth.table2.buckets 0 0)
      ≡ some (foldl add_value 0 (entries_of (chained fifth))))
    × Enumerates (view (chained fifth)) fifth.table1.used (entries_of (chained fifth))
visit-tree_walk_example = visit-tree_walk add_value 0 fifth fifth-IsSound
