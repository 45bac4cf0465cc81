-- ===== src/Tests/TreeTables.antt =====
-- Tables of trees: one that starts to rehash, and one in the middle of it.
use mmkvc.Prelude.{◌+◌, if◌then◌else◌, foldl, take, drop, ◌++◌, ℕ, ◌≡◌, true, []}
use mmkvc.Algo.Ordered.{Ordered}
use mmkvc.Algo.Comparator.{
  compare_unsigned, compare_unsigned_refl, compare_unsigned-flip, compare_unsigned_trans,
  compare_unsigned-congr,
}
use mmkvc.Algo.TreeHashTable.{
  clear_apply, clear, in_rehashing, TreeHashTable, grow, new_tree_hash_table, insert_with_duplicate,
}
use mmkvc.Algo.TreeHashTable.Sorted.{HasOrders}
use mmkvc.Algo.TreeHashTable.Keeps.{operations-HasOrders}
use mmkvc.Algo.TreeHashTable.Cleared.{values_of, clear_apply-clear}

-- pairs of an unsigned key and a value; the key is its hash value
instance abbrev by_key : Ordered (ℕ × ℕ)
by_key = record {
  Key = ℕ;
  get_key = λ e. e.0;
  cmp = compare_unsigned;
  cmp_refl = compare_unsigned_refl;
  cmp_flip = compare_unsigned-flip;
  cmp_trans = compare_unsigned_trans;
  cmp_congr = compare_unsigned-congr;
}

abbrev self : ℕ → ℕ
self k = k

abbrev put : ℕ × ℕ → TreeHashTable (ℕ × ℕ) → TreeHashTable (ℕ × ℕ)
put e h = (insert_with_duplicate self e h).1

-- the fifth insertion starts to rehash
abbrev five : TreeHashTable (ℕ × ℕ)
five = put (9, 90) (put (7, 70) (put (5, 50) (put (2, 20) (put (1, 10) new_tree_hash_table))))

put-HasOrders : (e : ℕ × ℕ) (h : TreeHashTable (ℕ × ℕ)) → HasOrders h → HasOrders (put e h)
put-HasOrders e h s = (operations-HasOrders self e 1 true 0 h s).0

new-HasOrders : HasOrders {V = ℕ × ℕ} new_tree_hash_table
unfolding new_tree_hash_table grow
new-HasOrders = ((tt, (tt, (tt, (tt, tt)))), tt)

five-HasOrders : HasOrders five
five-HasOrders =
    put-HasOrders (9, 90) _
      (put-HasOrders (7, 70) _
        (put-HasOrders (5, 50) _ (put-HasOrders (2, 20) _ (put-HasOrders (1, 10) _ new-HasOrders))))

abbrev sum : ℕ → ℕ × ℕ → ℕ
sum s e = s + e.1

clear_apply-clear_example :
    let moving = if in_rehashing five then values_of five.table2.buckets else [] in
    let first = values_of (take 4 five.table1.buckets) in
    clear_apply sum 0 five
    ≡ (foldl sum 0 (values_of (drop 4 five.table1.buckets) ++ (first ++ moving)), clear five)
clear_apply-clear_example = clear_apply-clear sum 0 five
