-- ===== src/Tests/Sets.antt =====
-- Loops over tables in the middle of rehashing, and the set operations on them.
use mmkvc.Prelude.{ℕ, ◌+◌, ◌≡◌, ◌≢◌, ◌++◌, foldl, some, true, false}
use mmkvc.Algo.HashTable.{size}
use mmkvc.Algo.HashTable.Bucket.{entries}
use mmkvc.Algo.HashTable.Valid.{view}
use mmkvc.Algo.TableIterator.{visit, iterator_at}
use mmkvc.Algo.TableIterator.Cursors.{chain_walk}
use mmkvc.Algo.TableIterator.Entries.{entries_of, Enumerates, visit-entries_of}
use mmkvc.Algo.HashSet.{less_set, more_set, union_sets, intersection, difference, erase_random}
use mmkvc.Algo.HashSet.Operations.{Calls, selected, set_operations-Calls}
use mmkvc.Algo.HashSet.Random.{erase_random-counted}
use mmkvc.Tests.Tables.{pairs, three, three-IsValid, five, five-IsValid}

abbrev add_value : ℕ → ℕ × ℕ → ℕ
add_value s e = s + e.1

visit-entries_of_example :
    (visit chain_walk five.table1.buckets five.table2.buckets add_value
        (size five)
        0
        (iterator_at chain_walk five.table1.buckets five.table2.buckets 0 0)
      ≡ some (foldl add_value 0 (entries_of five)))
    × Enumerates (view five) (size five) (entries_of five)
visit-entries_of_example = visit-entries_of add_value 0 five five-IsValid

set_operations-Calls_example :
    let less = less_set three five in
    let more = more_set three five in
    Calls add_value 0
      (entries_of more ++ selected false (view more) (entries_of less))
      more
      (union_sets add_value 0 three five)
    × Calls add_value 0
        (selected true (view more) (entries_of less))
        more
        (intersection add_value 0 three five)
    × Calls add_value 0
        (selected false (view five) (entries_of three))
        five
        (difference add_value 0 three five)
set_operations-Calls_example =
    set_operations-Calls add_value 0 three five three-IsValid five-IsValid

erase_random-counted_example :
    let out = erase_random five in
    (size out.1 ≡ size five)
    × (entries out.1.table1.buckets + entries out.1.table2.buckets + out.0 ≡ size five)
    × (size five ≢ 0 → out.0 ≡ 1)
erase_random-counted_example = erase_random-counted five five-IsValid
