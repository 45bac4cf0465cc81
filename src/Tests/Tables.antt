-- ===== src/Tests/Tables.antt =====
-- Small hash tables: an empty one, one with three entries, and one in the middle of rehashing.
use mmkvc.Prelude.{ℕ, ◌+◌, ◌≡◌, ◌<◌, ◌^◌, refl, ◌==◌, ==_iff, true, some, length, arith}
use mmkvc.Algo.Slist.{search_if, extract_node_if}
use mmkvc.Algo.HashTable.Settle.{incremental_rehash-Keeps}
use mmkvc.Algo.Keyed.{Keyed}
use mmkvc.Algo.HashTable.{
  HashTable, home, new_hash_table, incremental_rehash, insert, find, extract, size, size_mod,
}
use mmkvc.Algo.HashTable.Valid.{IsValid, Keeps}
use mmkvc.Algo.HashTable.Insert.{Insertion, insert-Insertion}
use mmkvc.Algo.HashTable.Search.{Search, find-Search}
use mmkvc.Algo.HashTable.Extract.{Extraction, extract-Extraction}
use mmkvc.Algo.HashTable.Clear.{new_hash_table-IsValid}

pub beq_refl : (a : ℕ) → (a == a) ≡ true
beq_refl a = ground arith

pub beq_comm : (a b : ℕ) → (a == b) ≡ (b == a)
beq_comm a b = ground arith

pub beq_trans : (a b c : ℕ) → (a == b) ≡ true → (b == c) ≡ true → (a == c) ≡ true
beq_trans a b c h g = ground arith

-- pairs of a key and a value, with the key as its hash value
instance abbrev pub pairs : Keyed (ℕ × ℕ)
pairs = record {
  Key = ℕ;
  get_key = λ e. e.0;
  equal_key = λ a b. a == b;
  hash = λ a. a;
  equal_key_refl = beq_refl;
  equal_key_comm = beq_comm;
  equal_key_trans = beq_trans;
  hash-equal_key = λ a b e. (==_iff a b).0 e;
}

abbrev pub put : ℕ × ℕ → HashTable (ℕ × ℕ) → HashTable (ℕ × ℕ)
put e h = (insert e h).1

put-IsValid :
    (e : ℕ × ℕ) (h : HashTable (ℕ × ℕ))
    → IsValid h
    → length h.table1.buckets < 2 ^ 63
    → size h + 1 < size_mod
    → IsValid (put e h)
put-IsValid e h v wide room = (insert-Insertion e h v wide room).valid

abbrev pub one : HashTable (ℕ × ℕ)
one = put (1, 10) new_hash_table

abbrev pub three : HashTable (ℕ × ℕ)
three = put (2, 20) (put (5, 50) one)

-- four entries in four buckets: the next insertion starts to rehash
abbrev four : HashTable (ℕ × ℕ)
four = put (7, 70) three

abbrev pub five : HashTable (ℕ × ℕ)
five = put (9, 90) four

four_wide : length four.table1.buckets < 2 ^ 63
unfolding insert new_hash_table search_if home
four_wide = omega arith

four_room : size four + 1 < size_mod
unfolding insert new_hash_table search_if home
four_room = omega arith

pub one-IsValid : IsValid one
unfolding new_hash_table
one-IsValid =
    put-IsValid (1, 10) new_hash_table new_hash_table-IsValid.0 (omega arith) (omega arith)

pub three-IsValid : IsValid three
unfolding insert new_hash_table search_if home
three-IsValid =
    put-IsValid (2, 20) _ (put-IsValid (5, 50) one one-IsValid (omega arith) (omega arith))
      (omega arith) (omega arith)

four-IsValid : IsValid four
unfolding insert new_hash_table search_if home
four-IsValid = put-IsValid (7, 70) three three-IsValid (omega arith) (omega arith)

pub five-IsValid : IsValid five
five-IsValid = put-IsValid (9, 90) four four-IsValid four_wide four_room

five_rehashing : five.rehash_move_bucket_index ≡ 1
unfolding insert new_hash_table search_if home
five_rehashing = refl

insert-Insertion_example : Insertion (9, 90) four (insert (9, 90) four)
insert-Insertion_example = insert-Insertion (9, 90) four four-IsValid four_wide four_room

find-Search_example : Search 5 five (find 5 five)
find-Search_example = find-Search 5 five five-IsValid

found_five : (find 5 five).0 ≡ some (5, 50)
unfolding insert new_hash_table search_if home find extract_node_if
found_five = refl

extract-Extraction_example : Extraction 2 five (extract 2 five)
extract-Extraction_example = extract-Extraction 2 five five-IsValid

incremental_rehash-Keeps_example : Keeps five (incremental_rehash five)
incremental_rehash-Keeps_example = incremental_rehash-Keeps five five-IsValid
