-- ===== src/Algo/TreeHashTable/Keeps.antt =====
-- That every operation of a table keeps its trees sorted.
use mmkvc.Prelude.{
  ℕ, inl, inr, Bool, true, false, Bool-cases, if◌then◌else◌, not, ltb, Option, none, some,
}
use mmkvc.Algo.Ordered.{Ordered}
use mmkvc.Algo.AvlTree.Ops.{
  AvlTree, Pushed, pushed, null_dereference, duplicate, insert, extract, find, push_with_duplicate,
}
use mmkvc.Algo.AvlTree.Insert.{insert-Insertion_lem, extract-Extraction_lem}
use mmkvc.Algo.TreeHashTable.{
  TreeHashTable, in_rehashing, rehash, home, bucket_of, incremental_rehash, settle, put1, put2,
  insert_with_duplicate, push_ready, push_node, find_node, extract_node, increase_used,
  decrease_used,
}
use mmkvc.Algo.TreeHashTable.Sorted.{
  bucket-HasOrder, All-set, HasOrder, HasOrders, push-HasOrder, rehash-HasOrders,
  incremental_rehash-HasOrders,
}

module _ {V : Type 0} ⦃o : Ordered V⦄ (hash : o.Key → ℕ) where
  open o use {Key, get_key}

  settle-HasOrders :
      (out : Pushed V × AvlTree V) (put : AvlTree V → TreeHashTable V)
      → HasOrders (put out.1)
      → HasOrders (settle hash out put).1
  unfolding settle increase_used
  settle-HasOrders (pushed, b) put s = s
  settle-HasOrders (null_dereference, b) put s = s
  settle-HasOrders (duplicate old, b) put s = s

  put1-HasOrders :
      (k : Key) (h : TreeHashTable V) (b : AvlTree V)
      → HasOrders h
      → HasOrder b
      → HasOrders (put1 hash k h b)
  put1-HasOrders k h b (s1, s2) s =
      (All-set HasOrder h.table1.buckets (home hash h.table1 k) b s s1, s2)

  put2-HasOrders :
      (k : Key) (h : TreeHashTable V) (b : AvlTree V)
      → HasOrders h
      → HasOrder b
      → HasOrders (put2 hash k h b)
  put2-HasOrders k h b (s1, s2) s =
      (s1, All-set HasOrder h.table2.buckets (home hash h.table2 k) b s s2)

  -- a search comes before what is done
  searched :
      (found : Option V) (ready : TreeHashTable V) (out : Pushed V × TreeHashTable V)
      → HasOrders ready
      → HasOrders out.1
      → HasOrders
          (elim found as (λ x. Pushed V × TreeHashTable V) [
            | some old ↦ (duplicate old, ready)
            | none ↦ out
          ]).1
  searched none ready out r s = s
  searched (some old) ready out r s = r

  pub insert_with_duplicate-HasOrders :
      (e : V) (h : TreeHashTable V) → HasOrders h → HasOrders (insert_with_duplicate hash e h).1
  unfolding insert_with_duplicate
  insert_with_duplicate-HasOrders e h s =
      let ready = incremental_rehash hash (rehash h) in
      let r = incremental_rehash-HasOrders hash (rehash h) (rehash-HasOrders h s) in
      let k = get_key e in
      let b1 = bucket_of hash ready.table1 k in
      let b2 = bucket_of hash ready.table2 k in
      let in1 = settle-HasOrders (insert e b1) (put1 hash k ready) (
        put1-HasOrders k ready (insert e b1).1 r
          (insert-Insertion_lem e b1 (bucket-HasOrder hash ready.table1 k r.0)).sorted) in
      let in2 = settle-HasOrders (insert e b2) (put2 hash k ready) (
        put2-HasOrders k ready (insert e b2).1 r
          (insert-Insertion_lem e b2 (bucket-HasOrder hash ready.table2 k r.1)).sorted) in
      elim (Bool-cases (not (in_rehashing ready))) [
        | inl idle ↦ rw idle in1
        | inr busy ↦
            rw busy
              (elim (Bool-cases (ltb (home hash ready.table1 k) ready.rehash_move_bucket_index)) [
                | inl gone ↦ rw gone in2
                | inr still ↦ rw still (
                    searched (find k b2) ready (settle hash (insert e b1) (put1 hash k ready)) r
                      in1)
              ])
      ]

  pushed_first :
      (answer : Pushed V) (found : Option V) (kept : TreeHashTable V)
      (out : Pushed V × TreeHashTable V)
      → HasOrders kept
      → HasOrders out.1
      → HasOrders
          (elim answer as (λ x. Pushed V × TreeHashTable V) [
            | pushed ↦ elim found [ some old ↦ (duplicate old, kept) | none ↦ out ]
            | _ ↦ out
          ]).1
  pushed_first pushed none kept out r s = s
  pushed_first pushed (some old) kept out r s = r
  pushed_first null_dereference found kept out r s = s
  pushed_first (duplicate x) found kept out r s = s

  push_ready-HasOrders :
      (wanted : Bool) (height : ℕ) (e : V) (ready : TreeHashTable V)
      → HasOrders ready
      → HasOrders (push_ready hash wanted height e ready).1
  unfolding push_ready
  push_ready-HasOrders wanted height e ready r =
      let k = get_key e in
      let b1 = bucket_of hash ready.table1 k in
      let b2 = bucket_of hash ready.table2 k in
      let push1 = push_with_duplicate wanted height e b1 in
      let push2 = push_with_duplicate wanted height e b2 in
      let kept =
        put1-HasOrders k ready push1.1 r
          (push-HasOrder wanted height e b1 (bucket-HasOrder hash ready.table1 k r.0)) in
      let in1 = settle-HasOrders push1 (put1 hash k ready) kept in
      let in2 = settle-HasOrders push2 (put2 hash k ready) (
        put2-HasOrders k ready push2.1 r
          (push-HasOrder wanted height e b2 (bucket-HasOrder hash ready.table2 k r.1))) in
      elim (Bool-cases (not (in_rehashing ready))) [
        | inl idle ↦ rw idle in1
        | inr busy ↦
            rw busy
              (elim (Bool-cases (ltb (home hash ready.table1 k) ready.rehash_move_bucket_index)) [
                | inl gone ↦ rw gone in2
                | inr still ↦ rw still (
                    pushed_first push1.0 (find k b2) (put1 hash k ready push1.1)
                      (settle hash push1 (put1 hash k ready)) kept in1)
              ])
      ]

  taken :
      (on : Bool) (found1 found2 : Option (ℕ × V)) (out1 out2 : TreeHashTable V)
      → HasOrders out1
      → HasOrders out2
      → HasOrders
          (elim found1 as (λ x. Option (ℕ × V) × TreeHashTable V) [
            | some n ↦ (some n, decrease_used out1)
            | none ↦
                if on
                then elim found2 [ some n ↦ (some n, decrease_used out2) | none ↦ (none, out2) ]
                else (none, out1)
          ]).1
  unfolding decrease_used
  taken on (some n) found2 out1 out2 s1 s2 = s1
  taken true none (some n) out1 out2 s1 s2 = s2
  taken true none none out1 out2 s1 s2 = s2
  taken false none found2 out1 out2 s1 s2 = s1

  pub extract_node-HasOrders :
      (k : Key) (h : TreeHashTable V) → HasOrders h → HasOrders (extract_node hash k h).1
  unfolding extract_node
  extract_node-HasOrders k h s =
      let ready = incremental_rehash hash h in
      let r = incremental_rehash-HasOrders hash h s in
      let x1 = extract k (bucket_of hash ready.table1 k) in
      let x2 = extract k (bucket_of hash ready.table2 k) in
      let s1 =
        put1-HasOrders k ready x1.1 r
          (extract-Extraction_lem k (bucket_of hash ready.table1 k)
            (bucket-HasOrder hash ready.table1 k r.0)).sorted in
      let s2 =
        put2-HasOrders k (put1 hash k ready x1.1) x2.1 s1
          (extract-Extraction_lem k (bucket_of hash ready.table2 k)
            (bucket-HasOrder hash ready.table2 k r.1)).sorted in
      taken (in_rehashing ready) x1.0 x2.0 (put1 hash k ready x1.1)
        (put2 hash k (put1 hash k ready x1.1) x2.1) s1 s2

  -- `insert_with_duplicate`, `push_node`, `find_node` and `extract_node` of a table of trees, with
  -- all the rehashing that they do, keep the values of every tree of both tables sorted.
  pub operations-HasOrders :
      (e : V) (height : ℕ) (wanted : Bool) (k : Key) (h : TreeHashTable V)
      → HasOrders h
      → HasOrders (insert_with_duplicate hash e h).1
        × HasOrders (push_node hash wanted height e h).1
        × HasOrders (find_node hash k h).1
        × HasOrders (extract_node hash k h).1
  unfolding push_node find_node
  operations-HasOrders e height wanted k h s =
      let ready = incremental_rehash-HasOrders hash (rehash h) (rehash-HasOrders h s) in
      (
        insert_with_duplicate-HasOrders e h s,
        push_ready-HasOrders wanted height e (incremental_rehash hash (rehash h)) ready,
        incremental_rehash-HasOrders hash h s,
        extract_node-HasOrders k h s,
      )
