-- ===== src/Algo/TreeHashTable/Inserting.antt =====
-- Insertion into a table of trees, on every path.
use mmkvc.Prelude.{
  ◌+◌, ◌^◌, ◌≤◌, ◌<◌, ◌≡◌, refl, sym, ap, ◌∙◌, Bool-cases, inl, inr, if◌then◌else◌, not, ltb,
  length, Option, none, some, arith,
}
use mmkvc.Algo.Ordered.Hashed.{Hashed, hashed_order, hashed_keyed}
use mmkvc.Algo.AvlTree.Ops.{Pushed, duplicate, insert, find}
use mmkvc.Algo.AvlTree.Insert.{answer_by, insert-Insertion_lem}
use mmkvc.Algo.HashTable.{HashTable, home as home_chain, bucket_of as chain_of}
use mmkvc.Algo.HashTable.Chain.{search_if-eq-none}
use mmkvc.Algo.HashTable.Bucket.{lookup, count_in}
use mmkvc.Algo.HashTable.Move.{or_else, or_else-none}
use mmkvc.Algo.HashTable.KeyMap.{map_insert}
use mmkvc.Algo.HashTable.Valid.{
  Settled, Rehashing, in_rehashing-Settled, in_rehashing-Rehashing, IsValid, view,
}
use mmkvc.Algo.HashTable.Emplace.{
  view-Settled, emptied-lookup, Settled-Emplaced, Rehashing-Emplaced,
}
use mmkvc.Algo.TreeHashTable.{
  size_mod, TreeHashTable, in_rehashing, home, bucket_of, increase_used, put1, put2, settle, rehash,
  incremental_rehash, insert_with_duplicate,
}
use mmkvc.Algo.TreeHashTable.Sorted.{bucket-HasOrder}
use mmkvc.Algo.TreeHashTable.Keeps.{insert_with_duplicate-HasOrders}
use mmkvc.Algo.TreeHashTable.Chains.{chain_table, chained, find-lookup, IsSound}
use mmkvc.Algo.TreeHashTable.Settling.{Kept-trans, rehash-Kept, incremental_rehash-Kept}
use mmkvc.Algo.TreeHashTable.Outcome.{Outcome, present-Outcome, settle-Outcome, Outcome-seen}
use mmkvc.Algo.TreeHashTable.Planting.{Planted, Insertion-Planted, emptied_set, first-Emplaced}

module _ {V : Type 0} ⦃s : Hashed V⦄ where
  open s.order use {Key, get_key}

  plant :
      (e : V) (ready : TreeHashTable V)
      → IsSound ready
      → Planted e ready.table1 (insert e (bucket_of s.hash ready.table1 (get_key e)))
        × Planted e ready.table2 (insert e (bucket_of s.hash ready.table2 (get_key e)))
  plant e ready v =
      let k = get_key e in
      let b1 = bucket_of s.hash ready.table1 k in
      let b2 = bucket_of s.hash ready.table2 k in
      let s1 = bucket-HasOrder s.hash ready.table1 k v.ordered.0 in
      let s2 = bucket-HasOrder s.hash ready.table2 k v.ordered.1 in
      (
        Insertion-Planted e ready.table1 (insert e b1) s1 (insert-Insertion_lem e b1 s1),
        Insertion-Planted e ready.table2 (insert e b2) s2 (insert-Insertion_lem e b2 s2),
      )

  -- the state and answer when the entry goes to the first table, and to the second
  abbrev in1 : V → TreeHashTable V → Pushed V × TreeHashTable V
  in1 e ready =
      settle s.hash (insert e (bucket_of s.hash ready.table1 (get_key e)))
        (put1 s.hash (get_key e) ready)

  abbrev in2 : V → TreeHashTable V → Pushed V × TreeHashTable V
  in2 e ready =
      settle s.hash (insert e (bucket_of s.hash ready.table2 (get_key e)))
        (put2 s.hash (get_key e) ready)

  Settled-Outcome :
      (e : V) (ready : TreeHashTable V)
      → IsSound ready
      → ready.table1.used + 1 < size_mod
      → Settled (chained ready)
      → Outcome e (chained ready) (in1 e ready).0 (chained (in1 e ready).1)
  unfolding increase_used
  Settled-Outcome e ready v room idle =
      let k = get_key e in
      let c = chained ready in
      let out = insert e (bucket_of s.hash ready.table1 k) in
      let p = (plant e ready v).0 in
      let seen = view-Settled c k idle in
      settle-Outcome e ready out (put1 s.hash k ready) v.valid
        (p.answers ∙ ap (answer_by duplicate) (sym seen))
        (λ old there. ap (λ t. record c { table1 = t }) (p.stays old (sym seen ∙ there)))
        (λ absent.
          Settled-Emplaced e c (chain_table (put1 s.hash k ready out.1).table1) v.valid room absent
            idle (p.grows (sym seen ∙ absent) v.valid.sized1))

  -- Where the tree of the key has moved, the entry goes to the second table.
  in2-Outcome :
      (e : V) (ready : TreeHashTable V)
      → IsSound ready
      → ready.table1.used + 1 < size_mod
      → Rehashing (chained ready)
      → home s.hash ready.table1 (get_key e) < ready.rehash_move_bucket_index
      → Outcome e (chained ready) (in2 e ready).0 (chained (in2 e ready).1)
  unfolding increase_used view home home_chain
  in2-Outcome e ready v room r below =
      let k = get_key e in
      let c = chained ready in
      let out = insert e (bucket_of s.hash ready.table2 k) in
      let p = (plant e ready v).1 in
      let seen : view c k ≡ lookup c.table2 k =
        ap (λ a. or_else a (lookup c.table2 k)) (emptied-lookup c k r below) in
      settle-Outcome e ready out (put2 s.hash k ready) v.valid
        (p.answers ∙ ap (answer_by duplicate) (sym seen))
        (λ old there. ap (λ t. record c { table2 = t }) (p.stays old (sym seen ∙ there)))
        (λ absent.
          Rehashing-Emplaced e c (chain_table (put2 s.hash k ready out.1).table2) v.valid room
            absent r (p.grows (sym seen ∙ absent) r.sized2))

  -- Where the tree of the key has not moved, and the second table has no entry of it.
  in1-Outcome :
      (e : V) (ready : TreeHashTable V)
      → IsSound ready
      → ready.table1.used + 1 < size_mod
      → Rehashing (chained ready)
      → ready.rehash_move_bucket_index ≤ home s.hash ready.table1 (get_key e)
      → lookup (chain_table ready.table2) (get_key e) ≡ none
      → Outcome e (chained ready) (in1 e ready).0 (chained (in1 e ready).1)
  unfolding increase_used view
  in1-Outcome e ready v room r above other =
      let k = get_key e in
      let c = chained ready in
      let i = home s.hash ready.table1 k in
      let out = insert e (bucket_of s.hash ready.table1 k) in
      let p = (plant e ready v).0 in
      let seen : view c k ≡ lookup c.table1 k =
        ap (or_else (lookup c.table1 k)) other ∙ or_else-none (lookup c.table1 k) in
      settle-Outcome e ready out (put1 s.hash k ready) v.valid
        (p.answers ∙ ap (answer_by duplicate) (sym seen))
        (λ old there. ap (λ t. record c { table1 = t }) (p.stays old (sym seen ∙ there)))
        (λ absent.
          first-Emplaced e c (chain_table (put1 s.hash k ready out.1).table1) v.valid room absent r
            (p.grows (sym seen ∙ absent) v.valid.sized1)
            (emptied_set ready.table1 i ready.rehash_move_bucket_index out.1 above r.emptied))

  -- A key with an entry in the second table has none in the first.
  second-view :
      (k : Key) (old : V) (c : HashTable V)
      → IsValid c
      → lookup c.table2 k ≡ some old
      → view c k ≡ some old
  unfolding view
  second-view k old c v there =
      let busy : count_in c.table2 k ≡ 0 → none ≡ some old =
        λ no_entry. sym (search_if-eq-none k (chain_of c.table2 k) no_entry) ∙ there in
      let clear : count_in c.table1 k ≡ 0 = grind (arith, busy, v.unique k) in
      ap (λ a. or_else a (lookup c.table2 k)) (search_if-eq-none k (chain_of c.table1 k) clear)
      ∙ there

  still_busy :
      (e : V) (ready : TreeHashTable V) (other : Option V)
      → IsSound ready
      → ready.table1.used + 1 < size_mod
      → Rehashing (chained ready)
      → ready.rehash_move_bucket_index ≤ home s.hash ready.table1 (get_key e)
      → other ≡ lookup (chain_table ready.table2) (get_key e)
      → let out = elim other as (λ x. Pushed V × TreeHashTable V) [
        | some old ↦ (duplicate old, ready)
        | none ↦ in1 e ready
      ] in
        Outcome e (chained ready) out.0 (chained out.1)
  still_busy e ready none v room r above same = in1-Outcome e ready v room r above (sym same)
  still_busy e ready (some old) v room r above same =
      present-Outcome e old (chained ready) (chained ready) v.valid
        (second-view (get_key e) old (chained ready) v.valid (sym same)) refl

  -- What is asked of the state and the outcome of an insertion into a table of trees.
  pub record Stored (e : V) (h : TreeHashTable V) (out : Pushed V × TreeHashTable V) : Type 0 where
    pub answers : out.0 ≡ answer_by duplicate (view (chained h) (get_key e))
    pub sound : IsSound out.1
    pub views : (q : Key) → view (chained out.1) q ≡ (map_insert e (view (chained h))).1 q
    pub sizes : out.1.table1.used ≡ (elim (view (chained h) (get_key e)) [
      | some old ↦ h.table1.used
      | none ↦ h.table1.used + 1
    ])

  ready-Outcome :
      (e : V) (ready : TreeHashTable V)
      → IsSound ready
      → ready.table1.used + 1 < size_mod
      → let out =
          if not (in_rehashing ready)
          then in1 e ready
          else if ltb (home s.hash ready.table1 (get_key e)) ready.rehash_move_bucket_index
          then in2 e ready
          else elim (find (get_key e) (bucket_of s.hash ready.table2 (get_key e)))
              as (λ x. Pushed V × TreeHashTable V) [
                | some old ↦ (duplicate old, ready)
                | none ↦ in1 e ready
              ] in
        Outcome e (chained ready) out.0 (chained out.1)
  ready-Outcome e ready v room =
      let k = get_key e in
      let c = chained ready in
      elim v.valid.phase [
        | inl idle ↦ rw (in_rehashing-Settled c idle) (Settled-Outcome e ready v room idle)
        | inr r ↦
            rw (in_rehashing-Rehashing c r v.valid.short1)
              (elim (Bool-cases (ltb (home s.hash ready.table1 k) ready.rehash_move_bucket_index)) [
                | inl below ↦ rw below (in2-Outcome e ready v room r (ground arith))
                | inr above ↦ rw above (
                    still_busy e ready (find k (bucket_of s.hash ready.table2 k)) v room r
                      (ground arith) (find-lookup ready.table2 k v.ordered.1))
              ])
      ]

  -- `insert_with_duplicate` on a table of trees that is sound and has room for twice as many trees
  -- and one more entry does what insertion into the map of keys to entries does: it answers with
  -- the entry that has the key and changes no entry, or adds the new entry and counts it; the
  -- table stays sound. This holds in the middle of rehashing too, when the entry may go to either
  -- table.
  pub insert_with_duplicate-Stored :
      (e : V) (h : TreeHashTable V)
      → IsSound h
      → length h.table1.buckets < 2 ^ 63
      → h.table1.used + 1 < size_mod
      → Stored e h (insert_with_duplicate s.hash e h)
  unfolding insert_with_duplicate
  insert_with_duplicate-Stored e h v wide room =
      let first = rehash-Kept h v wide in
      let ready = incremental_rehash s.hash (rehash h) in
      let k =
        Kept-trans h (rehash h) ready first (incremental_rehash-Kept (rehash h) first.sound) in
      let o =
        Outcome-seen e (chained h) (chained ready) _ _ k.views k.sizes
          (ready-Outcome e ready k.sound (omega (arith, k.sizes))) in
      record {
        answers = o.answers;
        sound = record {
          valid = o.valid;
          ordered = insert_with_duplicate-HasOrders s.hash e h v.ordered;
        };
        views = o.views;
        sizes = o.sizes;
      }
