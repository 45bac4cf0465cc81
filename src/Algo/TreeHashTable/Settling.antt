-- ===== src/Algo/TreeHashTable/Settling.antt =====
-- Rehashing a table of trees, on every path: what a caller can see stays.
use mmkvc.Prelude.{
  ℕ, suc, ◌*◌, ◌%◌, ◌^◌, ◌<◌, ◌≡◌, ◌≢◌, refl, sym, ap, subst, ◌∙◌, false, Bool-cases, inl, inr, not,
  leb, ◌==◌, ◌&&◌, [], length, get_or, map, foldl, arith, length-map, get_or-map, ==_iff,
}
use mmkvc.Algo.Ordered.Hashed.{Hashed, hashed_order, hashed_keyed}
use mmkvc.Algo.AvlTree.Inorder.{inorder}
use mmkvc.Algo.AvlTree.Visit.{postorder, as_reset}
use mmkvc.Algo.HashTable.{
  Table as ChainTable, HashTable, grow as grow_chains, rehash as rehash_chains,
}
use mmkvc.Algo.HashTable.Chain.{count}
use mmkvc.Algo.HashTable.Move.{Moved}
use mmkvc.Algo.HashTable.Rehash.{shift, next_chain, set_bucket-Emptied, shift-Keeps}
use mmkvc.Algo.HashTable.Settle.{take_over, last-Keeps, rehash-Keeps}
use mmkvc.Algo.HashTable.Clear.{cut-zero}
use mmkvc.Algo.HashTable.Valid.{
  Rehashing, in_rehashing-Settled, in_rehashing-Rehashing, view, Keeps, Keeps-refl,
}
use mmkvc.Algo.TreeHashTable.{
  size_mod, Table, TreeHashTable, no_nodes, grow, reset_table, in_rehashing, rehash, finish_rehash,
  move_node, move_next_bucket, incremental_rehash,
}
use mmkvc.Algo.TreeHashTable.Sorted.{
  HasOrders, rehash-HasOrders, incremental_rehash-HasOrders, move_next_bucket_lem,
}
use mmkvc.Algo.TreeHashTable.Chains.{
  values, chain_table, chained, map-grow_array, map-shrink_array, chain_table-set_bucket, IsSound,
}
use mmkvc.Algo.TreeHashTable.Bag.{postorder-Reordered}
use mmkvc.Algo.TreeHashTable.Moving.{move_nodes-Moved, Moved-Reordered}

module _ {V : Type 0} where
  chain_table-grow : (n : ℕ) (t : Table V) → chain_table (grow n t) ≡ grow_chains n (chain_table t)
  unfolding grow grow_chains
  chain_table-grow n t =
      rw (← map-grow_array n t.buckets) (rw (length-map (values {V = V}) (grow n t).buckets) refl)

  chained-rehash : (h : TreeHashTable V) → chained (rehash h) ≡ rehash_chains (chained h)
  unfolding rehash rehash_chains
  chained-rehash h =
      rw (length-map (values {V = V}) h.table1.buckets)
        (elim (Bool-cases (not (in_rehashing h) && leb (length h.table1.buckets) h.table1.used)) [
          | inl full ↦ rw full (
              ap (λ t. record (chained h) { table2 = t; rehash_move_bucket_index = 0 })
                (chain_table-grow (length h.table1.buckets * 2 % size_mod) h.table2))
          | inr room ↦ rw room refl
        ])

  -- the second table after `swap` and `Reset`, as chains
  emptied : TreeHashTable V → ChainTable V
  emptied h = record (chain_table h.table2) { buckets = []; size_mask = h.table1.size_mask }

  chained-finish_rehash :
      (h : TreeHashTable V)
      → 0 < length h.table2.buckets
      → chained (finish_rehash h) ≡ take_over (chained h) (emptied h)
  unfolding finish_rehash reset_table emptied
  chained-finish_rehash h some_trees =
      let full : leb (length h.table2.buckets) 0 ≡ false = ground arith in
      rw full (
        rw (map-shrink_array 0 h.table1.buckets) (rw (cut-zero (map values h.table1.buckets)) refl))

module _ {V : Type 0} ⦃s : Hashed V⦄ where
  open s.order use {Key}

  pub rehash-Keeps_lem :
      (h : TreeHashTable V)
      → IsSound h
      → length h.table1.buckets < 2 ^ 63
      → Keeps (chained h) (chained (rehash h))
  rehash-Keeps_lem h v room = subst (Keeps (chained h)) (sym (chained-rehash h)) (
      rehash-Keeps (chained h) v.valid
        (omega (arith, length-map (values {V = V}) h.table1.buckets)))

  -- the second table after the next tree moved
  abbrev filled : TreeHashTable V → Table V
  filled h =
      foldl (as_reset (move_node s.hash)) h.table2
        (postorder (get_or h.table1.buckets h.rehash_move_bucket_index no_nodes).root)

  chained-move_next_bucket :
      (h : TreeHashTable V)
      → chained (move_next_bucket s.hash h) ≡ shift (chained h) (chain_table (filled h))
  chained-move_next_bucket h =
      ap chained (move_next_bucket_lem s.hash h)
      ∙ ap
          (λ t. record {
            table1 = t;
            table2 = chain_table (filled h);
            rehash_move_bucket_index = suc h.rehash_move_bucket_index;
          })
          (chain_table-set_bucket h.table1 h.rehash_move_bucket_index no_nodes)

  filled-Moved :
      (h : TreeHashTable V)
      → IsSound h
      → Rehashing (chained h)
      → Moved (next_chain (chained h)) (chain_table h.table2) (chain_table (filled h))
  filled-Moved h v r =
      let i = h.rehash_move_bucket_index in
      let b = get_or h.table1.buckets i no_nodes in
      let same : next_chain (chained h) ≡ inorder b.root =
        get_or-map values h.table1.buckets i no_nodes in
      let e = set_bucket-Emptied (chain_table h.table1) i r.at v.valid.placed1 in
      let bag = postorder-Reordered b.root in
      let once = λ (q : Key). ap (count q) same in
      subst (λ c. Moved c (chain_table h.table2) (chain_table (filled h))) (sym same)
        (Moved-Reordered (inorder b.root) (postorder b.root) (chain_table h.table2)
          (chain_table (filled h)) bag
          (move_nodes-Moved (postorder b.root) h.table2 r.sized2 v.ordered.1
            (λ q. omega (arith, bag.counts q, once q, e.counts q, v.valid.unique q))))

  move_next_bucket-Keeps :
      (h : TreeHashTable V)
      → IsSound h
      → Rehashing (chained h)
      → suc h.rehash_move_bucket_index ≢ length h.table1.buckets
      → Keeps (chained h) (chained (move_next_bucket s.hash h))
  move_next_bucket-Keeps h v r more = subst (Keeps (chained h)) (sym (chained-move_next_bucket h)) (
      shift-Keeps (chained h) (chain_table (filled h)) v.valid r (filled-Moved h v r)
        (λ e. more (e ∙ length-map (values {V = V}) h.table1.buckets)))

  finish_rehash-Keeps :
      (h : TreeHashTable V)
      → IsSound h
      → Rehashing (chained h)
      → suc h.rehash_move_bucket_index ≡ length h.table1.buckets
      → Keeps (chained h) (chained (finish_rehash (move_next_bucket s.hash h)))
  unfolding emptied
  finish_rehash-Keeps h v r last =
      let g = move_next_bucket s.hash h in
      let m = filled-Moved h v r in
      let state = chained-move_next_bucket h in
      let trees : length g.table2.buckets ≡ length h.table2.buckets =
        sym (length-map (values {V = V}) g.table2.buckets)
        ∙ ap (λ (c : HashTable V). length c.table2.buckets) state
        ∙ m.long
        ∙ length-map (values {V = V}) h.table2.buckets in
      subst (Keeps (chained h))
        (sym (
          chained-finish_rehash g (
            omega (
              arith,
              trees,
              length-map (values {V = V}) h.table2.buckets,
              r.longer,
              v.valid.at_least,
            ))
          ∙ ap (λ c. take_over c (emptied g)) state))
        (last-Keeps (chained h) (chain_table (filled h)) (emptied g) v.valid r m
          (last ∙ sym (length-map (values {V = V}) h.table1.buckets)) refl)

  -- A step that moves entries about and changes nothing that a caller can see.
  pub record Kept (h h' : TreeHashTable V) : Type 0 where
    pub sound : IsSound h'
    pub views : (q : Key) → view (chained h') q ≡ view (chained h) q
    pub sizes : h'.table1.used ≡ h.table1.used

  Kept-of : (h h' : TreeHashTable V) → HasOrders h' → Keeps (chained h) (chained h') → Kept h h'
  Kept-of h h' ordered k = record {
    sound = record { valid = k.valid; ordered = ordered };
    views = k.views;
    sizes = k.sizes;
  }

  pub Kept-trans : (a b c : TreeHashTable V) → Kept a b → Kept b c → Kept a c
  Kept-trans a b c x y = record {
    sound = y.sound;
    views = λ q. y.views q ∙ x.views q;
    sizes = y.sizes ∙ x.sizes;
  }

  next_index :
      (h : TreeHashTable V)
      → (move_next_bucket s.hash h).rehash_move_bucket_index ≡ suc h.rehash_move_bucket_index
  next_index h = ap (λ g. g.rehash_move_bucket_index) (move_next_bucket_lem s.hash h)

  incremental_rehash-chained :
      (h : TreeHashTable V) → IsSound h → Keeps (chained h) (chained (incremental_rehash s.hash h))
  unfolding incremental_rehash
  incremental_rehash-chained h v = elim v.valid.phase [
    | inl settled ↦ rw (in_rehashing-Settled (chained h) settled) (Keeps-refl (chained h) v.valid)
    | inr moving ↦
        let going = in_rehashing-Rehashing (chained h) moving v.valid.short1 in
        let next = next_index h in
        elim (Bool-cases
          ((move_next_bucket s.hash h).rehash_move_bucket_index == length h.table1.buckets)) [
            | inl last ↦
                rw going (rw last (finish_rehash-Keeps h v moving (sym next ∙ (==_iff _ _).0 last)))
            | inr more ↦
                rw going (rw more (move_next_bucket-Keeps h v moving (λ e. ground (arith, next))))
          ]
  ]

  -- On a table of trees that is sound, `incremental_rehash`, which moves the nodes of the next
  -- tree over, the end of rehashing included, keeps the table sound, and changes neither the entry
  -- of a key nor the size.
  pub incremental_rehash-Kept :
      (h : TreeHashTable V) → IsSound h → Kept h (incremental_rehash s.hash h)
  incremental_rehash-Kept h v =
      Kept-of h (incremental_rehash s.hash h) (incremental_rehash-HasOrders s.hash h v.ordered)
        (incremental_rehash-chained h v)

  pub rehash-Kept :
      (h : TreeHashTable V) → IsSound h → length h.table1.buckets < 2 ^ 63 → Kept h (rehash h)
  rehash-Kept h v room =
      Kept-of h (rehash h) (rehash-HasOrders h v.ordered) (rehash-Keeps_lem h v room)
