-- ===== src/Algo/TreeHashTable/Moving.antt =====
-- Putting nodes into the trees of a table, one or all those of a tree that moves: what that does to
-- the table of chains.
use mmkvc.Prelude.{
  ◌+◌, ◌≤◌, ◌≡◌, refl, sym, ap, subst, ◌∙◌, true, false, if◌then◌else◌, List, [], ◌∷◌, length,
  foldl, none, some, arith,
}
use mmkvc.Algo.Ordered.Sorted.{All, find_in, is_eq}
use mmkvc.Algo.Ordered.Reference.{insert_in, find_in-insert_in}
use mmkvc.Algo.Ordered.Hashed.{Hashed, hashed_order, hashed_keyed}
use mmkvc.Algo.Slist.{search_if}
use mmkvc.Algo.AvlTree.Ops.{AvlTree, push_with_duplicate}
use mmkvc.Algo.AvlTree.Visit.{as_reset}
use mmkvc.Algo.HashTable.{Table as ChainTable, has_key, home as home_chain, bucket_of as chain_of}
use mmkvc.Algo.HashTable.Chain.{to_nat, count, Put, search_if-eq-none}
use mmkvc.Algo.HashTable.Bucket.{IsSized, count_in, Pushed, set_bucket-Pushed}
use mmkvc.Algo.HashTable.Move.{IsSized-same, Moved, Moved-nil, Moved-cons}
use mmkvc.Algo.TreeHashTable.{Table, set_bucket, home, bucket_of, move_node}
use mmkvc.Algo.TreeHashTable.Sorted.{
  HasOrder, bucket-HasOrder, All-set, push-HasOrder, push-Insertion,
}
use mmkvc.Algo.TreeHashTable.Chains.{
  values, chain_table, bucket_of-chain_table, search_if-eq-find_in, chain_table-set_bucket,
}
use mmkvc.Algo.TreeHashTable.Bag.{Reordered}

module _ {T : Type 0} ⦃s : Hashed T⦄ where
  open s.order use {Key, get_key, cmp, cmp_flip}

  length-insert_in :
      (e : T) (xs : List T)
      → find_in (get_key e) xs ≡ none
      → length (insert_in e xs) ≡ length xs + 1
  length-insert_in e [] h = omega arith
  length-insert_in e (x ∷ xs) h = ground (arith, length-insert_in e xs)

  count-insert_in :
      (q : Key) (e : T) (xs : List T)
      → find_in (get_key e) xs ≡ none
      → count q (insert_in e xs) ≡ to_nat (has_key q e) + count q xs
  unfolding count
  count-insert_in q e [] h = omega arith
  count-insert_in q e (x ∷ xs) h = ground (arith, count-insert_in q e xs)

  -- A new entry at its place in the order.
  insert_in-Put : (e : T) (xs : List T) → find_in (get_key e) xs ≡ none → Put e xs (insert_in e xs)
  insert_in-Put e xs h = record {
    longer = length-insert_in e xs h;
    tallies = λ q. count-insert_in q e xs h;
    hits = λ q.
        search_if-eq-find_in q (insert_in e xs)
        ∙ find_in-insert_in q e xs h
        ∙ ap (λ o. if has_key q e then some e else o) (sym (search_if-eq-find_in q xs));
  }

  pub set_tree-Pushed :
      (e : T) (t : Table T) (b : AvlTree T)
      → IsSized (chain_table t)
      → values b ≡ insert_in e (values (bucket_of s.hash t (get_key e)))
      → find_in (get_key e) (values (bucket_of s.hash t (get_key e))) ≡ none
      → Pushed e (chain_table t) (chain_table (set_bucket (home s.hash t (get_key e)) b t))
  unfolding home home_chain
  set_tree-Pushed e t b sized same absent =
      let k = get_key e in
      let old = bucket_of-chain_table t k in
      let put =
        subst (λ c. Put e c (values b)) (sym old)
          (subst (Put e (values (bucket_of s.hash t k))) (sym same)
            (insert_in-Put e (values (bucket_of s.hash t k)) absent)) in
      subst (Pushed e (chain_table t)) (sym (chain_table-set_bucket t (home s.hash t k) b))
        (set_bucket-Pushed e (chain_table t) (values b) sized put)

  absent_in :
      (t : Table T) (k : Key)
      → count_in (chain_table t) k ≡ 0
      → find_in k (values (bucket_of s.hash t k)) ≡ none
  absent_in t k clear =
      sym (search_if-eq-find_in k (values (bucket_of s.hash t k)))
      ∙ ap (search_if (has_key k)) (sym (bucket_of-chain_table t k))
      ∙ search_if-eq-none k (chain_of (chain_table t) k) clear

  move_node-Pushed :
      (v : T) (t : Table T)
      → IsSized (chain_table t)
      → All HasOrder t.buckets
      → count_in (chain_table t) (get_key v) ≡ 0
      → Pushed v (chain_table t) (chain_table (move_node s.hash t 0 v))
  unfolding move_node
  move_node-Pushed v t sized sorted clear =
      let b = bucket_of s.hash t (get_key v) in
      let i = push-Insertion 0 v b (bucket-HasOrder s.hash t (get_key v) sorted) in
      set_tree-Pushed v t (push_with_duplicate false 0 v b).1 sized i.contents
        (absent_in t (get_key v) clear)

  move_node-HasOrder :
      (v : T) (t : Table T) → All HasOrder t.buckets → All HasOrder (move_node s.hash t 0 v).buckets
  unfolding move_node
  move_node-HasOrder v t sorted =
      let b = bucket_of s.hash t (get_key v) in
      All-set HasOrder t.buckets (home s.hash t (get_key v)) (push_with_duplicate false 0 v b).1
        (push-HasOrder false 0 v b (bucket-HasOrder s.hash t (get_key v) sorted)) sorted

  -- Keys that occur nowhere else move as entries do that are put in front of their chains.
  pub move_nodes-Moved :
      (vs : List T) (t : Table T)
      → IsSized (chain_table t)
      → All HasOrder t.buckets
      → ((q : Key) → count q vs + count_in (chain_table t) q ≤ 1)
      → Moved vs (chain_table t) (chain_table (foldl (as_reset (move_node s.hash)) t vs))
  unfolding count
  move_nodes-Moved [] t sized sorted one = Moved-nil (chain_table t)
  move_nodes-Moved (v ∷ vs) t sized sorted one =
      let t1 = move_node s.hash t 0 v in
      let self : has_key (get_key v) v ≡ true = ap is_eq (s.order.cmp_refl (get_key v)) in
      let p = move_node-Pushed v t sized sorted (ground (arith, self, one (get_key v))) in
      Moved-cons v vs (chain_table t) (chain_table t1)
        (chain_table (foldl (as_reset (move_node s.hash)) t1 vs)) p
        (move_nodes-Moved vs t1 (IsSized-same (chain_table t) (chain_table t1) p.mask p.long sized)
          (move_node-HasOrder v t sorted) (λ q. omega (arith, p.counts q, one q)))

  pub Moved-Reordered :
      (c d : List T) (t t' : ChainTable T) → Reordered c d → Moved d t t' → Moved c t t'
  Moved-Reordered c d t t' r m = record {
    mask = m.mask;
    long = m.long;
    total = omega (arith, r.long, m.total);
    place = m.place;
    counts = λ q. omega (arith, r.counts q, m.counts q);
    finds = λ q one. m.finds q (omega (arith, r.counts q)) ∙ rw (r.finds q (omega arith)) refl;
  }
