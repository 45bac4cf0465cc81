-- ===== src/Algo/TreeHashTable/Sorted.antt =====
-- That every tree of a table stays sorted, through rehashing too.
use mmkvc.Prelude.{
  ℕ, zero, suc, ◌-◌, ◌*◌, ◌%◌, ◌≡◌, refl, sym, subst, inl, inr, Bool, false, Bool-cases,
  if◌then◌else◌, not, leb, ◌==◌, ◌&&◌, List, [], ◌∷◌, length, get_or, set, replicate, foldl,
}
use mmkvc.Algo.Ordered.{Ordered}
use mmkvc.Algo.Ordered.Sorted.{All, All-append, IsSorted}
use mmkvc.Algo.ReservedArray.{grow_array, shrink_array}
use mmkvc.Algo.AvlTree.Node.{Tree, leaf, node}
use mmkvc.Algo.AvlTree.Inorder.{inorder}
use mmkvc.Algo.AvlTree.Locate.{Ordering-cases}
use mmkvc.Algo.AvlTree.Ops.{
  AvlTree, Pushed, null_dereference, duplicate, insert_at, push_with_duplicate,
}
use mmkvc.Algo.AvlTree.Insert.{Insertion, insert_at-Insertion}
use mmkvc.Algo.AvlTree.Visit.{reuse_all_nodes-postorder, postorder, as_reset}
use mmkvc.Algo.TreeHashTable.{
  size_mod, Table, TreeHashTable, no_nodes, grow, reset_table, in_rehashing, set_bucket, rehash,
  finish_rehash, home, bucket_of, move_node, move_next_bucket, incremental_rehash,
}

module _ {A : Type 0} (P : A → Type 0) where
  pub All-get_or : (xs : List A) (i : ℕ) (d : A) → P d → All P xs → P (get_or xs i d)
  All-get_or [] i d p ps = p
  All-get_or (x ∷ xs) zero d p (q, ps) = q
  All-get_or (x ∷ xs) (suc i) d p (q, ps) = All-get_or xs i d p ps

  pub All-set : (xs : List A) (i : ℕ) (v : A) → P v → All P xs → All P (set xs i v)
  All-set [] i v p ps = tt
  All-set (x ∷ xs) zero v p (q, ps) = (p, ps)
  All-set (x ∷ xs) (suc i) v p (q, ps) = (q, All-set xs i v p ps)

  All-replicate : (n : ℕ) (d : A) → P d → All P (replicate n d)
  All-replicate zero d p = tt
  All-replicate (suc n) d p = (p, All-replicate n d p)

  All-grow_array : (d : A) (n : ℕ) (xs : List A) → P d → All P xs → All P (grow_array d n xs)
  All-grow_array d n xs p ps = elim (Bool-cases (leb n (length xs))) [
    | inl small ↦ rw small ps
    | inr large ↦
        rw large
          (All-append P xs (replicate (n - length xs) d) ps (All-replicate (n - length xs) d p))
  ]

module _ {V : Type 0} ⦃o : Ordered V⦄ where
  open o use {Key, get_key, cmp}

  abbrev pub HasOrder : AvlTree V → Type 0
  HasOrder b = IsSorted (inorder b.root)

  abbrev pub HasOrders : TreeHashTable V → Type 0
  HasOrders h = All HasOrder h.table1.buckets × All HasOrder h.table2.buckets

  -- what an insertion leaves does not depend on its answer
  insert_at_same :
      (f g : V → Pushed V) (h : ℕ) (e : V) (root : Tree V) (count : ℕ)
      → (insert_at f h e root count).1 ≡ (insert_at g h e root count).1
  unfolding insert_at
  insert_at_same f g h e leaf count = refl
  insert_at_same f g h e (node rh leaf rv leaf) count =
      elim (Ordering-cases (cmp (get_key e) (get_key rv))) [
        | inl less ↦ rw (less, insert_at) refl
        | inr (inl equal) ↦ rw (equal, insert_at) refl
        | inr (inr more) ↦ rw (more, insert_at) refl
      ]
  insert_at_same f g h e (node rh (node lh ll lv lr) rv r) count = refl
  insert_at_same f g h e (node rh leaf rv (node h' l' v' r')) count = refl

  pub push-HasOrder :
      (wanted : Bool) (h : ℕ) (e : V) (b : AvlTree V)
      → HasOrder b
      → HasOrder (push_with_duplicate wanted h e b).1
  unfolding push_with_duplicate
  push-HasOrder wanted h e b s =
      let f = λ (old : V). if wanted then null_dereference else duplicate old in
      subst HasOrder (insert_at_same duplicate f h e b.root b.count)
        (insert_at-Insertion h e b.root b.count s).sorted

  pub push-Insertion :
      (h : ℕ) (e : V) (b : AvlTree V)
      → HasOrder b
      → Insertion duplicate e (inorder b.root) (push_with_duplicate false h e b)
  unfolding push_with_duplicate
  push-Insertion h e b s = insert_at-Insertion h e b.root b.count s

  pub rehash-HasOrders : (h : TreeHashTable V) → HasOrders h → HasOrders (rehash h)
  unfolding rehash grow
  rehash-HasOrders h (s1, s2) =
      elim (Bool-cases (not (in_rehashing h) && leb (length h.table1.buckets) h.table1.used)) [
        | inl full ↦ rw full (
          s1,
          All-grow_array HasOrder no_nodes (length h.table1.buckets * 2 % size_mod) h.table2.buckets
              tt s2,
        )
        | inr room ↦ rw room (s1, s2)
      ]

  finish_rehash-HasOrders : (h : TreeHashTable V) → HasOrders h → HasOrders (finish_rehash h)
  unfolding finish_rehash reset_table
  finish_rehash-HasOrders h (s1, s2) = elim (Bool-cases (leb (length h.table2.buckets) 0)) [
    | inl empty ↦ rw empty (s1, s2)
    | inr full ↦ rw full (s2, emptied h.table1.buckets s1)
  ]
    where
      emptied : (xs : List (AvlTree V)) → All HasOrder xs → All HasOrder (shrink_array 0 xs)
      emptied [] s = tt
      emptied (x ∷ xs) s = elim (Bool-cases (leb (suc (length xs)) 0)) [
        | inl no_more ↦ rw no_more s
        | inr more ↦ rw more tt
      ]

module _ {V : Type 0} ⦃o : Ordered V⦄ (hash : o.Key → ℕ) where
  open o use {Key, get_key}

  pub bucket-HasOrder :
      (t : Table V) (k : Key) → All HasOrder t.buckets → HasOrder (bucket_of hash t k)
  bucket-HasOrder t k sorted = All-get_or HasOrder t.buckets (home hash t k) no_nodes tt sorted

  -- The fuel of a move is enough: the nodes of one tree go to the other table, children before parents, with
  -- the height 0.
  pub move_next_bucket_lem :
      (h : TreeHashTable V)
      → let i = h.rehash_move_bucket_index in
        move_next_bucket hash h ≡ record {
          table1 = set_bucket i no_nodes h.table1;
          table2 =
              foldl
                (as_reset (move_node hash))
                h.table2
                (postorder (get_or h.table1.buckets i no_nodes).root);
          rehash_move_bucket_index = suc i;
        }
  unfolding move_next_bucket
  move_next_bucket_lem h =
      let bucket = get_or h.table1.buckets h.rehash_move_bucket_index no_nodes in
      rw (reuse_all_nodes-postorder (move_node hash) h.table2 bucket, move_next_bucket) refl

  moved-HasOrder :
      (vs : List V) (t : Table V)
      → All HasOrder t.buckets
      → All HasOrder (foldl (as_reset (move_node hash)) t vs).buckets
  unfolding move_node
  moved-HasOrder [] t s = s
  moved-HasOrder (v ∷ vs) t s =
      let old = bucket_of hash t (get_key v) in
      let old-HasOrder = bucket-HasOrder t (get_key v) s in
      moved-HasOrder vs (move_node hash t 0 v) (
        All-set HasOrder t.buckets (home hash t (get_key v)) (push_with_duplicate false 0 v old).1
          (push-HasOrder false 0 v old old-HasOrder) s)

  move_next_bucket-HasOrders :
      (h : TreeHashTable V) → HasOrders h → HasOrders (move_next_bucket hash h)
  move_next_bucket-HasOrders h (s1, s2) =
      let i = h.rehash_move_bucket_index in
      subst HasOrders (sym (move_next_bucket_lem h)) (
        All-set HasOrder h.table1.buckets i no_nodes tt s1,
        moved-HasOrder (postorder (get_or h.table1.buckets i no_nodes).root) h.table2 s2,
      )

  pub incremental_rehash-HasOrders :
      (h : TreeHashTable V) → HasOrders h → HasOrders (incremental_rehash hash h)
  unfolding incremental_rehash
  incremental_rehash-HasOrders h s = elim (Bool-cases (in_rehashing h)) [
    | inl on ↦
        let moved = move_next_bucket-HasOrders h s in
        rw on
          (elim (Bool-cases
            ((move_next_bucket hash h).rehash_move_bucket_index == length h.table1.buckets)) [
              | inl last ↦ rw last (finish_rehash-HasOrders (move_next_bucket hash h) moved)
              | inr more ↦ rw more moved
            ])
    | inr off ↦ rw off s
  ]
