-- ===== src/Algo/TreeHashTable/Chains.antt =====
-- A table of trees read as a table of chains: every tree stands for the list of its values in order.
use mmkvc.Prelude.{
  ℕ, zero, suc, take, ◌-◌, ◌≡◌, refl, sym, ap, ◌∙◌, Bool-cases, inl, inr, leb, List, [], ◌∷◌, ◌++◌,
  length, set, replicate, map, length-map, get_or-map, map-set, map-replicate, map-append,
}
use mmkvc.Algo.Ordered.Sorted.{find_in, All}
use mmkvc.Algo.Ordered.Reference.{erase_in}
use mmkvc.Algo.Ordered.Hashed.{Hashed, hashed_order, hashed_keyed}
use mmkvc.Algo.ReservedArray.{grow_array, shrink_array}
use mmkvc.Algo.Slist.{search_if, extract_node_if, keep_front}
use mmkvc.Algo.AvlTree.Inorder.{inorder}
use mmkvc.Algo.AvlTree.Locate.{find-eq-find_in}
use mmkvc.Algo.AvlTree.Ops.{AvlTree, find}
use mmkvc.Algo.HashTable.{
  Table as ChainTable, HashTable, has_key, home as home_chain, bucket_of as chain_of,
}
use mmkvc.Algo.HashTable.Bucket.{lookup}
use mmkvc.Algo.HashTable.Valid.{IsValid}
use mmkvc.Algo.TreeHashTable.{Table, TreeHashTable, no_nodes, set_bucket, home, bucket_of}
use mmkvc.Algo.TreeHashTable.Sorted.{HasOrder, HasOrders, All-get_or}

module _ {V : Type 0} where
  abbrev pub values : AvlTree V → List V
  values b = inorder b.root

  abbrev pub chain_table : Table V → ChainTable V
  chain_table t = record { buckets = map values t.buckets; used = t.used; size_mask = t.size_mask }

  abbrev pub chained : TreeHashTable V → HashTable V
  chained h = record {
    table1 = chain_table h.table1;
    table2 = chain_table h.table2;
    rehash_move_bucket_index = h.rehash_move_bucket_index;
  }

  pub map-grow_array :
      (n : ℕ) (bs : List (AvlTree V))
      → map values (grow_array no_nodes n bs) ≡ grow_array [] n (map values bs)
  map-grow_array n bs = rw (length-map values bs) (elim (Bool-cases (leb n (length bs))) [
    | inl small ↦ rw small refl
    | inr large ↦ rw large (
        map-append values bs (replicate (n - length bs) no_nodes)
        ∙ ap (λ ys. map values bs ++ ys) (map-replicate values (n - length bs) no_nodes))
  ])

  map-take : (n : ℕ) (bs : List (AvlTree V)) → map values (take n bs) ≡ take n (map values bs)
  map-take zero bs = refl
  map-take (suc n) [] = refl
  map-take (suc n) (b ∷ bs) = ap (◌∷◌ (values b)) (map-take n bs)

  pub map-shrink_array :
      (n : ℕ) (bs : List (AvlTree V))
      → map values (shrink_array n bs) ≡ shrink_array n (map values bs)
  map-shrink_array n bs = rw (length-map values bs) (elim (Bool-cases (leb (length bs) n)) [
    | inl small ↦ rw small refl
    | inr large ↦ rw large (map-take n bs)
  ])

module _ {V : Type 0} ⦃s : Hashed V⦄ where
  open s.order use {Key, get_key, cmp}

  pub bucket_of-chain_table :
      (t : Table V) (k : Key) → chain_of (chain_table t) k ≡ values (bucket_of s.hash t k)
  unfolding home home_chain
  bucket_of-chain_table t k = get_or-map values t.buckets (home s.hash t k) no_nodes

  pub search_if-eq-find_in : (k : Key) (xs : List V) → search_if (has_key k) xs ≡ find_in k xs
  unfolding search_if
  search_if-eq-find_in k [] = refl
  search_if-eq-find_in k (x ∷ xs) = rw (search_if-eq-find_in k xs) refl

  -- What a sorted tree finds is what the chain of its values does.
  pub find-lookup :
      (t : Table V) (k : Key)
      → All HasOrder t.buckets
      → find k (bucket_of s.hash t k) ≡ lookup (chain_table t) k
  find-lookup t k sorted =
      find-eq-find_in k (bucket_of s.hash t k)
        (All-get_or HasOrder t.buckets (home s.hash t k) no_nodes tt sorted)
      ∙ sym (search_if-eq-find_in k (values (bucket_of s.hash t k)))
      ∙ ap (search_if (has_key k)) (sym (bucket_of-chain_table t k))

  pub extract_node_if-erase_in :
      (k : Key) (xs : List V)
      → ((extract_node_if (has_key k) xs).0 ≡ find_in k xs)
        × ((extract_node_if (has_key k) xs).1 ≡ erase_in k xs)
  unfolding extract_node_if keep_front
  extract_node_if-erase_in k [] = (refl, refl)
  extract_node_if-erase_in k (x ∷ xs) = elim (Bool-cases (has_key k x)) [
    | inl hit ↦ rw hit (refl, refl)
    | inr miss ↦
        let (found, rest) = extract_node_if-erase_in k xs in rw miss (found, ap (◌∷◌ x) rest)
  ]

  -- writing the tree of a key
  pub chain_table-set_bucket :
      (t : Table V) (i : ℕ) (b : AvlTree V)
      → chain_table (set_bucket i b t)
        ≡ record (chain_table t) { buckets = set (map values t.buckets) i (values b) }
  chain_table-set_bucket t i b =
      ap (λ cs. record (chain_table t) { buckets = cs }) (map-set values t.buckets i b)

  -- What holds of a table of trees between its operations.
  pub record IsSound (h : TreeHashTable V) : Type 0 where
    pub valid : IsValid (chained h)
    pub ordered : HasOrders h
