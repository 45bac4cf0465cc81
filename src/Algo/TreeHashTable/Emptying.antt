-- ===== src/Algo/TreeHashTable/Emptying.antt =====
-- The table of trees that the constructor makes, and `Clear`: both are empty maps.
use mmkvc.Prelude.{
  ℕ, zero, suc, ◌≡◌, refl, sym, ap, subst, ◌∙◌, Bool-cases, inl, inr, if◌then◌else◌, leb, List, [],
  ◌∷◌, length, set, take, map, length-map, none,
}
use mmkvc.Algo.Ordered.Sorted.{All}
use mmkvc.Algo.Ordered.Hashed.{Hashed, hashed_order, hashed_keyed}
use mmkvc.Algo.ReservedArray.{shrink_array}
use mmkvc.Algo.AvlTree.Ops.{AvlTree}
use mmkvc.Algo.HashTable.{
  HashTable, Table as ChainTable, new_hash_table, new_table as new_chains, grow as grow_chains,
  clear as clear_chains, shrink as shrink_chains,
}
use mmkvc.Algo.HashTable.Clear.{new_hash_table-IsValid, clear-IsValid}
use mmkvc.Algo.HashTable.Valid.{IsValid, view}
use mmkvc.Algo.TreeHashTable.{
  TreeHashTable, Table, no_nodes, new_tree_hash_table, no_index, in_rehashing, grow, shrink, clear,
}
use mmkvc.Algo.TreeHashTable.Sorted.{HasOrder, HasOrders, All-set}
use mmkvc.Algo.TreeHashTable.Chains.{values, chain_table, chained, map-shrink_array, IsSound}

module _ {V : Type 0} where
  chained-new_tree_hash_table : chained (new_tree_hash_table {V = V}) ≡ new_hash_table
  unfolding new_tree_hash_table grow new_hash_table new_chains grow_chains
  chained-new_tree_hash_table = refl

  All-shrink_array :
      (P : AvlTree V → Type 0) (n : ℕ) (bs : List (AvlTree V))
      → All P bs
      → All P (shrink_array n bs)
  All-shrink_array P n bs ps = elim (Bool-cases (leb (length bs) n)) [
    | inl small ↦ rw small ps
    | inr large ↦ rw large (All-take n bs ps)
  ]
    where
      All-take : (n : ℕ) (bs : List (AvlTree V)) → All P bs → All P (take n bs)
      All-take zero bs ps = tt
      All-take (suc n) [] ps = tt
      All-take (suc n) (b ∷ bs) (p, ps) = (p, All-take n bs ps)

  chain_table-shrink :
      (n : ℕ) (t : Table V) → chain_table (shrink n t) ≡ shrink_chains n (chain_table t)
  unfolding shrink shrink_chains
  chain_table-shrink n t =
      rw (← map-shrink_array n t.buckets)
        (rw (length-map (values {V = V}) (shrink n t).buckets) refl)

  map-four :
      (bs : List (AvlTree V))
      → map values (set (set (set (set bs 0 no_nodes) 1 no_nodes) 2 no_nodes) 3 no_nodes)
        ≡ set (set (set (set (map values bs) 0 []) 1 []) 2 []) 3 []
  map-four [] = refl
  map-four (a ∷ []) = refl
  map-four (a ∷ b ∷ []) = refl
  map-four (a ∷ b ∷ c ∷ []) = refl
  map-four (a ∷ b ∷ c ∷ d ∷ bs) = refl

  chained-clear : (h : TreeHashTable V) → chained (clear h) ≡ clear_chains (chained h)
  unfolding clear clear_chains
  chained-clear h =
      ap (λ bs. cleared bs (chain_table (shrink 4 h.table1)).size_mask (chain_table second))
        (map-four (shrink 4 h.table1).buckets)
      ∙ ap (λ (t : ChainTable V). cleared (four t.buckets) t.size_mask (chain_table second))
          (chain_table-shrink 4 h.table1)
      ∙ ap
          (cleared (four (shrink_chains 4 (chain_table h.table1)).buckets)
            (shrink_chains 4 (chain_table h.table1)).size_mask)
          second_lem
    where
      second : Table V
      second = if in_rehashing h then shrink 0 h.table2 else h.table2

      four : List (List V) → List (List V)
      four cs = set (set (set (set cs 0 []) 1 []) 2 []) 3 []

      cleared : List (List V) → ℕ → ChainTable V → HashTable V
      cleared cs mask t = record {
        table1 = record { buckets = cs; used = 0; size_mask = mask };
        table2 = t;
        rehash_move_bucket_index = no_index;
      }

      second_lem : chain_table second ≡ (
          if in_rehashing h then shrink_chains 0 (chain_table h.table2) else chain_table h.table2)
      second_lem = elim (Bool-cases (in_rehashing h)) [
        | inl on ↦ rw on (chain_table-shrink 0 h.table2)
        | inr off ↦ rw off refl
      ]

module _ {V : Type 0} ⦃s : Hashed V⦄ where
  open s.order use {Key}

  -- The constructor's table is sound, has no entries and counts none.
  pub new_tree_hash_table-IsSound :
      IsSound (new_tree_hash_table {V = V})
      × ((q : Key) → view (chained (new_tree_hash_table {V = V})) q ≡ none)
      × ((new_tree_hash_table {V = V}).table1.used ≡ 0)
  unfolding new_tree_hash_table grow
  new_tree_hash_table-IsSound =
      let n =
        subst (λ c. IsValid c × ((q : Key) → view c q ≡ none)) (sym chained-new_tree_hash_table)
          ((new_hash_table-IsValid {T = V}).0, (new_hash_table-IsValid {T = V}).1) in
      (record { valid = n.0; ordered = ((tt, (tt, (tt, (tt, tt)))), tt) }, n.1, refl)

  clear-HasOrders : (h : TreeHashTable V) → HasOrders h → HasOrders (clear h)
  unfolding clear shrink
  clear-HasOrders h (s1, s2) =
      let empty = λ (bs : List (AvlTree V)) (i : ℕ). All-set HasOrder bs i no_nodes tt in
      let a = All-shrink_array HasOrder 4 h.table1.buckets s1 in
      let b = empty _ 3 (empty _ 2 (empty _ 1 (empty _ 0 a))) in
      elim (Bool-cases (in_rehashing h)) [
        | inl on ↦ rw on (b, All-shrink_array HasOrder 0 h.table2.buckets s2)
        | inr off ↦ rw off (b, s2)
      ]

  -- `clear` on a table of trees that is sound leaves a sound one without entries that counts none,
  -- also in the middle of rehashing.
  pub clear-IsSound :
      (h : TreeHashTable V)
      → IsSound h
      → IsSound (clear h)
        × ((q : Key) → view (chained (clear h)) q ≡ none)
        × ((clear h).table1.used ≡ 0)
  clear-IsSound h v =
      let c =
        subst (λ c. IsValid c × ((q : Key) → view c q ≡ none) × (c.table1.used ≡ 0))
          (sym (chained-clear h)) (clear-IsValid (chained h) v.valid) in
      (record { valid = c.0; ordered = clear-HasOrders h v.ordered }, c.1, c.2)
