-- ===== src/Algo/TableIterator/Entries.antt =====
-- What a loop over a valid table sees: every entry of the table's view as a map, once.
use mmkvc.Prelude.{
  ℕ, zero, suc, ◌≤◌, ◌<◌, ◌≡◌, ◌≢◌, refl, ap, ◌∙◌, inl, inr, List, [], ◌∷◌, ◌++◌, length, get_or,
  map, length-map, foldl, length-append, Option, some, arith,
}
use mmkvc.Algo.Keyed.{Keyed}
use mmkvc.Algo.Ordered.Hashed.{Hashed, hashed_order, hashed_keyed}
use mmkvc.Algo.Slist.{search_if}
use mmkvc.Algo.AvlTree.Ops.{AvlTree}
use mmkvc.Algo.HashTable.{HashTable, Table, size, size_mod, home, bucket_of, has_key}
use mmkvc.Algo.HashTable.Chain.{count, search_if-eq-none}
use mmkvc.Algo.HashTable.Bucket.{IsPlaced, IsPlaced-elsewhere, entries, lookup}
use mmkvc.Algo.HashTable.Move.{or_else, or_else-none}
use mmkvc.Algo.HashTable.Valid.{IsValid, view}
use mmkvc.Algo.TreeHashTable.{TreeHashTable}
use mmkvc.Algo.TreeHashTable.Chains.{values, chained, IsSound}
use mmkvc.Algo.TreeHashTable.Bag.{count-append, search_if-append}
use mmkvc.Algo.TableIterator.{iterator_at, visit}
use mmkvc.Algo.TableIterator.Cursors.{chain_walk, tree_walk}
use mmkvc.Algo.TableIterator.Visited.{listing, visit-listing}

module _ {T : Type 0} ⦃key : Keyed T⦄ where
  open key use {Key}

  -- the entries in the order of a loop over the table
  abbrev pub entries_of : HashTable T → List T
  entries_of h = listing chain_walk h.table1.buckets ++ listing chain_walk h.table2.buckets

  length-listing : (cs : List (List T)) → length (listing chain_walk cs) ≡ entries cs
  unfolding entries
  length-listing [] = refl
  length-listing (c ∷ cs) =
      omega (arith, length-append c (listing chain_walk cs), length-listing cs)

  -- A key without entries in any chain, and one whose entries stand in one chain alone.
  listing-elsewhere :
      (q : Key) (cs : List (List T))
      → ((j : ℕ) → count q (get_or cs j []) ≡ 0)
      → count q (listing chain_walk cs) ≡ 0
  unfolding count
  listing-elsewhere q [] h = refl
  listing-elsewhere q (c ∷ cs) h = omega (
    arith,
    count-append q c (listing chain_walk cs),
    h 0,
    listing-elsewhere q cs (λ j. h (suc j)),
  )

  -- What is asked of a list of entries, for one key.
  record Same (q : Key) (xs c : List T) : Type 0 where
    counts : count q xs ≡ count q c
    finds : search_if (has_key q) xs ≡ search_if (has_key q) c

  listing-Same :
      (q : Key) (cs : List (List T)) (i : ℕ)
      → ((j : ℕ) → i ≢ j → count q (get_or cs j []) ≡ 0)
      → Same q (listing chain_walk cs) (get_or cs i [])
  listing-Same q [] i h = record { counts = refl; finds = refl }
  listing-Same q (c ∷ cs) zero h =
      let clear = listing-elsewhere q cs (λ j. h (suc j) (λ e. absurd (omega (arith, e)))) in
      record {
        counts = omega (arith, count-append q c (listing chain_walk cs), clear);
        finds =
            search_if-append (has_key q) c (listing chain_walk cs)
            ∙ ap (or_else (search_if (has_key q) c))
                (search_if-eq-none q (listing chain_walk cs) clear)
            ∙ or_else-none (search_if (has_key q) c);
      }
  listing-Same q (c ∷ cs) (suc i) h =
      let clear : count q c ≡ 0 = h 0 (λ e. absurd (omega (arith, e))) in
      let rest = listing-Same q cs i (λ j ne. h (suc j) (λ e. ne (omega (arith, e)))) in
      record {
        counts = omega (arith, count-append q c (listing chain_walk cs), clear, rest.counts);
        finds =
            search_if-append (has_key q) c (listing chain_walk cs)
            ∙ ap (λ o. or_else o (search_if (has_key q) (listing chain_walk cs)))
                (search_if-eq-none q c clear)
            ∙ rest.finds;
      }

  table-Same :
      (t : Table T) (q : Key) → IsPlaced t → Same q (listing chain_walk t.buckets) (bucket_of t q)
  table-Same t q placed =
      listing-Same q t.buckets (home t q) (λ j ne. IsPlaced-elsewhere t q j placed ne)

  -- What a list of entries has to do with a map: every key's entry is in it, once, and the list has
  -- as many entries as are counted.
  pub record Enumerates (m : Key → Option T) (total : ℕ) (xs : List T) : Type 0 where
    pub finds : (q : Key) → search_if (has_key q) xs ≡ m q
    pub once : (q : Key) → count q xs ≤ 1
    pub all : length xs ≡ total

  pub entries_of-Enumerates :
      (h : HashTable T) → IsValid h → Enumerates (view h) (size h) (entries_of h)
  unfolding view
  entries_of-Enumerates h v =
      let l1 = listing chain_walk h.table1.buckets in
      let l2 = listing chain_walk h.table2.buckets in
      let a = λ (q : Key). table-Same h.table1 q v.placed1 in
      let b = λ (q : Key). table-Same h.table2 q v.placed2 in
      record {
        finds = λ q.
            search_if-append (has_key q) l1 l2
            ∙ ap (λ o. or_else o (search_if (has_key q) l2)) (a q).finds
            ∙ ap (or_else (lookup h.table1 q)) (b q).finds;
        once = λ q. omega (arith, count-append q l1 l2, (a q).counts, (b q).counts, v.unique q);
        all = omega (
          arith,
          length-append l1 l2,
          length-listing h.table1.buckets,
          length-listing h.table2.buckets,
          v.used_total,
        );
      }

  second_short : (h : HashTable T) → IsValid h → length h.table2.buckets < size_mod
  second_short h v = elim v.phase [ inl s ↦ omega (arith, ap length s.unused) | inr r ↦ r.short2 ]

  -- A loop over a valid table, also in the middle of rehashing, ends after as many rounds as the
  -- table counts entries, and calls its body on every entry of the view as a map, once for each.
  pub visit-entries_of :
      {S : Type 0} (f : S → T → S) (s : S) (h : HashTable T)
      → IsValid h
      → (visit chain_walk h.table1.buckets h.table2.buckets f
            (size h)
            s
            (iterator_at chain_walk h.table1.buckets h.table2.buckets 0 0)
          ≡ some (foldl f s (entries_of h)))
        × Enumerates (view h) (size h) (entries_of h)
  visit-entries_of f s h v =
      let e = entries_of-Enumerates h v in
      (
        visit-listing chain_walk h.table1.buckets h.table2.buckets f s (size h) v.short1
            (second_short h v) (omega (arith, e.all)),
        e,
      )

module _ {V : Type 0} ⦃s : Hashed V⦄ where
  open s.order use {Key}

  listing-values :
      (bs : List (AvlTree V)) → listing tree_walk bs ≡ listing chain_walk (map values bs)
  listing-values [] = refl
  listing-values (b ∷ bs) = ap (λ xs. values b ++ xs) (listing-values bs)

  -- A loop over a table of trees that is sound, also in the middle of rehashing, ends after as
  -- many rounds as the table counts entries, and calls its body on every entry of the view as a
  -- map, once for each.
  pub visit-tree_walk :
      {S : Type 0} (f : S → V → S) (start : S) (h : TreeHashTable V)
      → IsSound h
      → (visit tree_walk h.table1.buckets h.table2.buckets f h.table1.used start
            (iterator_at tree_walk h.table1.buckets h.table2.buckets 0 0)
          ≡ some (foldl f start (entries_of (chained h))))
        × Enumerates (view (chained h)) h.table1.used (entries_of (chained h))
  visit-tree_walk f start h v =
      let e = entries_of-Enumerates (chained h) v.valid in
      let same : listing tree_walk h.table1.buckets ++ listing tree_walk h.table2.buckets
          ≡ entries_of (chained h) =
        ap (λ xs. xs ++ listing tree_walk h.table2.buckets) (listing-values h.table1.buckets)
        ∙ ap (λ xs. listing chain_walk (map values h.table1.buckets) ++ xs)
            (listing-values h.table2.buckets) in
      (
        visit-listing tree_walk h.table1.buckets h.table2.buckets f start h.table1.used
              (omega (arith, length-map (values {V = V}) h.table1.buckets, v.valid.short1))
              (omega (
                arith,
                length-map (values {V = V}) h.table2.buckets,
                second_short (chained h) v.valid,
              ))
              (omega (arith, ap length same, e.all))
            ∙ ap (λ xs. some (foldl f start xs)) same,
        e,
      )
