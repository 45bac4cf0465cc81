-- ===== src/Algo/TreeHashTable/Cleared.antt =====
-- What is left after `Clear`.
use mmkvc.Prelude.{
  ◌∙◌, take, foldl, ◌++◌, drop, ℕ, ◌≤◌, ◌≡◌, refl, sym, ap, subst, Bool, false, if◌then◌else◌, ◌+◌,
  ◌-◌, ◌%◌, List, [], ◌∷◌, length, set, Option, none, some, arith, true,
}
use mmkvc.Algo.Ordered.{Ordered}
use mmkvc.Algo.Ordered.Sorted.{All}
use mmkvc.Algo.ReservedArray.{shrink_array}
use mmkvc.Algo.ReservedArray.Laws.{shrink_array_lem}
use mmkvc.Algo.AvlTree.Ops.{AvlTree, find, locate}
use mmkvc.Algo.TreeHashTable.{
  TreeHashTable, no_nodes, in_rehashing, shrink, clear, home, bucket_of, incremental_rehash,
  find_node,
}
use mathlib.Core.List.{foldl-append}
use mmkvc.Algo.AvlTree.Visit.{postorder, reuse_all_nodes-postorder}
use mmkvc.Algo.TreeHashTable.{apply_tree, apply_each, clear_apply, size_mod, no_index}
use mmkvc.Algo.TreeHashTable.Sorted.{All-get_or}

module _ {V : Type 0} where
  abbrev IsBare : AvlTree V → Type 0
  IsBare b = b ≡ no_nodes

  -- The first four trees are emptied, and there are no others.
  emptied-IsBare :
      (xs : List (AvlTree V))
      → 4 ≤ length xs
      → All IsBare
          (set (set (set (set (shrink_array 4 xs) 0 no_nodes) 1 no_nodes) 2 no_nodes) 3 no_nodes)
  emptied-IsBare [] long = absurd (omega arith)
  emptied-IsBare (a ∷ []) long = absurd (omega arith)
  emptied-IsBare (a ∷ b ∷ []) long = absurd (omega arith)
  emptied-IsBare (a ∷ b ∷ c ∷ []) long = absurd (omega arith)
  emptied-IsBare (a ∷ b ∷ c ∷ d ∷ xs) long =
      subst
        (λ ys. All IsBare (set (set (set (set ys 0 no_nodes) 1 no_nodes) 2 no_nodes) 3 no_nodes))
        (sym (shrink_array_lem 4 (a ∷ b ∷ c ∷ d ∷ xs))) (refl, (refl, (refl, (refl, tt))))

  -- The values of the trees, children before their parent.
  abbrev pub values_of : List (AvlTree V) → List V
  values_of [] = []
  values_of (b ∷ bs) = postorder b.root ++ values_of bs

  -- as many trees without a node
  abbrev bare : List (AvlTree V) → List (AvlTree V)
  bare [] = []
  bare (b ∷ bs) = no_nodes ∷ bare bs

  apply_tree-postorder :
      {S : Type 0} (f : S → V → S) (s : S) (b : AvlTree V)
      → apply_tree f s b ≡ (foldl f s (postorder b.root), no_nodes)
  unfolding apply_tree
  apply_tree-postorder f s b =
      rw (reuse_all_nodes-postorder (λ s' h v. f s' v) s b, apply_tree) refl

  apply_each-values_of :
      {S : Type 0} (f : S → V → S) (s : S) (bs : List (AvlTree V))
      → apply_each f s bs ≡ (foldl f s (values_of bs), bare bs)
  unfolding apply_each
  apply_each-values_of f s [] = refl
  apply_each-values_of f s (b ∷ bs) =
      rw (apply_tree-postorder f s b, apply_each)
        (rw (apply_each-values_of f (foldl f s (postorder b.root)) bs) (
          ap (λ x. (x, no_nodes ∷ bare bs))
            (sym (foldl-append f s (postorder b.root) (values_of bs)))))

  -- The trees behind the fourth one do not matter for what `shrink` leaves.
  shrunk-bare :
      (bs : List (AvlTree V)) → shrink_array 4 (take 4 bs ++ bare (drop 4 bs)) ≡ shrink_array 4 bs
  shrunk-bare bs =
      shrink_array_lem 4 (take 4 bs ++ bare (drop 4 bs)) ∙ four bs ∙ sym (shrink_array_lem 4 bs)
    where
      four : (xs : List (AvlTree V)) → take 4 (take 4 xs ++ bare (drop 4 xs)) ≡ take 4 xs
      four [] = refl
      four (a ∷ []) = refl
      four (a ∷ b ∷ []) = refl
      four (a ∷ b ∷ c ∷ []) = refl
      four (a ∷ b ∷ c ∷ d ∷ xs) = refl

  -- Emptying four trees one by one, or all that are left, is the same.
  bare-set :
      (bs : List (AvlTree V))
      → bare (shrink_array 4 bs)
        ≡ set (set (set (set (shrink_array 4 bs) 0 no_nodes) 1 no_nodes) 2 no_nodes) 3 no_nodes
  bare-set bs = rw (shrink_array_lem 4 bs) (four bs)
    where
      four :
          (xs : List (AvlTree V))
          → bare (take 4 xs)
            ≡ set (set (set (set (take 4 xs) 0 no_nodes) 1 no_nodes) 2 no_nodes) 3 no_nodes
      four [] = refl
      four (a ∷ []) = refl
      four (a ∷ b ∷ []) = refl
      four (a ∷ b ∷ c ∷ []) = refl
      four (a ∷ b ∷ c ∷ d ∷ xs) = refl

  nothing_left : (bs : List (AvlTree V)) → shrink_array 0 (bare bs) ≡ shrink_array 0 bs
  nothing_left bs = shrink_array_lem 0 (bare bs) ∙ sym (shrink_array_lem 0 bs)

  in_turn :
      {S : Type 0} (f : S → V → S) (s : S) (xs ys zs : List V)
      → foldl f (foldl f (foldl f s xs) ys) zs ≡ foldl f s (xs ++ (ys ++ zs))
  in_turn f s xs ys zs =
      sym (foldl-append f (foldl f s xs) ys zs) ∙ sym (foldl-append f s xs (ys ++ zs))

  -- the table with these trees, as the two clearings leave it
  abbrev left_with : List (AvlTree V) → List (AvlTree V) → Bool → TreeHashTable V → TreeHashTable V
  left_with ys zs on h = record {
    table1 = record {
      buckets = ys;
      used = 0;
      size_mask = (length (shrink_array 4 h.table1.buckets) + size_mod - 1) % size_mod;
    };
    table2 =
        if on
        then record h.table2 { buckets = zs; size_mask = (length zs + size_mod - 1) % size_mod }
        else h.table2;
    rehash_move_bucket_index = no_index;
  }

  left_same :
      (on : Bool) (h : TreeHashTable V)
      → let four = shrink_array 4 h.table1.buckets in
        left_with (bare four) (shrink_array 0 (bare h.table2.buckets)) on h
        ≡ left_with
            (set (set (set (set four 0 no_nodes) 1 no_nodes) 2 no_nodes) 3 no_nodes)
            (shrink_array 0 h.table2.buckets)
            on
            h
  left_same on h =
      ap (λ ys. left_with ys (shrink_array 0 (bare h.table2.buckets)) on h)
        (bare-set h.table1.buckets)
      ∙ ap
          (λ zs.
            left_with
              (set
                (set (set (set (shrink_array 4 h.table1.buckets) 0 no_nodes) 1 no_nodes) 2 no_nodes)
                3 no_nodes)
              zs on h)
          (nothing_left h.table2.buckets)

  -- the values in turn, and the trees that are left
  in_both :
      {S : Type 0} (f : S → V → S) (s : S) (h : TreeHashTable V) (on : Bool)
      → let behind = values_of (drop 4 h.table1.buckets) in
        let four = shrink_array 4 h.table1.buckets in
        let moved = values_of h.table2.buckets in
        let s2 = foldl f (foldl f s behind) (values_of four) in
        let left =
          λ (b : Bool). left_with (bare four) (shrink_array 0 (bare h.table2.buckets)) b h in
        ◌≡◌ {A = S × TreeHashTable V}
          (if on then (foldl f s2 moved, left true) else (s2, left false))
          (
            foldl f s
                (behind ++ (values_of (take 4 h.table1.buckets) ++ (if on then moved else []))),
            left_with
                (set (set (set (set four 0 no_nodes) 1 no_nodes) 2 no_nodes) 3 no_nodes)
                (shrink_array 0 h.table2.buckets)
                on
                h,
          )
  in_both f s h true =
      let behind = values_of (drop 4 h.table1.buckets) in
      let first = values_of (shrink_array 4 h.table1.buckets) in
      let moved = values_of h.table2.buckets in
      let first' = values_of (take 4 h.table1.buckets) in
      let left =
        left_with (bare (shrink_array 4 h.table1.buckets)) (shrink_array 0 (bare h.table2.buckets))
          true h in
      ap (λ x. (x, left))
        (in_turn f s behind first moved
          ∙ ap (λ bs. foldl f s (behind ++ (values_of bs ++ moved)))
              (shrink_array_lem 4 h.table1.buckets))
      ∙ ap (λ t. (foldl f s (behind ++ (first' ++ moved)), t)) (left_same true h)
  in_both f s h false =
      let behind = values_of (drop 4 h.table1.buckets) in
      let first = values_of (shrink_array 4 h.table1.buckets) in
      let first' = values_of (take 4 h.table1.buckets) in
      let left =
        left_with (bare (shrink_array 4 h.table1.buckets)) (shrink_array 0 (bare h.table2.buckets))
          false h in
      ap (λ x. (x, left))
        (in_turn f s behind first []
          ∙ ap (λ bs. foldl f s (behind ++ (values_of bs ++ [])))
              (shrink_array_lem 4 h.table1.buckets))
      ∙ ap (λ t. (foldl f s (behind ++ (first' ++ [])), t)) (left_same false h)

  -- `clear_apply` calls the callback exactly once on every value, of the trees from the fifth on,
  -- then of the first four, then, while trees move, of the second table, children before their
  -- parent, and leaves the table as `clear` does.
  pub clear_apply-clear :
      {S : Type 0} (f : S → V → S) (s : S) (h : TreeHashTable V)
      → let moving = if in_rehashing h then values_of h.table2.buckets else [] in
        let first = values_of (take 4 h.table1.buckets) in
        clear_apply f s h
        ≡ (foldl f s (values_of (drop 4 h.table1.buckets) ++ (first ++ moving)), clear h)
  unfolding clear_apply clear shrink
  clear_apply-clear f s h =
      let bs = h.table1.buckets in
      let behind = values_of (drop 4 bs) in
      let first = values_of (shrink_array 4 bs) in
      rw (apply_each-values_of f s (drop 4 bs), clear_apply)
        (rw (shrunk-bare bs) (
          rw (apply_each-values_of f (foldl f s behind) (shrink_array 4 bs)) (
            rw (apply_each-values_of f (foldl f (foldl f s behind) first) h.table2.buckets)
              (in_both f s h (in_rehashing h)))))

module _ {V : Type 0} ⦃o : Ordered V⦄ (hash : o.Key → ℕ) where
  open o use {Key}

  find-IsBare : (k : Key) (b : AvlTree V) → IsBare b → find k b ≡ none
  unfolding find locate
  find-IsBare k b e = ap (find k) e

  -- no second table is searched
  first_only :
      (found other : Option V) (on : Bool)
      → found ≡ none
      → on ≡ false
      → (elim found as (λ x. Option V) [ some v ↦ some v | none ↦ if on then other else none ])
        ≡ none
  first_only found other on e off = rw (e, off) refl

  -- After `clear`, also in the middle of rehashing, a table of trees whose first array has at
  -- least four trees finds no key, counts no entry and is not rehashing.
  pub find_node-clear :
      (k : Key) (h : TreeHashTable V)
      → 4 ≤ length h.table1.buckets
      → ((find_node hash k (clear h)).0 ≡ none)
        × ((clear h).table1.used ≡ 0)
        × (in_rehashing (clear h) ≡ false)
  unfolding find_node clear shrink incremental_rehash
  find_node-clear k h long =
      let bare =
        All-get_or IsBare (clear h).table1.buckets (home hash (clear h).table1 k) no_nodes refl
          (emptied-IsBare h.table1.buckets long) in
      (
        first_only (find k (bucket_of hash (clear h).table1 k))
            (find k (bucket_of hash (clear h).table2 k)) false
            (find-IsBare k (bucket_of hash (clear h).table1 k) bare) refl,
        refl,
        refl,
      )
