-- ===== src/Algo/HashTable/Clone/Copied.antt =====
-- A clone holds what the table holds.
use mmkvc.Prelude.{
  ℕ, zero, suc, ◌+◌, ◌-◌, ◌≤◌, ◌<◌, ◌≡◌, refl, sym, ap, subst, ◌∙◌, inl, inr, Bool-cases, leb, List,
  [], ◌∷◌, ◌++◌, length, get_or, drop, replicate, length-replicate, length-append, get_or-replicate,
  append-nil, Option, arith,
}
use mmkvc.Algo.Keyed.{Keyed}
use mmkvc.Algo.Slist.{search_if}
use mmkvc.Algo.HashTable.{
  HashTable, Table, size, size_mod, new_hash_table, new_table, grow, home, has_key, move_bucket,
}
use mmkvc.Algo.HashTable.Chain.{count, search_if-eq-none}
use mmkvc.Algo.HashTable.Bucket.{
  IsSized, IsPlaced, IsBlank, IsBlank-IsPlaced, IsBlank-count_in, IsBlank-lookup, entries,
  entries-eq-zero, eq_or_ne, count_in, lookup,
}
use mmkvc.Algo.HashTable.Move.{or_else, or_else-none, Moved, move_bucket-Moved, IsSized-same}
use mmkvc.Algo.HashTable.Valid.{
  Settled, Rehashing, IsValid, view, in_rehashing-Settled, in_rehashing-Rehashing,
}
use mmkvc.Algo.HashTable.Clone.{copy_chains, clone}
use mmkvc.Algo.HashTable.Clone.Loops.{
  move_bucket-append, HomesFrom, placed-HomesFrom, copy_chains-move_bucket,
  spread_chains-move_bucket,
}
use mmkvc.Algo.TableIterator.Cursors.{chain_walk}
use mmkvc.Algo.TableIterator.Visited.{listing}
use mmkvc.Algo.TableIterator.Entries.{Enumerates, entries_of-Enumerates}
use mmkvc.Algo.TreeHashTable.Bag.{count-append, search_if-append}

module _ {T : Type 0} ⦃key : Keyed T⦄ where
  open key use {Key, get_key, hash}

  -- Enough chains, all of them empty.
  record Ready (n : ℕ) (t : Table T) : Type 0 where
    blank : IsBlank t
    long : length t.buckets ≡ n
    sized : IsSized t

  grow-Ready : (n : ℕ) → 4 ≤ n → n < size_mod → Ready n (grow n (new_hash_table {T = T}).table1)
  unfolding grow new_hash_table new_table IsSized
  grow-Ready n least short = elim (Bool-cases (leb n 4)) [
    | inl small ↦
        let four : 4 ≡ n = ground arith in
        rw small (record { blank = blank_four; long = four; sized = refl })
    | inr large ↦
        let long : length (replicate {A = List T} (n - 4) []) ≡ n - 4 =
          length-replicate (n - 4) [] in
        rw large (record {
          blank = λ i. blank_more i;
          long = omega (arith, long);
          sized = omega (arith, long);
        })
  ]
    where
      blank_four : (i : ℕ) → get_or {A = List T} ([] ∷ [] ∷ [] ∷ [] ∷ []) i [] ≡ []
      blank_four i = get_or-replicate 4 i []

      blank_more :
          (i : ℕ) → get_or {A = List T} ([] ∷ [] ∷ [] ∷ [] ∷ replicate (n - 4) []) i [] ≡ []
      blank_more i = get_or-replicate (suc (suc (suc (suc (n - 4))))) i []

  -- Filling an empty table with the entries of a map, in any order.
  record Filled (m : Key → Option T) (total : ℕ) (t : Table T) : Type 0 where
    sized : IsSized t
    least : 4 ≤ length t.buckets
    short : length t.buckets < size_mod
    place : IsPlaced t
    once : (q : Key) → count_in t q ≤ 1
    finds : (q : Key) → lookup t q ≡ m q
    held : entries t.buckets ≡ total

  Moved-Filled :
      (n : ℕ) (m : Key → Option T) (total : ℕ) (xs : List T) (t t' : Table T)
      → 4 ≤ n
      → n < size_mod
      → Ready n t
      → Enumerates m total xs
      → Moved xs t t'
      → Filled m total t'
  Moved-Filled n m total xs t t' least short r e moved =
      let clear = λ (q : Key). IsBlank-count_in t q r.blank in
      record {
        sized = IsSized-same t t' moved.mask moved.long r.sized;
        least = omega (arith, moved.long, r.long);
        short = omega (arith, moved.long, r.long);
        place = moved.place (IsBlank-IsPlaced t r.blank);
        once = λ q. omega (arith, moved.counts q, clear q, e.once q);
        finds = λ q.
            moved.finds q (omega (arith, clear q, e.once q))
            ∙ ap (or_else (search_if (has_key q) xs)) (IsBlank-lookup t q r.blank)
            ∙ or_else-none (search_if (has_key q) xs)
            ∙ e.finds q;
        held = omega (arith, moved.total, entries-eq-zero t.buckets r.blank, e.all);
      }

  -- What is asked of the copy of a table.
  pub record Clones (h h' : HashTable T) : Type 0 where
    pub valid : IsValid h'
    pub views : (q : Key) → view h' q ≡ view h q
    pub sizes : size h' ≡ size h

  Filled-Clones :
      (h : HashTable T) (t : Table T)
      → IsValid h
      → Filled (view h) (size h) t
      → Clones h (record (new_hash_table {T = T}) { table1 = record t { used = size h } })
  unfolding view home IsSized IsPlaced new_hash_table new_table entries count search_if
  Filled-Clones h t v f = record {
    valid = record {
      sized1 = f.sized;
      at_least = f.least;
      short1 = f.short;
      placed1 = f.place;
      placed2 = λ q i ne. refl;
      unique = λ q. omega (arith, f.once q);
      used_total = omega (arith, f.held);
      used_fits = v.used_fits;
      phase = inl (record { idle = refl; unused = refl });
    };
    views = λ q. or_else-none (lookup t q) ∙ f.finds q;
    sizes = refl;
  }

  either_order :
      (q : Key) (xs ys : List T)
      → count q xs + count q ys ≤ 1
      → or_else (search_if (has_key q) ys) (search_if (has_key q) xs)
        ≡ or_else (search_if (has_key q) xs) (search_if (has_key q) ys)
  either_order q xs ys one = elim (eq_or_ne (count q xs) 0) [
    | inl clear ↦ rw (search_if-eq-none q xs clear) (or_else-none (search_if (has_key q) ys))
    | inr some_there ↦
        rw (search_if-eq-none q ys (omega (arith, some_there)))
          (sym (or_else-none (search_if (has_key q) xs)))
  ]

  Enumerates-append :
      (m : Key → Option T) (total : ℕ) (xs ys : List T)
      → Enumerates m total (xs ++ ys)
      → Enumerates m total (ys ++ xs)
  Enumerates-append m total xs ys e = record {
    finds = λ q.
        search_if-append (has_key q) ys xs
        ∙ either_order q xs ys (omega (arith, count-append q xs ys, e.once q))
        ∙ sym (search_if-append (has_key q) xs ys)
        ∙ e.finds q;
    once = λ q. omega (arith, count-append q xs ys, count-append q ys xs, e.once q);
    all = omega (arith, length-append xs ys, length-append ys xs, e.all);
  }

  listing-drop :
      (n : ℕ) (cs : List (List T))
      → ((i : ℕ) → i < n → get_or cs i [] ≡ [])
      → listing chain_walk (drop n cs) ≡ listing chain_walk cs
  listing-drop zero cs h = refl
  listing-drop (suc n) [] h = refl
  listing-drop (suc n) (c ∷ cs) h =
      listing-drop n cs (λ i below. h (suc i) (omega arith))
      ∙ ap (λ d. d ++ listing chain_walk cs) (sym (h 0 (omega arith)))

  same_homes :
      (n : ℕ) (t g : Table T)
      → IsSized t
      → IsPlaced t
      → Ready n g
      → n ≡ length t.buckets
      → HomesFrom g.size_mask 0 t.buckets
  unfolding IsSized
  same_homes n t g sized placed r e =
      subst (λ mask. HomesFrom mask 0 t.buckets) (omega (arith, sized, r.sized, r.long, e))
        (placed-HomesFrom t placed)

  module _ (hash_value : T → ℕ) (same : (e : T) → hash_value e ≡ hash (get_key e)) where
    idle-Clones :
        (h : HashTable T) → IsValid h → Settled h → Clones h (clone hash_value new_hash_table h)
    unfolding clone
    idle-Clones h v idle =
        let n = length h.table1.buckets in
        let g = grow n (new_hash_table {T = T}).table1 in
        let r = grow-Ready n v.at_least v.short1 in
        let xs = listing chain_walk h.table1.buckets in
        let e =
          subst (Enumerates (view h) (size h))
            (ap (λ cs. xs ++ listing chain_walk cs) idle.unused ∙ append-nil xs)
            (entries_of-Enumerates h v) in
        let eq =
          copy_chains-move_bucket 0 h.table1.buckets g
            (same_homes n h.table1 g v.sized1 v.placed1 r refl) in
        rw (in_rehashing-Settled h idle) (
          subst
            (λ t.
              Clones h (record (new_hash_table {T = T}) { table1 = record t { used = size h } }))
            (sym eq)
            (Filled-Clones h (move_bucket xs g) v (
              Moved-Filled n (view h) (size h) xs g (move_bucket xs g) v.at_least v.short1 r e
                (move_bucket-Moved xs g r.sized))))

    moving-Clones :
        (h : HashTable T) → IsValid h → Rehashing h → Clones h (clone hash_value new_hash_table h)
    unfolding clone
    moving-Clones h v moving =
        let n = length h.table2.buckets in
        let g = grow n (new_hash_table {T = T}).table1 in
        let least : 4 ≤ n = omega (arith, v.at_least, moving.longer) in
        let r = grow-Ready n least moving.short2 in
        let i = h.rehash_move_bucket_index in
        let first = listing chain_walk (drop i h.table1.buckets) in
        let second = listing chain_walk h.table2.buckets in
        let xs = second ++ first in
        let whole = listing-drop i h.table1.buckets moving.emptied in
        let e = Enumerates-append (view h) (size h) first second (
          subst (λ ys. Enumerates (view h) (size h) (ys ++ second)) (sym whole)
            (entries_of-Enumerates h v)) in
        let copied =
          copy_chains-move_bucket 0 h.table2.buckets g
            (same_homes n h.table2 g moving.sized2 v.placed2 r refl) in
        let eq =
          spread_chains-move_bucket hash_value same (drop i h.table1.buckets)
            (copy_chains 0 h.table2.buckets g)
          ∙ ap (move_bucket first) copied
          ∙ sym (move_bucket-append second first g) in
        rw (in_rehashing-Rehashing h moving v.short1) (
          subst
            (λ t.
              Clones h (record (new_hash_table {T = T}) { table1 = record t { used = size h } }))
            (sym eq)
            (Filled-Clones h (move_bucket xs g) v (
              Moved-Filled n (view h) (size h) xs g (move_bucket xs g) least moving.short2 r e
                (move_bucket-Moved xs g r.sized))))

    -- `clone` of a valid table into a new one, also in the middle of rehashing, makes a valid
    -- table with the same entry for every key and the same size, if the hash value of an entry,
    -- which the copy takes of the whole entry, is that of its key.
    pub clone-Clones : (h : HashTable T) → IsValid h → Clones h (clone hash_value new_hash_table h)
    clone-Clones h v = elim v.phase [
      | inl idle ↦ idle-Clones h v idle
      | inr moving ↦ moving-Clones h v moving
    ]
