-- ===== src/Algo/HashTable/Valid.antt =====
-- What holds of a hash table between its operations, and its abstract view: a map from keys to entries.
use mmkvc.Prelude.{
  ℕ, ◌+◌, ◌≤◌, ◌<◌, ◌≡◌, ◌⊎◌, refl, ◌∙◌, true, false, [], length, get_or, Option, arith,
}
use mmkvc.Algo.Keyed.{Keyed}
use mmkvc.Algo.HashTable.{HashTable, size_mod, no_index, in_rehashing}
use mmkvc.Algo.HashTable.Bucket.{IsSized, IsPlaced, entries, count_in, lookup}
use mmkvc.Algo.HashTable.Move.{or_else}

module _ {T : Type 0} where
  -- No rehashing is under way.
  pub record Settled (h : HashTable T) : Type 0 where
    pub idle : h.rehash_move_bucket_index ≡ no_index
    pub unused : h.table2.buckets ≡ []

  -- The chains under the index have moved to the second table.
  pub record Rehashing (h : HashTable T) : Type 0 where
    pub at : h.rehash_move_bucket_index < length h.table1.buckets
    pub sized2 : IsSized h.table2
    pub longer : length h.table1.buckets ≤ length h.table2.buckets
    pub short2 : length h.table2.buckets < size_mod
    pub emptied : (i : ℕ) → i < h.rehash_move_bucket_index → get_or h.table1.buckets i [] ≡ []

  pub in_rehashing-Settled : (h : HashTable T) → Settled h → in_rehashing h ≡ false
  in_rehashing-Settled h s = rw s.idle refl

  pub in_rehashing-Rehashing :
      (h : HashTable T) → Rehashing h → length h.table1.buckets < size_mod → in_rehashing h ≡ true
  in_rehashing-Rehashing h r short = let below = r.at in ground (arith, below)

module _ {T : Type 0} ⦃key : Keyed T⦄ where
  open key use {Key}

  pub record IsValid (h : HashTable T) : Type 0 where
    pub sized1 : IsSized h.table1
    pub at_least : 4 ≤ length h.table1.buckets
    pub short1 : length h.table1.buckets < size_mod
    pub placed1 : IsPlaced h.table1
    pub placed2 : IsPlaced h.table2
    pub unique : (q : Key) → count_in h.table1 q + count_in h.table2 q ≤ 1
    pub used_total : h.table1.used ≡ entries h.table1.buckets + entries h.table2.buckets
    pub used_fits : h.table1.used < size_mod
    pub phase : Settled h ⊎ Rehashing h

  -- the entry of a key
  unfoldable pub view : HashTable T → Key → Option T
  view h q = or_else (lookup h.table1 q) (lookup h.table2 q)

  -- A step that moves entries about and changes nothing that a caller can see.
  pub record Keeps (h h' : HashTable T) : Type 0 where
    pub valid : IsValid h'
    pub views : (q : Key) → view h' q ≡ view h q
    pub sizes : h'.table1.used ≡ h.table1.used

  pub Keeps-refl : (h : HashTable T) → IsValid h → Keeps h h
  Keeps-refl h v = record { valid = v; views = λ q. refl; sizes = refl }

  pub Keeps-trans : (a b c : HashTable T) → Keeps a b → Keeps b c → Keeps a c
  Keeps-trans a b c x y = record {
    valid = y.valid;
    views = λ q. y.views q ∙ x.views q;
    sizes = y.sizes ∙ x.sizes;
  }
