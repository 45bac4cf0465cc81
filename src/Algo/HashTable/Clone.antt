-- ===== src/Algo/HashTable/Clone.antt =====
-- `Clone`: the copies of a table's entries, chain by chain, in the first table of a new one.
pub mod Loops
pub mod Copied
use mmkvc.Prelude.{
  ℕ, zero, suc, Bool, true, false, if◌then◌else◌, List, [], ◌∷◌, length, get_or, drop, bit_and,
}
use mmkvc.Algo.HashTable.{HashTable, Table, grow, in_rehashing, set_bucket}

module _ {T : Type 0} where
  -- `lst.EmplaceFront(val)` for the entries of one chain
  unfoldable pub copy_chain : ℕ → List T → Table T → Table T
  copy_chain i [] t = t
  copy_chain i (e ∷ c) t = copy_chain i c (set_bucket i (e ∷ get_or t.buckets i []) t)

  -- the loop over the chains of a table, from the index `i` on
  unfoldable pub copy_chains : ℕ → List (List T) → Table T → Table T
  unfolding copy_chain
  copy_chains i [] t = t
  copy_chains i (c ∷ cs) t = copy_chains (suc i) cs (copy_chain i c t)

-- `hash_value` is `HASH_FUNC` of a whole entry.
module _ {T : Type 0} (hash_value : T → ℕ) where
  -- the entries of one chain, each to the bucket of its hash value
  unfoldable pub spread_chain : List T → Table T → Table T
  spread_chain [] t = t
  spread_chain (e ∷ c) t =
      let i = bit_and (hash_value e) t.size_mask in
      spread_chain c (set_bucket i (e ∷ get_or t.buckets i []) t)

  unfoldable pub spread_chains : List (List T) → Table T → Table T
  unfolding spread_chain
  spread_chains [] t = t
  spread_chains (c ∷ cs) t = spread_chains cs (spread_chain c t)

  -- `this->Clone(ht)`
  unfoldable pub clone : HashTable T → HashTable T → HashTable T
  unfolding copy_chains spread_chains grow
  clone this ht =
      let table =
        if in_rehashing ht
        then spread_chains (drop ht.rehash_move_bucket_index ht.table1.buckets)
            (copy_chains 0 ht.table2.buckets (grow (length ht.table2.buckets) this.table1))
        else copy_chains 0 ht.table1.buckets (grow (length ht.table1.buckets) this.table1) in
      record this { table1 = record table { used = ht.table1.used } }
