-- ===== src/Algo/TreeHashTable/Extracting.antt =====
-- Taking an entry out of a table of trees, and looking for one, on every path.
use mmkvc.Prelude.{
  ℕ, ◌+◌, ◌≡◌, refl, sym, ap, subst, ◌∙◌, Bool, true, false, inl, inr, if◌then◌else◌, [], Option,
  none, some, set, get_or, map, get_or-map, set-get_or, arith,
}
use mmkvc.Algo.Ordered.Reference.{erase_in-miss}
use mmkvc.Algo.Ordered.Hashed.{Hashed, hashed_order, hashed_keyed}
use mmkvc.Algo.Slist.{extract_node_if}
use mmkvc.Algo.AvlTree.Ops.{AvlTree, extract, find}
use mmkvc.Algo.AvlTree.Insert.{map_value, Extraction, extract-Extraction_lem}
use mmkvc.Algo.HashTable.{
  HashTable, has_key, home as home_chain, bucket_of as chain_of, decrease_used as decrease_chained,
  in_rehashing as chains_in_rehashing,
}
use mmkvc.Algo.HashTable.Chain.{Taken, extract_node_if-Taken}
use mmkvc.Algo.HashTable.Bucket.{lookup, IsBlank-lookup}
use mmkvc.Algo.HashTable.Move.{or_else, taken}
use mmkvc.Algo.HashTable.KeyMap.{remove}
use mmkvc.Algo.HashTable.Valid.{IsValid, view, in_rehashing-Rehashing}
use mmkvc.Algo.HashTable.Emplace.{Settled-IsBlank}
use mmkvc.Algo.HashTable.Extract.{
  Extraction as ChainExtraction, extract_by, extract_outcome-Extraction, remove_congr,
}
use mmkvc.Algo.TreeHashTable.{
  Table, TreeHashTable, no_nodes, set_bucket, in_rehashing, home, bucket_of, put1, put2,
  decrease_used, incremental_rehash, extract_node, find_node,
}
use mmkvc.Algo.TreeHashTable.Sorted.{bucket-HasOrder}
use mmkvc.Algo.TreeHashTable.Keeps.{extract_node-HasOrders}
use mmkvc.Algo.TreeHashTable.Chains.{
  values, chain_table, chained, bucket_of-chain_table, extract_node_if-erase_in,
  chain_table-set_bucket, IsSound, find-lookup,
}
use mmkvc.Algo.TreeHashTable.Settling.{Kept, incremental_rehash-Kept}

module _ {V : Type 0} ⦃s : Hashed V⦄ where
  open s.order use {Key}

  -- A tree with the values of the old one changes nothing.
  pub put_same :
      (t : Table V) (k : Key) (b : AvlTree V)
      → values b ≡ values (bucket_of s.hash t k)
      → chain_table (set_bucket (home s.hash t k) b t) ≡ chain_table t
  put_same t k b same =
      let i = home s.hash t k in
      let old : get_or (map values t.buckets) i [] ≡ values (bucket_of s.hash t k) =
        get_or-map values t.buckets i no_nodes in
      chain_table-set_bucket t i b
      ∙ ap (λ c. record (chain_table t) { buckets = set (map values t.buckets) i c })
          (same ∙ sym old)
      ∙ ap (λ cs. record (chain_table t) { buckets = cs }) (set-get_or (map values t.buckets) i [])

  -- The tree without the entry of a key stands for the chain without it.
  extract-Taken :
      (t : Table V) (k : Key) (out : Option (ℕ × V) × AvlTree V)
      → Extraction k (values (bucket_of s.hash t k)) out
      → Taken k (chain_of (chain_table t) k) (map_value out.0) (values out.1)
  extract-Taken t k out x =
      let xs = values (bucket_of s.hash t k) in
      let (found, rest) = extract_node_if-erase_in k xs in
      subst (λ c. Taken k c (map_value out.0) (values out.1)) (sym (bucket_of-chain_table t k))
        (subst (λ o. Taken k xs o (values out.1)) (found ∙ sym x.answers)
          (subst (Taken k xs (extract_node_if (has_key k) xs).0) (rest ∙ sym x.contents)
            (extract_node_if-Taken k xs)))

  untouched :
      (t : Table V) (k : Key) (out : Option (ℕ × V) × AvlTree V)
      → Extraction k (values (bucket_of s.hash t k)) out
      → map_value out.0 ≡ none
      → chain_table (set_bucket (home s.hash t k) out.1 t) ≡ chain_table t
  untouched t k out x nothing =
      put_same t k out.1
        (x.contents ∙ erase_in-miss k (values (bucket_of s.hash t k)) (sym x.answers ∙ nothing))

  -- what `extract_node` leaves, by what was found in each table
  abbrev extracted :
      Bool
      → Key
      → TreeHashTable V
      → Option (ℕ × V) × AvlTree V
      → Option (ℕ × V) × AvlTree V
      → Option (ℕ × V) × TreeHashTable V
  extracted on k ready (found1, left1) (found2, left2) =
      let out1 = put1 s.hash k ready left1 in
      elim found1 [
        | some n ↦ (some n, decrease_used out1)
        | none ↦
            if on
            then elim found2 [
              | some n ↦ (some n, decrease_used (put2 s.hash k out1 left2))
              | none ↦ (none, put2 s.hash k out1 left2)
            ]
            else (none, out1)
      ]

  extracted-eq :
      (on : Bool) (k : Key) (ready : TreeHashTable V) (x1 x2 : Option (ℕ × V) × AvlTree V)
      → (map_value x1.0 ≡ none
          → chain_table (set_bucket (home s.hash ready.table1 k) x1.1 ready.table1)
            ≡ chain_table ready.table1)
      → (map_value x2.0 ≡ none
          → chain_table (set_bucket (home s.hash ready.table2 k) x2.1 ready.table2)
            ≡ chain_table ready.table2)
      → (map_value (extracted on k ready x1 x2).0, chained (extracted on k ready x1 x2).1)
        ≡ extract_by on k
            (chained ready)
            (map_value x1.0, values x1.1)
            (map_value x2.0, values x2.1)
  unfolding decrease_used decrease_chained home home_chain
  extracted-eq on k ready (some (n, v), left1) (found2, left2) same1 same2 =
      ap (λ t. (some v, decrease_chained (record (chained ready) { table1 = t })))
        (chain_table-set_bucket ready.table1 (home s.hash ready.table1 k) left1)
  extracted-eq false k ready (none, left1) (found2, left2) same1 same2 =
      ap (λ t. (none, record (chained ready) { table1 = t })) (same1 refl)
  extracted-eq true k ready (none, left1) (none, left2) same1 same2 =
      ap
        (λ t. (
          none,
          record (chained ready) {
            table1 = t;
            table2 = chain_table (set_bucket (home s.hash ready.table2 k) left2 ready.table2);
          },
        ))
        (same1 refl)
      ∙ ap (λ t. (none, record (chained ready) { table2 = t })) (same2 refl)
  extracted-eq true k ready (none, left1) (some (n, v), left2) same1 same2 =
      ap
        (λ t. (
          some v,
          decrease_chained (record (chained ready) {
            table1 = t;
            table2 = chain_table (set_bucket (home s.hash ready.table2 k) left2 ready.table2);
          }),
        ))
        (same1 refl)
      ∙ ap (λ t. (some v, decrease_chained (record (chained ready) { table2 = t })))
          (chain_table-set_bucket ready.table2 (home s.hash ready.table2 k) left2)

  -- What is asked of the outcome of an extraction from a table of trees.
  pub record Extracted (k : Key) (h : TreeHashTable V) (out : Option (ℕ × V) × TreeHashTable V)
      : Type 0 where
    pub answers : map_value out.0 ≡ view (chained h) k
    pub sound : IsSound out.1
    pub views : (q : Key) → view (chained out.1) q ≡ remove k (view (chained h)) q
    pub sizes : out.1.table1.used + taken (map_value out.0) ≡ h.table1.used

  -- `extract_node` on a table of trees that is sound answers with the entry of the key, or with
  -- none; then the key has no entry, every other key has the entry it had, the size counts the
  -- loss, and the table is sound.
  pub extract_node-Extracted :
      (k : Key) (h : TreeHashTable V) → IsSound h → Extracted k h (extract_node s.hash k h)
  unfolding extract_node
  extract_node-Extracted k h v =
      let m = incremental_rehash-Kept h v in
      let ready = incremental_rehash s.hash h in
      let b1 = bucket_of s.hash ready.table1 k in
      let b2 = bucket_of s.hash ready.table2 k in
      let x1 =
        extract-Extraction_lem k b1 (bucket-HasOrder s.hash ready.table1 k m.sound.ordered.0) in
      let x2 =
        extract-Extraction_lem k b2 (bucket-HasOrder s.hash ready.table2 k m.sound.ordered.1) in
      let e =
        extract_outcome-Extraction k (chained ready)
          (map_value (extract k b1).0, values (extract k b1).1)
          (map_value (extract k b2).0, values (extract k b2).1) m.sound.valid
          (extract-Taken ready.table1 k (extract k b1) x1)
          (extract-Taken ready.table2 k (extract k b2) x2) in
      let same =
        extracted-eq (in_rehashing ready) k ready (extract k b1) (extract k b2)
          (untouched ready.table1 k (extract k b1) x1)
          (untouched ready.table2 k (extract k b2) x2) in
      let d = subst (ChainExtraction k (chained ready)) (sym same) e in
      record {
        answers = d.answers ∙ m.views k;
        sound = record { valid = d.valid; ordered = extract_node-HasOrders s.hash k h v.ordered };
        views =
            λ q. d.views q ∙ remove_congr k (view (chained ready)) (view (chained h)) q (m.views q);
        sizes = d.sizes ∙ m.sizes;
      }

  pub record Found (k : Key) (h : TreeHashTable V) (out : Option V × TreeHashTable V) : Type 0 where
    pub answers : out.0 ≡ view (chained h) k
    pub keeps : Kept h out.1

  searched :
      (on : Bool) (k : Key) (c : HashTable V) (found1 found2 : Option V)
      → found1 ≡ lookup c.table1 k
      → found2 ≡ lookup c.table2 k
      → (on ≡ false → lookup c.table2 k ≡ none)
      → (elim found1 as (λ x. Option V) [ some v ↦ some v | none ↦ if on then found2 else none ])
        ≡ view c k
  unfolding view
  searched on k c (some v) found2 e1 e2 off = ap (λ o. or_else o (lookup c.table2 k)) e1
  searched true k c none found2 e1 e2 off = e2 ∙ ap (λ o. or_else o (lookup c.table2 k)) e1
  searched false k c none found2 e1 e2 off =
      sym (off refl) ∙ ap (λ o. or_else o (lookup c.table2 k)) e1

  -- `find_node` on a table of trees that is sound answers with the entry of the key, or with none,
  -- and keeps the table sound, every entry and the size.
  pub find_node-Found :
      (k : Key) (h : TreeHashTable V) → IsSound h → Found k h (find_node s.hash k h)
  unfolding find_node
  find_node-Found k h v =
      let m = incremental_rehash-Kept h v in
      let ready = incremental_rehash s.hash h in
      record {
        answers =
            searched (in_rehashing ready) k (chained ready)
              (find k (bucket_of s.hash ready.table1 k)) (find k (bucket_of s.hash ready.table2 k))
              (find-lookup ready.table1 k m.sound.ordered.0)
              (find-lookup ready.table2 k m.sound.ordered.1)
              (λ off. off_lem (chained ready) m.sound.valid off)
            ∙ m.views k;
        keeps = m;
      }
    where
      off_lem :
          (c : HashTable V) → IsValid c → chains_in_rehashing c ≡ false → lookup c.table2 k ≡ none
      off_lem c valid off = elim valid.phase [
        | inl settled ↦ IsBlank-lookup c.table2 k (Settled-IsBlank c settled)
        | inr moving ↦
            let on = in_rehashing-Rehashing c moving valid.short1 in ground (arith, on, off)
      ]
