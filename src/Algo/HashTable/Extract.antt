-- ===== src/Algo/HashTable/Extract.antt =====
-- Extracting and erasing, on every path.
use mmkvc.Prelude.{
  ◌+◌, ◌≡◌, inl, inr, refl, sym, ap, ◌∙◌, Bool, true, if◌then◌else◌, List, Option, none, some,
  arith, Bool-cases,
}
use mmkvc.Algo.Keyed.{Keyed}
use mmkvc.Algo.HashTable.{
  HashTable, in_rehashing, incremental_rehash, extract, erase, decrease_used, home, bucket_of,
  set_bucket, size,
}
use mmkvc.Algo.HashTable.Chain.{Taken, extract_node_if-Taken}
use mmkvc.Algo.HashTable.Bucket.{lookup, home-lt}
use mmkvc.Algo.HashTable.Move.{or_else, taken, lookup_congr, set_bucket-Removed}
use mmkvc.Algo.HashTable.Valid.{
  Rehashing, in_rehashing-Settled, in_rehashing-Rehashing, IsValid, view,
}
use mmkvc.Algo.HashTable.Settle.{incremental_rehash-Keeps}
use mmkvc.Algo.HashTable.Emplace.{view-Settled}
use mmkvc.Algo.HashTable.Replace.{set_bucket-BlankStays, Dropped, drop1-Dropped, drop2-Dropped}
use mmkvc.Algo.HashTable.Search.{Taken-nonempty}
use mmkvc.Algo.HashTable.KeyMap.{remove}

module _ {T : Type 0} ⦃key : Keyed T⦄ where
  open key use {Key, equal_key}

  -- What is asked of the outcome of an extraction.
  pub record Extraction (k : Key) (h : HashTable T) (out : Option T × HashTable T) : Type 0 where
    pub answers : out.0 ≡ view h k
    pub valid : IsValid out.1
    pub views : (q : Key) → view out.1 q ≡ remove k (view h) q
    pub sizes : size out.1 + taken out.0 ≡ size h

  -- What extraction leaves, by what was found in each table; `on` is whether rehashing is under way.
  abbrev pub extract_by :
      Bool → Key → HashTable T → Option T × List T → Option T × List T → Option T × HashTable T
  extract_by on k h (found1, rest1) (found2, rest2) = elim found1 [
    | some node ↦ (
      some node,
      decrease_used (record h { table1 = set_bucket (home h.table1 k) rest1 h.table1 }),
    )
    | none ↦
        if on
        then elim found2 [
          | some node ↦ (
            some node,
            decrease_used (record h { table2 = set_bucket (home h.table2 k) rest2 h.table2 }),
          )
          | none ↦ (none, h)
        ]
        else (none, h)
  ]

  abbrev pub extract_outcome :
      Key → HashTable T → Option T × List T → Option T × List T → Option T × HashTable T
  extract_outcome k h = extract_by (in_rehashing h) k h

  Dropped-Extraction :
      (k : Key) (h h' : HashTable T) (node : T)
      → some node ≡ view h k
      → Dropped k h h'
      → Extraction k h (some node, h')
  Dropped-Extraction k h h' node answers d = record {
    answers = answers;
    valid = d.valid;
    views = d.views;
    sizes = d.sizes;
  }

  view_congr : (h : HashTable T) (a b : Key) → equal_key a b ≡ true → view h a ≡ view h b
  unfolding view
  view_congr h a b e = rw (lookup_congr h.table1 a b e) (rw (lookup_congr h.table2 a b e) refl)

  pub remove_congr :
      (k : Key) (m n : Key → Option T) (q : Key) → m q ≡ n q → remove k m q ≡ remove k n q
  unfolding remove
  remove_congr k m n q same = rw same refl

  -- Without an entry of the key there is nothing to remove.
  absent-Extraction :
      (k : Key) (h : HashTable T) → IsValid h → none ≡ view h k → Extraction k h (none, h)
  unfolding remove
  absent-Extraction k h v absent = record {
    answers = absent;
    valid = v;
    views = λ q. elim (Bool-cases (equal_key q k)) [
      | inl same ↦ rw same (view_congr h q k same ∙ sym absent)
      | inr other ↦ rw other refl
    ];
    sizes = omega arith;
  }

  pub extract_outcome-Extraction :
      (k : Key) (h : HashTable T) (p1 p2 : Option T × List T)
      → IsValid h
      → Taken k (bucket_of h.table1 k) p1.0 p1.1
      → Taken k (bucket_of h.table2 k) p2.0 p2.1
      → Extraction k h (extract_outcome k h p1 p2)
  unfolding view
  extract_outcome-Extraction k h (some node, rest) p2 v t1 t2 =
      let lt = home-lt h.table1 k v.sized1 in
      Dropped-Extraction k h _ node (ap (λ o. or_else o (lookup h.table2 k)) t1.returns) (
        drop1-Dropped h k node _ v (set_bucket-Removed h.table1 k (some node) rest v.sized1 t1)
          (set_bucket-BlankStays h.table1 _ rest lt (Taken-nonempty k _ node rest _ t1)))
  extract_outcome-Extraction k h (none, rest1) (found2, rest2) v t1 t2 = elim v.phase [
    | inl s ↦
        rw (in_rehashing-Settled h s)
          (absent-Extraction k h v (t1.returns ∙ sym (view-Settled h k s)))
    | inr r ↦ rw (in_rehashing-Rehashing h r v.short1) (moving found2 r t2)
  ]
    where
      absent : lookup h.table2 k ≡ view h k
      absent = ap (λ o. or_else o (lookup h.table2 k)) t1.returns

      moving :
          (found2 : Option T)
          → Rehashing h
          → Taken k (bucket_of h.table2 k) found2 rest2
          → Extraction k h (elim found2 [
            | some node ↦ (
              some node,
              decrease_used (record h { table2 = set_bucket (home h.table2 k) rest2 h.table2 }),
            )
            | none ↦ (none, h)
          ])
      moving (some node) r t2 = Dropped-Extraction k h _ node (t2.returns ∙ absent) (
          drop2-Dropped h k node _ v r (sym t1.returns)
            (set_bucket-Removed h.table2 k (some node) rest2 r.sized2 t2))
      moving none r t2 = absent-Extraction k h v (t2.returns ∙ absent)

  -- `extract` on a valid table answers with the entry of the key, or with none; then the key has
  -- no entry, every other key has the entry it had, the size counts the loss, and the table is
  -- valid.
  pub extract-Extraction : (k : Key) (h : HashTable T) → IsValid h → Extraction k h (extract k h)
  unfolding extract
  extract-Extraction k h v =
      let m = incremental_rehash-Keeps h v in
      let ready = incremental_rehash h in
      let e =
        extract_outcome-Extraction k ready _ _ m.valid
          (extract_node_if-Taken k (bucket_of ready.table1 k))
          (extract_node_if-Taken k (bucket_of ready.table2 k)) in
      record {
        answers = e.answers ∙ m.views k;
        valid = e.valid;
        views = λ q. e.views q ∙ remove_congr k (view ready) (view h) q (m.views q);
        sizes = e.sizes ∙ m.sizes;
      }

  -- `erase` on a valid table answers 1 if the key has an entry and 0 if not; then the key has no
  -- entry, every other key has the entry it had, the size is less by the answer, and the table is
  -- valid.
  pub erase-eq :
      (k : Key) (h : HashTable T)
      → IsValid h
      → ((erase k h).0 ≡ taken (view h k))
        × ((q : Key) → view (erase k h).1 q ≡ remove k (view h) q)
        × (size (erase k h).1 + (erase k h).0 ≡ size h)
        × IsValid (erase k h).1
  unfolding erase
  erase-eq k h v =
      let e = extract-Extraction k h v in
      let same = ap taken e.answers in
      (answer (extract k h).0 ∙ same, e.views, rw (answer (extract k h).0) e.sizes, e.valid)
    where
      answer : (o : Option T) → (elim o [ none ↦ 0 | some v ↦ 1 ]) ≡ taken o
      answer none = refl
      answer (some x) = refl
