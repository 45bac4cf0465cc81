-- ===== src/Algo/HashTable/Search.antt =====
-- Searching with move to front, on every path.
use mmkvc.Prelude.{
  ◌≡◌, inl, inr, sym, ap, ◌∙◌, if◌then◌else◌, List, [], ◌∷◌, length, Option, none, some, arith,
}
use mmkvc.Algo.Keyed.{Keyed}
use mmkvc.Algo.HashTable.{
  HashTable, in_rehashing, incremental_rehash, find_slot, find, home, bucket_of, set_bucket,
}
use mmkvc.Algo.HashTable.Chain.{Taken, extract_node_if-Taken}
use mmkvc.Algo.HashTable.Bucket.{lookup, home-lt}
use mmkvc.Algo.HashTable.Move.{or_else, move_to_front-Fronted}
use mmkvc.Algo.HashTable.Valid.{
  Rehashing, in_rehashing-Settled, in_rehashing-Rehashing, IsValid, view, Keeps, Keeps-refl,
  Keeps-trans,
}
use mmkvc.Algo.HashTable.Settle.{incremental_rehash-Keeps}
use mmkvc.Algo.HashTable.Emplace.{view-Settled}
use mmkvc.Algo.HashTable.Replace.{set_bucket-BlankStays, front1-Keeps, front2-Keeps}

module _ {T : Type 0} ⦃key : Keyed T⦄ where
  open key use {Key, get_key, equal_key}

  -- A chain from which an entry was taken was not empty.
  pub Taken-nonempty :
      (k : Key) (c : List T) (node : T) (rest : List T) (d : List T)
      → Taken k c (some node) rest
      → c ≡ []
      → d ≡ []
  Taken-nonempty k c node rest d t e =
      let empty : length c ≡ 0 = ap length e in absurd (omega (arith, t.shorter, empty))

  -- What the search leaves, by what was found in each table.
  abbrev find_outcome :
      Key → HashTable T → Option T × List T → Option T × List T → Option T × HashTable T
  find_outcome k h (found1, rest1) (found2, rest2) = elim found1 [
    | some node ↦
        (some node, record h { table1 = set_bucket (home h.table1 k) (node ∷ rest1) h.table1 })
    | none ↦
        if in_rehashing h
        then elim found2 [
          | some node ↦ (
            some node,
            record h { table2 = set_bucket (home h.table2 k) (node ∷ rest2) h.table2 },
          )
          | none ↦ (none, h)
        ]
        else (none, h)
  ]

  pub record Search (k : Key) (h : HashTable T) (out : Option T × HashTable T) : Type 0 where
    pub answers : out.0 ≡ view h k
    pub keeps : Keeps h out.1

  find_outcome-Search :
      (k : Key) (h : HashTable T) (p1 p2 : Option T × List T)
      → IsValid h
      → Taken k (bucket_of h.table1 k) p1.0 p1.1
      → Taken k (bucket_of h.table2 k) p2.0 p2.1
      → Search k h (find_outcome k h p1 p2)
  unfolding view
  find_outcome-Search k h (some node, rest) p2 v t1 t2 =
      let lt = home-lt h.table1 k v.sized1 in
      record {
        answers = ap (λ o. or_else o (lookup h.table2 k)) t1.returns;
        keeps =
            front1-Keeps h node _ v (move_to_front-Fronted h.table1 k node rest v.sized1 t1) (
              set_bucket-BlankStays h.table1 _ (node ∷ rest) lt
                (Taken-nonempty k _ node rest _ t1));
      }
  find_outcome-Search k h (none, rest1) (found2, rest2) v t1 t2 = elim v.phase [
    | inl s ↦
        rw (in_rehashing-Settled h s)
          (record { answers = t1.returns ∙ sym (view-Settled h k s); keeps = Keeps-refl h v })
    | inr r ↦ rw (in_rehashing-Rehashing h r v.short1) (moving found2 r t2)
  ]
    where
      absent : lookup h.table2 k ≡ view h k
      absent = ap (λ o. or_else o (lookup h.table2 k)) t1.returns

      moving :
          (found2 : Option T)
          → Rehashing h
          → Taken k (bucket_of h.table2 k) found2 rest2
          → Search k h (elim found2 [
            | some node ↦ (
              some node,
              record h { table2 = set_bucket (home h.table2 k) (node ∷ rest2) h.table2 },
            )
            | none ↦ (none, h)
          ])
      moving (some node) r t2 = record {
        answers = t2.returns ∙ absent;
        keeps = front2-Keeps h node _ v r (move_to_front-Fronted h.table2 k node rest2 r.sized2 t2);
      }
      moving none r t2 = record { answers = t2.returns ∙ absent; keeps = Keeps-refl h v }

  -- `find` on a valid table answers with the entry of the key, or with none, and keeps the table
  -- valid, all its entries and its size.
  pub find-Search : (k : Key) (h : HashTable T) → IsValid h → Search k h (find k h)
  unfolding find find_slot
  find-Search k h v =
      let m = incremental_rehash-Keeps h v in
      let ready = incremental_rehash h in
      let s =
        find_outcome-Search k ready _ _ m.valid (extract_node_if-Taken k (bucket_of ready.table1 k))
          (extract_node_if-Taken k (bucket_of ready.table2 k)) in
      record { answers = s.answers ∙ m.views k; keeps = Keeps-trans h ready _ m s.keeps }
