-- ===== src/Algo/HashTable/Insert.antt =====
-- Insertion, on every path.
use mmkvc.Prelude.{◌+◌, ◌^◌, ◌<◌, ◌≡◌, refl, sym, ◌∙◌, length, Option, none, some, arith}
use mmkvc.Algo.Keyed.{Keyed}
use mmkvc.Algo.HashTable.{
  HashTable, Inserted, inserted, duplicate, size_mod, get_duplicate, emplace, insert, rehash,
  incremental_rehash, size,
}
use mmkvc.Algo.HashTable.Valid.{IsValid, view, Keeps, Keeps-trans}
use mmkvc.Algo.HashTable.Settle.{rehash-Keeps, incremental_rehash-Keeps}
use mmkvc.Algo.HashTable.Emplace.{get_duplicate-eq, emplace-Emplaced}
use mmkvc.Algo.HashTable.KeyMap.{add, map_insert}

module _ {T : Type 0} ⦃key : Keyed T⦄ where
  open key use {Key, get_key}

  pub add_congr : (e : T) (m n : Key → Option T) (q : Key) → m q ≡ n q → add e m q ≡ add e n q
  unfolding add
  add_congr e m n q same = rw same refl

  abbrev finish_insert : T → HashTable T → Option T → Inserted T × HashTable T
  finish_insert e ready o = elim o [
    | some old ↦ (duplicate old, ready)
    | none ↦ (inserted e, emplace e ready)
  ]

  -- What is asked of the state and the outcome of an insertion.
  pub record Insertion (e : T) (h : HashTable T) (out : Inserted T × HashTable T) : Type 0 where
    pub answers : out.0 ≡ (map_insert e (view h)).0
    pub valid : IsValid out.1
    pub views : (q : Key) → view out.1 q ≡ (map_insert e (view h)).1 q
    pub sizes : size out.1 ≡ (elim (view h (get_key e)) [ some old ↦ size h | none ↦ size h + 1 ])

  -- `insert` on a valid table that has room for twice as many buckets and one more entry does what
  -- insertion into the map of keys to entries does: it answers with the entry that has the key and
  -- changes nothing, or adds the new entry and counts it; the table stays valid.
  pub insert-Insertion :
      (e : T) (h : HashTable T)
      → IsValid h
      → length h.table1.buckets < 2 ^ 63
      → size h + 1 < size_mod
      → Insertion e h (insert e h)
  unfolding insert map_insert
  insert-Insertion e h v wide room =
      let first = rehash-Keeps h v wide in
      let ready = incremental_rehash (rehash h) in
      let k =
        Keeps-trans h (rehash h) ready first (incremental_rehash-Keeps (rehash h) first.valid) in
      outcome ready k (get_duplicate e ready)
        (sym (k.views (get_key e)) ∙ sym (get_duplicate-eq e ready k.valid))
    where
      outcome :
          (ready : HashTable T)
          → Keeps h ready
          → (o : Option T) → view h (get_key e) ≡ o
          → Insertion e h (finish_insert e ready o)
      outcome ready k (some old) there = record {
        answers = rw (map_insert, there) refl;
        valid = k.valid;
        views = λ q. rw (map_insert, there) (k.views q);
        sizes = rw there k.sizes;
      }
      outcome ready k none absent =
          let done =
            emplace-Emplaced e ready k.valid (omega (arith, k.sizes))
              (k.views (get_key e) ∙ absent) in
          record {
            answers = rw (map_insert, absent) refl;
            valid = done.valid;
            views = λ q.
                rw (map_insert, absent)
                  (done.views q ∙ add_congr e (view ready) (view h) q (k.views q));
            sizes = rw absent (omega (arith, done.sizes, k.sizes));
          }
