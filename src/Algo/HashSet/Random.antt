-- ===== src/Algo/HashSet/Random.antt =====
-- `EraseRandom` takes an entry out and leaves the count.
use mmkvc.Prelude.{
  ℕ, zero, suc, ◌+◌, ◌<◌, ◌≡◌, ◌≢◌, refl, sym, ap, ◌∙◌, inl, inr, List, [], ◌∷◌, length, get_or,
  set, drop, Option, none, some, arith,
}
use mmkvc.Algo.Keyed.{Keyed}
use mmkvc.Algo.HashTable.{HashTable, size, set_bucket, incremental_rehash}
use mmkvc.Algo.HashTable.Bucket.{entries, entries-set}
use mmkvc.Algo.HashTable.Valid.{IsValid, in_rehashing-Settled, in_rehashing-Rehashing}
use mmkvc.Algo.HashTable.Settle.{incremental_rehash-Keeps}
use mmkvc.Algo.TableIterator.{first_used}
use mmkvc.Algo.TableIterator.Cursors.{chain_walk}
use mmkvc.Algo.TableIterator.Visited.{drop-suc}
use mmkvc.Algo.HashSet.{pop_front, victim1, victim2, erase_random}

module _ {T : Type 0} where
  get_or-drop :
      (j : ℕ) (cs : List (List T)) (c : List T) (ds : List (List T))
      → drop j cs ≡ c ∷ ds
      → get_or cs j [] ≡ c
  get_or-drop zero [] c ds h = absurd (cc)
  get_or-drop zero (x ∷ cs) c ds h = cc
  get_or-drop (suc j) [] c ds h = absurd (cc)
  get_or-drop (suc j) (x ∷ cs) c ds h = get_or-drop j cs c ds h

  -- What the loops of `EraseRandom` find in the chains `ds`, a part of `cs`.
  abbrev Victim : List (List T) → List (List T) → Option (ℕ × Option (T × List T)) → Type 0
  Victim cs ds none = entries ds ≡ 0
  Victim cs ds (some (k, x)) = (k < length cs) × (0 < length (get_or cs k []))

  first_used-Victim :
      (cs : List (List T)) (j : ℕ) (ds : List (List T))
      → drop j cs ≡ ds
      → Victim cs ds (first_used chain_walk j ds)
  unfolding first_used entries
  first_used-Victim cs j [] h = refl
  first_used-Victim cs j ([] ∷ ds) h =
      weaken (first_used chain_walk (suc j) ds)
        (first_used-Victim cs (suc j) ds (drop-suc j cs [] ds h).1)
    where
      weaken : (o : Option (ℕ × Option (T × List T))) → Victim cs ds o → Victim cs ([] ∷ ds) o
      weaken none v = omega (arith, v)
      weaken (some (k, x)) v = v
  first_used-Victim cs j ((x ∷ c) ∷ ds) h =
      let long : length (get_or cs j []) ≡ suc (length c) =
        ap length (get_or-drop j cs (x ∷ c) ds h) in
      ((drop-suc j cs (x ∷ c) ds h).0, omega (arith, long))

  length-pop_front : (c : List T) → 0 < length c → length (pop_front c) + 1 ≡ length c
  length-pop_front [] h = absurd (omega arith)
  length-pop_front (x ∷ c) h = omega arith

  popped :
      (cs : List (List T)) (k : ℕ)
      → k < length cs
      → 0 < length (get_or cs k [])
      → entries (set cs k (pop_front (get_or cs k []))) + 1 ≡ entries cs
  popped cs k inside full = omega (
    arith,
    entries-set cs k (pop_front (get_or cs k [])) inside,
    length-pop_front (get_or cs k []) full,
  )

  entries-drop :
      (n : ℕ) (cs : List (List T))
      → ((i : ℕ) → i < n → get_or cs i [] ≡ [])
      → entries cs ≡ entries (drop n cs)
  unfolding entries
  entries-drop zero cs h = refl
  entries-drop (suc n) [] h = refl
  entries-drop (suc n) (c ∷ cs) h =
      let front : length c ≡ 0 = ap length (h 0 (omega arith)) in
      omega (arith, front, entries-drop n cs (λ i below. h (suc i) (omega arith)))

module _ {T : Type 0} ⦃key : Keyed T⦄ where
  -- What is left of a table of `total` entries: as many, less the answer, which is 0 for none only;
  -- and the count stays.
  record Erased (total : ℕ) (out : ℕ × HashTable T) : Type 0 where
    held : entries out.1.table1.buckets + entries out.1.table2.buckets + out.0 ≡ total
    counted : size out.1 ≡ total
    one : total ≢ 0 → out.0 ≡ 1

  -- what `EraseRandom` leaves, by what its loops find
  abbrev erased_by :
      HashTable T
      → Option (ℕ × Option (T × List T))
      → Option (ℕ × Option (T × List T))
      → ℕ × HashTable T
  erased_by h o1 o2 = elim o1 [
    | some (j, x) ↦
        (1, record h { table1 = set_bucket j (pop_front (get_or h.table1.buckets j [])) h.table1 })
    | none ↦ elim o2 [
      | some (j, x) ↦ (
        1,
        record h { table2 = set_bucket j (pop_front (get_or h.table2.buckets j [])) h.table2 },
      )
      | none ↦ (0, h)
    ]
  ]

  erased_by-Erased :
      (h : HashTable T) (ds1 ds2 : List (List T)) (o1 o2 : Option (ℕ × Option (T × List T)))
      → IsValid h
      → entries h.table1.buckets ≡ entries ds1
      → entries h.table2.buckets ≡ entries ds2
      → Victim h.table1.buckets ds1 o1
      → Victim h.table2.buckets ds2 o2
      → Erased (size h) (erased_by h o1 o2)
  erased_by-Erased h ds1 ds2 (some (j, x)) o2 v e1 e2 (inside, full) v2 = record {
    held = omega (arith, popped h.table1.buckets j inside full, v.used_total);
    counted = refl;
    one = λ ne. refl;
  }
  erased_by-Erased h ds1 ds2 none (some (j, x)) v e1 e2 v1 (inside, full) = record {
    held = omega (arith, popped h.table2.buckets j inside full, v.used_total);
    counted = refl;
    one = λ ne. refl;
  }
  erased_by-Erased h ds1 ds2 none none v e1 e2 v1 v2 = record {
    held = omega (arith, v.used_total);
    counted = refl;
    one = λ ne. absurd (ne (omega (arith, v.used_total)));
  }

  ready-Erased :
      (h : HashTable T) → IsValid h → Erased (size h) (erased_by h (victim1 h) (victim2 h))
  unfolding first_used entries
  ready-Erased h v = elim v.phase [
    | inl idle ↦ rw (in_rehashing-Settled h idle) (
        erased_by-Erased h h.table1.buckets [] (first_used chain_walk 0 h.table1.buckets) none v
          refl (ap entries idle.unused) (first_used-Victim h.table1.buckets 0 h.table1.buckets refl)
          refl)
    | inr moving ↦
        let i = h.rehash_move_bucket_index in
        rw (in_rehashing-Rehashing h moving v.short1) (
          erased_by-Erased h (drop i h.table1.buckets) h.table2.buckets
            (first_used chain_walk i (drop i h.table1.buckets))
            (first_used chain_walk 0 h.table2.buckets) v
            (entries-drop i h.table1.buckets moving.emptied) refl
            (first_used-Victim h.table1.buckets i (drop i h.table1.buckets) refl)
            (first_used-Victim h.table2.buckets 0 h.table2.buckets refl))
  ]

  -- `erase_random` on a valid table takes exactly one entry out and answers 1, if there is one,
  -- and yet the size stays: the table then counts one entry more than it holds.
  pub erase_random-counted :
      (h : HashTable T)
      → IsValid h
      → let out = erase_random h in
        (size out.1 ≡ size h)
        × (entries out.1.table1.buckets + entries out.1.table2.buckets + out.0 ≡ size h)
        × (size h ≢ 0 → out.0 ≡ 1)
  unfolding erase_random
  erase_random-counted h v =
      let k = incremental_rehash-Keeps h v in
      let e = ready-Erased (incremental_rehash h) k.valid in
      (e.counted ∙ k.sizes, e.held ∙ k.sizes, λ ne. e.one (λ z. ne (sym k.sizes ∙ z)))
