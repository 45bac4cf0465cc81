-- ===== src/Algo/HashTable/Emplace.antt =====
-- The search for a duplicate, and putting an entry into the table that takes it.
use mmkvc.Prelude.{
  ◌+◌, ◌%◌, ◌≤◌, ◌<◌, ◌≡◌, inl, inr, refl, sym, ap, ◌∙◌, true, ltb, if◌then◌else◌, [], get_or,
  Option, none, some, arith, Bool-cases,
}
use mmkvc.Algo.Slist.{search_if}
use mmkvc.Algo.Keyed.{Keyed}
use mmkvc.Algo.HashTable.{
  HashTable, Table, size_mod, get_duplicate, emplace, push, home, bucket_of, has_key, same_key,
}
use mmkvc.Algo.HashTable.Chain.{
  to_nat, count_congr, count-eq-zero, search_if-same_key, search_if-eq-none,
}
use mmkvc.Algo.HashTable.Bucket.{
  IsSized, IsPlaced, count_in, lookup, Pushed, push-Pushed, IsBlank, IsBlank-lookup, home_congr,
}
use mmkvc.Algo.HashTable.Move.{or_else, or_else-none, IsSized-same}
use mmkvc.Algo.HashTable.Valid.{
  Settled, Rehashing, in_rehashing-Settled, in_rehashing-Rehashing, IsValid, view,
}
use mmkvc.Algo.HashTable.KeyMap.{add}

module _ {T : Type 0} ⦃key : Keyed T⦄ where
  open key use {Key, get_key, equal_key, equal_key_comm}

  pub Settled-IsBlank : (h : HashTable T) → Settled h → IsBlank h.table2
  Settled-IsBlank h s i = ap (λ cs. get_or cs i []) s.unused

  pub view-Settled : (h : HashTable T) (q : Key) → Settled h → view h q ≡ lookup h.table1 q
  unfolding view
  view-Settled h q s =
      rw (IsBlank-lookup h.table2 q (Settled-IsBlank h s)) (or_else-none (lookup h.table1 q))

  pub emptied-lookup :
      (h : HashTable T) (q : Key)
      → Rehashing h
      → home h.table1 q < h.rehash_move_bucket_index
      → lookup h.table1 q ≡ none
  unfolding search_if
  emptied-lookup h q r below = rw (r.emptied (home h.table1 q) below) refl

  -- The search of `insert` finds what the table holds for the key.
  pub get_duplicate-eq :
      (e : T) (h : HashTable T) → IsValid h → get_duplicate e h ≡ view h (get_key e)
  unfolding get_duplicate view
  get_duplicate-eq e h v =
      let k = get_key e in
      let same1 = search_if-same_key e (bucket_of h.table1 k) in
      let same2 = search_if-same_key e (bucket_of h.table2 k) in
      elim v.phase [
        | inl s ↦ rw (in_rehashing-Settled h s) (rw same1 (sym (view-Settled h k s)))
        | inr r ↦ rw (in_rehashing-Rehashing h r v.short1) (
            rw same1 (elim (Bool-cases (ltb (home h.table1 k) h.rehash_move_bucket_index)) [
              | inl below ↦ rw below (same2 ∙ sym (rw (emptied-lookup h k r (ground arith)) refl))
              | inr above ↦ rw above (
                  or_else-elim (lookup h.table1 k) (search_if (same_key e) (bucket_of h.table2 k))
                  ∙ ap (or_else (lookup h.table1 k)) same2)
            ]))
      ]
    where
      or_else-elim : (a b : Option T) → (elim a [ some old ↦ some old | none ↦ b ]) ≡ or_else a b
      or_else-elim none b = refl
      or_else-elim (some x) b = refl

  pub count_in_congr :
      (t : Table T) (a b : Key) → equal_key a b ≡ true → count_in t a ≡ count_in t b
  count_in_congr t a b e = rw (home_congr t a b e) (count_congr a b _ e)

  -- A key without an entry occurs nowhere.
  view-absent :
      (h : HashTable T) (e : T) (q : Key)
      → view h (get_key e) ≡ none
      → has_key q e ≡ true
      → (count_in h.table1 q ≡ 0) × (count_in h.table2 q ≡ 0)
  unfolding view
  view-absent h e q absent hit =
      let k = get_key e in
      let (one, two) = both (lookup h.table1 k) (lookup h.table2 k) absent in
      (
        sym (count_in_congr h.table1 k q hit) ∙ count-eq-zero k (bucket_of h.table1 k) one,
        sym (count_in_congr h.table2 k q hit) ∙ count-eq-zero k (bucket_of h.table2 k) two,
      )
    where
      both : (a b : Option T) → or_else a b ≡ none → (a ≡ none) × (b ≡ none)
      both none b h = (refl, h)
      both (some x) b h = absurd (cc)

  -- The insertion of an entry whose key is absent.
  pub record Emplaced (e : T) (h h' : HashTable T) : Type 0 where
    pub valid : IsValid h'
    pub views : (q : Key) → view h' q ≡ add e (view h) q
    pub sizes : h'.table1.used ≡ h.table1.used + 1

  pub pushed_unique :
      (h : HashTable T) (e : T) (q : Key)
      → IsValid h
      → view h (get_key e) ≡ none
      → to_nat (has_key q e) + (count_in h.table1 q + count_in h.table2 q) ≤ 1
  pushed_unique h e q v absent = elim (Bool-cases (has_key q e)) [
    | inl hit ↦ let (one, two) = view-absent h e q absent hit in rw hit (omega (arith, one, two))
    | inr miss ↦ rw miss (omega (arith, v.unique q))
  ]

  pub pushed-view1 :
      (e : T) (q : Key) (a a' b : Option T)
      → a' ≡ (if has_key q e then some e else a)
      → or_else a' b ≡ (if has_key q e then some e else or_else a b)
  pushed-view1 e q a a' b eq = ground (arith, eq)

  pushed-view2 :
      (e : T) (q : Key) (a b b' : Option T)
      → b' ≡ (if has_key q e then some e else b)
      → (has_key q e ≡ true → a ≡ none)
      → or_else a b' ≡ (if has_key q e then some e else or_else a b)
  pushed-view2 e q a b b' eq clear = ground (arith, eq, clear)

  pub Settled-Emplaced :
      (e : T) (h : HashTable T) (t : Table T)
      → IsValid h
      → h.table1.used + 1 < size_mod
      → view h (get_key e) ≡ none
      → Settled h
      → Pushed e h.table1 t
      → Emplaced e h (record h { table1 = record t { used = (h.table1.used + 1) % size_mod } })
  unfolding view add home IsPlaced IsSized
  Settled-Emplaced e h t v room absent s p =
      let more : (h.table1.used + 1) % size_mod ≡ h.table1.used + 1 = omega arith in
      record {
        valid = record {
          sized1 = IsSized-same h.table1 t p.mask p.long v.sized1;
          at_least = omega (arith, p.long, v.at_least);
          short1 = omega (arith, p.long, v.short1);
          placed1 = p.place v.placed1;
          placed2 = v.placed2;
          unique = λ q. omega (arith, p.counts q, pushed_unique h e q v absent);
          used_total = omega (arith, more, p.total, v.used_total);
          used_fits = omega (arith, more);
          phase = inl (record { idle = s.idle; unused = s.unused });
        };
        views = λ q. pushed-view1 e q _ (lookup t q) (lookup h.table2 q) (p.finds q);
        sizes = more;
      }

  pub Rehashing-Emplaced :
      (e : T) (h : HashTable T) (t : Table T)
      → IsValid h
      → h.table1.used + 1 < size_mod
      → view h (get_key e) ≡ none
      → Rehashing h
      → Pushed e h.table2 t
      → Emplaced e h (record h {
        table1 = record h.table1 { used = (h.table1.used + 1) % size_mod };
        table2 = t;
      })
  unfolding view add home IsPlaced IsSized
  Rehashing-Emplaced e h t v room absent r p =
      let more : (h.table1.used + 1) % size_mod ≡ h.table1.used + 1 = omega arith in
      record {
        valid = record {
          sized1 = v.sized1;
          at_least = v.at_least;
          short1 = v.short1;
          placed1 = v.placed1;
          placed2 = p.place v.placed2;
          unique = λ q. omega (arith, p.counts q, pushed_unique h e q v absent);
          used_total = omega (arith, more, p.total, v.used_total);
          used_fits = omega (arith, more);
          phase = inr (record {
            at = r.at;
            sized2 = IsSized-same h.table2 t p.mask p.long r.sized2;
            longer = omega (arith, p.long, r.longer);
            short2 = omega (arith, p.long, r.short2);
            emptied = r.emptied;
          });
        };
        views = λ q.
            pushed-view2 e q (lookup h.table1 q) (lookup h.table2 q) (lookup t q) (p.finds q)
              (λ hit. search_if-eq-none q _ (view-absent h e q absent hit).0);
        sizes = more;
      }

  pub emplace-Emplaced :
      (e : T) (h : HashTable T)
      → IsValid h
      → h.table1.used + 1 < size_mod
      → view h (get_key e) ≡ none
      → Emplaced e h (emplace e h)
  unfolding emplace
  emplace-Emplaced e h v room absent = elim v.phase [
    | inl s ↦
        rw (in_rehashing-Settled h s)
          (Settled-Emplaced e h (push e h.table1) v room absent s (push-Pushed e h.table1 v.sized1))
    | inr r ↦
        rw (in_rehashing-Rehashing h r v.short1) (
          Rehashing-Emplaced e h (push e h.table2) v room absent r
            (push-Pushed e h.table2 r.sized2))
  ]
