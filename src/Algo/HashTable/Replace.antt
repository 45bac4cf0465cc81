-- ===== src/Algo/HashTable/Replace.antt =====
-- Putting a table back from which an entry was taken, or in which it moved to the front.
use mmkvc.Prelude.{
  ℕ, ◌+◌, ◌-◌, ◌%◌, ◌<◌, ◌≡◌, inl, inr, refl, sym, ap, ◌∙◌, true, if◌then◌else◌, List, [], length,
  get_or, get_or-set_self, get_or-set_ne, Option, none, some, arith,
}
use mmkvc.Algo.Keyed.{Keyed}
use mmkvc.Algo.HashTable.{
  HashTable, Table, size_mod, decrease_used, home, has_key, set_bucket, size,
}
use mmkvc.Algo.HashTable.Chain.{to_nat, equal_key_congr, search_if-eq-none}
use mmkvc.Algo.HashTable.Bucket.{IsSized, IsPlaced, lookup, eq_or_ne}
use mmkvc.Algo.HashTable.Move.{or_else, Removed, Fronted, IsSized-same, lookup_congr}
use mmkvc.Algo.HashTable.Valid.{Rehashing, IsValid, view, Keeps}
use mmkvc.Algo.HashTable.KeyMap.{remove}

module _ {T : Type 0} where
  -- Chains that were empty stay empty.
  abbrev pub BlankStays : Table T → Table T → Type 0
  BlankStays t t' = (j : ℕ) → get_or t.buckets j [] ≡ [] → get_or t'.buckets j [] ≡ []

  pub set_bucket-BlankStays :
      (t : Table T) (i : ℕ) (c : List T)
      → i < length t.buckets
      → (get_or t.buckets i [] ≡ [] → c ≡ [])
      → BlankStays t (set_bucket i c t)
  set_bucket-BlankStays t i c h new j blank = elim (eq_or_ne i j) [
    | inl same ↦
        rw (sym same)
          (get_or-set_self t.buckets i c [] h ∙ new (ap (λ x. get_or t.buckets x []) same ∙ blank))
    | inr ne ↦ get_or-set_ne t.buckets i j c [] ne ∙ blank
  ]

  Rehashing-table1 :
      (h : HashTable T) (t : Table T)
      → Rehashing h
      → length t.buckets ≡ length h.table1.buckets
      → BlankStays h.table1 t
      → Rehashing (record h { table1 = t })
  Rehashing-table1 h t r long stays = record {
    at = omega (arith, r.at, long);
    sized2 = r.sized2;
    longer = omega (arith, r.longer, long);
    short2 = r.short2;
    emptied = λ i below. stays i (r.emptied i below);
  }

  Rehashing-table2 :
      (h : HashTable T) (t : Table T)
      → Rehashing h
      → length t.buckets ≡ length h.table2.buckets
      → t.size_mask ≡ h.table2.size_mask
      → Rehashing (record h { table2 = t })
  Rehashing-table2 h t r long mask = record {
    at = r.at;
    sized2 = IsSized-same h.table2 t mask long r.sized2;
    longer = omega (arith, r.longer, long);
    short2 = omega (arith, r.short2, long);
    emptied = r.emptied;
  }

module _ {T : Type 0} ⦃key : Keyed T⦄ where
  open key use {Key, get_key, equal_key}

  pub front1-Keeps :
      (h : HashTable T) (node : T) (t : Table T)
      → IsValid h
      → Fronted node h.table1 t
      → BlankStays h.table1 t
      → Keeps h (record h { table1 = t })
  unfolding view
  front1-Keeps h node t v f stays = record {
    valid = record {
      sized1 = IsSized-same h.table1 t f.mask f.long v.sized1;
      at_least = omega (arith, f.long, v.at_least);
      short1 = omega (arith, f.long, v.short1);
      placed1 = f.place v.placed1;
      placed2 = v.placed2;
      unique = λ q. omega (arith, f.counts q v.placed1, v.unique q);
      used_total = omega (arith, f.used_same, f.total, v.used_total);
      used_fits = omega (arith, f.used_same, v.used_fits);
      phase = elim v.phase [
        | inl s ↦ inl (record { idle = s.idle; unused = s.unused })
        | inr r ↦ inr (Rehashing-table1 h t r f.long stays)
      ];
    };
    views = λ q. ap (λ o. or_else o (lookup h.table2 q)) (f.finds q (omega (arith, v.unique q)));
    sizes = f.used_same;
  }

  pub front2-Keeps :
      (h : HashTable T) (node : T) (t : Table T)
      → IsValid h
      → Rehashing h
      → Fronted node h.table2 t
      → Keeps h (record h { table2 = t })
  unfolding view
  front2-Keeps h node t v r f = record {
    valid = record {
      sized1 = v.sized1;
      at_least = v.at_least;
      short1 = v.short1;
      placed1 = v.placed1;
      placed2 = f.place v.placed2;
      unique = λ q. omega (arith, f.counts q v.placed2, v.unique q);
      used_total = omega (arith, f.total, v.used_total);
      used_fits = v.used_fits;
      phase = inr (Rehashing-table2 h t r f.long f.mask);
    };
    views = λ q. ap (or_else (lookup h.table1 q)) (f.finds q (omega (arith, v.unique q)));
    sizes = refl;
  }

  -- The entry of `k` is gone, and everything else is as it was.
  pub record Dropped (k : Key) (h h' : HashTable T) : Type 0 where
    pub valid : IsValid h'
    pub views : (q : Key) → view h' q ≡ remove k (view h) q
    pub sizes : size h' + 1 ≡ size h

  drop-view1 :
      (k q : Key) (a a' b : Option T)
      → a' ≡ (if equal_key q k then none else a)
      → (equal_key q k ≡ true → b ≡ none)
      → or_else a' b ≡ (if equal_key q k then none else or_else a b)
  drop-view1 k q a a' b eq clear = ground (arith, eq, clear)

  drop-view2 :
      (k q : Key) (a b b' : Option T)
      → b' ≡ (if equal_key q k then none else b)
      → (equal_key q k ≡ true → a ≡ none)
      → or_else a b' ≡ (if equal_key q k then none else or_else a b)
  drop-view2 k q a b b' eq clear = ground (arith, eq, clear)

  -- The other table has no entry of the key.
  other-lookup :
      (h : HashTable T) (k q : Key) (node : T) (t : Table T)
      → IsValid h
      → Removed k (some node) h.table1 t
      → equal_key q k ≡ true
      → lookup h.table2 q ≡ none
  other-lookup h k q node t v r same =
      let hit : has_key q node ≡ true =
        equal_key_congr key q k (get_key node) same ∙ r.matches node refl in
      let one : to_nat (has_key q node) ≡ 1 = ap to_nat hit in
      search_if-eq-none q _ (omega (arith, r.counts q v.placed1, v.unique q, one))

  pub drop1-Dropped :
      (h : HashTable T) (k : Key) (node : T) (t : Table T)
      → IsValid h
      → Removed k (some node) h.table1 t
      → BlankStays h.table1 t
      → Dropped k h (decrease_used (record h { table1 = t }))
  unfolding decrease_used view remove home IsPlaced IsSized
  drop1-Dropped h k node t v r stays =
      let less : (t.used + size_mod - 1) % size_mod + 1 ≡ h.table1.used =
        omega (arith, r.used_same, r.total, v.used_total, v.used_fits) in
      record {
        valid = record {
          sized1 = IsSized-same h.table1 t r.mask r.long v.sized1;
          at_least = omega (arith, r.long, v.at_least);
          short1 = omega (arith, r.long, v.short1);
          placed1 = placed (r.place v.placed1);
          placed2 = v.placed2;
          unique = λ q. omega (arith, r.counts q v.placed1, v.unique q);
          used_total = omega (arith, less, r.total, v.used_total);
          used_fits = omega (arith, less, v.used_fits);
          phase = elim v.phase [
            | inl s ↦ inl (record { idle = s.idle; unused = s.unused })
            | inr moving ↦ inr (Rehashing-table1 h _ moving r.long stays)
          ];
        };
        views = λ q.
            drop-view1 k q (lookup h.table1 q) (lookup t q) (lookup h.table2 q)
              (r.finds q (omega (arith, v.unique q))) (other-lookup h k q node t v r);
        sizes = less;
      }
    where
      placed : IsPlaced t → IsPlaced (record t { used = (t.used + size_mod - 1) % size_mod })
      placed p = p

  pub drop2-Dropped :
      (h : HashTable T) (k : Key) (node : T) (t : Table T)
      → IsValid h
      → Rehashing h
      → lookup h.table1 k ≡ none
      → Removed k (some node) h.table2 t
      → Dropped k h (decrease_used (record h { table2 = t }))
  unfolding decrease_used view remove home IsPlaced IsSized
  drop2-Dropped h k node t v r' absent r =
      let less : (h.table1.used + size_mod - 1) % size_mod + 1 ≡ h.table1.used =
        omega (arith, r.total, v.used_total, v.used_fits) in
      record {
        valid = record {
          sized1 = v.sized1;
          at_least = v.at_least;
          short1 = v.short1;
          placed1 = v.placed1;
          placed2 = r.place v.placed2;
          unique = λ q. omega (arith, r.counts q v.placed2, v.unique q);
          used_total = omega (arith, less, r.total, v.used_total);
          used_fits = omega (arith, less, v.used_fits);
          phase = inr (
              Rehashing-table1 (record h { table2 = t }) _ (Rehashing-table2 h t r' r.long r.mask)
                refl (λ j b. b));
        };
        views = λ q.
            drop-view2 k q (lookup h.table1 q) (lookup h.table2 q) (lookup t q)
              (r.finds q (omega (arith, v.unique q)))
              (λ same. lookup_congr h.table1 q k same ∙ absent);
        sizes = less;
      }
