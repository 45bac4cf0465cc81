-- ===== src/Algo/HashTable/Rehash.antt =====
-- Starting to rehash, and moving one chain over, change nothing that a caller can see.
use mmkvc.Prelude.{
  List, ℕ, suc, ◌+◌, ◌≤◌, ◌<◌, ◌≡◌, ◌≢◌, inl, inr, refl, sym, ap, ◌∙◌, [], length, get_or, Option,
  none, some, arith, length-set, get_or-set_self, get_or-set_ne,
}
use mmkvc.Algo.Slist.{search_if}
use mmkvc.Algo.Keyed.{Keyed}
use mmkvc.Algo.HashTable.{HashTable, Table, set_bucket, has_key, home}
use mmkvc.Algo.HashTable.Chain.{count, search_if-eq-none}
use mmkvc.Algo.HashTable.Bucket.{
  IsPlaced, IsPlaced-elsewhere, entries, entries-set, count_in, lookup, eq_or_ne,
  bucket_of-set_bucket_self, bucket_of-set_bucket_ne, set_bucket-IsPlaced,
}
use mmkvc.Algo.HashTable.Move.{or_else, or_else-none, Moved, IsSized-same}
use mmkvc.Algo.HashTable.Valid.{Rehashing, IsValid, view, Keeps}

module _ {T : Type 0} ⦃key : Keyed T⦄ where
  open key use {Key}

  -- What emptying the chain at `i` does.
  pub record Emptied (i : ℕ) (t t' : Table T) : Type 0 where
    pub place : IsPlaced t'
    pub total : entries t'.buckets + length (get_or t.buckets i []) ≡ entries t.buckets
    pub counts : (q : Key) → count_in t' q + count q (get_or t.buckets i []) ≡ count_in t q
    pub finds :
        (q : Key)
        → or_else (lookup t' q) (search_if (has_key q) (get_or t.buckets i [])) ≡ lookup t q

  pub set_bucket-Emptied :
      (t : Table T) (i : ℕ) → i < length t.buckets → IsPlaced t → Emptied i t (set_bucket i [] t)
  unfolding count search_if
  set_bucket-Emptied t i h placed = record {
    place = set_bucket-IsPlaced t i [] h placed (λ q ne. refl);
    total = omega (arith, entries-set t.buckets i [] h);
    counts = λ q. elim (eq_or_ne (home t q) i) [
      | inl same ↦ rw (bucket_of-set_bucket_self t i [] q h same) (rw same (omega arith))
      | inr ne ↦
          rw (bucket_of-set_bucket_ne t i [] q ne)
            (omega (arith, IsPlaced-elsewhere t q i placed ne))
    ];
    finds = λ q. elim (eq_or_ne (home t q) i) [
      | inl same ↦ rw (bucket_of-set_bucket_self t i [] q h same) (rw same refl)
      | inr ne ↦ rw (bucket_of-set_bucket_ne t i [] q ne) (
          rw (search_if-eq-none q (get_or t.buckets i []) (IsPlaced-elsewhere t q i placed ne))
            (or_else-none (lookup t q)))
    ];
  }

  -- What moving the chain at the index does to both tables.
  pub record Shifted (h h' : HashTable T) : Type 0 where
    pub placed1 : IsPlaced h'.table1
    pub placed2 : IsPlaced h'.table2
    pub unique : (q : Key) → count_in h'.table1 q + count_in h'.table2 q ≤ 1
    pub total :
        entries h'.table1.buckets + entries h'.table2.buckets
        ≡ entries h.table1.buckets + entries h.table2.buckets
    pub views : (q : Key) → view h' q ≡ view h q
    pub emptied : (i : ℕ) → i < h'.rehash_move_bucket_index → get_or h'.table1.buckets i [] ≡ []

  or_else_assoc : (a b c : Option T) → or_else a (or_else b c) ≡ or_else (or_else a b) c
  or_else_assoc none b c = refl
  or_else_assoc (some x) b c = refl

  -- The table after its next chain has gone to the second table, which is then `t`.
  abbrev pub shift : HashTable T → Table T → HashTable T
  shift h t = record {
    table1 = set_bucket h.rehash_move_bucket_index [] h.table1;
    table2 = t;
    rehash_move_bucket_index = suc h.rehash_move_bucket_index;
  }

  abbrev pub next_chain : HashTable T → List T
  next_chain h = get_or h.table1.buckets h.rehash_move_bucket_index []

  pub shift-Shifted :
      (h : HashTable T) (t : Table T)
      → IsValid h
      → Rehashing h
      → Moved (next_chain h) h.table2 t
      → Shifted h (shift h t)
  unfolding view
  shift-Shifted h t v r m =
      let i = h.rehash_move_bucket_index in
      let c = next_chain h in
      let e = set_bucket-Emptied h.table1 i r.at v.placed1 in
      record {
        placed1 = e.place;
        placed2 = m.place v.placed2;
        unique = λ q. omega (arith, e.counts q, m.counts q, v.unique q);
        total = omega (arith, e.total, m.total);
        views = λ q.
            ap (or_else (lookup (set_bucket i [] h.table1) q))
              (m.finds q (omega (arith, e.counts q, v.unique q)))
            ∙ or_else_assoc (lookup (set_bucket i [] h.table1) q) (search_if (has_key q) c)
                (lookup h.table2 q)
            ∙ ap (λ o. or_else o (lookup h.table2 q)) (e.finds q);
        emptied = λ j below. elim (eq_or_ne i j) [
          | inl same ↦ rw (sym same) (get_or-set_self h.table1.buckets i [] [] r.at)
          | inr ne ↦ get_or-set_ne h.table1.buckets i j [] [] ne ∙ r.emptied j (before i j ne below)
        ];
      }
    where
      before : (i j : ℕ) → i ≢ j → j < suc i → j < i
      before i j ne below = omega (arith, ne)

  pub shift-Keeps :
      (h : HashTable T) (t : Table T)
      → IsValid h
      → Rehashing h
      → Moved (next_chain h) h.table2 t
      → suc h.rehash_move_bucket_index ≢ length h.table1.buckets
      → Keeps h (shift h t)
  shift-Keeps h t v r m more =
      let i = h.rehash_move_bucket_index in
      let s = shift-Shifted h t v r m in
      let same = length-set h.table1.buckets i [] in
      record {
        valid = record {
          sized1 = IsSized-same h.table1 (set_bucket i [] h.table1) refl same v.sized1;
          at_least = omega (arith, same, v.at_least);
          short1 = omega (arith, same, v.short1);
          placed1 = s.placed1;
          placed2 = s.placed2;
          unique = s.unique;
          used_total = v.used_total ∙ sym s.total;
          used_fits = v.used_fits;
          phase = inr (record {
            at = omega (arith, same, r.at, more);
            sized2 = IsSized-same h.table2 t m.mask m.long r.sized2;
            longer = omega (arith, same, m.long, r.longer);
            short2 = omega (arith, m.long, r.short2);
            emptied = s.emptied;
          });
        };
        views = s.views;
        sizes = refl;
      }
