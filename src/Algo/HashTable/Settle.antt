-- ===== src/Algo/HashTable/Settle.antt =====
-- The end of rehashing, and with it every path of `Rehash` and `IncrementalRehash`.
use mmkvc.Prelude.{
  ℕ, suc, zero, ◌^◌, ◌*◌, ◌%◌, ◌≤◌, ◌<◌, ◌≡◌, ◌⊎◌, inl, inr, refl, sym, ap, subst, ◌∙◌, false, leb,
  ◌==◌, List, [], ◌∷◌, length, get_or, replicate, arith, Bool-cases, length-replicate, length-set,
  get_or-replicate, ==_iff,
}
use mmkvc.Algo.Keyed.{Keyed}
use mmkvc.Algo.HashTable.{
  HashTable, Table, size_mod, no_index, grow, shrink, rehash, finish_rehash, move_next_bucket,
  incremental_rehash, home,
}
use mmkvc.Algo.HashTable.Bucket.{
  IsSized, IsPlaced, entries, entries-eq-zero, IsBlank, IsBlank-count_in, IsBlank-lookup,
  IsBlank-IsPlaced, lookup,
}
use mmkvc.Algo.HashTable.Move.{or_else, or_else-none, Moved, move_bucket-Moved, IsSized-same}
use mmkvc.Algo.HashTable.Valid.{
  Settled, Rehashing, in_rehashing-Settled, in_rehashing-Rehashing, IsValid, view, Keeps,
  Keeps-refl,
}
use mmkvc.Algo.HashTable.Rehash.{Shifted, shift, next_chain, shift-Shifted, shift-Keeps}

lt_or_ge : (a b : ℕ) → (a < b) ⊎ (b ≤ a)
lt_or_ge a b = omega arith

module _ {T : Type 0} where
  -- the table when the second one took the place of the first, and `t` that of the second
  abbrev pub take_over : HashTable T → Table T → HashTable T
  take_over h t = record {
    table1 = record h.table1 { buckets = h.table2.buckets; size_mask = h.table2.size_mask };
    table2 = t;
    rehash_move_bucket_index = no_index;
  }

  finish_rehash-eq :
      (h : HashTable T)
      → 0 < length h.table1.buckets
      → 0 < length h.table2.buckets
      → finish_rehash h ≡ take_over h (record h.table2 { buckets = []; size_mask = no_index })
  unfolding finish_rehash shrink
  finish_rehash-eq h one two =
      let full1 : leb (length h.table1.buckets) 0 ≡ false = ground arith in
      let full2 : leb (length h.table2.buckets) 0 ≡ false = ground arith in rw full2 (rw full1 refl)

  -- Growing an array without chains.
  record Grown (n : ℕ) (t : Table T) : Type 0 where
    blank : (i : ℕ) → get_or t.buckets i [] ≡ []
    long : length t.buckets ≡ n
    sized : IsSized t

  grow-Grown : (n : ℕ) (t : Table T) → t.buckets ≡ [] → 0 < n → n < size_mod → Grown n (grow n t)
  unfolding grow IsSized
  grow-Grown n t e pos short =
      let bigger : leb n (length t.buckets) ≡ false = rw e (ground arith) in
      let chains : (grow n t).buckets ≡ replicate n [] =
        rw bigger (rw e (ap (λ k. replicate k []) (omega arith))) in
      let long : length (grow n t).buckets ≡ n = ap length chains ∙ length-replicate n [] in
      record {
        blank = λ i. ap (λ cs. get_or cs i []) chains ∙ get_or-replicate n i [];
        long = long;
        sized = omega (arith, long);
      }

  get_or-beyond : (cs : List (List T)) (i : ℕ) → length cs ≤ i → get_or cs i [] ≡ []
  get_or-beyond [] i h = refl
  get_or-beyond (c ∷ cs) zero h = absurd (omega arith)
  get_or-beyond (c ∷ cs) (suc i) h = get_or-beyond cs i (omega arith)

module _ {T : Type 0} ⦃key : Keyed T⦄ where
  open key use {Key}

  take_over-Keeps :
      (h g : HashTable T) (t : Table T)
      → IsValid h
      → Shifted h g
      → IsBlank g.table1
      → g.table1.used ≡ h.table1.used
      → IsSized g.table2
      → 4 ≤ length g.table2.buckets
      → length g.table2.buckets < size_mod
      → t.buckets ≡ []
      → Keeps h (take_over g t)
  unfolding view home IsPlaced IsSized
  take_over-Keeps h g t v s empty used sized2 least2 short2 unused =
      let blank : IsBlank t = λ i. ap (λ cs. get_or cs i []) unused in
      let no_entries = entries-eq-zero t.buckets blank in
      record {
        valid = record {
          sized1 = sized2;
          at_least = least2;
          short1 = short2;
          placed1 = s.placed2;
          placed2 = IsBlank-IsPlaced t blank;
          unique = λ q. omega (arith, s.unique q, IsBlank-count_in t q blank);
          used_total =
              used
              ∙ v.used_total
              ∙ sym s.total
              ∙ omega (arith, entries-eq-zero g.table1.buckets empty, no_entries);
          used_fits = omega (arith, used, v.used_fits);
          phase = inl (record { idle = refl; unused = unused });
        };
        views = λ q.
            rw (IsBlank-lookup t q blank)
              (or_else-none (lookup (take_over g t).table1 q) ∙ sym (first_empty q) ∙ s.views q);
        sizes = used;
      }
    where
      first_empty :
          (q : Key)
          → or_else (lookup g.table1 q) (lookup g.table2 q) ≡ lookup (take_over g t).table1 q
      first_empty q = rw (IsBlank-lookup g.table1 q empty) refl

  -- When the last chain has gone to the second table, that one becomes the first.
  pub last-Keeps :
      (h : HashTable T) (t u : Table T)
      → IsValid h
      → Rehashing h
      → Moved (next_chain h) h.table2 t
      → suc h.rehash_move_bucket_index ≡ length h.table1.buckets
      → u.buckets ≡ []
      → Keeps h (take_over (shift h t) u)
  last-Keeps h t u v r m last unused =
      let s = shift-Shifted h t v r m in
      let same = length-set h.table1.buckets h.rehash_move_bucket_index [] in
      take_over-Keeps h (shift h t) u v s (blank same s) refl
        (IsSized-same h.table2 t m.mask m.long r.sized2)
        (omega (arith, m.long, v.at_least, r.longer)) (omega (arith, m.long, r.short2)) unused
    where
      blank :
          length (shift h t).table1.buckets ≡ length h.table1.buckets
          → Shifted h (shift h t)
          → IsBlank (shift h t).table1
      blank same s j = elim (lt_or_ge j (shift h t).rehash_move_bucket_index) [
        | inl below ↦ s.emptied j below
        | inr above ↦ get_or-beyond (shift h t).table1.buckets j (omega (arith, last, same, above))
      ]

  finish_rehash-Keeps :
      (h : HashTable T)
      → IsValid h
      → Rehashing h
      → Moved (next_chain h) h.table2 (move_next_bucket h).table2
      → suc h.rehash_move_bucket_index ≡ length h.table1.buckets
      → Keeps h (finish_rehash (move_next_bucket h))
  unfolding move_next_bucket
  finish_rehash-Keeps h v r m last =
      let g = move_next_bucket h in
      let same = length-set h.table1.buckets h.rehash_move_bucket_index [] in
      let ended =
        finish_rehash-eq g (omega (arith, same, v.at_least))
          (omega (arith, m.long, v.at_least, r.longer)) in
      subst (Keeps h) (sym ended) (
        last-Keeps h g.table2 (record g.table2 { buckets = []; size_mask = no_index }) v r m last
          refl)

  -- On a valid table, `incremental_rehash` (moving the next chain over, the end of rehashing
  -- included) keeps the table valid and changes neither its entries nor its size.
  pub incremental_rehash-Keeps : (h : HashTable T) → IsValid h → Keeps h (incremental_rehash h)
  unfolding incremental_rehash move_next_bucket
  incremental_rehash-Keeps h v = elim v.phase [
    | inl settled ↦ rw (in_rehashing-Settled h settled) (Keeps-refl h v)
    | inr moving ↦
        let going = in_rehashing-Rehashing h moving v.short1 in
        let m = move_bucket-Moved (next_chain h) h.table2 moving.sized2 in
        elim (Bool-cases (suc h.rehash_move_bucket_index == length h.table1.buckets)) [
          | inl last ↦ rw going (rw last (finish_rehash-Keeps h v moving m ((==_iff _ _).0 last)))
          | inr more ↦
              rw going
                (rw more (shift-Keeps h (move_next_bucket h).table2 v moving m (λ e. ground arith)))
        ]
  ]

  -- Starting to rehash keeps the table valid and changes neither its entries nor its size, if twice as
  -- many buckets can be counted.
  pub rehash-Keeps :
      (h : HashTable T) → IsValid h → length h.table1.buckets < 2 ^ 63 → Keeps h (rehash h)
  unfolding rehash view entries
  rehash-Keeps h v room = elim v.phase [
    | inr moving ↦ rw (in_rehashing-Rehashing h moving v.short1) (Keeps-refl h v)
    | inl settled ↦ elim (Bool-cases (leb (length h.table1.buckets) h.table1.used)) [
      | inr less ↦ rw (in_rehashing-Settled h settled) (rw less (Keeps-refl h v))
      | inl full ↦ rw (in_rehashing-Settled h settled) (
          rw full (
            started (length h.table1.buckets * 2 % size_mod) settled (omega arith) (
              grow-Grown (length h.table1.buckets * 2 % size_mod) h.table2 settled.unused
                (omega (arith, v.at_least)) (omega arith))))
    ]
  ]
    where
      started :
          (n : ℕ)
          → Settled h
          → n ≡ length h.table1.buckets * 2
          → Grown n (grow n h.table2)
          → Keeps h (record h { table2 = grow n h.table2; rehash_move_bucket_index = 0 })
      started n settled e g =
          let t = grow n h.table2 in
          let none1 : entries h.table2.buckets ≡ 0 = ap entries settled.unused in
          let none2 = entries-eq-zero t.buckets g.blank in
          record {
            valid = record {
              sized1 = v.sized1;
              at_least = v.at_least;
              short1 = v.short1;
              placed1 = v.placed1;
              placed2 = IsBlank-IsPlaced t g.blank;
              unique = λ q. omega (arith, v.unique q, IsBlank-count_in t q g.blank);
              used_total = omega (arith, v.used_total, none1, none2);
              used_fits = v.used_fits;
              phase = inr (record {
                at = omega (arith, v.at_least);
                sized2 = g.sized;
                longer = omega (arith, e, g.long);
                short2 = omega (arith, e, g.long, room);
                emptied = λ i below. absurd (omega arith);
              });
            };
            views = λ q. ap (or_else (lookup h.table1 q)) (
                IsBlank-lookup t q g.blank
                ∙ sym (IsBlank-lookup h.table2 q (λ i. ap (λ cs. get_or cs i []) settled.unused)));
            sizes = refl;
          }
