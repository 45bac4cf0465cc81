-- ===== src/Algo/HashTable/Clear.antt =====
-- The table of the constructor, and `Clear`.
use mmkvc.Prelude.{
  ℕ, zero, suc, ◌≤◌, ◌≡◌, inl, inr, refl, ap, ◌∙◌, leb, if◌then◌else◌, List, [], ◌∷◌, length,
  get_or, set, take, length-take, none, arith, Bool-cases,
}
use mmkvc.Algo.Keyed.{Keyed}
use mmkvc.Algo.HashTable.{
  HashTable, new_table, new_hash_table, grow, shrink, in_rehashing, clear, size,
}
use mmkvc.Algo.HashTable.Bucket.{
  IsSized, entries, IsBlank, IsBlank-count_in, IsBlank-lookup, IsBlank-IsPlaced,
}
use mmkvc.Algo.HashTable.Valid.{
  Settled, IsValid, view, in_rehashing-Settled, in_rehashing-Rehashing,
}

module _ {T : Type 0} where
  -- four empty chains
  abbrev four : List (List T)
  four = [] ∷ [] ∷ [] ∷ [] ∷ []

  four-blank : (i : ℕ) → get_or four i [] ≡ []
  four-blank zero = refl
  four-blank (suc zero) = refl
  four-blank (suc (suc zero)) = refl
  four-blank (suc (suc (suc zero))) = refl
  four-blank (suc (suc (suc (suc i)))) = refl

  clear_four :
      (cs : List (List T)) → length cs ≡ 4 → set (set (set (set cs 0 []) 1 []) 2 []) 3 [] ≡ four
  clear_four (a ∷ b ∷ c ∷ d ∷ []) h = refl
  clear_four (a ∷ b ∷ c ∷ d ∷ e ∷ cs) h = absurd (omega arith)
  clear_four [] h = absurd (omega arith)
  clear_four (a ∷ []) h = absurd (omega arith)
  clear_four (a ∷ b ∷ []) h = absurd (omega arith)
  clear_four (a ∷ b ∷ c ∷ []) h = absurd (omega arith)

  abbrev pub cut : ℕ → List (List T) → List (List T)
  cut n cs = if leb (length cs) n then cs else take n cs

  length-cut : (n : ℕ) (cs : List (List T)) → n ≤ length cs → length (cut n cs) ≡ n
  length-cut n cs h = elim (Bool-cases (leb (length cs) n)) [
    | inl small ↦ rw small (ground arith)
    | inr large ↦ rw large (omega (arith, length-take n cs))
  ]

  pub cut-zero : (cs : List (List T)) → cut 0 cs ≡ []
  cut-zero [] = refl
  cut-zero (c ∷ cs) = ground arith

  -- A settled table with four empty chains.
  record Fresh (h : HashTable T) : Type 0 where
    chains : h.table1.buckets ≡ four
    mask : h.table1.size_mask ≡ 3
    used : h.table1.used ≡ 0
    settled : Settled h

module _ {T : Type 0} ⦃key : Keyed T⦄ where
  open key use {Key}

  Fresh-IsValid :
      (h : HashTable T) → Fresh h → IsValid h × ((q : Key) → view h q ≡ none) × (size h ≡ 0)
  unfolding view IsSized entries
  Fresh-IsValid h f =
      let blank1 : IsBlank h.table1 = λ i. ap (λ cs. get_or cs i []) f.chains ∙ four-blank i in
      let blank2 : IsBlank h.table2 = λ i. ap (λ cs. get_or cs i []) f.settled.unused in
      let four1 : length h.table1.buckets ≡ 4 = ap length f.chains in
      let total1 : entries h.table1.buckets ≡ 0 = ap entries f.chains in
      let total2 : entries h.table2.buckets ≡ 0 = ap entries f.settled.unused in
      (
        record {
          sized1 = omega (arith, f.mask, four1);
          at_least = omega (arith, four1);
          short1 = omega (arith, four1);
          placed1 = IsBlank-IsPlaced h.table1 blank1;
          placed2 = IsBlank-IsPlaced h.table2 blank2;
          unique = λ q.
              omega (arith, IsBlank-count_in h.table1 q blank1, IsBlank-count_in h.table2 q blank2);
          used_total = omega (arith, f.used, total1, total2);
          used_fits = omega (arith, f.used);
          phase = inl f.settled;
        },
        λ q. rw (IsBlank-lookup h.table1 q blank1) (IsBlank-lookup h.table2 q blank2),
        f.used,
      )

  -- The constructor's table is valid, has no entries and counts none.
  pub new_hash_table-IsValid :
      IsValid (new_hash_table {T = T})
      × ((q : Key) → view {T = T} new_hash_table q ≡ none)
      × (size (new_hash_table {T = T}) ≡ 0)
  unfolding new_hash_table grow new_table
  new_hash_table-IsValid = Fresh-IsValid new_hash_table (record {
    chains = refl;
    mask = refl;
    used = refl;
    settled = record { idle = refl; unused = refl };
  })

  clear-Fresh : (h : HashTable T) → IsValid h → Fresh (clear h)
  unfolding clear shrink
  clear-Fresh h v =
      let long = length-cut 4 h.table1.buckets v.at_least in
      record {
        chains = clear_four (cut 4 h.table1.buckets) long;
        mask = rw long refl;
        used = refl;
        settled = record { idle = refl; unused = unused };
      }
    where
      unused : (if in_rehashing h then shrink 0 h.table2 else h.table2).buckets ≡ []
      unused = elim v.phase [
        | inl s ↦ rw (in_rehashing-Settled h s) s.unused
        | inr r ↦ rw (in_rehashing-Rehashing h r v.short1) (cut-zero h.table2.buckets)
      ]

  -- `clear` on a valid table leaves a valid table without entries that counts none, also in the
  -- middle of rehashing.
  pub clear-IsValid :
      (h : HashTable T)
      → IsValid h
      → IsValid (clear h) × ((q : Key) → view (clear h) q ≡ none) × (size (clear h) ≡ 0)
  clear-IsValid h v = Fresh-IsValid (clear h) (clear-Fresh h v)
