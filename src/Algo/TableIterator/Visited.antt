-- ===== src/Algo/TableIterator/Visited.antt =====
-- That a loop over a table goes through the values of both arrays in order, and ends.
use mmkvc.Prelude.{
  ℕ, zero, suc, ◌+◌, ◌%◌, ◌≤◌, ◌<◌, ◌≡◌, refl, sym, ap, subst, ◌∙◌, true, false, Bool-cases, inl,
  inr, if◌then◌else◌, ◌==◌, List, [], ◌∷◌, ◌++◌, length, drop, foldl, append_assoc, Option, none,
  some, arith,
}
use mmkvc.Algo.HashTable.{size_mod, no_index}
use mmkvc.Algo.TableIterator.{
  BucketWalk, Iterator, first_used, begin_loop, iterator_at, increment_loop, increment, visit,
}

pub drop-suc :
    {A : Type 0} (j : ℕ) (xs : List A) (y : A) (ys : List A)
    → drop j xs ≡ y ∷ ys
    → (j < length xs) × (drop (suc j) xs ≡ ys)
drop-suc zero [] y ys h = absurd (cc)
drop-suc zero (x ∷ xs) y ys h = (omega arith, cc)
drop-suc (suc j) [] y ys h = absurd (cc)
drop-suc (suc j) (x ∷ xs) y ys h =
    let (below, rest) = drop-suc j xs y ys h in (omega (arith, below), rest)

drop_all : {A : Type 0} (xs : List A) → drop (length xs) xs ≡ []
drop_all [] = refl
drop_all (x ∷ xs) = drop_all xs

module _ {B T : Type 0} (w : BucketWalk B T) where
  open w use {Slot, is_empty, first, next, value, listed, behind}

  -- the values of an array of buckets
  abbrev pub listing : List B → List T
  listing [] = []
  listing (b ∷ bs) = listed b ++ listing bs

  -- What the inner loop finds, where the buckets that it goes through hold `vs`.
  abbrev Scanned : List B → List T → Option (ℕ × Option Slot) → Type 0
  Scanned bs vs none = vs ≡ []
  Scanned bs vs (some (k, none)) = true ≡ false
  Scanned bs vs (some (k, some x)) =
      (k < length bs) × (vs ≡ behind (some x) ++ listing (drop (suc k) bs))

  first_used-Scanned :
      (bs : List B) (j : ℕ) (cs : List B)
      → drop j bs ≡ cs
      → Scanned bs (listing cs) (first_used w j cs)
  unfolding first_used
  first_used-Scanned bs j [] h = refl
  first_used-Scanned bs j (c ∷ cs) h =
      let (below, rest) = drop-suc j bs c cs h in
      elim (Bool-cases (is_empty c)) [
        | inl empty ↦ rw empty (
            subst (λ vs. Scanned bs (vs ++ listing cs) (first_used w (suc j) cs))
              (sym (w.empty-listed c empty)) (first_used-Scanned bs (suc j) cs rest))
        | inr full ↦
            let (x, there) = w.first-some c full in
            rw full (
              subst (λ o. Scanned bs (listed c ++ listing cs) (some (j, o))) (sym there)
                (
                  below,
                  ap (λ vs. vs ++ listing cs) (sym (w.first-behind c full) ∙ ap behind there)
                      ∙ ap (λ ds. behind (some x) ++ listing ds) (sym rest),
                ))
      ]

  module _ (buckets1 buckets2 : List B) where
    -- the values that stand behind a bucket
    abbrev later1 : ℕ → List T
    later1 j = listing (drop (suc j) buckets1) ++ listing buckets2

    abbrev later2 : ℕ → List T
    later2 j = listing (drop (suc j) buckets2)

    -- the values that a loop from an iterator still goes through
    abbrev remaining : Iterator Slot → List T
    remaining it = elim it.slot [
      | none ↦ []
      | some x ↦
          behind (some x)
          ++ (if it.table_index == 0 then later1 it.bucket_index else later2 it.bucket_index)
    ]

    -- Where an iterator can be: at a node of the first table, of the second one, or at the end.
    data Stands : Iterator Slot → Type 0 where
      in_first :
          (j : ℕ) (x : Slot)
          → j < length buckets1
          → Stands (record { table_index = 0; bucket_index = j; slot = some x })
      in_second :
          (j : ℕ) (x : Slot)
          → j < length buckets2
          → Stands (record { table_index = 1; bucket_index = j; slot = some x })
      at_end : (i j : ℕ) → Stands (record { table_index = i; bucket_index = j; slot = none })

    -- what the outer loops come to, by what the inner ones find
    abbrev to_second : Iterator Slot → Option (ℕ × Option Slot) → Iterator Slot
    to_second end o2 = elim o2 [
      | some (k, x) ↦ record { table_index = 1; bucket_index = k; slot = x }
      | none ↦ end
    ]

    abbrev to_first :
        Iterator Slot → Option (ℕ × Option Slot) → Option (ℕ × Option Slot) → Iterator Slot
    to_first end o1 o2 = elim o1 [
      | some (k, x) ↦ record { table_index = 0; bucket_index = k; slot = x }
      | none ↦ to_second end o2
    ]

    -- An iterator stands where the values `vs` are the ones to come.
    record Before (vs : List T) (it : Iterator Slot) : Type 0 where
      stands : Stands it
      to_come : remaining it ≡ vs

    to_second-Before :
        (i j : ℕ) (vs : List T) (o2 : Option (ℕ × Option Slot))
        → Scanned buckets2 vs o2
        → Before vs (to_second (record { table_index = i; bucket_index = j; slot = none }) o2)
    to_second-Before i j vs none found = record { stands = at_end i j; to_come = sym found }
    to_second-Before i j vs (some (k, none)) found = absurd (cc)
    to_second-Before i j vs (some (k, some x)) (below, same) = record {
      stands = in_second k x below;
      to_come = sym same;
    }

    to_first-Before :
        (i j : ℕ) (vs : List T) (o1 o2 : Option (ℕ × Option Slot))
        → Scanned buckets1 vs o1
        → Scanned buckets2 (listing buckets2) o2
        → Before
            (vs ++ listing buckets2)
            (to_first (record { table_index = i; bucket_index = j; slot = none }) o1 o2)
    to_first-Before i j vs none o2 found1 found2 =
        subst
          (λ us.
            Before (us ++ listing buckets2)
              (to_second (record { table_index = i; bucket_index = j; slot = none }) o2))
          (sym found1) (to_second-Before i j (listing buckets2) o2 found2)
    to_first-Before i j vs (some (k, none)) o2 found1 found2 = absurd (cc)
    to_first-Before i j vs (some (k, some x)) o2 (below, same) found2 = record {
      stands = in_first k x below;
      to_come =
          sym (append_assoc (behind (some x)) (listing (drop (suc k) buckets1)) (listing buckets2))
          ∙ ap (λ us. us ++ listing buckets2) (sym same);
    }

    begin-Before :
        Before (listing buckets1 ++ listing buckets2) (iterator_at w buckets1 buckets2 0 0)
    unfolding iterator_at begin_loop
    begin-Before =
        to_first-Before 0 0 (listing buckets1) (first_used w 0 buckets1) (first_used w 0 buckets2)
          (first_used-Scanned buckets1 0 buckets1 refl)
          (first_used-Scanned buckets2 0 buckets2 refl)

    -- One step, by what follows the node in its bucket.
    second_step :
        (j : ℕ) (x : Slot) (o : Option Slot)
        → next x ≡ o
        → j < length buckets2
        → length buckets2 < size_mod
        → Before (behind o ++ later2 j) (
            increment w buckets1 buckets2
              (record { table_index = 1; bucket_index = j; slot = some x }))
    unfolding increment increment_loop
    second_step j x (some y) after below short =
        rw (after, increment) (record { stands = in_second j y below; to_come = refl })
    second_step j x none after below short =
        let step : (j + 1) % size_mod ≡ suc j = omega arith in
        let found = first_used-Scanned buckets2 (suc j) (drop (suc j) buckets2) refl in
        let b =
          to_second-Before 1 no_index (later2 j) (first_used w (suc j) (drop (suc j) buckets2))
            found in
        rw (after, increment) (rw (step, increment_loop) (rw w.none-behind b))

    first_step :
        (j : ℕ) (x : Slot) (o : Option Slot)
        → next x ≡ o
        → j < length buckets1
        → length buckets1 < size_mod
        → Before (behind o ++ later1 j) (
            increment w buckets1 buckets2
              (record { table_index = 0; bucket_index = j; slot = some x }))
    unfolding increment increment_loop
    first_step j x (some y) after below short =
        rw (after, increment) (record { stands = in_first j y below; to_come = refl })
    first_step j x none after below short =
        let step : (j + 1) % size_mod ≡ suc j = omega arith in
        let found = first_used-Scanned buckets1 (suc j) (drop (suc j) buckets1) refl in
        let b =
          to_first-Before 1 no_index (listing (drop (suc j) buckets1))
            (first_used w (suc j) (drop (suc j) buckets1)) (first_used w 0 buckets2) found
            (first_used-Scanned buckets2 0 buckets2 refl) in
        rw (after, increment) (rw (step, increment_loop) (rw w.none-behind b))

    longer :
        (x : Slot) (vs : List T)
        → length (behind (some x) ++ vs) ≡ suc (length (behind (next x) ++ vs))
    longer x vs = ap (λ us. length (us ++ vs)) (w.next-behind x)

    visit-remaining :
        {S : Type 0} (f : S → T → S) (n : ℕ) (s : S) (it : Iterator Slot)
        → length buckets1 < size_mod
        → length buckets2 < size_mod
        → Stands it
        → length (remaining it) ≤ n
        → visit w buckets1 buckets2 f n s it ≡ some (foldl f s (remaining it))
    unfolding visit
    visit-remaining f zero s _ short1 short2 (at_end i j) enough = refl
    visit-remaining f (suc n) s _ short1 short2 (at_end i j) enough = refl
    visit-remaining f zero s _ short1 short2 (in_first j x below) enough =
        absurd (omega (arith, longer x (later1 j)))
    visit-remaining f zero s _ short1 short2 (in_second j x below) enough =
        absurd (omega (arith, longer x (later2 j)))
    visit-remaining f (suc n) s _ short1 short2 (in_first j x below) enough =
        let b = first_step j x (next x) refl below short1 in
        visit-remaining f n (f s (value x)) _ short1 short2 b.stands
          (omega (arith, longer x (later1 j), ap length b.to_come))
        ∙ ap (λ vs. some (foldl f (f s (value x)) vs)) b.to_come
        ∙ ap (λ vs. some (foldl f s (vs ++ later1 j))) (sym (w.next-behind x))
    visit-remaining f (suc n) s _ short1 short2 (in_second j x below) enough =
        let b = second_step j x (next x) refl below short2 in
        visit-remaining f n (f s (value x)) _ short1 short2 b.stands
          (omega (arith, longer x (later2 j), ap length b.to_come))
        ∙ ap (λ vs. some (foldl f (f s (value x)) vs)) b.to_come
        ∙ ap (λ vs. some (foldl f s (vs ++ later2 j))) (sym (w.next-behind x))

    -- `end()` has no node.
    pub end_slot : (iterator_at w buckets1 buckets2 1 (length buckets2)).slot ≡ none
    unfolding iterator_at begin_loop
    end_slot = rw (drop_all buckets2, begin_loop) refl

    -- A loop over a table, from begin() to end(), ends after one round for each value, and handles
    -- the values of the first table, bucket by bucket, and then those of the second one.
    pub visit-listing :
        {S : Type 0} (f : S → T → S) (s : S) (n : ℕ)
        → length buckets1 < size_mod
        → length buckets2 < size_mod
        → length (listing buckets1 ++ listing buckets2) ≤ n
        → visit w buckets1 buckets2 f n s (iterator_at w buckets1 buckets2 0 0)
          ≡ some (foldl f s (listing buckets1 ++ listing buckets2))
    visit-listing f s n short1 short2 enough =
        let b = begin-Before in
        visit-remaining f n s (iterator_at w buckets1 buckets2 0 0) short1 short2 b.stands
          (omega (arith, ap length b.to_come))
        ∙ ap (λ vs. some (foldl f s vs)) b.to_come
