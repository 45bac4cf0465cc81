-- ===== src/Algo/HashTable/Bucket.antt =====
-- One table of chains: what writing a bucket, `push` and taking an entry off do to the whole table.
use mmkvc.Prelude.{
  ℕ, zero, suc, ◌+◌, ◌<◌, ◌≡◌, ◌≢◌, refl, sym, ◌∙◌, ap, ◌⊎◌, inl, inr, true, false, if◌then◌else◌,
  List, [], ◌∷◌, length, get_or, set, Option, none, some, arith, ==_iff, ◌==◌, bit_and-le,
  length-set, get_or-set_self, get_or-set_ne, Bool-cases,
}
use mmkvc.Algo.Slist.{search_if}
use mmkvc.Algo.Keyed.{Keyed}
use mmkvc.Algo.HashTable.{Table, home, bucket_of, has_key, set_bucket, push}
use mmkvc.Algo.HashTable.Chain.{to_nat, count, Put, front-Put}

pub eq_or_ne : (a b : ℕ) → (a ≡ b) ⊎ (a ≢ b)
eq_or_ne a b = elim (Bool-cases (a == b)) [
  | inl h ↦ inl ((==_iff a b).0 h)
  | inr h ↦ inr (λ e. ground arith)
]

module _ {T : Type 0} where
  unfoldable pub entries : List (List T) → ℕ
  entries [] = 0
  entries (c ∷ cs) = length c + entries cs

  pub entries-set :
      (cs : List (List T)) (i : ℕ) (c : List T)
      → i < length cs
      → entries (set cs i c) + length (get_or cs i []) ≡ entries cs + length c
  unfolding entries
  entries-set [] i c h = absurd (omega arith)
  entries-set (x ∷ cs) zero c h = omega arith
  entries-set (x ∷ cs) (suc i) c h = omega (arith, entries-set cs i c (omega arith))

  pub entries-eq-zero : (cs : List (List T)) → ((i : ℕ) → get_or cs i [] ≡ []) → entries cs ≡ 0
  unfolding entries
  entries-eq-zero [] h = refl
  entries-eq-zero (c ∷ cs) h =
      let front : length c ≡ 0 = ap length (h 0) in
      omega (arith, front, entries-eq-zero cs (λ i. h (suc i)))

  pub set-set : (cs : List (List T)) (i : ℕ) (a b : List T) → set (set cs i a) i b ≡ set cs i b
  set-set [] i a b = refl
  set-set (c ∷ cs) zero a b = refl
  set-set (c ∷ cs) (suc i) a b = ap (◌∷◌ c) (set-set cs i a b)

  -- The mask fits the array.
  unfoldable pub IsSized : Table T → Type 0
  IsSized t = t.size_mask + 1 ≡ length t.buckets

module _ {T : Type 0} ⦃key : Keyed T⦄ where
  open key use {Key, get_key, equal_key, equal_key_comm, hash, hash-equal_key}

  -- Entries of a key stand in its home bucket alone.
  unfoldable pub IsPlaced : Table T → Type 0
  IsPlaced t = (q : Key) (i : ℕ) → home t q ≢ i → count q (get_or t.buckets i []) ≡ 0

  pub IsPlaced-elsewhere :
      (t : Table T) (q : Key) (i : ℕ)
      → IsPlaced t
      → home t q ≢ i
      → count q (get_or t.buckets i []) ≡ 0
  unfolding IsPlaced
  IsPlaced-elsewhere t q i placed ne = placed q i ne

  pub home-lt : (t : Table T) (k : Key) → IsSized t → home t k < length t.buckets
  unfolding home IsSized
  home-lt t k sized = omega (arith, bit_and-le (hash k) t.size_mask)

  pub home_congr : (t : Table T) (a b : Key) → equal_key a b ≡ true → home t a ≡ home t b
  unfolding home
  home_congr t a b e = rw (hash-equal_key a b e) refl

  pub bucket_of-set_bucket_self :
      (t : Table T) (i : ℕ) (c : List T) (q : Key)
      → i < length t.buckets
      → home t q ≡ i
      → bucket_of (set_bucket i c t) q ≡ c
  unfolding home
  bucket_of-set_bucket_self t i c q h e = rw e (get_or-set_self t.buckets i c [] h)

  pub bucket_of-set_bucket_ne :
      (t : Table T) (i : ℕ) (c : List T) (q : Key)
      → home t q ≢ i
      → bucket_of (set_bucket i c t) q ≡ bucket_of t q
  unfolding home
  bucket_of-set_bucket_ne t i c q ne = get_or-set_ne t.buckets i (home t q) c [] (λ e. ne (sym e))

  pub set_bucket-IsPlaced :
      (t : Table T) (i : ℕ) (c : List T)
      → i < length t.buckets
      → IsPlaced t
      → ((q : Key) → home t q ≢ i → count q c ≡ 0)
      → IsPlaced (set_bucket i c t)
  unfolding IsPlaced home
  set_bucket-IsPlaced t i c h placed new q j ne = elim (eq_or_ne i j) [
    | inl e ↦ rw (sym e) (rw (get_or-set_self t.buckets i c [] h) (new q (λ x. ne (x ∙ e))))
    | inr ne' ↦ rw (get_or-set_ne t.buckets i j c [] ne') (placed q j ne)
  ]

  -- how often a key occurs in a table, and what a search finds there
  abbrev pub count_in : Table T → Key → ℕ
  count_in t q = count q (bucket_of t q)

  abbrev pub lookup : Table T → Key → Option T
  lookup t q = search_if (has_key q) (bucket_of t q)

  elsewhere-count :
      (t : Table T) (e : T) (q : Key) → home t q ≢ home t (get_key e) → has_key q e ≡ false
  elsewhere-count t e q ne = elim (Bool-cases (has_key q e)) [
    | inl hit ↦ absurd (ne (sym (home_congr t (get_key e) q hit)))
    | inr miss ↦ miss
  ]

  pushed_elsewhere :
      (t : Table T) (e : T) (c : List T) (q : Key)
      → IsPlaced t
      → Put e (bucket_of t (get_key e)) c
      → home t q ≢ home t (get_key e)
      → count q c ≡ 0
  unfolding IsPlaced
  pushed_elsewhere t e c q placed put ne =
      let miss = elsewhere-count t e q ne in
      let clear = placed q (home t (get_key e)) ne in put.tallies q ∙ rw miss (omega (arith, clear))

  -- What `push` does to the table.
  pub record Pushed (e : T) (t t' : Table T) : Type 0 where
    pub mask : t'.size_mask ≡ t.size_mask
    pub long : length t'.buckets ≡ length t.buckets
    pub used_same : t'.used ≡ t.used
    pub total : entries t'.buckets ≡ entries t.buckets + 1
    pub place : IsPlaced t → IsPlaced t'
    pub counts : (q : Key) → count_in t' q ≡ to_nat (has_key q e) + count_in t q
    pub finds : (q : Key) → lookup t' q ≡ (if has_key q e then some e else lookup t q)

  pub set_bucket-Pushed :
      (e : T) (t : Table T) (c : List T)
      → IsSized t
      → Put e (bucket_of t (get_key e)) c
      → Pushed e t (set_bucket (home t (get_key e)) c t)
  set_bucket-Pushed e t c sized put =
      let i = home t (get_key e) in
      let h : i < length t.buckets = home-lt t (get_key e) sized in
      record {
        mask = refl;
        long = length-set t.buckets i c;
        used_same = refl;
        total = omega (arith, entries-set t.buckets i c h, put.longer);
        place = λ placed.
            set_bucket-IsPlaced t i c h placed (λ q ne. pushed_elsewhere t e c q placed put ne);
        counts = λ q. elim (eq_or_ne (home t q) i) [
          | inl same ↦ rw (bucket_of-set_bucket_self t i c q h same) (rw same (put.tallies q))
          | inr ne ↦
              rw (bucket_of-set_bucket_ne t i c q ne) (rw (elsewhere-count t e q ne) (omega arith))
        ];
        finds = λ q. elim (eq_or_ne (home t q) i) [
          | inl same ↦ rw (bucket_of-set_bucket_self t i c q h same) (rw same (put.hits q))
          | inr ne ↦ rw (bucket_of-set_bucket_ne t i c q ne) (rw (elsewhere-count t e q ne) refl)
        ];
      }

  pub push-Pushed : (e : T) (t : Table T) → IsSized t → Pushed e t (push e t)
  unfolding push
  push-Pushed e t sized =
      set_bucket-Pushed e t (e ∷ bucket_of t (get_key e)) sized
        (front-Put e (bucket_of t (get_key e)))

  -- All chains are empty.
  abbrev pub IsBlank : Table T → Type 0
  IsBlank t = (i : ℕ) → get_or t.buckets i [] ≡ []

  pub IsBlank-count_in : (t : Table T) (q : Key) → IsBlank t → count_in t q ≡ 0
  unfolding count
  IsBlank-count_in t q blank = rw (blank (home t q)) refl

  pub IsBlank-lookup : (t : Table T) (q : Key) → IsBlank t → lookup t q ≡ none
  unfolding search_if
  IsBlank-lookup t q blank = rw (blank (home t q)) refl

  pub IsBlank-IsPlaced : (t : Table T) → IsBlank t → IsPlaced t
  unfolding IsPlaced count
  IsBlank-IsPlaced t blank q i ne = rw (blank i) refl
