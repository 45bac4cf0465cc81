-- ===== src/Algo/HashTable/Move.antt =====
-- One table of chains: what taking an entry off, moving it to the front and emptying a whole chain
-- into the table do.
use mmkvc.Prelude.{
  ℕ, ◌+◌, ◌≤◌, ◌<◌, ◌≡◌, ◌≢◌, refl, sym, ◌∙◌, ap, subst, inl, inr, true, false, if◌then◌else◌, List,
  [], ◌∷◌, length, get_or, get_or-set_self, bit_and, fun_ext, set, Option, none, some, arith,
  length-set, Bool-cases,
}
use mmkvc.Algo.Slist.{search_if}
use mmkvc.Algo.Keyed.{Keyed}
use mmkvc.Algo.HashTable.{Table, home, bucket_of, has_key, set_bucket, push, move_bucket}
use mmkvc.Algo.HashTable.Chain.{to_nat, count, equal_key_congr, Taken, search_if-eq-none}
use mmkvc.Algo.HashTable.Bucket.{
  eq_or_ne, entries, entries-set, set-set, IsSized, IsPlaced, IsPlaced-elsewhere, home-lt,
  home_congr, bucket_of-set_bucket_self, bucket_of-set_bucket_ne, set_bucket-IsPlaced, count_in,
  lookup, Pushed, push-Pushed,
}

module _ {T : Type 0} where
  abbrev pub or_else : Option T → Option T → Option T
  or_else none o = o
  or_else (some x) o = some x

  pub or_else-none : (o : Option T) → or_else o none ≡ o
  or_else-none none = refl
  or_else-none (some x) = refl

  abbrev pub taken : Option T → ℕ
  taken none = 0
  taken (some x) = 1

  pub IsSized-same :
      (t t' : Table T)
      → t'.size_mask ≡ t.size_mask
      → length t'.buckets ≡ length t.buckets
      → IsSized t
      → IsSized t'
  unfolding IsSized
  IsSized-same t t' mask long sized = omega (arith, mask, long)

module _ {T : Type 0} ⦃key : Keyed T⦄ where
  open key use {Key, get_key, equal_key, equal_key_comm, hash}

  abbrev pub taken_count : Key → Option T → ℕ
  taken_count q none = 0
  taken_count q (some x) = to_nat (has_key q x)

  -- What taking the entry of `k` off does to the table.
  pub record Removed (k : Key) (found : Option T) (t t' : Table T) : Type 0 where
    pub mask : t'.size_mask ≡ t.size_mask
    pub long : length t'.buckets ≡ length t.buckets
    pub used_same : t'.used ≡ t.used
    pub returns : found ≡ lookup t k
    pub total : entries t'.buckets + taken found ≡ entries t.buckets
    pub place : IsPlaced t → IsPlaced t'
    pub counts : (q : Key) → IsPlaced t → count_in t' q + taken_count q found ≡ count_in t q
    pub finds :
        (q : Key) → count_in t q ≤ 1 → lookup t' q ≡ (if equal_key q k then none else lookup t q)
    pub matches : (x : T) → found ≡ some x → has_key k x ≡ true

  taken_count-elsewhere :
      (t : Table T) (k : Key) (found : Option T) (q : Key)
      → ((x : T) → found ≡ some x → has_key k x ≡ true)
      → home t q ≢ home t k
      → taken_count q found ≡ 0
  taken_count-elsewhere t k none q matches ne = refl
  taken_count-elsewhere t k (some x) q matches ne = elim (Bool-cases (has_key q x)) [
    | inl hit ↦
        absurd
          (ne (sym (home_congr t (get_key x) q hit) ∙ home_congr t (get_key x) k (matches x refl)))
    | inr miss ↦ rw miss refl
  ]

  elsewhere-equal_key : (t : Table T) (k q : Key) → home t q ≢ home t k → equal_key q k ≡ false
  elsewhere-equal_key t k q ne = elim (Bool-cases (equal_key q k)) [
    | inl hit ↦ absurd (ne (home_congr t q k hit))
    | inr miss ↦ miss
  ]

  pub set_bucket-Removed :
      (t : Table T) (k : Key) (found : Option T) (rest : List T)
      → IsSized t
      → Taken k (bucket_of t k) found rest
      → Removed k found t (set_bucket (home t k) rest t)
  set_bucket-Removed t k found rest sized tk =
      let i = home t k in
      let h : i < length t.buckets = home-lt t k sized in
      let self = bucket_of-set_bucket_self t i rest in
      let off = bucket_of-set_bucket_ne t i rest in
      record {
        mask = refl;
        long = length-set t.buckets i rest;
        used_same = refl;
        returns = tk.returns;
        total = total_lem found rest h tk.shorter;
        place =
            λ placed. set_bucket-IsPlaced t i rest h placed (λ q ne. rest-elsewhere q ne placed);
        counts = λ q placed. elim (eq_or_ne (home t q) i) [
          | inl same ↦ rw (self q h same) (rw same (tk.counts q))
          | inr ne ↦
              rw (off q ne) (rw (taken_count-elsewhere t k found q tk.matches ne) (omega arith))
        ];
        finds = λ q one. elim (eq_or_ne (home t q) i) [
          | inl same ↦
              rw (self q h same)
                (rw same (tk.reads q (subst (λ j. count q (get_or t.buckets j []) ≤ 1) same one)))
          | inr ne ↦ rw (off q ne) (rw (elsewhere-equal_key t k q ne) refl)
        ];
        matches = tk.matches;
      }
    where
      total_lem :
          (found : Option T) (rest : List T)
          → home t k < length t.buckets
          → length rest + taken found ≡ length (bucket_of t k)
          → entries (set t.buckets (home t k) rest) + taken found ≡ entries t.buckets
      total_lem found rest h shorter =
          omega (arith, entries-set t.buckets (home t k) rest h, shorter)

      rest-elsewhere : (q : Key) → home t q ≢ home t k → IsPlaced t → count q rest ≡ 0
      rest-elsewhere q ne placed =
          omega (arith, tk.counts q, IsPlaced-elsewhere t q (home t k) placed ne)

  -- The node that was found is put back in front: only the order in its chain changes.
  pub record Fronted (node : T) (t t' : Table T) : Type 0 where
    pub mask : t'.size_mask ≡ t.size_mask
    pub long : length t'.buckets ≡ length t.buckets
    pub used_same : t'.used ≡ t.used
    pub total : entries t'.buckets ≡ entries t.buckets
    pub place : IsPlaced t → IsPlaced t'
    pub counts : (q : Key) → IsPlaced t → count_in t' q ≡ count_in t q
    pub finds : (q : Key) → count_in t q ≤ 1 → lookup t' q ≡ lookup t q

  pub lookup_congr : (t : Table T) (a b : Key) → equal_key a b ≡ true → lookup t a ≡ lookup t b
  lookup_congr t a b e = rw (home_congr t a b e) (
      ap (λ p. search_if p (get_or t.buckets (home t b) []))
        (fun_ext (λ v. equal_key_congr key a b (get_key v) e)))

  Removed-Pushed-Fronted :
      (k : Key) (node : T) (t t1 t2 : Table T)
      → Removed k (some node) t t1
      → Pushed node t1 t2
      → Fronted node t t2
  Removed-Pushed-Fronted k node t t1 t2 r p = record {
    mask = p.mask ∙ r.mask;
    long = p.long ∙ r.long;
    used_same = p.used_same ∙ r.used_same;
    total = p.total ∙ r.total;
    place = λ placed. p.place (r.place placed);
    counts = λ q placed. omega (arith, p.counts q, r.counts q placed);
    finds = λ q one. p.finds q ∙ finds_lem q one;
  }
    where
      other_key : (q : Key) → has_key q node ≡ false → equal_key q k ≡ false
      other_key q miss = ground (arith, equal_key_congr key q k (get_key node), r.matches node refl)

      finds_lem :
          (q : Key)
          → count_in t q ≤ 1
          → (if has_key q node then some node else lookup t1 q) ≡ lookup t q
      finds_lem q one = elim (Bool-cases (has_key q node)) [
        | inl hit ↦ rw hit (
            r.returns
            ∙ lookup_congr t k q (
                sym (equal_key_congr key (get_key node) q k hit)
                ∙ equal_key_comm k (get_key node)
                ∙ r.matches node refl))
        | inr miss ↦ rw miss (r.finds q one ∙ rw (other_key q miss) refl)
      ]

  push-set_bucket :
      (t : Table T) (k : Key) (node : T) (rest : List T)
      → home t k < length t.buckets
      → home t (get_key node) ≡ home t k
      → push node (set_bucket (home t k) rest t) ≡ set_bucket (home t k) (node ∷ rest) t
  unfolding push home
  push-set_bucket t k node rest h e =
      let i = bit_and (hash k) t.size_mask in
      rw e (
        rw (get_or-set_self t.buckets i rest [] h)
          (ap (λ cs. record t { buckets = cs }) (set-set t.buckets i rest (node ∷ rest))))

  pub move_to_front-Fronted :
      (t : Table T) (k : Key) (node : T) (rest : List T)
      → IsSized t
      → Taken k (bucket_of t k) (some node) rest
      → Fronted node t (set_bucket (home t k) (node ∷ rest) t)
  move_to_front-Fronted t k node rest sized tk =
      let r = set_bucket-Removed t k (some node) rest sized tk in
      let t1 = set_bucket (home t k) rest t in
      let p = push-Pushed node t1 (IsSized-same t t1 r.mask r.long sized) in
      let same =
        push-set_bucket t k node rest (home-lt t k sized)
          (home_congr t (get_key node) k (tk.matches node refl)) in
      subst (Fronted node t) same (Removed-Pushed-Fronted k node t t1 (push node t1) r p)

  or_else-pushed :
      (q : Key) (e : T) (c : List T) (o : Option T)
      → to_nat (has_key q e) + count q c ≤ 1
      → or_else (search_if (has_key q) c) (if has_key q e then some e else o)
        ≡ or_else (if has_key q e then some e else search_if (has_key q) c) o
  or_else-pushed q e c o one = ground (arith, search_if-eq-none q c)

  -- What emptying a chain into the table does.
  pub record Moved (c : List T) (t t' : Table T) : Type 0 where
    pub mask : t'.size_mask ≡ t.size_mask
    pub long : length t'.buckets ≡ length t.buckets
    pub total : entries t'.buckets ≡ entries t.buckets + length c
    pub place : IsPlaced t → IsPlaced t'
    pub counts : (q : Key) → count_in t' q ≡ count q c + count_in t q
    pub finds :
        (q : Key)
        → count q c + count_in t q ≤ 1
        → lookup t' q ≡ or_else (search_if (has_key q) c) (lookup t q)

  pub Moved-nil : (t : Table T) → Moved [] t t
  unfolding count search_if
  Moved-nil t = record {
    mask = refl;
    long = refl;
    total = omega arith;
    place = λ p. p;
    counts = λ q. omega arith;
    finds = λ q one. refl;
  }

  pub Moved-cons :
      (e : T) (c : List T) (t t1 t2 : Table T) → Pushed e t t1 → Moved c t1 t2 → Moved (e ∷ c) t t2
  unfolding count search_if
  Moved-cons e c t t1 t2 p m = record {
    mask = m.mask ∙ p.mask;
    long = m.long ∙ p.long;
    total = omega (arith, m.total, p.total);
    place = λ placed. m.place (p.place placed);
    counts = λ q. omega (arith, m.counts q, p.counts q);
    finds = λ q one.
        m.finds q (omega (arith, p.counts q))
        ∙ rw (p.finds q) (or_else-pushed q e c (lookup t q) (omega arith));
  }

  pub move_bucket-Moved : (c : List T) (t : Table T) → IsSized t → Moved c t (move_bucket c t)
  unfolding move_bucket
  move_bucket-Moved [] t sized = Moved-nil t
  move_bucket-Moved (e ∷ c) t sized =
      let p = push-Pushed e t sized in
      let rest = IsSized-same t (push e t) p.mask p.long sized in
      Moved-cons e c t (push e t) (move_bucket c (push e t)) p (move_bucket-Moved c (push e t) rest)
