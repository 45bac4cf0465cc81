-- ===== src/Algo/HashTable/Chain.antt =====
-- One chain: how often a key occurs, and what searching, adding and taking off do to that.
use mmkvc.Prelude.{
  ℕ, ◌+◌, ◌≤◌, ◌≡◌, refl, ap, fun_ext, Bool, true, false, if◌then◌else◌, List, [], ◌∷◌, length,
  Option, none, some, arith, Bool-cases, inl, inr,
}
use mmkvc.Algo.Slist.{search_if, extract_node_if, keep_front}
use mmkvc.Algo.Keyed.{Keyed}
use mmkvc.Algo.HashTable.{has_key, same_key}

abbrev pub to_nat : Bool → ℕ
to_nat true = 1
to_nat false = 0

module _ {T : Type 0} (key : Keyed T) where
  open key use {Key, equal_key, equal_key_comm, equal_key_trans}

  -- Two keys that equal the same key equal each other.
  pub equal_key_congr : (a b c : Key) → equal_key a b ≡ true → equal_key c a ≡ equal_key c b
  equal_key_congr a b c e =
      ground (arith, equal_key_comm a b, equal_key_trans c a b, equal_key_trans c b a)

module _ {T : Type 0} ⦃key : Keyed T⦄ where
  open key use {
    Key, get_key, equal_key, equal_key_refl, equal_key_comm, equal_key_trans, hash, hash-equal_key,
  }

  unfoldable pub count : Key → List T → ℕ
  count q [] = 0
  count q (e ∷ c) = to_nat (has_key q e) + count q c

  pub search_if-eq-none : (q : Key) (c : List T) → count q c ≡ 0 → search_if (has_key q) c ≡ none
  unfolding count search_if
  search_if-eq-none q [] h = refl
  search_if-eq-none q (e ∷ c) h = ground (arith, search_if-eq-none q c)

  pub count-eq-zero : (q : Key) (c : List T) → search_if (has_key q) c ≡ none → count q c ≡ 0
  unfolding count search_if
  count-eq-zero q [] h = refl
  count-eq-zero q (e ∷ c) h = ground (arith, count-eq-zero q c)

  pub count_congr : (a b : Key) (c : List T) → equal_key a b ≡ true → count a c ≡ count b c
  unfolding count
  count_congr a b [] h = refl
  count_congr a b (e ∷ c) h = ground (arith, equal_key_congr key a b (get_key e), count_congr a b c)

  pub search_if-same_key :
      (e : T) (c : List T) → search_if (same_key e) c ≡ search_if (has_key (get_key e)) c
  search_if-same_key e c =
      ap (λ p. search_if p c) (fun_ext (λ v. equal_key_comm (get_key e) (get_key v)))

  -- A chain to which an entry was added, at whatever place.
  pub record Put (e : T) (c c' : List T) : Type 0 where
    pub longer : length c' ≡ length c + 1
    pub tallies : (q : Key) → count q c' ≡ to_nat (has_key q e) + count q c
    pub hits :
        (q : Key)
        → search_if (has_key q) c' ≡ (if has_key q e then some e else search_if (has_key q) c)

  pub front-Put : (e : T) (c : List T) → Put e c (e ∷ c)
  unfolding count search_if
  front-Put e c = record { longer = omega arith; tallies = λ q. refl; hits = λ q. refl }

  -- What `ExtractNodeIf` returns and leaves, for the key `k`.
  pub record Taken (k : Key) (c : List T) (found : Option T) (rest : List T) : Type 0 where
    pub returns : found ≡ search_if (has_key k) c
    pub shorter : length rest + (elim found [ none ↦ 0 | some x ↦ 1 ]) ≡ length c
    pub counts :
        (q : Key)
        → count q rest + (elim found [ none ↦ 0 | some x ↦ to_nat (has_key q x) ]) ≡ count q c
    pub reads :
        (q : Key)
        → count q c ≤ 1
        → search_if (has_key q) rest ≡ (if equal_key q k then none else search_if (has_key q) c)
    pub matches : (x : T) → found ≡ some x → has_key k x ≡ true

  hit-Taken : (k : Key) (e : T) (c : List T) → has_key k e ≡ true → Taken k (e ∷ c) (some e) c
  unfolding search_if count
  hit-Taken k e c hit = record {
    returns = rw hit;
    shorter = omega arith;
    counts = λ q. omega arith;
    reads = λ q h. ground (
      arith,
      equal_key_comm q k,
      equal_key_comm q (get_key e),
      equal_key_comm (get_key e) k,
      equal_key_trans q (get_key e) k,
      equal_key_trans (get_key e) q k,
      equal_key_trans (get_key e) k q,
      search_if-eq-none q c,
    );
    matches = λ x p. ground arith;
  }

  miss-Taken :
      (k : Key) (e : T) (c : List T) (found : Option T) (rest : List T)
      → has_key k e ≡ false
      → Taken k c found rest
      → Taken k (e ∷ c) found (e ∷ rest)
  unfolding search_if count
  miss-Taken k e c found rest miss t = record {
    returns = rw miss t.returns;
    shorter = omega (arith, t.shorter);
    counts = λ q. omega (arith, t.counts q);
    reads = λ q h. ground (arith, equal_key_trans (get_key e) q k, t.reads q);
    matches = t.matches;
  }

  pub extract_node_if-Taken :
      (k : Key) (c : List T)
      → Taken k c (extract_node_if (has_key k) c).0 (extract_node_if (has_key k) c).1
  unfolding extract_node_if search_if count keep_front
  extract_node_if-Taken k [] = record {
    returns = refl;
    shorter = omega arith;
    counts = λ q. omega arith;
    reads = λ q h. ground arith;
    matches = λ x e. cc;
  }
  extract_node_if-Taken k (e ∷ c) =
      let later = extract_node_if-Taken k c in
      elim (Bool-cases (has_key k e)) [
        | inl hit ↦ rw hit (hit-Taken k e c hit)
        | inr miss ↦ rw miss (miss-Taken k e c _ _ miss later)
      ]
