-- ===== src/Algo/HashTable/Clone/Loops.antt =====
-- The loops of `Clone` put every entry into its home bucket, in front of those that are there.
use mmkvc.Prelude.{
  ℕ, suc, ◌+◌, ◌≡◌, ◌≢◌, refl, sym, ap, subst, ◌∙◌, inl, inr, List, [], ◌∷◌, ◌++◌, get_or, bit_and,
  arith,
}
use mmkvc.Algo.Ordered.Sorted.{All}
use mmkvc.Algo.Keyed.{Keyed}
use mmkvc.Algo.HashTable.{Table, home, set_bucket, push, move_bucket}
use mmkvc.Algo.HashTable.Chain.{to_nat, count}
use mmkvc.Algo.HashTable.Bucket.{IsPlaced, eq_or_ne}
use mmkvc.Algo.HashTable.Clone.{copy_chain, copy_chains, spread_chain, spread_chains}
use mmkvc.Algo.TableIterator.Cursors.{chain_walk}
use mmkvc.Algo.TableIterator.Visited.{listing}

module _ {T : Type 0} ⦃key : Keyed T⦄ where
  open key use {Key, get_key, hash, equal_key, equal_key_refl}

  pub move_bucket-append :
      (c d : List T) (t : Table T) → move_bucket (c ++ d) t ≡ move_bucket d (move_bucket c t)
  unfolding move_bucket
  move_bucket-append [] d t = refl
  move_bucket-append (e ∷ c) d t = move_bucket-append c d (push e t)

  -- The entries of a chain have their home at `i`, and those of the chains from `i` on at theirs.
  abbrev pub Homes : ℕ → ℕ → List T → Type 0
  Homes mask i c = All (λ e. bit_and (hash (get_key e)) mask ≡ i) c

  abbrev pub HomesFrom : ℕ → ℕ → List (List T) → Type 0
  HomesFrom mask i [] = Unit
  HomesFrom mask i (c ∷ cs) = Homes mask i c × HomesFrom mask (suc i) cs

  copy_chain-move_bucket :
      (i : ℕ) (c : List T) (t : Table T)
      → Homes t.size_mask i c
      → copy_chain i c t ≡ move_bucket c t
  unfolding copy_chain move_bucket push home
  copy_chain-move_bucket i [] t homes = refl
  copy_chain-move_bucket i (e ∷ c) t (at, homes) =
      copy_chain-move_bucket i c (set_bucket i (e ∷ get_or t.buckets i []) t) homes
      ∙ ap (λ j. move_bucket c (set_bucket j (e ∷ get_or t.buckets j []) t)) (sym at)

  move_bucket-mask : (c : List T) (t : Table T) → (move_bucket c t).size_mask ≡ t.size_mask
  unfolding move_bucket push
  move_bucket-mask [] t = refl
  move_bucket-mask (e ∷ c) t = move_bucket-mask c (push e t)

  pub copy_chains-move_bucket :
      (i : ℕ) (cs : List (List T)) (t : Table T)
      → HomesFrom t.size_mask i cs
      → copy_chains i cs t ≡ move_bucket (listing chain_walk cs) t
  unfolding copy_chains move_bucket
  copy_chains-move_bucket i [] t homes = refl
  copy_chains-move_bucket i (c ∷ cs) t (at, homes) =
      let one = copy_chain-move_bucket i c t at in
      let same = sym (ap (λ u. u.size_mask) one ∙ move_bucket-mask c t) in
      copy_chains-move_bucket (suc i) cs (copy_chain i c t)
        (subst (λ mask. HomesFrom mask (suc i) cs) same homes)
      ∙ ap (move_bucket (listing chain_walk cs)) one
      ∙ sym (move_bucket-append c (listing chain_walk cs) t)

  module _ (hash_value : T → ℕ) (same : (e : T) → hash_value e ≡ hash (get_key e)) where
    spread_chain-move_bucket :
        (c : List T) (t : Table T) → spread_chain hash_value c t ≡ move_bucket c t
    unfolding spread_chain move_bucket push home
    spread_chain-move_bucket [] t = refl
    spread_chain-move_bucket (e ∷ c) t =
        let i = bit_and (hash_value e) t.size_mask in
        spread_chain-move_bucket c (set_bucket i (e ∷ get_or t.buckets i []) t)
        ∙ ap
            (λ v. move_bucket c (
              set_bucket (bit_and v t.size_mask) (e ∷ get_or t.buckets (bit_and v t.size_mask) [])
                t))
            (same e)

    pub spread_chains-move_bucket :
        (cs : List (List T)) (t : Table T)
        → spread_chains hash_value cs t ≡ move_bucket (listing chain_walk cs) t
    unfolding spread_chains move_bucket
    spread_chains-move_bucket [] t = refl
    spread_chains-move_bucket (c ∷ cs) t =
        spread_chains-move_bucket cs (spread_chain hash_value c t)
        ∙ ap (move_bucket (listing chain_walk cs)) (spread_chain-move_bucket c t)
        ∙ sym (move_bucket-append c (listing chain_walk cs) t)

  -- Where keys occur in their home bucket alone, the loops meet every entry at its home.
  chain-Homes :
      (mask i : ℕ) (c : List T)
      → ((q : Key) → bit_and (hash q) mask ≢ i → count q c ≡ 0)
      → Homes mask i c
  unfolding count
  chain-Homes mask i [] h = tt
  chain-Homes mask i (e ∷ c) h = (
    elim (eq_or_ne (bit_and (hash (get_key e)) mask) i) [
      | inl at ↦ at
      | inr ne ↦
          let self = ap to_nat (equal_key_refl (get_key e)) in
          absurd (omega (arith, self, h (get_key e) ne))
    ],
    chain-Homes mask i c (λ q ne. omega (arith, h q ne)),
  )

  chains-HomesFrom :
      (mask i : ℕ) (cs : List (List T))
      → ((q : Key) (j : ℕ) → bit_and (hash q) mask ≢ i + j → count q (get_or cs j []) ≡ 0)
      → HomesFrom mask i cs
  chains-HomesFrom mask i [] h = tt
  chains-HomesFrom mask i (c ∷ cs) h = (
    chain-Homes mask i c (λ q ne. h q 0 (λ e. ne (omega (arith, e)))),
    chains-HomesFrom mask (suc i) cs (λ q j ne. h q (suc j) (λ e. ne (omega (arith, e)))),
  )

  pub placed-HomesFrom : (t : Table T) → IsPlaced t → HomesFrom t.size_mask 0 t.buckets
  unfolding IsPlaced home
  placed-HomesFrom t placed =
      chains-HomesFrom t.size_mask 0 t.buckets (λ q j ne. placed q j (λ e. ne (omega (arith, e))))
