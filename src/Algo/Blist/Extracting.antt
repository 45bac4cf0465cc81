-- ===== src/Algo/Blist/Extracting.antt =====
-- `Extract`.
use mmkvc.Prelude.{
  ℕ, suc, ◌+◌, ◌-◌, ◌%◌, ◌≡◌, ◌≢◌, refl, sym, subst, ◌∙◌, [], ◌∷◌, ◌++◌, length, append-nil, Option,
  none, some, arith, ==_iff,
}
use mmkvc.Algo.HashTable.{size_mod}
use mmkvc.Algo.Blist.{BNode, Blist, put, set_prev, extract}
use mmkvc.Algo.Blist.Linked.{
  Nodes, first_of, last_of, Represents, put-other, put_self, bind_some, set_prev-at, Linked-put,
  snoc_view,
}
use mmkvc.Algo.Blist.Middle.{fewer, Takes}
use mmkvc.Algo.Blist.Unlinking.{extract-between, extract-second, extract-last}

module _ {T : Type 0} where
  -- The writes of `Extract` of the first node, with a node behind it.
  extract-first :
      (p q l : ℕ) (v u : T) (before after : Option ℕ) (b : Blist T)
      → b.header ≡ some p
      → p ≢ q
      → b.store p ≡ some (record { value = v; prev = some l; next = some q })
      → b.store q ≡ some (record { value = u; prev = before; next = after })
      → extract p b
        ≡ some (record {
          store =
              put p
                (record { value = v; prev = none; next = none })
                (put q (record { value = u; prev = some l; next = after }) b.store);
          header = some q;
          count = (b.count + size_mod - 1) % size_mod;
        })
  unfolding extract
  extract-first p q l v u before after b header ne at_p at_q =
      let n : BNode T = record { value = u; prev = some l; next = after } in
      bind_some _ _ _ _ at_p (
        bind_some _ _ _ _ (set_prev-at q (some l) b.store _ at_q) (
          bind_some _ _ _ _ header (
            rw ((==_iff p p).1 refl)
              (bind_some _ _ _ _ (put-other q p n b.store (λ e. ne (sym e)) ∙ at_p) refl))))

  -- the only node
  extract-only :
      (p : ℕ) (v : T) (b : Blist T) → Represents b ((p, v) ∷ []) → Takes p v [] (extract p b)
  unfolding extract
  extract-only p v b r =
      let n : BNode T = record { value = v; prev = some p; next = none } in
      let m : BNode T = record { value = v; prev = none; next = none } in
      let s1 = put p n b.store in
      let written : set_prev b.header (some p) b.store ≡ some s1 =
        rw r.begins (set_prev-at p (some p) b.store n r.linked.0) in
      record {
        list = record {
          store = put p m s1;
          header = none;
          count = (b.count + size_mod - 1) % size_mod;
        };
        ends = bind_some _ _ _ _ r.linked.0 (
            bind_some _ _ _ _ written (
              bind_some _ _ _ _ r.begins
                (rw ((==_iff p p).1 refl) (bind_some _ _ _ _ (put_self p n b.store) refl))));
        represents = record {
          begins = refl;
          counts = fewer b.count 1 0 r.counts refl (omega arith);
          fits = omega arith;
          distinct = tt;
          linked = tt;
        };
        apart = put_self p m s1;
      }

  extract-head :
      (p q : ℕ) (v u : T) (ys : Nodes T) (b : Blist T)
      → Represents b ((p, v) ∷ (q, u) ∷ ys)
      → Takes p v ((q, u) ∷ ys) (extract p b)
  extract-head p q v u ys b r =
      let tail = last_of q ys in
      let n : BNode T = record { value = u; prev = some tail; next = first_of ys none } in
      let m : BNode T = record { value = v; prev = none; next = none } in
      let s1 = put q n b.store in
      let (ne, p_ys) = r.distinct.0 in
      let (q_ys, d) = r.distinct.1 in
      let (at_q, links) = r.linked.1 in
      record {
        list = record {
          store = put p m s1;
          header = some q;
          count = (b.count + size_mod - 1) % size_mod;
        };
        ends = extract-first p q tail v u (some p) (first_of ys none) b r.begins ne r.linked.0 at_q;
        represents = record {
          begins = refl;
          counts = fewer b.count (suc (suc (length ys))) (suc (length ys)) r.counts refl r.fits;
          fits = omega (arith, r.fits);
          distinct = (q_ys, d);
          linked = (
            put-other p q m s1 ne ∙ put_self q n b.store,
            Linked-put p m s1 q ys none p_ys (Linked-put q n b.store q ys none q_ys links),
          );
        };
        apart = put_self p m s1;
      }

  extract-at :
      (xs : Nodes T) (p : ℕ) (v : T) (ys : Nodes T) (b : Blist T)
      → Represents b (xs ++ (p, v) ∷ ys)
      → Takes p v (xs ++ ys) (extract p b)
  extract-at [] p v [] b r = extract-only p v b r
  extract-at [] p v ((q, u) ∷ ys) b r = extract-head p q v u ys b r
  extract-at ((l, x) ∷ []) p v [] b r = extract-second l p x v b r
  extract-at ((f, w) ∷ e ∷ es) p v [] b r =
      let (zs, (l, x), same) = snoc_view e es in
      subst (λ ds. Takes p v ds (extract p b)) (sym (append-nil ((f, w) ∷ e ∷ es)))
        (subst (λ ds. Takes p v ((f, w) ∷ ds) (extract p b)) (sym same)
          (extract-last f w zs l p x v b
            (subst (λ ds. Represents b ((f, w) ∷ ds ++ (p, v) ∷ [])) same r)))
  extract-at (e ∷ es) p v ((q, u) ∷ ys) b r =
      let (zs, (l, x), same) = snoc_view e es in
      subst (λ ds. Takes p v (ds ++ (q, u) ∷ ys) (extract p b)) (sym same)
        (extract-between zs l p q x v u ys b
          (subst (λ ds. Represents b (ds ++ (p, v) ∷ (q, u) ∷ ys)) same r))

  -- `extract` of any node of a well linked list leaves a well linked list of the other nodes, in
  -- their order, and the node in the store with null links; a second `extract` of it changes
  -- nothing.
  pub extract-Takes :
      (xs : Nodes T) (p : ℕ) (v : T) (ys : Nodes T) (b : Blist T)
      → Represents b (xs ++ (p, v) ∷ ys)
      → (out : Takes p v (xs ++ ys) (extract p b)) × (extract p out.list ≡ some out.list)
  unfolding extract
  extract-Takes xs p v ys b r =
      let out = extract-at xs p v ys b r in (out, bind_some _ _ _ _ out.apart refl)
