-- ===== src/Algo/Blist/Unlinking.antt =====
-- `Extract` of a node that is not the first one.
use mmkvc.Prelude.{
  ℕ, suc, ◌+◌, ◌-◌, ◌%◌, ◌≡◌, ◌≢◌, refl, sym, ap, subst, ◌∙◌, [], ◌∷◌, ◌++◌, length, length-append,
  Option, none, some, arith,
}
use mmkvc.Algo.HashTable.{size_mod}
use mmkvc.Algo.Blist.{BNode, Store, Blist, put, set_prev, set_next, extract}
use mmkvc.Algo.Blist.Linked.{
  Nodes, first_of, last_of, Linked, Represents, put-other, put_self, bind_some, set_prev-at,
  set_next-at, ne_false, Linked-put, Linked-append, Linked-split, last_of-append, Fresh-back,
  Distinct-back, first_of-append,
}
use mmkvc.Algo.Blist.Middle.{
  fewer, Takes, Distinct-middle, Distinct-left, Fresh-across, last_of-past, head_of, first_of-head,
  Fresh-head,
}

module _ {T : Type 0} where
  -- The writes of `Extract` of another one: `s` is the store after the first of them.
  extract-inner :
      (p l first : ℕ) (v : T) (after : Option ℕ) (b : Blist T) (s : Store T) (nl : BNode T)
      → b.header ≡ some first
      → p ≢ first
      → p ≢ l
      → b.store p ≡ some (record { value = v; prev = some l; next = after })
      → elim after [
        | some a ↦ set_prev (some a) (some l) b.store
        | none ↦ set_prev b.header (some l) b.store
      ]
        ≡ some s
      → s p ≡ some (record { value = v; prev = some l; next = after })
      → s l ≡ some nl
      → extract p b
        ≡ some (record {
          store =
              put p
                (record { value = v; prev = none; next = none })
                (put l (record nl { next = after }) s);
          header = some first;
          count = (b.count + size_mod - 1) % size_mod;
        })
  unfolding extract
  extract-inner p l first v after b s nl header ne_first ne_l at_p written at_p' at_l =
      let relinked : elim (s p) [ none ↦ none | some m ↦ set_next m.prev m.next s ]
          ≡ some (put l (record nl { next = after }) s) =
        rw at_p' (set_next-at l after s nl at_l) in
      bind_some _ _ _ _ at_p (
        bind_some _ _ _ _ written (
          bind_some _ _ _ _ header (
            rw (ne_false p first ne_first) (
              bind_some _ _ _ _ relinked (
                bind_some _ _ _ _
                  (put-other l p (record nl { next = after }) s (λ e. ne_l (sym e)) ∙ at_p')
                  (ap
                    (λ o. some (record {
                      store =
                          put p (record { value = v; prev = none; next = none })
                            (put l (record nl { next = after }) s);
                      header = o;
                      count = (b.count + size_mod - 1) % size_mod;
                    }))
                    header))))))

  -- a node with one before it and one behind it
  pub extract-between :
      (zs : Nodes T) (l p q : ℕ) (x v u : T) (ys : Nodes T) (b : Blist T)
      → Represents b ((zs ++ (l, x) ∷ []) ++ (p, v) ∷ (q, u) ∷ ys)
      → Takes p v ((zs ++ (l, x) ∷ []) ++ (q, u) ∷ ys) (extract p b)
  extract-between zs l p q x v u ys b r =
      let xs = zs ++ (l, x) ∷ [] in
      let (p_xs, (ne_pq, p_ys), d) = Distinct-middle xs p v ((q, u) ∷ ys) r.distinct in
      let (q_xs, q_ys, d') = Distinct-middle xs q u ys d in
      let (p_zs, ne_pl) = Fresh-back p zs l x p_xs in
      let (q_zs, ne_ql) = Fresh-back q zs l x q_xs in
      let (d_zs, l_zs) = Distinct-back zs l x (Distinct-left xs ((q, u) ∷ ys) d) in
      let l_ys = Fresh-across zs l x ys d' in
      let tail = last_of q ys in
      let same = last_of-past 0 xs p v ((q, u) ∷ ys) in
      let same' = last_of-past 0 xs q u ys in
      let back = last_of-append tail zs l x in
      let (links, (at_p, (at_q, behind))) =
        Linked-split b.store tail xs ((p, v) ∷ (q, u) ∷ ys) none
          (subst (λ t. Linked b.store t (xs ++ (p, v) ∷ (q, u) ∷ ys) none) same r.linked) in
      let (inner, (at_l, _)) = Linked-split b.store tail zs ((l, x) ∷ []) (some p) links in
      let at_p' = at_p ∙ ap (λ o. some (record { value = v; prev = some o; next = some q })) back in
      let n : BNode T = record { value = u; prev = some l; next = first_of ys none } in
      let nl : BNode T = record { value = x; prev = some (last_of tail zs); next = some p } in
      let nl' : BNode T = record { value = x; prev = some (last_of tail zs); next = some q } in
      let m : BNode T = record { value = v; prev = none; next = none } in
      let s1 = put q n b.store in
      let s2 = put l nl' s1 in
      let s3 = put p m s2 in
      let first = head_of zs l in
      let inner3 = Linked-put p m s2 tail zs (some l) p_zs (
        Linked-put l nl' s1 tail zs (some l) l_zs
          (Linked-put q n b.store tail zs (some l) q_zs inner)) in
      let at_l3 = put-other p l m s2 ne_pl ∙ put_self l nl' s1 in
      let at_q3 =
        put-other p q m s2 ne_pq
        ∙ put-other l q nl' s1 (λ e. ne_ql (sym e))
        ∙ put_self q n b.store
        ∙ ap (λ o. some (record { value = u; prev = some o; next = first_of ys none }))
            (sym back) in
      let behind3 =
        Linked-put p m s2 q ys none p_ys
          (Linked-put l nl' s1 q ys none l_ys (Linked-put q n b.store q ys none q_ys behind)) in
      let long = length-append xs ((p, v) ∷ (q, u) ∷ ys) in
      let long' = length-append xs ((q, u) ∷ ys) in
      record {
        list = record {
          store = s3;
          header = some first;
          count = (b.count + size_mod - 1) % size_mod;
        };
        ends =
            extract-inner p l first v (some q) b s1 nl
              (r.begins ∙ first_of-head zs l x ((p, v) ∷ (q, u) ∷ ys)) (Fresh-head p zs l x p_xs)
              ne_pl at_p' (set_prev-at q (some l) b.store _ at_q)
              (put-other q p n b.store (λ e. ne_pq (sym e)) ∙ at_p')
              (put-other q l n b.store ne_ql ∙ at_l);
        represents = record {
          begins = sym (first_of-head zs l x ((q, u) ∷ ys));
          counts =
              fewer b.count (length (xs ++ (p, v) ∷ (q, u) ∷ ys)) (length (xs ++ (q, u) ∷ ys))
                r.counts (omega (arith, long, long')) r.fits;
          fits = omega (arith, r.fits, long, long');
          distinct = d;
          linked =
              subst (λ t. Linked s3 t (xs ++ (q, u) ∷ ys) none) (sym same')
                (Linked-append s3 tail xs ((q, u) ∷ ys) none
                  (Linked-append s3 tail zs ((l, x) ∷ []) (some q) inner3 (at_l3, tt))
                  (at_q3, behind3));
        };
        apart = put_self p m s2;
      }

  -- the last one of two
  pub extract-second :
      (l p : ℕ) (x v : T) (b : Blist T)
      → Represents b ((l, x) ∷ (p, v) ∷ [])
      → Takes p v ((l, x) ∷ []) (extract p b)
  extract-second l p x v b r =
      let (ne, _) = r.distinct.0 in
      let n1 : BNode T = record { value = x; prev = some l; next = some p } in
      let n2 : BNode T = record { value = x; prev = some l; next = none } in
      let m : BNode T = record { value = v; prev = none; next = none } in
      let s1 = put l n1 b.store in
      let s2 = put l n2 s1 in
      let ne' : p ≢ l = λ e. ne (sym e) in
      record {
        list = record {
          store = put p m s2;
          header = some l;
          count = (b.count + size_mod - 1) % size_mod;
        };
        ends =
            extract-inner p l l v none b s1 n1 r.begins ne' ne' r.linked.1.0
              (rw r.begins (set_prev-at l (some l) b.store _ r.linked.0))
              (put-other l p n1 b.store ne ∙ r.linked.1.0) (put_self l n1 b.store);
        represents = record {
          begins = refl;
          counts = fewer b.count 2 1 r.counts refl (omega arith);
          fits = omega arith;
          distinct = (tt, tt);
          linked = (put-other p l m s2 ne' ∙ put_self l n2 s1, tt);
        };
        apart = put_self p m s2;
      }

  -- the last one of three or more
  pub extract-last :
      (f : ℕ) (w : T) (zs : Nodes T) (l p : ℕ) (x v : T) (b : Blist T)
      → Represents b ((f, w) ∷ (zs ++ (l, x) ∷ []) ++ (p, v) ∷ [])
      → Takes p v ((f, w) ∷ (zs ++ (l, x) ∷ [])) (extract p b)
  extract-last f w zs l p x v b r =
      let es = zs ++ (l, x) ∷ [] in
      let long = length-append es ((p, v) ∷ []) in
      let (f_es, ne_fp) = Fresh-back f es p v r.distinct.0 in
      let (f_zs, ne_fl) = Fresh-back f zs l x f_es in
      let (d_es, p_es) = Distinct-back es p v r.distinct.1 in
      let (p_zs, ne_pl) = Fresh-back p zs l x p_es in
      let (d_zs, l_zs) = Distinct-back zs l x d_es in
      let (links, (end, _)) = Linked-split b.store f es ((p, v) ∷ []) none r.linked.1 in
      let (inner, (at_l, _)) = Linked-split b.store f zs ((l, x) ∷ []) (some p) links in
      let after = first_of (es ++ (p, v) ∷ []) none in
      let at_p =
        end
        ∙ ap (λ o. some (record { value = v; prev = some o; next = none }))
            (last_of-append f zs l x) in
      let n1 : BNode T = record { value = w; prev = some l; next = after } in
      let nl : BNode T = record { value = x; prev = some (last_of f zs); next = some p } in
      let n2 : BNode T = record { value = x; prev = some (last_of f zs); next = none } in
      let m : BNode T = record { value = v; prev = none; next = none } in
      let s1 = put f n1 b.store in
      let s2 = put l n2 s1 in
      let s3 = put p m s2 in
      let ne_pf : p ≢ f = λ e. ne_fp (sym e) in
      let ne_lf : l ≢ f = λ e. ne_fl (sym e) in
      let inner3 = Linked-put p m s2 f zs (some l) p_zs (
        Linked-put l n2 s1 f zs (some l) l_zs (Linked-put f n1 b.store f zs (some l) f_zs inner)) in
      let at_l3 = put-other p l m s2 ne_pl ∙ put_self l n2 s1 in
      let at_f3 =
        put-other p f m s2 ne_pf
        ∙ put-other l f n2 s1 ne_lf
        ∙ put_self f n1 b.store
        ∙ ap (λ o. some (record { value = w; prev = some o; next = after }))
            (sym (last_of-append f zs l x))
        ∙ ap (λ o. some (record { value = w; prev = some (last_of f es); next = o }))
            (sym (first_of-append zs (l, x) ((p, v) ∷ []) none)) in
      record {
        list = record { store = s3; header = some f; count = (b.count + size_mod - 1) % size_mod };
        ends =
            extract-inner p l f v none b s1 nl r.begins ne_pf ne_pl at_p
              (rw r.begins (set_prev-at f (some l) b.store _ r.linked.0))
              (put-other f p n1 b.store ne_fp ∙ at_p) (put-other f l n1 b.store ne_fl ∙ at_l);
        represents = record {
          begins = refl;
          counts =
              fewer b.count (suc (length (es ++ (p, v) ∷ []))) (suc (length es)) r.counts
                (omega (arith, long)) r.fits;
          fits = omega (arith, r.fits, long);
          distinct = (f_es, d_es);
          linked = (at_f3, Linked-append s3 f zs ((l, x) ∷ []) none inner3 (at_l3, tt));
        };
        apart = put_self p m s2;
      }
