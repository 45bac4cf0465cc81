-- ===== src/Algo/Blist/Popping.antt =====
-- `PopFront` and `PopBack`.
use mmkvc.Prelude.{
  ℕ, suc, ◌+◌, ◌-◌, ◌%◌, ◌<◌, ◌≡◌, ◌≢◌, refl, sym, ap, subst, ◌∙◌, false, ◌==◌, [], ◌∷◌, ◌++◌,
  length, length-append, Option, none, some, arith,
}
use mmkvc.Algo.HashTable.{size_mod}
use mmkvc.Algo.Blist.{BNode, Blist, put, drop_node, pop_front, pop_back}
use mmkvc.Algo.Blist.Linked.{
  Nodes, first_of, last_of, Linked, Represents, put-other, put_self, bind_some, set_prev-at,
  set_next-at, drop_node-other, Linked-put, Linked-drop_node, Linked-append, Linked-split,
  last_of-append, Leaves, snoc_view, Fresh-back, Distinct-back, first_of-append,
}

last_one : (n m : ℕ) → n ≡ suc (suc m) → (n == 1) ≡ false
last_one n m e = ground arith

one_less : (n m : ℕ) → n ≡ suc m → m + 1 < size_mod → (n + size_mod - 1) % size_mod ≡ m
one_less n m e h = omega arith

module _ {T : Type 0} where
  pop_front-store :
      (first q tail : ℕ) (w u : T) (b : Blist T) (before after : Option ℕ)
      → b.header ≡ some first
      → (b.count == 1) ≡ false
      → b.store first ≡ some (record { value = w; prev = some tail; next = some q })
      → b.store q ≡ some (record { value = u; prev = before; next = after })
      → pop_front b
        ≡ some (
          1,
          record {
            store =
                drop_node first
                  (put q (record { value = u; prev = some tail; next = after }) b.store);
            header = some q;
            count = (b.count + size_mod - 1) % size_mod;
          },
        )
  unfolding pop_front
  pop_front-store first q tail w u b before after header more at at' =
      rw (header, pop_front)
        (rw (more, pop_front)
          (bind_some _ _ _ _ at (bind_some _ _ _ _ (set_prev-at q (some tail) b.store _ at') refl)))

  -- `pop_front` of a list that is not empty takes the first node away.
  pub pop_front-Leaves :
      (first : ℕ) (w : T) (es : Nodes T) (b : Blist T)
      → Represents b ((first, w) ∷ es)
      → Leaves es (pop_front b)
  unfolding pop_front
  pop_front-Leaves first w [] b r =
      rw (r.begins, pop_front)
        (rw (r.counts, pop_front)
          (record {
            list = record { store = drop_node first b.store; header = none; count = 0 };
            ends = refl;
            represents = record {
              begins = refl;
              counts = refl;
              fits = omega arith;
              distinct = tt;
              linked = tt;
            };
          }))
  pop_front-Leaves first w ((q, u) ∷ es) b r =
      let tail = last_of q es in
      let n : BNode T = record { value = u; prev = some tail; next = first_of es none } in
      let s1 = put q n b.store in
      let (ne, fresh) = r.distinct.0 in
      let (fresh_q, distinct) = r.distinct.1 in
      let (at_q, links) = r.linked.1 in
      record {
        list = record {
          store = drop_node first s1;
          header = some q;
          count = (b.count + size_mod - 1) % size_mod;
        };
        ends =
            pop_front-store first q tail w u b (some first) (first_of es none) r.begins
              (last_one b.count (length es) r.counts) r.linked.0 at_q;
        represents = record {
          begins = refl;
          counts = one_less b.count (suc (length es)) r.counts (omega (arith, r.fits));
          fits = omega (arith, r.fits);
          distinct = (fresh_q, distinct);
          linked = (
            drop_node-other first q s1 ne ∙ put_self q n b.store,
            Linked-drop_node first s1 q es none fresh
                (Linked-put q n b.store q es none fresh_q links),
          );
        };
      }

  pop_back-store :
      (first t l : ℕ) (w u : T) (after : Option ℕ) (before first' : BNode T) (b : Blist T)
      → b.header ≡ some first
      → (b.count == 1) ≡ false
      → l ≢ t
      → b.store first ≡ some (record { value = w; prev = some t; next = after })
      → b.store t ≡ some (record { value = u; prev = some l; next = none })
      → b.store l ≡ some before
      → put l (record before { next = none }) b.store first ≡ some first'
      → pop_back b
        ≡ some (
          1,
          record {
            store = drop_node t (
                put first
                  (record first' { prev = some l })
                  (put l (record before { next = none }) b.store));
            header = some first;
            count = (b.count + size_mod - 1) % size_mod;
          },
        )
  unfolding pop_back
  pop_back-store first t l w u after before first' b header more ne at at_t at_l at' =
      let n1 : BNode T = record before { next = none } in
      let s1 = put l n1 b.store in
      rw (header, pop_back)
        (rw (more, pop_back)
          (bind_some _ _ _ _ at (
            bind_some _ _ _ _ at_t (
              bind_some _ _ _ _ (set_next-at l none b.store before at_l) (
                bind_some _ _ _ _ (put-other l t n1 b.store ne ∙ at_t)
                  (bind_some _ _ _ _ (set_prev-at first (some l) s1 first' at') refl))))))

  pop_back-second :
      (first t : ℕ) (w u : T) (b : Blist T)
      → Represents b ((first, w) ∷ (t, u) ∷ [])
      → Leaves ((first, w) ∷ []) (pop_back b)
  pop_back-second first t w u b r =
      let (ne, _) = r.distinct.0 in
      let n1 : BNode T = record { value = w; prev = some t; next = none } in
      let s1 = put first n1 b.store in
      let n2 : BNode T = record { value = w; prev = some first; next = none } in
      record {
        list = record {
          store = drop_node t (put first n2 s1);
          header = some first;
          count = (b.count + size_mod - 1) % size_mod;
        };
        ends =
            pop_back-store first t first w u (some t)
              (record { value = w; prev = some t; next = some t }) n1 b r.begins
              (last_one b.count 0 r.counts) ne r.linked.0 r.linked.1.0 r.linked.0
              (put_self first n1 b.store);
        represents = record {
          begins = refl;
          counts = one_less b.count 1 r.counts (omega arith);
          fits = omega arith;
          distinct = (tt, tt);
          linked = (
            drop_node-other t first (put first n2 s1) (λ e. ne (sym e)) ∙ put_self first n2 s1,
            tt,
          );
        };
      }

  pop_back-many :
      (first l t : ℕ) (w x u : T) (xs : Nodes T) (b : Blist T)
      → Represents b ((first, w) ∷ (xs ++ (l, x) ∷ []) ++ (t, u) ∷ [])
      → Leaves ((first, w) ∷ (xs ++ (l, x) ∷ [])) (pop_back b)
  pop_back-many first l t w x u xs b r =
      let es = xs ++ (l, x) ∷ [] in
      let long = length-append es ((t, u) ∷ []) in
      let (first_es, ne_ft) = Fresh-back first es t u r.distinct.0 in
      let (first_xs, ne_fl) = Fresh-back first xs l x first_es in
      let (d_es, t_es) = Distinct-back es t u r.distinct.1 in
      let (t_xs, ne_tl) = Fresh-back t xs l x t_es in
      let (d_xs, l_xs) = Distinct-back xs l x d_es in
      let (links, end) = Linked-split b.store first es ((t, u) ∷ []) none r.linked.1 in
      let (inner, at_l) = Linked-split b.store first xs ((l, x) ∷ []) (some t) links in
      let after = first_of (es ++ (t, u) ∷ []) none in
      let at_first : b.store first ≡ some (record { value = w; prev = some t; next = after }) =
        r.linked.0
        ∙ ap (λ q. some (record { value = w; prev = some q; next = after }))
            (last_of-append first es t u) in
      let at_t : b.store t ≡ some (record { value = u; prev = some l; next = none }) =
        end.0
        ∙ ap (λ q. some (record { value = u; prev = some q; next = none }))
            (last_of-append first xs l x) in
      let before : BNode T = record { value = x; prev = some (last_of first xs); next = some t } in
      let first' : BNode T = record { value = w; prev = some t; next = after } in
      let n1 : BNode T = record { value = x; prev = some (last_of first xs); next = none } in
      let s1 = put l n1 b.store in
      let n2 : BNode T = record { value = w; prev = some l; next = after } in
      let s2 = put first n2 s1 in
      let s3 = drop_node t s2 in
      let inner3 : Linked s3 first xs (some l) = Linked-drop_node t s2 first xs (some l) t_xs (
        Linked-put first n2 s1 first xs (some l) first_xs
          (Linked-put l n1 b.store first xs (some l) l_xs inner)) in
      let at_l3 : s3 l ≡ some n1 =
        drop_node-other t l s2 ne_tl ∙ put-other first l n2 s1 ne_fl ∙ put_self l n1 b.store in
      record {
        list = record {
          store = s3;
          header = some first;
          count = (b.count + size_mod - 1) % size_mod;
        };
        ends =
            pop_back-store first t l w u after before first' b r.begins
              (last_one b.count (length es) (r.counts ∙ omega (arith, long))) (λ e. ne_tl (sym e))
              at_first at_t at_l.0 (put-other l first n1 b.store (λ e. ne_fl (sym e)) ∙ at_first);
        represents = record {
          begins = refl;
          counts =
              one_less b.count (suc (length es)) (r.counts ∙ omega (arith, long))
                (omega (arith, r.fits, long));
          fits = omega (arith, r.fits, long);
          distinct = (first_es, d_es);
          linked = (
            drop_node-other t first s2 (λ e. ne_ft (sym e))
                ∙ put_self first n2 s1
                ∙ ap (λ q. some (record { value = w; prev = some q; next = after }))
                    (sym (last_of-append first xs l x))
                ∙ ap (λ q. some (record { value = w; prev = some (last_of first es); next = q }))
                    (sym (first_of-append xs (l, x) ((t, u) ∷ []) none)),
            Linked-append s3 first xs ((l, x) ∷ []) none inner3 (at_l3, tt),
          );
        };
      }

  -- `pop_back` of a list that is not empty takes the last node away.
  pub pop_back-Leaves :
      (es : Nodes T) (t : ℕ) (u : T) (b : Blist T)
      → Represents b (es ++ (t, u) ∷ [])
      → Leaves es (pop_back b)
  unfolding pop_back
  pop_back-Leaves [] t u b r =
      rw (r.begins, pop_back)
        (rw (r.counts, pop_back)
          (record {
            list = record { store = drop_node t b.store; header = none; count = 0 };
            ends = refl;
            represents = record {
              begins = refl;
              counts = refl;
              fits = omega arith;
              distinct = tt;
              linked = tt;
            };
          }))
  pop_back-Leaves ((first, w) ∷ []) t u b r = pop_back-second first t w u b r
  pop_back-Leaves ((first, w) ∷ e ∷ es) t u b r =
      let (xs, (l, x), same) = snoc_view e es in
      subst (λ ds. Leaves ((first, w) ∷ ds) (pop_back b)) (sym same)
        (pop_back-many first l t w x u xs b
          (subst (λ ds. Represents b ((first, w) ∷ ds ++ (t, u) ∷ [])) same r))

  -- `pop_front` and `pop_back` of a well linked list that is not empty answer 1 and leave a well
  -- linked list without its first node, and without its last one.
  pub pop_ends-Leaves :
      (e : ℕ × T) (es xs : Nodes T) (x : ℕ × T) (b : Blist T)
      → Represents b (e ∷ es)
      → e ∷ es ≡ xs ++ x ∷ []
      → Leaves es (pop_front b) × Leaves xs (pop_back b)
  pop_ends-Leaves (p, v) es xs (t, u) b r same =
      (pop_front-Leaves p v es b r, pop_back-Leaves xs t u b (subst (Represents b) same r))
