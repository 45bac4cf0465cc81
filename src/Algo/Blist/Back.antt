-- ===== src/Algo/Blist/Back.antt =====
-- `PushBack`.
use mmkvc.Prelude.{
  ℕ, suc, ◌+◌, ◌%◌, ◌<◌, ◌≡◌, ◌≢◌, refl, sym, ap, subst, ◌∙◌, false, ltb, [], ◌∷◌, ◌++◌, length,
  length-append, none, some, arith,
}
use mmkvc.Algo.HashTable.{size_mod, no_index}
use mmkvc.Algo.Blist.{BNode, Blist, put, push_back}
use mmkvc.Algo.Blist.Linked.{
  set_next-at, set_prev-at, bind_some, Nodes, first_of, last_of, Linked, Fresh, Represents,
  put-other, put_self, Linked-put, Linked-append, Linked-split, last_of-append, Leaves, snoc_view,
  Fresh-back, Distinct-back, Distinct-append, first_of-append,
}
use mmkvc.Algo.Blist.Front.{room_left, one-Represents}

module _ {T : Type 0} where
  push_back-empty :
      (p : ℕ) (v : T) (b : Blist T)
      → b.header ≡ none
      → b.store p ≡ some (record { value = v; prev = none; next = none })
      → push_back p b
        ≡ some (
          1,
          record {
            store = put p (record { value = v; prev = some p; next = none }) b.store;
            header = some p;
            count = 1;
          },
        )
  unfolding push_back
  push_back-empty p v b header created =
      rw (header, push_back)
        (bind_some _ _ _ _ (bind_some _ _ _ _ (set_prev-at p (some p) b.store _ created) refl) refl)

  -- The writes of `PushBack`: `last` is what the last node holds after the first of them.
  push_back-store :
      (p first tail : ℕ) (v : T) (front last front' : BNode T) (b : Blist T)
      → b.header ≡ some first
      → ltb no_index b.count ≡ false
      → p ≢ first
      → p ≢ tail
      → b.store p ≡ some (record { value = v; prev = none; next = none })
      → b.store first ≡ some front
      → front.prev ≡ some tail
      → b.store tail ≡ some last
      → put tail
          (record last { next = some p })
          (put p (record { value = v; prev = some tail; next = none }) b.store)
          first
        ≡ some front'
      → push_back p b
        ≡ some (
          1,
          record {
            store =
                put first
                  (record front' { prev = some p })
                  (put tail
                    (record last { next = some p })
                    (put p (record { value = v; prev = some tail; next = none }) b.store));
            header = some first;
            count = (b.count + 1) % size_mod;
          },
        )
  unfolding push_back
  push_back-store p first tail v front last front' b header small ne ne' created at back at_last
        at' =
      let n1 : BNode T = record { value = v; prev = some tail; next = none } in
      let s1 = put p n1 b.store in
      let n2 : BNode T = record last { next = some p } in
      let s2 = put tail n2 s1 in
      rw (header, push_back)
        (rw (small, push_back)
          (bind_some _ _ _ _ at (
            rw back (
              bind_some _ _ _ _ (set_prev-at p (some tail) b.store _ created) (
                bind_some _ _ _ _ (put-other p first n1 b.store ne ∙ at) (
                  rw back (
                    bind_some _ _ _ _
                      (set_next-at tail (some p) s1 last
                        (put-other p tail n1 b.store ne' ∙ at_last))
                      (bind_some _ _ _ _ (set_prev-at first (some p) s2 front' at') refl))))))))

  push_back-single :
      (p first : ℕ) (v w : T) (b : Blist T)
      → Represents b ((first, w) ∷ [])
      → b.store p ≡ some (record { value = v; prev = none; next = none })
      → p ≢ first
      → Leaves ((first, w) ∷ (p, v) ∷ []) (push_back p b)
  push_back-single p first v w b r created ne =
      let small : ltb no_index b.count ≡ false = room_left b.count 1 r.counts (omega arith) in
      let front : BNode T = record { value = w; prev = some first; next = none } in
      let n1 : BNode T = record { value = v; prev = some first; next = none } in
      let s1 = put p n1 b.store in
      let n2 : BNode T = record { value = w; prev = some first; next = some p } in
      let s2 = put first n2 s1 in
      let n3 : BNode T = record { value = w; prev = some p; next = some p } in
      record {
        list = record {
          store = put first n3 s2;
          header = some first;
          count = (b.count + 1) % size_mod;
        };
        ends =
            push_back-store p first first v front front n2 b r.begins small ne ne created r.linked.0
              refl r.linked.0 (put_self first n2 s1);
        represents = record {
          begins = refl;
          counts = omega (arith, r.counts);
          fits = omega arith;
          distinct = (((λ e. ne (sym e)), tt), (tt, tt));
          linked = (
            put_self first n3 s2,
            (
              put-other first p n3 s2 (λ e. ne (sym e))
                  ∙ put-other first p n2 s1 (λ e. ne (sym e))
                  ∙ put_self p n1 b.store,
              tt,
            ),
          );
        };
      }

  push_back-many :
      (p first t : ℕ) (v w u : T) (xs : Nodes T) (b : Blist T)
      → Represents b ((first, w) ∷ (xs ++ (t, u) ∷ []))
      → b.store p ≡ some (record { value = v; prev = none; next = none })
      → Fresh p ((first, w) ∷ (xs ++ (t, u) ∷ []))
      → length ((first, w) ∷ (xs ++ (t, u) ∷ [])) + 1 < size_mod
      → Leaves (((first, w) ∷ (xs ++ (t, u) ∷ [])) ++ (p, v) ∷ []) (push_back p b)
  push_back-many p first t v w u xs b r created (ne, fresh) room =
      let es = xs ++ (t, u) ∷ [] in
      let small : ltb no_index b.count ≡ false =
        room_left b.count (suc (length es)) r.counts room in
      let (fresh_xs, ne_t) = Fresh-back p xs t u fresh in
      let (first_xs, ne_ft) = Fresh-back first xs t u r.distinct.0 in
      let (d_xs, t_xs) = Distinct-back xs t u r.distinct.1 in
      let (links, end) = Linked-split b.store first xs ((t, u) ∷ []) none r.linked.1 in
      let front : BNode T = record {
        value = w;
        prev = some (last_of first es);
        next = first_of es none;
      } in
      let front' : BNode T = record { value = w; prev = some t; next = first_of es none } in
      let at_front : b.store first ≡ some front' =
        r.linked.0
        ∙ ap (λ q. some (record { value = w; prev = some q; next = first_of es none }))
            (last_of-append first xs t u) in
      let last : BNode T = record { value = u; prev = some (last_of first xs); next = none } in
      let n1 : BNode T = record { value = v; prev = some t; next = none } in
      let s1 = put p n1 b.store in
      let n2 : BNode T = record { value = u; prev = some (last_of first xs); next = some p } in
      let s2 = put t n2 s1 in
      let n3 : BNode T = record { value = w; prev = some p; next = first_of es none } in
      let s3 = put first n3 s2 in
      let back = λ (e : t ≡ first). ne_ft (sym e) in
      let links3 : Linked s3 first xs (some t) = Linked-put first n3 s2 first xs (some t) first_xs (
        Linked-put t n2 s1 first xs (some t) t_xs
          (Linked-put p n1 b.store first xs (some t) fresh_xs links)) in
      let at_t : s3 t ≡ some n2 = put-other first t n3 s2 ne_ft ∙ put_self t n2 s1 in
      let at_p : s3 p ≡ some n1 =
        put-other first p n3 s2 (λ e. ne (sym e))
        ∙ put-other t p n2 s1 (λ e. ne_t (sym e))
        ∙ put_self p n1 b.store in
      let tail : Linked s3 first es (some p) =
        Linked-append s3 first xs ((t, u) ∷ []) (some p) links3 (at_t, tt) in
      let whole : Linked s3 first (es ++ (p, v) ∷ []) none =
        Linked-append s3 first es ((p, v) ∷ []) none tail (
          at_p
              ∙ ap (λ q. some (record { value = v; prev = some q; next = none }))
                  (sym (last_of-append first xs t u)),
          tt,
        ) in
      record {
        list = record { store = s3; header = some first; count = (b.count + 1) % size_mod };
        ends =
            push_back-store p first t v front' last front' b r.begins small ne ne_t created at_front
              refl end.0
              (put-other t first n2 s1 back ∙ put-other p first n1 b.store ne ∙ at_front);
        represents = record {
          begins = refl;
          counts = omega (arith, r.counts, length-append es ((p, v) ∷ []));
          fits = omega (arith, length-append es ((p, v) ∷ []));
          distinct = Distinct-append ((first, w) ∷ es) p v r.distinct (ne, fresh);
          linked = (
            put_self first n3 s2
                ∙ ap (λ q. some (record { value = w; prev = some q; next = first_of es none }))
                    (sym (last_of-append first es p v))
                ∙ ap
                    (λ q. some (record {
                      value = w;
                      prev = some (last_of first (es ++ (p, v) ∷ []));
                      next = q;
                    }))
                    (first_of-append xs (t, u) ((p, v) ∷ []) none),
            whole,
          );
        };
      }

  -- `push_back` of a new node, whose address none of the list's nodes has, puts it behind them.
  pub push_back-Leaves :
      (p : ℕ) (v : T) (b : Blist T) (es : Nodes T)
      → Represents b es
      → b.store p ≡ some (record { value = v; prev = none; next = none })
      → Fresh p es
      → length es + 1 < size_mod
      → Leaves (es ++ (p, v) ∷ []) (push_back p b)
  push_back-Leaves p v b [] r created fresh room = record {
    list = record {
      store = put p (record { value = v; prev = some p; next = none }) b.store;
      header = some p;
      count = 1;
    };
    ends = push_back-empty p v b r.begins created;
    represents = one-Represents p v b.store;
  }
  push_back-Leaves p v b ((first, w) ∷ []) r created (ne, fresh) room =
      push_back-single p first v w b r created ne
  push_back-Leaves p v b ((first, w) ∷ e ∷ es) r created fresh room =
      let (xs, (t, u), same) = snoc_view e es in
      subst (λ ds. Leaves (((first, w) ∷ ds) ++ (p, v) ∷ []) (push_back p b)) (sym same)
        (push_back-many p first t v w u xs b (subst (λ ds. Represents b ((first, w) ∷ ds)) same r)
          created (subst (λ ds. Fresh p ((first, w) ∷ ds)) same fresh)
          (subst (λ ds. length ((first, w) ∷ ds) + 1 < size_mod) same room))
