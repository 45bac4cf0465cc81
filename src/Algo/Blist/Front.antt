-- ===== src/Algo/Blist/Front.antt =====
-- `PushFront`.
use mmkvc.Prelude.{
  ℕ, suc, ◌+◌, ◌%◌, ◌<◌, ◌≡◌, ◌≢◌, refl, sym, ◌∙◌, false, ltb, [], ◌∷◌, length, Option, none, some,
  arith,
}
use mmkvc.Algo.HashTable.{size_mod, no_index}
use mmkvc.Algo.Blist.{BNode, Store, Blist, put, push_front}
use mmkvc.Algo.Blist.Linked.{
  set_next-at, set_prev-at, bind_some, Nodes, first_of, last_of, Fresh, Represents, put-other,
  put_self, Linked-put, Leaves,
}

pub room_left : (n m : ℕ) → n ≡ m → m + 1 < size_mod → ltb no_index n ≡ false
room_left n m e h = ground arith

module _ {T : Type 0} where
  push_front-store :
      (p first tail : ℕ) (v w : T) (b : Blist T) (after : Option ℕ)
      → b.header ≡ some first
      → ltb no_index b.count ≡ false
      → p ≢ first
      → b.store p ≡ some (record { value = v; prev = none; next = none })
      → b.store first ≡ some (record { value = w; prev = some tail; next = after })
      → push_front p b
        ≡ some (
          1,
          record {
            store =
                put first
                  (record { value = w; prev = some p; next = after })
                  (put p
                    (record { value = v; prev = some tail; next = some first })
                    (put p (record { value = v; prev = none; next = some first }) b.store));
            header = some p;
            count = (b.count + 1) % size_mod;
          },
        )
  unfolding push_front
  push_front-store p first tail v w b after header small ne created at =
      let n1 : BNode T = record { value = v; prev = none; next = some first } in
      let s1 = put p n1 b.store in
      let n2 : BNode T = record { value = v; prev = some tail; next = some first } in
      let s2 = put p n2 s1 in
      let at1 = put-other p first n1 b.store ne ∙ at in
      let at2 = put-other p first n2 s1 ne ∙ at1 in
      rw (header, push_front)
        (rw (small, push_front)
          (bind_some _ _ _ _ (set_next-at p (some first) b.store _ created) (
            bind_some _ _ _ _ at1 (
              bind_some _ _ _ _ (set_prev-at p (some tail) s1 n1 (put_self p n1 b.store))
                (bind_some _ _ _ _ (set_prev-at first (some p) s2 _ at2) refl)))))

  push_front-empty :
      (p : ℕ) (v : T) (b : Blist T)
      → b.header ≡ none
      → b.store p ≡ some (record { value = v; prev = none; next = none })
      → push_front p b
        ≡ some (
          1,
          record {
            store = put p (record { value = v; prev = some p; next = none }) b.store;
            header = some p;
            count = 1;
          },
        )
  unfolding push_front
  push_front-empty p v b header created =
      rw (header, push_front)
        (bind_some _ _ _ _ (bind_some _ _ _ _ (set_prev-at p (some p) b.store _ created) refl) refl)

  pub one-Represents :
      (p : ℕ) (v : T) (s : Store T)
      → Represents
          (record {
            store = put p (record { value = v; prev = some p; next = none }) s;
            header = some p;
            count = 1;
          })
          ((p, v) ∷ [])
  one-Represents p v s = record {
    begins = refl;
    counts = refl;
    fits = omega arith;
    distinct = (tt, tt);
    linked = (put_self p (record { value = v; prev = some p; next = none }) s, tt);
  }

  -- `push_front` of a new node, whose address none of the list's nodes has, puts it in front of them.
  pub push_front-Leaves :
      (p : ℕ) (v : T) (b : Blist T) (es : Nodes T)
      → Represents b es
      → b.store p ≡ some (record { value = v; prev = none; next = none })
      → Fresh p es
      → length es + 1 < size_mod
      → Leaves ((p, v) ∷ es) (push_front p b)
  push_front-Leaves p v b [] r created fresh room = record {
    list = record {
      store = put p (record { value = v; prev = some p; next = none }) b.store;
      header = some p;
      count = 1;
    };
    ends = push_front-empty p v b r.begins created;
    represents = one-Represents p v b.store;
  }
  push_front-Leaves p v b ((first, w) ∷ es) r created (ne, fresh) room =
      let tail = last_of first es in
      let after = first_of es none in
      let small : ltb no_index b.count ≡ false =
        room_left b.count (suc (length es)) r.counts room in
      let n1 : BNode T = record { value = v; prev = none; next = some first } in
      let n2 : BNode T = record { value = v; prev = some tail; next = some first } in
      let n3 : BNode T = record { value = w; prev = some p; next = after } in
      let s1 = put p n1 b.store in
      let s2 = put p n2 s1 in
      record {
        list = record {
          store = put first n3 s2;
          header = some p;
          count = (b.count + 1) % size_mod;
        };
        ends = push_front-store p first tail v w b after r.begins small ne created r.linked.0;
        represents = record {
          begins = refl;
          counts = omega (arith, r.counts);
          fits = omega arith;
          distinct = ((ne, fresh), r.distinct);
          linked = (
            put-other first p n3 s2 (λ e. ne (sym e)) ∙ put_self p n2 s1,
            (
              put_self first n3 s2,
              Linked-put first n3 s2 first es none r.distinct.0 (
                  Linked-put p n2 s1 first es none fresh
                    (Linked-put p n1 b.store first es none fresh r.linked.1)),
            ),
          );
        };
      }
