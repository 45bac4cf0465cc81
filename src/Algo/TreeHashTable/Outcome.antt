-- ===== src/Algo/TreeHashTable/Outcome.antt =====
-- What an insertion into a table of trees answers and leaves, before the invariant of the trees.
use mmkvc.Prelude.{
  ℕ, ◌+◌, ◌≡◌, refl, sym, ap, subst, fun_ext, ◌∙◌, inl, inr, Option-cases, none, some,
}
use mmkvc.Algo.Ordered.Hashed.{Hashed, hashed_order, hashed_keyed}
use mmkvc.Algo.AvlTree.Ops.{AvlTree, Pushed, pushed, duplicate}
use mmkvc.Algo.AvlTree.Insert.{answer_by}
use mmkvc.Algo.HashTable.{HashTable, size}
use mmkvc.Algo.HashTable.Chain.{count}
use mmkvc.Algo.HashTable.KeyMap.{map_insert}
use mmkvc.Algo.HashTable.Valid.{IsValid, view}
use mmkvc.Algo.HashTable.Emplace.{Emplaced}
use mmkvc.Algo.TreeHashTable.{TreeHashTable, increase_used, settle}
use mmkvc.Algo.TreeHashTable.Chains.{chained}

module _ {V : Type 0} ⦃s : Hashed V⦄ where
  open s.order use {Key, get_key}

  -- What an insertion answers and leaves, in terms of the map of keys to entries.
  pub record Outcome (e : V) (c : HashTable V) (answer : Pushed V) (c' : HashTable V) : Type 0 where
    pub answers : answer ≡ answer_by duplicate (view c (get_key e))
    pub valid : IsValid c'
    pub views : (q : Key) → view c' q ≡ (map_insert e (view c)).1 q
    pub sizes : size c' ≡ (elim (view c (get_key e)) [ some old ↦ size c | none ↦ size c + 1 ])

  pub present-Outcome :
      (e old : V) (c c' : HashTable V)
      → IsValid c
      → view c (get_key e) ≡ some old
      → c' ≡ c
      → Outcome e c (duplicate old) c'
  unfolding map_insert
  present-Outcome e old c c' v there same = subst (Outcome e c (duplicate old)) (sym same) (record {
    answers = rw there refl;
    valid = v;
    views = λ q. rw (map_insert, there) refl;
    sizes = rw there refl;
  })

  absent-Outcome :
      (e : V) (c c' : HashTable V)
      → view c (get_key e) ≡ none
      → Emplaced e c c'
      → Outcome e c pushed c'
  unfolding map_insert
  absent-Outcome e c c' absent done = record {
    answers = rw absent refl;
    valid = done.valid;
    views = λ q. rw (map_insert, absent) (done.views q);
    sizes = rw absent done.sizes;
  }

  -- The count goes up where an entry came in, and there only.
  pub settle-Outcome :
      (e : V) (ready : TreeHashTable V) (out : Pushed V × AvlTree V)
      (put : AvlTree V → TreeHashTable V)
      → IsValid (chained ready)
      → out.0 ≡ answer_by duplicate (view (chained ready) (get_key e))
      → ((old : V)
          → view (chained ready) (get_key e) ≡ some old
          → chained (put out.1) ≡ chained ready)
      → (view (chained ready) (get_key e) ≡ none
          → Emplaced e (chained ready) (chained (increase_used (put out.1))))
      → Outcome e (chained ready) (settle s.hash out put).0 (chained (settle s.hash out put).1)
  unfolding settle
  settle-Outcome e ready (answer, b) put v answers stays grows =
      let done = λ (a : Pushed V).
        Outcome e (chained ready) (settle s.hash (a, b) put).0
          (chained (settle s.hash (a, b) put).1) in
      elim (Option-cases (view (chained ready) (get_key e))) [
        | inl absent ↦ subst done (sym (answers ∙ ap (answer_by duplicate) absent)) (
            absent-Outcome e (chained ready) (chained (increase_used (put b))) absent
              (grows absent))
        | inr (old, there) ↦
            subst done (sym (answers ∙ ap (answer_by duplicate) there))
              (present-Outcome e old (chained ready) (chained (put b)) v there (stays old there))
      ]

  -- An outcome depends on the map and on the size alone.
  pub Outcome-seen :
      (e : V) (d c : HashTable V) (answer : Pushed V) (c' : HashTable V)
      → ((q : Key) → view c q ≡ view d q)
      → size c ≡ size d
      → Outcome e c answer c'
      → Outcome e d answer c'
  Outcome-seen e d c answer c' same count o =
      let k = get_key e in
      record {
        answers = o.answers ∙ ap (answer_by duplicate) (same k);
        valid = o.valid;
        views = λ q. o.views q ∙ ap (λ m. (map_insert e m).1 q) (fun_ext same);
        sizes =
            o.sizes
            ∙ ap (λ x. elim x as (λ y. ℕ) [ some old ↦ size c | none ↦ size c + 1 ]) (same k)
            ∙ ap (λ n. elim (view d k) as (λ y. ℕ) [ some old ↦ n | none ↦ n + 1 ]) count;
      }
