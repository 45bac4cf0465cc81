-- ===== src/Algo/HashSet/Operations.antt =====
-- What the set operations call their callback on, and what `EraseRandom` leaves.
use mmkvc.Prelude.{
  ◌≡◌, refl, sym, ap, fun_ext, ◌∙◌, inl, inr, Bool, true, false, Bool-cases, if◌then◌else◌, ltb,
  List, [], ◌∷◌, ◌++◌, foldl, Option, none, some,
}
use mathlib.Core.List.{foldl-append}
use mmkvc.Algo.Keyed.{Keyed}
use mmkvc.Algo.HashTable.{HashTable, size, find}
use mmkvc.Algo.HashTable.Valid.{IsValid, view, Keeps, Keeps-refl, Keeps-trans}
use mmkvc.Algo.HashTable.Search.{find-Search}
use mmkvc.Algo.TableIterator.Entries.{entries_of, visit-entries_of}
use mmkvc.Algo.HashSet.{
  for_each, less_set, more_set, search_round, union_sets, intersection, difference,
}

module _ {T : Type 0} ⦃key : Keyed T⦄ where
  open key use {Key, get_key}

  -- the entries whose keys a map has, or, if `wanted` is false, those whose keys it has not
  abbrev pub selected : Bool → (Key → Option T) → List T → List T
  selected wanted m [] = []
  selected wanted m (x ∷ xs) = elim (m (get_key x)) [
    | some v ↦ if wanted then x ∷ selected wanted m xs else selected wanted m xs
    | none ↦ if wanted then selected wanted m xs else x ∷ selected wanted m xs
  ]

  abbrev called : {S : Type 0} → Bool → (S → T → S) → S → T → Option T → S
  called wanted cb s m o = elim o [
    | some v ↦ if wanted then cb s m else s
    | none ↦ if wanted then s else cb s m
  ]

  search_round-called :
      {S : Type 0} (wanted : Bool) (cb : S → T → S) (h : HashTable T) (s : S) (m : T)
      → IsValid h
      → search_round wanted cb (h, s) m
        ≡ ((find (get_key m) h).1, called wanted cb s m (view h (get_key m)))
  unfolding search_round
  search_round-called {S = S} wanted cb h s m v =
      by_answer (find (get_key m) h).0 ∙ ap pair (find-Search (get_key m) h v).answers
    where
      pair : Option T → HashTable T × S
      pair o = ((find (get_key m) h).1, called wanted cb s m o)

      by_answer :
          (o : Option T)
          → (elim o as (λ y. HashTable T × S) [
            | some x ↦ ((find (get_key m) h).1, if wanted then cb s m else s)
            | none ↦ ((find (get_key m) h).1, if wanted then s else cb s m)
          ])
            ≡ pair o
      by_answer none = refl
      by_answer (some x) = refl

  foldl-selected :
      {S : Type 0} (wanted : Bool) (cb : S → T → S) (s : S) (m : Key → Option T) (x : T)
      (xs : List T)
      → foldl cb (called wanted cb s x (m (get_key x))) (selected wanted m xs)
        ≡ foldl cb s (selected wanted m (x ∷ xs))
  foldl-selected wanted cb s m x xs = by_value wanted (m (get_key x))
    where
      by_value :
          (b : Bool) (o : Option T)
          → foldl cb (called b cb s x o) (selected wanted m xs)
            ≡ foldl cb s (elim o [
              | some v ↦ if b then x ∷ selected wanted m xs else selected wanted m xs
              | none ↦ if b then selected wanted m xs else x ∷ selected wanted m xs
            ])
      by_value true none = refl
      by_value true (some v) = refl
      by_value false none = refl
      by_value false (some v) = refl

  -- What a loop with `Find` does: callbacks on the selected entries, and a searched set that holds
  -- what it held.
  record Selected {S : Type 0} (cb : S → T → S) (s : S) (xs : List T) (h : HashTable T)
      (out : HashTable T × S) : Type 0 where
    callbacks : out.1 ≡ foldl cb s xs
    keeps : Keeps h out.0

  foldl-Selected :
      {S : Type 0} (wanted : Bool) (cb : S → T → S) (xs : List T) (h : HashTable T) (s : S)
      → IsValid h
      → Selected cb s (selected wanted (view h) xs) h (foldl (search_round wanted cb) (h, s) xs)
  foldl-Selected wanted cb [] h s v = record { callbacks = refl; keeps = Keeps-refl h v }
  foldl-Selected wanted cb (x ∷ xs) h s v =
      let k = (find-Search (get_key x) h v).keeps in
      let left = (find (get_key x) h).1 in
      let s' = called wanted cb s x (view h (get_key x)) in
      let rest = foldl-Selected wanted cb xs left s' k.valid in
      rw (search_round-called wanted cb h s x v) (record {
        callbacks =
            rest.callbacks
            ∙ ap (λ m. foldl cb s' (selected wanted m xs)) (fun_ext k.views)
            ∙ foldl-selected wanted cb s (view h) x xs;
        keeps = Keeps-trans h left _ k rest.keeps;
      })

  -- What is asked of a set operation: it ends, with callbacks on the entries `xs` in their order, and
  -- the set `h` that was searched holds what it held.
  pub record Calls {S : Type 0} (cb : S → T → S) (s : S) (xs : List T) (h : HashTable T)
      (out : Option (HashTable T × S)) : Type 0 where
    pub searched : HashTable T
    pub ends : out ≡ some (searched, foldl cb s xs)
    pub keeps : Keeps h searched

  for_each-Calls :
      {S : Type 0} (wanted : Bool) (cb : S → T → S) (s : S) (less more : HashTable T)
      → IsValid less
      → IsValid more
      → Calls cb s
          (selected wanted (view more) (entries_of less))
          more
          (for_each (search_round wanted cb) (more, s) less)
  for_each-Calls wanted cb s less more v1 v2 =
      let ends = (visit-entries_of (search_round wanted cb) (more, s) less v1).0 in
      let l = foldl-Selected wanted cb (entries_of less) more s v2 in
      let out = foldl (search_round wanted cb) (more, s) (entries_of less) in
      record {
        searched = out.0;
        ends = ends ∙ ap (λ x. some (out.0, x)) l.callbacks;
        keeps = l.keeps;
      }

  union-Calls :
      {S : Type 0} (cb : S → T → S) (s : S) (less more : HashTable T)
      → IsValid less
      → IsValid more
      → Calls cb s
          (entries_of more ++ selected false (view more) (entries_of less))
          more
          (elim (for_each cb s more) [
            | none ↦ none
            | some s' ↦ for_each (search_round false cb) (more, s') less
          ])
  union-Calls cb s less more v1 v2 =
      let s' = foldl cb s (entries_of more) in
      let first = (visit-entries_of cb s more v2).0 in
      let c = for_each-Calls false cb s' less more v1 v2 in
      rw first (record {
        searched = c.searched;
        ends =
            c.ends
            ∙ ap (λ x. some (c.searched, x))
                (sym (
                  foldl-append cb s (entries_of more)
                    (selected false (view more) (entries_of less))));
        keeps = c.keeps;
      })

  sets-IsValid :
      (this hs : HashTable T)
      → IsValid this
      → IsValid hs
      → IsValid (less_set this hs) × IsValid (more_set this hs)
  sets-IsValid this hs v1 v2 = elim (Bool-cases (ltb (size this) (size hs))) [
    | inl fewer ↦ rw fewer (v1, v2)
    | inr as_many ↦ rw as_many (v2, v1)
  ]

  -- On two valid sets that are different objects, each set operation ends, and the set that it
  -- searches holds what it held. With `less` the set with fewer entries (the other one if they
  -- have as many) and `more` the other one, `union_sets` calls its callback on the entries of
  -- `more` and then on those of `less` whose keys `more` has not, `intersection` on the entries of
  -- `less` whose keys `more` has, and `difference` on the entries of its set whose keys the other
  -- set has not.
  pub set_operations-Calls :
      {S : Type 0} (cb : S → T → S) (s : S) (this hs : HashTable T)
      → IsValid this
      → IsValid hs
      → let less = less_set this hs in
        let more = more_set this hs in
        Calls cb s
          (entries_of more ++ selected false (view more) (entries_of less))
          more
          (union_sets cb s this hs)
        × Calls cb s (selected true (view more) (entries_of less)) more (intersection cb s this hs)
        × Calls cb s (selected false (view hs) (entries_of this)) hs (difference cb s this hs)
  unfolding union_sets intersection difference
  set_operations-Calls cb s this hs v1 v2 =
      let less = less_set this hs in
      let more = more_set this hs in
      let (v, w) = sets-IsValid this hs v1 v2 in
      (
        union-Calls cb s less more v w,
        for_each-Calls true cb s less more v w,
        for_each-Calls false cb s this hs v1 v2,
      )
