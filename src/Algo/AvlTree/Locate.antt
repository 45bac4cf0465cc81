-- ===== src/Algo/AvlTree/Locate.antt =====
-- Where the walk down the tree ends, in a tree whose values are sorted.
use mmkvc.Prelude.{
  ℕ, ◌≡◌, refl, sym, ap, subst, ◌∙◌, ◌⊎◌, inl, inr, List, [], ◌∷◌, ◌++◌, append_assoc, append-nil,
  none, some,
}
use Prim.Native.Nat.{Ordering}
use Prim.Native.Nat.Ordering.{lt, eq, gt}
use mmkvc.Algo.Ordered.{Ordered}
use mmkvc.Algo.Ordered.Sorted.{
  All, All-append, All-split, All-imp, Below, Above, IsSorted, find_in, Above-trans, IsSorted-split,
  Below-congr, find_in-Below, find_in-Above,
}
use mmkvc.Algo.AvlTree.Node.{Tree, leaf, node, Step, left_of, right_of}
use mmkvc.Algo.AvlTree.Inorder.{inorder, before, after, around, around-plug}
use mmkvc.Algo.AvlTree.Ops.{AvlTree, locate, value_of, find}

pub Ordering-cases : (c : Ordering) → (c ≡ lt) ⊎ ((c ≡ eq) ⊎ (c ≡ gt))
Ordering-cases lt = inl refl
Ordering-cases eq = inr (inl refl)
Ordering-cases gt = inr (inr refl)

module _ {V : Type 0} ⦃o : Ordered V⦄ where
  open o use {Key, get_key, cmp, cmp_trans}

  -- the node of the key, or an empty slot
  abbrev pub StopsAt : Key → Tree V → Type 0
  StopsAt k leaf = Unit
  StopsAt k (node h l v r) = cmp (get_key v) k ≡ eq

  -- What the walk to `k` finds and leaves on both sides.
  pub record Located (k : Key) (whole : List V) (t : Tree V) (p : List (Step V)) : Type 0 where
    pub same : around p (inorder t) ≡ whole
    pub low : All (Below k) (before p)
    pub high : All (Above k) (after p)
    pub stops : StopsAt k t

  -- The focus's value in the middle of the others.
  around-node :
      (h : ℕ) (l : Tree V) (v : V) (r : Tree V) (p : List (Step V))
      → around p (inorder (node h l v r)) ≡ (before p ++ inorder l) ++ v ∷ (inorder r ++ after p)
  around-node h l v r p = simp (append_assoc)

  locate-Located :
      (k : Key) (t : Tree V) (p : List (Step V))
      → IsSorted (around p (inorder t))
      → All (Below k) (before p)
      → All (Above k) (after p)
      → Located k (around p (inorder t)) (locate k t p).0 (locate k t p).1
  unfolding locate
  locate-Located k leaf p sorted low high = record {
    same = refl;
    low = low;
    high = high;
    stops = tt;
  }
  locate-Located k (node h l v r) p sorted low high =
      let middle = around-node h l v r p in
      let (less, more) =
        IsSorted-split (before p ++ inorder l) v (inorder r ++ after p)
          (subst IsSorted middle sorted) in
      elim (Ordering-cases (cmp (get_key v) k)) [
        | inl below ↦
            let step = around-plug (right_of l h v) p r in
            let found =
              locate-Located k r (right_of l h v ∷ p) (subst IsSorted step sorted)
                (All-append (Below k) (before p) (inorder l ++ v ∷ []) low (
                  All-append (Below k) (inorder l) (v ∷ [])
                    (All-imp (Below (get_key v)) (Below k)
                      (λ x a. cmp_trans (get_key x) (get_key v) k a below) (inorder l)
                      (All-split (Below (get_key v)) (before p) (inorder l) less).1)
                    (below, tt)))
                high in
            rw (below, locate)
              (subst
                (λ w.
                  Located k w (locate k r (right_of l h v ∷ p)).0
                    (locate k r (right_of l h v ∷ p)).1)
                (sym step) found)
        | inr (inl equal) ↦
            rw (equal, locate) (record { same = refl; low = low; high = high; stops = equal })
        | inr (inr above) ↦
            let step = around-plug (left_of h v r) p l in
            let found = locate-Located k l (left_of h v r ∷ p) (subst IsSorted step sorted) low (
              above,
              All-imp (Above (get_key v)) (Above k) (λ x a. Above-trans k v x above a)
                  (inorder r ++ after p) more,
            ) in
            rw (above, locate)
              (subst
                (λ w.
                  Located k w (locate k l (left_of h v r ∷ p)).0 (locate k l (left_of h v r ∷ p)).1)
                (sym step) found)
      ]

  -- A node that was found cuts the values at its key.
  pub record Cut (k : Key) (whole : List V) (l : Tree V) (v : V) (r : Tree V) (p : List (Step V))
      : Type 0 where
    pub middle : (before p ++ inorder l) ++ v ∷ (inorder r ++ after p) ≡ whole
    pub less : All (Below k) (before p ++ inorder l)
    pub same_key : cmp (get_key v) k ≡ eq

  pub Located-Cut :
      (k : Key) (whole : List V) (h : ℕ) (l : Tree V) (v : V) (r : Tree V) (p : List (Step V))
      → IsSorted whole
      → Located k whole (node h l v r) p
      → Cut k whole l v r p
  Located-Cut k whole h l v r p sorted f =
      let middle = sym (around-node h l v r p) ∙ f.same in
      let (less, more) =
        IsSorted-split (before p ++ inorder l) v (inorder r ++ after p)
          (subst IsSorted (sym middle) sorted) in
      record {
        middle = middle;
        less =
            All-imp (Below (get_key v)) (Below k) (λ x. Below-congr (get_key v) k x f.stops)
              (before p ++ inorder l) less;
        same_key = f.stops;
      }

  find_in-hit :
      (k : Key) (xs : List V) (v : V) (ys : List V)
      → All (Below k) xs
      → cmp (get_key v) k ≡ eq
      → find_in k (xs ++ v ∷ ys) ≡ some v
  find_in-hit k xs v ys low e = find_in-Below k xs (v ∷ ys) low ∙ rw e refl

  -- What the search in the tree and the search in the sorted list find is the same.
  pub Located-find_in :
      (k : Key) (whole : List V) (t : Tree V) (p : List (Step V))
      → IsSorted whole
      → Located k whole t p
      → value_of t ≡ find_in k whole
  Located-find_in k whole leaf p sorted f =
      subst (λ w. none ≡ find_in k w) f.same
        (sym (find_in-Below k (before p) (after p) f.low ∙ find_in-Above k (after p) f.high))
  Located-find_in k whole (node h l v r) p sorted f =
      let c = Located-Cut k whole h l v r p sorted f in
      sym (find_in-hit k (before p ++ inorder l) v (inorder r ++ after p) c.less c.same_key)
      ∙ ap (find_in k) c.middle

  pub locate-root :
      (k : Key) (t : Tree V)
      → IsSorted (inorder t)
      → Located k (inorder t) (locate k t []).0 (locate k t []).1
  locate-root k t sorted =
      let whole : around [] (inorder t) ≡ inorder t = append-nil (inorder t) in
      subst (λ w. Located k w (locate k t []).0 (locate k t []).1) whole
        (locate-Located k t [] (subst IsSorted (sym whole) sorted) tt tt)

  -- `find` in a tree with sorted values finds the entry with the key, if there is one, and none
  -- otherwise.
  pub find-eq-find_in :
      (k : Key) (a : AvlTree V) → IsSorted (inorder a.root) → find k a ≡ find_in k (inorder a.root)
  unfolding find
  find-eq-find_in k a sorted =
      Located-find_in k (inorder a.root) (locate k a.root []).0 (locate k a.root []).1 sorted
        (locate-root k a.root sorted)
