-- ===== src/Algo/TreeHashTable/Bag.antt =====
-- The values of a tree in the order in which they move: the same entries as in the tree's own order.
use mmkvc.Prelude.{
  ◌+◌, ◌≤◌, ◌≡◌, refl, sym, ap, ◌∙◌, Bool, Bool-cases, inl, inr, List, [], ◌∷◌, ◌++◌, length,
  length-append, arith,
}
use mmkvc.Algo.Keyed.{Keyed}
use mmkvc.Algo.Slist.{search_if}
use mmkvc.Algo.AvlTree.Node.{Tree, leaf, node}
use mmkvc.Algo.AvlTree.Inorder.{inorder}
use mmkvc.Algo.AvlTree.Visit.{postorder}
use mmkvc.Algo.HashTable.{has_key}
use mmkvc.Algo.HashTable.Chain.{to_nat, count, search_if-eq-none}
use mmkvc.Algo.HashTable.Move.{or_else, or_else-none}

module _ {T : Type 0} ⦃key : Keyed T⦄ where
  open key use {Key}

  pub count-append : (q : Key) (xs ys : List T) → count q (xs ++ ys) ≡ count q xs + count q ys
  unfolding count
  count-append q [] ys = omega arith
  count-append q (x ∷ xs) ys = omega (arith, count-append q xs ys)

  count_one : (q : Key) (x : T) → count q (x ∷ []) ≡ to_nat (has_key q x)
  unfolding count
  count_one q x = omega arith

  count_cons :
      (q : Key) (x : T) (xs : List T) → count q (x ∷ xs) ≡ to_nat (has_key q x) + count q xs
  unfolding count
  count_cons q x xs = refl

  pub search_if-append :
      (p : T → Bool) (xs ys : List T)
      → search_if p (xs ++ ys) ≡ or_else (search_if p xs) (search_if p ys)
  unfolding search_if
  search_if-append p [] ys = refl
  search_if-append p (x ∷ xs) ys = elim (Bool-cases (p x)) [
    | inl hit ↦ rw hit refl
    | inr miss ↦ rw miss (search_if-append p xs ys)
  ]

  -- Two lists with the same entries: a key that occurs once is found in both alike.
  pub record Reordered (xs ys : List T) : Type 0 where
    pub long : length xs ≡ length ys
    pub counts : (q : Key) → count q xs ≡ count q ys
    pub finds : (q : Key) → count q xs ≤ 1 → search_if (has_key q) xs ≡ search_if (has_key q) ys

  last_first :
      (q : Key) (v : T) (r : List T)
      → to_nat (has_key q v) + count q r ≤ 1
      → search_if (has_key q) (v ∷ r)
        ≡ or_else (search_if (has_key q) r) (search_if (has_key q) (v ∷ []))
  unfolding search_if
  last_first q v r one = elim (Bool-cases (has_key q v)) [
    | inl hit ↦ rw hit (ground (arith, search_if-eq-none q r))
    | inr miss ↦ rw miss (sym (or_else-none (search_if (has_key q) r)))
  ]

  pub postorder-Reordered : (t : Tree T) → Reordered (inorder t) (postorder t)
  postorder-Reordered leaf = record { long = refl; counts = λ q. refl; finds = λ q one. refl }
  postorder-Reordered (node h l v r) =
      let bl = postorder-Reordered l in
      let br = postorder-Reordered r in
      record {
        long = long bl.long br.long;
        counts = λ q. counts q (bl.counts q) (br.counts q);
        finds = λ q one.
            let parts = split q one in
            search_if-append (has_key q) (inorder l) (v ∷ inorder r)
            ∙ ap (or_else (search_if (has_key q) (inorder l)))
                (last_first q v (inorder r) (omega (arith, parts)))
            ∙ ap
                (λ a.
                  or_else a
                    (or_else (search_if (has_key q) (inorder r)) (search_if (has_key q) (v ∷ []))))
                (bl.finds q (omega (arith, parts)))
            ∙ ap
                (λ b.
                  or_else (search_if (has_key q) (postorder l))
                    (or_else b (search_if (has_key q) (v ∷ []))))
                (br.finds q (omega (arith, parts)))
            ∙ sym (
                search_if-append (has_key q) (postorder l) (postorder r ++ v ∷ [])
                ∙ ap (or_else (search_if (has_key q) (postorder l)))
                    (search_if-append (has_key q) (postorder r) (v ∷ [])));
      }
    where
      long :
          length (inorder l) ≡ length (postorder l)
          → length (inorder r) ≡ length (postorder r)
          → length (inorder (node h l v r)) ≡ length (postorder (node h l v r))
      long a b = omega (
        arith,
        length-append (inorder l) (v ∷ inorder r),
        length-append (postorder l) (postorder r ++ v ∷ []),
        length-append (postorder r) (v ∷ []),
      )

      split :
          (q : Key)
          → count q (inorder (node h l v r)) ≤ 1
          → count q (inorder l) + (to_nat (has_key q v) + count q (inorder r)) ≤ 1
      split q one =
          omega (arith, count-append q (inorder l) (v ∷ inorder r), count_cons q v (inorder r))

      counts :
          (q : Key)
          → count q (inorder l) ≡ count q (postorder l)
          → count q (inorder r) ≡ count q (postorder r)
          → count q (inorder (node h l v r)) ≡ count q (postorder (node h l v r))
      counts q a b = omega (
        arith,
        count-append q (inorder l) (v ∷ inorder r),
        count_cons q v (inorder r),
        count_one q v,
        count-append q (postorder l) (postorder r ++ v ∷ []),
        count-append q (postorder r) (v ∷ []),
      )
