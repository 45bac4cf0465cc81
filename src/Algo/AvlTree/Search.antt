-- ===== src/Algo/AvlTree/Search.antt =====
-- `LowerBound` and `UpperBound` of mmkv/algo/internal/avl_tree_base_impl.h against searches in the sorted list
-- of a tree's values.
use mmkvc.Prelude.{◌≡◌, refl, sym, ap, ◌∙◌, inl, inr, List, ◌∷◌, ◌++◌, Option, none, some}
use Prim.Native.Nat.Ordering.{lt}
use mmkvc.Algo.Ordered.{Ordered}
use mmkvc.Algo.Ordered.Sorted.{
  All, All-imp, Below, Below-congr, IsSorted, IsSorted-split, IsSorted-parts,
}
use mmkvc.Algo.Ordered.Reference.{
  first_from, first_from-Below, first_from-append, first_above, first_above-Below,
  first_above-append,
}
use mmkvc.Algo.AvlTree.Node.{Tree, leaf, node}
use mmkvc.Algo.AvlTree.Inorder.{inorder}
use mmkvc.Algo.AvlTree.Locate.{Ordering-cases}
use mmkvc.Algo.AvlTree.Ops.{AvlTree, lower_bound_from, lower_bound, upper_bound_from, upper_bound}

module _ {V : Type 0} ⦃o : Ordered V⦄ where
  open o use {Key, get_key, cmp, cmp_trans}

  -- the first answer that there is
  abbrev or_else : Option V → Option V → Option V
  or_else none b = b
  or_else (some x) b = some x

  or_else_assoc : (a b c : Option V) → or_else (or_else a b) c ≡ or_else a (or_else b c)
  or_else_assoc none b c = refl
  or_else_assoc (some x) b c = refl

  joined_by : (m n : Option V) → (elim m [ some x ↦ some x | none ↦ n ]) ≡ or_else m n
  joined_by none n = refl
  joined_by (some x) n = refl

  first_from_or :
      (k : Key) (xs ys : List V)
      → first_from k (xs ++ ys) ≡ or_else (first_from k xs) (first_from k ys)
  first_from_or k xs ys = first_from-append k xs ys ∙ joined_by (first_from k xs) (first_from k ys)

  -- what is below an entry that is not above the key is below the key
  skipped-All :
      (k : Key) (v : V) (xs : List V)
      → All (Below (get_key v)) xs
      → cmp (get_key v) k ≡ lt
      → All (Below k) xs
  skipped-All k v xs low b =
      All-imp (Below (get_key v)) (Below k) (λ x a. cmp_trans (get_key x) (get_key v) k a b) xs low

  lower_bound_from-first_from :
      (k : Key) (t : Tree V) (track : Option V)
      → IsSorted (inorder t)
      → lower_bound_from k t track ≡ or_else (first_from k (inorder t)) track
  unfolding lower_bound_from
  lower_bound_from-first_from k leaf track sorted = refl
  lower_bound_from-first_from k (node h l v r) track sorted =
      let (less, more) = IsSorted-split (inorder l) v (inorder r) sorted in
      let (left, right) = IsSorted-parts (inorder l) v (inorder r) sorted in
      let whole = first_from_or k (inorder l) (v ∷ inorder r) in
      let rest = or_else_assoc (first_from k (inorder l)) (some v) track in
      elim (Ordering-cases (cmp (get_key v) k)) [
        | inl below ↦
            let skip =
              first_from-Below k (inorder l) (v ∷ inorder r)
                (skipped-All k v (inorder l) less below) in
            rw (below, lower_bound_from)
              (lower_bound_from-first_from k r track right
                ∙ sym (ap (λ m. or_else m track) (skip ∙ rw (below, first_from) refl)))
        | inr (inl equal) ↦
            rw (equal, lower_bound_from)
              (lower_bound_from-first_from k l (some v) left
                ∙ sym rest
                ∙ sym (ap (λ m. or_else m track) (whole ∙ rw (equal, first_from) refl)))
        | inr (inr above) ↦
            rw (above, lower_bound_from)
              (lower_bound_from-first_from k l (some v) left
                ∙ sym rest
                ∙ sym (ap (λ m. or_else m track) (whole ∙ rw (above, first_from) refl)))
      ]

  or_else-none : (a : Option V) → or_else a none ≡ a
  or_else-none none = refl
  or_else-none (some x) = refl

  first_above_or :
      (k : Key) (xs ys : List V)
      → first_above k (xs ++ ys) ≡ or_else (first_above k xs) (first_above k ys)
  first_above_or k xs ys =
      first_above-append k xs ys ∙ joined_by (first_above k xs) (first_above k ys)

  upper_bound_from-first_above :
      (k : Key) (t : Tree V) (track : Option V)
      → IsSorted (inorder t)
      → upper_bound_from k t track ≡ or_else (first_above k (inorder t)) track
  unfolding upper_bound_from
  upper_bound_from-first_above k leaf track sorted = refl
  upper_bound_from-first_above k (node h l v r) track sorted =
      let (less, more) = IsSorted-split (inorder l) v (inorder r) sorted in
      let (left, right) = IsSorted-parts (inorder l) v (inorder r) sorted in
      let whole = first_above_or k (inorder l) (v ∷ inorder r) in
      let rest = or_else_assoc (first_above k (inorder l)) (some v) track in
      elim (Ordering-cases (cmp (get_key v) k)) [
        | inl below ↦
            let skip =
              first_above-Below k (inorder l) (v ∷ inorder r)
                (skipped-All k v (inorder l) less below) in
            rw (below, upper_bound_from)
              (upper_bound_from-first_above k r track right
                ∙ sym (ap (λ m. or_else m track) (skip ∙ rw (below, first_above) refl)))
        | inr (inl equal) ↦
            let low =
              All-imp (Below (get_key v)) (Below k) (λ x. Below-congr (get_key v) k x equal)
                (inorder l) less in
            let skip = first_above-Below k (inorder l) (v ∷ inorder r) low in
            rw (equal, upper_bound_from)
              (upper_bound_from-first_above k r track right
                ∙ sym (ap (λ m. or_else m track) (skip ∙ rw (equal, first_above) refl)))
        | inr (inr above) ↦
            rw (above, upper_bound_from)
              (upper_bound_from-first_above k l (some v) left
                ∙ sym rest
                ∙ sym (ap (λ m. or_else m track) (whole ∙ rw (above, first_above) refl)))
      ]

  -- In a tree with sorted values `lower_bound` answers with the first value whose key is not below
  -- the key asked for, `upper_bound` with the first whose key is above it, as the searches from
  -- the left in the list of values do.
  pub lower_bound-upper_bound_lem :
      (k : Key) (a : AvlTree V)
      → IsSorted (inorder a.root)
      → (lower_bound k a ≡ first_from k (inorder a.root))
        × (upper_bound k a ≡ first_above k (inorder a.root))
  unfolding lower_bound upper_bound
  lower_bound-upper_bound_lem k a sorted = (
    lower_bound_from-first_from k a.root none sorted ∙ or_else-none _,
    upper_bound_from-first_above k a.root none sorted ∙ or_else-none _,
  )
