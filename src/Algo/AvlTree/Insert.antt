-- ===== src/Algo/AvlTree/Insert.antt =====
-- What insertion and extraction do to the values of a tree, against sorted lists.
use mmkvc.Prelude.{
  ℕ, ◌≡◌, refl, sym, ap, subst, ◌∙◌, inl, inr, List, [], ◌++◌, append_assoc, Option, none, some,
}
use mmkvc.Algo.Ordered.{Ordered, flip}
use mmkvc.Algo.Ordered.Sorted.{IsSorted, find_in, IsSorted-with, IsSorted-without}
use mmkvc.Algo.Ordered.Reference.{
  insert_in, insert_in-cut, insert_in-hit, erase_in, erase_in-hit, erase_in-miss,
}
use mmkvc.Algo.AvlTree.Node.{Tree, leaf, node, Step, insert_fixup, erase_node}
use mmkvc.Algo.AvlTree.Inorder.{inorder, before, after, inorder-insert_fixup, inorder-erase_node}
use mmkvc.Algo.AvlTree.Ops.{
  AvlTree, Pushed, pushed, duplicate, locate, attach, attach_at, extract_at, insert_at, insert,
  extract,
}
use mmkvc.Algo.AvlTree.Locate.{Located, Located-Cut, locate-root, Located-find_in, Ordering-cases}

module _ {V : Type 0} ⦃o : Ordered V⦄ where
  open o use {Key, get_key, cmp, cmp_flip}

  -- the answer of an insertion, by the entry that has the key
  abbrev pub answer_by : (V → Pushed V) → Option V → Pushed V
  answer_by f none = pushed
  answer_by f (some old) = f old

  abbrev pub map_value : Option (ℕ × V) → Option V
  map_value none = none
  map_value (some (h, v)) = some v

  -- What is asked of an insertion of `e` into a tree with the values `xs`.
  pub record Insertion (f : V → Pushed V) (e : V) (xs : List V) (out : Pushed V × AvlTree V)
      : Type 0 where
    pub answers : out.0 ≡ answer_by f (find_in (get_key e) xs)
    pub contents : inorder out.1.root ≡ insert_in e xs
    pub sorted : IsSorted (inorder out.1.root)

  attach_at-Insertion :
      (h : ℕ) (e : V) (a : AvlTree V) (place : Tree V) (p : List (Step V))
      → IsSorted (inorder a.root)
      → Located (get_key e) (inorder a.root) place p
      → Insertion duplicate e (inorder a.root) (attach_at h e a place p)
  unfolding attach_at
  attach_at-Insertion h e a leaf p sorted f =
      let none_found = Located-find_in (get_key e) (inorder a.root) leaf p sorted f in
      let contents : inorder (insert_fixup (node h leaf e leaf) p) ≡ insert_in e (inorder a.root) =
        inorder-insert_fixup (node h leaf e leaf) p
        ∙ sym (insert_in-cut e (before p) (after p) f.low f.high)
        ∙ ap (insert_in e) f.same in
      record {
        answers = ap (answer_by duplicate) none_found;
        contents = contents;
        sorted = subst IsSorted (sym (inorder-insert_fixup (node h leaf e leaf) p)) (
            IsSorted-with (before p) e (after p) (subst IsSorted (sym f.same) sorted) f.low f.high);
      }
  attach_at-Insertion h e a (node oh ol old or) p sorted f =
      let found = Located-find_in (get_key e) (inorder a.root) (node oh ol old or) p sorted f in
      let c = Located-Cut (get_key e) (inorder a.root) oh ol old or p sorted f in
      record {
        answers = ap (answer_by duplicate) found;
        contents = sym (
            sym (ap (insert_in e) c.middle)
            ∙ insert_in-hit e (before p ++ inorder ol) old (inorder or ++ after p) c.less c.same_key
            ∙ c.middle);
        sorted = sorted;
      }

  attach-Insertion :
      (h : ℕ) (e : V) (a : AvlTree V)
      → IsSorted (inorder a.root)
      → Insertion duplicate e (inorder a.root) (attach h e a)
  unfolding attach attach_at
  attach-Insertion h e a sorted =
      attach_at-Insertion h e a (locate (get_key e) a.root []).0 (locate (get_key e) a.root []).1
        sorted (locate-root (get_key e) a.root sorted)

  -- Only a root without children is answered for by `alone`.
  pub insert_at-Insertion :
      (h : ℕ) (e : V) (root : Tree V) (count : ℕ)
      → IsSorted (inorder root)
      → Insertion duplicate e (inorder root) (insert_at duplicate h e root count)
  unfolding insert_at
  insert_at-Insertion h e leaf count sorted = record {
    answers = refl;
    contents = refl;
    sorted = (tt, tt);
  }
  insert_at-Insertion h e (node rh leaf rv leaf) count sorted =
      let back = cmp_flip (get_key e) (get_key rv) in
      elim (Ordering-cases (cmp (get_key e) (get_key rv))) [
        | inl less ↦
            let more = back ∙ ap flip less in
            rw (less, insert_at)
              (record {
                answers = rw more refl;
                contents = rw more refl;
                sorted = ((more, tt), (tt, tt));
              })
        | inr (inl equal) ↦
            let same = back ∙ ap flip equal in
            rw (equal, insert_at)
              (record { answers = rw same refl; contents = rw same refl; sorted = sorted })
        | inr (inr more) ↦
            let less = back ∙ ap flip more in
            rw (more, insert_at)
              (record {
                answers = rw less refl;
                contents = rw less refl;
                sorted = ((more, tt), (tt, tt));
              })
      ]
  insert_at-Insertion h e (node rh (node lh ll lv lr) rv r) count sorted =
      attach-Insertion h e (record { root = node rh (node lh ll lv lr) rv r; count = count }) sorted
  insert_at-Insertion h e (node rh leaf rv (node h' l' v' r')) count sorted =
      attach-Insertion h e (record { root = node rh leaf rv (node h' l' v' r'); count = count })
        sorted

  -- `insert` into a tree with sorted values does what insertion into the sorted list of its values
  -- does: it answers with the entry that has the key and changes no value, or adds the new entry
  -- at its place; the values stay sorted.
  pub insert-Insertion_lem :
      (e : V) (a : AvlTree V)
      → IsSorted (inorder a.root)
      → Insertion duplicate e (inorder a.root) (insert e a)
  unfolding insert
  insert-Insertion_lem e a sorted = insert_at-Insertion 1 e a.root a.count sorted

  -- What is asked of an extraction of `k` from a tree with the values `xs`.
  pub record Extraction (k : Key) (xs : List V) (out : Option (ℕ × V) × AvlTree V) : Type 0 where
    pub answers : map_value out.0 ≡ find_in k xs
    pub contents : inorder out.1.root ≡ erase_in k xs
    pub sorted : IsSorted (inorder out.1.root)

  extract_at-Extraction :
      (k : Key) (a : AvlTree V) (place : Tree V) (p : List (Step V))
      → IsSorted (inorder a.root)
      → Located k (inorder a.root) place p
      → Extraction k (inorder a.root) (extract_at a place p)
  unfolding extract_at
  extract_at-Extraction k a leaf p sorted f =
      let none_found = Located-find_in k (inorder a.root) leaf p sorted f in
      record {
        answers = none_found;
        contents = sym (erase_in-miss k (inorder a.root) (sym none_found));
        sorted = sorted;
      }
  extract_at-Extraction k a (node h l v r) p sorted f =
      let found = Located-find_in k (inorder a.root) (node h l v r) p sorted f in
      let c = Located-Cut k (inorder a.root) h l v r p sorted f in
      let left : inorder (erase_node (node h l v r) p)
          ≡ (before p ++ inorder l) ++ (inorder r ++ after p) =
        inorder-erase_node h l v r p ∙ simp (append_assoc) in
      record {
        answers = found;
        contents =
            left
            ∙ sym
                (erase_in-hit k (before p ++ inorder l) v (inorder r ++ after p) c.less c.same_key)
            ∙ ap (erase_in k) c.middle;
        sorted = subst IsSorted (sym left) (
            IsSorted-without (before p ++ inorder l) v (inorder r ++ after p)
              (subst IsSorted (sym c.middle) sorted));
      }

  -- `extract` from a tree with sorted values does what erasure from the sorted list of its values
  -- does: it answers with the entry that has the key, or with none, takes it out, and the values
  -- stay sorted.
  pub extract-Extraction_lem :
      (k : Key) (a : AvlTree V)
      → IsSorted (inorder a.root)
      → Extraction k (inorder a.root) (extract k a)
  unfolding extract extract_at
  extract-Extraction_lem k a sorted =
      extract_at-Extraction k a (locate k a.root []).0 (locate k a.root []).1 sorted
        (locate-root k a.root sorted)
