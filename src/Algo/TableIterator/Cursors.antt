-- ===== src/Algo/TableIterator/Cursors.antt =====
-- The two kinds of bucket that the iterators go through: a chain, whose slots are a node and those
-- behind it, and an AVL tree, whose slots are a node and the path from it to the root.
use mmkvc.Prelude.{
  ℕ, ◌≡◌, refl, sym, ap, ◌∙◌, Bool, true, false, List, [], ◌∷◌, append-nil, length, length-append,
  arith, Option, none, some,
}
use mmkvc.Algo.AvlTree.Node.{Tree, leaf, node, Step}
use mmkvc.Algo.AvlTree.Inorder.{inorder}
use mmkvc.Algo.AvlTree.Ops.{AvlTree}
use mmkvc.Algo.AvlTree.Walk.{first_node, next_node, from, from-first_node, from-next_node}
use mmkvc.Algo.TableIterator.{BucketWalk}

module _ {T : Type 0} where
  -- `FrontNode()` of a chain, which is the null pointer for an empty one
  abbrev pub front_node : List T → Option (T × List T)
  front_node [] = none
  front_node (x ∷ xs) = some (x, xs)

  abbrev pub is_empty_chain : List T → Bool
  is_empty_chain [] = true
  is_empty_chain (x ∷ xs) = false

  abbrev pub chain_from : Option (T × List T) → List T
  chain_from none = []
  chain_from (some (x, xs)) = x ∷ xs

  pub front_node-full :
      (c : List T) → is_empty_chain c ≡ false → (x : T × List T) × (front_node c ≡ some x)
  front_node-full [] h = absurd (cc)
  front_node-full (x ∷ xs) h = ((x, xs), refl)

  pub chain_from-front_node : (c : List T) → chain_from (front_node c) ≡ c
  chain_from-front_node [] = refl
  chain_from-front_node (x ∷ xs) = refl

  pub is_empty_chain-nil : (c : List T) → is_empty_chain c ≡ true → c ≡ []
  is_empty_chain-nil [] h = refl
  is_empty_chain-nil (x ∷ xs) h = absurd (cc)

  abbrev pub chain_walk : BucketWalk (List T) T
  chain_walk = record {
    Slot = T × List T;
    is_empty = is_empty_chain;
    first = front_node;
    next = λ x. front_node x.1;
    value = λ x. x.0;
    listed = λ c. c;
    behind = chain_from;
    empty-listed = is_empty_chain-nil;
    first-behind = λ c h. chain_from-front_node c;
    first-some = front_node-full;
    none-behind = refl;
    next-behind = λ x. ap (◌∷◌ x.0) (sym (chain_from-front_node x.1));
  }

-- a node of a tree, with its place
pub record TreeSlot (V : Type 0) : Type 0 where
  pub height : ℕ
  pub left : Tree V
  pub value : V
  pub right : Tree V
  pub path : List (Step V)

module _ {V : Type 0} where
  -- a pointer to a node, or the null pointer
  abbrev pub tree_slot : Tree V → List (Step V) → Option (TreeSlot V)
  tree_slot leaf p = none
  tree_slot (node h l v r) p =
      some (record { height = h; left = l; value = v; right = r; path = p })

  -- `FirstNode()` and `_GetNextNode(slot)`
  abbrev pub first_slot : AvlTree V → Option (TreeSlot V)
  first_slot b = let (t, p) = first_node b.root [] in tree_slot t p

  abbrev pub next_slot : TreeSlot V → Option (TreeSlot V)
  next_slot x =
      let (t, p) = next_node (node x.height x.left x.value x.right) x.path in tree_slot t p

  abbrev pub is_empty_tree : AvlTree V → Bool
  is_empty_tree b = elim b.root [ leaf ↦ true | node h l v r ↦ false ]

  abbrev pub tree_from : Option (TreeSlot V) → List V
  tree_from none = []
  tree_from (some x) = from (node x.height x.left x.value x.right) x.path

  tree_from-tree_slot : (t : Tree V) (p : List (Step V)) → tree_from (tree_slot t p) ≡ from t p
  tree_from-tree_slot leaf p = refl
  tree_from-tree_slot (node h l v r) p = refl

  empty_root :
      (t : Tree V) (n : ℕ) → is_empty_tree (record { root = t; count = n }) ≡ true → inorder t ≡ []
  empty_root leaf n h = refl
  empty_root (node h' l v r) n h = absurd (cc)

  pub is_empty_tree-nil : (b : AvlTree V) → is_empty_tree b ≡ true → inorder b.root ≡ []
  is_empty_tree-nil b h = empty_root b.root b.count h

  pub full_root :
      (t : Tree V) (n : ℕ)
      → is_empty_tree (record { root = t; count = n }) ≡ false
      → (tree_from (first_slot (record { root = t; count = n })) ≡ inorder t)
        × ((x : TreeSlot V) × (first_slot (record { root = t; count = n }) ≡ some x))
  full_root leaf n h = absurd (cc)
  full_root (node h' l v r) n h =
      let (u, q) = first_node (node h' l v r) [] in
      let same = from-first_node h' l v r [] ∙ append-nil (inorder (node h' l v r)) in
      (tree_from-tree_slot u q ∙ same, there u q same)
    where
      there :
          (u : Tree V) (q : List (Step V))
          → from u q ≡ inorder (node h' l v r)
          → (x : TreeSlot V) × (tree_slot u q ≡ some x)
      there leaf q same =
          absurd (omega (arith, ap length same, length-append (inorder l) (v ∷ inorder r)))
      there (node h l v r) q same =
          (record { height = h; left = l; value = v; right = r; path = q }, refl)

  pub next_slot-from : (x : TreeSlot V) → tree_from (some x) ≡ x.value ∷ tree_from (next_slot x)
  next_slot-from x =
      let (t, p) = next_node (node x.height x.left x.value x.right) x.path in
      sym (
        ap (◌∷◌ x.value) (tree_from-tree_slot t p)
        ∙ from-next_node x.height x.left x.value x.right x.path)

  abbrev pub tree_walk : BucketWalk (AvlTree V) V
  tree_walk = record {
    Slot = TreeSlot V;
    is_empty = is_empty_tree;
    first = first_slot;
    next = next_slot;
    value = λ x. x.value;
    listed = λ b. inorder b.root;
    behind = tree_from;
    empty-listed = is_empty_tree-nil;
    first-behind = λ b h. (full_root b.root b.count h).0;
    first-some = λ b h. (full_root b.root b.count h).1;
    none-behind = refl;
    next-behind = next_slot-from;
  }
