-- ===== src/Algo/AvlTree/Walk.antt =====
-- Walks over a tree: the iterator functions of mmkv/algo/internal/avl_util.h, with which begin(), end(), ++
-- and -- of AvlTreeBase are written, and `DoInAll` of avl_tree_base_impl.h. A pointer to a node of a
-- tree is the subtree there and the path up to the root; a null pointer is a leaf.
use mmkvc.Prelude.{
  length-append, ℕ, zero, suc, ◌≤◌, ◌≡◌, refl, sym, ap, ◌∙◌, List, [], ◌∷◌, ◌++◌, foldl,
  append_assoc, append-nil, Option, none, some, arith, length,
}
use mmkvc.Algo.AvlTree.Node.{Tree, leaf, node, Step, left_of, right_of}
use mmkvc.Algo.AvlTree.Inorder.{inorder, before, after}
use mmkvc.Algo.AvlTree.Balance.{size}

module _ {V : Type 0} where
  -- `_GetFirstNode(node)` and `_GetLastNode(node)`
  unfoldable pub first_node : Tree V → List (Step V) → Tree V × List (Step V)
  first_node leaf p = (leaf, p)
  first_node (node h leaf v r) p = (node h leaf v r, p)
  first_node (node h (node lh ll lv lr) v r) p = first_node (node lh ll lv lr) (left_of h v r ∷ p)

  unfoldable pub last_node : Tree V → List (Step V) → Tree V × List (Step V)
  last_node leaf p = (leaf, p)
  last_node (node h l v leaf) p = (node h l v leaf, p)
  last_node (node h l v (node rh rl rv rr)) p = last_node (node rh rl rv rr) (right_of l h v ∷ p)

  -- the loop up of `_GetNextNode`: to the first node that was left of its parent
  unfoldable pub climb_next : Tree V → List (Step V) → Tree V × List (Step V)
  climb_next t [] = (leaf, [])
  climb_next t (left_of h v r ∷ p) = (node h t v r, p)
  climb_next t (right_of l h v ∷ p) = climb_next (node h l v t) p

  unfoldable pub climb_previous : Tree V → List (Step V) → Tree V × List (Step V)
  climb_previous t [] = (leaf, [])
  climb_previous t (left_of h v r ∷ p) = climb_previous (node h t v r) p
  climb_previous t (right_of l h v ∷ p) = (node h l v t, p)

  -- `_GetNextNode(node)` and `_GetPrevNode(node)`
  unfoldable pub next_node : Tree V → List (Step V) → Tree V × List (Step V)
  unfolding first_node climb_next
  next_node leaf p = (leaf, p)
  next_node (node h l v (node rh rl rv rr)) p = first_node (node rh rl rv rr) (right_of l h v ∷ p)
  next_node (node h l v leaf) p = climb_next (node h l v leaf) p

  unfoldable pub previous_node : Tree V → List (Step V) → Tree V × List (Step V)
  unfolding last_node climb_previous
  previous_node leaf p = (leaf, p)
  previous_node (node h (node lh ll lv lr) v r) p = last_node (node lh ll lv lr) (left_of h v r ∷ p)
  previous_node (node h leaf v r) p = climb_previous (node h leaf v r) p

  -- The values from a node on, and those up to it.
  abbrev pub from : Tree V → List (Step V) → List V
  from leaf p = []
  from (node h l v r) p = v ∷ (inorder r ++ after p)

  abbrev pub up_to : Tree V → List (Step V) → List V
  up_to leaf p = []
  up_to (node h l v r) p = (before p ++ inorder l) ++ v ∷ []

  ruleset lists = (append_assoc, append-nil)

  pub from-first_node :
      (h : ℕ) (l : Tree V) (v : V) (r : Tree V) (p : List (Step V))
      → let (t, q) = first_node (node h l v r) p in from t q ≡ inorder (node h l v r) ++ after p
  unfolding first_node
  from-first_node h leaf v r p = refl
  from-first_node h (node lh ll lv lr) v r p =
      from-first_node lh ll lv lr (left_of h v r ∷ p) ∙ simp lists

  up_to-last_node :
      (h : ℕ) (l : Tree V) (v : V) (r : Tree V) (p : List (Step V))
      → let (t, q) = last_node (node h l v r) p in up_to t q ≡ before p ++ inorder (node h l v r)
  unfolding last_node
  up_to-last_node h l v leaf p = simp lists
  up_to-last_node h l v (node rh rl rv rr) p =
      up_to-last_node rh rl rv rr (right_of l h v ∷ p) ∙ simp lists

  from-climb_next :
      (t : Tree V) (p : List (Step V)) → let (u, q) = climb_next t p in from u q ≡ after p
  unfolding climb_next
  from-climb_next t [] = refl
  from-climb_next t (left_of h v r ∷ p) = refl
  from-climb_next t (right_of l h v ∷ p) = from-climb_next (node h l v t) p

  up_to-climb_previous :
      (t : Tree V) (p : List (Step V)) → let (u, q) = climb_previous t p in up_to u q ≡ before p
  unfolding climb_previous
  up_to-climb_previous t [] = refl
  up_to-climb_previous t (left_of h v r ∷ p) = up_to-climb_previous (node h t v r) p
  up_to-climb_previous t (right_of l h v ∷ p) = simp lists

  -- From the next node on stand exactly the values after a node's own.
  pub from-next_node :
      (h : ℕ) (l : Tree V) (v : V) (r : Tree V) (p : List (Step V))
      → let (t, q) = next_node (node h l v r) p in v ∷ from t q ≡ from (node h l v r) p
  unfolding next_node
  from-next_node h l v leaf p = ap (◌∷◌ v) (from-climb_next (node h l v leaf) p)
  from-next_node h l v (node rh rl rv rr) p =
      ap (◌∷◌ v) (from-first_node rh rl rv rr (right_of l h v ∷ p))

  -- Up to the previous node stand exactly the values before a node's own.
  pub up_to-previous_node :
      (h : ℕ) (l : Tree V) (v : V) (r : Tree V) (p : List (Step V))
      → let (t, q) = previous_node (node h l v r) p in up_to t q ++ v ∷ [] ≡ up_to (node h l v r) p
  unfolding previous_node
  up_to-previous_node h leaf v r p =
      ap (λ xs. xs ++ v ∷ [])
        (up_to-climb_previous (node h leaf v r) p ∙ sym (append-nil (before p)))
  up_to-previous_node h (node lh ll lv lr) v r p =
      ap (λ xs. xs ++ v ∷ []) (up_to-last_node lh ll lv lr (left_of h v r ∷ p))

  -- a loop from an iterator to end(), with the work that is done for each value; no result when `fuel`
  -- rounds do not get there
  unfoldable pub iterate : {S : Type 0} → (S → V → S) → ℕ → S → Tree V → List (Step V) → Option S
  unfolding next_node
  iterate f n s leaf p = some s
  iterate f zero s (node h l v r) p = none
  iterate f (suc n) s (node h l v r) p =
      let (t, q) = next_node (node h l v r) p in iterate f n (f s v) t q

  iterate-from :
      {S : Type 0} (f : S → V → S) (n : ℕ) (s : S) (t : Tree V) (p : List (Step V))
      → length (from t p) ≤ n
      → iterate f n s t p ≡ some (foldl f s (from t p))
  unfolding iterate
  iterate-from f n s leaf p enough = refl
  iterate-from f zero s (node h l v r) p enough = absurd (omega arith)
  iterate-from f (suc n) s (node h l v r) p enough =
      let (t, q) = next_node (node h l v r) p in
      let step = from-next_node h l v r p in
      iterate-from f n (f s v) t q (omega (arith, ap length step))
      ∙ ap (λ xs. some (foldl f s xs)) step

  pub length-inorder : (t : Tree V) → length (inorder t) ≡ size t
  length-inorder leaf = refl
  length-inorder (node h l v r) =
      omega (arith, length-append (inorder l) (v ∷ inorder r), length-inorder l, length-inorder r)

  -- A loop from begin() by `next_node` reaches end() after one round for each node, whatever the
  -- shape of the tree, and handles the values from left to right.
  pub iterate-inorder :
      {S : Type 0} (f : S → V → S) (s : S) (t : Tree V)
      → let (u, q) = first_node t [] in iterate f (size t) s u q ≡ some (foldl f s (inorder t))
  unfolding iterate first_node
  iterate-inorder f s leaf = refl
  iterate-inorder f s (node h l v r) =
      let (u, q) = first_node (node h l v r) [] in
      let whole = from-first_node h l v r [] ∙ append-nil (inorder (node h l v r)) in
      iterate-from f (size (node h l v r)) s u q
        (omega (arith, ap length whole, length-inorder (node h l v r)))
      ∙ ap (λ xs. some (foldl f s xs)) whole
