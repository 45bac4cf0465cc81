-- ===== src/Algo/AvlTree/Visit.antt =====
-- Visits of all nodes: `DoInAll` of mmkv/algo/internal/avl_tree_base_impl.h with its stack, and `ReuseAllNodes`,
-- which takes the tree apart.
use mmkvc.Prelude.{
  ℕ, zero, suc, ◌+◌, ◌*◌, ◌≤◌, ◌≡◌, refl, sym, ap, ◌∙◌, List, [], ◌∷◌, ◌++◌, foldl, append_assoc,
  append-nil, Option, none, some, arith, length, length-append,
}
use mathlib.Core.List.{foldl-append}
use mmkvc.Algo.AvlTree.Node.{Tree, leaf, node, Step, left_of, right_of}
use mmkvc.Algo.AvlTree.Inorder.{inorder}
use mmkvc.Algo.AvlTree.Ops.{AvlTree}
use mmkvc.Algo.AvlTree.Balance.{size}
use mmkvc.Algo.AvlTree.Walk.{length-inorder}

module _ {V : Type 0} where
  -- the inner loop of `DoInAll`: the nodes down the left side go on the stack, where a node is its value
  -- and its right child
  unfoldable pub push_left : Tree V → List (V × Tree V) → List (V × Tree V)
  push_left leaf nodes = nodes
  push_left (node h l v r) nodes = push_left l ((v, r) ∷ nodes)

  -- the outer loop, for as many rounds as `fuel` says
  unfoldable pub visit_loop :
      {S : Type 0} → (S → V → S) → ℕ → S → Tree V → List (V × Tree V) → Option S
  unfolding push_left
  visit_loop f n s leaf [] = some s
  visit_loop f zero s root nodes = none
  visit_loop f (suc n) s root nodes = elim (push_left root nodes) [
    | [] ↦ none
    | (v, r) ∷ rest ↦ visit_loop f n (f s v) r rest
  ]

  -- `DoInAll(cb)`
  unfoldable pub do_in_all : {S : Type 0} → (S → V → S) → ℕ → S → Tree V → Option S
  unfolding visit_loop
  do_in_all f n s root = visit_loop f n s root []

  -- What the nodes on the stack still stand for.
  abbrev pending : List (V × Tree V) → List V
  pending [] = []
  pending ((v, r) ∷ nodes) = v ∷ (inorder r ++ pending nodes)

  pending-push_left :
      (t : Tree V) (nodes : List (V × Tree V))
      → pending (push_left t nodes) ≡ inorder t ++ pending nodes
  unfolding push_left
  pending-push_left leaf nodes = refl
  pending-push_left (node h l v r) nodes =
      pending-push_left l ((v, r) ∷ nodes) ∙ simp (append_assoc)

  -- What a number of rounds comes to when they suffice.
  abbrev Suffices : {S : Type 0} → (S → V → S) → ℕ → Type 0
  Suffices {S} f n =
      (s : S) (root : Tree V) (nodes : List (V × Tree V))
      → length (inorder root ++ pending nodes) ≤ n
      → visit_loop f n s root nodes ≡ some (foldl f s (inorder root ++ pending nodes))

  top_visited :
      {S : Type 0} (f : S → V → S) (n : ℕ) (s : S) (nodes : List (V × Tree V))
      → Suffices f n
      → 1 ≤ length (pending nodes)
      → length (pending nodes) ≤ suc n
      → (elim nodes [ [] ↦ none | (v, r) ∷ rest ↦ visit_loop f n (f s v) r rest ])
        ≡ some (foldl f s (pending nodes))
  top_visited f n s [] later some_left enough = absurd (omega arith)
  top_visited f n s ((v, r) ∷ rest) later some_left enough = later (f s v) r rest (omega arith)

  visit_loop-Suffices : {S : Type 0} (f : S → V → S) (n : ℕ) → Suffices f n
  unfolding visit_loop
  visit_loop-Suffices f n s leaf [] enough = refl
  visit_loop-Suffices f zero s leaf (x ∷ nodes) enough = absurd (omega arith)
  visit_loop-Suffices f zero s (node h l v r) nodes enough = absurd (
      omega (
        arith,
        length-append (inorder l ++ v ∷ inorder r) (pending nodes),
        length-append (inorder l) (v ∷ inorder r),
      ))
  visit_loop-Suffices f (suc n) s leaf (x ∷ nodes) enough =
      top_visited f n s (x ∷ nodes) (visit_loop-Suffices f n) (omega arith) enough
  visit_loop-Suffices f (suc n) s (node h l v r) nodes enough =
      let same = pending-push_left (node h l v r) nodes in
      let left = length-append (inorder l ++ v ∷ inorder r) (pending nodes) in
      let right = length-append (inorder l) (v ∷ inorder r) in
      top_visited f n s (push_left l ((v, r) ∷ nodes)) (visit_loop-Suffices f n)
        (omega (arith, ap length same, left, right)) (omega (arith, ap length same))
      ∙ ap (λ xs. some (foldl f s xs)) same

  -- `do_in_all`, with its stack, ends after one round for each node and calls the callback on the
  -- values from left to right, as the recursive traversal does.
  pub do_in_all-inorder :
      {S : Type 0} (f : S → V → S) (s : S) (t : Tree V)
      → do_in_all f (size t) s t ≡ some (foldl f s (inorder t))
  unfolding do_in_all
  do_in_all-inorder f s t =
      let whole = append-nil (inorder t) in
      visit_loop-Suffices f (size t) s t [] (omega (arith, ap length whole, length-inorder t))
      ∙ ap (λ xs. some (foldl f s xs)) whole

  -- the loop of `ReuseAllNodes(node_cb)`: the callback gets a node's height and value
  unfoldable pub reuse_loop :
      {S : Type 0} → (S → ℕ → V → S) → ℕ → S → Tree V → List (Step V) → Option S
  reuse_loop f zero s t p = none
  reuse_loop f (suc n) s leaf p = some s
  reuse_loop f (suc n) s (node h (node lh ll lv lr) v r) p =
      reuse_loop f n s (node lh ll lv lr) (left_of h v r ∷ p)
  reuse_loop f (suc n) s (node h leaf v (node rh rl rv rr)) p =
      reuse_loop f n s (node rh rl rv rr) (right_of leaf h v ∷ p)
  reuse_loop f (suc n) s (node h leaf v leaf) [] = some (f s 0 v)
  reuse_loop f (suc n) s (node h leaf v leaf) (left_of ph pv pr ∷ p) =
      reuse_loop f n (f s 0 v) (node ph leaf pv pr) p
  reuse_loop f (suc n) s (node h leaf v leaf) (right_of pl ph pv ∷ p) =
      reuse_loop f n (f s 0 v) (node ph pl pv leaf) p

  -- `ReuseAllNodes(node_cb)`, with what is left of the tree
  unfoldable pub reuse_all_nodes :
      {S : Type 0} → (S → ℕ → V → S) → ℕ → S → AvlTree V → Option (S × AvlTree V)
  unfolding reuse_loop
  reuse_all_nodes f n s a = elim (reuse_loop f n s a.root []) [
    | none ↦ none
    | some s' ↦ some (s', record { root = leaf; count = 0 })
  ]

  -- children before their parent
  abbrev pub postorder : Tree V → List V
  postorder leaf = []
  postorder (node h l v r) = postorder l ++ (postorder r ++ v ∷ [])

  -- a value taken out of its node, whose height has been reset
  abbrev pub as_reset : {S : Type 0} → (S → ℕ → V → S) → S → V → S
  as_reset f s v = f s 0 v

  -- A node's subtrees are taken apart, and the node is alone.
  abbrev Emptied : {S : Type 0} → (S → ℕ → V → S) → Tree V → Type 0
  Emptied f leaf = Unit
  Emptied {S} f (node h l v r) =
      (n : ℕ) (s : S) (p : List (Step V))
      → reuse_loop f (2 * (size l + size r) + n) s (node h l v r) p
        ≡ reuse_loop f n (foldl (as_reset f) s (postorder l ++ postorder r)) (node h leaf v leaf) p

  last_reset :
      {S : Type 0} (f : S → ℕ → V → S) (s : S) (l : Tree V) (v : V) (r : Tree V)
      → f (foldl (as_reset f) s (postorder l ++ postorder r)) 0 v
        ≡ foldl (as_reset f) s (postorder l ++ (postorder r ++ v ∷ []))
  last_reset f s l v r =
      sym (foldl-append (as_reset f) s (postorder l ++ postorder r) (v ∷ []))
      ∙ ap (foldl (as_reset f) s) (append_assoc (postorder l) (postorder r) (v ∷ []))

  right_taken :
      {S : Type 0} (f : S → ℕ → V → S) (n : ℕ) (s : S) (h : ℕ) (v : V) (r : Tree V)
      (p : List (Step V))
      → Emptied f r
      → reuse_loop f (2 * size r + n) s (node h leaf v r) p
        ≡ reuse_loop f n (foldl (as_reset f) s (postorder r)) (node h leaf v leaf) p
  unfolding reuse_loop
  right_taken f n s h v leaf p done =
      ap (λ m. reuse_loop f m s (node h leaf v leaf) p) (omega arith)
  right_taken f n s h v (node rh rl rv rr) p done =
      let fuel : 2 * size (node rh rl rv rr) + n ≡ suc (2 * (size rl + size rr) + suc n) =
        omega arith in
      ap (λ m. reuse_loop f m s (node h leaf v (node rh rl rv rr)) p) fuel
      ∙ done (suc n) s (right_of leaf h v ∷ p)
      ∙ ap (λ s'. reuse_loop f n s' (node h leaf v leaf) p) (last_reset f s rl rv rr)

  left_taken :
      {S : Type 0} (f : S → ℕ → V → S) (n : ℕ) (s : S) (h : ℕ) (l : Tree V) (v : V) (r : Tree V)
      (p : List (Step V))
      → Emptied f l
      → reuse_loop f (2 * size l + n) s (node h l v r) p
        ≡ reuse_loop f n (foldl (as_reset f) s (postorder l)) (node h leaf v r) p
  unfolding reuse_loop
  left_taken f n s h leaf v r p done = ap (λ m. reuse_loop f m s (node h leaf v r) p) (omega arith)
  left_taken f n s h (node lh ll lv lr) v r p done =
      let fuel : 2 * size (node lh ll lv lr) + n ≡ suc (2 * (size ll + size lr) + suc n) =
        omega arith in
      ap (λ m. reuse_loop f m s (node h (node lh ll lv lr) v r) p) fuel
      ∙ done (suc n) s (left_of h v r ∷ p)
      ∙ ap (λ s'. reuse_loop f n s' (node h leaf v r) p) (last_reset f s ll lv lr)

  reuse_loop-Emptied : {S : Type 0} (f : S → ℕ → V → S) (t : Tree V) → Emptied f t
  reuse_loop-Emptied f leaf = tt
  reuse_loop-Emptied f (node h l v r) = λ n s p.
      let fuel : 2 * (size l + size r) + n ≡ 2 * size l + (2 * size r + n) = omega arith in
      ap (λ m. reuse_loop f m s (node h l v r) p) fuel
      ∙ left_taken f (2 * size r + n) s h l v r p (reuse_loop-Emptied f l)
      ∙ right_taken f n (foldl (as_reset f) s (postorder l)) h v r p (reuse_loop-Emptied f r)
      ∙ ap (λ s'. reuse_loop f n s' (node h leaf v leaf) p)
          (sym (foldl-append (as_reset f) s (postorder l) (postorder r)))

  reuse_loop-postorder :
      {S : Type 0} (f : S → ℕ → V → S) (s : S) (t : Tree V)
      → reuse_loop f (2 * size t + 1) s t [] ≡ some (foldl (as_reset f) s (postorder t))
  unfolding reuse_loop
  reuse_loop-postorder f s leaf = refl
  reuse_loop-postorder f s (node h l v r) =
      let fuel : 2 * size (node h l v r) + 1 ≡ 2 * (size l + size r) + 3 = omega arith in
      ap (λ m. reuse_loop f m s (node h l v r) []) fuel
      ∙ reuse_loop-Emptied f (node h l v r) 3 s []
      ∙ ap some (last_reset f s l v r)

  -- `reuse_all_nodes` ends within twice as many rounds as there are nodes and one more, calls the
  -- callback once on each node, children before their parent, with the height set to 0, and leaves
  -- an empty tree.
  pub reuse_all_nodes-postorder :
      {S : Type 0} (f : S → ℕ → V → S) (s : S) (a : AvlTree V)
      → reuse_all_nodes f (2 * size a.root + 1) s a
        ≡ some (foldl (as_reset f) s (postorder a.root), record { root = leaf; count = 0 })
  unfolding reuse_all_nodes
  reuse_all_nodes-postorder f s a = rw (reuse_loop-postorder f s a.root, reuse_all_nodes) refl
