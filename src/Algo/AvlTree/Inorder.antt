-- ===== src/Algo/AvlTree/Inorder.antt =====
-- The values of a tree from left to right: what rebalancing keeps and what erasing takes out.
use mmkvc.Prelude.{
  ℕ, ◌+◌, ◌≡◌, refl, sym, ap, ◌∙◌, inl, inr, Bool-cases, List, [], ◌∷◌, ◌++◌, append_assoc,
  append-nil, ltb, leb, ◌==◌, ◌&&◌,
}
use mmkvc.Algo.AvlTree.Node.{
  Tree, leaf, node, Step, left_of, right_of, plug, rebuild, rotate_left, rotate_right, set_height,
  update_height, on_left, on_right, straighten_left, straighten_right, fixup_left_heavy,
  fixup_right_heavy, fixup, insert_fixup, erase_fixup, take_min, erase_node, computed_height,
  height, is_level, left_height, right_height,
}

module _ {V : Type 0} where
  abbrev pub inorder : Tree V → List V
  inorder leaf = []
  inorder (node h l v r) = inorder l ++ v ∷ inorder r

  -- the values to the left and to the right of the focus
  abbrev pub before : List (Step V) → List V
  before [] = []
  before (left_of h v r ∷ p) = before p
  before (right_of l h v ∷ p) = before p ++ (inorder l ++ v ∷ [])

  abbrev pub after : List (Step V) → List V
  after [] = []
  after (left_of h v r ∷ p) = v ∷ (inorder r ++ after p)
  after (right_of l h v ∷ p) = after p

  abbrev pub around : List (Step V) → List V → List V
  around p xs = before p ++ (xs ++ after p)

  ruleset lists = (append_assoc, append-nil)

  pub around-plug :
      (s : Step V) (p : List (Step V)) (t : Tree V)
      → around p (inorder (plug s t)) ≡ around (s ∷ p) (inorder t)
  around-plug (left_of h v r) p t = simp lists
  around-plug (right_of l h v) p t = simp lists

  inorder-rebuild : (t : Tree V) (p : List (Step V)) → inorder (rebuild t p) ≡ around p (inorder t)
  unfolding rebuild
  inorder-rebuild t [] = simp lists
  inorder-rebuild t (s ∷ p) = inorder-rebuild (plug s t) p ∙ around-plug s p t

  inorder-set_height : (k : ℕ) (t : Tree V) → inorder (set_height k t) ≡ inorder t
  unfolding set_height
  inorder-set_height k leaf = refl
  inorder-set_height k (node h l v r) = refl

  inorder-update_height : (t : Tree V) → inorder (update_height t) ≡ inorder t
  unfolding update_height
  inorder-update_height t = inorder-set_height _ t

  inorder-rotate_left : (t : Tree V) → inorder (rotate_left t) ≡ inorder t
  unfolding rotate_left
  inorder-rotate_left leaf = refl
  inorder-rotate_left (node h l v leaf) = refl
  inorder-rotate_left (node h l v (node rh rl rv rr)) = simp lists

  inorder-rotate_right : (t : Tree V) → inorder (rotate_right t) ≡ inorder t
  unfolding rotate_right
  inorder-rotate_right leaf = refl
  inorder-rotate_right (node h leaf v r) = refl
  inorder-rotate_right (node h (node lh ll lv lr) v r) = simp lists

  inorder-on_left :
      (f : Tree V → Tree V)
      → ((t : Tree V) → inorder (f t) ≡ inorder t)
      → (t : Tree V) → inorder (on_left f t) ≡ inorder t
  unfolding on_left
  inorder-on_left f same leaf = refl
  inorder-on_left f same (node h l v r) = ap (λ xs. xs ++ v ∷ inorder r) (same l)

  inorder-on_right :
      (f : Tree V → Tree V)
      → ((t : Tree V) → inorder (f t) ≡ inorder t)
      → (t : Tree V) → inorder (on_right f t) ≡ inorder t
  unfolding on_right
  inorder-on_right f same leaf = refl
  inorder-on_right f same (node h l v r) = ap (λ xs. inorder l ++ v ∷ xs) (same r)

  inorder-straighten_left : (t : Tree V) → inorder (straighten_left t) ≡ inorder t
  unfolding straighten_left
  inorder-straighten_left t = elim (Bool-cases (ltb (left_height t) (right_height t))) [
    | inl bent ↦ rw bent (
        inorder-update_height (on_left update_height (rotate_left t))
        ∙ inorder-on_left update_height inorder-update_height (rotate_left t)
        ∙ inorder-rotate_left t)
    | inr straight ↦ rw straight refl
  ]

  inorder-straighten_right : (t : Tree V) → inorder (straighten_right t) ≡ inorder t
  unfolding straighten_right
  inorder-straighten_right t = elim (Bool-cases (ltb (right_height t) (left_height t))) [
    | inl bent ↦ rw bent (
        inorder-update_height (on_right update_height (rotate_right t))
        ∙ inorder-on_right update_height inorder-update_height (rotate_right t)
        ∙ inorder-rotate_right t)
    | inr straight ↦ rw straight refl
  ]

  inorder-fixup_left_heavy : (t : Tree V) → inorder (fixup_left_heavy t) ≡ inorder t
  unfolding fixup_left_heavy
  inorder-fixup_left_heavy t =
      let inner = on_left straighten_left t in
      inorder-update_height (on_right update_height (rotate_right inner))
      ∙ inorder-on_right update_height inorder-update_height (rotate_right inner)
      ∙ inorder-rotate_right inner
      ∙ inorder-on_left straighten_left inorder-straighten_left t

  inorder-fixup_right_heavy : (t : Tree V) → inorder (fixup_right_heavy t) ≡ inorder t
  unfolding fixup_right_heavy
  inorder-fixup_right_heavy t =
      let inner = on_right straighten_right t in
      inorder-update_height (on_left update_height (rotate_left inner))
      ∙ inorder-on_left update_height inorder-update_height (rotate_left inner)
      ∙ inorder-rotate_left inner
      ∙ inorder-on_right straighten_right inorder-straighten_right t

  inorder-fixup : (t : Tree V) → inorder (fixup t) ≡ inorder t
  unfolding fixup
  inorder-fixup t = elim (Bool-cases (leb (right_height t + 2) (left_height t))) [
    | inl left ↦ rw left (inorder-fixup_left_heavy t)
    | inr other ↦ rw other (elim (Bool-cases (leb (left_height t + 2) (right_height t))) [
      | inl right ↦ rw right (inorder-fixup_right_heavy t)
      | inr level ↦ rw level refl
    ])
  ]

  inorder_refitted : (t : Tree V) → inorder (fixup (set_height (computed_height t) t)) ≡ inorder t
  inorder_refitted t =
      inorder-fixup (set_height (computed_height t) t) ∙ inorder-set_height (computed_height t) t

  -- Retracing keeps the values and their order, whatever the heights are.
  pub inorder-insert_fixup :
      (t : Tree V) (p : List (Step V)) → inorder (insert_fixup t p) ≡ around p (inorder t)
  unfolding insert_fixup
  inorder-insert_fixup t [] = simp lists
  inorder-insert_fixup t (s ∷ p) =
      let n = plug s t in
      elim (Bool-cases (height n == computed_height n)) [
        | inl settled ↦ rw settled (inorder-rebuild n p ∙ around-plug s p t)
        | inr changed ↦ rw changed (
            inorder-insert_fixup (fixup (set_height (computed_height n) n)) p
            ∙ ap (around p) (inorder_refitted n)
            ∙ around-plug s p t)
      ]

  inorder-erase_fixup :
      (t : Tree V) (p : List (Step V)) → inorder (erase_fixup t p) ≡ around p (inorder t)
  unfolding erase_fixup
  inorder-erase_fixup t [] = simp lists
  inorder-erase_fixup t (s ∷ p) =
      let n = plug s t in
      elim (Bool-cases ((height n == computed_height n) && is_level n)) [
        | inl settled ↦ rw settled (inorder-rebuild n p ∙ around-plug s p t)
        | inr changed ↦ rw changed (
            inorder-erase_fixup (fixup (set_height (computed_height n) n)) p
            ∙ ap (around p) (inorder_refitted n)
            ∙ around-plug s p t)
      ]

  before-append : (p q : List (Step V)) → before (p ++ q) ≡ before q ++ before p
  before-append [] q = simp lists
  before-append (left_of h v r ∷ p) q = before-append p q
  before-append (right_of l h v ∷ p) q = simp (before-append p q, append_assoc)

  after-append : (p q : List (Step V)) → after (p ++ q) ≡ after p ++ after q
  after-append [] q = refl
  after-append (left_of h v r ∷ p) q = simp (after-append p q, append_assoc)
  after-append (right_of l h v ∷ p) q = after-append p q

  -- The steps down to the minimum go left, so the minimum comes first.
  before-take_min :
      (l : Tree V) (v : V) (r : Tree V) (h : ℕ) (p : List (Step V))
      → before (take_min l v r h p).2 ≡ before p
  unfolding take_min
  before-take_min leaf v r h p = refl
  before-take_min (node lh ll lv lr) v r h p = before-take_min ll lv lr lh (left_of h v r ∷ p)

  around-take_min :
      (l : Tree V) (v : V) (r : Tree V) (h : ℕ) (p : List (Step V))
      → let (least, child, q) = take_min l v r h p in
        around q (least ∷ inorder child) ≡ around p (inorder (node h l v r))
  unfolding take_min
  around-take_min leaf v r h p = refl
  around-take_min (node lh ll lv lr) v r h p =
      around-take_min ll lv lr lh (left_of h v r ∷ p)
      ∙ sym (around-plug (left_of h v r) p (node lh ll lv lr))

  around-spliced :
      (l child : Tree V) (h : ℕ) (least : V) (inner p : List (Step V))
      → before inner ≡ []
      → around (inner ++ right_of l h least ∷ p) (inorder child)
        ≡ around p (inorder l ++ around inner (least ∷ inorder child))
  around-spliced l child h least inner p first = simp (
    before-append inner (right_of l h least ∷ p),
    after-append inner (right_of l h least ∷ p),
    first,
    append_assoc,
    append-nil,
  )

  -- Erasing a node takes its value out, and keeps all others in their order.
  pub inorder-erase_node :
      (h : ℕ) (l : Tree V) (v : V) (r : Tree V) (p : List (Step V))
      → inorder (erase_node (node h l v r) p) ≡ around p (inorder l ++ inorder r)
  unfolding erase_node
  inorder-erase_node h (node lh ll lv lr) v (node rh rl rv rr) p =
      let (least, child, inner) = take_min rl rv rr rh [] in
      let first : before inner ≡ [] = before-take_min rl rv rr rh [] in
      let whole = around-take_min rl rv rr rh [] in
      inorder-erase_fixup child (inner ++ right_of (node lh ll lv lr) h least ∷ p)
      ∙ around-spliced (node lh ll lv lr) child h least inner p first
      ∙ ap (λ ys. around p (inorder (node lh ll lv lr) ++ ys)) (whole ∙ append-nil _)
  inorder-erase_node h (node lh ll lv lr) v leaf p =
      inorder-erase_fixup (node lh ll lv lr) p ∙ simp lists
  inorder-erase_node h leaf v r p = inorder-erase_fixup r p
