-- ===== src/Algo/Blist/Linked.antt =====
-- Which nodes make a list: the links between them, and what writes do to those.
use mmkvc.Prelude.{
  ℕ, ◌<◌, ◌≡◌, ◌≢◌, refl, sym, ap, ◌∙◌, false, ◌==◌, List, [], ◌∷◌, ◌++◌, length, Option, none,
  some, arith, ==_iff,
}
use mmkvc.Algo.Ordered.Sorted.{All}
use mmkvc.Algo.HashTable.{size_mod}
use mmkvc.Algo.Blist.{BNode, Store, Blist, put, drop_node, set_next, set_prev, ◌>>=◌}

-- nodes by their addresses and values
abbrev pub Nodes : Type 0 → Type 0
Nodes T = List (ℕ × T)

pub ne_false : (p q : ℕ) → p ≢ q → (p == q) ≡ false
ne_false p q ne = ground (arith, ne)

pub bind_some :
    {A B : Type 0} (o : Option A) (a : A) (f : A → Option B) (r : Option B)
    → o ≡ some a
    → f a ≡ r
    → (o >>= f) ≡ r
bind_some o a f r e h = rw (e, ◌>>=◌) h

module _ {T : Type 0} where
  abbrev pub first_of : Nodes T → Option ℕ → Option ℕ
  first_of [] after = after
  first_of ((p, v) ∷ es) after = some p

  abbrev pub last_of : ℕ → Nodes T → ℕ
  last_of before [] = before
  last_of before ((p, v) ∷ es) = last_of p es

  -- The nodes `es` are linked to each other, from `before` to `after`.
  abbrev pub Linked : Store T → ℕ → Nodes T → Option ℕ → Type 0
  Linked s before [] after = Unit
  Linked s before ((p, v) ∷ es) after =
      (s p ≡ some (record { value = v; prev = some before; next = first_of es after }))
      × Linked s p es after

  -- An address that none of the nodes has.
  abbrev pub Fresh : ℕ → Nodes T → Type 0
  Fresh p es = All (λ e. p ≢ e.0) es

  abbrev pub Distinct : Nodes T → Type 0
  Distinct [] = Unit
  Distinct ((p, v) ∷ es) = Fresh p es × Distinct es

  pub put-other : (p q : ℕ) (n : BNode T) (s : Store T) → p ≢ q → put p n s q ≡ s q
  put-other p q n s ne = rw (ne_false p q ne) refl

  pub put_self : (p : ℕ) (n : BNode T) (s : Store T) → put p n s p ≡ some n
  put_self p n s = rw ((==_iff p p).1 refl) refl

  pub drop_node-other : (p q : ℕ) (s : Store T) → p ≢ q → drop_node p s q ≡ s q
  drop_node-other p q s ne = rw (ne_false p q ne) refl

  pub set_next-at :
      (p : ℕ) (q : Option ℕ) (s : Store T) (n : BNode T)
      → s p ≡ some n
      → set_next (some p) q s ≡ some (put p (record n { next = q }) s)
  set_next-at p q s n at = rw (at, set_next) refl

  pub set_prev-at :
      (p : ℕ) (q : Option ℕ) (s : Store T) (n : BNode T)
      → s p ≡ some n
      → set_prev (some p) q s ≡ some (put p (record n { prev = q }) s)
  set_prev-at p q s n at = rw (at, set_prev) refl

  -- Writes elsewhere leave the links.
  pub Linked-put :
      (p : ℕ) (n : BNode T) (s : Store T) (before : ℕ) (es : Nodes T) (after : Option ℕ)
      → Fresh p es
      → Linked s before es after
      → Linked (put p n s) before es after
  Linked-put p n s before [] after fresh l = tt
  Linked-put p n s before ((q, v) ∷ es) after (ne, fresh) (at, l) =
      (put-other p q n s ne ∙ at, Linked-put p n s q es after fresh l)

  pub Linked-drop_node :
      (p : ℕ) (s : Store T) (before : ℕ) (es : Nodes T) (after : Option ℕ)
      → Fresh p es
      → Linked s before es after
      → Linked (drop_node p s) before es after
  Linked-drop_node p s before [] after fresh l = tt
  Linked-drop_node p s before ((q, v) ∷ es) after (ne, fresh) (at, l) =
      (drop_node-other p q s ne ∙ at, Linked-drop_node p s q es after fresh l)

  pub Linked-append :
      (s : Store T) (before : ℕ) (xs ys : Nodes T) (after : Option ℕ)
      → Linked s before xs (first_of ys after)
      → Linked s (last_of before xs) ys after
      → Linked s before (xs ++ ys) after
  Linked-append s before [] ys after l m = m
  Linked-append s before ((p, v) ∷ xs) ys after (at, l) m = (
    at ∙ ap (λ o. some (record { value = v; prev = some before; next = o })) (next_of xs),
    Linked-append s p xs ys after l m,
  )
    where
      next_of : (xs : Nodes T) → first_of xs (first_of ys after) ≡ first_of (xs ++ ys) after
      next_of [] = refl
      next_of (x ∷ xs) = refl

  pub Linked-split :
      (s : Store T) (before : ℕ) (xs ys : Nodes T) (after : Option ℕ)
      → Linked s before (xs ++ ys) after
      → Linked s before xs (first_of ys after) × Linked s (last_of before xs) ys after
  Linked-split s before [] ys after l = (tt, l)
  Linked-split s before ((p, v) ∷ xs) ys after (at, l) =
      let (a, b) = Linked-split s p xs ys after l in
      (
        (
          at
              ∙ ap (λ o. some (record { value = v; prev = some before; next = o }))
                  (sym (next_of xs)),
          a,
        ),
        b,
      )
    where
      next_of : (xs : Nodes T) → first_of xs (first_of ys after) ≡ first_of (xs ++ ys) after
      next_of [] = refl
      next_of (x ∷ xs) = refl

  pub last_of-append :
      (before : ℕ) (xs : Nodes T) (p : ℕ) (v : T) → last_of before (xs ++ (p, v) ∷ []) ≡ p
  last_of-append before [] p v = refl
  last_of-append before ((q, w) ∷ xs) p v = last_of-append q xs p v

  -- A list object that has these nodes: the previous node of the first one is the last one.
  pub record Represents (b : Blist T) (es : Nodes T) : Type 0 where
    pub begins : b.header ≡ first_of es none
    pub counts : b.count ≡ length es
    pub fits : length es < size_mod
    pub distinct : Distinct es
    pub linked : Linked b.store (last_of 0 es) es none

  -- An operation answers 1 and leaves a list object with these nodes.
  pub record Leaves (es : Nodes T) (out : Option (ℕ × Blist T)) : Type 0 where
    pub list : Blist T
    pub ends : out ≡ some (1, list)
    pub represents : Represents list es

  -- A list with a first node has a last one.
  pub snoc_view :
      (e : ℕ × T) (es : Nodes T) → (xs : Nodes T) × (x : ℕ × T) × (e ∷ es ≡ xs ++ x ∷ [])
  snoc_view e [] = ([], e, refl)
  snoc_view e (d ∷ es) = let (xs, x, same) = snoc_view d es in (e ∷ xs, x, ap (◌∷◌ e) same)

  pub Fresh-back :
      (p : ℕ) (xs : Nodes T) (t : ℕ) (w : T) → Fresh p (xs ++ (t, w) ∷ []) → Fresh p xs × (p ≢ t)
  Fresh-back p [] t w (ne, tt) = (tt, ne)
  Fresh-back p (x ∷ xs) t w (ne, f) = let (a, b) = Fresh-back p xs t w f in ((ne, a), b)

  pub Distinct-back :
      (xs : Nodes T) (t : ℕ) (w : T) → Distinct (xs ++ (t, w) ∷ []) → Distinct xs × Fresh t xs
  Distinct-back [] t w d = (tt, tt)
  Distinct-back ((q, u) ∷ xs) t w (f, d) =
      let (a, b) = Distinct-back xs t w d in
      let (c, ne) = Fresh-back q xs t w f in ((c, a), (λ e. ne (sym e), b))

  pub Distinct-append :
      (xs : Nodes T) (p : ℕ) (v : T) → Distinct xs → Fresh p xs → Distinct (xs ++ (p, v) ∷ [])
  Distinct-append [] p v d f = (tt, tt)
  Distinct-append ((q, u) ∷ xs) p v (g, d) (ne, f) =
      (fresh_back q xs g (λ e. ne (sym e)), Distinct-append xs p v d f)
    where
      fresh_back : (q : ℕ) (xs : Nodes T) → Fresh q xs → q ≢ p → Fresh q (xs ++ (p, v) ∷ [])
      fresh_back q [] g ne = (ne, tt)
      fresh_back q (x ∷ xs) (h, g) ne = (h, fresh_back q xs g ne)

  pub first_of-append :
      (xs : Nodes T) (x : ℕ × T) (ys : Nodes T) (after : Option ℕ)
      → first_of (xs ++ x ∷ []) after ≡ first_of ((xs ++ x ∷ []) ++ ys) after
  first_of-append [] x ys after = refl
  first_of-append (z ∷ xs) x ys after = refl
