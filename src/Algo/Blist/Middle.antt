-- ===== src/Algo/Blist/Middle.antt =====
-- What `Extract` does to a list object, and lists with a node in the middle.
use mmkvc.Prelude.{
  ℕ, suc, ◌+◌, ◌-◌, ◌%◌, ◌<◌, ◌≡◌, ◌≢◌, refl, sym, [], ◌∷◌, ◌++◌, Option, none, some, arith,
}
use mmkvc.Algo.HashTable.{size_mod}
use mmkvc.Algo.Blist.{Blist}
use mmkvc.Algo.Blist.Linked.{Nodes, first_of, last_of, Fresh, Distinct, Represents}

pub fewer : (n m k : ℕ) → n ≡ m → m ≡ suc k → m < size_mod → (n + size_mod - 1) % size_mod ≡ k
fewer n m k e e' h = omega arith

module _ {T : Type 0} where
  -- The operation leaves a list object with the nodes `es`, and the node `p` with null links.
  pub record Takes (p : ℕ) (v : T) (es : Nodes T) (out : Option (Blist T)) : Type 0 where
    pub list : Blist T
    pub ends : out ≡ some list
    pub represents : Represents list es
    pub apart : list.store p ≡ some (record { value = v; prev = none; next = none })

  pub Fresh-middle :
      (q : ℕ) (xs : Nodes T) (p : ℕ) (v : T) (ys : Nodes T)
      → Fresh q (xs ++ (p, v) ∷ ys)
      → (q ≢ p) × Fresh q (xs ++ ys)
  Fresh-middle q [] p v ys f = f
  Fresh-middle q (x ∷ xs) p v ys (ne, f) =
      let (ne', f') = Fresh-middle q xs p v ys f in (ne', (ne, f'))

  pub Distinct-middle :
      (xs : Nodes T) (p : ℕ) (v : T) (ys : Nodes T)
      → Distinct (xs ++ (p, v) ∷ ys)
      → Fresh p xs × Fresh p ys × Distinct (xs ++ ys)
  Distinct-middle [] p v ys d = (tt, d.0, d.1)
  Distinct-middle ((q, w) ∷ xs) p v ys (f, d) =
      let (p_xs, p_ys, d') = Distinct-middle xs p v ys d in
      let (ne, f') = Fresh-middle q xs p v ys f in (((λ e. ne (sym e)), p_xs), p_ys, (f', d'))

  pub Fresh-left : (q : ℕ) (xs ys : Nodes T) → Fresh q (xs ++ ys) → Fresh q xs
  Fresh-left q [] ys f = tt
  Fresh-left q (x ∷ xs) ys (ne, f) = (ne, Fresh-left q xs ys f)

  pub Distinct-left : (xs ys : Nodes T) → Distinct (xs ++ ys) → Distinct xs
  Distinct-left [] ys d = tt
  Distinct-left ((q, w) ∷ xs) ys (f, d) = (Fresh-left q xs ys f, Distinct-left xs ys d)

  -- The last node of the front part is none of the back part.
  pub Fresh-across :
      (zs : Nodes T) (l : ℕ) (x : T) (ys : Nodes T)
      → Distinct ((zs ++ (l, x) ∷ []) ++ ys)
      → Fresh l ys
  Fresh-across [] l x ys (f, d) = f
  Fresh-across (z ∷ zs) l x ys (f, d) = Fresh-across zs l x ys d

  pub last_of-past :
      (before : ℕ) (xs : Nodes T) (p : ℕ) (v : T) (ys : Nodes T)
      → last_of before (xs ++ (p, v) ∷ ys) ≡ last_of p ys
  last_of-past before [] p v ys = refl
  last_of-past before ((q, w) ∷ xs) p v ys = last_of-past q xs p v ys

  -- the first of `zs` and `l`
  abbrev pub head_of : Nodes T → ℕ → ℕ
  head_of [] l = l
  head_of ((f, w) ∷ zs) l = f

  pub first_of-head :
      (zs : Nodes T) (l : ℕ) (x : T) (ys : Nodes T)
      → first_of ((zs ++ (l, x) ∷ []) ++ ys) none ≡ some (head_of zs l)
  first_of-head [] l x ys = refl
  first_of-head (z ∷ zs) l x ys = refl

  pub Fresh-head :
      (p : ℕ) (zs : Nodes T) (l : ℕ) (x : T) → Fresh p (zs ++ (l, x) ∷ []) → p ≢ head_of zs l
  Fresh-head p [] l x f = f.0
  Fresh-head p (z ∷ zs) l x f = f.0
