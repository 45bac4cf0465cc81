-- ===== src/Algo/Blist/Clearing.antt =====
-- `Clear`.
use mmkvc.Prelude.{ℕ, ◌≡◌, refl, sym, ◌∙◌, [], ◌∷◌, length, Option, none, some, ==_iff, arith}
use mmkvc.Algo.Ordered.Sorted.{All}
use mmkvc.Algo.Blist.{Store, Blist, drop_node, clear_loop, clear}
use mmkvc.Algo.Blist.Linked.{
  Nodes, first_of, last_of, Linked, Fresh, Distinct, Represents, bind_some, drop_node-other,
  Linked-drop_node,
}

module _ {T : Type 0} where
  -- In the store `s'` the nodes `es` of `s` are gone, and the other ones are what they were.
  pub record Freed (es : Nodes T) (s s' : Store T) : Type 0 where
    pub freed : All (λ e. s' e.0 ≡ none) es
    pub others : (p : ℕ) → Fresh p es → s' p ≡ s p

  drop_node_self : (p : ℕ) (s : Store T) → drop_node p s p ≡ none
  drop_node_self p s = rw ((==_iff p p).1 refl) refl

  clear_loop-Freed :
      (es : Nodes T) (before : ℕ) (s : Store T)
      → Distinct es
      → Linked s before es none
      → (s' : Store T) × (clear_loop (length es) (first_of es none) s ≡ some s') × Freed es s s'
  unfolding clear_loop
  clear_loop-Freed [] before s d l = (s, refl, record { freed = tt; others = λ p f. refl })
  clear_loop-Freed ((p, v) ∷ es) before s (fresh, d) (at, l) =
      let (s', ends, f) =
        clear_loop-Freed es p (drop_node p s) d (Linked-drop_node p s p es none fresh l) in
      (
        s',
        rw (at, clear_loop) ends,
        record {
          freed = (f.others p fresh ∙ drop_node_self p s, f.freed);
          others = λ q (ne, fresh_q). f.others q fresh_q ∙ drop_node-other p q s (λ e. ne (sym e));
        },
      )

  -- An operation leaves an empty list, and a store in which these nodes are gone.
  pub record Clears (es : Nodes T) (b : Blist T) (out : Option (Blist T)) : Type 0 where
    pub list : Blist T
    pub ends : out ≡ some list
    pub represents : Represents list []
    pub frees : Freed es b.store list.store

  pub clear-Clears :
      (b : Blist T) (es : Nodes T) → Represents b es → Clears es b (clear (length es) b)
  unfolding clear
  clear-Clears b es r =
      let (s', ends, f) = clear_loop-Freed es (last_of 0 es) b.store r.distinct r.linked in
      record {
        list = record { store = s'; header = none; count = 0 };
        ends = rw (r.begins, clear) (bind_some _ _ _ _ ends refl);
        represents = record {
          begins = refl;
          counts = refl;
          fits = omega arith;
          distinct = tt;
          linked = tt;
        };
        frees = f;
      }
