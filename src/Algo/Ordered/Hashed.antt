-- ===== src/Algo/Ordered/Hashed.antt =====
-- What a table of trees asks of its template parameters `Compare`, `HF` and `GK` together, and the
-- hash table's own interface, which they give.
use mmkvc.Prelude.{ℕ, ◌≡◌, refl, sym, ◌∙◌, ap, true}
use Prim.Native.Nat.{Ordering}
use Prim.Native.Nat.Ordering.{lt, eq, gt}
use mmkvc.Algo.Ordered.{Ordered, flip}
use mmkvc.Algo.Ordered.Sorted.{is_eq}
use mmkvc.Algo.Keyed.{Keyed}

-- Keys that compare as equal have one hash value.
pub record Hashed (V : Type 0) : Type 1 where
  pub order : Ordered V
  pub hash : order.Key → ℕ
  pub hash-cmp : (a b : order.Key) → order.cmp a b ≡ eq → hash a ≡ hash b

pub is_eq-flip : (c : Ordering) → is_eq (flip c) ≡ is_eq c
is_eq-flip lt = refl
is_eq-flip eq = refl
is_eq-flip gt = refl

pub is_eq→eq : (c : Ordering) → is_eq c ≡ true → c ≡ eq
is_eq→eq lt h = absurd (cc)
is_eq→eq eq h = refl
is_eq→eq gt h = absurd (cc)

module _ {V : Type 0} where
  instance abbrev pub hashed_order : ⦃s : Hashed V⦄ → Ordered V
  hashed_order ⦃s⦄ = s.order

  instance abbrev pub hashed_keyed : ⦃s : Hashed V⦄ → Keyed V
  hashed_keyed ⦃s⦄ = record {
    Key = s.order.Key;
    get_key = s.order.get_key;
    equal_key = λ a b. is_eq (s.order.cmp a b);
    hash = s.hash;
    equal_key_refl = λ a. ap is_eq (s.order.cmp_refl a);
    equal_key_comm = λ a b. sym (ap is_eq (s.order.cmp_flip a b) ∙ is_eq-flip (s.order.cmp a b));
    equal_key_trans =
        λ a b c h g. ap is_eq (s.order.cmp_congr a b c (is_eq→eq (s.order.cmp a b) h)) ∙ g;
    hash-equal_key = λ a b h. s.hash-cmp a b (is_eq→eq (s.order.cmp a b) h);
  }
