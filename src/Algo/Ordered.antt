-- ===== src/Algo/Ordered.antt =====
-- The template parameters of the trees: `Compare` and `GK`, with what a tree asks of them. A negative
-- result of the comparator is `lt`, zero is `eq`, and a positive one is `gt`.
pub mod Sorted
pub mod Reference
pub mod Hashed
use mmkvc.Prelude.{◌≡◌}
use Prim.Native.Nat.{Ordering}
use Prim.Native.Nat.Ordering.{lt, eq, gt}

abbrev pub flip : Ordering → Ordering
flip lt = gt
flip eq = eq
flip gt = lt

pub record Ordered (V : Type 0) : Type 1 where
  pub Key : Type 0
  pub get_key : V → Key
  pub cmp : Key → Key → Ordering
  pub cmp_refl : (a : Key) → cmp a a ≡ eq
  pub cmp_flip : (a b : Key) → cmp b a ≡ flip (cmp a b)
  pub cmp_trans : (a b c : Key) → cmp a b ≡ lt → cmp b c ≡ lt → cmp a c ≡ lt
  pub cmp_congr : (a b c : Key) → cmp a b ≡ eq → cmp a c ≡ cmp b c
