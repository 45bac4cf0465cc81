-- ===== src/Algo/Comparator.antt =====
-- The comparators of mmkv/algo/comparator_util.h. A signed value is given by its distance from the least
-- value of its type, so that a difference of two values is the difference of their distances.
use mmkvc.Prelude.{ℕ, ◌+◌, ◌-◌, ◌%◌, ◌^◌, ◌≤◌, ◌<◌, ◌≡◌, ap, arith, if◌then◌else◌, ltb, ◌==◌}
use Prim.Native.Nat.{Ordering}
use Prim.Native.Nat.Ordering.{lt, eq, gt}
use mmkvc.Algo.Ordered.{flip}

-- `Comparator<t_>` of an unsigned type
unfoldable pub compare_unsigned : ℕ → ℕ → Ordering
compare_unsigned x y = if ltb x y then lt else if x == y then eq else gt

-- the sign of an `int` that is given by its 32 bits
unfoldable pub sign_of : ℕ → Ordering
sign_of word = if word == 0 then eq else if ltb word (2 ^ 31) then gt else lt

-- `Comparator<t_>` of a signed type: the difference, as an `int`
unfoldable pub compare_signed : ℕ → ℕ → Ordering
unfolding sign_of
compare_signed x y = sign_of ((x + 2 ^ 64 - y) % 2 ^ 32)

pub compare_unsigned_refl : (a : ℕ) → compare_unsigned a a ≡ eq
unfolding compare_unsigned
compare_unsigned_refl a = ground arith

pub compare_unsigned-flip : (a b : ℕ) → compare_unsigned b a ≡ flip (compare_unsigned a b)
unfolding compare_unsigned
compare_unsigned-flip a b = ground arith

pub compare_unsigned_trans :
    (a b c : ℕ) → compare_unsigned a b ≡ lt → compare_unsigned b c ≡ lt → compare_unsigned a c ≡ lt
unfolding compare_unsigned
compare_unsigned_trans a b c h g = ground arith

pub compare_unsigned-congr :
    (a b c : ℕ) → compare_unsigned a b ≡ eq → compare_unsigned a c ≡ compare_unsigned b c
unfolding compare_unsigned
compare_unsigned-congr a b c h = ground arith

-- The difference of two signed numbers of 64 bits or fewer, taken for an `int`, has the sign of
-- their order if the first is less than 2 ^ 31 above the second and at most 2 ^ 31 below it.
pub compare_signed_lem :
    (x y : ℕ)
    → x < y + 2 ^ 31
    → y ≤ x + 2 ^ 31
    → x < 2 ^ 64
    → y < 2 ^ 64
    → compare_signed x y ≡ compare_unsigned x y
unfolding compare_signed sign_of compare_unsigned
compare_signed_lem x y d d' hx hy = ground arith

-- Unsigned numbers that compare as equal have one hash value, whatever the hash function.
pub compare_unsigned_same : (hash : ℕ → ℕ) (a b : ℕ) → compare_unsigned a b ≡ eq → hash a ≡ hash b
unfolding compare_unsigned
compare_unsigned_same hash a b h = ap hash (ground arith)
