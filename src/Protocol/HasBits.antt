-- ===== src/Protocol/HasBits.antt =====
-- `SetBit` and `TestBit` of mmkv/protocol/mmbp_util.h, on the byte that says which fields are there.
use mmkvc.Prelude.{
  ℕ, zero, suc, ◌%◌, ◌^◌, ◌<◌, ◌≡◌, refl, Bool, if◌then◌else◌, true, false, not, ◌||◌, ◌==◌,
  bit_and, bit_or, arith,
}

-- `bits & (1 << idx)`
unfoldable pub test_bit : ℕ → ℕ → Bool
test_bit bits idx = not (bit_and bits (2 ^ idx) == 0)

-- `bits |= (1 << idx)`
unfoldable pub set_bit : ℕ → ℕ → ℕ
set_bit bits idx = bit_or bits (2 ^ idx) % 2 ^ 8

-- whether a test passes at every number under a bound
passes_under : (ℕ → Bool) → ℕ → Bool
passes_under test zero = true
passes_under test (suc k) = if test k then passes_under test k else false

passes_at : (test : ℕ → Bool) (k i : ℕ) → i < k → passes_under test k ≡ true → test i ≡ true
unfolding passes_under
passes_at test zero i below all = absurd (omega arith)
passes_at test (suc k) i below all = ground (arith, passes_at test k i)

infix 50 ◌=b=◌
abbrev ◌=b=◌ : Bool → Bool → Bool
true =b= b = b
false =b= b = not b

=b=→eq : (a b : Bool) → (a =b= b) ≡ true → a ≡ b
=b=→eq a b h = ground arith

-- every byte and every pair of positions
abbrev good_at : ℕ → ℕ → ℕ → Bool
good_at bits i j = test_bit (set_bit bits i) j =b= (i == j || test_bit bits j)

abbrev good_row : ℕ → ℕ → Bool
good_row bits i = passes_under (good_at bits i) 8

abbrev good_byte : ℕ → Bool
good_byte bits = passes_under (good_row bits) 8

bits_table : passes_under good_byte 256 ≡ true
unfolding passes_under test_bit set_bit
bits_table = refl

-- Setting one of the eight bits of a byte turns that bit on and leaves every other bit of the byte
-- as it was.
pub test_bit-set_bit :
    (bits i j : ℕ)
    → bits < 2 ^ 8
    → i < 8
    → j < 8
    → test_bit (set_bit bits i) j ≡ (i == j || test_bit bits j)
test_bit-set_bit bits i j byte hi hj =
    let rows = passes_at good_byte 256 bits byte bits_table in
    let row = passes_at (good_row bits) 8 i hi rows in
    =b=→eq _ _ (passes_at (good_at bits i) 8 j hj row)

pub set_bit_bound : (bits i : ℕ) → set_bit bits i < 2 ^ 8
unfolding set_bit
set_bit_bound bits i = omega arith
