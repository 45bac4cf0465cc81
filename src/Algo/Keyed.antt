-- ===== src/Algo/Keyed.antt =====
-- The template parameters of the hash table: `HF`, `EK` and `GK`, with what a hash table asks of them.
use mmkvc.Prelude.{ℕ, ◌≡◌, Bool, true}

pub record Keyed (T : Type 0) : Type 1 where
  pub Key : Type 0
  pub get_key : T → Key
  pub equal_key : Key → Key → Bool
  pub hash : Key → ℕ
  pub equal_key_refl : (a : Key) → equal_key a a ≡ true
  pub equal_key_comm : (a b : Key) → equal_key a b ≡ equal_key b a
  pub equal_key_trans :
      (a b c : Key) → equal_key a b ≡ true → equal_key b c ≡ true → equal_key a c ≡ true
  pub hash-equal_key : (a b : Key) → equal_key a b ≡ true → hash a ≡ hash b
