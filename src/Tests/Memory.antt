-- ===== src/Tests/Memory.antt =====
-- A concrete buffer, its bytes in a list, and a concrete 32-bit hash.
use mmkvc.Prelude.{
  ℕ, zero, suc, ◌+◌, ◌*◌, ◌/◌, ◌%◌, ◌^◌, ◌<◌, ◌≡◌, refl, ◌∙◌, List, [], ◌∷◌, ◌++◌, foldl, flatten,
  drop, length, ap, arith, append-nil,
}
use native.Mathlib.Nat.{mod-eq_of_lt}
use mmkvc.External.ByteBuffer.{ByteBuffer}
use mmkvc.External.Checksum.{Checksum}

-- `n` bytes of a number, the highest first, and the number that bytes stand for
unfoldable pub big_endian : ℕ → ℕ → List ℕ
big_endian zero x = []
big_endian (suc n) x = x / 256 ^ n % 256 ∷ big_endian n x

unfoldable pub from_bytes : ℕ → List ℕ → ℕ
from_bytes acc [] = acc
from_bytes acc (b ∷ bs) = from_bytes (256 * acc + b) bs

pub length-big_endian : (n x : ℕ) → length (big_endian n x) ≡ n
unfolding big_endian
length-big_endian zero x = refl
length-big_endian (suc n) x = ap suc (length-big_endian n x)

pub from_bytes-big_endian32 : (x : ℕ) → x < 2 ^ 32 → from_bytes 0 (big_endian 4 x) ≡ x
unfolding big_endian from_bytes
from_bytes-big_endian32 x h = omega arith

pub from_bytes-big_endian64 : (x : ℕ) → x < 2 ^ 64 → from_bytes 0 (big_endian 8 x) ≡ x
unfolding big_endian from_bytes
from_bytes-big_endian64 x h = omega arith

pub flatten-one : (b : List ℕ) → flatten (b ∷ []) ≡ b
unfolding flatten
flatten-one b = append-nil b

instance abbrev pub list_buffer : ByteBuffer
list_buffer = record {
  Buffer = List ℕ;
  empty = [];
  readable = λ b. b;
  chunks = λ b. b ∷ [];
  advance_read = λ n b. drop n b;
  advance_all = λ b. [];
  shrink = λ b. b;
  append = λ bytes b. b ++ bytes;
  prepend = λ bytes b. bytes ++ b;
  bytes32 = big_endian 4;
  bytes64 = big_endian 8;
  word32 = from_bytes 0;
  word64 = from_bytes 0;
  readable-empty = refl;
  flatten-chunks = flatten-one;
  readable-advance_read = λ n b h. refl;
  readable-advance_all = λ b. refl;
  readable-shrink = λ b. refl;
  readable-append = λ bytes b. refl;
  readable-prepend = λ bytes b. refl;
  length-bytes32 = length-big_endian 4;
  length-bytes64 = length-big_endian 8;
  word32-bytes32 = from_bytes-big_endian32;
  word64-bytes64 = from_bytes-big_endian64;
}

unfoldable pub mix : ℕ → ℕ → ℕ
mix acc b = (31 * acc + b + 7) % 2 ^ 32

mix-lt : (acc b : ℕ) → mix acc b < 2 ^ 32
unfolding mix
mix-lt acc b = omega arith

unfoldable pub mix_all : ℕ → List ℕ → ℕ
unfolding mix
mix_all acc [] = acc % 2 ^ 32
mix_all acc (b ∷ bs) = mix_all (mix acc b) bs

pub mix_all-lt : (acc : ℕ) (bytes : List ℕ) → mix_all acc bytes < 2 ^ 32
unfolding mix_all
mix_all-lt acc [] = omega arith
mix_all-lt acc (b ∷ bs) = mix_all-lt (mix acc b) bs

mix_all-append :
    (acc : ℕ) (xs ys : List ℕ) → acc < 2 ^ 32 → mix_all (mix_all acc xs) ys ≡ mix_all acc (xs ++ ys)
unfolding mix_all
mix_all-append acc [] ys h = rw (mod-eq_of_lt h)
mix_all-append acc (x ∷ xs) ys h = mix_all-append (mix acc x) xs ys (mix-lt acc x)

mix_chunks :
    (acc : ℕ) (chunks : List (List ℕ))
    → acc < 2 ^ 32
    → foldl mix_all acc chunks % 2 ^ 32 ≡ mix_all acc (flatten chunks)
unfolding flatten mix_all
mix_chunks acc [] h = refl
mix_chunks acc (c ∷ cs) h =
    mix_chunks (mix_all acc c) cs (mix_all-lt acc c) ∙ mix_all-append acc c (flatten cs) h

pub mix-update :
    (chunks : List (List ℕ)) → foldl mix_all 0 chunks % 2 ^ 32 ≡ mix_all 0 (flatten chunks)
mix-update chunks = mix_chunks 0 chunks (omega arith)

instance abbrev pub mixing : Checksum
mixing = record {
  State = ℕ;
  xxh32 = mix_all 0;
  reset = 0;
  update = mix_all;
  digest = λ s. s % 2 ^ 32;
  xxh32_bound = mix_all-lt 0;
  digest-update = mix-update;
}
