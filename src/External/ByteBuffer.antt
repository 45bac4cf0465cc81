-- ===== src/External/ByteBuffer.antt =====
-- kanon's `Buffer` and `ChunkList`, seen through the bytes that they hold: a queue of bytes that is
-- read at the front and appended to at the back. Numbers of fixed size travel in network order.
use mmkvc.Prelude.{ℕ, ◌^◌, ◌≤◌, ◌<◌, ◌≡◌, List, [], ◌++◌, length, drop, flatten}

pub record ByteBuffer : Type 1 where
  pub Buffer : Type 0
  pub empty : Buffer
  -- the `GetReadableSize()` bytes from `GetReadBegin()` on
  pub readable : Buffer → List ℕ
  -- the same bytes, chunk by chunk, as iterating over a `ChunkList` gives them
  pub chunks : Buffer → List (List ℕ)
  pub advance_read : ℕ → Buffer → Buffer
  pub advance_all : Buffer → Buffer
  pub shrink : Buffer → Buffer
  pub append : List ℕ → Buffer → Buffer
  pub prepend : List ℕ → Buffer → Buffer
  -- the bytes of a 32-bit and of a 64-bit number in network order, and the numbers back
  pub bytes32 : ℕ → List ℕ
  pub bytes64 : ℕ → List ℕ
  pub word32 : List ℕ → ℕ
  pub word64 : List ℕ → ℕ
  pub readable-empty : readable empty ≡ []
  pub flatten-chunks : (b : Buffer) → flatten (chunks b) ≡ readable b
  pub readable-advance_read :
      (n : ℕ) (b : Buffer)
      → n ≤ length (readable b)
      → readable (advance_read n b) ≡ drop n (readable b)
  pub readable-advance_all : (b : Buffer) → readable (advance_all b) ≡ []
  pub readable-shrink : (b : Buffer) → readable (shrink b) ≡ readable b
  pub readable-append :
      (bytes : List ℕ) (b : Buffer) → readable (append bytes b) ≡ readable b ++ bytes
  pub readable-prepend :
      (bytes : List ℕ) (b : Buffer) → readable (prepend bytes b) ≡ bytes ++ readable b
  pub length-bytes32 : (x : ℕ) → length (bytes32 x) ≡ 4
  pub length-bytes64 : (x : ℕ) → length (bytes64 x) ≡ 8
  pub word32-bytes32 : (x : ℕ) → x < 2 ^ 32 → word32 (bytes32 x) ≡ x
  pub word64-bytes64 : (x : ℕ) → x < 2 ^ 64 → word64 (bytes64 x) ≡ x
