-- ===== src/External/Varint.antt =====
-- third-party kvarint: `kvarint_encode<bits>` and `kvarint_decode<bits>`, and the signed pair.
-- A byte is a number; a signed integer stands as its two's complement bit pattern.
use mmkvc.Prelude.{ℕ, ◌^◌, ◌≤◌, ◌<◌, ◌≡◌, ◌≢◌, List, [], ◌++◌, length}

-- `KVARINT_OK` with `*len` and the value, `KVARINT_DECODE_BUF_INVALID`, `KVARINT_DECODE_BUF_SHORT`
pub data Decoded : Type 0 where
  decoded : ℕ → ℕ → Decoded
  buf_invalid buf_short : Decoded

pub record Varint : Type 0 where
  pub encode : ℕ → ℕ → List ℕ
  pub decode : ℕ → List ℕ → Decoded
  pub encode_signed : ℕ → ℕ → List ℕ
  pub decode_signed : ℕ → List ℕ → Decoded
  -- A value reads back at its own width and at any wider one, whatever follows it.
  pub decode-encode :
      (v w x : ℕ) (rest : List ℕ)
      → v ≤ w
      → w ≤ 64
      → x < 2 ^ v
      → decode w (encode v x ++ rest) ≡ decoded (length (encode v x)) x
  pub decode_signed-encode :
      (x : ℕ) (rest : List ℕ)
      → x < 2 ^ 64
      → decode_signed 64 (encode_signed 64 x ++ rest) ≡ decoded (length (encode_signed 64 x)) x
  -- What was decoded lay in the buffer, took at least one byte and fits its width.
  pub decode_bounds :
      (w : ℕ) (bytes : List ℕ) {n x : ℕ}
      → decode w bytes ≡ decoded n x
      → (0 < n) × (n ≤ length bytes) × (x < 2 ^ w)
  -- A proper prefix of an encoding is reported as short.
  pub decode_prefix :
      (w x : ℕ) (front back : List ℕ)
      → w ≤ 64
      → x < 2 ^ w
      → encode w x ≡ front ++ back
      → back ≢ []
      → decode w front ≡ buf_short
  -- A 32-bit value takes at most five bytes.
  pub length-encode32 : (x : ℕ) → length (encode 32 x) ≤ 5
