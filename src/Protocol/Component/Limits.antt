-- ===== src/Protocol/Component/Limits.antt =====
-- What happens to strings beyond the width of their length, and to strings whose bytes are missing.
use mmkvc.Prelude.{
  ℕ, ◌%◌, ◌^◌, ◌<◌, ◌≤◌, ◌≡◌, refl, sym, ◌∙◌, ap, Bool, true, false, List, ◌++◌, length, take, drop,
  arith, append_assoc, length-take, take-append-drop,
}
use mmkvc.External.Varint.{Varint}
use mmkvc.External.ByteBuffer.{ByteBuffer}
use mmkvc.Protocol.Types.{Str}
use mmkvc.Protocol.Parser.{ok, stray, bind, unchecked, Reads, Reads-bind, Reads-unchecked}
use mmkvc.Protocol.Component.Serialize.{serialize_string}
use mmkvc.Protocol.Component.Parse.{parse_unsigned, take_bytes, read_sized, parse_string}
use mmkvc.Protocol.Component.Image.{string_bits, sized, readable-serialize_string}
use mmkvc.Protocol.Component.RoundTrip.{parse_unsigned-Reads, take_bytes-Reads}

module _ ⦃kv : Varint⦄ ⦃kb : ByteBuffer⦄ where
  open kv use {encode}
  open kb use {Buffer, readable, empty, readable-empty}

  regroup :
      (header front back rest : List ℕ)
      → (header ++ (front ++ back)) ++ rest ≡ (header ++ front) ++ (back ++ rest)
  regroup header front back rest = simp append_assoc

  header-Reads :
      (bits : ℕ) (n : ℕ)
      → bits ≤ 64
      → n < 2 ^ bits
      → Reads (unchecked (parse_unsigned bits)) (encode bits n) n
  header-Reads bits n wide small =
      Reads-unchecked _ _ _ (parse_unsigned-Reads bits bits n (omega arith) wide small)

  -- a length, and at least as many bytes
  read_sized-Reads :
      (bits : ℕ) (s : Str)
      → bits ≤ 64
      → length s < 2 ^ bits
      → Reads (read_sized bits) (encode bits (length s) ++ s) s
  unfolding read_sized
  read_sized-Reads bits s wide small =
      Reads-bind _ _ _ _ _ _ (header-Reads bits (length s) wide small) (take_bytes-Reads s)

  read_sized-sized :
      (bits : ℕ) (s : Str) (b : Buffer) (rest : List ℕ)
      → bits ≤ 64
      → length s % 2 ^ bits < 2 ^ bits
      → length s % 2 ^ bits ≤ length s
      → readable b ≡ sized bits s ++ rest
      → (b' : Buffer) × (read_sized bits b ≡ ok (take (length s % 2 ^ bits) s, b'))
        × (readable b' ≡ drop (length s % 2 ^ bits) s ++ rest)
  read_sized-sized bits s b rest wide small le e =
      let n = length s % 2 ^ bits in
      let kept : length (take n s) ≡ n = omega (arith, length-take n s) in
      let wire : readable b ≡ (encode bits (length (take n s)) ++ take n s) ++ (drop n s ++ rest) =
        rw kept (
          e
          ∙ ap (λ l. (encode bits n ++ l) ++ rest) (sym (take-append-drop n s))
          ∙ regroup (encode bits n) (take n s) (drop n s) rest) in
      read_sized-Reads bits (take n s) wide (omega arith) b (drop n s ++ rest) wire

  take_bytes-stray : (n : ℕ) (b : Buffer) → length (readable b) < n → take_bytes n b ≡ stray
  unfolding take_bytes
  take_bytes-stray n b h = ground arith

  read_sized-then :
      (bits : ℕ) (b b₁ : Buffer) (n : ℕ)
      → unchecked (parse_unsigned bits) b ≡ ok (n, b₁)
      → read_sized bits b ≡ take_bytes n b₁
  unfolding read_sized
  read_sized-then bits b b₁ n run = ap (λ r. bind r λ (x, b'). take_bytes x b') run

  bits_bound :
      (is_16 : Bool) (n : ℕ)
      → (n % 2 ^ string_bits is_16 < 2 ^ string_bits is_16) × (n % 2 ^ string_bits is_16 ≤ n)
  bits_bound true n = omega arith
  bits_bound false n = omega arith

  string_bits-le : (is_16 : Bool) → string_bits is_16 ≤ 64
  string_bits-le true = omega arith
  string_bits-le false = omega arith

  parse_string-read_sized :
      (is_16 : Bool) (b : Buffer) → parse_string is_16 b ≡ read_sized (string_bits is_16) b
  unfolding parse_string
  parse_string-read_sized true b = refl
  parse_string-read_sized false b = refl

  -- A string of any length, serialised with a 16-bit or a 32-bit length, is parsed as its first
  -- `length s % 2 ^ bits` bytes; the other bytes of the string are left in the buffer, in front of
  -- what follows.
  pub parse_string-serialize_string :
      (is_16 : Bool) (s : Str) (b : Buffer) (rest : List ℕ)
      → readable b ≡ readable (serialize_string is_16 s empty) ++ rest
      → (b' : Buffer) × (parse_string is_16 b ≡ ok (take (length s % 2 ^ string_bits is_16) s, b'))
        × (readable b' ≡ drop (length s % 2 ^ string_bits is_16) s ++ rest)
  parse_string-serialize_string is_16 s b rest e =
      let bits = string_bits is_16 in
      let wire : readable b ≡ sized bits s ++ rest =
        e
        ∙ ap (λ l. l ++ rest)
            (readable-serialize_string is_16 s empty
              ∙ ap (λ l. l ++ sized bits s) readable-empty) in
      let (small, le) = bits_bound is_16 (length s) in
      rw (parse_string-read_sized is_16 b)
        (read_sized-sized bits s b rest (string_bits-le is_16) small le wire)

  -- A string whose length says more bytes than the buffer holds is not rejected: the parser copies
  -- bytes from behind the readable ones.
  pub parse_string-stray :
      (is_16 : Bool) (len : ℕ) (b : Buffer) (rest : List ℕ)
      → len < 2 ^ string_bits is_16
      → readable b ≡ encode (string_bits is_16) len ++ rest
      → length rest < len
      → parse_string is_16 b ≡ stray
  parse_string-stray is_16 len b rest small e missing =
      let bits = string_bits is_16 in
      let (b₁, run, left) = header-Reads bits len (string_bits-le is_16) small b rest e in
      let short : take_bytes len b₁ ≡ stray = take_bytes-stray len b₁ (rw left missing) in
      rw (parse_string-read_sized is_16 b) (read_sized-then bits b b₁ len run ∙ short)
