-- ===== src/Protocol/Codec/Sound.antt =====
-- What a delivered message has passed, and what makes the loop report each error.
use mmkvc.Prelude.{
  ℕ, ◌+◌, ◌-◌, ◌<◌, ◌≤◌, ◌≡◌, refl, sym, ◌∙◌, ap, true, List, length, take, drop, length-drop,
  ==_iff, bytes_eq, bytes_eq→eq, arith,
}
use mmkvc.External.Varint.{Varint, Decoded, decoded, buf_short, buf_invalid}
use mmkvc.External.ByteBuffer.{ByteBuffer}
use mmkvc.External.Checksum.{Checksum}
use mmkvc.Protocol.Codec.{
  mmbp_tag, min_size, max_size, Event, stop, delivered, verify_check_sum, open_frame, check_header,
  turn,
}

stop-ne-delivered {ℓ} :
    {B : Type 0} {A : Type ℓ} {es : List (Event B)} {b at next : B} {n : ℕ}
    → stop es b ≡ delivered at n next
    → A
stop-ne-delivered p = cc

module _ ⦃kv : Varint⦄ ⦃kb : ByteBuffer⦄ ⦃ck : Checksum⦄ where
  open kv use {decode, decode_bounds}
  open kb use {Buffer, readable, word32, advance_read, readable-advance_read}
  open ck use {xxh32}

  -- The bytes of `b` start with a whole frame: a size header of `len` bytes that says `size`, the tag,
  -- `n` bytes of message, and the checksum of tag and message.
  pub record StartsWithFrame (b : Buffer) (n len size : ℕ) : Type 0 where
    pub header : decode 32 (readable b) ≡ decoded len size
    pub large_enough : min_size ≤ size
    pub small_enough : size + len < max_size
    pub whole : len + size ≤ length (readable b)
    pub payload_size : n + min_size ≡ size
    pub tag : take 4 (drop len (readable b)) ≡ mmbp_tag
    pub checksum :
        xxh32 (take (size - 4) (drop len (readable b)))
        ≡ word32 (take 4 (drop (size - 4) (drop len (readable b))))

  verify_check_sum→eq :
      (b : Buffer) (size : ℕ)
      → verify_check_sum b size ≡ true
      → xxh32 (take (size - 4) (readable b)) ≡ word32 (take 4 (drop (size - 4) (readable b)))
  unfolding verify_check_sum
  verify_check_sum→eq b size h = (==_iff _ _).0 h

  open_frame_sound :
      (cb : Buffer → ℕ → Buffer) (size : ℕ) (b at next : Buffer) (n : ℕ)
      → open_frame cb size b ≡ delivered at n next
      → (verify_check_sum b size ≡ true)
        × (bytes_eq (take 4 (readable b)) mmbp_tag ≡ true)
        × (n ≡ size - 4 - 4)
        × (at ≡ advance_read 4 b)
        × (next ≡ advance_read 4 (cb at n))
  unfolding open_frame
  open_frame_sound cb size b at next n e = ground arith

  check_header_sound :
      (cb : Buffer → ℕ → Buffer) (len size : ℕ) (b at next : Buffer) (n : ℕ)
      → check_header cb len size b ≡ delivered at n next
      → (min_size ≤ size)
        × (size < max_size - len)
        × (size ≤ length (readable b) - len)
        × (open_frame cb size (advance_read len b) ≡ delivered at n next)
  unfolding check_header
  check_header_sound cb len size b at next n e = ground arith

  turn_sound :
      (cb : Buffer → ℕ → Buffer) (b at next : Buffer) (n : ℕ)
      → turn cb b ≡ delivered at n next
      → (len size : ℕ) × (decode 32 (readable b) ≡ decoded len size)
        × (check_header cb len size b ≡ delivered at n next)
  unfolding turn
  turn_sound cb b at next n e = go (decode 32 (readable b)) refl
    where
      go :
          (d : Decoded)
          → decode 32 (readable b) ≡ d
          → (len size : ℕ) × (decode 32 (readable b) ≡ decoded len size)
            × (check_header cb len size b ≡ delivered at n next)
      go (decoded len size) p = (len, size, p, rw (turn, p) at e)
      go buf_short p = stop-ne-delivered (rw (turn, p) at e)
      go buf_invalid p = stop-ne-delivered (rw (turn, p) at e)

  -- A message is delivered only where the buffer starts with a whole frame whose size is in range
  -- and whose tag and checksum are right; the callback then sees the buffer behind the tag, and
  -- the loop goes on four bytes behind where the callback stops.
  pub turn-StartsWithFrame :
      (cb : Buffer → ℕ → Buffer) (b at next : Buffer) (n : ℕ)
      → turn cb b ≡ delivered at n next
      → (len size : ℕ) × StartsWithFrame b n len size
        × (readable at ≡ drop 4 (drop len (readable b)))
        × (next ≡ advance_read 4 (cb at n))
  turn-StartsWithFrame cb b at next n e =
      let (len, size, run, checked) = turn_sound cb b at next n e in
      let (lo, hi, whole, opened) = check_header_sound cb len size b at next n checked in
      let (sum, tag, count, here, left) = open_frame_sound cb size _ at next n opened in
      let bounds = decode_bounds 32 (readable b) run in
      let body : readable (advance_read len b) ≡ drop len (readable b) =
        readable-advance_read len b bounds.1 in
      let fits : 4 ≤ length (readable (advance_read len b)) =
        rw body (omega (arith, length-drop len (readable b))) in
      (
        len,
        size,
        record {
          header = run;
          large_enough = lo;
          small_enough = omega arith;
          whole = omega arith;
          payload_size = omega arith;
          tag = ap (take 4) (sym body) ∙ bytes_eq→eq _ _ tag;
          checksum = rw body at (verify_check_sum→eq (advance_read len b) size sum);
        },
        rw here (readable-advance_read 4 (advance_read len b) fits ∙ ap (drop 4) body),
        left,
      )
