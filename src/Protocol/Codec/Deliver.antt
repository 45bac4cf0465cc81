-- ===== src/Protocol/Codec/Deliver.antt =====
-- One turn of the message loop: a whole frame is delivered, a part of one waits, and what is
-- delivered passed every check.
use mmkvc.Prelude.{
  ℕ, ◌+◌, ◌-◌, ◌<◌, ◌≤◌, ◌≡◌, ◌≢◌, refl, sym, ◌∙◌, ap, inl, inr, split_append, length_pos, lt→ltb,
  true, false, List, [], ◌++◌, length, take, drop, append_assoc, length-append, take-append_at,
  drop-append_at, drop-append, ==_iff, ltb, leb, ◌||◌, bytes_eq, arith,
}
use mmkvc.External.Varint.{Varint, decoded, buf_short}
use mmkvc.External.ByteBuffer.{ByteBuffer}
use mmkvc.External.Checksum.{Checksum}
use mmkvc.Protocol.Codec.{
  mmbp_tag, min_size, max_size, stop, delivered, verify_check_sum, open_frame, check_header, turn,
}
use mmkvc.Protocol.Codec.Frame.{frame, tagged, checksum}

module _ ⦃kv : Varint⦄ ⦃kb : ByteBuffer⦄ ⦃ck : Checksum⦄ where
  open kv use {encode, decode, decode-encode, decode_prefix, decode_bounds, length-encode32}
  open kb use {
    Buffer, readable, bytes32, word32, advance_read, readable-advance_read, length-bytes32,
    word32-bytes32,
  }
  open ck use {xxh32, xxh32_bound}

  -- The message callback takes exactly the message off the buffer.
  abbrev pub Consumes : (Buffer → ℕ → Buffer) → Type 0
  Consumes message_cb =
      (b : Buffer) (n : ℕ)
      → n ≤ length (readable b)
      → readable (message_cb b n) ≡ drop n (readable b)

  -- The message callback takes the message `payload` off the buffer, whatever follows it.
  abbrev pub Takes : (Buffer → ℕ → Buffer) → List ℕ → Type 0
  Takes message_cb payload =
      (b : Buffer) (rest : List ℕ)
      → readable b ≡ payload ++ rest
      → readable (message_cb b (length payload)) ≡ rest

  pub Consumes-Takes :
      (cb : Buffer → ℕ → Buffer) (payload : List ℕ) → Consumes cb → Takes cb payload
  Consumes-Takes cb payload consumes b rest e =
      consumes b (length payload) (rw e (omega (arith, length-append payload rest)))
      ∙ rw e (drop-append payload rest)

  advance-append :
      (b : Buffer) (xs ys : List ℕ) (n : ℕ)
      → length xs ≡ n
      → readable b ≡ xs ++ ys
      → readable (advance_read n b) ≡ ys
  advance-append b xs ys n len e =
      readable-advance_read n b (rw (e, ← len) (omega (arith, length-append xs ys)))
      ∙ rw (e, ← len) (drop-append xs ys)

  -- the bytes of a frame behind its size header
  abbrev inside : List ℕ → List ℕ
  inside payload = tagged payload ++ checksum payload

  verify_check_sum-inside :
      (payload rest : List ℕ) (b : Buffer)
      → readable b ≡ inside payload ++ rest
      → verify_check_sum b (length payload + min_size) ≡ true
  unfolding verify_check_sum
  verify_check_sum-inside payload rest b e =
      let n = length payload + min_size - 4 in
      let at : n ≡ length (tagged payload) = omega arith in
      let e' : readable b ≡ tagged payload ++ (checksum payload ++ rest) =
        e ∙ append_assoc (tagged payload) (checksum payload) rest in
      let covered : take n (readable b) ≡ tagged payload =
        rw e' (take-append_at n (tagged payload) _ at) in
      let behind : drop n (readable b) ≡ checksum payload ++ rest =
        rw e' (drop-append_at n (tagged payload) _ at) in
      let sum : take 4 (checksum payload ++ rest) ≡ checksum payload =
        take-append_at 4 (checksum payload) rest (sym (length-bytes32 _)) in
      let equal : xxh32 (take n (readable b)) ≡ word32 (take 4 (drop n (readable b))) =
        rw (covered, behind, sum) (sym (word32-bytes32 _ (xxh32_bound _))) in
      (==_iff _ _).1 equal

  -- Behind its size header a frame is delivered: the callback sees the payload in front of what
  -- follows, and the loop goes on with what follows the frame.
  open_frame-inside :
      (cb : Buffer → ℕ → Buffer) (payload rest : List ℕ) (b : Buffer)
      → Takes cb payload
      → readable b ≡ inside payload ++ rest
      → (at next : Buffer) × (open_frame cb (length payload + min_size) b
          ≡ delivered at (length payload) next)
        × (readable at ≡ payload ++ (checksum payload ++ rest))
        × (readable next ≡ rest)
  unfolding open_frame
  open_frame-inside cb payload rest b taken e =
      let at = advance_read 4 b in
      let n = length payload in
      let size : n + min_size - 4 - 4 ≡ n = omega arith in
      let e' : readable b ≡ mmbp_tag ++ (payload ++ (checksum payload ++ rest)) =
        e ∙ ap (λ l. mmbp_tag ++ l) (append_assoc payload (checksum payload) rest) in
      let here = advance-append b mmbp_tag (payload ++ (checksum payload ++ rest)) 4 refl e' in
      let after : readable (cb at n) ≡ checksum payload ++ rest =
        taken at (checksum payload ++ rest) here in
      let tag : bytes_eq (take 4 (readable b)) mmbp_tag ≡ true = rw e' refl in
      (
        at,
        advance_read 4 (cb at n),
        rw (verify_check_sum-inside payload rest b e, tag, size),
        here,
        advance-append (cb at n) (checksum payload) rest 4 (length-bytes32 _) after,
      )

  -- The largest payload whose frame the loop accepts whatever the length of the size header.
  abbrev pub IsFrameable : List ℕ → Type 0
  IsFrameable payload = length payload + min_size + 5 < max_size

  -- the tests on the size header pass
  header_passes :
      (n size : ℕ)
      → min_size ≤ size
      → size + n < max_size
      → ltb size min_size || leb (max_size - n) size ≡ false
  header_passes n size lo hi = ground arith

  turn-decoded :
      (cb : Buffer → ℕ → Buffer) (b : Buffer) {n size : ℕ}
      → decode 32 (readable b) ≡ decoded n size
      → ltb size min_size || leb (max_size - n) size ≡ false
      → ltb (length (readable b) - n) size ≡ false
      → turn cb b ≡ open_frame cb size (advance_read n b)
  unfolding turn check_header
  turn-decoded cb b run passes whole = rw (turn, run) (rw (passes, whole))

  turn_waits :
      (cb : Buffer → ℕ → Buffer) (b : Buffer) {n size : ℕ}
      → decode 32 (readable b) ≡ decoded n size
      → ltb size min_size || leb (max_size - n) size ≡ false
      → ltb (length (readable b) - n) size ≡ true
      → turn cb b ≡ stop [] b
  unfolding turn check_header
  turn_waits cb b run passes part = rw (turn, run) (rw (passes, part))

  -- One turn on a buffer that starts with a frame delivers its payload: the callback sees the payload
  -- in front of what follows it, and the loop goes on with what follows the frame.
  pub turn-frame :
      (cb : Buffer → ℕ → Buffer) (payload rest : List ℕ) (b : Buffer)
      → Takes cb payload
      → IsFrameable payload
      → readable b ≡ frame payload ++ rest
      → (at next : Buffer) × (turn cb b ≡ delivered at (length payload) next)
        × (readable at ≡ payload ++ (checksum payload ++ rest))
        × (readable next ≡ rest)
  unfolding turn frame
  turn-frame cb payload rest b taken small e =
      let size = length payload + min_size in
      let header = encode 32 size in
      let e' : readable b ≡ header ++ (inside payload ++ rest) =
        e ∙ append_assoc header (inside payload) rest in
      let short = length-encode32 size in
      let size_of : length (readable b) ≡ length header + (size + length rest) = rw e' (
        omega (
          arith,
          length-append header (inside payload ++ rest),
          length-append (inside payload) rest,
          length-append payload (checksum payload),
          length-bytes32 (xxh32 (tagged payload)),
        )) in
      let run : decode 32 (readable b) ≡ decoded (length header) size =
        rw e' (decode-encode 32 32 size _ (omega arith) (omega arith) (omega arith)) in
      let whole : ltb (length (readable b) - length header) size ≡ false =
        rw size_of (ground arith) in
      let passes = header_passes (length header) size (omega arith) (omega arith) in
      let (at, next, open_run, here, left) =
        open_frame-inside cb payload rest (advance_read (length header) b) taken
          (advance-append b header _ (length header) refl e') in
      (at, next, turn-decoded cb b run passes whole ∙ open_run, here, left)

  -- One turn on a proper prefix of a frame that is small enough does nothing: no event, and the
  -- buffer stays as it is.
  pub turn_prefix :
      (cb : Buffer → ℕ → Buffer) (payload front back : List ℕ) (b : Buffer)
      → IsFrameable payload
      → frame payload ≡ front ++ back
      → back ≢ []
      → readable b ≡ front
      → turn cb b ≡ stop [] b
  unfolding turn frame
  turn_prefix cb payload front back b small cut more e =
      let size = length payload + min_size in
      let header = encode 32 size in
      elim (split_append front back header (inside payload) (sym cut)) [
        | inl (rest, p, q) ↦
            let run : decode 32 (readable b) ≡ buf_short =
              rw e (decode_prefix 32 size front rest (omega arith) (omega arith) p q) in
            rw (turn, run)
        | inr (got, p, q) ↦
            let run : decode 32 (readable b) ≡ decoded (length header) size =
              rw (e, p) (decode-encode 32 32 size got (omega arith) (omega arith) (omega arith)) in
            let missing : 0 < length back = length_pos back more in
            let short = length-encode32 size in
            let part : ltb (length (readable b) - length header) size ≡ true = lt→ltb _ _ (
              rw (e, p)
                (omega (
                  arith,
                  length-append header got,
                  ap length q,
                  length-append got back,
                  length-append payload (checksum payload),
                  length-bytes32 (xxh32 (tagged payload)),
                ))) in
            turn_waits cb b run (header_passes (length header) size (omega arith) (omega arith))
              part
      ]
