-- ===== src/Protocol/Codec/ErrorReply.antt =====
-- The error callback that the constructor of `MmbpCodec` installs: it answers with a response, which
-- it serialises without a frame.
use mmkvc.Prelude.{ℕ, ◌≡◌, ◌∙◌, ap, List, [], ◌∷◌, ◌++◌, length, append_assoc, arith}
use mmkvc.External.Varint.{Varint, decoded}
use mmkvc.External.ByteBuffer.{ByteBuffer}
use mmkvc.External.Checksum.{Checksum}
use mmkvc.Protocol.Response.{Response, new_response, serialize_to}
use mmkvc.Protocol.Response.Image.{response_image, body_image, readable-serialize_to}
use mmkvc.Protocol.Codec.{stop, error, invalid_size_header, check_header, turn}

module _ ⦃kv : Varint⦄ ⦃kb : ByteBuffer⦄ where
  open kb use {Buffer, empty}

  -- `S_INVALID_MESSAGE`; `count` is what the constructor leaves unset
  unfoldable pub error_reply : ℕ → Buffer
  error_reply count = serialize_to (record (new_response count) { status_code = 3 }) empty

module _ ⦃kv : Varint⦄ ⦃kb : ByteBuffer⦄ ⦃ck : Checksum⦄ where
  open kv use {encode, decode, decode-encode}
  open kb use {Buffer, readable, empty, readable-empty}

  -- The codec at the other end does not take the error reply for a message: it reads the status
  -- code as a size header and reports an invalid size, whatever follows the reply.
  pub turn-error_reply :
      (cb : Buffer → ℕ → Buffer) (count : ℕ) (b : Buffer) (rest : List ℕ)
      → readable b ≡ readable (error_reply count) ++ rest
      → turn cb b ≡ stop (error invalid_size_header ∷ []) b
  unfolding error_reply turn check_header response_image new_response
  turn-error_reply cb count b rest e =
      let r : Response = record (new_response count) { status_code = 3 } in
      let sent : readable (error_reply count) ≡ response_image r =
        readable-serialize_to r empty ∙ ap (λ l. l ++ response_image r) readable-empty in
      let tail = (encode 8 r.has_bits ++ body_image r) ++ rest in
      let wire : readable b ≡ encode 8 3 ++ tail =
        e
        ∙ ap (λ l. l ++ rest) sent
        ∙ append_assoc (encode 8 3) (encode 8 r.has_bits ++ body_image r) rest in
      let run : decode 32 (readable b) ≡ decoded (length (encode 8 3)) 3 =
        rw wire (decode-encode 8 32 3 tail (omega arith) (omega arith) (omega arith)) in
      rw (turn, run)
