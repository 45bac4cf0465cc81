-- ===== src/Protocol/Request/RoundTrip.antt =====
-- A request object parses back what another one was serialised to.
use mmkvc.Prelude.{ℕ, ◌^◌, ◌<◌, ◌≡◌, refl, ◌∙◌, ap, true, false, List, ◌++◌, arith}
use mmkvc.External.Varint.{Varint}
use mmkvc.External.ByteBuffer.{ByteBuffer}
use mmkvc.Protocol.Parser.{ok, Reads, Reads-pure, Reads-then, Reads-bind, Reads-if, Reads-unchecked}
use mmkvc.Protocol.HasBits.{test_bit}
use mmkvc.Protocol.Component.RoundTrip.{
  parse_unsigned-Reads, parse_signed-Reads, parse_string-Reads, parse_values-Reads, parse_kvs-Reads,
  parse_weights-Reads,
}
use mmkvc.Protocol.Request.{
  Request, count, serialize_to, parse_body, parse_key, parse_expire_time, parse_from,
  set_count_field,
}
use mmkvc.Protocol.Request.Image.{
  IsSendable, receive, receive_body, receive_key, receive_expire_time, request_image, body_image,
  key_image, expire_time_image, readable-serialize_to,
}

module _ ⦃kv : Varint⦄ ⦃kb : ByteBuffer⦄ where
  open kv use {encode, encode_signed}
  open kb use {Buffer, readable, empty, readable-empty}

  -- Both objects announce the same fields.
  module _ (old sent : Request) (bits : old.has_bits ≡ sent.has_bits) (fit : IsSendable sent) where
    same : (i : ℕ) → test_bit old.has_bits i ≡ test_bit sent.has_bits i
    same i = ap (λ b. test_bit b i) bits

    count-lt : count sent < 2 ^ 32
    count-lt = omega arith

    parse_body-Reads : Reads (parse_body old) (body_image sent) (receive_body old sent)
    unfolding parse_body body_image receive_body
    parse_body-Reads =
        Reads-if _ _ _ _ _ _ _ _ (same 1)
          (Reads-then _ _ _ _ (parse_string-Reads false sent.value fit.value_fits))
          (Reads-if _ _ _ _ _ _ _ _ (same 3)
            (Reads-then _ _ _ _
              (parse_values-Reads old.values sent.values fit.values_count fit.values_fit))
            (Reads-if _ _ _ _ _ _ _ _ (same 4)
              (Reads-then _ _ _ _ (parse_kvs-Reads old.kvs sent.kvs fit.kvs_count fit.kvs_fit))
              (Reads-if _ _ _ _ _ _ _ _ (same 5)
                (Reads-then _ _ _ _ (
                  Reads-unchecked _ _ _
                    (parse_unsigned-Reads 32 32 (count sent) (omega arith) (omega arith) count-lt)))
                (Reads-if _ _ _ _ _ _ _ _ (same 6)
                  (Reads-bind _ _ _ _ _ _ (parse_signed-Reads sent.union_left fit.left_fits)
                    (Reads-then _ _ _ _ (parse_signed-Reads sent.union_right fit.right_fits)))
                  (Reads-if _ _ _ _ _ _ _ _ (same 7)
                    (Reads-then _ _ _ _ (
                      parse_weights-Reads old.vmembers sent.vmembers fit.vmembers_count
                        fit.vmembers_fit))
                    (Reads-pure old))))))

    parse_key-Reads : Reads (parse_key old) (key_image sent) (receive_key old sent)
    unfolding parse_key key_image receive_key
    parse_key-Reads =
        Reads-if _ _ _ _ _ _ _ _ (same 0)
          (Reads-then _ _ _ _ (parse_string-Reads true sent.key fit.key_fits)) (Reads-pure old)

    parse_expire_time-Reads :
        Reads (parse_expire_time old) (expire_time_image sent) (receive_expire_time old sent)
    unfolding parse_expire_time expire_time_image receive_expire_time
    parse_expire_time-Reads =
        Reads-if _ _ _ _ _ _ _ _ (same 2)
          (Reads-then _ _ _ _ (
            Reads-unchecked _ _ _ (
              parse_unsigned-Reads 64 64 sent.expire_time (omega arith) (omega arith)
                fit.expire_time_fits)))
          (Reads-pure old)

  receive_key-has_bits : (old sent : Request) → (receive_key old sent).has_bits ≡ old.has_bits
  unfolding receive_key
  receive_key-has_bits old sent = ground arith

  receive_body-has_bits : (old sent : Request) → (receive_body old sent).has_bits ≡ old.has_bits
  unfolding receive_body set_count_field
  receive_body-has_bits old sent = ground arith

  pub parse_from-Reads :
      (old sent : Request)
      → IsSendable sent
      → Reads (parse_from old) (request_image sent) (receive old sent)
  unfolding parse_from request_image receive
  parse_from-Reads old sent fit =
      let header = record old { command = sent.command; has_bits = sent.has_bits } in
      let keyed = receive_key header sent in
      let whole = receive_body keyed sent in
      let keyed_bits = receive_key-has_bits header sent in
      let whole_bits = receive_body-has_bits keyed sent ∙ keyed_bits in
      Reads-bind _ _ _ _ _ _
        (parse_unsigned-Reads 16 16 sent.command (omega arith) (omega arith) fit.command_fits)
        (Reads-bind _ _ _ _ _ _
          (parse_unsigned-Reads 8 8 sent.has_bits (omega arith) (omega arith) fit.has_bits_fit)
          (Reads-bind _ _ _ _ _ _ (parse_key-Reads header sent refl fit) (
            Reads-bind _ _ _ _ _ _ (parse_body-Reads keyed sent keyed_bits fit)
              (parse_expire_time-Reads whole sent whole_bits fit))))

  -- Any request object, also one that was not reset, that parses the bytes of a sendable request,
  -- whatever follows them, succeeds, leaves what follows, and then holds what `receive` says: the
  -- announced fields are those that were sent, but in the vectors the new bytes stand behind those
  -- that the old elements held.
  pub parse_from-serialize_to :
      (old sent : Request) (b : Buffer) (rest : List ℕ)
      → IsSendable sent
      → readable b ≡ readable (serialize_to sent empty) ++ rest
      → (b' : Buffer) × (parse_from old b ≡ ok (receive old sent, b')) × (readable b' ≡ rest)
  parse_from-serialize_to old sent b rest fit e = parse_from-Reads old sent fit b rest (
      e
      ∙ ap (λ l. l ++ rest)
          (readable-serialize_to sent empty ∙ ap (λ l. l ++ request_image sent) readable-empty))
