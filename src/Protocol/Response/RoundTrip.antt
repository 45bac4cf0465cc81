-- ===== src/Protocol/Response/RoundTrip.antt =====
-- A response object parses back what another one was serialised to.
use mmkvc.Prelude.{ℕ, ◌≡◌, refl, ◌∙◌, ap, false, List, ◌++◌, arith}
use mmkvc.External.Varint.{Varint}
use mmkvc.External.ByteBuffer.{ByteBuffer}
use mmkvc.Protocol.Parser.{ok, Reads, Reads-pure, Reads-then, Reads-bind, Reads-if, Reads-unchecked}
use mmkvc.Protocol.HasBits.{test_bit}
use mmkvc.Protocol.Component.RoundTrip.{
  parse_unsigned-Reads, parse_string-Reads, parse_values-Reads, parse_kvs-Reads,
  parse_weights-Reads,
}
use mmkvc.Protocol.Response.{Response, serialize_to, parse_body, parse_from}
use mmkvc.Protocol.Response.Image.{
  IsSendable, receive, receive_body, response_image, body_image, readable-serialize_to,
}

module _ ⦃kv : Varint⦄ ⦃kb : ByteBuffer⦄ where
  open kb use {Buffer, readable, empty, readable-empty}

  parse_body-Reads :
      (old sent : Response)
      → old.has_bits ≡ sent.has_bits
      → IsSendable sent
      → Reads (parse_body old) (body_image sent) (receive_body old sent)
  unfolding parse_body body_image receive_body
  parse_body-Reads old sent bits fit =
      let same = λ (i : ℕ). ap (λ b. test_bit b i) bits in
      Reads-if _ _ _ _ _ _ _ _ (same 0)
        (Reads-then _ _ _ _ (parse_string-Reads false sent.value fit.value_fits))
        (Reads-if _ _ _ _ _ _ _ _ (same 1)
          (Reads-then _ _ _ _
            (parse_values-Reads old.values sent.values fit.values_count fit.values_fit))
          (Reads-if _ _ _ _ _ _ _ _ (same 2)
            (Reads-then _ _ _ _ (parse_kvs-Reads old.kvs sent.kvs fit.kvs_count fit.kvs_fit))
            (Reads-if _ _ _ _ _ _ _ _ (same 3)
              (Reads-then _ _ _ _ (
                Reads-unchecked _ _ _ (
                  parse_unsigned-Reads 64 64 sent.count (omega arith) (omega arith)
                    fit.count_fits)))
              (Reads-if _ _ _ _ _ _ _ _ (same 4)
                (Reads-then _ _ _ _ (
                  parse_weights-Reads old.vmembers sent.vmembers fit.vmembers_count
                    fit.vmembers_fit))
                (Reads-pure old)))))

  pub parse_from-Reads :
      (old sent : Response)
      → IsSendable sent
      → Reads (parse_from old) (response_image sent) (receive old sent)
  unfolding parse_from response_image receive
  parse_from-Reads old sent fit =
      Reads-bind _ _ _ _ _ _
        (parse_unsigned-Reads 8 8 sent.status_code (omega arith) (omega arith) fit.status_code_fits)
        (Reads-bind _ _ _ _ _ _
          (parse_unsigned-Reads 8 8 sent.has_bits (omega arith) (omega arith) fit.has_bits_fit)
          (parse_body-Reads _ sent refl fit))

  -- Whatever follows the bytes that a sendable response is serialised to, an object that parses them
  -- succeeds, leaves what follows, and then holds what `receive` says.
  pub parse_from-serialize_to :
      (old sent : Response) (b : Buffer) (rest : List ℕ)
      → IsSendable sent
      → readable b ≡ readable (serialize_to sent empty) ++ rest
      → (b' : Buffer) × (parse_from old b ≡ ok (receive old sent, b')) × (readable b' ≡ rest)
  parse_from-serialize_to old sent b rest fit e =
      let wire : readable (serialize_to sent empty) ≡ response_image sent =
        readable-serialize_to sent empty ∙ ap (λ l. l ++ response_image sent) readable-empty in
      parse_from-Reads old sent fit b rest (e ∙ ap (λ l. l ++ rest) wire)
