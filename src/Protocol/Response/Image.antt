-- ===== src/Protocol/Response/Image.antt =====
-- The bytes of a response, and what a response object holds after it has parsed them.
use mmkvc.Prelude.{
  ℕ, ◌^◌, ◌<◌, ◌≡◌, sym, false, if◌then◌else◌, List, [], ◌++◌, length, append_assoc, append-nil,
}
use mmkvc.External.Varint.{Varint}
use mmkvc.External.ByteBuffer.{ByteBuffer}
use mmkvc.Protocol.Component.{
  sized, values_image, kvs_image, weights_image, readable-serialize_unsigned,
  readable-serialize_string, readable-serialize_values, readable-serialize_kvs,
  readable-serialize_weights, resize, no_kv, no_weight, readable-if,
}
use mmkvc.Protocol.Component.RoundTrip.{
  extend_values, extend_kvs, extend_weights, ValuesFit, KvsFit, WeightsFit,
}
use mmkvc.Protocol.Response.{
  Response, has_value, has_values, has_kvs, has_count, has_vmembers, serialize_body, serialize_to,
}

-- The sizes of every field of a response that can be sent.
pub record IsSendable (r : Response) : Type 0 where
  pub has_bits_fit : r.has_bits < 2 ^ 8
  pub status_code_fits : r.status_code < 2 ^ 8
  pub count_fits : r.count < 2 ^ 64
  pub value_fits : length r.value < 2 ^ 32
  pub values_count : length r.values < 2 ^ 32
  pub values_fit : ValuesFit r.values
  pub kvs_count : length r.kvs < 2 ^ 32
  pub kvs_fit : KvsFit r.kvs
  pub vmembers_count : length r.vmembers < 2 ^ 32
  pub vmembers_fit : WeightsFit r.vmembers

-- The object `old` after it has received `sent`: the status, the bits and the first announced field
-- in the order value, values, kvs, count, vmembers are those of `sent`, all else is as before.
unfoldable pub receive_body : Response → Response → Response
receive_body old sent =
    if has_value sent
    then record old { value = sent.value }
    else if has_values sent
    then record old {
      values = extend_values (resize (length sent.values) [] old.values) sent.values;
    }
    else if has_kvs sent
    then record old { kvs = extend_kvs (resize (length sent.kvs) no_kv old.kvs) sent.kvs }
    else if has_count sent
    then record old { count = sent.count }
    else if has_vmembers sent
    then record old {
      vmembers =
          extend_weights (resize (length sent.vmembers) no_weight old.vmembers) sent.vmembers;
    }
    else old

unfoldable pub receive : Response → Response → Response
unfolding receive_body
receive old sent =
    receive_body (record old { status_code = sent.status_code; has_bits = sent.has_bits }) sent

module _ ⦃kv : Varint⦄ ⦃kb : ByteBuffer⦄ where
  open kv use {encode}
  open kb use {Buffer, readable}

  unfoldable pub body_image : Response → List ℕ
  body_image r =
      if has_value r
      then sized 32 r.value
      else if has_values r
      then values_image r.values
      else if has_kvs r
      then kvs_image r.kvs
      else if has_count r
      then encode 64 r.count
      else if has_vmembers r
      then weights_image r.vmembers
      else []

  unfoldable pub response_image : Response → List ℕ
  unfolding body_image
  response_image r = encode 8 r.status_code ++ (encode 8 r.has_bits ++ body_image r)

  readable-serialize_body :
      (r : Response) (b : Buffer) → readable (serialize_body r b) ≡ readable b ++ body_image r
  unfolding serialize_body body_image
  readable-serialize_body r b =
      readable-if _ b _ _ _ _ (readable-serialize_string false r.value b) (
        readable-if _ b _ _ _ _ (readable-serialize_values r.values b) (
          readable-if _ b _ _ _ _ (readable-serialize_kvs r.kvs b) (
            readable-if _ b _ _ _ _ (readable-serialize_unsigned 64 r.count b) (
              readable-if _ b _ _ _ _ (readable-serialize_weights r.vmembers b)
                (sym (append-nil (readable b)))))))

  pub readable-serialize_to :
      (r : Response) (b : Buffer) → readable (serialize_to r b) ≡ readable b ++ response_image r
  unfolding serialize_to response_image
  readable-serialize_to r b =
      simp (readable-serialize_body, readable-serialize_unsigned, append_assoc)
