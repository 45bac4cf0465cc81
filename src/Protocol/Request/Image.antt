-- ===== src/Protocol/Request/Image.antt =====
-- The bytes of a request, and what a request object holds after it has parsed them.
use mmkvc.Prelude.{
  ℕ, ◌^◌, ◌<◌, ◌≡◌, sym, true, false, if◌then◌else◌, List, [], ◌++◌, length, append_assoc,
  append-nil,
}
use mmkvc.External.Varint.{Varint}
use mmkvc.External.ByteBuffer.{ByteBuffer}
use mmkvc.Protocol.Component.{
  sized, values_image, kvs_image, weights_image, readable-serialize_unsigned,
  readable-serialize_signed, readable-serialize_string, serialize_string, serialize_unsigned,
  serialize_signed, readable-serialize_values, readable-serialize_kvs, readable-serialize_weights,
  resize, no_kv, no_weight, readable-if,
}
use mmkvc.Protocol.Component.RoundTrip.{
  extend_values, extend_kvs, extend_weights, ValuesFit, KvsFit, WeightsFit,
}
use mmkvc.Protocol.Request.{
  Request, has_key, has_value, has_expire_time, has_values, has_kvs, has_count, has_range,
  has_vmembers, count, set_count_field, serialize_body, serialize_to,
}

-- The sizes of every field of a request that can be sent.
pub record IsSendable (r : Request) : Type 0 where
  pub has_bits_fit : r.has_bits < 2 ^ 8
  pub command_fits : r.command < 2 ^ 16
  pub key_fits : length r.key < 2 ^ 16
  pub value_fits : length r.value < 2 ^ 32
  pub values_count : length r.values < 2 ^ 32
  pub values_fit : ValuesFit r.values
  pub kvs_count : length r.kvs < 2 ^ 32
  pub kvs_fit : KvsFit r.kvs
  pub vmembers_count : length r.vmembers < 2 ^ 32
  pub vmembers_fit : WeightsFit r.vmembers
  pub left_fits : r.union_left < 2 ^ 64
  pub right_fits : r.union_right < 2 ^ 64
  pub expire_time_fits : r.expire_time < 2 ^ 64

-- The body of `sent`, written into the object `old`: the first announced field in the order value,
-- values, kvs, count, range, vmembers.
unfoldable pub receive_body : Request → Request → Request
receive_body old sent =
    if has_value sent
    then record old { value = sent.value }
    else if has_values sent
    then record old {
      values = extend_values (resize (length sent.values) [] old.values) sent.values;
    }
    else if has_kvs sent
    then record old { kvs = extend_kvs (resize (length sent.kvs) no_kv old.kvs) sent.kvs }
    else if has_count sent
    then set_count_field (count sent) old
    else if has_range sent
    then record old { union_left = sent.union_left; union_right = sent.union_right }
    else if has_vmembers sent
    then record old {
      vmembers =
          extend_weights (resize (length sent.vmembers) no_weight old.vmembers) sent.vmembers;
    }
    else old

unfoldable pub receive_key : Request → Request → Request
receive_key old sent = if has_key sent then record old { key = sent.key } else old

unfoldable pub receive_expire_time : Request → Request → Request
receive_expire_time old sent =
    if has_expire_time sent then record old { expire_time = sent.expire_time } else old

-- The object `old` after it has received `sent`: the command, the bits and every announced field are
-- those of `sent`, all else is as before.
unfoldable pub receive : Request → Request → Request
unfolding receive_body receive_key receive_expire_time
receive old sent =
    let header = record old { command = sent.command; has_bits = sent.has_bits } in
    receive_expire_time (receive_body (receive_key header sent) sent) sent

module _ ⦃kv : Varint⦄ ⦃kb : ByteBuffer⦄ where
  open kv use {encode, encode_signed}
  open kb use {Buffer, readable}

  unfoldable pub body_image : Request → List ℕ
  body_image r =
      if has_value r
      then sized 32 r.value
      else if has_values r
      then values_image r.values
      else if has_kvs r
      then kvs_image r.kvs
      else if has_count r
      then encode 32 (count r)
      else if has_range r
      then encode_signed 64 r.union_left ++ encode_signed 64 r.union_right
      else if has_vmembers r
      then weights_image r.vmembers
      else []

  unfoldable pub key_image : Request → List ℕ
  key_image r = if has_key r then sized 16 r.key else []

  unfoldable pub expire_time_image : Request → List ℕ
  expire_time_image r = if has_expire_time r then encode 64 r.expire_time else []

  unfoldable pub request_image : Request → List ℕ
  unfolding body_image key_image expire_time_image
  request_image r =
      encode 16 r.command
      ++ (encode 8 r.has_bits ++ (key_image r ++ (body_image r ++ expire_time_image r)))

  readable-serialize_range :
      (r : Request) (b : Buffer)
      → readable (serialize_signed r.union_right (serialize_signed r.union_left b))
        ≡ readable b ++ (encode_signed 64 r.union_left ++ encode_signed 64 r.union_right)
  readable-serialize_range r b = simp (readable-serialize_signed, append_assoc)

  readable-serialize_body :
      (r : Request) (b : Buffer) → readable (serialize_body r b) ≡ readable b ++ body_image r
  unfolding serialize_body body_image
  readable-serialize_body r b =
      readable-if _ b _ _ _ _ (readable-serialize_string false r.value b) (
        readable-if _ b _ _ _ _ (readable-serialize_values r.values b) (
          readable-if _ b _ _ _ _ (readable-serialize_kvs r.kvs b) (
            readable-if _ b _ _ _ _ (readable-serialize_unsigned 32 (count r) b) (
              readable-if _ b _ _ _ _ (readable-serialize_range r b) (
                readable-if _ b _ _ _ _ (readable-serialize_weights r.vmembers b)
                  (sym (append-nil (readable b))))))))

  readable-serialize_key :
      (r : Request) (b : Buffer)
      → readable (if has_key r then serialize_string true r.key b else b)
        ≡ readable b ++ key_image r
  unfolding key_image
  readable-serialize_key r b =
      readable-if _ b _ _ _ _ (readable-serialize_string true r.key b)
        (sym (append-nil (readable b)))

  readable-serialize_expire_time :
      (r : Request) (b : Buffer)
      → readable (if has_expire_time r then serialize_unsigned 64 r.expire_time b else b)
        ≡ readable b ++ expire_time_image r
  unfolding expire_time_image
  readable-serialize_expire_time r b =
      readable-if _ b _ _ _ _ (readable-serialize_unsigned 64 r.expire_time b)
        (sym (append-nil (readable b)))

  pub readable-serialize_to :
      (r : Request) (b : Buffer) → readable (serialize_to r b) ≡ readable b ++ request_image r
  unfolding serialize_to request_image
  readable-serialize_to r b = simp (
    readable-serialize_expire_time, readable-serialize_body, readable-serialize_key,
    readable-serialize_unsigned, append_assoc,
  )
