-- ===== src/Protocol/Response.antt =====
-- `MmbpResponse` of mmkv/protocol/mmbp_response.h and mmbp_response.cc.
pub mod Image
pub mod RoundTrip
pub mod View
use mmkvc.Prelude.{ℕ, ◌^◌, Bool, false, if◌then◌else◌, []}
use mmkvc.External.Varint.{Varint}
use mmkvc.External.ByteBuffer.{ByteBuffer}
use mmkvc.Protocol.Types.{Str, StrValues, StrKvs, WeightValues}
use mmkvc.Protocol.Parser.{Parser, ◌>>=◌, pure, unchecked}
use mmkvc.Protocol.HasBits.{test_bit, set_bit}
use mmkvc.Protocol.Component.{
  serialize_unsigned, serialize_string, serialize_values, serialize_kvs, serialize_weights,
  parse_unsigned, parse_string, parse_values, parse_kvs, parse_weights,
}

pub record Response : Type 0 where
  pub has_bits : ℕ
  pub status_code : ℕ
  pub count : ℕ
  pub value : Str
  pub values : StrValues
  pub kvs : StrKvs
  pub vmembers : WeightValues

-- a constructed response: `status_code(-1)`; the constructor leaves `count` unset
unfoldable pub new_response : ℕ → Response
new_response count = record {
  has_bits = 0;
  status_code = 255;
  count = count;
  value = [];
  values = [];
  kvs = [];
  vmembers = [];
}

-- `SetOk()`
unfoldable pub set_ok : Response → Response
set_ok r = record r { status_code = 0 }

-- `SetValue()` to `SetVmembers()` set the bit at their position
unfoldable pub mark : ℕ → Response → Response
mark idx r = record r { has_bits = set_bit r.has_bits idx }

abbrev pub has_value : Response → Bool
has_value r = test_bit r.has_bits 0

abbrev pub has_values : Response → Bool
has_values r = test_bit r.has_bits 1

abbrev pub has_kvs : Response → Bool
has_kvs r = test_bit r.has_bits 2

abbrev pub has_count : Response → Bool
has_count r = test_bit r.has_bits 3

abbrev pub has_vmembers : Response → Bool
has_vmembers r = test_bit r.has_bits 4

module _ ⦃kv : Varint⦄ ⦃kb : ByteBuffer⦄ where
  open kb use {Buffer}

  unfoldable pub serialize_body : Response → Buffer → Buffer
  serialize_body r buffer =
      if has_value r
      then serialize_string false r.value buffer
      else if has_values r
      then serialize_values r.values buffer
      else if has_kvs r
      then serialize_kvs r.kvs buffer
      else if has_count r
      then serialize_unsigned 64 r.count buffer
      else if has_vmembers r
      then serialize_weights r.vmembers buffer
      else buffer

  -- `SerializeTo`, the same text over a `Buffer` and over a `ChunkList`
  unfoldable pub serialize_to : Response → Buffer → Buffer
  unfolding serialize_body
  serialize_to r buffer =
      serialize_body r (serialize_unsigned 8 r.has_bits (serialize_unsigned 8 r.status_code buffer))

  unfoldable pub parse_body : Response → Parser Response
  parse_body r =
      if has_value r
      then (do value ← parse_string false; pure (record r { value = value }))
      else if has_values r
      then (do values ← parse_values r.values; pure (record r { values = values }))
      else if has_kvs r
      then (do kvs ← parse_kvs r.kvs; pure (record r { kvs = kvs }))
      else if has_count r
      then (do count ← unchecked (parse_unsigned 64); pure (record r { count = count }))
      else if has_vmembers r
      then (do wvs ← parse_weights r.vmembers; pure (record r { vmembers = wvs }))
      else pure r

  -- `ParseFrom(Buffer&)` on the object `r`
  unfoldable pub parse_from : Response → Parser Response
  unfolding parse_body
  parse_from r = do
    status_code ← parse_unsigned 8
    has_bits ← parse_unsigned 8
    parse_body (record r { status_code = status_code; has_bits = has_bits })
