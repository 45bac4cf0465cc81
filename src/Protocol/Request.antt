-- ===== src/Protocol/Request.antt =====
-- `MmbpRequest` of mmkv/protocol/mmbp_request.h and mmbp_request.cc.
pub mod Image
pub mod RoundTrip
pub mod View
use mmkvc.Prelude.{ℕ, ◌+◌, ◌*◌, ◌/◌, ◌%◌, ◌^◌, Bool, true, false, if◌then◌else◌, [], ◌==◌}
use mmkvc.External.Varint.{Varint}
use mmkvc.External.ByteBuffer.{ByteBuffer}
use mmkvc.Protocol.Types.{Str, StrValues, StrKvs, WeightValues}
use mmkvc.Protocol.Parser.{Parser, ◌>>=◌, pure, unchecked}
use mmkvc.Protocol.HasBits.{test_bit, set_bit}
use mmkvc.Protocol.Component.{
  serialize_unsigned, serialize_signed, serialize_string, serialize_values, serialize_kvs,
  serialize_weights, parse_unsigned, parse_signed, parse_string, parse_values, parse_kvs,
  parse_weights,
}

-- The union of `count` and `range` is its 16 bytes as two words; on a little-endian machine `count`
-- is the low half of `range.left`. A range end, an `int64_t`, is its bit pattern.
pub record Request : Type 0 where
  pub has_bits : ℕ
  pub command : ℕ
  pub key : Str
  pub kvs : StrKvs
  pub values : StrValues
  pub value : Str
  pub vmembers : WeightValues
  pub expire_time : ℕ
  pub union_left : ℕ
  pub union_right : ℕ

-- `Command::COMMAND_NUM`
abbrev pub command_num : ℕ
command_num = 71

-- a constructed request; what the constructor leaves unset is given
unfoldable pub new_request : ℕ → ℕ → ℕ → Request
new_request expire_time left right = record {
  has_bits = 0;
  command = command_num;
  key = [];
  kvs = [];
  values = [];
  value = [];
  vmembers = [];
  expire_time = expire_time;
  union_left = left;
  union_right = right;
}

abbrev pub has_key : Request → Bool
has_key r = test_bit r.has_bits 0

abbrev pub has_value : Request → Bool
has_value r = test_bit r.has_bits 1

abbrev pub has_expire_time : Request → Bool
has_expire_time r = test_bit r.has_bits 2

abbrev pub has_values : Request → Bool
has_values r = test_bit r.has_bits 3

abbrev pub has_kvs : Request → Bool
has_kvs r = test_bit r.has_bits 4

abbrev pub has_count : Request → Bool
has_count r = test_bit r.has_bits 5

abbrev pub has_range : Request → Bool
has_range r = test_bit r.has_bits 6

abbrev pub has_vmembers : Request → Bool
has_vmembers r = test_bit r.has_bits 7

unfoldable pub has_none : Request → Bool
has_none r = r.has_bits == 0

-- `SetKey()` to `SetVmembers()` set the bit at their position
unfoldable pub mark : ℕ → Request → Request
mark idx r = record r { has_bits = set_bit r.has_bits idx }

abbrev pub count : Request → ℕ
count r = r.union_left % 2 ^ 32

-- `count = c`
unfoldable pub set_count_field : ℕ → Request → Request
set_count_field c r = record r { union_left = r.union_left / 2 ^ 32 * 2 ^ 32 + c }

-- `SetWeightRange`: the bits of two doubles
unfoldable pub set_weight_range : ℕ → ℕ → Request → Request
unfolding mark
set_weight_range l r q = record (mark 6 q) { union_left = l; union_right = r }

-- `Reset()` keeps the command, the expiration and the union
unfoldable pub reset : Request → Request
reset r = record r { has_bits = 0; key = []; kvs = []; values = []; value = []; vmembers = [] }

module _ ⦃kv : Varint⦄ ⦃kb : ByteBuffer⦄ where
  open kb use {Buffer}

  unfoldable pub serialize_body : Request → Buffer → Buffer
  serialize_body r buffer =
      if has_value r
      then serialize_string false r.value buffer
      else if has_values r
      then serialize_values r.values buffer
      else if has_kvs r
      then serialize_kvs r.kvs buffer
      else if has_count r
      then serialize_unsigned 32 (count r) buffer
      else if has_range r
      then serialize_signed r.union_right (serialize_signed r.union_left buffer)
      else if has_vmembers r
      then serialize_weights r.vmembers buffer
      else buffer

  -- `SerializeTo`, the same text over a `Buffer` and over a `ChunkList`
  unfoldable pub serialize_to : Request → Buffer → Buffer
  unfolding serialize_body
  serialize_to r buffer =
      let header = serialize_unsigned 8 r.has_bits (serialize_unsigned 16 r.command buffer) in
      let keyed = if has_key r then serialize_string true r.key header else header in
      let body = serialize_body r keyed in
      if has_expire_time r then serialize_unsigned 64 r.expire_time body else body

  unfoldable pub parse_body : Request → Parser Request
  unfolding set_count_field
  parse_body r =
      if has_value r
      then (do value ← parse_string false; pure (record r { value = value }))
      else if has_values r
      then (do values ← parse_values r.values; pure (record r { values = values }))
      else if has_kvs r
      then (do kvs ← parse_kvs r.kvs; pure (record r { kvs = kvs }))
      else if has_count r
      then (do c ← unchecked (parse_unsigned 32); pure (set_count_field c r))
      else if has_range r
      then (do
        left ← parse_signed
        right ← parse_signed
        pure (record r { union_left = left; union_right = right }))
      else if has_vmembers r
      then (do wvs ← parse_weights r.vmembers; pure (record r { vmembers = wvs }))
      else pure r

  unfoldable pub parse_key : Request → Parser Request
  parse_key r =
      if has_key r then (do key ← parse_string true; pure (record r { key = key })) else pure r

  unfoldable pub parse_expire_time : Request → Parser Request
  parse_expire_time r =
      if has_expire_time r
      then (do t ← unchecked (parse_unsigned 64); pure (record r { expire_time = t }))
      else pure r

  -- `ParseFrom(Buffer&)` on the object `r`
  unfoldable pub parse_from : Request → Parser Request
  unfolding parse_key parse_body parse_expire_time
  parse_from r = do
    command ← parse_unsigned 16
    has_bits ← parse_unsigned 8
    keyed ← parse_key (record r { command = command; has_bits = has_bits })
    whole ← parse_body keyed
    parse_expire_time whole
