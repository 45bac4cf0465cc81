-- ===== src/Protocol/Component/Serialize.antt =====
-- `SerializeComponent` of mmkv/protocol/mmbp_util.h. The template parameter `BT` (a `Buffer` or a
-- `ChunkList`) is the byte buffer.
use mmkvc.Prelude.{ℕ, ◌%◌, ◌^◌, Bool, if◌then◌else◌, [], ◌∷◌, length}
use mmkvc.External.Varint.{Varint}
use mmkvc.External.ByteBuffer.{ByteBuffer}
use mmkvc.Protocol.Types.{Str, StrValues, StrKvs, WeightValues}

module _ ⦃kv : Varint⦄ ⦃kb : ByteBuffer⦄ where
  open kv use {encode, encode_signed}
  open kb use {Buffer, append, bytes64}

  -- the overloads for `uint8_t`, `uint16_t`, `uint32_t`, `uint64_t`
  unfoldable pub serialize_unsigned : ℕ → ℕ → Buffer → Buffer
  serialize_unsigned bits i buffer = append (encode bits i) buffer

  -- the overload for `int64_t`
  unfoldable pub serialize_signed : ℕ → Buffer → Buffer
  serialize_signed i buffer = append (encode_signed 64 i) buffer

  -- the cast to the type of the length drops its higher bits
  unfoldable pub serialize_string : Bool → Str → Buffer → Buffer
  unfolding serialize_unsigned
  serialize_string is_16 str buffer =
      let header =
        if is_16
        then serialize_unsigned 16 (length str % 2 ^ 16) buffer
        else serialize_unsigned 32 (length str % 2 ^ 32) buffer in
      append str header

  unfoldable pub serialize_each_value : StrValues → Buffer → Buffer
  unfolding serialize_unsigned
  serialize_each_value [] buffer = buffer
  serialize_each_value (v ∷ vs) buffer =
      serialize_each_value vs (append v (serialize_unsigned 32 (length v % 2 ^ 32) buffer))

  unfoldable pub serialize_values : StrValues → Buffer → Buffer
  unfolding serialize_each_value serialize_unsigned
  serialize_values values buffer =
      serialize_each_value values (serialize_unsigned 32 (length values % 2 ^ 32) buffer)

  unfoldable pub serialize_each_kv : StrKvs → Buffer → Buffer
  unfolding serialize_unsigned
  serialize_each_kv [] buffer = buffer
  serialize_each_kv (kv ∷ kvs) buffer =
      let with_key = append kv.key (serialize_unsigned 16 (length kv.key % 2 ^ 16) buffer) in
      serialize_each_kv kvs
        (append kv.value (serialize_unsigned 32 (length kv.value % 2 ^ 32) with_key))

  unfoldable pub serialize_kvs : StrKvs → Buffer → Buffer
  unfolding serialize_each_kv serialize_unsigned
  serialize_kvs kvs buffer =
      serialize_each_kv kvs (serialize_unsigned 32 (length kvs % 2 ^ 32) buffer)

  -- `Append64(double2u64(key))`: the weight goes out as eight bytes
  unfoldable pub serialize_each_weight : WeightValues → Buffer → Buffer
  unfolding serialize_unsigned
  serialize_each_weight [] buffer = buffer
  serialize_each_weight (wv ∷ wvs) buffer = serialize_each_weight wvs (
      append wv.value
        (serialize_unsigned 32 (length wv.value % 2 ^ 32) (append (bytes64 wv.key) buffer)))

  unfoldable pub serialize_weights : WeightValues → Buffer → Buffer
  unfolding serialize_each_weight serialize_unsigned
  serialize_weights wvs buffer =
      serialize_each_weight wvs (serialize_unsigned 32 (length wvs % 2 ^ 32) buffer)
