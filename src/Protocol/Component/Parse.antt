-- ===== src/Protocol/Component/Parse.antt =====
-- `ParseComponent` of mmkv/protocol/mmbp_util.h over a `Buffer`. A call whose result the code drops
-- is `unchecked`; a vector is resized first and the bytes are appended to what its elements hold.
use mmkvc.Prelude.{ℕ, ◌-◌, Bool, if◌then◌else◌, leb, List, [], ◌∷◌, ◌++◌, length, take, replicate}
use mmkvc.External.Varint.{Varint, decoded}
use mmkvc.External.ByteBuffer.{ByteBuffer}
use mmkvc.Protocol.Types.{Str, KeyValue, StrValues, StrKvs, WeightValues}
use mmkvc.Protocol.Parser.{ok, rejected, stray, Parser, ◌>>=◌, pure, unchecked}

-- `std::vector::resize`
unfoldable pub resize {ℓ} : {A : Type ℓ} → ℕ → A → List A → List A
resize n a xs = take n xs ++ replicate (n - length xs) a

-- the elements that `resize` adds
abbrev pub no_weight : KeyValue ℕ Str
no_weight = record { key = 0; value = [] }

abbrev pub no_kv : KeyValue Str Str
no_kv = record { key = []; value = [] }

module _ ⦃kv : Varint⦄ ⦃kb : ByteBuffer⦄ where
  open kv use {decode, decode_signed}
  open kb use {Buffer, readable, advance_read, word64}

  unfoldable pub parse_unsigned : ℕ → Parser ℕ
  parse_unsigned bits buffer = elim (decode bits (readable buffer)) [
    | decoded len i ↦ ok (i, advance_read len buffer)
    | _ ↦ rejected
  ]

  unfoldable pub parse_signed : Parser ℕ
  parse_signed buffer = elim (decode_signed 64 (readable buffer)) [
    | decoded len i ↦ ok (i, advance_read len buffer)
    | _ ↦ rejected
  ]

  -- `append(buffer.GetReadBegin(), len); buffer.AdvanceRead(len)`
  unfoldable pub take_bytes : ℕ → Parser Str
  take_bytes len buffer =
      if leb len (length (readable buffer))
      then ok (take len (readable buffer), advance_read len buffer)
      else stray

  -- `buffer.Read64()`
  unfoldable pub read64 : Parser ℕ
  read64 buffer =
      if leb 8 (length (readable buffer))
      then ok (word64 (take 8 (readable buffer)), advance_read 8 buffer)
      else stray

  -- the size of a string, in a variable of `bits` bits, and then its bytes
  unfoldable pub read_sized : ℕ → Parser Str
  unfolding parse_unsigned take_bytes
  read_sized bits = do len ← unchecked (parse_unsigned bits); take_bytes len

  unfoldable pub parse_string : Bool → Parser Str
  unfolding read_sized
  parse_string is_16 = read_sized (if is_16 then 16 else 32)

  unfoldable pub parse_each_value : StrValues → Parser StrValues
  unfolding read_sized
  parse_each_value [] = pure []
  parse_each_value (old ∷ olds) = do
    bytes ← read_sized 64
    values ← parse_each_value olds
    pure ((old ++ bytes) ∷ values)

  unfoldable pub parse_values : StrValues → Parser StrValues
  unfolding parse_unsigned parse_each_value resize
  parse_values values = do
    count ← unchecked (parse_unsigned 32)
    parse_each_value (resize count [] values)

  unfoldable pub parse_each_weight : WeightValues → Parser WeightValues
  unfolding read_sized read64
  parse_each_weight [] = pure []
  parse_each_weight (old ∷ olds) = do
    weight ← read64
    bytes ← read_sized 64
    values ← parse_each_weight olds
    pure (record { key = weight; value = old.value ++ bytes } ∷ values)

  unfoldable pub parse_weights : WeightValues → Parser WeightValues
  unfolding parse_unsigned parse_each_weight resize
  parse_weights values = do
    count ← unchecked (parse_unsigned 32)
    parse_each_weight (resize count no_weight values)

  unfoldable pub parse_each_kv : StrKvs → Parser StrKvs
  unfolding read_sized
  parse_each_kv [] = pure []
  parse_each_kv (old ∷ olds) = do
    key_bytes ← read_sized 64
    value_bytes ← read_sized 64
    kvs ← parse_each_kv olds
    pure (record { key = old.key ++ key_bytes; value = old.value ++ value_bytes } ∷ kvs)

  unfoldable pub parse_kvs : StrKvs → Parser StrKvs
  unfolding parse_unsigned parse_each_kv resize
  parse_kvs kvs = do count ← unchecked (parse_unsigned 32); parse_each_kv (resize count no_kv kvs)
