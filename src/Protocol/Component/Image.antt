-- ===== src/Protocol/Component/Image.antt =====
-- The wire format of each component: the bytes that `SerializeComponent` adds to a buffer.
use mmkvc.Prelude.{
  ℕ, ◌%◌, ◌^◌, ◌≡◌, sym, Bool, true, false, if◌then◌else◌, List, [], ◌∷◌, ◌++◌, length,
  append_assoc, append-nil,
}
use mmkvc.External.Varint.{Varint}
use mmkvc.External.ByteBuffer.{ByteBuffer}
use mmkvc.Protocol.Types.{Str, StrValues, StrKvs, WeightValues}
use mmkvc.Protocol.Component.Serialize.{
  serialize_unsigned, serialize_signed, serialize_string, serialize_each_value, serialize_values,
  serialize_each_kv, serialize_kvs, serialize_each_weight, serialize_weights,
}

module _ ⦃kv : Varint⦄ where
  open kv use {encode}

  -- a string behind its length, the length in `bits` bits
  abbrev pub sized : ℕ → Str → List ℕ
  sized bits s = encode bits (length s % 2 ^ bits) ++ s

  abbrev pub string_bits : Bool → ℕ
  string_bits is_16 = if is_16 then 16 else 32

  unfoldable pub each_value_image : StrValues → List ℕ
  each_value_image [] = []
  each_value_image (v ∷ vs) = sized 32 v ++ each_value_image vs

  unfoldable pub values_image : StrValues → List ℕ
  values_image vs = encode 32 (length vs % 2 ^ 32) ++ each_value_image vs

  unfoldable pub each_kv_image : StrKvs → List ℕ
  each_kv_image [] = []
  each_kv_image (kv ∷ kvs) = sized 16 kv.key ++ (sized 32 kv.value ++ each_kv_image kvs)

  unfoldable pub kvs_image : StrKvs → List ℕ
  kvs_image kvs = encode 32 (length kvs % 2 ^ 32) ++ each_kv_image kvs

module _ ⦃kv : Varint⦄ ⦃kb : ByteBuffer⦄ where
  open kv use {encode, encode_signed}
  open kb use {Buffer, readable, append, bytes64, readable-append}

  unfoldable pub each_weight_image : WeightValues → List ℕ
  each_weight_image [] = []
  each_weight_image (wv ∷ wvs) = bytes64 wv.key ++ (sized 32 wv.value ++ each_weight_image wvs)

  unfoldable pub weights_image : WeightValues → List ℕ
  weights_image wvs = encode 32 (length wvs % 2 ^ 32) ++ each_weight_image wvs

  -- one step of an else-if chain
  pub readable-if :
      (c : Bool) (b x y : Buffer) (xs ys : List ℕ)
      → readable x ≡ readable b ++ xs
      → readable y ≡ readable b ++ ys
      → readable (if c then x else y) ≡ readable b ++ (if c then xs else ys)
  readable-if true b x y xs ys p q = p
  readable-if false b x y xs ys p q = q

  pub readable-serialize_unsigned :
      (bits i : ℕ) (b : Buffer)
      → readable (serialize_unsigned bits i b) ≡ readable b ++ encode bits i
  unfolding serialize_unsigned
  readable-serialize_unsigned bits i b = readable-append (encode bits i) b

  pub readable-serialize_signed :
      (i : ℕ) (b : Buffer) → readable (serialize_signed i b) ≡ readable b ++ encode_signed 64 i
  unfolding serialize_signed
  readable-serialize_signed i b = readable-append (encode_signed 64 i) b

  pub readable-serialize_string :
      (is_16 : Bool) (s : Str) (b : Buffer)
      → readable (serialize_string is_16 s b) ≡ readable b ++ sized (string_bits is_16) s
  unfolding serialize_string
  readable-serialize_string true s b = simp (readable-append, append_assoc)
  readable-serialize_string false s b = simp (readable-append, append_assoc)

  readable-serialize_each_value :
      (vs : StrValues) (b : Buffer)
      → readable (serialize_each_value vs b) ≡ readable b ++ each_value_image vs
  unfolding serialize_each_value each_value_image
  readable-serialize_each_value [] b = sym (append-nil (readable b))
  readable-serialize_each_value (v ∷ vs) b =
      simp (readable-serialize_each_value vs, readable-append, append_assoc)

  pub readable-serialize_values :
      (vs : StrValues) (b : Buffer)
      → readable (serialize_values vs b) ≡ readable b ++ values_image vs
  unfolding serialize_values values_image
  readable-serialize_values vs b =
      simp (readable-serialize_each_value vs, readable-append, append_assoc)

  readable-serialize_each_kv :
      (kvs : StrKvs) (b : Buffer)
      → readable (serialize_each_kv kvs b) ≡ readable b ++ each_kv_image kvs
  unfolding serialize_each_kv each_kv_image
  readable-serialize_each_kv [] b = sym (append-nil (readable b))
  readable-serialize_each_kv (kv ∷ kvs) b =
      simp (readable-serialize_each_kv kvs, readable-append, append_assoc)

  pub readable-serialize_kvs :
      (kvs : StrKvs) (b : Buffer) → readable (serialize_kvs kvs b) ≡ readable b ++ kvs_image kvs
  unfolding serialize_kvs kvs_image
  readable-serialize_kvs kvs b =
      simp (readable-serialize_each_kv kvs, readable-append, append_assoc)

  readable-serialize_each_weight :
      (wvs : WeightValues) (b : Buffer)
      → readable (serialize_each_weight wvs b) ≡ readable b ++ each_weight_image wvs
  unfolding serialize_each_weight each_weight_image
  readable-serialize_each_weight [] b = sym (append-nil (readable b))
  readable-serialize_each_weight (wv ∷ wvs) b =
      simp (readable-serialize_each_weight wvs, readable-append, append_assoc)

  pub readable-serialize_weights :
      (wvs : WeightValues) (b : Buffer)
      → readable (serialize_weights wvs b) ≡ readable b ++ weights_image wvs
  unfolding serialize_weights weights_image
  readable-serialize_weights wvs b =
      simp (readable-serialize_each_weight wvs, readable-append, append_assoc)
