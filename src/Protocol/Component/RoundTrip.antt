-- ===== src/Protocol/Component/RoundTrip.antt =====
-- `ParseComponent` reads back what `SerializeComponent` wrote.
use mmkvc.Prelude.{
  zero, suc, refl, ap, replicate, ℕ, ◌%◌, ◌^◌, ◌≤◌, ◌<◌, ◌≡◌, ◌∙◌, Bool, true, false, List, [], ◌∷◌,
  ◌++◌, length, take, arith, length-take, length-replicate, length-append, le→leb, subst,
  take-append, drop-append,
}
use native.Mathlib.Nat.{mod-eq_of_lt}
use mmkvc.External.Varint.{Varint}
use mmkvc.External.ByteBuffer.{ByteBuffer}
use mmkvc.Protocol.Types.{Str, StrValues, StrKvs, WeightValues}
use mmkvc.Protocol.Parser.{
  Parser, ◌>>=◌, unchecked, Reads, Reads-pure, Reads-unchecked, Reads-bind, Reads-then,
}
use mmkvc.Protocol.Component.Parse.{
  parse_unsigned, parse_signed, take_bytes, read64, read_sized, parse_string, parse_each_value,
  parse_values, parse_each_kv, parse_kvs, parse_each_weight, parse_weights, resize, no_kv,
  no_weight,
}
use mmkvc.Protocol.Component.Image.{
  sized, string_bits, each_value_image, values_image, each_kv_image, kvs_image, each_weight_image,
  weights_image,
}

module _ ⦃kv : Varint⦄ ⦃kb : ByteBuffer⦄ where
  open kv use {encode, decode, encode_signed, decode-encode, decode_signed-encode}
  open kb use {
    Buffer, readable, advance_read, readable-advance_read, word64, bytes64, length-bytes64,
    word64-bytes64,
  }

  -- reading `bytes` off the front
  advance_past :
      (b : Buffer) (bytes rest : List ℕ)
      → readable b ≡ bytes ++ rest
      → (length bytes ≤ length (readable b)) × (readable (advance_read (length bytes) b) ≡ rest)
  advance_past b bytes rest e =
      let fits : length bytes ≤ length (readable b) =
        rw e (omega (arith, length-append bytes rest)) in
      (fits, readable-advance_read (length bytes) b fits ∙ (rw e (drop-append bytes rest)))

  pub parse_unsigned-Reads :
      (v w x : ℕ) → v ≤ w → w ≤ 64 → x < 2 ^ v → Reads (parse_unsigned w) (encode v x) x
  unfolding parse_unsigned
  parse_unsigned-Reads v w x le wide small b rest e = (
    advance_read (length (encode v x)) b,
    rw (parse_unsigned, e, decode-encode v w x rest le wide small),
    (advance_past b (encode v x) rest e).1,
  )

  pub parse_signed-Reads : (x : ℕ) → x < 2 ^ 64 → Reads parse_signed (encode_signed 64 x) x
  unfolding parse_signed
  parse_signed-Reads x small b rest e = (
    advance_read (length (encode_signed 64 x)) b,
    rw (parse_signed, e, decode_signed-encode x rest small),
    (advance_past b (encode_signed 64 x) rest e).1,
  )

  pub take_bytes-Reads : (s : Str) → Reads (take_bytes (length s)) s s
  unfolding take_bytes
  take_bytes-Reads s b rest e =
      let (fits, left) = advance_past b s rest e in
      (advance_read (length s) b, rw (le→leb _ _ fits, e, take-append s rest), left)

  read64-Reads : (x : ℕ) → x < 2 ^ 64 → Reads read64 (bytes64 x) x
  unfolding read64
  read64-Reads x small b rest e =
      let (fits, left) = advance_past b (bytes64 x) rest e in
      let whole : take 8 (readable b) ≡ bytes64 x = rw e (
        subst (λ n. take n (bytes64 x ++ rest) ≡ bytes64 x) (length-bytes64 x)
          (take-append (bytes64 x) rest)) in
      (
        advance_read 8 b,
        rw (
          le→leb 8 (length (readable b)) (rw (length-bytes64 x) at fits),
          whole,
          word64-bytes64 x small,
        ),
        rw (length-bytes64 x) at left,
      )

  -- the length of a string, then its bytes; a decoder of any wider type reads the length
  sized-Reads :
      (v w : ℕ) (s : Str) → v ≤ w → w ≤ 64 → length s < 2 ^ v → Reads (read_sized w) (sized v s) s
  unfolding read_sized
  sized-Reads v w s le wide fits =
      let header = parse_unsigned-Reads v w (length s) le wide fits in
      rw (mod-eq_of_lt fits)
        (Reads-bind _ _ _ _ _ _ (Reads-unchecked _ _ _ header) (take_bytes-Reads s))

  pub parse_string-Reads :
      (is_16 : Bool) (s : Str)
      → length s < 2 ^ string_bits is_16
      → Reads (parse_string is_16) (sized (string_bits is_16) s) s
  unfolding parse_string
  parse_string-Reads true s fits = sized-Reads 16 16 s (omega arith) (omega arith) fits
  parse_string-Reads false s fits = sized-Reads 32 32 s (omega arith) (omega arith) fits

-- What parsing into a vector that is not empty makes of its elements: the new bytes follow the old.
abbrev pub extend_values : StrValues → StrValues → StrValues
extend_values (old ∷ olds) (v ∷ vs) = (old ++ v) ∷ extend_values olds vs
extend_values _ _ = []

abbrev pub extend_kvs : StrKvs → StrKvs → StrKvs
extend_kvs (old ∷ olds) (kv ∷ kvs) =
    record { key = old.key ++ kv.key; value = old.value ++ kv.value } ∷ extend_kvs olds kvs
extend_kvs _ _ = []

abbrev pub extend_weights : WeightValues → WeightValues → WeightValues
extend_weights (old ∷ olds) (wv ∷ wvs) =
    record { key = wv.key; value = old.value ++ wv.value } ∷ extend_weights olds wvs
extend_weights _ _ = []

-- The sizes that the wire format has room for.
abbrev pub ValuesFit : StrValues → Type 0
ValuesFit [] = Unit
ValuesFit (v ∷ vs) = (length v < 2 ^ 32) × ValuesFit vs

abbrev pub KvsFit : StrKvs → Type 0
KvsFit [] = Unit
KvsFit (kv ∷ kvs) = (length kv.key < 2 ^ 16) × (length kv.value < 2 ^ 32) × KvsFit kvs

abbrev pub WeightsFit : WeightValues → Type 0
WeightsFit [] = Unit
WeightsFit (wv ∷ wvs) = (wv.key < 2 ^ 64) × (length wv.value < 2 ^ 32) × WeightsFit wvs

module _ ⦃kv : Varint⦄ ⦃kb : ByteBuffer⦄ where
  open kv use {encode}

  parse_each_value-Reads :
      (olds vs : StrValues)
      → length olds ≡ length vs
      → ValuesFit vs
      → Reads (parse_each_value olds) (each_value_image vs) (extend_values olds vs)
  unfolding parse_each_value each_value_image
  parse_each_value-Reads [] [] len fit = Reads-pure []
  parse_each_value-Reads [] (v ∷ vs) len fit = absurd (omega arith)
  parse_each_value-Reads (old ∷ olds) [] len fit = absurd (omega arith)
  parse_each_value-Reads (old ∷ olds) (v ∷ vs) len (small, fit) =
      Reads-bind _ _ _ _ _ _ (sized-Reads 32 64 v (omega arith) (omega arith) small)
        (Reads-then _ _ _ _ (parse_each_value-Reads olds vs (omega arith) fit))

  parse_each_kv-Reads :
      (olds kvs : StrKvs)
      → length olds ≡ length kvs
      → KvsFit kvs
      → Reads (parse_each_kv olds) (each_kv_image kvs) (extend_kvs olds kvs)
  unfolding parse_each_kv each_kv_image
  parse_each_kv-Reads [] [] len fit = Reads-pure []
  parse_each_kv-Reads [] (kv ∷ kvs) len fit = absurd (omega arith)
  parse_each_kv-Reads (old ∷ olds) [] len fit = absurd (omega arith)
  parse_each_kv-Reads (old ∷ olds) (kv ∷ kvs) len (small_key, small_value, fit) =
      Reads-bind _ _ _ _ _ _ (sized-Reads 16 64 kv.key (omega arith) (omega arith) small_key) (
        Reads-bind _ _ _ _ _ _ (sized-Reads 32 64 kv.value (omega arith) (omega arith) small_value)
          (Reads-then _ _ _ _ (parse_each_kv-Reads olds kvs (omega arith) fit)))

  parse_each_weight-Reads :
      (olds wvs : WeightValues)
      → length olds ≡ length wvs
      → WeightsFit wvs
      → Reads (parse_each_weight olds) (each_weight_image wvs) (extend_weights olds wvs)
  unfolding parse_each_weight each_weight_image
  parse_each_weight-Reads [] [] len fit = Reads-pure []
  parse_each_weight-Reads [] (wv ∷ wvs) len fit = absurd (omega arith)
  parse_each_weight-Reads (old ∷ olds) [] len fit = absurd (omega arith)
  parse_each_weight-Reads (old ∷ olds) (wv ∷ wvs) len (bits, small, fit) =
      Reads-bind _ _ _ _ _ _ (read64-Reads wv.key bits) (
        Reads-bind _ _ _ _ _ _ (sized-Reads 32 64 wv.value (omega arith) (omega arith) small)
          (Reads-then _ _ _ _ (parse_each_weight-Reads olds wvs (omega arith) fit)))

  length-resize {ℓ} : {A : Type ℓ} (n : ℕ) (a : A) (xs : List A) → length (resize n a xs) ≡ n
  unfolding resize
  length-resize n a xs = rw (length-append, length-take, length-replicate) (omega arith)

  -- A counted sequence is parsed into the vector as the count resizes it.
  counted-Reads :
      {A : Type 0} (n : ℕ) (p : ℕ → Parser A) (bytes : List ℕ) (a : A)
      → n < 2 ^ 32
      → Reads (p n) bytes a
      → Reads (unchecked (parse_unsigned 32) >>= p) (encode 32 (n % 2 ^ 32) ++ bytes) a
  counted-Reads n p bytes a small h =
      let count = parse_unsigned-Reads 32 32 n (omega arith) (omega arith) small in
      rw (mod-eq_of_lt small) (Reads-bind _ p _ _ _ _ (Reads-unchecked _ _ _ count) h)

  pub parse_values-Reads :
      (olds vs : StrValues)
      → length vs < 2 ^ 32
      → ValuesFit vs
      → Reads (parse_values olds) (values_image vs) (extend_values (resize (length vs) [] olds) vs)
  unfolding parse_values values_image
  parse_values-Reads olds vs small fit =
      counted-Reads _ _ _ _ small
        (parse_each_value-Reads _ vs (length-resize (length vs) [] olds) fit)

  pub parse_kvs-Reads :
      (olds kvs : StrKvs)
      → length kvs < 2 ^ 32
      → KvsFit kvs
      → Reads (parse_kvs olds) (kvs_image kvs) (extend_kvs (resize (length kvs) no_kv olds) kvs)
  unfolding parse_kvs kvs_image
  parse_kvs-Reads olds kvs small fit =
      counted-Reads _ _ _ _ small
        (parse_each_kv-Reads _ kvs (length-resize (length kvs) no_kv olds) fit)

  pub parse_weights-Reads :
      (olds wvs : WeightValues)
      → length wvs < 2 ^ 32
      → WeightsFit wvs
      → Reads
          (parse_weights olds)
          (weights_image wvs)
          (extend_weights (resize (length wvs) no_weight olds) wvs)
  unfolding parse_weights weights_image
  parse_weights-Reads olds wvs small fit =
      counted-Reads _ _ _ _ small
        (parse_each_weight-Reads _ wvs (length-resize (length wvs) no_weight olds) fit)

-- Into an empty vector the elements are parsed as they are.
resize-nil {ℓ} : {A : Type ℓ} (n : ℕ) (a : A) → resize n a [] ≡ replicate n a
unfolding resize
resize-nil zero a = refl
resize-nil (suc n) a = ap (λ k. replicate k a) {y = suc n} (omega arith)

extend_values-replicate : (vs : StrValues) → extend_values (replicate (length vs) []) vs ≡ vs
extend_values-replicate [] = refl
extend_values-replicate (v ∷ vs) = ap (◌∷◌ v) (extend_values-replicate vs)

extend_kvs-replicate : (kvs : StrKvs) → extend_kvs (replicate (length kvs) no_kv) kvs ≡ kvs
extend_kvs-replicate [] = refl
extend_kvs-replicate (kv ∷ kvs) = ap (◌∷◌ kv) (extend_kvs-replicate kvs)

extend_weights-replicate :
    (wvs : WeightValues) → extend_weights (replicate (length wvs) no_weight) wvs ≡ wvs
extend_weights-replicate [] = refl
extend_weights-replicate (wv ∷ wvs) = ap (◌∷◌ wv) (extend_weights-replicate wvs)

pub values_fresh :
    (olds vs : StrValues) → olds ≡ [] → extend_values (resize (length vs) [] olds) vs ≡ vs
values_fresh olds vs e = rw (e, resize-nil) (extend_values-replicate vs)

pub kvs_fresh :
    (olds kvs : StrKvs) → olds ≡ [] → extend_kvs (resize (length kvs) no_kv olds) kvs ≡ kvs
kvs_fresh olds kvs e = rw (e, resize-nil) (extend_kvs-replicate kvs)

pub weights_fresh :
    (olds wvs : WeightValues)
    → olds ≡ []
    → extend_weights (resize (length wvs) no_weight olds) wvs ≡ wvs
weights_fresh olds wvs e = rw (e, resize-nil) (extend_weights-replicate wvs)
