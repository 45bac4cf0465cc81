-- ===== src/Tests/Leb128.antt =====
-- A concrete kvarint: seven bits to a byte, the lowest first, the high bit set on all but the last.
use mmkvc.Prelude.{
  ℕ, zero, suc, ◌+◌, ◌-◌, ◌*◌, ◌/◌, ◌%◌, ◌^◌, ◌<◌, ◌≤◌, ◌≡◌, ◌≢◌, refl, sym, ◌∙◌, ap, true, false,
  if◌then◌else◌, ltb, ◌==◌, List, [], ◌∷◌, ◌++◌, length, arith, Bool-cases, inl, inr, lt→ltb,
  ==_iff,
}
use mathlib.Core.List.{tail}
use native.Mathlib.Nat.{pow-succ', pow-le-pow_right}
use mmkvc.External.Varint.{Varint, Decoded, decoded, buf_short, buf_invalid}

groups : ℕ → ℕ → List ℕ
groups zero x = []
groups (suc f) x =
    let rest = groups f (x / 128) in if ltb x 128 then x ∷ [] else (x % 128 + 128) ∷ rest

more_groups : ℕ → Decoded → Decoded
more_groups byte (decoded n x) = decoded (suc n) (byte - 128 + 128 * x)
more_groups byte buf_short = buf_short
more_groups byte buf_invalid = buf_invalid

ungroup : List ℕ → Decoded
unfolding more_groups
ungroup [] = buf_short
ungroup (byte ∷ bytes) =
    let rest = more_groups byte (ungroup bytes) in if ltb byte 128 then decoded 1 byte else rest

in_range : ℕ → Decoded → Decoded
in_range bits (decoded n x) = if ltb x bits then decoded n x else buf_invalid
in_range bits buf_short = buf_short
in_range bits buf_invalid = buf_invalid

unfoldable pub leb_encode : ℕ → ℕ → List ℕ
unfolding groups
leb_encode bits x = if bits == 32 then groups 5 x else groups 10 x

unfoldable pub leb_decode : ℕ → List ℕ → Decoded
unfolding in_range ungroup
leb_decode bits bytes = in_range (2 ^ bits) (ungroup bytes)

last_group : (front back : List ℕ) → [] ≡ front ++ back → back ≡ []
last_group [] back e = sym e
last_group (x ∷ front) back e = cc

small_group : (x : ℕ) {k : ℕ} → x < 128 * k → x / 128 < k
small_group x h = omega arith

low_byte : (x : ℕ) → ltb (x % 128 + 128) 128 ≡ false
low_byte x = ground arith

rejoin : (x : ℕ) → x % 128 + 128 - 128 + 128 * (x / 128) ≡ x
rejoin x = omega arith

fewer : (f x : ℕ) → x < 128 ^ suc (suc f) → x / 128 < 128 ^ suc f
fewer f x h = small_group x (rw pow-suc' at h)
  where
    pow-suc' : 128 ^ suc (suc f) ≡ 128 * 128 ^ suc f
    pow-suc' = pow-succ' 128 (suc f)

ungroup-groups :
    (f x : ℕ) (rest : List ℕ)
    → x < 128 ^ suc f
    → ungroup (groups (suc f) x ++ rest) ≡ decoded (length (groups (suc f) x)) x
unfolding groups ungroup
ungroup-groups zero x rest h =
    let small : ltb x 128 ≡ true = lt→ltb x 128 (omega arith) in rw small (rw small)
ungroup-groups (suc f) x rest h = elim (Bool-cases (ltb x 128)) [
  | inl p ↦ rw p (rw p)
  | inr q ↦
      rw (q, low_byte x)
        (rw (ungroup-groups f (x / 128) rest (fewer f x h))
          (ap (decoded (suc (length (groups (suc f) (x / 128))))) (rejoin x)))
]

length-groups : (f x : ℕ) → length (groups f x) ≤ f
unfolding groups
length-groups zero x = omega arith
length-groups (suc f) x = ground (arith, length-groups f (x / 128))

ungroup-prefix :
    (f x : ℕ) (front back : List ℕ)
    → x < 128 ^ suc f
    → groups (suc f) x ≡ front ++ back
    → back ≢ []
    → ungroup front ≡ buf_short
unfolding groups ungroup
ungroup-prefix f x [] back h e more = refl
ungroup-prefix zero x (b ∷ front) back h e more =
    let small : ltb x 128 ≡ true = lt→ltb x 128 (omega arith) in
    absurd (more (last_group front back (ap tail (rw small at e))))
ungroup-prefix (suc f) x (b ∷ front) back h e more = elim (Bool-cases (ltb x 128)) [
  | inl p ↦ absurd (more (last_group front back (ap tail (rw p at e))))
  | inr q ↦
      let e' = rw q at e in
      let ih = ungroup-prefix f (x / 128) front back (fewer f x h) (ap tail e') more in
      let byte : b ≡ x % 128 + 128 = cc in rw (byte, low_byte x) (rw ih)
]

abbrev Within : ℕ → Decoded → Type 0
Within len (decoded n x) = (0 < n) × (n ≤ len)
Within len _ = Unit

more_groups-Within : (b len : ℕ) (d : Decoded) → Within len d → Within (suc len) (more_groups b d)
unfolding more_groups
more_groups-Within b len (decoded n x) w = omega arith
more_groups-Within b len buf_short w = tt
more_groups-Within b len buf_invalid w = tt

ungroup-Within : (bytes : List ℕ) → Within (length bytes) (ungroup bytes)
unfolding ungroup
ungroup-Within [] = tt
ungroup-Within (b ∷ bytes) = elim (Bool-cases (ltb b 128)) [
  | inl p ↦ rw p (omega arith)
  | inr q ↦ rw q (more_groups-Within b (length bytes) (ungroup bytes) (ungroup-Within bytes))
]

in_range_inv :
    (k len : ℕ) (d : Decoded) {n x : ℕ}
    → Within len d
    → in_range k d ≡ decoded n x
    → (0 < n) × (n ≤ len) × (x < k)
unfolding in_range
in_range_inv k len (decoded n x) w h = ground arith
in_range_inv k len buf_short w h = cc
in_range_inv k len buf_invalid w h = cc

groups_of : ℕ → ℕ
groups_of v = if v == 32 then 5 else 10

pow_bound : (v x : ℕ) → v ≤ 64 → x < 2 ^ v → x < 128 ^ groups_of v
unfolding groups_of
pow_bound v x le h = elim (Bool-cases (v == 32)) [
  | inl p ↦
      let e : v ≡ 32 = (==_iff v 32).0 p in let h' : x < 2 ^ 32 = rw e at h in rw p (omega arith)
  | inr q ↦ let top : 2 ^ v ≤ 2 ^ 64 = pow-le-pow_right (omega arith) le in rw q (omega arith)
]

leb_encode-groups : (v x : ℕ) → leb_encode v x ≡ groups (groups_of v) x
unfolding leb_encode groups_of
leb_encode-groups v x = ground arith

groups_of_pos : (v : ℕ) → (f : ℕ) × (groups_of v ≡ suc f)
unfolding groups_of
groups_of_pos v = elim (Bool-cases (v == 32)) [ inl p ↦ (4, rw p) | inr q ↦ (9, rw q) ]

pub leb_decode-encode :
    (v w x : ℕ) (rest : List ℕ)
    → v ≤ w
    → w ≤ 64
    → x < 2 ^ v
    → leb_decode w (leb_encode v x ++ rest) ≡ decoded (length (leb_encode v x)) x
unfolding leb_decode in_range
leb_decode-encode v w x rest le wide h =
    let (f, e) = groups_of_pos v in
    let small : x < 128 ^ suc f = rw e at (pow_bound v x (omega arith) h) in
    let top : 2 ^ v ≤ 2 ^ w = pow-le-pow_right (omega arith) le in
    let fits : ltb x (2 ^ w) ≡ true = lt→ltb x (2 ^ w) (omega arith) in
    rw (leb_encode-groups, e) (rw (ungroup-groups f x rest small, fits))

pub leb_decode-prefix :
    (w x : ℕ) (front back : List ℕ)
    → w ≤ 64
    → x < 2 ^ w
    → leb_encode w x ≡ front ++ back
    → back ≢ []
    → leb_decode w front ≡ buf_short
unfolding leb_decode in_range
leb_decode-prefix w x front back wide h cut more =
    let (f, e) = groups_of_pos w in
    let small : x < 128 ^ suc f = rw e at (pow_bound w x wide h) in
    let cut' : groups (suc f) x ≡ front ++ back =
      ap (λ k. groups k x) (sym e) ∙ sym (leb_encode-groups w x) ∙ cut in
    rw (ungroup-prefix f x front back small cut' more)

pub leb_decode_bounds :
    (w : ℕ) (bytes : List ℕ) {n x : ℕ}
    → leb_decode w bytes ≡ decoded n x
    → (0 < n) × (n ≤ length bytes) × (x < 2 ^ w)
unfolding leb_decode
leb_decode_bounds w bytes h =
    in_range_inv (2 ^ w) (length bytes) (ungroup bytes) (ungroup-Within bytes) h

pub length-leb_encode32 : (x : ℕ) → length (leb_encode 32 x) ≤ 5
unfolding leb_encode
length-leb_encode32 x = length-groups 5 x

instance abbrev pub leb128 : Varint
leb128 = record {
  encode = leb_encode;
  decode = leb_decode;
  encode_signed = leb_encode;
  decode_signed = leb_decode;
  decode-encode = leb_decode-encode;
  decode_signed-encode = λ x rest. leb_decode-encode 64 64 x rest (omega arith) (omega arith);
  decode_bounds = leb_decode_bounds;
  decode_prefix = leb_decode-prefix;
  length-encode32 = length-leb_encode32;
}
