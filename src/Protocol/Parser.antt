-- ===== src/Protocol/Parser.antt =====
-- The effect of a `ParseComponent` or `ParseFrom` call on a buffer: what it reads and what it leaves,
-- and the rules by which such calls are put together.
use mmkvc.Prelude.{
  ◌≡◌, refl, sym, ◌∙◌, Bool, true, false, if◌then◌else◌, List, [], ◌++◌, append_assoc, ℕ, ap,
}
use mmkvc.External.ByteBuffer.{ByteBuffer}

-- `rejected` is `return false`. `stray` is a run that the program does not stop: it goes on with a
-- number that the decoder did not deliver, or reads past the readable bytes.
pub data Outcome {ℓ} (A : Type ℓ) : Type ℓ where
  ok : A → Outcome A
  rejected stray : Outcome A

abbrev pub bind {ℓ κ} : {A : Type ℓ} {B : Type κ} → Outcome A → (A → Outcome B) → Outcome B
bind (ok a) f = f a
bind rejected f = rejected
bind stray f = stray

-- A call whose result the code does not look at.
abbrev pub ignore_result {ℓ} : {A : Type ℓ} → Outcome A → Outcome A
ignore_result (ok a) = ok a
ignore_result rejected = stray
ignore_result stray = stray

bool_clash : true ≡ false → ⊥
bool_clash e = cc

module _ ⦃kb : ByteBuffer⦄ where
  open kb use {Buffer, readable}

  abbrev pub Parser : Type 0 → Type 0
  Parser A = Buffer → Outcome (A × Buffer)

  infixl 5 ◌>>=◌
  abbrev pub ◌>>=◌ : {A B : Type 0} → Parser A → (A → Parser B) → Parser B
  p >>= f = λ b. bind (p b) λ (a, b'). f a b'

  abbrev pub pure : {A : Type 0} → A → Parser A
  pure a b = ok (a, b)

  abbrev pub unchecked : {A : Type 0} → Parser A → Parser A
  unchecked p b = ignore_result (p b)

  -- `p` takes `bytes` off the front of any buffer that starts with them, and returns `a`.
  abbrev pub Reads : {A : Type 0} → Parser A → List ℕ → A → Type 0
  Reads p bytes a =
      (b : Buffer) (rest : List ℕ)
      → readable b ≡ bytes ++ rest
      → (b' : Buffer) × (p b ≡ ok (a, b')) × (readable b' ≡ rest)

  pub Reads-pure : {A : Type 0} (a : A) → Reads (pure a) [] a
  Reads-pure a b rest e = (b, refl, e)

  pub Reads-unchecked :
      {A : Type 0} (p : Parser A) (bytes : List ℕ) (a : A)
      → Reads p bytes a
      → Reads (unchecked p) bytes a
  Reads-unchecked p bytes a h b rest e =
      let (b', run, left) = h b rest e in (b', ap ignore_result run, left)

  pub Reads-bind :
      {A B : Type 0} (p : Parser A) (f : A → Parser B) (xs ys : List ℕ) (a : A) (c : B)
      → Reads p xs a
      → Reads (f a) ys c
      → Reads (p >>= f) (xs ++ ys) c
  Reads-bind p f xs ys a c hp hf b rest e =
      let (b₁, run₁, left₁) = hp b (ys ++ rest) (e ∙ append_assoc xs ys rest) in
      let (b₂, run₂, left₂) = hf b₁ rest left₁ in
      (b₂, ap (λ r. bind r λ (x, b'). f x b') run₁ ∙ run₂, left₂)

  pub Reads-then :
      {A B : Type 0} (p : Parser A) (f : A → B) (xs : List ℕ) (a : A)
      → Reads p xs a
      → Reads (p >>= λ x. pure (f x)) xs (f a)
  Reads-then p f xs a hp b rest e =
      let (b', run, left) = hp b rest e in (b', ap (λ r. bind r λ (x, b₁). pure (f x) b₁) run, left)

  -- Both ends test the same bit.
  pub Reads-if :
      {A : Type 0} (c d : Bool) (p q : Parser A) (xs ys : List ℕ) (x y : A)
      → c ≡ d
      → Reads p xs x
      → Reads q ys y
      → Reads (if c then p else q) (if d then xs else ys) (if d then x else y)
  Reads-if true true p q xs ys x y e hp hq = hp
  Reads-if false false p q xs ys x y e hp hq = hq
  Reads-if true false p q xs ys x y e hp hq = absurd (bool_clash e)
  Reads-if false true p q xs ys x y e hp hq = absurd (bool_clash (sym e))

  -- The same bytes, written another way.
  pub Reads-cast :
      {A : Type 0} (p : Parser A) (xs ys : List ℕ) (a : A) → xs ≡ ys → Reads p xs a → Reads p ys a
  Reads-cast p xs ys a e h b rest r = h b rest (r ∙ ap (λ l. l ++ rest) (sym e))
