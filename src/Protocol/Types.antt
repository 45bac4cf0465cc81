-- ===== src/Protocol/Types.antt =====
-- mmkv/protocol/type.h and mmkv/algo/key_value.h: the values that messages carry. A string is its
-- bytes; a weight (a double) is the 64 bits that `double2u64` of mmkv/util/conv.h takes it for.
use mmkvc.Prelude.{ℕ, List}

abbrev pub Str : Type 0
Str = List ℕ

abbrev pub Weight : Type 0
Weight = ℕ

pub record KeyValue {ℓ} (K V : Type ℓ) : Type ℓ where
  pub key : K
  pub value : V

abbrev pub StrValues : Type 0
StrValues = List Str

abbrev pub StrKvs : Type 0
StrKvs = List (KeyValue Str Str)

abbrev pub WeightValues : Type 0
WeightValues = List (KeyValue Weight Str)
