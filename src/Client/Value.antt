-- ===== src/Client/Value.antt =====
-- `MmkvValue` of mmkv/client/mmkv_value.h and mmkv_value.cc: a tagged union. The union is modelled by
-- the member that was written last; `unset` is a union that no member was written to.
pub mod Laws
use mmkvc.Prelude.{ℕ, Bool, if◌then◌else◌, ◌==◌, Option, none, some}
use mmkvc.Protocol.Types.{Str, StrValues, StrKvs, Weight, WeightValues}
use mmkvc.Protocol.Response.{Response}

-- `ValueType`
pub data ValueType : Type 0 where
  v_invalid v_count v_str_value v_str_values v_str_kvs v_weight_values v_weight v_usr : ValueType

-- the number of an enumerator
abbrev pub type_num : ValueType → ℕ
type_num v_invalid = 0
type_num v_count = 1
type_num v_str_value = 2
type_num v_str_values = 3
type_num v_str_kvs = 4
type_num v_weight_values = 5
type_num v_weight = 6
type_num v_usr = 7

pub data Member : Type 0 where
  unset : Member
  count : ℕ → Member
  value : Str → Member
  values : StrValues → Member
  kvs : StrKvs → Member
  wvs : WeightValues → Member
  weight : Weight → Member

pub record MmkvValue : Type 0 where
  pub status_code : ℕ
  pub type_ : ValueType
  pub member : Member

-- `S_UNSET`
abbrev pub s_unset : ℕ
s_unset = 16

-- `MmkvValue()`; the status code that it leaves unset is given
abbrev pub new_value : ℕ → MmkvValue
new_value garbage = record { status_code = garbage; type_ = v_invalid; member = unset }

-- what a `switch` on the type reads from a union: `none` where the member is not the one that was
-- written, or an assertion fails
unfoldable pub read_member : ValueType → Member → Option Member
read_member v_count (count n) = some (count n)
read_member v_str_value (value s) = some (value s)
read_member v_str_values (values vs) = some (values vs)
read_member v_str_kvs (kvs ps) = some (kvs ps)
read_member v_weight (weight w) = some (weight w)
read_member v_weight_values (wvs ws) = some (wvs ws)
read_member v_invalid m = some unset
read_member _ _ = none

-- `MmkvValue(MmkvValue const &rhs)`
unfoldable pub copy_value : MmkvValue → Option MmkvValue
unfolding read_member
copy_value rhs = elim (read_member rhs.type_ rhs.member) [
  | some m ↦ some (record { status_code = rhs.status_code; type_ = rhs.type_; member = m })
  | none ↦ none
]

-- `MmkvValue(MmkvValue &&rhs)`: the new value, and what is left of `rhs`; the type is reset before
-- the `switch` on it
unfoldable pub move_value : MmkvValue → Option (MmkvValue × MmkvValue)
unfolding read_member
move_value rhs =
    let left : MmkvValue = record rhs { status_code = s_unset; type_ = v_invalid } in
    elim (read_member left.type_ left.member) [
      | some m ↦
          some (record { status_code = rhs.status_code; type_ = rhs.type_; member = m }, left)
      | none ↦ none
    ]

-- the `switch` of `swap` on one type: without a case for it nothing is exchanged
unfoldable pub swap_members : ValueType → Member × Member → Member × Member
swap_members v_invalid (a, b) = (a, b)
swap_members v_usr (a, b) = (a, b)
swap_members _ (a, b) = (b, a)

-- `swap(rhs)`
unfoldable pub swap_values : MmkvValue → MmkvValue → MmkvValue × MmkvValue
unfolding swap_members
swap_values this rhs =
    let members =
      if type_num this.type_ == type_num rhs.type_
      then swap_members rhs.type_ (this.member, rhs.member)
      else (this.member, rhs.member) in
    (
      record { status_code = rhs.status_code; type_ = rhs.type_; member = members.0 },
      record { status_code = this.status_code; type_ = this.type_; member = members.1 },
    )

-- `ToStrValue()`
unfoldable pub to_str_value : MmkvValue → Option Str
to_str_value v = elim (v.type_) [
  | v_str_value ↦ elim (v.member) [ value s ↦ some s | _ ↦ none ]
  | _ ↦ none
]

-- `ToStrKvs()`: the assertion names the type of string lists
unfoldable pub to_str_kvs : MmkvValue → Option StrKvs
to_str_kvs v = elim (v.type_) [
  | v_str_values ↦ elim (v.member) [ kvs ps ↦ some ps | _ ↦ none ]
  | _ ↦ none
]

-- `double_of` is the conversion of a count to a double.
module _ (double_of : ℕ → Weight) where
  -- the `switch` of `FromResponse(r)`
  unfoldable pub response_member : ValueType → Response → Member → Member
  response_member v_str_value r old = value r.value
  response_member v_str_values r old = values r.values
  response_member v_count r old = count r.count
  response_member v_weight r old = weight (double_of r.count)
  response_member v_weight_values r old = wvs r.vmembers
  response_member v_str_kvs r old = kvs r.kvs
  response_member _ r old = old

  -- `FromResponse(r)`, without what moving leaves in the response
  unfoldable pub from_response : Response → MmkvValue → MmkvValue
  unfolding response_member
  from_response r v = record v {
    status_code = r.status_code;
    member = response_member v.type_ r v.member;
  }
