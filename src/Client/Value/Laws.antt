-- ===== src/Client/Value/Laws.antt =====
-- Whether the copying, moving, exchanging and filling of values keep the tag and the union together.
use mmkvc.Prelude.{ℕ, ◌≡◌, ◌≢◌, refl, sym, subst, ◌∙◌, true, false, ◌==◌, ==_iff, none, some, arith}
use mmkvc.Protocol.Types.{Weight}
use mmkvc.Protocol.Response.{Response}
use mmkvc.Client.Value.{
  ValueType, v_invalid, v_count, v_str_value, v_str_values, v_str_kvs, v_weight_values, v_weight,
  v_usr, Member, unset, count, value, values, kvs, wvs, weight, MmkvValue, read_member, copy_value,
  move_value, swap_members, swap_values, to_str_kvs, response_member, from_response, type_num,
  s_unset,
}

-- The union holds the member that the type names.
unfoldable pub IsTagged : ValueType → Member → Type 0
IsTagged t m = read_member t m ≡ some m

-- Copy construction from a value whose union holds what its type names gives the same value.
pub copy_value_lem : (v : MmkvValue) → IsTagged v.type_ v.member → copy_value v ≡ some v
unfolding copy_value IsTagged
copy_value_lem v tagged = rw (tagged, copy_value) refl

-- the type whose member this is
abbrev type_of : Member → ValueType
type_of unset = v_invalid
type_of (count n) = v_count
type_of (value s) = v_str_value
type_of (values vs) = v_str_values
type_of (kvs ps) = v_str_kvs
type_of (wvs ws) = v_weight_values
type_of (weight w) = v_weight

IsTagged-type_of : (t : ValueType) (m : Member) → IsTagged t m → type_num t ≡ type_num (type_of m)
unfolding IsTagged read_member
IsTagged-type_of t m tagged = ground arith

-- Move construction from a value of any type but the invalid one loses the data: it succeeds, the
-- new value has the type, and a union that does not hold what the type names.
pub move_value_lem :
    (v : MmkvValue)
    → type_num v.type_ ≢ type_num v_invalid
    → (p : MmkvValue × MmkvValue) × (move_value v ≡ some p)
      × (p.0.type_ ≡ v.type_)
      × (¬ IsTagged p.0.type_ p.0.member)
unfolding move_value read_member
move_value_lem v carries = (
  (
    record { status_code = v.status_code; type_ = v.type_; member = unset },
    record { status_code = s_unset; type_ = v_invalid; member = v.member },
  ),
  refl,
  refl,
  λ t. carries (IsTagged-type_of v.type_ unset t),
)

swap_members-eq :
    (t : ValueType) (a b : Member) → IsTagged t a → IsTagged t b → swap_members t (a, b) ≡ (b, a)
unfolding IsTagged swap_members read_member
swap_members-eq t a b ta tb = ground (arith, ta, tb)

-- `swap` exchanges two values of one type, if each union holds what its type names.
pub swap_values-same :
    (a b : MmkvValue)
    → a.type_ ≡ b.type_
    → IsTagged a.type_ a.member
    → IsTagged b.type_ b.member
    → swap_values a b ≡ (b, a)
unfolding swap_values
swap_values-same a b same ta tb =
    let test : (type_num a.type_ == type_num b.type_) ≡ true = rw same ((==_iff _ _).1 refl) in
    let moved = subst (λ t. IsTagged t a.member) same ta in
    rw (test, swap_values) (rw (swap_members-eq b.type_ a.member b.member moved tb) refl)

-- Between values of different types `swap` exchanges the types alone: each union then holds a
-- member that its type does not name.
pub swap_values-differ :
    (a b : MmkvValue)
    → type_num a.type_ ≢ type_num b.type_
    → IsTagged a.type_ a.member
    → IsTagged b.type_ b.member
    → (¬ IsTagged (swap_values a b).0.type_ (swap_values a b).0.member)
      × (¬ IsTagged (swap_values a b).1.type_ (swap_values a b).1.member)
unfolding swap_values
swap_values-differ a b differ ta tb =
    let test : (type_num a.type_ == type_num b.type_) ≡ false = ground (arith, differ) in
    let of_a = IsTagged-type_of a.type_ a.member ta in
    let of_b = IsTagged-type_of b.type_ b.member tb in
    rw (test, swap_values)
      (
        λ t. differ (of_a ∙ sym (IsTagged-type_of b.type_ a.member t)),
        λ t. differ (IsTagged-type_of a.type_ b.member t ∙ sym of_b),
      )

-- A value whose union holds what its type names never yields its key-value list: the assertion in
-- `ToStrKvs` fails for a key-value list as for every other type.
pub to_str_kvs_lem : (v : MmkvValue) → IsTagged v.type_ v.member → to_str_kvs v ≡ none
unfolding to_str_kvs IsTagged read_member
to_str_kvs_lem v tagged = ground (arith, tagged)

-- Filling a value of any type that carries data takes the status code and the field of the
-- response that the type names, whatever the union held before.
pub from_response-IsTagged :
    (double_of : ℕ → Weight) (r : Response) (v : MmkvValue)
    → type_num v.type_ ≢ type_num v_invalid
    → type_num v.type_ ≢ type_num v_usr
    → IsTagged (from_response double_of r v).type_ (from_response double_of r v).member
      × (read_member v.type_ (from_response double_of r v).member
          ≡ some (response_member double_of v.type_ r unset))
unfolding from_response response_member IsTagged read_member
from_response-IsTagged double_of r v valid own = ground (arith, valid, own)
