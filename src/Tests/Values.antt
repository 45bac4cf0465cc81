-- ===== src/Tests/Values.antt =====
-- Values and arrays at concrete inputs.
use mmkvc.Prelude.{ℕ, ◌≡◌, refl, some, List, [], ◌∷◌, take, arith}
use mmkvc.Client.Value.{v_count, v_str_kvs, unset, count, kvs, MmkvValue, read_member, move_value}
use mmkvc.Client.Value.Laws.{IsTagged, move_value_lem}
use mmkvc.Algo.ReservedArray.{shrink_array}
use mmkvc.Algo.ReservedArray.Laws.{shrink_array_lem}

abbrev three_found : MmkvValue
three_found = record { status_code = 0; type_ = v_count; member = count 3 }

abbrev eight_found : MmkvValue
eight_found = record { status_code = 0; type_ = v_count; member = count 8 }

abbrev empty_list : MmkvValue
empty_list = record { status_code = 0; type_ = v_str_kvs; member = kvs [] }

three-IsTagged : IsTagged v_count (count 3)
unfolding IsTagged read_member
three-IsTagged = refl

eight-IsTagged : IsTagged v_count (count 8)
unfolding IsTagged read_member
eight-IsTagged = refl

list-IsTagged : IsTagged v_str_kvs (kvs [])
unfolding IsTagged read_member
list-IsTagged = refl

move_value_lem_example :
    (p : MmkvValue × MmkvValue) × (move_value three_found ≡ some p)
    × (p.0.type_ ≡ v_count)
    × (¬ IsTagged p.0.type_ p.0.member)
move_value_lem_example = move_value_lem three_found (λ e. omega arith)

abbrev fresh : MmkvValue
fresh = record { status_code = 16; type_ = v_count; member = unset }

abbrev two_items : List ℕ
two_items = 7 ∷ 8 ∷ []

shrink_array_lem_example : shrink_array 1 two_items ≡ take 1 two_items
shrink_array_lem_example = shrink_array_lem 1 two_items

abbrev short_array : List ℕ
short_array = 7 ∷ []

abbrev long_array : List ℕ
long_array = 1 ∷ 2 ∷ 3 ∷ []
